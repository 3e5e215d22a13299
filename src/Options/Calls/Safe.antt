-- ===== src/Options/Calls/Safe.antt =====
-- Calls of src/options.cpp about types and cores: they return, and the options stay well-formed.
use cpu_x.Shared.{
  ℕ, ◌==◌, ◌<◌, ltb, Bool, true, false, Bool-cases, List, [], ◌∷◌, length, get_elem?-some, Option,
  some, ◌≡◌, ◌≢◌, ◌⊎◌, inl, inr, refl, arith,
}
use cpu_x.Options.{Options}
use cpu_x.Options.Selected.{
  check_valid, selected, get_selected_core, get_selected_core_id, set_selected_core,
  set_selected_type, check_selected_core_valid,
}
use cpu_x.Options.Selected.Sound.{IsSound, settle, settled}
use cpu_x.Options.Selected.Located.{get_selected_core_id-settled, settled_core}
use cpu_x.Options.Pages.{last_tab_number}
use cpu_x.Options.Pages.Moves.{HasPages}

pub record IsValid (o : Options) : Type 0 where
  pub sound : IsSound o
  pub has_pages : HasPages o
  pub page : o.selected_page < last_tab_number
  pub refresh : 0 < o.refr_time

-- The call returns, and leaves valid options.
abbrev pub Returns {ℓ} : {A : Type ℓ} → (A → Options) → Option A → Type ℓ
Returns to r = (a : _) × (r ≡ some a) × IsValid (to a)

-- What is known of the types does not depend on the selected core, nor on where the program runs.
with_core :
    (o : Options) (c : ℕ) (a : Option ℕ)
    → IsValid o
    → IsValid (record o { selected_core = record o.selected_core { first = c }; affinity = a })
with_core o c a h = record {
  sound = record { types_in_range = h.sound.types_in_range; known = h.sound.known };
  has_pages = h.has_pages;
  page = h.page;
  refresh = h.refresh;
}

pub settle-IsValid :
    (o : Options) → IsValid o → length o.selected_core.second ≢ 0 → IsValid (settle o)
settle-IsValid o h some_types = record {
  sound = (settled o h.sound some_types).1;
  has_pages = h.has_pages;
  page = h.page;
  refresh = h.refresh;
}

pub known-cases :
    (xs : List ℕ) → ((length xs == 0) ≡ true) ⊎ ((length xs ≢ 0) × ((length xs == 0) ≡ false))
known-cases [] = inl refl
known-cases (x ∷ xs) = inr (omega arith, ground arith)

check_selected_core_valid-IsValid :
    (o : Options) (n : ℕ)
    → IsValid o
    → Returns (λ (r : Bool × Options). r.1) (check_selected_core_valid o n)
unfolding check_selected_core_valid selected
check_selected_core_valid-IsValid o n h = elim (known-cases o.selected_core.second) [
  | inl unknown ↦ ((true, o), rw unknown refl, h)
  | inr (some_types, known) ↦
      (let (count, found) =
          get_elem?-some o.selected_core.second (settle o).selected_type.first
            (settled o h.sound some_types).0 in
        elim (Bool-cases (ltb n count)) [
          | inl valid ↦
              ((true, settle o), rw (known, found, valid) refl, settle-IsValid o h some_types)
          | inr past ↦ (
            (false, record (settle o) { selected_core = record o.selected_core { first = 0 } }),
            rw (known, found, past) refl,
            with_core (settle o) 0 o.affinity (settle-IsValid o h some_types),
          )
        ])
]

pub get_selected_core-IsValid :
    (o : Options) → IsValid o → Returns (λ (r : ℕ × Options). r.1) (get_selected_core o)
unfolding get_selected_core
get_selected_core-IsValid o h =
    let (r, returned, h') = check_selected_core_valid-IsValid o o.selected_core.first h in
    ((r.1.selected_core.first, r.1), rw returned refl, h')

pub get_selected_core_id-IsValid :
    (o : Options) → IsValid o → Returns (λ (r : ℕ × Options). r.1) (get_selected_core_id o)
unfolding get_selected_core_id
get_selected_core_id-IsValid o h = elim (known-cases o.selected_core.second) [
  | inl unknown ↦ ((0, o), rw unknown refl, h)
  | inr (some_types, known) ↦ (
    _,
    get_selected_core_id-settled o h.sound some_types,
    with_core (settle o) (settled_core (settle o)) o.affinity (settle-IsValid o h some_types),
  )
]

pub set_selected_core-IsValid :
    (o : Options) (n : ℕ)
    → IsValid o
    → Returns (λ (r : Bool × Options). r.1) (set_selected_core o n)
unfolding set_selected_core
set_selected_core-IsValid o n h =
    let (r, returned, h') = check_selected_core_valid-IsValid o n h in
    elim (Bool-cases r.0) [
      | inl valid ↦
          (let (s, returned', h'') =
              get_selected_core_id-IsValid _ (with_core r.1 n r.1.affinity h') in
            (
              (true, record s.1 { affinity = some s.0 }),
              rw (returned, valid, returned') refl,
              with_core s.1 s.1.selected_core.first (some s.0) h'',
            ))
      | inr past ↦ ((false, r.1), rw (returned, past) refl, h')
    ]

pub set_selected_type-IsValid :
    (o : Options) (n : ℕ)
    → IsValid o
    → Returns (λ (r : Bool × Options). r.1) (set_selected_type o n)
unfolding set_selected_type check_valid
set_selected_type-IsValid o n h =
    let with_type : (t : ℕ)
        → IsValid (record o { selected_type = record o.selected_type { first = t } }) =
      λ t. record {
        sound = record { types_in_range = h.sound.types_in_range; known = h.sound.known };
        has_pages = h.has_pages;
        page = h.page;
        refresh = h.refresh;
      } in
    elim (Bool-cases (ltb n o.selected_type.second)) [
      | inl valid ↦
          (let (s, returned, h') = set_selected_core-IsValid _ 0 (with_type n) in
            ((true, s.1), rw (valid, returned) refl, h'))
      | inr past ↦ (
        (false, record o { selected_type = record o.selected_type { first = 0 } }),
        rw past refl,
        with_type 0,
      )
    ]
