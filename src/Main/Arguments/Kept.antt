-- ===== src/Main/Arguments/Kept.antt =====
-- The calls of src/options.cpp that `parse_arguments` of src/main.cpp makes, before the pages are
-- made visible and the types are known.
use cpu_x.Shared.{
  ℕ, ◌<◌, ltb, leb, lt→ltb, if◌then◌else◌, Bool, true, false, Bool-cases, Option-cases, List, [],
  get_elem?, get_elem?-some, All-get_elem?, Option, some, ◌≡◌, inl, inr, refl, ap, ◌∙◌, arith,
}
use cpu_x.Options.{Options, initial_options}
use cpu_x.Options.Selected.{
  check_valid, select, set_selected_type, set_selected_core, set_selected_stick, set_selected_gpu,
  check_selected_core_valid, get_selected_core_id,
}
use cpu_x.Options.Pages.{set_selected_page}
use cpu_x.Options.Settings.{
  set_output_type, set_refr_time, set_keymap, set_temp_unit, set_selected_test, out_dump, keymaps,
  temp_units,
}
use cpu_x.Options.Calls.{left_by}

-- What no argument changes.
abbrev pub early : Options → ℕ × List ℕ × List Bool × ℕ × ℕ × ℕ
early o = (
  o.selected_type.second, o.selected_core.second, o.page_visible, o.selected_page,
  o.selected_stick.second, o.selected_gpu.second,
)

-- The bounds, the pages and the selected page are those before `main`.
abbrev pub IsEarly : Options → Type 0
IsEarly o = early o ≡ early initial_options

pub set_selected_core-early :
    (o : Options) (n : ℕ)
    → o.selected_core.second ≡ []
    → set_selected_core o n
      ≡ some (
        true,
        record o { selected_core = record o.selected_core { first = n }; affinity = some 0 },
      )
unfolding set_selected_core check_selected_core_valid get_selected_core_id
set_selected_core-early o n none_known = rw none_known refl

pub set_selected_type-early :
    (o : Options) (n : ℕ)
    → o.selected_core.second ≡ []
    → n < o.selected_type.second
    → set_selected_type o n
      ≡ some (
        true,
        record o {
          selected_type = record o.selected_type { first = n };
          selected_core = record o.selected_core { first = 0 };
          affinity = some 0;
        },
      )
unfolding set_selected_type check_valid
set_selected_type-early o n none_known valid =
    let o' = record o { selected_type = record o.selected_type { first = n } } in
    rw (lt→ltb n o.selected_type.second valid, set_selected_core-early o' 0 none_known) refl

-- The setter returns, and keeps what is early.
abbrev pub KeepsEarly : (Options → ℕ → Option Options) → Type 0
KeepsEarly set =
    (o : Options) (n : ℕ) → IsEarly o → (o' : Options) × (set o n ≡ some o') × IsEarly o'

pub set_selected_type-KeepsEarly : KeepsEarly (λ o n. left_by (set_selected_type o n))
unfolding set_selected_type check_valid
set_selected_type-KeepsEarly o n h = elim (Bool-cases (ltb n o.selected_type.second)) [
  | inl valid ↦ (_, ap left_by (set_selected_type-early o n (ap (λ p. p.1) h) (ground arith)), h)
  | inr past ↦ (record o { selected_type = record o.selected_type { first = 0 } }, rw past refl, h)
]

hidden : (n : ℕ) → leb n 7 ≡ true → get_elem? initial_options.page_visible n ≡ some false
hidden n is_page =
    let (visible, found) = get_elem?-some initial_options.page_visible n (ground arith) in
    found
    ∙ ap some (All-get_elem? (λ b. b ≡ false) initial_options.page_visible n (ground arith) found)

pub set_selected_page-KeepsEarly : KeepsEarly (λ o n. left_by (set_selected_page o n))
unfolding set_selected_page
set_selected_page-KeepsEarly o n h =
    let h' : IsEarly (record o { selected_page = 0 }) = ap (λ p. (p.0, p.1, p.2, 0, p.4, p.5)) h in
    elim (Bool-cases (leb n 7)) [
      | inl is_page ↦
          (record o { selected_page = 0 }, rw (is_page, ap (λ p. p.2) h, hidden n is_page) refl, h')
      | inr past ↦ (record o { selected_page = 0 }, rw past refl, h')
    ]

pub if-KeepsEarly :
    (b : Bool) (x y : Bool × Options) → IsEarly x.1 → IsEarly y.1 → IsEarly (if b then x else y).1
if-KeepsEarly true x y l r = l
if-KeepsEarly false x y l r = r

pub set_selected_stick-KeepsEarly : KeepsEarly (λ o n. some (set_selected_stick o n).1)
unfolding select check_valid
set_selected_stick-KeepsEarly o n h = elim (Bool-cases (ltb n o.selected_stick.second)) [
  | inl valid ↦ (_, refl, rw valid h)
  | inr past ↦ (_, refl, rw past h)
]

pub set_selected_gpu-KeepsEarly : KeepsEarly (λ o n. some (set_selected_gpu o n).1)
unfolding select check_valid
set_selected_gpu-KeepsEarly o n h = elim (Bool-cases (ltb n o.selected_gpu.second)) [
  | inl valid ↦ (_, refl, rw valid h)
  | inr past ↦ (_, refl, rw past h)
]

pub set_refr_time-KeepsEarly : KeepsEarly (λ o n. some (set_refr_time o n).1)
unfolding set_refr_time
set_refr_time-KeepsEarly o n h = (
  _,
  refl,
  if-KeepsEarly _ (true, record o { refr_time = n }) (false, record o { refr_time = 1 }) h h,
)

pub set_selected_test-KeepsEarly : (k : ℕ) → KeepsEarly (λ o n. some (set_selected_test k o n).1)
unfolding set_selected_test
set_selected_test-KeepsEarly k o n h = (
  _,
  refl,
  if-KeepsEarly _ (true, record o { selected_test = n }) (false, record o { selected_test = 0 }) h
      h,
)

pub set_output_type-IsEarly : (o : Options) (n : ℕ) → IsEarly o → IsEarly (set_output_type o n).1
unfolding set_output_type
set_output_type-IsEarly o n h =
    if-KeepsEarly _ (true, record o { output_type = n })
      (false, record o { output_type = out_dump }) h h

pub set_keymap-IsEarly : (o : Options) (n : ℕ) → IsEarly o → IsEarly (set_keymap o n).1
unfolding set_keymap
set_keymap-IsEarly o n h = elim (Option-cases (get_elem? keymaps n)) [
  | inl outside ↦ rw outside h
  | inr (k, e) ↦ rw e h
]

pub set_temp_unit-IsEarly : (o : Options) (n : ℕ) → IsEarly o → IsEarly (set_temp_unit o n).1
unfolding set_temp_unit
set_temp_unit-IsEarly o n h = elim (Option-cases (get_elem? temp_units n)) [
  | inl outside ↦ rw outside h
  | inr (u, e) ↦ rw e h
]
