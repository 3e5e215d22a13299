-- ===== src/Options/Selected/Sound.antt =====
-- Calls of src/options.cpp in any order: no `at` is out of range.
use cpu_x.Shared.{
  ℕ, zero, suc, ◌+◌, ◌%◌, ◌^◌, ◌<◌, ltb, if◌then◌else◌, Bool, true, false, Bool-cases, List, [],
  ◌∷◌, length, get_elem?, get_or, some, ◌≡◌, ◌≢◌, ◌⊎◌, inl, inr, refl, ap, ◌∙◌, arith, lt→ltb,
  ==-of_ne,
}
use cpu_x.Options.{Limited, Options}
use cpu_x.Options.Selected.{
  check_valid, selected, get_selected_type, check_selected_core_valid, get_selected_core,
  core_offset,
}

-- Bytes are bytes, and where the processor is known, there is a number of cores for each type.
pub record IsSound (o : Options) : Type 0 where
  pub types_in_range : o.selected_type.second < 2 ^ 8
  pub known :
      (length o.selected_core.second ≡ 0) ⊎ (length o.selected_core.second ≡ o.selected_type.second)

-- The selected type is one of the processor's.
abbrev pub IsSettled : Options → Type 0
IsSettled o = o.selected_type.first < length o.selected_core.second

-- What `get_selected_type` leaves.
abbrev pub settle : Options → Options
settle o = (get_selected_type o).1

pub settled :
    (o : Options)
    → IsSound o
    → length o.selected_core.second ≢ 0
    → IsSettled (settle o) × IsSound (settle o)
unfolding selected check_valid
settled o h some_types = elim (Bool-cases (ltb o.selected_type.first o.selected_type.second)) [
  | inl valid ↦
      rw valid
        (ground (arith, h.known), record { types_in_range = h.types_in_range; known = h.known })
  | inr past ↦
      rw past
        (ground (arith, h.known), record { types_in_range = h.types_in_range; known = h.known })
]

pub selected-valid : (l : Limited) → l.first < l.second → selected l ≡ (l.first, l)
unfolding selected check_valid
selected-valid l h =
    let valid : check_valid l l.first ≡ (true, l) = rw (lt→ltb l.first l.second h) refl in
    ap (λ (r : Bool × Limited). (r.1.first, r.1)) valid

pub in_types :
    (o : Options) → IsSound o → IsSettled o → o.selected_type.first < o.selected_type.second
in_types o h s = ground (arith, h.known)

pub get_selected_type-settled :
    (o : Options) → IsSound o → IsSettled o → get_selected_type o ≡ (o.selected_type.first, o)
get_selected_type-settled o h s = rw (selected-valid o.selected_type (in_types o h s)) refl

pub get_selected_type-settle :
    (o : Options)
    → IsSound o
    → length o.selected_core.second ≢ 0
    → get_selected_type (settle o) ≡ get_selected_type o
unfolding selected
get_selected_type-settle o h some_types =
    get_selected_type-settled (settle o) (settled o h some_types).1 (settled o h some_types).0

-- How many cores the `d` types from `i` on have.
abbrev pub cores_between : List ℕ → ℕ → ℕ → ℕ
cores_between counts i zero = 0
cores_between counts i (suc d) = get_or counts i 0 + cores_between counts (suc i) d

pub get_elem?-get_or : (xs : List ℕ) (i : ℕ) → i < length xs → get_elem? xs i ≡ some (get_or xs i 0)
get_elem?-get_or [] i h = absurd (omega arith)
get_elem?-get_or (x ∷ xs) zero h = refl
get_elem?-get_or (x ∷ xs) (suc i) h = get_elem?-get_or xs i (omega arith)

pub core_offset-settled :
    (left d : ℕ) (o : Options) (i offset : ℕ)
    → IsSound o
    → IsSettled o
    → o.selected_type.first ≡ i + d
    → d < left
    → offset < 2 ^ 16
    → core_offset left o i offset
      ≡ some ((offset + cores_between o.selected_core.second i d) % 2 ^ 16, o)
unfolding core_offset
core_offset-settled zero d o i offset h s e enough small = absurd (omega arith)
core_offset-settled (suc left) zero o i offset h s e enough small =
    let last : ltb i o.selected_type.first ≡ false = ground arith in
    rw (selected-valid o.selected_type (in_types o h s), last)
      (ap (λ (k : ℕ). some (k, o)) (omega arith))
core_offset-settled (suc left) (suc d) o i offset h s e enough small =
    let count = get_or o.selected_core.second i 0 in
    rw
      (
        selected-valid o.selected_type (in_types o h s),
        lt→ltb i o.selected_type.first (omega arith),
        get_elem?-get_or o.selected_core.second i (omega arith),
      )
      (core_offset-settled left d o (suc i) ((offset + count) % 2 ^ 16) h s (omega arith)
          (omega arith) (omega arith)
        ∙ ap (λ (k : ℕ). some (k, o)) (omega arith))

-- The selected core is one of those of the selected type.
pub get_selected_core-settled :
    (o : Options)
    → IsSound o
    → IsSettled o
    → get_selected_core o ≡ (
        let count = get_or o.selected_core.second o.selected_type.first 0 in
        let core = if ltb o.selected_core.first count then o.selected_core.first else 0 in
        some (core, record o { selected_core = record o.selected_core { first = core } }))
unfolding get_selected_core check_selected_core_valid
get_selected_core-settled o h s =
    elim (Bool-cases
      (ltb o.selected_core.first (get_or o.selected_core.second o.selected_type.first 0))) [
        | inl valid ↦
            rw
              (
                ==-of_ne (length o.selected_core.second) 0 (omega arith),
                selected-valid o.selected_type (in_types o h s),
                get_elem?-get_or o.selected_core.second o.selected_type.first s,
                valid,
              )
              refl
        | inr past ↦
            rw
              (
                ==-of_ne (length o.selected_core.second) 0 (omega arith),
                selected-valid o.selected_type (in_types o h s),
                get_elem?-get_or o.selected_core.second o.selected_type.first s,
                past,
              )
              refl
      ]

selected-settle : (l : Limited) → 0 < l.second → selected (selected l).1 ≡ selected l
unfolding selected check_valid
selected-settle l h = elim (Bool-cases (ltb l.first l.second)) [
  | inl valid ↦ rw (valid, valid) refl
  | inr past ↦ rw (past, selected-valid (record l { first = 0 }) h) refl
]

pub some_type :
    (o : Options) → IsSound o → length o.selected_core.second ≢ 0 → 0 < o.selected_type.second
some_type o h some_types = ground (arith, h.known)

pub core_offset-settle :
    (left : ℕ) (o : Options) (i offset : ℕ)
    → 0 < o.selected_type.second
    → core_offset (suc left) (settle o) i offset ≡ core_offset (suc left) o i offset
unfolding core_offset
core_offset-settle left o i offset h = rw (selected-settle o.selected_type h) refl
