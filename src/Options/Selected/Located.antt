-- ===== src/Options/Selected/Located.antt =====
-- `get_selected_core_id` of src/options.cpp: the core of the kernel that the choice of a type and of
-- a core of it stands for.
use cpu_x.Shared.{
  ℕ, zero, suc, ◌+◌, ◌%◌, ◌^◌, ◌<◌, ◌≤◌, ltb, if◌then◌else◌, true, List, [], ◌∷◌, ◌++◌, length,
  get_elem?, get_elem?-append_left, get_elem?-append_right, get_or, some, ◌≡◌, ◌≢◌, refl, ap, ap₂,
  lt-of_get_elem?, sym, ◌∙◌, arith, lt→ltb, ==-of_ne,
}
use cpu_x.Dmi.Memory.{◌>>=◌}
use cpu_x.Options.{Options}
use cpu_x.Options.Selected.{
  get_selected_type, get_selected_core, core_offset, get_selected_core_id,
  check_selected_core_valid, check_valid, set_selected_core, set_selected_type,
}
use cpu_x.Options.Selected.Sound.{
  IsSound, IsSettled, settle, settled, selected-valid, get_selected_type-settled, get_elem?-get_or,
  cores_between, core_offset-settled, core_offset-settle, get_selected_core-settled, in_types,
  some_type,
}

-- The cores `i` and on of type `t`, `n` of them.
abbrev pub cores_of : ℕ → ℕ → ℕ → List (ℕ × ℕ)
cores_of t i zero = []
cores_of t i (suc n) = (t, i) ∷ cores_of t (suc i) n

-- The cores of the machine as the kernel numbers them: type by type, each with its number in its type.
abbrev pub all_cores : ℕ → List ℕ → List (ℕ × ℕ)
all_cores t [] = []
all_cores t (n ∷ counts) = cores_of t 0 n ++ all_cores (suc t) counts

length-cores_of : (t i n : ℕ) → length (cores_of t i n) ≡ n
length-cores_of t i zero = refl
length-cores_of t i (suc n) = ap suc (length-cores_of t (suc i) n)

get_elem?-cores_of : (t i n k : ℕ) → k < n → get_elem? (cores_of t i n) k ≡ some (t, i + k)
get_elem?-cores_of t i zero k h = absurd (omega arith)
get_elem?-cores_of t i (suc n) zero h = ap (λ (j : ℕ). some (t, j)) (omega arith)
get_elem?-cores_of t i (suc n) (suc k) h =
    get_elem?-cores_of t (suc i) n k (omega arith) ∙ ap (λ (j : ℕ). some (t, j)) (omega arith)

cores_between-cons :
    (n : ℕ) (counts : List ℕ) (i d : ℕ)
    → cores_between (n ∷ counts) (suc i) d ≡ cores_between counts i d
cores_between-cons n counts i zero = refl
cores_between-cons n counts i (suc d) =
    ap (λ (k : ℕ). get_or counts i 0 + k) (cores_between-cons n counts (suc i) d)

pub get_elem?-all_cores :
    (counts : List ℕ) (t i c : ℕ)
    → c < get_or counts i 0
    → get_elem? (all_cores t counts) (cores_between counts 0 i + c) ≡ some (t + i, c)
get_elem?-all_cores [] t i c h = absurd (omega arith)
get_elem?-all_cores (n ∷ counts) t zero c h =
    ap (get_elem? (all_cores t (n ∷ counts))) (omega arith)
    ∙ get_elem?-append_left (cores_of t 0 n) (all_cores (suc t) counts) c
        (omega (arith, length-cores_of t 0 n))
    ∙ get_elem?-cores_of t 0 n c h
    ∙ ap₂ (λ (j k : ℕ). some (j, k)) (omega arith) (omega arith)
get_elem?-all_cores (n ∷ counts) t (suc i) c h =
    get_elem?-append_right (cores_of t 0 n) (all_cores (suc t) counts)
      (cores_between counts 0 i + c) (cores_between (n ∷ counts) 0 (suc i) + c)
      (omega (arith, length-cores_of t 0 n, cores_between-cons n counts 0 i))
    ∙ get_elem?-all_cores counts (suc t) i c h
    ∙ ap (λ (j : ℕ). some (j, c)) (omega arith)

-- The core that `get_selected_core_id` names when type `t` is selected, and core `c` of it.
abbrev pub core_id : Options → ℕ → ℕ → ℕ
core_id o t c = (cores_between o.selected_core.second 0 t + c) % 2 ^ 16

-- The selected core of the selected type, where it has one, and else its first.
abbrev pub settled_core : Options → ℕ
settled_core o =
    if ltb o.selected_core.first (get_or o.selected_core.second o.selected_type.first 0)
    then o.selected_core.first
    else 0

abbrev pub settle_core : Options → Options
settle_core o = record o { selected_core = record o.selected_core { first = settled_core o } }

core_offset-any :
    (o : Options)
    → IsSound o
    → length o.selected_core.second ≢ 0
    → core_offset 257 o 0 0
      ≡ some
          (cores_between o.selected_core.second 0 (settle o).selected_type.first % 2 ^ 16, settle o)
core_offset-any o h some_types =
    let (s, h') = settled o h some_types in
    sym (core_offset-settle 256 o 0 0 (some_type o h some_types))
    ∙ core_offset-settled 257 (settle o).selected_type.first (settle o) 0 0 h' s (omega arith)
        (omega (arith, h'.types_in_range, in_types (settle o) h' s)) (omega arith)
    ∙ ap (λ (k : ℕ). some (k % 2 ^ 16, settle o)) (omega arith)

pub get_selected_core_id-settled :
    (o : Options)
    → IsSound o
    → length o.selected_core.second ≢ 0
    → get_selected_core_id o
      ≡ some (
        core_id o (settle o).selected_type.first (settled_core (settle o)),
        settle_core (settle o),
      )
unfolding get_selected_core_id
get_selected_core_id-settled o h some_types =
    let (s, h') = settled o h some_types in
    rw
      (
        ==-of_ne (length o.selected_core.second) 0 some_types,
        core_offset-any o h some_types,
        get_selected_core-settled (settle o) h' s,
      )
      (ap (λ (k : ℕ). some (k, settle_core (settle o))) (omega arith))

-- Where type `t` is selected and has a core `n`, `set_selected_core` selects it, and the program
-- runs on the core of the kernel with that number in that type.
set_selected_core-settled :
    (o : Options) (n : ℕ)
    → IsSound o
    → IsSettled o
    → n < get_or o.selected_core.second o.selected_type.first 0
    → set_selected_core o n
      ≡ some (
        true,
        record o {
          selected_core = record o.selected_core { first = n };
          affinity = some (core_id o o.selected_type.first n);
        },
      )
unfolding set_selected_core check_selected_core_valid
set_selected_core-settled o n h s has_core =
    let o' = record o { selected_core = record o.selected_core { first = n } } in
    let h' : IsSound o' = record { types_in_range = h.types_in_range; known = h.known } in
    rw
      (
        ==-of_ne (length o.selected_core.second) 0 (omega arith),
        selected-valid o.selected_type (in_types o h s),
        get_elem?-get_or o.selected_core.second o.selected_type.first s,
        lt→ltb n (get_or o.selected_core.second o.selected_type.first 0) has_core,
        get_selected_core_id-settled o' h' (omega arith),
        selected-valid o.selected_type (in_types o h s),
        lt→ltb n (get_or o.selected_core.second o.selected_type.first 0) has_core,
      )
      refl

pub core_id-all_cores :
    (o : Options) (t c : ℕ)
    → c < get_or o.selected_core.second t 0
    → length (all_cores 0 o.selected_core.second) ≤ 2 ^ 16
    → get_elem? (all_cores 0 o.selected_core.second) (core_id o t c) ≡ some (t, c)
core_id-all_cores o t c has_core few =
    let located = get_elem?-all_cores o.selected_core.second 0 t c has_core in
    ap (get_elem? (all_cores 0 o.selected_core.second)) (
      omega (
        arith,
        lt-of_get_elem? (all_cores 0 o.selected_core.second)
            (cores_between o.selected_core.second 0 t + c) located,
      ))
    ∙ located
    ∙ ap (λ (j : ℕ). some (j, c)) (omega arith)

settled_core-bound :
    (o : Options)
    → 0 < get_or o.selected_core.second o.selected_type.first 0
    → settled_core o < get_or o.selected_core.second o.selected_type.first 0
settled_core-bound o h = ground arith

-- Where the types of core are known, at most 2 ^ 16 cores are numbered, and each type has a core,
-- `get_selected_core_id` returns the place, among the cores of all the types in their order, of a
-- core that is the selected one of the selected type, as `get_selected_type` and
-- `get_selected_core` then return them without a change of the options.
pub get_selected_core_id-all_cores :
    (o : Options)
    → IsSound o
    → length o.selected_core.second ≢ 0
    → length (all_cores 0 o.selected_core.second) ≤ 2 ^ 16
    → ((t : ℕ) → t < length o.selected_core.second → 0 < get_or o.selected_core.second t 0)
    → (id : ℕ) × (o' : Options) × (t : ℕ) × (c : ℕ) × (get_selected_core_id o ≡ some (id, o'))
      × (get_selected_type o' ≡ (t, o'))
      × (get_selected_core o' ≡ some (c, o'))
      × (get_elem? (all_cores 0 o.selected_core.second) id ≡ some (t, c))
get_selected_core_id-all_cores o h some_types few each =
    let (s, h') = settled o h some_types in
    let o' = settle_core (settle o) in
    let t = (settle o).selected_type.first in
    let h'' : IsSound o' = record { types_in_range = h'.types_in_range; known = h'.known } in
    let bound = settled_core-bound (settle o) (each t s) in
    (
      core_id o t (settled_core (settle o)),
      o',
      t,
      settled_core (settle o),
      get_selected_core_id-settled o h some_types,
      get_selected_type-settled o' h'' s,
      get_selected_core-settled o' h'' s
          ∙ rw (lt→ltb (settled_core (settle o)) (get_or o.selected_core.second t 0) bound) refl,
      core_id-all_cores o t (settled_core (settle o)) bound few,
    )

-- Where the types of core are known and at most 2 ^ 16 cores are numbered, to choose a type and then
-- one of its cores succeeds, selects both and nothing else, and makes the program run on the core
-- with this place among the cores of all the types in their order.
set_selected_type-set_selected_core :
    (o : Options) (t n : ℕ)
    → IsSound o
    → t < length o.selected_core.second
    → n < get_or o.selected_core.second t 0
    → length (all_cores 0 o.selected_core.second) ≤ 2 ^ 16
    → (id : ℕ) × ((set_selected_type o t >>= λ r. set_selected_core r.1 n)
        ≡ some (
          true,
          record o {
            selected_type = record o.selected_type { first = t };
            selected_core = record o.selected_core { first = n };
            affinity = some id;
          },
        ))
      × (get_elem? (all_cores 0 o.selected_core.second) id ≡ some (t, n))
unfolding set_selected_type check_valid
set_selected_type-set_selected_core o t n h one_of_types has_core few =
    let o₁ = record o { selected_type = record o.selected_type { first = t } } in
    let h₁ : IsSound o₁ = record { types_in_range = h.types_in_range; known = h.known } in
    let o₂ = record o₁ {
      selected_core = record o.selected_core { first = 0 };
      affinity = some (core_id o t 0);
    } in
    let h₂ : IsSound o₂ = record { types_in_range = h.types_in_range; known = h.known } in
    (
      core_id o t n,
      rw
          (
            lt→ltb t o.selected_type.second (ground (arith, h.known)),
            set_selected_core-settled o₁ 0 h₁ one_of_types (omega arith),
          )
          (set_selected_core-settled o₂ n h₂ one_of_types has_core),
      core_id-all_cores o t n has_core few,
    )
