-- ===== src/Dmi/TypeOption.antt =====
-- The option --type of dmidecode, of core/dmidecode/dmiopt.c. The array of types has 256 entries: a
-- write past it is `none` outside; a null pointer is `none` inside.
pub mod Bounds
pub mod RoundTrip
use cpu_x.Shared.{
  ℕ, zero, suc, ◌==◌, ltb, if◌then◌else◌, Bool, true, false, ◌||◌, List, [], ◌∷◌, length, set,
  codes, Option, none, some,
}
use cpu_x.Dmi.Memory.{◌>>=◌}
use cpu_x.Dmi.Numbers.{strcasecmp_equal, strtoul}

abbrev pub opt_type_keyword : List (List ℕ × List ℕ)
opt_type_keyword =
    (codes "bios", 0 ∷ 13 ∷ [])
    ∷ (codes "system", 1 ∷ 12 ∷ 15 ∷ 23 ∷ 32 ∷ [])
    ∷ (codes "baseboard", 2 ∷ 10 ∷ 41 ∷ [])
    ∷ (codes "chassis", 3 ∷ [])
    ∷ (codes "processor", 4 ∷ [])
    ∷ (codes "memory", 5 ∷ 6 ∷ 16 ∷ 17 ∷ [])
    ∷ (codes "cache", 7 ∷ [])
    ∷ (codes "connector", 8 ∷ [])
    ∷ (codes "slot", 9 ∷ [])
    ∷ []

-- `calloc(256, sizeof(u8))`.
abbrev pub zero_types : ℕ → List Bool
zero_types zero = []
zero_types (suc n) = false ∷ zero_types n

-- `p[i] = 1`.
unfoldable pub mark : List Bool → ℕ → Option (List Bool)
mark p i = if ltb i (length p) then some (set p i true) else none

unfoldable pub mark_all : List Bool → List ℕ → Option (List Bool)
mark_all p [] = some p
mark_all p (i ∷ is) = mark p i >>= λ p'. mark_all p' is

abbrev pub types_of_keyword : List (List ℕ × List ℕ) → List ℕ → Option (List ℕ)
types_of_keyword [] arg = none
types_of_keyword ((keyword, types) ∷ keywords) arg =
    if strcasecmp_equal arg keyword then some types else types_of_keyword keywords arg

abbrev pub is_separator : ℕ → Bool
is_separator c = c == b',' || c == b' '

-- `*next != '\0' && *next != ',' && *next != ' '` does not hold.
abbrev pub is_end : List ℕ → Bool
is_end [] = true
is_end (c ∷ s) = is_separator c

abbrev pub skip_separators : List ℕ → List ℕ
skip_separators [] = []
skip_separators (c ∷ s) = let rest = skip_separators s in if is_separator c then rest else c ∷ s

-- The loop over the numbers, with `left` rounds at most.
unfoldable pub parse_type_numbers : ℕ → List Bool → List ℕ → Option (Option (List Bool))
parse_type_numbers zero p arg = none
parse_type_numbers (suc left) p [] = some (some p)
parse_type_numbers (suc left) p (c ∷ s) = elim (strtoul 0 (c ∷ s)) [
  | none ↦ some none
  | some (val, next) ↦
      if is_end next
      then (if ltb 0xff val
          then some none
          else (mark p val >>= λ p'. parse_type_numbers left p' (skip_separators next)))
      else some none
]

-- The array of the first call, or a new one.
abbrev pub allocated : Bool → Option (List Bool) → Option (List Bool)
allocated has_memory (some p) = some p
allocated has_memory none = if has_memory then some (zero_types 256) else none

-- `has_memory` says whether `calloc` succeeds.
unfoldable pub parse_opt_type : Bool → Option (List Bool) → List ℕ → Option (Option (List Bool))
parse_opt_type has_memory type arg = elim (allocated has_memory type) [
  | none ↦ some none
  | some p ↦ elim (types_of_keyword opt_type_keyword arg) [
    | some types ↦ mark_all p types >>= λ p'. some (some p')
    | none ↦ parse_type_numbers (suc (length arg)) p arg
  ]
]
