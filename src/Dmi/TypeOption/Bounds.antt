-- ===== src/Dmi/TypeOption/Bounds.antt =====
-- `parse_opt_type` of core/dmidecode/dmiopt.c: it returns on every text, within its array.
use cpu_x.Shared.{
  ℕ, zero, suc, ◌==◌, ◌<◌, ◌≤◌, ltb, if◌then◌else◌, Bool, true, false, Bool-cases, Option-cases,
  List, [], ◌∷◌, length, length-set, get_elem?, get_elem?-set_self, get_elem?-set_ne, set, All,
  Option, none, some, ◌≡◌, inl, inr, refl, ap, sym, ◌∙◌, subst, arith, lt→ltb,
}
use cpu_x.Dmi.Memory.{◌>>=◌}
use cpu_x.Dmi.Numbers.{strcasecmp_equal, strtoul}
use cpu_x.Dmi.Numbers.Shorter.{IsShorter, strtoul-IsShorter}
use cpu_x.Dmi.TypeOption.{
  opt_type_keyword, zero_types, mark, mark_all, types_of_keyword, is_end, skip_separators,
  parse_type_numbers, parse_opt_type, is_separator,
}

skip_separators-length : (s : List ℕ) → length (skip_separators s) ≤ length s
skip_separators-length [] = omega arith
skip_separators-length (c ∷ s) = elim (Bool-cases (is_separator c)) [
  | inl separator ↦ rw separator (omega (arith, skip_separators-length s))
  | inr other ↦ rw other (omega arith)
]

-- The array has the same size, and what was marked is marked.
pub record Grows (p p' : List Bool) : Type 0 where
  pub size : length p' ≡ length p
  pub keeps : (i : ℕ) → get_elem? p i ≡ some true → get_elem? p' i ≡ some true

Grows-refl : (p : List Bool) → Grows p p
Grows-refl p = record { size = refl; keeps = λ i h. h }

Grows-trans : (p q r : List Bool) → Grows p q → Grows q r → Grows p r
Grows-trans p q r a b = record { size = b.size ∙ a.size; keeps = λ i h. b.keeps i (a.keeps i h) }

-- The end of `parse_opt_type`: a null pointer, or an array.
abbrev pub Ends : List Bool → Option (List Bool) → Type 0
Ends p none = Unit
Ends p (some p') = Grows p p'

pub mark-Grows :
    (p : List Bool) (i : ℕ)
    → i < length p
    → (p' : List Bool) × (mark p i ≡ some p') × Grows p p' × (get_elem? p' i ≡ some true)
unfolding mark
mark-Grows p i h = (
  set p i true,
  rw (lt→ltb i (length p) h) refl,
  record {
    size = length-set p i true;
    keeps = λ j e. elim (Bool-cases (i == j)) [
      | inl same ↦
          subst (λ k. get_elem? (set p i true) k ≡ some true) (ground arith)
            (get_elem?-set_self p i true h)
      | inr other ↦ get_elem?-set_ne p i j true (ground arith) ∙ e
    ];
  },
  get_elem?-set_self p i true h,
)

pub mark_all-Grows :
    (p : List Bool) (is : List ℕ)
    → 256 ≤ length p
    → All (λ (i : ℕ). i < 256) is
    → (p' : List Bool) × (mark_all p is ≡ some p') × Grows p p'
unfolding mark_all
mark_all-Grows p [] size h = (p, refl, Grows-refl p)
mark_all-Grows p (i ∷ is) size (h, hs) =
    let (q, e, g, m) = mark-Grows p i (omega arith) in
    let (r, es, gs) = mark_all-Grows q is (omega (arith, g.size)) hs in
    (r, rw e es, Grows-trans p q r g gs)

Ends-after : (p q : List Bool) (r : Option (List Bool)) → Grows p q → Ends q r → Ends p r
Ends-after p q none g h = tt
Ends-after p q (some r) g h = Grows-trans p q r g h

parse_type_numbers-Ends :
    (left : ℕ) (p : List Bool) (arg : List ℕ)
    → 256 ≤ length p
    → length arg < left
    → (r : Option (List Bool)) × (parse_type_numbers left p arg ≡ some r) × Ends p r
unfolding parse_type_numbers
parse_type_numbers-Ends zero p arg size enough = absurd (omega arith)
parse_type_numbers-Ends (suc left) p [] size enough = (some p, refl, Grows-refl p)
parse_type_numbers-Ends (suc left) p (c ∷ s) size enough = elim (Option-cases (strtoul 0 (c ∷ s))) [
  | inl no_number ↦ (none, rw (no_number, parse_type_numbers) refl, tt)
  | inr ((val, next), number) ↦ elim (Bool-cases (is_end next)) [
    | inl ends ↦ elim (Bool-cases (ltb 0xff val)) [
      | inl too_large ↦ (none, rw (number, ends, too_large, parse_type_numbers) refl, tt)
      | inr fits ↦
          (let (q, e, g, m) = mark-Grows p val (ground arith) in
            let short : length next < suc (length s) =
              subst (IsShorter (suc (length s))) number (strtoul-IsShorter 0 (c ∷ s)) in
            let (r, es, h) =
              parse_type_numbers-Ends left q (skip_separators next) (omega (arith, g.size))
                (omega (arith, skip_separators-length next)) in
            (r, rw (number, ends, fits, e, parse_type_numbers) es, Ends-after p q r g h))
    ]
    | inr unfinished ↦ (none, rw (number, unfinished, parse_type_numbers) refl, tt)
  ]
]

types_of_keyword-bound :
    (keywords : List (List ℕ × List ℕ)) (arg types : List ℕ)
    → All (λ (k : List ℕ × List ℕ). All (λ (i : ℕ). i < 256) k.1) keywords
    → types_of_keyword keywords arg ≡ some types
    → All (λ (i : ℕ). i < 256) types
types_of_keyword-bound [] arg types h e = cc
types_of_keyword-bound ((keyword, is) ∷ keywords) arg types (h, hs) e =
    let rest = types_of_keyword keywords arg in
    elim (Bool-cases (strcasecmp_equal arg keyword)) [
      | inl same ↦
          (let e' : some is ≡ some types = sym (ap (λ b. if b then some is else rest) same) ∙ e in
            subst (All (λ (i : ℕ). i < 256)) (cc) h)
      | inr other ↦
          types_of_keyword-bound keywords arg types hs
            (sym (ap (λ b. if b then some is else rest) other) ∙ e)
    ]

keywords-bound : All (λ (k : List ℕ × List ℕ). All (λ (i : ℕ). i < 256) k.1) opt_type_keyword
keywords-bound = ground arith

pub length-zero_types : (n : ℕ) → length (zero_types n) ≡ n
length-zero_types zero = refl
length-zero_types (suc n) = ap suc (length-zero_types n)

-- The array of the options, where there is one.
abbrev pub IsTypes : Option (List Bool) → Type 0
IsTypes none = Unit
IsTypes (some p) = length p ≡ 256

-- What is returned for the array of the options.
abbrev pub Continues : Option (List Bool) → Option (List Bool) → Type 0
Continues type none = Unit
Continues none (some p') = length p' ≡ 256
Continues (some p) (some p') = Grows p p'

parse_types-Ends :
    (p : List Bool) (arg : List ℕ)
    → length p ≡ 256
    → (r : Option (List Bool)) × ((elim (types_of_keyword opt_type_keyword arg) [
      | some types ↦ mark_all p types >>= λ p'. some (some p')
      | none ↦ parse_type_numbers (suc (length arg)) p arg
    ])
        ≡ some r)
      × Ends p r
parse_types-Ends p arg size = elim (Option-cases (types_of_keyword opt_type_keyword arg)) [
  | inl number ↦
      rw number (parse_type_numbers-Ends (suc (length arg)) p arg (omega arith) (omega arith))
  | inr (types, keyword) ↦
      (let (p', e, g) =
          mark_all-Grows p types (omega arith)
            (types_of_keyword-bound opt_type_keyword arg types keywords-bound keyword) in
        (some p', rw (keyword, e) refl, g))
]

from_zero : (r : Option (List Bool)) → Ends (zero_types 256) r → Continues none r
from_zero none h = tt
from_zero (some p') h = h.size ∙ length-zero_types 256

from_some : (p : List Bool) (r : Option (List Bool)) → Ends p r → Continues (some p) r
from_some p none h = tt
from_some p (some p') h = h

-- `parse_opt_type` returns for every text, whether or not there is memory, and does not write outside
-- its array of 256 entries; an array that it returns has this size, and what was marked is marked.
pub parse_opt_type-Continues :
    (has_memory : Bool) (type : Option (List Bool)) (arg : List ℕ)
    → IsTypes type
    → (r : Option (List Bool)) × (parse_opt_type has_memory type arg ≡ some r) × Continues type r
unfolding parse_opt_type
parse_opt_type-Continues has_memory (some p) arg size =
    let (r, e, h) = parse_types-Ends p arg size in (r, e, from_some p r h)
parse_opt_type-Continues true none arg size =
    let (r, e, h) = parse_types-Ends (zero_types 256) arg (length-zero_types 256) in
    (r, e, from_zero r h)
parse_opt_type-Continues false none arg size = (none, refl, tt)
