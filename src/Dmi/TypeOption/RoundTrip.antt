-- ===== src/Dmi/TypeOption/RoundTrip.antt =====
-- `parse_opt_type` of core/dmidecode/dmiopt.c on a printed list of types.
use cpu_x.Shared.{
  ℕ, zero, suc, ◌+◌, ◌/◌, ◌==◌, ◌<◌, ◌≤◌, ltb, Bool, true, false, Bool-cases, Option-cases, ◌||◌,
  List, [], ◌∷◌, ◌++◌, length, length-append, get_elem?, get_elem?-set_self, get_elem?-set_ne, set,
  length-set, All, none, some, ◌≡◌, inl, inr, refl, ap, ◌∙◌, subst, arith, lt→ltb, ==-of_ne,
}
use cpu_x.Dmi.Memory.{◌>>=◌}
use cpu_x.Dmi.Print.{decimal}
use cpu_x.Dmi.Numbers.{to_lower, strtoul}
use cpu_x.Dmi.Numbers.Decimal.{
  AtEnd, ge→ltb, lt→leb, decimal-one, decimal-two, decimal-three, strtoul-decimal,
}
use cpu_x.Dmi.TypeOption.{
  opt_type_keyword, zero_types, mark, mark_all, types_of_keyword, is_end, skip_separators,
  parse_type_numbers, parse_opt_type,
}
use cpu_x.Dmi.TypeOption.Bounds.{length-zero_types}

-- The numbers behind the first, each behind a comma.
abbrev pub printed_rest : List ℕ → List ℕ
printed_rest [] = []
printed_rest (x ∷ xs) = b',' ∷ (decimal x ++ printed_rest xs)

-- The numbers with commas between them.
abbrev pub printed : List ℕ → List ℕ
printed [] = []
printed (x ∷ xs) = decimal x ++ printed_rest xs

abbrev pub is_listed : ℕ → List ℕ → Bool
is_listed i [] = false
is_listed i (x ∷ xs) = (x == i) || is_listed i xs

abbrev pub AreTypes : List ℕ → Type 0
AreTypes xs = All (λ (x : ℕ). x < 256) xs

printed_rest-AtEnd : (xs : List ℕ) → AtEnd (printed_rest xs)
printed_rest-AtEnd [] = tt
printed_rest-AtEnd (x ∷ xs) = inl refl

is_end-printed_rest : (xs : List ℕ) → is_end (printed_rest xs) ≡ true
is_end-printed_rest [] = refl
is_end-printed_rest (x ∷ xs) = refl

-- A printed number starts with a digit.
decimal-digit :
    (n : ℕ) → n < 1000 → (d : ℕ) × (t : List ℕ) × (decimal n ≡ (b'0' + d) ∷ t) × (d < 10)
decimal-digit n h = elim (Bool-cases (ltb n 10)) [
  | inl one ↦ (n, [], decimal-one n (ground arith), ground arith)
  | inr more ↦ elim (Bool-cases (ltb n 100)) [
    | inl two ↦ (n / 10, _, decimal-two n (ground arith) (ground arith), ground arith)
    | inr three ↦ (n / 10 / 10, _, decimal-three n (ground arith) h, omega arith)
  ]
]

skip_separators-printed_rest :
    (xs : List ℕ) → AreTypes xs → skip_separators (printed_rest xs) ≡ printed xs
skip_separators-printed_rest [] h = refl
skip_separators-printed_rest (x ∷ xs) (h, hs) =
    let (d, t, e, small) = decimal-digit x (omega arith) in
    rw (e, ==-of_ne (b'0' + d) b',' (omega arith), ==-of_ne (b'0' + d) b' ' (omega arith)) refl

parse_type_numbers-cons :
    (left : ℕ) (p : List Bool) (x : ℕ) (xs : List ℕ)
    → x < 256
    → AreTypes xs
    → parse_type_numbers (suc left) p (printed (x ∷ xs))
      ≡ (mark p x >>= λ p'. parse_type_numbers left p' (printed xs))
unfolding parse_type_numbers
parse_type_numbers-cons left p x xs h hs =
    let rest = printed_rest xs in
    let (d, t, e, small) = decimal-digit x (omega arith) in
    let number : strtoul 0 ((b'0' + d) ∷ (t ++ rest)) ≡ some (x, rest) =
      subst (λ z. strtoul 0 (z ++ rest) ≡ some (x, rest)) e
        (strtoul-decimal x rest (omega arith) (printed_rest-AtEnd xs)) in
    rw
      (
        e,
        number,
        is_end-printed_rest xs,
        ge→ltb 0xff x (omega arith),
        skip_separators-printed_rest xs hs,
        parse_type_numbers,
      )
      refl

length-printed_rest : (xs : List ℕ) → length xs ≤ length (printed_rest xs)
length-printed_rest [] = omega arith
length-printed_rest (x ∷ xs) =
    omega (arith, length-printed_rest xs, length-append (decimal x) (printed_rest xs))

length-printed : (xs : List ℕ) → AreTypes xs → length xs ≤ length (printed xs)
length-printed [] h = omega arith
length-printed (x ∷ xs) (h, hs) =
    let (d, t, e, small) = decimal-digit x (omega arith) in
    omega (arith, length-printed_rest xs, length-append (decimal x) (printed_rest xs), ap length e)

mark_all-printed :
    (left : ℕ) (p : List Bool) (xs : List ℕ)
    → AreTypes xs
    → length xs < left
    → parse_type_numbers left p (printed xs) ≡ (mark_all p xs >>= λ p'. some (some p'))
unfolding mark_all parse_type_numbers
mark_all-printed zero p xs h enough = absurd (omega arith)
mark_all-printed (suc left) p [] h enough = refl
mark_all-printed (suc left) p (x ∷ xs) (h, hs) enough =
    parse_type_numbers-cons left p x xs h hs ∙ elim (Option-cases (mark p x)) [
      | inl outside ↦ rw outside refl
      | inr (p', e) ↦ rw e (mark_all-printed left p' xs hs (omega arith))
    ]

or_false : (b : Bool) → (b || false) ≡ b
or_false true = refl
or_false false = refl

or_true : (b : Bool) → (b || true) ≡ true
or_true true = refl
or_true false = refl

marked :
    (p : List Bool) (xs : List ℕ)
    → AreTypes xs
    → length p ≡ 256
    → (p' : List Bool) × (mark_all p xs ≡ some p')
      × (length p' ≡ 256)
      × ((i : ℕ) (b : Bool) → get_elem? p i ≡ some b → get_elem? p' i ≡ some (is_listed i xs || b))
unfolding mark_all mark
marked p [] h size = (p, refl, size, λ i b e. e)
marked p (x ∷ xs) (h, hs) size =
    let (p', e, size', gets) = marked (set p x true) xs hs (length-set p x true ∙ size) in
    (
      p',
      rw (lt→ltb x (length p) (omega arith)) e,
      size',
      λ i b found. elim (Bool-cases (x == i)) [
        | inl same ↦ rw same (
            gets i true (
              subst (λ k. get_elem? (set p x true) k ≡ some true) (ground arith)
                (get_elem?-set_self p x true (omega arith)))
            ∙ ap some (or_true (is_listed i xs)))
        | inr other ↦ rw other (gets i b (get_elem?-set_ne p x i true (ground arith) ∙ found))
      ],
    )

-- No keyword starts with a digit.
abbrev StartsWithLetter : List ℕ → Type 0
StartsWithLetter [] = 1 ≤ 0
StartsWithLetter (c ∷ s) = 58 ≤ to_lower c

to_lower-digit : (d : ℕ) → d < 10 → to_lower (b'0' + d) ≡ b'0' + d
to_lower-digit d h = rw (lt→leb b'A' (b'0' + d) (omega arith)) refl

no_keyword :
    (keywords : List (List ℕ × List ℕ)) (d : ℕ) (t : List ℕ)
    → d < 10
    → All (λ (k : List ℕ × List ℕ). StartsWithLetter k.0) keywords
    → types_of_keyword keywords ((b'0' + d) ∷ t) ≡ none
no_keyword [] d t h hs = refl
no_keyword (([], is) ∷ keywords) d t h (k, hs) = absurd (omega arith)
no_keyword ((c ∷ s, is) ∷ keywords) d t h (k, hs) =
    rw (to_lower-digit d h, ==-of_ne (b'0' + d) (to_lower c) (omega arith))
      (no_keyword keywords d t h hs)

printed-no_keyword :
    (xs : List ℕ) → AreTypes xs → types_of_keyword opt_type_keyword (printed xs) ≡ none
printed-no_keyword [] h = refl
printed-no_keyword (x ∷ xs) (h, hs) =
    let (d, t, e, small) = decimal-digit x (omega arith) in
    ap (λ z. types_of_keyword opt_type_keyword (z ++ printed_rest xs)) e
    ∙ no_keyword opt_type_keyword d (t ++ printed_rest xs) small (ground arith)

get_elem?-zero_types : (n i : ℕ) → i < n → get_elem? (zero_types n) i ≡ some false
get_elem?-zero_types zero i h = absurd (omega arith)
get_elem?-zero_types (suc n) zero h = refl
get_elem?-zero_types (suc n) (suc i) h = get_elem?-zero_types n i (omega arith)

-- For a list of types below 256 that is printed with commas between them, the first call of
-- `parse_opt_type`, where there is memory, returns an array of 256 entries in which exactly the types
-- of the list are marked.
pub parse_opt_type-printed :
    (xs : List ℕ)
    → AreTypes xs
    → (p : List Bool) × (parse_opt_type true none (printed xs) ≡ some (some p))
      × (length p ≡ 256)
      × ((i : ℕ) → i < 256 → get_elem? p i ≡ some (is_listed i xs))
unfolding parse_opt_type
parse_opt_type-printed xs h =
    let (p, e, size, gets) = marked (zero_types 256) xs h (length-zero_types 256) in
    (
      p,
      rw (printed-no_keyword xs h, parse_opt_type)
          (mark_all-printed (suc (length (printed xs))) (zero_types 256) xs h
              (omega (arith, length-printed xs h))
            ∙ rw e refl),
      size,
      λ i is_type.
          gets i false (get_elem?-zero_types 256 i is_type) ∙ ap some (or_false (is_listed i xs)),
    )
