-- ===== src/Dmi/ProcessorFamily/Search.antt =====
-- The binary search in `family2` finds what a search from the front would.
use cpu_x.Shared.{ℕ, zero, suc, ◌+◌, ◌-◌, ◌/◌, ◌≤◌, ◌<◌, ◌==◌, ltb, Bool, true, false, ◌&&◌, arith}
use cpu_x.Shared.{
  Option, none, some, List, [], ◌∷◌, get_elem?, length, String, ◌≡◌, ◌≢◌, refl, ap, inl, inr, ◌⊎◌,
  Bool-cases, get_elem?-some, lt-of_get_elem?, ==_iff, sym, ◌∙◌,
}
use cpu_x.Dmi.ProcessorFamily.{search_family}
use cpu_x.Dmi.ProcessorFamily.Families.{family2}

-- The values rise along the table.
abbrev pub Rises : List (ℕ × String) → Type 0
Rises table =
    (i j : ℕ) (p q : ℕ × String)
    → i < j
    → get_elem? table i ≡ some p
    → get_elem? table j ≡ some q
    → p.0 < q.0

-- The answer for a code: the name of its entry, or that there is none.
abbrev pub Answers : List (ℕ × String) → ℕ → Option (Option String) → Type 0
Answers table code r =
    ((j : ℕ) × (name : String) × (get_elem? table j ≡ some (code, name)) × (r ≡ some (some name)))
    ⊎ (((j : ℕ) (p : ℕ × String) → get_elem? table j ≡ some p → p.0 ≢ code) × (r ≡ some none))

three : (i j : ℕ) → (i < j) ⊎ ((i ≡ j) ⊎ (j < i))
three i j = elim (Bool-cases (ltb i j)) [
  | inl t ↦ inl (ground arith)
  | inr f ↦ elim (Bool-cases (i == j)) [
    | inl e ↦ inr (inl ((==_iff i j).0 e))
    | inr d ↦ inr (inr (ground arith))
  ]
]

abbrev code_of : Option (ℕ × String) → ℕ
code_of none = 0
code_of (some p) = p.0

some_codes : (p q : ℕ × String) → (some p ≡ some q) → p.0 ≡ q.0
some_codes p q e = ap code_of e

ne-of_== : (a b : ℕ) → (a == b) ≡ false → a ≢ b
ne-of_== a b miss = ground arith

module _ (table : List (ℕ × String)) (code : ℕ) (rises : Rises table) where
  -- An entry with the code stands behind every entry with a lower value.
  behind :
      (i j : ℕ) (p q : ℕ × String)
      → get_elem? table i ≡ some p
      → get_elem? table j ≡ some q
      → p.0 < q.0
      → i < j
  behind i j p q r s lt = elim (three i j) [
    | inl less ↦ less
    | inr (inl same) ↦
        let pq : p.0 ≡ q.0 = some_codes p q (sym r ∙ ap (get_elem? table) same ∙ s) in
        absurd (omega arith)
    | inr (inr more) ↦ let r' = rises j i q p more s r in absurd (omega arith)
  ]

  -- Entries with the code lie between the bounds.
  abbrev Between : ℕ → ℕ → Type 0
  Between low high =
      (j : ℕ) (p : ℕ × String) → get_elem? table j ≡ some p → p.0 ≡ code → (low ≤ j) × (j ≤ high)

  below_middle :
      (low high i : ℕ) (v : ℕ × String)
      → get_elem? table i ≡ some v
      → code < v.0
      → Between low high
      → Between low i
  below_middle low high i v r lt here j p s e =
      let (a, b) = here j p s e in let c = behind j i p v s r (omega arith) in (a, omega arith)

  above_middle :
      (low high i : ℕ) (v : ℕ × String)
      → get_elem? table i ≡ some v
      → v.0 < code
      → Between low high
      → Between (i + 1) high
  above_middle low high i v r lt here j p s e =
      let (a, b) = here j p s e in let c = behind i j v p r s (omega arith) in (omega arith, b)

  -- With one place left, which does not hold the code, nothing holds it.
  none_left :
      (low high i : ℕ) (v : ℕ × String)
      → get_elem? table i ≡ some v
      → v.0 ≢ code
      → low ≡ high
      → i ≡ low
      → Between low high
      → (j : ℕ) (p : ℕ × String) → get_elem? table j ≡ some p
      → p.0 ≢ code
  none_left low high i v r ne one same here j p s e =
      let (a, b) = here j p s e in
      let ij : i ≡ j = omega arith in
      let vp : v.0 ≡ p.0 = some_codes v p (sym r ∙ ap (get_elem? table) ij ∙ s) in ne (vp ∙ e)

  pub search_family-Answers :
      (fuel low high : ℕ)
      → low ≤ high
      → high < length table
      → high < low + fuel
      → Between low high
      → Answers table code (search_family fuel table code low high)
  unfolding search_family
  search_family-Answers zero low high le fits enough here = absurd (omega arith)
  search_family-Answers (suc fuel) low high le fits enough here =
      let i = (low + high) / 2 in
      let ((value, name), r) = get_elem?-some table i (omega arith) in
      elim (Bool-cases (value == code)) [
        | inl hit ↦
            inl
              (i, name, r ∙ ap (λ (v : ℕ). some (v, name)) ((==_iff value code).0 hit), rw (r, hit))
        | inr miss ↦
            let ne = ne-of_== value code miss in
            elim (Bool-cases (low == high)) [
              | inl last ↦
                  let one = (==_iff low high).0 last in
                  inr (
                    none_left low high i (value, name) r ne one (omega arith) here,
                    rw (r, miss, last),
                  )
              | inr more ↦
                  let two = ne-of_== low high more in
                  elim (Bool-cases (ltb code value)) [
                    | inl below ↦
                        rw (r, miss, more, below)
                          (search_family-Answers fuel low i (omega arith) (omega arith)
                            (ground arith)
                            (below_middle low high i (value, name) r (ground arith) here))
                    | inr above ↦
                        rw (r, miss, more, above)
                          (search_family-Answers fuel (i + 1) high (ground arith) (omega arith)
                            (omega arith)
                            (above_middle low high i (value, name) r (ground arith) here))
                  ]
            ]
      ]

-- Whether the values of a table rise, and stay above a bound.
unfoldable ascending : ℕ → List (ℕ × String) → Bool
ascending low [] = true
ascending low (p ∷ table) = let rest = ascending p.0 table in ltb low p.0 && rest

values_of : (low v : ℕ) (rest : Bool) → (ltb low v && rest) ≡ true → (low < v) × (rest ≡ true)
values_of low v rest h = (ground arith, ground arith)

ascending-above :
    (table : List (ℕ × String)) (low : ℕ) (j : ℕ) (q : ℕ × String)
    → ascending low table ≡ true
    → get_elem? table j ≡ some q
    → low < q.0
unfolding ascending
ascending-above [] low j q h s = let lt = lt-of_get_elem? [] j s in absurd (omega arith)
ascending-above (p ∷ table) low zero q h s =
    let e = some_codes p q s in let (a, b) = values_of low _ _ h in rw (sym e) (a)
ascending-above (p ∷ table) low (suc j) q h s =
    let (a, b) = values_of low _ _ h in
    let below = a in let rest = ascending-above table p.0 j q b s in omega arith

ascending-Rises : (table : List (ℕ × String)) (low : ℕ) → ascending low table ≡ true → Rises table
unfolding ascending
ascending-Rises [] low h i j p q lt r s = let gt = lt-of_get_elem? [] j s in absurd (omega arith)
ascending-Rises (v ∷ table) low h i zero p q lt r s = absurd (omega arith)
ascending-Rises (v ∷ table) low h zero (suc j) p q lt r s =
    let (a, b) = values_of low _ _ h in
    let rest = ascending-above table v.0 j q b s in let e = some_codes v p r in omega arith
ascending-Rises (v ∷ table) low h (suc i) (suc j) p q lt r s =
    let (a, b) = values_of low _ _ h in ascending-Rises table v.0 b i j p q (omega arith) r s

family2-ascending : ascending 0 family2 ≡ true
unfolding ascending
family2-ascending = refl

-- The search of `dmi_processor_family` answers every code, within as many rounds as the table has
-- entries and reading nothing outside it: with the name of an entry of `family2` that has the
-- code, or, when no entry has the code, with "not found".
pub family2_search-Answers :
    (code : ℕ)
    → Answers family2 code (search_family (length family2) family2 code 0 (length family2 - 1))
family2_search-Answers code =
    search_family-Answers family2 code (ascending-Rises family2 0 family2-ascending)
      (length family2) 0 (length family2 - 1) (omega arith) (omega arith) (omega arith)
      (λ j p s e. let lt = lt-of_get_elem? family2 j s in (omega arith, omega arith))
