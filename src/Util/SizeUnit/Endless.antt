-- ===== src/Util/SizeUnit/Endless.antt =====
-- Where the loop of `string_set_size_unit` does not end.
use cpu_x.Shared.{
  ℕ, zero, suc, ◌≤◌, ◌==◌, List, [], ◌∷◌, ◌++◌, length, All, drop, get_elem?, Option, none, some,
  Option-cases, inl, inr, ◌≡◌, ◌≢◌, ◌⊎◌, refl, ap, sym, ◌∙◌, ==-of_ne, arith, Bool-cases, false,
}
use cpu_x.Util.SizeUnit.{one_round, replace, string_set_size_unit, is_at}

length-drop : (k : ℕ) (text : List ℕ) → length (drop k text) ≤ length text
length-drop zero text = omega arith
length-drop (suc k) [] = omega arith
length-drop (suc k) (c ∷ text) = omega (arith, length-drop k text)

no_result : {s : List ℕ} → none ≢ some s
no_result e = cc

not_at : (o : Option ℕ) → o ≢ some b'@' → is_at o ≡ false
not_at none h = refl
not_at (some c) h = ==-of_ne c b'@' (λ e. h (ap some e))

module _ (gettext : List ℕ → List ℕ) where
  -- A round that leaves the text as it is.
  abbrev pub IsStuck : List ℕ → Type 0
  IsStuck text = (text ≢ []) × (one_round gettext text ≡ ([], text))

  round-cases :
      (c : ℕ) (text : List ℕ)
      → IsStuck (c ∷ text) ⊎ (length (one_round gettext (c ∷ text)).1 ≤ length text)
  unfolding one_round
  round-cases c text = elim (Bool-cases (c == b'@')) [
    | inr plain ↦ inr (rw plain (omega arith))
    | inl mark ↦ elim (Bool-cases (is_at (get_elem? text 2))) [
      | inl si ↦ inr (rw (mark, si) (length-drop 3 text))
      | inr other ↦ elim (Bool-cases (is_at (get_elem? text 3))) [
        | inl binary ↦ inr (rw (mark, other, binary) (length-drop 4 text))
        | inr neither ↦ inl (cc, rw (mark, other, neither) refl)
      ]
    ]
  ]

  stuck_forever : (text : List ℕ) (n : ℕ) → IsStuck text → replace gettext n text ≡ none
  unfolding replace
  stuck_forever [] n h = absurd (h.0 refl)
  stuck_forever (c ∷ text) zero h = refl
  stuck_forever (c ∷ text) (suc n) h = rw (h.1, stuck_forever (c ∷ text) n h) refl

  none-of_round :
      (c : ℕ) (text : List ℕ) (n : ℕ)
      → replace gettext n (one_round gettext (c ∷ text)).1 ≡ none
      → replace gettext (suc n) (c ∷ text) ≡ none
  unfolding replace
  none-of_round c text n h = rw h refl

  round-of_none :
      (c : ℕ) (text : List ℕ) (n : ℕ)
      → replace gettext (suc n) (c ∷ text) ≡ none
      → replace gettext n (one_round gettext (c ∷ text)).1 ≡ none
  unfolding replace
  round-of_none c text n h =
      elim (Option-cases (replace gettext n (one_round gettext (c ∷ text)).1)) [
        | inl e ↦ e
        | inr (s, e) ↦
            absurd (no_result {s = (one_round gettext (c ∷ text)).0 ++ s} (sym h ∙ rw e refl))
      ]

  more_rounds :
      (k : ℕ) (text : List ℕ) (n : ℕ)
      → length text ≤ k
      → replace gettext k text ≡ none
      → replace gettext n text ≡ none
  unfolding replace
  more_rounds zero [] n h e = cc
  more_rounds (suc k) [] n h e = cc
  more_rounds zero (c ∷ text) n h e = absurd (omega arith)
  more_rounds (suc k) (c ∷ text) zero h e = refl
  more_rounds (suc k) (c ∷ text) (suc m) h e = elim (round-cases c text) [
    | inl stuck ↦ stuck_forever (c ∷ text) (suc m) stuck
    | inr less ↦
        none-of_round c text m (
          more_rounds k (one_round gettext (c ∷ text)).1 m (omega arith) (round-of_none c text k e))
  ]

  -- As many rounds as the text has characters are enough: where the loop has not ended by then, it
  -- does not end after any number of rounds.
  string_set_size_unit-enough :
      (text : List ℕ) (n : ℕ)
      → string_set_size_unit gettext text ≡ none
      → replace gettext n text ≡ none
  unfolding string_set_size_unit
  string_set_size_unit-enough text n e = more_rounds (length text) text n (omega arith) e

  -- The loop never ends on a text in which the first '@' has an '@' neither 3 nor 4 places behind it.
  pub string_set_size_unit-endless :
      (front back : List ℕ) (n : ℕ)
      → All (λ c. c ≢ b'@') front
      → get_elem? back 2 ≢ some b'@'
      → get_elem? back 3 ≢ some b'@'
      → replace gettext n (front ++ (b'@' ∷ back)) ≡ none
  unfolding replace one_round
  string_set_size_unit-endless [] back n h no_si no_binary =
      stuck_forever (b'@' ∷ back) n (cc, rw (not_at _ no_si, not_at _ no_binary) refl)
  string_set_size_unit-endless (c ∷ front) back zero h no_si no_binary = refl
  string_set_size_unit-endless (c ∷ front) back (suc n) h no_si no_binary =
      none-of_round c (front ++ (b'@' ∷ back)) n
        (rw (==-of_ne c b'@' h.0) (string_set_size_unit-endless front back n h.1 no_si no_binary))
