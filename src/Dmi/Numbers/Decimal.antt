-- ===== src/Dmi/Numbers/Decimal.antt =====
-- `strtoul` of the C library on the numbers that `%u` prints, as core/dmidecode/dmiopt.c reads them.
use cpu_x.Shared.{
  ℕ, zero, suc, ◌+◌, ◌*◌, ◌/◌, ◌%◌, ◌^◌, ◌<◌, ◌≤◌, ltb, leb, true, false, Bool-cases, List, [], ◌∷◌,
  ◌++◌, none, some, ◌≡◌, ◌⊎◌, inl, inr, refl, ap, ◌∙◌, arith, lt→ltb, ==-of_ne,
}
use cpu_x.Dmi.Print.{decimal, decimal_digits}
use cpu_x.Dmi.Numbers.{digit_value, read_digits, behind_x, read_unsigned, as_ulong, strtoul}

-- The text ends, or goes on with a comma or a space.
abbrev pub AtEnd : List ℕ → Type 0
AtEnd [] = Unit
AtEnd (c ∷ s) = (c ≡ b',') ⊎ (c ≡ b' ')

pub ge→ltb : (a b : ℕ) → b ≤ a → ltb a b ≡ false
ge→ltb a b h = ground arith

le→leb : (a b : ℕ) → a ≤ b → leb a b ≡ true
le→leb a b h = ground arith

pub lt→leb : (a b : ℕ) → b < a → leb a b ≡ false
lt→leb a b h = ground arith

digit_value-digit : (d : ℕ) → d < 10 → digit_value (b'0' + d) ≡ d
digit_value-digit d h =
    rw (le→leb b'0' (b'0' + d) (omega arith), le→leb (b'0' + d) b'9' (omega arith)) (omega arith)

read_digits-digit :
    (acc d : ℕ) (s : List ℕ)
    → d < 10
    → read_digits 10 acc ((b'0' + d) ∷ s) ≡ read_digits 10 (acc * 10 + d) s
read_digits-digit acc d s h = rw (digit_value-digit d h, lt→ltb d 10 h) refl

read_digits-AtEnd :
    (base acc : ℕ) (s : List ℕ) → base ≤ 10 → AtEnd s → read_digits base acc s ≡ (acc, s)
read_digits-AtEnd base acc [] h e = refl
read_digits-AtEnd base acc (c ∷ s) h (inl comma) = rw (comma, ge→ltb 36 base (omega arith)) refl
read_digits-AtEnd base acc (c ∷ s) h (inr space) = rw (space, ge→ltb 36 base (omega arith)) refl

behind_x-AtEnd : (s : List ℕ) → AtEnd s → behind_x s ≡ none
behind_x-AtEnd [] e = refl
behind_x-AtEnd (c ∷ []) e = refl
behind_x-AtEnd (c ∷ x ∷ s) (inl comma) = rw comma refl
behind_x-AtEnd (c ∷ x ∷ s) (inr space) = rw space refl

-- A text that starts with a digit has neither spaces nor a sign.
strtoul-digit :
    (d : ℕ) (s : List ℕ)
    → d < 10
    → strtoul 0 ((b'0' + d) ∷ s)
      ≡ elim (read_unsigned 0 ((b'0' + d) ∷ s)) [ some r ↦ some (as_ulong false r) | none ↦ none ]
unfolding strtoul
strtoul-digit d s h =
    rw
      (
        ==-of_ne (b'0' + d) b' ' (omega arith),
        lt→leb (b'0' + d) 13 (omega arith),
        le→leb 9 (b'0' + d) (omega arith),
        ==-of_ne (b'0' + d) b'-' (omega arith),
        ==-of_ne (b'0' + d) b'+' (omega arith),
      )
      refl

as_ulong-small : (n : ℕ) (s : List ℕ) → n < 2 ^ 64 → as_ulong false (n, s) ≡ (n, s)
as_ulong-small n s h = rw (lt→leb (2 ^ 64) n h) refl

strtoul-zero : (s : List ℕ) → AtEnd s → strtoul 0 (b'0' ∷ s) ≡ some (0, s)
unfolding strtoul
strtoul-zero s e =
    rw (behind_x-AtEnd s e, read_digits-AtEnd 8 (0 * 8 + 0) s (omega arith) e)
      (ap (λ n. some (n, s)) (omega arith))

strtoul-positive :
    (d : ℕ) (s : List ℕ)
    → 0 < d
    → d < 10
    → strtoul 0 ((b'0' + d) ∷ s) ≡ some (as_ulong false (read_digits 10 d s))
strtoul-positive d s p h =
    strtoul-digit d s h
    ∙ rw (==-of_ne (b'0' + d) b'0' (omega arith), digit_value-digit d h, lt→ltb d 10 h)
        (ap (λ k. some (as_ulong false (read_digits 10 k s))) (omega arith))

pub decimal-one : (n : ℕ) → n < 10 → decimal n ≡ (b'0' + n) ∷ []
unfolding decimal decimal_digits
decimal-one n h = rw (lt→ltb n 10 h) (ap (λ d. (b'0' + d) ∷ []) (omega arith))

pub decimal-two : (n : ℕ) → 10 ≤ n → n < 100 → decimal n ≡ (b'0' + n / 10) ∷ (b'0' + n % 10) ∷ []
unfolding decimal decimal_digits
decimal-two n l h =
    rw (ge→ltb n 10 l, lt→ltb (n / 10) 10 (omega arith))
      (ap (λ d. (b'0' + d) ∷ (b'0' + n % 10) ∷ []) (omega arith))

pub decimal-three :
    (n : ℕ)
    → 100 ≤ n
    → n < 1000
    → decimal n ≡ (b'0' + n / 10 / 10) ∷ (b'0' + n / 10 % 10) ∷ (b'0' + n % 10) ∷ []
unfolding decimal decimal_digits
decimal-three n l h =
    rw
      (
        ge→ltb n 10 (omega arith),
        ge→ltb (n / 10) 10 (omega arith),
        lt→ltb (n / 10 / 10) 10 (omega arith),
      )
      (ap (λ d. (b'0' + d) ∷ (b'0' + n / 10 % 10) ∷ (b'0' + n % 10) ∷ []) (omega arith))

read_end :
    (acc n : ℕ) (s : List ℕ)
    → AtEnd s
    → acc ≡ n
    → n < 2 ^ 64
    → some (as_ulong false (read_digits 10 acc s)) ≡ some (n, s)
read_end acc n s e same small =
    rw (read_digits-AtEnd 10 acc s (omega arith) e)
      (ap some (ap (λ k. as_ulong false (k, s)) same ∙ as_ulong-small n s small))

strtoul-one : (n : ℕ) (s : List ℕ) → n < 10 → AtEnd s → strtoul 0 ((b'0' + n) ∷ s) ≡ some (n, s)
strtoul-one zero s h e = strtoul-zero s e
strtoul-one (suc n) s h e =
    strtoul-positive (suc n) s (omega arith) h ∙ read_end (suc n) (suc n) s e refl (omega arith)

-- A number of at most three digits that `%u` printed is read back, up to the end or a separator.
pub strtoul-decimal :
    (n : ℕ) (s : List ℕ) → n < 1000 → AtEnd s → strtoul 0 (decimal n ++ s) ≡ some (n, s)
strtoul-decimal n s h e = elim (Bool-cases (ltb n 10)) [
  | inl one ↦ rw (decimal-one n (ground arith)) (strtoul-one n s (ground arith) e)
  | inr more ↦ elim (Bool-cases (ltb n 100)) [
    | inl two ↦ rw (decimal-two n (ground arith) (ground arith)) (
        strtoul-positive (n / 10) ((b'0' + n % 10) ∷ s) (ground arith) (ground arith)
        ∙ ap (λ r. some (as_ulong false r)) (read_digits-digit (n / 10) (n % 10) s (omega arith))
        ∙ read_end (n / 10 * 10 + n % 10) n s e (omega arith) (omega arith))
    | inr three ↦ rw (decimal-three n (ground arith) h) (
        strtoul-positive (n / 10 / 10) ((b'0' + n / 10 % 10) ∷ (b'0' + n % 10) ∷ s) (ground arith)
          (omega arith)
        ∙ ap (λ r. some (as_ulong false r))
            (read_digits-digit (n / 10 / 10) (n / 10 % 10) ((b'0' + n % 10) ∷ s) (omega arith)
              ∙ read_digits-digit (n / 10 / 10 * 10 + n / 10 % 10) (n % 10) s (omega arith))
        ∙ read_end ((n / 10 / 10 * 10 + n / 10 % 10) * 10 + n % 10) n s e (omega arith)
            (omega arith))
  ]
]
