-- ===== src/Dmi/Numbers/Shorter.antt =====
-- `strtoul`, as core/dmidecode/dmiopt.c calls it, moves on in the text.
use cpu_x.Shared.{
  ℕ, suc, ◌+◌, ◌*◌, ◌^◌, ◌==◌, ◌<◌, ◌≤◌, ltb, leb, if◌then◌else◌, Bool, true, false, Bool-cases,
  Option-cases, ◌&&◌, ◌||◌, List, [], ◌∷◌, length, Option, none, some, ◌≡◌, inl, inr, refl, ap,
  arith,
}
use cpu_x.Dmi.Numbers.{
  digit_value, read_digits, read_number, behind_x, read_unsigned, skip_spaces, as_ulong,
  read_signed, strtoul,
}

-- What is left of a text is shorter, where a number was read.
abbrev pub IsShorter : ℕ → Option (ℕ × List ℕ) → Type 0
IsShorter n none = Unit
IsShorter n (some r) = length r.1 < n

read_digits-length : (base acc : ℕ) (s : List ℕ) → length (read_digits base acc s).1 ≤ length s
read_digits-length base acc [] = omega arith
read_digits-length base acc (c ∷ s) = elim (Bool-cases (ltb (digit_value c) base)) [
  | inl digit ↦ rw digit (omega (arith, read_digits-length base (acc * base + digit_value c) s))
  | inr end ↦ rw end (omega arith)
]

read_number-IsShorter : (base : ℕ) (s : List ℕ) → IsShorter (length s) (read_number base s)
read_number-IsShorter base [] = tt
read_number-IsShorter base (c ∷ s) = elim (Bool-cases (ltb (digit_value c) base)) [
  | inl digit ↦ rw digit (omega (arith, read_digits-length base (0 * base + digit_value c) s))
  | inr end ↦ rw end tt
]

IsShorter-le : (m n : ℕ) (r : Option (ℕ × List ℕ)) → m ≤ n → IsShorter m r → IsShorter n r
IsShorter-le m n none h s = tt
IsShorter-le m n (some r) h s = omega arith

some-if {ℓ} : {A : Type ℓ} (b : Bool) (x y : A) → (if b then some x else none) ≡ some y → x ≡ y
some-if true x y h = cc
some-if false x y h = cc

behind_x-length : (s s' : List ℕ) → behind_x s ≡ some s' → length s' ≤ length s
behind_x-length [] s' h = cc
behind_x-length (x ∷ []) s' h = cc
behind_x-length (x ∷ c ∷ s) s' h =
    let e = some-if ((x == b'x' || x == b'X') && ltb (digit_value c) 16) (c ∷ s) s' h in
    omega (arith, ap length e)

read_unsigned-IsShorter : (base : ℕ) (s : List ℕ) → IsShorter (length s) (read_unsigned base s)
read_unsigned-IsShorter base [] = tt
read_unsigned-IsShorter base (c ∷ s) = elim (Bool-cases (base == 0)) [
  | inl auto ↦ elim (Bool-cases (c == b'0')) [
    | inl zero_digit ↦ elim (Option-cases (behind_x s)) [
      | inl octal ↦ rw (auto, zero_digit, octal) (read_number-IsShorter 8 (c ∷ s))
      | inr (s', hex) ↦
          rw (auto, zero_digit, hex)
            (IsShorter-le (length s') (length (c ∷ s)) (read_number 16 s')
              (omega (arith, behind_x-length s s' hex)) (read_number-IsShorter 16 s'))
    ]
    | inr decimal ↦ rw (auto, decimal) (read_number-IsShorter 10 (c ∷ s))
  ]
  | inr given ↦ rw given (read_number-IsShorter base (c ∷ s))
]

as_ulong-rest : (negative : Bool) (r : ℕ × List ℕ) → (as_ulong negative r).1 ≡ r.1
as_ulong-rest negative (n, s) = elim (Bool-cases (leb (2 ^ 64) n)) [
  | inl large ↦ rw large refl
  | inr fits ↦ elim (Bool-cases negative) [
    | inl minus ↦ rw (fits, minus) refl
    | inr plus ↦ rw (fits, plus) refl
  ]
]

signed-IsShorter :
    (n : ℕ) (negative : Bool) (r : Option (ℕ × List ℕ))
    → IsShorter n r
    → IsShorter n (elim r [ some r' ↦ some (as_ulong negative r') | none ↦ none ])
signed-IsShorter n negative none h = tt
signed-IsShorter n negative (some r) h = rw (as_ulong-rest negative r) h

read_signed-IsShorter : (base : ℕ) (s : List ℕ) → IsShorter (length s) (read_signed base s)
read_signed-IsShorter base [] = tt
read_signed-IsShorter base (c ∷ s) =
    let behind_sign =
      IsShorter-le (length s) (suc (length s)) (read_unsigned base s) (omega arith)
        (read_unsigned-IsShorter base s) in
    elim (Bool-cases (c == b'-')) [
      | inl minus ↦
          rw minus (signed-IsShorter (suc (length s)) true (read_unsigned base s) behind_sign)
      | inr no_minus ↦ elim (Bool-cases (c == b'+')) [
        | inl plus ↦
            rw (no_minus, plus)
              (signed-IsShorter (suc (length s)) false (read_unsigned base s) behind_sign)
        | inr no_plus ↦
            rw (no_minus, no_plus)
              (signed-IsShorter (suc (length s)) false (read_unsigned base (c ∷ s))
                (read_unsigned-IsShorter base (c ∷ s)))
      ]
    ]

skip_spaces-length : (s : List ℕ) → length (skip_spaces s) ≤ length s
skip_spaces-length [] = omega arith
skip_spaces-length (c ∷ s) = elim (Bool-cases (c == b' ' || (leb 9 c && leb c 13))) [
  | inl space ↦ rw space (omega (arith, skip_spaces-length s))
  | inr other ↦ rw other (omega arith)
]

pub strtoul-IsShorter : (base : ℕ) (s : List ℕ) → IsShorter (length s) (strtoul base s)
unfolding strtoul
strtoul-IsShorter base s =
    IsShorter-le (length (skip_spaces s)) (length s) (read_signed base (skip_spaces s))
      (skip_spaces-length s) (read_signed-IsShorter base (skip_spaces s))
