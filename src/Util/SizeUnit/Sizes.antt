-- ===== src/Util/SizeUnit/Sizes.antt =====
-- The sizes that dmidecode.c writes with tokens, as `string_set_size_unit` of src/util.cpp shows
-- them.
use cpu_x.Shared.{
  ℕ, zero, suc, ◌+◌, ◌/◌, ◌%◌, ◌^◌, ◌<◌, ◌≤◌, ltb, List, [], ◌∷◌, ◌++◌, length, All, take,
  get_elem?, get_or, append-nil, some, codes, ◌≡◌, ◌≢◌, refl, ap, sym, ◌∙◌, length-append, arith,
  Bool-cases, inl, inr,
}
use native.Mathlib.Nat.{pow-suc}
use cpu_x.Dmi.Memory.{◌>>=◌}
use cpu_x.Dmi.Print.{decimal, decimal_digits}
use cpu_x.Dmi.MemorySize.{Amount, memory_amount}
use cpu_x.Dmi.MemorySize.Exact.{memory_amount-unit, memory_amount-IsAmountOf}
use cpu_x.Dmi.MemorySize.Nearly.{IsNearly, memory_amount-IsNearly}
use cpu_x.Dmi.MemoryDevice.{amount_text, memory_size_text, unit_tokens, cut}
use cpu_x.Util.SizeUnit.{string_set_size_unit}
use cpu_x.Util.SizeUnit.Replaced.{
  Piece, plain, b_token, kib_token, mib_token, gib_token, tib_token, pib_token, eib_token, source,
  shown, string_set_size_unit-source,
}

abbrev IsPlain : List ℕ → Type 0
IsPlain text = All (λ c. c ≢ b'@') text

decimal_digits-IsPlain :
    (digits n : ℕ) (out : List ℕ) → IsPlain out → IsPlain (decimal_digits digits n out)
unfolding decimal_digits
decimal_digits-IsPlain zero n out h = h
decimal_digits-IsPlain (suc digits) n out h = elim (Bool-cases (ltb n 10)) [
  | inl last ↦ rw last ((λ e. absurd (omega arith)), h)
  | inr more ↦ rw more (
      decimal_digits-IsPlain digits (n / 10) ((b'0' + n % 10) ∷ out)
        ((λ e. absurd (omega arith)), h))
]

length-decimal_digits :
    (digits k n : ℕ) (out : List ℕ)
    → n < 10 ^ suc k
    → length (decimal_digits digits n out) ≤ suc k + length out
unfolding decimal_digits
length-decimal_digits zero k n out h = omega arith
length-decimal_digits (suc digits) zero n out h = ground arith
length-decimal_digits (suc digits) (suc k) n out h = elim (Bool-cases (ltb n 10)) [
  | inl last ↦ rw last (omega arith)
  | inr more ↦ rw more (
      omega (
        arith,
        pow-suc 10 (suc k),
        length-decimal_digits digits k (n / 10) ((b'0' + n % 10) ∷ out)
            (omega (arith, pow-suc 10 (suc k))),
      ))
]

take_short : (n : ℕ) (text : List ℕ) → length text ≤ n → take n text ≡ text
take_short zero [] h = refl
take_short zero (c ∷ text) h = absurd (omega arith)
take_short (suc n) [] h = refl
take_short (suc n) (c ∷ text) h = ap (λ z. c ∷ z) (take_short n text (omega arith))

-- Characters in front of other pieces.
characters : (text : List ℕ) → IsPlain text → List Piece → List Piece
characters [] h ps = ps
characters (c ∷ text) h ps = plain c h.0 ∷ characters text h.1 ps

source-characters :
    (text : List ℕ) (h : IsPlain text) (ps : List Piece)
    → source (characters text h ps) ≡ text ++ source ps
unfolding characters
source-characters [] h ps = refl
source-characters (c ∷ text) h ps = ap (λ z. c ∷ z) (source-characters text h.1 ps)

module _ (gettext : List ℕ → List ℕ) where
  shown-characters :
      (text : List ℕ) (h : IsPlain text) (ps : List Piece)
      → shown gettext (characters text h ps) ≡ text ++ shown gettext ps
  unfolding characters
  shown-characters [] h ps = refl
  shown-characters (c ∷ text) h ps = ap (λ z. c ∷ z) (shown-characters text h.1 ps)

unit_piece : ℕ → Piece
unit_piece zero = b_token
unit_piece (suc zero) = kib_token
unit_piece (suc (suc zero)) = mib_token
unit_piece (suc (suc (suc zero))) = gib_token
unit_piece (suc (suc (suc (suc zero)))) = tib_token
unit_piece (suc (suc (suc (suc (suc zero))))) = pib_token
unit_piece (suc (suc (suc (suc (suc (suc i)))))) = eib_token

-- The units of sizes, by powers of 1024.
abbrev pub size_units : List (List ℕ)
size_units =
    codes "bytes"
    ∷ codes "KiB"
    ∷ codes "MiB"
    ∷ codes "GiB"
    ∷ codes "TiB"
    ∷ codes "PiB"
    ∷ codes "EiB"
    ∷ []

-- What is shown for a number of units.
abbrev pub size_shown : (List ℕ → List ℕ) → ℕ → ℕ → List ℕ
size_shown gettext number unit = decimal number ++ (b' ' ∷ gettext (get_or size_units unit []))

record IsTokenOf (gettext : List ℕ → List ℕ) (i : ℕ) (token : List ℕ) : Type 0 where
  known : get_elem? unit_tokens i ≡ some token
  of_piece : token ≡ source (unit_piece i ∷ [])
  as_shown : shown gettext (unit_piece i ∷ []) ≡ gettext (get_or size_units i [])
  short : length token ≤ 5

unit_token :
    (gettext : List ℕ → List ℕ) (i : ℕ) → i ≤ 6 → (token : List ℕ) × IsTokenOf gettext i token
unfolding unit_piece
unit_token gettext zero h =
    (_, record { known = refl; of_piece = refl; as_shown = append-nil _; short = omega arith })
unit_token gettext (suc zero) h =
    (_, record { known = refl; of_piece = refl; as_shown = append-nil _; short = omega arith })
unit_token gettext (suc (suc zero)) h =
    (_, record { known = refl; of_piece = refl; as_shown = append-nil _; short = omega arith })
unit_token gettext (suc (suc (suc zero))) h =
    (_, record { known = refl; of_piece = refl; as_shown = append-nil _; short = omega arith })
unit_token gettext (suc (suc (suc (suc zero)))) h =
    (_, record { known = refl; of_piece = refl; as_shown = append-nil _; short = omega arith })
unit_token gettext (suc (suc (suc (suc (suc zero))))) h =
    (_, record { known = refl; of_piece = refl; as_shown = append-nil _; short = omega arith })
unit_token gettext (suc (suc (suc (suc (suc (suc zero)))))) h =
    (_, record { known = refl; of_piece = refl; as_shown = append-nil _; short = omega arith })
unit_token gettext (suc (suc (suc (suc (suc (suc (suc i))))))) h = absurd (omega arith)

-- The text of a number of fewer than 18 digits and of one of the seven units is not cut off, and
-- its token is replaced.
pub amount_shown :
    (gettext : List ℕ → List ℕ) (shift : ℕ) (a : Amount)
    → a.unit + shift ≤ 6
    → a.capacity < 10 ^ 17
    → (amount_text shift a >>= string_set_size_unit gettext)
      ≡ some (size_shown gettext a.capacity (a.unit + shift))
unfolding amount_text decimal
amount_shown gettext shift a h small =
    let (token, is_token) = unit_token gettext (a.unit + shift) h in
    let digits = decimal_digits 20 a.capacity [] in
    let text = digits ++ (b' ' ∷ token) in
    let digits-IsPlain = decimal_digits-IsPlain 20 a.capacity [] tt in
    let ps =
      characters digits digits-IsPlain
        (plain b' ' (λ e. absurd (omega arith)) ∷ unit_piece (a.unit + shift) ∷ []) in
    let as_source : source ps ≡ text =
      source-characters digits digits-IsPlain _
      ∙ ap (λ z. digits ++ (b' ' ∷ z)) (sym is_token.of_piece) in
    let as_shown : shown gettext ps ≡ size_shown gettext a.capacity (a.unit + shift) =
      shown-characters gettext digits digits-IsPlain _
      ∙ ap (λ z. digits ++ (b' ' ∷ z)) is_token.as_shown in
    let fits : cut text ≡ text = take_short 23 text (
      omega (
        arith,
        is_token.short,
        length-append digits (b' ' ∷ token),
        length-decimal_digits 20 16 a.capacity [] small,
      )) in
    rw (is_token.known, fits, sym as_source, string_set_size_unit-source gettext ps, as_shown) refl

-- What is shown for a size that `dmi_print_memory_size_str` writes, below 2 ^ 60, in bytes or in KiB
-- (the shift 0 or 1): a number, a space and the translated name of a unit. The amount is at most the
-- size and, unless the size is 0, it is short of it by less than one part in 1024 and the unit is the
-- greatest in which it is an integer.
pub memory_size_shown :
    (gettext : List ℕ → List ℕ) (shift code : ℕ)
    → shift ≤ 1
    → code < 2 ^ 60
    → (a : Amount) × ((memory_size_text code shift >>= string_set_size_unit gettext)
        ≡ some (size_shown gettext a.capacity (a.unit + shift)))
      × IsNearly code a
unfolding memory_size_text
memory_size_shown gettext shift code h small =
    let amount = memory_amount-IsAmountOf code (omega arith) in
    (
      memory_amount code,
      amount_shown gettext shift (memory_amount code) (omega (arith, memory_amount-unit code small))
          (omega (arith, amount.bounded)),
      memory_amount-IsNearly code (omega arith),
    )
