-- ===== src/Dmi/Print.antt =====
-- The C library's text functions as far as core/dmidecode/dmidecode.c uses them: `%u` and `%lu`,
-- `snprintf` of a ready text and `strncpy`, into character arrays of a fixed size.
pub mod Laws
use cpu_x.Shared.{
  ℕ, zero, suc, ◌+◌, ◌-◌, ◌/◌, ◌%◌, ltb, if◌then◌else◌, List, [], ◌∷◌, ◌++◌, take, drop, length,
}

-- The decimal digits of `n`, with room for `digits` of them.
unfoldable pub decimal_digits : ℕ → ℕ → List ℕ → List ℕ
decimal_digits zero n out = out
decimal_digits (suc digits) n out =
    let c = b'0' + n % 10 in
    let more = decimal_digits digits (n / 10) (c ∷ out) in if ltb n 10 then c ∷ out else more

-- `%u` and `%lu`: an unsigned long has at most 20 digits.
unfoldable pub decimal : ℕ → List ℕ
decimal n = decimal_digits 20 n []

abbrev pub zeros : ℕ → List ℕ
zeros zero = []
zeros (suc n) = 0 ∷ zeros n

-- `strncpy(dst, text, size)`, where `size` is the size of the array: short texts are filled up
-- with zeros, long ones are cut with no zero behind them.
unfoldable pub strncpy : ℕ → List ℕ → List ℕ
strncpy size text = take size (text ++ zeros size)

-- `snprintf(dst, size, "%s", text)` into an array that holds `dst`: one zero ends the text, and the
-- bytes behind it stay.
unfoldable pub snprintf : ℕ → List ℕ → List ℕ → List ℕ
snprintf zero text dst = dst
snprintf (suc n) text dst = let kept = take n text in kept ++ (0 ∷ drop (length kept + 1) dst)
