-- ===== src/Dmi/Numbers.antt =====
-- `strtoul`, `strcmp` and `strcasecmp` of the C library, in the C locale, as core/dmidecode/dmiopt.c
-- uses them. A text is the list of its characters before the zero byte.
pub mod Shorter
pub mod Decimal
use cpu_x.Shared.{
  ℕ, ◌+◌, ◌-◌, ◌*◌, ◌^◌, ◌%◌, ◌==◌, ltb, leb, if◌then◌else◌, Bool, true, false, ◌&&◌, ◌||◌, List,
  [], ◌∷◌, Option, none, some,
}

abbrev pub to_lower : ℕ → ℕ
to_lower c = if leb b'A' c && leb c b'Z' then c + 32 else c

abbrev pub strcmp_equal : List ℕ → List ℕ → Bool
strcmp_equal [] [] = true
strcmp_equal [] (c ∷ t) = false
strcmp_equal (c ∷ s) [] = false
strcmp_equal (c ∷ s) (d ∷ t) = (c == d) && strcmp_equal s t

abbrev pub strcasecmp_equal : List ℕ → List ℕ → Bool
strcasecmp_equal [] [] = true
strcasecmp_equal [] (c ∷ t) = false
strcasecmp_equal (c ∷ s) [] = false
strcasecmp_equal (c ∷ s) (d ∷ t) = (to_lower c == to_lower d) && strcasecmp_equal s t

-- The value of a digit, or 36.
abbrev pub digit_value : ℕ → ℕ
digit_value c =
    if leb b'0' c && leb c b'9'
    then c - b'0'
    else if leb b'a' (to_lower c) && leb (to_lower c) b'z'
    then to_lower c - b'a' + 10
    else 36

-- The number that the digits at the start of a text stand for, and the text behind them.
abbrev pub read_digits : ℕ → ℕ → List ℕ → ℕ × List ℕ
read_digits base acc [] = (acc, [])
read_digits base acc (c ∷ s) =
    let rest = read_digits base (acc * base + digit_value c) s in
    if ltb (digit_value c) base then rest else (acc, c ∷ s)

-- The same, where there is a digit.
abbrev pub read_number : ℕ → List ℕ → Option (ℕ × List ℕ)
read_number base [] = none
read_number base (c ∷ s) =
    if ltb (digit_value c) base then some (read_digits base 0 (c ∷ s)) else none

-- What is behind the `x` of `0x`.
abbrev pub behind_x : List ℕ → Option (List ℕ)
behind_x [] = none
behind_x (x ∷ []) = none
behind_x (x ∷ c ∷ s) =
    if (x == b'x' || x == b'X') && ltb (digit_value c) 16 then some (c ∷ s) else none

-- For the base 0, the prefix tells the base.
abbrev pub read_unsigned : ℕ → List ℕ → Option (ℕ × List ℕ)
read_unsigned base [] = none
read_unsigned base (c ∷ s) =
    if base == 0
    then (if c == b'0'
        then elim (behind_x s) [ some s' ↦ read_number 16 s' | none ↦ read_number 8 (c ∷ s) ]
        else read_number 10 (c ∷ s))
    else read_number base (c ∷ s)

abbrev pub skip_spaces : List ℕ → List ℕ
skip_spaces [] = []
skip_spaces (c ∷ s) =
    let rest = skip_spaces s in if c == b' ' || (leb 9 c && leb c 13) then rest else c ∷ s

-- A number that is too large is ULONG_MAX; a sign negates modulo 2 ^ 64.
abbrev pub as_ulong : Bool → ℕ × List ℕ → ℕ × List ℕ
as_ulong negative (n, s) =
    if leb (2 ^ 64) n
    then (2 ^ 64 - 1, s)
    else (if negative then ((2 ^ 64 - n) % 2 ^ 64, s) else (n, s))

abbrev pub read_signed : ℕ → List ℕ → Option (ℕ × List ℕ)
read_signed base [] = none
read_signed base (c ∷ s) =
    if c == b'-'
    then elim (read_unsigned base s) [ some r ↦ some (as_ulong true r) | none ↦ none ]
    else if c == b'+'
    then elim (read_unsigned base s) [ some r ↦ some (as_ulong false r) | none ↦ none ]
    else elim (read_unsigned base (c ∷ s)) [ some r ↦ some (as_ulong false r) | none ↦ none ]

-- `strtoul(s, &next, base)`: the value and the text at `next`, or `none` where `next` is `s`.
unfoldable pub strtoul : ℕ → List ℕ → Option (ℕ × List ℕ)
strtoul base s = read_signed base (skip_spaces s)
