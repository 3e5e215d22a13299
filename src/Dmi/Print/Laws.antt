-- ===== src/Dmi/Print/Laws.antt =====
-- What the text functions store, read back as a C string.
use cpu_x.Shared.{ℕ, zero, suc, ◌+◌, ◌-◌, ◌*◌, ◌/◌, ◌%◌, ◌^◌, ◌≤◌, ◌<◌, ltb, arith}
use cpu_x.Shared.{List, [], ◌∷◌, ◌++◌, take, length, ◌≡◌, refl, ap, ◌∙◌, none, some}
use cpu_x.Shared.{All, suc-==-zero, length-append, Bool-cases, lt→ltb, inl, inr}
use native.Mathlib.Nat.{pow-suc}
use cpu_x.Dmi.Strings.{c_str}
use cpu_x.Dmi.Strings.RoundTrip.{NonZero}
use cpu_x.Dmi.Print.{decimal_digits, decimal, zeros, strncpy, snprintf}

length-zeros : (n : ℕ) → length (zeros n) ≡ n
length-zeros zero = refl
length-zeros (suc n) = ap suc (length-zeros n)

pub length-take_fits : (n : ℕ) (xs : List ℕ) → n ≤ length xs → length (take n xs) ≡ n
length-take_fits zero xs h = refl
length-take_fits (suc n) [] h = absurd (omega arith)
length-take_fits (suc n) (x ∷ xs) h = ap suc (length-take_fits n xs (omega arith))

-- The array keeps its size.
pub length-strncpy : (size : ℕ) (text : List ℕ) → length (strncpy size text) ≡ size
unfolding strncpy
length-strncpy size text =
    length-take_fits size (text ++ zeros size)
      (omega (arith, length-append text (zeros size), length-zeros size))

strncpy_fits :
    (size k : ℕ) (text : List ℕ)
    → All NonZero text
    → length text < size
    → c_str (take size (text ++ zeros (suc k))) ≡ some text
unfolding c_str
strncpy_fits zero k text h lt = absurd (omega arith)
strncpy_fits (suc size) k [] h lt = refl
strncpy_fits (suc size) k (zero ∷ text) h lt = absurd (h.0 refl)
strncpy_fits (suc size) k (suc c ∷ text) h lt =
    rw (suc-==-zero, strncpy_fits size k text h.1 (omega arith))

strncpy_long :
    (size : ℕ) (text more : List ℕ)
    → All NonZero text
    → size ≤ length text
    → c_str (take size (text ++ more)) ≡ none
unfolding c_str
strncpy_long zero text more h le = refl
strncpy_long (suc size) [] more h le = absurd (omega arith)
strncpy_long (suc size) (zero ∷ text) more h le = absurd (h.0 refl)
strncpy_long (suc size) (suc c ∷ text) more h le =
    rw (suc-==-zero, strncpy_long size text more h.1 (omega arith))

-- What `strncpy` stores reads back as the text if the text is shorter than the array. A text that
-- fills the array or is longer is stored with no end, so that reading it leaves the array.
pub c_str-strncpy :
    (size : ℕ) (text : List ℕ)
    → All NonZero text
    → (length text < size → c_str (strncpy size text) ≡ some text)
      × (size ≤ length text → c_str (strncpy size text) ≡ none)
unfolding strncpy
c_str-strncpy zero text h =
    (λ lt. absurd (omega arith), λ le. strncpy_long zero text (zeros zero) h le)
c_str-strncpy (suc size) text h =
    (strncpy_fits (suc size) size text h, strncpy_long (suc size) text (zeros (suc size)) h)

take-NonZero : (n : ℕ) (text : List ℕ) → All NonZero text → All NonZero (take n text)
take-NonZero zero text h = tt
take-NonZero (suc n) [] h = tt
take-NonZero (suc n) (c ∷ text) h = (h.0, take-NonZero n text h.1)

c_str-ended : (text more : List ℕ) → All NonZero text → c_str (text ++ (0 ∷ more)) ≡ some text
unfolding c_str
c_str-ended [] more h = refl
c_str-ended (zero ∷ text) more h = absurd (h.0 refl)
c_str-ended (suc c ∷ text) more h = rw (suc-==-zero, c_str-ended text more h.1)

-- `snprintf` ends what it stores, whatever was in the array: it reads back as the text, cut to the
-- size less one.
pub c_str-snprintf :
    (n : ℕ) (text dst : List ℕ)
    → All NonZero text
    → c_str (snprintf (suc n) text dst) ≡ some (take n text)
unfolding snprintf
c_str-snprintf n text dst h = c_str-ended (take n text) _ (take-NonZero n text h)

-- Reading digits back.
abbrev pub value_from : ℕ → List ℕ → ℕ
value_from acc [] = acc
value_from acc (c ∷ cs) = value_from (acc * 10 + (c - b'0')) cs

last_digit :
    (n : ℕ) (out : List ℕ) → n < 10 → value_from 0 ((b'0' + n % 10) ∷ out) ≡ value_from n out
last_digit n out h = ap (λ (k : ℕ). value_from k out) {y = n} (omega arith)

next_digit : (n : ℕ) (out : List ℕ) → value_from (n / 10) ((b'0' + n % 10) ∷ out) ≡ value_from n out
next_digit n out = ap (λ (k : ℕ). value_from k out) {y = n} (omega arith)

decimal_digits-value :
    (digits n : ℕ) (out : List ℕ)
    → n < 10 ^ suc digits
    → value_from 0 (decimal_digits (suc digits) n out) ≡ value_from n out
unfolding decimal_digits
decimal_digits-value zero n out h = rw (lt→ltb n 10 h) (last_digit n out h)
decimal_digits-value (suc digits) n out h = elim (Bool-cases (ltb n 10)) [
  | inl last ↦ rw last (last_digit n out (ground arith))
  | inr more ↦ rw more (
      decimal_digits-value digits (n / 10) ((b'0' + n % 10) ∷ out)
        (omega (arith, pow-suc 10 (suc digits)))
      ∙ next_digit n out)
]

-- The digits printed for an unsigned long denote it.
pub decimal-value : (n : ℕ) → n < 2 ^ 64 → value_from 0 (decimal n) ≡ n
unfolding decimal
decimal-value n h = decimal_digits-value 19 n [] (omega arith)
