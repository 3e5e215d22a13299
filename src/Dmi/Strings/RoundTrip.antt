-- ===== src/Dmi/Strings/RoundTrip.antt =====
-- String areas as firmware writes them, and what `dmi_string` reads back.
pub mod Printable
use cpu_x.Shared.{ℕ, zero, suc, ◌+◌, ◌≤◌, map}
use cpu_x.Shared.{Option, none, some, List, [], ◌∷◌, ◌++◌, get_elem?, length, set, arith, All}
use cpu_x.Shared.{
  ◌≡◌, ◌≢◌, refl, inl, inr, Option-cases, subst, ap, ◌∙◌, append_assoc, length-append,
}
use cpu_x.Shared.{get_elem?-append_right, drop-append, suc-==-zero}
use mathlib.Core.Option.{some-injective}
use cpu_x.Dmi.Memory.{Buffer, byte}
use cpu_x.Dmi.Strings.{Header, Text, c_str, str_at, clean, ascii_filter, skip_strings, dmi_string}
use cpu_x.Dmi.Strings.{bad_index, not_specified}
use cpu_x.Dmi.Strings.Safety.{dmi_string_missing, dmi_string_present}

abbrev pub NonZero : ℕ → Type 0
NonZero c = c ≢ 0

-- A string that SMBIOS can store: not empty, and with no zero byte.
abbrev pub IsText : List ℕ → Type 0
IsText [] = ⊥
IsText (c ∷ cs) = NonZero c × All NonZero cs

-- The strings one after the other, each with its zero byte.
abbrev pub encoded : List (List ℕ) → List ℕ
encoded [] = []
encoded (t ∷ ts) = t ++ (0 ∷ encoded ts)

pub All-of_IsText : (t : List ℕ) → IsText t → All NonZero t
All-of_IsText [] h = absurd h
All-of_IsText (c ∷ cs) h = h

pub c_str-append : (t r : List ℕ) → All NonZero t → c_str (t ++ (0 ∷ r)) ≡ some t
unfolding c_str
c_str-append [] r h = refl
c_str-append (zero ∷ t) r h = absurd (h.0 refl)
c_str-append (suc c ∷ t) r h = rw (suc-==-zero, c_str-append t r h.1)

pub str_at_here :
    (pre t r : List ℕ) → All NonZero t → str_at (pre ++ (t ++ (0 ∷ r))) (length pre) ≡ some t
str_at_here pre t r h = rw drop-append (c_str-append t r h)

set_here : (pre r : List ℕ) (x y : ℕ) → set (pre ++ (x ∷ r)) (length pre) y ≡ pre ++ (y ∷ r)
set_here [] r x y = refl
set_here (p ∷ pre) r x y = ap (λ t. p ∷ t) (set_here pre r x y)

byte_here : (pre r : List ℕ) (x : ℕ) → byte (pre ++ (x ∷ r)) (length pre) ≡ some x
byte_here pre r x = get_elem?-append_right pre (x ∷ r) 0 (length pre) (omega arith)

length-snoc : (pre : List ℕ) (x : ℕ) → length pre + 1 ≡ length (pre ++ (x ∷ []))
length-snoc pre x = omega (arith, length-append pre (x ∷ []))

ascii_filter_here :
    (pre t r : List ℕ)
    → ascii_filter (length t) (length pre) (pre ++ (t ++ r)) ≡ some (pre ++ (map clean t ++ r))
unfolding ascii_filter
ascii_filter_here pre [] r = refl
ascii_filter_here pre (x ∷ t) r =
    rw (byte_here, set_here, length-snoc pre (clean x), ← append_assoc pre (clean x ∷ []) (t ++ r))
      (ascii_filter_here (pre ++ (clean x ∷ [])) t r
        ∙ ap some (append_assoc pre (clean x ∷ []) (map clean t ++ r)))

clean-NonZero : (t : List ℕ) → All NonZero t → All NonZero (map clean t)
unfolding clean
clean-NonZero [] h = tt
clean-NonZero (c ∷ t) h = (ground arith, clean-NonZero t h.1)

-- One round of the loop in `_dmi_string` passes over one string.
skip_step :
    (c s : ℕ) (u r pre : List ℕ) {buf : Buffer}
    → buf ≡ pre ++ ((suc c ∷ u) ++ (0 ∷ r))
    → All NonZero u
    → skip_strings buf (suc (suc s)) (length pre)
      ≡ skip_strings buf (suc s) (length (pre ++ ((suc c ∷ u) ++ (0 ∷ []))))
unfolding skip_strings
skip_step c s u r pre e h = rw (
  e,
  byte_here pre (u ++ (0 ∷ r)) (suc c),
  suc-==-zero,
  str_at_here pre (suc c ∷ u) r (ground arith, h),
  skipped,
)
  where
    skipped : length pre + suc (length u) + 1 ≡ length (pre ++ ((suc c ∷ u) ++ (0 ∷ [])))
    skipped = omega (arith, length-append pre ((suc c ∷ u) ++ (0 ∷ [])), length-append u (0 ∷ []))

regroup : (pre u r : List ℕ) → pre ++ (u ++ (0 ∷ r)) ≡ (pre ++ (u ++ (0 ∷ []))) ++ r
regroup pre u r = simp append_assoc

-- Where `skip_strings` stops: before string number `s` of the area.
skip-encoded :
    (ts : List (List ℕ)) (s : ℕ) (pre post : List ℕ) {t : List ℕ} {buf : Buffer}
    → All IsText ts
    → get_elem? ts s ≡ some t
    → buf ≡ pre ++ (encoded ts ++ post)
    → (pre' : List ℕ) × (post' : List ℕ) × (buf ≡ pre' ++ (t ++ (0 ∷ post')))
      × (skip_strings buf (suc s) (length pre) ≡ some (length pre'))
unfolding skip_strings
skip-encoded [] s pre post h g e = cc
skip-encoded (u ∷ ts) zero pre post h g e =
    (pre, encoded ts ++ post, cc (e, append_assoc u (0 ∷ encoded ts) post, g), refl)
skip-encoded ([] ∷ ts) (suc s) pre post h g e = absurd h.0
skip-encoded ((zero ∷ u) ∷ ts) (suc s) pre post h g e = absurd (h.0.0 refl)
skip-encoded ((suc c ∷ u) ∷ ts) (suc s) pre post h g e =
    let e' = e ∙ ap (λ z. pre ++ z) (append_assoc (suc c ∷ u) (0 ∷ encoded ts) post) in
    let (pre', post', found, stops) =
      skip-encoded ts s (pre ++ ((suc c ∷ u) ++ (0 ∷ []))) post h.1 g
        (e' ∙ regroup pre (suc c ∷ u) (encoded ts ++ post)) in
    (pre', post', found, skip_step c s u (encoded ts ++ post) pre e' h.0.1 ∙ stops)

-- Past the last string the loop stops at the zero byte that closes the area.
skip-encoded_end :
    (ts : List (List ℕ)) (s : ℕ) (pre post : List ℕ) {buf : Buffer}
    → All IsText ts
    → length ts ≤ s
    → buf ≡ pre ++ (encoded ts ++ (0 ∷ post))
    → (q : ℕ) × (skip_strings buf (suc s) (length pre) ≡ some q) × (byte buf q ≡ some 0)
unfolding skip_strings
skip-encoded_end [] zero pre post h g e = (length pre, refl, rw e (byte_here pre post 0))
skip-encoded_end [] (suc s) pre post h g e =
    (length pre, rw (e, byte_here pre post 0), rw e (byte_here pre post 0))
skip-encoded_end (u ∷ ts) zero pre post h g e = absurd (omega arith)
skip-encoded_end ([] ∷ ts) (suc s) pre post h g e = absurd h.0
skip-encoded_end ((zero ∷ u) ∷ ts) (suc s) pre post h g e = absurd (h.0.0 refl)
skip-encoded_end ((suc c ∷ u) ∷ ts) (suc s) pre post h g e =
    let e' = e ∙ ap (λ z. pre ++ z) (append_assoc (suc c ∷ u) (0 ∷ encoded ts) (0 ∷ post)) in
    let (q, stops, closes) =
      skip-encoded_end ts s (pre ++ ((suc c ∷ u) ++ (0 ∷ []))) post h.1 (omega arith)
        (e' ∙ regroup pre (suc c ∷ u) (encoded ts ++ (0 ∷ post))) in
    (q, skip_step c s u (encoded ts ++ (0 ∷ post)) pre e' h.0.1 ∙ stops, closes)

-- What `dmi_string` answers, without the block.
abbrev pub text_of : Option Text → Option (List ℕ)
text_of none = none
text_of (some r) = some r.text

text_at :
    (t pre post : List ℕ) (h : Header) (s : ℕ) {buf : Buffer}
    → IsText t
    → buf ≡ pre ++ (t ++ (0 ∷ post))
    → skip_strings buf (suc s) (h.start + h.length) ≡ some (length pre)
    → text_of (dmi_string buf h (suc s)) ≡ some (map clean t)
text_at [] pre post h s i e stops = absurd i
text_at (zero ∷ t) pre post h s i e stops = absurd (i.0 refl)
text_at (suc c ∷ t) pre post h s {buf} i e stops = ap text_of (
    dmi_string_present buf h s stops {c = c} {t = suc c ∷ t}
      {buf' = pre ++ (map clean (suc c ∷ t) ++ (0 ∷ post))}
      (rw e (byte_here pre (t ++ (0 ∷ post)) (suc c))) (rw e (str_at_here pre (suc c ∷ t) post i))
      (rw e (ascii_filter_here pre (suc c ∷ t) (0 ∷ post)))
      (str_at_here pre (map clean (suc c ∷ t)) post (clean-NonZero (suc c ∷ t) i)))

pub IsText-of_get_elem? :
    (ts : List (List ℕ)) (s : ℕ) {t : List ℕ} → All IsText ts → get_elem? ts s ≡ some t → IsText t
IsText-of_get_elem? [] s h g = cc
IsText-of_get_elem? (u ∷ ts) zero h g = subst IsText (some-injective _ _ g) h.0
IsText-of_get_elem? (u ∷ ts) (suc s) h g = IsText-of_get_elem? ts s h.1 g

le-of_get_elem?-none : (ts : List (List ℕ)) (s : ℕ) → get_elem? ts s ≡ none → length ts ≤ s
le-of_get_elem?-none [] s h = omega arith
le-of_get_elem?-none (u ∷ ts) zero h = cc
le-of_get_elem?-none (u ∷ ts) (suc s) h = omega (arith, le-of_get_elem?-none ts s h)

-- The SMBIOS reading of a string number: 0 stands for no string, the strings are counted from 1,
-- and a number beyond the last is answered by the empty text.
abbrev pub string_number : List (List ℕ) → ℕ → List ℕ
string_number ts zero = not_specified
string_number ts (suc s) = elim (get_elem? ts s) [ none ↦ bad_index | some t ↦ map clean t ]

-- A structure whose string area holds the strings `ts`, at any place in the block and with
-- anything behind it: `dmi_string` reads, for every string number, the string that SMBIOS means
-- by it, with dots for the characters that are not printable.
pub dmi_string-encoded :
    (pre post : List ℕ) (h : Header) (ts : List (List ℕ)) (s : ℕ)
    → h.start + h.length ≡ length pre
    → All IsText ts
    → text_of (dmi_string (pre ++ (encoded ts ++ (0 ∷ post))) h s) ≡ some (string_number ts s)
dmi_string-encoded pre post h ts zero at i = unfold dmi_string in refl
dmi_string-encoded pre post h ts (suc s) at i = elim (Option-cases (get_elem? ts s)) [
  | inl g ↦
      let (q, stops, closes) =
        skip-encoded_end ts s pre post i (le-of_get_elem?-none ts s g) refl in
      rw (g, string_number) (ap text_of (dmi_string_missing _ h s (rw at stops) closes))
  | inr (t, g) ↦
      let (pre', post', e, stops) = skip-encoded ts s pre (0 ∷ post) i g refl in
      rw (g, string_number)
        (text_at t pre' post' h s (IsText-of_get_elem? ts s i g) e (rw at stops))
]
