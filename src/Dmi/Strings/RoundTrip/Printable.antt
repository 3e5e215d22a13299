-- ===== src/Dmi/Strings/RoundTrip/Printable.antt =====
-- `dmi_string` of core/dmidecode/dmidecode.c on strings that the filter leaves alone.
use cpu_x.Shared.{
  ℕ, zero, suc, ◌+◌, ◌≤◌, ◌<◌, List, [], ◌∷◌, ◌++◌, map, All, length, get_elem?, none, some, arith,
}
use cpu_x.Shared.{◌≡◌, refl, ap, ap₂, ◌∙◌, inl, inr, Option-cases, All-get_elem?, sym}
use cpu_x.Dmi.Memory.{Buffer}
use cpu_x.Dmi.Strings.{
  Header, str_at, clean, dmi_string, ascii_filter, skip_strings, not_specified, bad_index,
}
use cpu_x.Dmi.Strings.Safety.{dmi_string_missing, dmi_string_present}
use cpu_x.Dmi.Strings.RoundTrip.{
  IsText, encoded, skip-encoded, skip-encoded_end, byte_here, str_at_here, ascii_filter_here,
  IsText-of_get_elem?, le-of_get_elem?-none,
}

abbrev pub IsPrintable : ℕ → Type 0
IsPrintable c = (32 ≤ c) × (c < 127)

clean-IsPrintable : (c : ℕ) → IsPrintable c → clean c ≡ c
unfolding clean
clean-IsPrintable c h = ground arith

map-clean : (t : List ℕ) → All IsPrintable t → map clean t ≡ t
map-clean [] h = refl
map-clean (c ∷ t) h =
    ap₂ (λ (x : ℕ) (xs : List ℕ). x ∷ xs) (clean-IsPrintable c h.0) (map-clean t h.1)

-- The text that SMBIOS means by a string number.
abbrev pub string_text : List (List ℕ) → ℕ → List ℕ
string_text ts zero = not_specified
string_text ts (suc s) = elim (get_elem? ts s) [ none ↦ bad_index | some t ↦ t ]

text_there :
    (t pre post : List ℕ) (h : Header) (s : ℕ) (buf : Buffer)
    → IsText t
    → All IsPrintable t
    → buf ≡ pre ++ (t ++ (0 ∷ post))
    → skip_strings buf (suc s) (h.start + h.length) ≡ some (length pre)
    → dmi_string buf h (suc s) ≡ some (record { text = t; block = buf })
text_there [] pre post h s buf i k e stops = absurd i
text_there (zero ∷ t) pre post h s buf i k e stops = absurd (i.0 refl)
text_there (suc c ∷ t) pre post h s buf i k e stops =
    let read : str_at buf (length pre) ≡ some (suc c ∷ t) =
      rw e (str_at_here pre (suc c ∷ t) post i) in
    let kept : pre ++ (map clean (suc c ∷ t) ++ (0 ∷ post)) ≡ buf =
      ap (λ z. pre ++ (z ++ (0 ∷ post))) (map-clean (suc c ∷ t) k) ∙ sym e in
    let filtered : ascii_filter (length (suc c ∷ t)) (length pre) buf ≡ some buf =
      ap (ascii_filter (length (suc c ∷ t)) (length pre)) e
      ∙ ascii_filter_here pre (suc c ∷ t) (0 ∷ post)
      ∙ ap some kept in
    dmi_string_present buf h s stops {c = c} {t = suc c ∷ t} {t' = suc c ∷ t} {buf' = buf}
      (rw e (byte_here pre (t ++ (0 ∷ post)) (suc c))) read filtered read

-- Where the strings are printable, `dmi_string` returns the string that SMBIOS means by the number
-- and leaves the block as it is.
pub dmi_string-printable :
    (pre post : List ℕ) (h : Header) (ts : List (List ℕ)) (s : ℕ) (buf : Buffer)
    → buf ≡ pre ++ (encoded ts ++ (0 ∷ post))
    → h.start + h.length ≡ length pre
    → All IsText ts
    → All (All IsPrintable) ts
    → dmi_string buf h s ≡ some (record { text = string_text ts s; block = buf })
dmi_string-printable pre post h ts zero buf e at i k = unfold dmi_string in refl
dmi_string-printable pre post h ts (suc s) buf e at i k = elim (Option-cases (get_elem? ts s)) [
  | inl g ↦
      let (q, stops, closes) = skip-encoded_end ts s pre post i (le-of_get_elem?-none ts s g) e in
      rw (g, string_text) (dmi_string_missing buf h s (rw at stops) closes)
  | inr (t, g) ↦
      let (pre', post', e', stops) = skip-encoded ts s pre (0 ∷ post) i g e in
      rw (g, string_text)
        (text_there t pre' post' h s buf (IsText-of_get_elem? ts s i g)
          (All-get_elem? (All IsPrintable) ts s k g) e' (rw at stops))
]
