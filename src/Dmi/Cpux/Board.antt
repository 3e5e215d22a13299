-- ===== src/Dmi/Cpux/Board.antt =====
-- The case of the base board in `dmi_decode_cpux` of core/dmidecode/dmidecode.c, on structures in
-- the form of the standard.
use cpu_x.Shared.{
  ℕ, ◌+◌, ◌≤◌, ◌==◌, ltb, true, false, List, ◌∷◌, ◌++◌, All, length, length-append, append_assoc,
  get_elem?, none, some, arith,
}
use cpu_x.Shared.{◌≡◌, refl, ap, sym, ◌∙◌, get_elem?-append_right}
use cpu_x.Dmi.Memory.{Buffer, byte}
use cpu_x.Dmi.Strings.{Header, dmi_string}
use cpu_x.Dmi.Strings.RoundTrip.{IsText, encoded}
use cpu_x.Dmi.Strings.RoundTrip.Printable.{IsPrintable, string_text, dmi_string-printable}
use cpu_x.Dmi.Cpux.{
  M, ◌>>=◌, MbData, Context, stored, decode_mb, field, reading, string_field, text_number, change,
}
use cpu_x.Dmi.Cpux.Stick.{Surroundings, dmi_decode_cpux}

-- A structure in the block: the formatted area, which starts with the four bytes of the header, the
-- strings, which are printable, and the zero byte that closes their area.
pub record Holds (buf : Buffer) (h : Header) (pre formatted post : List ℕ) (ts : List (List ℕ))
    : Type 0 where
  pub block : buf ≡ pre ++ (formatted ++ (encoded ts ++ (0 ∷ post)))
  pub start : h.start ≡ length pre
  pub long : h.length ≡ length formatted
  pub texts : All IsText ts
  pub printable : All (All IsPrintable) ts

module _ (h : Header) (pre formatted post : List ℕ) (ts : List (List ℕ)) (c : Context)
    (holds : Holds c.block h pre formatted post ts) where
  field-at :
      (k : ℕ) {v : ℕ}
      → get_elem? (formatted ++ (encoded ts ++ (0 ∷ post))) k ≡ some v
      → byte c.block (h.start + k) ≡ some v
  field-at k e =
      ap (λ z. byte z (h.start + k)) holds.block
      ∙ get_elem?-append_right pre (formatted ++ (encoded ts ++ (0 ∷ post))) k (h.start + k)
          (omega (arith, holds.start))
      ∙ e

  text-at :
      (s : ℕ) → dmi_string c.block h s ≡ some (record { text = string_text ts s; block = c.block })
  text-at s =
      dmi_string-printable (pre ++ formatted) post h ts s c.block (holds.block ∙ regrouped)
        (omega (arith, holds.start, holds.long, length-append pre formatted)) holds.texts
        holds.printable
    where
      regrouped :
          pre ++ (formatted ++ (encoded ts ++ (0 ∷ post)))
          ≡ (pre ++ formatted) ++ (encoded ts ++ (0 ∷ post))
      regrouped = sym (append_assoc pre formatted (encoded ts ++ (0 ∷ post)))

bind-at :
    {A B : Type 0} (m : M A) (f : A → M B) (c : Context) {a : A} {c' : Context}
    → m c ≡ some (a, c')
    → (m >>= f) c ≡ f a c'
bind-at m f c e = ap (λ r. elim r [ none ↦ none | some (a, c') ↦ f a c' ]) e

-- The string whose number stands at offset `k`.
string_field-at :
    (h : Header) (pre formatted post : List ℕ) (ts : List (List ℕ)) (c : Context)
    → Holds c.block h pre formatted post ts
    → (k : ℕ) {v : ℕ} → get_elem? (formatted ++ (encoded ts ++ (0 ∷ post))) k ≡ some v
    → string_field h k c ≡ some (string_text ts v, c)
unfolding string_field field reading text_number
string_field-at h pre formatted post ts c holds k {v} e =
    bind-at (field h k) (λ n. text_number h n) c {a = v} {c' = c}
      (ap (λ r. elim r [ none ↦ none | some a ↦ some (a, c) ])
        (field-at h pre formatted post ts c holds k e))
    ∙ ap (λ r. elim r [ none ↦ none | some t ↦ some (t.text, record c { block = t.block }) ])
        (text-at h pre formatted post ts c holds v)

on_board :
    (env : Surroundings) (h : Header) (c : Context)
    → h.type ≡ 2
    → 8 ≤ h.length
    → dmi_decode_cpux env h c ≡ decode_mb h c
unfolding dmi_decode_cpux
on_board env h c is_board long =
    let is_2 : (h.type == 2) ≡ true = ground arith in
    let not_0 : (h.type == 0) ≡ false = ground arith in
    let fits : ltb h.length 8 ≡ false = ground arith in rw (not_0, is_2, fits) refl

abbrev with_mb : (MbData → MbData) → Context → Context
with_mb f c = record c { data_of = record c.data_of { mb = f c.data_of.mb } }

-- A base board of at least 8 bytes with printable strings, whose formatted area holds the string
-- numbers `maker`, `model` and `revision` behind its header: `dmi_decode_cpux` returns, stores the
-- three strings that SMBIOS means by the numbers, and changes nothing else.
pub decode_mb-strings :
    (env : Surroundings) (h : Header) (c : Context) (pre more post : List ℕ) (ts : List (List ℕ))
    (t l low high maker model revision : ℕ)
    → h.type ≡ 2
    → 8 ≤ h.length
    → Holds c.block h pre (t ∷ l ∷ low ∷ high ∷ maker ∷ model ∷ revision ∷ more) post ts
    → dmi_decode_cpux env h c
      ≡ some (
        tt,
        record c {
          data_of = record c.data_of {
            mb = record {
              manufacturer = stored (string_text ts maker);
              model = stored (string_text ts model);
              revision = stored (string_text ts revision);
            };
          };
        },
      )
unfolding decode_mb change
decode_mb-strings env h c pre more post ts t l low high maker model revision is_board long holds =
    let formatted : List ℕ = t ∷ l ∷ low ∷ high ∷ maker ∷ model ∷ revision ∷ more in
    let c1 = with_mb (λ b. record b { manufacturer = stored (string_text ts maker) }) c in
    let c2 = with_mb (λ b. record b { model = stored (string_text ts model) }) c1 in
    on_board env h c is_board long
    ∙ bind-at (string_field h 4) _ c
        (string_field-at h pre formatted post ts c holds 4 {v = maker} refl)
    ∙ bind-at (string_field h 5) _ c1
        (string_field-at h pre formatted post ts c1 holds 5 {v = model} refl)
    ∙ bind-at (string_field h 6) _ c2
        (string_field-at h pre formatted post ts c2 holds 6 {v = revision} refl)
