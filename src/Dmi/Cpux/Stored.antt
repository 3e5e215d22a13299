-- ===== src/Dmi/Cpux/Stored.antt =====
-- The fields of the base board that `dmi_decode_cpux` in core/dmidecode/dmidecode.c fills by
-- `strncpy`, as libdmidecode.cpp reads them back.
use cpu_x.Shared.{
  ℕ, zero, suc, ◌≤◌, ltb, if◌then◌else◌, Bool-cases, List, ◌∷◌, All, get_elem?, length, Option,
  Option-cases, none, some, ◌≡◌, inl, inr, arith,
}
use cpu_x.Dmi.Strings.{Header, c_str}
use cpu_x.Dmi.Strings.RoundTrip.{NonZero, IsText, IsText-of_get_elem?, All-of_IsText}
use cpu_x.Dmi.Strings.RoundTrip.Printable.{string_text}
use cpu_x.Dmi.Print.Laws.{c_str-strncpy}
use cpu_x.Dmi.Cpux.{Context, maxstr, stored}
use cpu_x.Dmi.Cpux.Stick.{Surroundings, dmi_decode_cpux}
use cpu_x.Dmi.Cpux.Board.{Holds, decode_mb-strings}

-- What can be read from a field of 80 bytes that a text is meant for.
abbrev pub read_back : List ℕ → Option (List ℕ)
read_back text = if ltb (length text) maxstr then some text else none

c_str-stored : (text : List ℕ) → All NonZero text → c_str (stored text) ≡ read_back text
c_str-stored text h = elim (Bool-cases (ltb (length text) maxstr)) [
  | inl short ↦ rw short ((c_str-strncpy maxstr text h).0 (ground arith))
  | inr long ↦ rw long ((c_str-strncpy maxstr text h).1 (ground arith))
]

string_text-NonZero : (ts : List (List ℕ)) (s : ℕ) → All IsText ts → All NonZero (string_text ts s)
string_text-NonZero ts zero h = ground arith
string_text-NonZero ts (suc s) h = elim (Option-cases (get_elem? ts s)) [
  | inl past ↦ rw (past, string_text, All) tt
  | inr (t, found) ↦ rw (found, string_text) (All-of_IsText t (IsText-of_get_elem? ts s h found))
]

-- A base board of at least 8 bytes with printable strings, whose formatted area holds the string
-- numbers `maker`, `model` and `revision` behind its header: `dmi_decode_cpux` returns, and from
-- each of the three fields of the board, the string that SMBIOS means by the number is read back if it has
-- fewer than 80 characters; if it has more, the field has no end, and no string can be read from it.
pub dmi_decode_cpux-read_back :
    (env : Surroundings) (h : Header) (c : Context) (pre more post : List ℕ) (ts : List (List ℕ))
    (t l low high maker model revision : ℕ)
    → h.type ≡ 2
    → 8 ≤ h.length
    → Holds c.block h pre (t ∷ l ∷ low ∷ high ∷ maker ∷ model ∷ revision ∷ more) post ts
    → (c' : Context) × (dmi_decode_cpux env h c ≡ some (tt, c'))
      × (c_str c'.data_of.mb.manufacturer ≡ read_back (string_text ts maker))
      × (c_str c'.data_of.mb.model ≡ read_back (string_text ts model))
      × (c_str c'.data_of.mb.revision ≡ read_back (string_text ts revision))
dmi_decode_cpux-read_back env h c pre more post ts t l low high maker model revision is_board long
      holds =
    let reads : (s : ℕ) → c_str (stored (string_text ts s)) ≡ read_back (string_text ts s) =
      λ s. c_str-stored (string_text ts s) (string_text-NonZero ts s holds.texts) in
    (
      _,
      decode_mb-strings env h c pre more post ts t l low high maker model revision is_board long
          holds,
      reads maker,
      reads model,
      reads revision,
    )
