-- ===== src/Dmi/Cpux/WellFormed.antt =====
-- DMI tables in the form of the SMBIOS standard, as `to_dmi_header` and the search for the next
-- handle of core/dmidecode/dmidecode.c read them.
use cpu_x.Shared.{ℕ, ◌+◌, ◌*◌, ◌^◌, ◌≤◌, ◌==◌, if◌then◌else◌, Bool, true, ◌||◌}
use cpu_x.Shared.{
  Option, some, List, [], ◌∷◌, ◌++◌, length, length-append, append_assoc, All, arith,
}
use cpu_x.Shared.{◌≡◌, ◌≢◌, refl, ap, ◌∙◌, sym, get_elem?-append_right}
use cpu_x.Dmi.Memory.{Buffer, byte, word}
use cpu_x.Dmi.Strings.{Header}
use cpu_x.Dmi.Strings.RoundTrip.{IsText}
use cpu_x.Dmi.Table.{to_dmi_header, next_handle}
use cpu_x.Dmi.Table.Closed.{area, next_handle-area}
use cpu_x.Dmi.Decode.{Action, is_displayed}
use cpu_x.Dmi.Cpux.Table.{cpux_options}

-- A structure: its type, the two bytes of its handle, the rest of its formatted area, its strings.
pub record Structure : Type 0 where
  pub type : ℕ
  pub low : ℕ
  pub high : ℕ
  pub rest : List ℕ
  pub strings : List (List ℕ)

-- Its strings are texts; it is not the end of the table, and not of the type 34 that has a quirk.
abbrev pub IsStructure : Structure → Type 0
IsStructure x = All IsText x.strings × (x.type ≢ 127) × (x.type ≢ 34)

abbrev pub structure_bytes : Structure → Buffer
structure_bytes x = x.type ∷ (length x.rest + 4) ∷ x.low ∷ x.high ∷ (x.rest ++ area x.strings)

abbrev pub table_bytes : List Structure → Buffer
table_bytes [] = []
table_bytes (x ∷ xs) = structure_bytes x ++ table_bytes xs

abbrev pub header_at : ℕ → Structure → Header
header_at p x = record {
  type = x.type;
  length = length x.rest + 4;
  handle = x.low + x.high * 2 ^ 8;
  start = p;
}

abbrev pub is_wanted : ℕ → Bool
is_wanted t = t == 0 || t == 2 || t == 4 || t == 17

-- The headers of the structures that CPU-X wants, for a table that starts at `p`.
abbrev pub wanted : ℕ → List Structure → List Header
wanted p [] = []
wanted p (x ∷ xs) =
    let later = wanted (p + length (structure_bytes x)) xs in
    if is_wanted x.type then header_at p x ∷ later else later

-- What is handed on is listed.
abbrev pub listed : Action → Header → Buffer → List Header → Option (Buffer × List Header)
listed a h buf hs = some (buf, hs ++ (h ∷ []))

pub is_displayed-wanted :
    (no_quirks : Bool) (h : Header)
    → is_displayed (cpux_options true no_quirks) true h ≡ is_wanted h.type
unfolding is_displayed cpux_options
is_displayed-wanted no_quirks h = ground arith

pub to_dmi_header-at :
    (pre more : Buffer) (x : Structure) (buf : Buffer)
    → buf ≡ pre ++ (structure_bytes x ++ more)
    → to_dmi_header buf (length pre) ≡ some (header_at (length pre) x)
unfolding to_dmi_header word
to_dmi_header-at pre more x buf e =
    let cs = structure_bytes x ++ more in
    let at : (i : ℕ) → byte buf (length pre + i) ≡ byte cs i = λ i.
      ap (λ z. byte z (length pre + i)) e ∙ get_elem?-append_right pre cs i (length pre + i) refl in
    let b0 : byte buf (length pre) ≡ some x.type = ap (byte buf) (omega arith) ∙ at 0 in
    let b1 : byte buf (length pre + 1) ≡ some (length x.rest + 4) = at 1 in
    let b2 : byte buf (length pre + 2) ≡ some x.low = at 2 in
    let b3 : byte buf (length pre + 2 + 1) ≡ some x.high = ap (byte buf) (omega arith) ∙ at 3 in
    rw (b0, b1, b2, b3)

-- The next handle is that of the next structure.
pub next-at :
    (pre more : Buffer) (x : Structure) (buf : Buffer)
    → buf ≡ pre ++ (structure_bytes x ++ more)
    → All IsText x.strings
    → next_handle buf (length buf) (header_at (length pre) x)
      ≡ some (length pre + length (structure_bytes x))
next-at pre more x buf e texts =
    let formatted : Buffer = x.type ∷ (length x.rest + 4) ∷ x.low ∷ x.high ∷ x.rest in
    let e' : buf ≡ (pre ++ formatted) ++ (area x.strings ++ more) =
      e
      ∙ ap (λ z. pre ++ z) (append_assoc formatted (area x.strings) more)
      ∙ sym (append_assoc pre formatted (area x.strings ++ more)) in
    next_handle-area (pre ++ formatted) more (header_at (length pre) x) x.strings buf e'
      (omega (arith, length-append pre formatted)) texts
    ∙ ap some (omega (arith, length-append pre formatted, length-append x.rest (area x.strings)))

pub fits_table :
    (pre more : Buffer) (x : Structure) (buf : Buffer)
    → buf ≡ pre ++ (structure_bytes x ++ more)
    → length pre + length (structure_bytes x) ≤ length buf
fits_table pre more x buf e = omega (
  arith,
  ap length e,
  length-append pre (structure_bytes x ++ more),
  length-append (structure_bytes x) more,
)
