-- ===== src/Dmi/ProcessorFamily.antt =====
-- `dmi_processor_family` of core/dmidecode/dmidecode.c.
pub mod Families
pub mod Search
use cpu_x.Shared.{
  ℕ, zero, suc, ◌+◌, ◌-◌, ◌/◌, ◌%◌, ◌==◌, ltb, leb, if◌then◌else◌, ◌&&◌, ◌||◌, Bool, true, false,
}
use cpu_x.Shared.{Option, none, some, List, [], ◌∷◌, get_elem?, length, take, String, codes}
use cpu_x.Dmi.Memory.{Buffer, byte, word, ◌>>=◌}
use cpu_x.Dmi.Strings.{Header, Text, dmi_string}
use cpu_x.Dmi.Lookup.{out_of_spec}
use cpu_x.Dmi.Cpux.Stick.{contains}
use Families.{family2}

-- The binary search, with `fuel` rounds at most: `none` inside is "not found". A read outside the
-- array and the end of the fuel are faults.
unfoldable pub search_family : ℕ → List (ℕ × String) → ℕ → ℕ → ℕ → Option (Option String)
search_family zero table code low high = none
search_family (suc fuel) table code low high =
    let i = (low + high) / 2 in
    let below = search_family fuel table code low i in
    let above = search_family fuel table code (i + 1) high in
    get_elem? table i >>= λ (value, name).
    if value == code
    then some (some name)
    else if low == high
    then some none
    else if ltb code value
    then below
    else above

-- A letter as `strncasecmp` compares it.
unfoldable pub lower : ℕ → ℕ
lower c = if leb b'A' c && leb c b'Z' then c + 32 else c

-- `strncasecmp(text, part, n) == 0` for a part of `n` letters.
unfoldable pub starts_like : List ℕ → List ℕ → Bool
starts_like [] text = true
starts_like (p ∷ part) [] = false
starts_like (p ∷ part) (c ∷ text) = let rest = starts_like part text in lower p == lower c && rest

abbrev pub is_made_by : List ℕ → List ℕ → Bool
is_made_by part manufacturer = contains part manufacturer || starts_like part manufacturer

-- A name, and the block, which `dmi_string` changes.
abbrev pub Named : Type 0
Named = Option (String × Buffer)

unfoldable pub family_of_code : Buffer → ℕ → Named
family_of_code buf code =
    search_family (length family2) family2 code 0 (length family2 - 1) >>= λ found. elim found [
      | none ↦ some (out_of_spec, buf)
      | some name ↦ some (name, buf)
    ]

-- The value 0xBE stands for two families, told apart by the manufacturer's string.
unfoldable pub family_of_be : Buffer → Header → Named
family_of_be buf h =
    let by_maker = byte buf (h.start + 0x07) >>= λ s. dmi_string buf h s >>= λ r.
    if is_made_by (codes "Intel") r.text
    then some ("Core 2", r.block)
    else if is_made_by (codes "AMD") r.text
    then some ("K7", r.block)
    else some ("Core 2 or K7", r.block) in
    if leb 0x08 h.length then by_maker else some ("Core 2 or K7", buf)

unfoldable pub family_of_field : Buffer → Header → Named
family_of_field buf h = byte buf (h.start + 0x06) >>= λ f.
    let extended = word buf (h.start + 0x28) in
    (if f == 0xFE && leb 0x2A h.length then extended else some f) >>= λ code.
    if code == 0xBE then family_of_be buf h else family_of_code buf code

-- In SMBIOS 2.0 the value 0x30 of an Intel processor is a Pentium Pro.
unfoldable pub dmi_processor_family : Buffer → Header → ℕ → Named
dmi_processor_family buf h ver =
    let by_maker = byte buf (h.start + 0x07) >>= λ s. dmi_string buf h s >>= λ r.
    if is_made_by (codes "Intel") r.text
    then some ("Pentium Pro", r.block)
    else family_of_field r.block h in
    byte buf (h.start + 0x06) >>= λ f.
    if ver == 0x0200 && f == 0x30 && leb 0x08 h.length then by_maker else family_of_field buf h
