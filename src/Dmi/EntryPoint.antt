-- ===== src/Dmi/EntryPoint.antt =====
-- The entry points of core/dmidecode/dmidecode.c: the checks of `smbios3_decode`, `smbios_decode`
-- and `legacy_decode` and what they take from an entry point, the search for one in memory, and
-- the entry points written to a dump. `base` is where the entry point lies in the block.
pub mod Sum
pub mod Crafted
pub mod Checked
use cpu_x.Shared.{
  ℕ, zero, suc, ◌+◌, ◌-◌, ◌*◌, ◌/◌, ◌%◌, ◌^◌, ◌==◌, ltb, leb, if◌then◌else◌, ◌&&◌, Bool, true,
  false,
}
use cpu_x.Shared.{Option, none, some, List, [], ◌∷◌, set, codes, length}
use cpu_x.Dmi.Memory.{Buffer, byte, word, dword, qword, checksum, ◌>>=◌}

-- What an entry point says about the table. A `num` of 0 stands for no announced count.
pub record Entry : Type 0 where
  pub version : ℕ
  pub address : ℕ
  pub size : ℕ
  pub num : ℕ

-- A wrong entry point is `none` inside; a read outside the block is a fault.
abbrev pub Checked : Type 0
Checked = Option (Option Entry)

-- `memcmp(buf + base, text, n) == 0` for a text of `n` characters; the comparison stops at the
-- first difference.
unfoldable pub matches_at : Buffer → ℕ → List ℕ → Option Bool
matches_at buf p [] = some true
matches_at buf p (c ∷ text) =
    let rest = matches_at buf (p + 1) text in
    byte buf p >>= λ x. if x == c then rest else some false

-- A chain of `&&` on tests that read memory.
abbrev pub when : Option Bool → Checked → Checked
when test k = test >>= λ t. if t then k else some none

unfoldable pub smbios3_fields : Buffer → ℕ → Checked
smbios3_fields buf base = do
  major ← byte buf (base + 0x07)
  minor ← byte buf (base + 0x08)
  revision ← byte buf (base + 0x09)
  address ← qword buf (base + 0x10)
  size ← dword buf (base + 0x0C)
  some (
      some (record {
        version = major * 2 ^ 16 + minor * 2 ^ 8 + revision;
        address = address;
        size = size;
        num = 0;
      }))

unfoldable pub smbios3_entry : Buffer → ℕ → ℕ → Checked
smbios3_entry buf base buf_len = do
  n ← byte buf (base + 0x06)
  if ltb buf_len n
      then some none
      else if ltb n 0x18
      then some none
      else when (checksum buf base n) (smbios3_fields buf base)

-- `dmi_fixup_version`.
unfoldable pub dmi_fixup_version : ℕ → ℕ
dmi_fixup_version ver =
    if ver == 0x021F
    then 0x0203
    else if ver == 0x0221
    then 0x0203
    else if ver == 0x0233
    then 0x0206
    else ver

unfoldable pub smbios_fields : Bool → Buffer → ℕ → Checked
smbios_fields no_quirks buf base = do
  major ← byte buf (base + 0x06)
  minor ← byte buf (base + 0x07)
  size ← word buf (base + 0x16)
  num ← word buf (base + 0x1C)
  address ← dword buf (base + 0x18)
  let ver = major * 2 ^ 8 + minor
  some (
      some (record {
        version = if no_quirks then ver else dmi_fixup_version ver;
        address = address;
        size = size;
        num = num;
      }))

unfoldable pub smbios_entry : Bool → Buffer → ℕ → ℕ → Checked
smbios_entry no_quirks buf base buf_len = do
  n ← byte buf (base + 0x05)
  if ltb buf_len n
      then some none
      else if ltb n 0x1E
      then some none
      else when (checksum buf base n) (
          when (matches_at buf (base + 0x10) (codes "_DMI_"))
            (when (checksum buf (base + 0x10) 0x0F) (smbios_fields no_quirks buf base)))

unfoldable pub legacy_fields : Buffer → ℕ → Checked
legacy_fields buf base = do
  v ← byte buf (base + 0x0E)
  size ← word buf (base + 0x06)
  num ← word buf (base + 0x0C)
  address ← dword buf (base + 0x08)
  some (
      some (record {
        version = v / 2 ^ 4 * 2 ^ 8 + v % 2 ^ 4;
        address = address;
        size = size;
        num = num;
      }))

unfoldable pub legacy_entry : Buffer → ℕ → Checked
legacy_entry buf base = when (checksum buf base 0x0F) (legacy_fields buf base)

-- A write; outside of the block it is a fault.
unfoldable pub store : ℕ → ℕ → Buffer → Option Buffer
store i v buf = byte buf i >>= λ _. some (set buf i v)

unfoldable pub store_zeros : ℕ → ℕ → Buffer → Option Buffer
store_zeros zero i buf = some buf
store_zeros (suc n) i buf = store i 0 buf >>= λ buf'. store_zeros n (i + 1) buf'

-- The sum of `n` bytes from `i` on.
unfoldable pub sum_bytes : ℕ → ℕ → Buffer → Option ℕ
sum_bytes zero i buf = some 0
sum_bytes (suc n) i buf = do x ← byte buf i; rest ← sum_bytes n (i + 1) buf; some (x + rest)

-- Both `overwrite_dmi_address`, with the 4 bytes of an address at 0x08, and
-- `overwrite_smbios3_address`, with 8 bytes at 0x10: the address becomes 32, and the checksum at
-- 0x05 takes up the difference. `high` counts the bytes of the address behind its lowest.
unfoldable pub overwrite_address : ℕ → ℕ → ℕ → Buffer → Option Buffer
overwrite_address high at base buf = do
  s ← byte buf (base + 0x05)
  old ← sum_bytes (suc high) (base + at) buf
  buf1 ← store (base + 0x05) ((s + old + 2 ^ 8 - 32) % 2 ^ 8) buf
  buf2 ← store (base + at) 32 buf1
  store_zeros high (base + at + 1) buf2

unfoldable pub overwrite_dmi_address : ℕ → Buffer → Option Buffer
overwrite_dmi_address = overwrite_address 3 0x08

unfoldable pub overwrite_smbios3_address : Buffer → Option Buffer
overwrite_smbios3_address = overwrite_address 7 0x10 0

-- The first search, for 64-bit entry points, `left` places from `fp` on.
unfoldable pub scan_smbios3 : ℕ → ℕ → Buffer → Checked
scan_smbios3 zero fp buf = some none
scan_smbios3 (suc left) fp buf =
    let rest = scan_smbios3 left (fp + 16) buf in
    let tried =
      smbios3_entry buf fp 0x20 >>= λ found. elim found [ none ↦ rest | some e ↦ some (some e) ] in
    matches_at buf fp (codes "_SM3_") >>= λ here. if here then tried else rest

-- The second one, for 32-bit and legacy entry points.
unfoldable pub try_smbios : Bool → ℕ → Buffer → Checked
try_smbios no_quirks fp buf =
    let legacy = matches_at buf fp (codes "_DMI_") >>= λ here.
    if here then legacy_entry buf fp else some none in
    matches_at buf fp (codes "_SM_") >>= λ here.
    if here && leb fp 0xFFE0 then smbios_entry no_quirks buf fp 0x20 else legacy

unfoldable pub scan_smbios : Bool → ℕ → ℕ → Buffer → Checked
scan_smbios no_quirks zero fp buf = some none
scan_smbios no_quirks (suc left) fp buf =
    let rest = scan_smbios no_quirks left (fp + 16) buf in
    try_smbios no_quirks fp buf >>= λ found. elim found [ none ↦ rest | some e ↦ some (some e) ]

-- The places 0, 16, ..., 0xFFE0 and then 0, 16, ..., 0xFFF0 of a block of 0x10000 bytes.
unfoldable pub memory_scan : Bool → Buffer → Checked
memory_scan no_quirks buf =
    let second = scan_smbios no_quirks 0x1000 0 buf in
    scan_smbios3 0xFFF 0 buf >>= λ found. elim found [ none ↦ second | some e ↦ some (some e) ]
