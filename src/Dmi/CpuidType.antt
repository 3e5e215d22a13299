-- ===== src/Dmi/CpuidType.antt =====
-- `dmi_get_cpuid_type` of core/dmidecode/dmidecode.c: how the Processor ID field of a type 4
-- structure is to be read.
use cpu_x.Shared.{ℕ, ◌+◌, ◌==◌, leb, if◌then◌else◌, Bool, ◌&&◌, ◌||◌, bit_and, ◌^◌}
use cpu_x.Shared.{Option, some}
use cpu_x.Dmi.Memory.{Buffer, byte, word, ◌>>=◌}
use cpu_x.Dmi.Strings.{Header}

pub data CpuidType : Type 0 where
  cpuid_none cpuid_80386 cpuid_80486 cpuid_arm_legacy : CpuidType
  cpuid_arm_soc_id cpuid_x86_intel cpuid_x86_amd cpuid_loongarch : CpuidType

abbrev pub within : ℕ → ℕ → ℕ → Bool
within lo hi x = leb lo x && leb x hi

abbrev pub is_arm : ℕ → Bool
is_arm type = within 0x100 0x102 type || within 0x118 0x119 type

abbrev pub is_x86_intel : ℕ → Bool
is_x86_intel type =
    within 0x0B 0x15 type
    || within 0x28 0x2F type
    || within 0xA1 0xB3 type
    || type == 0xB5
    || within 0xB9 0xC7 type
    || within 0xCD 0xCF type
    || within 0xD2 0xDB type
    || within 0xDD 0xE0 type

abbrev pub is_x86_amd : ℕ → Bool
is_x86_amd type =
    within 0x18 0x1D type
    || type == 0x1F
    || within 0x38 0x3F type
    || within 0x46 0x4F type
    || within 0x66 0x6B type
    || within 0x83 0x8F type
    || within 0xB6 0xB7 type
    || within 0xE4 0xEF type

abbrev pub is_loongarch : ℕ → Bool
is_loongarch type = within 0x258 0x262 type || within 0x26C 0x271 type

-- The field `Processor Family`, or `Processor Family 2` where the first one refers to it.
unfoldable pub family_field : Buffer → Header → Option ℕ
family_field buf h = do
  f ← byte buf (h.start + 0x06)
  let extended = word buf (h.start + 0x28)
  if f == 0xFE && leb 0x2A h.length then extended else some f

-- Whether a 80486 has the CPUID instruction, from the signature in `dx`.
abbrev pub has_cpuid : ℕ → Bool
has_cpuid dx =
    bit_and dx 0x0F00 == 0x0400
    && (bit_and dx 0x00F0 == 0x0040 || leb 0x0070 (bit_and dx 0x00F0))
    && leb 0x0003 (bit_and dx 0x000F)

unfoldable pub cpuid_of_486 : Buffer → Header → Option CpuidType
cpuid_of_486 buf h = do
  dx ← word buf (h.start + 0x08)
  some (if has_cpuid dx then cpuid_x86_intel else cpuid_80486)

unfoldable pub cpuid_of_arm : Buffer → Header → Option CpuidType
cpuid_of_arm buf h =
    let soc_id = (word buf (h.start + 0x26)) >>= λ c.
    some (if bit_and c (2 ^ 9) == 0 then cpuid_arm_legacy else cpuid_arm_soc_id) in
    if leb 0x28 h.length then soc_id else some cpuid_arm_legacy

unfoldable pub cpuid_of_family : Buffer → Header → ℕ → Option CpuidType
cpuid_of_family buf h type =
    if type == 0x05
    then some cpuid_80386
    else if type == 0x06
    then cpuid_of_486 buf h
    else if is_arm type
    then cpuid_of_arm buf h
    else if is_x86_intel type
    then some cpuid_x86_intel
    else if is_x86_amd type
    then some cpuid_x86_amd
    else if is_loongarch type
    then some cpuid_loongarch
    else some cpuid_none

unfoldable pub dmi_get_cpuid_type : Buffer → Header → Option CpuidType
dmi_get_cpuid_type buf h = do type ← family_field buf h; cpuid_of_family buf h type
