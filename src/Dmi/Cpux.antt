-- ===== src/Dmi/Cpux.antt =====
-- `dmi_decode_cpux` of core/dmidecode/dmidecode.c: what CPU-X takes out of the DMI table, into the
-- `DmidecodeData` of daemon/daemon.h.
pub mod Stick
pub mod Runs
pub mod Safety
pub mod Table
pub mod Stored
pub mod WellFormed
pub mod Walk
pub mod Board
pub mod Sizes
use cpu_x.Shared.{
  ℕ, zero, suc, ◌+◌, ◌-◌, ◌*◌, ◌%◌, ◌^◌, ◌==◌, leb, ltb, if◌then◌else◌, ◌&&◌, ◌||◌, not,
}
use cpu_x.Shared.{Bool, true, false, List, [], ◌∷◌, ◌++◌, take, Option, none, some, String, codes}
use cpu_x.Dmi.Memory.{Buffer, byte, word, dword}
use cpu_x.Dmi.Strings.{Header, dmi_string}
use cpu_x.Dmi.Print.{decimal, strncpy, snprintf, zeros}
use cpu_x.Dmi.MemoryDevice.{Statics, dmi_bios_runtime_size_str, dmi_bios_rom_size_str}
use cpu_x.Dmi.MemoryDevice.{dmi_memory_device_size_str, dmi_memory_device_extended_size_str}
use cpu_x.Dmi.MemoryDevice.{dmi_memory_device_speed_str, dmi_memory_voltage_value_str}
use cpu_x.Dmi.MemoryDevice.{dmi_memory_device_form_factor, dmi_memory_device_type}
use cpu_x.Dmi.MemoryDevice.{dmi_memory_device_type_detail_str}

abbrev pub maxstr : ℕ
maxstr = 80

-- A `char[MAXSTR]`, as its bytes.
abbrev pub Chars : Type 0
Chars = List ℕ

pub record BiosData : Type 0 where
  pub brand : Chars
  pub version : Chars
  pub date : Chars
  pub romsize : Chars

pub record MbData : Type 0 where
  pub manufacturer : Chars
  pub model : Chars
  pub revision : Chars

-- `bus_freq` holds whole megahertz here: it is only ever set from a WORD.
pub record CpuData : Type 0 where
  pub bus_freq : ℕ
  pub cpu_package : Chars

pub record MemoryData : Type 0 where
  pub manufacturer : Chars
  pub part_number : Chars
  pub type : Chars
  pub type_detail : Chars
  pub device_locator : Chars
  pub bank_locator : Chars
  pub size : Chars
  pub rank : Chars
  pub speed_maximum : Chars
  pub speed_configured : Chars
  pub voltage_minimum : Chars
  pub voltage_maximum : Chars
  pub voltage_configured : Chars

pub record DmidecodeData : Type 0 where
  pub stick_count : ℕ
  pub bios : BiosData
  pub mb : MbData
  pub processor : CpuData
  pub memory : List MemoryData

-- What the decoder works on: the table, the static buffers and the data for CPU-X.
pub record Context : Type 0 where
  pub block : Buffer
  pub statics : Statics
  pub data_of : DmidecodeData

-- Code that works on the context; `none` is a fault.
abbrev pub M : Type 0 → Type 0
M A = Context → Option (A × Context)

infixl 5 ◌>>=◌ ◌>>◌
abbrev pub ◌>>=◌ : {A B : Type 0} → M A → (A → M B) → M B
◌>>=◌ m f c = elim (m c) [ none ↦ none | some (a, c') ↦ f a c' ]

abbrev pub ◌>>◌ : {A B : Type 0} → M A → M B → M B
m >> k = m >>= λ _. k

abbrev pub done : M (Unit {0})
done c = some (tt, c)

-- A read of the block, and a call that changes the static buffers.
unfoldable pub reading : {A : Type 0} → (Buffer → Option A) → M A
reading f c = elim (f c.block) [ none ↦ none | some a ↦ some (a, c) ]

unfoldable pub with_statics : {A : Type 0} → (Statics → Option (A × Statics)) → M A
with_statics f c = elim (f c.statics) [
  | none ↦ none
  | some (a, s) ↦ some (a, record c { statics = s })
]

unfoldable pub text_number : Header → ℕ → M (List ℕ)
text_number h s c = elim (dmi_string c.block h s) [
  | none ↦ none
  | some r ↦ some (r.text, record c { block = r.block })
]

unfoldable pub change : (DmidecodeData → DmidecodeData) → M (Unit {0})
change f c = some (tt, record c { data_of = f c.data_of })

-- `data[k]`, `WORD(data + k)`, `DWORD(data + k)` and `dmi_string(h, data[k])`.
unfoldable pub field : Header → ℕ → M ℕ
field h k = reading (λ buf. byte buf (h.start + k))

unfoldable pub word_field : Header → ℕ → M ℕ
word_field h k = reading (λ buf. word buf (h.start + k))

unfoldable pub dword_field : Header → ℕ → M ℕ
dword_field h k = reading (λ buf. dword buf (h.start + k))

unfoldable pub string_field : Header → ℕ → M (List ℕ)
string_field h k = do s ← field h k; text_number h s

abbrev pub on_bios : (BiosData → BiosData) → M (Unit {0})
on_bios f = change (λ d. record d { bios = f d.bios })

abbrev pub on_mb : (MbData → MbData) → M (Unit {0})
on_mb f = change (λ d. record d { mb = f d.mb })

abbrev pub on_cpu : (CpuData → CpuData) → M (Unit {0})
on_cpu f = change (λ d. record d { processor = f d.processor })

abbrev pub stored : List ℕ → Chars
stored text = strncpy maxstr text

unfoldable pub decode_bios : Header → M (Unit {0})
decode_bios h = do
  brand ← string_field h 0x04
  on_bios (λ b. record b { brand = stored brand })
  version ← string_field h 0x05
  on_bios (λ b. record b { version = stored version })
  date ← string_field h 0x08
  on_bios (λ b. record b { date = stored date })
  w ← word_field h 0x06
  runtime ← with_statics (dmi_bios_runtime_size_str ((0x10000 - w) * 2 ^ 4))
  code1 ← field h 0x09
  code2 ← (if ltb h.length 0x1A then (λ c. some (16, c)) else word_field h 0x18)
  rom ← with_statics (dmi_bios_rom_size_str code1 code2)
  on_bios (λ b. record b { romsize = snprintf maxstr (runtime ++ codes " / " ++ rom) b.romsize })

unfoldable pub decode_mb : Header → M (Unit {0})
decode_mb h = do
  manufacturer ← string_field h 0x04
  on_mb (λ b. record b { manufacturer = stored manufacturer })
  model ← string_field h 0x05
  on_mb (λ b. record b { model = stored model })
  revision ← string_field h 0x06
  on_mb (λ b. record b { revision = stored revision })

unfoldable pub decode_cpu : Header → M (Unit {0})
decode_cpu h = do
  freq ← word_field h 0x12
  on_cpu (λ p. record p { bus_freq = freq })
  package' ← string_field h 0x04
  on_cpu (λ p. record p { cpu_package = stored package' })
