-- ===== src/Dmi/MemoryDevice.antt =====
-- The fields of a memory device (type 17) as text: the `_str` functions of
-- core/dmidecode/dmidecode.c that were added for CPU-X, with their static buffers. A static buffer
-- keeps its text from one call to the next, so it is part of the state.
pub mod Detail
pub mod Total
pub mod Stale
use cpu_x.Shared.{
  ℕ, zero, suc, ◌+◌, ◌-◌, ◌*◌, ◌/◌, ◌%◌, ◌^◌, ◌==◌, leb, ltb, if◌then◌else◌, ◌&&◌, Bool, true,
  false,
}
use cpu_x.Shared.{List, [], ◌∷◌, ◌++◌, take, get_elem?, Option, none, some, String, codes}
use cpu_x.Dmi.Memory.{◌>>=◌}
use cpu_x.Dmi.MemorySize.{Amount, memory_amount, runtime_amount, extended_amount, device_amount}
use cpu_x.Dmi.Print.{decimal}

abbrev pub out_of_spec : List ℕ
out_of_spec = codes "<OUT OF SPEC>"

-- The contents of the static buffers, as C strings; all are empty at the start.
pub record Statics : Type 0 where
  pub runtime_size : List ℕ
  pub rom_size : List ℕ
  pub device_size : List ℕ
  pub extended_size : List ℕ
  pub voltage : List ℕ
  pub speed : List ℕ

abbrev pub no_statics : Statics
no_statics = record {
  runtime_size = [];
  rom_size = [];
  device_size = [];
  extended_size = [];
  voltage = [];
  speed = [];
}

-- `STR_LEN` less the zero byte: what `snprintf` keeps of a text.

abbrev pub cut : List ℕ → List ℕ
cut text = take 23 text

-- The unit texts of util.hpp, which `string_set_size_unit` replaces later.
abbrev pub unit_tokens : List (List ℕ)
unit_tokens =
    codes "@0B@"
    ∷ codes "@KIB@"
    ∷ codes "@MIB@"
    ∷ codes "@GIB@"
    ∷ codes "@TIB@"
    ∷ codes "@PIB@"
    ∷ codes "@EIB@"
    ∷ []

-- `"%lu %s"`; the array of eight pointers holds seven texts, and the last one is NULL.
unfoldable pub amount_text : ℕ → Amount → Option (List ℕ)
amount_text shift a = get_elem? unit_tokens (a.unit + shift) >>= λ unit.
    some (cut (decimal a.capacity ++ (b' ' ∷ unit)))

-- `dmi_print_memory_size_str`.
unfoldable pub memory_size_text : ℕ → ℕ → Option (List ℕ)
memory_size_text code shift = amount_text shift (memory_amount code)

-- Each function returns the text and the buffers.
unfoldable pub dmi_bios_runtime_size_str : ℕ → Statics → Option (List ℕ × Statics)
dmi_bios_runtime_size_str code s =
    amount_text 0 (runtime_amount code) >>= λ t. some (t, record s { runtime_size = t })

abbrev pub rom_units : List (List ℕ)
rom_units = codes "@MIB@" ∷ codes "@GIB@" ∷ codes "?B" ∷ codes "?B" ∷ []

unfoldable pub rom_size_text : ℕ → ℕ → Option (List ℕ)
rom_size_text code1 code2 =
    let old = memory_size_text ((code1 + 1) * 2 ^ 6) 1 in
    let extended = get_elem? rom_units (code2 / 2 ^ 14) >>= λ unit.
    some (cut (decimal (code2 % 2 ^ 14) ++ (b' ' ∷ unit))) in
    if code1 == 0xFF then extended else old

unfoldable pub dmi_bios_rom_size_str : ℕ → ℕ → Statics → Option (List ℕ × Statics)
dmi_bios_rom_size_str code1 code2 s =
    rom_size_text code1 code2 >>= λ t. some (t, record s { rom_size = t })

-- For the fields 0 and 0xFFFF the text goes to the log, and the buffer is returned as it is.
unfoldable pub dmi_memory_device_size_str : ℕ → Statics → Option (List ℕ × Statics)
dmi_memory_device_size_str code s =
    let shown =
      memory_size_text (device_amount code) 1 >>= λ t. some (t, record s { device_size = t }) in
    if code == 0
    then some (s.device_size, s)
    else if code == 0xFFFF
    then some (s.device_size, s)
    else shown

unfoldable pub dmi_memory_device_extended_size_str : ℕ → Statics → Option (List ℕ × Statics)
dmi_memory_device_extended_size_str code s =
    amount_text 0 (extended_amount code) >>= λ t. some (t, record s { extended_size = t })

-- `"%u MT/s"`; the buffer is returned as it is where the speed is unknown.
unfoldable pub speed_text : ℕ → List ℕ
speed_text speed = cut (decimal speed ++ codes " MT/s")

unfoldable pub dmi_memory_device_speed_str : ℕ → ℕ → Statics → List ℕ × Statics
dmi_memory_device_speed_str code1 code2 s =
    let speed = if code1 == 0xFFFF then code2 else code1 in
    if speed == 0 then (s.speed, s) else (speed_text speed, record s { speed = speed_text speed })

-- `volts` prints a number of millivolts by `"%g V"`, or by `"%.1f V"` where it is a multiple of 100.
unfoldable pub dmi_memory_voltage_value_str : (ℕ → List ℕ) → ℕ → Statics → List ℕ × Statics
dmi_memory_voltage_value_str volts code s =
    if code == 0 then (s.voltage, s) else (volts code, record s { voltage = volts code })

abbrev pub form_factors : List (List ℕ)
form_factors =
    codes "Other"
    ∷ codes "Unknown"
    ∷ codes "SIMM"
    ∷ codes "SIP"
    ∷ codes "Chip"
    ∷ codes "DIP"
    ∷ codes "ZIP"
    ∷ codes "Proprietary Card"
    ∷ codes "DIMM"
    ∷ codes "TSOP"
    ∷ codes "Row Of Chips"
    ∷ codes "RIMM"
    ∷ codes "SODIMM"
    ∷ codes "SRIMM"
    ∷ codes "FB-DIMM"
    ∷ codes "Die"
    ∷ []

-- An array of names for the codes from `lo` to `hi`; a read outside the array is a fault.
unfoldable pub name_between : ℕ → ℕ → List (List ℕ) → ℕ → Option (List ℕ)
name_between lo hi names code =
    if leb lo code && leb code hi then get_elem? names (code - lo) else some out_of_spec

unfoldable pub dmi_memory_device_form_factor : ℕ → Option (List ℕ)
dmi_memory_device_form_factor = name_between 0x01 0x10 form_factors

abbrev pub device_types : List (List ℕ)
device_types =
    codes "Other"
    ∷ codes "Unknown"
    ∷ codes "DRAM"
    ∷ codes "EDRAM"
    ∷ codes "VRAM"
    ∷ codes "SRAM"
    ∷ codes "RAM"
    ∷ codes "ROM"
    ∷ codes "Flash"
    ∷ codes "EEPROM"
    ∷ codes "FEPROM"
    ∷ codes "EPROM"
    ∷ codes "CDRAM"
    ∷ codes "3DRAM"
    ∷ codes "SDRAM"
    ∷ codes "SGRAM"
    ∷ codes "RDRAM"
    ∷ codes "DDR"
    ∷ codes "DDR2"
    ∷ codes "DDR2 FB-DIMM"
    ∷ codes "Reserved"
    ∷ codes "Reserved"
    ∷ codes "Reserved"
    ∷ codes "DDR3"
    ∷ codes "FBD2"
    ∷ codes "DDR4"
    ∷ codes "LPDDR"
    ∷ codes "LPDDR2"
    ∷ codes "LPDDR3"
    ∷ codes "LPDDR4"
    ∷ codes "Logical non-volatile device"
    ∷ codes "HBM"
    ∷ codes "HBM2"
    ∷ codes "DDR5"
    ∷ codes "LPDDR5"
    ∷ codes "HBM3"
    ∷ []

unfoldable pub dmi_memory_device_type : ℕ → Option (List ℕ)
dmi_memory_device_type = name_between 0x01 0x24 device_types

abbrev pub details : List (List ℕ)
details =
    codes "Other"
    ∷ codes "Unknown"
    ∷ codes "Fast-paged"
    ∷ codes "Static Column"
    ∷ codes "Pseudo-static"
    ∷ codes "RAMBus"
    ∷ codes "Synchronous"
    ∷ codes "CMOS"
    ∷ codes "EDO"
    ∷ codes "Window DRAM"
    ∷ codes "Cache DRAM"
    ∷ codes "Non-Volatile"
    ∷ codes "Registered (Buffered)"
    ∷ codes "Unbuffered (Unregistered)"
    ∷ codes "LRDIMM"
    ∷ []

abbrev pub spaced : List ℕ → List ℕ → List ℕ
spaced [] name = name
spaced (c ∷ list) name = (c ∷ list) ++ (b' ' ∷ name)

-- The loop over the bits from `i` on: the names of the set bits with a space between them.
unfoldable pub detail_loop : List (List ℕ) → ℕ → ℕ → List ℕ → List ℕ
detail_loop [] i code list = list
detail_loop (name ∷ names) i code list =
    detail_loop names (i + 1) code (if code / 2 ^ i % 2 == 0 then list else spaced list name)

unfoldable pub dmi_memory_device_type_detail_str : ℕ → List ℕ
dmi_memory_device_type_detail_str code =
    if code / 2 % 2 ^ 15 == 0 then codes "None" else detail_loop details 1 code []
