-- ===== src/Dmi/Cpux/Stick.antt =====
-- The case of memory devices in `dmi_decode_cpux`, and the function as a whole.
use cpu_x.Shared.{ℕ, ◌+◌, ◌%◌, ◌^◌, ◌==◌, leb, ltb, if◌then◌else◌, ◌&&◌, not}
use cpu_x.Shared.{Bool, true, false, List, [], ◌∷◌, ◌++◌, take, some, codes}
use cpu_x.Dmi.Strings.{Header}
use cpu_x.Dmi.Print.{decimal, snprintf, zeros}
use cpu_x.Dmi.MemoryDevice.{dmi_memory_device_size_str, dmi_memory_device_extended_size_str}
use cpu_x.Dmi.MemoryDevice.{dmi_memory_device_speed_str, dmi_memory_voltage_value_str}
use cpu_x.Dmi.MemoryDevice.{dmi_memory_device_form_factor, dmi_memory_device_type}
use cpu_x.Dmi.MemoryDevice.{dmi_memory_device_type_detail_str}
use cpu_x.Dmi.Cpux.{
  M, ◌>>=◌, ◌>>◌, done, reading, with_statics, change, field, word_field, dword_field,
}
use cpu_x.Dmi.Cpux.{string_field, stored, maxstr, MemoryData, DmidecodeData}
use cpu_x.Dmi.Cpux.{decode_bios, decode_mb, decode_cpu}

-- `strstr(text, part) != NULL`.
unfoldable pub starts_with : List ℕ → List ℕ → Bool
starts_with [] text = true
starts_with (p ∷ part) [] = false
starts_with (p ∷ part) (c ∷ text) = let rest = starts_with part text in p == c && rest

unfoldable pub contains : List ℕ → List ℕ → Bool
contains part [] = starts_with part []
contains part (c ∷ text) =
    let rest = contains part text in if starts_with part (c ∷ text) then true else rest

-- `memset` to zero.
abbrev pub blank : MemoryData
blank =
    let none_yet = zeros maxstr in
    record {
      manufacturer = none_yet;
      part_number = none_yet;
      type = none_yet;
      type_detail = none_yet;
      device_locator = none_yet;
      bank_locator = none_yet;
      size = none_yet;
      rank = none_yet;
      speed_maximum = none_yet;
      speed_configured = none_yet;
      voltage_minimum = none_yet;
      voltage_maximum = none_yet;
      voltage_configured = none_yet;
    }

-- `realloc` to one more element than `stick_count`, a new blank stick, and the count in a `uint8_t`.
unfoldable pub grow : DmidecodeData → DmidecodeData
grow d = record d {
  memory = take d.stick_count d.memory ++ (blank ∷ []);
  stick_count = (d.stick_count + 1) % 2 ^ 8;
}

abbrev pub change_last : (MemoryData → MemoryData) → List MemoryData → List MemoryData
change_last f [] = []
change_last f (x ∷ []) = f x ∷ []
change_last f (x ∷ y ∷ xs) = x ∷ change_last f (y ∷ xs)

-- A write to `memory[stick_index]`, the new and last element.
abbrev pub on_stick : (MemoryData → MemoryData) → M (Unit {0})
on_stick f = change (λ d. record d { memory = change_last f d.memory })

-- What the decoder takes from its surroundings: the option, the C library's allocation and printing
-- of voltages, and the translation of messages.
pub record Surroundings : Type 0 where
  pub no_quirks : Bool
  pub can_grow : ℕ → Bool
  pub volts : ℕ → List ℕ
  pub translate : List ℕ → List ℕ

module _ (env : Surroundings) (h : Header) where
  unfoldable pub stick_size : M (List ℕ)
  stick_size = do
    code ← word_field h 0x0C
    let extended = do
      wide ← dword_field h 0x1C
      with_statics (dmi_memory_device_extended_size_str wide)
    if leb 0x20 h.length && code == 0x7FFF
        then extended
        else with_statics (dmi_memory_device_size_str code)

  -- The fields that every device has.
  unfoldable pub stick_basics : M (Unit {0})
  stick_basics = do
    size ← stick_size
    on_stick (λ s. record s { size = stored size })
    code ← field h 0x0E
    factor ← reading (λ _. dmi_memory_device_form_factor code)
    code' ← field h 0x12
    kind ← reading (λ _. dmi_memory_device_type code')
    on_stick (λ s. record s { type = snprintf maxstr (factor ++ codes " " ++ kind) s.type })
    locator ← string_field h 0x10
    on_stick (λ s. record s { device_locator = stored locator })
    bank ← string_field h 0x11
    on_stick (λ s. record s { bank_locator = stored bank })
    detail ← word_field h 0x13
    on_stick (λ s. record s { type_detail = stored (dmi_memory_device_type_detail_str detail) })

  -- The text of a speed: the WORD at `k`, and the DWORD at `wide` in long structures.
  unfoldable pub stick_speed : ℕ → ℕ → M (List ℕ)
  stick_speed k wide = do
    code1 ← word_field h k
    code2 ← (if leb 0x5C h.length then dword_field h wide else λ c. some (0, c))
    with_statics (λ s. some (dmi_memory_device_speed_str code1 code2 s))

  unfoldable pub stick_voltage : ℕ → M (List ℕ)
  stick_voltage k = do
    code ← word_field h k
    with_statics (λ s. some (dmi_memory_voltage_value_str env.volts code s))

  -- From the voltages backwards: each part ends where the structure is too short for the next.
  unfoldable pub stick_voltages : M (Unit {0})
  stick_voltages = do
    minimum ← stick_voltage 0x22
    on_stick (λ s. record s { voltage_minimum = stored minimum })
    maximum ← stick_voltage 0x24
    on_stick (λ s. record s { voltage_maximum = stored maximum })
    configured ← stick_voltage 0x26
    on_stick (λ s. record s { voltage_configured = stored configured })

  unfoldable pub stick_configured : M (Unit {0})
  stick_configured = do
    configured ← stick_speed 0x20 0x58
    on_stick (λ s. record s { speed_configured = stored configured })
    if ltb h.length 0x28 then done else stick_voltages

  unfoldable pub stick_rank : M (Unit {0})
  stick_rank = do
    r ← field h 0x1B
    on_stick (λ s. record s {
      rank =
          if r % 2 ^ 4 == 0
          then stored (env.translate (codes "Unknown"))
          else snprintf maxstr (decimal (r % 2 ^ 4)) s.rank;
    })
    if ltb h.length 0x22 then done else stick_configured

  unfoldable pub stick_maker : M (Unit {0})
  stick_maker = do
    manufacturer ← string_field h 0x17
    on_stick (λ s. record s { manufacturer = stored manufacturer })
    part ← string_field h 0x1A
    on_stick (λ s. record s { part_number = stored part })
    if ltb h.length 0x1C then done else stick_rank

  -- If no module is present, the remaining fields are irrelevant.
  unfoldable pub stick_details : M (Unit {0})
  stick_details = do
    code ← word_field h 0x0C
    let maximum = do
      speed ← stick_speed 0x15 0x54
      on_stick (λ s. record s { speed_maximum = stored speed })
      if ltb h.length 0x1B then done else stick_maker
    if code == 0 && not env.no_quirks then done else maximum

  unfoldable pub new_stick : M (Unit {0})
  new_stick = do change grow; stick_basics; if ltb h.length 0x17 then done else stick_details

  unfoldable pub decode_stick : M (Unit {0})
  decode_stick = do
    code ← field h 0x0E
    factor ← reading (λ _. dmi_memory_device_form_factor code)
    if contains (codes "Unknown") factor then done else λ c.
        if env.can_grow c.data_of.stick_count then new_stick c else done c

  unfoldable pub dmi_decode_cpux : M (Unit {0})
  dmi_decode_cpux =
      if h.type == 0
      then (if ltb h.length 0x12 then done else decode_bios h)
      else if h.type == 2
      then (if ltb h.length 0x08 then done else decode_mb h)
      else if h.type == 4
      then (if ltb h.length 0x1A then done else decode_cpu h)
      else if h.type == 17
      then (if ltb h.length 0x15 then done else decode_stick)
      else done
