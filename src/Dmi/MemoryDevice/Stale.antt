-- ===== src/Dmi/MemoryDevice/Stale.antt =====
-- What the static buffers of the `_str` functions keep from one call to the next.
use cpu_x.Shared.{ℕ, ◌⊎◌, arith, List, ◌≡◌, ◌≢◌, refl, some}
use cpu_x.Dmi.MemoryDevice.{Statics, dmi_memory_device_speed_str, dmi_memory_voltage_value_str}
use cpu_x.Dmi.MemoryDevice.{dmi_memory_device_size_str}

-- The codes that SMBIOS gives for a speed that is not known.
abbrev pub IsUnknownSpeed : ℕ → ℕ → Type 0
IsUnknownSpeed code1 code2 = (code1 ≡ 0) ⊎ ((code1 ≡ 0xFFFF) × (code2 ≡ 0))

-- For a speed that is not known, for the voltage 0, and for the size of an empty slot or a size
-- that is not known, the functions leave their buffers alone and return the text that the buffer
-- held before the call, whatever it was.
unknown_returns_old :
    (volts : ℕ → List ℕ) (code1 code2 size : ℕ) (s : Statics)
    → IsUnknownSpeed code1 code2
    → (size ≡ 0) ⊎ (size ≡ 0xFFFF)
    → (dmi_memory_device_speed_str code1 code2 s ≡ (s.speed, s))
      × (dmi_memory_voltage_value_str volts 0 s ≡ (s.voltage, s))
      × (dmi_memory_device_size_str size s ≡ some (s.device_size, s))
unfolding dmi_memory_device_speed_str dmi_memory_voltage_value_str dmi_memory_device_size_str
unknown_returns_old volts code1 code2 size s u z = (ground arith, refl, ground arith)

-- Where a call with a 16-bit speed that is known is followed by one with a speed that is not
-- known, the second call returns the text of the first.
stale_speed :
    (known wide code1 code2 : ℕ) (s : Statics)
    → known ≢ 0
    → known ≢ 0xFFFF
    → IsUnknownSpeed code1 code2
    → let (shown, s') = dmi_memory_device_speed_str known wide s in
      (dmi_memory_device_speed_str code1 code2 s').0 ≡ shown
unfolding dmi_memory_device_speed_str
stale_speed known wide code1 code2 s k k' u = ground arith
