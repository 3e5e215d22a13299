-- ===== src/Dmi/Names/Input.antt =====
-- The names that core/dmidecode/dmidecode.c gives to codes of pointing devices and batteries (types 21 and 22).
use cpu_x.Shared.{ℕ, List, [], ◌∷◌, String}
use cpu_x.Shared.{Option, some, refl, All, arith}
use cpu_x.Dmi.Memory.Reads.{Defined}
use cpu_x.Dmi.Lookup.{Decoder, IsTotal, out_of_spec, in_range, in_range-Defined}

abbrev pointing_device_type_names : List String
pointing_device_type_names =
    "Other" ∷ "Unknown" ∷ "Mouse" ∷ "Track Ball" ∷ "Track Point" ∷ "Glide Point" ∷ "Touch Pad"
    ∷ "Touch Screen" ∷ "Optical Sensor" ∷ []

unfoldable pub dmi_pointing_device_type : ℕ → Option String
dmi_pointing_device_type code =
    in_range 0x01 0x09 pointing_device_type_names code (some out_of_spec)

abbrev pointing_device_interface_names : List String
pointing_device_interface_names =
    "Other" ∷ "Unknown" ∷ "Serial" ∷ "PS/2" ∷ "Infrared" ∷ "HIP-HIL" ∷ "Bus Mouse"
    ∷ "ADB (Apple Desktop Bus)" ∷ []

abbrev pointing_device_interface_names_high : List String
pointing_device_interface_names_high =
    "Bus Mouse DB-9" ∷ "Bus Mouse Micro DIN" ∷ "USB" ∷ "I2C" ∷ "SPI" ∷ []

unfoldable pub dmi_pointing_device_interface : ℕ → Option String
dmi_pointing_device_interface code =
    in_range 0x01 0x08 pointing_device_interface_names code
      (in_range 0xA0 0xA4 pointing_device_interface_names_high code (some out_of_spec))

abbrev battery_chemistry_names : List String
battery_chemistry_names =
    "Other" ∷ "Unknown" ∷ "Lead Acid" ∷ "Nickel Cadmium" ∷ "Nickel Metal Hydride" ∷ "Lithium Ion"
    ∷ "Zinc Air" ∷ "Lithium Polymer" ∷ []

unfoldable pub dmi_battery_chemistry : ℕ → Option String
dmi_battery_chemistry code = in_range 0x01 0x08 battery_chemistry_names code (some out_of_spec)

dmi_pointing_device_type-Defined : (code : ℕ) → Defined (dmi_pointing_device_type code)
unfolding dmi_pointing_device_type
dmi_pointing_device_type-Defined code =
    in_range-Defined 0x01 0x09 pointing_device_type_names code _ (omega arith) ((out_of_spec, refl))

dmi_pointing_device_interface-Defined : (code : ℕ) → Defined (dmi_pointing_device_interface code)
unfolding dmi_pointing_device_interface
dmi_pointing_device_interface-Defined code =
    in_range-Defined 0x01 0x08 pointing_device_interface_names code _ (omega arith) (
      in_range-Defined 0xA0 0xA4 pointing_device_interface_names_high code _ (omega arith)
        ((out_of_spec, refl)))

dmi_battery_chemistry-Defined : (code : ℕ) → Defined (dmi_battery_chemistry code)
unfolding dmi_battery_chemistry
dmi_battery_chemistry-Defined code =
    in_range-Defined 0x01 0x08 battery_chemistry_names code _ (omega arith) ((out_of_spec, refl))

abbrev pub decoders : List Decoder
decoders = dmi_pointing_device_type ∷ dmi_pointing_device_interface ∷ dmi_battery_chemistry ∷ []

pub decoders-IsTotal : All IsTotal decoders
decoders-IsTotal = (
  dmi_pointing_device_type-Defined,
  (dmi_pointing_device_interface-Defined, (dmi_battery_chemistry-Defined, tt)),
)
