-- ===== src/Dmi/Names/Probe.antt =====
-- The names that core/dmidecode/dmidecode.c gives to codes of probes, cooling devices and the boot status (types 26 to 32).
use cpu_x.Shared.{ℕ, leb, if◌then◌else◌, ◌&&◌, List, [], ◌∷◌, String}
use cpu_x.Shared.{Option, some, refl, All, arith}
use cpu_x.Dmi.Memory.Reads.{Defined, Defined-if}
use cpu_x.Dmi.Lookup.{
  Decoder, IsTotal, out_of_spec, in_range, up_to, in_range-Defined, up_to-Defined,
}

abbrev voltage_probe_location_names : List String
voltage_probe_location_names =
    "Other" ∷ "Unknown" ∷ "Processor" ∷ "Disk" ∷ "Peripheral Bay" ∷ "System Management Module"
    ∷ "Motherboard" ∷ "Memory Module" ∷ "Processor Module" ∷ "Power Unit" ∷ "Add-in Card" ∷ []

unfoldable pub dmi_voltage_probe_location : ℕ → Option String
dmi_voltage_probe_location code =
    in_range 0x01 0x0B voltage_probe_location_names code (some out_of_spec)

abbrev probe_status_names : List String
probe_status_names =
    "Other" ∷ "Unknown" ∷ "OK" ∷ "Non-critical" ∷ "Critical" ∷ "Non-recoverable" ∷ []

unfoldable pub dmi_probe_status : ℕ → Option String
dmi_probe_status code = in_range 0x01 0x06 probe_status_names code (some out_of_spec)

abbrev cooling_device_type_names : List String
cooling_device_type_names =
    "Other" ∷ "Unknown" ∷ "Fan" ∷ "Centrifugal Blower" ∷ "Chip Fan" ∷ "Cabinet Fan"
    ∷ "Power Supply Fan" ∷ "Heat Pipe" ∷ "Integrated Refrigeration" ∷ []

abbrev cooling_device_type_names_high : List String
cooling_device_type_names_high = "Active Cooling" ∷ "Passive Cooling" ∷ []

unfoldable pub dmi_cooling_device_type : ℕ → Option String
dmi_cooling_device_type code =
    in_range 0x01 0x09 cooling_device_type_names code
      (in_range 0x10 0x11 cooling_device_type_names_high code (some out_of_spec))

abbrev temperature_probe_location_names : List String
temperature_probe_location_names =
    "Other" ∷ "Unknown" ∷ "Processor" ∷ "Disk" ∷ "Peripheral Bay" ∷ "System Management Module"
    ∷ "Motherboard" ∷ "Memory Module" ∷ "Processor Module" ∷ "Power Unit" ∷ "Add-in Card"
    ∷ "Front Panel Board" ∷ "Back Panel Board" ∷ "Power System Board" ∷ "Drive Back Plane" ∷ []

unfoldable pub dmi_temperature_probe_location : ℕ → Option String
dmi_temperature_probe_location code =
    in_range 0x01 0x0F temperature_probe_location_names code (some out_of_spec)

abbrev system_boot_status_names : List String
system_boot_status_names =
    "No errors detected" ∷ "No bootable media" ∷ "Operating system failed to load"
    ∷ "Firmware-detected hardware failure" ∷ "Operating system-detected hardware failure"
    ∷ "User-requested boot" ∷ "System security violation" ∷ "Previously-requested image"
    ∷ "System watchdog timer expired" ∷ []

unfoldable pub dmi_system_boot_status : ℕ → Option String
dmi_system_boot_status code = up_to 8 system_boot_status_names code (
    if leb 128 code && leb code 191
    then some "OEM-specific"
    else (if leb 192 code then some "Product-specific" else (some out_of_spec)))

dmi_voltage_probe_location-Defined : (code : ℕ) → Defined (dmi_voltage_probe_location code)
unfolding dmi_voltage_probe_location
dmi_voltage_probe_location-Defined code =
    in_range-Defined 0x01 0x0B voltage_probe_location_names code _ (omega arith)
      ((out_of_spec, refl))

dmi_probe_status-Defined : (code : ℕ) → Defined (dmi_probe_status code)
unfolding dmi_probe_status
dmi_probe_status-Defined code =
    in_range-Defined 0x01 0x06 probe_status_names code _ (omega arith) ((out_of_spec, refl))

dmi_cooling_device_type-Defined : (code : ℕ) → Defined (dmi_cooling_device_type code)
unfolding dmi_cooling_device_type
dmi_cooling_device_type-Defined code =
    in_range-Defined 0x01 0x09 cooling_device_type_names code _ (omega arith) (
      in_range-Defined 0x10 0x11 cooling_device_type_names_high code _ (omega arith)
        ((out_of_spec, refl)))

dmi_temperature_probe_location-Defined : (code : ℕ) → Defined (dmi_temperature_probe_location code)
unfolding dmi_temperature_probe_location
dmi_temperature_probe_location-Defined code =
    in_range-Defined 0x01 0x0F temperature_probe_location_names code _ (omega arith)
      ((out_of_spec, refl))

dmi_system_boot_status-Defined : (code : ℕ) → Defined (dmi_system_boot_status code)
unfolding dmi_system_boot_status
dmi_system_boot_status-Defined code =
    up_to-Defined 8 system_boot_status_names code _ (omega arith) (
      Defined-if (leb 128 code && leb code 191) _ _ (λ _. ("OEM-specific", refl))
        (λ _.
          Defined-if (leb 192 code) _ _ (λ _. ("Product-specific", refl))
            (λ _. (out_of_spec, refl))))

abbrev pub decoders : List Decoder
decoders =
    dmi_voltage_probe_location ∷ dmi_probe_status ∷ dmi_cooling_device_type
    ∷ dmi_temperature_probe_location ∷ dmi_system_boot_status ∷ []

pub decoders-IsTotal : All IsTotal decoders
decoders-IsTotal = (
  dmi_voltage_probe_location-Defined,
  (
    dmi_probe_status-Defined,
    (
      dmi_cooling_device_type-Defined,
      (dmi_temperature_probe_location-Defined, (dmi_system_boot_status-Defined, tt)),
    ),
  ),
)
