-- ===== src/Dmi/Names/Management.antt =====
-- The names that core/dmidecode/dmidecode.c gives to codes of management devices, power supplies and firmware (types 34 to 45).
use cpu_x.Shared.{ℕ, ◌==◌, leb, if◌then◌else◌, List, [], ◌∷◌, String}
use cpu_x.Shared.{Option, some, refl, All, arith}
use cpu_x.Dmi.Memory.Reads.{Defined, Defined-if}
use cpu_x.Dmi.Lookup.{
  Decoder, IsTotal, out_of_spec, in_range, up_to, in_range-Defined, up_to-Defined,
}

abbrev management_device_type_names : List String
management_device_type_names =
    "Other" ∷ "Unknown" ∷ "LM75" ∷ "LM78" ∷ "LM79" ∷ "LM80" ∷ "LM81" ∷ "ADM9240" ∷ "DS1780"
    ∷ "MAX1617" ∷ "GL518SM" ∷ "W83781D" ∷ "HT82H791" ∷ []

unfoldable pub dmi_management_device_type : ℕ → Option String
dmi_management_device_type code =
    in_range 0x01 0x0D management_device_type_names code (some out_of_spec)

abbrev management_device_address_type_names : List String
management_device_address_type_names = "Other" ∷ "Unknown" ∷ "I/O Port" ∷ "Memory" ∷ "SMBus" ∷ []

unfoldable pub dmi_management_device_address_type : ℕ → Option String
dmi_management_device_address_type code =
    in_range 0x01 0x05 management_device_address_type_names code (some out_of_spec)

abbrev memory_channel_type_names : List String
memory_channel_type_names = "Other" ∷ "Unknown" ∷ "RamBus" ∷ "SyncLink" ∷ []

unfoldable pub dmi_memory_channel_type : ℕ → Option String
dmi_memory_channel_type code = in_range 0x01 0x04 memory_channel_type_names code (some out_of_spec)

abbrev ipmi_interface_type_names : List String
ipmi_interface_type_names =
    "Unknown" ∷ "KCS (Keyboard Control Style)" ∷ "SMIC (Server Management Interface Chip)"
    ∷ "BT (Block Transfer)" ∷ "SSIF (SMBus System Interface)" ∷ []

unfoldable pub dmi_ipmi_interface_type : ℕ → Option String
dmi_ipmi_interface_type code = up_to 0x04 ipmi_interface_type_names code (some out_of_spec)

abbrev power_supply_type_names : List String
power_supply_type_names =
    "Other" ∷ "Unknown" ∷ "Linear" ∷ "Switching" ∷ "Battery" ∷ "UPS" ∷ "Converter" ∷ "Regulator"
    ∷ []

unfoldable pub dmi_power_supply_type : ℕ → Option String
dmi_power_supply_type code = in_range 0x01 0x08 power_supply_type_names code (some out_of_spec)

abbrev power_supply_status_names : List String
power_supply_status_names = "Other" ∷ "Unknown" ∷ "OK" ∷ "Non-critical" ∷ "Critical" ∷ []

unfoldable pub dmi_power_supply_status : ℕ → Option String
dmi_power_supply_status code = in_range 0x01 0x05 power_supply_status_names code (some out_of_spec)

abbrev power_supply_range_switching_names : List String
power_supply_range_switching_names =
    "Other" ∷ "Unknown" ∷ "Manual" ∷ "Auto-switch" ∷ "Wide Range" ∷ "N/A" ∷ []

unfoldable pub dmi_power_supply_range_switching : ℕ → Option String
dmi_power_supply_range_switching code =
    in_range 0x01 0x06 power_supply_range_switching_names code (some out_of_spec)

abbrev management_controller_host_type_names : List String
management_controller_host_type_names =
    "KCS: Keyboard Controller Style" ∷ "8250 UART Register Compatible"
    ∷ "16450 UART Register Compatible" ∷ "16550/16550A UART Register Compatible"
    ∷ "16650/16650A UART Register Compatible" ∷ "16750/16750A UART Register Compatible"
    ∷ "16850/16850A UART Register Compatible" ∷ []

unfoldable pub dmi_management_controller_host_type : ℕ → Option String
dmi_management_controller_host_type code =
    in_range 0x02 0x08 management_controller_host_type_names code (
      if leb code 0x3F
      then some "MCTP"
      else (if code == 0x40
          then some "Network"
          else (if code == 0xF0 then some "OEM" else (some out_of_spec))))

abbrev firmware_state_names : List String
firmware_state_names =
    "Other" ∷ "Unknown" ∷ "Disabled" ∷ "Enabled" ∷ "Absent" ∷ "Stand-by Offline" ∷ "Stand-by Spare"
    ∷ "Unavailable Offline" ∷ []

unfoldable pub dmi_firmware_state : ℕ → Option String
dmi_firmware_state code = in_range 0x01 0x08 firmware_state_names code (some out_of_spec)

dmi_management_device_type-Defined : (code : ℕ) → Defined (dmi_management_device_type code)
unfolding dmi_management_device_type
dmi_management_device_type-Defined code =
    in_range-Defined 0x01 0x0D management_device_type_names code _ (omega arith)
      ((out_of_spec, refl))

dmi_management_device_address_type-Defined :
    (code : ℕ) → Defined (dmi_management_device_address_type code)
unfolding dmi_management_device_address_type
dmi_management_device_address_type-Defined code =
    in_range-Defined 0x01 0x05 management_device_address_type_names code _ (omega arith)
      ((out_of_spec, refl))

dmi_memory_channel_type-Defined : (code : ℕ) → Defined (dmi_memory_channel_type code)
unfolding dmi_memory_channel_type
dmi_memory_channel_type-Defined code =
    in_range-Defined 0x01 0x04 memory_channel_type_names code _ (omega arith) ((out_of_spec, refl))

dmi_ipmi_interface_type-Defined : (code : ℕ) → Defined (dmi_ipmi_interface_type code)
unfolding dmi_ipmi_interface_type
dmi_ipmi_interface_type-Defined code =
    up_to-Defined 0x04 ipmi_interface_type_names code _ (omega arith) ((out_of_spec, refl))

dmi_power_supply_type-Defined : (code : ℕ) → Defined (dmi_power_supply_type code)
unfolding dmi_power_supply_type
dmi_power_supply_type-Defined code =
    in_range-Defined 0x01 0x08 power_supply_type_names code _ (omega arith) ((out_of_spec, refl))

dmi_power_supply_status-Defined : (code : ℕ) → Defined (dmi_power_supply_status code)
unfolding dmi_power_supply_status
dmi_power_supply_status-Defined code =
    in_range-Defined 0x01 0x05 power_supply_status_names code _ (omega arith) ((out_of_spec, refl))

dmi_power_supply_range_switching-Defined :
    (code : ℕ) → Defined (dmi_power_supply_range_switching code)
unfolding dmi_power_supply_range_switching
dmi_power_supply_range_switching-Defined code =
    in_range-Defined 0x01 0x06 power_supply_range_switching_names code _ (omega arith)
      ((out_of_spec, refl))

dmi_management_controller_host_type-Defined :
    (code : ℕ) → Defined (dmi_management_controller_host_type code)
unfolding dmi_management_controller_host_type
dmi_management_controller_host_type-Defined code =
    in_range-Defined 0x02 0x08 management_controller_host_type_names code _ (omega arith) (
      Defined-if (leb code 0x3F) _ _ (λ _. ("MCTP", refl))
        (λ _.
          Defined-if (code == 0x40) _ _ (λ _. ("Network", refl))
            (λ _. Defined-if (code == 0xF0) _ _ (λ _. ("OEM", refl)) (λ _. (out_of_spec, refl)))))

dmi_firmware_state-Defined : (code : ℕ) → Defined (dmi_firmware_state code)
unfolding dmi_firmware_state
dmi_firmware_state-Defined code =
    in_range-Defined 0x01 0x08 firmware_state_names code _ (omega arith) ((out_of_spec, refl))

abbrev pub decoders : List Decoder
decoders =
    dmi_management_device_type ∷ dmi_management_device_address_type ∷ dmi_memory_channel_type
    ∷ dmi_ipmi_interface_type ∷ dmi_power_supply_type ∷ dmi_power_supply_status
    ∷ dmi_power_supply_range_switching ∷ dmi_management_controller_host_type ∷ dmi_firmware_state
    ∷ []

pub decoders-IsTotal : All IsTotal decoders
decoders-IsTotal = (
  dmi_management_device_type-Defined,
  (
    dmi_management_device_address_type-Defined,
    (
      dmi_memory_channel_type-Defined,
      (
        dmi_ipmi_interface_type-Defined,
        (
          dmi_power_supply_type-Defined,
          (
            dmi_power_supply_status-Defined,
            (
              dmi_power_supply_range_switching-Defined,
              (dmi_management_controller_host_type-Defined, (dmi_firmware_state-Defined, tt)),
            ),
          ),
        ),
      ),
    ),
  ),
)
