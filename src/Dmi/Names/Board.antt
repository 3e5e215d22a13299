-- ===== src/Dmi/Names/Board.antt =====
-- The names that core/dmidecode/dmidecode.c gives to codes of the system, boards and chassis (types 1 to 3, and the types themselves).
use cpu_x.Shared.{ℕ, ◌%◌, ◌^◌, leb, if◌then◌else◌, List, [], ◌∷◌, String}
use cpu_x.Shared.{Option, some, refl, All, arith}
use cpu_x.Dmi.Memory.Reads.{Defined, Defined-if}
use cpu_x.Dmi.Lookup.{
  Decoder, IsTotal, out_of_spec, in_range, up_to, in_range-Defined, up_to-Defined,
}

abbrev smbios_structure_type_names : List String
smbios_structure_type_names =
    "BIOS" ∷ "System" ∷ "Base Board" ∷ "Chassis" ∷ "Processor" ∷ "Memory Controller"
    ∷ "Memory Module" ∷ "Cache" ∷ "Port Connector" ∷ "System Slots" ∷ "On Board Devices"
    ∷ "OEM Strings" ∷ "System Configuration Options" ∷ "BIOS Language" ∷ "Group Associations"
    ∷ "System Event Log" ∷ "Physical Memory Array" ∷ "Memory Device" ∷ "32-bit Memory Error"
    ∷ "Memory Array Mapped Address" ∷ "Memory Device Mapped Address" ∷ "Built-in Pointing Device"
    ∷ "Portable Battery" ∷ "System Reset" ∷ "Hardware Security" ∷ "System Power Controls"
    ∷ "Voltage Probe" ∷ "Cooling Device" ∷ "Temperature Probe" ∷ "Electrical Current Probe"
    ∷ "Out-of-band Remote Access" ∷ "Boot Integrity Services" ∷ "System Boot"
    ∷ "64-bit Memory Error" ∷ "Management Device" ∷ "Management Device Component"
    ∷ "Management Device Threshold Data" ∷ "Memory Channel" ∷ "IPMI Device" ∷ "Power Supply"
    ∷ "Additional Information" ∷ "Onboard Device" ∷ "Management Controller Host Interface"
    ∷ "TPM Device" ∷ "Processor" ∷ "Firmware" ∷ "String Property" ∷ []

unfoldable pub dmi_smbios_structure_type : ℕ → Option String
dmi_smbios_structure_type code =
    if leb 128 code
    then some "OEM-specific"
    else (up_to 46 smbios_structure_type_names code (some out_of_spec))

abbrev system_wake_up_type_names : List String
system_wake_up_type_names =
    "Reserved" ∷ "Other" ∷ "Unknown" ∷ "APM Timer" ∷ "Modem Ring" ∷ "LAN Remote" ∷ "Power Switch"
    ∷ "PCI PME#" ∷ "AC Power Restored" ∷ []

unfoldable pub dmi_system_wake_up_type : ℕ → Option String
dmi_system_wake_up_type code = up_to 0x08 system_wake_up_type_names code (some out_of_spec)

abbrev base_board_type_names : List String
base_board_type_names =
    "Unknown" ∷ "Other" ∷ "Server Blade" ∷ "Connectivity Switch" ∷ "System Management Module"
    ∷ "Processor Module" ∷ "I/O Module" ∷ "Memory Module" ∷ "Daughter Board" ∷ "Motherboard"
    ∷ "Processor+Memory Module" ∷ "Processor+I/O Module" ∷ "Interconnect Board" ∷ []

unfoldable pub dmi_base_board_type : ℕ → Option String
dmi_base_board_type code = in_range 0x01 0x0D base_board_type_names code (some out_of_spec)

abbrev chassis_type_names : List String
chassis_type_names =
    "Other" ∷ "Unknown" ∷ "Desktop" ∷ "Low Profile Desktop" ∷ "Pizza Box" ∷ "Mini Tower" ∷ "Tower"
    ∷ "Portable" ∷ "Laptop" ∷ "Notebook" ∷ "Hand Held" ∷ "Docking Station" ∷ "All In One"
    ∷ "Sub Notebook" ∷ "Space-saving" ∷ "Lunch Box" ∷ "Main Server Chassis" ∷ "Expansion Chassis"
    ∷ "Sub Chassis" ∷ "Bus Expansion Chassis" ∷ "Peripheral Chassis" ∷ "RAID Chassis"
    ∷ "Rack Mount Chassis" ∷ "Sealed-case PC" ∷ "Multi-system" ∷ "CompactPCI" ∷ "AdvancedTCA"
    ∷ "Blade" ∷ "Blade Enclosing" ∷ "Tablet" ∷ "Convertible" ∷ "Detachable" ∷ "IoT Gateway"
    ∷ "Embedded PC" ∷ "Mini PC" ∷ "Stick PC" ∷ []

unfoldable pub dmi_chassis_type : ℕ → Option String
dmi_chassis_type code = in_range 0x01 0x24 chassis_type_names (code % 2 ^ 7) (some out_of_spec)

abbrev chassis_state_names : List String
chassis_state_names = "Other" ∷ "Unknown" ∷ "Safe" ∷ "Warning" ∷ "Critical" ∷ "Non-recoverable" ∷ []

unfoldable pub dmi_chassis_state : ℕ → Option String
dmi_chassis_state code = in_range 0x01 0x06 chassis_state_names code (some out_of_spec)

abbrev chassis_security_status_names : List String
chassis_security_status_names =
    "Other" ∷ "Unknown" ∷ "None" ∷ "External Interface Locked Out" ∷ "External Interface Enabled"
    ∷ []

unfoldable pub dmi_chassis_security_status : ℕ → Option String
dmi_chassis_security_status code =
    in_range 0x01 0x05 chassis_security_status_names code (some out_of_spec)

dmi_smbios_structure_type-Defined : (code : ℕ) → Defined (dmi_smbios_structure_type code)
unfolding dmi_smbios_structure_type
dmi_smbios_structure_type-Defined code =
    Defined-if (leb 128 code) _ _ (λ _. ("OEM-specific", refl))
      (λ _. up_to-Defined 46 smbios_structure_type_names code _ (omega arith) ((out_of_spec, refl)))

dmi_system_wake_up_type-Defined : (code : ℕ) → Defined (dmi_system_wake_up_type code)
unfolding dmi_system_wake_up_type
dmi_system_wake_up_type-Defined code =
    up_to-Defined 0x08 system_wake_up_type_names code _ (omega arith) ((out_of_spec, refl))

dmi_base_board_type-Defined : (code : ℕ) → Defined (dmi_base_board_type code)
unfolding dmi_base_board_type
dmi_base_board_type-Defined code =
    in_range-Defined 0x01 0x0D base_board_type_names code _ (omega arith) ((out_of_spec, refl))

dmi_chassis_type-Defined : (code : ℕ) → Defined (dmi_chassis_type code)
unfolding dmi_chassis_type
dmi_chassis_type-Defined code =
    in_range-Defined 0x01 0x24 chassis_type_names (code % 2 ^ 7) _ (omega arith)
      ((out_of_spec, refl))

dmi_chassis_state-Defined : (code : ℕ) → Defined (dmi_chassis_state code)
unfolding dmi_chassis_state
dmi_chassis_state-Defined code =
    in_range-Defined 0x01 0x06 chassis_state_names code _ (omega arith) ((out_of_spec, refl))

dmi_chassis_security_status-Defined : (code : ℕ) → Defined (dmi_chassis_security_status code)
unfolding dmi_chassis_security_status
dmi_chassis_security_status-Defined code =
    in_range-Defined 0x01 0x05 chassis_security_status_names code _ (omega arith)
      ((out_of_spec, refl))

abbrev pub decoders : List Decoder
decoders =
    dmi_smbios_structure_type ∷ dmi_system_wake_up_type ∷ dmi_base_board_type ∷ dmi_chassis_type
    ∷ dmi_chassis_state ∷ dmi_chassis_security_status ∷ []

pub decoders-IsTotal : All IsTotal decoders
decoders-IsTotal = (
  dmi_smbios_structure_type-Defined,
  (
    dmi_system_wake_up_type-Defined,
    (
      dmi_base_board_type-Defined,
      (
        dmi_chassis_type-Defined,
        (dmi_chassis_state-Defined, (dmi_chassis_security_status-Defined, tt)),
      ),
    ),
  ),
)
