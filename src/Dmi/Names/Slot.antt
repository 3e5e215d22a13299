-- ===== src/Dmi/Names/Slot.antt =====
-- The names that core/dmidecode/dmidecode.c gives to codes of slots and on-board devices (types 9 and 10).
use cpu_x.Shared.{ℕ, List, [], ◌∷◌, String}
use cpu_x.Shared.{Option, some, refl, All, arith}
use cpu_x.Dmi.Memory.Reads.{Defined}
use cpu_x.Dmi.Lookup.{
  Decoder, IsTotal, out_of_spec, in_range, up_to, in_range-Defined, up_to-Defined,
}

abbrev slot_type_names : List String
slot_type_names =
    "Other" ∷ "Unknown" ∷ "ISA" ∷ "MCA" ∷ "EISA" ∷ "PCI" ∷ "PC Card (PCMCIA)" ∷ "VLB"
    ∷ "Proprietary" ∷ "Processor Card" ∷ "Proprietary Memory Card" ∷ "I/O Riser Card" ∷ "NuBus"
    ∷ "PCI-66" ∷ "AGP" ∷ "AGP 2x" ∷ "AGP 4x" ∷ "PCI-X" ∷ "AGP 8x" ∷ "M.2 Socket 1-DP"
    ∷ "M.2 Socket 1-SD" ∷ "M.2 Socket 2" ∷ "M.2 Socket 3" ∷ "MXM Type I" ∷ "MXM Type II"
    ∷ "MXM Type III" ∷ "MXM Type III-HE" ∷ "MXM Type IV" ∷ "MXM 3.0 Type A" ∷ "MXM 3.0 Type B"
    ∷ "PCI Express 2 SFF-8639 (U.2)" ∷ "PCI Express 3 SFF-8639 (U.2)"
    ∷ "PCI Express Mini 52-pin with bottom-side keep-outs"
    ∷ "PCI Express Mini 52-pin without bottom-side keep-outs" ∷ "PCI Express Mini 76-pin"
    ∷ "PCI Express 4 SFF-8639 (U.2)" ∷ "PCI Express 5 SFF-8639 (U.2)"
    ∷ "OCP NIC 3.0 Small Form Factor (SFF)" ∷ "OCP NIC 3.0 Large Form Factor (LFF)"
    ∷ "OCP NIC Prior to 3.0" ∷ []

abbrev slot_type_names_special : List String
slot_type_names_special = "CXL FLexbus 1.0" ∷ []

abbrev slot_type_names_high : List String
slot_type_names_high =
    "PC-98/C20" ∷ "PC-98/C24" ∷ "PC-98/E" ∷ "PC-98/Local Bus" ∷ "PC-98/Card" ∷ "PCI Express"
    ∷ "PCI Express x1" ∷ "PCI Express x2" ∷ "PCI Express x4" ∷ "PCI Express x8" ∷ "PCI Express x16"
    ∷ "PCI Express 2" ∷ "PCI Express 2 x1" ∷ "PCI Express 2 x2" ∷ "PCI Express 2 x4"
    ∷ "PCI Express 2 x8" ∷ "PCI Express 2 x16" ∷ "PCI Express 3" ∷ "PCI Express 3 x1"
    ∷ "PCI Express 3 x2" ∷ "PCI Express 3 x4" ∷ "PCI Express 3 x8" ∷ "PCI Express 3 x16"
    ∷ out_of_spec ∷ "PCI Express 4" ∷ "PCI Express 4 x1" ∷ "PCI Express 4 x2" ∷ "PCI Express 4 x4"
    ∷ "PCI Express 4 x8" ∷ "PCI Express 4 x16" ∷ "PCI Express 5" ∷ "PCI Express 5 x1"
    ∷ "PCI Express 5 x2" ∷ "PCI Express 5 x4" ∷ "PCI Express 5 x8" ∷ "PCI Express 5 x16"
    ∷ "PCI Express 6+" ∷ "EDSFF E1" ∷ "EDSFF E3" ∷ []

unfoldable pub dmi_slot_type : ℕ → Option String
dmi_slot_type code = in_range 0x01 0x28 slot_type_names code (
    in_range 0x30 0x30 slot_type_names_special code
      (in_range 0xA0 0xC6 slot_type_names_high code (some out_of_spec)))

abbrev slot_bus_width_names : List String
slot_bus_width_names =
    "Other" ∷ "Unknown" ∷ "8 bit" ∷ "16 bit" ∷ "32 bit" ∷ "64 bit" ∷ "128 bit" ∷ "1x or x1"
    ∷ "2x or x2" ∷ "4x or x4" ∷ "8x or x8" ∷ "12x or x12" ∷ "16x or x16" ∷ "32x or x32" ∷ []

unfoldable pub dmi_slot_bus_width : ℕ → Option String
dmi_slot_bus_width code = in_range 0x01 0x0E slot_bus_width_names code (some out_of_spec)

abbrev slot_current_usage_names : List String
slot_current_usage_names = "Other" ∷ "Unknown" ∷ "Available" ∷ "In Use" ∷ "Unavailable" ∷ []

unfoldable pub dmi_slot_current_usage : ℕ → Option String
dmi_slot_current_usage code = in_range 0x01 0x05 slot_current_usage_names code (some out_of_spec)

abbrev slot_length_names : List String
slot_length_names =
    "Other" ∷ "Unknown" ∷ "Short" ∷ "Long" ∷ "2.5\" drive form factor" ∷ "3.5\" drive form factor"
    ∷ []

unfoldable pub dmi_slot_length : ℕ → Option String
dmi_slot_length code = in_range 0x01 0x06 slot_length_names code (some out_of_spec)

abbrev slot_height_names : List String
slot_height_names = "Not applicable" ∷ "Other" ∷ "Unknown" ∷ "Full height" ∷ "Low-profile" ∷ []

unfoldable pub dmi_slot_height : ℕ → Option String
dmi_slot_height code = up_to 0x04 slot_height_names code (some out_of_spec)

abbrev on_board_devices_type_names : List String
on_board_devices_type_names =
    "Other" ∷ "Unknown" ∷ "Video" ∷ "SCSI Controller" ∷ "Ethernet" ∷ "Token Ring" ∷ "Sound"
    ∷ "PATA Controller" ∷ "SATA Controller" ∷ "SAS Controller" ∷ "Wireless LAN" ∷ "Bluetooth"
    ∷ "WWAN" ∷ "eMMC" ∷ "NVMe Controller" ∷ "UFS Controller" ∷ []

unfoldable pub dmi_on_board_devices_type : ℕ → Option String
dmi_on_board_devices_type code =
    in_range 0x01 0x10 on_board_devices_type_names code (some out_of_spec)

dmi_slot_type-Defined : (code : ℕ) → Defined (dmi_slot_type code)
unfolding dmi_slot_type
dmi_slot_type-Defined code = in_range-Defined 0x01 0x28 slot_type_names code _ (omega arith) (
    in_range-Defined 0x30 0x30 slot_type_names_special code _ (omega arith)
      (in_range-Defined 0xA0 0xC6 slot_type_names_high code _ (omega arith) ((out_of_spec, refl))))

dmi_slot_bus_width-Defined : (code : ℕ) → Defined (dmi_slot_bus_width code)
unfolding dmi_slot_bus_width
dmi_slot_bus_width-Defined code =
    in_range-Defined 0x01 0x0E slot_bus_width_names code _ (omega arith) ((out_of_spec, refl))

dmi_slot_current_usage-Defined : (code : ℕ) → Defined (dmi_slot_current_usage code)
unfolding dmi_slot_current_usage
dmi_slot_current_usage-Defined code =
    in_range-Defined 0x01 0x05 slot_current_usage_names code _ (omega arith) ((out_of_spec, refl))

dmi_slot_length-Defined : (code : ℕ) → Defined (dmi_slot_length code)
unfolding dmi_slot_length
dmi_slot_length-Defined code =
    in_range-Defined 0x01 0x06 slot_length_names code _ (omega arith) ((out_of_spec, refl))

dmi_slot_height-Defined : (code : ℕ) → Defined (dmi_slot_height code)
unfolding dmi_slot_height
dmi_slot_height-Defined code =
    up_to-Defined 0x04 slot_height_names code _ (omega arith) ((out_of_spec, refl))

dmi_on_board_devices_type-Defined : (code : ℕ) → Defined (dmi_on_board_devices_type code)
unfolding dmi_on_board_devices_type
dmi_on_board_devices_type-Defined code =
    in_range-Defined 0x01 0x10 on_board_devices_type_names code _ (omega arith)
      ((out_of_spec, refl))

abbrev pub decoders : List Decoder
decoders =
    dmi_slot_type ∷ dmi_slot_bus_width ∷ dmi_slot_current_usage ∷ dmi_slot_length ∷ dmi_slot_height
    ∷ dmi_on_board_devices_type ∷ []

pub decoders-IsTotal : All IsTotal decoders
decoders-IsTotal = (
  dmi_slot_type-Defined,
  (
    dmi_slot_bus_width-Defined,
    (
      dmi_slot_current_usage-Defined,
      (dmi_slot_length-Defined, (dmi_slot_height-Defined, (dmi_on_board_devices_type-Defined, tt))),
    ),
  ),
)
