-- ===== src/Dmi/Names/Memory.antt =====
-- The names that core/dmidecode/dmidecode.c gives to codes of memory arrays and memory errors (types 16 to 18).
use cpu_x.Shared.{ℕ, List, [], ◌∷◌, String}
use cpu_x.Shared.{Option, some, refl, All, arith}
use cpu_x.Dmi.Memory.Reads.{Defined}
use cpu_x.Dmi.Lookup.{Decoder, IsTotal, out_of_spec, in_range, in_range-Defined}

abbrev memory_array_location_names : List String
memory_array_location_names =
    "Other" ∷ "Unknown" ∷ "System Board Or Motherboard" ∷ "ISA Add-on Card" ∷ "EISA Add-on Card"
    ∷ "PCI Add-on Card" ∷ "MCA Add-on Card" ∷ "PCMCIA Add-on Card" ∷ "Proprietary Add-on Card"
    ∷ "NuBus" ∷ []

abbrev memory_array_location_names_high : List String
memory_array_location_names_high =
    "PC-98/C20 Add-on Card" ∷ "PC-98/C24 Add-on Card" ∷ "PC-98/E Add-on Card"
    ∷ "PC-98/Local Bus Add-on Card" ∷ "CXL Add-on Card" ∷ []

unfoldable pub dmi_memory_array_location : ℕ → Option String
dmi_memory_array_location code =
    in_range 0x01 0x0A memory_array_location_names code
      (in_range 0xA0 0xA4 memory_array_location_names_high code (some out_of_spec))

abbrev memory_array_use_names : List String
memory_array_use_names =
    "Other" ∷ "Unknown" ∷ "System Memory" ∷ "Video Memory" ∷ "Flash Memory" ∷ "Non-volatile RAM"
    ∷ "Cache Memory" ∷ []

unfoldable pub dmi_memory_array_use : ℕ → Option String
dmi_memory_array_use code = in_range 0x01 0x07 memory_array_use_names code (some out_of_spec)

abbrev memory_array_ec_type_names : List String
memory_array_ec_type_names =
    "Other" ∷ "Unknown" ∷ "None" ∷ "Parity" ∷ "Single-bit ECC" ∷ "Multi-bit ECC" ∷ "CRC" ∷ []

unfoldable pub dmi_memory_array_ec_type : ℕ → Option String
dmi_memory_array_ec_type code =
    in_range 0x01 0x07 memory_array_ec_type_names code (some out_of_spec)

abbrev memory_error_type_names : List String
memory_error_type_names =
    "Other" ∷ "Unknown" ∷ "OK" ∷ "Bad Read" ∷ "Parity Error" ∷ "Single-bit Error"
    ∷ "Double-bit Error" ∷ "Multi-bit Error" ∷ "Nibble Error" ∷ "Checksum Error" ∷ "CRC Error"
    ∷ "Corrected Single-bit Error" ∷ "Corrected Error" ∷ "Uncorrectable Error" ∷ []

unfoldable pub dmi_memory_error_type : ℕ → Option String
dmi_memory_error_type code = in_range 0x01 0x0E memory_error_type_names code (some out_of_spec)

abbrev memory_error_granularity_names : List String
memory_error_granularity_names =
    "Other" ∷ "Unknown" ∷ "Device Level" ∷ "Memory Partition Level" ∷ []

unfoldable pub dmi_memory_error_granularity : ℕ → Option String
dmi_memory_error_granularity code =
    in_range 0x01 0x04 memory_error_granularity_names code (some out_of_spec)

abbrev memory_error_operation_names : List String
memory_error_operation_names = "Other" ∷ "Unknown" ∷ "Read" ∷ "Write" ∷ "Partial Write" ∷ []

unfoldable pub dmi_memory_error_operation : ℕ → Option String
dmi_memory_error_operation code =
    in_range 0x01 0x05 memory_error_operation_names code (some out_of_spec)

dmi_memory_array_location-Defined : (code : ℕ) → Defined (dmi_memory_array_location code)
unfolding dmi_memory_array_location
dmi_memory_array_location-Defined code =
    in_range-Defined 0x01 0x0A memory_array_location_names code _ (omega arith) (
      in_range-Defined 0xA0 0xA4 memory_array_location_names_high code _ (omega arith)
        ((out_of_spec, refl)))

dmi_memory_array_use-Defined : (code : ℕ) → Defined (dmi_memory_array_use code)
unfolding dmi_memory_array_use
dmi_memory_array_use-Defined code =
    in_range-Defined 0x01 0x07 memory_array_use_names code _ (omega arith) ((out_of_spec, refl))

dmi_memory_array_ec_type-Defined : (code : ℕ) → Defined (dmi_memory_array_ec_type code)
unfolding dmi_memory_array_ec_type
dmi_memory_array_ec_type-Defined code =
    in_range-Defined 0x01 0x07 memory_array_ec_type_names code _ (omega arith) ((out_of_spec, refl))

dmi_memory_error_type-Defined : (code : ℕ) → Defined (dmi_memory_error_type code)
unfolding dmi_memory_error_type
dmi_memory_error_type-Defined code =
    in_range-Defined 0x01 0x0E memory_error_type_names code _ (omega arith) ((out_of_spec, refl))

dmi_memory_error_granularity-Defined : (code : ℕ) → Defined (dmi_memory_error_granularity code)
unfolding dmi_memory_error_granularity
dmi_memory_error_granularity-Defined code =
    in_range-Defined 0x01 0x04 memory_error_granularity_names code _ (omega arith)
      ((out_of_spec, refl))

dmi_memory_error_operation-Defined : (code : ℕ) → Defined (dmi_memory_error_operation code)
unfolding dmi_memory_error_operation
dmi_memory_error_operation-Defined code =
    in_range-Defined 0x01 0x05 memory_error_operation_names code _ (omega arith)
      ((out_of_spec, refl))

abbrev pub decoders : List Decoder
decoders =
    dmi_memory_array_location ∷ dmi_memory_array_use ∷ dmi_memory_array_ec_type
    ∷ dmi_memory_error_type ∷ dmi_memory_error_granularity ∷ dmi_memory_error_operation ∷ []

pub decoders-IsTotal : All IsTotal decoders
decoders-IsTotal = (
  dmi_memory_array_location-Defined,
  (
    dmi_memory_array_use-Defined,
    (
      dmi_memory_array_ec_type-Defined,
      (
        dmi_memory_error_type-Defined,
        (dmi_memory_error_granularity-Defined, (dmi_memory_error_operation-Defined, tt)),
      ),
    ),
  ),
)
