-- ===== src/Dmi/Names/Cache.antt =====
-- The names that core/dmidecode/dmidecode.c gives to codes of memory controllers and caches (types 5 to 7).
use cpu_x.Shared.{ℕ, List, [], ◌∷◌, String}
use cpu_x.Shared.{Option, some, refl, All, arith}
use cpu_x.Dmi.Memory.Reads.{Defined}
use cpu_x.Dmi.Lookup.{Decoder, IsTotal, out_of_spec, in_range, in_range-Defined}

abbrev memory_controller_ed_method_names : List String
memory_controller_ed_method_names =
    "Other" ∷ "Unknown" ∷ "None" ∷ "8-bit Parity" ∷ "32-bit ECC" ∷ "64-bit ECC" ∷ "128-bit ECC"
    ∷ "CRC" ∷ []

unfoldable pub dmi_memory_controller_ed_method : ℕ → Option String
dmi_memory_controller_ed_method code =
    in_range 0x01 0x08 memory_controller_ed_method_names code (some out_of_spec)

abbrev memory_controller_interleave_names : List String
memory_controller_interleave_names =
    "Other" ∷ "Unknown" ∷ "One-way Interleave" ∷ "Two-way Interleave" ∷ "Four-way Interleave"
    ∷ "Eight-way Interleave" ∷ "Sixteen-way Interleave" ∷ []

unfoldable pub dmi_memory_controller_interleave : ℕ → Option String
dmi_memory_controller_interleave code =
    in_range 0x01 0x07 memory_controller_interleave_names code (some out_of_spec)

abbrev cache_ec_type_names : List String
cache_ec_type_names =
    "Other" ∷ "Unknown" ∷ "None" ∷ "Parity" ∷ "Single-bit ECC" ∷ "Multi-bit ECC" ∷ []

unfoldable pub dmi_cache_ec_type : ℕ → Option String
dmi_cache_ec_type code = in_range 0x01 0x06 cache_ec_type_names code (some out_of_spec)

abbrev cache_type_names : List String
cache_type_names = "Other" ∷ "Unknown" ∷ "Instruction" ∷ "Data" ∷ "Unified" ∷ []

unfoldable pub dmi_cache_type : ℕ → Option String
dmi_cache_type code = in_range 0x01 0x05 cache_type_names code (some out_of_spec)

abbrev cache_associativity_names : List String
cache_associativity_names =
    "Other" ∷ "Unknown" ∷ "Direct Mapped" ∷ "2-way Set-associative" ∷ "4-way Set-associative"
    ∷ "Fully Associative" ∷ "8-way Set-associative" ∷ "16-way Set-associative"
    ∷ "12-way Set-associative" ∷ "24-way Set-associative" ∷ "32-way Set-associative"
    ∷ "48-way Set-associative" ∷ "64-way Set-associative" ∷ "20-way Set-associative" ∷ []

unfoldable pub dmi_cache_associativity : ℕ → Option String
dmi_cache_associativity code = in_range 0x01 0x0E cache_associativity_names code (some out_of_spec)

dmi_memory_controller_ed_method-Defined :
    (code : ℕ) → Defined (dmi_memory_controller_ed_method code)
unfolding dmi_memory_controller_ed_method
dmi_memory_controller_ed_method-Defined code =
    in_range-Defined 0x01 0x08 memory_controller_ed_method_names code _ (omega arith)
      ((out_of_spec, refl))

dmi_memory_controller_interleave-Defined :
    (code : ℕ) → Defined (dmi_memory_controller_interleave code)
unfolding dmi_memory_controller_interleave
dmi_memory_controller_interleave-Defined code =
    in_range-Defined 0x01 0x07 memory_controller_interleave_names code _ (omega arith)
      ((out_of_spec, refl))

dmi_cache_ec_type-Defined : (code : ℕ) → Defined (dmi_cache_ec_type code)
unfolding dmi_cache_ec_type
dmi_cache_ec_type-Defined code =
    in_range-Defined 0x01 0x06 cache_ec_type_names code _ (omega arith) ((out_of_spec, refl))

dmi_cache_type-Defined : (code : ℕ) → Defined (dmi_cache_type code)
unfolding dmi_cache_type
dmi_cache_type-Defined code =
    in_range-Defined 0x01 0x05 cache_type_names code _ (omega arith) ((out_of_spec, refl))

dmi_cache_associativity-Defined : (code : ℕ) → Defined (dmi_cache_associativity code)
unfolding dmi_cache_associativity
dmi_cache_associativity-Defined code =
    in_range-Defined 0x01 0x0E cache_associativity_names code _ (omega arith) ((out_of_spec, refl))

abbrev pub decoders : List Decoder
decoders =
    dmi_memory_controller_ed_method ∷ dmi_memory_controller_interleave ∷ dmi_cache_ec_type
    ∷ dmi_cache_type ∷ dmi_cache_associativity ∷ []

pub decoders-IsTotal : All IsTotal decoders
decoders-IsTotal = (
  dmi_memory_controller_ed_method-Defined,
  (
    dmi_memory_controller_interleave-Defined,
    (dmi_cache_ec_type-Defined, (dmi_cache_type-Defined, (dmi_cache_associativity-Defined, tt))),
  ),
)
