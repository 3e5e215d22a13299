-- ===== src/Dmi/Names/Event.antt =====
-- The names that core/dmidecode/dmidecode.c gives to codes of the event log (type 15).
use cpu_x.Shared.{ℕ, leb, if◌then◌else◌, List, [], ◌∷◌, String}
use cpu_x.Shared.{Option, some, refl, All, arith}
use cpu_x.Dmi.Memory.Reads.{Defined, Defined-if}
use cpu_x.Dmi.Lookup.{Decoder, IsTotal, out_of_spec, up_to, up_to-Defined}

abbrev event_log_method_names : List String
event_log_method_names =
    "Indexed I/O, one 8-bit index port, one 8-bit data port"
    ∷ "Indexed I/O, two 8-bit index ports, one 8-bit data port"
    ∷ "Indexed I/O, one 16-bit index port, one 8-bit data port"
    ∷ "Memory-mapped physical 32-bit address" ∷ "General-purpose non-volatile data functions" ∷ []

unfoldable pub dmi_event_log_method : ℕ → Option String
dmi_event_log_method code =
    up_to 0x04 event_log_method_names code
      (if leb 0x80 code then some "OEM-specific" else (some out_of_spec))

abbrev event_log_header_type_names : List String
event_log_header_type_names = "No Header" ∷ "Type 1" ∷ []

unfoldable pub dmi_event_log_header_type : ℕ → Option String
dmi_event_log_header_type code =
    up_to 0x01 event_log_header_type_names code
      (if leb 0x80 code then some "OEM-specific" else (some out_of_spec))

abbrev event_log_descriptor_format_names : List String
event_log_descriptor_format_names =
    "None" ∷ "Handle" ∷ "Multiple-event" ∷ "Multiple-event handle" ∷ "POST results bitmap"
    ∷ "System management" ∷ "Multiple-event system management" ∷ []

unfoldable pub dmi_event_log_descriptor_format : ℕ → Option String
dmi_event_log_descriptor_format code =
    up_to 0x06 event_log_descriptor_format_names code
      (if leb 0x80 code then some "OEM-specific" else (some out_of_spec))

dmi_event_log_method-Defined : (code : ℕ) → Defined (dmi_event_log_method code)
unfolding dmi_event_log_method
dmi_event_log_method-Defined code =
    up_to-Defined 0x04 event_log_method_names code _ (omega arith)
      (Defined-if (leb 0x80 code) _ _ (λ _. ("OEM-specific", refl)) (λ _. (out_of_spec, refl)))

dmi_event_log_header_type-Defined : (code : ℕ) → Defined (dmi_event_log_header_type code)
unfolding dmi_event_log_header_type
dmi_event_log_header_type-Defined code =
    up_to-Defined 0x01 event_log_header_type_names code _ (omega arith)
      (Defined-if (leb 0x80 code) _ _ (λ _. ("OEM-specific", refl)) (λ _. (out_of_spec, refl)))

dmi_event_log_descriptor_format-Defined :
    (code : ℕ) → Defined (dmi_event_log_descriptor_format code)
unfolding dmi_event_log_descriptor_format
dmi_event_log_descriptor_format-Defined code =
    up_to-Defined 0x06 event_log_descriptor_format_names code _ (omega arith)
      (Defined-if (leb 0x80 code) _ _ (λ _. ("OEM-specific", refl)) (λ _. (out_of_spec, refl)))

abbrev pub decoders : List Decoder
decoders = dmi_event_log_method ∷ dmi_event_log_header_type ∷ dmi_event_log_descriptor_format ∷ []

pub decoders-IsTotal : All IsTotal decoders
decoders-IsTotal = (
  dmi_event_log_method-Defined,
  (dmi_event_log_header_type-Defined, (dmi_event_log_descriptor_format-Defined, tt)),
)
