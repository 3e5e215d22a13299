-- ===== src/Dmi/Names/Processor.antt =====
-- The names that core/dmidecode/dmidecode.c gives to codes of processors (type 4).
use cpu_x.Shared.{ℕ, List, [], ◌∷◌, String}
use cpu_x.Shared.{Option, some, refl, All, arith}
use cpu_x.Dmi.Memory.Reads.{Defined}
use cpu_x.Dmi.Lookup.{Decoder, IsTotal, out_of_spec, in_range, in_range-Defined}

abbrev processor_type_names : List String
processor_type_names =
    "Other" ∷ "Unknown" ∷ "Central Processor" ∷ "Math Processor" ∷ "DSP Processor"
    ∷ "Video Processor" ∷ []

unfoldable pub dmi_processor_type : ℕ → Option String
dmi_processor_type code = in_range 0x01 0x06 processor_type_names code (some out_of_spec)

abbrev processor_upgrade_names : List String
processor_upgrade_names =
    "Other" ∷ "Unknown" ∷ "Daughter Board" ∷ "ZIF Socket" ∷ "Replaceable Piggy Back" ∷ "None"
    ∷ "LIF Socket" ∷ "Slot 1" ∷ "Slot 2" ∷ "370-pin Socket" ∷ "Slot A" ∷ "Slot M" ∷ "Socket 423"
    ∷ "Socket A (Socket 462)" ∷ "Socket 478" ∷ "Socket 754" ∷ "Socket 940" ∷ "Socket 939"
    ∷ "Socket mPGA604" ∷ "Socket LGA771" ∷ "Socket LGA775" ∷ "Socket S1" ∷ "Socket AM2"
    ∷ "Socket F (1207)" ∷ "Socket LGA1366" ∷ "Socket G34" ∷ "Socket AM3" ∷ "Socket C32"
    ∷ "Socket LGA1156" ∷ "Socket LGA1567" ∷ "Socket PGA988A" ∷ "Socket BGA1288" ∷ "Socket rPGA988B"
    ∷ "Socket BGA1023" ∷ "Socket BGA1224" ∷ "Socket BGA1155" ∷ "Socket LGA1356" ∷ "Socket LGA2011"
    ∷ "Socket FS1" ∷ "Socket FS2" ∷ "Socket FM1" ∷ "Socket FM2" ∷ "Socket LGA2011-3"
    ∷ "Socket LGA1356-3" ∷ "Socket LGA1150" ∷ "Socket BGA1168" ∷ "Socket BGA1234" ∷ "Socket BGA1364"
    ∷ "Socket AM4" ∷ "Socket LGA1151" ∷ "Socket BGA1356" ∷ "Socket BGA1440" ∷ "Socket BGA1515"
    ∷ "Socket LGA3647-1" ∷ "Socket SP3" ∷ "Socket SP3r2" ∷ "Socket LGA2066" ∷ "Socket BGA1392"
    ∷ "Socket BGA1510" ∷ "Socket BGA1528" ∷ "Socket LGA4189" ∷ "Socket LGA1200" ∷ "Socket LGA4677"
    ∷ "Socket LGA1700" ∷ "Socket BGA1744" ∷ "Socket BGA1781" ∷ "Socket BGA1211" ∷ "Socket BGA2422"
    ∷ "Socket LGA1211" ∷ "Socket LGA2422" ∷ "Socket LGA5773" ∷ "Socket BGA5773" ∷ "Socket AM5"
    ∷ "Socket SP5" ∷ "Socket SP6" ∷ "Socket BGA883" ∷ "Socket BGA1190" ∷ "Socket BGA4129"
    ∷ "Socket LGA4710" ∷ "Socket LGA7529" ∷ "Socket BGA1964" ∷ "Socket BGA1792" ∷ "Socket BGA2049"
    ∷ "Socket BGA2551" ∷ "Socket LGA1851" ∷ "Socket BGA2114" ∷ "Socket BGA2833" ∷ []

unfoldable pub dmi_processor_upgrade : ℕ → Option String
dmi_processor_upgrade code = in_range 0x01 0x57 processor_upgrade_names code (some out_of_spec)

dmi_processor_type-Defined : (code : ℕ) → Defined (dmi_processor_type code)
unfolding dmi_processor_type
dmi_processor_type-Defined code =
    in_range-Defined 0x01 0x06 processor_type_names code _ (omega arith) ((out_of_spec, refl))

dmi_processor_upgrade-Defined : (code : ℕ) → Defined (dmi_processor_upgrade code)
unfolding dmi_processor_upgrade
dmi_processor_upgrade-Defined code =
    in_range-Defined 0x01 0x57 processor_upgrade_names code _ (omega arith) ((out_of_spec, refl))

abbrev pub decoders : List Decoder
decoders = dmi_processor_type ∷ dmi_processor_upgrade ∷ []

pub decoders-IsTotal : All IsTotal decoders
decoders-IsTotal = (dmi_processor_type-Defined, (dmi_processor_upgrade-Defined, tt))
