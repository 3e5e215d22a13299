-- ===== src/Dmi/Names/Port.antt =====
-- The names that core/dmidecode/dmidecode.c gives to codes of ports (type 8).
use cpu_x.Shared.{ℕ, ◌==◌, if◌then◌else◌, List, [], ◌∷◌, String}
use cpu_x.Shared.{Option, some, refl, All, arith}
use cpu_x.Dmi.Memory.Reads.{Defined, Defined-if}
use cpu_x.Dmi.Lookup.{
  Decoder, IsTotal, out_of_spec, in_range, up_to, in_range-Defined, up_to-Defined,
}

abbrev port_connector_type_names : List String
port_connector_type_names =
    "None" ∷ "Centronics" ∷ "Mini Centronics" ∷ "Proprietary" ∷ "DB-25 male" ∷ "DB-25 female"
    ∷ "DB-15 male" ∷ "DB-15 female" ∷ "DB-9 male" ∷ "DB-9 female" ∷ "RJ-11" ∷ "RJ-45"
    ∷ "50 Pin MiniSCSI" ∷ "Mini DIN" ∷ "Micro DIN" ∷ "PS/2" ∷ "Infrared" ∷ "HP-HIL"
    ∷ "Access Bus (USB)" ∷ "SSA SCSI" ∷ "Circular DIN-8 male" ∷ "Circular DIN-8 female"
    ∷ "On Board IDE" ∷ "On Board Floppy" ∷ "9 Pin Dual Inline (pin 10 cut)"
    ∷ "25 Pin Dual Inline (pin 26 cut)" ∷ "50 Pin Dual Inline" ∷ "68 Pin Dual Inline"
    ∷ "On Board Sound Input From CD-ROM" ∷ "Mini Centronics Type-14" ∷ "Mini Centronics Type-26"
    ∷ "Mini Jack (headphones)" ∷ "BNC" ∷ "IEEE 1394" ∷ "SAS/SATA Plug Receptacle"
    ∷ "USB Type-C Receptacle" ∷ []

abbrev port_connector_type_names_high : List String
port_connector_type_names_high =
    "PC-98" ∷ "PC-98 Hireso" ∷ "PC-H98" ∷ "PC-98 Note" ∷ "PC-98 Full" ∷ []

unfoldable pub dmi_port_connector_type : ℕ → Option String
dmi_port_connector_type code = up_to 0x23 port_connector_type_names code (
    in_range 0xA0 0xA4 port_connector_type_names_high code
      (if code == 0xFF then some "Other" else (some out_of_spec)))

abbrev port_type_names : List String
port_type_names =
    "None" ∷ "Parallel Port XT/AT Compatible" ∷ "Parallel Port PS/2" ∷ "Parallel Port ECP"
    ∷ "Parallel Port EPP" ∷ "Parallel Port ECP/EPP" ∷ "Serial Port XT/AT Compatible"
    ∷ "Serial Port 16450 Compatible" ∷ "Serial Port 16550 Compatible"
    ∷ "Serial Port 16550A Compatible" ∷ "SCSI Port" ∷ "MIDI Port" ∷ "Joystick Port"
    ∷ "Keyboard Port" ∷ "Mouse Port" ∷ "SSA SCSI" ∷ "USB" ∷ "Firewire (IEEE P1394)"
    ∷ "PCMCIA Type I" ∷ "PCMCIA Type II" ∷ "PCMCIA Type III" ∷ "Cardbus" ∷ "Access Bus Port"
    ∷ "SCSI II" ∷ "SCSI Wide" ∷ "PC-98" ∷ "PC-98 Hireso" ∷ "PC-H98" ∷ "Video Port" ∷ "Audio Port"
    ∷ "Modem Port" ∷ "Network Port" ∷ "SATA" ∷ "SAS" ∷ "MFDP (Multi-Function Display Port)"
    ∷ "Thunderbolt" ∷ []

abbrev port_type_names_high : List String
port_type_names_high = "8251 Compatible" ∷ "8251 FIFO Compatible" ∷ []

unfoldable pub dmi_port_type : ℕ → Option String
dmi_port_type code = up_to 0x23 port_type_names code (
    in_range 0xA0 0xA1 port_type_names_high code
      (if code == 0xFF then some "Other" else (some out_of_spec)))

dmi_port_connector_type-Defined : (code : ℕ) → Defined (dmi_port_connector_type code)
unfolding dmi_port_connector_type
dmi_port_connector_type-Defined code =
    up_to-Defined 0x23 port_connector_type_names code _ (omega arith) (
      in_range-Defined 0xA0 0xA4 port_connector_type_names_high code _ (omega arith)
        (Defined-if (code == 0xFF) _ _ (λ _. ("Other", refl)) (λ _. (out_of_spec, refl))))

dmi_port_type-Defined : (code : ℕ) → Defined (dmi_port_type code)
unfolding dmi_port_type
dmi_port_type-Defined code = up_to-Defined 0x23 port_type_names code _ (omega arith) (
    in_range-Defined 0xA0 0xA1 port_type_names_high code _ (omega arith)
      (Defined-if (code == 0xFF) _ _ (λ _. ("Other", refl)) (λ _. (out_of_spec, refl))))

abbrev pub decoders : List Decoder
decoders = dmi_port_connector_type ∷ dmi_port_type ∷ []

pub decoders-IsTotal : All IsTotal decoders
decoders-IsTotal = (dmi_port_connector_type-Defined, (dmi_port_type-Defined, tt))
