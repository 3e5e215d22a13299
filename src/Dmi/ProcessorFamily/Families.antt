-- ===== src/Dmi/ProcessorFamily/Families.antt =====
-- The array `family2` of `dmi_processor_family` in core/dmidecode/dmidecode.c, in three parts.
use cpu_x.Shared.{ℕ, List, [], ◌∷◌, ◌++◌, String}

abbrev family_first : List (ℕ × String)
family_first =
    (0x01, "Other")
    ∷ (0x02, "Unknown")
    ∷ (0x03, "8086")
    ∷ (0x04, "80286")
    ∷ (0x05, "80386")
    ∷ (0x06, "80486")
    ∷ (0x07, "8087")
    ∷ (0x08, "80287")
    ∷ (0x09, "80387")
    ∷ (0x0A, "80487")
    ∷ (0x0B, "Pentium")
    ∷ (0x0C, "Pentium Pro")
    ∷ (0x0D, "Pentium II")
    ∷ (0x0E, "Pentium MMX")
    ∷ (0x0F, "Celeron")
    ∷ (0x10, "Pentium II Xeon")
    ∷ (0x11, "Pentium III")
    ∷ (0x12, "M1")
    ∷ (0x13, "M2")
    ∷ (0x14, "Celeron M")
    ∷ (0x15, "Pentium 4 HT")
    ∷ (0x16, "Intel")
    ∷ (0x18, "Duron")
    ∷ (0x19, "K5")
    ∷ (0x1A, "K6")
    ∷ (0x1B, "K6-2")
    ∷ (0x1C, "K6-3")
    ∷ (0x1D, "Athlon")
    ∷ (0x1E, "AMD29000")
    ∷ (0x1F, "K6-2+")
    ∷ (0x20, "Power PC")
    ∷ (0x21, "Power PC 601")
    ∷ (0x22, "Power PC 603")
    ∷ (0x23, "Power PC 603+")
    ∷ (0x24, "Power PC 604")
    ∷ (0x25, "Power PC 620")
    ∷ (0x26, "Power PC x704")
    ∷ (0x27, "Power PC 750")
    ∷ (0x28, "Core Duo")
    ∷ (0x29, "Core Duo Mobile")
    ∷ (0x2A, "Core Solo Mobile")
    ∷ (0x2B, "Atom")
    ∷ (0x2C, "Core M")
    ∷ (0x2D, "Core m3")
    ∷ (0x2E, "Core m5")
    ∷ (0x2F, "Core m7")
    ∷ (0x30, "Alpha")
    ∷ (0x31, "Alpha 21064")
    ∷ (0x32, "Alpha 21066")
    ∷ (0x33, "Alpha 21164")
    ∷ (0x34, "Alpha 21164PC")
    ∷ (0x35, "Alpha 21164a")
    ∷ (0x36, "Alpha 21264")
    ∷ (0x37, "Alpha 21364")
    ∷ (0x38, "Turion II Ultra Dual-Core Mobile M")
    ∷ (0x39, "Turion II Dual-Core Mobile M")
    ∷ (0x3A, "Athlon II Dual-Core M")
    ∷ (0x3B, "Opteron 6100")
    ∷ (0x3C, "Opteron 4100")
    ∷ (0x3D, "Opteron 6200")
    ∷ (0x3E, "Opteron 4200")
    ∷ (0x3F, "FX")
    ∷ (0x40, "MIPS")
    ∷ (0x41, "MIPS R4000")
    ∷ (0x42, "MIPS R4200")
    ∷ (0x43, "MIPS R4400")
    ∷ (0x44, "MIPS R4600")
    ∷ (0x45, "MIPS R10000")
    ∷ (0x46, "C-Series")
    ∷ (0x47, "E-Series")
    ∷ (0x48, "A-Series")
    ∷ (0x49, "G-Series")
    ∷ (0x4A, "Z-Series")
    ∷ (0x4B, "R-Series")
    ∷ (0x4C, "Opteron 4300")
    ∷ (0x4D, "Opteron 6300")
    ∷ (0x4E, "Opteron 3300")
    ∷ (0x4F, "FirePro")
    ∷ (0x50, "SPARC")
    ∷ (0x51, "SuperSPARC")
    ∷ (0x52, "MicroSPARC II")
    ∷ []

abbrev family_second : List (ℕ × String)
family_second =
    (0x53, "MicroSPARC IIep")
    ∷ (0x54, "UltraSPARC")
    ∷ (0x55, "UltraSPARC II")
    ∷ (0x56, "UltraSPARC IIi")
    ∷ (0x57, "UltraSPARC III")
    ∷ (0x58, "UltraSPARC IIIi")
    ∷ (0x60, "68040")
    ∷ (0x61, "68xxx")
    ∷ (0x62, "68000")
    ∷ (0x63, "68010")
    ∷ (0x64, "68020")
    ∷ (0x65, "68030")
    ∷ (0x66, "Athlon X4")
    ∷ (0x67, "Opteron X1000")
    ∷ (0x68, "Opteron X2000")
    ∷ (0x69, "Opteron A-Series")
    ∷ (0x6A, "Opteron X3000")
    ∷ (0x6B, "Zen")
    ∷ (0x70, "Hobbit")
    ∷ (0x78, "Crusoe TM5000")
    ∷ (0x79, "Crusoe TM3000")
    ∷ (0x7A, "Efficeon TM8000")
    ∷ (0x80, "Weitek")
    ∷ (0x82, "Itanium")
    ∷ (0x83, "Athlon 64")
    ∷ (0x84, "Opteron")
    ∷ (0x85, "Sempron")
    ∷ (0x86, "Turion 64")
    ∷ (0x87, "Dual-Core Opteron")
    ∷ (0x88, "Athlon 64 X2")
    ∷ (0x89, "Turion 64 X2")
    ∷ (0x8A, "Quad-Core Opteron")
    ∷ (0x8B, "Third-Generation Opteron")
    ∷ (0x8C, "Phenom FX")
    ∷ (0x8D, "Phenom X4")
    ∷ (0x8E, "Phenom X2")
    ∷ (0x8F, "Athlon X2")
    ∷ (0x90, "PA-RISC")
    ∷ (0x91, "PA-RISC 8500")
    ∷ (0x92, "PA-RISC 8000")
    ∷ (0x93, "PA-RISC 7300LC")
    ∷ (0x94, "PA-RISC 7200")
    ∷ (0x95, "PA-RISC 7100LC")
    ∷ (0x96, "PA-RISC 7100")
    ∷ (0xA0, "V30")
    ∷ (0xA1, "Quad-Core Xeon 3200")
    ∷ (0xA2, "Dual-Core Xeon 3000")
    ∷ (0xA3, "Quad-Core Xeon 5300")
    ∷ (0xA4, "Dual-Core Xeon 5100")
    ∷ (0xA5, "Dual-Core Xeon 5000")
    ∷ (0xA6, "Dual-Core Xeon LV")
    ∷ (0xA7, "Dual-Core Xeon ULV")
    ∷ (0xA8, "Dual-Core Xeon 7100")
    ∷ (0xA9, "Quad-Core Xeon 5400")
    ∷ (0xAA, "Quad-Core Xeon")
    ∷ (0xAB, "Dual-Core Xeon 5200")
    ∷ (0xAC, "Dual-Core Xeon 7200")
    ∷ (0xAD, "Quad-Core Xeon 7300")
    ∷ (0xAE, "Quad-Core Xeon 7400")
    ∷ (0xAF, "Multi-Core Xeon 7400")
    ∷ (0xB0, "Pentium III Xeon")
    ∷ (0xB1, "Pentium III Speedstep")
    ∷ (0xB2, "Pentium 4")
    ∷ (0xB3, "Xeon")
    ∷ (0xB4, "AS400")
    ∷ (0xB5, "Xeon MP")
    ∷ (0xB6, "Athlon XP")
    ∷ (0xB7, "Athlon MP")
    ∷ (0xB8, "Itanium 2")
    ∷ (0xB9, "Pentium M")
    ∷ (0xBA, "Celeron D")
    ∷ (0xBB, "Pentium D")
    ∷ (0xBC, "Pentium EE")
    ∷ (0xBD, "Core Solo")
    ∷ (0xBF, "Core 2 Duo")
    ∷ (0xC0, "Core 2 Solo")
    ∷ (0xC1, "Core 2 Extreme")
    ∷ (0xC2, "Core 2 Quad")
    ∷ (0xC3, "Core 2 Extreme Mobile")
    ∷ (0xC4, "Core 2 Duo Mobile")
    ∷ (0xC5, "Core 2 Solo Mobile")
    ∷ []

abbrev family_third : List (ℕ × String)
family_third =
    (0xC6, "Core i7")
    ∷ (0xC7, "Dual-Core Celeron")
    ∷ (0xC8, "IBM390")
    ∷ (0xC9, "G4")
    ∷ (0xCA, "G5")
    ∷ (0xCB, "ESA/390 G6")
    ∷ (0xCC, "z/Architecture")
    ∷ (0xCD, "Core i5")
    ∷ (0xCE, "Core i3")
    ∷ (0xCF, "Core i9")
    ∷ (0xD2, "C7-M")
    ∷ (0xD3, "C7-D")
    ∷ (0xD4, "C7")
    ∷ (0xD5, "Eden")
    ∷ (0xD6, "Multi-Core Xeon")
    ∷ (0xD7, "Dual-Core Xeon 3xxx")
    ∷ (0xD8, "Quad-Core Xeon 3xxx")
    ∷ (0xD9, "Nano")
    ∷ (0xDA, "Dual-Core Xeon 5xxx")
    ∷ (0xDB, "Quad-Core Xeon 5xxx")
    ∷ (0xDD, "Dual-Core Xeon 7xxx")
    ∷ (0xDE, "Quad-Core Xeon 7xxx")
    ∷ (0xDF, "Multi-Core Xeon 7xxx")
    ∷ (0xE0, "Multi-Core Xeon 3400")
    ∷ (0xE4, "Opteron 3000")
    ∷ (0xE5, "Sempron II")
    ∷ (0xE6, "Embedded Opteron Quad-Core")
    ∷ (0xE7, "Phenom Triple-Core")
    ∷ (0xE8, "Turion Ultra Dual-Core Mobile")
    ∷ (0xE9, "Turion Dual-Core Mobile")
    ∷ (0xEA, "Athlon Dual-Core")
    ∷ (0xEB, "Sempron SI")
    ∷ (0xEC, "Phenom II")
    ∷ (0xED, "Athlon II")
    ∷ (0xEE, "Six-Core Opteron")
    ∷ (0xEF, "Sempron M")
    ∷ (0xFA, "i860")
    ∷ (0xFB, "i960")
    ∷ (0x100, "ARMv7")
    ∷ (0x101, "ARMv8")
    ∷ (0x102, "ARMv9")
    ∷ (0x103, "ARM")
    ∷ (0x104, "SH-3")
    ∷ (0x105, "SH-4")
    ∷ (0x118, "ARM")
    ∷ (0x119, "StrongARM")
    ∷ (0x12C, "6x86")
    ∷ (0x12D, "MediaGX")
    ∷ (0x12E, "MII")
    ∷ (0x140, "WinChip")
    ∷ (0x15E, "DSP")
    ∷ (0x1F4, "Video Processor")
    ∷ (0x200, "RV32")
    ∷ (0x201, "RV64")
    ∷ (0x202, "RV128")
    ∷ (0x258, "LoongArch")
    ∷ (0x259, "Loongson 1")
    ∷ (0x25A, "Loongson 2")
    ∷ (0x25B, "Loongson 3")
    ∷ (0x25C, "Loongson 2K")
    ∷ (0x25D, "Loongson 3A")
    ∷ (0x25E, "Loongson 3B")
    ∷ (0x25F, "Loongson 3C")
    ∷ (0x260, "Loongson 3D")
    ∷ (0x261, "Loongson 3E")
    ∷ (0x262, "Dual-Core Loongson 2K 2xxx")
    ∷ (0x26C, "Quad-Core Loongson 3A 5xxx")
    ∷ (0x26D, "Multi-Core Loongson 3A 5xxx")
    ∷ (0x26E, "Quad-Core Loongson 3B 5xxx")
    ∷ (0x26F, "Multi-Core Loongson 3B 5xxx")
    ∷ (0x270, "Multi-Core Loongson 3C 5xxx")
    ∷ (0x271, "Multi-Core Loongson 3D 5xxx")
    ∷ (0x300, "Core 3")
    ∷ (0x301, "Core 5")
    ∷ (0x302, "Core 7")
    ∷ (0x303, "Core 9")
    ∷ (0x304, "Core Ultra 3")
    ∷ (0x305, "Core Ultra 5")
    ∷ (0x306, "Core Ultra 7")
    ∷ (0x307, "Core Ultra 9")
    ∷ []

-- Pairs of a family's value and its name.
abbrev pub family2 : List (ℕ × String)
family2 = family_first ++ (family_second ++ family_third)
