-- ===== src/Examples.antt =====
-- The theorems at concrete inputs: tables, entry points and values such as core/dmidecode/dmidecode.c
-- meets.
mod Choices
mod CommandLines
mod Connections
mod Counting
mod Loops
mod Sticks
mod Units
use cpu_x.Shared.{ℕ, zero, suc, ◌+◌, ◌≤◌, ◌-◌, true, false, length, All, arith}
use cpu_x.Shared.{none, some, List, [], ◌∷◌, ◌++◌, codes, inr, refl, ap, ◌≡◌, ◌≢◌}
use cpu_x.Dmi.Memory.{Buffer, IsByte}
use cpu_x.Dmi.Memory.Reads.{Defined}
use cpu_x.Dmi.Strings.{Header, dmi_string, c_str}
use cpu_x.Dmi.Strings.Safety.{IsTerminated, StaysInside, dmi_string_safe}
use cpu_x.Dmi.Strings.RoundTrip.{IsText, encoded, string_number, text_of, dmi_string-encoded}
use cpu_x.Dmi.Vendor.{vendor_unknown}
use cpu_x.Dmi.CpuidType.{cpuid_none}
use cpu_x.Dmi.Table.{Globals}
use cpu_x.Dmi.Decode.{Pass, dmi_table_decode}
use cpu_x.Dmi.Decode.Safety.{dmi_table_decode_safe}
use cpu_x.Dmi.Print.{zeros}
use cpu_x.Dmi.MemoryDevice.{no_statics}
use cpu_x.Dmi.Cpux.{DmidecodeData, stored}
use cpu_x.Dmi.Cpux.Stick.{Surroundings}
use cpu_x.Dmi.Cpux.Table.{Gathered, visit_cpux, visit_cpux-Visits, cpux_options, cpux_table_safe}
use cpu_x.Dmi.Cpux.WellFormed.{Structure, IsStructure, table_bytes, listed, wanted}
use cpu_x.Dmi.Cpux.Walk.{dmi_table_decode-wanted}
use cpu_x.Dmi.Strings.RoundTrip.Printable.{string_text}
use cpu_x.Dmi.Cpux.Stick.{dmi_decode_cpux}
use cpu_x.Dmi.Cpux.{Context}
use cpu_x.Dmi.Cpux.Board.{Holds, decode_mb-strings}
use cpu_x.Dmi.Cpux.Stored.{dmi_decode_cpux-read_back}
use cpu_x.Options.Selected.{repeated}
use cpu_x.Dmi.EntryPoint.{overwrite_dmi_address, memory_scan}
use cpu_x.Dmi.EntryPoint.Crafted.{IsCrafted, overwrite_dmi_address-IsCrafted}
use cpu_x.Dmi.EntryPoint.Checked.{memory_scan_safe}
use cpu_x.Dmi.ProcessorFamily.{search_family}
use cpu_x.Dmi.ProcessorFamily.Families.{family2}
use cpu_x.Dmi.ProcessorFamily.Search.{Answers, family2_search-Answers}

-- A base board with two strings, and the end of the table.
abbrev pub board_table : Buffer
board_table =
    2 ∷ 8 ∷ 1 ∷ 0 ∷ 1 ∷ 2 ∷ 3 ∷ 0 ∷ b'A' ∷ 7 ∷ 0 ∷ b'B' ∷ 0 ∷ 0 ∷ 127 ∷ 4 ∷ 2 ∷ 0 ∷ 0 ∷ 0 ∷ []

abbrev board : Header
board = record { type = 2; length = 8; handle = 1; start = 0 }

pub board_table-IsByte : All IsByte board_table
board_table-IsByte = ground arith

board-IsTerminated : IsTerminated board_table board 12
board-IsTerminated = record { fits = omega arith; last = refl; after = refl }

abbrev pub surroundings : Surroundings
surroundings = record {
  no_quirks = false;
  can_grow = λ n. true;
  volts = λ n. codes "1.2 V";
  translate = λ text. text;
}

abbrev pub empty_data : DmidecodeData
empty_data = record {
  stick_count = 0;
  bios = record { brand = zeros 80; version = zeros 80; date = zeros 80; romsize = zeros 80 };
  mb = record { manufacturer = zeros 80; model = zeros 80; revision = zeros 80 };
  processor = record { bus_freq = 0; cpu_package = zeros 80 };
  memory = [];
}

abbrev pub gathered : Gathered
gathered = record { statics = no_statics; data_of = empty_data }

abbrev pub globals : Globals
globals = record {
  vendors = record { vendor = vendor_unknown; product = none };
  cpuid_type = cpuid_none;
}

cpux_table_safe_example :
    (globals' : Globals) × (after : Pass Gathered) × (dmi_table_decode
        (visit_cpux surroundings)
        (cpux_options true false)
        board_table
        (length board_table)
        2
        false
        globals
        gathered
      ≡ some (globals', after))
    × (length after.block ≡ length board_table)
    × (◌≢◌ {A = ℕ} 2 0 → after.count ≤ 2)
cpux_table_safe_example =
    cpux_table_safe surroundings true false board_table 2 false globals gathered board_table-IsByte

abbrev formatted : List ℕ
formatted = 2 ∷ 8 ∷ 1 ∷ 0 ∷ 1 ∷ 2 ∷ 3 ∷ 0 ∷ []

abbrev strings : List (List ℕ)
strings = (b'A' ∷ 7 ∷ []) ∷ (b'B' ∷ []) ∷ []

strings-IsText : All IsText strings
strings-IsText = ground arith

abbrev structures : List Structure
structures =
    record { type = 1; low = 0; high = 0; rest = 0 ∷ 0 ∷ []; strings = [] }
    ∷ record {
      type = 2;
      low = 1;
      high = 0;
      rest = 1 ∷ 2 ∷ 0 ∷ 0 ∷ [];
      strings = (b'A' ∷ []) ∷ (b'B' ∷ b'C' ∷ []) ∷ [];
    }
    ∷ []

structures-IsStructure : All IsStructure structures
structures-IsStructure = ground arith

dmi_table_decode-wanted_example :
    (g' : Globals) × (s : Pass (List Header)) × (dmi_table_decode listed
        (cpux_options true false)
        (table_bytes structures)
        (length (table_bytes structures))
        2
        true
        globals
        []
      ≡ some (g', s))
    × (s.state ≡ wanted 0 structures)
dmi_table_decode-wanted_example =
    dmi_table_decode-wanted false true structures 2 globals structures-IsStructure
      (inr (omega arith))

dmi_table_decode_safe_example :
    (globals' : Globals) × (after : Pass Gathered) × (dmi_table_decode
        (visit_cpux surroundings)
        (cpux_options false true)
        board_table
        (length board_table)
        1
        true
        globals
        gathered
      ≡ some (globals', after))
    × (length after.block ≡ length board_table)
    × (◌≢◌ {A = ℕ} 1 0 → after.count ≤ 1)
dmi_table_decode_safe_example =
    dmi_table_decode_safe (visit_cpux surroundings) (visit_cpux-Visits surroundings)
      (cpux_options false true) board_table 1 true globals gathered board_table-IsByte

abbrev board_strings : List (List ℕ)
board_strings = codes "ACME" ∷ codes "X-1" ∷ []

abbrev board_context : Context
board_context = record {
  block = (2 ∷ 8 ∷ 1 ∷ 0 ∷ 1 ∷ 2 ∷ 3 ∷ 0 ∷ []) ++ (encoded board_strings ++ (0 ∷ 127 ∷ []));
  statics = no_statics;
  data_of = empty_data;
}

board-Holds :
    Holds board_context.block board [] (2 ∷ 8 ∷ 1 ∷ 0 ∷ 1 ∷ 2 ∷ 3 ∷ 0 ∷ []) (127 ∷ []) board_strings
board-Holds = record {
  block = refl;
  start = refl;
  long = refl;
  texts = ground arith;
  printable = ground arith;
}

decode_mb-strings_example :
    dmi_decode_cpux surroundings board board_context
    ≡ some (
      tt,
      record board_context {
        data_of = record board_context.data_of {
          mb = record {
            manufacturer = stored (string_text board_strings 1);
            model = stored (string_text board_strings 2);
            revision = stored (string_text board_strings 3);
          };
        };
      },
    )
decode_mb-strings_example =
    decode_mb-strings surroundings board board_context [] (0 ∷ []) (127 ∷ []) board_strings 2 8 1 0
      1 2 3 refl (omega arith) board-Holds

dmi_string_safe_example : StaysInside board_table board 12 2
dmi_string_safe_example = dmi_string_safe board_table board 12 2 board-IsTerminated

dmi_string-encoded_example :
    text_of (dmi_string (formatted ++ (encoded strings ++ (0 ∷ 127 ∷ []))) board 2)
    ≡ some (string_number strings 2)
dmi_string-encoded_example =
    dmi_string-encoded formatted (127 ∷ []) board strings 2 refl strings-IsText

abbrev legacy : Buffer
legacy = codes "_DMI_" ++ (0x8A ∷ 0x20 ∷ 0x01 ∷ 0 ∷ 0xF0 ∷ 0x0E ∷ 0 ∷ 4 ∷ 0 ∷ 0x24 ∷ [])

overwrite_dmi_address-IsCrafted_example :
    (out : Buffer) × (overwrite_dmi_address 0 legacy ≡ some out)
    × IsCrafted 4 0x08 0 0x0F legacy out
overwrite_dmi_address-IsCrafted_example = overwrite_dmi_address-IsCrafted 0 legacy (omega arith)

length-zeros : (n : ℕ) → length (zeros n) ≡ n
length-zeros zero = refl
length-zeros (suc n) = ap suc (length-zeros n)

memory_scan_safe_example : Defined (memory_scan false (zeros 0x10000))
memory_scan_safe_example = memory_scan_safe (zeros 0x10000) false (length-zeros 0x10000)

family2_search-Answers_example :
    Answers family2 0xC6 (search_family (length family2) family2 0xC6 0 (length family2 - 1))
family2_search-Answers_example = family2_search-Answers 0xC6

-- A name of 80 characters, and a short one.
abbrev long_strings : List (List ℕ)
long_strings = repeated 80 b'x' ∷ codes "X-1" ∷ []

abbrev long_context : Context
long_context = record {
  block = (2 ∷ 8 ∷ 1 ∷ 0 ∷ 1 ∷ 2 ∷ 3 ∷ 0 ∷ []) ++ (encoded long_strings ++ (0 ∷ 127 ∷ []));
  statics = no_statics;
  data_of = empty_data;
}

long-Holds :
    Holds long_context.block board [] (2 ∷ 8 ∷ 1 ∷ 0 ∷ 1 ∷ 2 ∷ 3 ∷ 0 ∷ []) (127 ∷ []) long_strings
long-Holds = record {
  block = refl;
  start = refl;
  long = refl;
  texts = ground arith;
  printable = ground arith;
}

dmi_decode_cpux-read_back_example :
    (c' : Context) × (dmi_decode_cpux surroundings board long_context ≡ some (tt, c'))
    × (c_str c'.data_of.mb.manufacturer ≡ none)
    × (c_str c'.data_of.mb.model ≡ some (codes "X-1"))
    × (c_str c'.data_of.mb.revision ≡ some [])
dmi_decode_cpux-read_back_example =
    dmi_decode_cpux-read_back surroundings board long_context [] (0 ∷ []) (127 ∷ []) long_strings 2
      8 1 0 1 2 3 refl (omega arith) long-Holds
