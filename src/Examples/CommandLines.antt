-- ===== src/Examples/CommandLines.antt =====
-- The theorems about the command line of dmidecode at concrete inputs.
use cpu_x.Shared.{
  ℕ, ◌<◌, true, false, List, [], ◌∷◌, length, get_elem?, codes, none, some, Bool, ◌≡◌, inl, refl,
  arith,
}
use cpu_x.Dmi.CommandLine.{Opt, FoundOption, no_handle, parse_command_line}
use cpu_x.Dmi.CommandLine.Safe.{IsGood, Accepts, parse_command_line-Accepts}
use cpu_x.Dmi.TypeOption.{parse_opt_type}
use cpu_x.Dmi.TypeOption.RoundTrip.{printed, is_listed, parse_opt_type-printed}

parse_opt_type-printed_example :
    (p : List Bool) × (parse_opt_type true none (printed (0 ∷ 17 ∷ 203 ∷ [])) ≡ some (some p))
    × (length p ≡ 256)
    × ((i : ℕ) → i < 256 → get_elem? p i ≡ some (is_listed i (0 ∷ 17 ∷ 203 ∷ [])))
parse_opt_type-printed_example = parse_opt_type-printed (0 ∷ 17 ∷ 203 ∷ []) (ground arith)

-- The options as src/core/dmidecode/dmidecode.c sets them before it reads the command line.
abbrev fresh_opt : Opt
fresh_opt = record {
  devmem = codes "/dev/mem";
  flag_version = false;
  flag_help = false;
  flag_dump = false;
  flag_quiet = false;
  flag_dump_bin = false;
  flag_from_dump = false;
  flag_no_sysfs = false;
  flag_no_quirks = false;
  flag_list = false;
  type = none;
  string = none;
  dumpfile = none;
  handle = no_handle;
  opt_oem_string_keyword = record { keyword = []; type = 11; offset = 0 };
}

fresh_opt-IsGood : IsGood fresh_opt
fresh_opt-IsGood = record {
  types = tt;
  quietly = inl refl;
  handle_range = inl refl;
  oem_range = omega arith;
}

-- `-t 4,17 -q --dump-bin dump`, which is refused.
abbrev command_line : List FoundOption
command_line =
    record { option = b't'; optarg = codes "4,17" }
    ∷ record { option = b'q'; optarg = [] }
    ∷ record { option = b'B'; optarg = codes "dump" }
    ∷ []

parse_command_line-Accepts_example :
    (b : Bool) × (o' : Opt) × (parse_command_line true command_line fresh_opt ≡ some (b, o'))
    × Accepts b o'
parse_command_line-Accepts_example =
    parse_command_line-Accepts true command_line fresh_opt fresh_opt-IsGood
