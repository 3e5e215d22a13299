-- ===== src/Main/Arguments.antt =====
-- `parse_arguments` of src/main.cpp. `getopt_long` of the C library is a parameter: it returns what it
-- finds, in the order in which it finds it.
pub mod Kept
pub mod Early
use cpu_x.Shared.{
  ℕ, ◌+◌, ◌-◌, ◌%◌, ◌^◌, ◌==◌, if◌then◌else◌, Bool, true, false, ◌&&◌, List, [], ◌∷◌, ◌++◌, codes,
  Option, none, some,
}
use cpu_x.Dmi.Memory.{◌>>=◌}
use cpu_x.Options.{Options}
use cpu_x.Options.Selected.{
  set_selected_type, set_selected_core, set_selected_stick, set_selected_gpu,
}
use cpu_x.Options.Pages.{set_selected_page}
use cpu_x.Options.Settings.{
  set_output_type, set_refr_time, set_keymap, set_temp_unit, set_selected_test, set_with_daemon,
  set_cpuid_decimal, set_color, set_issue, out_gtk, out_ncurses, out_dump, out_dmidecode,
  out_bandwidth,
}
use cpu_x.Options.Calls.{left_by}
use cpu_x.Main.Texts.{same_text, is_digit, to_lower, stoul, words_from, remove}
use cpu_x.Main.Table.{Build, Getopt, cpux_options, shortopts, longopts}

-- What a call of `getopt_long` finds: its value `c`, the name of `longopts[longindex]` and `optarg`.
pub record FoundOption : Type 0 where
  pub c : ℕ
  pub long_name : List ℕ
  pub optarg : Option (List ℕ)

-- The cases of the switch.
pub data Choice : Type 0 where
  gtk ncurses dump dmidecode bandwidth temp_unit refresh tab type core cachetest stick gpu daemon
        verbose help version cpuid_decimal nocolor debug issue_fmt keymap unknown :
      Choice

abbrev short_choices : List (ℕ × Choice)
short_choices =
    (b'G', gtk)
    ∷ (b'N', ncurses)
    ∷ (b'D', dump)
    ∷ (b'M', dmidecode)
    ∷ (b'B', bandwidth)
    ∷ (b'u', temp_unit)
    ∷ (b'r', refresh)
    ∷ (b't', tab)
    ∷ (b'p', type)
    ∷ (b'c', core)
    ∷ (b'b', cachetest)
    ∷ (b's', stick)
    ∷ (b'g', gpu)
    ∷ (b'd', daemon)
    ∷ (b'v', verbose)
    ∷ (b'h', help)
    ∷ (b'V', version)
    ∷ []

abbrev long_choices : List (List ℕ × Choice)
long_choices =
    (codes "cpuid-decimal", cpuid_decimal)
    ∷ (codes "nocolor", nocolor)
    ∷ (codes "debug", debug)
    ∷ (codes "issue-fmt", issue_fmt)
    ∷ (codes "keymap", keymap)
    ∷ []

abbrev short_choice : List (ℕ × Choice) → ℕ → Choice
short_choice [] c = unknown
short_choice ((d, x) ∷ xs) c = if d == c then x else short_choice xs c

abbrev long_choice : List (List ℕ × Choice) → List ℕ → Choice
long_choice [] name = unknown
long_choice ((s, x) ∷ xs) name = if same_text name s then x else long_choice xs name

abbrev pub choice_of : FoundOption → Choice
choice_of f =
    if f.c == 0 then long_choice long_choices f.long_name else short_choice short_choices f.c

-- What the loop keeps. Verbosity is 0 for LOG_DEBUG and 1 for LOG_VERBOSE, and standard output goes to
-- the log file after `--issue-fmt`.
pub record Parsing : Type 0 where
  pub options : Options
  pub verbosity : ℕ
  pub call_set_locales : Bool
  pub to_log_file : Bool
  pub locales_set : Bool

-- `parse_arguments` returns, with the arguments that are left; or the program exits with a status, or
-- ends by an exception.
pub data Parsed : Type 0 where
  parsed : Parsing → List (List ℕ) → Parsed
  exited : ℕ → Parsed
  thrown : Parsed

-- A case of the switch breaks, to go on, or leaves the function.
pub data Step : Type 0 where
  go_on : Parsing → Step
  leaves : Parsed → Step

-- `help(binary_name); exit(EXIT_FAILURE);`.
abbrev pub help_and_exit : Step
help_and_exit = leaves (exited 1)

abbrev pub with_options : Parsing → Option Options → Step
with_options p none = leaves thrown
with_options p (some o) = go_on (record p { options = o })

abbrev pub check_required_argument_is_digit : FoundOption → Bool
check_required_argument_is_digit f = elim f.optarg [
  | none ↦ false
  | some s ↦ elim s [ [] ↦ false | c ∷ s' ↦ is_digit c ]
]

abbrev pub number_of : FoundOption → Option ℕ
number_of f = f.optarg >>= stoul

-- The cases with a number, which the setter takes with `w` bits.
abbrev pub with_number : ℕ → (Options → ℕ → Option Options) → FoundOption → Parsing → Step
with_number w set f p =
    if check_required_argument_is_digit f
    then with_options p (number_of f >>= λ n. set p.options (n % 2 ^ w))
    else help_and_exit

-- The inner switches, on the first letter of the argument.
abbrev pub letter_of : FoundOption → ℕ
letter_of f = elim f.optarg [ none ↦ 0 | some s ↦ elim s [ [] ↦ 0 | c ∷ s' ↦ to_lower c ] ]

abbrev pub with_letter :
    ℕ → ℕ → ℕ → ℕ → (Options → ℕ → Bool × Options) → FoundOption → Parsing → Step
with_letter a b c d set f p =
    let l = letter_of f in
    if l == a
    then go_on (record p { options = (set p.options 0).1 })
    else if l == b
    then go_on (record p { options = (set p.options 1).1 })
    else if l == c
    then go_on (record p { options = (set p.options 2).1 })
    else if l == d
    then go_on (record p { options = (set p.options 3).1 })
    else help_and_exit

abbrev pub with_output_type : Parsing → ℕ → Parsing
with_output_type p n = record p { options = (set_output_type p.options n).1 }

-- `last_test` is BANDWIDTH_LAST_TEST.
module _ (last_test : ℕ) where
  -- The body of the loop; `cmd_args` are the arguments without the program's name.
  unfoldable pub parse_option : Choice → FoundOption → Parsing → List (List ℕ) → Step
  parse_option gtk f p cmd_args = go_on (with_output_type p out_gtk)
  parse_option ncurses f p cmd_args = go_on (with_output_type p out_ncurses)
  parse_option dump f p cmd_args = go_on (with_output_type p out_dump)
  parse_option dmidecode f p cmd_args = leaves (
      parsed (with_output_type p out_dmidecode)
        (remove (codes "--dmidecode") (remove (codes "-M") cmd_args)))
  parse_option bandwidth f p cmd_args = leaves (
      parsed (with_output_type p out_bandwidth)
        (remove (codes "--bandwidth") (remove (codes "-B") cmd_args)))
  parse_option temp_unit f p cmd_args = with_letter b'c' b'f' b'k' b'r' set_temp_unit f p
  parse_option refresh f p cmd_args = with_number 16 (λ o n. some (set_refr_time o n).1) f p
  parse_option tab f p cmd_args = with_number 32 (λ o n. left_by (set_selected_page o n)) f p
  parse_option type f p cmd_args = with_number 8 (λ o n. left_by (set_selected_type o n)) f p
  parse_option core f p cmd_args = with_number 16 (λ o n. left_by (set_selected_core o n)) f p
  parse_option cachetest f p cmd_args =
      with_number 8 (λ o n. some (set_selected_test last_test o n).1) f p
  parse_option stick f p cmd_args = with_number 8 (λ o n. some (set_selected_stick o n).1) f p
  parse_option gpu f p cmd_args = with_number 8 (λ o n. some (set_selected_gpu o n).1) f p
  parse_option daemon f p cmd_args = go_on (record p { options = set_with_daemon p.options true })
  parse_option verbose f p cmd_args = go_on (record p { verbosity = 1 })
  parse_option help f p cmd_args = leaves (exited 0)
  parse_option version f p cmd_args = leaves (exited 0)
  parse_option cpuid_decimal f p cmd_args =
      go_on (record p { options = set_cpuid_decimal p.options true })
  parse_option nocolor f p cmd_args = go_on (record p { options = set_color p.options false })
  parse_option debug f p cmd_args = go_on (record p { verbosity = 0 })
  parse_option issue_fmt f p cmd_args =
      go_on
        (record (with_output_type
          (record p { options = set_issue (set_color p.options false) true }) out_dump) {
            verbosity = 0;
            call_set_locales = false;
            to_log_file = true;
          })
  parse_option keymap f p cmd_args = with_letter b'a' b'e' b'i' b'v' set_keymap f p
  parse_option unknown f p cmd_args = help_and_exit

  unfoldable pub parse_options : List FoundOption → Parsing → List (List ℕ) → Parsed
  parse_options [] p cmd_args = parsed (record p { locales_set = p.call_set_locales }) cmd_args
  parse_options (f ∷ fs) p cmd_args = elim (parse_option (choice_of f) f p cmd_args) [
    | go_on p' ↦ parse_options fs p' cmd_args
    | leaves r ↦ r
  ]

  -- `env_args` is the variable CPUX_ARGS, `has_display` whether DISPLAY or WAYLAND_DISPLAY is set, and
  -- a list of arguments without the program's name has no `front`.
  module _ (b : Build) (getopt_long : List ℕ → List Getopt → List (List ℕ) → List FoundOption) where
    abbrev pub get_arguments_from_environment : List ℕ → Option (List ℕ) → List (List ℕ)
    get_arguments_from_environment binary_name none = binary_name ∷ []
    get_arguments_from_environment binary_name (some text) = binary_name ∷ words_from [] text

    abbrev pub default_output : Bool → ℕ
    default_output has_display =
        if b.has_gtk && has_display
        then out_gtk
        else (if b.has_ncurses then out_ncurses else out_dump)

    unfoldable pub parse_arguments :
        Bool → Option (List ℕ) → Parsing → List (List ℕ) → Option Parsed
    parse_arguments has_display env_args p [] = none
    parse_arguments has_display env_args p (binary_name ∷ cmd_args) =
        let args = get_arguments_from_environment binary_name env_args ++ cmd_args in
        some (
          parse_options (getopt_long (shortopts (cpux_options b)) (longopts (cpux_options b)) args)
            (with_output_type p (default_output has_display)) cmd_args)
