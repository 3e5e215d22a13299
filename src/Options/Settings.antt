-- ===== src/Options/Settings.antt =====
-- The settings of src/options.cpp that do not depend on the machine: a value outside the enumeration
-- sets the default one.
use cpu_x.Shared.{
  ℕ, ◌^◌, ◌==◌, ltb, leb, if◌then◌else◌, Bool, true, false, ◌||◌, List, [], ◌∷◌, get_elem?, none,
  some,
}
use cpu_x.Options.{
  Options, OptKeymap, arrows, emacs, inverted_t, vim, OptTempUnit, celsius, fahrenheit, kelvin,
  rankine,
}

abbrev pub set_cpuid_decimal : Options → Bool → Options
set_cpuid_decimal o b = record o { cpuid_decimal = b }

abbrev pub set_color : Options → Bool → Options
set_color o b = record o { color = b }

abbrev pub set_issue : Options → Bool → Options
set_issue o b = record o { issue = b }

abbrev pub set_with_daemon : Options → Bool → Options
set_with_daemon o b = record o { with_daemon = b }

abbrev pub set_fallback_cpu_temp : Options → Bool → Options
set_fallback_cpu_temp o b = record o { fallback_cpu_temp = b }

abbrev pub set_fallback_cpu_volt : Options → Bool → Options
set_fallback_cpu_volt o b = record o { fallback_cpu_volt = b }

abbrev pub set_fallback_cpu_freq : Options → Bool → Options
set_fallback_cpu_freq o b = record o { fallback_cpu_freq = b }

abbrev pub set_fallback_cpu_mult : Options → Bool → Options
set_fallback_cpu_mult o b = record o { fallback_cpu_mult = b }

-- The numbers OUT_….
abbrev pub out_gtk : ℕ
out_gtk = 2 ^ 0

abbrev pub out_ncurses : ℕ
out_ncurses = 2 ^ 1

abbrev pub out_dump : ℕ
out_dump = 2 ^ 2

abbrev pub out_no_cpux : ℕ
out_no_cpux = 2 ^ 10

abbrev pub out_dmidecode : ℕ
out_dmidecode = 2 ^ 11

abbrev pub out_bandwidth : ℕ
out_bandwidth = 2 ^ 12

abbrev is_output_type : ℕ → Bool
is_output_type n =
    n == out_gtk
    || n == out_ncurses
    || n == out_dump
    || n == out_no_cpux
    || n == out_dmidecode
    || n == out_bandwidth

unfoldable pub set_output_type : Options → ℕ → Bool × Options
set_output_type o n =
    if is_output_type n
    then (true, record o { output_type = n })
    else (false, record o { output_type = out_dump })

abbrev pub output_type_is : Options → ℕ → Bool
output_type_is o n = o.output_type == n

unfoldable pub set_refr_time : Options → ℕ → Bool × Options
set_refr_time o n =
    if leb 1 n then (true, record o { refr_time = n }) else (false, record o { refr_time = 1 })

-- The enumerations in their order.
abbrev pub keymaps : List OptKeymap
keymaps = arrows ∷ emacs ∷ inverted_t ∷ vim ∷ []

abbrev pub temp_units : List OptTempUnit
temp_units = celsius ∷ fahrenheit ∷ kelvin ∷ rankine ∷ []

unfoldable pub set_keymap : Options → ℕ → Bool × Options
set_keymap o n = elim (get_elem? keymaps n) [
  | some k ↦ (true, record o { keymap = k })
  | none ↦ (false, record o { keymap = arrows })
]

unfoldable pub set_temp_unit : Options → ℕ → Bool × Options
set_temp_unit o n = elim (get_elem? temp_units n) [
  | some u ↦ (true, record o { temp_unit = u })
  | none ↦ (false, record o { temp_unit = celsius })
]

-- `last_test` is BANDWIDTH_LAST_TEST.
unfoldable pub set_selected_test : ℕ → Options → ℕ → Bool × Options
set_selected_test last_test o n =
    if ltb n last_test
    then (true, record o { selected_test = n })
    else (false, record o { selected_test = 0 })
