-- ===== src/Options.antt =====
-- `Options` of src/options.cpp: what the user has chosen, and how many there are to choose from.
pub mod Selected
pub mod Pages
pub mod Settings
pub mod Calls
use cpu_x.Shared.{ℕ, ◌-◌, ◌^◌, Bool, true, false, List, [], ◌∷◌, Option, none}

-- A `std::pair` of the current value and of the number that bounds it.
pub record Limited : Type 0 where
  pub first : ℕ
  pub second : ℕ

-- `selected_core`: the current value, and how many cores each type has; empty as long as the
-- processor is not known.
pub record Cores : Type 0 where
  pub first : ℕ
  pub second : List ℕ

pub data OptKeymap : Type 0 where
  arrows emacs inverted_t vim : OptKeymap

pub data OptTempUnit : Type 0 where
  celsius fahrenheit kelvin rankine : OptTempUnit

-- The static members of the class; `affinity` is the core that the program last asked to run on.
pub record Options : Type 0 where
  pub cpuid_decimal : Bool
  pub color : Bool
  pub issue : Bool
  pub with_daemon : Bool
  pub fallback_cpu_temp : Bool
  pub fallback_cpu_volt : Bool
  pub fallback_cpu_freq : Bool
  pub fallback_cpu_mult : Bool
  pub selected_type : Limited
  pub selected_test : ℕ
  pub selected_stick : Limited
  pub selected_gpu : Limited
  pub selected_core : Cores
  pub output_type : ℕ
  pub refr_time : ℕ
  pub selected_page : ℕ
  pub keymap : OptKeymap
  pub temp_unit : OptTempUnit
  pub page_visible : List Bool
  pub affinity : Option ℕ

-- The values before `main`: -1 is the largest number of the type, and an array of Booleans is false.
abbrev pub initial_options : Options
initial_options = record {
  cpuid_decimal = false;
  color = true;
  issue = false;
  with_daemon = false;
  fallback_cpu_temp = false;
  fallback_cpu_volt = false;
  fallback_cpu_freq = false;
  fallback_cpu_mult = false;
  selected_type = record { first = 0; second = 2 ^ 8 - 1 };
  selected_test = 0;
  selected_stick = record { first = 0; second = 2 ^ 8 - 1 };
  selected_gpu = record { first = 0; second = 2 ^ 8 - 1 };
  selected_core = record { first = 0; second = [] };
  output_type = 0;
  refr_time = 1;
  selected_page = 0;
  keymap = arrows;
  temp_unit = celsius;
  page_visible = false ∷ false ∷ false ∷ false ∷ false ∷ false ∷ false ∷ false ∷ [];
  affinity = none;
}
