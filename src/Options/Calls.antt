-- ===== src/Options/Calls.antt =====
-- The calls of src/options.cpp that change the options, as values; and the calls by
-- which src/core/libcpuid.cpp tells the options how many cores there are.
pub mod Counts
pub mod Parts
pub mod Sizes
pub mod Safe
pub mod Paged
pub mod Run
use cpu_x.Shared.{ℕ, suc, ◌%◌, ◌^◌, Bool, List, [], ◌∷◌, length, Option, some}
use cpu_x.Dmi.Memory.{◌>>=◌}
use cpu_x.Options.{Options}
use cpu_x.Options.Selected.{
  get_selected_type, set_selected_stick, get_selected_stick, set_num_sticks, set_selected_gpu,
  get_selected_gpu, set_num_gpus, set_num_types, set_num_cores, get_selected_core,
  get_selected_core_id, set_selected_core, set_selected_type,
}
use cpu_x.Options.Pages.{
  init_page_visibility, set_page_visibility, set_page_visibility_auto, set_selected_page,
  set_selected_page_next, set_selected_page_prev,
}
use cpu_x.Options.Settings.{
  set_output_type, set_refr_time, set_keymap, set_temp_unit, set_selected_test, set_cpuid_decimal,
  set_color, set_issue, set_with_daemon, set_fallback_cpu_temp, set_fallback_cpu_volt,
  set_fallback_cpu_freq, set_fallback_cpu_mult,
}

-- The loop of `call_libcpuid_static` over the types from `t` on, with the number of cores of each.
unfoldable pub set_each_num_cores : ℕ → List ℕ → Options → Option Options
set_each_num_cores t [] o = some o
set_each_num_cores t (n ∷ counts) o =
    set_num_cores o t (n % 2 ^ 16) >>= λ o'. set_each_num_cores (suc t) counts o'

unfoldable pub set_cores_of_types : List ℕ → Options → Option Options
set_cores_of_types counts o = set_each_num_cores 0 counts (set_num_types o (length counts % 2 ^ 8))

-- The settings that are on or off.
pub data Flag : Type 0 where
  decimal_cpuid : Flag
  colors : Flag
  issue_report : Flag
  daemon : Flag
  cpu_temp : Flag
  cpu_volt : Flag
  cpu_freq : Flag
  cpu_mult : Flag

abbrev pub set_flag : Flag → Options → Bool → Options
set_flag decimal_cpuid o b = set_cpuid_decimal o b
set_flag colors o b = set_color o b
set_flag issue_report o b = set_issue o b
set_flag daemon o b = set_with_daemon o b
set_flag cpu_temp o b = set_fallback_cpu_temp o b
set_flag cpu_volt o b = set_fallback_cpu_volt o b
set_flag cpu_freq o b = set_fallback_cpu_freq o b
set_flag cpu_mult o b = set_fallback_cpu_mult o b

-- A type of core with its number of cores; of the data, the caches of each type and the numbers of
-- sticks and cards.
pub data Call : Type 0 where
  flag : Flag → Bool → Call
  types : ℕ → Call
  cores : ℕ → ℕ → Call
  cores_of_types : List ℕ → Call
  select_type : ℕ → Call
  select_core : ℕ → Call
  read_type : Call
  read_core : Call
  read_core_id : Call
  sticks : ℕ → Call
  select_stick : ℕ → Call
  read_stick : Call
  gpus : ℕ → Call
  select_gpu : ℕ → Call
  read_gpu : Call
  select_test : ℕ → Call
  show_all_pages : Call
  show_page : ℕ → Bool → Call
  show_pages_of : List ℕ → ℕ → ℕ → Call
  select_page : ℕ → Call
  next_page : Call
  prev_page : Call
  output_type : ℕ → Call
  refr_time : ℕ → Call
  keymap : ℕ → Call
  temp_unit : ℕ → Call

-- The options that a call with a result leaves.
abbrev pub left_by {ℓ} : {A : Type ℓ} → Option (A × Options) → Option Options
left_by r = r >>= λ s. some s.1

module _ (last_test : ℕ) where
  unfoldable pub call : Options → Call → Option Options
  call o (flag f b) = some (set_flag f o b)
  call o (types n) = some (set_num_types o n)
  call o (cores t n) = set_num_cores o t n
  call o (cores_of_types counts) = set_cores_of_types counts o
  call o (select_type n) = left_by (set_selected_type o n)
  call o (select_core n) = left_by (set_selected_core o n)
  call o read_type = some (get_selected_type o).1
  call o read_core = left_by (get_selected_core o)
  call o read_core_id = left_by (get_selected_core_id o)
  call o (sticks n) = some (set_num_sticks o n)
  call o (select_stick n) = some (set_selected_stick o n).1
  call o read_stick = some (get_selected_stick o).1
  call o (gpus n) = some (set_num_gpus o n)
  call o (select_gpu n) = some (set_selected_gpu o n).1
  call o read_gpu = some (get_selected_gpu o).1
  call o (select_test n) = some (set_selected_test last_test o n).1
  call o show_all_pages = some (init_page_visibility o)
  call o (show_pages_of caches m n) = set_page_visibility_auto o caches m n
  call o (show_page page visible) = set_page_visibility o page visible
  call o (select_page page) = left_by (set_selected_page o page)
  call o next_page = left_by (set_selected_page_next o)
  call o prev_page = left_by (set_selected_page_prev o)
  call o (output_type n) = some (set_output_type o n).1
  call o (refr_time n) = some (set_refr_time o n).1
  call o (keymap n) = some (set_keymap o n).1
  call o (temp_unit n) = some (set_temp_unit o n).1

  unfoldable pub calls : Options → List Call → Option Options
  calls o [] = some o
  calls o (c ∷ cs) = call o c >>= λ o'. calls o' cs
