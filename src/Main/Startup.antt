-- ===== src/Main/Startup.antt =====
-- `main` of src/main.cpp up to the first use of the options, with `load_settings` of src/ui/gtk.cpp.
pub mod Loaded
pub mod Chosen
pub mod Shown
use cpu_x.Shared.{ℕ, ◌%◌, ◌^◌, if◌then◌else◌, Bool, List, codes, Option, none, some}
use cpu_x.Dmi.Memory.{◌>>=◌}
use cpu_x.Dmi.Cpux.Stick.{contains}
use cpu_x.Options.{Options}
use cpu_x.Options.Selected.{
  set_selected_type, set_selected_core, set_selected_stick, set_selected_gpu,
}
use cpu_x.Options.Pages.{init_page_visibility, set_page_visibility_auto, set_selected_page}
use cpu_x.Options.Settings.{
  set_refr_time, set_temp_unit, set_selected_test, set_with_daemon, set_cpuid_decimal,
  set_fallback_cpu_temp, set_fallback_cpu_volt, set_fallback_cpu_freq, set_fallback_cpu_mult,
}
use cpu_x.Options.Calls.{left_by}
use cpu_x.Main.Table.{Build}

-- The values that GSettings has stored.
pub record Settings : Type 0 where
  pub temperature_unit : ℕ
  pub refresh_time : ℕ
  pub default_tab : ℕ
  pub default_core_type : ℕ
  pub default_cpu_core : ℕ
  pub default_cache_test : ℕ
  pub default_memory_stick : ℕ
  pub default_active_card : ℕ
  pub print_cpuid_decimal : Bool
  pub always_start_daemon : Bool

-- `last_test` is BANDWIDTH_LAST_TEST.
unfoldable pub load_settings : ℕ → Settings → Options → Option Options
load_settings last_test s o =
    let o₁ = (set_temp_unit o s.temperature_unit).1 in
    let o₂ = (set_refr_time o₁ (s.refresh_time % 2 ^ 16)).1 in
    left_by (set_selected_page o₂ s.default_tab) >>= λ o₃.
    left_by (set_selected_type o₃ (s.default_core_type % 2 ^ 8)) >>= λ o₄.
    left_by (set_selected_core o₄ (s.default_cpu_core % 2 ^ 16)) >>= λ o₅.
    (let o₆ = (set_selected_test last_test o₅ (s.default_cache_test % 2 ^ 8)).1 in
      let o₇ = (set_selected_stick o₆ (s.default_memory_stick % 2 ^ 8)).1 in
      let o₈ = (set_selected_gpu o₇ (s.default_active_card % 2 ^ 8)).1 in
      some (set_with_daemon (set_cpuid_decimal o₈ s.print_cpuid_decimal) s.always_start_daemon))

-- The part of `check_environment_variables` about the options: CPUX_FORCE_CPU_FALLBACK.
abbrev pub check_environment_variables : Option (List ℕ) → Options → Options
check_environment_variables none o = o
check_environment_variables (some text) o =
    set_fallback_cpu_mult
      (set_fallback_cpu_freq
        (set_fallback_cpu_volt (set_fallback_cpu_temp o (contains (codes "temp") text))
          (contains (codes "volt") text))
        (contains (codes "freq") text))
      (contains (codes "mult") text)

-- `main` between the return of `parse_arguments` and the test of the output type.
unfoldable pub prepare_options : ℕ → Build → Settings → Option (List ℕ) → Options → Option Options
prepare_options last_test b s force_cpu_fallback o =
    let o' = init_page_visibility o in
    (if b.has_gtk then load_settings last_test s o' else some o') >>= λ o''.
    some (check_environment_variables force_cpu_fallback o'')

-- `main` between `fill_labels` and the start of an interface.
unfoldable pub update_pages : List ℕ → ℕ → ℕ → Options → Option Options
update_pages caches sticks cards o = set_page_visibility_auto o caches sticks cards >>= λ o'.
    left_by (set_selected_page o' o'.selected_page)
