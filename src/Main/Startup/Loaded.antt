-- ===== src/Main/Startup/Loaded.antt =====
-- `load_settings` of src/ui/gtk.cpp after `parse_arguments` of src/main.cpp.
use cpu_x.Shared.{
  ℕ, ◌-◌, ◌%◌, ◌^◌, ltb, leb, if◌then◌else◌, true, false, Bool-cases, Option-cases, List, [],
  get_elem?, get_elem?-some, All, All-get_elem?, Option, none, some, ◌≡◌, inl, inr, refl, ap, ◌∙◌,
  subst, arith,
}
use cpu_x.Dmi.Memory.{◌>>=◌}
use cpu_x.Options.{Options, Limited, OptTempUnit, celsius, initial_options}
use cpu_x.Options.Selected.{
  repeated, check_valid, select, set_selected_type, set_selected_core, set_selected_stick,
  set_selected_gpu,
}
use cpu_x.Options.Pages.{init_page_visibility, set_selected_page}
use cpu_x.Options.Settings.{
  set_refr_time, set_temp_unit, set_selected_test, set_with_daemon, set_cpuid_decimal, temp_units,
}
use cpu_x.Options.Calls.{left_by}
use cpu_x.Main.Arguments.{FoundOption, Parsing, parsed, parse_options}
use cpu_x.Main.Arguments.Kept.{IsEarly, set_selected_core-early}
use cpu_x.Main.Arguments.Early.{StaysEarly, HasNumber, parse_options-StaysEarly}
use cpu_x.Main.Startup.{Settings, load_settings}

abbrev unit_of : ℕ → OptTempUnit
unit_of n = elim (get_elem? temp_units n) [ some u ↦ u | none ↦ celsius ]

set_temp_unit-unit_of :
    (o : Options) (n : ℕ) → (set_temp_unit o n).1 ≡ record o { temp_unit = unit_of n }
unfolding set_temp_unit
set_temp_unit-unit_of o n = elim (Option-cases (get_elem? temp_units n)) [
  | inl outside ↦ rw outside refl
  | inr (u, e) ↦ rw e refl
]

set_refr_time-if :
    (o : Options) (n : ℕ)
    → (set_refr_time o n).1 ≡ record o { refr_time = if leb 1 n then n else 1 }
unfolding set_refr_time
set_refr_time-if o n = elim (Bool-cases (leb 1 n)) [ inl b ↦ rw b refl | inr b ↦ rw b refl ]

set_selected_test-if :
    (k : ℕ) (o : Options) (n : ℕ)
    → (set_selected_test k o n).1 ≡ record o { selected_test = if ltb n k then n else 0 }
unfolding set_selected_test
set_selected_test-if k o n = elim (Bool-cases (ltb n k)) [ inl b ↦ rw b refl | inr b ↦ rw b refl ]

select-if :
    (l : Limited) (n : ℕ) → (select l n).1 ≡ record l { first = if ltb n l.second then n else 0 }
unfolding select check_valid
select-if l n = elim (Bool-cases (ltb n l.second)) [ inl b ↦ rw b refl | inr b ↦ rw b refl ]

set_selected_page-if :
    (o : Options) (n : ℕ)
    → o.page_visible ≡ repeated 8 true
    → left_by (set_selected_page o n) ≡ some (record o { selected_page = if leb n 7 then n else 0 })
unfolding set_selected_page
set_selected_page-if o n h = elim (Bool-cases (leb n 7)) [
  | inl is_page ↦
      (let (visible, found) = get_elem?-some (repeated 8 true) n (ground arith) in
        let shown = All-get_elem? (λ b. b ≡ true) (repeated 8 true) n (ground arith) found in
        rw (is_page, h, found, shown) refl)
  | inr past ↦ rw past refl
]

-- A type and then a core, before the types are known.
select_core-if :
    (o : Options) (t n : ℕ) (k : Options → Option Options)
    → o.selected_core.second ≡ []
    → (left_by (set_selected_type o t) >>= λ o'. left_by (set_selected_core o' n) >>= k)
      ≡ k (record o {
        selected_type = record o.selected_type {
          first = if ltb t o.selected_type.second then t else 0;
        };
        selected_core = record o.selected_core { first = n };
        affinity = some 0;
      })
unfolding set_selected_type check_valid
select_core-if o t n k none_known = elim (Bool-cases (ltb t o.selected_type.second)) [
  | inl valid ↦
      (let o₁ = record o { selected_type = record o.selected_type { first = t } } in
        let o₂ = record o₁ {
          selected_core = record o.selected_core { first = 0 };
          affinity = some 0;
        } in
        rw (valid, set_selected_core-early o₁ 0 none_known, set_selected_core-early o₂ n none_known)
          refl)
  | inr past ↦
      rw
        (
          past,
          set_selected_core-early
              (record o { selected_type = record o.selected_type { first = 0 } }) n none_known,
        )
        refl
]

-- The options with those parts as they are before `main`.
abbrev fresh : Options → Options
fresh o = record o {
  selected_type = record o.selected_type { second = 2 ^ 8 - 1 };
  selected_core = record o.selected_core { second = [] };
  selected_stick = record o.selected_stick { second = 2 ^ 8 - 1 };
  selected_gpu = record o.selected_gpu { second = 2 ^ 8 - 1 };
  selected_page = 0;
  page_visible = repeated 8 false;
}

IsEarly-fresh : (o : Options) → IsEarly o → o ≡ fresh o
IsEarly-fresh o h =
    ap
      (λ p. record o {
        selected_type = record o.selected_type { second = p.0 };
        selected_core = record o.selected_core { second = p.1 };
        page_visible = p.2;
        selected_page = p.3;
        selected_stick = record o.selected_stick { second = p.4 };
        selected_gpu = record o.selected_gpu { second = p.5 };
      })
      h

-- The options with the flags, the output type and the keys of others.
abbrev pub keep_flags : Options → Options → Options
keep_flags o loaded = record loaded {
  color = o.color;
  issue = o.issue;
  fallback_cpu_temp = o.fallback_cpu_temp;
  fallback_cpu_volt = o.fallback_cpu_volt;
  fallback_cpu_freq = o.fallback_cpu_freq;
  fallback_cpu_mult = o.fallback_cpu_mult;
  output_type = o.output_type;
  keymap = o.keymap;
}

abbrev loaded : ℕ → Settings → Options
loaded last_test s = record (init_page_visibility initial_options) {
  cpuid_decimal = s.print_cpuid_decimal;
  with_daemon = s.always_start_daemon;
  temp_unit = unit_of s.temperature_unit;
  refr_time = if leb 1 (s.refresh_time % 2 ^ 16) then s.refresh_time % 2 ^ 16 else 1;
  selected_page = if leb s.default_tab 7 then s.default_tab else 0;
  selected_type = record {
    first =
        if ltb (s.default_core_type % 2 ^ 8) (2 ^ 8 - 1) then s.default_core_type % 2 ^ 8 else 0;
    second = 2 ^ 8 - 1;
  };
  selected_core = record { first = s.default_cpu_core % 2 ^ 16; second = [] };
  affinity = some 0;
  selected_test =
      if ltb (s.default_cache_test % 2 ^ 8) last_test then s.default_cache_test % 2 ^ 8 else 0;
  selected_stick = record {
    first =
        if ltb (s.default_memory_stick % 2 ^ 8) (2 ^ 8 - 1)
        then s.default_memory_stick % 2 ^ 8
        else 0;
    second = 2 ^ 8 - 1;
  };
  selected_gpu = record {
    first =
        if ltb (s.default_active_card % 2 ^ 8) (2 ^ 8 - 1)
        then s.default_active_card % 2 ^ 8
        else 0;
    second = 2 ^ 8 - 1;
  };
}

load_settings-fresh :
    (last_test : ℕ) (s : Settings) (o : Options)
    → load_settings last_test s (init_page_visibility (fresh o))
      ≡ some (keep_flags o (loaded last_test s))
unfolding load_settings
load_settings-fresh last_test s o =
    let o₀ = init_page_visibility (fresh o) in
    let o₁ = record o₀ { temp_unit = unit_of s.temperature_unit } in
    let o₂ = record o₁ {
      refr_time = if leb 1 (s.refresh_time % 2 ^ 16) then s.refresh_time % 2 ^ 16 else 1;
    } in
    let o₃ = record o₂ { selected_page = if leb s.default_tab 7 then s.default_tab else 0 } in
    let t = s.default_core_type % 2 ^ 8 in
    let o₅ = record o₃ {
      selected_type = record { first = if ltb t (2 ^ 8 - 1) then t else 0; second = 2 ^ 8 - 1 };
      selected_core = record { first = s.default_cpu_core % 2 ^ 16; second = [] };
      affinity = some 0;
    } in
    let test = s.default_cache_test % 2 ^ 8 in
    let stick = s.default_memory_stick % 2 ^ 8 in
    rw
      (
        set_temp_unit-unit_of o₀ s.temperature_unit,
        set_refr_time-if o₁ (s.refresh_time % 2 ^ 16),
        set_selected_page-if o₂ s.default_tab refl,
      )
      (select_core-if o₃ t (s.default_cpu_core % 2 ^ 16)
          (λ o. some (
            let o₆ = (set_selected_test last_test o (s.default_cache_test % 2 ^ 8)).1 in
            let o₇ = (set_selected_stick o₆ (s.default_memory_stick % 2 ^ 8)).1 in
            let o₈ = (set_selected_gpu o₇ (s.default_active_card % 2 ^ 8)).1 in
            set_with_daemon (set_cpuid_decimal o₈ s.print_cpuid_decimal) s.always_start_daemon))
          refl
        ∙ rw
            (
              set_selected_test-if last_test o₅ test,
              select-if o₅.selected_stick stick,
              select-if o₅.selected_gpu (s.default_active_card % 2 ^ 8),
            )
            refl)

load_settings-early :
    (last_test : ℕ) (s : Settings) (o : Options)
    → IsEarly o
    → load_settings last_test s (init_page_visibility o) ≡ some (keep_flags o (loaded last_test s))
load_settings-early last_test s o h =
    ap (λ x. load_settings last_test s (init_page_visibility x)) (IsEarly-fresh o h)
    ∙ load_settings-fresh last_test s o

-- Where the numbers on the command line have 64 bits and the loop over the arguments starts with the
-- bounds, the pages and the selected page from before `main` and returns, what `load_settings` leaves
-- after `init_page_visibility` is what it leaves without any argument, but for the colour, the issue
-- format, the fallback flags, the output type and the keys.
pub load_settings-parse_options :
    (last_test : ℕ) (s : Settings) (fs : List FoundOption) (p p' : Parsing)
    (cmd_args cmd_args' : List (List ℕ))
    → All HasNumber fs
    → IsEarly p.options
    → parse_options last_test fs p cmd_args ≡ parsed p' cmd_args'
    → (r : Options) × (load_settings last_test s (init_page_visibility initial_options) ≡ some r)
      × (load_settings last_test s (init_page_visibility p'.options)
          ≡ some (keep_flags p'.options r))
load_settings-parse_options last_test s fs p p' cmd_args cmd_args' numbers h returned = (
  loaded last_test s,
  load_settings-fresh last_test s initial_options,
  load_settings-early last_test s p'.options
      (subst StaysEarly returned (parse_options-StaysEarly last_test fs p cmd_args numbers h)),
)
