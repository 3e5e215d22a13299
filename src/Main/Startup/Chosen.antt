-- ===== src/Main/Startup/Chosen.antt =====
-- A type and a core that are given to src/main.cpp as arguments, once src/core/libcpuid.cpp knows
-- the processor.
use cpu_x.Shared.{ℕ, Option, List, [], get_elem?, some, ◌≡◌}
use cpu_x.Dmi.Memory.{◌>>=◌}
use cpu_x.Options.{Options}
use cpu_x.Options.Selected.{get_selected_core_id}
use cpu_x.Options.Selected.Located.{all_cores}
use cpu_x.Options.Calls.{set_cores_of_types}
use cpu_x.Options.Calls.Counts.{as_counts}
use cpu_x.Main.Arguments.{FoundOption, Parsing, parsed, parse_options}
use cpu_x.Main.Table.{Build}
use cpu_x.Main.Startup.{Settings, prepare_options}

-- A short option with its argument.
abbrev pub with_argument : ℕ → List ℕ → FoundOption
with_argument c text = record { c = c; long_name = []; optarg = some text }

module _ (counts : List ℕ) where
  -- Core `n` of type `t` is the one that the options tell to select, before the types are known.
  IsChosen : Options → ℕ → ℕ → Type 0
  IsChosen o t n = (o.selected_type.first ≡ t) × (o.selected_core.first ≡ n) × (o.affinity ≡ some 0)

  -- Once the types are known, the options locate core `n` of type `t` among all cores, and the program has
  -- only asked to run on core 0.
  abbrev pub Locates : Options → ℕ → ℕ → Type 0
  Locates o t n =
      (id : ℕ) × (o' : Options) × ((set_cores_of_types counts o >>= get_selected_core_id)
        ≡ some (id, o'))
      × (get_elem? (all_cores 0 (as_counts counts)) id ≡ some (t, n))
      × (o'.affinity ≡ some 0)

  -- The arguments of the program, its start without GTK, and the types of the processor lead to core
  -- `n` of type `t`.
  abbrev pub StartsAt :
      ℕ
      → Build
      → Settings
      → Option (List ℕ)
      → Parsing
      → List (List ℕ)
      → List FoundOption
      → ℕ
      → ℕ
      → Type 0
  StartsAt last_test b s force_cpu_fallback p cmd_args fs t n =
      (p' : Parsing) × (o : Options) × (parse_options last_test fs p cmd_args ≡ parsed p' cmd_args)
      × (prepare_options last_test b s force_cpu_fallback p'.options ≡ some o)
      × Locates o t n
