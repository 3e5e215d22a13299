-- ===== src/Examples/Choices.antt =====
-- The theorems about the options and their start at concrete inputs: a processor of two types.
use cpu_x.Shared.{
  ℕ, zero, suc, ◌<◌, true, false, List, [], ◌∷◌, get_elem?, get_or, All, none, some, ◌≡◌, inr, refl,
  arith, codes,
}
use cpu_x.Dmi.Memory.{◌>>=◌}
use cpu_x.Options.{Options, initial_options}
use cpu_x.Options.Selected.{
  get_selected_type, get_selected_core, get_selected_core_id, set_selected_type, set_selected_core,
  set_num_types, set_num_cores, selected, check_valid, check_selected_core_valid, core_offset,
}
use cpu_x.Options.Selected.Sound.{IsSound}
use cpu_x.Options.Selected.Located.{all_cores, get_selected_core_id-all_cores}
use cpu_x.Options.Pages.{
  get_page_visibility, init_page_visibility, set_page_visibility, set_page_visibility_auto,
  selected_caches, set_selected_page_next, set_selected_page_prev,
}
use cpu_x.Options.Pages.Moves.{
  IsNext, IsPrev, at_page, set_selected_page_next-IsNext,
  set_selected_page_prev-set_selected_page_next,
}
use cpu_x.Options.Settings.{set_refr_time}
use cpu_x.Options.Calls.{
  Call, types, cores, show_pages_of, flag, colors, call, select_type, select_core, next_page,
  read_core_id, calls,
}
use cpu_x.Options.Calls.Safe.{IsValid, Returns}
use cpu_x.Options.Calls.Run.{AreAllowed, calls-IsValid, initial_options-IsValid}
use cpu_x.Main.Arguments.{FoundOption, Parsing, parsed, parse_options, parse_option}
use cpu_x.Main.Arguments.Early.{HasNumber, StaysEarly, parse_options-StaysEarly}
use cpu_x.Main.Startup.{Settings, load_settings, update_pages}
use cpu_x.Main.Startup.Shown.{update_pages-Shown, update_pages_throws}
use cpu_x.Main.Startup.Chosen.{with_argument}
use cpu_x.Main.Table.{Build}
use cpu_x.Main.Startup.Loaded.{keep_flags, load_settings-parse_options}

-- Four cores of the first type and eight of the second.
abbrev hybrid : Options
hybrid = record (init_page_visibility initial_options) {
  selected_type = record { first = 1; second = 2 };
  selected_core = record { first = 5; second = 4 ∷ 8 ∷ [] };
  selected_page = 2;
  page_visible = true ∷ true ∷ true ∷ false ∷ true ∷ false ∷ true ∷ true ∷ [];
}

hybrid-IsSound : IsSound hybrid
hybrid-IsSound = record { types_in_range = omega arith; known = inr refl }

hybrid-IsValid : IsValid hybrid
hybrid-IsValid = record {
  sound = hybrid-IsSound;
  has_pages = refl;
  page = omega arith;
  refresh = omega arith;
}

hybrid-each : (t : ℕ) → t < 2 → 0 < get_or (4 ∷ 8 ∷ []) t 0
hybrid-each zero h = omega arith
hybrid-each (suc zero) h = omega arith
hybrid-each (suc (suc t)) h = absurd (omega arith)

get_selected_core_id-all_cores_example :
    (id : ℕ) × (o' : Options) × (t : ℕ) × (c : ℕ) × (get_selected_core_id hybrid ≡ some (id, o'))
    × (get_selected_type o' ≡ (t, o'))
    × (get_selected_core o' ≡ some (c, o'))
    × (get_elem? (all_cores 0 (4 ∷ 8 ∷ [])) id ≡ some (t, c))
get_selected_core_id-all_cores_example =
    get_selected_core_id-all_cores hybrid hybrid-IsSound (omega arith) (omega arith) hybrid-each

set_selected_page_next-IsNext_example :
    (2 < 7
      → (p : ℕ) × (set_selected_page_next hybrid ≡ some (true, at_page hybrid p))
        × IsNext hybrid 2 p)
    × (0 < 2
        → (p : ℕ) × (set_selected_page_prev hybrid ≡ some (true, at_page hybrid p))
          × IsPrev hybrid 2 p)
set_selected_page_next-IsNext_example = set_selected_page_next-IsNext hybrid refl (omega arith)

set_selected_page_prev-set_selected_page_next_example :
    (set_selected_page_next hybrid >>= λ r. set_selected_page_prev r.1) ≡ some (true, hybrid)
set_selected_page_prev-set_selected_page_next_example =
    set_selected_page_prev-set_selected_page_next hybrid refl (omega arith) (inr refl)

abbrev session : List Call
session =
    select_type 1
    ∷ select_core 7
    ∷ types 2
    ∷ cores 0 4
    ∷ cores 1 8
    ∷ read_core_id
    ∷ show_pages_of (3 ∷ 2 ∷ []) 0 1
    ∷ flag colors false
    ∷ next_page
    ∷ select_core 2
    ∷ []

session-AreAllowed : AreAllowed 23 initial_options session
unfolding AreAllowed call set_selected_type set_selected_core set_num_types set_num_cores
    get_selected_core_id get_selected_core core_offset set_page_visibility_auto selected_caches
    set_page_visibility set_selected_page_next cpu_x.Options.Pages.next_page selected check_valid
    check_selected_core_valid
session-AreAllowed = (
  tt,
  (
    tt,
    (
      omega arith,
      (inr (omega arith), (inr (omega arith), (tt, (inr (omega arith), (tt, (tt, (tt, tt))))))),
    ),
  ),
)

calls-IsValid_example : Returns (λ (r : Options). r) (calls 23 initial_options session)
calls-IsValid_example =
    calls-IsValid 23 initial_options session session-AreAllowed initial_options-IsValid

abbrev parsing : Parsing
parsing = record {
  options = initial_options;
  verbosity = 2;
  call_set_locales = true;
  to_log_file = false;
  locales_set = false;
}

-- The third tab, the second type, and its sixth core.
abbrev arguments : List FoundOption
arguments =
    with_argument b't' (codes "3")
    ∷ with_argument b'p' (codes "1")
    ∷ with_argument b'c' (codes "5")
    ∷ []

arguments-HasNumber : All HasNumber arguments
arguments-HasNumber = ground arith

parse_options-StaysEarly_example : StaysEarly (parse_options 23 arguments parsing [])
parse_options-StaysEarly_example =
    parse_options-StaysEarly 23 arguments parsing [] arguments-HasNumber refl

abbrev settings : Settings
settings = record {
  temperature_unit = 2;
  refresh_time = 3;
  default_tab = 1;
  default_core_type = 0;
  default_cpu_core = 0;
  default_cache_test = 0;
  default_memory_stick = 0;
  default_active_card = 0;
  print_cpuid_decimal = false;
  always_start_daemon = false;
}

-- Without GTK, but with all the rest.
abbrev without_gtk : Build
without_gtk = record {
  has_gtk = false;
  has_ncurses = true;
  has_dmidecode = true;
  has_bandwidth = true;
  has_libcpuid = true;
  has_libpci = true;
}

-- The daemon and a refresh time of 9 seconds.
abbrev daemon_arguments : List FoundOption
daemon_arguments =
    record { c = b'd'; long_name = []; optarg = none } ∷ with_argument b'r' (codes "9") ∷ []

abbrev after_arguments : Parsing
after_arguments = record parsing {
  options = record initial_options { with_daemon = true; refr_time = 9 };
  locales_set = true;
}

daemon_arguments-parsed : parse_options 23 daemon_arguments parsing [] ≡ parsed after_arguments []
unfolding parse_options parse_option set_refr_time
daemon_arguments-parsed = refl

load_settings-parse_options_example :
    (r : Options) × (load_settings 23 settings (init_page_visibility initial_options) ≡ some r)
    × (load_settings 23 settings (init_page_visibility after_arguments.options)
        ≡ some (keep_flags after_arguments.options r))
load_settings-parse_options_example =
    load_settings-parse_options 23 settings daemon_arguments parsing after_arguments [] []
      (ground arith) refl daemon_arguments-parsed

update_pages-Shown_example :
    (o' : Options) × (update_pages (3 ∷ 2 ∷ []) 2 0 hybrid ≡ some o')
    × IsValid o'
    × (get_page_visibility o' o'.selected_page ≡ some true)
update_pages-Shown_example =
    update_pages-Shown hybrid (3 ∷ 2 ∷ []) 2 0 hybrid-IsValid refl (omega arith) refl

-- `-p 3`, and libcpuid fails.
abbrev fourth_type : Options
fourth_type = record (init_page_visibility initial_options) {
  selected_type = record { first = 3; second = 255 };
}

update_pages_throws_example : update_pages [] 2 1 fourth_type ≡ none
update_pages_throws_example = update_pages_throws fourth_type 2 1 (omega arith) (omega arith)
