-- ===== src/Options/Calls/Run.antt =====
-- Calls of src/options.cpp in any order: none throws, and the options stay well-formed.
use cpu_x.Shared.{
  ℕ, ◌^◌, ◌<◌, Bool, List, [], ◌∷◌, length, none, Option, some, ◌≡◌, ◌⊎◌, inl, inr, refl, subst,
  arith,
}
use cpu_x.Options.{Options, initial_options}
use cpu_x.Options.Selected.{
  get_selected_type, get_selected_core, get_selected_core_id, set_selected_core, set_selected_type,
}
use cpu_x.Options.Pages.{
  set_selected_page, set_selected_page_next, set_selected_page_prev, last_tab_number,
}
use cpu_x.Options.Calls.{
  set_cores_of_types, Flag, decimal_cpuid, colors, issue_report, daemon, cpu_temp, cpu_volt,
  cpu_freq, cpu_mult, set_flag, flag, types, cores, show_all_pages, show_pages_of, Call,
  cores_of_types, select_type, select_core, read_type, read_core, read_core_id, sticks,
  select_stick, read_stick, gpus, select_gpu, read_gpu, select_test, show_page, select_page,
  next_page, prev_page, output_type, refr_time, keymap, temp_unit, left_by, call, calls,
}
use cpu_x.Options.Calls.Safe.{
  IsValid, Returns, get_selected_core-IsValid, get_selected_core_id-IsValid,
  set_selected_core-IsValid, set_selected_type-IsValid,
}
use cpu_x.Options.Calls.Counts.{length-as_counts, set_cores_of_types-as_counts}
use cpu_x.Options.Calls.Parts.{
  parts, parts-IsValid, get_selected_type-IsValid, set_refr_time-IsValid, set_output_type-parts,
  set_selected_test-parts, set_keymap-parts, set_temp_unit-parts,
}
use cpu_x.Options.Calls.Sizes.{
  set_num_types-IsValid, set_num_cores-IsValid, init_page_visibility-IsValid,
  set_page_visibility_auto-IsValid,
}
use cpu_x.Options.Calls.Paged.{
  set_page_visibility-IsValid, set_selected_page-IsValid, set_selected_page_next-IsValid,
  set_selected_page_prev-IsValid,
}

-- The calls that the options allow: a number of types is a byte and a page one of the enumeration,
-- as their types in C say; and a type that a number of cores is set for, where the types are known, is one
-- of them, and so is the selected type among the entries for the caches, where it is not the first.
abbrev pub IsAllowed : Options → Call → Type 0
IsAllowed o (types n) = n < 2 ^ 8
IsAllowed o (cores t n) = (length o.selected_core.second ≡ 0) ⊎ (t < length o.selected_core.second)
IsAllowed o (cores_of_types counts) = length counts < 2 ^ 8
IsAllowed o (show_page page visible) = page < last_tab_number
IsAllowed o (show_pages_of caches m n) =
    ((get_selected_type o).0 ≡ 0) ⊎ ((get_selected_type o).0 < length caches)
IsAllowed o c = Unit

abbrev pub AllowsNext : Option Options → (Options → Type 0) → Type 0
AllowsNext none P = Unit
AllowsNext (some o) P = P o

-- Each of the calls is allowed by the options that those before it leave.
unfoldable pub AreAllowed : ℕ → Options → List Call → Type 0
AreAllowed last_test o [] = Unit
AreAllowed last_test o (c ∷ cs) =
    IsAllowed o c × AllowsNext (call last_test o c) (λ o'. AreAllowed last_test o' cs)

set_flag-parts : (f : Flag) (o : Options) (b : Bool) → parts o ≡ parts (set_flag f o b)
set_flag-parts decimal_cpuid o b = refl
set_flag-parts colors o b = refl
set_flag-parts issue_report o b = refl
set_flag-parts daemon o b = refl
set_flag-parts cpu_temp o b = refl
set_flag-parts cpu_volt o b = refl
set_flag-parts cpu_freq o b = refl
set_flag-parts cpu_mult o b = refl

returned {ℓ} :
    {A : Type ℓ} (r : Option (A × Options))
    → Returns (λ (s : A × Options). s.1) r
    → Returns (λ (o : Options). o) (left_by r)
returned r (s, e, h) = (s.1, rw e refl, h)

set_cores_of_types-IsValid :
    (counts : List ℕ) (o : Options)
    → length counts < 2 ^ 8
    → IsValid o
    → Returns (λ (r : Options). r) (set_cores_of_types counts o)
set_cores_of_types-IsValid counts o few h = (
  _,
  set_cores_of_types-as_counts counts o few,
  record {
    sound = record { types_in_range = few; known = inr (length-as_counts counts) };
    has_pages = h.has_pages;
    page = h.page;
    refresh = h.refresh;
  },
)

module _ (last_test : ℕ) where
  -- From valid options, every call that they allow returns, and leaves valid options.
  call-IsValid :
      (o : Options) (c : Call)
      → IsAllowed o c
      → IsValid o
      → Returns (λ (r : Options). r) (call last_test o c)
  unfolding call
  call-IsValid o (flag f b) a h = (_, refl, parts-IsValid o _ (set_flag-parts f o b) h)
  call-IsValid o (types n) a h = (_, refl, set_num_types-IsValid o n a h)
  call-IsValid o (cores t n) a h = set_num_cores-IsValid o t n a h
  call-IsValid o show_all_pages a h = (_, refl, init_page_visibility-IsValid o h)
  call-IsValid o (show_pages_of caches m n) a h = set_page_visibility_auto-IsValid o caches m n a h
  call-IsValid o (cores_of_types counts) a h = set_cores_of_types-IsValid counts o a h
  call-IsValid o (select_type n) a h =
      returned (set_selected_type o n) (set_selected_type-IsValid o n h)
  call-IsValid o (select_core n) a h =
      returned (set_selected_core o n) (set_selected_core-IsValid o n h)
  call-IsValid o read_type a h = (_, refl, get_selected_type-IsValid o h)
  call-IsValid o read_core a h = returned (get_selected_core o) (get_selected_core-IsValid o h)
  call-IsValid o read_core_id a h =
      returned (get_selected_core_id o) (get_selected_core_id-IsValid o h)
  call-IsValid o (sticks n) a h = (_, refl, parts-IsValid o _ refl h)
  call-IsValid o (select_stick n) a h = (_, refl, parts-IsValid o _ refl h)
  call-IsValid o read_stick a h = (_, refl, parts-IsValid o _ refl h)
  call-IsValid o (gpus n) a h = (_, refl, parts-IsValid o _ refl h)
  call-IsValid o (select_gpu n) a h = (_, refl, parts-IsValid o _ refl h)
  call-IsValid o read_gpu a h = (_, refl, parts-IsValid o _ refl h)
  call-IsValid o (select_test n) a h =
      (_, refl, parts-IsValid o _ (set_selected_test-parts last_test o n) h)
  call-IsValid o (show_page page visible) a h = set_page_visibility-IsValid o page visible a h
  call-IsValid o (select_page page) a h =
      returned (set_selected_page o page) (set_selected_page-IsValid o page h)
  call-IsValid o next_page a h =
      returned (set_selected_page_next o) (set_selected_page_next-IsValid o h)
  call-IsValid o prev_page a h =
      returned (set_selected_page_prev o) (set_selected_page_prev-IsValid o h)
  call-IsValid o (output_type n) a h = (_, refl, parts-IsValid o _ (set_output_type-parts o n) h)
  call-IsValid o (refr_time n) a h = (_, refl, set_refr_time-IsValid o n h)
  call-IsValid o (keymap n) a h = (_, refl, parts-IsValid o _ (set_keymap-parts o n) h)
  call-IsValid o (temp_unit n) a h = (_, refl, parts-IsValid o _ (set_temp_unit-parts o n) h)

  -- From valid options, every sequence of calls each of which is allowed by the options that those before it
  -- leave returns, and leaves valid options.
  pub calls-IsValid :
      (o : Options) (cs : List Call)
      → AreAllowed last_test o cs
      → IsValid o
      → Returns (λ (r : Options). r) (calls last_test o cs)
  unfolding calls AreAllowed
  calls-IsValid o [] a h = (o, refl, h)
  calls-IsValid o (c ∷ cs) (a, rest) h =
      let (o', e, h') = call-IsValid o c a h in
      let allowed = subst (λ r. AllowsNext r (λ o'. AreAllowed last_test o' cs)) e rest in
      let (o'', es, h'') = calls-IsValid o' cs allowed h' in (o'', rw e es, h'')

pub initial_options-IsValid : IsValid initial_options
initial_options-IsValid = record {
  sound = record { types_in_range = omega arith; known = inl refl };
  has_pages = refl;
  page = omega arith;
  refresh = omega arith;
}
