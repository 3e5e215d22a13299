-- ===== src/Options/Calls/Parts.antt =====
-- Calls of src/options.cpp that do not touch what is known of the types and of the pages.
use cpu_x.Shared.{
  ℕ, ◌^◌, ◌<◌, ltb, leb, if◌then◌else◌, Bool, true, false, Bool-cases, Option-cases, List, length,
  get_elem?, ◌≡◌, ◌⊎◌, inl, inr, refl, ap, subst, arith,
}
use cpu_x.Options.{Options}
use cpu_x.Options.Selected.{check_valid, selected, get_selected_type}
use cpu_x.Options.Pages.{last_tab_number}
use cpu_x.Options.Settings.{
  set_output_type, set_refr_time, set_keymap, set_temp_unit, set_selected_test, out_dump, keymaps,
  temp_units,
}
use cpu_x.Options.Calls.Safe.{IsValid}

-- The parts of the options that `IsValid` is about.
abbrev pub parts : Options → ℕ × List ℕ × List Bool × ℕ × ℕ
parts o =
    (o.selected_type.second, o.selected_core.second, o.page_visible, o.selected_page, o.refr_time)

pub parts-IsValid : (o o' : Options) → parts o ≡ parts o' → IsValid o → IsValid o'
parts-IsValid o o' e h = record {
  sound = record {
    types_in_range = subst (λ n. n < 2 ^ 8) (ap (λ p. p.0) e) h.sound.types_in_range;
    known = subst (λ p. (length p.1 ≡ 0) ⊎ (length p.1 ≡ p.0)) e h.sound.known;
  };
  has_pages = subst (λ p. length p.2 ≡ last_tab_number) e h.has_pages;
  page = subst (λ p. p.3 < last_tab_number) e h.page;
  refresh = subst (λ p. 0 < p.4) e h.refresh;
}

pub get_selected_type-IsValid : (o : Options) → IsValid o → IsValid (get_selected_type o).1
unfolding selected check_valid
get_selected_type-IsValid o h =
    elim (Bool-cases (ltb o.selected_type.first o.selected_type.second)) [
      | inl valid ↦ rw valid h
      | inr past ↦ rw past (
          parts-IsValid o (record o { selected_type = record o.selected_type { first = 0 } }) refl
            h)
    ]

-- The settings that do not depend on the machine.
pub set_refr_time-IsValid : (o : Options) (n : ℕ) → IsValid o → IsValid (set_refr_time o n).1
unfolding set_refr_time
set_refr_time-IsValid o n h = elim (Bool-cases (leb 1 n)) [
  | inl valid ↦ rw valid (record {
    sound = record { types_in_range = h.sound.types_in_range; known = h.sound.known };
    has_pages = h.has_pages;
    page = h.page;
    refresh = ground arith;
  })
  | inr zero_time ↦ rw zero_time (record {
    sound = record { types_in_range = h.sound.types_in_range; known = h.sound.known };
    has_pages = h.has_pages;
    page = h.page;
    refresh = omega arith;
  })
]

if-parts :
    (o : Options) (b : Bool) (x y : Bool × Options)
    → parts o ≡ parts x.1
    → parts o ≡ parts y.1
    → parts o ≡ parts (if b then x else y).1
if-parts o true x y l r = l
if-parts o false x y l r = r

pub set_output_type-parts : (o : Options) (n : ℕ) → parts o ≡ parts (set_output_type o n).1
unfolding set_output_type
set_output_type-parts o n =
    if-parts o _ (true, record o { output_type = n }) (false, record o { output_type = out_dump })
      refl refl

pub set_selected_test-parts :
    (k : ℕ) (o : Options) (n : ℕ) → parts o ≡ parts (set_selected_test k o n).1
unfolding set_selected_test
set_selected_test-parts k o n =
    if-parts o _ (true, record o { selected_test = n }) (false, record o { selected_test = 0 }) refl
      refl

pub set_keymap-parts : (o : Options) (n : ℕ) → parts o ≡ parts (set_keymap o n).1
unfolding set_keymap
set_keymap-parts o n = elim (Option-cases (get_elem? keymaps n)) [
  | inl outside ↦ rw outside refl
  | inr (k, e) ↦ rw e refl
]

pub set_temp_unit-parts : (o : Options) (n : ℕ) → parts o ≡ parts (set_temp_unit o n).1
unfolding set_temp_unit
set_temp_unit-parts o n = elim (Option-cases (get_elem? temp_units n)) [
  | inl outside ↦ rw outside refl
  | inr (u, e) ↦ rw e refl
]
