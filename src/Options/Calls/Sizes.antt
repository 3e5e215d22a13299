-- ===== src/Options/Calls/Sizes.antt =====
-- Calls of src/options.cpp with numbers of the data: the types, their cores and their caches. They
-- return where the type is one of those known, and the options stay well-formed.
use cpu_x.Shared.{
  ℕ, suc, ◌-◌, true, ◌==◌, ◌^◌, ◌<◌, ltb, if◌then◌else◌, List, [], ◌∷◌, length, length-set,
  get_elem?, get_elem?-some, set, some, ◌≡◌, ◌⊎◌, inl, inr, refl, ◌∙◌, arith, ==-of_ne,
}
use cpu_x.Options.{Options}
use cpu_x.Options.Selected.{get_selected_type, set_num_types, set_num_cores}
use cpu_x.Options.Pages.{
  set_page_visibility_auto, selected_caches, last_tab_number, init_page_visibility,
}
use cpu_x.Options.Calls.Safe.{IsValid, Returns}
use cpu_x.Options.Calls.Counts.{length-repeated}
use cpu_x.Options.Calls.Parts.{get_selected_type-IsValid}
use cpu_x.Options.Calls.Paged.{set_page_visibility-IsValid}

pub set_num_types-IsValid :
    (o : Options) (n : ℕ) → n < 2 ^ 8 → IsValid o → IsValid (set_num_types o n)
unfolding set_num_types
set_num_types-IsValid o n is_byte h = record {
  sound = record { types_in_range = is_byte; known = inr (length-repeated n (2 ^ 16 - 1)) };
  has_pages = h.has_pages;
  page = h.page;
  refresh = h.refresh;
}

pub set_num_cores-IsValid :
    (o : Options) (t n : ℕ)
    → (length o.selected_core.second ≡ 0) ⊎ (t < length o.selected_core.second)
    → IsValid o
    → Returns (λ (r : Options). r) (set_num_cores o t n)
unfolding set_num_cores
set_num_cores-IsValid o t n (inl unknown) h = (o, rw unknown refl, h)
set_num_cores-IsValid o t n (inr one_of_types) h =
    let counts = o.selected_core.second in
    let (m, found) = get_elem?-some counts t one_of_types in
    let same = length-set counts t n in
    (
      record o { selected_core = record o.selected_core { second = set counts t n } },
      rw (==-of_ne (length counts) 0 (omega arith), found) refl,
      record {
        sound = record {
          types_in_range = h.sound.types_in_range;
          known = elim h.sound.known [
            | inl unknown ↦ inl (same ∙ unknown)
            | inr known ↦ inr (same ∙ known)
          ];
        };
        has_pages = h.has_pages;
        page = h.page;
        refresh = h.refresh;
      },
    )

pub init_page_visibility-IsValid : (o : Options) → IsValid o → IsValid (init_page_visibility o)
init_page_visibility-IsValid o h = record {
  sound = record { types_in_range = h.sound.types_in_range; known = h.sound.known };
  has_pages = length-repeated last_tab_number true;
  page = h.page;
  refresh = h.refresh;
}

-- A type has an entry for its caches where it is inside them, or where it is the first: one is added
-- where there is none.
caches_of :
    (caches : List ℕ) (t : ℕ)
    → (t ≡ 0) ⊎ (t < length caches)
    → (n : ℕ) × (get_elem? (if length caches == 0 then 0 ∷ [] else caches) t ≡ some n)
caches_of [] t (inl first) = (0, rw first refl)
caches_of [] t (inr h) = absurd (omega arith)
caches_of (m ∷ caches) t (inl first) =
    (m, rw (==-of_ne (suc (length caches)) 0 (omega arith), first) refl)
caches_of (m ∷ caches) t (inr h) =
    rw (==-of_ne (suc (length caches)) 0 (omega arith)) (get_elem?-some (m ∷ caches) t h)

pub set_page_visibility_auto-IsValid :
    (o : Options) (caches : List ℕ) (sticks cards : ℕ)
    → ((get_selected_type o).0 ≡ 0) ⊎ ((get_selected_type o).0 < length caches)
    → IsValid o
    → Returns (λ (r : Options). r) (set_page_visibility_auto o caches sticks cards)
unfolding set_page_visibility_auto selected_caches
set_page_visibility_auto-IsValid o caches sticks cards one_of h =
    let (n, found) = caches_of caches (get_selected_type o).0 one_of in
    let (o₁, e₁, h₁) =
      set_page_visibility-IsValid (get_selected_type o).1 1 (ltb 0 n) (omega arith)
        (get_selected_type-IsValid o h) in
    let (o₂, e₂, h₂) = set_page_visibility-IsValid o₁ 3 (ltb 0 sticks) (omega arith) h₁ in
    let (o₃, e₃, h₃) = set_page_visibility-IsValid o₂ 5 (ltb 0 cards) (omega arith) h₂ in
    (o₃, rw (found, e₁, e₂, e₃) refl, h₃)
