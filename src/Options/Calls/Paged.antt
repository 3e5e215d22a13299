-- ===== src/Options/Calls/Paged.antt =====
-- Calls of src/options.cpp about pages: they return, and the options stay well-formed.
use cpu_x.Shared.{
  ℕ, ◌<◌, ltb, leb, Bool, true, false, Bool-cases, length, length-set, get_elem?-some, set, inl,
  inr, refl, ◌∙◌, arith, lt→ltb,
}
use cpu_x.Options.{Options}
use cpu_x.Options.Pages.{
  set_page_visibility, set_selected_page, set_selected_page_next, set_selected_page_prev,
  last_tab_number,
}
use cpu_x.Options.Pages.Moves.{set_selected_page_next-IsNext}
use cpu_x.Options.Calls.Safe.{IsValid, Returns}

-- `set` keeps the length, so the array of visible pages keeps its own.
pub set_page_visibility-IsValid :
    (o : Options) (page : ℕ) (visible : Bool)
    → page < last_tab_number
    → IsValid o
    → Returns (λ (r : Options). r) (set_page_visibility o page visible)
unfolding set_page_visibility
set_page_visibility-IsValid o page visible is_page h = (
  record o { page_visible = set o.page_visible page visible },
  rw (lt→ltb page (length o.page_visible) (omega (arith, h.has_pages))) refl,
  record {
    sound = record { types_in_range = h.sound.types_in_range; known = h.sound.known };
    has_pages = length-set o.page_visible page visible ∙ h.has_pages;
    page = h.page;
    refresh = h.refresh;
  },
)

pub at_page-IsValid :
    (o : Options) (p : ℕ)
    → p < last_tab_number
    → IsValid o
    → IsValid (record o { selected_page = p })
at_page-IsValid o p is_page h = record {
  sound = record { types_in_range = h.sound.types_in_range; known = h.sound.known };
  has_pages = h.has_pages;
  page = is_page;
  refresh = h.refresh;
}

pub set_selected_page-IsValid :
    (o : Options) (page : ℕ)
    → IsValid o
    → Returns (λ (r : Bool × Options). r.1) (set_selected_page o page)
unfolding set_selected_page
set_selected_page-IsValid o page h = elim (Bool-cases (leb page 7)) [
  | inl is_page ↦
      (let (visible, found) = get_elem?-some o.page_visible page (ground (arith, h.has_pages)) in
        elim (Bool-cases visible) [
          | inl shown ↦ (
            (true, record o { selected_page = page }),
            rw (is_page, found, shown) refl,
            at_page-IsValid o page (ground arith) h,
          )
          | inr hidden ↦ (
            (false, record o { selected_page = 0 }),
            rw (is_page, found, hidden) refl,
            at_page-IsValid o 0 (omega arith) h,
          )
        ])
  | inr past ↦
      ((false, record o { selected_page = 0 }), rw past refl, at_page-IsValid o 0 (omega arith) h)
]

pub set_selected_page_next-IsValid :
    (o : Options) → IsValid o → Returns (λ (r : Bool × Options). r.1) (set_selected_page_next o)
unfolding set_selected_page_next
set_selected_page_next-IsValid o h = elim (Bool-cases (ltb o.selected_page 7)) [
  | inl more ↦
      (let (p, moved, i) = (set_selected_page_next-IsNext o h.has_pages h.page).0 (ground arith) in
        ((true, record o { selected_page = p }), moved, at_page-IsValid o p i.is_page h))
  | inr last ↦ ((false, o), rw last refl, h)
]

pub set_selected_page_prev-IsValid :
    (o : Options) → IsValid o → Returns (λ (r : Bool × Options). r.1) (set_selected_page_prev o)
unfolding set_selected_page_prev
set_selected_page_prev-IsValid o h = elim (Bool-cases (ltb 0 o.selected_page)) [
  | inl more ↦
      (let (p, moved, i) = (set_selected_page_next-IsNext o h.has_pages h.page).1 (ground arith) in
        (
          (true, record o { selected_page = p }),
          moved,
          at_page-IsValid o p (omega (arith, i.is_before, h.page)) h,
        ))
  | inr last ↦ ((false, o), rw last refl, h)
]
