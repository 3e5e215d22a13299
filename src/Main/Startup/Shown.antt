-- ===== src/Main/Startup/Shown.antt =====
-- The pages when src/main.cpp starts an interface.
use cpu_x.Shared.{
  ℕ, zero, suc, ◌<◌, ltb, leb, Bool, true, List, [], ◌∷◌, length, get_elem?, get_elem?-some,
  get_elem?-set_ne, set, none, some, ◌≡◌, ◌≢◌, inl, inr, refl, subst, sym, ◌∙◌, arith, lt→ltb,
  ==-of_ne,
}
use cpu_x.Options.{Options}
use cpu_x.Options.Selected.{selected}
use cpu_x.Options.Selected.Sound.{settle, settled, selected-valid}
use cpu_x.Options.Pages.{
  get_page_visibility, selected_caches, set_page_visibility, set_page_visibility_auto,
  set_selected_page,
}
use cpu_x.Options.Pages.Moves.{visibility-cases}
use cpu_x.Options.Calls.{left_by}
use cpu_x.Options.Calls.Safe.{IsValid, settle-IsValid}
use cpu_x.Options.Calls.Paged.{set_page_visibility-IsValid, at_page-IsValid}
use cpu_x.Main.Startup.{update_pages}

-- Valid options whose first page is visible.
abbrev IsShown : Options → Type 0
IsShown o = IsValid o × (get_page_visibility o 0 ≡ some true)

some-injective {ℓ} : {A : Type ℓ} (x y : A) → some x ≡ some y → x ≡ y
some-injective x y h = cc

past_one : (t : ℕ) → 0 < t → get_elem? {A = ℕ} (0 ∷ []) t ≡ none
past_one zero h = absurd (omega arith)
past_one (suc t) h = refl

set_page_visibility-IsShown :
    (o : Options) (page : ℕ) (visible : Bool)
    → 0 < page
    → page < 8
    → IsShown o
    → (o' : Options) × (set_page_visibility o page visible ≡ some o') × IsShown o'
unfolding set_page_visibility
set_page_visibility-IsShown o page visible other is_page (h, first) =
    let (o', e, h') = set_page_visibility-IsValid o page visible is_page h in
    let shown = record o { page_visible = set o.page_visible page visible } in
    let e' : set_page_visibility o page visible ≡ some shown =
      rw (lt→ltb page (length o.page_visible) (omega (arith, h.has_pages))) refl in
    let same : shown ≡ o' = some-injective shown o' (sym e' ∙ e) in
    (
      o',
      e,
      (
        h',
        subst (λ p. get_page_visibility p 0 ≡ some true) same
            (get_elem?-set_ne o.page_visible page 0 visible (omega arith) ∙ first),
      ),
    )

selected_caches-settle :
    (o : Options) (caches : List ℕ) (n : ℕ)
    → length caches ≢ 0
    → get_elem? caches (settle o).selected_type.first ≡ some n
    → selected_caches o caches ≡ some (n, settle o)
unfolding selected_caches selected
selected_caches-settle o caches n some_caches found =
    rw (==-of_ne (length caches) 0 some_caches, found) refl

set_page_visibility_auto-IsShown :
    (o : Options) (caches : List ℕ) (sticks cards : ℕ)
    → IsShown o
    → length o.selected_core.second ≢ 0
    → length caches ≡ length o.selected_core.second
    → (o' : Options) × (set_page_visibility_auto o caches sticks cards ≡ some o') × IsShown o'
unfolding set_page_visibility_auto
set_page_visibility_auto-IsShown o caches sticks cards (h, first) some_types same =
    let one_of_types = (settled o h.sound some_types).0 in
    let (n, found) = get_elem?-some caches (settle o).selected_type.first (omega arith) in
    let (o₁, e₁, h₁) =
      set_page_visibility-IsShown (settle o) 1 (ltb 0 n) (omega arith) (omega arith)
        (settle-IsValid o h some_types, first) in
    let (o₂, e₂, h₂) =
      set_page_visibility-IsShown o₁ 3 (ltb 0 sticks) (omega arith) (omega arith) h₁ in
    let (o₃, e₃, h₃) =
      set_page_visibility-IsShown o₂ 5 (ltb 0 cards) (omega arith) (omega arith) h₂ in
    (o₃, rw (selected_caches-settle o caches n (omega arith) found, e₁, e₂, e₃) refl, h₃)

set_selected_page-Shown :
    (o : Options)
    → IsShown o
    → (o' : Options) × (left_by (set_selected_page o o.selected_page) ≡ some o')
      × IsValid o'
      × (get_page_visibility o' o'.selected_page ≡ some true)
unfolding set_selected_page
set_selected_page-Shown o (h, first) =
    let is_page : leb o.selected_page 7 ≡ true = ground (arith, h.page) in
    elim (visibility-cases o o.selected_page h.has_pages h.page) [
      | inl visible ↦ (o, rw (is_page, visible) refl, h, visible)
      | inr hidden ↦ (
        record o { selected_page = 0 },
        rw (is_page, hidden) refl,
        at_page-IsValid o 0 (omega arith) h,
        first,
      )
    ]

-- Where the options are valid, the first page is visible, the types of core are known and each has
-- an entry for its caches, `main` gets to the start of an interface with a selected page that is
-- visible, and with valid options.
pub update_pages-Shown :
    (o : Options) (caches : List ℕ) (sticks cards : ℕ)
    → IsValid o
    → get_page_visibility o 0 ≡ some true
    → length o.selected_core.second ≢ 0
    → length caches ≡ length o.selected_core.second
    → (o' : Options) × (update_pages caches sticks cards o ≡ some o')
      × IsValid o'
      × (get_page_visibility o' o'.selected_page ≡ some true)
unfolding update_pages
update_pages-Shown o caches sticks cards h first some_types same =
    let (o₁, e₁, h₁) =
      set_page_visibility_auto-IsShown o caches sticks cards (h, first) some_types same in
    let (o₂, e₂, h₂, shown) = set_selected_page-Shown o₁ h₁ in (o₂, rw e₁ e₂, h₂, shown)

-- Where a type other than the first is selected, within its bound, and there is no entry for any type,
-- because libcpuid failed, `main` ends by an exception before an interface starts.
pub update_pages_throws :
    (o : Options) (sticks cards : ℕ)
    → 0 < o.selected_type.first
    → o.selected_type.first < o.selected_type.second
    → update_pages [] sticks cards o ≡ none
unfolding update_pages set_page_visibility_auto selected_caches
update_pages_throws o sticks cards later valid =
    let past : get_elem? {A = ℕ} (0 ∷ []) o.selected_type.first ≡ none =
      past_one o.selected_type.first later in
    rw (selected-valid o.selected_type valid, past) refl
