-- ===== src/Options/Pages.antt =====
-- The pages of src/options.cpp: which are visible, and which is selected. The array has a place for
-- each page; an access past it is `none`.
pub mod Moves
use cpu_x.Shared.{
  ℕ, zero, suc, ◌-◌, ◌==◌, ltb, leb, if◌then◌else◌, Bool, true, false, List, [], ◌∷◌, length,
  get_elem?, set, Option, none, some,
}
use cpu_x.Dmi.Memory.{◌>>=◌}
use cpu_x.Options.{Options}
use cpu_x.Options.Selected.{repeated, get_selected_type}

-- The numbers of the enumeration `TabNumber`.
abbrev pub tab_cpu : ℕ
tab_cpu = 0

abbrev pub tab_caches : ℕ
tab_caches = 1

abbrev pub tab_memory : ℕ
tab_memory = 3

abbrev pub tab_graphics : ℕ
tab_graphics = 5

abbrev pub tab_about : ℕ
tab_about = 7

abbrev pub last_tab_number : ℕ
last_tab_number = 8

abbrev pub init_page_visibility : Options → Options
init_page_visibility o = record o { page_visible = repeated last_tab_number true }

unfoldable pub set_page_visibility : Options → ℕ → Bool → Option Options
set_page_visibility o page visible =
    if ltb page (length o.page_visible)
    then some (record o { page_visible = set o.page_visible page visible })
    else none

abbrev pub get_page_visibility : Options → ℕ → Option Bool
get_page_visibility o page = get_elem? o.page_visible page

-- `data.caches.get_selected_cpu_type().caches.size()`, where each type has so many caches: without
-- types, one is added, and an index past them throws.
unfoldable pub selected_caches : Options → List ℕ → Option (ℕ × Options)
selected_caches o caches =
    let (t, o') = get_selected_type o in
    get_elem? (if length caches == 0 then 0 ∷ [] else caches) t >>= λ n. some (n, o')

-- The two numbers are the sizes of the vectors of sticks and cards.
unfoldable pub set_page_visibility_auto : Options → List ℕ → ℕ → ℕ → Option Options
set_page_visibility_auto o caches sticks cards = selected_caches o caches >>= λ r.
    set_page_visibility r.1 tab_caches (ltb 0 r.0) >>= λ o₁.
    set_page_visibility o₁ tab_memory (ltb 0 sticks) >>= λ o₂.
    set_page_visibility o₂ tab_graphics (ltb 0 cards)

unfoldable pub set_selected_page : Options → ℕ → Option (Bool × Options)
set_selected_page o page =
    if leb page tab_about
    then (get_page_visibility o page >>= λ visible.
        if visible
        then some (true, record o { selected_page = page })
        else some (false, record o { selected_page = tab_cpu }))
    else some (false, record o { selected_page = tab_cpu })

-- The loops of `set_selected_page_next` and `set_selected_page_prev`, with `left` rounds at most.
unfoldable pub next_page : ℕ → Options → Option (Bool × Options)
next_page zero o = none
next_page (suc left) o =
    let o' = record o { selected_page = suc o.selected_page } in
    let rest = next_page left o' in
    if ltb o'.selected_page (last_tab_number - 1)
    then (get_page_visibility o' o'.selected_page >>= λ visible.
        if visible then some (true, o') else rest)
    else some (true, o')

unfoldable pub set_selected_page_next : Options → Option (Bool × Options)
set_selected_page_next o =
    if ltb o.selected_page (last_tab_number - 1)
    then next_page last_tab_number o
    else some (false, o)

unfoldable pub prev_page : ℕ → Options → Option (Bool × Options)
prev_page zero o = none
prev_page (suc left) o =
    let o' = record o { selected_page = o.selected_page - 1 } in
    let rest = prev_page left o' in
    if ltb 0 o'.selected_page
    then (get_page_visibility o' o'.selected_page >>= λ visible.
        if visible then some (true, o') else rest)
    else some (true, o')

unfoldable pub set_selected_page_prev : Options → Option (Bool × Options)
set_selected_page_prev o =
    if ltb 0 o.selected_page then prev_page last_tab_number o else some (false, o)
