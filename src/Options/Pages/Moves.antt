-- ===== src/Options/Pages/Moves.antt =====
-- Where `set_selected_page_next` and `set_selected_page_prev` of src/options.cpp go.
use cpu_x.Shared.{
  ℕ, zero, suc, ◌+◌, ◌-◌, ◌<◌, ◌≤◌, ltb, true, false, Bool-cases, length, get_elem?-some, some, ◌≡◌,
  ◌⊎◌, inl, inr, refl, ap, ◌∙◌, arith, lt→ltb,
}
use cpu_x.Dmi.Memory.{◌>>=◌}
use cpu_x.Options.{Options}
use cpu_x.Options.Pages.{
  last_tab_number, get_page_visibility, next_page, prev_page, set_selected_page_next,
  set_selected_page_prev,
}

-- The options with another selected page.
abbrev pub at_page : Options → ℕ → Options
at_page o p = record o { selected_page = p }

-- The array of visible pages is as long as it is declared.
abbrev pub HasPages : Options → Type 0
HasPages o = length o.page_visible ≡ last_tab_number

-- `p` is the first visible page after page `a`, or the last page, and all between are hidden.
pub record IsNext (o : Options) (a p : ℕ) : Type 0 where
  pub is_after : a < p
  pub is_page : p < last_tab_number
  pub hidden : (q : ℕ) → a < q → q < p → get_page_visibility o q ≡ some false
  pub shown : (p ≡ last_tab_number - 1) ⊎ (get_page_visibility o p ≡ some true)

-- `p` is the last visible page before page `a`, or the first page, and all between are hidden.
pub record IsPrev (o : Options) (a p : ℕ) : Type 0 where
  pub is_before : p < a
  pub hidden : (q : ℕ) → p < q → q < a → get_page_visibility o q ≡ some false
  pub shown : (p ≡ 0) ⊎ (get_page_visibility o p ≡ some true)

pub visibility-cases :
    (o : Options) (p : ℕ)
    → HasPages o
    → p < last_tab_number
    → (get_page_visibility o p ≡ some true) ⊎ (get_page_visibility o p ≡ some false)
visibility-cases o p h is_page =
    let (visible, found) = get_elem?-some o.page_visible p (omega (arith, h)) in
    elim (Bool-cases visible) [
      | inl shown ↦ inl (found ∙ ap some shown)
      | inr hidden ↦ inr (found ∙ ap some hidden)
    ]

hidden_from :
    (o : Options) (a p : ℕ)
    → get_page_visibility o a ≡ some false
    → ((q : ℕ) → a < q → q < p → get_page_visibility o q ≡ some false)
    → (q : ℕ) → a < suc q
    → q < p
    → get_page_visibility o q ≡ some false
hidden_from o a p first rest q l r = elim (Bool-cases (ltb a q)) [
  | inl past ↦ rest q (ground arith) r
  | inr same ↦ ap (get_page_visibility o) (ground arith) ∙ first
]

hidden_to :
    (o : Options) (p a : ℕ)
    → get_page_visibility o a ≡ some false
    → ((q : ℕ) → p < q → q < a → get_page_visibility o q ≡ some false)
    → (q : ℕ) → p < q
    → q < suc a
    → get_page_visibility o q ≡ some false
hidden_to o p a last rest q l r = elim (Bool-cases (ltb q a)) [
  | inl before ↦ rest q l (ground arith)
  | inr same ↦ ap (get_page_visibility o) (ground arith) ∙ last
]

next_page-IsNext :
    (left : ℕ) (o : Options)
    → HasPages o
    → o.selected_page < last_tab_number - 1
    → last_tab_number ≤ o.selected_page + left
    → (p : ℕ) × (next_page left o ≡ some (true, at_page o p)) × IsNext o o.selected_page p
unfolding next_page
next_page-IsNext zero o h more enough = absurd (omega arith)
next_page-IsNext (suc left) o h more enough =
    let a = o.selected_page in
    elim (Bool-cases (ltb (suc a) (last_tab_number - 1))) [
      | inl inner ↦ elim (visibility-cases o (suc a) h (omega arith)) [
        | inl visible ↦ (
          suc a,
          rw (inner, visible) refl,
          record {
            is_after = omega arith;
            is_page = omega arith;
            hidden = λ q l r. absurd (omega arith);
            shown = inr visible;
          },
        )
        | inr invisible ↦
            (let (p, moved, i) =
                next_page-IsNext left (at_page o (suc a)) h (ground arith) (omega arith) in
              (
                p,
                rw (inner, invisible) moved,
                record {
                  is_after = omega (arith, i.is_after);
                  is_page = i.is_page;
                  hidden = λ q l r. hidden_from o (suc a) p invisible i.hidden q (omega arith) r;
                  shown = i.shown;
                },
              ))
      ]
      | inr last ↦ (
        suc a,
        rw last refl,
        record {
          is_after = omega arith;
          is_page = omega arith;
          hidden = λ q l r. absurd (omega arith);
          shown = inl (ground arith);
        },
      )
    ]

prev_page-IsPrev :
    (left : ℕ) (o : Options)
    → HasPages o
    → 0 < o.selected_page
    → o.selected_page < last_tab_number
    → o.selected_page < left
    → (p : ℕ) × (prev_page left o ≡ some (true, at_page o p)) × IsPrev o o.selected_page p
unfolding prev_page
prev_page-IsPrev zero o h more is_page enough = absurd (omega arith)
prev_page-IsPrev (suc left) o h more is_page enough =
    let a = o.selected_page in
    elim (Bool-cases (ltb 0 (a - 1))) [
      | inl inner ↦ elim (visibility-cases o (a - 1) h (omega arith)) [
        | inl visible ↦ (
          a - 1,
          rw (inner, visible) refl,
          record {
            is_before = omega arith;
            hidden = λ q l r. absurd (omega arith);
            shown = inr visible;
          },
        )
        | inr invisible ↦
            (let (p, moved, i) =
                prev_page-IsPrev left (at_page o (a - 1)) h (ground arith) (omega arith)
                  (omega arith) in
              (
                p,
                rw (inner, invisible) moved,
                record {
                  is_before = omega (arith, i.is_before);
                  hidden = λ q l r. hidden_to o p (a - 1) invisible i.hidden q l (omega arith);
                  shown = i.shown;
                },
              ))
      ]
      | inr last ↦ (
        a - 1,
        rw last refl,
        record {
          is_before = omega arith;
          hidden = λ q l r. absurd (omega arith);
          shown = inl (ground arith);
        },
      )
    ]

not_between : (o : Options) (a p p' : ℕ) → IsPrev o a p → IsPrev o a p' → ¬ (p < p')
not_between o a p p' i j below = elim j.shown [
  | inl first ↦ absurd (omega arith)
  | inr shown ↦ (let hidden = i.hidden p' below j.is_before in absurd (cc))
]

IsPrev-unique : (o : Options) (a p p' : ℕ) → IsPrev o a p → IsPrev o a p' → p ≡ p'
IsPrev-unique o a p p' i j = omega (arith, not_between o a p p' i j, not_between o a p' p j i)

-- Where the array of visible pages has its length and the selected page is not the last,
-- `set_selected_page_next` returns true and changes nothing but the selected page, which becomes the
-- first visible page after it, or the last page; and `set_selected_page_prev`, where it is not the
-- first, the last visible page before it, or the first page.
pub set_selected_page_next-IsNext :
    (o : Options)
    → HasPages o
    → o.selected_page < last_tab_number
    → (o.selected_page < last_tab_number - 1
        → (p : ℕ) × (set_selected_page_next o ≡ some (true, at_page o p))
          × IsNext o o.selected_page p)
      × (0 < o.selected_page
          → (p : ℕ) × (set_selected_page_prev o ≡ some (true, at_page o p))
            × IsPrev o o.selected_page p)
unfolding set_selected_page_next set_selected_page_prev
set_selected_page_next-IsNext o h is_page = (
  λ more.
      let (p, moved, i) = next_page-IsNext last_tab_number o h more (omega arith) in
      (p, rw (lt→ltb o.selected_page (last_tab_number - 1) more) moved, i),
  λ more.
      let (p, moved, i) = prev_page-IsPrev last_tab_number o h more is_page (omega arith) in
      (p, rw (lt→ltb 0 o.selected_page more) moved, i),
)

-- Where the selected page is visible, or the first, and not the last, the next page and then the
-- previous one is the selected page again, with no change of the options.
pub set_selected_page_prev-set_selected_page_next :
    (o : Options)
    → HasPages o
    → o.selected_page < last_tab_number - 1
    → (o.selected_page ≡ 0) ⊎ (get_page_visibility o o.selected_page ≡ some true)
    → (set_selected_page_next o >>= λ r. set_selected_page_prev r.1) ≡ some (true, o)
set_selected_page_prev-set_selected_page_next o h more shown =
    let (p, moved, i) = (set_selected_page_next-IsNext o h (omega arith)).0 more in
    let back : IsPrev o p o.selected_page = record {
      is_before = i.is_after;
      hidden = λ q l r. i.hidden q l r;
      shown = shown;
    } in
    let (p', moved', j) =
      (set_selected_page_next-IsNext (at_page o p) h i.is_page).1 (omega (arith, i.is_after)) in
    let j' : IsPrev o p p' = record {
      is_before = j.is_before;
      hidden = j.hidden;
      shown = j.shown;
    } in
    rw moved
      (moved' ∙ ap (λ q. some (true, at_page o q)) (IsPrev-unique o p p' o.selected_page j' back))
