-- ===== src/Dmi/Table/Closed.antt =====
-- The search for the next handle finds the end of a string area.
use cpu_x.Shared.{ℕ, zero, suc, ◌+◌, ◌<◌}
use cpu_x.Shared.{
  some, List, [], ◌∷◌, ◌++◌, length, length-append, append_assoc, append-nil, All, arith,
}
use cpu_x.Shared.{◌≡◌, refl, ap, ◌∙◌, sym, get_elem?-append_right, suc-==-zero, lt→ltb, subst}
use cpu_x.Dmi.Memory.{Buffer, byte}
use cpu_x.Dmi.Strings.{Header}
use cpu_x.Dmi.Strings.RoundTrip.{NonZero, IsText, encoded}
use cpu_x.Dmi.Table.{find_next, next_handle}

-- The string area of a structure with the strings `ts`: each with its zero byte and one more; two
-- zero bytes where there is no string.
abbrev pub area : List (List ℕ) → List ℕ
area [] = 0 ∷ 0 ∷ []
area (t ∷ ts) = encoded (t ∷ ts) ++ (0 ∷ [])

-- Two zero bytes behind the list are the first ones.
abbrev HasNoPair : List ℕ → Type 0
HasNoPair [] = Unit
HasNoPair (suc c ∷ cs) = HasNoPair cs
HasNoPair (zero ∷ []) = ⊥
HasNoPair (zero ∷ zero ∷ cs) = ⊥
HasNoPair (zero ∷ suc c ∷ cs) = HasNoPair cs

-- One byte further.
onward : (pre cs : List ℕ) (c : ℕ) → pre ++ (c ∷ cs) ≡ (pre ++ (c ∷ [])) ++ cs
onward pre cs c = sym (append_assoc pre (c ∷ []) cs)

find_next-at :
    (cs pre post : List ℕ) (left : ℕ) (buf : Buffer)
    → buf ≡ pre ++ (cs ++ (0 ∷ 0 ∷ post))
    → HasNoPair cs
    → length cs < left
    → find_next left buf (length buf) (length pre) ≡ some (length pre + length cs)
unfolding find_next
find_next-at cs pre post zero buf e n lt = absurd (omega arith)
find_next-at [] pre post (suc left) buf e n lt =
    let a : byte buf (length pre) ≡ some 0 =
      ap (λ z. byte z (length pre)) e
      ∙ get_elem?-append_right pre (0 ∷ 0 ∷ post) 0 (length pre) (omega arith) in
    let b : byte buf (length pre + 1) ≡ some 0 =
      ap (λ z. byte z (length pre + 1)) e
      ∙ get_elem?-append_right pre (0 ∷ 0 ∷ post) 1 (length pre + 1) (omega arith) in
    let inside =
      lt→ltb (length pre + 1) (length buf)
        (omega (arith, ap length e, length-append pre (0 ∷ 0 ∷ post))) in
    rw (inside, a, b) (ap some (omega arith))
find_next-at (suc c ∷ cs) pre post (suc left) buf e n lt =
    let a : byte buf (length pre) ≡ some (suc c) =
      ap (λ z. byte z (length pre)) e
      ∙ get_elem?-append_right pre (suc c ∷ (cs ++ (0 ∷ 0 ∷ post))) 0 (length pre) (omega arith) in
    let inside = lt→ltb (length pre + 1) (length buf) (
      omega (
        arith,
        ap length e,
        length-append pre (suc c ∷ (cs ++ (0 ∷ 0 ∷ post))),
        length-append cs (0 ∷ 0 ∷ post),
      )) in
    let further =
      find_next-at cs (pre ++ (suc c ∷ [])) post left buf
        (e ∙ onward pre (cs ++ (0 ∷ 0 ∷ post)) (suc c)) n (omega arith) in
    let at : length (pre ++ (suc c ∷ [])) ≡ length pre + 1 = length-append pre (suc c ∷ []) in
    let shift : some (length (pre ++ (suc c ∷ [])) + length cs)
        ≡ some (length pre + suc (length cs)) =
      ap some (omega (arith, at)) in
    let next : find_next left buf (length buf) (length pre + 1)
        ≡ some (length pre + suc (length cs)) =
      subst (λ z. find_next left buf (length buf) z ≡ some (length pre + suc (length cs))) at
        (further ∙ shift) in
    rw (inside, a, suc-==-zero) next
find_next-at (zero ∷ []) pre post (suc left) buf e n lt = absurd n
find_next-at (zero ∷ zero ∷ cs) pre post (suc left) buf e n lt = absurd n
find_next-at (zero ∷ suc c ∷ cs) pre post (suc left) buf e n lt =
    let rest = suc c ∷ (cs ++ (0 ∷ 0 ∷ post)) in
    let a : byte buf (length pre) ≡ some 0 =
      ap (λ z. byte z (length pre)) e
      ∙ get_elem?-append_right pre (0 ∷ rest) 0 (length pre) (omega arith) in
    let b : byte buf (length pre + 1) ≡ some (suc c) =
      ap (λ z. byte z (length pre + 1)) e
      ∙ get_elem?-append_right pre (0 ∷ rest) 1 (length pre + 1) (omega arith) in
    let inside =
      lt→ltb (length pre + 1) (length buf) (
        omega
          (arith, ap length e, length-append pre (0 ∷ rest), length-append cs (0 ∷ 0 ∷ post))) in
    let further =
      find_next-at (suc c ∷ cs) (pre ++ (0 ∷ [])) post left buf (e ∙ onward pre rest 0) n
        (omega arith) in
    let at : length (pre ++ (0 ∷ [])) ≡ length pre + 1 = length-append pre (0 ∷ []) in
    let shift : some (length (pre ++ (0 ∷ [])) + suc (length cs))
        ≡ some (length pre + suc (suc (length cs))) =
      ap some (omega (arith, at)) in
    let next : find_next left buf (length buf) (length pre + 1)
        ≡ some (length pre + suc (suc (length cs))) =
      subst (λ z. find_next left buf (length buf) z ≡ some (length pre + suc (suc (length cs)))) at
        (further ∙ shift) in
    rw (inside, a, b, suc-==-zero) next

HasNoPair-append : (t cs : List ℕ) → All NonZero t → HasNoPair cs → HasNoPair (t ++ cs)
HasNoPair-append [] cs h k = k
HasNoPair-append (zero ∷ t) cs h k = absurd (h.0 refl)
HasNoPair-append (suc c ∷ t) cs h k = HasNoPair-append t cs h.1 k

-- The strings without the last zero byte.
abbrev unclosed : List ℕ → List (List ℕ) → List ℕ
unclosed t [] = t
unclosed t (u ∷ ts) = t ++ (0 ∷ unclosed u ts)

All-of_text : (t : List ℕ) → IsText t → All NonZero t
All-of_text [] h = absurd h
All-of_text (c ∷ cs) h = h

HasNoPair-zero : (u cs : List ℕ) → IsText u → HasNoPair (u ++ cs) → HasNoPair (0 ∷ (u ++ cs))
HasNoPair-zero [] cs h k = absurd h
HasNoPair-zero (zero ∷ u) cs h k = absurd (h.0 refl)
HasNoPair-zero (suc c ∷ u) cs h k = k

unclosed-start : (t : List ℕ) (ts : List (List ℕ)) → (cs : List ℕ) × (unclosed t ts ≡ t ++ cs)
unclosed-start t [] = ([], sym (append-nil t))
unclosed-start t (u ∷ ts) = (0 ∷ unclosed u ts, refl)

HasNoPair-unclosed :
    (t : List ℕ) (ts : List (List ℕ)) → IsText t → All IsText ts → HasNoPair (unclosed t ts)
HasNoPair-unclosed t [] h k =
    subst HasNoPair (append-nil t) (HasNoPair-append t [] (All-of_text t h) tt)
HasNoPair-unclosed t (u ∷ ts) h k =
    let rest = HasNoPair-unclosed u ts k.0 k.1 in
    let (cs, e) = unclosed-start u ts in
    HasNoPair-append t (0 ∷ unclosed u ts) (All-of_text t h)
      (subst (λ z. HasNoPair (0 ∷ z)) (sym e) (HasNoPair-zero u cs k.0 (subst HasNoPair e rest)))

encoded-unclosed : (t : List ℕ) (ts : List (List ℕ)) → encoded (t ∷ ts) ≡ unclosed t ts ++ (0 ∷ [])
encoded-unclosed t [] = refl
encoded-unclosed t (u ∷ ts) =
    ap (λ z. t ++ (0 ∷ z)) (encoded-unclosed u ts)
    ∙ sym (append_assoc t (0 ∷ unclosed u ts) (0 ∷ []))

-- Every area ends with the first two zero bytes in it.
area-split :
    (ts : List (List ℕ))
    → All IsText ts
    → (cs : List ℕ) × HasNoPair cs × (area ts ≡ cs ++ (0 ∷ 0 ∷ []))
area-split [] h = ([], tt, refl)
area-split (t ∷ ts) h = (
  unclosed t ts,
  HasNoPair-unclosed t ts h.0 h.1,
  ap (λ z. z ++ (0 ∷ [])) (encoded-unclosed t ts) ∙ append_assoc (unclosed t ts) (0 ∷ []) (0 ∷ []),
)

-- Where the formatted area of a structure is followed by the area of some strings, anywhere in
-- the block and with anything behind it, the next handle is found right behind that area.
pub next_handle-area :
    (pre post : List ℕ) (h : Header) (ts : List (List ℕ)) (buf : Buffer)
    → buf ≡ pre ++ (area ts ++ post)
    → h.start + h.length ≡ length pre
    → All IsText ts
    → next_handle buf (length buf) h ≡ some (length pre + length (area ts))
unfolding next_handle
next_handle-area pre post h ts buf e at i =
    let (cs, none_before, s) = area-split ts i in
    let e' : buf ≡ pre ++ (cs ++ (0 ∷ 0 ∷ post)) =
      e ∙ ap (λ z. pre ++ (z ++ post)) s ∙ ap (λ z. pre ++ z) (append_assoc cs (0 ∷ 0 ∷ []) post) in
    let size = ap length e' ∙ length-append pre (cs ++ (0 ∷ 0 ∷ post)) in
    let found =
      find_next-at cs pre post (suc (length buf)) buf e' none_before
        (omega (arith, size, length-append cs (0 ∷ 0 ∷ post))) in
    rw (at, found) (ap some (omega (arith, ap length s, length-append cs (0 ∷ 0 ∷ []))))
