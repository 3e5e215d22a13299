-- ===== src/Dmi/Table/Safety.antt =====
-- The search for the next handle and the first pass stay inside the table and come to an end.
use cpu_x.Shared.{ℕ, zero, suc, ◌+◌, ◌*◌, ◌^◌, ◌≤◌, ◌<◌}
use cpu_x.Shared.{Option, some, length, arith}
use cpu_x.Shared.{◌≡◌, refl, inl, inr}
use cpu_x.Shared.{get_elem?-some}
use native.Mathlib.Decide.{dec_lt}
use cpu_x.Dmi.Memory.{Buffer, byte, word}
use cpu_x.Dmi.Strings.{Header}
use cpu_x.Dmi.Strings.Safety.{IsTerminated, char_cases}
use cpu_x.Dmi.Table.{to_dmi_header, find_next, next_handle}

-- A structure's header can be read where four bytes are left.
pub to_dmi_header_safe :
    (buf : Buffer) (p : ℕ)
    → p + 4 ≤ length buf
    → (h : Header) × (to_dmi_header buf p ≡ some h) × (h.start ≡ p)
unfolding to_dmi_header word
to_dmi_header_safe buf p fits =
    let (t, rt) = get_elem?-some buf p (omega arith) in
    let (l, rl) = get_elem?-some buf (p + 1) (omega arith) in
    let (a, ra) = get_elem?-some buf (p + 2) (omega arith) in
    let (b, rb) = get_elem?-some buf (p + 2 + 1) (omega arith) in
    (record { type = t; length = l; handle = a + b * 2 ^ 8; start = p }, rw (rt, rl, ra, rb), refl)

-- Where the search ends, two zero bytes lie in the table or fewer than two bytes are left.
abbrev EndsAt : Buffer → ℕ → Option ℕ → Type 0
EndsAt buf n found =
    (m : ℕ) × (found ≡ some m)
    × (n ≤ m)
    × (m + 2 ≤ length buf → (byte buf m ≡ some 0) × (byte buf (m + 1) ≡ some 0))

find_next_outside :
    (left : ℕ) (buf : Buffer) (n : ℕ)
    → length buf ≤ n + 1
    → EndsAt buf n (find_next (suc left) buf (length buf) n)
unfolding find_next
find_next_outside left buf n h = (n, ground arith, omega arith, λ fits. absurd (omega arith))

-- A round in range ends on two zeros, and goes on otherwise.
find_next_round :
    (left : ℕ) (buf : Buffer) (n : ℕ)
    → n + 1 < length buf
    → EndsAt buf (n + 1) (find_next left buf (length buf) (n + 1))
    → EndsAt buf n (find_next (suc left) buf (length buf) n)
unfolding find_next
find_next_round left buf n h (m, e, le, ends) = elim (char_cases buf n (omega arith)) [
  | inr (c, r) ↦ (m, ground (arith, r, e), omega arith, ends)
  | inl r ↦ elim (char_cases buf (n + 1) h) [
    | inr (c, r') ↦ (m, ground (arith, r, r', e), omega arith, ends)
    | inl r' ↦ (n, ground (arith, r, r'), omega arith, λ fits. (r, r'))
  ]
]

find_next_safe :
    (left : ℕ) (buf : Buffer) (n : ℕ)
    → length buf ≤ n + left
    → EndsAt buf n (find_next (suc left) buf (length buf) n)
find_next_safe zero buf n h = find_next_outside zero buf n (omega arith)
find_next_safe (suc left) buf n h = elim (dec_lt (n + 1) (length buf)) [
  | yes inside ↦
      find_next_round (suc left) buf n inside (find_next_safe left buf (n + 1) (omega arith))
  | no outside ↦ find_next_outside (suc left) buf n (omega arith)
]

-- The next handle is found for every header, at least two bytes behind the formatted area. If it
-- lies in the table, the structure's string area is closed by two zero bytes.
pub next_handle_safe :
    (buf : Buffer) (h : Header)
    → (next : ℕ) × (next_handle buf (length buf) h ≡ some next)
      × (h.start + h.length + 2 ≤ next)
      × (next ≤ length buf → (e : ℕ) × (next ≡ e + 2) × IsTerminated buf h e)
unfolding next_handle
next_handle_safe buf h =
    let (m, e, le, ends) = find_next_safe (length buf) buf (h.start + h.length) (omega arith) in
    (
      m + 2,
      rw e,
      omega arith,
      λ fits. (m, refl, record { fits = le; last = (ends fits).0; after = (ends fits).1 }),
    )
