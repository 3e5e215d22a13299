-- ===== src/Dmi/Cpux/Walk.antt =====
-- The walk of `dmi_table_decode` over a table as the SMBIOS standard has it, with the options that
-- CPU-X sets: which structures it hands on, and in which order.
use cpu_x.Shared.{ℕ, zero, suc, ◌+◌, ◌≤◌, ◌<◌, ltb, if◌then◌else◌, Bool, true, false}
use cpu_x.Shared.{
  some, List, [], ◌∷◌, ◌++◌, length, length-append, append_assoc, append-nil, All, arith,
}
use cpu_x.Shared.{◌≡◌, refl, ap, ◌∙◌, sym, ◌⊎◌, inl, inr, Bool-cases, ==-of_ne}
use cpu_x.Dmi.Memory.{Buffer}
use cpu_x.Dmi.Loop.{loop}
use cpu_x.Dmi.Strings.{Header}
use cpu_x.Dmi.Table.{Options, Globals, goes_on, to_dmi_header, next_handle}
use cpu_x.Dmi.Table.FirstPass.{first_pass_safe}
use cpu_x.Dmi.Decode.{Message, Pass, fixed_header, visit_structure, whole_step, structure_step}
use cpu_x.Dmi.Decode.{decode_step, second_pass, closing, dmi_table_decode}
use cpu_x.Dmi.Cpux.Table.{cpux_options}
use cpu_x.Dmi.Cpux.WellFormed.{
  Structure, IsStructure, structure_bytes, table_bytes, header_at, is_wanted, wanted, listed,
  is_displayed-wanted, to_dmi_header-at, next-at, fits_table,
}

ltb-of_le : (a b : ℕ) → b ≤ a → ltb a b ≡ false
ltb-of_le a b h = ground arith

goes_on-over : (num len n p : ℕ) → len < p + 4 → goes_on num len n p ≡ false
goes_on-over num len n p h = ground arith

goes_on-on : (num len n p : ℕ) → (num ≡ 0) ⊎ (n < num) → p + 4 ≤ len → goes_on num len n p ≡ true
goes_on-on num len n p h fits = ground arith

listed-then :
    (b : Bool) (st : List Header) (h : Header) (later : List Header)
    → (if b then st ++ (h ∷ []) else st) ++ later ≡ st ++ (if b then h ∷ later else later)
listed-then true st h later = append_assoc st (h ∷ []) later
listed-then false st h later = refl

module _ (no_quirks stop_at_eot : Bool) where
  abbrev o : Options
  o = cpux_options true no_quirks

  -- One round, on a structure of the table.
  step-at :
      (pre more : Buffer) (x : Structure) (buf : Buffer) (p n : ℕ) (log : List Message)
      (st : List Header)
      → buf ≡ pre ++ (structure_bytes x ++ more)
      → p ≡ length pre
      → IsStructure x
      → (log' : List Message) × (decode_step listed o stop_at_eot
            (length buf)
            (record { position = p; count = n; quiet = true; block = buf; log = log; state = st })
          ≡ some (
            true,
            record {
              position = p + length (structure_bytes x);
              count = n + 1;
              quiet = true;
              block = buf;
              log = log';
              state = if is_wanted x.type then st ++ (header_at p x ∷ []) else st;
            },
          ))
  unfolding decode_step structure_step whole_step fixed_header visit_structure cpux_options
  step-at pre more x buf p n log st e at ok =
      let r : to_dmi_header buf p ≡ some (header_at p x) =
        rw at (to_dmi_header-at pre more x buf e) in
      let d = is_displayed-wanted no_quirks (header_at p x) in
      let next : next_handle buf (length buf) (header_at p x)
          ≡ some (p + length (structure_bytes x)) =
        rw at (next-at pre more x buf e ok.0) in
      let inside =
        ltb-of_le (length buf) (p + length (structure_bytes x))
          (omega (arith, fits_table pre more x buf e)) in
      let long = ltb-of_le (length x.rest + 4) 4 (omega arith) in
      let not_127 = ==-of_ne x.type 127 ok.1 in
      let not_34 = ==-of_ne x.type 34 ok.2 in
      elim (Bool-cases (is_wanted x.type)) [
        | inl w ↦ (log ++ [], rw (r, long, not_127, d, w, next, inside, not_34) refl)
        | inr w ↦ (log ++ [], rw (r, long, not_127, d, w, next, inside, not_34) refl)
      ]

  -- All rounds, from any place in the table on.
  walk-at :
      (xs : List Structure) (pre buf : Buffer) (p n num fuel : ℕ) (log : List Message)
      (st : List Header)
      → buf ≡ pre ++ table_bytes xs
      → p ≡ length pre
      → All IsStructure xs
      → (num ≡ 0) ⊎ (n + length xs ≤ num)
      → length xs < fuel
      → (s : Pass (List Header)) × (second_pass listed fuel o stop_at_eot
            (length buf)
            num
            (record { position = p; count = n; quiet = true; block = buf; log = log; state = st })
          ≡ some s)
        × (s.state ≡ st ++ wanted p xs)
  unfolding second_pass loop
  walk-at xs pre buf p n num zero log st e at ok room lt = absurd (omega arith)
  walk-at [] pre buf p n num (suc fuel) log st e at ok room lt =
      let over =
        goes_on-over num (length buf) n p (omega (arith, ap length e, length-append pre [])) in
      (
        record { position = p; count = n; quiet = true; block = buf; log = log; state = st },
        rw over,
        sym (append-nil st),
      )
  walk-at (x ∷ xs) pre buf p n num (suc fuel) log st e at ok room lt =
      let on =
        goes_on-on num (length buf) n p (room_for room)
          (omega (arith, fits_table pre (table_bytes xs) x buf e)) in
      let st' = if is_wanted x.type then st ++ (header_at p x ∷ []) else st in
      let (log', r) = step-at pre (table_bytes xs) x buf p n log st e at ok.0 in
      let (s, rest, state) =
        walk-at xs (pre ++ structure_bytes x) buf (p + length (structure_bytes x)) (n + 1) num fuel
          log' st' (e ∙ sym (append_assoc pre (structure_bytes x) (table_bytes xs)))
          (omega (arith, length-append pre (structure_bytes x))) ok.1 (room_behind room)
          (omega arith) in
      (s, rw (on, r) rest, state ∙ listed-then (is_wanted x.type) st (header_at p x) _)
    where
      room_for : (num ≡ 0) ⊎ (n + suc (length xs) ≤ num) → (num ≡ 0) ⊎ (n < num)
      room_for (inl a) = inl a
      room_for (inr b) = inr (omega arith)

      room_behind : (num ≡ 0) ⊎ (n + suc (length xs) ≤ num) → (num ≡ 0) ⊎ (n + 1 + length xs ≤ num)
      room_behind (inl a) = inl a
      room_behind (inr b) = inr (omega arith)

length-table_bytes : (xs : List Structure) → length xs ≤ length (table_bytes xs)
length-table_bytes [] = omega arith
length-table_bytes (x ∷ xs) =
    omega (arith, length-table_bytes xs, length-append (structure_bytes x) (table_bytes xs))

-- On a table made of any structures in the form of the standard, none of them of type 34 or 127,
-- with their number announced, or a larger one, or none: the quiet walk for CPU-X hands on the
-- structures of the types 0, 2, 4 and 17, each once, in the order of the table, with their type,
-- length, handle and place.
pub dmi_table_decode-wanted :
    (no_quirks stop_at_eot : Bool) (xs : List Structure) (num : ℕ) (g : Globals)
    → All IsStructure xs
    → (num ≡ 0) ⊎ (length xs ≤ num)
    → (g' : Globals) × (s : Pass (List Header)) × (dmi_table_decode listed
          (cpux_options true no_quirks)
          (table_bytes xs)
          (length (table_bytes xs))
          num
          stop_at_eot
          g
          []
        ≡ some (g', s))
      × (s.state ≡ wanted 0 xs)
unfolding dmi_table_decode cpux_options
dmi_table_decode-wanted no_quirks stop_at_eot xs num g ok room =
    let buf = table_bytes xs in
    let (first, r, _) =
      first_pass_safe buf num (cpux_options true no_quirks)
        (record { position = 0; count = 0; globals = g }) (λ ne. omega arith) in
    let (s, walked, state) =
      walk-at no_quirks stop_at_eot xs [] buf 0 0 num (suc (length buf)) [] [] refl refl ok
        (elim room [ inl a ↦ inl a | inr b ↦ inr (omega arith) ])
        (omega (arith, length-table_bytes xs)) in
    (
      first.globals,
      record s { log = s.log ++ closing (length buf) num s },
      rw (r, walked) refl,
      state,
    )
