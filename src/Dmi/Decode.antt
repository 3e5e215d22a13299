-- ===== src/Dmi/Decode.antt =====
-- The second pass of `dmi_table_decode` in core/dmidecode/dmidecode.c. What is done with a
-- structure (a dump, `dmi_decode_cpux`, `dmi_decode` or `dmi_table_string`) is a parameter.
pub mod Safety
use cpu_x.Shared.{
  ℕ, zero, suc, ◌+◌, ◌-◌, ◌^◌, ◌==◌, ltb, leb, if◌then◌else◌, Bool, true, false, ◌&&◌, ◌||◌, not,
}
use cpu_x.Shared.{Option, none, some, List, [], ◌∷◌, ◌++◌, take, drop, length}
use cpu_x.Dmi.Memory.{Buffer, byte, word, ◌>>=◌}
use cpu_x.Dmi.Loop.{loop}
use cpu_x.Dmi.Strings.{Header, is_printable}
use cpu_x.Dmi.Table.{Options, to_dmi_header, next_handle, goes_on, First, Globals, first_pass}

-- What the pass reports, on either stream.
pub data Message : Type 0 where
  invalid_length : ℕ → Message
  handle : Header → Message
  truncated : Message
  separator : Message
  fixed_up : ℕ → ℕ → Message
  wrong_count : ℕ → ℕ → Message
  wrong_length : ℕ → ℕ → Message

-- What is asked of the code behind a structure.
pub data Action : Type 0 where
  dump decode table_string : Action

abbrev pub report : Bool → List Message → List Message → List Message
report true more log = log ++ more
report false more log = log

unfoldable pub bytes_at : ℕ → Buffer → ℕ → Option (List ℕ)
bytes_at zero buf p = some []
bytes_at (suc n) buf p = do c ← byte buf p; cs ← bytes_at n buf (p + 1); some (c ∷ cs)

-- Some boards give type 34 a length of 0x10 where 0x0B is meant. The result is the length.
unfoldable pub dmi_fixup_type_34 : Buffer → Header → Option ℕ
dmi_fixup_type_34 buf h =
    let hidden = bytes_at (0x10 - 0x0B) buf (h.start + 0x0B) in
    if h.length == 0x10
    then (hidden >>= λ cs. some (if is_printable cs then 0x0B else h.length))
    else some h.length

abbrev pub is_absent : Option ℕ → Bool
is_absent none = true
is_absent (some t) = false

abbrev pub asks_for : Option ℕ → ℕ → Bool
asks_for none t = false
asks_for (some u) t = u == t

-- `display`: whether the structure is to be shown.
unfoldable pub is_displayed : Options → Bool → Header → Bool
is_displayed o quiet h =
    o.type h.type
    && (o.handle == 2 ^ 32 - 1 || o.handle == h.handle)
    && not (quiet && (h.type == 126 || h.type == 127))
    && is_absent o.string

-- The state of the pass: `quiet` is the flag of `opt.flags`, which a broken table sets, and
-- `state` belongs to the code behind the structures.
pub record Pass {ℓ} (S : Type ℓ) : Type ℓ where
  pub position : ℕ
  pub count : ℕ
  pub quiet : Bool
  pub block : Buffer
  pub log : List Message
  pub state : S

-- The length that the walk goes on with, and what is said about it.
unfoldable pub fixed_header :
    Options → Bool → Bool → Buffer → Header → Option (Header × List Message)
fixed_header o quiet display buf h =
    let fixed = dmi_fixup_type_34 buf h >>= λ l. some (
      record h { length = l },
      report (not quiet && display && not (l == h.length)) (fixed_up 0x10 0x0B ∷ []) [],
    ) in
    if h.type == 34 && not o.no_quirks then fixed else some (h, [])

module _ {ℓ} {S : Type ℓ} (visit : Action → Header → Buffer → S → Option (Buffer × S)) where
  -- The chain of tests that picks what is done with the structure.
  unfoldable pub visit_structure : Options → Bool → Header → Buffer → S → Option (Buffer × S)
  visit_structure o display h buf st =
      if display
      then visit (if o.dump then dump else decode) h buf st
      else if asks_for o.string h.type
      then visit table_string h buf st
      else some (buf, st)

  -- The end of a round, on a structure that fits the table.
  unfoldable pub whole_step : Options → Bool → Bool → Header → ℕ → Pass S → Option (Bool × Pass S)
  whole_step o stop_at_eot display h next s = do
    (h', said) ← fixed_header o s.quiet display s.block h
    (block', state') ← visit_structure o display h' s.block s.state
    some (
      not (h.type == 127 && stop_at_eot),
      record s {
        position = next;
        block = block';
        log = report (display && o.dump) (separator ∷ []) (s.log ++ said);
        state = state';
      },
    )

  -- A round of the second pass from the search for the next handle on.
  unfoldable pub structure_step :
      Options → Bool → ℕ → Header → Bool → Pass S → Option (Bool × Pass S)
  structure_step o stop_at_eot len h display s =
      let log' = report (display && (not s.quiet || o.dump)) (handle h ∷ []) s.log in
      next_handle s.block len h >>= λ next.
      if ltb len next
      then some (
        false,
        record s {
          position = next;
          log = report (display && not s.quiet) (truncated ∷ []) log' ++ (separator ∷ []);
        },
      )
      else whole_step o stop_at_eot display h next (record s { log = log' })

  -- One round of the second pass: whether it goes on, and the state.
  unfoldable pub decode_step : Options → Bool → ℕ → Pass S → Option (Bool × Pass S)
  decode_step o stop_at_eot len s = to_dmi_header s.block s.position >>= λ h.
      if ltb h.length 4
      then some (
        false,
        record s { log = report (not s.quiet) (invalid_length h.length ∷ []) s.log; quiet = true },
      )
      else if s.quiet && h.type == 127
      then some (false, record s { count = s.count + 1 })
      else structure_step o stop_at_eot len h (is_displayed o s.quiet h)
          (record s { count = s.count + 1 })

  -- The second pass, with `fuel` rounds at most.
  unfoldable pub second_pass : ℕ → Options → Bool → ℕ → ℕ → Pass S → Option (Pass S)
  second_pass fuel o stop_at_eot len num s =
      loop fuel (λ s. goes_on num len s.count s.position) (decode_step o stop_at_eot len) s

-- The complaints at the end: a wrong count, and a wrong length.
unfoldable pub closing {ℓ} : {S : Type ℓ} → ℕ → ℕ → Pass S → List Message
closing len num s =
    let count = report (not (num == 0) && not (s.count == num)) (wrong_count num s.count ∷ []) [] in
    if s.quiet
    then []
    else report (ltb len s.position || (not (num == 0) && ltb s.position len))
        (wrong_length len s.position ∷ []) count

unfoldable pub dmi_table_decode {ℓ} :
    {S : Type ℓ}
    → (Action → Header → Buffer → S → Option (Buffer × S))
    → Options
    → Buffer
    → ℕ
    → ℕ
    → Bool
    → Globals
    → S
    → Option (Globals × Pass S)
dmi_table_decode visit o buf len num stop_at_eot g st =
    let start : First = record { position = 0; count = 0; globals = g } in
    first_pass (suc len) o buf len num start >>= λ first.
    second_pass visit (suc len) o stop_at_eot len num
      (record { position = 0; count = 0; quiet = o.quiet; block = buf; log = []; state = st })
    >>= λ s. some (first.globals, record s { log = s.log ++ closing len num s })
