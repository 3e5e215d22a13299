-- ===== src/Dmi/Decode/Safety.antt =====
-- `dmi_table_decode` on any bytes: it stays inside the table and comes to an end.
use cpu_x.Shared.{
  ℕ, zero, suc, ◌+◌, ◌-◌, ◌≤◌, ◌<◌, ◌==◌, ltb, if◌then◌else◌, Bool, true, false, ◌||◌, ◌&&◌, not,
}
use cpu_x.Shared.{Option, some, List, [], ◌∷◌, ◌++◌, length, arith}
use cpu_x.Shared.{◌≡◌, ◌≢◌, refl, ◌∙◌, inl, inr, subst, Bool-cases}
use cpu_x.Shared.{lt-of_get_elem?}
use cpu_x.Shared.{All}
use cpu_x.Dmi.Memory.{IsByte, Buffer}
use cpu_x.Dmi.Memory.Reads.{Defined, byte-Defined}
use cpu_x.Dmi.Loop.{Keeps, loop-Keeps}
use cpu_x.Dmi.Strings.{Header, is_printable}
use cpu_x.Dmi.Strings.Safety.{IsTerminated}
use cpu_x.Dmi.Table.{Options, Globals, goes_on, next_handle}
use cpu_x.Dmi.Table.Safety.{to_dmi_header_safe, next_handle_safe}
use cpu_x.Dmi.Table.FirstPass.{Counted, first_pass_safe}
use cpu_x.Dmi.Decode.{Action, Message, Pass, dump, decode, table_string, bytes_at, report, closing}
use cpu_x.Dmi.Decode.{dmi_fixup_type_34, fixed_header, visit_structure, whole_step, is_displayed}
use cpu_x.Dmi.Decode.{structure_step, decode_step, second_pass, dmi_table_decode, asks_for}
use cpu_x.Dmi.Decode.{separator, handle, truncated, invalid_length, fixed_up}

bytes_at-Defined : (n : ℕ) (buf : Buffer) (p : ℕ) → p + n ≤ length buf → Defined (bytes_at n buf p)
unfolding bytes_at
bytes_at-Defined zero buf p h = ([], refl)
bytes_at-Defined (suc n) buf p h =
    let (c, rc) = byte-Defined buf p (omega arith) in
    let (cs, rcs) = bytes_at-Defined n buf (p + 1) (omega arith) in (c ∷ cs, rw (rc, rcs))

-- The fixed length is read from the structure, and the structure stays terminated.
dmi_fixup_type_34_safe :
    (buf : Buffer) (h : Header)
    → h.start + h.length ≤ length buf
    → (l : ℕ) × (dmi_fixup_type_34 buf h ≡ some l) × (l ≤ h.length)
unfolding dmi_fixup_type_34
dmi_fixup_type_34_safe buf h fits = elim (Bool-cases (h.length == 0x10)) [
  | inr other ↦ (h.length, rw other, omega arith)
  | inl same ↦
      let (cs, r) = bytes_at-Defined 5 buf (h.start + 0x0B) (ground arith) in
      elim (Bool-cases (is_printable cs)) [
        | inl p ↦ (0x0B, rw (same, r, p), ground arith)
        | inr p ↦ (h.length, rw (same, r, p), omega arith)
      ]
]

fixed_header_safe :
    (o : Options) (quiet display : Bool) (buf : Buffer) (h : Header) (e : ℕ)
    → IsTerminated buf h e
    → (h' : Header) × (said : List Message) × (fixed_header o quiet display buf h ≡ some (h', said))
      × IsTerminated buf h' e
unfolding fixed_header
fixed_header_safe o quiet display buf h e w = elim (Bool-cases (h.type == 34 && not o.no_quirks)) [
  | inr other ↦ (h, [], rw other, w)
  | inl fixes ↦
      let (l, r, le) =
        dmi_fixup_type_34_safe buf h (omega (arith, w.fits, lt-of_get_elem? buf (e + 1) w.after)) in
      (
        record h { length = l },
        report (not quiet && display && not (l == h.length)) (fixed_up 0x10 0x0B ∷ []) [],
        rw (fixes, r),
        record { fits = omega (arith, w.fits); last = w.last; after = w.after },
      )
]

-- What the decoder asks of the code behind a structure: on a structure with a terminated string
-- area it returns, and the block keeps its length.
abbrev pub Visits {ℓ} : {S : Type ℓ} → (Action → Header → Buffer → S → Option (Buffer × S)) → Type ℓ
Visits {S} visit =
    (a : Action) (h : Header) (buf : Buffer) (st : S) (e : ℕ)
    → All IsByte buf
    → IsTerminated buf h e
    → (buf' : Buffer) × (st' : S) × (visit a h buf st ≡ some (buf', st'))
      × (length buf' ≡ length buf)
      × All IsByte buf'

-- The same, where it also keeps what holds of its own state.
abbrev pub VisitsKeeping {ℓ} :
    {S : Type ℓ} → (S → Type 0) → (Action → Header → Buffer → S → Option (Buffer × S)) → Type ℓ
VisitsKeeping {S} Kept visit =
    (a : Action) (h : Header) (buf : Buffer) (st : S) (e : ℕ)
    → All IsByte buf
    → IsTerminated buf h e
    → Kept st
    → (buf' : Buffer) × (st' : S) × (visit a h buf st ≡ some (buf', st'))
      × (length buf' ≡ length buf)
      × All IsByte buf'
      × Kept st'

module _ {ℓ} {S : Type ℓ} (Kept : S → Type 0)
    (visit : Action → Header → Buffer → S → Option (Buffer × S)) (visits : VisitsKeeping Kept visit)
    (o : Options) (stop_at_eot : Bool) (len num : ℕ) where
  visit_structure_safe :
      (display : Bool) (h : Header) (buf : Buffer) (st : S) (e : ℕ)
      → All IsByte buf
      → IsTerminated buf h e
      → Kept st
      → (buf' : Buffer) × (st' : S) × (visit_structure visit o display h buf st ≡ some (buf', st'))
        × (length buf' ≡ length buf)
        × All IsByte buf'
        × Kept st'
  unfolding visit_structure
  visit_structure_safe true h buf st e b w k =
      visits (if o.dump then dump else decode) h buf st e b w k
  visit_structure_safe false h buf st e b w k = elim (Bool-cases (asks_for o.string h.type)) [
    | inl asked ↦
        let (buf', st', r, same, b', k') = visits table_string h buf st e b w k in
        (buf', st', rw asked r, same, b', k')
    | inr other ↦ (buf, st, rw other, refl, b, k)
  ]

  -- What holds of the pass between its rounds.
  abbrev Sound : Pass S → Type 0
  Sound s = (length s.block ≡ len) × Counted num s.count × All IsByte s.block × Kept s.state

  abbrev PassKeeps : Pass S → Option (Bool × Pass S) → Type ℓ
  PassKeeps = Keeps Sound (λ s. len - s.position)

  whole_step-Keeps :
      (display : Bool) (h : Header) (next e : ℕ) (s : Pass S)
      → s.position < len
      → s.position < next
      → Sound s
      → IsTerminated s.block h e
      → PassKeeps s (whole_step visit o stop_at_eot display h next s)
  unfolding whole_step
  whole_step-Keeps display h next e s on moves sound w =
      let (h', said, rf, w') = fixed_header_safe o s.quiet display s.block h e w in
      let (buf', st', rv, same, b', k') =
        visit_structure_safe display h' s.block s.state e sound.2 w' sound.3 in
      (
        not (h.type == 127 && stop_at_eot),
        record s {
          position = next;
          block = buf';
          log = report (display && o.dump) (separator ∷ []) (s.log ++ said);
          state = st';
        },
        rw (rf, rv),
        (same ∙ sound.0, sound.1, b', k'),
        λ t. omega arith,
      )

  structure_step-Keeps :
      (display : Bool) (h : Header) (s : Pass S)
      → s.position < len
      → h.start ≡ s.position
      → Sound s
      → PassKeeps s (structure_step visit o stop_at_eot len h display s)
  unfolding structure_step
  structure_step-Keeps display h s on at sound =
      let log' = report (display && (not s.quiet || o.dump)) (handle h ∷ []) s.log in
      let (next, rn, lo, ends) = next_handle_safe s.block h in
      let rn' : next_handle s.block len h ≡ some next =
        subst (λ (l : ℕ). next_handle s.block l h ≡ some next) sound.0 rn in
      elim (Bool-cases (ltb len next)) [
        | inl beyond ↦ (
          false,
          record s {
            position = next;
            log = report (display && not s.quiet) (truncated ∷ []) log' ++ (separator ∷ []);
          },
          rw (rn', beyond),
          sound,
          λ t. cc,
        )
        | inr inside ↦
            let (e, _, w) = ends (ground (arith, sound.0)) in
            rw (rn', inside)
              (whole_step-Keeps display h next e (record s { log = log' }) on (omega arith) sound w)
      ]

  decode_step-Keeps :
      (s : Pass S)
      → Sound s
      → goes_on num len s.count s.position ≡ true
      → PassKeeps s (decode_step visit o stop_at_eot len s)
  unfolding decode_step
  decode_step-Keeps s sound on =
      let (h, rh, at) = to_dmi_header_safe s.block s.position (omega (arith, sound.0, in_table)) in
      elim (Bool-cases (ltb h.length 4)) [
        | inl short ↦ (
          false,
          record s {
            log = report (not s.quiet) (invalid_length h.length ∷ []) s.log;
            quiet = true;
          },
          rw (rh, short),
          sound,
          λ t. cc,
        )
        | inr long ↦ elim (Bool-cases (s.quiet && h.type == 127)) [
          | inl marker ↦
              (false, record s { count = s.count + 1 }, rw (rh, long, marker), counted, λ t. cc)
          | inr other ↦
              rw (rh, long, other)
                (structure_step-Keeps (is_displayed o s.quiet h) h
                  (record s { count = s.count + 1 }) (omega (arith, in_table)) at counted)
        ]
      ]
    where
      in_table : s.position + 4 ≤ len
      in_table = ground arith

      counted :
          (length s.block ≡ len) × Counted num (s.count + 1) × All IsByte s.block × Kept s.state
      counted = (sound.0, (λ ne. ground arith), sound.2, sound.3)

  second_pass_safe :
      (s : Pass S)
      → Sound s
      → (s' : Pass S) × (second_pass visit (suc len) o stop_at_eot len num s ≡ some s') × Sound s'
  unfolding second_pass
  second_pass_safe s sound =
      loop-Keeps Sound (λ s. len - s.position) (λ s. goes_on num len s.count s.position)
        (decode_step visit o stop_at_eot len) (λ s p t. decode_step-Keeps s p t) (suc len) s
        (omega arith) sound

-- On any bytes and any announced count `dmi_table_decode` returns, and what the handling of the
-- structures keeps holds behind it.
pub dmi_table_decode_keeps {ℓ} :
    {S : Type ℓ} (Kept : S → Type 0) (visit : Action → Header → Buffer → S → Option (Buffer × S))
    → VisitsKeeping Kept visit
    → (o : Options) (buf : Buffer) (num : ℕ) (stop_at_eot : Bool) (g : Globals) (st : S)
    → All IsByte buf
    → Kept st
    → (g' : Globals) × (s : Pass S) × (dmi_table_decode visit o buf
          (length buf)
          num
          stop_at_eot
          g
          st
        ≡ some (g', s))
      × (length s.block ≡ length buf)
      × (num ≢ 0 → s.count ≤ num)
      × Kept s.state
unfolding dmi_table_decode
dmi_table_decode_keeps Kept visit visits o buf num stop_at_eot g st bytes kept =
    let (first, rf, _) =
      first_pass_safe buf num o (record { position = 0; count = 0; globals = g })
        (λ ne. omega arith) in
    let (s, rs, sound) =
      second_pass_safe Kept visit visits o stop_at_eot (length buf) num
        (record { position = 0; count = 0; quiet = o.quiet; block = buf; log = []; state = st })
        (refl, (λ ne. omega arith), bytes, kept) in
    (
      first.globals,
      record s { log = s.log ++ closing (length buf) num s },
      rw (rf, rs),
      sound.0,
      sound.1,
      sound.3,
    )

-- On any bytes, well formed or not, and any announced count, `dmi_table_decode` returns: neither
-- pass reads outside the table, and both end with the fuel given. This holds for every handling
-- of the structures that returns, and keeps the length of the block, on structures whose string
-- area lies in the table and is closed by two zero bytes. The block keeps its length, and no more
-- structures are counted than announced, where a count is announced.
pub dmi_table_decode_safe {ℓ} :
    {S : Type ℓ} (visit : Action → Header → Buffer → S → Option (Buffer × S))
    → Visits visit
    → (o : Options) (buf : Buffer) (num : ℕ) (stop_at_eot : Bool) (g : Globals) (st : S)
    → All IsByte buf
    → (g' : Globals) × (s : Pass S) × (dmi_table_decode visit o buf
          (length buf)
          num
          stop_at_eot
          g
          st
        ≡ some (g', s))
      × (length s.block ≡ length buf)
      × (num ≢ 0 → s.count ≤ num)
dmi_table_decode_safe visit visits o buf num stop_at_eot g st bytes =
    let (g', s, r, same, count, _) =
      dmi_table_decode_keeps (λ _. Unit {0}) visit
        (λ a h b st e all closed _.
          let (b', st', r, same, all') = visits a h b st e all closed in
          (b', st', r, same, all', tt))
        o buf num stop_at_eot g st bytes tt in
    (g', s, r, same, count)
