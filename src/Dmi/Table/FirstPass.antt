-- ===== src/Dmi/Table/FirstPass.antt =====
-- The first pass of `dmi_table_decode` stays inside the table and comes to an end.
use cpu_x.Shared.{
  ℕ, suc, ◌+◌, ◌-◌, ◌^◌, ◌≤◌, ◌<◌, ◌==◌, ltb, leb, if◌then◌else◌, Bool, true, false, ◌||◌, ◌&&◌,
}
use cpu_x.Shared.{Option, none, some, length, arith}
use cpu_x.Shared.{◌≡◌, ◌≢◌, refl, inl, inr, Bool-cases, suc-==-zero}
use cpu_x.Shared.{lt-of_get_elem?}
use cpu_x.Dmi.Memory.{Buffer, word, ◌>>=◌}
use cpu_x.Shared.{bit_and}
use cpu_x.Dmi.Memory.Reads.{Defined, Defined-if, byte-Defined, word-Defined}
use cpu_x.Dmi.Loop.{Keeps, loop-Keeps}
use cpu_x.Dmi.Strings.{Header, find_string}
use cpu_x.Dmi.Strings.Safety.{IsTerminated, char_cases, skip_strings_safe, str_at-some, before_end}
use cpu_x.Dmi.Vendor.{VendorState, dmi_set_vendor}
use cpu_x.Dmi.CpuidType.{
  family_field, cpuid_of_486, cpuid_of_arm, cpuid_of_family, dmi_get_cpuid_type, has_cpuid, is_arm,
  is_x86_intel, is_x86_amd, is_loongarch, cpuid_none, cpuid_80386, cpuid_x86_amd, cpuid_loongarch,
  cpuid_x86_intel, cpuid_80486, cpuid_arm_legacy, cpuid_arm_soc_id,
}
use cpu_x.Dmi.Table.{
  First, Options, Globals, goes_on, raw_string, remember_vendor, remember_cpuid, is_cpuid_none,
  remember, first_taken, first_step, first_pass,
}
use cpu_x.Dmi.Table.Safety.{to_dmi_header_safe, next_handle_safe}

module _ (buf : Buffer) (h : Header) (e : ℕ) (w : IsTerminated buf h e) where
  room : h.start + h.length + 2 ≤ length buf
  room = omega (arith, w.fits, lt-of_get_elem? buf (e + 1) w.after)

  pub raw_string-Defined : (s : ℕ) → Defined (raw_string buf h s)
  unfolding raw_string find_string
  raw_string-Defined s =
      let (q, skipped, lo, hi) =
        skip_strings_safe buf e s (h.start + h.length) w.last w.after (omega (arith, w.fits)) in
      elim (char_cases buf q (omega (arith, lt-of_get_elem? buf (e + 1) w.after))) [
        | inl r ↦ ((none, none), rw (skipped, r))
        | inr (c, r) ↦
            let inside : q < e = before_end buf e q c w.last w.after hi r in
            let (t, read, _, _) = str_at-some buf q e (omega arith) w.last in
            ((some q, some t), rw (skipped, r, suc-==-zero, read))
      ]

  remember_vendor-Defined : (g : VendorState) → 6 ≤ h.length → Defined (remember_vendor buf h g)
  unfolding remember_vendor
  remember_vendor-Defined g long =
      let (v, rv) = byte-Defined buf (h.start + 4) (omega (arith, room)) in
      let (p, rp) = byte-Defined buf (h.start + 5) (omega (arith, room)) in
      let (sv, rsv) = raw_string-Defined v in
      let (sp, rsp) = raw_string-Defined p in (dmi_set_vendor sv.1 sp.0 g, rw (rv, rsv, rp, rsp))

  family_field-Defined : 0x1A ≤ h.length → Defined (family_field buf h)
  unfolding family_field
  family_field-Defined long =
      let (f, rf) = byte-Defined buf (h.start + 6) (omega (arith, room)) in
      rw rf (
        Defined-if _ _ _
          (λ t. word-Defined buf (h.start + 0x28) (omega (arith, room, extended _ t)))
          (λ _. (f, refl)))
    where
      extended : (b : Bool) → b && leb 0x2A h.length ≡ true → 0x2A ≤ h.length
      extended b t = ground arith

  cpuid_of_486-Defined : 0x1A ≤ h.length → Defined (cpuid_of_486 buf h)
  unfolding cpuid_of_486
  cpuid_of_486-Defined long =
      let (dx, r) = word-Defined buf (h.start + 8) (omega (arith, room)) in
      (if has_cpuid dx then cpuid_x86_intel else cpuid_80486, rw r)

  cpuid_of_arm-Defined : Defined (cpuid_of_arm buf h)
  unfolding cpuid_of_arm
  cpuid_of_arm-Defined = Defined-if (leb 0x28 h.length) _ _ soc_id (λ _. (cpuid_arm_legacy, refl))
    where
      soc_id :
          leb 0x28 h.length ≡ true
          → Defined (
              word buf (h.start + 0x26) >>= λ c.
              some (if bit_and c (2 ^ 9) == 0 then cpuid_arm_legacy else cpuid_arm_soc_id))
      soc_id t =
          let long : 0x28 ≤ h.length = ground arith in
          let (c, r) = word-Defined buf (h.start + 0x26) (omega (arith, room)) in
          (if bit_and c (2 ^ 9) == 0 then cpuid_arm_legacy else cpuid_arm_soc_id, rw r)

  cpuid_of_family-Defined : (type : ℕ) → 0x1A ≤ h.length → Defined (cpuid_of_family buf h type)
  unfolding cpuid_of_family
  cpuid_of_family-Defined type long =
      Defined-if (type == 0x05) _ _ (λ _. (cpuid_80386, refl))
        λ _.
          Defined-if (type == 0x06) _ _ (λ _. cpuid_of_486-Defined long)
            λ _.
              Defined-if (is_arm type) _ _ (λ _. cpuid_of_arm-Defined)
                λ _.
                  Defined-if (is_x86_intel type) _ _ (λ _. (cpuid_x86_intel, refl))
                    λ _.
                      Defined-if (is_x86_amd type) _ _ (λ _. (cpuid_x86_amd, refl))
                        λ _.
                          Defined-if (is_loongarch type) _ _ (λ _. (cpuid_loongarch, refl))
                            λ _. (cpuid_none, refl)

  dmi_get_cpuid_type-Defined : 0x1A ≤ h.length → Defined (dmi_get_cpuid_type buf h)
  unfolding dmi_get_cpuid_type
  dmi_get_cpuid_type-Defined long =
      let (f, rf) = family_field-Defined long in
      let (c, rc) = cpuid_of_family-Defined f long in (c, rw rf rc)

  pub remember-Defined : (g : Globals) → Defined (remember buf h g)
  unfolding remember remember_cpuid
  remember-Defined g =
      let (v, rv) = vendors in
      let (c, rc) = cpuid in (record { vendors = v; cpuid_type = c }, rw (rv, rc))
    where
      vendors : Defined (
          if h.type == 1 && leb 6 h.length then remember_vendor buf h g.vendors else some g.vendors)
      vendors =
          Defined-if (h.type == 1 && leb 6 h.length) _ _
            (λ t. remember_vendor-Defined g.vendors (ground arith)) (λ _. (_, refl))

      cpuid : Defined (
          if h.type == 4 && leb 0x1A h.length && is_cpuid_none g.cpuid_type
          then dmi_get_cpuid_type buf h
          else some g.cpuid_type)
      cpuid =
          Defined-if (h.type == 4 && leb 0x1A h.length && is_cpuid_none g.cpuid_type) _ _
            (λ t. dmi_get_cpuid_type-Defined (ground arith)) (λ _. (_, refl))

-- The count of structures never passes the announced one, where there is one.
abbrev pub Counted : ℕ → ℕ → Type 0
Counted num count = num ≢ 0 → count ≤ num

module _ (buf : Buffer) (num : ℕ) where
  abbrev FirstKeeps : First → Option (Bool × First) → Type 0
  FirstKeeps = Keeps (λ s. Counted num s.count) (λ s. length buf - s.position)

  first_taken-Keeps :
      (h : Header) (s : First)
      → s.position < length buf
      → h.start ≡ s.position
      → Counted num (s.count + 1)
      → FirstKeeps s (first_taken buf (length buf) h s)
  unfolding first_taken
  first_taken-Keeps h s on at counted =
      let (next, rn, lo, ends) = next_handle_safe buf h in
      elim (Bool-cases (ltb (length buf) next)) [
        | inl beyond ↦ (false, record s { count = s.count + 1 }, rw (rn, beyond), counted, λ t. cc)
        | inr inside ↦
            let (e, _, w) = ends (ground arith) in
            let (g, rg) = remember-Defined buf h e w s.globals in
            (
              true,
              record { position = next; count = s.count + 1; globals = g },
              rw (rn, inside, rg),
              counted,
              λ t. omega arith,
            )
      ]

  first_step-Keeps :
      (o : Options) (s : First)
      → Counted num s.count
      → goes_on num (length buf) s.count s.position ≡ true
      → FirstKeeps s (first_step o buf (length buf) s)
  unfolding first_step
  first_step-Keeps o s counted on =
      let (h, rh, at) = to_dmi_header_safe buf s.position (ground arith) in
      elim (Bool-cases (ltb h.length 4 || (h.type == 127 && (o.quiet || o.help)))) [
        | inl stop ↦ (false, s, rw (rh, stop), counted, λ t. cc)
        | inr taken ↦
            let (more, s', r, kept, falls) =
              first_taken-Keeps h s (ground arith) at (λ ne. ground arith) in
            (more, s', rw (rh, taken) r, kept, falls)
      ]

  -- On any block, the first pass returns within one round more than the block has bytes, and reads
  -- nothing outside it. Where a count is announced and has not been passed at the start, it is not
  -- passed at the end.
  pub first_pass_safe :
      (o : Options) (s : First)
      → Counted num s.count
      → (s' : First) × (first_pass (suc (length buf)) o buf (length buf) num s ≡ some s')
        × Counted num s'.count
  unfolding first_pass
  first_pass_safe o s counted =
      loop-Keeps _ (λ s. length buf - s.position) _ _ (first_step-Keeps o) (suc (length buf)) s
        (omega arith) counted
