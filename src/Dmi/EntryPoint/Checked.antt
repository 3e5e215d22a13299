-- ===== src/Dmi/EntryPoint/Checked.antt =====
-- The checks of an entry point stay inside its block, and so does the search in memory.
use cpu_x.Shared.{
  ℕ, zero, suc, ◌+◌, ◌*◌, ◌/◌, ◌%◌, ◌^◌, ◌≤◌, ◌==◌, ltb, leb, if◌then◌else◌, ◌&&◌, Bool, true,
  false, arith,
}
use cpu_x.Shared.{Option, none, some, List, [], ◌∷◌, length, codes, ◌≡◌, refl}
use cpu_x.Dmi.Memory.{Buffer, qword, checksum, ◌>>=◌}
use cpu_x.Dmi.Memory.Reads.{Defined, Defined-if, byte-Defined, word-Defined, dword-Defined}
use cpu_x.Dmi.EntryPoint.{
  Checked, matches_at, when, smbios3_fields, smbios3_entry, smbios_fields, smbios_entry,
  dmi_fixup_version, legacy_fields, legacy_entry, scan_smbios3, try_smbios, scan_smbios,
  memory_scan,
}
use cpu_x.Dmi.EntryPoint.Sum.{total, checksum-total}

module _ (buf : Buffer) where
  matches_at-Defined :
      (p : ℕ) (text : List ℕ) → p + length text ≤ length buf → Defined (matches_at buf p text)
  unfolding matches_at
  matches_at-Defined p [] h = (true, refl)
  matches_at-Defined p (c ∷ text) h =
      let (x, r) = byte-Defined buf p (omega arith) in
      rw r (
        Defined-if (x == c) _ _ (λ _. matches_at-Defined (p + 1) text (omega arith))
          (λ _. (false, refl)))

  checksum-Defined : (base len : ℕ) → base + len ≤ length buf → Defined (checksum buf base len)
  checksum-Defined base len h = (total len base buf % 2 ^ 8 == 0, checksum-total buf base len h)

  when-Defined :
      (test : Option Bool) (k : Checked) → Defined test → Defined k → Defined (when test k)
  when-Defined test k (t, r) d = rw r (Defined-if t _ _ (λ _. d) (λ _. (none, refl)))

  smbios3_fields-Defined : (base : ℕ) → base + 0x18 ≤ length buf → Defined (smbios3_fields buf base)
  unfolding smbios3_fields qword
  smbios3_fields-Defined base h =
      let (major, r1) = byte-Defined buf (base + 0x07) (omega arith) in
      let (minor, r2) = byte-Defined buf (base + 0x08) (omega arith) in
      let (revision, r3) = byte-Defined buf (base + 0x09) (omega arith) in
      let (high, r4) = dword-Defined buf (base + 0x10 + 4) (omega arith) in
      let (low, r5) = dword-Defined buf (base + 0x10) (omega arith) in
      let (size, r6) = dword-Defined buf (base + 0x0C) (omega arith) in
      (
        some (record {
          version = major * 2 ^ 16 + minor * 2 ^ 8 + revision;
          address = high * 2 ^ 32 + low;
          size = size;
          num = 0;
        }),
        rw (r1, r2, r3, r4, r5, r6),
      )

  smbios_fields-Defined :
      (no_quirks : Bool) (base : ℕ)
      → base + 0x1E ≤ length buf
      → Defined (smbios_fields no_quirks buf base)
  unfolding smbios_fields
  smbios_fields-Defined no_quirks base h =
      let (major, r1) = byte-Defined buf (base + 0x06) (omega arith) in
      let (minor, r2) = byte-Defined buf (base + 0x07) (omega arith) in
      let (size, r3) = word-Defined buf (base + 0x16) (omega arith) in
      let (num, r4) = word-Defined buf (base + 0x1C) (omega arith) in
      let (address, r5) = dword-Defined buf (base + 0x18) (omega arith) in
      let ver = major * 2 ^ 8 + minor in
      (
        some (record {
          version = if no_quirks then ver else dmi_fixup_version ver;
          address = address;
          size = size;
          num = num;
        }),
        rw (r1, r2, r3, r4, r5),
      )

  legacy_fields-Defined : (base : ℕ) → base + 0x0F ≤ length buf → Defined (legacy_fields buf base)
  unfolding legacy_fields
  legacy_fields-Defined base h =
      let (v, r1) = byte-Defined buf (base + 0x0E) (omega arith) in
      let (size, r2) = word-Defined buf (base + 0x06) (omega arith) in
      let (num, r3) = word-Defined buf (base + 0x0C) (omega arith) in
      let (address, r4) = dword-Defined buf (base + 0x08) (omega arith) in
      (
        some (record {
          version = v / 2 ^ 4 * 2 ^ 8 + v % 2 ^ 4;
          address = address;
          size = size;
          num = num;
        }),
        rw (r1, r2, r3, r4),
      )

  smbios3_entry-Defined :
      (base buf_len : ℕ)
      → base + buf_len ≤ length buf
      → 0x07 ≤ buf_len
      → Defined (smbios3_entry buf base buf_len)
  unfolding smbios3_entry
  smbios3_entry-Defined base buf_len h long =
      let (n, r) = byte-Defined buf (base + 0x06) (omega arith) in
      rw r (
        Defined-if (ltb buf_len n) _ _ (λ _. (none, refl))
          λ fits.
            Defined-if (ltb n 0x18) _ _ (λ _. (none, refl))
              λ enough.
                when-Defined _ _ (checksum-Defined base n (ground arith))
                  (smbios3_fields-Defined base (ground arith)))

  smbios_entry-Defined :
      (no_quirks : Bool) (base buf_len : ℕ)
      → base + buf_len ≤ length buf
      → 0x1F ≤ buf_len
      → Defined (smbios_entry no_quirks buf base buf_len)
  unfolding smbios_entry
  smbios_entry-Defined no_quirks base buf_len h long =
      let (n, r) = byte-Defined buf (base + 0x05) (omega arith) in
      rw r (
        Defined-if (ltb buf_len n) _ _ (λ _. (none, refl))
          λ fits.
            Defined-if (ltb n 0x1E) _ _ (λ _. (none, refl))
              λ enough. when-Defined _ _ (checksum-Defined base n (ground arith)) (
                when-Defined _ _ (matches_at-Defined (base + 0x10) (codes "_DMI_") (omega arith)) (
                  when-Defined _ _ (checksum-Defined (base + 0x10) 0x0F (omega arith))
                    (smbios_fields-Defined no_quirks base (omega arith)))))

  legacy_entry-Defined : (base : ℕ) → base + 0x0F ≤ length buf → Defined (legacy_entry buf base)
  unfolding legacy_entry
  legacy_entry-Defined base h =
      when-Defined _ _ (checksum-Defined base 0x0F h) (legacy_fields-Defined base h)

  -- The entry found, or what the rest of the search finds.
  or_else-Defined :
      (found rest : Checked)
      → Defined found
      → Defined rest
      → Defined (found >>= λ f. elim f [ none ↦ rest | some e ↦ some (some e) ])
  or_else-Defined none rest d r = cc
  or_else-Defined (some none) rest d r = r
  or_else-Defined (some (some e)) rest d r = (some e, refl)

  scan_smbios3-Defined :
      (left fp : ℕ) → fp + 16 * left + 16 ≤ length buf → Defined (scan_smbios3 left fp buf)
  unfolding scan_smbios3
  scan_smbios3-Defined zero fp h = (none, refl)
  scan_smbios3-Defined (suc left) fp h =
      let (here, r) = matches_at-Defined fp (codes "_SM3_") (omega arith) in
      let rest = scan_smbios3-Defined left (fp + 16) (omega arith) in
      rw r (
        Defined-if here _ _
          (λ _.
            or_else-Defined _ _ (smbios3_entry-Defined fp 0x20 (omega arith) (omega arith)) rest)
          (λ _. rest))

  try_smbios-Defined :
      (no_quirks : Bool) (fp : ℕ)
      → fp + 16 ≤ length buf
      → (fp ≤ 0xFFE0 → fp + 0x20 ≤ length buf)
      → Defined (try_smbios no_quirks fp buf)
  unfolding try_smbios
  try_smbios-Defined no_quirks fp h wide =
      let (sm, r) = matches_at-Defined fp (codes "_SM_") (omega arith) in
      let (dmi, r') = matches_at-Defined fp (codes "_DMI_") (omega arith) in
      rw (r, r')
        (Defined-if (sm && leb fp 0xFFE0) _ _
          (λ t. smbios_entry-Defined no_quirks fp 0x20 (wide (ground arith)) (omega arith))
          (λ _.
            Defined-if dmi _ _ (λ _. legacy_entry-Defined fp (omega arith)) (λ _. (none, refl))))

  scan_smbios-Defined :
      (no_quirks : Bool) (left fp : ℕ)
      → fp + 16 * left ≡ 0x10000
      → length buf ≡ 0x10000
      → (k : ℕ) → fp ≡ 16 * k
      → Defined (scan_smbios no_quirks left fp buf)
  unfolding scan_smbios
  scan_smbios-Defined no_quirks zero fp h size k m = (none, refl)
  scan_smbios-Defined no_quirks (suc left) fp h size k m =
      or_else-Defined _ _ (try_smbios-Defined no_quirks fp (omega arith) (λ le. omega arith))
        (scan_smbios-Defined no_quirks left (fp + 16) (omega arith) size (k + 1) (omega arith))

  -- The search of the block of 0x10000 bytes below 1 MiB ends with an entry point or with none,
  -- whatever the block holds, and reads nothing outside it.
  pub memory_scan_safe :
      (no_quirks : Bool) → length buf ≡ 0x10000 → Defined (memory_scan no_quirks buf)
  unfolding memory_scan
  memory_scan_safe no_quirks size =
      or_else-Defined _ _ (scan_smbios3-Defined 0xFFF 0 (omega arith))
        (scan_smbios-Defined no_quirks 0x1000 0 (omega arith) size 0 (omega arith))
