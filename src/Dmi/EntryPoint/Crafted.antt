-- ===== src/Dmi/EntryPoint/Crafted.antt =====
-- The entry points written to a dump keep their checksums.
use cpu_x.Shared.{ℕ, zero, suc, ◌+◌, ◌-◌, ◌%◌, ◌^◌, ◌≤◌, ◌<◌, ◌==◌, arith}
use cpu_x.Shared.{some, set, length, length-set, ◌≡◌, ◌≢◌, refl, ap, ◌∙◌, ◌⊎◌, inl, inr}
use native.Mathlib.Decide.{ℕ_discrete}
use cpu_x.Dmi.Memory.{Buffer, checksum}
use cpu_x.Dmi.EntryPoint.{
  store, store_zeros, overwrite_address, overwrite_dmi_address, overwrite_smbios3_address,
}
use cpu_x.Dmi.EntryPoint.Sum.{
  at, total, byte-at, at-set_self, at-set_ne, sum_bytes-total, checksum-total, total-set,
  total-set_outside,
}

store-set : (i v : ℕ) (buf : Buffer) → i < length buf → store i v buf ≡ some (set buf i v)
unfolding store
store-set i v buf h = rw (byte-at buf i h)

-- What clearing `n` bytes from `i` on does to the block and to the sum of a range around them.
record Cleared (n i lo len : ℕ) (buf : Buffer) : Type 0 where
  out : Buffer
  returns : store_zeros n i buf ≡ some out
  same_length : length out ≡ length buf
  sum : total len lo out + total n i buf ≡ total len lo buf
  inside : (j : ℕ) → i ≤ j → j < i + n → at out j ≡ 0
  outside : (j : ℕ) → (j < i) ⊎ (i + n ≤ j) → at out j ≡ at buf j

store_zeros-Cleared :
    (n i lo len : ℕ) (buf : Buffer)
    → lo ≤ i
    → i + n ≤ lo + len
    → i + n ≤ length buf
    → Cleared n i lo len buf
unfolding store_zeros total
store_zeros-Cleared zero i lo len buf p q h = record {
  out = buf;
  returns = refl;
  same_length = refl;
  sum = omega arith;
  inside = λ j a b. absurd (omega arith);
  outside = λ j o. refl;
}
store_zeros-Cleared (suc n) i lo len buf p q h =
    let rest =
      store_zeros-Cleared n (i + 1) lo len (set buf i 0) (omega arith) (omega arith)
        (omega (arith, length-set buf i 0)) in
    record {
      out = rest.out;
      returns = rw (store-set i 0 buf (omega arith)) (rest.returns);
      same_length = rest.same_length ∙ length-set buf i 0;
      sum = omega (
        arith,
        rest.sum,
        total-set len lo i 0 buf p (omega arith) (omega arith),
        total-set_outside n (i + 1) i 0 buf (inl (omega arith)),
      );
      inside = λ j a b. elim (ℕ_discrete i j) [
        | yes same ↦
            rest.outside j (inl (omega arith)) ∙ rw (← same) (at-set_self buf i 0 (omega arith))
        | no other ↦ rest.inside j (omega arith) (omega arith)
      ];
      outside = λ j o.
          rest.outside j (elim o [ inl a ↦ inl (omega arith) | inr b ↦ inr (omega arith) ])
          ∙ at-set_ne buf i j 0 (λ e. elim o [ inl a ↦ omega arith | inr b ↦ omega arith ]);
    }

-- What a dump's entry point has in common with the one that it was made from.
pub record IsCrafted (n at' base len : ℕ) (buf out : Buffer) : Type 0 where
  pub same_length : length out ≡ length buf
  pub same_checksum : checksum out base len ≡ checksum buf base len
  pub address_low : at out (base + at') ≡ 32
  pub address_high : (j : ℕ) → base + at' < j → j < base + at' + n → at out j ≡ 0
  pub elsewhere :
      (j : ℕ) → j ≢ base + 5 → (j < base + at') ⊎ (base + at' + n ≤ j) → at out j ≡ at buf j

total-suc : (n i : ℕ) (buf : Buffer) → total (suc n) i buf ≡ at buf i + total n (i + 1) buf
unfolding total
total-suc n i buf = refl

-- The sums around the three kinds of writes, for an address of `suc n` bytes.
module _ (n at' base len : ℕ) (buf : Buffer) (p : 5 < at') (q : at' + suc n ≤ len)
    (h : base + len ≤ length buf) where
  abbrev adjusted : ℕ
  adjusted = (at buf (base + 5) + total (suc n) (base + at') buf + 2 ^ 8 - 32) % 2 ^ 8

  abbrev buf1 : Buffer
  buf1 = set buf (base + 5) adjusted

  abbrev buf2 : Buffer
  buf2 = set buf1 (base + at') 32

  length-buf2 : length buf2 ≡ length buf
  length-buf2 = length-set buf1 (base + at') 32 ∙ length-set buf (base + 5) adjusted

  cleared : Cleared n (base + at' + 1) base len buf2
  cleared =
      store_zeros-Cleared n (base + at' + 1) base len buf2 (omega arith) (omega arith)
        (omega (arith, length-buf2))

  same_sum : total len base cleared.out % 2 ^ 8 ≡ total len base buf % 2 ^ 8
  same_sum = omega (
    arith,
    cleared.sum,
    total-set len base (base + at') 32 buf1 (omega arith) (omega arith)
        (omega (arith, length-set buf (base + 5) adjusted)),
    total-set len base (base + 5) adjusted buf (omega arith) (omega arith) (omega arith),
    at-set_ne buf (base + 5) (base + at') adjusted (omega arith),
    total-set_outside n (base + at' + 1) (base + at') 32 buf1 (inl (omega arith)),
    total-set_outside n (base + at' + 1) (base + 5) adjusted buf (inl (omega arith)),
    total-suc n (base + at') buf,
  )

  overwrite_address-IsCrafted :
      (out : Buffer) × (overwrite_address n at' base buf ≡ some out)
      × IsCrafted (suc n) at' base len buf out
  unfolding overwrite_address
  overwrite_address-IsCrafted = (
    cleared.out,
    rw
        (
          byte-at buf (base + 5) (omega arith),
          sum_bytes-total (suc n) (base + at') buf (omega arith),
          store-set (base + 5) adjusted buf (omega arith),
          store-set (base + at') 32 buf1 (omega (arith, length-set buf (base + 5) adjusted)),
        )
        cleared.returns,
    record {
      same_length = cleared.same_length ∙ length-buf2;
      same_checksum =
          rw
            (
              checksum-total cleared.out base len (omega (arith, cleared.same_length, length-buf2)),
              checksum-total buf base len h,
            )
            (ap (λ (k : ℕ). some (k == 0)) same_sum);
      address_low =
          cleared.outside (base + at') (inl (omega arith))
          ∙ at-set_self buf1 (base + at') 32 (omega (arith, length-set buf (base + 5) adjusted));
      address_high = λ j a b. cleared.inside j (omega arith) (omega arith);
      elsewhere = λ j ne o.
          cleared.outside j (elim o [ inl a ↦ inl (omega arith) | inr b ↦ inr (omega arith) ])
          ∙ at-set_ne buf1 (base + at') j 32
              (λ e. elim o [ inl a ↦ omega arith | inr b ↦ omega arith ])
          ∙ at-set_ne buf (base + 5) j adjusted (λ e. ne (omega arith));
    },
  )

-- A legacy entry point with room for its 15 bytes, anywhere in a block: the changed copy has the
-- address 32, passes or fails its checksum as the original does, and no byte changes but the
-- checksum at 0x05 and the four bytes of the address.
pub overwrite_dmi_address-IsCrafted :
    (base : ℕ) (buf : Buffer)
    → base + 0x0F ≤ length buf
    → (out : Buffer) × (overwrite_dmi_address base buf ≡ some out)
      × IsCrafted 4 0x08 base 0x0F buf out
unfolding overwrite_dmi_address
overwrite_dmi_address-IsCrafted base buf h =
    overwrite_address-IsCrafted 3 0x08 base 0x0F buf (omega arith) (omega arith) h

-- A 64-bit entry point at the start of a block, with a checksum over `len` bytes of the block, at
-- least 0x18: the changed copy has the address 32, passes or fails its checksum as the original
-- does, and no byte changes but the checksum at 0x05 and the eight bytes of the address.
overwrite_smbios3_address-IsCrafted :
    (len : ℕ) (buf : Buffer)
    → 0x18 ≤ len
    → len ≤ length buf
    → (out : Buffer) × (overwrite_smbios3_address buf ≡ some out) × IsCrafted 8 0x10 0 len buf out
unfolding overwrite_smbios3_address
overwrite_smbios3_address-IsCrafted len buf q h =
    overwrite_address-IsCrafted 7 0x10 0 len buf (omega arith) (omega arith) (omega arith)
