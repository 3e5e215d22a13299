-- ===== src/Dmi/MemorySize/Exact.antt =====
-- What the chosen unit keeps of a size.
use cpu_x.Shared.{ℕ, zero, suc, ◌*◌, ◌/◌, ◌%◌, ◌^◌, ◌≤◌, ◌<◌, ◌==◌, arith}
use cpu_x.Shared.{true, ◌≡◌, ◌≢◌, refl, inl, inr, Bool-cases, ==_iff, ==-refl}
use cpu_x.Dmi.MemorySize.{
  Amount, split, highest, amount_at, memory_amount, runtime_amount, extended_amount,
}

-- What the choice of a unit promises for a size.
pub record IsAmountOf (code : ℕ) (a : Amount) : Type 0 where
  pub cut_off : a.capacity ≡ code / 1024 ^ a.unit
  pub not_lost : code ≢ 0 → a.capacity ≢ 0
  pub bounded : a.capacity < 2 ^ 20
  pub unit_le : a.unit ≤ 6

-- Unit `i` is the highest with a value.
abbrev pub IsHighest : ℕ → ℕ → Type 0
IsHighest code i = (code < 1024 ^ suc i) × (i ≢ 0 → 1024 ^ i ≤ code)

-- One case for each unit: the powers are numbers there.
amount_at-IsAmountOf : (code i : ℕ) → i ≤ 6 → IsHighest code i → IsAmountOf code (amount_at code i)
unfolding amount_at
amount_at-IsAmountOf code zero le h = ground arith
amount_at-IsAmountOf code (suc zero) le h = ground arith
amount_at-IsAmountOf code (suc (suc zero)) le h = ground arith
amount_at-IsAmountOf code (suc (suc (suc zero))) le h = ground arith
amount_at-IsAmountOf code (suc (suc (suc (suc zero)))) le h = ground arith
amount_at-IsAmountOf code (suc (suc (suc (suc (suc zero))))) le h = ground arith
amount_at-IsAmountOf code (suc (suc (suc (suc (suc (suc zero)))))) le h = ground arith
amount_at-IsAmountOf code (suc (suc (suc (suc (suc (suc (suc i))))))) le h = absurd (omega arith)

below_unit :
    (code i : ℕ) → i ≤ 5 → code < 1024 ^ suc (suc i) → split code (suc i) ≡ 0 → code < 1024 ^ suc i
below_unit code zero le h e = omega arith
below_unit code (suc zero) le h e = omega arith
below_unit code (suc (suc zero)) le h e = omega arith
below_unit code (suc (suc (suc zero))) le h e = omega arith
below_unit code (suc (suc (suc (suc zero)))) le h e = omega arith
below_unit code (suc (suc (suc (suc (suc zero))))) le h e = omega arith
below_unit code (suc (suc (suc (suc (suc (suc i)))))) le h e = absurd (omega arith)

above_unit : (code i : ℕ) → i ≤ 5 → split code (suc i) ≢ 0 → 1024 ^ suc i ≤ code
above_unit code zero le e = omega arith
above_unit code (suc zero) le e = omega arith
above_unit code (suc (suc zero)) le e = omega arith
above_unit code (suc (suc (suc zero))) le e = omega arith
above_unit code (suc (suc (suc (suc zero)))) le e = omega arith
above_unit code (suc (suc (suc (suc (suc zero))))) le e = omega arith
above_unit code (suc (suc (suc (suc (suc (suc i)))))) le e = absurd (omega arith)

pub highest-IsHighest :
    (code i : ℕ)
    → i ≤ 6
    → code < 1024 ^ suc i
    → IsHighest code (highest code i) × (highest code i ≤ i)
unfolding highest
highest-IsHighest code zero le h = ((h, λ ne. absurd (ne refl)), omega arith)
highest-IsHighest code (suc i) le h = elim (Bool-cases (split code (suc i) == 0)) [
  | inl none_here ↦
      let (found, bound) =
        highest-IsHighest code i (omega arith)
          (below_unit code i (omega arith) h ((==_iff _ 0).0 none_here)) in
      rw none_here (found, omega arith)
  | inr here ↦
      rw here
        ((h, λ _. above_unit code i (omega arith) (λ e. cc (e, here, ==-refl 0))), omega arith)
]

-- For every 64-bit size the number shown is the size in the chosen unit, cut off; it is 0 only
-- for the size 0 and below 2 ^ 20, and the unit is one of bytes to EiB.
pub memory_amount-IsAmountOf : (code : ℕ) → code < 2 ^ 64 → IsAmountOf code (memory_amount code)
unfolding memory_amount
memory_amount-IsAmountOf code h =
    let (found, bound) = highest-IsHighest code 6 (omega arith) (omega arith) in
    amount_at-IsAmountOf code (highest code 6) bound found

-- For every size of the BIOS image, the number and the unit that `dmi_bios_runtime_size_str`
-- prints denote that size: no bytes are cut off.
runtime_amount_exact : (code : ℕ) → let a = runtime_amount code in a.capacity * 1024 ^ a.unit ≡ code
unfolding runtime_amount
runtime_amount_exact code = ground arith

-- For every value of the 32-bit extended size of a memory device, the number and the unit that
-- `dmi_memory_device_extended_size_str` prints denote its low 31 bits, counted in MiB.
pub extended_amount_exact :
    (field : ℕ)
    → let a = extended_amount field in a.capacity * 1024 ^ a.unit ≡ field % 2 ^ 31 * 1024 ^ 2
unfolding extended_amount
extended_amount_exact field = ground arith

amount_at-unit : (code i : ℕ) → (amount_at code i).unit ≤ i
unfolding amount_at
amount_at-unit code zero = omega arith
amount_at-unit code (suc i) = ground arith

-- Below 2^60 bytes the unit EiB is not chosen.
pub memory_amount-unit : (code : ℕ) → code < 2 ^ 60 → (memory_amount code).unit ≤ 5
unfolding memory_amount highest
memory_amount-unit code h =
    let nothing : (split code 6 == 0) ≡ true = (==_iff _ 0).1 (omega arith) in
    let (_, bound) = highest-IsHighest code 5 (omega arith) (omega arith) in
    rw nothing (omega (arith, amount_at-unit code (highest code 5), bound))
