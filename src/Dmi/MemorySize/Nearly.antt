-- ===== src/Dmi/MemorySize/Nearly.antt =====
-- How much of a size the unit chosen for it loses.
use cpu_x.Shared.{ℕ, zero, suc, ◌+◌, ◌*◌, ◌%◌, ◌^◌, ◌≤◌, ◌<◌, ◌≡◌, ◌≢◌, ◌⊎◌, arith}
use cpu_x.Dmi.MemorySize.{Amount, amount_at, memory_amount, highest, device_amount}
use cpu_x.Dmi.MemorySize.Exact.{IsHighest, highest-IsHighest}

-- An amount that is at most the size and, unless the size is 0, that is short of it by less than one
-- part in 1024 and is written in the greatest unit in which its number is an integer.
pub record IsNearly (code : ℕ) (a : Amount) : Type 0 where
  pub not_above : a.capacity * 1024 ^ a.unit ≤ code
  pub near : (code ≡ 0) ⊎ (1024 * code < code + 1024 * (a.capacity * 1024 ^ a.unit))
  pub greatest : (code ≡ 0) ⊎ (a.capacity % 1024 ≢ 0)

amount_at-IsNearly : (code i : ℕ) → i ≤ 6 → IsHighest code i → IsNearly code (amount_at code i)
unfolding amount_at
amount_at-IsNearly code zero le h = ground arith
amount_at-IsNearly code (suc zero) le h = ground arith
amount_at-IsNearly code (suc (suc zero)) le h = ground arith
amount_at-IsNearly code (suc (suc (suc zero))) le h = ground arith
amount_at-IsNearly code (suc (suc (suc (suc zero)))) le h = ground arith
amount_at-IsNearly code (suc (suc (suc (suc (suc zero))))) le h = ground arith
amount_at-IsNearly code (suc (suc (suc (suc (suc (suc zero)))))) le h = ground arith
amount_at-IsNearly code (suc (suc (suc (suc (suc (suc (suc i))))))) le h = absurd (omega arith)

pub memory_amount-IsNearly : (code : ℕ) → code < 2 ^ 64 → IsNearly code (memory_amount code)
unfolding memory_amount
memory_amount-IsNearly code h =
    let (found, bound) = highest-IsHighest code 6 (omega arith) (omega arith) in
    amount_at-IsNearly code (highest code 6) bound found

amount_at-exact :
    (code i : ℕ)
    → i ≤ 6
    → IsHighest code i
    → code < 2 ^ 25
    → (code % 1024 ≡ 0) ⊎ (code < 2 ^ 20)
    → (amount_at code i).capacity * 1024 ^ (amount_at code i).unit ≡ code
unfolding amount_at
amount_at-exact code zero le h small whole = ground arith
amount_at-exact code (suc zero) le h small whole = ground arith
amount_at-exact code (suc (suc zero)) le h small whole = ground arith
amount_at-exact code (suc (suc (suc zero))) le h small whole = absurd (ground arith)
amount_at-exact code (suc (suc (suc (suc zero)))) le h small whole = absurd (ground arith)
amount_at-exact code (suc (suc (suc (suc (suc zero))))) le h small whole = absurd (ground arith)
amount_at-exact code (suc (suc (suc (suc (suc (suc zero)))))) le h small whole =
    absurd (ground arith)
amount_at-exact code (suc (suc (suc (suc (suc (suc (suc i))))))) le h small whole =
    absurd (omega arith)

-- The size of a memory device is shown as it is.
pub device_amount-exact :
    (field : ℕ)
    → let a = memory_amount (device_amount field) in
      (device_amount field < 2 ^ 25) × (a.capacity * 1024 ^ a.unit ≡ device_amount field)
unfolding memory_amount device_amount
device_amount-exact field =
    let code = device_amount field in
    let small : code < 2 ^ 25 = ground arith in
    let (found, bound) = highest-IsHighest code 6 (omega arith) (omega arith) in
    (small, amount_at-exact code (highest code 6) bound found small (ground arith))
