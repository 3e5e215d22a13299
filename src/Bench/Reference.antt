-- ===== src/Bench/Reference.antt =====
-- Prime numbers, counted one by one: what the benchmark of src/core/benchmarks.cpp is compared with.
use cpu_x.Shared.{
  ℕ, zero, suc, ◌+◌, ◌%◌, ◌==◌, ◌<◌, ◌≤◌, leb, if◌then◌else◌, ◌&&◌, Bool, true, false, Bool-cases,
  inl, inr, ◌≡◌, ◌≢◌, ◌⊎◌, ◌↔◌, refl, sym, subst, arith,
}
use cpu_x.Bench.Primes.{IsPrime}

-- No number from 2 on and below `k` divides `n`.
abbrev pub no_divisor : ℕ → ℕ → Bool
no_divisor n zero = true
no_divisor n (suc k) = if leb 2 k && n % k == 0 then false else no_divisor n k

abbrev pub is_prime : ℕ → Bool
is_prime n = leb 2 n && no_divisor n n

-- How many prime numbers there are up to `n`.
abbrev pub prime_count : ℕ → ℕ
prime_count zero = 0
prime_count (suc n) = prime_count n + (if is_prime (suc n) then 1 else 0)

no_divisor-true : (n k : ℕ) → no_divisor n k ≡ true → (d : ℕ) → 2 ≤ d → d < k → n % d ≢ 0
no_divisor-true n zero h d a b = absurd (omega arith)
no_divisor-true n (suc k) h d a b = elim (last d k b) [
  | inl same ↦ subst (λ (z : ℕ). n % z ≢ 0) (sym same) (ground arith)
  | inr lower ↦ no_divisor-true n k (ground arith) d a lower
]
  where
    last : (d k : ℕ) → d < suc k → (d ≡ k) ⊎ (d < k)
    last d k h = ground arith

true-no_divisor : (n k : ℕ) → ((d : ℕ) → 2 ≤ d → d < k → n % d ≢ 0) → no_divisor n k ≡ true
true-no_divisor n zero h = refl
true-no_divisor n (suc k) h = elim (Bool-cases (leb 2 k && n % k == 0)) [
  | inl divides ↦ absurd (h k (ground arith) (omega arith) (ground arith))
  | inr other ↦ rw other (true-no_divisor n k (λ d a b. h d a (omega arith)))
]

pub is_prime-IsPrime : (n : ℕ) → (is_prime n ≡ true) ↔ IsPrime n
is_prime-IsPrime n = (
  (λ e. record { above_one = ground arith; indivisible = no_divisor-true n n (ground arith) }),
  (λ p. ground (arith, true-no_divisor n n p.indivisible, p.above_one)),
)

pub same_truth : (b c : Bool) → (b ≡ true → c ≡ true) → (c ≡ true → b ≡ true) → b ≡ c
same_truth b c f g = ground arith
