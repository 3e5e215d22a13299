-- ===== src/Examples/Counting.antt =====
-- The theorems on src/core/benchmarks.cpp, with a root that is computed, at concrete numbers.
use cpu_x.Shared.{
  ℕ, zero, suc, ◌+◌, ◌*◌, ◌<◌, leb, if◌then◌else◌, Bool, true, false, Bool-cases, inl, inr, some,
  [], ◌∷◌, ◌↔◌, refl, ◌≡◌, arith,
}
use native.Mathlib.Nat.{mul-add, mul_comm}
use cpu_x.Bench.{
  Doubles, is_counted, search, Bench, testing, thread_goes, thread_step, bench_step, Gets, begins,
  goes,
}
use cpu_x.Bench.Primes.{IsPrime, IsRoot, is_counted-IsPrime}
use cpu_x.Bench.Reference.{prime_count}
use cpu_x.Bench.Threads.{pending, Exact, Gets-IsExact}

-- The root of a number, cut off.
abbrev root : ℕ → ℕ
root zero = zero
root (suc n) = let r = root n in if leb ((r + 1) * (r + 1)) (suc n) then r + 1 else r

next_square : (r n : ℕ) → n < (r + 1) * (r + 1) → suc n < (r + 1 + 1) * (r + 1 + 1)
next_square r n h =
    omega (
      arith,
      mul-add (r + 1 + 1) (r + 1) 1,
      mul_comm (r + 1 + 1) (r + 1),
      mul-add (r + 1) (r + 1) 1,
    )

root-IsRoot : (n : ℕ) → IsRoot n (root n)
root-IsRoot zero = record { low = omega arith; high = omega arith }
root-IsRoot (suc n) = elim (Bool-cases (leb ((root n + 1) * (root n + 1)) (suc n))) [
  | inl next ↦
      rw next (record { low = ground arith; high = next_square (root n) n (root-IsRoot n).high })
  | inr same ↦ rw same (record { low = omega (arith, (root-IsRoot n).low); high = ground arith })
]

abbrev computed : Doubles
computed = record { sqrt = root; rounded = λ n. n }

is_counted-IsPrime_example :
    (b : Bool) × (is_counted computed true 25 ≡ some b) × ((b ≡ true) ↔ IsPrime 25)
is_counted-IsPrime_example = is_counted-IsPrime computed true 25 (omega arith) (root-IsRoot 25) refl

-- One thread has counted the number 3.
abbrev counted_three : Bench
counted_three = record { is_running = true; number = 3; primes = 2; threads = testing ∷ [] }

one_thread : Gets computed false Exact 1 counted_three
unfolding bench_step thread_step is_counted search
one_thread =
    goes (thread_goes 0)
      (goes (thread_goes 0)
        (goes (thread_goes 0) (goes (thread_goes 0) begins (omega arith) refl) (omega arith) refl)
        (omega arith) refl)
      (omega arith) refl

Gets-IsExact_example : 2 + pending (testing ∷ []) ≡ prime_count 3
Gets-IsExact_example =
    Gets-IsExact computed false (λ n h. root-IsRoot n) (λ n h. refl) 1 counted_three one_thread
