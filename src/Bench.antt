-- ===== src/Bench.antt =====
-- The benchmark of src/core/benchmarks.cpp, which counts prime numbers in several threads.
pub mod Primes
pub mod Reference
pub mod Threads
use cpu_x.Dmi.Memory.{◌>>=◌}
use cpu_x.Shared.{
  get_elem?, set, ◌≡◌, ℕ, zero, suc, ◌+◌, ◌-◌, ◌*◌, ◌%◌, ◌^◌, ◌==◌, ltb, not, if◌then◌else◌, ◌&&◌,
  ◌||◌, Bool, true, false, List, [], ◌∷◌, Option, none, some,
}

-- `for(i = 2; (i < sup) && (number % i != 0); i++)`, from `i` on: the `i` at which it ends.
unfoldable pub search : ℕ → ℕ → ℕ → ℕ → Option ℕ
search zero number sup i = none
search (suc fuel) number sup i =
    let rest = search fuel number sup (i + 1) in
    if ltb i sup && not (number % i == 0) then rest else some i

-- What the C library and the machine make of a number: `sqrt`, cut off to an integer, and the
-- conversion to a double and back, which the conditional operator asks for.
pub record Doubles : Type 0 where
  pub sqrt : ℕ → ℕ
  pub rounded : ℕ → ℕ

module _ (doubles : Doubles) (fast_mode : Bool) where
  abbrev pub sup : ℕ → ℕ
  sup number = if fast_mode then doubles.sqrt number else doubles.rounded number

  abbrev pub is_taken : ℕ → ℕ → Bool
  is_taken number i = if fast_mode then not (number % i == 0) else number == i

  -- Whether the number counts as a prime.
  unfoldable pub is_counted : ℕ → Option Bool
  is_counted number = elim (search (suc (sup number)) number (sup number) 2) [
    | none ↦ none
    | some i ↦ some (is_taken number i)
  ]

-- Where a thread of `primes_bench` is: at the test of `is_running`, before `++bench->number`, with
-- its number, before `bench->primes++`, or at its end.
pub data Place : Type 0 where
  testing going counting ended : Place
  checking : ℕ → Place

-- What the threads share; the counters are atomic and have 64 bits.
pub record Bench : Type 0 where
  pub is_running : Bool
  pub number : ℕ
  pub primes : ℕ
  pub threads : List Place

-- The next step of some thread, or `stop_benchmarks`.
pub data BenchEvent : Type 0 where
  thread_goes : ℕ → BenchEvent
  stop : BenchEvent

abbrev pub testing_threads : ℕ → List Place
testing_threads zero = []
testing_threads (suc n) = testing ∷ testing_threads n

-- `start_benchmarks`.
abbrev pub started : ℕ → Bench
started threads = record {
  is_running = true;
  number = 2;
  primes = 1;
  threads = testing_threads threads;
}

module _ (doubles : Doubles) (fast_mode : Bool) where
  unfoldable pub thread_step : Bench → Place → Option (Bench × Place)
  thread_step b testing = some (b, if b.is_running then going else ended)
  thread_step b going =
      let number = (b.number + 1) % 2 ^ 64 in some (record b { number = number }, checking number)
  thread_step b (checking number) = elim (is_counted doubles fast_mode number) [
    | none ↦ none
    | some prime ↦ some (b, if prime then counting else testing)
  ]
  thread_step b counting = some (record b { primes = (b.primes + 1) % 2 ^ 64 }, testing)
  thread_step b ended = none

  unfoldable pub bench_step : Bench → BenchEvent → Option Bench
  bench_step b (thread_goes k) = get_elem? b.threads k >>= λ p.
      thread_step b p >>= λ r. some (record r.0 { threads = set b.threads k r.1 })
  bench_step b stop = some (record b { is_running = false })

  -- What `threads` threads get to by steps in any order, from states that `Allowed` lets go on.
  pub data Gets (Allowed : Bench → Type 0) (threads : ℕ) : Bench → Type 0 where
    begins : Gets Allowed threads (started threads)
    goes :
        {b c : Bench} (e : BenchEvent)
        → Gets Allowed threads b
        → Allowed b
        → bench_step b e ≡ some c
        → Gets Allowed threads c
