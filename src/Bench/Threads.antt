-- ===== src/Bench/Threads.antt =====
-- The threads of src/core/benchmarks.cpp together count the prime numbers.
use cpu_x.Shared.{
  ℕ, zero, suc, ◌+◌, ◌%◌, ◌^◌, ◌<◌, ◌≤◌, if◌then◌else◌, Bool, true, false, some, Option-cases, inl,
  inr, ◌≡◌, refl, sym, ap, ◌∙◌, subst, arith, List, [], ◌∷◌, All, All-set, All-get_elem?, get_elem?,
  set,
}
use mathlib.Core.Option.{some-injective}
use cpu_x.Bench.{
  Doubles, is_counted, Place, testing, going, counting, ended, checking, Bench, BenchEvent,
  thread_goes, stop, testing_threads, started, thread_step, bench_step, Gets, begins, goes,
}
use cpu_x.Bench.Primes.{IsRoot, is_counted-IsPrime}
use cpu_x.Bench.Reference.{is_prime, prime_count, is_prime-IsPrime, same_truth}

-- The prime numbers that threads have found and not counted yet.
abbrev pub waiting : Place → ℕ
waiting (checking n) = if is_prime n then 1 else 0
waiting counting = 1
waiting _ = 0

abbrev pub pending : List Place → ℕ
pending [] = 0
pending (p ∷ ps) = waiting p + pending ps

abbrev IsHeld : ℕ → Place → Type 0
IsHeld number (checking n) = (3 ≤ n) × (n ≤ number)
IsHeld number _ = Unit {0}

pub record IsExact (b : Bench) : Type 0 where
  pub counted : b.primes + pending b.threads ≡ prime_count b.number
  pub begun : 2 ≤ b.number
  held : All (IsHeld b.number) b.threads

pending-set :
    (ps : List Place) (k : ℕ) {p : Place} (q : Place)
    → get_elem? ps k ≡ some p
    → pending (set ps k q) + waiting p ≡ pending ps + waiting q
pending-set [] k q e = cc
pending-set (p ∷ ps) zero q e =
    subst
      (λ (r : Place). (waiting q + pending ps) + waiting r ≡ (waiting p + pending ps) + waiting q)
      (some-injective _ _ e) (omega arith)
pending-set (p ∷ ps) (suc k) q e = omega (arith, pending-set ps k q e)

IsHeld-suc : (n m : ℕ) (p : Place) → n ≤ m → IsHeld n p → IsHeld m p
IsHeld-suc n m testing le h = tt
IsHeld-suc n m going le h = tt
IsHeld-suc n m counting le h = tt
IsHeld-suc n m ended le h = tt
IsHeld-suc n m (checking k) le h = (h.0, omega (arith, h.1))

All-IsHeld : (n m : ℕ) (ps : List Place) → n ≤ m → All (IsHeld n) ps → All (IsHeld m) ps
All-IsHeld n m [] le h = tt
All-IsHeld n m (p ∷ ps) le h = (IsHeld-suc n m p le h.0, All-IsHeld n m ps le h.1)

prime_count_le : (n : ℕ) → prime_count n ≤ n
prime_count_le zero = omega arith
prime_count_le (suc n) = ground (arith, prime_count_le n)

-- One thread goes on, and the counters with it.
moved :
    (b : Bench) (k : ℕ) (p q : Place) (number primes : ℕ)
    → IsExact b
    → get_elem? b.threads k ≡ some p
    → b.number ≤ number
    → IsHeld number q
    → primes + waiting q + prime_count b.number ≡ b.primes + waiting p + prime_count number
    → IsExact (record b { number = number; primes = primes; threads = set b.threads k q })
moved b k p q number primes h at le held e = record {
  counted = omega (arith, h.counted, pending-set b.threads k q at);
  begun = omega (arith, h.begun);
  held =
      All-set (IsHeld number) b.threads k q held (All-IsHeld b.number number b.threads le h.held);
}

goes_or_ends :
    (c : Bool) (n : ℕ)
    → IsHeld n (if c then going else ended) × (waiting (if c then going else ended) ≡ 0)
goes_or_ends true n = (tt, refl)
goes_or_ends false n = (tt, refl)

counts_or_not :
    (c : Bool) (n : ℕ)
    → IsHeld n (if c then counting else testing)
      × (waiting (if c then counting else testing) ≡ (if c then 1 else 0))
counts_or_not true n = (tt, refl)
counts_or_not false n = (tt, refl)

-- What is left of a thread that was at `k`.
abbrev IsExactAfter : Bench → ℕ → Bench × Place → Type 0
IsExactAfter b k r = IsExact (record r.0 { threads = set b.threads k r.1 })

-- The numbers stay below 2 ^ 52, where doubles are exact.
abbrev pub Exact : Bench → Type 0
Exact b = b.number + 1 < 2 ^ 52

module _ (doubles : Doubles) (fast_mode : Bool)
    (root : (n : ℕ) → n < 2 ^ 52 → IsRoot n (doubles.sqrt n))
    (whole : (n : ℕ) → n < 2 ^ 52 → doubles.rounded n ≡ n) where
  is_counted-is_prime :
      (n : ℕ) → 3 ≤ n → n < 2 ^ 52 → is_counted doubles fast_mode n ≡ some (is_prime n)
  is_counted-is_prime n h small =
      let (b, r, is) = is_counted-IsPrime doubles fast_mode n h (root n small) (whole n small) in
      let (to, of) = is_prime-IsPrime n in
      r ∙ ap some (same_truth b (is_prime n) (λ e. of (is.0 e)) (λ e. is.1 (to e)))

  -- A step of the thread at `k`.
  thread_step-IsExact :
      (b : Bench) (k : ℕ) (p : Place) (r : Bench × Place)
      → IsExact b
      → Exact b
      → get_elem? b.threads k ≡ some p
      → thread_step doubles fast_mode b p ≡ some r
      → IsExact (record r.0 { threads = set b.threads k r.1 })
  unfolding thread_step
  thread_step-IsExact b k testing r h small at e =
      let (held, none_found) = goes_or_ends b.is_running b.number in
      subst (IsExactAfter b k) (some-injective _ _ e) (
        moved b k testing (if b.is_running then going else ended) b.number b.primes h at
          (omega arith) held (omega (arith, none_found)))
  thread_step-IsExact b k going r h small at e =
      let small_number : (b.number + 1) % 2 ^ 64 ≡ suc b.number = omega arith in
      let counts : prime_count ((b.number + 1) % 2 ^ 64)
          ≡ prime_count b.number + waiting (checking ((b.number + 1) % 2 ^ 64)) =
        subst (λ (m : ℕ). prime_count m ≡ prime_count b.number + waiting (checking m))
          (sym small_number) refl in
      subst (IsExactAfter b k) (some-injective _ _ e) (
        moved b k going (checking ((b.number + 1) % 2 ^ 64)) ((b.number + 1) % 2 ^ 64) b.primes h at
          (omega arith) (omega (arith, h.begun), omega arith) (omega (arith, counts)))
  thread_step-IsExact b k counting r h small at e =
      let small_count : (b.primes + 1) % 2 ^ 64 ≡ b.primes + 1 =
        omega (arith, h.counted, prime_count_le b.number) in
      subst (IsExactAfter b k) (some-injective _ _ e) (
        moved b k counting testing b.number ((b.primes + 1) % 2 ^ 64) h at (omega arith) tt
          (omega (arith, small_count)))
  thread_step-IsExact b k ended r h small at e = cc
  thread_step-IsExact b k (checking n) r h small at e =
      let (from, to) = All-get_elem? (IsHeld b.number) b.threads k h.held at in
      let (held, one_or_none) = counts_or_not (is_prime n) b.number in
      let ran : thread_step doubles fast_mode b (checking n)
          ≡ some (b, if is_prime n then counting else testing) =
        rw (is_counted-is_prime n from (omega arith), thread_step) refl in
      subst (IsExactAfter b k) (some-injective _ _ (sym ran ∙ e)) (
        moved b k (checking n) (if is_prime n then counting else testing) b.number b.primes h at
          (omega arith) held (omega (arith, one_or_none)))

  step-IsExact :
      (b c : Bench) (e : BenchEvent)
      → IsExact b
      → Exact b
      → bench_step doubles fast_mode b e ≡ some c
      → IsExact c
  unfolding bench_step
  step-IsExact b c stop h small e =
      subst IsExact (some-injective _ _ e)
        (record { counted = h.counted; begun = h.begun; held = h.held })
  step-IsExact b c (thread_goes k) h small e = elim (Option-cases (get_elem? b.threads k)) [
    | inl out ↦ cc
    | inr (p, at) ↦ elim (Option-cases (thread_step doubles fast_mode b p)) [
      | inl stuck ↦ cc
      | inr (r, ran) ↦
          let went : bench_step doubles fast_mode b (thread_goes k)
              ≡ some (record r.0 { threads = set b.threads k r.1 }) =
            rw (at, ran, bench_step) refl in
          subst IsExact (some-injective _ _ (sym went ∙ e))
            (thread_step-IsExact b k p r h small at ran)
    ]
  ]

  started-IsExact : (threads : ℕ) → IsExact (started threads)
  started-IsExact threads = record {
    counted = omega (arith, nothing threads);
    begun = omega arith;
    held = free threads;
  }
    where
      nothing : (n : ℕ) → pending (testing_threads n) ≡ 0
      nothing zero = refl
      nothing (suc n) = omega (arith, nothing n)

      free : (n : ℕ) → All (IsHeld 2) (testing_threads n)
      free zero = tt
      free (suc n) = (tt, free n)

  -- Whatever the order of the steps of the threads, and in both modes, as long as the numbers are
  -- below 2 ^ 52, and for these `sqrt`, cut off, is the root, and a double can hold them: the primes counted, and those that
  -- threads have found and not counted yet, are all the prime numbers up to the last number taken.
  pub Gets-IsExact :
      (threads : ℕ) (b : Bench)
      → Gets doubles fast_mode Exact threads b
      → b.primes + pending b.threads ≡ prime_count b.number
  Gets-IsExact threads b g = (exact b g).counted
    where
      exact : (b : Bench) → Gets doubles fast_mode Exact threads b → IsExact b
      exact b begins = started-IsExact threads
      exact b (goes {b = c} e g small s) = step-IsExact c b e (exact c g) small s
