-- ===== src/Bench/Primes.antt =====
-- The test of `primes_bench` in src/core/benchmarks.cpp, and what a prime number is.
use cpu_x.Shared.{
  ℕ, zero, suc, ◌+◌, ◌*◌, ◌/◌, ◌%◌, ◌==◌, ◌<◌, ◌≤◌, ltb, not, ◌&&◌, Bool, true, false, some,
  Bool-cases, inl, inr, ◌≡◌, ◌≢◌, ◌⊎◌, ◌↔◌, refl, sym, subst, arith,
}
use native.Mathlib.Nat.{div-add-mod, mul-mod_left, mul-zero, mul-one, mul-le-mul}
use cpu_x.Bench.{Doubles, search, is_counted}

pub record IsPrime (n : ℕ) : Type 0 where
  pub above_one : 2 ≤ n
  pub indivisible : (d : ℕ) → 2 ≤ d → d < n → n % d ≢ 0

-- Where the loop ends.
record IsFound (number sup i j : ℕ) : Type 0 where
  from : i ≤ j
  passed : (d : ℕ) → i ≤ d → d < j → number % d ≢ 0
  stays : (j ≤ sup) ⊎ (j ≡ i)
  divides : j < sup → number % j ≡ 0

at_or_after : (i d : ℕ) → i ≤ d → (d ≡ i) ⊎ (suc i ≤ d)
at_or_after i d h = ground arith

search-IsFound :
    (fuel number sup i : ℕ)
    → sup ≤ i + fuel
    → (j : ℕ) × (search (suc fuel) number sup i ≡ some j) × IsFound number sup i j
unfolding search
search-IsFound zero number sup i h = (
  i,
  rw (past) refl,
  record {
    from = omega arith;
    passed = λ d a b. absurd (omega arith);
    stays = inr refl;
    divides = λ b. absurd (omega arith);
  },
)
  where
    past : ltb i sup ≡ false
    past = ground arith
search-IsFound (suc fuel) number sup i h = elim (Bool-cases (ltb i sup && not (number % i == 0))) [
  | inr ends ↦ (
    i,
    rw ends refl,
    record {
      from = omega arith;
      passed = λ d a b. absurd (omega arith);
      stays = inr refl;
      divides = λ b. ground arith;
    },
  )
  | inl on ↦
      let (j, r, found) = search-IsFound fuel number sup (i + 1) (omega arith) in
      (
        j,
        rw on r,
        record {
          from = omega (arith, found.from);
          passed = λ d a b. elim (at_or_after i d a) [
            | inl same ↦ subst (λ (z : ℕ). number % z ≢ 0) (sym same) (ground arith)
            | inr later ↦ found.passed d (omega arith) b
          ];
          stays = ground (arith, found.stays, found.from);
          divides = found.divides;
        },
      )
]

slow_result :
    (doubles : Doubles) (n j : ℕ)
    → doubles.rounded n ≡ n
    → search (suc n) n n 2 ≡ some j
    → is_counted doubles false n ≡ some (n == j)
unfolding is_counted
slow_result doubles n j whole r = rw (whole, is_counted) (rw r refl)

-- The slow mode divides by every smaller number.
slow_test :
    (doubles : Doubles) (n : ℕ)
    → 2 ≤ n
    → doubles.rounded n ≡ n
    → (b : Bool) × (is_counted doubles false n ≡ some b) × ((b ≡ true) ↔ IsPrime n)
unfolding is_counted
slow_test doubles n h whole =
    let (j, r, found) = search-IsFound n n n 2 (omega arith) in
    let le : j ≤ n = ground (arith, found.stays) in
    (
      n == j,
      slow_result doubles n j whole r,
      (
        (λ e. record { above_one = h; indivisible = λ d a b. found.passed d a (ground arith) }),
        (λ p. ground (arith, found.divides, p.indivisible j, found.from)),
      ),
    )

pub record IsRoot (n s : ℕ) : Type 0 where
  pub low : s * s ≤ n
  pub high : n < (s + 1) * (s + 1)

at_most : (x y : ℕ) → (x ≤ y) ⊎ (y + 1 ≤ x)
at_most x y = ground arith

-- A divisor above the root comes with one that is not.
small_divisor :
    (n s d : ℕ)
    → IsRoot n s
    → 2 ≤ d
    → d < n
    → s < d
    → n % d ≡ 0
    → (e : ℕ) × ((2 ≤ e) × (e ≤ s) × (n % e ≡ 0))
small_divisor n s d root a b big z =
    let e = n / d in
    let whole : d * e ≡ n = omega (arith, div-add-mod n d) in
    (e, (two e whole, below e whole, subst (λ (m : ℕ). m % e ≡ 0) whole (mul-mod_left d e)))
  where
    two : (e : ℕ) → d * e ≡ n → 2 ≤ e
    two zero w = absurd (omega (arith, mul-zero d))
    two (suc zero) w = absurd (omega (arith, mul-one d))
    two (suc (suc e)) w = omega arith

    below : (e : ℕ) → d * e ≡ n → e ≤ s
    below e w = elim (at_most e s) [
      | inl le ↦ le
      | inr gt ↦ absurd (
          omega (
            arith,
            root.high,
            mul-le-mul {n₁ = s + 1} {m₁ = s + 1} {n₂ = d} {m₂ = e} (omega arith) (omega arith),
          ))
    ]

-- Where the loop up to the root ends at a number that does not divide, none does.
none_divides : (n s j d : ℕ) → IsRoot n s → IsFound n s 2 j → n % j ≢ 0 → 2 ≤ d → d < n → n % d ≢ 0
none_divides n s j d root found rest a b z = elim (at_most d j) [
  | inl le ↦ small d a le z
  | inr gt ↦
      let (e, (two, le, z2)) = small_divisor n s d root a b (omega (arith, reached)) z in
      small e two (omega (arith, reached)) z2
]
  where
    reached : s ≤ j
    reached = ground (arith, found.divides)

    small : (e : ℕ) → 2 ≤ e → e ≤ j → n % e ≢ 0
    small e two le = elim (at_or_after e j le) [
      | inl same ↦ subst (λ (k : ℕ). n % k ≢ 0) same rest
      | inr before ↦ found.passed e two before
    ]

root_below : (n s : ℕ) → 3 ≤ n → IsRoot n s → s < n
root_below n s h root = elim (at_most n s) [
  | inl le ↦
      absurd
        (omega (arith, root.low, mul-le-mul {n₁ = 3} {m₁ = n} {n₂ = s} {m₂ = s} (omega arith) le))
  | inr lt ↦ omega arith
]

fast_test :
    (doubles : Doubles) (n : ℕ)
    → 3 ≤ n
    → IsRoot n (doubles.sqrt n)
    → (b : Bool) × (is_counted doubles true n ≡ some b) × ((b ≡ true) ↔ IsPrime n)
unfolding is_counted
fast_test doubles n h root =
    let s = doubles.sqrt n in
    let (j, r, found) = search-IsFound s n s 2 (omega arith) in
    let below : j < n = ground (arith, found.stays, root_below n s h root) in
    (
      not (n % j == 0),
      rw (r, is_counted) refl,
      (
        (λ e. record {
          above_one = omega arith;
          indivisible = λ d a b. none_divides n s j d root found (ground arith) a b;
        }),
        (λ p. ground (arith, p.indivisible j found.from below)),
      ),
    )

-- Both modes: from 3 on the test of the benchmark ends, and it says whether the number is prime,
-- where `sqrt`, cut off, is the root of the number, and a double can hold the number.
pub is_counted-IsPrime :
    (doubles : Doubles) (fast_mode : Bool) (n : ℕ)
    → 3 ≤ n
    → IsRoot n (doubles.sqrt n)
    → doubles.rounded n ≡ n
    → (b : Bool) × (is_counted doubles fast_mode n ≡ some b) × ((b ≡ true) ↔ IsPrime n)
is_counted-IsPrime doubles true n h root whole = fast_test doubles n h root
is_counted-IsPrime doubles false n h root whole = slow_test doubles n (omega arith) whole
