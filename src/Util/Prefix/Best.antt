-- ===== src/Util/Prefix/Best.antt =====
-- The unit that `PrefixUnit` chooses.
use cpu_x.Shared.{
  ℕ, zero, suc, ◌+◌, ◌/◌, ◌^◌, ◌==◌, ◌<◌, ◌≤◌, if◌then◌else◌, Bool, true, false, List, [], ◌∷◌,
  drop, get_or, Bool-cases, inl, inr, some, codes, ◌≡◌, ◌≢◌, ◌∙◌, ap, ◌-◌, ap₂, subst, refl, ◌*◌,
  ◌%◌, arith,
}
use native.Mathlib.Nat.{pow-suc, mod-lt, mul-suc}
use native.Mathlib.Omega.{div_fact}
use cpu_x.Util.Prefix.{
  Multipliers, mult_none, mult_k, mult_m, mult_g, mult_t, mult_p, mult_e, mult_last,
  multiplier_number, PrefixEntry, entry, si_prefixes, binary_prefixes, PrefixUnit, find_multiplier,
  raise, find_best_prefix,
}

-- What the prefixes mean: powers of a base, with their names.
abbrev pub base : Bool → ℕ
base true = 1000
base false = 1024

abbrev pub prefix_names : Bool → List (List ℕ)
prefix_names true =
    codes "bytes" ∷ codes "kB" ∷ codes "MB" ∷ codes "GB" ∷ codes "TB" ∷ codes "PB" ∷ codes "EB" ∷ []
prefix_names false =
    codes "bytes"
    ∷ codes "KiB"
    ∷ codes "MiB"
    ∷ codes "GiB"
    ∷ codes "TiB"
    ∷ codes "PiB"
    ∷ codes "EiB"
    ∷ []

abbrev pub prefix_unit : Bool → ℕ → ℕ → PrefixUnit
prefix_unit si i k = record {
  init = true;
  prefix = get_or (prefix_names si) i [];
  divisor = base si ^ k;
}

abbrev prefixes : Bool → List PrefixEntry
prefixes si = if si then si_prefixes else binary_prefixes

abbrev meant : Bool → ℕ → PrefixEntry
meant si i = entry i (get_or (prefix_names si) i []) (base si ^ i)

drop-prefixes :
    (si : Bool) (i : ℕ)
    → i < 6
    → drop (suc i) (prefixes si) ≡ meant si (suc i) ∷ drop (suc (suc i)) (prefixes si)
drop-prefixes true zero h = refl
drop-prefixes true (suc zero) h = refl
drop-prefixes true (suc (suc zero)) h = refl
drop-prefixes true (suc (suc (suc zero))) h = refl
drop-prefixes true (suc (suc (suc (suc zero)))) h = refl
drop-prefixes true (suc (suc (suc (suc (suc zero))))) h = refl
drop-prefixes false zero h = refl
drop-prefixes false (suc zero) h = refl
drop-prefixes false (suc (suc zero)) h = refl
drop-prefixes false (suc (suc (suc zero))) h = refl
drop-prefixes false (suc (suc (suc (suc zero)))) h = refl
drop-prefixes false (suc (suc (suc (suc (suc zero))))) h = refl
drop-prefixes si (suc (suc (suc (suc (suc (suc i)))))) h = absurd (omega arith)

-- Index `j` behind `k`, up to which the loop went.
pub record IsBest (value : ℕ) (si : Bool) (i k j : ℕ) : Type 0 where
  pub in_range : i + j ≤ 6
  pub reached : j ≢ 0 → base si ^ (k + j) ≤ value
  pub next_above : i + j < 6 → value < base si ^ suc (k + j)

base-positive : (si : Bool) (k : ℕ) → 0 < base si ^ k
base-positive true zero = omega arith
base-positive true (suc k) = omega (arith, pow-suc 1000 k, base-positive true k)
base-positive false zero = omega arith
base-positive false (suc k) = omega (arith, pow-suc 1024 k, base-positive false k)

below_divisor : (value d : ℕ) → 0 < d → (value / d == 0) ≡ true → value < d
below_divisor value zero h e = absurd (omega arith)
below_divisor value (suc d) h e =
    quotient_zero (value / suc d) (div_fact value d) (mod-lt value h) (ground arith)
  where
    quotient_zero :
        (q : ℕ) → suc d * q + value % suc d ≡ value → value % suc d < suc d → q ≡ 0 → value < suc d
    quotient_zero zero f m z = omega arith
    quotient_zero (suc q) f m z = absurd (omega arith)

from_divisor : (value d : ℕ) → 0 < d → (value / d == 0) ≡ false → d ≤ value
from_divisor value zero h e = absurd (omega arith)
from_divisor value (suc d) h e = quotient_suc (value / suc d) (div_fact value d) (ground arith)
  where
    quotient_suc : (q : ℕ) → suc d * q + value % suc d ≡ value → q ≢ 0 → suc d ≤ value
    quotient_suc zero f z = absurd (z refl)
    quotient_suc (suc q) f z = omega (arith, mul-suc (suc d) q)

drop-prefixes_all : (si : Bool) (i : ℕ) → i ≡ 6 → drop (suc i) (prefixes si) ≡ []
drop-prefixes_all true i h = rw h refl
drop-prefixes_all false i h = rw h refl

reached_further :
    (value : ℕ) (si : Bool) (k j : ℕ)
    → base si ^ suc k ≤ value
    → (j ≢ 0 → base si ^ (suc k + j) ≤ value)
    → base si ^ (k + suc j) ≤ value
reached_further value si k zero h r =
    subst (λ (n : ℕ). base si ^ n ≤ value) {x = suc k} (omega arith) h
reached_further value si k (suc j) h r =
    subst (λ (n : ℕ). base si ^ n ≤ value) {x = suc k + suc j} (omega arith)
      (r (λ z. absurd (omega arith)))

raise-IsBest :
    (value : ℕ) (si : Bool) (r i k : ℕ)
    → i + r ≡ 6
    → k ≤ i
    → (j : ℕ) × (raise value
          (drop (suc i) (prefixes si))
          (drop (suc k) (prefixes si))
          (prefix_unit si i k)
        ≡ prefix_unit si (i + j) (k + j))
      × IsBest value si i k j
unfolding raise
raise-IsBest value si zero i k e h = (
  0,
  rw (drop-prefixes_all si i (omega arith)) (ap₂ (prefix_unit si) (omega arith) (omega arith)),
  record {
    in_range = omega arith;
    reached = λ z. absurd (z refl);
    next_above = λ z. absurd (omega arith);
  },
)
raise-IsBest value si (suc r) i k e h = elim (Bool-cases (value / base si ^ suc k == 0)) [
  | inl small ↦ (
    0,
    rw (drop-prefixes si i (omega arith), drop-prefixes si k (omega arith), small)
        (ap₂ (prefix_unit si) (omega arith) (omega arith)),
    record {
      in_range = omega arith;
      reached = λ z. absurd (z refl);
      next_above = λ z.
          subst (λ (n : ℕ). value < base si ^ suc n) (omega arith)
            (below_divisor value _ (base-positive si (suc k)) small);
    },
  )
  | inr large ↦
      let (j, ends, best) = raise-IsBest value si r (suc i) (suc k) (omega arith) (omega arith) in
      (
        suc j,
        rw (drop-prefixes si i (omega arith), drop-prefixes si k (omega arith), large)
            (ends ∙ ap₂ (prefix_unit si) (omega arith) (omega arith)),
        record {
          in_range = omega (arith, best.in_range);
          reached = λ z.
              reached_further value si k j (from_divisor value _ (base-positive si (suc k)) large)
                best.reached;
          next_above = λ z.
              subst (λ (n : ℕ). value < base si ^ suc n) (omega arith)
                (best.next_above (omega arith));
        },
      )
]

-- The first loop finds the multiplier's own entry.
starts_at :
    (value : ℕ) (m : Multipliers) (si : Bool) (u : PrefixUnit)
    → m ≢ mult_last
    → let i = multiplier_number m in
      find_best_prefix value m si u
      ≡ some (raise value (drop (suc i) (prefixes si)) (drop 1 (prefixes si)) (prefix_unit si i 0))
unfolding find_best_prefix find_multiplier
starts_at value mult_none true u h = refl
starts_at value mult_k true u h = refl
starts_at value mult_m true u h = refl
starts_at value mult_g true u h = refl
starts_at value mult_t true u h = refl
starts_at value mult_p true u h = refl
starts_at value mult_e true u h = refl
starts_at value mult_none false u h = refl
starts_at value mult_k false u h = refl
starts_at value mult_m false u h = refl
starts_at value mult_g false u h = refl
starts_at value mult_t false u h = refl
starts_at value mult_p false u h = refl
starts_at value mult_e false u h = refl
starts_at value mult_last si u h = absurd (h refl)

multiplier_number_le : (m : Multipliers) → m ≢ mult_last → multiplier_number m ≤ 6
multiplier_number_le m h = ground arith

-- For every value and every real multiplier, `find_best_prefix` returns: the prefix is `k` places
-- above the multiplier's, and not above the last one, and the divisor is the `k`th power of the
-- base, 1000 or 1024. Where `k` is not 0 this power is at most the value, and the next power is
-- above the value wherever there is a prefix for it.
pub find_best_prefix-IsBest :
    (value : ℕ) (m : Multipliers) (si : Bool) (u : PrefixUnit)
    → m ≢ mult_last
    → (k : ℕ) × (find_best_prefix value m si u ≡ some (prefix_unit si (multiplier_number m + k) k))
      × IsBest value si (multiplier_number m) 0 k
find_best_prefix-IsBest value m si u h =
    let i = multiplier_number m in
    let (k, ends, best) =
      raise-IsBest value si (6 - i) i 0 (omega (arith, multiplier_number_le m h)) (omega arith) in
    (
      k,
      starts_at value m si u h
          ∙ ap some ends
          ∙ ap (λ (n : ℕ). some (prefix_unit si (i + k) n)) (omega arith),
      best,
    )
