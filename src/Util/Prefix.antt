-- ===== src/Util/Prefix.antt =====
-- `PrefixUnit` of src/util.cpp: the unit in which an amount of memory is shown.
pub mod Best
use cpu_x.Shared.{
  ℕ, zero, suc, ◌+◌, ◌/◌, ◌^◌, ◌==◌, if◌then◌else◌, Bool, true, false, List, [], ◌∷◌, drop,
  get_elem?, Option, none, some, codes,
}
use cpu_x.Dmi.Memory.{◌>>=◌}

pub data Multipliers : Type 0 where
  mult_none mult_k mult_m mult_g mult_t mult_p mult_e mult_last : Multipliers

abbrev pub multiplier_number : Multipliers → ℕ
multiplier_number mult_none = 0
multiplier_number mult_k = 1
multiplier_number mult_m = 2
multiplier_number mult_g = 3
multiplier_number mult_t = 4
multiplier_number mult_p = 5
multiplier_number mult_e = 6
multiplier_number mult_last = 7

-- `struct Table`, with the number of the multiplier; the prefix is not translated yet.
pub record PrefixEntry : Type 0 where
  pub multiplier : ℕ
  pub prefix : List ℕ
  pub divisor : ℕ

abbrev pub entry : ℕ → List ℕ → ℕ → PrefixEntry
entry m p d = record { multiplier = m; prefix = p; divisor = d }

abbrev pub si_prefixes : List PrefixEntry
si_prefixes =
    entry 0 (codes "bytes") 1
    ∷ entry 1 (codes "kB") (10 ^ 3)
    ∷ entry 2 (codes "MB") (10 ^ 6)
    ∷ entry 3 (codes "GB") (10 ^ 9)
    ∷ entry 4 (codes "TB") (10 ^ 12)
    ∷ entry 5 (codes "PB") (10 ^ 15)
    ∷ entry 6 (codes "EB") (10 ^ 18)
    ∷ []

abbrev pub binary_prefixes : List PrefixEntry
binary_prefixes =
    entry 0 (codes "bytes") 1
    ∷ entry 1 (codes "KiB") (2 ^ 10)
    ∷ entry 2 (codes "MiB") (2 ^ 20)
    ∷ entry 3 (codes "GiB") (2 ^ 30)
    ∷ entry 4 (codes "TiB") (2 ^ 40)
    ∷ entry 5 (codes "PiB") (2 ^ 50)
    ∷ entry 6 (codes "EiB") (2 ^ 60)
    ∷ []

pub record PrefixUnit : Type 0 where
  pub init : Bool
  pub prefix : List ℕ
  pub divisor : ℕ

-- The first loop reads the entry before it tests the index, so a multiplier that has none is a
-- read outside the array.
unfoldable pub find_multiplier : List PrefixEntry → ℕ → ℕ → Option ℕ
find_multiplier [] m i = none
find_multiplier (e ∷ es) m i =
    let later = find_multiplier es m (i + 1) in if e.multiplier == m then some i else later

-- The second loop, at the entries from `prefix_index` and from `divisor_index` on.
unfoldable pub raise : ℕ → List PrefixEntry → List PrefixEntry → PrefixUnit → PrefixUnit
raise value [] ds u = u
raise value (p ∷ ps) [] u = u
raise value (p ∷ ps) (d ∷ ds) u =
    let higher = raise value ps ds (record u { prefix = p.prefix; divisor = d.divisor }) in
    if value / d.divisor == 0 then u else higher

-- The division by a divisor of the table is never one by 0.
unfoldable pub find_best_prefix : ℕ → Multipliers → Bool → PrefixUnit → Option PrefixUnit
find_best_prefix value multiplier use_si_prefixes u =
    let prefixes = if use_si_prefixes then si_prefixes else binary_prefixes in
    find_multiplier prefixes (multiplier_number multiplier) 0 >>= λ index.
    get_elem? prefixes index >>= λ own. get_elem? prefixes 0 >>= λ first. some (
      raise value (drop (index + 1) prefixes) (drop 1 prefixes)
        (record { init = true; prefix = own.prefix; divisor = first.divisor }))

abbrev pub find_best_si_prefix : ℕ → Multipliers → PrefixUnit → Option PrefixUnit
find_best_si_prefix value multiplier u = find_best_prefix value multiplier true u

abbrev pub find_best_binary_prefix : ℕ → Multipliers → PrefixUnit → Option PrefixUnit
find_best_binary_prefix value multiplier u = find_best_prefix value multiplier false u
