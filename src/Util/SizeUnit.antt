-- ===== src/Util/SizeUnit.antt =====
-- `string_set_size_unit` of src/util.cpp: the tokens for units in a text are replaced by the units.
pub mod Replaced
pub mod Endless
pub mod Sizes
pub mod Devices
use cpu_x.Shared.{
  ℕ, zero, suc, ◌==◌, if◌then◌else◌, Bool, false, List, [], ◌∷◌, ◌++◌, length, drop, get_elem?,
  Option, none, some, codes,
}
use cpu_x.Dmi.Memory.{◌>>=◌}
use cpu_x.Dmi.Vendor.{same_start}

-- The tokens and the units of util.hpp.
abbrev pub si_units : List (List ℕ × List ℕ)
si_units =
    (codes "@0B@", codes "bytes")
    ∷ (codes "@KB@", codes "kB")
    ∷ (codes "@MB@", codes "MB")
    ∷ (codes "@GB@", codes "GB")
    ∷ (codes "@TB@", codes "TB")
    ∷ (codes "@PB@", codes "PB")
    ∷ (codes "@EB@", codes "EB")
    ∷ []

abbrev pub binary_units : List (List ℕ × List ℕ)
binary_units =
    (codes "@KIB@", codes "KiB")
    ∷ (codes "@MIB@", codes "MiB")
    ∷ (codes "@GIB@", codes "GiB")
    ∷ (codes "@TIB@", codes "TiB")
    ∷ (codes "@PIB@", codes "PiB")
    ∷ (codes "@EIB@", codes "EiB")
    ∷ []

abbrev pub is_at : Option ℕ → Bool
is_at none = false
is_at (some c) = c == b'@'

-- `gettext` is the translation of a unit.
module _ (gettext : List ℕ → List ℕ) where
  -- The chain of comparisons: the unit of the token that the text starts with, empty where there is
  -- none.
  unfoldable pub find_unit : ℕ → List (List ℕ × List ℕ) → List ℕ → List ℕ
  find_unit n [] text = []
  find_unit n (entry ∷ units) text =
      let others = find_unit n units text in
      if same_start n text entry.0 then gettext entry.1 else others

  -- One round of the loop, at a text that is not empty: what is added to the result, and the text
  -- that is left.
  unfoldable pub one_round : List ℕ → List ℕ × List ℕ
  one_round [] = ([], [])
  one_round (c ∷ text) =
      if c == b'@'
      then (if is_at (get_elem? text 2)
          then (find_unit 4 si_units (c ∷ text), drop 3 text)
          else if is_at (get_elem? text 3)
          then (find_unit 5 binary_units (c ∷ text), drop 4 text)
          else ([], c ∷ text))
      else (c ∷ [], text)

  -- The loop, for at most so many rounds.
  unfoldable pub replace : ℕ → List ℕ → Option (List ℕ)
  replace zero [] = some []
  replace (suc n) [] = some []
  replace zero (c ∷ text) = none
  replace (suc n) (c ∷ text) =
      replace n (one_round (c ∷ text)).1 >>= λ shown. some ((one_round (c ∷ text)).0 ++ shown)

  unfoldable pub string_set_size_unit : List ℕ → Option (List ℕ)
  string_set_size_unit text = replace (length text) text
