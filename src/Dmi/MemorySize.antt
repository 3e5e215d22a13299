-- ===== src/Dmi/MemorySize.antt =====
-- Sizes in powers of 1024: `dmi_print_memory_size`, `dmi_print_memory_size_str` and the functions
-- of core/dmidecode/dmidecode.c that choose a unit for a size field. A mask of `k` low ones is the
-- remainder by `2 ^ k`, and a shift to the right by `k` is the quotient.
pub mod Exact
pub mod Nearly
use cpu_x.Shared.{ℕ, zero, suc, ◌+◌, ◌-◌, ◌*◌, ◌/◌, ◌%◌, ◌^◌, ◌==◌, ltb, if◌then◌else◌, ◌&&◌, not}

-- A number of units of `1024 ^ unit` bytes.
pub record Amount : Type 0 where
  pub capacity : ℕ
  pub unit : ℕ

-- `split[i]`.
abbrev pub split : ℕ → ℕ → ℕ
split code i = code / 2 ^ (10 * i) % 2 ^ 10

-- The loop that looks for the highest unit with a value that is not zero, from `i` down.
unfoldable pub highest : ℕ → ℕ → ℕ
highest code zero = zero
highest code (suc i) =
    let lower = highest code i in if split code (suc i) == 0 then lower else suc i

-- `capacity` and `i` behind the choice; `split[i + 1] << 10` does not overflow an `int`.
unfoldable pub amount_at : ℕ → ℕ → Amount
amount_at code zero = record { capacity = split code 0; unit = 0 }
amount_at code (suc i) =
    if split code i == 0
    then record { capacity = split code (suc i); unit = suc i }
    else record { capacity = split code i + split code (suc i) * 2 ^ 10; unit = i }

unfoldable pub memory_amount : ℕ → Amount
memory_amount code = amount_at code (highest code 6)

-- What `dmi_bios_runtime_size` chooses.
unfoldable pub runtime_amount : ℕ → Amount
runtime_amount code =
    if code % 2 ^ 10 == 0
    then record { capacity = code / 2 ^ 10; unit = 1 }
    else record { capacity = code; unit = 0 }

-- What `dmi_memory_device_extended_size` chooses; the field counts MiB.
unfoldable pub extended_amount : ℕ → Amount
extended_amount field =
    let code = field % 2 ^ 31 in
    if not (code % 2 ^ 10 == 0)
    then record { capacity = code; unit = 2 }
    else if not (code / 2 ^ 10 % 2 ^ 10 == 0)
    then record { capacity = code / 2 ^ 10; unit = 3 }
    else record { capacity = code / 2 ^ 20; unit = 4 }

-- What `dmi_memory_device_size` hands on for a field other than 0 and 0xFFFF: kibibytes.
unfoldable pub device_amount : ℕ → ℕ
device_amount code = if code / 2 ^ 15 % 2 == 0 then code % 2 ^ 15 * 2 ^ 10 else code % 2 ^ 15
