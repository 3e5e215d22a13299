-- ===== src/Daemon/Bytes.antt =====
-- Integers and structures as the bytes that `write` and `read` of src/daemon move: little-endian,
-- with no padding between the arrays of characters.
use cpu_x.Shared.{ℕ, zero, suc, ◌+◌, ◌*◌, ◌/◌, ◌%◌, ◌^◌, ◌<◌, List, [], ◌∷◌, ◌++◌, length, arith}
use cpu_x.Shared.{◌≡◌, refl}
use native.Mathlib.Nat.{pow-suc}
use cpu_x.Dmi.Cpux.{maxstr, BiosData, MbData, CpuData, MemoryData}

-- An integer of `w` bytes; an `int` is taken as its value modulo 2 ^ 32.
abbrev pub le_bytes : ℕ → ℕ → List ℕ
le_bytes zero x = []
le_bytes (suc w) x = (x % 256) ∷ le_bytes w (x / 256)

abbrev pub le_value : List ℕ → ℕ
le_value [] = 0
le_value (b ∷ bs) = b + 256 * le_value bs

pub length-le_bytes : (w x : ℕ) → length (le_bytes w x) ≡ w
length-le_bytes zero x = refl
length-le_bytes (suc w) x = omega (arith, length-le_bytes w (x / 256))

pub le_value-le_bytes : (w x : ℕ) → x < 256 ^ w → le_value (le_bytes w x) ≡ x
le_value-le_bytes zero x h = omega arith
le_value-le_bytes (suc w) x h =
    omega (arith, le_value-le_bytes w (x / 256) (omega (arith, pow-suc 256 w)))

-- `DmidecodeMBData`, `DmidecodeBiosData` and `DmidecodeMemoryData`.
abbrev pub mb_bytes : MbData → List ℕ
mb_bytes d = d.manufacturer ++ (d.model ++ d.revision)

abbrev pub bios_bytes : BiosData → List ℕ
bios_bytes d = d.brand ++ (d.version ++ (d.date ++ d.romsize))

abbrev pub memory_bytes : MemoryData → List ℕ
memory_bytes d =
    d.manufacturer
    ++ (d.part_number
        ++ (d.type
            ++ (d.type_detail
                ++ (d.device_locator
                    ++ (d.bank_locator
                        ++ (d.size
                            ++ (d.rank
                                ++ (d.speed_maximum
                                    ++ (d.speed_configured
                                        ++ (d.voltage_minimum
                                            ++ (d.voltage_maximum ++ d.voltage_configured)))))))))))

-- `DmidecodeCPUData`; `double_bytes` is the compiler's form of a `double`.
abbrev pub cpu_bytes : (ℕ → List ℕ) → CpuData → List ℕ
cpu_bytes double_bytes d = double_bytes d.bus_freq ++ d.cpu_package

-- The sizes of the structures.
abbrev pub cpu_size : ℕ
cpu_size = 8 + maxstr

abbrev pub mb_size : ℕ
mb_size = 3 * maxstr

abbrev pub bios_size : ℕ
bios_size = 4 * maxstr

abbrev pub memory_size : ℕ
memory_size = 13 * maxstr
