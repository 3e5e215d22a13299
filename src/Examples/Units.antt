-- ===== src/Examples/Units.antt =====
-- The theorems on the helpers of src/util.cpp, at concrete texts and numbers.
use cpu_x.Shared.{
  ℕ, ◌+◌, ◌*◌, ◌^◌, false, some, none, List, [], ◌∷◌, codes, refl, ◌⊎◌, ◌≢◌, ◌%◌, ◌≡◌, arith,
}
use cpu_x.Dmi.Memory.{◌>>=◌}
use cpu_x.Dmi.MemorySize.{Amount}
use cpu_x.Dmi.MemorySize.Nearly.{IsNearly}
use cpu_x.Util.SizeUnit.Devices.{device_size_shown}
use cpu_x.Dmi.MemoryDevice.{memory_size_text, no_statics, dmi_memory_device_size_str}
use cpu_x.Util.SizeUnit.{string_set_size_unit, replace, one_round}
use cpu_x.Util.SizeUnit.Replaced.{plain, mib_token, kb_token, string_set_size_unit-source}
use cpu_x.Util.SizeUnit.Endless.{string_set_size_unit-endless}
use cpu_x.Util.SizeUnit.Sizes.{size_shown, memory_size_shown}
use cpu_x.Util.Prefix.{PrefixUnit, mult_k, multiplier_number, find_best_prefix}
use cpu_x.Util.Prefix.Best.{IsBest, prefix_unit, find_best_prefix-IsBest}

abbrev english : List ℕ → List ℕ
english text = text

string_set_size_unit-source_example :
    string_set_size_unit english (codes "8 @MIB@@KB@") ≡ some (codes "8 MiBkB")
string_set_size_unit-source_example = string_set_size_unit-source english (
    plain b'8' (λ e. absurd (omega arith))
    ∷ plain b' ' (λ e. absurd (omega arith))
    ∷ mib_token
    ∷ kb_token
    ∷ [])

no_unit : string_set_size_unit english (codes "8 @") ≡ none
unfolding string_set_size_unit replace one_round
no_unit = refl

string_set_size_unit-endless_example : replace english 1000 (codes "a@b.org") ≡ none
string_set_size_unit-endless_example =
    string_set_size_unit-endless english (codes "a") (codes "b.org") 1000 (ground arith)
      (ground arith) (ground arith)

-- 1.5 GiB, counted in KiB.
memory_size_shown_example :
    (a : Amount) × ((memory_size_text (1536 * 1024) 1 >>= string_set_size_unit english)
      ≡ some (size_shown english a.capacity (a.unit + 1)))
    × IsNearly (1536 * 1024) a
memory_size_shown_example = memory_size_shown english 1 (1536 * 1024) (omega arith) (omega arith)

device_size_shown_example :
    (number unit : ℕ) × ((dmi_memory_device_size_str 1536 no_statics >>= λ r.
    string_set_size_unit english r.0)
      ≡ some (size_shown english number unit))
    × (number * 1024 ^ unit ≡ 1536 * 1024 ^ 2)
    × ((1536 * 1024 ^ 2 ≡ 0) ⊎ (number % 1024 ≢ 0))
device_size_shown_example =
    device_size_shown english 1536 no_statics (omega arith) (omega arith) (omega arith)

abbrev fresh : PrefixUnit
fresh = record { init = false; prefix = []; divisor = 1 }

find_best_prefix-IsBest_example :
    (k : ℕ) × (find_best_prefix 16000000 mult_k false fresh
      ≡ some (prefix_unit false (multiplier_number mult_k + k) k))
    × IsBest 16000000 false (multiplier_number mult_k) 0 k
find_best_prefix-IsBest_example = find_best_prefix-IsBest 16000000 mult_k false fresh (λ e. cc)
