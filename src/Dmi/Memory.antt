-- ===== src/Dmi/Memory.antt =====
-- Reads of a memory block: the access macros of types.h, `checksum` of util.c and the string
-- functions that the decoder calls. A read outside the block is a fault, `none`.
pub mod Reads
use cpu_x.Shared.{◌<◌, ℕ, zero, suc, ◌+◌, ◌*◌, ◌%◌, ◌^◌, ◌==◌, Bool}
use cpu_x.Shared.{Option, none, some, List, get_elem?}

abbrev pub Buffer : Type 0
Buffer = List ℕ

-- A `u8`.
abbrev pub IsByte : ℕ → Type 0
IsByte x = x < 2 ^ 8

infixl 5 ◌>>=◌
abbrev pub ◌>>=◌ {ℓ κ} : {A : Type ℓ} {B : Type κ} → Option A → (A → Option B) → Option B
none >>= f = none
some a >>= f = f a

-- `buf[i]`.
abbrev pub byte : Buffer → ℕ → Option ℕ
byte buf i = get_elem? buf i

-- `WORD`, `DWORD` and `QWORD`: little-endian values of 2, 4 and 8 bytes.
unfoldable pub word : Buffer → ℕ → Option ℕ
word buf i = do a ← byte buf i; b ← byte buf (i + 1); some (a + b * 2 ^ 8)

unfoldable pub dword : Buffer → ℕ → Option ℕ
dword buf i = do
  a ← byte buf i
  b ← byte buf (i + 1)
  c ← byte buf (i + 2)
  d ← byte buf (i + 3)
  some (a + b * 2 ^ 8 + c * 2 ^ 16 + d * 2 ^ 24)

unfoldable pub qword : Buffer → ℕ → Option ℕ
unfolding dword
qword buf i = do hi ← dword buf (i + 4); lo ← dword buf i; some (hi * 2 ^ 32 + lo)

-- The loop of `checksum`, at index `a` with `left` bytes to go; the sum is a `u8`.
unfoldable pub checksum_loop : Buffer → ℕ → ℕ → ℕ → Option ℕ
checksum_loop buf zero a sum = some sum
checksum_loop buf (suc left) a sum = do
  x ← byte buf a
  checksum_loop buf left (a + 1) ((sum + x) % 2 ^ 8)

unfoldable pub checksum : Buffer → ℕ → ℕ → Option Bool
unfolding checksum_loop
checksum buf base len = do sum ← checksum_loop buf len base 0; some (sum == 0)
