-- ===== src/Dmi/EntryPoint/Sum.antt =====
-- The checksum of a range of bytes as a sum, and what a write does to it.
use cpu_x.Shared.{ℕ, zero, suc, ◌+◌, ◌%◌, ◌^◌, ◌≤◌, ◌<◌, ◌==◌, arith}
use cpu_x.Shared.{some, [], ◌∷◌, set, length, get_or}
use cpu_x.Shared.{◌≡◌, ◌≢◌, refl, ap, ◌∙◌, ◌⊎◌, inl, inr}
use native.Mathlib.Decide.{ℕ_discrete}
use cpu_x.Dmi.Memory.{Buffer, byte, checksum, checksum_loop}
use cpu_x.Dmi.EntryPoint.{sum_bytes}

-- The byte at a place in range.
abbrev pub at : Buffer → ℕ → ℕ
at buf i = get_or buf i 0

pub byte-at : (buf : Buffer) (i : ℕ) → i < length buf → byte buf i ≡ some (at buf i)
byte-at [] i h = absurd (omega arith)
byte-at (x ∷ xs) zero h = refl
byte-at (x ∷ xs) (suc i) h = byte-at xs i (omega arith)

pub at-set_self : (buf : Buffer) (i v : ℕ) → i < length buf → at (set buf i v) i ≡ v
at-set_self [] i v h = absurd (omega arith)
at-set_self (x ∷ xs) zero v h = refl
at-set_self (x ∷ xs) (suc i) v h = at-set_self xs i v (omega arith)

pub at-set_ne : (buf : Buffer) (i j v : ℕ) → i ≢ j → at (set buf i v) j ≡ at buf j
at-set_ne [] i j v h = refl
at-set_ne (x ∷ xs) zero zero v h = absurd (h refl)
at-set_ne (x ∷ xs) zero (suc j) v h = refl
at-set_ne (x ∷ xs) (suc i) zero v h = refl
at-set_ne (x ∷ xs) (suc i) (suc j) v h = at-set_ne xs i j v (λ e. h (ap suc e))

-- The sum of `n` bytes from `i` on.
unfoldable pub total : ℕ → ℕ → Buffer → ℕ
total zero i buf = 0
total (suc n) i buf = at buf i + total n (i + 1) buf

pub sum_bytes-total :
    (n i : ℕ) (buf : Buffer) → i + n ≤ length buf → sum_bytes n i buf ≡ some (total n i buf)
unfolding sum_bytes total
sum_bytes-total zero i buf h = refl
sum_bytes-total (suc n) i buf h =
    rw (byte-at buf i (omega arith), sum_bytes-total n (i + 1) buf (omega arith))

checksum_loop-total :
    (n i sum : ℕ) (buf : Buffer)
    → i + n ≤ length buf
    → sum < 2 ^ 8
    → checksum_loop buf n i sum ≡ some ((sum + total n i buf) % 2 ^ 8)
unfolding checksum_loop total
checksum_loop-total zero i sum buf h lt = ap some (omega arith)
checksum_loop-total (suc n) i sum buf h lt = rw (byte-at buf i (omega arith)) (
    checksum_loop-total n (i + 1) ((sum + at buf i) % 2 ^ 8) buf (omega arith) (omega arith)
    ∙ ap some (omega arith))

-- For a range that lies in the block, `checksum` returns whether its bytes add up to 0 modulo 256.
pub checksum-total :
    (buf : Buffer) (base len : ℕ)
    → base + len ≤ length buf
    → checksum buf base len ≡ some (total len base buf % 2 ^ 8 == 0)
unfolding checksum
checksum-total buf base len h =
    rw (checksum_loop-total len base 0 buf h (omega arith))
      (ap (λ (k : ℕ). some (k % 2 ^ 8 == 0)) {y = total len base buf} (omega arith))

pub total-set_outside :
    (n i k v : ℕ) (buf : Buffer) → (k < i) ⊎ (i + n ≤ k) → total n i (set buf k v) ≡ total n i buf
unfolding total
total-set_outside zero i k v buf o = refl
total-set_outside (suc n) i k v buf o = omega (
  arith,
  at-set_ne buf k i v
      (elim o [ inl a ↦ λ e. absurd (omega arith) | inr b ↦ λ e. absurd (omega arith) ]),
  total-set_outside n (i + 1) k v buf
      (elim o [ inl a ↦ inl (omega arith) | inr b ↦ inr (omega arith) ]),
)

-- A write in the range changes the sum by the difference of the bytes.
pub total-set :
    (n i k v : ℕ) (buf : Buffer)
    → i ≤ k
    → k < i + n
    → k < length buf
    → total n i (set buf k v) + at buf k ≡ total n i buf + v
unfolding total
total-set zero i k v buf le lt h = absurd (omega arith)
total-set (suc n) i k v buf le lt h = elim (ℕ_discrete i k) [
  | yes same ↦ rw same (
      omega (arith, at-set_self buf k v h, total-set_outside n (k + 1) k v buf (inl (omega arith))))
  | no other ↦ omega (
    arith,
    at-set_ne buf k i v (λ e. other (omega arith)),
    total-set n (i + 1) k v buf (omega arith) (omega arith) h,
  )
]
