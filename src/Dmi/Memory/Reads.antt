-- ===== src/Dmi/Memory/Reads.antt =====
-- Reads that succeed: one rule for each way in which the decoder puts reads together.
use cpu_x.Shared.{ℕ, ◌+◌, ◌*◌, ◌^◌, ◌≤◌, ◌<◌, if◌then◌else◌, Bool, true, false, arith}
use cpu_x.Shared.{Option, none, some, ◌≡◌, refl, length, get_elem?-some}
use cpu_x.Dmi.Memory.{Buffer, byte, word, dword, ◌>>=◌}

-- The code reads nothing outside the block, and returns.
abbrev pub Defined {ℓ} : {A : Type ℓ} → Option A → Type ℓ
Defined {A} m = (a : A) × (m ≡ some a)

pub Defined-bind {ℓ κ} :
    {A : Type ℓ} {B : Type κ} (m : Option A) (f : A → Option B)
    → Defined m
    → ((a : A) → m ≡ some a → Defined (f a))
    → Defined (m >>= f)
Defined-bind none f (a, e) k = cc
Defined-bind (some a) f d k = k a refl

-- The test's outcome is at hand in each branch.
pub Defined-if {ℓ} :
    {A : Type ℓ} (b : Bool) (x y : Option A)
    → (b ≡ true → Defined x)
    → (b ≡ false → Defined y)
    → Defined (if b then x else y)
Defined-if true x y p q = p refl
Defined-if false x y p q = q refl

pub byte-Defined : (buf : Buffer) (i : ℕ) → i < length buf → Defined (byte buf i)
byte-Defined buf i h = get_elem?-some buf i h

pub word-Defined : (buf : Buffer) (i : ℕ) → i + 2 ≤ length buf → Defined (word buf i)
unfolding word
word-Defined buf i h =
    let (a, ra) = get_elem?-some buf i (omega arith) in
    let (b, rb) = get_elem?-some buf (i + 1) (omega arith) in (a + b * 2 ^ 8, rw (ra, rb))

pub dword-Defined : (buf : Buffer) (i : ℕ) → i + 4 ≤ length buf → Defined (dword buf i)
unfolding dword
dword-Defined buf i h =
    let (a, ra) = get_elem?-some buf i (omega arith) in
    let (b, rb) = get_elem?-some buf (i + 1) (omega arith) in
    let (c, rc) = get_elem?-some buf (i + 2) (omega arith) in
    let (d, rd) = get_elem?-some buf (i + 3) (omega arith) in
    (a + b * 2 ^ 8 + c * 2 ^ 16 + d * 2 ^ 24, rw (ra, rb, rc, rd))
