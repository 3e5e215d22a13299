-- ===== src/Dmi/Cpux/Runs.antt =====
-- Code on the context that runs on every structure with a terminated string area: it reads
-- nothing outside the block, returns, and leaves the structure terminated.
use cpu_x.Shared.{ℕ, ◌+◌, ◌^◌, ◌≤◌, ◌<◌, if◌then◌else◌, Bool, true, false, arith, All}
use cpu_x.Shared.{
  Option, some, inl, Option-cases, ◌≡◌, refl, ◌∙◌, inr, length, All-get_elem?, lt-of_get_elem?,
}
use cpu_x.Dmi.Memory.{Buffer, IsByte, byte, word}
use cpu_x.Dmi.Memory.Reads.{Defined, byte-Defined, word-Defined, dword-Defined}
use cpu_x.Dmi.Strings.{Header}
use cpu_x.Dmi.Strings.Safety.{IsTerminated, dmi_string_safe}
use cpu_x.Dmi.MemoryDevice.{Statics}
use cpu_x.Dmi.Cpux.{Context, M, ◌>>=◌, done, DmidecodeData, reading, with_statics, text_number}
use cpu_x.Dmi.Cpux.{change, field, word_field, dword_field, string_field}

word-lt : (buf : Buffer) (i : ℕ) {w : ℕ} → All IsByte buf → word buf i ≡ some w → w < 2 ^ 16
unfolding word
word-lt buf i b r = elim (Option-cases (byte buf i)) [
  | inl out ↦ cc
  | inr (lo, r1) ↦ elim (Option-cases (byte buf (i + 1))) [
    | inl out ↦ cc
    | inr (hi, r2) ↦
        ground (arith, All-get_elem? IsByte buf i b r1, All-get_elem? IsByte buf (i + 1) b r2)
  ]
]

module _ (h : Header) (e len : ℕ) where
  pub record Good (c : Context) : Type 0 where
    pub closed : IsTerminated c.block h e
    pub same_length : length c.block ≡ len
    pub bytes : All IsByte c.block

  -- The result is also known to satisfy `P`.
  abbrev pub RunsTo : {A : Type 0} → (A → Type 0) → M A → Type 0
  RunsTo {A} P m =
      (c : Context) → Good c → (a : A) × (c' : Context) × (m c ≡ some (a, c')) × Good c' × P a

  abbrev pub Runs : {A : Type 0} → M A → Type 0
  Runs m = RunsTo (λ _. Unit {0}) m

  pub RunsTo-bind :
      {A B : Type 0} (P : A → Type 0) (Q : B → Type 0) (m : M A) (f : A → M B)
      → RunsTo P m
      → ((a : A) → P a → RunsTo Q (f a))
      → RunsTo Q (m >>= f)
  RunsTo-bind P Q m f r k c g =
      let (a, c', e1, g', p) = r c g in
      let (b, c'', e2, g'', q) = k a p c' g' in (b, c'', rw (e1, ◌>>=◌) e2, g'', q)

  pub Runs-bind :
      {A B : Type 0} (m : M A) (f : A → M B) → Runs m → ((a : A) → Runs (f a)) → Runs (m >>= f)
  Runs-bind m f r k = RunsTo-bind (λ _. Unit {0}) (λ _. Unit {0}) m f r (λ a _. k a)

  pub Runs-done : Runs done
  Runs-done c g = (tt, c, refl, g, tt)

  pub Runs-change : (f : DmidecodeData → DmidecodeData) → Runs (change f)
  unfolding change
  Runs-change f c g = (
    tt,
    record c { data_of = f c.data_of },
    refl,
    record { closed = g.closed; same_length = g.same_length; bytes = g.bytes },
    tt,
  )

  pub Runs-if :
      {A : Type 0} (P : A → Type 0) (b : Bool) (m n : M A)
      → (b ≡ true → RunsTo P m)
      → (b ≡ false → RunsTo P n)
      → RunsTo P (if b then m else n)
  Runs-if P true m n p q = p refl
  Runs-if P false m n p q = q refl

  pub Runs-with_statics :
      {A : Type 0} (f : Statics → Option (A × Statics))
      → ((s : Statics) → Defined (f s))
      → Runs (with_statics f)
  unfolding with_statics
  Runs-with_statics f d c g =
      let ((a, s), e1) = d c.statics in
      (
        a,
        record c { statics = s },
        rw (e1, with_statics),
        record { closed = g.closed; same_length = g.same_length; bytes = g.bytes },
        tt,
      )

  pub RunsTo-reading :
      {A : Type 0} (P : A → Type 0) (f : Buffer → Option A)
      → ((c : Context) → Good c → (a : A) × (f c.block ≡ some a) × P a)
      → RunsTo P (reading f)
  unfolding reading
  RunsTo-reading P f d c g = let (a, e1, p) = d c g in (a, c, rw (e1, reading), g, p)

  -- What `dmi_string` needs is what `Good` keeps.
  pub Runs-text_number : (s : ℕ) → Runs (text_number h s)
  unfolding text_number
  Runs-text_number s c g =
      let r = dmi_string_safe c.block h e s g.closed in
      (
        r.result.text,
        record c { block = r.result.block },
        rw (r.returns, text_number),
        record {
          closed = record {
            fits = g.closed.fits;
            last = r.same.same_bytes e (inr (omega arith)) ∙ g.closed.last;
            after = r.same.same_bytes (e + 1) (inr (omega arith)) ∙ g.closed.after;
          };
          same_length = r.same.same_length ∙ g.same_length;
          bytes = r.bytes g.bytes;
        },
        tt,
      )

  room : (c : Context) → Good c → h.start + h.length + 2 ≤ length c.block
  room c g = omega (arith, g.closed.fits, lt-of_get_elem? c.block (e + 1) g.closed.after)

  -- Fields inside the formatted area can be read, and hold what their width allows.
  pub RunsTo-field : (k : ℕ) → k < h.length → RunsTo IsByte (field h k)
  unfolding field
  RunsTo-field k lt = RunsTo-reading IsByte _ λ c g.
      let (a, e1) = byte-Defined c.block (h.start + k) (omega (arith, room c g)) in
      (a, e1, All-get_elem? IsByte c.block (h.start + k) g.bytes e1)

  pub RunsTo-word_field : (k : ℕ) → k + 2 ≤ h.length → RunsTo (λ w. w < 2 ^ 16) (word_field h k)
  unfolding word_field
  RunsTo-word_field k le =
      RunsTo-reading (λ w. w < 2 ^ 16) _
        λ c g.
          let (a, e1) = word-Defined c.block (h.start + k) (omega (arith, room c g)) in
          (a, e1, word-lt c.block (h.start + k) g.bytes e1)

  pub Runs-dword_field : (k : ℕ) → k + 4 ≤ h.length → Runs (dword_field h k)
  unfolding dword_field
  Runs-dword_field k le =
      RunsTo-reading (λ _. Unit {0}) _
        λ c g.
          let (a, e1) = dword-Defined c.block (h.start + k) (omega (arith, room c g)) in (a, e1, tt)

  pub Runs-string_field : (k : ℕ) → k < h.length → Runs (string_field h k)
  unfolding string_field
  Runs-string_field k lt =
      RunsTo-bind IsByte (λ _. Unit {0}) (field h k) (text_number h) (RunsTo-field k lt)
        (λ s _. Runs-text_number s)
