-- ===== src/Dmi/Cpux/Sizes.antt =====
-- The arrays of `DmidecodeData` in daemon/daemon.h, which `dmi_decode_cpux` fills.
pub mod Sticks
pub mod Kept
pub mod Table
use cpu_x.Shared.{
  ℕ, zero, suc, ◌+◌, ◌-◌, ◌*◌, ◌%◌, ◌^◌, ◌≤◌, ◌<◌, ◌==◌, leb, ltb, if◌then◌else◌, ◌&&◌, not, Bool,
  true, false, All, All-append, List, [], ◌∷◌, ◌++◌, length, length-append, take, drop, Option,
  none, some, Option-cases, Bool-cases, inl, inr, ◌≡◌, refl, sym, ◌∙◌, subst, ap, arith, codes,
}
use mathlib.Core.Option.{some-injective}
use cpu_x.Dmi.Memory.{Buffer}
use cpu_x.Dmi.Strings.{Header, dmi_string}
use cpu_x.Dmi.Print.{strncpy, snprintf, zeros}
use cpu_x.Dmi.Print.Laws.{length-strncpy}
use cpu_x.Dmi.MemoryDevice.{Statics}
use cpu_x.Dmi.Cpux.{
  maxstr, stored, BiosData, MbData, CpuData, MemoryData, DmidecodeData, Context, M, ◌>>=◌, ◌>>◌,
  done, reading, with_statics, text_number, change, field, word_field, dword_field, string_field,
  decode_bios, decode_mb, decode_cpu,
}
use cpu_x.Dmi.Cpux.Stick.{
  blank, grow, change_last, Surroundings, stick_size, stick_basics, stick_speed, stick_voltage,
  stick_voltages, stick_configured, stick_rank, stick_maker, stick_details, new_stick, decode_stick,
  dmi_decode_cpux, contains,
}

abbrev pub IsFull : List ℕ → Type 0
IsFull a = length a ≡ maxstr

-- Every array has its 80 bytes, and there are as many sticks as are counted.
pub record IsFilledBios (b : BiosData) : Type 0 where
  pub brand : IsFull b.brand
  pub version : IsFull b.version
  pub date : IsFull b.date
  pub romsize : IsFull b.romsize

pub record IsFilledMb (b : MbData) : Type 0 where
  pub manufacturer : IsFull b.manufacturer
  pub model : IsFull b.model
  pub revision : IsFull b.revision

pub record IsFilledStick (m : MemoryData) : Type 0 where
  pub manufacturer : IsFull m.manufacturer
  pub part_number : IsFull m.part_number
  pub type : IsFull m.type
  pub type_detail : IsFull m.type_detail
  pub device_locator : IsFull m.device_locator
  pub bank_locator : IsFull m.bank_locator
  pub size : IsFull m.size
  pub rank : IsFull m.rank
  pub speed_maximum : IsFull m.speed_maximum
  pub speed_configured : IsFull m.speed_configured
  pub voltage_minimum : IsFull m.voltage_minimum
  pub voltage_maximum : IsFull m.voltage_maximum
  pub voltage_configured : IsFull m.voltage_configured

pub record IsFilled (d : DmidecodeData) : Type 0 where
  pub bios : IsFilledBios d.bios
  pub mb : IsFilledMb d.mb
  pub package' : IsFull d.processor.cpu_package
  pub sticks : All IsFilledStick d.memory
  pub counted : d.stick_count ≤ length d.memory
  pub small : d.stick_count < 2 ^ 8

-- The data is filled wherever the code returns.
abbrev pub Outcome : {A : Type 0} → Option (A × Context) → Type 0
Outcome none = Unit {0}
Outcome (some r) = IsFilled r.1.data_of

abbrev pub Keeps : {A : Type 0} → M A → Type 0
Keeps m = (c : Context) → IsFilled c.data_of → Outcome (m c)

pub Keeps-bind :
    {A B : Type 0} (m : M A) (f : A → M B) → Keeps m → ((a : A) → Keeps (f a)) → Keeps (m >>= f)
Keeps-bind m f hm hf c d = elim (Option-cases (m c)) [
  | inl stuck ↦ rw (stuck, Outcome, ◌>>=◌) tt
  | inr (r, e) ↦ rw (e, Outcome, ◌>>=◌) (hf r.0 r.1 (subst Outcome e (hm c d)))
]

pub Keeps-if : {A : Type 0} (b : Bool) (m n : M A) → Keeps m → Keeps n → Keeps (if b then m else n)
Keeps-if true m n h k = h
Keeps-if false m n h k = k

pub Keeps-done : Keeps done
Keeps-done c d = d

pub Keeps-reading : {A : Type 0} (f : Buffer → Option A) → Keeps (reading f)
unfolding reading
Keeps-reading f c d = elim (Option-cases (f c.block)) [
  | inl stuck ↦ rw (stuck, Outcome, ◌>>=◌) tt
  | inr (r, e) ↦ rw (e, Outcome) d
]

pub Keeps-with_statics : {A : Type 0} (f : Statics → Option (A × Statics)) → Keeps (with_statics f)
unfolding with_statics
Keeps-with_statics f c d = elim (Option-cases (f c.statics)) [
  | inl stuck ↦ rw (stuck, Outcome, ◌>>=◌) tt
  | inr (r, e) ↦ rw (e, Outcome) d
]

Keeps-text_number : (h : Header) (s : ℕ) → Keeps (text_number h s)
unfolding text_number
Keeps-text_number h s c d = elim (Option-cases (dmi_string c.block h s)) [
  | inl stuck ↦ rw (stuck, Outcome, ◌>>=◌) tt
  | inr (r, e) ↦ rw (e, Outcome) d
]

pub Keeps-change :
    (f : DmidecodeData → DmidecodeData)
    → ((d : DmidecodeData) → IsFilled d → IsFilled (f d))
    → Keeps (change f)
unfolding change
Keeps-change f k c d = k c.data_of d

pub Keeps-field : (h : Header) (k : ℕ) → Keeps (field h k)
unfolding field
Keeps-field h k = Keeps-reading _

pub Keeps-word_field : (h : Header) (k : ℕ) → Keeps (word_field h k)
unfolding word_field
Keeps-word_field h k = Keeps-reading _

pub Keeps-dword_field : (h : Header) (k : ℕ) → Keeps (dword_field h k)
unfolding dword_field
Keeps-dword_field h k = Keeps-reading _

pub Keeps-string_field : (h : Header) (k : ℕ) → Keeps (string_field h k)
unfolding string_field
Keeps-string_field h k =
    Keeps-bind (field h k) (text_number h) (Keeps-field h k) (Keeps-text_number h)

pub IsFull-stored : (t : List ℕ) → IsFull (stored t)
IsFull-stored t = length-strncpy maxstr t

length-drop : (k : ℕ) (a : List ℕ) → k ≤ length a → k + length (drop k a) ≡ length a
length-drop zero a h = omega arith
length-drop (suc k) [] h = absurd (omega arith)
length-drop (suc k) (x ∷ a) h = omega (arith, length-drop k a (omega arith))

length-take_le : (n : ℕ) (t : List ℕ) → length (take n t) ≤ n
length-take_le zero t = omega arith
length-take_le (suc n) [] = omega arith
length-take_le (suc n) (x ∷ t) = omega (arith, length-take_le n t)

pub IsFull-snprintf : (t a : List ℕ) → IsFull a → IsFull (snprintf maxstr t a)
unfolding snprintf
IsFull-snprintf t a h =
    let kept = take 79 t in
    omega (
      arith,
      h,
      length-take_le 79 t,
      length-append kept (0 ∷ drop (length kept + 1) a),
      length-drop (length kept + 1) a (omega (arith, h, length-take_le 79 t)),
    )

pub Keeps-bios :
    (f : BiosData → BiosData)
    → ((b : BiosData) → IsFilledBios b → IsFilledBios (f b))
    → Keeps (change (λ d. record d { bios = f d.bios }))
Keeps-bios f k = Keeps-change _ (λ d g. record {
  bios = k d.bios g.bios;
  mb = g.mb;
  package' = g.package';
  sticks = g.sticks;
  counted = g.counted;
  small = g.small;
})

pub Keeps-mb :
    (f : MbData → MbData)
    → ((b : MbData) → IsFilledMb b → IsFilledMb (f b))
    → Keeps (change (λ d. record d { mb = f d.mb }))
Keeps-mb f k = Keeps-change _ (λ d g. record {
  bios = g.bios;
  mb = k d.mb g.mb;
  package' = g.package';
  sticks = g.sticks;
  counted = g.counted;
  small = g.small;
})

pub Keeps-cpu :
    (f : CpuData → CpuData)
    → ((b : CpuData) → IsFull b.cpu_package → IsFull (f b).cpu_package)
    → Keeps (change (λ d. record d { processor = f d.processor }))
Keeps-cpu f k = Keeps-change _ (λ d g. record {
  bios = g.bios;
  mb = g.mb;
  package' = k d.processor g.package';
  sticks = g.sticks;
  counted = g.counted;
  small = g.small;
})
