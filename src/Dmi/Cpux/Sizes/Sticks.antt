-- ===== src/Dmi/Cpux/Sizes/Sticks.antt =====
-- The case of memory devices in `dmi_decode_cpux`, and the arrays of `MemoryData`.
use cpu_x.Shared.{
  ℕ, zero, suc, ◌%◌, ◌^◌, ◌≤◌, ◌==◌, leb, ltb, if◌then◌else◌, ◌&&◌, not, All, List, [], ◌∷◌, ◌++◌,
  length, take, some, Bool-cases, inl, inr, ◌≡◌, refl, arith, codes,
}
use cpu_x.Dmi.Strings.{Header}
use cpu_x.Dmi.Print.{snprintf, decimal}
use cpu_x.Dmi.MemoryDevice.{dmi_memory_device_type_detail_str}
use cpu_x.Dmi.Cpux.{maxstr, stored, MemoryData, Context, done, change}
use cpu_x.Dmi.Cpux.Stick.{
  blank, grow, change_last, on_stick, Surroundings, stick_size, stick_basics, stick_speed,
  stick_voltage, stick_voltages, stick_configured, stick_rank, stick_maker, stick_details,
  new_stick, decode_stick, contains,
}
use cpu_x.Dmi.Cpux.Sizes.{
  IsFull, IsFilledStick, IsFilled, Outcome, Keeps, Keeps-bind, Keeps-if, Keeps-done, Keeps-reading,
  Keeps-with_statics, Keeps-field, Keeps-word_field, Keeps-dword_field, Keeps-string_field,
  IsFull-stored, IsFull-snprintf, Keeps-change,
}

All-change_last :
    (P : MemoryData → Type 0) (f : MemoryData → MemoryData) (ms : List MemoryData)
    → ((m : MemoryData) → P m → P (f m))
    → All P ms
    → All P (change_last f ms)
All-change_last P f [] k h = tt
All-change_last P f (m ∷ []) k h = (k m h.0, tt)
All-change_last P f (m ∷ m2 ∷ ms) k h = (h.0, All-change_last P f (m2 ∷ ms) k h.1)

length-change_last :
    (f : MemoryData → MemoryData) (ms : List MemoryData) → length (change_last f ms) ≡ length ms
length-change_last f [] = refl
length-change_last f (m ∷ []) = refl
length-change_last f (m ∷ m2 ∷ ms) = omega (arith, length-change_last f (m2 ∷ ms))

Keeps-on_stick :
    (f : MemoryData → MemoryData)
    → ((m : MemoryData) → IsFilledStick m → IsFilledStick (f m))
    → Keeps (on_stick f)
Keeps-on_stick f k = Keeps-change _ λ d g. record {
  bios = g.bios;
  mb = g.mb;
  package' = g.package';
  sticks = All-change_last IsFilledStick f d.memory k g.sticks;
  counted = omega (arith, g.counted, length-change_last f d.memory);
  small = g.small;
}

blank-IsFilledStick : IsFilledStick blank
blank-IsFilledStick = record {
  manufacturer = refl;
  part_number = refl;
  type = refl;
  type_detail = refl;
  device_locator = refl;
  bank_locator = refl;
  size = refl;
  rank = refl;
  speed_maximum = refl;
  speed_configured = refl;
  voltage_minimum = refl;
  voltage_maximum = refl;
  voltage_configured = refl;
}

-- The sticks that are kept, and the new one.
taken_sticks :
    (n : ℕ) (ms : List MemoryData)
    → n ≤ length ms
    → All IsFilledStick ms
    → All IsFilledStick (take n ms ++ (blank ∷ [])) × (length (take n ms ++ (blank ∷ [])) ≡ suc n)
taken_sticks zero ms h g = ((blank-IsFilledStick, tt), refl)
taken_sticks (suc n) [] h g = absurd (omega arith)
taken_sticks (suc n) (m ∷ ms) h g =
    let (full, count) = taken_sticks n ms (omega arith) g.1 in ((g.0, full), omega (arith, count))

Keeps-grow : Keeps (change grow)
unfolding grow
Keeps-grow = Keeps-change _ λ d g.
    let (full, count) = taken_sticks d.stick_count d.memory g.counted g.sticks in
    record {
      bios = g.bios;
      mb = g.mb;
      package' = g.package';
      sticks = full;
      counted = omega (arith, count);
      small = omega arith;
    }

module _ (env : Surroundings) (h : Header) where
  Keeps-stick_size : Keeps (stick_size env h)
  unfolding stick_size
  Keeps-stick_size = Keeps-bind _ _ (Keeps-word_field h 0x0C) λ code.
      Keeps-if (leb 0x20 h.length && code == 0x7FFF) _ _
        (Keeps-bind _ _ (Keeps-dword_field h 0x1C) λ wide. Keeps-with_statics _)
        (Keeps-with_statics _)

  Keeps-stick_basics : Keeps (stick_basics env h)
  unfolding stick_basics
  Keeps-stick_basics = Keeps-bind _ _ Keeps-stick_size λ t.
      Keeps-bind _ _ (Keeps-on_stick _ (λ s g. ground (arith, IsFull-stored t))) λ _.
        Keeps-bind _ _ (Keeps-field h 0x0E) λ code. Keeps-bind _ _ (Keeps-reading _) λ factor.
          Keeps-bind _ _ (Keeps-field h 0x12) λ code'. Keeps-bind _ _ (Keeps-reading _) λ kind.
            Keeps-bind _ _
              (Keeps-on_stick _ (λ s g.
                ground (arith, IsFull-snprintf (factor ++ codes " " ++ kind) s.type g.type)))
              λ _. Keeps-bind _ _ (Keeps-string_field h 0x10) λ t.
                Keeps-bind _ _ (Keeps-on_stick _ (λ s g. ground (arith, IsFull-stored t))) λ _.
                  Keeps-bind _ _ (Keeps-string_field h 0x11) λ t.
                    Keeps-bind _ _ (Keeps-on_stick _ (λ s g. ground (arith, IsFull-stored t))) λ _.
                      Keeps-bind _ _ (Keeps-word_field h 0x13) λ w.
                        Keeps-on_stick _ (λ s g.
                          ground (arith, IsFull-stored (dmi_memory_device_type_detail_str w)))

  Keeps-stick_speed : (k wide : ℕ) → Keeps (stick_speed env h k wide)
  unfolding stick_speed
  Keeps-stick_speed k wide = Keeps-bind _ _ (Keeps-word_field h k) λ code1.
      Keeps-bind _ _
        (Keeps-if (leb 0x5C h.length) _ (λ (c : Context). some (0, c)) (Keeps-dword_field h wide)
          (λ c d. d))
        λ code2. Keeps-with_statics _

  Keeps-stick_voltage : (k : ℕ) → Keeps (stick_voltage env h k)
  unfolding stick_voltage
  Keeps-stick_voltage k = Keeps-bind _ _ (Keeps-word_field h k) λ code. Keeps-with_statics _

  Keeps-stick_voltages : Keeps (stick_voltages env h)
  unfolding stick_voltages
  Keeps-stick_voltages = Keeps-bind _ _ (Keeps-stick_voltage 0x22) λ t.
      Keeps-bind _ _ (Keeps-on_stick _ (λ s g. ground (arith, IsFull-stored t))) λ _.
        Keeps-bind _ _ (Keeps-stick_voltage 0x24) λ t.
          Keeps-bind _ _ (Keeps-on_stick _ (λ s g. ground (arith, IsFull-stored t))) λ _.
            Keeps-bind _ _ (Keeps-stick_voltage 0x26)
              λ t. Keeps-on_stick _ (λ s g. ground (arith, IsFull-stored t))

  Keeps-stick_configured : Keeps (stick_configured env h)
  unfolding stick_configured
  Keeps-stick_configured = Keeps-bind _ _ (Keeps-stick_speed 0x20 0x58) λ t.
      Keeps-bind _ _ (Keeps-on_stick _ (λ s g. ground (arith, IsFull-stored t)))
        λ _. Keeps-if (ltb h.length 0x28) _ _ Keeps-done Keeps-stick_voltages

  IsFull-rank :
      (r : ℕ) (a : List ℕ)
      → IsFull a
      → IsFull (
          if r % 2 ^ 4 == 0
          then stored (env.translate (codes "Unknown"))
          else snprintf maxstr (decimal (r % 2 ^ 4)) a)
  IsFull-rank r a g = elim (Bool-cases (r % 2 ^ 4 == 0)) [
    | inl unknown ↦ rw unknown (IsFull-stored _)
    | inr known ↦ rw known (IsFull-snprintf _ a g)
  ]

  Keeps-stick_rank : Keeps (stick_rank env h)
  unfolding stick_rank
  Keeps-stick_rank = Keeps-bind _ _ (Keeps-field h 0x1B) λ r.
      Keeps-bind _ _
        (Keeps-on_stick _ (λ s g. record {
          manufacturer = g.manufacturer;
          part_number = g.part_number;
          type = g.type;
          type_detail = g.type_detail;
          device_locator = g.device_locator;
          bank_locator = g.bank_locator;
          size = g.size;
          rank = IsFull-rank r s.rank g.rank;
          speed_maximum = g.speed_maximum;
          speed_configured = g.speed_configured;
          voltage_minimum = g.voltage_minimum;
          voltage_maximum = g.voltage_maximum;
          voltage_configured = g.voltage_configured;
        }))
        λ _. Keeps-if (ltb h.length 0x22) _ _ Keeps-done Keeps-stick_configured

  Keeps-stick_maker : Keeps (stick_maker env h)
  unfolding stick_maker
  Keeps-stick_maker = Keeps-bind _ _ (Keeps-string_field h 0x17) λ t.
      Keeps-bind _ _ (Keeps-on_stick _ (λ s g. ground (arith, IsFull-stored t))) λ _.
        Keeps-bind _ _ (Keeps-string_field h 0x1A) λ t.
          Keeps-bind _ _ (Keeps-on_stick _ (λ s g. ground (arith, IsFull-stored t)))
            λ _. Keeps-if (ltb h.length 0x1C) _ _ Keeps-done Keeps-stick_rank

  Keeps-stick_details : Keeps (stick_details env h)
  unfolding stick_details
  Keeps-stick_details = Keeps-bind _ _ (Keeps-word_field h 0x0C) λ code.
      Keeps-if (code == 0 && not env.no_quirks) _ _ Keeps-done (
        Keeps-bind _ _ (Keeps-stick_speed 0x15 0x54) λ t.
          Keeps-bind _ _ (Keeps-on_stick _ (λ s g. ground (arith, IsFull-stored t)))
            λ _. Keeps-if (ltb h.length 0x1B) _ _ Keeps-done Keeps-stick_maker)

  Keeps-new_stick : Keeps (new_stick env h)
  unfolding new_stick
  Keeps-new_stick = Keeps-bind _ _ Keeps-grow λ _.
      Keeps-bind _ _ Keeps-stick_basics
        λ _. Keeps-if (ltb h.length 0x17) _ _ Keeps-done Keeps-stick_details

  pub Keeps-decode_stick : Keeps (decode_stick env h)
  unfolding decode_stick
  Keeps-decode_stick = Keeps-bind _ _ (Keeps-field h 0x0E) λ code.
      Keeps-bind _ _ (Keeps-reading _)
        λ factor. Keeps-if (contains (codes "Unknown") factor) _ _ Keeps-done λ c d. grown c d
    where
      grown :
          (c : Context)
          → IsFilled c.data_of
          → Outcome (if env.can_grow c.data_of.stick_count then new_stick env h c else done c)
      grown c d = elim (Bool-cases (env.can_grow c.data_of.stick_count)) [
        | inl grows ↦ rw (grows, Outcome) (Keeps-new_stick c d)
        | inr fails ↦ rw (fails, Outcome) d
      ]
