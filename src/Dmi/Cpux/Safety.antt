-- ===== src/Dmi/Cpux/Safety.antt =====
-- `dmi_decode_cpux` on any structure of the table: every field that it reads lies inside the
-- structure, by the tests of `h->length`, and every string inside the string area.
use cpu_x.Shared.{
  ℕ, ◌+◌, ◌^◌, ◌≤◌, ◌<◌, ◌==◌, leb, ltb, if◌then◌else◌, ◌&&◌, not, Bool, true, false,
}
use cpu_x.Shared.{Bool-cases, inl, inr, arith, Option, some, List, ◌≡◌, refl, codes}
use cpu_x.Dmi.Memory.{IsByte}
use cpu_x.Dmi.Memory.Reads.{Defined}
use cpu_x.Dmi.Strings.{Header}
use cpu_x.Dmi.MemoryDevice.{Statics}
use cpu_x.Dmi.MemoryDevice.Total.{
  runtime_size-Defined, rom_size-Defined, memory_device_size-Defined,
}
use cpu_x.Dmi.MemoryDevice.Total.{extended_size-Defined, form_factor-Defined, device_type-Defined}
use cpu_x.Dmi.Cpux.{Context, M, ◌>>=◌, ◌>>◌, done, DmidecodeData, reading, with_statics}
use cpu_x.Dmi.Cpux.{
  change, field, word_field, dword_field, string_field, decode_bios, decode_mb, decode_cpu,
}
use cpu_x.Dmi.Cpux.Runs.{
  Good, RunsTo, Runs, RunsTo-bind, Runs-bind, Runs-done, Runs-change, Runs-if,
}
use cpu_x.Dmi.Cpux.Runs.{Runs-with_statics, RunsTo-reading, RunsTo-field, RunsTo-word_field}
use cpu_x.Dmi.Cpux.Runs.{Runs-dword_field, Runs-string_field}
use cpu_x.Dmi.Cpux.Stick.{
  Surroundings, grow, contains, stick_size, stick_basics, stick_speed, stick_voltage,
  stick_voltages, stick_configured, stick_rank, stick_maker, stick_details, new_stick, decode_stick,
  dmi_decode_cpux,
}

module _ (h : Header) (e len : ℕ) where
  abbrev Ok : {A : Type 0} → M A → Type 0
  Ok m = Runs h e len m

  -- A string field, stored by a change of the data, and what follows.
  string_then :
      {B : Type 0} (k : ℕ) (f : List ℕ → DmidecodeData → DmidecodeData) (m : M B)
      → k < h.length
      → Ok m
      → Ok (string_field h k >>= λ t. change (f t) >> m)
  string_then k f m lt r =
      Runs-bind h e len (string_field h k) _ (Runs-string_field h e len k lt)
        λ t. Runs-bind h e len (change (f t)) _ (Runs-change h e len (f t)) (λ _. r)

  Ok-decode_mb : 0x08 ≤ h.length → Ok (decode_mb h)
  unfolding decode_mb
  Ok-decode_mb long = string_then 0x04 _ _ (omega arith) (
      string_then 0x05 _ _ (omega arith) (
        Runs-bind h e len (string_field h 0x06) _ (Runs-string_field h e len 0x06 (omega arith))
          (λ t. Runs-change h e len _)))

  -- The other ways to begin: a change, a field, a WORD, a call with static buffers, a name.
  change_then :
      {B : Type 0} (f : DmidecodeData → DmidecodeData) (m : M B) → Ok m → Ok (change f >> m)
  change_then f m r = Runs-bind h e len (change f) _ (Runs-change h e len f) (λ _. r)

  field_then :
      {B : Type 0} (k : ℕ) (f : ℕ → M B)
      → k < h.length
      → ((x : ℕ) → IsByte x → Ok (f x))
      → Ok (field h k >>= f)
  field_then k f lt r =
      RunsTo-bind h e len IsByte (λ _. Unit {0}) (field h k) f (RunsTo-field h e len k lt) r

  word_then :
      {B : Type 0} (k : ℕ) (f : ℕ → M B)
      → k + 2 ≤ h.length
      → ((w : ℕ) → w < 2 ^ 16 → Ok (f w))
      → Ok (word_field h k >>= f)
  word_then k f le r =
      RunsTo-bind h e len (λ w. w < 2 ^ 16) (λ _. Unit {0}) (word_field h k) f
        (RunsTo-word_field h e len k le) r

  statics_then :
      {A B : Type 0} (g : Statics → Option (A × Statics)) (f : A → M B)
      → ((s : Statics) → Defined (g s))
      → ((a : A) → Ok (f a))
      → Ok (with_statics g >>= f)
  statics_then g f d r = Runs-bind h e len (with_statics g) f (Runs-with_statics h e len g d) r

  name_then :
      {B : Type 0} (name : Option (List ℕ)) (f : List ℕ → M B)
      → Defined name
      → ((t : List ℕ) → Ok (f t))
      → Ok (reading (λ _. name) >>= f)
  name_then name f d r =
      Runs-bind h e len (reading (λ _. name)) f
        (RunsTo-reading h e len (λ _. Unit {0}) (λ _. name) (λ c g. (d.0, d.1, tt))) r

  Ok-if :
      {A : Type 0} (b : Bool) (m n : M A)
      → (b ≡ true → Ok m)
      → (b ≡ false → Ok n)
      → Ok (if b then m else n)
  Ok-if b m n p q = Runs-if h e len (λ _. Unit {0}) b m n p q

  Ok-done : Ok done
  Ok-done = Runs-done h e len

  Ok-decode_cpu : 0x1A ≤ h.length → Ok (decode_cpu h)
  unfolding decode_cpu
  Ok-decode_cpu long = word_then 0x12 _ (omega arith) λ w _. change_then _ _ (
      Runs-bind h e len (string_field h 0x04) _ (Runs-string_field h e len 0x04 (omega arith))
        (λ t. Runs-change h e len _))

  -- The second code of the ROM size: a field of long structures, or 16.
  rom_code :
      RunsTo h e len
        (λ w. w < 2 ^ 16)
        (if ltb h.length 0x1A then (λ (c : Context). some (16, c)) else word_field h 0x18)
  rom_code =
      Runs-if h e len (λ w. w < 2 ^ 16) (ltb h.length 0x1A) _ _
        (λ _ c g. (16, c, refl, g, omega arith))
        (λ t. RunsTo-word_field h e len 0x18 (ground arith))

  Ok-decode_bios : 0x12 ≤ h.length → Ok (decode_bios h)
  unfolding decode_bios
  Ok-decode_bios long = string_then 0x04 _ _ (omega arith) (
      string_then 0x05 _ _ (omega arith) (
        string_then 0x08 _ _ (omega arith) (
          word_then 0x06 _ (omega arith) λ w _. statics_then _ _ (runtime_size-Defined _) λ runtime.
            field_then 0x09 _ (omega arith) λ code1 byte1.
              RunsTo-bind h e len (λ w. w < 2 ^ 16) (λ _. Unit {0}) _ _ rom_code
                λ code2 word2.
                  statics_then _ _ (λ s. rom_size-Defined code1 code2 s byte1 word2)
                    λ rom. Runs-change h e len _)))

  module _ (env : Surroundings) where
    Ok-stick_size : 0x15 ≤ h.length → Ok (stick_size env h)
    unfolding stick_size
    Ok-stick_size long = word_then 0x0C _ (omega arith) λ code _.
        Ok-if (leb 0x20 h.length && code == 0x7FFF) _ _
          (λ t.
            Runs-bind h e len (dword_field h 0x1C) _ (Runs-dword_field h e len 0x1C (ground arith))
              (λ wide. Runs-with_statics h e len _ (extended_size-Defined wide)))
          (λ _. Runs-with_statics h e len _ (memory_device_size-Defined code))

    Ok-stick_basics : 0x15 ≤ h.length → Ok (stick_basics env h)
    unfolding stick_basics
    Ok-stick_basics long = Runs-bind h e len (stick_size env h) _ (Ok-stick_size long) λ size.
        change_then _ _ (
          field_then 0x0E _ (omega arith) λ code _.
            name_then _ _ (form_factor-Defined code) λ factor.
              field_then 0x12 _ (omega arith) λ code' _.
                name_then _ _ (device_type-Defined code') λ kind. change_then _ _ (
                  string_then 0x10 _ _ (omega arith) (
                    string_then 0x11 _ _ (omega arith)
                      (word_then 0x13 _ (omega arith) λ detail _. Runs-change h e len _))))

    Ok-stick_speed :
        (k wide : ℕ) → k + 2 ≤ h.length → wide + 4 ≤ 0x5C → Ok (stick_speed env h k wide)
    unfolding stick_speed
    Ok-stick_speed k wide le fits = word_then k _ le λ code1 _.
        Runs-bind h e len
          (if leb 0x5C h.length then dword_field h wide else λ (c : Context). some (0, c)) _
          (Ok-if (leb 0x5C h.length) _ _ (λ t. Runs-dword_field h e len wide (ground arith))
            (λ _ c g. (0, c, refl, g, tt)))
          (λ code2. Runs-with_statics h e len _ (λ s. (_, refl)))

    Ok-stick_voltage : (k : ℕ) → k + 2 ≤ h.length → Ok (stick_voltage env h k)
    unfolding stick_voltage
    Ok-stick_voltage k le = word_then k _ le λ code _. Runs-with_statics h e len _ (λ s. (_, refl))

    -- A text from a static buffer, stored.
    text_then :
        {B : Type 0} (t : M (List ℕ)) (f : List ℕ → DmidecodeData → DmidecodeData) (m : M B)
        → Ok t
        → Ok m
        → Ok (t >>= λ x. change (f x) >> m)
    text_then t f m rt rm =
        Runs-bind h e len t _ rt
          (λ x. Runs-bind h e len (change (f x)) _ (Runs-change h e len _) (λ _. rm))

    Ok-stick_voltages : 0x28 ≤ h.length → Ok (stick_voltages env h)
    unfolding stick_voltages
    Ok-stick_voltages long = text_then _ _ _ (Ok-stick_voltage 0x22 (omega arith)) (
        text_then _ _ _ (Ok-stick_voltage 0x24 (omega arith)) (
          Runs-bind h e len (stick_voltage env h 0x26) _ (Ok-stick_voltage 0x26 (omega arith))
            (λ t. Runs-change h e len _)))

    Ok-stick_configured : 0x22 ≤ h.length → Ok (stick_configured env h)
    unfolding stick_configured
    Ok-stick_configured long =
        text_then _ _ _ (Ok-stick_speed 0x20 0x58 (omega arith) (omega arith))
          (Ok-if (ltb h.length 0x28) _ _ (λ _. Ok-done) (λ t. Ok-stick_voltages (ground arith)))

    Ok-stick_rank : 0x1C ≤ h.length → Ok (stick_rank env h)
    unfolding stick_rank
    Ok-stick_rank long = field_then 0x1B _ (omega arith) λ r _.
        change_then _ _
          (Ok-if (ltb h.length 0x22) _ _ (λ _. Ok-done) (λ t. Ok-stick_configured (ground arith)))

    Ok-stick_maker : 0x1B ≤ h.length → Ok (stick_maker env h)
    unfolding stick_maker
    Ok-stick_maker long = string_then 0x17 _ _ (omega arith) (
        string_then 0x1A _ _ (omega arith)
          (Ok-if (ltb h.length 0x1C) _ _ (λ _. Ok-done) (λ t. Ok-stick_rank (ground arith))))

    Ok-stick_details : 0x17 ≤ h.length → Ok (stick_details env h)
    unfolding stick_details
    Ok-stick_details long = word_then 0x0C _ (omega arith) λ code _.
        Ok-if (code == 0 && not env.no_quirks) _ _ (λ _. Ok-done)
          λ _.
            text_then _ _ _ (Ok-stick_speed 0x15 0x54 (omega arith) (omega arith))
              (Ok-if (ltb h.length 0x1B) _ _ (λ _. Ok-done) (λ t. Ok-stick_maker (ground arith)))

    Ok-new_stick : 0x15 ≤ h.length → Ok (new_stick env h)
    unfolding new_stick
    Ok-new_stick long = change_then grow _ (
        Runs-bind h e len (stick_basics env h) _ (Ok-stick_basics long)
          λ _. Ok-if (ltb h.length 0x17) _ _ (λ _. Ok-done) (λ t. Ok-stick_details (ground arith)))

    Ok-decode_stick : 0x15 ≤ h.length → Ok (decode_stick env h)
    unfolding decode_stick
    Ok-decode_stick long = field_then 0x0E _ (omega arith) λ code _.
        name_then _ _ (form_factor-Defined code) λ factor.
          Ok-if (contains (codes "Unknown") factor) _ _ (λ _. Ok-done) (λ _ c g. grown c g)
      where
        grown :
            (c : Context)
            → Good h e len c
            → (a : Unit {0}) × (c' : Context) × ((if env.can_grow c.data_of.stick_count
                  then new_stick env h c
                  else done c)
                ≡ some (a, c'))
              × Good h e len c'
              × Unit {0}
        grown c g = elim (Bool-cases (env.can_grow c.data_of.stick_count)) [
          | inl t ↦ rw t (Ok-new_stick long c g)
          | inr f ↦ rw f (Ok-done c g)
        ]

    -- In every structure whose string area is closed by two zero bytes.
    pub Ok-dmi_decode_cpux : Ok (dmi_decode_cpux env h)
    unfolding dmi_decode_cpux
    Ok-dmi_decode_cpux =
        Ok-if (h.type == 0) _ _
          (λ _. Ok-if (ltb h.length 0x12) _ _ (λ _. Ok-done) (λ t. Ok-decode_bios (ground arith)))
          λ _.
            Ok-if (h.type == 2) _ _
              (λ _. Ok-if (ltb h.length 0x08) _ _ (λ _. Ok-done) (λ t. Ok-decode_mb (ground arith)))
              λ _.
                Ok-if (h.type == 4) _ _
                  (λ _.
                    Ok-if (ltb h.length 0x1A) _ _ (λ _. Ok-done)
                      (λ t. Ok-decode_cpu (ground arith)))
                  λ _.
                    Ok-if (h.type == 17) _ _
                      (λ _.
                        Ok-if (ltb h.length 0x15) _ _ (λ _. Ok-done)
                          (λ t. Ok-decode_stick (ground arith)))
                      λ _. Ok-done
