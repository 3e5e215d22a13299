-- ===== src/Dmi/Cpux/Sizes/Kept.antt =====
-- `dmi_decode_cpux` leaves the arrays of `DmidecodeData` full.
use cpu_x.Shared.{◌==◌, ltb, ◌++◌, some, arith, codes}
use cpu_x.Dmi.Strings.{Header}
use cpu_x.Dmi.Cpux.{Context, decode_bios, decode_mb, decode_cpu}
use cpu_x.Dmi.Cpux.Stick.{Surroundings, dmi_decode_cpux}
use cpu_x.Dmi.Cpux.Sizes.{
  IsFilled, Outcome, Keeps, Keeps-bind, Keeps-if, Keeps-done, Keeps-with_statics, Keeps-field,
  Keeps-word_field, Keeps-string_field, IsFull-stored, IsFull-snprintf, Keeps-bios, Keeps-mb,
  Keeps-cpu,
}
use cpu_x.Dmi.Cpux.Sizes.Sticks.{Keeps-decode_stick}

Keeps-decode_mb : (h : Header) → Keeps (decode_mb h)
unfolding decode_mb
Keeps-decode_mb h = Keeps-bind _ _ (Keeps-string_field h 0x04) λ t.
    Keeps-bind _ _ (Keeps-mb _ (λ b g. ground (arith, IsFull-stored t))) λ _.
      Keeps-bind _ _ (Keeps-string_field h 0x05) λ t.
        Keeps-bind _ _ (Keeps-mb _ (λ b g. ground (arith, IsFull-stored t))) λ _.
          Keeps-bind _ _ (Keeps-string_field h 0x06)
            λ t. Keeps-mb _ (λ b g. ground (arith, IsFull-stored t))

Keeps-decode_cpu : (h : Header) → Keeps (decode_cpu h)
unfolding decode_cpu
Keeps-decode_cpu h = Keeps-bind _ _ (Keeps-word_field h 0x12) λ w.
    Keeps-bind _ _ (Keeps-cpu _ (λ b g. g))
      λ _. Keeps-bind _ _ (Keeps-string_field h 0x04) λ t. Keeps-cpu _ (λ b g. IsFull-stored t)

Keeps-decode_bios : (h : Header) → Keeps (decode_bios h)
unfolding decode_bios
Keeps-decode_bios h = Keeps-bind _ _ (Keeps-string_field h 0x04) λ t.
    Keeps-bind _ _ (Keeps-bios _ (λ b g. ground (arith, IsFull-stored t))) λ _.
      Keeps-bind _ _ (Keeps-string_field h 0x05) λ t.
        Keeps-bind _ _ (Keeps-bios _ (λ b g. ground (arith, IsFull-stored t))) λ _.
          Keeps-bind _ _ (Keeps-string_field h 0x08) λ t.
            Keeps-bind _ _ (Keeps-bios _ (λ b g. ground (arith, IsFull-stored t))) λ _.
              Keeps-bind _ _ (Keeps-word_field h 0x06) λ w.
                Keeps-bind _ _ (Keeps-with_statics _) λ runtime.
                  Keeps-bind _ _ (Keeps-field h 0x09) λ code1.
                    Keeps-bind _ _
                      (Keeps-if (ltb h.length 0x1A) (λ (c : Context). some (16, c)) _ (λ c d. d)
                        (Keeps-word_field h 0x18))
                      λ code2. Keeps-bind _ _ (Keeps-with_statics _) λ rom. Keeps-bios _ (λ b g.
                        ground (
                          arith,
                          IsFull-snprintf (runtime ++ codes " / " ++ rom) b.romsize g.romsize,
                        ))

module _ (env : Surroundings) (h : Header) where
  -- On any structure, whatever the code reads and whether or not memory can be had, the arrays of
  -- the data keep their 80 bytes, and no more sticks are counted than there are.
  pub dmi_decode_cpux-IsFilled :
      (c : Context) → IsFilled c.data_of → Outcome (dmi_decode_cpux env h c)
  unfolding dmi_decode_cpux
  dmi_decode_cpux-IsFilled =
      Keeps-if (h.type == 0) _ _ (Keeps-if (ltb h.length 0x12) _ _ Keeps-done (Keeps-decode_bios h))
        (Keeps-if (h.type == 2) _ _
          (Keeps-if (ltb h.length 0x08) _ _ Keeps-done (Keeps-decode_mb h))
          (Keeps-if (h.type == 4) _ _
            (Keeps-if (ltb h.length 0x1A) _ _ Keeps-done (Keeps-decode_cpu h))
            (Keeps-if (h.type == 17) _ _
              (Keeps-if (ltb h.length 0x15) _ _ Keeps-done (Keeps-decode_stick env h)) Keeps-done)))
