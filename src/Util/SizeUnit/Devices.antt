-- ===== src/Util/SizeUnit/Devices.antt =====
-- The sizes of memory devices that dmidecode.c writes with tokens, as `string_set_size_unit` of
-- src/util.cpp shows them.
use cpu_x.Shared.{
  ℕ, suc, ◌+◌, ◌*◌, ◌%◌, ◌^◌, ◌<◌, ◌≤◌, ltb, List, Option, none, some, ◌≡◌, ◌≢◌, refl, ap, sym, ◌∙◌,
  ◌⊎◌, inl, inr, ==-of_ne, if◌then◌else◌, arith,
}
use native.Mathlib.Nat.{pow-suc}
use cpu_x.Dmi.Memory.{◌>>=◌}
use cpu_x.Dmi.MemorySize.{device_amount, memory_amount, extended_amount}
use cpu_x.Dmi.MemorySize.Exact.{memory_amount-unit, memory_amount-IsAmountOf, extended_amount_exact}
use cpu_x.Dmi.MemorySize.Nearly.{memory_amount-IsNearly, device_amount-exact}
use cpu_x.Dmi.MemoryDevice.{
  dmi_memory_device_size_str, Statics, dmi_memory_device_extended_size_str, amount_text,
  memory_size_text,
}
use cpu_x.Util.SizeUnit.{string_set_size_unit}
use cpu_x.Util.SizeUnit.Sizes.{size_shown, amount_shown}

keep_first :
    {S : Type 0} (o : Option (List ℕ)) (s : List ℕ → S) (g : List ℕ → Option (List ℕ))
    → let pair : List ℕ → Option (List ℕ × S) = λ t. some (t, s t) in
      ((o >>= pair) >>= λ r. g r.0) ≡ (o >>= g)
keep_first none s g = refl
keep_first (some t) s g = refl

-- The bytes that the size field of a memory device stands for: the highest bit tells KiB from MiB.
abbrev pub device_bytes : ℕ → ℕ
device_bytes field = if ltb field (2 ^ 15) then field * 1024 ^ 2 else field % 2 ^ 15 * 1024

shift_unit : (n u : ℕ) → n * 1024 ^ (u + 1) ≡ n * 1024 ^ u * 1024
shift_unit n u =
    let one_more : u + 1 ≡ suc u = omega arith in
    ap (λ (k : ℕ). n * 1024 ^ k) one_more ∙ rw (pow-suc 1024 u) (grind arith)

device_amount-bytes : (field : ℕ) → field < 2 ^ 16 → device_amount field * 1024 ≡ device_bytes field
unfolding device_amount
device_amount-bytes field h = ground arith

-- For every 16-bit size field of a memory device but 0 and 0xFFFF, what is shown is a number and the
-- translated name of a unit that denote the size exactly; unless the size is 0, the unit is the greatest in
-- which the number is an integer.
pub device_size_shown :
    (gettext : List ℕ → List ℕ) (field : ℕ) (s : Statics)
    → field < 2 ^ 16
    → field ≢ 0
    → field ≢ 0xFFFF
    → (number unit : ℕ) × ((dmi_memory_device_size_str field s >>= λ r.
          string_set_size_unit gettext r.0)
        ≡ some (size_shown gettext number unit))
      × (number * 1024 ^ unit ≡ device_bytes field)
      × ((device_bytes field ≡ 0) ⊎ (number % 1024 ≢ 0))
unfolding dmi_memory_device_size_str memory_size_text
device_size_shown gettext field s h not_empty known =
    let code = device_amount field in
    let a = memory_amount code in
    let (small, exact) = device_amount-exact field in
    let amount = memory_amount-IsAmountOf code (omega arith) in
    (
      a.capacity,
      a.unit + 1,
      rw (==-of_ne field 0 not_empty, ==-of_ne field 0xFFFF known)
          (keep_first (amount_text 1 a) (λ t. record s { device_size = t })
              (string_set_size_unit gettext)
            ∙ amount_shown gettext 1 a (omega (arith, memory_amount-unit code (omega arith)))
                (omega (arith, amount.bounded))),
      shift_unit a.capacity a.unit ∙ ap (λ n. n * 1024) exact ∙ device_amount-bytes field h,
      elim (memory_amount-IsNearly code (omega arith)).greatest [
        | inl empty ↦ inl (sym (device_amount-bytes field h) ∙ ap (λ n. n * 1024) empty)
        | inr whole ↦ inr whole
      ],
    )

extended_amount_bounds :
    (field : ℕ)
    → ((extended_amount field).unit + 0 ≤ 6) × ((extended_amount field).capacity < 10 ^ 17)
unfolding extended_amount
extended_amount_bounds field = (ground arith, ground arith)

-- The extended size of a memory device is shown as a number and the translated name of a unit that
-- denote the low 31 bits of the field, counted in MiB, exactly.
pub extended_size_shown :
    (gettext : List ℕ → List ℕ) (field : ℕ) (s : Statics)
    → (number unit : ℕ) × (((dmi_memory_device_extended_size_str field s >>= λ r.
            string_set_size_unit gettext r.0)
          ≡ some (size_shown gettext number unit))
        × (number * 1024 ^ unit ≡ field % 2 ^ 31 * 1024 ^ 2))
unfolding dmi_memory_device_extended_size_str
extended_size_shown gettext field s =
    let a = extended_amount field in
    let (unit_le, small) = extended_amount_bounds field in
    (
      a.capacity,
      a.unit,
      (
        keep_first (amount_text 0 a) (λ t. record s { extended_size = t })
              (string_set_size_unit gettext)
            ∙ amount_shown gettext 0 a unit_le small
            ∙ ap (λ (u : ℕ). some (size_shown gettext a.capacity u)) (omega arith),
        extended_amount_exact field,
      ),
    )
