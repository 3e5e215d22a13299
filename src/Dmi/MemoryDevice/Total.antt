-- ===== src/Dmi/MemoryDevice/Total.antt =====
-- The texts of a memory device are found for every value of the fields: no read of a table of
-- names or units lies outside it.
use cpu_x.Shared.{ℕ, ◌+◌, ◌-◌, ◌*◌, ◌/◌, ◌%◌, ◌^◌, ◌<◌, ◌==◌, leb, ◌&&◌, arith}
use cpu_x.Shared.{some, List, refl, length, get_elem?-some}
use cpu_x.Dmi.Memory.Reads.{Defined, Defined-if}
use cpu_x.Dmi.MemorySize.{Amount, memory_amount, runtime_amount, extended_amount, device_amount}
use cpu_x.Dmi.MemorySize.Exact.{memory_amount-unit}
use cpu_x.Dmi.MemoryDevice.{
  Statics, out_of_spec, unit_tokens, rom_units, amount_text, memory_size_text,
}
use cpu_x.Dmi.MemoryDevice.{rom_size_text, dmi_bios_runtime_size_str, dmi_bios_rom_size_str}
use cpu_x.Dmi.MemoryDevice.{dmi_memory_device_size_str, dmi_memory_device_extended_size_str}
use cpu_x.Dmi.MemoryDevice.{name_between, form_factors, device_types}
use cpu_x.Dmi.MemoryDevice.{dmi_memory_device_form_factor, dmi_memory_device_type, cut}
use cpu_x.Dmi.Print.{decimal}
use cpu_x.Shared.{◌++◌, ◌∷◌, get_elem?}
use cpu_x.Dmi.Memory.{◌>>=◌}

amount_text-Defined : (shift : ℕ) (a : Amount) → a.unit + shift < 7 → Defined (amount_text shift a)
unfolding amount_text
amount_text-Defined shift a h =
    let (unit, r) = get_elem?-some unit_tokens (a.unit + shift) (omega arith) in
    (cut (decimal a.capacity ++ (b' ' ∷ unit)), rw r)

memory_size_text-Defined : (code : ℕ) → code < 2 ^ 60 → Defined (memory_size_text code 1)
unfolding memory_size_text
memory_size_text-Defined code h =
    amount_text-Defined 1 (memory_amount code) (omega (arith, memory_amount-unit code h))

pub runtime_size-Defined : (code : ℕ) (s : Statics) → Defined (dmi_bios_runtime_size_str code s)
unfolding dmi_bios_runtime_size_str
runtime_size-Defined code s =
    let (t, r) = amount_text-Defined 0 (runtime_amount code) small in
    ((t, record s { runtime_size = t }), rw r)
  where
    small : (runtime_amount code).unit + 0 < 7
    small = unfold runtime_amount in ground arith

rom_size_text-Defined :
    (code1 code2 : ℕ) → code1 < 2 ^ 8 → code2 < 2 ^ 16 → Defined (rom_size_text code1 code2)
unfolding rom_size_text
rom_size_text-Defined code1 code2 h1 h2 =
    Defined-if (code1 == 0xFF) _ _ (λ _. extended)
      (λ _. memory_size_text-Defined ((code1 + 1) * 2 ^ 6) (omega arith))
  where
    extended : Defined (
        get_elem? rom_units (code2 / 2 ^ 14) >>= λ unit.
        some (cut (decimal (code2 % 2 ^ 14) ++ (b' ' ∷ unit))))
    extended =
        let (unit, r) = get_elem?-some rom_units (code2 / 2 ^ 14) (omega arith) in
        (cut (decimal (code2 % 2 ^ 14) ++ (b' ' ∷ unit)), rw r)

pub rom_size-Defined :
    (code1 code2 : ℕ) (s : Statics)
    → code1 < 2 ^ 8
    → code2 < 2 ^ 16
    → Defined (dmi_bios_rom_size_str code1 code2 s)
unfolding dmi_bios_rom_size_str
rom_size-Defined code1 code2 s h1 h2 =
    let (t, r) = rom_size_text-Defined code1 code2 h1 h2 in ((t, record s { rom_size = t }), rw r)

device_amount-lt : (code : ℕ) → device_amount code < 2 ^ 60
unfolding device_amount
device_amount-lt code = ground arith

pub memory_device_size-Defined :
    (code : ℕ) (s : Statics) → Defined (dmi_memory_device_size_str code s)
unfolding dmi_memory_device_size_str
memory_device_size-Defined code s =
    Defined-if (code == 0) _ _ (λ _. ((s.device_size, s), refl))
      λ _.
        Defined-if (code == 0xFFFF) _ _ (λ _. ((s.device_size, s), refl))
          λ _.
            let (t, r) = memory_size_text-Defined (device_amount code) (device_amount-lt code) in
            ((t, record s { device_size = t }), rw r)

pub extended_size-Defined :
    (code : ℕ) (s : Statics) → Defined (dmi_memory_device_extended_size_str code s)
unfolding dmi_memory_device_extended_size_str
extended_size-Defined code s =
    let (t, r) = amount_text-Defined 0 (extended_amount code) small in
    ((t, record s { extended_size = t }), rw r)
  where
    small : (extended_amount code).unit + 0 < 7
    small = unfold extended_amount in ground arith

-- An array with a name for each code of the range is never read outside.
pub name_between-Defined :
    (lo hi : ℕ) (names : List (List ℕ)) (code : ℕ)
    → hi < lo + length names
    → Defined (name_between lo hi names code)
unfolding name_between
name_between-Defined lo hi names code h =
    Defined-if (leb lo code && leb code hi) _ _
      (λ t. get_elem?-some names (code - lo) (ground arith)) (λ _. (out_of_spec, refl))

pub form_factor-Defined : (code : ℕ) → Defined (dmi_memory_device_form_factor code)
unfolding dmi_memory_device_form_factor
form_factor-Defined code = name_between-Defined 0x01 0x10 form_factors code (omega arith)

pub device_type-Defined : (code : ℕ) → Defined (dmi_memory_device_type code)
unfolding dmi_memory_device_type
device_type-Defined code = name_between-Defined 0x01 0x24 device_types code (omega arith)
