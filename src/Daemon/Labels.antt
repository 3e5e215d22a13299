-- ===== src/Daemon/Labels.antt =====
-- What `call_dmidecode` of src/core/dmidecode/libdmidecode.cpp makes of a stick's structure: the
-- texts of its labels.
pub mod Read
use cpu_x.Shared.{
  ℕ, zero, suc, ◌+◌, ◌<◌, if◌then◌else◌, Bool, true, false, List, [], ◌∷◌, ◌++◌, length, All,
  Option, none, some, codes, ◌≡◌, refl, ap, ◌∙◌, append_assoc, append-nil, arith,
}
use cpu_x.Dmi.Memory.{◌>>=◌}
use cpu_x.Dmi.Strings.{c_str}
use cpu_x.Dmi.Strings.RoundTrip.{NonZero}
use cpu_x.Dmi.Print.Laws.{c_str-strncpy}
use cpu_x.Dmi.Cpux.{MemoryData, stored, maxstr}
use cpu_x.Util.SizeUnit.{string_set_size_unit}
use cpu_x.Util.SizeUnit.Replaced.{Piece, source, shown, string_set_size_unit-source}

-- The translated formats "%s (configured)", "%s (max)" and "%s (min)", and the translation of units.
pub record Formats : Type 0 where
  pub configured : List ℕ → List ℕ
  pub maximum : List ℕ → List ℕ
  pub minimum : List ℕ → List ℕ
  pub gettext : List ℕ → List ℕ

pub record StickLabels : Type 0 where
  pub manufacturer : List ℕ
  pub part_number : List ℕ
  pub type : List ℕ
  pub type_detail : List ℕ
  pub device_locator : List ℕ
  pub bank_locator : List ℕ
  pub size : List ℕ
  pub rank : List ℕ
  pub speed : List ℕ
  pub voltage : List ℕ

-- `strlen(text) > 0`.
abbrev pub is_filled : List ℕ → Bool
is_filled [] = false
is_filled (c ∷ text) = true

abbrev pub separated : Bool → List ℕ → List ℕ
separated need_sep value = if need_sep then value ++ codes " / " else value

module _ (formats : Formats) where
  -- The label's value is empty before.
  unfoldable pub speed_label : List ℕ → List ℕ → List ℕ
  speed_label configured maximum =
      let value = if is_filled configured then formats.configured configured else [] in
      if is_filled maximum
      then separated (is_filled configured) value ++ formats.maximum maximum
      else value

  unfoldable pub voltage_label : List ℕ → List ℕ → List ℕ → List ℕ
  voltage_label minimum configured maximum =
      let first = if is_filled minimum then formats.minimum minimum else [] in
      let second =
        if is_filled configured
        then separated (is_filled minimum) first ++ formats.configured configured
        else first in
      let need_sep = if is_filled configured then true else is_filled minimum in
      if is_filled maximum then separated need_sep second ++ formats.maximum maximum else second

  -- A text without a zero byte is read beyond its array, and a text on which the loop of
  -- `string_set_size_unit` does not end gives no labels.
  unfoldable pub stick_labels : MemoryData → Option StickLabels
  stick_labels m = do
    manufacturer ← c_str m.manufacturer
    part_number ← c_str m.part_number
    type ← c_str m.type
    type_detail ← c_str m.type_detail
    device_locator ← c_str m.device_locator
    bank_locator ← c_str m.bank_locator
    size_text ← c_str m.size
    size ← string_set_size_unit formats.gettext size_text
    rank ← c_str m.rank
    configured ← c_str m.speed_configured
    maximum ← c_str m.speed_maximum
    voltage_minimum ← c_str m.voltage_minimum
    voltage_configured ← c_str m.voltage_configured
    voltage_maximum ← c_str m.voltage_maximum
    some (record {
      manufacturer = manufacturer;
      part_number = part_number;
      type = type;
      type_detail = type_detail;
      device_locator = device_locator;
      bank_locator = bank_locator;
      size = size;
      rank = rank;
      speed = speed_label configured maximum;
      voltage = voltage_label voltage_minimum voltage_configured voltage_maximum;
    })
