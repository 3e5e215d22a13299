-- ===== src/Daemon/Labels/Read.antt =====
-- The labels of a stick, for a structure whose arrays hold texts.
use cpu_x.Shared.{ℕ, if◌then◌else◌, List, [], ◌∷◌, ◌++◌, some, codes, ◌≡◌, refl}
use cpu_x.Dmi.Strings.{c_str}
use cpu_x.Dmi.Cpux.{MemoryData}
use cpu_x.Util.SizeUnit.Replaced.{Piece, source, shown, string_set_size_unit-source}
use cpu_x.Daemon.Labels.{Formats, is_filled, speed_label, voltage_label, stick_labels}

-- The arrays of the structure hold these texts.
pub record HoldsTexts (m texts : MemoryData) : Type 0 where
  pub manufacturer : c_str m.manufacturer ≡ some texts.manufacturer
  pub part_number : c_str m.part_number ≡ some texts.part_number
  pub type : c_str m.type ≡ some texts.type
  pub type_detail : c_str m.type_detail ≡ some texts.type_detail
  pub device_locator : c_str m.device_locator ≡ some texts.device_locator
  pub bank_locator : c_str m.bank_locator ≡ some texts.bank_locator
  pub size : c_str m.size ≡ some texts.size
  pub rank : c_str m.rank ≡ some texts.rank
  pub speed_maximum : c_str m.speed_maximum ≡ some texts.speed_maximum
  pub speed_configured : c_str m.speed_configured ≡ some texts.speed_configured
  pub voltage_minimum : c_str m.voltage_minimum ≡ some texts.voltage_minimum
  pub voltage_maximum : c_str m.voltage_maximum ≡ some texts.voltage_maximum
  pub voltage_configured : c_str m.voltage_configured ≡ some texts.voltage_configured

-- The texts that are not empty, each in its format.
abbrev pub present : List ((List ℕ → List ℕ) × List ℕ) → List (List ℕ)
present [] = []
present ((format, text) ∷ parts) =
    if is_filled text then format text ∷ present parts else present parts

abbrev pub joined_to : List ℕ → List (List ℕ) → List ℕ
joined_to value [] = value
joined_to value (part ∷ parts) = joined_to ((value ++ codes " / ") ++ part) parts

-- Texts with " / " between them.
abbrev pub joined : List (List ℕ) → List ℕ
joined [] = []
joined (part ∷ parts) = joined_to part parts

module _ (formats : Formats) where
  speed_label-joined :
      (configured maximum : List ℕ)
      → speed_label formats configured maximum
        ≡ joined (present ((formats.configured, configured) ∷ (formats.maximum, maximum) ∷ []))
  unfolding speed_label
  speed_label-joined [] [] = refl
  speed_label-joined [] (c ∷ maximum) = refl
  speed_label-joined (c ∷ configured) [] = refl
  speed_label-joined (c ∷ configured) (d ∷ maximum) = refl

  voltage_label-joined :
      (minimum configured maximum : List ℕ)
      → voltage_label formats minimum configured maximum
        ≡ joined (
            present (
              (formats.minimum, minimum)
              ∷ (formats.configured, configured)
              ∷ (formats.maximum, maximum)
              ∷ []))
  unfolding voltage_label
  voltage_label-joined [] [] [] = refl
  voltage_label-joined [] [] (c ∷ maximum) = refl
  voltage_label-joined [] (c ∷ configured) [] = refl
  voltage_label-joined [] (c ∷ configured) (d ∷ maximum) = refl
  voltage_label-joined (b ∷ minimum) [] [] = refl
  voltage_label-joined (b ∷ minimum) [] (c ∷ maximum) = refl
  voltage_label-joined (b ∷ minimum) (c ∷ configured) [] = refl
  voltage_label-joined (b ∷ minimum) (c ∷ configured) (d ∷ maximum) = refl

  -- Where the arrays of a stick's structure hold texts, and that of the size is one of characters
  -- and unit tokens: the labels are these texts, the size with its units, and for the speed and the
  -- voltage those of their texts that are not empty, in their formats, with " / " between them.
  pub stick_labels-HoldsTexts :
      (m texts : MemoryData) (size : List Piece)
      → HoldsTexts m texts
      → texts.size ≡ source size
      → stick_labels formats m
        ≡ some (record {
          manufacturer = texts.manufacturer;
          part_number = texts.part_number;
          type = texts.type;
          type_detail = texts.type_detail;
          device_locator = texts.device_locator;
          bank_locator = texts.bank_locator;
          size = shown formats.gettext size;
          rank = texts.rank;
          speed = joined (
              present (
                (formats.configured, texts.speed_configured)
                ∷ (formats.maximum, texts.speed_maximum)
                ∷ []));
          voltage = joined (
              present (
                (formats.minimum, texts.voltage_minimum)
                ∷ (formats.configured, texts.voltage_configured)
                ∷ (formats.maximum, texts.voltage_maximum)
                ∷ []));
        })
  unfolding stick_labels
  stick_labels-HoldsTexts m texts size h e =
      rw
        (
          h.manufacturer,
          h.part_number,
          h.type,
          h.type_detail,
          h.device_locator,
          h.bank_locator,
          h.size,
          e,
          string_set_size_unit-source formats.gettext size,
          h.rank,
          h.speed_configured,
          h.speed_maximum,
          h.voltage_minimum,
          h.voltage_configured,
          h.voltage_maximum,
          speed_label-joined,
          voltage_label-joined,
        )
        refl
