-- ===== src/Examples/Sticks.antt =====
-- The theorem on the labels of src/core/dmidecode/libdmidecode.cpp, at a concrete stick.
use cpu_x.Shared.{[], ◌∷◌, ◌++◌, some, codes, refl, ◌≡◌, arith}
use cpu_x.Dmi.Strings.{c_str}
use cpu_x.Dmi.Print.{zeros}
use cpu_x.Dmi.Cpux.{MemoryData}
use cpu_x.Dmi.Cpux.Stick.{blank}
use cpu_x.Util.SizeUnit.Replaced.{plain, gib_token}
use cpu_x.Daemon.Labels.{Formats, stick_labels}
use cpu_x.Daemon.Labels.Read.{HoldsTexts, stick_labels-HoldsTexts}

abbrev formats : Formats
formats = record {
  configured = λ t. t ++ codes " (configured)";
  maximum = λ t. t ++ codes " (max)";
  minimum = λ t. t ++ codes " (min)";
  gettext = λ t. t;
}

abbrev stick : MemoryData
stick = record blank {
  size = codes "8 @GIB@" ++ zeros 73;
  speed_configured = codes "3200 MT/s" ++ zeros 71;
  speed_maximum = codes "3600 MT/s" ++ zeros 71;
  voltage_configured = codes "1.2 V" ++ zeros 75;
}

abbrev texts : MemoryData
texts = record {
  manufacturer = [];
  part_number = [];
  type = [];
  type_detail = [];
  device_locator = [];
  bank_locator = [];
  size = codes "8 @GIB@";
  rank = [];
  speed_maximum = codes "3600 MT/s";
  speed_configured = codes "3200 MT/s";
  voltage_minimum = [];
  voltage_maximum = [];
  voltage_configured = codes "1.2 V";
}

stick-HoldsTexts : HoldsTexts stick texts
unfolding c_str
stick-HoldsTexts = record {
  manufacturer = refl;
  part_number = refl;
  type = refl;
  type_detail = refl;
  device_locator = refl;
  bank_locator = refl;
  size = refl;
  rank = refl;
  speed_maximum = refl;
  speed_configured = refl;
  voltage_minimum = refl;
  voltage_maximum = refl;
  voltage_configured = refl;
}

stick_labels-HoldsTexts_example :
    stick_labels formats stick
    ≡ some (record {
      manufacturer = [];
      part_number = [];
      type = [];
      type_detail = [];
      device_locator = [];
      bank_locator = [];
      size = codes "8 GiB";
      rank = [];
      speed = codes "3200 MT/s (configured) / 3600 MT/s (max)";
      voltage = codes "1.2 V (configured)";
    })
stick_labels-HoldsTexts_example =
    stick_labels-HoldsTexts formats stick texts
      (plain b'8' (λ e. absurd (omega arith))
        ∷ plain b' ' (λ e. absurd (omega arith))
        ∷ gib_token
        ∷ [])
      stick-HoldsTexts refl
