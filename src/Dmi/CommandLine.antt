-- ===== src/Dmi/CommandLine.antt =====
-- The command line of dmidecode, of core/dmidecode/dmiopt.c. `getopt_long` of the C library is a
-- parameter, the list of what it finds. The result `none` is a write past the array of types.
pub mod Safe
use cpu_x.Shared.{
  ℕ, ◌-◌, ◌+◌, ◌%◌, ◌^◌, ◌==◌, ltb, if◌then◌else◌, Bool, true, false, not, ◌&&◌, ◌||◌, List, [],
  ◌∷◌, length, codes, Option, none, some,
}
use cpu_x.Dmi.Memory.{◌>>=◌}
use cpu_x.Dmi.Numbers.{strcmp_equal, strcasecmp_equal, strtoul}
use cpu_x.Dmi.TypeOption.{parse_opt_type}

pub record StringKeyword : Type 0 where
  pub keyword : List ℕ
  pub type : ℕ
  pub offset : ℕ

abbrev keyword_of : List ℕ → ℕ → ℕ → StringKeyword
keyword_of k t o = record { keyword = k; type = t; offset = o }

abbrev pub opt_string_keyword : List StringKeyword
opt_string_keyword =
    keyword_of (codes "bios-vendor") 0 0x04
    ∷ keyword_of (codes "bios-version") 0 0x05
    ∷ keyword_of (codes "bios-release-date") 0 0x08
    ∷ keyword_of (codes "bios-revision") 0 0x15
    ∷ keyword_of (codes "firmware-revision") 0 0x17
    ∷ keyword_of (codes "system-manufacturer") 1 0x04
    ∷ keyword_of (codes "system-product-name") 1 0x05
    ∷ keyword_of (codes "system-version") 1 0x06
    ∷ keyword_of (codes "system-serial-number") 1 0x07
    ∷ keyword_of (codes "system-uuid") 1 0x08
    ∷ keyword_of (codes "system-sku-number") 1 0x19
    ∷ keyword_of (codes "system-family") 1 0x1a
    ∷ keyword_of (codes "baseboard-manufacturer") 2 0x04
    ∷ keyword_of (codes "baseboard-product-name") 2 0x05
    ∷ keyword_of (codes "baseboard-version") 2 0x06
    ∷ keyword_of (codes "baseboard-serial-number") 2 0x07
    ∷ keyword_of (codes "baseboard-asset-tag") 2 0x08
    ∷ keyword_of (codes "chassis-manufacturer") 3 0x04
    ∷ keyword_of (codes "chassis-type") 3 0x05
    ∷ keyword_of (codes "chassis-version") 3 0x06
    ∷ keyword_of (codes "chassis-serial-number") 3 0x07
    ∷ keyword_of (codes "chassis-asset-tag") 3 0x08
    ∷ keyword_of (codes "processor-family") 4 0x06
    ∷ keyword_of (codes "processor-manufacturer") 4 0x07
    ∷ keyword_of (codes "processor-version") 4 0x10
    ∷ keyword_of (codes "processor-frequency") 4 0x16
    ∷ []

-- The options, with a Boolean for each flag; `string` is a copy of what the pointer points to, and
-- the template of OEM strings stands beside it.
pub record Opt : Type 0 where
  pub devmem : List ℕ
  pub flag_version : Bool
  pub flag_help : Bool
  pub flag_dump : Bool
  pub flag_quiet : Bool
  pub flag_dump_bin : Bool
  pub flag_from_dump : Bool
  pub flag_no_sysfs : Bool
  pub flag_no_quirks : Bool
  pub flag_list : Bool
  pub type : Option (List Bool)
  pub string : Option StringKeyword
  pub dumpfile : Option (List ℕ)
  pub handle : ℕ
  pub opt_oem_string_keyword : StringKeyword

abbrev pub find_keyword : List StringKeyword → List ℕ → Option StringKeyword
find_keyword [] arg = none
find_keyword (k ∷ ks) arg = if strcasecmp_equal arg k.keyword then some k else find_keyword ks arg

-- `none` is the result -1.
unfoldable pub parse_opt_string : Opt → List ℕ → Option Opt
parse_opt_string opt arg = elim opt.string [
  | some k ↦ none
  | none ↦ find_keyword opt_string_keyword arg >>= λ k. some (record opt { string = some k })
]

unfoldable pub parse_opt_oem_string : Opt → List ℕ → Option Opt
parse_opt_oem_string opt arg = elim opt.string [
  | some k ↦ none
  | none ↦
      if strcmp_equal arg (codes "count")
      then some (record opt { string = some opt.opt_oem_string_keyword })
      else (strtoul 10 arg >>= λ r.
          if not (length r.1 == 0) || r.0 == 0 || ltb 0xff r.0
          then none
          else (let k = record opt.opt_oem_string_keyword { offset = r.0 } in
              some (record opt { opt_oem_string_keyword = k; string = some k })))
]

-- `~0U`.
abbrev pub no_handle : ℕ
no_handle = 2 ^ 32 - 1

-- The value is a `u32` before it is compared.
unfoldable pub parse_opt_handle : List ℕ → ℕ
parse_opt_handle arg = elim (strtoul 0 arg) [
  | none ↦ no_handle
  | some (value, next) ↦
      let val = value % 2 ^ 32 in
      if not (length next == 0) || ltb 0xffff val then no_handle else val
]

pub record FoundOption : Type 0 where
  pub option : ℕ
  pub optarg : List ℕ

-- The cases of the switch; an option that has none is passed over.
pub data Choice : Type 0 where
  dump_bin from_dump dev_mem help quiet no_quirks string oem_string type handle dump no_sysfs
        list_strings list_types version missing other :
      Choice

abbrev pub choices : List (ℕ × Choice)
choices =
    (b'B', dump_bin)
    ∷ (b'F', from_dump)
    ∷ (b'd', dev_mem)
    ∷ (b'h', help)
    ∷ (b'q', quiet)
    ∷ (b'Q', no_quirks)
    ∷ (b's', string)
    ∷ (b'O', oem_string)
    ∷ (b't', type)
    ∷ (b'H', handle)
    ∷ (b'u', dump)
    ∷ (b'S', no_sysfs)
    ∷ (b'L', list_strings)
    ∷ (b'T', list_types)
    ∷ (b'V', version)
    ∷ (b'?', missing)
    ∷ []

abbrev pub choice_in : List (ℕ × Choice) → ℕ → Choice
choice_in [] c = other
choice_in ((d, x) ∷ xs) c = if d == c then x else choice_in xs c

-- A case breaks, or the function returns 0 or -1, with the options as they are then.
pub data Step : Type 0 where
  go_on : Opt → Step
  success : Opt → Step
  failure : Opt → Step

abbrev pub or_fail : Opt → Option Opt → Step
or_fail opt none = failure opt
or_fail opt (some opt') = go_on opt'

unfoldable pub parse_option : Bool → Choice → List ℕ → Opt → Option Step
parse_option has_memory dump_bin arg opt =
    some (go_on (record opt { flag_dump_bin = true; dumpfile = some arg }))
parse_option has_memory from_dump arg opt =
    some (go_on (record opt { flag_from_dump = true; dumpfile = some arg }))
parse_option has_memory dev_mem arg opt = some (go_on (record opt { devmem = arg }))
parse_option has_memory help arg opt = some (go_on (record opt { flag_help = true }))
parse_option has_memory quiet arg opt = some (go_on (record opt { flag_quiet = true }))
parse_option has_memory no_quirks arg opt = some (go_on (record opt { flag_no_quirks = true }))
parse_option has_memory string arg opt =
    some (or_fail opt (parse_opt_string opt arg >>= λ o. some (record o { flag_quiet = true })))
parse_option has_memory oem_string arg opt =
    some (or_fail opt (parse_opt_oem_string opt arg >>= λ o. some (record o { flag_quiet = true })))
parse_option has_memory type arg opt = parse_opt_type has_memory opt.type arg >>= λ p.
    some (elim p [
      | some p' ↦ go_on (record opt { type = some p' })
      | none ↦ failure (record opt { type = none })
    ])
parse_option has_memory handle arg opt =
    let h = parse_opt_handle arg in
    some (
      if h == no_handle
      then failure (record opt { handle = h })
      else go_on (record opt { handle = h }))
parse_option has_memory dump arg opt = some (go_on (record opt { flag_dump = true }))
parse_option has_memory no_sysfs arg opt = some (go_on (record opt { flag_no_sysfs = true }))
parse_option has_memory list_strings arg opt = some (success (record opt { flag_list = true }))
parse_option has_memory list_types arg opt = some (success (record opt { flag_list = true }))
parse_option has_memory version arg opt = some (go_on (record opt { flag_version = true }))
parse_option has_memory missing arg opt = some (failure opt)
parse_option has_memory other arg opt = some (go_on opt)

abbrev pub as_number : Bool → ℕ
as_number b = if b then 1 else 0

abbrev is_some {ℓ} : {A : Type ℓ} → Option A → Bool
is_some none = false
is_some (some a) = true

-- How many of the options that exclude each other are given.
abbrev pub exclusive : Opt → ℕ
exclusive opt =
    as_number (is_some opt.string)
    + as_number (is_some opt.type)
    + as_number opt.flag_dump_bin
    + as_number (not (opt.handle == no_handle))

-- The result is whether the function returns 0.
unfoldable pub parse_command_line : Bool → List FoundOption → Opt → Option (Bool × Opt)
parse_command_line has_memory [] opt =
    if ltb 1 (exclusive opt)
    then some (false, opt)
    else (if opt.flag_from_dump && opt.flag_dump_bin then some (false, opt) else some (true, opt))
parse_command_line has_memory (f ∷ fs) opt =
    parse_option has_memory (choice_in choices f.option) f.optarg opt >>= λ s. elim s [
      | go_on opt' ↦ parse_command_line has_memory fs opt'
      | success opt' ↦ some (true, opt')
      | failure opt' ↦ some (false, opt')
    ]
