-- ===== src/Dmi/Table.antt =====
-- `to_dmi_header`, `dmi_fixup_type_34` and `dmi_table_decode` of core/dmidecode/dmidecode.c.
-- The table is a block of `len` bytes; pointers into it are offsets.
pub mod Safety
pub mod FirstPass
pub mod Closed
use cpu_x.Shared.{ℕ, zero, suc, ◌+◌, ◌==◌, ltb, leb, if◌then◌else◌, Bool, true, false, ◌&&◌, ◌||◌}
use cpu_x.Shared.{Option, none, some, List}
use cpu_x.Dmi.Memory.{Buffer, byte, word, ◌>>=◌}
use cpu_x.Dmi.Loop.{loop}
use cpu_x.Dmi.Strings.{Header, find_string, str_at}
use cpu_x.Dmi.Vendor.{VendorState, dmi_set_vendor}
use cpu_x.Dmi.CpuidType.{CpuidType, cpuid_none, dmi_get_cpuid_type}

unfoldable pub to_dmi_header : Buffer → ℕ → Option Header
to_dmi_header buf p = do
  t ← byte buf p
  l ← byte buf (p + 1)
  handle ← word buf (p + 2)
  some (record { type = t; length = l; handle = handle; start = p })

-- The inner loop that looks for the two zero bytes behind a structure, with `left` rounds at most.
unfoldable pub find_next : ℕ → Buffer → ℕ → ℕ → Option ℕ
find_next zero buf len next = none
find_next (suc left) buf len next =
    let further = find_next left buf len (next + 1) in
    let second = byte buf (next + 1) >>= λ b. if b == 0 then some next else further in
    let test = byte buf next >>= λ a. if a == 0 then second else further in
    if ltb (next + 1) len then test else some next

-- `next = data + h.length`, the loop, and `next += 2`.
unfoldable pub next_handle : Buffer → ℕ → Header → Option ℕ
next_handle buf len h = find_next (suc len) buf len (h.start + h.length) >>= λ n. some (n + 2)

-- The options that steer the walk. `help` is bit 1 of `opt.flags`; `type` is `opt.type`, with
-- NULL as the test that always holds; `string` is the type that `opt.string` asks for.
pub record Options : Type 0 where
  pub quiet : Bool
  pub help : Bool
  pub dump : Bool
  pub no_quirks : Bool
  pub type : ℕ → Bool
  pub handle : ℕ
  pub string : Option ℕ

-- What the first pass leaves in the globals.
pub record Globals : Type 0 where
  pub vendors : VendorState
  pub cpuid_type : CpuidType

pub record First : Type 0 where
  pub position : ℕ
  pub count : ℕ
  pub globals : Globals

-- `(i < num || !num) && data + 4 <= buf + len`
abbrev pub goes_on : ℕ → ℕ → ℕ → ℕ → Bool
goes_on num len i p = (ltb i num || num == 0) && leb (p + 4) len

-- A string of the structure, unfiltered.
unfoldable pub raw_string : Buffer → Header → ℕ → Option (Option ℕ × Option (List ℕ))
raw_string buf h s = find_string buf h s false >>= λ r. elim r.pointer [
  | none ↦ some (none, none)
  | some p ↦ str_at buf p >>= λ t. some (some p, some t)
]

unfoldable pub remember_vendor : Buffer → Header → VendorState → Option VendorState
remember_vendor buf h g = do
  v ← byte buf (h.start + 0x04)
  (_, vendor) ← raw_string buf h v
  p ← byte buf (h.start + 0x05)
  (product, _) ← raw_string buf h p
  some (dmi_set_vendor vendor product g)

abbrev pub is_cpuid_none : CpuidType → Bool
is_cpuid_none cpuid_none = true
is_cpuid_none _ = false

unfoldable pub remember_cpuid : Buffer → Header → CpuidType → Option CpuidType
remember_cpuid buf h c =
    if h.type == 4 && leb 0x1A h.length && is_cpuid_none c then dmi_get_cpuid_type buf h else some c

unfoldable pub remember : Buffer → Header → Globals → Option Globals
remember buf h g = do
  v ← (if h.type == 1 && leb 6 h.length then remember_vendor buf h g.vendors else some g.vendors)
  c ← remember_cpuid buf h g.cpuid_type
  some (record { vendors = v; cpuid_type = c })

-- A round of the first pass from the search for the next handle on.
unfoldable pub first_taken : Buffer → ℕ → Header → First → Option (Bool × First)
first_taken buf len h s = next_handle buf len h >>= λ next.
    if ltb len next
    then some (false, record s { count = s.count + 1 })
    else remember buf h s.globals >>= λ g.
        some (true, record { position = next; count = s.count + 1; globals = g })

-- One round of the first pass: whether it goes on, and the state.
unfoldable pub first_step : Options → Buffer → ℕ → First → Option (Bool × First)
first_step o buf len s = to_dmi_header buf s.position >>= λ h.
    if ltb h.length 4 || (h.type == 127 && (o.quiet || o.help))
    then some (false, s)
    else first_taken buf len h s

-- The first pass, with `fuel` rounds at most.
unfoldable pub first_pass : ℕ → Options → Buffer → ℕ → ℕ → First → Option First
first_pass fuel o buf len num s =
    loop fuel (λ s. goes_on num len s.count s.position) (first_step o buf len) s
