-- ===== src/Dmi/Strings.antt =====
-- The string area of an SMBIOS structure: `is_printable`, `ascii_filter`, `_dmi_string` and
-- `dmi_string` of core/dmidecode/dmidecode.c.
pub mod Safety
pub mod RoundTrip
use cpu_x.Shared.{ℕ, zero, suc, ◌+◌, ◌==◌, ltb, leb, if◌then◌else◌, Bool, true, false, ◌||◌}
use cpu_x.Shared.{Option, none, some, List, [], ◌∷◌, length, drop, set, codes}
use cpu_x.Dmi.Memory.{Buffer, byte, ◌>>=◌}

-- The part of `struct dmi_header` that the string functions use: where the structure starts in
-- the block and the length of its formatted area; `type` and `handle` serve the decoder.
pub record Header : Type 0 where
  pub type : ℕ
  pub length : ℕ
  pub handle : ℕ
  pub start : ℕ

unfoldable pub is_printable : List ℕ → Bool
is_printable [] = true
is_printable (c ∷ cs) = let rest = is_printable cs in if ltb c 32 || leb 127 c then false else rest

-- The C string at the head of a list of bytes; a string with no end in the block is a fault.
unfoldable pub c_str : List ℕ → Option (List ℕ)
c_str [] = none
c_str (c ∷ cs) = let rest = c_str cs in if c == 0 then some [] else rest >>= λ t. some (c ∷ t)

abbrev pub str_at : Buffer → ℕ → Option (List ℕ)
str_at buf p = c_str (drop p buf)

-- A `char` below 32, negative ones included, or from 127 on becomes a dot.
unfoldable pub clean : ℕ → ℕ
clean c = if ltb c 32 || leb 127 c then b'.' else c

-- `ascii_filter`, in place, at position `p` with `left` characters to go.
unfoldable pub ascii_filter : ℕ → ℕ → Buffer → Option Buffer
unfolding clean
ascii_filter zero p buf = some buf
ascii_filter (suc left) p buf = do c ← byte buf p; ascii_filter left (p + 1) (set buf p (clean c))

-- The loop of `_dmi_string`: `s - 1` strings are passed over, or fewer where the area ends.
unfoldable pub skip_strings : Buffer → ℕ → ℕ → Option ℕ
skip_strings buf zero bp = some bp
skip_strings buf (suc zero) bp = some bp
skip_strings buf (suc (suc s)) bp = do
  c ← byte buf bp
  let next = str_at buf bp >>= λ t. skip_strings buf (suc s) (bp + length t + 1)
  if c == 0 then some bp else next

-- What `_dmi_string` returns, a pointer or NULL, and the block, which the filter changes.
pub record Found : Type 0 where
  pub pointer : Option ℕ
  pub block : Buffer

unfoldable pub find_string : Buffer → Header → ℕ → Bool → Option Found
unfolding skip_strings ascii_filter
find_string buf h s filter = do
  bp ← skip_strings buf s (h.start + h.length)
  c ← byte buf bp
  let filtered = do
    t ← str_at buf bp
    buf' ← ascii_filter (length t) bp buf
    some (record { pointer = some bp; block = buf' })
  if c == 0
      then some (record { pointer = none; block = buf })
      else if filter
      then filtered
      else some (record { pointer = some bp; block = buf })

-- What `dmi_string` returns, as text, and the block.
pub record Text : Type 0 where
  pub text : List ℕ
  pub block : Buffer

abbrev pub not_specified : List ℕ
not_specified = codes "Not Specified"

abbrev pub bad_index : List ℕ
bad_index = []

unfoldable pub read_found : Found → Option Text
unfolding c_str
read_found r = elim r.pointer [
  | none ↦ some (record { text = bad_index; block = r.block })
  | some bp ↦ str_at r.block bp >>= λ t. some (record { text = t; block = r.block })
]

unfoldable pub dmi_string : Buffer → Header → ℕ → Option Text
unfolding find_string read_found
dmi_string buf h s =
    let found = find_string buf h s true in
    if s == 0 then some (record { text = not_specified; block = buf }) else found >>= read_found
