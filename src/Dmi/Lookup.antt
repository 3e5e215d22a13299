-- ===== src/Dmi/Lookup.antt =====
-- Reads of an array of names by a code, as the functions of core/dmidecode/dmidecode.c make them.
use cpu_x.Shared.{ℕ, ◌+◌, ◌-◌, ◌<◌, leb, if◌then◌else◌, ◌&&◌, List, String, get_elem?, length}
use cpu_x.Shared.{Option, arith, get_elem?-some}
use cpu_x.Dmi.Memory.Reads.{Defined, Defined-if}

-- A function from a code to a name; a read outside an array is `none`.
abbrev pub Decoder : Type 0
Decoder = ℕ → Option String

-- The function answers every code.
abbrev pub IsTotal : Decoder → Type 0
IsTotal f = (code : ℕ) → Defined (f code)

abbrev pub out_of_spec : String
out_of_spec = "<OUT OF SPEC>"

-- `if (code >= lo && code <= hi) return names[code - lo];` before the rest of the function.
unfoldable pub in_range : ℕ → ℕ → List String → ℕ → Option String → Option String
in_range lo hi names code rest =
    if leb lo code && leb code hi then get_elem? names (code - lo) else rest

-- `if (code <= hi) return names[code];` before the rest.
unfoldable pub up_to : ℕ → List String → ℕ → Option String → Option String
up_to hi names code rest = if leb code hi then get_elem? names code else rest

pub in_range-Defined :
    (lo hi : ℕ) (names : List String) (code : ℕ) (rest : Option String)
    → hi < lo + length names
    → Defined rest
    → Defined (in_range lo hi names code rest)
unfolding in_range
in_range-Defined lo hi names code rest h d =
    Defined-if (leb lo code && leb code hi) _ _
      (λ t. get_elem?-some names (code - lo) (ground arith)) (λ _. d)

pub up_to-Defined :
    (hi : ℕ) (names : List String) (code : ℕ) (rest : Option String)
    → hi < length names
    → Defined rest
    → Defined (up_to hi names code rest)
unfolding up_to
up_to-Defined hi names code rest h d =
    Defined-if (leb code hi) _ _ (λ t. get_elem?-some names code (ground arith)) (λ _. d)
