-- ===== src/Options/Selected.antt =====
-- The selected type of core, core, stick and graphic card of src/options.cpp. An `at` out of range
-- throws, the result `none`.
pub mod Sound
pub mod Located
use cpu_x.Shared.{
  ℕ, zero, suc, ◌+◌, ◌-◌, ◌%◌, ◌^◌, ◌==◌, ltb, if◌then◌else◌, Bool, true, false, List, [], ◌∷◌,
  length, get_elem?, set, Option, none, some,
}
use cpu_x.Dmi.Memory.{◌>>=◌}
use cpu_x.Options.{Limited, Options}

-- `check_selected_type_valid`, `check_selected_stick_valid` and `check_selected_gpu_valid`: a value
-- that is too large sets the current one to 0.
unfoldable pub check_valid : Limited → ℕ → Bool × Limited
check_valid l n = if ltb n l.second then (true, l) else (false, record l { first = 0 })

-- `set_selected_stick` and `set_selected_gpu`, then `get_selected_stick` and `get_selected_gpu`.
unfoldable pub select : Limited → ℕ → Bool × Limited
select l n =
    let (valid, l') = check_valid l n in
    if valid then (true, record l' { first = n }) else (false, l')

unfoldable pub selected : Limited → ℕ × Limited
selected l = let l' = (check_valid l l.first).1 in (l'.first, l')

abbrev pub check_selected_type_valid : Options → ℕ → Bool × Options
check_selected_type_valid o n =
    let (valid, l) = check_valid o.selected_type n in (valid, record o { selected_type = l })

abbrev pub get_selected_type : Options → ℕ × Options
get_selected_type o = let (n, l) = selected o.selected_type in (n, record o { selected_type = l })

abbrev pub set_selected_stick : Options → ℕ → Bool × Options
set_selected_stick o n =
    let (valid, l) = select o.selected_stick n in (valid, record o { selected_stick = l })

abbrev pub get_selected_stick : Options → ℕ × Options
get_selected_stick o =
    let (n, l) = selected o.selected_stick in (n, record o { selected_stick = l })

abbrev pub set_num_sticks : Options → ℕ → Options
set_num_sticks o n = record o { selected_stick = record o.selected_stick { second = n } }

abbrev pub set_selected_gpu : Options → ℕ → Bool × Options
set_selected_gpu o n =
    let (valid, l) = select o.selected_gpu n in (valid, record o { selected_gpu = l })

abbrev pub get_selected_gpu : Options → ℕ × Options
get_selected_gpu o = let (n, l) = selected o.selected_gpu in (n, record o { selected_gpu = l })

abbrev pub set_num_gpus : Options → ℕ → Options
set_num_gpus o n = record o { selected_gpu = record o.selected_gpu { second = n } }

abbrev pub repeated {ℓ} : {A : Type ℓ} → ℕ → A → List A
repeated zero x = []
repeated (suc n) x = x ∷ repeated n x

-- The number of cores of each type is 2 ^ 16 - 1 until it is set.
unfoldable pub set_num_types : Options → ℕ → Options
set_num_types o n = record o {
  selected_type = record o.selected_type { second = n };
  selected_core = record o.selected_core { second = repeated n (2 ^ 16 - 1) };
}

unfoldable pub set_num_cores : Options → ℕ → ℕ → Option Options
set_num_cores o t n =
    let counts = o.selected_core.second in
    if length counts == 0
    then some o
    else get_elem? counts t >>= λ _.
        some (record o { selected_core = record o.selected_core { second = set counts t n } })

unfoldable pub check_selected_core_valid : Options → ℕ → Option (Bool × Options)
check_selected_core_valid o n =
    if length o.selected_core.second == 0
    then some (true, o)
    else (let (t, o') = get_selected_type o in
        get_elem? o'.selected_core.second t >>= λ count.
        if ltb n count
        then some (true, o')
        else some (false, record o' { selected_core = record o'.selected_core { first = 0 } }))

unfoldable pub get_selected_core : Options → Option (ℕ × Options)
get_selected_core o =
    check_selected_core_valid o o.selected_core.first >>= λ r. some (r.1.selected_core.first, r.1)

-- The loop of `get_selected_core_id`, with `left` rounds at most; `core_offset` is a `uint16_t`.
unfoldable pub core_offset : ℕ → Options → ℕ → ℕ → Option (ℕ × Options)
core_offset zero o core_type offset = none
core_offset (suc left) o core_type offset =
    let (t, o') = get_selected_type o in
    let rest = get_elem? o'.selected_core.second core_type >>= λ n.
    core_offset left o' (suc core_type) ((offset + n) % 2 ^ 16) in
    if ltb core_type t then rest else some (offset, o')

unfoldable pub get_selected_core_id : Options → Option (ℕ × Options)
get_selected_core_id o =
    if length o.selected_core.second == 0
    then some (0, o)
    else (core_offset 257 o 0 0 >>= λ r.
        get_selected_core r.1 >>= λ s. some ((r.0 + s.0) % 2 ^ 16, s.1))

-- Where the kernel refuses, only the log says so.
unfoldable pub set_selected_core : Options → ℕ → Option (Bool × Options)
set_selected_core o n = check_selected_core_valid o n >>= λ r.
    if r.0
    then (get_selected_core_id
          (record r.1 { selected_core = record r.1.selected_core { first = n } })
        >>= λ s. some (true, record s.1 { affinity = some s.0 }))
    else some (false, r.1)

unfoldable pub set_selected_type : Options → ℕ → Option (Bool × Options)
set_selected_type o n =
    let (valid, o') = check_selected_type_valid o n in
    if valid
    then (set_selected_core (record o' { selected_type = record o'.selected_type { first = n } }) 0
        >>= λ r. some (true, r.1))
    else some (false, o')
