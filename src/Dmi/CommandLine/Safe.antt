-- ===== src/Dmi/CommandLine/Safe.antt =====
-- `parse_command_line` of core/dmidecode/dmiopt.c on any command line.
use cpu_x.Shared.{
  ℕ, ◌%◌, ◌^◌, ◌==◌, ◌<◌, ◌≤◌, ltb, Bool, true, false, Bool-cases, Option-cases, not, ◌&&◌, ◌||◌,
  List, [], ◌∷◌, length, codes, Option, none, some, ◌≡◌, ◌⊎◌, inl, inr, refl, subst, ◌∙◌, arith,
}
use cpu_x.Dmi.Memory.{◌>>=◌}
use cpu_x.Dmi.Numbers.{strcmp_equal, strtoul}
use cpu_x.Dmi.CommandLine.{
  Opt, StringKeyword, find_keyword, opt_string_keyword, parse_opt_string, parse_opt_oem_string,
  parse_opt_handle, no_handle, FoundOption, Choice, dump_bin, from_dump, dev_mem, help, quiet,
  no_quirks, string, oem_string, type, handle, dump, no_sysfs, list_strings, list_types, version,
  missing, other, choices, choice_in, Step, go_on, success, failure, or_fail, parse_option,
  parse_command_line, exclusive,
}
use cpu_x.Dmi.TypeOption.Bounds.{IsTypes, Continues, parse_opt_type-Continues}

-- A string is only asked for quietly, a handle has 16 bits, and an OEM string a number of 8 bits.
pub record IsGood (o : Opt) : Type 0 where
  pub types : IsTypes o.type
  pub quietly : (o.string ≡ none) ⊎ (o.flag_quiet ≡ true)
  pub handle_range : (o.handle ≡ no_handle) ⊎ (o.handle < 2 ^ 16)
  pub oem_range : o.opt_oem_string_keyword.offset < 2 ^ 8

-- The options exclude each other where they are to.
pub record IsExclusive (o : Opt) : Type 0 where
  pub one : exclusive o ≤ 1
  pub not_both : (o.flag_from_dump && o.flag_dump_bin) ≡ false

-- What holds where 0 is returned.
abbrev pub Accepts : Bool → Opt → Type 0
Accepts false o = Unit
Accepts true o = IsGood o × ((o.flag_list ≡ true) ⊎ IsExclusive o)

abbrev GoodStep : Step → Type 0
GoodStep (go_on o) = IsGood o
GoodStep (success o) = IsGood o × (o.flag_list ≡ true)
GoodStep (failure o) = Unit

or_right : (a b : Bool) → (a || b) ≡ false → b ≡ false
or_right true b h = cc
or_right false b h = h

at_most : (n k : ℕ) → ltb n k ≡ false → k ≤ n
at_most n k h = ground arith

parse_opt_handle-range :
    (arg : List ℕ) → (parse_opt_handle arg ≡ no_handle) ⊎ (parse_opt_handle arg < 2 ^ 16)
unfolding parse_opt_handle
parse_opt_handle-range arg = elim (Option-cases (strtoul 0 arg)) [
  | inl no_number ↦ inl (rw (no_number, parse_opt_handle) refl)
  | inr ((value, next), number) ↦
      elim (Bool-cases (not (length next == 0) || ltb 0xffff (value % 2 ^ 32))) [
        | inl refused ↦ inl (rw (number, refused, parse_opt_handle) refl)
        | inr taken ↦ inr (
            rw (number, taken, parse_opt_handle)
              (omega (
                arith,
                at_most 0xffff (value % 2 ^ 32)
                    (or_right (not (length next == 0)) (ltb 0xffff (value % 2 ^ 32)) taken),
              )))
      ]
]

with_string :
    (o : Opt) (k : StringKeyword)
    → IsGood o
    → IsGood (record o { string = some k; flag_quiet = true })
with_string o k h = record {
  types = h.types;
  quietly = inr refl;
  handle_range = h.handle_range;
  oem_range = h.oem_range;
}

string-GoodStep :
    (o : Opt) (arg : List ℕ)
    → IsGood o
    → GoodStep (or_fail o (parse_opt_string o arg >>= λ o'. some (record o' { flag_quiet = true })))
unfolding parse_opt_string
string-GoodStep o arg h = elim (Option-cases o.string) [
  | inl first ↦ elim (Option-cases (find_keyword opt_string_keyword arg)) [
    | inl invalid ↦ rw (first, invalid) tt
    | inr (k, found) ↦ rw (first, found) (with_string o k h)
  ]
  | inr (k, second) ↦ rw second tt
]

oem_string-GoodStep :
    (o : Opt) (arg : List ℕ)
    → IsGood o
    → GoodStep
        (or_fail o (parse_opt_oem_string o arg >>= λ o'. some (record o' { flag_quiet = true })))
unfolding parse_opt_oem_string
oem_string-GoodStep o arg h = elim (Option-cases o.string) [
  | inl first ↦ elim (Bool-cases (strcmp_equal arg (codes "count"))) [
    | inl count ↦ rw (first, count) (with_string o o.opt_oem_string_keyword h)
    | inr number ↦ elim (Option-cases (strtoul 10 arg)) [
      | inl no_number ↦ rw (first, number, no_number) tt
      | inr (r, read) ↦ elim (Bool-cases (not (length r.1 == 0) || r.0 == 0 || ltb 0xff r.0)) [
        | inl refused ↦ rw (first, number, read, refused) tt
        | inr taken ↦
            rw (first, number, read, taken)
              (record {
                types = h.types;
                quietly = inr refl;
                handle_range = h.handle_range;
                oem_range = omega (
                  arith,
                  at_most 0xff r.0
                      (or_right (not (length r.1 == 0) || r.0 == 0) (ltb 0xff r.0) taken),
                );
              })
      ]
    ]
  ]
  | inr (k, second) ↦ rw second tt
]

-- The parts of the options that `IsGood` is about.
abbrev parts : Opt → Option (List Bool) × Option StringKeyword × Bool × ℕ × ℕ
parts o = (o.type, o.string, o.flag_quiet, o.handle, o.opt_oem_string_keyword.offset)

parts-IsGood : (o o' : Opt) → parts o ≡ parts o' → IsGood o → IsGood o'
parts-IsGood o o' e h = record {
  types = subst (λ p. IsTypes p.0) e h.types;
  quietly = subst (λ p. (p.1 ≡ none) ⊎ (p.2 ≡ true)) e h.quietly;
  handle_range = subst (λ p. (p.3 ≡ no_handle) ⊎ (p.3 < 2 ^ 16)) e h.handle_range;
  oem_range = subst (λ p. p.4 < 2 ^ 8) e h.oem_range;
}

Continues-IsTypes :
    (t : Option (List Bool)) (p : List Bool) → Continues t (some p) → IsTypes t → IsTypes (some p)
Continues-IsTypes none p c h = c
Continues-IsTypes (some q) p c h = c.size ∙ h

type-GoodStep :
    (o : Opt) (r : Option (List Bool))
    → Continues o.type r
    → IsGood o
    → GoodStep (elim r [
      | some p ↦ go_on (record o { type = some p })
      | none ↦ failure (record o { type = none })
    ])
type-GoodStep o none c h = tt
type-GoodStep o (some p) c h = record {
  types = Continues-IsTypes o.type p c h.types;
  quietly = h.quietly;
  handle_range = h.handle_range;
  oem_range = h.oem_range;
}

parse_option-GoodStep :
    (has_memory : Bool) (x : Choice) (arg : List ℕ) (o : Opt)
    → IsGood o
    → (s : Step) × (parse_option has_memory x arg o ≡ some s) × GoodStep s
unfolding parse_option
parse_option-GoodStep has_memory dump_bin arg o h = (_, refl, parts-IsGood o _ refl h)
parse_option-GoodStep has_memory from_dump arg o h = (_, refl, parts-IsGood o _ refl h)
parse_option-GoodStep has_memory dev_mem arg o h = (_, refl, parts-IsGood o _ refl h)
parse_option-GoodStep has_memory help arg o h = (_, refl, parts-IsGood o _ refl h)
parse_option-GoodStep has_memory quiet arg o h = (
  _,
  refl,
  record {
    types = h.types;
    quietly = inr refl;
    handle_range = h.handle_range;
    oem_range = h.oem_range;
  },
)
parse_option-GoodStep has_memory no_quirks arg o h = (_, refl, parts-IsGood o _ refl h)
parse_option-GoodStep has_memory string arg o h = (_, refl, string-GoodStep o arg h)
parse_option-GoodStep has_memory oem_string arg o h = (_, refl, oem_string-GoodStep o arg h)
parse_option-GoodStep has_memory type arg o h =
    let (r, e, c) = parse_opt_type-Continues has_memory o.type arg h.types in
    (_, rw e refl, type-GoodStep o r c h)
parse_option-GoodStep has_memory handle arg o h =
    elim (Bool-cases (parse_opt_handle arg == no_handle)) [
      | inl refused ↦ (_, refl, rw refused tt)
      | inr taken ↦ (
        _,
        refl,
        rw taken (record {
          types = h.types;
          quietly = h.quietly;
          handle_range = parse_opt_handle-range arg;
          oem_range = h.oem_range;
        }),
      )
    ]
parse_option-GoodStep has_memory dump arg o h = (_, refl, parts-IsGood o _ refl h)
parse_option-GoodStep has_memory no_sysfs arg o h = (_, refl, parts-IsGood o _ refl h)
parse_option-GoodStep has_memory list_strings arg o h = (_, refl, (parts-IsGood o _ refl h, refl))
parse_option-GoodStep has_memory list_types arg o h = (_, refl, (parts-IsGood o _ refl h, refl))
parse_option-GoodStep has_memory version arg o h = (_, refl, parts-IsGood o _ refl h)
parse_option-GoodStep has_memory missing arg o h = (_, refl, tt)
parse_option-GoodStep has_memory other arg o h = (_, refl, h)

continued :
    (has_memory : Bool) (fs : List FoundOption) (s : Step)
    → GoodStep s
    → ((o : Opt)
        → IsGood o
        → (b : Bool) × (o' : Opt) × (parse_command_line has_memory fs o ≡ some (b, o'))
          × Accepts b o')
    → (b : Bool) × (o' : Opt) × ((elim s [
      | go_on p ↦ parse_command_line has_memory fs p
      | success p ↦ some (true, p)
      | failure p ↦ some (false, p)
    ])
        ≡ some (b, o'))
      × Accepts b o'
continued has_memory fs (go_on p) g rest = rest p g
continued has_memory fs (success p) (g, listed) rest = (true, p, refl, (g, inl listed))
continued has_memory fs (failure p) g rest = (false, p, refl, tt)

-- From good options, `parse_command_line` returns whatever the command line holds, with no write
-- outside the array of types; where it returns 0, the options are good, and either a list was asked
-- for, or at most one of --string, --type, --handle and --dump-bin is given, and not both of
-- --from-dump and --dump-bin.
pub parse_command_line-Accepts :
    (has_memory : Bool) (fs : List FoundOption) (o : Opt)
    → IsGood o
    → (b : Bool) × (o' : Opt) × (parse_command_line has_memory fs o ≡ some (b, o')) × Accepts b o'
unfolding parse_command_line
parse_command_line-Accepts has_memory [] o h = elim (Bool-cases (ltb 1 (exclusive o))) [
  | inl several ↦ (false, o, rw several refl, tt)
  | inr one ↦ elim (Bool-cases (o.flag_from_dump && o.flag_dump_bin)) [
    | inl both ↦ (false, o, rw (one, both) refl, tt)
    | inr not_both ↦ (
      true,
      o,
      rw (one, not_both) refl,
      (h, inr (record { one = at_most 1 (exclusive o) one; not_both = not_both })),
    )
  ]
]
parse_command_line-Accepts has_memory (f ∷ fs) o h =
    let (s, e, g) = parse_option-GoodStep has_memory (choice_in choices f.option) f.optarg o h in
    let (b, o', es, a) =
      continued has_memory fs s g (λ p. parse_command_line-Accepts has_memory fs p) in
    (b, o', rw e es, a)
