-- ===== src/Main/Arguments/Early.antt =====
-- `parse_arguments` of src/main.cpp runs before the pages are made visible and the types are known.
use cpu_x.Shared.{
  ℕ, ◌%◌, ◌^◌, ◌==◌, ◌≤◌, if◌then◌else◌, Bool, true, false, Bool-cases, Option-cases, List, [], ◌∷◌,
  All, Option, none, ◌≡◌, ◌≢◌, inl, inr, ap, arith,
}
use cpu_x.Options.{Options}
use cpu_x.Options.Settings.{set_keymap, set_temp_unit}
use cpu_x.Options.Calls.{left_by}
use cpu_x.Main.Arguments.{
  FoundOption, Choice, gtk, ncurses, dump, dmidecode, bandwidth, temp_unit, refresh, tab, type,
  core, cachetest, stick, gpu, daemon, verbose, help, version, cpuid_decimal, nocolor, debug,
  issue_fmt, keymap, unknown, choice_of, Parsing, Parsed, parsed, exited, thrown, Step, go_on,
  leaves, help_and_exit, letter_of, check_required_argument_is_digit, number_of, with_number,
  with_letter, parse_option, parse_options,
}
use cpu_x.Main.Arguments.Kept.{
  IsEarly, set_selected_core-early, set_selected_type-KeepsEarly, set_selected_page-KeepsEarly,
  set_selected_stick-KeepsEarly, set_selected_gpu-KeepsEarly, set_refr_time-KeepsEarly,
  set_selected_test-KeepsEarly, set_output_type-IsEarly, set_keymap-IsEarly, set_temp_unit-IsEarly,
  KeepsEarly,
}

-- No case ends by an exception.
abbrev pub StaysEarly : Parsed → Type 0
StaysEarly (parsed p cmd_args) = IsEarly p.options
StaysEarly (exited status) = status ≤ 1
StaysEarly thrown = 1 ≤ 0

abbrev StepsEarly : Step → Type 0
StepsEarly (go_on p) = IsEarly p.options
StepsEarly (leaves r) = StaysEarly r

-- A number that the function reads has 64 bits at most.
abbrev pub HasNumber : FoundOption → Type 0
HasNumber f = check_required_argument_is_digit f ≡ true → number_of f ≢ none

with_number-StepsEarly :
    (w : ℕ) (set : Options → ℕ → Option Options) (f : FoundOption) (p : Parsing)
    → KeepsEarly set
    → HasNumber f
    → IsEarly p.options
    → StepsEarly (with_number w set f p)
with_number-StepsEarly w set f p keeps number h =
    elim (Bool-cases (check_required_argument_is_digit f)) [
      | inl digit ↦ elim (Option-cases (number_of f)) [
        | inl too_large ↦ absurd (number digit too_large)
        | inr (n, e) ↦
            (let (o', set_to, h') = keeps p.options (n % 2 ^ w) h in rw (digit, e, set_to) h')
      ]
      | inr no_digit ↦ rw no_digit (omega arith)
    ]

if-StepsEarly :
    (b : Bool) (x y : Step) → StepsEarly x → StepsEarly y → StepsEarly (if b then x else y)
if-StepsEarly true x y l r = l
if-StepsEarly false x y l r = r

with_letter-StepsEarly :
    (a b c d : ℕ) (set : Options → ℕ → Bool × Options) (f : FoundOption) (p : Parsing)
    → ((n : ℕ) → IsEarly (set p.options n).1)
    → StepsEarly (with_letter a b c d set f p)
with_letter-StepsEarly a b c d set f p keeps = elim (Bool-cases (letter_of f == a)) [
  | inl first ↦ rw first (keeps 0)
  | inr not_first ↦ elim (Bool-cases (letter_of f == b)) [
    | inl second ↦ rw (not_first, second) (keeps 1)
    | inr not_second ↦ elim (Bool-cases (letter_of f == c)) [
      | inl third ↦ rw (not_first, not_second, third) (keeps 2)
      | inr not_third ↦
          rw (not_first, not_second, not_third)
            (if-StepsEarly (letter_of f == d) (go_on (record p { options = (set p.options 3).1 }))
              help_and_exit (keeps 3) (omega arith))
    ]
  ]
]

continued :
    (s : Step) (k : Parsing → Parsed)
    → ((p : Parsing) → IsEarly p.options → StaysEarly (k p))
    → StepsEarly s
    → StaysEarly (elim s [ go_on p' ↦ k p' | leaves r ↦ r ])
continued (go_on p) k keeps h = keeps p h
continued (leaves r) k keeps h = h

module _ (last_test : ℕ) where
  parse_option-StepsEarly :
      (x : Choice) (f : FoundOption) (p : Parsing) (cmd_args : List (List ℕ))
      → HasNumber f
      → IsEarly p.options
      → StepsEarly (parse_option last_test x f p cmd_args)
  unfolding parse_option
  parse_option-StepsEarly gtk f p cmd_args number h = set_output_type-IsEarly p.options _ h
  parse_option-StepsEarly ncurses f p cmd_args number h = set_output_type-IsEarly p.options _ h
  parse_option-StepsEarly dump f p cmd_args number h = set_output_type-IsEarly p.options _ h
  parse_option-StepsEarly dmidecode f p cmd_args number h = set_output_type-IsEarly p.options _ h
  parse_option-StepsEarly bandwidth f p cmd_args number h = set_output_type-IsEarly p.options _ h
  parse_option-StepsEarly temp_unit f p cmd_args number h =
      with_letter-StepsEarly _ _ _ _ set_temp_unit f p (λ n. set_temp_unit-IsEarly p.options n h)
  parse_option-StepsEarly refresh f p cmd_args number h =
      with_number-StepsEarly 16 _ f p set_refr_time-KeepsEarly number h
  parse_option-StepsEarly tab f p cmd_args number h =
      with_number-StepsEarly 32 _ f p set_selected_page-KeepsEarly number h
  parse_option-StepsEarly type f p cmd_args number h =
      with_number-StepsEarly 8 _ f p set_selected_type-KeepsEarly number h
  parse_option-StepsEarly core f p cmd_args number h =
      with_number-StepsEarly 16 _ f p
        (λ o n early_o.
          (_, ap left_by (set_selected_core-early o n (ap (λ q. q.1) early_o)), early_o))
        number h
  parse_option-StepsEarly cachetest f p cmd_args number h =
      with_number-StepsEarly 8 _ f p (set_selected_test-KeepsEarly last_test) number h
  parse_option-StepsEarly stick f p cmd_args number h =
      with_number-StepsEarly 8 _ f p set_selected_stick-KeepsEarly number h
  parse_option-StepsEarly gpu f p cmd_args number h =
      with_number-StepsEarly 8 _ f p set_selected_gpu-KeepsEarly number h
  parse_option-StepsEarly daemon f p cmd_args number h = h
  parse_option-StepsEarly verbose f p cmd_args number h = h
  parse_option-StepsEarly help f p cmd_args number h = omega arith
  parse_option-StepsEarly version f p cmd_args number h = omega arith
  parse_option-StepsEarly cpuid_decimal f p cmd_args number h = h
  parse_option-StepsEarly nocolor f p cmd_args number h = h
  parse_option-StepsEarly debug f p cmd_args number h = h
  parse_option-StepsEarly issue_fmt f p cmd_args number h =
      set_output_type-IsEarly (record p.options { color = false; issue = true }) _ h
  parse_option-StepsEarly keymap f p cmd_args number h =
      with_letter-StepsEarly _ _ _ _ set_keymap f p (λ n. set_keymap-IsEarly p.options n h)
  parse_option-StepsEarly unknown f p cmd_args number h = omega arith

  -- Where the numbers on the command line have 64 bits, the loop over the arguments ends the program
  -- with the status 0 or 1, or returns with the bounds, the visible pages and the selected page that
  -- it starts with, where these are the ones before `main`.
  pub parse_options-StaysEarly :
      (fs : List FoundOption) (p : Parsing) (cmd_args : List (List ℕ))
      → All HasNumber fs
      → IsEarly p.options
      → StaysEarly (parse_options last_test fs p cmd_args)
  unfolding parse_options
  parse_options-StaysEarly [] p cmd_args numbers h = h
  parse_options-StaysEarly (f ∷ fs) p cmd_args (number, numbers) h =
      continued (parse_option last_test (choice_of f) f p cmd_args)
        (λ p'. parse_options last_test fs p' cmd_args)
        (λ p' h'. parse_options-StaysEarly fs p' cmd_args numbers h')
        (parse_option-StepsEarly (choice_of f) f p cmd_args number h)
