-- ===== src/Main/Table.antt =====
-- The table of the arguments of src/main.cpp, and what `parse_arguments` makes of it for `getopt_long`.
use cpu_x.Shared.{ℕ, ltb, if◌then◌else◌, Bool, true, false, ◌&&◌, List, [], ◌∷◌, ◌++◌, codes}

-- The parts that the program was built with.
pub record Build : Type 0 where
  pub has_gtk : Bool
  pub has_ncurses : Bool
  pub has_dmidecode : Bool
  pub has_bandwidth : Bool
  pub has_libcpuid : Bool
  pub has_libpci : Bool

pub record Getopt : Type 0 where
  pub has_mod : Bool
  pub short_opt : ℕ
  pub long_opt : List ℕ
  pub need_arg : Bool

abbrev option_of : Bool → ℕ → List ℕ → Bool → Getopt
option_of m c name a = record { has_mod = m; short_opt = c; long_opt = name; need_arg = a }

abbrev pub cpux_options : Build → List Getopt
cpux_options b =
    option_of b.has_gtk b'G' (codes "gtk") false
    ∷ option_of b.has_ncurses b'N' (codes "ncurses") false
    ∷ option_of true b'D' (codes "dump") false
    ∷ option_of b.has_dmidecode b'M' (codes "dmidecode") false
    ∷ option_of b.has_bandwidth b'B' (codes "bandwidth") false
    ∷ option_of true b'u' (codes "temp-unit") true
    ∷ option_of true b'r' (codes "refresh") true
    ∷ option_of true b't' (codes "tab") true
    ∷ option_of b.has_libcpuid b'p' (codes "type") true
    ∷ option_of b.has_libcpuid b'c' (codes "core") true
    ∷ option_of b.has_bandwidth b'b' (codes "cachetest") true
    ∷ option_of b.has_dmidecode b's' (codes "stick") true
    ∷ option_of b.has_libpci b'g' (codes "gpu") true
    ∷ option_of true b'd' (codes "daemon") false
    ∷ option_of true b'v' (codes "verbose") false
    ∷ option_of true b'h' (codes "help") false
    ∷ option_of true b'V' (codes "version") false
    ∷ option_of b.has_libcpuid 0 (codes "cpuid-decimal") false
    ∷ option_of true 0 (codes "nocolor") false
    ∷ option_of true 0 (codes "debug") false
    ∷ option_of true 0 (codes "issue-fmt") false
    ∷ option_of b.has_ncurses 0 (codes "keymap") true
    ∷ []

-- The loop that fills `shortopts` and `longopts`; the empty entry that ends `longopts` is left out.
abbrev pub shortopts : List Getopt → List ℕ
shortopts [] = []
shortopts (x ∷ xs) =
    (if x.has_mod && ltb 0 x.short_opt
      then (x.short_opt ∷ (if x.need_arg then b':' ∷ [] else []))
      else [])
    ++ shortopts xs

abbrev pub longopts : List Getopt → List Getopt
longopts [] = []
longopts (x ∷ xs) = let rest = longopts xs in if x.has_mod then x ∷ rest else rest
