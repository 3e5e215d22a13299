-- ===== src/Options/Calls/Counts.antt =====
-- The calls of src/options.cpp by which src/core/libcpuid.cpp tells how many cores each type has.
use cpu_x.Shared.{
  ℕ, zero, suc, ◌-◌, ◌%◌, ◌^◌, ◌<◌, List, [], ◌∷◌, ◌++◌, map, append_assoc, length, length-append,
  get_elem?-some, set, some, ◌≡◌, refl, ap, sym, ◌∙◌, arith, ==-of_ne,
}
use cpu_x.Options.{Options}
use cpu_x.Options.Selected.{repeated, set_num_types, set_num_cores}
use cpu_x.Options.Calls.{set_each_num_cores, set_cores_of_types}

pub length-repeated {ℓ} : {A : Type ℓ} (n : ℕ) (x : A) → length (repeated n x) ≡ n
length-repeated zero x = refl
length-repeated (suc n) x = ap suc (length-repeated n x)

set-middle :
    (pre rest : List ℕ) (x v : ℕ) → set (pre ++ x ∷ rest) (length pre) v ≡ (pre ++ v ∷ []) ++ rest
set-middle [] rest x v = refl
set-middle (y ∷ pre) rest x v = ap (λ t. y ∷ t) (set-middle pre rest x v)

set_num_cores-known :
    (o : Options) (pre rest : List ℕ) (x n : ℕ)
    → o.selected_core.second ≡ pre ++ x ∷ rest
    → set_num_cores o (length pre) n
      ≡ some
          (record o { selected_core = record o.selected_core { second = (pre ++ n ∷ []) ++ rest } })
unfolding set_num_cores
set_num_cores-known o pre rest x n h =
    let (y, found) =
      get_elem?-some (pre ++ x ∷ rest) (length pre) (omega (arith, length-append pre (x ∷ rest))) in
    rw
      (
        h,
        ==-of_ne (length (pre ++ x ∷ rest)) 0 (omega (arith, length-append pre (x ∷ rest))),
        found,
        set-middle pre rest x n,
      )
      refl

-- A number of cores as the `uint16_t` that it is passed as.
abbrev pub as_counts : List ℕ → List ℕ
as_counts counts = map (λ (n : ℕ). n % 2 ^ 16) counts

pub length-as_counts : (counts : List ℕ) → length (as_counts counts) ≡ length counts
length-as_counts [] = refl
length-as_counts (n ∷ counts) = ap suc (length-as_counts counts)

set_each_num_cores-known :
    (counts pre rest : List ℕ) (t : ℕ) (o : Options)
    → length pre ≡ t
    → o.selected_core.second ≡ pre ++ rest
    → length rest ≡ length counts
    → set_each_num_cores t counts o
      ≡ some
          (record o { selected_core = record o.selected_core { second = pre ++ as_counts counts } })
unfolding set_each_num_cores
set_each_num_cores-known [] pre [] t o at_t h same =
    ap (λ xs. some (record o { selected_core = record o.selected_core { second = xs } })) h
set_each_num_cores-known [] pre (x ∷ rest) t o at_t h same = absurd (omega arith)
set_each_num_cores-known (n ∷ counts) pre [] t o at_t h same = absurd (omega arith)
set_each_num_cores-known (n ∷ counts) pre (x ∷ rest) t o at_t h same =
    let m = n % 2 ^ 16 in
    rw (sym at_t, set_num_cores-known o pre rest x m h)
      (set_each_num_cores-known counts (pre ++ m ∷ []) rest (suc (length pre))
          (record o { selected_core = record o.selected_core { second = (pre ++ m ∷ []) ++ rest } })
          (omega (arith, length-append pre (m ∷ []))) refl (omega arith)
        ∙ ap (λ xs. some (record o { selected_core = record o.selected_core { second = xs } }))
            (append_assoc pre (m ∷ []) (as_counts counts)))

-- Where there are fewer than 2 ^ 8 types, the calls that tell how many cores each has leave the
-- number of types and, type by type, of cores, each modulo 2 ^ 16, and nothing else changed.
pub set_cores_of_types-as_counts :
    (counts : List ℕ) (o : Options)
    → length counts < 2 ^ 8
    → set_cores_of_types counts o
      ≡ some (record o {
        selected_type = record o.selected_type { second = length counts };
        selected_core = record o.selected_core { second = as_counts counts };
      })
unfolding set_cores_of_types set_num_types
set_cores_of_types-as_counts counts o few =
    let small : length counts % 2 ^ 8 ≡ length counts = omega arith in
    rw small (
      set_each_num_cores-known counts [] (repeated (length counts) (2 ^ 16 - 1)) 0
        (set_num_types o (length counts)) refl refl (length-repeated (length counts) (2 ^ 16 - 1)))
