-- ===== src/Dmi/Loop.antt =====
-- The shape of both passes of `dmi_table_decode`: a `while` loop with a test, whose body may read
-- memory and may leave the loop by `break`.
use cpu_x.Shared.{ℕ, zero, suc, ◌<◌, if◌then◌else◌, Bool, true, Option, none, some}
use cpu_x.Shared.{◌≡◌, inl, inr, Bool-cases, arith}
use cpu_x.Dmi.Memory.{◌>>=◌}

-- `none` is a fault or the end of the fuel. The body says whether the loop goes on.
unfoldable pub loop {ℓ} : {S : Type ℓ} → ℕ → (S → Bool) → (S → Option (Bool × S)) → S → Option S
loop zero test body s = none
loop (suc fuel) test body s =
    let round = body s >>= λ (more, s').
    let rest = loop fuel test body s' in if more then rest else some s' in
    if test s then round else some s

-- What the body does to a state: it returns, keeps the invariant, and where the loop goes on the
-- measure falls.
abbrev pub Keeps {ℓ κ} :
    {S : Type ℓ} → (S → Type κ) → (S → ℕ) → S → Option (Bool × S) → Type (ℓ ⊔ κ)
Keeps {S} P measure s r =
    (more : Bool) × (s' : S) × (r ≡ some (more, s')) × P s' × (more ≡ true → measure s' < measure s)

-- With fuel above the measure the loop returns, and the invariant holds at its end.
pub loop-Keeps {ℓ κ} :
    {S : Type ℓ} (P : S → Type κ) (measure : S → ℕ) (test : S → Bool) (body : S → Option (Bool × S))
    → ((s : S) → P s → test s ≡ true → Keeps P measure s (body s))
    → (fuel : ℕ) (s : S) → measure s < fuel
    → P s
    → (s' : S) × (loop fuel test body s ≡ some s') × P s'
unfolding loop
loop-Keeps P measure test body keep zero s m p = absurd (omega arith)
loop-Keeps P measure test body keep (suc fuel) s m p = elim (Bool-cases (test s)) [
  | inr over ↦ (s, rw over, p)
  | inl on ↦
      let (more, s', r, p', falls) = keep s p on in
      elim (Bool-cases more) [
        | inr stop ↦ (s', rw (on, r, stop), p')
        | inl goes ↦
            let (s'', e, p'') =
              loop-Keeps P measure test body keep fuel s' (omega (arith, falls goes)) p' in
            (s'', rw (on, r, goes) e, p'')
      ]
]
