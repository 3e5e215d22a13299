-- ===== src/Daemon/Runs.antt =====
-- Steps of the two ends of a connection, one after the other.
use cpu_x.Shared.{ℕ, zero, suc, ◌+◌, List, [], ◌∷◌, ◌++◌, take, length}
use cpu_x.Shared.{◌≡◌, refl, ap, subst, ==-refl, arith}
use cpu_x.Daemon.{
  Program, finish, send, receive, run_command, receive_data, Connection, client_at, server_at,
}
use cpu_x.Daemon.{client_step, server_step, Run, here, by_client, by_server, IsSettled}
use cpu_x.Daemon.Determinacy.{AlwaysEnds, Run-AlwaysEnds, Move, client, server}

abbrev pub at :
    {A : Type 0}
    → Program A
    → Program (Unit {0})
    → List (List ℕ)
    → List (List ℕ)
    → List (List ℕ)
    → Connection A
at p q i o l = record { client = p; server = q; requests = i; answers = o; as_root = l }

pub take-length : (n : ℕ) (p : List ℕ) → length p ≡ n → take n p ≡ p
take-length zero [] h = refl
take-length zero (x ∷ p) h = absurd (omega arith)
take-length (suc n) [] h = absurd (omega arith)
take-length (suc n) (x ∷ p) h = ap (λ z. x ∷ z) (take-length n p (omega arith))

module _ {A : Type 0} (shell : List ℕ → ℕ) (handler : Program (Unit {0})) where
  abbrev pub Reaches : Connection A → Connection A → Type 0
  Reaches c f = (n : ℕ) × Run shell handler n c f

  -- Every run from the first place ends at the second, in whatever order the ends run.
  abbrev pub Ends : Connection A → Connection A → Type 0
  Ends c f = (n : ℕ) × AlwaysEnds shell handler n c f

  pub Reaches-Ends : {c f : Connection A} → IsSettled shell handler f → Reaches c f → Ends c f
  Reaches-Ends {c} {f} settled (n, r) = (n, Run-AlwaysEnds shell handler n c f r settled)

  Run-append :
      {n m : ℕ} {c d f : Connection A}
      → Run shell handler n c d
      → Run shell handler m d f
      → Run shell handler (n + m) c f
  Run-append {m = m} {f = f} (here c) s = subst (λ z. Run shell handler z c f) (omega arith) s
  Run-append {m = m} {f = f} (by_client {n = n} {c = c} e r) s =
      subst (λ z. Run shell handler z c f) {x = suc (n + m)} (omega arith)
        (by_client e (Run-append r s))
  Run-append {m = m} {f = f} (by_server {n = n} {c = c} e r) s =
      subst (λ z. Run shell handler z c f) {x = suc (n + m)} (omega arith)
        (by_server e (Run-append r s))

  pub Reaches-trans : {c d f : Connection A} → Reaches c d → Reaches d f → Reaches c f
  Reaches-trans (n, r) (m, s) = (n + m, Run-append r s)

module _ {A : Type 0} {shell : List ℕ → ℕ} {handler : Program (Unit {0})} where
  pub stay : {c : Connection A} → Reaches shell handler c c
  stay {c} = (zero, here c)

  -- One step of either end, and the rest.
  infixr 4 ◌▸◌
  pub ◌▸◌ :
      {c d f : Connection A}
      → Move shell handler c d
      → Reaches shell handler d f
      → Reaches shell handler c f
  client e ▸ (n, r) = (suc n, by_client e r)
  server e ▸ (n, r) = (suc n, by_server e r)

  module _ {q : Program (Unit {0})} {i l : List (List ℕ)} where
    pub client_receives :
        (failed : A) (k : List ℕ → Program A) {n : ℕ} {p : List ℕ} {ps : List (List ℕ)}
        → length p ≡ n
        → Move shell handler (at (receive_data n failed k) q i (p ∷ ps) l) (at (k p) q i ps l)
    unfolding client_step client_at
    client_receives failed k {n} {p} h = client (rw (take-length n p h, h, ==-refl n) refl)

    -- A longer packet is cut.
    pub client_takes :
        (failed : A) (k : List ℕ → Program A) {n : ℕ} {p : List ℕ} {ps : List (List ℕ)}
        → length (take n p) ≡ n
        → Move shell handler
            (at (receive_data n failed k) q i (p ∷ ps) l)
            (at (k (take n p)) q i ps l)
    unfolding client_step client_at
    client_takes failed k {n} {p} h = client (rw (h, ==-refl n) refl)

    pub client_reads :
        {n : ℕ} {k : List ℕ → Program A} {p : List ℕ} {ps : List (List ℕ)}
        → length p ≡ n
        → Move shell handler (at (receive n k) q i (p ∷ ps) l) (at (k p) q i ps l)
    unfolding client_step client_at
    client_reads {n} {k} {p} h = client (rw (take-length n p h) refl)

    pub client_sends :
        {m : List ℕ} {k : Program A} {o : List (List ℕ)}
        → Move shell handler (at (send m k) q i o l) (at k q (i ++ (m ∷ [])) o l)
    unfolding client_step client_at
    client_sends = client refl

    pub client_runs :
        {t : List ℕ} {k : ℕ → Program A} {o : List (List ℕ)}
        → Move shell handler (at (run_command t k) q i o l) (at (k (shell t)) q i o l)
    unfolding client_step client_at
    client_runs = client refl

  module _ {p : Program A} {i o l : List (List ℕ)} where
    pub server_receives :
        (k : List ℕ → Program (Unit {0})) {n : ℕ} {r : List ℕ}
        → length r ≡ n
        → Move shell handler (at p (receive_data n tt k) (r ∷ i) o l) (at p (k r) i o l)
    unfolding server_step server_at
    server_receives k {n} {r} h = server (rw (take-length n r h, h, ==-refl n) refl)

    pub server_reads :
        {n : ℕ} {k : List ℕ → Program (Unit {0})} {r : List ℕ}
        → length r ≡ n
        → Move shell handler (at p (receive n k) (r ∷ i) o l) (at p (k r) i o l)
    unfolding server_step server_at
    server_reads {n} {k} {r} h = server (rw (take-length n r h) refl)

    pub server_sends :
        {m : List ℕ} {k : Program (Unit {0})}
        → Move shell handler (at p (send m k) i o l) (at p k i (o ++ (m ∷ [])) l)
    unfolding server_step server_at
    server_sends = server refl

    pub server_runs :
        {t : List ℕ} {k : ℕ → Program (Unit {0})}
        → Move shell handler (at p (run_command t k) i o l) (at p (k (shell t)) i o (l ++ (t ∷ [])))
    unfolding server_step server_at
    server_runs = server refl

    pub server_returns : Move shell handler (at p (finish tt) i o l) (at p handler i o l)
    unfolding server_step server_at
    server_returns = server refl
