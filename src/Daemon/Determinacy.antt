-- ===== src/Daemon/Determinacy.antt =====
-- The order in which the ends of a connection run does not matter.
use cpu_x.Shared.{ℕ, suc, ◌-◌, ◌≤◌, List, [], ◌∷◌, Option, some, arith}
use cpu_x.Shared.{◌≡◌, refl, sym, ap, ◌∙◌, subst}
use mathlib.Core.Option.{some-injective}
use cpu_x.Dmi.Memory.{◌>>=◌}
use cpu_x.Dmi.Memory.Reads.{Defined}
use cpu_x.Daemon.{
  Program, finish, hang_up, fault, send, receive, run_command, Connection, client_at, server_at,
}
use cpu_x.Daemon.{client_step, server_step, Run, here, by_client, by_server, IsSettled}

module _ {A : Type 0} (shell : List ℕ → ℕ) (handler : Program (Unit {0})) where
  -- Where both ends can go on, their steps lead to one place in either order.
  commute :
      (p : Program A) (q : Program (Unit {0})) (i o l : List (List ℕ))
      → let c : Connection A = record {
        client = p;
        server = q;
        requests = i;
        answers = o;
        as_root = l;
      } in
        Defined (client_step shell handler c)
        → Defined (server_step shell handler c)
        → (w : Connection A) × ((client_step shell handler c >>= server_step shell handler)
            ≡ some w)
          × ((server_step shell handler c >>= client_step shell handler) ≡ some w)
  unfolding client_step server_step client_at server_at
  commute (finish x) q i o l d e = cc
  commute (hang_up x) q i o l d e = cc
  commute fault q i o l d e = cc
  commute (send m k) (hang_up b) i o l d e = cc
  commute (send m k) fault i o l d e = cc
  commute (send m k) (finish b) i o l d e = (_, refl, refl)
  commute (send m k) (send m2 j) i o l d e = (_, refl, refl)
  commute (send m k) (receive n2 j) [] o l d e = cc
  commute (send m k) (receive n2 j) (x ∷ i) o l d e = (_, refl, refl)
  commute (send m k) (run_command t2 j) i o l d e = (_, refl, refl)
  commute (receive n k) (hang_up b) i o l d e = cc
  commute (receive n k) fault i o l d e = cc
  commute (receive n k) (finish b) i [] l d e = cc
  commute (receive n k) (finish b) i (y ∷ o) l d e = (_, refl, refl)
  commute (receive n k) (send m2 j) i [] l d e = cc
  commute (receive n k) (send m2 j) i (y ∷ o) l d e = (_, refl, refl)
  commute (receive n k) (receive n2 j) i [] l d e = cc
  commute (receive n k) (receive n2 j) [] (y ∷ o) l d e = cc
  commute (receive n k) (receive n2 j) (x ∷ i) (y ∷ o) l d e = (_, refl, refl)
  commute (receive n k) (run_command t2 j) i [] l d e = cc
  commute (receive n k) (run_command t2 j) i (y ∷ o) l d e = (_, refl, refl)
  commute (run_command t k) (hang_up b) i o l d e = cc
  commute (run_command t k) fault i o l d e = cc
  commute (run_command t k) (finish b) i o l d e = (_, refl, refl)
  commute (run_command t k) (send m2 j) i o l d e = (_, refl, refl)
  commute (run_command t k) (receive n2 j) [] o l d e = cc
  commute (run_command t k) (receive n2 j) (x ∷ i) o l d e = (_, refl, refl)
  commute (run_command t k) (run_command t2 j) i o l d e = (_, refl, refl)

  -- The same, for steps that are given.
  diamond :
      (c d e : Connection A)
      → client_step shell handler c ≡ some d
      → server_step shell handler c ≡ some e
      → (w : Connection A) × (server_step shell handler d ≡ some w)
        × (client_step shell handler e ≡ some w)
  diamond c d e r s =
      let (w, u, v) = commute c.client c.server c.requests c.answers c.as_root (d, r) (e, s) in
      (
        w,
        sym (ap (λ m. m >>= server_step shell handler) r) ∙ u,
        sym (ap (λ m. m >>= client_step shell handler) s) ∙ v,
      )

  -- Either end makes a step.
  pub data Move (c d : Connection A) : Type 0 where
    client : client_step shell handler c ≡ some d → Move c d
    server : server_step shell handler c ≡ some d → Move c d

  same_end : {o : Option (Connection A)} {d e : Connection A} → o ≡ some d → o ≡ some e → d ≡ e
  same_end r s = some-injective _ _ (sym r ∙ s)

  -- A run to a settled place can be reordered to begin with any step that is possible.
  begin_with :
      {n : ℕ} {c f : Connection A}
      → Run shell handler n c f
      → IsSettled shell handler f
      → (d : Connection A) → Move c d
      → (m : ℕ) × (n ≡ suc m) × Run shell handler m d f
  begin_with (here c) settled d (client r) = cc (settled.client_waits, r)
  begin_with (here c) settled d (server r) = cc (settled.server_waits, r)
  begin_with {f = f} (by_client {n} r more) settled d (client s) =
      (n, refl, subst (λ z. Run shell handler n z f) (same_end r s) more)
  begin_with {f = f} (by_server {n} r more) settled d (server s) =
      (n, refl, subst (λ z. Run shell handler n z f) (same_end r s) more)
  begin_with {c = c} {f = f} (by_client {n = n} {d = c'} r more) settled d (server s) =
      let (w, u, v) = diamond c c' d r s in
      let (m, e, rest) = begin_with more settled w (server u) in
      (n, refl, subst (λ k. Run shell handler k d f) (sym e) (by_client v rest))
  begin_with {c = c} {f = f} (by_server {n = n} {d = c'} r more) settled d (client s) =
      let (w, u, v) = diamond c d c' s r in
      let (m, e, rest) = begin_with more settled w (client v) in
      (n, refl, subst (λ k. Run shell handler k d f) (sym e) (by_server u rest))

  -- Every run from `c` leads to `f`, in whatever order the two ends run, and has `n` steps at most.
  abbrev pub AlwaysEnds : ℕ → Connection A → Connection A → Type 0
  AlwaysEnds n c f =
      IsSettled shell handler f
      × ((k : ℕ) (d : Connection A)
          → Run shell handler k c d
          → (k ≤ n) × Run shell handler (n - k) d f)

  follow :
      {k : ℕ} {c d : Connection A}
      → Run shell handler k c d
      → {n : ℕ} {f : Connection A} → Run shell handler n c f
      → IsSettled shell handler f
      → (k ≤ n) × Run shell handler (n - k) d f
  follow (here c) {n} {f} all settled =
      (omega arith, subst (λ z. Run shell handler z c f) (omega arith) all)
  follow (by_client {n = k} {d = c'} {e = d} r more) {n} {f} all settled =
      let (m, e, rest) = begin_with all settled c' (client r) in
      let (le, end) = follow more rest settled in
      (omega arith, subst (λ z. Run shell handler z d f) {x = m - k} (omega arith) end)
  follow (by_server {n = k} {d = c'} {e = d} r more) {n} {f} all settled =
      let (m, e, rest) = begin_with all settled c' (server r) in
      let (le, end) = follow more rest settled in
      (omega arith, subst (λ z. Run shell handler z d f) {x = m - k} (omega arith) end)

  -- One run to a place where neither end can go on shows that every run leads there, in whatever
  -- order the client and the daemon make their steps, and that no run is longer.
  pub Run-AlwaysEnds :
      (n : ℕ) (c f : Connection A)
      → Run shell handler n c f
      → IsSettled shell handler f
      → AlwaysEnds n c f
  Run-AlwaysEnds n c f all settled = (settled, λ k d r. follow r all settled)
