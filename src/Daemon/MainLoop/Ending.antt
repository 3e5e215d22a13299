-- ===== src/Daemon/MainLoop/Ending.antt =====
-- The end of the loop in src/daemon/server.cpp.
use cpu_x.Shared.{
  ℕ, zero, suc, ◌+◌, ◌<◌, ◌*◌, if◌then◌else◌, Bool, true, none, some, ◌≡◌, ◌≢◌, arith, inl, inr,
  ◌⊎◌, Option-cases,
}
use cpu_x.Daemon.MainLoop.{
  Main, Holder, DaemonState, Event, new, main_step, poll, leave, lock, count_out, unlock, step,
  Reachable, start, after, Anything,
}
use cpu_x.Daemon.MainLoop.{
  testing, polling, timed_out, accepted, holding, spawned, counted, left, nobody, main_thread,
  handler_before, handler_after, timeout, connection, main_goes, polled, signal, handler_leaves,
  handler_locks, handler_counts, handler_unlocks,
}
use cpu_x.Daemon.MainLoop.Counts.{IsCounted, step-IsCounted, Reachable-IsCounted}

-- No new client connects, and no signal arrives.
abbrev pub Unused : DaemonState → Event → Type 0
Unused d ev = (ev ≢ polled connection) × (ev ≢ signal)

-- A way to the end: handlers leave, then `main` goes on.
unfoldable main_next : Main → Event
main_next polling = polled timeout
main_next _ = main_goes

unfoldable drain : Main → ℕ → ℕ → Event
drain m s (suc e) = handler_locks
drain m (suc s) zero = handler_leaves
drain m zero zero = main_next m

unfoldable next : Main → Holder → ℕ → ℕ → Event
next m handler_before s e = handler_counts
next m handler_after s e = handler_unlocks
next m main_thread s e = main_goes
next accepted nobody s e = main_goes
next m nobody s e = drain m s e

unfoldable main_weight : Main → Bool → ℕ
main_weight testing q = if q then 1 else 8
main_weight polling q = 7
main_weight timed_out q = 6
main_weight accepted q = 17
main_weight holding q = 16
main_weight spawned q = 10
main_weight counted q = 9
main_weight left q = 0

unfoldable holder_weight : Holder → ℕ
holder_weight handler_before = 2
holder_weight handler_after = 1
holder_weight _ = 0

abbrev weight : DaemonState → ℕ
weight d = main_weight d.main d.quit_loop + holder_weight d.mutex + 4 * d.serving + 3 * d.ending

next_goes :
    (d : DaemonState)
    → IsCounted d
    → d.main ≢ left
    → step true d (next d.main d.mutex d.serving d.ending) ≢ none
unfolding step main_step poll leave lock count_out unlock main_next drain next
next_goes d h m = ground arith

next_lighter :
    (d e : DaemonState)
    → IsCounted d
    → step true d (next d.main d.mutex d.serving d.ending) ≡ some e
    → weight e < weight d
unfolding step main_step poll leave lock count_out unlock main_next drain next main_weight
    holder_weight
next_lighter d e h s = ground arith

next-Unused : (d : DaemonState) → Unused d (next d.main d.mutex d.serving d.ending)
unfolding main_next drain next
next-Unused d = ground arith

Main-cases : (m : Main) → (m ≡ left) ⊎ (m ≢ left)
Main-cases m = ground arith

drains :
    (n : ℕ) (c d : DaemonState)
    → weight d < n
    → IsCounted d
    → Reachable true Unused c d
    → (e : DaemonState) × (Reachable true Unused c e × (e.main ≡ left))
drains zero c d small h r = absurd (omega arith)
drains (suc n) c d small h r = elim (Main-cases d.main) [
  | inl l ↦ (d, (r, l))
  | inr m ↦ elim (Option-cases (step true d (next d.main d.mutex d.serving d.ending))) [
    | inl stuck ↦ absurd (next_goes d h m stuck)
    | inr (e, s) ↦
        let ev = next d.main d.mutex d.serving d.ending in
        drains n c e (omega (arith, next_lighter d e h s)) (step-IsCounted true d e ev h s)
          (after ev r (next-Unused d) s)
  ]
]

-- From every state that the daemon in the background reaches, whatever its clients do and however
-- many there are, it can still leave its loop by steps in which no client connects and no signal
-- arrives.
pub can_end :
    (d : DaemonState)
    → Reachable true Anything new d
    → (e : DaemonState) × (Reachable true Unused d e × (e.main ≡ left))
can_end d r =
    drains (suc (weight d)) d d (omega arith) (Reachable-IsCounted true Anything d r) start
