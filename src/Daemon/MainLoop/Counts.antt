-- ===== src/Daemon/MainLoop/Counts.antt =====
-- The counter of the threads, `ti.running_threads` of src/daemon/server.cpp.
use cpu_x.Shared.{ℕ, ◌+◌, ◌%◌, ◌^◌, ◌<◌, Bool, true, false, some, ◌≡◌, ◌≢◌, refl, arith}
use cpu_x.Dmi.Memory.{◌>>=◌}
use cpu_x.Shared.{◌⊎◌}
use cpu_x.Daemon.MainLoop.{
  Main, Holder, DaemonState, Event, new, main_step, poll, leave, lock, count_out, unlock, step,
  Reachable, start, after,
}
use cpu_x.Daemon.MainLoop.{
  testing, timed_out, holding, spawned, counted, left, main_thread, handler_before, main_goes,
  signal,
}

-- The thread that `main` has started and not counted yet.
abbrev pub uncounted : Main → ℕ
uncounted spawned = 1
uncounted _ = 0

abbrev pub leaving : Holder → ℕ
leaving handler_before = 1
leaving _ = 0

-- The handlers that have not counted themselves out.
abbrev pub alive : DaemonState → ℕ
alive d = d.serving + d.ending + leaving d.mutex

abbrev pub main_holds : Main → Bool
main_holds holding = true
main_holds spawned = true
main_holds counted = true
main_holds _ = false

abbrev pub is_main : Holder → Bool
is_main main_thread = true
is_main _ = false

pub record IsCounted (d : DaemonState) : Type 0 where
  pub exact : (d.running_threads + uncounted d.main) % 2 ^ 16 ≡ alive d % 2 ^ 16
  pub in_range : d.running_threads < 2 ^ 16
  pub excluded : is_main d.mutex ≡ main_holds d.main

pub step-IsCounted :
    (background : Bool) (d e : DaemonState) (ev : Event)
    → IsCounted d
    → step background d ev ≡ some e
    → IsCounted e
unfolding step main_step poll leave lock count_out unlock
step-IsCounted background d e ev h s = ground arith

new-IsCounted : IsCounted new
new-IsCounted = record { exact = refl; in_range = omega arith; excluded = refl }

-- In every state that the daemon reaches, whatever the order of the steps of its threads, the
-- counter, which is below 2 ^ 16, and the thread that is started but not counted yet make up the
-- number of handlers that have not counted themselves out, modulo 2 ^ 16; and `main` holds the mutex exactly from its lock to
-- its unlock.
pub Reachable-IsCounted :
    (background : Bool) (Allowed : DaemonState → Event → Type 0) (d : DaemonState)
    → Reachable background Allowed new d
    → IsCounted d
Reachable-IsCounted background Allowed d start = new-IsCounted
Reachable-IsCounted background Allowed d (after {d = c} ev r a s) =
    step-IsCounted background c d ev (Reachable-IsCounted background Allowed c r) s

-- No signal, and fewer handlers than the counter can count.
abbrev pub Undisturbed : DaemonState → Event → Type 0
Undisturbed d ev = (alive d < 2 ^ 16) × (ev ≢ signal)

-- Where the loop is to end, no handler is alive and none will be.
record IsCalm (d : DaemonState) : Type 0 where
  no_client : d.quit_loop ≡ true → alive d ≡ 0
  on_its_way : d.quit_loop ≡ true → (d.main ≡ testing) ⊎ (d.main ≡ left)
  has_quit : d.main ≡ left → d.quit_loop ≡ true

step-IsCalm :
    (background : Bool) (d e : DaemonState) (ev : Event)
    → IsCounted d
    → IsCalm d
    → Undisturbed d ev
    → step background d ev ≡ some e
    → IsCalm e
unfolding step main_step poll leave lock count_out unlock
step-IsCalm background d e ev h c u s = ground arith

Reachable-IsCalm :
    (background : Bool) (d : DaemonState) → Reachable background Undisturbed new d → IsCalm d
Reachable-IsCalm background d start = record {
  no_client = ground arith;
  on_its_way = ground arith;
  has_quit = ground arith;
}
Reachable-IsCalm background d (after {d = c} ev r a s) =
    step-IsCalm background c d ev (Reachable-IsCounted background Undisturbed c r)
      (Reachable-IsCalm background c r) a s

-- Without a signal, and with fewer than 2 ^ 16 handlers at every step, the daemon leaves its loop
-- only where no handler is alive, whatever the order of the steps of its threads.
pub left_without_clients :
    (background : Bool) (d : DaemonState)
    → Reachable background Undisturbed new d
    → d.main ≡ left
    → alive d ≡ 0
left_without_clients background d r l =
    let calm = Reachable-IsCalm background d r in calm.no_client (calm.has_quit l)

-- A signal that arrives between a timeout and the assignment of `quit_loop` is lost where at least
-- one and fewer than 2 ^ 16 handlers are alive, if there was no signal before: the loop goes on.
pub signal_lost :
    (background : Bool) (d : DaemonState)
    → Reachable background Undisturbed new d
    → d.main ≡ timed_out
    → 0 < alive d
    → alive d < 2 ^ 16
    → (step background d signal >>= λ e. step background e main_goes)
      ≡ some (record d { main = testing; quit_loop = false })
unfolding step main_step
signal_lost background d r t some_alive few =
    let counts = Reachable-IsCounted background Undisturbed d r in
    let exact = counts.exact in let small = counts.in_range in ground arith
