-- ===== src/Daemon/MainLoop.antt =====
-- The loop of `main` in src/daemon/server.cpp, and the threads that it starts. A request that ends
-- the whole process is not a step here.
pub mod Counts
pub mod Ending
use cpu_x.Shared.{
  ℕ, zero, suc, ◌+◌, ◌-◌, ◌%◌, ◌^◌, ◌==◌, if◌then◌else◌, Bool, true, false, Option, none, some, ◌≡◌,
}

-- Where the thread of `main` is. `left` is the label `clean`.
pub data Main : Type 0 where
  testing polling timed_out accepted holding spawned counted left : Main

-- Who holds `ti.mutex`: a handler holds it before it has counted itself out, or after.
pub data Holder : Type 0 where
  nobody main_thread handler_before handler_after : Holder

-- The handlers differ in their sockets only, so it is enough how many of them are in
-- `request_handler`'s loop (`serving`) and in front of the lock in `cleanup_thread` (`ending`).
pub record DaemonState : Type 0 where
  pub main : Main
  pub quit_loop : Bool
  pub running_threads : ℕ
  pub mutex : Holder
  pub serving : ℕ
  pub ending : ℕ

-- What `poll` and `accept` say. There is no timeout where the daemon is in the foreground.
pub data Polled : Type 0 where
  failed timeout connection refused : Polled

-- What goes on next: a step of `main`, a signal, or a step of some handler.
pub data Event : Type 0 where
  main_goes : Event
  polled : Polled → Event
  signal handler_leaves handler_locks handler_counts handler_unlocks : Event

abbrev pub new : DaemonState
new = record {
  main = testing;
  quit_loop = false;
  running_threads = 0;
  mutex = nobody;
  serving = 0;
  ending = 0;
}

-- A statement of the loop, apart from `poll`. The mutex is taken only where nobody has it.
unfoldable pub main_step : DaemonState → Main → Option DaemonState
main_step d testing = some (record d { main = if d.quit_loop then left else polling })
main_step d polling = none
main_step d timed_out = some (record d { main = testing; quit_loop = d.running_threads == 0 })
main_step d accepted = elim d.mutex [
  | nobody ↦ some (record d { main = holding; mutex = main_thread })
  | _ ↦ none
]
main_step d holding = some (record d { main = spawned; serving = d.serving + 1 })
main_step d spawned =
    some (record d { main = counted; running_threads = (d.running_threads + 1) % 2 ^ 16 })
main_step d counted = some (record d { main = testing; mutex = nobody })
main_step d left = none

unfoldable pub poll : Bool → Polled → DaemonState → Option DaemonState
poll background p d = elim d.main [
  | polling ↦ (elim p [
    | failed ↦ some (record d { main = testing })
    | timeout ↦ if background then some (record d { main = timed_out }) else none
    | connection ↦ some (record d { main = accepted })
    | refused ↦ some (record d { main = testing })
  ])
  | _ ↦ none
]

-- `request_handler` breaks out of its loop.
unfoldable pub leave : DaemonState → ℕ → Option DaemonState
leave d zero = none
leave d (suc n) = some (record d { serving = n; ending = d.ending + 1 })

-- `cleanup_thread`, up to the lock.
unfoldable pub lock : DaemonState → Holder → ℕ → Option DaemonState
lock d nobody (suc n) = some (record d { mutex = handler_before; ending = n })
lock d nobody zero = none
lock d main_thread n = none
lock d handler_before n = none
lock d handler_after n = none

-- `ti.running_threads--` and the rest.
unfoldable pub count_out : DaemonState → Holder → Option DaemonState
count_out d handler_before = some (record d {
  mutex = handler_after;
  running_threads = (d.running_threads + 2 ^ 16 - 1) % 2 ^ 16;
})
count_out d nobody = none
count_out d main_thread = none
count_out d handler_after = none

unfoldable pub unlock : DaemonState → Holder → Option DaemonState
unlock d handler_after = some (record d { mutex = nobody })
unlock d nobody = none
unlock d main_thread = none
unlock d handler_before = none

-- One step of the process; `none` where this step is not possible.
unfoldable pub step : Bool → DaemonState → Event → Option DaemonState
step background d main_goes = main_step d d.main
step background d (polled p) = poll background p d
step background d signal = some (record d { quit_loop = true })
step background d handler_leaves = leave d d.serving
step background d handler_locks = lock d d.mutex d.ending
step background d handler_counts = count_out d d.mutex
step background d handler_unlocks = unlock d d.mutex

-- The states that the process gets to from another by the steps that `Allowed` lets happen.
pub data Reachable (background : Bool) (Allowed : DaemonState → Event → Type 0) (c : DaemonState)
    : DaemonState → Type 0 where
  start : Reachable background Allowed c c
  after :
      {d e : DaemonState} (ev : Event)
      → Reachable background Allowed c d
      → Allowed d ev
      → step background d ev ≡ some e
      → Reachable background Allowed c e

abbrev pub Anything : DaemonState → Event → Type 0
Anything d ev = Unit {0}
