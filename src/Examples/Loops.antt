-- ===== src/Examples/Loops.antt =====
-- The theorems on the loop of src/daemon/server.cpp, at concrete sequences of steps.
use cpu_x.Shared.{◌^◌, ◌<◌, true, false, some, refl, ◌≡◌, ◌≢◌, arith}
use cpu_x.Dmi.Memory.{◌>>=◌}
use cpu_x.Daemon.MainLoop.{
  DaemonState, Event, new, step, main_step, poll, Reachable, start, after, Anything,
}
use cpu_x.Daemon.MainLoop.{
  testing, timed_out, left, nobody, connection, timeout, main_goes, polled, signal,
}
use cpu_x.Daemon.MainLoop.Counts.{
  alive, IsCounted, Undisturbed, Reachable-IsCounted, left_without_clients, signal_lost,
}
use cpu_x.Daemon.MainLoop.Ending.{Unused, can_end}

-- One client is served, and `poll` has timed out.
abbrev one_client : DaemonState
one_client = record {
  main = timed_out;
  quit_loop = false;
  running_threads = 1;
  mutex = nobody;
  serving = 1;
  ending = 0;
}

module _ (Allowed : DaemonState → Event → Type 0)
    (allowed : (d : DaemonState) (ev : Event) → alive d < 2 ^ 16 → ev ≢ signal → Allowed d ev) where
  one_client_comes : Reachable true Allowed new one_client
  unfolding step main_step poll
  one_client_comes =
      after (polled timeout)
        (after main_goes
          (after main_goes
            (after main_goes
              (after main_goes
                (after main_goes
                  (after (polled connection)
                    (after main_goes start (allowed _ _ (omega arith) (ground arith)) refl)
                    (allowed _ _ (omega arith) (ground arith)) refl)
                  (allowed _ _ (omega arith) (ground arith)) refl)
                (allowed _ _ (omega arith) (ground arith)) refl)
              (allowed _ _ (omega arith) (ground arith)) refl)
            (allowed _ _ (omega arith) (ground arith)) refl)
          (allowed _ _ (omega arith) (ground arith)) refl)
        (allowed _ _ (omega arith) (ground arith)) refl

-- No client came.
abbrev ended : DaemonState
ended = record new { main = left; quit_loop = true }

nobody_comes : Reachable true Undisturbed new ended
unfolding step main_step poll
nobody_comes =
    after main_goes
      (after main_goes
        (after (polled timeout) (after main_goes start (omega arith, ground arith) refl)
          (omega arith, ground arith) refl)
        (omega arith, ground arith) refl)
      (omega arith, ground arith) refl

Reachable-IsCounted_example : IsCounted one_client
Reachable-IsCounted_example =
    Reachable-IsCounted true Undisturbed one_client
      (one_client_comes Undisturbed (λ d ev few other. (few, other)))

left_without_clients_example : alive ended ≡ 0
left_without_clients_example = left_without_clients true ended nobody_comes refl

signal_lost_example :
    (step true one_client signal >>= λ e. step true e main_goes)
    ≡ some (record one_client { main = testing; quit_loop = false })
signal_lost_example =
    signal_lost true one_client (one_client_comes Undisturbed (λ d ev few other. (few, other))) refl
      (omega arith) (omega arith)

can_end_example : (e : DaemonState) × (Reachable true Unused one_client e × (e.main ≡ left))
can_end_example = can_end one_client (one_client_comes Anything (λ d ev few other. tt))
