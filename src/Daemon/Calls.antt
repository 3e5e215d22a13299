-- ===== src/Daemon/Calls.antt =====
-- Each call of the daemon: what the caller gets, and what is left on the connection.
use cpu_x.Shared.{
  ℕ, ◌+◌, ◌-◌, ◌^◌, ◌<◌, leb, if◌then◌else◌, List, [], ◌∷◌, ◌++◌, length, All, length-append,
}
use cpu_x.Shared.{some, Bool-cases, inl, inr, false, ◌≡◌, ◌≢◌, refl, ==-of_ne, arith}
use cpu_x.Daemon.{Program, finish, Connection, client_at, server_at}
use cpu_x.Daemon.{client_step, server_step, IsSettled}
use cpu_x.Daemon.Bytes.{le_bytes, length-le_bytes, le_value-le_bytes}
use cpu_x.Daemon.Server.{
  Machine, modprobe, static_bytes, dynamic_bytes, request_handler, dispatch, DaemonCommand,
  command_number,
}
use cpu_x.Daemon.Server.{
  libcpuid_msr_debug, libcpuid_msr_static, libcpuid_msr_dynamic, dmidecode, access_dev_pci,
  access_sys_debug, load_module,
}
use cpu_x.Daemon.Server as Server
use cpu_x.Daemon.Client as Client
use cpu_x.Dmi.Strings.RoundTrip.{NonZero, c_str-append}
use cpu_x.Daemon.Determinacy.{Move, server}
use cpu_x.Daemon.Runs.{at, stay, ◌▸◌, Ends, Reaches-Ends}
use cpu_x.Daemon.Runs.{
  client_receives, client_reads, client_sends, client_runs, server_receives, server_reads,
  server_sends, server_runs, server_returns,
}

module _ (shell : List ℕ → ℕ) (env : Machine) where
  -- What answers a request.
  abbrev pub answering : DaemonCommand → Program (Unit {0})
  answering libcpuid_msr_debug = Server.call_libcpuid_msr_debug env
  answering libcpuid_msr_static = Server.call_libcpuid_msr_static env
  answering libcpuid_msr_dynamic = Server.call_libcpuid_msr_dynamic env
  answering dmidecode = Server.call_dmidecode env
  answering access_dev_pci = Server.find_devices env
  answering access_sys_debug = Server.can_access_sys_debug_dri env
  answering load_module = Server.call_load_module env

  -- The daemon's thread waits for a request, with nothing under way.
  abbrev pub idle : {A : Type 0} → Program A → List (List ℕ) → Connection A
  idle p l = at p (request_handler env) [] [] l

  module _ {A : Type 0} (p : Program A) (i o l : List (List ℕ)) where
    pub takes_request :
        (cmd : DaemonCommand)
        → Move shell
            (request_handler env)
            (at p (request_handler env) (le_bytes 4 (command_number cmd) ∷ i) o l)
            (at p (answering cmd) i o l)
    unfolding server_step server_at request_handler dispatch
    takes_request libcpuid_msr_debug = server refl
    takes_request libcpuid_msr_static = server refl
    takes_request libcpuid_msr_dynamic = server refl
    takes_request dmidecode = server refl
    takes_request access_dev_pci = server refl
    takes_request access_sys_debug = server refl
    takes_request load_module = server refl

  pub IsSettled-idle :
      {A : Type 0} (a : A) (l : List (List ℕ))
      → IsSettled shell (request_handler env) (idle (finish a) l)
  unfolding client_step server_step client_at server_at request_handler
  IsSettled-idle a l = record { client_waits = refl; server_waits = refl }

  -- `call_libcpuid_msr_static`: whatever the order in which the ends run, the caller gets the
  -- multipliers and the base clock of the core that it names, or the invalid value for each where
  -- that core cannot be opened, and nothing is left on the connection.
  pub call_libcpuid_msr_static-Ends :
      (core : ℕ) (l : List (List ℕ))
      → core < 2 ^ 16
      → Ends shell
          (request_handler env)
          (idle (Client.call_libcpuid_msr_static core) l)
          (idle (finish (some (static_bytes env core))) l)
  unfolding Client.call_libcpuid_msr_static Server.call_libcpuid_msr_static
  call_libcpuid_msr_static-Ends core l h =
      let core' = le_value-le_bytes 2 core (omega arith) in
      Reaches-Ends shell (request_handler env) (IsSettled-idle _ l) (
        client_sends
        ▸ client_sends
        ▸ takes_request _ _ _ _ libcpuid_msr_static
        ▸ server_reads (length-le_bytes 2 core)
        ▸ server_sends
        ▸ server_returns
        ▸ client_receives _ _ refl
        ▸ rw core' stay)

  -- `call_libcpuid_msr_dynamic`: the same, for the voltage and the temperature.
  pub call_libcpuid_msr_dynamic-Ends :
      (core : ℕ) (l : List (List ℕ))
      → core < 2 ^ 16
      → Ends shell
          (request_handler env)
          (idle (Client.call_libcpuid_msr_dynamic core) l)
          (idle (finish (some (dynamic_bytes env core))) l)
  unfolding Client.call_libcpuid_msr_dynamic Server.call_libcpuid_msr_dynamic
  call_libcpuid_msr_dynamic-Ends core l h =
      let core' = le_value-le_bytes 2 core (omega arith) in
      Reaches-Ends shell (request_handler env) (IsSettled-idle _ l) (
        client_sends
        ▸ client_sends
        ▸ takes_request _ _ _ _ libcpuid_msr_dynamic
        ▸ server_reads (length-le_bytes 2 core)
        ▸ server_sends
        ▸ server_returns
        ▸ client_receives _ _ refl
        ▸ rw core' stay)

  -- `load_module` where `grep` does not find the module, for any name of fewer than 2 ^ 63 - 1
  -- characters with no zero byte, and a shell whose exit statuses fit an `int`: whatever the order in
  -- which the ends run, the daemon hands `modprobe` with exactly this name to its shell, the caller
  -- gets the exit status of that, and nothing is left on the connection.
  pub load_module-Ends :
      (name : List ℕ) (l : List (List ℕ))
      → All NonZero name
      → length name + 1 < 2 ^ 63
      → shell (Client.grep name) ≢ 0
      → ((t : List ℕ) → shell t < 2 ^ 32)
      → Ends shell
          (request_handler env)
          (idle (Client.load_module name) l)
          (idle (finish (shell (modprobe name))) (l ++ (modprobe name ∷ [])))
  unfolding Client.load_module Server.call_load_module
  load_module-Ends name l text small missing words =
      let status =
        le_value-le_bytes 4 (shell (modprobe name)) (omega (arith, words (modprobe name))) in
      let len = le_value-le_bytes 8 (length name + 1) (omega arith) in
      let short : leb (2 ^ 63) (length name + 1) ≡ false = ground arith in
      Reaches-Ends shell (request_handler env) (IsSettled-idle _ _) (
        client_runs
        ▸ rw (==-of_ne _ 0 missing) (
            client_sends
            ▸ client_sends
            ▸ client_sends
            ▸ takes_request _ _ _ _ load_module
            ▸ server_receives _ (length-le_bytes 8 (length name + 1))
            ▸ rw (len, ==-of_ne (length name + 1) 0 (omega arith), short)
                (server_receives _ (length-append name (0 ∷ []))
                  ▸ rw (c_str-append name [] text) (
                      server_runs
                      ▸ server_sends
                      ▸ server_returns
                      ▸ client_receives _ _ (length-le_bytes 4 (shell (modprobe name)))
                      ▸ rw status stay))))

  -- `can_access_sys_debug_dri`, where the directory is not accessible yet and the daemon has not
  -- been asked, whatever the order in which the ends run: whether or not the daemon could change the
  -- permissions, the answer is false. The variable of the client is 1, at which the daemon is asked
  -- again, exactly where it could not.
  pub can_access_sys_debug_dri-Ends :
      (l : List (List ℕ))
      → Ends shell
          (request_handler env)
          (idle (Client.can_access_sys_debug_dri false 1) l)
          (idle (finish (false, if env.debug_denied then 1 else 2 ^ 32 - 1)) l)
  unfolding Client.can_access_sys_debug_dri Server.can_access_sys_debug_dri
  can_access_sys_debug_dri-Ends l = elim (Bool-cases env.debug_denied) [
    | inl denied ↦ Reaches-Ends shell (request_handler env) (IsSettled-idle _ l) (
        client_sends
        ▸ takes_request _ _ _ _ access_sys_debug
        ▸ server_sends
        ▸ server_returns
        ▸ rw denied (client_reads refl ▸ stay))
    | inr changed ↦ Reaches-Ends shell (request_handler env) (IsSettled-idle _ l) (
        client_sends
        ▸ takes_request _ _ _ _ access_sys_debug
        ▸ server_sends
        ▸ server_returns
        ▸ rw changed (client_reads refl ▸ stay))
  ]
