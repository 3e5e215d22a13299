-- ===== src/Daemon/Dmidecode.antt =====
-- The call of dmidecode through the daemon: `__call_dmidecode` of src/daemon/server.cpp and
-- `call_dmidecode` of src/core/dmidecode/libdmidecode.cpp.
use cpu_x.Shared.{ℕ, ◌^◌, ◌≤◌, ◌<◌, List, [], ◌∷◌, ◌++◌, take, length, map, length-append}
use cpu_x.Shared.{some, ◌≡◌, ◌≢◌, refl, sym, ==-of_ne, arith}
use cpu_x.Daemon.{Program, finish, send, client_step, server_step, client_at, server_at, IsSettled}
use cpu_x.Daemon.Bytes.{
  le_bytes, length-le_bytes, le_value-le_bytes, cpu_bytes, mb_bytes, bios_bytes,
}
use cpu_x.Daemon.Server.{
  Machine, send_sticks, request_handler, dmidecode, libcpuid_msr_dynamic, dynamic_bytes,
}
use cpu_x.Daemon.Server as Server
use cpu_x.Daemon.Client.{Part, cpu_part, mb_part, bios_part, stick_part, receive_sticks}
use cpu_x.Daemon.Client as Client
use cpu_x.Daemon.Runs.{at, Reaches, stay, ◌▸◌, Ends, Reaches-Ends, Reaches-trans}
use cpu_x.Daemon.Runs.{
  client_receives, client_sends, client_takes, server_reads, server_sends, server_returns,
}
use cpu_x.Daemon.Calls.{takes_request, idle, IsSettled-idle}
use cpu_x.Daemon.Sticks.{
  IsSized, stick_packets, length-stick_packets, stick_packets-All, length-take, sends_sticks,
  receives_sticks,
}

module _ (shell : List ℕ → ℕ) (env : Machine) where
  -- What the decoder's data is on the wire, in the order of the packets.
  abbrev pub parts : List Part
  parts =
      (cpu_part (cpu_bytes env.double_bytes env.dmi.processor)
        ∷ mb_part (mb_bytes env.dmi.mb)
        ∷ bios_part (bios_bytes env.dmi.bios)
        ∷ [])
      ++ map stick_part (stick_packets env.dmi)

  waits :
      {A : Type 0} {o l : List (List ℕ)} (a : A)
      → IsSettled shell (request_handler env) (at (finish a) (request_handler env) [] o l)
  unfolding client_step server_step client_at server_at request_handler
  waits a = record { client_waits = refl; server_waits = refl }

  -- The five packets before the sticks.
  abbrev head_packets : List (List ℕ)
  head_packets =
      le_bytes 4 env.dmidecode_ret
      ∷ cpu_bytes env.double_bytes env.dmi.processor
      ∷ mb_bytes env.dmi.mb
      ∷ bios_bytes env.dmi.bios
      ∷ le_bytes 1 env.dmi.stick_count
      ∷ []

  -- The daemon's side of the call.
  answers_dmidecode :
      {A : Type 0} (p : Program A) (l : List (List ℕ))
      → IsSized env.dmi
      → Reaches shell
          (request_handler env)
          (idle shell env (send (le_bytes 4 3) p) l)
          (at p (request_handler env) [] (head_packets ++ stick_packets env.dmi) l)
  unfolding Server.call_dmidecode
  answers_dmidecode p l sized =
      client_sends
      ▸ takes_request shell env _ _ _ _ dmidecode
      ▸ server_sends
      ▸ server_sends
      ▸ server_sends
      ▸ server_sends
      ▸ server_sends
      ▸ Reaches-trans shell (request_handler env)
          (sends_sticks p [] l env.dmi.stick_count env.dmi.memory head_packets sized.counted)
          (server_returns ▸ stay)

  -- Where dmidecode returns 0 in the daemon, its data has the sizes of the structures, and a double
  -- has 8 bytes, the caller gets all of it, in order and unchanged, whatever the order in which the ends run, and
  -- nothing is left on the connection.
  pub call_dmidecode-Ends :
      (l : List (List ℕ))
      → env.dmidecode_ret ≡ 0
      → ((n : ℕ) → length (env.double_bytes n) ≡ 8)
      → IsSized env.dmi
      → Ends shell
          (request_handler env)
          (idle shell env Client.call_dmidecode l)
          (idle shell env (finish (0, parts)) l)
  unfolding Client.call_dmidecode
  call_dmidecode-Ends l ok double sized =
      let count = le_value-le_bytes 1 env.dmi.stick_count (omega (arith, sized.small)) in
      Reaches-Ends shell (request_handler env) (IsSettled-idle shell env _ l) (
        Reaches-trans shell (request_handler env) (answers_dmidecode _ l sized) (
          client_receives _ _ refl
          ▸ rw ok (
              client_receives _ _ (
                omega (
                  arith,
                  double env.dmi.processor.bus_freq,
                  sized.package',
                  length-append (env.double_bytes env.dmi.processor.bus_freq)
                      env.dmi.processor.cpu_package,
                ))
              ▸ client_receives _ _ sized.mb
              ▸ client_receives _ _ sized.bios
              ▸ client_receives _ _ refl
              ▸ rw count (
                  receives_sticks _ [] l (stick_packets env.dmi) env.dmi.stick_count _
                    (sym (length-stick_packets env.dmi.stick_count env.dmi.memory sized.counted))
                    (stick_packets-All env.dmi.stick_count env.dmi.memory sized.sticks)))))

  -- Where dmidecode returns another value in the daemon, and its data has the sizes of the
  -- structures, the caller gives up after the first packet, and all the others stay on the
  -- connection, whatever the order in which the ends run.
  pub call_dmidecode_failed-Ends :
      (l : List (List ℕ))
      → env.dmidecode_ret ≢ 0
      → env.dmidecode_ret < 2 ^ 32
      → IsSized env.dmi
      → Ends shell (request_handler env) (idle shell env Client.call_dmidecode l) (
          at
            (finish (1, []))
            (request_handler env)
            []
            (cpu_bytes env.double_bytes env.dmi.processor
              ∷ mb_bytes env.dmi.mb
              ∷ bios_bytes env.dmi.bios
              ∷ le_bytes 1 env.dmi.stick_count
              ∷ stick_packets env.dmi)
            l)
  unfolding Client.call_dmidecode
  call_dmidecode_failed-Ends l failed word sized =
      let ret = le_value-le_bytes 4 env.dmidecode_ret (omega arith) in
      Reaches-Ends shell (request_handler env) (waits _) (
        Reaches-trans shell (request_handler env) (answers_dmidecode _ l sized)
          (client_receives _ _ refl ▸ rw (ret, ==-of_ne env.dmidecode_ret 0 failed) stay))

  -- Where packets are waiting, the first of at least 8 bytes, a call for the voltage and the
  -- temperature of a core takes that one for its answer: it gets its first 8 bytes, and the daemon's
  -- answer goes to the end of the queue.
  pub call_libcpuid_msr_dynamic_stale :
      (core : ℕ) (p : List ℕ) (ps l : List (List ℕ))
      → core < 2 ^ 16
      → 8 ≤ length p
      → Ends shell
          (request_handler env)
          (at (Client.call_libcpuid_msr_dynamic core) (request_handler env) [] (p ∷ ps) l)
          (at
            (finish (some (take 8 p)))
            (request_handler env)
            []
            (ps ++ (dynamic_bytes env core ∷ []))
            l)
  unfolding Client.call_libcpuid_msr_dynamic Server.call_libcpuid_msr_dynamic
  call_libcpuid_msr_dynamic_stale core p ps l h long =
      let core' = le_value-le_bytes 2 core (omega arith) in
      Reaches-Ends shell (request_handler env) (waits _) (
        client_sends
        ▸ client_sends
        ▸ takes_request shell env _ _ _ _ libcpuid_msr_dynamic
        ▸ server_reads (length-le_bytes 2 core)
        ▸ server_sends
        ▸ server_returns
        ▸ client_takes _ _ (length-take 8 p long)
        ▸ rw core' stay)
