-- ===== src/Daemon/Client.antt =====
-- The calls of the daemon: `load_module` of src/util.cpp, the MSR functions of
-- src/core/libcpuid.cpp, `can_access_sys_debug_dri` of src/core/libpci.cpp and `call_dmidecode` of
-- src/core/dmidecode/libdmidecode.cpp, where the daemon is up.
use cpu_x.Shared.{ℕ, zero, suc, ◌+◌, ◌==◌, if◌then◌else◌, Bool, true, not}
use cpu_x.Shared.{List, [], ◌∷◌, ◌++◌, length, drop, Option, none, some, codes}
use cpu_x.Daemon.{Program, finish, hang_up, send, receive, run_command, receive_data}
use cpu_x.Daemon.Bytes.{le_bytes, le_value, cpu_size, mb_size, bios_size, memory_size}
use cpu_x.Daemon.Server.{
  DaemonCommand, command_number, libcpuid_msr_static, libcpuid_msr_dynamic, access_sys_debug,
  dmidecode,
}

-- `SEND_DATA(fd, &cmd, sizeof(DaemonCommand))`.
abbrev pub request : {A : Type 0} → DaemonCommand → Program A → Program A
request cmd k = send (le_bytes 4 (command_number cmd)) k

-- For an x86 processor; on others the two return 1 at once. The result is the structure that was
-- received, or `none` where the call returned 1.
unfoldable pub call_libcpuid_msr_static : ℕ → Program (Option (List ℕ))
call_libcpuid_msr_static core =
    request libcpuid_msr_static
      (send (le_bytes 2 core) (receive_data 12 none (λ msg. finish (some msg))))

unfoldable pub call_libcpuid_msr_dynamic : ℕ → Program (Option (List ℕ))
call_libcpuid_msr_dynamic core =
    request libcpuid_msr_dynamic
      (send (le_bytes 2 core) (receive_data 8 none (λ msg. finish (some msg))))

abbrev pub grep : List ℕ → List ℕ
grep name = codes "grep -wq " ++ (name ++ codes " /proc/modules 2> /dev/null")

-- The result is the exit status, or 1 where the connection fails.
unfoldable pub load_module : List ℕ → Program ℕ
load_module name = run_command (grep name) (λ ret.
    if ret == 0
    then finish ret
    else request DaemonCommand.load_module (
        send (le_bytes 8 (length name + 1))
          (send (name ++ (0 ∷ [])) (receive_data 4 1 (λ bs. finish (le_value bs))))))

-- `ret` is the function's static variable, 1 at the start; `accessible` is what `access` says. The
-- result is what the function returns, and the variable. Where receiving fails, `return 1` is true,
-- and the bytes received are in the variable.
unfoldable pub can_access_sys_debug_dri : Bool → ℕ → Program (Bool × ℕ)
can_access_sys_debug_dri accessible ret =
    if ret == 1
    then (if accessible
        then finish (true, 0)
        else request access_sys_debug (
            receive 4 (λ bs.
              if length bs == 4
              then finish (le_value bs == 0, le_value bs)
              else hang_up (true, le_value (bs ++ drop (length bs) (le_bytes 4 ret))))))
    else finish (ret == 0, ret)

-- What `call_dmidecode` has received so far, in order.
pub data Part : Type 0 where
  cpu_part mb_part bios_part stick_part : List ℕ → Part

-- The loop over the sticks.
unfoldable pub receive_sticks : ℕ → List Part → Program (ℕ × List Part)
receive_sticks zero got = finish (0, got)
receive_sticks (suc n) got =
    receive_data memory_size (1, got) (λ bs. receive_sticks n (got ++ (stick_part bs ∷ [])))

-- The result is the value returned and what was received.
unfoldable pub call_dmidecode : Program (ℕ × List Part)
call_dmidecode = request dmidecode (
    receive_data 4 (1, [])
      (λ ret.
        if not (le_value ret == 0)
        then finish (1, [])
        else receive_data cpu_size (1, [])
            (λ cpu.
              receive_data mb_size (1, cpu_part cpu ∷ [])
                (λ mb.
                  receive_data bios_size (1, cpu_part cpu ∷ mb_part mb ∷ [])
                    (λ bios.
                      let got = cpu_part cpu ∷ mb_part mb ∷ bios_part bios ∷ [] in
                      receive_data 1 (1, got) (λ count. receive_sticks (le_value count) got))))))
