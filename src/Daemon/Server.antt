-- ===== src/Daemon/Server.antt =====
-- `request_handler` of src/daemon/server.cpp and what it calls, on Linux.
use cpu_x.Shared.{ℕ, zero, suc, ◌-◌, ◌^◌, ◌==◌, leb, if◌then◌else◌, Bool}
use cpu_x.Shared.{List, [], ◌∷◌, ◌++◌, length, none, some, codes}
use cpu_x.Dmi.Strings.{c_str}
use cpu_x.Dmi.Cpux.{MemoryData, DmidecodeData}
use cpu_x.Daemon.{Program, finish, hang_up, fault, send, receive, run_command, receive_data}
use cpu_x.Daemon.Bytes.{le_bytes, le_value, cpu_bytes, mb_bytes, bios_bytes, memory_bytes}

-- The requests, with the numbers that the enumeration gives them.
pub data DaemonCommand : Type 0 where
  libcpuid_msr_debug libcpuid_msr_static libcpuid_msr_dynamic : DaemonCommand
  dmidecode access_dev_pci access_sys_debug load_module : DaemonCommand

abbrev pub command_number : DaemonCommand → ℕ
command_number libcpuid_msr_debug = 0
command_number libcpuid_msr_static = 1
command_number libcpuid_msr_dynamic = 2
command_number dmidecode = 3
command_number access_dev_pci = 4
command_number access_sys_debug = 5
command_number load_module = 6

-- What is asked of libcpuid.
pub data Info : Type 0 where
  min_multiplier max_multiplier bclk voltage temperature : Info

-- What the daemon takes from libcpuid (`open_core` fails where it is not root or has no MSR
-- driver), from the decoder of the DMI tables with the value that it returns, and from the file
-- system. `invalid_value` is libcpuid's CPU_INVALID_VALUE. An `int` is its value modulo 2 ^ 32.
pub record Machine : Type 0 where
  pub open_core : ℕ → Bool
  pub info : ℕ → Info → ℕ
  pub invalid_value : ℕ
  pub dmidecode_ret : ℕ
  pub dmi : DmidecodeData
  pub double_bytes : ℕ → List ℕ
  pub debug_denied : Bool

-- An `int`.
abbrev pub int_bytes : ℕ → List ℕ
int_bytes = le_bytes 4

abbrev pub minus_one : ℕ
minus_one = 2 ^ 32 - 1

-- `SEND_DATA` for each of the first `n` sticks.
unfoldable pub send_sticks : ℕ → List MemoryData → Program (Unit {0})
send_sticks zero ms = finish tt
send_sticks (suc n) [] = fault
send_sticks (suc n) (m ∷ ms) = send (memory_bytes m) (send_sticks n ms)

-- The shell's command for a module's name.
abbrev pub modprobe : List ℕ → List ℕ
modprobe name = codes "modprobe " ++ (name ++ codes " 2> /dev/null")

module _ (env : Machine) where
  -- `libcpuid_init_msr` reads the number of a core, 0 where the read fails.
  unfoldable pub msr_value : ℕ → Info → ℕ
  msr_value core what = if env.open_core core then env.info core what else env.invalid_value

  abbrev pub static_bytes : ℕ → List ℕ
  static_bytes core =
      int_bytes (msr_value core min_multiplier)
      ++ (int_bytes (msr_value core max_multiplier) ++ int_bytes (msr_value core bclk))

  abbrev pub dynamic_bytes : ℕ → List ℕ
  dynamic_bytes core = int_bytes (msr_value core voltage) ++ int_bytes (msr_value core temperature)

  -- What is read out goes to the daemon's log.
  unfoldable pub call_libcpuid_msr_debug : Program (Unit {0})
  call_libcpuid_msr_debug = receive 2 (λ bs. finish tt)

  unfoldable pub call_libcpuid_msr_static : Program (Unit {0})
  call_libcpuid_msr_static = receive 2 (λ bs. send (static_bytes (le_value bs)) (finish tt))

  unfoldable pub call_libcpuid_msr_dynamic : Program (Unit {0})
  call_libcpuid_msr_dynamic = receive 2 (λ bs. send (dynamic_bytes (le_value bs)) (finish tt))

  unfoldable pub call_dmidecode : Program (Unit {0})
  call_dmidecode = send (int_bytes env.dmidecode_ret) (
      send (cpu_bytes env.double_bytes env.dmi.processor) (
        send (mb_bytes env.dmi.mb) (
          send (bios_bytes env.dmi.bios) (
            send (le_bytes 1 env.dmi.stick_count)
              (send_sticks env.dmi.stick_count env.dmi.memory)))))

  unfoldable pub find_devices : Program (Unit {0})
  find_devices = send (int_bytes minus_one) (finish tt)

  unfoldable pub can_access_sys_debug_dri : Program (Unit {0})
  can_access_sys_debug_dri =
      send (int_bytes (if env.debug_denied then 1 else minus_one)) (finish tt)

  -- `new char[len]` throws for a negative length. For the length 0 nothing is read, and in any case
  -- the text is used up to its zero byte.
  unfoldable pub call_load_module : Program (Unit {0})
  call_load_module = receive_data 8 tt (λ bs.
      let len = le_value bs in
      let named = receive_data len tt (λ text. elim (c_str text) [
        | none ↦ fault
        | some name ↦ run_command (modprobe name) (λ ret. send (int_bytes ret) (finish tt))
      ]) in
      if len == 0 then fault else if leb (2 ^ 63) len then fault else named)

  -- The `switch`; another number is reported in the log.
  unfoldable pub dispatch : ℕ → Program (Unit {0})
  dispatch cmd =
      if cmd == 0
      then call_libcpuid_msr_debug
      else if cmd == 1
      then call_libcpuid_msr_static
      else if cmd == 2
      then call_libcpuid_msr_dynamic
      else if cmd == 3
      then call_dmidecode
      else if cmd == 4
      then find_devices
      else if cmd == 5
      then can_access_sys_debug_dri
      else if cmd == 6
      then call_load_module
      else finish tt

  -- One round of the loop; a packet of another size ends it.
  unfoldable pub request_handler : Program (Unit {0})
  request_handler = receive 4 (λ bs. if length bs == 4 then dispatch (le_value bs) else hang_up tt)
