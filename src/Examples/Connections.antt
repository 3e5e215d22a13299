-- ===== src/Examples/Connections.antt =====
-- The theorems on the daemon of src/daemon and its clients, at concrete machines and requests.
use cpu_x.Shared.{ℕ, ◌-◌, ◌^◌, true, false, arith, some, List, [], ◌∷◌, codes, refl}
use cpu_x.Dmi.Print.{zeros}
use cpu_x.Dmi.Cpux.{DmidecodeData}
use cpu_x.Dmi.Cpux.Stick.{blank}
use cpu_x.Daemon.{finish}
use cpu_x.Daemon.Bytes.{cpu_bytes, mb_bytes, bios_bytes, le_bytes}
use cpu_x.Daemon.Server.{Machine, request_handler, dynamic_bytes, modprobe}
use cpu_x.Daemon.Client.{request}
use cpu_x.Daemon.Client as Client
use cpu_x.Daemon.Runs.{at, Ends}
use cpu_x.Daemon.Calls.{idle, load_module-Ends, can_access_sys_debug_dri-Ends}
use cpu_x.Daemon.Sticks.{IsSized, stick_packets}
use cpu_x.Daemon.Dmidecode.{
  parts, call_dmidecode-Ends, call_dmidecode_failed-Ends, call_libcpuid_msr_dynamic_stale,
}
use cpu_x.Examples.{empty_data}

-- One stick, in a daemon that is root.
abbrev one_stick : DmidecodeData
one_stick = record empty_data { stick_count = 1; memory = blank ∷ [] }

abbrev machine : Machine
machine = record {
  open_core = λ core. true;
  info = λ core what. 1200;
  invalid_value = 2 ^ 30 - 1;
  dmidecode_ret = 0;
  dmi = one_stick;
  double_bytes = λ n. zeros 8;
  debug_denied = false;
}

-- dmidecode returned 1 there.
abbrev failing : Machine
failing = record machine { dmidecode_ret = 1 }

-- A shell in which every command fails.
abbrev shell : List ℕ → ℕ
shell text = 1

one_stick-IsSized : IsSized one_stick
one_stick-IsSized = record {
  package' = refl;
  mb = refl;
  bios = refl;
  sticks = (refl, tt);
  counted = omega arith;
  small = omega arith;
}

call_dmidecode-Ends_example :
    Ends shell
      (request_handler machine)
      (idle shell machine Client.call_dmidecode [])
      (idle shell machine (finish (0, parts shell machine)) [])
call_dmidecode-Ends_example =
    call_dmidecode-Ends shell machine [] refl (λ n. refl) one_stick-IsSized

call_dmidecode_failed-Ends_example :
    Ends shell (request_handler failing) (idle shell failing Client.call_dmidecode []) (
      at
        (finish (1, []))
        (request_handler failing)
        []
        (cpu_bytes failing.double_bytes one_stick.processor
          ∷ mb_bytes one_stick.mb
          ∷ bios_bytes one_stick.bios
          ∷ le_bytes 1 1
          ∷ stick_packets one_stick)
        [])
call_dmidecode_failed-Ends_example =
    call_dmidecode_failed-Ends shell failing [] (λ e. absurd (omega arith)) (omega arith)
      one_stick-IsSized

call_libcpuid_msr_dynamic_stale_example :
    Ends shell
      (request_handler machine)
      (at (Client.call_libcpuid_msr_dynamic 3) (request_handler machine) [] (zeros 88 ∷ []) [])
      (at (finish (some (zeros 8))) (request_handler machine) [] (dynamic_bytes machine 3 ∷ []) [])
call_libcpuid_msr_dynamic_stale_example =
    call_libcpuid_msr_dynamic_stale shell machine 3 (zeros 88) [] [] (omega arith) (omega arith)

load_module-Ends_example :
    Ends shell
      (request_handler machine)
      (idle shell machine (Client.load_module (codes "msr")) [])
      (idle shell machine (finish 1) (modprobe (codes "msr") ∷ []))
load_module-Ends_example =
    load_module-Ends shell machine (codes "msr") [] (ground arith) (omega arith)
      (λ e. absurd (omega arith)) (λ t. omega arith)

can_access_sys_debug_dri-Ends_example :
    Ends shell
      (request_handler machine)
      (idle shell machine (Client.can_access_sys_debug_dri false 1) [])
      (idle shell machine (finish (false, 2 ^ 32 - 1)) [])
can_access_sys_debug_dri-Ends_example = can_access_sys_debug_dri-Ends shell machine []
