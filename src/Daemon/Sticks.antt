-- ===== src/Daemon/Sticks.antt =====
-- The packets of the sticks, from `__call_dmidecode` of src/daemon/server.cpp to `call_dmidecode` of
-- src/core/dmidecode/libdmidecode.cpp.
use cpu_x.Shared.{
  ℕ, zero, suc, ◌≤◌, ◌<◌, List, [], ◌∷◌, ◌++◌, take, length, map, All, append-nil, append_assoc,
}
use cpu_x.Shared.{◌≡◌, refl, sym, subst, arith}
use cpu_x.Dmi.Cpux.{maxstr, MemoryData, DmidecodeData}
use cpu_x.Daemon.{Program, finish}
use cpu_x.Daemon.Bytes.{mb_bytes, bios_bytes, memory_bytes, mb_size, bios_size, memory_size}
use cpu_x.Daemon.Server.{send_sticks}
use cpu_x.Daemon.Client.{Part, stick_part, receive_sticks}
use cpu_x.Daemon.Runs.{at, Reaches, stay, ◌▸◌}
use cpu_x.Daemon.Runs.{client_receives, server_sends}

-- The data has the sizes of its structures, and the array holds as many sticks as are counted.
pub record IsSized (d : DmidecodeData) : Type 0 where
  pub package' : length d.processor.cpu_package ≡ maxstr
  pub mb : length (mb_bytes d.mb) ≡ mb_size
  pub bios : length (bios_bytes d.bios) ≡ bios_size
  pub sticks : All (λ m. length (memory_bytes m) ≡ memory_size) d.memory
  pub counted : d.stick_count ≤ length d.memory
  pub small : d.stick_count < 256

abbrev pub stick_packets : DmidecodeData → List (List ℕ)
stick_packets d = map memory_bytes (take d.stick_count d.memory)

pub length-stick_packets :
    (n : ℕ) (ms : List MemoryData) → n ≤ length ms → length (map memory_bytes (take n ms)) ≡ n
length-stick_packets zero ms h = refl
length-stick_packets (suc n) [] h = absurd (omega arith)
length-stick_packets (suc n) (m ∷ ms) h = omega (arith, length-stick_packets n ms (omega arith))

pub stick_packets-All :
    (n : ℕ) (ms : List MemoryData)
    → All (λ m. length (memory_bytes m) ≡ memory_size) ms
    → All (λ b. length b ≡ memory_size) (map memory_bytes (take n ms))
stick_packets-All zero ms h = tt
stick_packets-All (suc n) [] h = tt
stick_packets-All (suc n) (m ∷ ms) h = (h.0, stick_packets-All n ms h.1)

pub length-take : (n : ℕ) (p : List ℕ) → n ≤ length p → length (take n p) ≡ n
length-take zero p h = refl
length-take (suc n) [] h = absurd (omega arith)
length-take (suc n) (x ∷ p) h = omega (arith, length-take n p (omega arith))

module _ {A : Type 0} {shell : List ℕ → ℕ} {handler : Program (Unit {0})} where
  pub sends_sticks :
      (p : Program A) (i l : List (List ℕ)) (n : ℕ) (ms : List MemoryData) (o : List (List ℕ))
      → n ≤ length ms
      → Reaches shell handler
          (at p (send_sticks n ms) i o l)
          (at p (finish tt) i (o ++ map memory_bytes (take n ms)) l)
  unfolding send_sticks
  sends_sticks p i l zero ms o h =
      subst (λ z. Reaches shell handler (at p (finish tt) i o l) (at p (finish tt) i z l))
        (sym (append-nil o)) stay
  sends_sticks p i l (suc n) [] o h = absurd (omega arith)
  sends_sticks p i l (suc n) (m ∷ ms) o h =
      server_sends
      ▸ subst
          (λ z.
            Reaches shell handler (at p (send_sticks n ms) i (o ++ (memory_bytes m ∷ [])) l)
              (at p (finish tt) i z l))
          (append_assoc o (memory_bytes m ∷ []) (map memory_bytes (take n ms)))
          (sends_sticks p i l n ms (o ++ (memory_bytes m ∷ [])) (omega arith))

pub receives_sticks :
    {shell : List ℕ → ℕ} {handler : Program (Unit {0})} (q : Program (Unit {0}))
    (i l : List (List ℕ)) (bs : List (List ℕ)) (n : ℕ) (got : List Part)
    → n ≡ length bs
    → All (λ b. length b ≡ memory_size) bs
    → Reaches shell handler
        (at (receive_sticks n got) q i bs l)
        (at (finish (0, got ++ map stick_part bs)) q i [] l)
unfolding receive_sticks
receives_sticks {shell} {handler} q i l [] zero got e h =
    subst
      (λ (z : List Part).
        Reaches {A = ℕ × List Part} shell handler (at (finish (0, got)) q i [] l)
          (at (finish (0, z)) q i [] l))
      (sym (append-nil got)) stay
receives_sticks q i l [] (suc n) got e h = absurd (omega arith)
receives_sticks q i l (b ∷ bs) zero got e h = absurd (omega arith)
receives_sticks {shell} {handler} q i l (b ∷ bs) (suc n) got e h =
    client_receives _ _ h.0
    ▸ subst
        (λ (z : List Part).
          Reaches {A = ℕ × List Part} shell handler
            (at (receive_sticks n (got ++ (stick_part b ∷ []))) q i bs l)
            (at (finish (0, z)) q i [] l))
        (append_assoc got (stick_part b ∷ []) (map stick_part bs))
        (receives_sticks q i l bs n (got ++ (stick_part b ∷ [])) (omega arith) h.1)
