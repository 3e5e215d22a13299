-- ===== src/Daemon.antt =====
-- The daemon of src/daemon and the code that talks to it: a connection is a socket of type
-- SOCK_SEQPACKET, and each end is a program that writes packets and reads them.
pub mod Determinacy
pub mod Bytes
pub mod Server
pub mod Client
pub mod Runs
pub mod Calls
pub mod Sticks
pub mod Dmidecode
pub mod Firmware
pub mod Labels
pub mod MainLoop
use cpu_x.Shared.{
  ℕ, zero, suc, ◌==◌, if◌then◌else◌, List, [], ◌∷◌, ◌++◌, take, length, Option, none, some, ◌≡◌,
}

-- A program at one end of a connection, which returns an `A`. `receive n` is `read` with room for
-- `n` bytes: of a longer packet the first `n` bytes are read and the rest is lost. `run_command`
-- hands a text to the shell and goes on with its exit status. `hang_up` closes the connection.
-- `fault` is undefined behaviour, or an exception that ends the process.
pub data Program (A : Type 0) : Type 0 where
  finish : A → Program A
  hang_up : A → Program A
  fault : Program A
  send : List ℕ → Program A → Program A
  receive : ℕ → (List ℕ → Program A) → Program A
  run_command : List ℕ → (ℕ → Program A) → Program A

-- `RECEIVE_DATA`: a packet that is too short closes the connection, and the caller returns.
abbrev pub receive_data : {A : Type 0} → ℕ → A → (List ℕ → Program A) → Program A
receive_data n failed k = receive n (λ bs. if length bs == n then k bs else hang_up failed)

-- The two ends, the packets on their way, and what the daemon has handed to its shell.
pub record Connection (A : Type 0) : Type 0 where
  pub client : Program A
  pub server : Program (Unit {0})
  pub requests : List (List ℕ)
  pub answers : List (List ℕ)
  pub as_root : List (List ℕ)

module _ {A : Type 0} (shell : List ℕ → ℕ) (handler : Program (Unit {0})) where
  -- A step of the client; `none` where it waits for a packet, or has ended.
  unfoldable pub client_at : Program A → Connection A → Option (Connection A)
  client_at (finish a) c = none
  client_at (hang_up a) c = none
  client_at fault c = none
  client_at (send p k) c = some (record c { client = k; requests = c.requests ++ (p ∷ []) })
  client_at (receive n k) c = elim c.answers [
    | [] ↦ none
    | p ∷ ps ↦ some (record c { client = k (take n p); answers = ps })
  ]
  client_at (run_command text k) c = some (record c { client = k (shell text) })

  -- A step of the daemon's thread. Where the answer to a request is complete, it goes back to the
  -- start of `request_handler`.
  unfoldable pub server_at : Program (Unit {0}) → Connection A → Option (Connection A)
  server_at (finish a) c = some (record c { server = handler })
  server_at (hang_up a) c = none
  server_at fault c = none
  server_at (send p k) c = some (record c { server = k; answers = c.answers ++ (p ∷ []) })
  server_at (receive n k) c = elim c.requests [
    | [] ↦ none
    | p ∷ ps ↦ some (record c { server = k (take n p); requests = ps })
  ]
  server_at (run_command text k) c =
      some (record c { server = k (shell text); as_root = c.as_root ++ (text ∷ []) })

  unfoldable pub client_step : Connection A → Option (Connection A)
  client_step c = client_at c.client c

  unfoldable pub server_step : Connection A → Option (Connection A)
  server_step c = server_at c.server c

  -- The two ends run at the same time: a run takes their steps in some order.
  pub data Run : ℕ → Connection A → Connection A → Type 0 where
    here : (c : Connection A) → Run zero c c
    by_client :
        {n : ℕ} {c d e : Connection A} → client_step c ≡ some d → Run n d e → Run (suc n) c e
    by_server :
        {n : ℕ} {c d e : Connection A} → server_step c ≡ some d → Run n d e → Run (suc n) c e

  -- Neither end can go on.
  pub record IsSettled (c : Connection A) : Type 0 where
    pub client_waits : client_step c ≡ none
    pub server_waits : server_step c ≡ none
