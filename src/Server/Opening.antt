-- ===== src/Server/Opening.antt =====
-- `OpenServer`: the listening socket, and a join for each client that is accepted. Whether `bind` and
-- `listen` succeed, and which sockets `accept` returns, are parameters; the threads are not modelled.
pub mod Joining
use hamang_server.Prelude.{Bool, List, Result, [], assert, ok, ℕ, ◌>>=◌, ◌>>◌, ◌∷◌}
use hamang_server.Text.{Bytes}
use hamang_server.Values.{buffer_size, read}
use hamang_server.Buffers.{PerIoData, create_empty_buffer}
use hamang_server.State.{Env, Server}
use hamang_server.Server.{handle_player_join}

-- A client that was accepted: its socket, and what the memory of its buffer holds.
pub record Accepted : Type 0 where
  pub socket : ℕ
  pub memory : Bytes

module _ (env : Env) where
  -- One round of the loop: the client joins, and gets a buffer for its first call. The address and the
  -- buffer come back.
  unfoldable pub accept_client : ℕ → Accepted → Server → Result (ℕ × PerIoData × Server)
  accept_client f client s = do
    (address, s') ← handle_player_join env f client.socket s
    ok (address, create_empty_buffer client.memory buffer_size read, s')

  -- The loop, for the clients accepted so far.
  unfoldable pub accept_clients :
      ℕ → List Accepted → Server → Result (List (ℕ × PerIoData) × Server)
  unfolding accept_client
  accept_clients f [] s = ok ([], s)
  accept_clients f (client ∷ clients) s = do
    (address, io, s₁) ← accept_client f client s
    (opened, s₂) ← accept_clients f clients s₁
    ok ((address, io) ∷ opened, s₂)

  unfoldable pub open_server :
      Bool → Bool → ℕ → List Accepted → Server → Result (List (ℕ × PerIoData) × Server)
  unfolding accept_clients
  open_server binds listens f clients s = do
    assert binds
    assert listens
    accept_clients f clients s
