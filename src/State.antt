-- ===== src/State.antt =====
-- The state of the server: the singletons of the program, and the sockets.
use hamang_server.Prelude.{List, Result, [], null_pointer, ok, or_fault, ℕ, ℤ, ◌>>=◌}
use hamang_server.Text.{Bytes}
use hamang_server.Values.{Rpc}
use hamang_server.Properties.{HashTable, new_hash_table}
use hamang_server.Player.{Network, Player}
use hamang_server.Players.{PlayerManager, deref, find_player, new_player_manager}
use hamang_server.Ping.{PingManager}
use hamang_server.Database.{Odbc}

-- What the program does not determine: the clock, ODBC, what the memory of a handle that was deleted
-- reads as, in place of its socket, and what `memcpy` leaves of a buffer whose rest it copies to the
-- front, from a start point on, if the two ranges overlap.
pub record Env : Type 0 where
  pub clock : ℕ → ℤ
  pub odbc : Odbc
  pub freed : ℕ → ℕ
  pub overlapped : Bytes → ℕ → Bytes

pub record Server : Type 0 where
  pub players : PlayerManager
  pub message_queue : List Rpc
  pub room : HashTable
  pub pings : PingManager
  pub executed : List Bytes
  pub net : Network

abbrev pub new_server : PingManager → Server
new_server pings = record {
  players = new_player_manager;
  message_queue = [];
  room = new_hash_table;
  pings = pings;
  executed = [];
  net = record { sent = []; closed = [] };
}

-- `playerHash[number]`, followed to the player.
unfoldable pub player_at : PlayerManager → ℤ → Result (ℕ × Player)
player_at pm number = do
  address ← or_fault (find_player number pm.player_hash) null_pointer
  player ← deref pm.heap address
  ok (address, player)
