-- ===== src/Server.antt =====
-- IOCP_Server.h and IOCP_Server.cpp: players join and leave, and the reset of an empty room. Each
-- handler is one step: what other threads do meanwhile is not modelled. `f` is the fuel of the loops.
pub mod Packets
pub mod Replies
pub mod Room
pub mod Leave
pub mod Join
pub mod Receive
pub mod Steps
pub mod Opening
use hamang_server.Prelude.{
  Bool, List, Result, false, if◌then◌else◌, negsuc, none, ok, pos, set, some, true, ℕ, ℤ, ◌==◌,
  ◌>>=◌, ◌>>◌,
}
use hamang_server.Text.{Bytes}
use hamang_server.Text.Decimal.{to_string}
use hamang_server.Protocol.{
  LexCallback, callback_code, message_info_code, on_local_player_joined, player_disconnected,
  player_joined, room_information_received, server_callbacks,
}
use hamang_server.Values.{Rpc}
use hamang_server.Message.{
  NetworkMessage, append, append_int, build_new_signed_message, new_message,
}
use hamang_server.Rpc.{remove_all, remove_player_nr, send_batches}
use hamang_server.Properties.{encode_to_network, remove_all_properties}
use hamang_server.Player.{Network, Player, encode_player, send}
use hamang_server.Players.{
  PlayerManager, broadcast_message, broadcast_message_all, change_master_client_on_disconnect,
  create_player, deref, encode_players_to_network, get_player_count, remove_player, reset,
}
use hamang_server.Ping.{get_time_now, record_ping}
use hamang_server.State.{Env, Server}

-- A message with the server's sender number, and the code of a callback.
abbrev callback_message : ℤ → LexCallback → NetworkMessage
callback_message sender callback =
    append_int
      (append_int (append_int new_message sender) (pos (message_info_code server_callbacks)))
      (pos (callback_code callback))

unfoldable pub reset_server : Server → Server
reset_server s = record s {
  message_queue = remove_all s.message_queue;
  room = remove_all_properties s.room;
  players = reset s.players;
}

-- What a joining player is told of the room: its properties, the players, and the time.
unfoldable pub room_message : Server → PlayerManager → Player → ℤ → Result Bytes
room_message s players player time = do
  let with_room = encode_to_network s.room (callback_message (negsuc 0) room_information_received)
  with_players ← encode_players_to_network players player with_room
  ok (build_new_signed_message (append with_players (to_string time)))

unfoldable pub local_joined_message : Player → Bytes
local_joined_message player =
    build_new_signed_message (callback_message player.actor_number on_local_player_joined)

unfoldable pub player_joined_message : Player → Bytes
player_joined_message player =
    build_new_signed_message (encode_player player (callback_message (negsuc 0) player_joined))

unfoldable pub disconnected_message : ℤ → Bytes
disconnected_message number =
    build_new_signed_message (append_int (callback_message (pos 0) player_disconnected) number)

-- `SendBufferedMessages`: the player counts as connected from here on.
unfoldable pub send_buffered_messages :
    ℕ → List Rpc → PlayerManager → ℕ → Network → Result (PlayerManager × Network)
send_buffered_messages f queue pm address net = do
  player ← deref pm.heap address
  let connected = record player { is_connected = true }
  net' ← send_batches (λ message n. send connected message true n) f queue net
  ok (record pm { heap = set pm.heap address connected }, net')

module _ (env : Env) where
  -- `HandlePlayerJoin`, for a client's socket. The new player's address comes back.
  unfoldable pub handle_player_join : ℕ → ℕ → Server → Result (ℕ × Server)
  handle_player_join f socket s = do
    let (address, players) = create_player s.players socket
    player ← deref players.heap address
    let (time, pings) = get_time_now env.clock s.pings
    message ← room_message s players player time
    net₁ ← send player message true s.net
    (players', net₂) ← send_buffered_messages f s.message_queue players address net₁
    joined ← deref players'.heap address
    net₃ ← send joined (local_joined_message joined) false net₂
    net₄ ←
        broadcast_message players'.heap players'.player_hash joined.actor_number
          (player_joined_message joined) net₃
    ok (
      address,
      record s {
        players = players';
        pings = record_ping pings player.actor_number time;
        net = net₄;
      },
    )

  -- The player's handle data is deleted, and what its memory holds then is up to the allocator.
  unfoldable pub delete_handle : List Player → ℕ → Player → List Player
  delete_handle heap address player = set heap address (record player {
    handle_info = elim player.handle_info [ none ↦ none | some h ↦ some (env.freed h) ];
  })

  -- What follows the news of the departure: an empty room is reset, and else a new master is chosen
  -- if the master left, and the player's buffered messages are dropped.
  unfoldable pub after_departure : ℤ → Bool → Server → Result Server
  unfolding reset_server
  after_departure number is_master s =
      if get_player_count s.players == 0 then ok (reset_server s) else do
        (players, net) ←
            if is_master
            then change_master_client_on_disconnect s.players s.net
            else ok (s.players, s.net)
        ok (record s {
          players = players;
          net = net;
          message_queue = remove_player_nr s.message_queue number;
        })

  -- `HandlePlayerDisconnect`, for the player at an address.
  unfoldable pub handle_player_disconnect : ℕ → Server → Result Server
  unfolding after_departure delete_handle
  handle_player_disconnect address s = do
    player ← deref s.players.heap address
    let freed = record s.players { heap = delete_handle s.players.heap address player }
    (players, net) ← remove_player freed player.actor_number s.net
    net' ←
        broadcast_message_all players.heap players.player_hash
          (disconnected_message player.actor_number) net
    after_departure player.actor_number player.is_master_client
        (record s { players = players; net = net' })
