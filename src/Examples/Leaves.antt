-- ===== src/Examples/Leaves.antt =====
-- The first client joins and leaves.
use hamang_server.Prelude.{[], arith, ok, pos, refl, some, true, ◌∷◌, ◌≡◌}
use hamang_server.Text.{codes}
use hamang_server.Text.Decimal.{to_string}
use hamang_server.Values.{buffer_size, read}
use hamang_server.Message.{append, append_int, build_new_signed_message}
use hamang_server.Buffers.{create_empty_buffer, create_message_buffer}
use hamang_server.Properties.{encode_to_network}
use hamang_server.Player.{Player, encode_player, send}
use hamang_server.Players.{
  broadcast_message, create_player, encode_players_to_network, erase_player, find_player,
  joining_player, new_player_manager,
}
use hamang_server.Ping.{get_time_now, new_ping_manager, record_ping}
use hamang_server.Rpc.{send_batches}
use hamang_server.State.{Server, new_server}
use hamang_server.Server.{
  handle_player_join, local_joined_message, player_joined_message, room_message,
  send_buffered_messages,
}
use hamang_server.Server.Steps.{join, start, step}
use hamang_server.Server.Steps.Emptying.{IsReset, Reaches-all_leave, all_leave}
use hamang_server.Examples.Rooms.{quiet_env}
use hamang_server.Examples.Runs.{first_pings, first_text}
use hamang_server.Examples.Rounds.{io}

abbrev first_player : Player
first_player = record (joining_player new_player_manager 70) { is_connected = true }

abbrev one_inside : Server
one_inside = record (new_server first_pings) {
  players = record {
    heap = first_player ∷ [];
    player_hash = (pos 1, 0) ∷ [];
    master_player = some 0;
    next_actor_number = 2;
  };
  pings = record { ping_records = (pos 1, pos 1000) ∷ []; server_time = pos 1000; readings = 2 };
  net = record { sent = (70, first_text) ∷ (70, codes "LEX#5#1#7#3#") ∷ []; closed = [] };
}

first_inside : handle_player_join quiet_env 9 70 (new_server first_pings) ≡ ok (0, one_inside)
unfolding handle_player_join room_message create_player encode_players_to_network encode_player
    encode_to_network append append_int build_new_signed_message to_string joining_player send
    send_buffered_messages broadcast_message local_joined_message player_joined_message get_time_now
    record_ping new_ping_manager create_message_buffer buffer_size send_batches
first_inside = refl

io_reads : io.rw_mode ≡ read
unfolding create_empty_buffer
io_reads = refl

Reaches-all_leave_example :
    (s' : Server) × (all_leave quiet_env 9 io (pos 1 ∷ []) one_inside ≡ ok s') × IsReset s'
unfolding find_player erase_player
Reaches-all_leave_example =
    Reaches-all_leave quiet_env 9 io io_reads first_pings (pos 1) [] one_inside
      (step start (join 9 70 0 one_inside first_inside)) (omega arith) (λ e. cc e, refl)
