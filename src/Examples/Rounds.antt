-- ===== src/Examples/Rounds.antt =====
-- Rounds of the loops of the server: one that relays, and those that do not end well.
use hamang_server.Prelude.{
  [], arith, assertion_failed, err, get_elem?, length, ok, out_of_bounds, out_of_fuel, pos, refl,
  some, true, ◌<◌, ◌^◌, ◌∷◌, ◌≡◌, ◌≤◌,
}
use hamang_server.Text.{Bytes, Lacks-lacks, codes}
use hamang_server.Text.Decimal.{stoi, to_string}
use hamang_server.Protocol.{net_delim}
use hamang_server.Values.{batch_limit, buffer_size, read}
use hamang_server.Message.{
  NetworkMessage, append, append_int, build_new_signed_message, new_message,
}
use hamang_server.Message.Segments.{AllLack-all_lack}
use hamang_server.Buffers.{PerIoData, create_empty_buffer}
use hamang_server.Player.{Player, encode_player}
use hamang_server.Players.{
  create_player, encode_players_to_network, erase_player, find_player, joining_player,
}
use hamang_server.Ping.{new_ping_manager}
use hamang_server.State.{Server, new_server}
use hamang_server.Handler.{handle_message, is_buffered}
use hamang_server.Handler.Loop.Stream.{stream_tokens}
use hamang_server.Handler.Endless.{IsStuck, handle_message-endless}
use hamang_server.Server.{handle_player_join, local_joined_message, room_message}
use hamang_server.Server.Receive.{echo_thread, receive_message}
use hamang_server.Server.Receive.Bounds.{HasRoom, echo_thread-HasRoom}
use hamang_server.Server.Receive.Relay.{receive_message-relays}
use hamang_server.Server.Receive.Cut.{receive_message-first_part, receive_message-full_buffer}
use hamang_server.Examples.Rooms.{
  all_present, connected_player, hash, network, other_player, quiet_env, room_of, two_players,
  two_players-IsConsistent,
}
use hamang_server.Examples.Streams.{
  chat_echo, chat_echo-IsEcho, kept_rpc, rpc_echo, rpc_echo-IsEcho, stream,
}
use hamang_server.Server.Join.{handle_player_join_lem}
use hamang_server.Properties.{encode_to_network}
use hamang_server.Rpc.Batches.{joined}
use hamang_server.Players.Invariant.{IsConsistent}

-- Two connected players, who left no messages.
abbrev pub connected_room : Server
connected_room = record (new_server (new_ping_manager quiet_env.clock)) {
  players = record {
    heap = connected_player ∷ other_player ∷ [];
    player_hash = hash;
    master_player = some 0;
    next_actor_number = 3;
  };
}

-- A buffer whose memory held zeros.
abbrev pub io : PerIoData
io = create_empty_buffer [] buffer_size read

pub io_start : io.offset ≡ 0
unfolding create_empty_buffer
io_start = refl

pub io_room : io.len ≡ buffer_size
unfolding create_empty_buffer
io_room = refl

abbrev text_in : Bytes
text_in = codes "LEX#5#1#3#hi#LEX#6#1#1#5#go#"

short : length text_in < buffer_size
unfolding buffer_size
short = omega arith

receive_message-relays_example :
    (io' : PerIoData) × (receive_message quiet_env 99 0 io text_in connected_room
      ≡ ok (
        io',
        record connected_room {
          message_queue = kept_rpc ∷ [];
          net = record network { sent = (80, text_in) ∷ [] };
        },
      ))
    × (io'.offset ≡ 0)
    × (io'.len ≡ buffer_size)
    × (io'.rw_mode ≡ read)
unfolding erase_player is_buffered
receive_message-relays_example =
    receive_message-relays quiet_env 99 0 io chat_echo (rpc_echo ∷ []) connected_room
      connected_player (chat_echo-IsEcho, (rpc_echo-IsEcho, tt))
      (AllLack-all_lack net_delim (stream_tokens stream) refl) refl (Lacks-lacks 0 text_in refl)
      short (omega arith) io_start io_room all_present refl

abbrev relayed_room : Server
relayed_room = record connected_room {
  message_queue = kept_rpc ∷ [];
  net = record network { sent = (80, text_in) ∷ [] };
}

relayed_round :
    (io' : PerIoData) × (echo_thread quiet_env 99 0 io text_in true connected_room
      ≡ ok (some io', relayed_room))
unfolding echo_thread create_empty_buffer erase_player is_buffered
relayed_round =
    let (io', runs, offset, room, mode) =
      receive_message-relays quiet_env 99 0 io chat_echo (rpc_echo ∷ []) connected_room
        connected_player (chat_echo-IsEcho, (rpc_echo-IsEcho, tt))
        (AllLack-all_lack net_delim (stream_tokens stream) refl) refl (Lacks-lacks 0 text_in refl)
        short (omega arith) io_start io_room all_present refl in
    (io', rw runs refl)

echo_thread-HasRoom_example : HasRoom relayed_round.0
echo_thread-HasRoom_example =
    echo_thread-HasRoom quiet_env 99 0 io text_in true connected_room relayed_round.0 relayed_room
      relayed_round.1

-- The first bytes of a packet.
first_short : length (codes "LEX") < io.len
unfolding create_empty_buffer buffer_size
first_short = omega arith

receive_message-first_part_example :
    receive_message quiet_env 99 0 io (codes "LEX") connected_room ≡ err assertion_failed
receive_message-first_part_example =
    receive_message-first_part quiet_env 99 0 io b'L' (codes "EX") connected_room
      (omega arith, (omega arith, (omega arith, tt)))
      (omega arith, (omega arith, (omega arith, tt))) io_start first_short (omega arith)

-- A chat message that declares the length 0.
abbrev stuck_message : NetworkMessage
stuck_message = record new_message {
  tokens = codes "LEX" ∷ codes "0" ∷ codes "1" ∷ codes "3" ∷ [];
  start_points = 0 ∷ 4 ∷ 6 ∷ 8 ∷ [];
  count = 4;
}

stuck_message-IsStuck : IsStuck stuck_message
unfolding stoi is_buffered
stuck_message-IsStuck = record {
  length_token = codes "0";
  actor_token = codes "1";
  info_token = codes "3";
  actor = pos 1;
  info = pos 3;
  signed = refl;
  at_length = refl;
  at_actor = refl;
  at_info = refl;
  empty = refl;
  from_actor = refl;
  of_kind = refl;
  echoed = refl;
  passed = refl;
  few = omega arith;
  placed = omega arith;
}

handle_message-endless_example :
    handle_message quiet_env 1000 stuck_message connected_room ≡ err out_of_fuel
handle_message-endless_example =
    handle_message-endless quiet_env 1000 stuck_message connected_room stuck_message-IsStuck

-- A third player joins the room of two, who left two messages.
abbrev joining_room : Server
joining_room = room_of two_players

abbrev room_text : Bytes
room_text = codes "LEX#17#-1#7#8#0#3#3#0#0#1#1#0#2#0#0#1000#"

room_text_made :
    room_message joining_room
      (create_player two_players 90).1
      (joining_player two_players 90)
      (quiet_env.clock joining_room.pings.readings)
    ≡ ok room_text
unfolding room_message create_player encode_players_to_network encode_player encode_to_network
    append append_int build_new_signed_message to_string joining_player
room_text_made = refl

room_text_fits : length room_text ≤ buffer_size
unfolding buffer_size
room_text_fits = omega arith

few_buffered : length (joined joining_room.message_queue) < batch_limit
unfolding batch_limit
few_buffered = omega arith

next_is_int : joining_room.players.next_actor_number < 2 ^ 31
unfolding create_player
next_is_int = omega arith

abbrev third_player : Player
third_player = record (joining_player two_players 90) { is_connected = true }

handle_player_join_lem_example :
    (s' : Server) × (handle_player_join quiet_env 9 90 joining_room ≡ ok (2, s'))
    × IsConsistent s'.players
    × (find_player (pos 3) s'.players.player_hash ≡ some 2)
    × (get_elem? s'.players.heap 2 ≡ some third_player)
    × (s'.message_queue ≡ joining_room.message_queue)
    × (s'.net.sent
        ≡ (90, room_text) ∷ (90, codes "a#b#") ∷ (90, local_joined_message third_player) ∷ [])
unfolding create_player joining_player erase_player
handle_player_join_lem_example =
    handle_player_join_lem quiet_env 9 90 joining_room two_players-IsConsistent room_text
      room_text_made room_text_fits (omega arith) few_buffered next_is_int

-- A buffer of five bytes that five bytes fill.
abbrev small_io : PerIoData
small_io = record { buffer = codes "....."; offset = 0; len = 5; rw_mode = read }

receive_message-full_buffer_example :
    receive_message quiet_env 99 0 small_io (codes "LEX#5") connected_room ≡ err out_of_bounds
receive_message-full_buffer_example =
    receive_message-full_buffer quiet_env 99 0 small_io (codes "LEX#5") connected_room
      (Lacks-lacks 0 (codes "LEX#5") refl) refl refl refl
