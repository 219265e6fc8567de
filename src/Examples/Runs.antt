-- ===== src/Examples/Runs.antt =====
-- Runs of the whole server.
use hamang_server.Prelude.{
  List, [], arith, length, ok, pos, refl, some, true, ℕ, ◌++◌, ◌<◌, ◌∷◌, ◌≡◌, ◌≤◌,
}
use hamang_server.Text.{Bytes, codes}
use hamang_server.Text.Decimal.{to_string}
use hamang_server.Values.{batch_limit, buffer_size, read}
use hamang_server.Rpc.Batches.{joined}
use hamang_server.Properties.{encode_to_network}
use hamang_server.Message.{NetworkMessage, append, append_int, build_new_signed_message}
use hamang_server.Buffers.{PerIoData, create_empty_buffer}
use hamang_server.Player.{encode_player}
use hamang_server.Players.{
  create_player, encode_players_to_network, find_player, joining_player, new_player_manager,
}
use hamang_server.Players.Invariant.{IsConsistent, new_player_manager-IsConsistent}
use hamang_server.Ping.{PingManager, new_ping_manager}
use hamang_server.State.{Server, new_server}
use hamang_server.Handler.{handle_message, is_buffered}
use hamang_server.Handler.Loop.Stream.{handle_message-stream}
use hamang_server.Handler.Invariant.{handle_message-IsConsistent}
use hamang_server.Server.{handle_player_join, room_message}
use hamang_server.Server.Join.{handle_player_join_lem}
use hamang_server.Server.Steps.{Reaches-IsConsistent, join, start, step}
use hamang_server.Examples.Rooms.{quiet_env, room_of, two_players, two_players-IsConsistent}
use hamang_server.Examples.Streams.{
  chat_echo-IsEcho, kept_rpc, queue, rpc_echo-IsEcho, stream, stream_in,
}
use hamang_server.Server.Opening.{Accepted, open_server}
use hamang_server.Server.Opening.Joining.{Joined, open_server-joins}

-- The room after the packets of two kinds.
abbrev streamed : Server
streamed = record (room_of two_players) { message_queue = queue ++ kept_rpc ∷ [] }

streamed_runs :
    (m' : NetworkMessage) × (handle_message quiet_env 9 stream_in (room_of two_players)
      ≡ ok (m', streamed))
unfolding is_buffered
streamed_runs =
    let (m', runs, text, point, same, moved) =
      handle_message-stream quiet_env 9 stream stream_in (room_of two_players)
        (chat_echo-IsEcho, (rpc_echo-IsEcho, tt)) refl (omega arith) (omega arith) (omega arith) in
    (m', runs)

handle_message-IsConsistent_example :
    IsConsistent streamed.players
    × (streamed.players.player_hash ≡ (room_of two_players).players.player_hash)
    × (streamed.players.next_actor_number ≡ (room_of two_players).players.next_actor_number)
handle_message-IsConsistent_example =
    handle_message-IsConsistent quiet_env 9 stream_in (room_of two_players) streamed_runs.0 streamed
      two_players-IsConsistent streamed_runs.1

-- The first client joins a server that has just started.
abbrev pub first_pings : PingManager
first_pings = new_ping_manager quiet_env.clock

abbrev pub first_text : Bytes
first_text = codes "LEX#11#-1#7#8#0#1#1#1#0#1000#"

first_text_made :
    room_message
      (new_server first_pings)
      (create_player new_player_manager 70).1
      (joining_player new_player_manager 70)
      (quiet_env.clock first_pings.readings)
    ≡ ok first_text
unfolding room_message create_player encode_players_to_network encode_player encode_to_network
    append append_int build_new_signed_message to_string joining_player
first_text_made = refl

first_text_fits : length first_text ≤ buffer_size
unfolding buffer_size
first_text_fits = omega arith

nothing_buffered : length (joined []) < batch_limit
unfolding batch_limit
nothing_buffered = omega arith

first_join :
    (s' : Server) × (handle_player_join quiet_env 9 70 (new_server first_pings) ≡ ok (0, s'))
    × (find_player (pos 1) s'.players.player_hash ≡ some 0)
first_join =
    let (s', runs, consistent, found, at, queue, sent) =
      handle_player_join_lem quiet_env 9 70 (new_server first_pings) new_player_manager-IsConsistent
        first_text first_text_made first_text_fits (omega arith) nothing_buffered (omega arith) in
    (s', runs, found)

abbrev joined_once : Server
joined_once = first_join.0

Reaches-IsConsistent_example : IsConsistent joined_once.players
Reaches-IsConsistent_example =
    Reaches-IsConsistent quiet_env first_pings joined_once
      (step start (join 9 70 0 joined_once first_join.1))

abbrev first_client : Accepted
first_client = record { socket = 70; memory = [] }

abbrev first_buffer : PerIoData
first_buffer = create_empty_buffer [] buffer_size read

abbrev first_opened : List (ℕ × PerIoData)
first_opened = (0, first_buffer) ∷ []

opened_once :
    open_server quiet_env true true 9 (first_client ∷ []) (new_server first_pings)
    ≡ ok (first_opened, joined_once)
unfolding open_server
opened_once = rw first_join.1

open_server-joins_example :
    (true ≡ true)
    × (true ≡ true)
    × Joined (first_client ∷ []) (new_server first_pings).players first_opened joined_once.players
open_server-joins_example =
    open_server-joins quiet_env true true 9 (first_client ∷ []) (new_server first_pings)
      first_opened joined_once new_player_manager-IsConsistent opened_once
