-- ===== src/Examples/Streams.antt =====
-- Packets on their way: kept, cut, handled and handed on.
use hamang_server.Prelude.{
  List, Result, [], arith, err, false, inl, inr, length, length-append, length-replicate, le→ltb,
  negsuc, none, ok, out_of_fuel, pos, refl, replicate, some, suc, zero, ℕ, ◌++◌, ◌∷◌, ◌≡◌, ◌≢◌,
}
use hamang_server.Text.{Bytes, Lacks, codes, is_empty}
use hamang_server.Text.Decimal.{stoi}
use hamang_server.Values.{Rpc, batch_limit}
use hamang_server.Rpc.{
  enqueue_message, remove_all, remove_player_nr, remove_rpc, remove_view_id, send_batches,
}
use hamang_server.Rpc.Views.{messages_of, messages_of-operations}
use hamang_server.Rpc.Batches.{fits_batch, joined, send_batches_endless, send_batches_lem}
use hamang_server.Properties.{HashTable, new_hash_table, remove_all_properties, set_property}
use hamang_server.Properties.Lookup.{lookup, lookup-set_property}
use hamang_server.Message.{NetworkMessage, new_message}
use hamang_server.Message.Segments.{starts}
use hamang_server.Player.{new_player}
use hamang_server.Players.{master_changed_message}
use hamang_server.Ping.{time_sync_message}
use hamang_server.Database.{log_in_message}
use hamang_server.Handler.{handle_message, is_buffered, ping_message}
use hamang_server.Handler.Loop.Echoes.{Echo, IsEcho}
use hamang_server.Handler.Loop.Stream.{handle_message-stream, stream_tokens}
use hamang_server.Server.{disconnected_message, local_joined_message}
use hamang_server.Server.Packets.{IsPacketOf, server_messages-IsPacketOf}
use hamang_server.Examples.Rooms.{quiet_env, room_of, two_players}

abbrev pub queue : List Rpc
queue = (room_of two_players).message_queue

messages_of-operations_example :
    (messages_of (enqueue_message queue (pos 1) (pos 5) (codes "c#")) (pos 1) (pos 5)
      ≡ codes "a#" ∷ codes "c#" ∷ [])
    × (messages_of (remove_player_nr queue (pos 1)) (pos 1) (pos 5) ≡ [])
    × (messages_of (remove_view_id queue (pos 5)) (pos 1) (pos 5) ≡ [])
    × (messages_of (remove_rpc queue (pos 1) (pos 5)) (pos 1) (pos 5) ≡ [])
    × (messages_of (remove_all queue) (pos 1) (pos 5) ≡ [])
unfolding messages_of
messages_of-operations_example =
    messages_of-operations queue (pos 1) (pos 5) (codes "c#") (pos 1) (pos 5)

-- A step that collects what is sent.
abbrev collect : Bytes → List Bytes → Result (List Bytes)
collect message sent = ok (sent ++ message ∷ [])

send_batches_lem_example : send_batches collect 9 queue [] ≡ ok (codes "a#b#" ∷ [])
unfolding batch_limit
send_batches_lem_example = send_batches_lem collect 9 queue [] (omega arith) refl

-- A message of 70,000 bytes; two of them do not fit a batch.
unfoldable pub long_message : Bytes
long_message = replicate 70000 b'x'

abbrev long_queue : List Rpc
long_queue =
    record { player_actor_nr = pos 1; view_id = pos 5; message = long_message }
    ∷ record { player_actor_nr = pos 2; view_id = pos 5; message = long_message }
    ∷ []

pub length-long_message : length long_message ≡ 70000
unfolding long_message
length-long_message = length-replicate {A = ℕ} 70000 b'x'

pub Lacks-replicate : (d c n : ℕ) → c ≢ d → Lacks d (replicate n c)
Lacks-replicate d c zero h = tt
Lacks-replicate d c (suc n) h = (h, Lacks-replicate d c n h)

pub long_message-Lacks : (d : ℕ) → b'x' ≢ d → Lacks d long_message
unfolding long_message
long_message-Lacks d h = Lacks-replicate d b'x' 70000 h

pub long_message-is_empty : is_empty long_message ≡ false
unfolding long_message
long_message-is_empty = refl

long_queue_unfit : fits_batch long_queue ≡ false
unfolding batch_limit
long_queue_unfit = le→ltb (length (joined long_queue)) batch_limit (
    omega (
      arith,
      length-append long_message (long_message ++ []),
      length-append long_message [],
      length-long_message,
    ))

send_batches_endless_example : send_batches collect 1000 long_queue [] ≡ err out_of_fuel
send_batches_endless_example = send_batches_endless collect 1000 long_queue [] long_queue_unfit

abbrev some_properties : HashTable
some_properties = set_property new_hash_table (codes "map") (codes "string") (codes "1")

lookup-set_property_example :
    (lookup
        (codes "map")
        (set_property some_properties (codes "map") (codes "int") (codes "2")).custom_property
      ≡ some (record { type_name = codes "int"; value = codes "2" }))
    × (lookup (codes "map") (remove_all_properties some_properties).custom_property ≡ none)
    × ((set_property some_properties (codes "map") (codes "int") (codes "2")).name
        ≡ some_properties.name)
    × ((remove_all_properties some_properties).name ≡ some_properties.name)
lookup-set_property_example =
    lookup-set_property some_properties (codes "map") (codes "int") (codes "2") (codes "map")

server_messages-IsPacketOf_example :
    IsPacketOf (master_changed_message (pos 0) (pos 2)) (pos 0 ∷ pos 7 ∷ pos 4 ∷ pos 2 ∷ [])
    × IsPacketOf (disconnected_message (pos 3)) (pos 0 ∷ pos 7 ∷ pos 2 ∷ pos 3 ∷ [])
    × IsPacketOf (local_joined_message new_player) (negsuc 0 ∷ pos 7 ∷ pos 3 ∷ [])
    × IsPacketOf (ping_message (pos 0) (pos 1000)) (pos 0 ∷ pos 7 ∷ pos 9 ∷ pos 1000 ∷ [])
    × IsPacketOf log_in_message (pos 0 ∷ pos 7 ∷ pos 11 ∷ pos 0 ∷ pos 0 ∷ pos 1 ∷ [])
    × IsPacketOf
        (time_sync_message new_player (pos 1000))
        (pos 0 ∷ pos 7 ∷ pos 7 ∷ negsuc 0 ∷ pos 1000 ∷ [])
server_messages-IsPacketOf_example =
    server_messages-IsPacketOf (pos 0) (pos 2) (pos 3) (pos 1000) new_player

-- A chat message and a remote procedure call of player 1, for view 5.
abbrev pub chat_echo : Echo
chat_echo = record {
  length_token = codes "5";
  actor_token = codes "1";
  info_token = codes "3";
  body = codes "hi" ∷ [];
  actor = pos 1;
  info = pos 3;
  view = pos 0;
}

abbrev pub rpc_echo : Echo
rpc_echo = record {
  length_token = codes "6";
  actor_token = codes "1";
  info_token = codes "1";
  body = codes "5" ∷ codes "go" ∷ [];
  actor = pos 1;
  info = pos 1;
  view = pos 5;
}

pub chat_echo-IsEcho : IsEcho chat_echo
unfolding stoi is_buffered
chat_echo-IsEcho = record {
  counted = refl;
  from_actor = refl;
  of_kind = refl;
  echoed = refl;
  viewed = inl refl;
}

pub rpc_echo-IsEcho : IsEcho rpc_echo
unfolding stoi is_buffered
rpc_echo-IsEcho = record {
  counted = refl;
  from_actor = refl;
  of_kind = refl;
  echoed = refl;
  viewed = inr refl;
}

abbrev pub stream : List Echo
stream = chat_echo ∷ rpc_echo ∷ []

abbrev pub stream_in : NetworkMessage
stream_in = record new_message {
  tokens = stream_tokens stream;
  start_points = starts 0 (stream_tokens stream);
  count = 11;
}

abbrev pub kept_rpc : Rpc
kept_rpc = record { player_actor_nr = pos 1; view_id = pos 5; message = codes "LEX#6#1#1#5#go#" }

handle_message-stream_example :
    (m' : NetworkMessage) × (handle_message quiet_env 9 stream_in (room_of two_players)
      ≡ ok (m', record (room_of two_players) { message_queue = queue ++ kept_rpc ∷ [] }))
    × (m'.broadcast_message ≡ codes "LEX#5#1#3#hi#LEX#6#1#1#5#go#")
    × (m'.incomplete_resume_point ≡ 0)
    × (m'.tokens ≡ stream_in.tokens)
    × (m'.iterator ≡ 11)
unfolding is_buffered
handle_message-stream_example =
    handle_message-stream quiet_env 9 stream stream_in (room_of two_players)
      (chat_echo-IsEcho, (rpc_echo-IsEcho, tt)) refl (omega arith) (omega arith) (omega arith)
