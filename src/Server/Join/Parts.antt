-- ===== src/Server/Join/Parts.antt =====
-- The steps of a joining: what is sent, how long it is, and the new player's connection.
use hamang_server.Prelude.{
  Bool, InInt, List, [], append-nil, arith, eqz, false, get_elem?, if◌then◌else◌, length, lt→ltb,
  negsuc, ok, pos, refl, set, some, true, ℕ, ℤ, ◌++◌, ◌<◌, ◌||◌, ◌∙◌, ◌∷◌, ◌≡◌, ◌≤◌,
}
use hamang_server.Text.{Bytes}
use hamang_server.Text.Decimal.{to_string}
use hamang_server.Protocol.{room_information_received}
use hamang_server.Values.{Rpc, batch_limit, batch_limit_lem, buffer_size}
use hamang_server.Rpc.Batches.{fits_batch, joined, send_joined}
use hamang_server.Properties.{encode_entries, encode_to_network}
use hamang_server.Message.{NetworkMessage, append, append_int, build_new_signed_message}
use hamang_server.Player.{Network, Player, bool_text, encode_player, send}
use hamang_server.Players.{
  PlayerManager, encode_others, encode_players_to_network, get_player_count,
}
use hamang_server.Players.Heap.{connected, get_elem?-set-connected}
use hamang_server.Players.Invariant.{HasEntries, IsConsistent}
use hamang_server.Players.Broadcast.{AllPresent, HasEntries-AllPresent, send_lem}
use hamang_server.State.{Server}
use hamang_server.Server.{
  callback_message, local_joined_message, player_joined_message, room_message,
}
use hamang_server.Server.Packets.{length-packet-le}

-- A player who is connected or is sent something initial, and a message that fits a buffer.
pub send_sends :
    (p : Player) (message : Bytes) (is_initial : Bool) (net : Network) (socket : ℕ)
    → p.handle_info ≡ some socket
    → (p.is_connected || is_initial) ≡ true
    → length message ≤ buffer_size
    → send p message is_initial net ≡ ok (record net { sent = net.sent ++ (socket, message) ∷ [] })
send_sends p message is_initial net socket h goes_out fits =
    send_lem p message is_initial net socket h ∙ ground arith

-- The buffered messages in one text, if there are any.
abbrev pub backlog : ℕ → List Rpc → List (ℕ × Bytes)
backlog socket [] = []
backlog socket (r ∷ queue) = (socket, joined (r ∷ queue)) ∷ []

pub fits_batch_lt :
    (queue : List Rpc) → length (joined queue) < batch_limit → fits_batch queue ≡ true
fits_batch_lt [] h = refl
fits_batch_lt (r ∷ []) h = refl
fits_batch_lt (r ∷ r' ∷ queue) h = lt→ltb (length (joined (r ∷ r' ∷ queue))) batch_limit h

pub send_joined_lem :
    (p : Player) (queue : List Rpc) (net : Network) (socket : ℕ)
    → p.handle_info ≡ some socket
    → length (joined queue) < batch_limit
    → send_joined (λ message n. send p message true n) queue net
      ≡ ok (record net { sent = net.sent ++ backlog socket queue })
send_joined_lem p [] net socket h few = rw (append-nil net.sent)
send_joined_lem p (r ∷ queue) net socket h few =
    send_sends p (joined (r ∷ queue)) true net socket h (ground arith)
      (omega (arith, batch_limit_lem))

-- Whether a player is connected is no matter of the room's order.
pub connect-IsConsistent :
    (pm : PlayerManager) (address : ℕ) (player : Player)
    → get_elem? pm.heap address ≡ some player
    → IsConsistent pm
    → IsConsistent
        (record pm { heap = set pm.heap address (record player { is_connected = true }) })
connect-IsConsistent pm address player here v = record {
  has_entries = record {
    entries = λ n p f.
        let e = v.has_entries.entries n p f in
        record {
          player = connected address p e.player;
          at = get_elem?-set-connected pm.heap address player p e.player here e.at;
          number = ground (arith, e.number);
          flag = ground (arith, e.flag);
          socket = e.socket;
          open_socket = ground (arith, e.open_socket);
        };
    issued = v.has_entries.issued;
    next_positive = v.has_entries.next_positive;
    distinct = v.has_entries.distinct;
  };
  has_master = v.has_master;
}

pub length-local_joined_message-le :
    (p : Player) → InInt p.actor_number → length (local_joined_message p) ≤ buffer_size
unfolding local_joined_message append_int buffer_size
length-local_joined_message-le p h = omega (
  arith,
  length-packet-le (p.actor_number ∷ pos 7 ∷ pos 3 ∷ []) (h, (omega arith, (omega arith, tt)))
      (omega arith),
)

-- A flag travels as a number.
abbrev flag_number : Bool → ℤ
flag_number true = pos 1
flag_number false = pos 0

bool_text_lem : (b : Bool) → bool_text b ≡ to_string (flag_number b)
unfolding to_string
bool_text_lem true = refl
bool_text_lem false = refl

flag_number-InInt : (b : Bool) → InInt (flag_number b)
flag_number-InInt true = omega arith
flag_number-InInt false = omega arith

pub length-player_joined_message-le :
    (p : Player)
    → InInt p.actor_number
    → p.custom_property.custom_property ≡ []
    → length (player_joined_message p) ≤ buffer_size
unfolding player_joined_message encode_player encode_to_network encode_entries append_int
    buffer_size
length-player_joined_message-le p h bare =
    rw (bare, bool_text_lem p.is_master_client)
      (omega (
        arith,
        length-packet-le
            (negsuc 0
              ∷ pos 7
              ∷ pos 1
              ∷ p.actor_number
              ∷ flag_number p.is_master_client
              ∷ pos 0
              ∷ [])
            (
              omega arith,
              (
                omega arith,
                (omega arith, (h, (flag_number-InInt p.is_master_client, (omega arith, tt)))),
              ),
            )
            (omega arith),
      ))

encode_others_runs :
    (heap : List Player) (hash : List (ℤ × ℕ)) (number : ℤ) (m : NetworkMessage)
    → AllPresent heap hash
    → (m' : NetworkMessage) × (encode_others heap hash number m ≡ ok m')
unfolding encode_others
encode_others_runs heap [] number m h = (m, refl)
encode_others_runs heap ((k, p) ∷ hash) number m h =
    let (m', runs) =
      encode_others_runs heap hash number (if eqz k number then m else encode_player h.0.0 m) h.1 in
    (m', rw h.0.1 runs)

-- In a room that is in order the room message can be made.
pub room_message_runs :
    (s : Server) (pm : PlayerManager) (player : Player) (time : ℤ)
    → HasEntries pm
    → (text : Bytes) × (room_message s pm player time ≡ ok text)
unfolding room_message encode_players_to_network
room_message_runs s pm player time v =
    let with_room =
      encode_to_network s.room (callback_message (negsuc 0) room_information_received) in
    let (m', runs) =
      encode_others_runs pm.heap pm.player_hash player.actor_number
        (encode_player player (append_int with_room (pos (get_player_count pm))))
        (HasEntries-AllPresent pm v) in
    (build_new_signed_message (append m' (to_string time)), rw runs)
