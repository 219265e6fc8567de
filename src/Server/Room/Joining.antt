-- ===== src/Server/Room/Joining.antt =====
-- The room message for a client that joins: one packet, which says what the server knows.
use hamang_server.Prelude.{
  All, Bool, List, [], ap, arith, false, get_elem?-append_last, length, map, negsuc, none, ok, pos,
  refl, sym, true, ℕ, ℤ, ◌++◌, ◌+◌, ◌<◌, ◌^◌, ◌∙◌, ◌∷◌, ◌≡◌,
}
use hamang_server.Text.{Bytes}
use hamang_server.Text.Decimal.{to_string}
use hamang_server.Protocol.{
  callback_code, message_info_code, net_delim, room_information_received, server_callbacks,
}
use hamang_server.Message.{
  NetworkMessage, append, append_int, build_new_signed_message, new_message, split,
}
use hamang_server.Message.Framing.{CanTravel, append_all, packet_tokens, split-build}
use hamang_server.Message.Segments.{AllLack-append, has_empty-append, starts}
use hamang_server.Properties.{HashTable}
use hamang_server.Player.{Player, bool_text}
use hamang_server.Players.{
  PlayerManager, create_player, encode_others, encode_players_to_network, find_player,
  get_player_count, joining_player,
}
use hamang_server.Players.Invariant.{IsConsistent, next_is_free}
use hamang_server.State.{Server}
use hamang_server.Handler.Updates.{entry_tokens}
use hamang_server.Server.{callback_message, room_message}
use hamang_server.Server.Room.{read_room}
use hamang_server.Message.Numbers.{numbers-CanTravel}
use hamang_server.Server.Room.Reading.{
  IsReadable, IsReadableTable, player_values, players_values, read_room-room_values, room_values,
  table_values, view_of,
}
use hamang_server.Server.Room.Encoding.{
  Lists, append_all-append, encode_others-joined, encode_player-append_all, encode_table-append_all,
  length-Lists, length-insert_player,
}

CanTravel-append : (xs ys : List Bytes) → CanTravel xs → CanTravel ys → CanTravel (xs ++ ys)
CanTravel-append xs ys h k =
    (has_empty-append xs ys h.0 k.0, AllLack-append net_delim xs ys h.1 k.1)

number-CanTravel : (z : ℤ) (ss : List Bytes) → CanTravel ss → CanTravel (to_string z ∷ ss)
number-CanTravel z ss h = CanTravel-append (to_string z ∷ []) ss (numbers-CanTravel (z ∷ [])) h

flag-CanTravel : (b : Bool) (ss : List Bytes) → CanTravel ss → CanTravel (bool_text b ∷ ss)
flag-CanTravel true ss h = (h.0, (omega arith, h.1))
flag-CanTravel false ss h = (h.0, (omega arith, h.1))

player-CanTravel : (p : Player) → IsReadable p → CanTravel (player_values p)
player-CanTravel p h =
    let table = table_values p.custom_property in
    number-CanTravel p.actor_number (bool_text p.is_master_client ∷ table) (
      flag-CanTravel p.is_master_client table (
        number-CanTravel (pos (length p.custom_property.custom_property))
          (entry_tokens p.custom_property.custom_property) h.table.travels))

players-CanTravel : (ps : List Player) → All IsReadable ps → CanTravel (players_values ps)
players-CanTravel [] h = (refl, tt)
players-CanTravel (p ∷ ps) h =
    CanTravel-append (player_values p) (players_values ps) (player-CanTravel p h.0)
      (players-CanTravel ps h.1)

room_values-CanTravel :
    (room : HashTable) (joined : Player) (ps : List Player) (time : ℤ)
    → IsReadableTable room
    → IsReadable joined
    → All IsReadable ps
    → CanTravel (room_values room joined ps time)
room_values-CanTravel room joined ps time h k l =
    let end = to_string time ∷ [] in
    let others = players_values ps ++ end in
    let players = player_values joined ++ others in
    let counted = to_string (pos (length ps + 1)) ∷ players in
    let body = table_values room ++ counted in
    let kind = to_string (pos (callback_code room_information_received)) ∷ body in
    number-CanTravel (negsuc 0) (to_string (pos (message_info_code server_callbacks)) ∷ kind) (
      number-CanTravel (pos (message_info_code server_callbacks)) kind (
        number-CanTravel (pos (callback_code room_information_received)) body (
          CanTravel-append (table_values room) counted
            (number-CanTravel (pos (length room.custom_property))
              (entry_tokens room.custom_property) h.travels)
            (number-CanTravel (pos (length ps + 1)) players (
              CanTravel-append (player_values joined) others (player-CanTravel joined k) (
                CanTravel-append (players_values ps) end (players-CanTravel ps l)
                  (number-CanTravel time [] (refl, tt))))))))

module _ (s : Server) (socket : ℕ) (ps : List Player) (time : ℤ) (v : IsConsistent s.players)
    (there : Lists s.players.heap s.players.player_hash ps) where
  abbrev joined : Player
  joined = joining_player s.players socket

  abbrev after_join : PlayerManager
  after_join = (create_player s.players socket).1

  number_free : find_player (pos s.players.next_actor_number) s.players.player_hash ≡ none
  number_free = next_is_free s.players v.has_entries

  others_encoded :
      (m : NetworkMessage)
      → encode_others after_join.heap after_join.player_hash joined.actor_number m
        ≡ ok (append_all m (players_values ps))
  unfolding create_player
  others_encoded m =
      encode_others-joined s.players.heap joined s.players.player_hash ps joined.actor_number
        (length s.players.heap) m there number_free (get_elem?-append_last s.players.heap joined)

  counted : get_player_count after_join ≡ length ps + 1
  unfolding create_player
  counted =
      length-insert_player joined.actor_number (length s.players.heap) s.players.player_hash
        number_free
      ∙ ap (λ (n : ℕ). n + 1) (length-Lists s.players.heap s.players.player_hash ps there)

  room_message-build :
      room_message s after_join joined time
      ≡ ok (build_new_signed_message (append_all new_message (room_values s.room joined ps time)))
  unfolding room_message encode_players_to_network append_int
  room_message-build =
      let m₀ = callback_message (negsuc 0) room_information_received in
      let table = table_values s.room in
      let count = to_string (pos (length ps + 1)) in
      let end = to_string time ∷ [] in
      let m₁ = append (append_all m₀ table) count in
      let chain : append_all m₀
            (table ++ (count ∷ (player_values joined ++ (players_values ps ++ end))))
          ≡ append (append_all (append_all m₁ (player_values joined)) (players_values ps))
              (to_string time) =
        append_all-append m₀ table (count ∷ (player_values joined ++ (players_values ps ++ end)))
        ∙ append_all-append m₁ (player_values joined) (players_values ps ++ end)
        ∙ append_all-append (append_all m₁ (player_values joined)) (players_values ps) end in
      rw
        (
          encode_table-append_all s.room m₀,
          counted,
          encode_player-append_all joined m₁,
          others_encoded (append_all m₁ (player_values joined)),
        )
        (ap (λ (m : NetworkMessage). ok (build_new_signed_message m)) (sym chain))

  joined-IsReadable : s.players.next_actor_number < 2 ^ 31 → IsReadable joined
  unfolding joining_player
  joined-IsReadable next = record {
    numbered = next;
    table = record { short = omega arith; travels = (refl, tt) };
  }

  abbrev said : List Bytes
  said = room_values s.room joined ps time

  -- Let a client join a consistent room in which all numbers are in the range of an `int` and no word of
  -- a property is empty or holds a delimiter. Then the room message can be made, and it is cut into the
  -- tokens of one packet: the signature first, then the number of all tokens, the sender -1 and the two
  -- codes, and nothing behind the time. A client that reads them gets back all that the server knows:
  -- the properties of the room, in order; the new player first and then every player of the table, in
  -- order, each with the number, whether it is the master, and its properties; and the time.
  pub room_message-read :
      IsReadableTable s.room
      → All IsReadable ps
      → s.players.next_actor_number < 2 ^ 31
      → length ps + 1 < 2 ^ 31
      → (text : Bytes) × (m : NetworkMessage) × (room_message s after_join joined time ≡ ok text)
        × (split (length text + 1) new_message text net_delim ≡ ok m)
        × (read_room m.tokens
            ≡ ok (record {
              properties = s.room.custom_property;
              players = view_of joined ∷ map view_of ps;
              time = to_string time;
            }))
  room_message-read h l next few =
      let text = build_new_signed_message (append_all new_message said) in
      let new-IsReadable : IsReadable joined = joined-IsReadable next in
      (
        text,
        record new_message {
          tokens = packet_tokens said;
          start_points = starts 0 (packet_tokens said);
          count = length said + 2;
        },
        room_message-build,
        split-build (length text + 1) said
            (room_values-CanTravel s.room joined ps time h new-IsReadable l) (omega arith),
        read_room-room_values s.room joined ps time h new-IsReadable l few,
      )
