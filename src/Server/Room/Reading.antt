-- ===== src/Server/Room/Reading.antt =====
-- The values of the room message, and how the reader gets them back.
use hamang_server.Prelude.{
  All, Bool, InInt, List, [], ap, append_assoc, arith, drop, false, length, map, negsuc, ok, pos,
  refl, suc, true, ℕ, ℤ, ◌++◌, ◌+◌, ◌<◌, ◌^◌, ◌∙◌, ◌∷◌, ◌≡◌,
}
use hamang_server.Text.{Bytes, bytes_eq, bytes_eq_iff, codes}
use hamang_server.Text.Decimal.{to_string}
use hamang_server.Text.Decimal.RoundTrip.{stoi-to_string}
use hamang_server.Protocol.{
  callback_code, message_info_code, room_information_received, server_callbacks,
}
use hamang_server.Message.Framing.{CanTravel, packet_tokens}
use hamang_server.Properties.{HashTable, HashValue}
use hamang_server.Player.{Player, bool_text}
use hamang_server.Handler.Updates.{entry_tokens}
use hamang_server.Server.Room.{
  PlayerView, read_entries, read_header, read_player, read_players, read_room, read_table,
  take_number,
}

-- The values that the encodings append.
abbrev pub table_values : HashTable → List Bytes
table_values t = to_string (pos (length t.custom_property)) ∷ entry_tokens t.custom_property

abbrev pub player_values : Player → List Bytes
player_values p =
    to_string p.actor_number ∷ bool_text p.is_master_client ∷ table_values p.custom_property

abbrev pub players_values : List Player → List Bytes
players_values [] = []
players_values (p ∷ ps) = player_values p ++ players_values ps

abbrev pub view_of : Player → PlayerView
view_of p = record {
  number = p.actor_number;
  is_master = p.is_master_client;
  properties = p.custom_property.custom_property;
}

-- The number of entries is in the range of an `int`, and their words can travel.
pub record IsReadableTable (t : HashTable) : Type 0 where
  pub short : length t.custom_property < 2 ^ 31
  pub travels : CanTravel (entry_tokens t.custom_property)

pub record IsReadable (p : Player) : Type 0 where
  pub numbered : InInt p.actor_number
  pub table : IsReadableTable p.custom_property

count-read :
    (n : ℕ) (rest : List Bytes)
    → n < 2 ^ 31
    → take_number (to_string (pos n) ∷ rest) ≡ ok (pos n, rest)
unfolding take_number
count-read n rest h = rw (stoi-to_string (pos n) h) refl

read_entries-entry_tokens :
    (entries : List (Bytes × HashValue)) (rest : List Bytes)
    → read_entries (length entries) (entry_tokens entries ++ rest) ≡ ok (entries, rest)
unfolding read_entries
read_entries-entry_tokens [] rest = refl
read_entries-entry_tokens ((key, v) ∷ entries) rest =
    rw (read_entries-entry_tokens entries rest) refl

read_table-table_values :
    (t : HashTable) (rest : List Bytes)
    → IsReadableTable t
    → read_table (table_values t ++ rest) ≡ ok (t.custom_property, rest)
unfolding read_table
read_table-table_values t rest h =
    rw
      (
        count-read (length t.custom_property) (entry_tokens t.custom_property ++ rest) h.short,
        read_entries-entry_tokens t.custom_property rest,
      )
      refl

flag_read : (b : Bool) → bytes_eq (bool_text b) (codes "1") ≡ b
flag_read true = refl
flag_read false = refl

read_player-player_values :
    (p : Player) (rest : List Bytes)
    → IsReadable p
    → read_player (player_values p ++ rest) ≡ ok (view_of p, rest)
unfolding read_player take_number
read_player-player_values p rest h =
    rw
      (
        stoi-to_string p.actor_number h.numbered,
        read_table-table_values p.custom_property rest h.table,
        flag_read p.is_master_client,
      )
      refl

read_players-players_values :
    (ps : List Player) (rest : List Bytes)
    → All IsReadable ps
    → read_players (length ps) (players_values ps ++ rest) ≡ ok (map view_of ps, rest)
unfolding read_players
read_players-players_values [] rest h = refl
read_players-players_values (p ∷ ps) rest h =
    ap (read_players (suc (length ps))) (append_assoc (player_values p) (players_values ps) rest)
    ∙ rw
        (
          read_player-player_values p (players_values ps ++ rest) h.0,
          read_players-players_values ps rest h.1,
        )
        refl

-- All that the room message says.
abbrev pub room_values : HashTable → Player → List Player → ℤ → List Bytes
room_values room joined ps time =
    to_string (negsuc 0)
    ∷ to_string (pos (message_info_code server_callbacks))
    ∷ to_string (pos (callback_code room_information_received))
    ∷ (table_values room
        ++ (to_string (pos (length ps + 1))
            ∷ (player_values joined ++ (players_values ps ++ (to_string time ∷ [])))))

read_header-room_values :
    (room : HashTable) (joined : Player) (ps : List Player) (time : ℤ)
    → read_header (packet_tokens (room_values room joined ps time))
      ≡ ok (drop 5 (packet_tokens (room_values room joined ps time)))
unfolding read_header take_number
read_header-room_values room joined ps time =
    let n = length (room_values room joined ps time) in
    let size : suc (suc n) ≡ n + 2 = omega arith in
    let same : bytes_eq (to_string (pos (n + 2))) (to_string (pos (n + 2))) ≡ true =
      (bytes_eq_iff (to_string (pos (n + 2))) (to_string (pos (n + 2)))).1 refl in
    rw
      (
        size,
        same,
        stoi-to_string (negsuc 0) (omega arith),
        stoi-to_string (pos (message_info_code server_callbacks)) (omega arith),
        stoi-to_string (pos (callback_code room_information_received)) (omega arith),
      )
      refl

-- The reader gets back what was said.
pub read_room-room_values :
    (room : HashTable) (joined : Player) (ps : List Player) (time : ℤ)
    → IsReadableTable room
    → IsReadable joined
    → All IsReadable ps
    → length ps + 1 < 2 ^ 31
    → read_room (packet_tokens (room_values room joined ps time))
      ≡ ok (record {
        properties = room.custom_property;
        players = view_of joined ∷ map view_of ps;
        time = to_string time;
      })
unfolding read_room read_players
read_room-room_values room joined ps time h k l few =
    let e : length ps + 1 ≡ suc (length ps) = omega arith in
    rw
      (
        read_header-room_values room joined ps time,
        read_table-table_values room
            (to_string (pos (length ps + 1))
              ∷ (player_values joined ++ (players_values ps ++ (to_string time ∷ []))))
            h,
        count-read (length ps + 1)
            (player_values joined ++ (players_values ps ++ (to_string time ∷ []))) few,
        e,
        read_player-player_values joined (players_values ps ++ (to_string time ∷ [])) k,
        read_players-players_values ps (to_string time ∷ []) l,
      )
      refl
