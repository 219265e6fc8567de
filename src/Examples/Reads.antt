-- ===== src/Examples/Reads.antt =====
-- A client that joins, and what it reads of the room.
use hamang_server.Prelude.{
  All, List, [], arith, length, map, ok, pos, refl, ◌+◌, ◌<◌, ◌^◌, ◌∷◌, ◌≡◌,
}
use hamang_server.Text.{Bytes, codes}
use hamang_server.Text.Decimal.{to_string}
use hamang_server.Protocol.{net_delim}
use hamang_server.Message.{NetworkMessage, new_message, split}
use hamang_server.Message.Segments.{AllLack-all_lack}
use hamang_server.Properties.{new_hash_table, set_property}
use hamang_server.Player.{Player}
use hamang_server.Players.{create_player, joining_player}
use hamang_server.State.{Server}
use hamang_server.Server.{room_message}
use hamang_server.Server.Room.{read_room}
use hamang_server.Server.Room.Reading.{IsReadable, IsReadableTable, view_of}
use hamang_server.Server.Room.Encoding.{Lists}
use hamang_server.Server.Room.Joining.{room_message-read}
use hamang_server.Examples.Rooms.{room_of, two_players, two_players-IsConsistent}

-- A room with one property and two players.
abbrev furnished : Server
furnished = record (room_of two_players) {
  room = set_property new_hash_table (codes "map") (codes "string") (codes "sea");
}

abbrev both_players : List Player
both_players = two_players.heap

both_listed : Lists two_players.heap two_players.player_hash both_players
unfolding create_player
both_listed = (refl, (refl, tt))

both-IsReadable : All IsReadable both_players
unfolding create_player
both-IsReadable = (
  record { numbered = omega arith; table = record { short = omega arith; travels = (refl, tt) } },
  (
    record { numbered = omega arith; table = record { short = omega arith; travels = (refl, tt) } },
    tt,
  ),
)

furnished-IsReadableTable : IsReadableTable furnished.room
unfolding set_property
furnished-IsReadableTable = record {
  short = omega arith;
  travels =
      (refl, AllLack-all_lack net_delim (codes "map" ∷ codes "string" ∷ codes "sea" ∷ []) refl);
}

next_small : two_players.next_actor_number < 2 ^ 31
unfolding create_player
next_small = omega arith

few_players : length both_players + 1 < 2 ^ 31
unfolding create_player
few_players = omega arith

room_message-read_example :
    (text : Bytes) × (m : NetworkMessage) × (room_message furnished
        (create_player two_players 90).1
        (joining_player two_players 90)
        (pos 1000)
      ≡ ok text)
    × (split (length text + 1) new_message text net_delim ≡ ok m)
    × (read_room m.tokens
        ≡ ok (record {
          properties = furnished.room.custom_property;
          players = view_of (joining_player two_players 90) ∷ map view_of both_players;
          time = to_string (pos 1000);
        }))
room_message-read_example =
    room_message-read furnished 90 both_players (pos 1000) two_players-IsConsistent both_listed
      furnished-IsReadableTable both-IsReadable next_small few_players
