-- ===== src/Examples/Requests.antt =====
-- Requests of clients, end to end.
use hamang_server.Prelude.{[], arith, length, negsuc, ok, pos, refl, some, ◌++◌, ◌+◌, ◌∷◌, ◌≡◌, ◌≤◌}
use hamang_server.Text.{codes}
use hamang_server.Text.Decimal.{stoi, to_string}
use hamang_server.Properties.{HashValue, set_property}
use hamang_server.Message.{
  NetworkMessage, append, append_int, build_new_signed_message, new_message,
}
use hamang_server.Handler.{
  handle_property_request, handle_server_request, ping_message, remove_rpcs,
}
use hamang_server.Player.{Player}
use hamang_server.Values.{buffer_size}
use hamang_server.Players.{find_player}
use hamang_server.State.{player_at}
use hamang_server.Server.Packets.{IsPacketOf}
use hamang_server.Server.Replies.{handle_server_request-ping}
use hamang_server.Examples.Rounds.{connected_room}
use hamang_server.Handler.Removal.{handle_server_request-remove_rpcs}
use hamang_server.Rpc.Views.{messages_of}
use hamang_server.Handler.Updates.{handle_property_request_lem}
use hamang_server.Handler.Targets.{of_player}
use hamang_server.Examples.Rooms.{connected_player, other_player, quiet_env, room_of, two_players}

-- The tokens of one packet that sets one property of the second player, with the cursor on the target.
abbrev property_message : NetworkMessage
property_message = record new_message {
  tokens =
      codes "LEX"
      ∷ codes "8"
      ∷ codes "1"
      ∷ codes "5"
      ∷ codes "2"
      ∷ codes "1"
      ∷ codes "map"
      ∷ codes "string"
      ∷ codes "sea"
      ∷ [];
  iterator = 4;
  end_point = 9;
}

abbrev sea : HashValue
sea = record { type_name = codes "string"; value = codes "sea" }

stoi-two : stoi (codes "2") ≡ ok (pos 2)
unfolding stoi
stoi-two = refl

stoi-one : stoi (codes "1") ≡ ok (pos 1)
unfolding stoi
stoi-one = refl

find_two : find_player (pos 2) connected_room.players.player_hash ≡ some 1
unfolding find_player
find_two = refl

abbrev player_at_sea : Player
player_at_sea = record other_player {
  custom_property =
      set_property other_player.custom_property (codes "map") (codes "string") (codes "sea");
}

handle_property_request_lem_example :
    handle_property_request property_message connected_room
    ≡ ok (
      record property_message {
        iterator = 9;
        broadcast_message = codes "LEX#8#1#5#2#1#map#string#sea#";
        count = 9;
      },
      record connected_room {
        players = record connected_room.players { heap = connected_player ∷ player_at_sea ∷ [] };
      },
    )
handle_property_request_lem_example =
    handle_property_request_lem (pos 2) ((codes "map", sea) ∷ []) [] (codes "2") (codes "1")
      property_message connected_room
      (record connected_room {
        players = record connected_room.players { heap = connected_player ∷ player_at_sea ∷ [] };
      })
      (of_player (pos 2) 1 other_player refl find_two refl) refl stoi-two stoi-one (omega arith)
      (omega arith) (omega arith)

-- The tokens of one packet that removes the messages of view 5 of any player.
abbrev removal_message : NetworkMessage
removal_message = record new_message {
  tokens =
      codes "LEX" ∷ codes "7" ∷ codes "1" ∷ codes "0" ∷ codes "1" ∷ codes "-1" ∷ codes "5" ∷ [];
  iterator = 4;
  end_point = 7;
}

stoi-any : stoi (codes "-1") ≡ ok (negsuc 0)
unfolding stoi
stoi-any = refl

stoi-five : stoi (codes "5") ≡ ok (pos 5)
unfolding stoi
stoi-five = refl

handle_server_request-remove_rpcs_example :
    (handle_server_request quiet_env removal_message (room_of two_players)
      ≡ ok (
        record removal_message { iterator = 7 },
        record (room_of two_players) {
          message_queue = remove_rpcs (negsuc 0) (pos 5) (room_of two_players).message_queue;
        },
      ))
    × (messages_of
          (remove_rpcs (negsuc 0) (pos 5) (room_of two_players).message_queue)
          (pos 1)
          (pos 5)
        ≡ [])
handle_server_request-remove_rpcs_example =
    handle_server_request-remove_rpcs quiet_env (codes "1") (codes "-1") (codes "5") [] (negsuc 0)
      (pos 5) (pos 1) (pos 5) removal_message (room_of two_players) refl stoi-one stoi-any stoi-five
      (omega arith) refl

-- The tokens of a ping of the first player.
abbrev ping_request : NetworkMessage
ping_request = record new_message {
  tokens = codes "LEX" ∷ codes "5" ∷ codes "1" ∷ codes "0" ∷ codes "4" ∷ [];
  iterator = 4;
  end_point = 5;
  sent_actor_nr = pos 1;
}

stoi-four : stoi (codes "4") ≡ ok (pos 4)
unfolding stoi
stoi-four = refl

pong : ping_message (pos 1) (pos 1000) ≡ codes "LEX#6#1#7#9#1000#"
unfolding ping_message append_int append to_string build_new_signed_message
pong = refl

pong_fits : length (ping_message (pos 1) (pos 1000)) ≤ buffer_size
unfolding buffer_size
pong_fits = rw pong (omega arith)

first_present : player_at connected_room.players (pos 1) ≡ ok (0, connected_player)
unfolding player_at find_player
first_present = refl

handle_server_request-ping_example :
    let s = connected_room in
    (handle_server_request quiet_env ping_request s
      ≡ ok (
        record ping_request { iterator = 5 },
        record s {
          pings = record s.pings { server_time = pos 1000; readings = s.pings.readings + 1 };
          net = record s.net { sent = s.net.sent ++ (70, ping_message (pos 1) (pos 1000)) ∷ [] };
        },
      ))
    × IsPacketOf (ping_message (pos 1) (pos 1000)) (pos 1 ∷ pos 7 ∷ pos 9 ∷ pos 1000 ∷ [])
handle_server_request-ping_example =
    handle_server_request-ping quiet_env (codes "4") [] 0 70 connected_player ping_request
      connected_room refl stoi-four (omega arith) first_present refl refl pong_fits
