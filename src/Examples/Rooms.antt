-- ===== src/Examples/Rooms.antt =====
-- A room that two players join, and what happens to it.
use hamang_server.Prelude.{
  List, [], arith, length, ok, pos, refl, some, true, ℕ, ℤ, ◌^◌, ◌∷◌, ◌≡◌, ◌≤◌,
}
use hamang_server.Text.{codes}
use hamang_server.Values.{buffer_size}
use hamang_server.Rpc.Views.{messages_of}
use hamang_server.Player.{Network, Player, new_player}
use hamang_server.Players.{
  PlayerManager, broadcast_message, broadcast_message_all, create_player, erase_player, find_player,
  new_player_manager,
}
use hamang_server.Players.Invariant.{
  IsConsistent, create_player-IsConsistent, new_player_manager-IsConsistent,
}
use hamang_server.Players.Masters.{MasterOutcome, set_master_client-IsConsistent}
use hamang_server.Players.Broadcast.{
  AllPresent, broadcast_message_all-erase, broadcast_message_all_lem,
}
use hamang_server.Ping.{new_ping_manager}
use hamang_server.State.{Env, Server, new_server}
use hamang_server.Server.{handle_player_disconnect}
use hamang_server.Server.Leave.{disconnect_lem}

-- The players have the sockets 70 and 80.
abbrev pub one_player : PlayerManager
one_player = (create_player new_player_manager 70).1

abbrev pub two_players : PlayerManager
two_players = (create_player one_player 80).1

one_player-IsConsistent : IsConsistent one_player
one_player-IsConsistent =
    create_player-IsConsistent new_player_manager 70 new_player_manager-IsConsistent

pub two_players-IsConsistent : IsConsistent two_players
two_players-IsConsistent = create_player-IsConsistent one_player 80 one_player-IsConsistent

create_player-IsConsistent_example : IsConsistent two_players
create_player-IsConsistent_example =
    create_player-IsConsistent one_player 80 one_player-IsConsistent

two_players_example :
    (two_players.player_hash ≡ (pos 1, 0) ∷ (pos 2, 1) ∷ [])
    × (two_players.master_player ≡ some 0)
    × (two_players.next_actor_number ≡ 3)
unfolding create_player
two_players_example = (refl, refl, refl)

find_first : find_player (pos 1) two_players.player_hash ≡ some 0
unfolding create_player find_player
find_first = refl

find_second : find_player (pos 2) two_players.player_hash ≡ some 1
unfolding create_player find_player
find_second = refl

set_master_client-IsConsistent_example :
    MasterOutcome two_players (pos 2) (find_player (pos 2) two_players.player_hash)
set_master_client-IsConsistent_example =
    set_master_client-IsConsistent two_players (pos 2) two_players-IsConsistent

-- A clock that stands, a data base where all statements succeed, memory that keeps its bytes, and a copy of
-- overlapping ranges that does nothing.
abbrev pub quiet_env : Env
quiet_env = record {
  clock = λ n. pos 1000;
  odbc = record { succeeds = λ sql executed. true; left_argument_first = true };
  freed = λ socket. socket;
  overlapped = λ buffer start. buffer;
}

abbrev pub room_of : PlayerManager → Server
room_of players = record (new_server (new_ping_manager quiet_env.clock)) {
  players = players;
  message_queue =
      record { player_actor_nr = pos 1; view_id = pos 5; message = codes "a#" }
      ∷ record { player_actor_nr = pos 2; view_id = pos 5; message = codes "b#" }
      ∷ [];
}

few : two_players.next_actor_number ≤ 2 ^ 31
unfolding create_player
few = omega arith

disconnect_lem_example :
    (s' : Server) × (handle_player_disconnect quiet_env 0 (room_of two_players) ≡ ok s')
    × IsConsistent s'.players
    × (find_player (pos 2) s'.players.player_hash ≡ some 1)
    × (messages_of s'.message_queue (pos 2) (pos 5) ≡ codes "b#" ∷ [])
unfolding create_player find_player erase_player messages_of
disconnect_lem_example =
    disconnect_lem quiet_env (room_of two_players) two_players-IsConsistent (pos 1) 0 find_first few
      (pos 2) (pos 5)

abbrev pub network : Network
network = record { sent = []; closed = [] }

abbrev pub connected_player : Player
connected_player = record new_player {
  handle_info = some 70;
  actor_number = pos 1;
  is_connected = true;
}

abbrev pub other_player : Player
other_player = record connected_player { handle_info = some 80; actor_number = pos 2 }

abbrev pub hash : List (ℤ × ℕ)
hash = (pos 1, 0) ∷ (pos 2, 1) ∷ []

pub all_present : AllPresent (connected_player ∷ other_player ∷ []) hash
all_present = ((connected_player, refl, refl, 70, refl), ((other_player, refl, refl, 80, refl), tt))

fits : length (codes "hi") ≤ buffer_size
unfolding buffer_size
fits = omega arith

broadcast_message_all_lem_example :
    broadcast_message_all (connected_player ∷ other_player ∷ []) hash (codes "hi") network
    ≡ ok (record network { sent = (70, codes "hi") ∷ (80, codes "hi") ∷ [] })
broadcast_message_all_lem_example =
    broadcast_message_all_lem (connected_player ∷ other_player ∷ []) (codes "hi") fits hash network
      all_present

broadcast_message_all-erase_example :
    broadcast_message (connected_player ∷ other_player ∷ []) hash (pos 1) (codes "hi") network
    ≡ broadcast_message_all
        (connected_player ∷ other_player ∷ [])
        (erase_player (pos 1) hash)
        (codes "hi")
        network
broadcast_message_all-erase_example =
    broadcast_message_all-erase (connected_player ∷ other_player ∷ []) (codes "hi") fits hash
      (pos 1) network all_present
