-- ===== src/Examples/Accounts.antt =====
-- The data base behind SQLite: a log-in with no account, and a value.
use hamang_server.Prelude.{[], arith, length, map, ok, pos, refl, some, true, ◌++◌, ◌+◌, ◌∷◌, ◌≡◌}
use hamang_server.Text.{Lacks-lacks, codes}
use hamang_server.Text.Decimal.{stoi, to_string}
use hamang_server.Protocol.{net_delim}
use hamang_server.Message.{NetworkMessage, new_message, split}
use hamang_server.Message.Segments.{starts}
use hamang_server.Message.Framing.{packet_tokens}
use hamang_server.Players.{PlayerManager, find_player, new_player_manager}
use hamang_server.Database.{log_in_message}
use hamang_server.Sqlite.{Sqlite, count_log_ins, handle_sqlite_request, stat_message}
use hamang_server.Sqlite.LogIn.{IsLogIn, log_in_answered, stat_message-packet}
use hamang_server.Examples.Rooms.{connected_player, network}

-- No account is found by any statement.
abbrev empty_base : Sqlite
empty_base = record {
  exec = λ line executed. some (((codes "COUNT(*)", some (codes "0")) ∷ []) ∷ []);
  opens = λ name. true;
  left_argument_first = true;
}

abbrev log_in_request : NetworkMessage
log_in_request = record new_message {
  tokens = codes "0" ∷ codes "0" ∷ codes "me" ∷ codes "secret" ∷ [];
  sent_actor_nr = pos 1;
}

log_in_request-IsLogIn : IsLogIn log_in_request (codes "me") (codes "secret")
unfolding stoi
log_in_request-IsLogIn = record {
  table_token = codes "0";
  code_token = codes "0";
  table = pos 0;
  at_table = refl;
  at_code = refl;
  at_uid = refl;
  at_password = refl;
  reads_table = refl;
  reads_code = refl;
  few = omega arith;
}

abbrev table_of_one : PlayerManager
table_of_one = record new_player_manager {
  heap = connected_player ∷ [];
  player_hash = (pos 1, 0) ∷ [];
}

find_one : find_player (pos 1) table_of_one.player_hash ≡ some 0
unfolding find_player
find_one = refl

log_in_answered_example :
    handle_sqlite_request empty_base table_of_one log_in_request
      (record { executed = []; net = network })
    ≡ ok (
      record log_in_request { iterator = 4 },
      record {
        executed = count_log_ins (codes "me") (codes "secret") ∷ [];
        net = record network { sent = (70, log_in_message) ∷ [] };
      },
    )
log_in_answered_example =
    log_in_answered empty_base table_of_one log_in_request (record { executed = []; net = network })
      (codes "me") (codes "secret") log_in_request-IsLogIn 0 70 connected_player find_one refl refl
      (codes "COUNT(*)") (codes "0") [] refl

stat_message-packet_example :
    split
      (length (stat_message (codes "Kills") (codes "2")) + 1)
      new_message
      (stat_message (codes "Kills") (codes "2"))
      net_delim
    ≡ ok (record new_message {
      tokens = packet_tokens (
          map to_string (pos 0 ∷ pos 7 ∷ pos 11 ∷ pos 0 ∷ pos 3 ∷ [])
          ++ codes "Kills" ∷ codes "2" ∷ []);
      start_points = starts 0 (
          packet_tokens (
            map to_string (pos 0 ∷ pos 7 ∷ pos 11 ∷ pos 0 ∷ pos 3 ∷ [])
            ++ codes "Kills" ∷ codes "2" ∷ []));
      count = 9;
    })
stat_message-packet_example =
    stat_message-packet (codes "Kills") (codes "2")
      (refl, (Lacks-lacks net_delim (codes "Kills") refl, ((omega arith, tt), tt)))
