-- ===== src/Sqlite/LogIn.antt =====
-- What a log-in is answered, and what a request for a value is.
use hamang_server.Prelude.{
  List, [], arith, get_elem?, length, map, ok, pos, some, true, ℕ, ℤ, ◌++◌, ◌+◌, ◌<◌, ◌^◌, ◌∙◌, ◌∷◌,
  ◌≡◌, ◌≤◌,
}
use hamang_server.Text.{Bytes}
use hamang_server.Text.Decimal.{stoi, to_string}
use hamang_server.Protocol.{net_delim}
use hamang_server.Values.{buffer_size}
use hamang_server.Message.{
  NetworkMessage, append, append_int, build_new_signed_message, new_message, split,
}
use hamang_server.Message.Cursor.{get_next_at, get_next_int_at}
use hamang_server.Message.Segments.{starts}
use hamang_server.Message.Framing.{CanTravel, packet_tokens, split-build}
use hamang_server.Message.Numbers.{CanTravel-append, numbers-CanTravel}
use hamang_server.Player.{Network, Player}
use hamang_server.Players.{PlayerManager, find_player}
use hamang_server.Players.Broadcast.{send_lem}
use hamang_server.Database.{log_in_message}
use hamang_server.Sqlite.{
  Row, Sqlite, SqliteState, answer, callback_log_in, count_log_ins, each_row, exec_sql, handle_code,
  handle_sqlite_request, stat_message,
}

-- A request to log in, at the cursor of a message.
pub record IsLogIn (m : NetworkMessage) (uid password : Bytes) : Type 0 where
  pub table_token : Bytes
  pub code_token : Bytes
  pub table : ℤ
  pub at_table : get_elem? m.tokens m.iterator ≡ some table_token
  pub at_code : get_elem? m.tokens (m.iterator + 1) ≡ some code_token
  pub at_uid : get_elem? m.tokens (m.iterator + 1 + 1) ≡ some uid
  pub at_password : get_elem? m.tokens (m.iterator + 1 + 1 + 1) ≡ some password
  pub reads_table : stoi table_token ≡ ok table
  pub reads_code : stoi code_token ≡ ok (pos 0)
  pub few : m.iterator + 4 < 2 ^ 32

fits : length log_in_message ≤ buffer_size
unfolding log_in_message build_new_signed_message append_int append to_string buffer_size
fits = omega arith

module _ (sqlite : Sqlite) (pm : PlayerManager) (m : NetworkMessage) (s : SqliteState)
    (uid password : Bytes) (h : IsLogIn m uid password) (address socket : ℕ) (player : Player)
    (f : find_player m.sent_actor_nr pm.player_hash ≡ some address)
    (here : get_elem? pm.heap address ≡ some player)
    (known : player.handle_info ≡ some socket) where
  answered :
      (net : Network)
      → answer pm m.sent_actor_nr log_in_message net
        ≡ ok (record net { sent = net.sent ++ (socket, log_in_message) ∷ [] })
  answered net =
      rw (f, here) (send_lem player log_in_message true net socket known ∙ ground (arith, fits))

  -- A log-in of a player in the table with a socket, for which SQLite returns a row whose first column
  -- is a value, is answered by the same message whatever the value, a count of 0 accounts included:
  -- that one account was found.
  pub log_in_answered :
      (name count : Bytes) (columns : Row)
      → sqlite.exec (count_log_ins uid password) s.executed
        ≡ some (((name, some count) ∷ columns) ∷ [])
      → handle_sqlite_request sqlite pm m s
        ≡ ok (
          record m { iterator = m.iterator + 1 + 1 + 1 + 1 },
          record {
            executed = s.executed ++ count_log_ins uid password ∷ [];
            net = record s.net { sent = s.net.sent ++ (socket, log_in_message) ∷ [] };
          },
        )
  unfolding handle_sqlite_request handle_code exec_sql each_row callback_log_in
  log_in_answered name count columns returned = rw (
    get_next_int_at m h.table_token h.table h.at_table h.reads_table (omega (arith, h.few)),
    get_next_int_at (record m { iterator = m.iterator + 1 }) h.code_token (pos 0) h.at_code
        h.reads_code (omega (arith, h.few)),
    get_next_at (record m { iterator = m.iterator + 1 + 1 }) uid h.at_uid (omega (arith, h.few)),
    get_next_at (record m { iterator = m.iterator + 1 + 1 + 1 }) password h.at_password
        (omega (arith, h.few)),
    returned,
    answered s.net,
  )

-- The reply to a request for a value is one packet, if the key and the value are not empty and hold no
-- delimiter: `Split` cuts it into the signature, the count 9, the codes, the key and the value.
pub stat_message-packet :
    (key value : Bytes)
    → CanTravel (key ∷ value ∷ [])
    → split (length (stat_message key value) + 1) new_message (stat_message key value) net_delim
      ≡ ok (record new_message {
        tokens =
            packet_tokens
              (map to_string (pos 0 ∷ pos 7 ∷ pos 11 ∷ pos 0 ∷ pos 3 ∷ []) ++ key ∷ value ∷ []);
        start_points = starts 0 (
            packet_tokens
              (map to_string (pos 0 ∷ pos 7 ∷ pos 11 ∷ pos 0 ∷ pos 3 ∷ []) ++ key ∷ value ∷ []));
        count = 9;
      })
unfolding stat_message append_int
stat_message-packet key value h =
    let codes_of : List ℤ = pos 0 ∷ pos 7 ∷ pos 11 ∷ pos 0 ∷ pos 3 ∷ [] in
    split-build (length (stat_message key value) + 1) (map to_string codes_of ++ key ∷ value ∷ [])
      (CanTravel-append (map to_string codes_of) (key ∷ value ∷ []) (numbers-CanTravel codes_of) h)
      (omega arith)
