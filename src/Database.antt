-- ===== src/Database.antt =====
-- DBMS_NI.h and DBMS_NI.cpp: the requests on the statistics. ODBC is a parameter: whether a statement
-- succeeds, given those executed before it. So is the order in which the compiler evaluates two
-- arguments of one call, which the language leaves open.
pub mod Connection
pub mod Ending
use hamang_server.Prelude.{
  Bool, List, Option, Result, [], err, exited, if◌then◌else◌, no_return, none, null_pointer, ok,
  or_fault, pos, some, true, ℤ, ◌++◌, ◌>>=◌, ◌∷◌,
}
use hamang_server.Text.{Bytes, codes}
use hamang_server.Protocol.{
  LexDbCode, LexDbTable, achievements, append_value, callback_code, db_code_code, db_code_of,
  db_received, db_table_code, db_table_of, events, get_value, leaderboards, log_in,
  message_info_code, server_callbacks, set_value, sql, statistics,
}
use hamang_server.Message.{
  NetworkMessage, append_int, build_new_signed_message, get_next, get_next_int, new_message,
}
use hamang_server.Player.{Network, send}
use hamang_server.Players.{PlayerManager, deref, find_player}

pub record Odbc : Type 0 where
  pub succeeds : Bytes → List Bytes → Bool
  pub left_argument_first : Bool

-- A table that has no name makes `DecodeTableCode` end without a value.
unfoldable pub decode_table_code : Option LexDbTable → Result Bytes
decode_table_code (some achievements) = ok (codes "Achievements")
decode_table_code (some statistics) = ok (codes "Statistics")
decode_table_code (some leaderboards) = ok (codes "Leaderboards")
decode_table_code (some events) = ok (codes "Events")
decode_table_code none = err no_return

unfoldable pub set_stat : Bytes → Bytes → Bytes → Bytes → Bytes
set_stat table uid field value =
    codes "UPDATE [dbo].["
    ++ table
    ++ codes "] SET ["
    ++ field
    ++ codes "] = "
    ++ value
    ++ codes " WHERE [UID]='"
    ++ uid
    ++ codes "';"

unfoldable pub get_stat : Bytes → Bytes → Bytes → Bytes
get_stat table uid field =
    codes "SELECT ["
    ++ field
    ++ codes "] FROM "
    ++ table
    ++ codes " WHERE [UID] ='"
    ++ uid
    ++ codes "'"

unfoldable pub add_stat : Bytes → Bytes → Bytes → Bytes → Bytes
add_stat table uid field value =
    codes "UPDATE dbo].["
    ++ table
    ++ codes "] SET ["
    ++ field
    ++ codes "] = ["
    ++ field
    ++ codes "] + "
    ++ value
    ++ codes " WHERE [UID]='"
    ++ uid
    ++ codes "';"

unfoldable pub do_log_in : Bytes → Bytes → Bytes
do_log_in uid password =
    codes "SELECT COUNT(*) UPDATE [dbo].[Statistics] WHERE [UID] ='"
    ++ uid
    ++ codes "' AND [Password] ='"
    ++ password
    ++ codes "'"

-- The reply to a log-in. The count that the statement returned is overwritten by 1.
unfoldable pub log_in_message : Bytes
log_in_message = build_new_signed_message (
    append_int
      (append_int
        (append_int
          (append_int
            (append_int (append_int new_message (pos 0)) (pos (message_info_code server_callbacks)))
            (pos (callback_code db_received)))
          (pos (db_table_code statistics)))
        (pos (db_code_code log_in)))
      (pos 1))

-- What a request is to do: nothing, a statement, or a statement and then a reply to the actor.
pub data Request : Type 0 where
  no_statement : Request
  statement : Bytes → Request
  log_in_statement : Bytes → Request

module _ (odbc : Odbc) where
  -- Two calls of `GetNext` as arguments of one call: the left argument comes first in the pair.
  two_arguments : NetworkMessage → Result (Bytes × Bytes × NetworkMessage)
  two_arguments m = do
    (first, m₁) ← get_next m
    (second, m₂) ← get_next m₁
    ok (if odbc.left_argument_first then (first, second, m₂) else (second, first, m₂))

  -- The statement that a request by these codes asks for, of an actor with this user ID.
  request_for :
      Option LexDbTable
      → Option LexDbCode
      → Bytes
      → NetworkMessage
      → Result (Request × NetworkMessage)
  unfolding two_arguments
  request_for table (some log_in) uid m = do
    (password, m') ← get_next m
    ok (log_in_statement (do_log_in uid password), m')
  request_for (some events) code uid m = do
    (field, value, m') ← two_arguments m
    name ← decode_table_code (some events)
    ok (statement (add_stat name uid field value), m')
  request_for (some statistics) (some get_value) uid m = do
    (field, m') ← get_next m
    name ← decode_table_code (some statistics)
    ok (statement (get_stat name uid field), m')
  request_for table (some set_value) uid m = do
    (field, value, m') ← two_arguments m
    name ← decode_table_code table
    ok (statement (set_stat name uid field value), m')
  request_for table (some append_value) uid m = do
    (field, value, m') ← two_arguments m
    name ← decode_table_code table
    ok (statement (add_stat name uid field value), m')
  request_for table (some sql) uid m = do (line, m') ← get_next m; ok (statement line, m')
  request_for table code uid m = ok (no_statement, m)

  -- `sqlexec`: a statement that fails ends the process.
  unfoldable pub sqlexec : Bytes → List Bytes → Result (List Bytes)
  sqlexec line executed =
      if odbc.succeeds line executed then ok (executed ++ line ∷ []) else err exited

  -- `Callback_LogIn` answers the actor; `Callback_Stat` does nothing.
  perform : Request → ℤ → PlayerManager → List Bytes → Network → Result (List Bytes × Network)
  unfolding sqlexec
  perform no_statement actor pm executed net = ok (executed, net)
  perform (statement line) actor pm executed net = do
    executed' ← sqlexec line executed
    ok (executed', net)
  perform (log_in_statement line) actor pm executed net = do
    executed' ← sqlexec line executed
    address ← or_fault (find_player actor pm.player_hash) null_pointer
    player ← deref pm.heap address
    net' ← send player log_in_message true net
    ok (executed', net')

  unfoldable pub handle_request :
      NetworkMessage
      → PlayerManager
      → List Bytes
      → Network
      → Result (NetworkMessage × List Bytes × Network)
  unfolding request_for perform
  handle_request m pm executed net = do
    (table, m₁) ← get_next_int m
    (code, m₂) ← get_next_int m₁
    (uid, m₃) ← get_next m₂
    (request, m₄) ← request_for (db_table_of table) (db_code_of code) uid m₃
    (executed', net') ← perform request m₄.sent_actor_nr pm executed net
    ok (m₄, executed', net')
