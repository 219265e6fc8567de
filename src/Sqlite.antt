-- ===== src/Sqlite.antt =====
-- DBManager.h and DBManager.cpp: the requests on the statistics over SQLite. `sqlite3_exec` is a
-- parameter: the rows that a statement returns, given those executed before it, or none if it fails.
-- So is the order in which the compiler evaluates two arguments of one call.
pub mod LogIn
use hamang_server.Prelude.{
  Bool, List, Option, Result, [], exited, get_elem?, if◌then◌else◌, none, null_pointer, ok,
  or_fault, out_of_bounds, pos, some, true, ℕ, ℤ, ◌*◌, ◌++◌, ◌+◌, ◌>>=◌, ◌>>◌, ◌∷◌,
}
use hamang_server.Text.{Bytes, codes}
use hamang_server.Protocol.{
  LexDbCode, LexDbTable, append_value, callback_code, db_code_code, db_code_of, db_received,
  db_table_code, db_table_of, events, get_value, log_in, message_info_code, server_callbacks,
  set_value, sql, statistics,
}
use hamang_server.Message.{
  NetworkMessage, append, append_int, build_new_signed_message, get_next, get_next_int, new_message,
}
use hamang_server.Player.{Network, send}
use hamang_server.Players.{PlayerManager, deref, find_player}
use hamang_server.Database.{decode_table_code, log_in_message}

-- A column's name, and its value unless that is NULL.
abbrev pub Row : Type 0
Row = List (Bytes × Option Bytes)

pub record Sqlite : Type 0 where
  pub exec : Bytes → List Bytes → Option (List Row)
  pub opens : Bytes → Bool
  pub left_argument_first : Bool

-- The statements, and the players whom the callbacks answer.
pub record SqliteState : Type 0 where
  pub executed : List Bytes
  pub net : Network

unfoldable pub update_stat : Bytes → Bytes → Bytes → Bytes → Bytes
update_stat table uid field value =
    codes "UPDATE "
    ++ table
    ++ codes " SET "
    ++ field
    ++ codes " = "
    ++ value
    ++ codes " WHERE UID='"
    ++ uid
    ++ codes "';"

unfoldable pub select_stat : Bytes → Bytes → Bytes → Bytes
select_stat table uid field =
    codes "SELECT " ++ field ++ codes " FROM " ++ table ++ codes " WHERE UID ='" ++ uid ++ codes "'"

unfoldable pub increase_stat : Bytes → Bytes → Bytes → Bytes → Bytes
increase_stat table uid field value =
    codes "UPDATE "
    ++ table
    ++ codes " SET "
    ++ field
    ++ codes " = "
    ++ field
    ++ codes " + "
    ++ value
    ++ codes " WHERE UID='"
    ++ uid
    ++ codes "';"

unfoldable pub count_log_ins : Bytes → Bytes → Bytes
count_log_ins uid password =
    codes "SELECT COUNT(*) FROM Statistics WHERE UID ='"
    ++ uid
    ++ codes "' AND Password ='"
    ++ password
    ++ codes "'"

unfoldable pub show_all : Bytes
show_all = codes "SELECT *FROM Statistics ;"

unfoldable pub show_id : Bytes → Bytes
show_id uid = codes "SELECT *FROM Statistics WHERE UID = '" ++ uid ++ codes "';"

-- The text of a `char *` value; the null pointer has none.
abbrev pub text_of : Option Bytes → Result Bytes
text_of value = or_fault value null_pointer

-- `azColName[0]` and `argv[0]`
abbrev pub first_column : Row → Result (Bytes × Option Bytes)
first_column row = or_fault (get_elem? row 0) out_of_bounds

-- The reply to a request for a value.
unfoldable pub stat_message : Bytes → Bytes → Bytes
stat_message key value = build_new_signed_message (
    append
      (append
        (append_int
          (append_int
            (append_int
              (append_int (append_int new_message (pos 0))
                (pos (message_info_code server_callbacks)))
              (pos (callback_code db_received)))
            (pos (db_table_code statistics)))
          (pos (db_code_code get_value)))
        key)
      value)

-- The lines that the plain callback prints of a row.
unfoldable pub callback : Row → List Bytes
callback [] = codes "" ∷ []
callback ((name, none) ∷ row) = (name ++ codes " = NULL") ∷ callback row
callback ((name, some value) ∷ row) = (name ++ codes " = " ++ value) ∷ callback row

module _ (pm : PlayerManager) (actor : ℤ) where
  -- `playerHash[actorID]->Send(..., true)`
  abbrev pub answer : Bytes → Network → Result Network
  answer message net = do
    address ← or_fault (find_player actor pm.player_hash) null_pointer
    player ← deref pm.heap address
    send player message true net

  -- The count of the accounts is read, and then overwritten by 1.
  unfoldable pub callback_log_in : Row → Network → Result Network
  callback_log_in row net = do
    (name, value) ← first_column row
    num_log_ins ← text_of value
    answer log_in_message net

  unfoldable pub callback_stat : Row → Network → Result Network
  unfolding stat_message
  callback_stat row net = do
    (key, column) ← first_column row
    value ← text_of column
    answer (stat_message key value) net

-- A callback for each row, in order.
unfoldable pub each_row : (Row → Network → Result Network) → List Row → Network → Result Network
each_row function [] net = ok net
each_row function (row ∷ rows) net = do net' ← function row net; each_row function rows net'

module _ (sqlite : Sqlite) where
  -- `ExecSQL` with a callback: a statement that fails ends the process.
  unfoldable pub exec_sql :
      (Row → Network → Result Network) → Bytes → SqliteState → Result SqliteState
  unfolding each_row
  exec_sql function line s = do
    rows ← or_fault (sqlite.exec line s.executed) exited
    net ← each_row function rows s.net
    ok (record { executed = s.executed ++ line ∷ []; net = net })

  -- `ExecSQL` without an actor: its rows are only printed.
  unfoldable pub exec_printed : Bytes → SqliteState → Result SqliteState
  unfolding exec_sql
  exec_printed line s = exec_sql (λ row net. ok net) line s

  -- `OpenDatabase`: 0 for success.
  unfoldable pub open_database : ℕ
  open_database = if sqlite.opens (codes "hamangDB.db") then 0 else 1

  -- Two calls of `GetNext` as arguments of one call: the left argument comes first in the pair.
  unfoldable pub next_arguments : NetworkMessage → Result (Bytes × Bytes × NetworkMessage)
  next_arguments m = do
    (first, m₁) ← get_next m
    (second, m₂) ← get_next m₁
    ok (if sqlite.left_argument_first then (first, second, m₂) else (second, first, m₂))

  abbrev change :
      (Bytes → Bytes → Bytes → Bytes → Bytes)
      → Option LexDbTable
      → Bytes
      → NetworkMessage
      → SqliteState
      → Result (NetworkMessage × SqliteState)
  change statement_of table uid m s = do
    (field, value, m') ← next_arguments m
    name ← decode_table_code table
    s' ← exec_printed (statement_of name uid field value) s
    ok (m', s')

  -- The branches of `HandleRequest`.
  unfoldable pub handle_code :
      PlayerManager
      → Option LexDbTable
      → Option LexDbCode
      → Bytes
      → NetworkMessage
      → SqliteState
      → Result (NetworkMessage × SqliteState)
  unfolding next_arguments exec_printed callback_log_in callback_stat update_stat select_stat
      increase_stat count_log_ins
  handle_code pm table (some log_in) uid m s = do
    (password, m') ← get_next m
    s' ← exec_sql (callback_log_in pm m'.sent_actor_nr) (count_log_ins uid password) s
    ok (m', s')
  handle_code pm (some events) code uid m s = change increase_stat (some events) uid m s
  handle_code pm (some statistics) (some get_value) uid m s = do
    (field, m') ← get_next m
    name ← decode_table_code (some statistics)
    s' ← exec_sql (callback_stat pm m'.sent_actor_nr) (select_stat name uid field) s
    ok (m', s')
  handle_code pm table (some set_value) uid m s = change update_stat table uid m s
  handle_code pm table (some append_value) uid m s = change increase_stat table uid m s
  handle_code pm table (some sql) uid m s = do
    (line, m') ← get_next m
    s' ← exec_printed line s
    ok (m', s')
  handle_code pm table code uid m s = ok (m, s)

  unfoldable pub handle_sqlite_request :
      PlayerManager → NetworkMessage → SqliteState → Result (NetworkMessage × SqliteState)
  unfolding handle_code
  handle_sqlite_request pm m s = do
    (table, m₁) ← get_next_int m
    (code, m₂) ← get_next_int m₁
    (uid, m₃) ← get_next m₂
    handle_code pm (db_table_of table) (db_code_of code) uid m₃ s
