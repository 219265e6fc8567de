-- ===== src/Odbc.antt =====
-- What SQLtest/SQLtest.cpp and Multithread1/DBMS_NI.cpp use of ODBC: its return codes, the calls, and
-- what they bring; and the object that makes the calls.
pub mod Functions
pub mod Handles
pub mod Release
use hamang_server.Prelude.{Bool, List, [], false, true, ℕ, ℤ, ◌++◌, ◌∷◌}
use hamang_server.Text.{Bytes}

-- The return codes of ODBC.
pub data Retcode : Type 0 where
  sql_success : Retcode
  sql_success_with_info : Retcode
  sql_no_data : Retcode
  sql_error : Retcode
  sql_invalid_handle : Retcode

-- `rc == SQL_SUCCESS`.
unfoldable pub is_sql_success : Retcode → Bool
is_sql_success sql_success = true
is_sql_success sql_success_with_info = false
is_sql_success sql_no_data = false
is_sql_success sql_error = false
is_sql_success sql_invalid_handle = false

-- The handles of `direxec`: the environment, the connection and the statement.
pub data Handle : Type 0 where
  henv : Handle
  hdbc : Handle
  hstmt : Handle

-- The calls, with the handle each is given; those whose result decides what may follow carry it:
-- the code, and of a statement whether it has rows to fetch.
pub data OdbcCall : Type 0 where
  alloc_env : OdbcCall
  alloc_connect : Handle → OdbcCall
  connect : Handle → Retcode → OdbcCall
  get_diag_rec : Handle → ℕ → OdbcCall
  alloc_stmt : Handle → Retcode → OdbcCall
  exec_direct : Handle → Bytes → Retcode → Bool → OdbcCall
  fetch : Handle → Retcode → OdbcCall
  get_data : Handle → ℕ → OdbcCall
  get_error : Handle → OdbcCall
  free_stmt : Handle → OdbcCall
  disconnect : Handle → OdbcCall
  free_connect : Handle → OdbcCall
  free_env : Handle → OdbcCall

-- A record of SQLGetDiagRec or SQLError: the state, the native error and the message.
pub record Diagnostic : Type 0 where
  pub sqlstate : Bytes
  pub native_error : ℤ
  pub message : Bytes

-- A call of SQLFetch: its return code, and the texts that the two calls of SQLGetData leave in `szData`.
pub record Fetch : Type 0 where
  pub code : Retcode
  pub first : Bytes
  pub second : Bytes

-- What a connection comes to: the code of SQLConnect, the records of a failure, and the code of
-- SQLAllocStmt.
pub record Connecting : Type 0 where
  pub code : Retcode
  pub records : List Diagnostic
  pub allocating : Retcode

-- What a statement comes to: the code of SQLExecDirect, the records of a failure, whether it has rows,
-- and the fetches before SQLFetch returns SQL_NO_DATA.
pub record Executing : Type 0 where
  pub code : Retcode
  pub records : List Diagnostic
  pub has_rows : Bool
  pub fetches : List Fetch

-- MYSQLSUCCESS.
unfoldable pub mysqlsuccess : Retcode → Bool
mysqlsuccess sql_success = true
mysqlsuccess sql_success_with_info = true
mysqlsuccess sql_no_data = false
mysqlsuccess sql_error = false
mysqlsuccess sql_invalid_handle = false

-- The fields that the code reads, the calls it has made, the oldest first, and the lines printed.
pub record Direxec : Type 0 where
  pub rc : Retcode
  pub calls : List OdbcCall
  pub printed : List Bytes

-- The state after a function: it returned, or `exit(-1)` ended the process.
pub data Run : Type 0 where
  returned : Direxec → Run
  ended : Direxec → Run

unfoldable pub and_then : Run → (Direxec → Run) → Run
and_then (returned x) next = next x
and_then (ended x) next = ended x

unfoldable pub direxec : Direxec
direxec = record { rc = sql_success; calls = []; printed = [] }

unfoldable pub call : OdbcCall → Direxec → Direxec
call c x = record x { calls = x.calls ++ c ∷ [] }

unfoldable pub print_line : Bytes → Direxec → Direxec
print_line line x = record x { printed = x.printed ++ line ∷ [] }
