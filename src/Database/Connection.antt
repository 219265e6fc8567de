-- ===== src/Database/Connection.antt =====
-- The part of Multithread1/DBMS_NI that calls ODBC: the connection, which is that of SQLtest/SQLtest.cpp,
-- the statements with their callbacks, and what is printed. What ODBC returns is a parameter.
pub mod Cursor
use hamang_server.Prelude.{List, [], if◌then◌else◌, ◌++◌, ◌∷◌}
use hamang_server.Text.{Bytes, codes}
use hamang_server.Odbc.{
  Connecting, Direxec, Executing, Fetch, Run, call, ended, exec_direct, fetch, get_data, hstmt,
  is_sql_success, mysqlsuccess, print_line, returned, sql_no_data,
}
use hamang_server.Odbc.Functions.{error_out, sqlconn, sqldisconn}

-- `OpenDatabase`, which returns 0. The text of `sqlconn` and of `error_out` is that of `direxec`.
unfoldable pub open_database : Connecting → Direxec → Run
unfolding sqlconn
open_database c x = sqlconn c x

-- `sqlexec` of a line and a callback: the callback runs if the statement succeeds; else the process ends.
unfoldable pub exec_callback : Executing → Bytes → (Direxec → Direxec) → Direxec → Run
unfolding mysqlsuccess call error_out sqldisconn
exec_callback e line function x =
    let executed = record (call (exec_direct hstmt line e.code e.has_rows) x) { rc = e.code } in
    if mysqlsuccess e.code
    then returned (function executed)
    else ended (sqldisconn (error_out e.records executed))

-- `sqlexec` of a line.
unfoldable pub exec_line : Executing → Bytes → Direxec → Run
unfolding mysqlsuccess call error_out sqldisconn
exec_line e line x =
    let executed = record (call (exec_direct hstmt line e.code e.has_rows) x) { rc = e.code } in
    if mysqlsuccess e.code
    then returned executed
    else ended (sqldisconn (error_out e.records executed))

-- `Callback_Show`: two columns of each row are printed. The code of SQLFetch is kept in a local variable.
unfoldable pub callback_show : List Fetch → Direxec → Direxec
unfolding is_sql_success call print_line
callback_show [] x = call (fetch hstmt sql_no_data) x
callback_show (f ∷ fetches) x =
    let fetched = call (fetch hstmt f.code) x in
    let first = print_line f.first (call (get_data hstmt 1) fetched) in
    let rest = callback_show fetches (print_line f.second (call (get_data hstmt 2) first)) in
    if is_sql_success f.code then rest else fetched

-- The first line of `Callback_LogIn`, which reads the count without a fetch.
unfoldable pub read_count : Direxec → Direxec
unfolding call
read_count x = call (get_data hstmt 1) x

unfoldable pub show_statistics : Bytes
show_statistics = codes "USE [hamang]SELECT *FROM[dbo].[Statistics] "

unfoldable pub show_account : Bytes → Bytes
show_account uid =
    codes "USE [hamang]SELECT *FROM[dbo].[Statistics] WHERE UID = '" ++ uid ++ codes "';"

-- `ShowAll` prints the table; `ShowID` executes its statement, and prints nothing.
unfoldable pub show_all : Executing → Direxec → Run
unfolding exec_callback callback_show show_statistics
show_all e x = exec_callback e show_statistics (callback_show e.fetches) x

unfoldable pub show_id : Bytes → Executing → Direxec → Run
unfolding exec_line show_account
show_id uid e x = exec_line e (show_account uid) x
