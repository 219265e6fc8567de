-- ===== src/SqlTest.antt =====
-- The rest of SQLtest/SQLtest.cpp: a statement is executed, and its first two columns are printed.
pub mod Printing
pub mod Release
use hamang_server.Prelude.{if◌then◌else◌, ◌++◌}
use hamang_server.Text.{Bytes, codes}
use hamang_server.Odbc.{
  Connecting, Direxec, Executing, Run, and_then, call, direxec, ended, exec_direct, hstmt,
  mysqlsuccess, returned,
}
use hamang_server.Odbc.Functions.{error_out, fetch_rows, sqlconn, sqldisconn}

-- `sqlexec`.
unfoldable pub sqlexec : Executing → Bytes → Direxec → Run
unfolding mysqlsuccess call error_out sqldisconn fetch_rows
sqlexec e cmdstr x =
    let executed = record (call (exec_direct hstmt cmdstr e.code e.has_rows) x) { rc = e.code } in
    if mysqlsuccess e.code
    then returned (fetch_rows e.fetches executed)
    else ended (sqldisconn (error_out e.records executed))

unfoldable pub statement : Bytes
statement =
    codes "USE [hamang]"
    ++ codes "SELECT [ID], [Password], [Kills]"
    ++ codes "FROM[dbo].[Statistics]"

-- `main`.
unfoldable pub main : Connecting → Executing → Run
unfolding and_then direxec sqlconn sqlexec sqldisconn statement
main c e =
    and_then (sqlconn c direxec) λ x. and_then (sqlexec e statement x) λ y. returned (sqldisconn y)
