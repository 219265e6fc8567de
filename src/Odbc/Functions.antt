-- ===== src/Odbc/Functions.antt =====
-- The functions of the class `direxec` of SQLtest/SQLtest.cpp that Multithread1/DBMS_NI.cpp repeats.
use hamang_server.Prelude.{List, [], if◌then◌else◌, ℕ, ◌++◌, ◌+◌, ◌∷◌}
use hamang_server.Text.{Bytes, codes}
use hamang_server.Text.Decimal.{to_string}
use hamang_server.Odbc.{
  Connecting, Diagnostic, Direxec, Fetch, Run, alloc_connect, alloc_env, alloc_stmt, call, connect,
  disconnect, ended, fetch, free_connect, free_env, free_stmt, get_data, get_diag_rec, get_error,
  hdbc, henv, hstmt, is_sql_success, mysqlsuccess, print_line, returned, sql_no_data,
}

-- The line of `sqlconn` for a record of SQLGetDiagRec; the Korean word is in code page 949.
unfoldable pub diagnostic_line : Diagnostic → Bytes
diagnostic_line d =
    codes "SQLSTATE:"
    ++ d.sqlstate
    ++ codes " , NativeError : "
    ++ to_string d.native_error
    ++ codes " , "
    ++ (193 ∷ 248 ∷ 180 ∷ 220 ∷ 193 ∷ 164 ∷ 186 ∷ 184 ∷ codes ": ")
    ++ d.message

-- The loop of `sqlconn` over the records from `number` on, until SQL_NO_DATA.
unfoldable pub print_diagnostics : ℕ → List Diagnostic → Direxec → Direxec
unfolding call print_line diagnostic_line
print_diagnostics number [] x = call (get_diag_rec hdbc number) x
print_diagnostics number (d ∷ diagnostics) x =
    print_diagnostics (1 + number) diagnostics
      (print_line (diagnostic_line d) (call (get_diag_rec hdbc number) x))

-- `sqlconn`.
unfoldable pub sqlconn : Connecting → Direxec → Run
unfolding mysqlsuccess call print_line print_diagnostics
sqlconn c x =
    let allocated = call (alloc_connect henv) (call alloc_env x) in
    let tried = record (call (connect hdbc c.code) allocated) { rc = c.code } in
    let told = print_line (codes "Fail connect") (print_diagnostics 1 c.records tried) in
    let freed = call (free_connect hdbc) (call (free_env henv) (call (free_connect henv) told)) in
    if mysqlsuccess c.code
    then returned (record (call (alloc_stmt hdbc c.allocating) tried) { rc = c.allocating })
    else ended freed

-- The line of `error_out` for a record of SQLError.
unfoldable pub error_line : Diagnostic → Bytes
error_line d =
    codes "Error: SQLSTATE="
    ++ d.sqlstate
    ++ codes ", Native error="
    ++ to_string d.native_error
    ++ codes ", msg="
    ++ d.message

-- `error_out`: a line for each record, until SQLError does not succeed.
unfoldable pub error_out : List Diagnostic → Direxec → Direxec
unfolding call print_line error_line
error_out [] x = call (get_error hstmt) x
error_out (d ∷ diagnostics) x =
    error_out diagnostics (print_line (error_line d) (call (get_error hstmt) x))

-- `sqldisconn`, and the same four calls at the end of `sqlexec`.
unfoldable pub sqldisconn : Direxec → Direxec
unfolding call
sqldisconn x =
    call (free_env henv)
      (call (free_connect hdbc) (call (disconnect hdbc) (call (free_stmt hstmt) x)))

-- The loop of `sqlexec`: it goes on while SQLFetch returns SQL_SUCCESS, and prints two columns.
unfoldable pub fetch_rows : List Fetch → Direxec → Direxec
unfolding is_sql_success call print_line
fetch_rows [] x = record (call (fetch hstmt sql_no_data) x) { rc = sql_no_data }
fetch_rows (f ∷ fetches) x =
    let fetched = record (call (fetch hstmt f.code) x) { rc = f.code } in
    let first = print_line f.first (call (get_data hstmt 1) fetched) in
    let rest = fetch_rows fetches (print_line f.second (call (get_data hstmt 2) first)) in
    if is_sql_success f.code then rest else fetched
