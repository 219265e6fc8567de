-- ===== src/Odbc/Release.antt =====
-- How the functions leave ODBC behind.
use hamang_server.Prelude.{
  Bool-cases, List, [], false, if◌then◌else◌, inl, inr, none, refl, true, ◌∷◌, ◌≡◌,
}
use hamang_server.Text.{Bytes, codes}
use hamang_server.Odbc.{
  Connecting, Diagnostic, Direxec, Executing, Fetch, OdbcCall, Retcode, Run, alloc_connect,
  alloc_env, alloc_stmt, and_then, call, connect, direxec, disconnect, ended, exec_direct, fetch,
  free_connect, free_env, free_stmt, get_data, get_error, hdbc, henv, hstmt, is_sql_success,
  mysqlsuccess, print_line, returned, sql_error, sql_invalid_handle, sql_no_data, sql_success,
  sql_success_with_info,
}
use hamang_server.Odbc.Functions.{
  error_line, error_out, fetch_rows, print_diagnostics, sqlconn, sqldisconn,
}
use hamang_server.Odbc.Handles.{
  IsIn, OdbcState, and_call, call-IsIn, connected, connection, executed, on_row, prepared,
  print_diagnostics-IsIn, print_line-IsIn, state_of, state_of-call, unallocated,
}

-- The state in which a run leaves the object.
abbrev pub final : Run → Direxec
final (returned x) = x
final (ended x) = x

-- The statement was executed.
pub data HasCursor : OdbcState → Type 0 where
  is_executed : HasCursor executed
  is_on_row : HasCursor on_row

pub state_of-sqldisconn :
    (x : Direxec)
    → state_of (sqldisconn x)
      ≡ and_call (free_env henv) (
          and_call
            (free_connect hdbc)
            (and_call (disconnect hdbc) (and_call (free_stmt hstmt) (state_of x))))
unfolding sqldisconn
state_of-sqldisconn x = simp (state_of-call)

cursor_disconnected :
    {s : OdbcState} (x : Direxec) → HasCursor s → IsIn s x → IsIn unallocated (sqldisconn x)
cursor_disconnected x is_executed h = rw (state_of-sqldisconn x, h) refl
cursor_disconnected x is_on_row h = rw (state_of-sqldisconn x, h) refl

pub prepared_disconnected : (x : Direxec) → IsIn prepared x → IsIn unallocated (sqldisconn x)
prepared_disconnected x h = rw (state_of-sqldisconn x, h) refl

pub fetched :
    {s : OdbcState} (code : Retcode) (x : Direxec)
    → HasCursor s
    → IsIn s x
    → IsIn (if mysqlsuccess code then on_row else executed) (call (fetch hstmt code) x)
fetched code x is_executed h = call-IsIn (fetch hstmt code) executed _ x h refl
fetched code x is_on_row h = call-IsIn (fetch hstmt code) on_row _ x h refl

-- A fetch that does not succeed, or succeeds with information, is the last.
fetch_step :
    (code : Retcode) (x rest : Direxec)
    → IsIn (if mysqlsuccess code then on_row else executed) x
    → (IsIn on_row x → IsIn unallocated (sqldisconn rest))
    → IsIn unallocated (sqldisconn (if is_sql_success code then rest else x))
unfolding mysqlsuccess is_sql_success
fetch_step sql_success x rest h next = next h
fetch_step sql_success_with_info x rest h next = cursor_disconnected x is_on_row h
fetch_step sql_no_data x rest h next = cursor_disconnected x is_executed h
fetch_step sql_error x rest h next = cursor_disconnected x is_executed h
fetch_step sql_invalid_handle x rest h next = cursor_disconnected x is_executed h

pub columns_read :
    (x : Direxec) (a b : Bytes)
    → IsIn on_row x
    → IsIn on_row
        (print_line b (call (get_data hstmt 2) (print_line a (call (get_data hstmt 1) x))))
columns_read x a b h =
    let one = call (get_data hstmt 1) x in
    let two = call (get_data hstmt 2) (print_line a one) in
    print_line-IsIn b on_row two (
      call-IsIn (get_data hstmt 2) on_row on_row (print_line a one)
        (print_line-IsIn a on_row one (call-IsIn (get_data hstmt 1) on_row on_row x h refl)) refl)

-- The fetches leave the statement, on its last row or behind it.
pub fetch_rows-disconnected :
    {s : OdbcState} (fetches : List Fetch) (x : Direxec)
    → HasCursor s
    → IsIn s x
    → IsIn unallocated (sqldisconn (fetch_rows fetches x))
unfolding fetch_rows mysqlsuccess
fetch_rows-disconnected [] x has h =
    cursor_disconnected (record (call (fetch hstmt sql_no_data) x) { rc = sql_no_data }) is_executed
      (fetched sql_no_data x has h)
fetch_rows-disconnected (f ∷ fetches) x has h =
    let tried = record (call (fetch hstmt f.code) x) { rc = f.code } in
    let first = print_line f.first (call (get_data hstmt 1) tried) in
    let second = print_line f.second (call (get_data hstmt 2) first) in
    fetch_step f.code tried (fetch_rows fetches second) (fetched f.code x has h) (λ on.
      fetch_rows-disconnected fetches second is_on_row (columns_read tried f.first f.second on))

-- The object behind a connection that was made.
abbrev pub connected_object : Connecting → Direxec
connected_object c =
    let allocated = call (alloc_connect henv) (call alloc_env direxec) in
    record (call (alloc_stmt hdbc c.allocating) (call (connect hdbc c.code) allocated)) {
      rc = c.allocating;
    }

pub sqlconn_connects :
    (c : Connecting)
    → mysqlsuccess c.code ≡ true
    → sqlconn c direxec ≡ returned (connected_object c)
unfolding sqlconn call
sqlconn_connects c e = rw e refl

pub connected_object-IsIn :
    (c : Connecting)
    → mysqlsuccess c.code ≡ true
    → mysqlsuccess c.allocating ≡ true
    → IsIn prepared (connected_object c)
unfolding call direxec
connected_object-IsIn c e allocates = rw (e, allocates) refl

pub connected_object-unprepared :
    (c : Connecting)
    → mysqlsuccess c.code ≡ true
    → mysqlsuccess c.allocating ≡ false
    → IsIn connected (connected_object c)
unfolding call direxec
connected_object-unprepared c e fails = rw (e, fails) refl

-- With no statement's handle, a statement is not allowed, and nothing makes good for it.
pub execute_unprepared :
    (e : Executing) (line : Bytes) (x : Direxec)
    → IsIn connected x
    → state_of (call (exec_direct hstmt line e.code e.has_rows) x) ≡ none
execute_unprepared e line x h =
    rw (state_of-call (exec_direct hstmt line e.code e.has_rows) x, h) refl

call-refused : (c : OdbcCall) (x : Direxec) → state_of x ≡ none → state_of (call c x) ≡ none
call-refused c x h = rw (state_of-call c x, h) refl

pub error_out-refused :
    (diagnostics : List Diagnostic) (x : Direxec)
    → state_of x ≡ none
    → state_of (error_out diagnostics x) ≡ none
unfolding error_out print_line
error_out-refused [] x h = call-refused (get_error hstmt) x h
error_out-refused (d ∷ diagnostics) x h =
    error_out-refused diagnostics (print_line (error_line d) (call (get_error hstmt) x))
      (call-refused (get_error hstmt) x h)

pub fetch_rows-refused :
    (fetches : List Fetch) (x : Direxec)
    → state_of x ≡ none
    → state_of (fetch_rows fetches x) ≡ none
unfolding fetch_rows print_line
fetch_rows-refused [] x h = call-refused (fetch hstmt sql_no_data) x h
fetch_rows-refused (f ∷ fetches) x h =
    let tried = record (call (fetch hstmt f.code) x) { rc = f.code } in
    let first = print_line f.first (call (get_data hstmt 1) tried) in
    let second = print_line f.second (call (get_data hstmt 2) first) in
    let last = call-refused (fetch hstmt f.code) x h in
    elim (Bool-cases (is_sql_success f.code)) [
      | inl more ↦ rw more (
          fetch_rows-refused fetches second
            (call-refused (get_data hstmt 2) first (call-refused (get_data hstmt 1) tried last)))
      | inr end ↦ rw end last
    ]

-- The handles of a connection that failed are freed in the wrong order, the environment as if it were a
-- connection first.
refused :
    (told : Direxec)
    → IsIn connection told
    → state_of (call (free_connect hdbc) (call (free_env henv) (call (free_connect henv) told)))
      ≡ none
refused told h = simp (state_of-call, h)

-- A connection that fails ends the process, behind a call that is not allowed.
pub sqlconn_fails :
    (c : Connecting) (next : Direxec → Run)
    → mysqlsuccess c.code ≡ false
    → state_of (final (and_then (sqlconn c direxec) next)) ≡ none
unfolding sqlconn and_then direxec call
sqlconn_fails c next e =
    let tried =
      record (call (connect hdbc c.code) (call (alloc_connect henv) (call alloc_env direxec))) {
        rc = c.code;
      } in
    let asked = print_diagnostics 1 c.records tried in
    rw e (
      refused (print_line (codes "Fail connect") asked) (
        print_line-IsIn (codes "Fail connect") connection asked
          (print_diagnostics-IsIn 1 c.records tried (rw e refl))))
