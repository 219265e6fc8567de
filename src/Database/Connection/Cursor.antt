-- ===== src/Database/Connection/Cursor.antt =====
-- The cursor that a statement with rows leaves open in Multithread1/DBMS_NI.cpp.
use hamang_server.Prelude.{
  Bool-cases, List, [], if◌then◌else◌, inl, inr, none, refl, true, ◌∷◌, ◌≡◌, ◌≢◌,
}
use hamang_server.Text.{Bytes}
use hamang_server.Odbc.{
  Connecting, Direxec, Executing, Fetch, Retcode, and_then, call, direxec, exec_direct, fetch,
  get_data, hstmt, is_sql_success, mysqlsuccess, print_line, returned, sql_error,
  sql_invalid_handle, sql_no_data, sql_success, sql_success_with_info,
}
use hamang_server.Odbc.Functions.{error_out}
use hamang_server.Odbc.Handles.{
  IsIn, OdbcState, call-IsIn, executed, on_row, prepared, state_of, state_of-call,
}
use hamang_server.Odbc.Release.{
  HasCursor, columns_read, connected_object, connected_object-IsIn, error_out-refused, fetched,
  final, is_executed, is_on_row, sqlconn_connects, state_of-sqldisconn,
}
use hamang_server.Database.Connection.{
  callback_show, exec_callback, exec_line, open_database, read_count, show_all, show_statistics,
}

-- The next statement is not allowed while the cursor is open, and nothing makes good for it.
execute_refused :
    {s : OdbcState} (e : Executing) (line : Bytes) (x : Direxec)
    → HasCursor s
    → IsIn s x
    → state_of (call (exec_direct hstmt line e.code e.has_rows) x) ≡ none
execute_refused e line x is_executed h =
    rw (state_of-call (exec_direct hstmt line e.code e.has_rows) x, h) refl
execute_refused e line x is_on_row h =
    rw (state_of-call (exec_direct hstmt line e.code e.has_rows) x, h) refl

exec_line-refused :
    {s : OdbcState} (e : Executing) (line : Bytes) (x : Direxec)
    → HasCursor s
    → IsIn s x
    → state_of (final (exec_line e line x)) ≡ none
unfolding exec_line
exec_line-refused e line x has h =
    let tried = record (call (exec_direct hstmt line e.code e.has_rows) x) { rc = e.code } in
    let refused = execute_refused e line x has h in
    elim (Bool-cases (mysqlsuccess e.code)) [
      | inl succeeds ↦ rw succeeds refused
      | inr fails ↦ rw fails (
          rw
            (
              state_of-sqldisconn (error_out e.records tried),
              error_out-refused e.records tried refused,
            )
            refl)
    ]

-- The calls made so far are allowed, and have left the cursor open.
abbrev IsOpen : Direxec → Type 0
IsOpen x = (s : OdbcState) × (HasCursor s × IsIn s x)

show_step :
    (code : Retcode) (x rest : Direxec)
    → IsIn (if mysqlsuccess code then on_row else executed) x
    → (IsIn on_row x → IsOpen rest)
    → IsOpen (if is_sql_success code then rest else x)
unfolding mysqlsuccess is_sql_success
show_step sql_success x rest h next = next h
show_step sql_success_with_info x rest h next = (on_row, (is_on_row, h))
show_step sql_no_data x rest h next = (executed, (is_executed, h))
show_step sql_error x rest h next = (executed, (is_executed, h))
show_step sql_invalid_handle x rest h next = (executed, (is_executed, h))

callback_show-IsOpen :
    {s : OdbcState} (fetches : List Fetch) (x : Direxec)
    → HasCursor s
    → IsIn s x
    → IsOpen (callback_show fetches x)
unfolding callback_show mysqlsuccess
callback_show-IsOpen [] x has h = (executed, (is_executed, fetched sql_no_data x has h))
callback_show-IsOpen (f ∷ fetches) x has h =
    let tried = call (fetch hstmt f.code) x in
    let first = print_line f.first (call (get_data hstmt 1) tried) in
    let second = print_line f.second (call (get_data hstmt 2) first) in
    show_step f.code tried (callback_show fetches second) (fetched f.code x has h)
      (λ on. callback_show-IsOpen fetches second is_on_row (columns_read tried f.first f.second on))

show_all-IsOpen :
    (e : Executing) (x : Direxec)
    → mysqlsuccess e.code ≡ true
    → e.has_rows ≡ true
    → IsIn prepared x
    → (y : Direxec) × ((show_all e x ≡ returned y) × IsOpen y)
unfolding show_all exec_callback
show_all-IsOpen e x succeeds rows h =
    let statement = exec_direct hstmt show_statistics e.code e.has_rows in
    let tried = record (call statement x) { rc = e.code } in
    let open_ =
      callback_show-IsOpen e.fetches tried is_executed
        (call-IsIn statement prepared executed x h (rw (succeeds, rows) refl)) in
    (callback_show e.fetches tried, (rw succeeds refl, open_))

-- The count of a log-in is read with no fetch before.
read_count-refused :
    (e : Executing) (line : Bytes) (x : Direxec)
    → mysqlsuccess e.code ≡ true
    → e.has_rows ≡ true
    → IsIn prepared x
    → state_of (final (exec_callback e line read_count x)) ≡ none
unfolding exec_callback read_count
read_count-refused e line x succeeds rows h =
    let statement = exec_direct hstmt line e.code e.has_rows in
    let tried = record (call statement x) { rc = e.code } in
    let led : IsIn executed tried =
      call-IsIn statement prepared executed x h (rw (succeeds, rows) refl) in
    rw succeeds (rw (state_of-call (get_data hstmt 1) tried, led) refl)

-- If the connection is made, the statement's handle is allocated and the first statement succeeds with
-- rows, then all calls of OpenDatabase and ShowAll are allowed by ODBC, but the cursor is left open, so
-- that whatever line sqlexec(string) executes next makes a call that ODBC does not allow; and a statement
-- with Callback_LogIn as the first one makes such a call itself.
pub show_all-statement :
    (c : Connecting) (e next : Executing) (line : Bytes)
    → mysqlsuccess c.code ≡ true
    → mysqlsuccess c.allocating ≡ true
    → mysqlsuccess e.code ≡ true
    → e.has_rows ≡ true
    → (state_of (final (and_then (open_database c direxec) (show_all e))) ≢ none)
      × (state_of (
            final
              (and_then (and_then (open_database c direxec) (show_all e)) (exec_line next line)))
          ≡ none)
      × (state_of (final (and_then (open_database c direxec) (exec_callback e line read_count)))
          ≡ none)
unfolding open_database and_then
show_all-statement c e next line connects allocates succeeds rows =
    let prepared_ = connected_object-IsIn c connects allocates in
    let (y, (shown, (s, (has, h)))) =
      show_all-IsOpen e (connected_object c) succeeds rows prepared_ in
    let run : and_then (open_database c direxec) (show_all e) ≡ returned y =
      rw (sqlconn_connects c connects) shown in
    (
      (λ bad. cc),
      rw run (exec_line-refused next line y has h),
      rw (sqlconn_connects c connects)
          (read_count-refused e line (connected_object c) succeeds rows prepared_),
    )
