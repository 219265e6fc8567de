-- ===== src/SqlTest/Release.antt =====
-- How the program of SQLtest/SQLtest.cpp leaves ODBC behind.
use hamang_server.Prelude.{
  Bool-cases, ap, if◌then◌else◌, inl, inr, none, refl, some, sym, true, ◌&&◌, ◌∙◌, ◌≡◌,
}
use hamang_server.Text.{Bytes}
use hamang_server.Odbc.{
  Connecting, Direxec, Executing, and_then, call, exec_direct, hstmt, mysqlsuccess, returned,
}
use hamang_server.Odbc.Functions.{error_out, fetch_rows, sqldisconn}
use hamang_server.Odbc.Handles.{
  IsIn, call-IsIn, connected, error_out-IsIn, executed, prepared, state_of, unallocated,
}
use hamang_server.Odbc.Release.{
  connected_object, connected_object-IsIn, connected_object-unprepared, error_out-refused,
  execute_unprepared, fetch_rows-disconnected, fetch_rows-refused, final, is_executed,
  prepared_disconnected, sqlconn_connects, sqlconn_fails, state_of-sqldisconn,
}
use hamang_server.SqlTest.Printing.{main-printed, output}
use hamang_server.SqlTest.{main, sqlexec, statement}

-- A statement that has rows is freed with the rest, whether it fails or not.
executed_disconnected :
    (e : Executing) (cmdstr : Bytes) (x : Direxec)
    → e.has_rows ≡ true
    → IsIn prepared x
    → IsIn unallocated (final (and_then (sqlexec e cmdstr x) (λ y. returned (sqldisconn y))))
unfolding sqlexec and_then
executed_disconnected e cmdstr x rows h =
    let statement = exec_direct hstmt cmdstr e.code e.has_rows in
    let tried = record (call statement x) { rc = e.code } in
    elim (Bool-cases (mysqlsuccess e.code)) [
      | inl ok_ ↦ rw ok_ (
          fetch_rows-disconnected e.fetches tried is_executed
            (call-IsIn statement prepared executed x h (rw (ok_, rows) refl)))
      | inr bad ↦ rw bad (
          prepared_disconnected (error_out e.records tried) (
            error_out-IsIn e.records tried
              (call-IsIn statement prepared prepared x h (rw bad refl))))
    ]

-- Without a statement's handle, all that follows is refused.
executed_unprepared :
    (e : Executing) (cmdstr : Bytes) (x : Direxec)
    → IsIn connected x
    → state_of (final (and_then (sqlexec e cmdstr x) (λ y. returned (sqldisconn y)))) ≡ none
unfolding sqlexec and_then
executed_unprepared e cmdstr x h =
    let tried = record (call (exec_direct hstmt cmdstr e.code e.has_rows) x) { rc = e.code } in
    let refused = execute_unprepared e cmdstr x h in
    elim (Bool-cases (mysqlsuccess e.code)) [
      | inl succeeds ↦
          rw
            (
              succeeds,
              state_of-sqldisconn (fetch_rows e.fetches tried),
              fetch_rows-refused e.fetches tried refused,
            )
            refl
      | inr fails ↦
          rw
            (
              fails,
              state_of-sqldisconn (error_out e.records tried),
              error_out-refused e.records tried refused,
            )
            refl
    ]

-- The handles at the end of a run.
main-state_of :
    (c : Connecting) (e : Executing)
    → e.has_rows ≡ true
    → state_of (final (main c e))
      ≡ (if mysqlsuccess c.code && mysqlsuccess c.allocating then some unallocated else none)
unfolding main
main-state_of c e rows = elim (Bool-cases (mysqlsuccess c.code)) [
  | inl connects ↦ elim (Bool-cases (mysqlsuccess c.allocating)) [
    | inl allocates ↦
        rw (sqlconn_connects c connects, connects, allocates)
          (executed_disconnected e statement (connected_object c) rows
            (connected_object-IsIn c connects allocates))
    | inr unprepared ↦
        rw (sqlconn_connects c connects, connects, unprepared)
          (executed_unprepared e statement (connected_object c)
            (connected_object-unprepared c connects unprepared))
  ]
  | inr fails ↦
      sqlconn_fails c (λ x. and_then (sqlexec e statement x) (λ y. returned (sqldisconn y))) fails
      ∙ ap (λ b. if b && mysqlsuccess c.allocating then some unallocated else none) (sym fails)
]

-- If the statement, where it succeeds, has rows, a run that connects and gets a statement's handle makes
-- only calls that ODBC allows, and leaves nothing allocated, whatever becomes of the statement and of its
-- rows; a run that does not connect, or gets no statement's handle, makes a call that ODBC does not allow.
-- A run prints the first two columns of the rows before the first fetch that does not return
-- SQL_SUCCESS, or a line for each record of a failure.
pub main_lem :
    (c : Connecting) (e : Executing)
    → e.has_rows ≡ true
    → (state_of (final (main c e))
        ≡ (if mysqlsuccess c.code && mysqlsuccess c.allocating then some unallocated else none))
      × ((final (main c e)).printed ≡ output c e)
main_lem c e rows = (main-state_of c e rows, main-printed c e)
