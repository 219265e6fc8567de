-- ===== src/Examples/Statements.antt =====
-- Two runs of SQLtest/SQLtest.cpp's class: rows are printed, or a second statement comes.
use hamang_server.Program
use hamang_server.Prelude.{List, [], false, none, pos, refl, some, true, ◌∷◌, ◌≡◌, ◌≢◌}
use hamang_server.Text.{codes}
use hamang_server.Odbc.{
  Connecting, Executing, Fetch, alloc_connect, alloc_env, and_then, connect, direxec, free_connect,
  free_env, get_diag_rec, hdbc, henv, is_sql_success, mysqlsuccess, sql_error, sql_success,
  sql_success_with_info,
}
use hamang_server.Odbc.Handles.{state_of, unallocated}
use hamang_server.Odbc.Release.{final}
use hamang_server.SqlTest.{main}
use hamang_server.SqlTest.Release.{main_lem}
use hamang_server.Database.Connection.{
  exec_callback, exec_line, open_database, read_count, show_all,
}
use hamang_server.Database.Connection.Cursor.{show_all-statement}

abbrev connecting : Connecting
connecting = record { code = sql_success_with_info; records = []; allocating = sql_success }

abbrev failed_connecting : Connecting
failed_connecting = record {
  code = sql_error;
  records = record { sqlstate = codes "08001"; native_error = pos 17; message = codes "no" } ∷ [];
  allocating = sql_success;
}

abbrev two_rows : List Fetch
two_rows =
    record { code = sql_success; first = codes "7"; second = codes "secret" }
    ∷ record { code = sql_success; first = codes "8"; second = codes "word" }
    ∷ []

abbrev selecting : Executing
selecting = record { code = sql_success; records = []; has_rows = true; fetches = two_rows }

abbrev updating : Executing
updating = record { code = sql_success; records = []; has_rows = false; fetches = [] }

main_prints :
    (final (main connecting selecting)).printed
    ≡ codes "7" ∷ codes "secret" ∷ codes "8" ∷ codes "word" ∷ []
unfolding main
main_prints = refl

main_fails :
    (final (main failed_connecting selecting)).calls
    ≡ alloc_env
      ∷ alloc_connect henv
      ∷ connect hdbc sql_error
      ∷ get_diag_rec hdbc 1
      ∷ get_diag_rec hdbc 2
      ∷ free_connect henv
      ∷ free_env henv
      ∷ free_connect hdbc
      ∷ []
unfolding main
main_fails = refl

main_lem_example :
    (state_of (final (main connecting selecting)) ≡ some unallocated)
    × ((final (main connecting selecting)).printed
        ≡ codes "7" ∷ codes "secret" ∷ codes "8" ∷ codes "word" ∷ [])
unfolding mysqlsuccess is_sql_success
main_lem_example = main_lem connecting selecting refl

show_all-statement_example :
    (state_of (final (and_then (open_database connecting direxec) (show_all selecting))) ≢ none)
    × (state_of (
          final (
            and_then
              (and_then (open_database connecting direxec) (show_all selecting))
              (exec_line updating (codes "SELECT"))))
        ≡ none)
    × (state_of (
          final (
            and_then
              (open_database connecting direxec)
              (exec_callback selecting (codes "SELECT") read_count)))
        ≡ none)
unfolding mysqlsuccess
show_all-statement_example =
    show_all-statement connecting selecting updating (codes "SELECT") refl refl refl refl

server_prints :
    (final (Program.main connecting selecting)).printed
    ≡ codes "7" ∷ codes "secret" ∷ codes "8" ∷ codes "word" ∷ []
unfolding Program.main
server_prints = refl
