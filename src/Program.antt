-- ===== src/Program.antt =====
-- Multithread1/main.cpp: it opens the data base, prints a table, and returns; the server behind the `return`
-- is never opened.
use hamang_server.Odbc.{Connecting, Executing, Run, and_then, direxec}
use hamang_server.Database.Connection.{open_database, show_all}

unfoldable pub main : Connecting → Executing → Run
unfolding and_then direxec open_database show_all
main c e = and_then (open_database c direxec) (show_all e)
