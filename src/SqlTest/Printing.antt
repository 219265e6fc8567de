-- ===== src/SqlTest/Printing.antt =====
-- What the functions of SQLtest/SQLtest.cpp print.
use hamang_server.Prelude.{
  Bool-cases, List, [], ap, append-nil, append_assoc, false, if◌then◌else◌, inl, inr, map, refl,
  sym, ℕ, ◌++◌, ◌+◌, ◌∙◌, ◌∷◌, ◌≡◌,
}
use hamang_server.Text.{Bytes, codes}
use hamang_server.Odbc.{
  Connecting, Diagnostic, Direxec, Executing, Fetch, Run, alloc_connect, alloc_env, and_then, call,
  connect, direxec, exec_direct, fetch, get_data, get_diag_rec, get_error, hdbc, henv, hstmt,
  is_sql_success, mysqlsuccess, print_line, returned,
}
use hamang_server.Odbc.Functions.{
  diagnostic_line, error_line, error_out, fetch_rows, print_diagnostics, sqlconn, sqldisconn,
}
use hamang_server.Odbc.Release.{connected_object, final, sqlconn_connects}
use hamang_server.SqlTest.{main, sqlexec, statement}

print_diagnostics-printed :
    (number : ℕ) (diagnostics : List Diagnostic) (x : Direxec)
    → (print_diagnostics number diagnostics x).printed
      ≡ x.printed ++ map diagnostic_line diagnostics
unfolding print_diagnostics print_line call
print_diagnostics-printed number [] x = rw (append-nil x.printed) refl
print_diagnostics-printed number (d ∷ diagnostics) x =
    print_diagnostics-printed (1 + number) diagnostics
      (print_line (diagnostic_line d) (call (get_diag_rec hdbc number) x))
    ∙ rw (append_assoc x.printed (diagnostic_line d ∷ []) (map diagnostic_line diagnostics)) refl

error_out-printed :
    (diagnostics : List Diagnostic) (x : Direxec)
    → (error_out diagnostics x).printed ≡ x.printed ++ map error_line diagnostics
unfolding error_out print_line call
error_out-printed [] x = rw (append-nil x.printed) refl
error_out-printed (d ∷ diagnostics) x =
    error_out-printed diagnostics (print_line (error_line d) (call (get_error hstmt) x))
    ∙ rw (append_assoc x.printed (error_line d ∷ []) (map error_line diagnostics)) refl

-- The first two columns of the rows before the first fetch that does not return SQL_SUCCESS.
abbrev pub columns_of : List Fetch → List Bytes
columns_of [] = []
columns_of (f ∷ fetches) =
    if is_sql_success f.code then f.first ∷ f.second ∷ columns_of fetches else []

fetch_rows-printed :
    (fetches : List Fetch) (x : Direxec)
    → (fetch_rows fetches x).printed ≡ x.printed ++ columns_of fetches
unfolding fetch_rows print_line call
fetch_rows-printed [] x = rw (append-nil x.printed) refl
fetch_rows-printed (f ∷ fetches) x =
    let tried = record (call (fetch hstmt f.code) x) { rc = f.code } in
    let first = print_line f.first (call (get_data hstmt 1) tried) in
    let second = print_line f.second (call (get_data hstmt 2) first) in
    elim (Bool-cases (is_sql_success f.code)) [
      | inl more ↦ rw more (
          fetch_rows-printed fetches second
          ∙ rw
              (
                append_assoc (x.printed ++ f.first ∷ []) (f.second ∷ []) (columns_of fetches),
                append_assoc x.printed (f.first ∷ []) (f.second ∷ columns_of fetches),
              )
              refl)
      | inr last ↦ rw last (sym (append-nil x.printed))
    ]

-- What a run is to print: the columns, the records of a statement that fails, or those of a connection
-- that fails.
abbrev pub output : Connecting → Executing → List Bytes
output c e =
    if mysqlsuccess c.code
    then (if mysqlsuccess e.code then columns_of e.fetches else map error_line e.records)
    else map diagnostic_line c.records ++ codes "Fail connect" ∷ []

sqlexec-printed :
    (e : Executing) (cmdstr : Bytes) (x : Direxec)
    → (final (and_then (sqlexec e cmdstr x) (λ y. returned (sqldisconn y)))).printed
      ≡ x.printed
        ++ (if mysqlsuccess e.code then columns_of e.fetches else map error_line e.records)
unfolding sqlexec and_then sqldisconn call
sqlexec-printed e cmdstr x =
    let tried = record (call (exec_direct hstmt cmdstr e.code e.has_rows) x) { rc = e.code } in
    elim (Bool-cases (mysqlsuccess e.code)) [
      | inl succeeds ↦ rw succeeds (fetch_rows-printed e.fetches tried)
      | inr fails ↦ rw fails (error_out-printed e.records tried)
    ]

sqlconn-printed :
    (c : Connecting) (next : Direxec → Run)
    → mysqlsuccess c.code ≡ false
    → (final (and_then (sqlconn c direxec) next)).printed
      ≡ map diagnostic_line c.records ++ codes "Fail connect" ∷ []
unfolding sqlconn and_then direxec call print_line
sqlconn-printed c next fails =
    let tried =
      record (call (connect hdbc c.code) (call (alloc_connect henv) (call alloc_env direxec))) {
        rc = c.code;
      } in
    rw fails (
      ap (λ (printed : List Bytes). printed ++ codes "Fail connect" ∷ [])
        (print_diagnostics-printed 1 c.records tried))

-- Nothing is printed while the connection is made.
connected-printed :
    (c : Connecting) (lines : List Bytes) → (connected_object c).printed ++ lines ≡ lines
unfolding call direxec
connected-printed c lines = refl

pub main-printed : (c : Connecting) (e : Executing) → (final (main c e)).printed ≡ output c e
unfolding main
main-printed c e = elim (Bool-cases (mysqlsuccess c.code)) [
  | inl connects ↦
      rw (sqlconn_connects c connects, connects)
        (sqlexec-printed e statement (connected_object c) ∙ connected-printed c _)
  | inr fails ↦
      sqlconn-printed c (λ x. and_then (sqlexec e statement x) (λ y. returned (sqldisconn y))) fails
      ∙ ap
          (λ b.
            if b
            then (if mysqlsuccess e.code then columns_of e.fetches else map error_line e.records)
            else map diagnostic_line c.records ++ codes "Fail connect" ∷ [])
          (sym fails)
]
