-- ===== src/Odbc/Handles.antt =====
-- The order in which ODBC's documentation allows the calls: its table of state transitions, for one
-- handle of each kind.
use hamang_server.Prelude.{
  Bool, List, Option, [], if◌then◌else◌, none, refl, some, ℕ, ◌++◌, ◌+◌, ◌∷◌, ◌≡◌,
}
use hamang_server.Text.{Bytes}
use hamang_server.Odbc.{
  Diagnostic, Direxec, OdbcCall, Retcode, alloc_connect, alloc_env, alloc_stmt, call, connect,
  disconnect, exec_direct, fetch, free_connect, free_env, free_stmt, get_data, get_diag_rec,
  get_error, hdbc, henv, hstmt, mysqlsuccess, print_line,
}
use hamang_server.Odbc.Functions.{diagnostic_line, error_out, print_diagnostics}

-- What is allocated: nothing, the environment, the connection's handle too, connected, and a statement
-- too, which was executed without rows, with rows, or is on a row.
pub data OdbcState : Type 0 where
  unallocated : OdbcState
  environment : OdbcState
  connection : OdbcState
  connected : OdbcState
  prepared : OdbcState
  finished : OdbcState
  executed : OdbcState
  on_row : OdbcState

abbrev pub after_statement : Retcode → Bool → OdbcState
after_statement code has_rows =
    if mysqlsuccess code then (if has_rows then executed else finished) else prepared

-- The state after a call, if the call is allowed with that handle.
abbrev pub after_call : OdbcCall → OdbcState → Option OdbcState
after_call alloc_env unallocated = some environment
after_call (alloc_connect henv) environment = some connection
after_call (connect hdbc code) connection =
    some (if mysqlsuccess code then connected else connection)
after_call (get_diag_rec hdbc number) connection = some connection
after_call (alloc_stmt hdbc code) connected =
    some (if mysqlsuccess code then prepared else connected)
after_call (exec_direct hstmt command code has_rows) prepared = some (after_statement code has_rows)
after_call (exec_direct hstmt command code has_rows) finished = some (after_statement code has_rows)
after_call (get_error hstmt) prepared = some prepared
after_call (fetch hstmt code) executed = some (if mysqlsuccess code then on_row else executed)
after_call (fetch hstmt code) on_row = some (if mysqlsuccess code then on_row else executed)
after_call (get_data hstmt column) on_row = some on_row
after_call (free_stmt hstmt) prepared = some connected
after_call (free_stmt hstmt) finished = some connected
after_call (free_stmt hstmt) executed = some connected
after_call (free_stmt hstmt) on_row = some connected
after_call (disconnect hdbc) connected = some connection
after_call (free_connect hdbc) connection = some environment
after_call (free_env henv) environment = some unallocated
after_call _ _ = none

abbrev pub and_call : OdbcCall → Option OdbcState → Option OdbcState
and_call c none = none
and_call c (some s) = after_call c s

-- The state after all these calls, the oldest first, if each is allowed.
abbrev pub after_calls : List OdbcCall → Option OdbcState → Option OdbcState
after_calls [] s = s
after_calls (c ∷ calls) s = after_calls calls (and_call c s)

abbrev pub state_of : Direxec → Option OdbcState
state_of x = after_calls x.calls (some unallocated)

-- The calls made so far are allowed, and have led to the state.
abbrev pub IsIn : OdbcState → Direxec → Type 0
IsIn s x = state_of x ≡ some s

after_calls-append :
    (calls : List OdbcCall) (c : OdbcCall) (s : Option OdbcState)
    → after_calls (calls ++ c ∷ []) s ≡ and_call c (after_calls calls s)
after_calls-append [] c s = refl
after_calls-append (d ∷ calls) c s = after_calls-append calls c (and_call d s)

pub state_of-call : (c : OdbcCall) (x : Direxec) → state_of (call c x) ≡ and_call c (state_of x)
unfolding call
state_of-call c x = after_calls-append x.calls c (some unallocated)

-- An allowed call leads on.
pub call-IsIn :
    (c : OdbcCall) (s t : OdbcState) (x : Direxec)
    → IsIn s x
    → after_call c s ≡ some t
    → IsIn t (call c x)
call-IsIn c s t x h e = rw (state_of-call c x, h) e

pub print_line-IsIn :
    (line : Bytes) (s : OdbcState) (x : Direxec) → IsIn s x → IsIn s (print_line line x)
unfolding print_line
print_line-IsIn line s x h = h

-- The loop over the records of a failed connection keeps the connection's handle.
pub print_diagnostics-IsIn :
    (number : ℕ) (diagnostics : List Diagnostic) (x : Direxec)
    → IsIn connection x
    → IsIn connection (print_diagnostics number diagnostics x)
unfolding print_diagnostics
print_diagnostics-IsIn number [] x h =
    call-IsIn (get_diag_rec hdbc number) connection connection x h refl
print_diagnostics-IsIn number (d ∷ diagnostics) x h =
    let asked = call (get_diag_rec hdbc number) x in
    print_diagnostics-IsIn (1 + number) diagnostics (print_line (diagnostic_line d) asked) (
      print_line-IsIn (diagnostic_line d) connection asked
        (call-IsIn (get_diag_rec hdbc number) connection connection x h refl))

-- So does `error_out` with the statement's.
pub error_out-IsIn :
    (diagnostics : List Diagnostic) (x : Direxec)
    → IsIn prepared x
    → IsIn prepared (error_out diagnostics x)
unfolding error_out print_line
error_out-IsIn [] x h = call-IsIn (get_error hstmt) prepared prepared x h refl
error_out-IsIn (d ∷ diagnostics) x h =
    error_out-IsIn diagnostics _ (call-IsIn (get_error hstmt) prepared prepared x h refl)
