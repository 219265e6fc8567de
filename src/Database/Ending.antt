-- ===== src/Database/Ending.antt =====
-- A request on the data base ends, and leaves the cursor among the tokens.
use hamang_server.Prelude.{
  Anything, Bool, Bool-cases, Ends, Ends-bind, Ends-of_ends, List, Option, arith, ends, ends-bind,
  inl, inr, length, none, null_pointer, ok, or_fault, or_fault-ends, refl, some, true, ℕ, ℤ, ◌<◌,
  ◌>>=◌, ◌^◌, ◌≡◌,
}
use hamang_server.Text.{Bytes}
use hamang_server.Protocol.{
  LexDbCode, LexDbTable, achievements, append_value, db_code_of, db_table_of, events, get_value,
  leaderboards, log_in, set_value, sql, statistics,
}
use hamang_server.Message.{NetworkMessage, get_next, get_next_int}
use hamang_server.Message.Within.{IsWithin, get_next-Reads, get_next_int-Reads}
use hamang_server.Player.{Network, Player, send}
use hamang_server.Players.{PlayerManager, deref, find_player}
use hamang_server.Database.{
  Odbc, Request, add_stat, decode_table_code, do_log_in, handle_request, log_in_message,
  log_in_statement, no_statement, perform, request_for, set_stat, sqlexec, statement, two_arguments,
}

decode_table_code-ends : (table : Option LexDbTable) → ends (decode_table_code table) ≡ true
unfolding decode_table_code
decode_table_code-ends none = refl
decode_table_code-ends (some achievements) = refl
decode_table_code-ends (some statistics) = refl
decode_table_code-ends (some leaderboards) = refl
decode_table_code-ends (some events) = refl

sqlexec-ends :
    (odbc : Odbc) (line : Bytes) (executed : List Bytes) → ends (sqlexec odbc line executed) ≡ true
unfolding sqlexec
sqlexec-ends odbc line executed = ground arith

pub send-ends :
    (p : Player) (message : Bytes) (is_initial : Bool) (net : Network)
    → ends (send p message is_initial net) ≡ true
unfolding send
send-ends p message is_initial net = ground arith

perform-ends :
    (odbc : Odbc) (request : Request) (actor : ℤ) (pm : PlayerManager) (executed : List Bytes)
    (net : Network)
    → ends (perform odbc request actor pm executed net) ≡ true
unfolding perform
perform-ends odbc no_statement actor pm executed net = refl
perform-ends odbc (statement line) actor pm executed net =
    ends-bind (sqlexec odbc line executed) _ (sqlexec-ends odbc line executed) λ executed'. refl
perform-ends odbc (log_in_statement line) actor pm executed net =
    ends-bind (sqlexec odbc line executed) _ (sqlexec-ends odbc line executed) λ executed'.
      ends-bind (or_fault (find_player actor pm.player_hash) null_pointer) _
        (or_fault-ends _ _ refl)
        λ address. ends-bind (deref pm.heap address) _ (or_fault-ends _ _ refl) λ player.
          ends-bind (send player log_in_message true net) _
            (send-ends player log_in_message true net) λ net'. refl

module _ (ts : List Bytes) (begin end : ℕ) (few : length ts < 2 ^ 32) where
  abbrev At : NetworkMessage → Type 0
  At = IsWithin ts begin end

  abbrev Reads {ℓ} : {T : Type ℓ} → T × NetworkMessage → Type 0
  Reads got = At got.1

  abbrev ReadsTwo : Bytes × Bytes × NetworkMessage → Type 0
  ReadsTwo got = At got.2

  two_arguments-Ends :
      (odbc : Odbc) (m : NetworkMessage) → At m → Ends ReadsTwo (two_arguments odbc m)
  unfolding two_arguments
  two_arguments-Ends odbc m v =
      Ends-bind Reads _ (get_next m) _ (get_next-Reads ts begin end few m v) λ first v₁.
        Ends-bind Reads _ (get_next first.1) _ (get_next-Reads ts begin end few first.1 v₁)
          λ second v₂. elim (Bool-cases odbc.left_argument_first) [
            | inl left ↦ rw left v₂
            | inr right ↦ rw right v₂
          ]

  named-Ends :
      (odbc : Odbc) (table : Option LexDbTable) (make : Bytes → Bytes → Bytes → Request)
      (m : NetworkMessage)
      → At m
      → Ends Reads (
          two_arguments odbc m >>= λ pair.
          decode_table_code table >>= λ name. ok (make name pair.0 pair.1, pair.2))
  named-Ends odbc table make m v =
      Ends-bind ReadsTwo Reads (two_arguments odbc m) _ (two_arguments-Ends odbc m v) λ pair w.
        Ends-bind Anything Reads (decode_table_code table) _
          (Ends-of_ends _ (decode_table_code-ends table)) λ name _. w

  single-Ends :
      (make : Bytes → Request) (m : NetworkMessage)
      → At m
      → Ends Reads (get_next m >>= λ got. ok (make got.0, got.1))
  single-Ends make m v =
      Ends-bind Reads Reads (get_next m) _ (get_next-Reads ts begin end few m v) λ got w. w

  request_for-Ends :
      (odbc : Odbc) (table : Option LexDbTable) (code : Option LexDbCode) (uid : Bytes)
      (m : NetworkMessage)
      → At m
      → Ends Reads (request_for odbc table code uid m)
  unfolding request_for
  request_for-Ends odbc table (some log_in) uid m v =
      single-Ends (λ password. log_in_statement (do_log_in uid password)) m v
  request_for-Ends odbc (some events) code uid m v =
      named-Ends odbc (some events) (λ name field value. statement (add_stat name uid field value))
        m v
  request_for-Ends odbc (some statistics) (some get_value) uid m v =
      Ends-bind Reads _ (get_next m) _ (get_next-Reads ts begin end few m v) λ field w.
        Ends-bind Anything _ (decode_table_code (some statistics)) _
          (Ends-of_ends _ (decode_table_code-ends (some statistics))) λ name _. w
  request_for-Ends odbc table (some set_value) uid m v =
      named-Ends odbc table (λ name field value. statement (set_stat name uid field value)) m v
  request_for-Ends odbc table (some append_value) uid m v =
      named-Ends odbc table (λ name field value. statement (add_stat name uid field value)) m v
  request_for-Ends odbc table (some sql) uid m v = single-Ends (λ line. statement line) m v
  request_for-Ends odbc table code uid m v = v

  pub handle_request-Ends :
      (odbc : Odbc) (m : NetworkMessage) (pm : PlayerManager) (executed : List Bytes)
      (net : Network)
      → At m
      → Ends
          (λ (after : NetworkMessage × List Bytes × Network). At after.0)
          (handle_request odbc m pm executed net)
  unfolding handle_request
  handle_request-Ends odbc m pm executed net v =
      Ends-bind Reads _ (get_next_int m) _ (get_next_int-Reads ts begin end few m v) λ table v₁.
        Ends-bind Reads _ (get_next_int table.1) _ (get_next_int-Reads ts begin end few table.1 v₁)
          λ code v₂.
            Ends-bind Reads _ (get_next code.1) _ (get_next-Reads ts begin end few code.1 v₂)
              λ uid v₃.
                Ends-bind Reads _
                  (request_for odbc (db_table_of table.0) (db_code_of code.0) uid.0 uid.1) _
                  (request_for-Ends odbc (db_table_of table.0) (db_code_of code.0) uid.0 uid.1 v₃)
                  λ request v₄.
                    Ends-bind Anything _
                      (perform odbc request.0 request.1.sent_actor_nr pm executed net) _
                      (Ends-of_ends _
                        (perform-ends odbc request.0 request.1.sent_actor_nr pm executed net))
                      λ done _. v₄
