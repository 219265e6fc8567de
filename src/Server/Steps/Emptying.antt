-- ===== src/Server/Steps/Emptying.antt =====
-- Everybody leaves, one after another: the server is as new.
use mathlib.Core.Path.{subst}
use hamang_server.Prelude.{
  List, Option-cases, Result, [], arith, inl, inr, none, null_pointer, ok, or_fault, refl, some,
  sym, true, ℕ, ℤ, ◌>>=◌, ◌^◌, ◌∷◌, ◌≡◌, ◌≢◌, ◌≤◌,
}
use hamang_server.Values.{read}
use hamang_server.Buffers.{PerIoData}
use hamang_server.Players.{erase_player, find_player}
use hamang_server.Players.Invariant.{IsConsistent}
use hamang_server.Ping.{PingManager}
use hamang_server.State.{Env, Server, new_server}
use hamang_server.Server.{handle_player_disconnect}
use hamang_server.Server.Leave.{disconnect-resets, disconnect_step}
use hamang_server.Server.Receive.{echo_thread}
use hamang_server.Server.Steps.{Reaches, Reaches-IsConsistent}

-- The numbers are those of the table, each once, in some order.
abbrev pub IsOrderOf : List ℤ → List (ℤ × ℕ) → Type 0
IsOrderOf [] hash = hash ≡ []
IsOrderOf (n ∷ ns) hash = (find_player n hash ≢ none) × IsOrderOf ns (erase_player n hash)

-- One round for each number: the player's socket brings in nothing.
abbrev pub all_leave : Env → ℕ → PerIoData → List ℤ → Server → Result Server
all_leave env f io [] s = ok s
all_leave env f io (n ∷ ns) s = do
  address ← or_fault (find_player n s.players.player_hash) null_pointer
  (io', s') ← echo_thread env f address io [] true s
  all_leave env f io ns s'

-- As before anybody joined.
abbrev pub IsReset : Server → Type 0
IsReset s =
    (s.players.player_hash ≡ [])
    × (s.players.master_player ≡ none)
    × (s.players.next_actor_number ≡ 1)
    × (s.message_queue ≡ [])
    × (s.room.custom_property ≡ [])

module _ (env : Env) (f : ℕ) (io : PerIoData) (reads : io.rw_mode ≡ read) where
  leaving_round :
      (address : ℕ) (s s' : Server)
      → handle_player_disconnect env address s ≡ ok s'
      → echo_thread env f address io [] true s ≡ ok (none, s')
  unfolding echo_thread
  leaving_round address s s' h = rw (reads, h) refl

  found_player :
      (n : ℤ) (hash : List (ℤ × ℕ))
      → find_player n hash ≢ none
      → (p : ℕ) × (find_player n hash ≡ some p)
  found_player n hash h = elim (Option-cases (find_player n hash)) [
    | inl missing ↦ absurd (h missing)
    | inr found ↦ found
  ]

  consistent_leaves :
      (n : ℤ) (ns : List ℤ) (s : Server)
      → IsConsistent s.players
      → s.players.next_actor_number ≤ 2 ^ 31
      → IsOrderOf (n ∷ ns) s.players.player_hash
      → (s' : Server) × (all_leave env f io (n ∷ ns) s ≡ ok s') × IsReset s'
  consistent_leaves n [] s v few order =
      let (p, found) = found_player n s.players.player_hash order.0 in
      let (s', runs, nobody, no_master, first, no_queue, no_room, quiet) =
        disconnect-resets env s v n p found few order.1 in
      (
        s',
        rw (found, leaving_round p s s' runs) refl,
        (nobody, no_master, first, no_queue, no_room),
      )
  consistent_leaves n (n' ∷ ns) s v few order =
      let (p, found) = found_player n s.players.player_hash order.0 in
      let (s₁, runs, consistent, table, next) = disconnect_step env s v n p found few in
      let (s', more, as_new) =
        consistent_leaves n' ns s₁ consistent (omega arith)
          (subst (IsOrderOf (n' ∷ ns)) (sym table) order.1) in
      (s', rw (found, leaving_round p s s₁ runs) more, as_new)

  -- From every state that the server can come to, whatever clients joined and whatever bytes came in,
  -- it can be emptied, in every order: if the players of the table, at least one, leave one after
  -- another, each once, and no number beyond an `int` was given out, then every round returns, and
  -- after the last the server is as before anybody joined, with nobody in the table, no master, the
  -- next number 1, no message kept and no property of the room.
  pub Reaches-all_leave :
      (pings : PingManager) (n : ℤ) (ns : List ℤ) (s : Server)
      → Reaches env (new_server pings) s
      → s.players.next_actor_number ≤ 2 ^ 31
      → IsOrderOf (n ∷ ns) s.players.player_hash
      → (s' : Server) × (all_leave env f io (n ∷ ns) s ≡ ok s') × IsReset s'
  Reaches-all_leave pings n ns s reached few order =
      consistent_leaves n ns s (Reaches-IsConsistent env pings s reached) few order
