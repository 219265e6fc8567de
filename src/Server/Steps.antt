-- ===== src/Server/Steps.antt =====
-- What the server goes through: clients join, and rounds of the receive loop end. The steps are taken in
-- any order; each is whole, as the mutexes make the operations that it consists of.
pub mod Emptying
use mathlib.Core.Path.{subst}
use hamang_server.Prelude.{
  Bool, Bool-cases, List, Option, Option-cases, Returns, Returns-bind, Returns-ok, [], ap, false,
  get_elem?, inl, inr, ok, pos, refl, some, sym, true, ℕ, ℤ, ◌^◌, ◌∙◌, ◌∷◌, ◌≡◌, ◌≤◌,
}
use hamang_server.Text.{Bytes}
use hamang_server.Values.{Rpc, RwMode-cases, read}
use hamang_server.Rpc.{send_batches}
use hamang_server.Message.{NetworkMessage, has_message_to_broadcast, new_message, split}
use hamang_server.Buffers.{PerIoData}
use hamang_server.Player.{Network, Player, send}
use hamang_server.Players.{PlayerManager, broadcast_message, create_player, deref, find_player}
use hamang_server.Players.Invariant.{
  IsConsistent, create_player-IsConsistent, new_player_manager-IsConsistent,
}
use hamang_server.Players.Update.{update-IsConsistent}
use hamang_server.Ping.{PingManager}
use hamang_server.State.{Env, Server, new_server}
use hamang_server.Handler.{handle_message}
use hamang_server.Handler.Invariant.{handle_message-IsConsistent}
use hamang_server.Handler.Invariant.Requests.{InOrder}
use hamang_server.Server.{
  handle_player_disconnect, handle_player_join, room_message, send_buffered_messages,
}
use hamang_server.Server.Leave.{disconnect_lem}
use hamang_server.Server.Receive.{c_string, carry, echo_thread, filled, receive_message, relay}
use hamang_server.Protocol.{net_delim}

-- A round that leaves the room in order.
deref_lem :
    (heap : List Player) (p : ℕ) (player : Player)
    → deref heap p ≡ ok player
    → get_elem? heap p ≡ some player
deref_lem heap p player h = elim (Option-cases (get_elem? heap p)) [
  | inl e ↦ cc (rw e at h)
  | inr (found, e) ↦ let same : found ≡ player = cc (rw e at h) in e ∙ ap some same
]

send_buffered_messages-Returns :
    (f : ℕ) (queue : List Rpc) (pm : PlayerManager) (address : ℕ) (net : Network)
    → IsConsistent pm
    → Returns
        (λ (after : PlayerManager × Network). IsConsistent after.0)
        (send_buffered_messages f queue pm address net)
unfolding send_buffered_messages
send_buffered_messages-Returns f queue pm address net v =
    Returns-bind _ (deref pm.heap address) _ λ player e₁.
      Returns-bind _ (send_batches _ f queue net) _ λ net' e₂.
        update-IsConsistent pm address player (record player { is_connected = true })
          (deref_lem pm.heap address player e₁) refl refl refl v

module _ (env : Env) where
  pub handle_player_join-Returns :
      (f socket : ℕ) (s : Server)
      → IsConsistent s.players
      → Returns
          (λ (after : ℕ × Server). IsConsistent after.1.players)
          (handle_player_join env f socket s)
  unfolding handle_player_join
  handle_player_join-Returns f socket s v =
      let new = create_player s.players socket in
      Returns-bind _ (deref new.1.heap new.0) _ λ player e₁.
        Returns-bind _ (room_message s new.1 player _) _ λ message e₂.
          Returns-bind _ (send player message true s.net) _ λ net₁ e₃.
            Returns-bind _ (send_buffered_messages f s.message_queue new.1 new.0 net₁) _ λ after e₄.
              Returns-bind _ (deref after.0.heap new.0) _ λ joined e₅.
                Returns-bind _ (send joined _ false after.1) _ λ net₃ e₆.
                  Returns-bind _
                    (broadcast_message after.0.heap after.0.player_hash joined.actor_number _ net₃)
                    _
                    λ net₄ e₇.
                      Returns-ok (λ (after : PlayerManager × Network). IsConsistent after.0) _ after
                        (send_buffered_messages-Returns f s.message_queue new.1 new.0 net₁
                          (create_player-IsConsistent s.players socket v))
                        e₄

  disconnect-Returns :
      (n : ℤ) (p : ℕ) (s : Server)
      → find_player n s.players.player_hash ≡ some p
      → s.players.next_actor_number ≤ 2 ^ 31
      → IsConsistent s.players
      → Returns (λ (after : Server). IsConsistent after.players) (handle_player_disconnect env p s)
  disconnect-Returns n p s f few v =
      let (s', runs, consistent, table, queue) = disconnect_lem env s v n p f few n (pos 0) in
      subst (Returns (λ (after : Server). IsConsistent after.players)) (sym runs) consistent

  relay-Returns :
      (pm : PlayerManager) (address : ℕ) (m : NetworkMessage) (s : Server)
      → InOrder pm s.players
      → Returns (λ (after : Server). InOrder pm after.players) (relay address m s)
  unfolding relay
  relay-Returns pm address m s v = elim (Bool-cases (has_message_to_broadcast m)) [
    | inl some_text ↦ rw some_text (
        Returns-bind _ (deref s.players.heap address) _ λ player e₁.
          Returns-bind _ (broadcast_message s.players.heap s.players.player_hash _ _ s.net) _
            λ net e₂. v)
    | inr no_text ↦ rw no_text v
  ]

  receive_message-Returns :
      (f address : ℕ) (io : PerIoData) (received : Bytes) (s : Server)
      → IsConsistent s.players
      → Returns
          (λ (after : PerIoData × Server). InOrder s.players after.1.players)
          (receive_message env f address io received s)
  unfolding receive_message
  receive_message-Returns f address io received s v =
      Returns-bind _ (c_string (filled io received)) _ λ message e₁.
        Returns-bind _ (split f new_message message net_delim) _ λ cut e₂.
          Returns-bind _ (handle_message env f cut s) _ λ handled e₃.
            Returns-bind _ (relay address handled.0 handled.1) _ λ s₂ e₄.
              Returns-bind _ (carry env io (filled io received) handled.0.incomplete_resume_point _)
                _
                λ io' e₅.
                  Returns-ok (λ (after : Server). InOrder s.players after.players) _ s₂
                    (relay-Returns s.players address handled.0 handled.1
                      (handle_message-IsConsistent env f cut s handled.0 handled.1 v e₃))
                    e₄

  kept_room :
      (f address : ℕ) (io : PerIoData) (received : Bytes) (s : Server) (after : PerIoData × Server)
      → IsConsistent s.players
      → receive_message env f address (record io { rw_mode = read }) received s ≡ ok after
      → InOrder s.players after.1.players
  kept_room f address io received s after v e =
      Returns-ok (λ (after : PerIoData × Server). InOrder s.players after.1.players) _ after
        (receive_message-Returns f address (record io { rw_mode = read }) received s v) e

  after_message-Returns :
      (n : ℤ) (f address : ℕ) (io : PerIoData) (received : Bytes) (is_next_call : Bool) (s : Server)
      → find_player n s.players.player_hash ≡ some address
      → s.players.next_actor_number ≤ 2 ^ 31
      → IsConsistent s.players
      → Returns
          (λ (after : Option PerIoData × Server). IsConsistent after.1.players)
          (echo_thread env f address (record io { rw_mode = read }) received is_next_call s)
  unfolding echo_thread
  after_message-Returns n f address io [] is_next_call s known few v =
      Returns-bind _ (handle_player_disconnect env address s) _ λ s' e.
        Returns-ok (λ (after : Server). IsConsistent after.players) _ s'
          (disconnect-Returns n address s known few v) e
  after_message-Returns n f address io (c ∷ bytes) true s known few v =
      Returns-bind _ (receive_message env f address (record io { rw_mode = read }) (c ∷ bytes) s) _
        λ after e. (kept_room f address io (c ∷ bytes) s after v e).0
  after_message-Returns n f address io (c ∷ bytes) false s known few v =
      Returns-bind _ (receive_message env f address (record io { rw_mode = read }) (c ∷ bytes) s) _
        λ after e.
          let w = kept_room f address io (c ∷ bytes) s after v e in
          Returns-bind _ (handle_player_disconnect env address after.1) _ λ s₂ e₂.
            Returns-ok (λ (after : Server). IsConsistent after.players) _ s₂
              (disconnect-Returns n address after.1 (ap (find_player n) w.1 ∙ known)
                (subst (λ k. k ≤ 2 ^ 31) (sym w.2) few) w.0)
              e₂

  echo_thread-Returns :
      (n : ℤ) (f address : ℕ) (io : PerIoData) (received : Bytes) (is_next_call : Bool) (s : Server)
      → find_player n s.players.player_hash ≡ some address
      → s.players.next_actor_number ≤ 2 ^ 31
      → IsConsistent s.players
      → Returns
          (λ (after : Option PerIoData × Server). IsConsistent after.1.players)
          (echo_thread env f address io received is_next_call s)
  unfolding echo_thread
  echo_thread-Returns n f address io received is_next_call s known few v =
      elim (RwMode-cases io.rw_mode) [
        | inl reads ↦
            rw reads (after_message-Returns n f address io received is_next_call s known few v)
        | inr writes ↦ rw writes v
      ]

-- A client joins, or a round of the receive loop ends for a player of the table, as long as every number
-- that was given out is an int.
pub data Step (env : Env) : Server → Server → Type 0 where
  join :
      {s : Server} (f socket address : ℕ) (s' : Server)
      → handle_player_join env f socket s ≡ ok (address, s')
      → Step env s s'
  round :
      {s : Server} (n : ℤ) (f address : ℕ) (io : PerIoData) (received : Bytes) (is_next_call : Bool)
      (io' : Option PerIoData) (s' : Server)
      → find_player n s.players.player_hash ≡ some address
      → s.players.next_actor_number ≤ 2 ^ 31
      → echo_thread env f address io received is_next_call s ≡ ok (io', s')
      → Step env s s'

pub data Reaches (env : Env) (s : Server) : Server → Type 0 where
  start : Reaches env s s
  step : {t u : Server} → Reaches env s t → Step env t u → Reaches env s u

Step-IsConsistent :
    (env : Env) (s s' : Server) → IsConsistent s.players → Step env s s' → IsConsistent s'.players
Step-IsConsistent env s s' v (join f socket address _ h) =
    Returns-ok (λ (after : ℕ × Server). IsConsistent after.1.players) _ (address, s')
      (handle_player_join-Returns env f socket s v) h
Step-IsConsistent env s s' v (round n f address io received is_next_call io' _ known few h) =
    Returns-ok (λ (after : Option PerIoData × Server). IsConsistent after.1.players) _ (io', s')
      (echo_thread-Returns env n f address io received is_next_call s known few v) h

-- From a server that nobody has joined, whatever clients join and whatever bytes come in or calls fail,
-- in any order, every state that is reached has a consistent room: each entry of the table leads to a
-- player on the heap with that number and a socket, exactly the player at the master pointer is
-- flagged as master, and somebody is, unless nobody is there. Numbers beyond an int are left out.
pub Reaches-IsConsistent :
    (env : Env) (pings : PingManager) (t : Server)
    → Reaches env (new_server pings) t
    → IsConsistent t.players
Reaches-IsConsistent env pings t start = new_player_manager-IsConsistent
Reaches-IsConsistent env pings t (step {t = s} before next) =
    Step-IsConsistent env s t (Reaches-IsConsistent env pings s before) next
