-- ===== src/Handler/Invariant/Requests.antt =====
-- Each handler leaves the room in order.
use mathlib.Core.Path.{subst}
use hamang_server.Prelude.{
  Bool-cases, Option, Option-cases, Returns, Returns-bind, Returns-ok, eqz, false, get_elem?, inl,
  inr, none, ok, pos, pos_part, refl, some, suc, zero, ℕ, ℤ, ◌∙◌, ◌≡◌,
}
use hamang_server.Text.{Bytes}
use hamang_server.Protocol.{MessageInfo}
use hamang_server.Message.{NetworkMessage, get_next_int, save_strings_for_broadcast}
use hamang_server.Player.{Player, send}
use hamang_server.Players.{PlayerManager, broadcast_message_all, find_player, set_master_client}
use hamang_server.Players.Invariant.{IsConsistent}
use hamang_server.Players.Masters.{MasterOutcome, set_master_client-IsConsistent}
use hamang_server.Players.Update.{update-IsConsistent}
use hamang_server.Ping.{time_synch_receive}
use hamang_server.Database.{handle_request}
use hamang_server.State.{Env, Server, player_at}
use hamang_server.Handler.{
  Handled, assert_next, assert_next_int, handle_change_master_client, handle_db_reference,
  handle_echo, handle_ping, handle_property_request, handle_receive_modified_time,
  handle_remove_rpcs, is_buffered, read_properties, set_target_property,
}

-- A room that is consistent, with the table and the next number of another.
abbrev pub InOrder : PlayerManager → PlayerManager → Type 0
InOrder pm pm' =
    IsConsistent pm'
    × (pm'.player_hash ≡ pm.player_hash)
    × (pm'.next_actor_number ≡ pm.next_actor_number)

-- If the handler returns, it leaves the room so.
abbrev pub Keeps : PlayerManager → Handled → Type 0
Keeps pm = Returns (λ (after : NetworkMessage × Server). InOrder pm after.1.players)

player_at_lem :
    (pm : PlayerManager) (n : ℤ) (found : ℕ × Player)
    → player_at pm n ≡ ok found
    → get_elem? pm.heap found.0 ≡ some found.1
unfolding player_at
player_at_lem pm n found h = elim (Option-cases (find_player n pm.player_hash)) [
  | inl e ↦ cc (rw e at h)
  | inr (p, e) ↦ elim (Option-cases (get_elem? pm.heap p)) [
    | inl e₂ ↦ cc (rw (e, e₂) at h)
    | inr (player, e₂) ↦
        let same : (p, player) ≡ found = cc (rw (e, e₂) at h) in
        subst (λ (at : ℕ × Player). get_elem? pm.heap at.0 ≡ some at.1) same e₂
  ]
]

pub set_target_property-Returns :
    (pm : PlayerManager) (target : ℤ) (key type_name value : Bytes) (s : Server)
    → InOrder pm s.players
    → Returns
        (λ (after : Server). InOrder pm after.players)
        (set_target_property target key type_name value s)
unfolding set_target_property
set_target_property-Returns pm target key type_name value s v =
    elim (Bool-cases (eqz target (pos 0))) [
      | inl room ↦ rw room v
      | inr other ↦ rw other (
          Returns-bind (λ (after : Server). InOrder pm after.players) (player_at s.players target) _
            (λ found e. (
              update-IsConsistent s.players found.0 found.1 _
                  (player_at_lem s.players target found e) refl refl refl v.0,
              v.1,
              v.2,
            )))
    ]

pub read_properties-Keeps :
    (pm : PlayerManager) (rounds : ℕ) (target : ℤ) (m : NetworkMessage) (s : Server)
    → InOrder pm s.players
    → Keeps pm (read_properties rounds target m s)
unfolding read_properties
read_properties-Keeps pm zero target m s v = v
read_properties-Keeps pm (suc rounds) target m s v = Returns-bind _ (assert_next m) _ λ k₁ e₁.
    Returns-bind _ (assert_next k₁.1) _ λ k₂ e₂. Returns-bind _ (assert_next k₂.1) _ λ k₃ e₃.
      Returns-bind _ (set_target_property target k₁.0 k₂.0 k₃.0 s) _ λ s' e₄.
        read_properties-Keeps pm rounds target k₃.1 s' (
          Returns-ok (λ (after : Server). InOrder pm after.players) _ s'
            (set_target_property-Returns pm target k₁.0 k₂.0 k₃.0 s v) e₄)

pub handle_property_request-Keeps :
    (pm : PlayerManager) (m : NetworkMessage) (s : Server)
    → InOrder pm s.players
    → Keeps pm (handle_property_request m s)
unfolding handle_property_request
handle_property_request-Keeps pm m s v = Returns-bind _ (assert_next_int m) _ λ target e₁.
    Returns-bind _ (assert_next_int target.1) _ λ num_hash e₂.
      Returns-bind _ (read_properties (pos_part num_hash.0) target.0 num_hash.1 s) _ λ after e₃.
        Returns-bind _ (save_strings_for_broadcast after.0) _ λ copied e₄.
          Returns-ok (λ (after : NetworkMessage × Server). InOrder pm after.1.players) _ after
            (read_properties-Keeps pm (pos_part num_hash.0) target.0 num_hash.1 s v) e₃

outcome-InOrder :
    (pm : PlayerManager) (n : ℤ) (found : Option ℕ) (pm' : PlayerManager)
    → MasterOutcome pm n found
    → set_master_client pm n ≡ ok pm'
    → InOrder pm pm'
outcome-InOrder pm n none pm' outcome h = cc
outcome-InOrder pm n (some p) pm' (made, runs, consistent, master, table, next) h =
    let same : made ≡ pm' = cc in subst (InOrder pm) same (consistent, table, next)

pub set_master_client-InOrder :
    (pm pm' pm'' : PlayerManager) (n : ℤ)
    → InOrder pm pm'
    → set_master_client pm' n ≡ ok pm''
    → InOrder pm pm''
set_master_client-InOrder pm pm' pm'' n v h =
    let w =
      outcome-InOrder pm' n (find_player n pm'.player_hash) pm''
        (set_master_client-IsConsistent pm' n v.0) h in
    (w.0, w.1 ∙ v.1, w.2 ∙ v.2)

pub handle_change_master_client-Keeps :
    (pm : PlayerManager) (m : NetworkMessage) (s : Server)
    → InOrder pm s.players
    → Keeps pm (handle_change_master_client m s)
unfolding handle_change_master_client
handle_change_master_client-Keeps pm m s v = Returns-bind _ (assert_next_int m) _ λ chosen e₁.
    Returns-bind _ (set_master_client s.players chosen.0) _ λ players e₂.
      Returns-bind _ (broadcast_message_all players.heap players.player_hash _ s.net) _
        λ net e₃. set_master_client-InOrder pm s.players players chosen.0 v e₂

pub handle_remove_rpcs-Keeps :
    (pm : PlayerManager) (m : NetworkMessage) (s : Server)
    → InOrder pm s.players
    → Keeps pm (handle_remove_rpcs m s)
unfolding handle_remove_rpcs
handle_remove_rpcs-Keeps pm m s v =
    Returns-bind _ (assert_next_int m) _
      λ actor e₁. Returns-bind _ (assert_next_int actor.1) _ λ view e₂. v

pub handle_echo-Keeps :
    (pm : PlayerManager) (info : Option MessageInfo) (m : NetworkMessage) (s : Server)
    → InOrder pm s.players
    → Keeps pm (handle_echo info m s)
unfolding handle_echo
handle_echo-Keeps pm info m s v = Returns-bind _ (save_strings_for_broadcast m) _ λ saved e₁.
    elim (Bool-cases (is_buffered info)) [
      | inl kept ↦ rw kept (Returns-bind _ (get_next_int saved.1) _ λ view e₂. v)
      | inr passed ↦ rw passed v
    ]

module _ (env : Env) where
  pub handle_receive_modified_time-Keeps :
      (pm : PlayerManager) (m : NetworkMessage) (s : Server)
      → InOrder pm s.players
      → Keeps pm (handle_receive_modified_time env m s)
  unfolding handle_receive_modified_time
  handle_receive_modified_time-Keeps pm m s v = Returns-bind _ (assert_next_int m) _ λ request e₁.
      Returns-bind _ (player_at s.players request.1.sent_actor_nr) _ λ target e₂.
        Returns-bind _ (time_synch_receive env.clock s.pings target.1 s.net) _ λ pings e₃. v

  pub handle_ping-Keeps :
      (pm : PlayerManager) (m : NetworkMessage) (s : Server)
      → InOrder pm s.players
      → Keeps pm (handle_ping env m s)
  unfolding handle_ping
  handle_ping-Keeps pm m s v =
      Returns-bind _ (player_at s.players m.sent_actor_nr) _
        λ target e₁. Returns-bind _ (send target.1 _ false s.net) _ λ net e₂. v

  pub handle_db_reference-Keeps :
      (pm : PlayerManager) (m : NetworkMessage) (s : Server)
      → InOrder pm s.players
      → Keeps pm (handle_db_reference env m s)
  unfolding handle_db_reference
  handle_db_reference-Keeps pm m s v =
      Returns-bind _ (handle_request env.odbc m s.players s.executed s.net) _ λ after e₁. v
