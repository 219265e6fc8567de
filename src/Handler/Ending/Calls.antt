-- ===== src/Handler/Ending/Calls.antt =====
-- The calls that the handlers make end: none of them loops, whatever it is given.
use hamang_server.Prelude.{
  Bool, Bool-cases, List, Option, [], ends, ends-bind, eqz, false, inl, inr, none, null_pointer,
  or_fault, or_fault-ends, pos, refl, some, true, ℕ, ℤ, ◌∷◌, ◌≡◌,
}
use hamang_server.Text.{Bytes}
use hamang_server.Player.{Network, Player, send}
use hamang_server.Players.{
  PlayerManager, broadcast_message_all, demote, deref, find_player, set_master_client,
  set_master_flag,
}
use hamang_server.Ping.{PingManager, time_synch_receive}
use hamang_server.State.{Server, player_at}
use hamang_server.Handler.{set_target_property}
use hamang_server.Database.Ending.{send-ends}

set_master_flag-ends :
    (heap : List Player) (p : ℕ) (b : Bool) → ends (set_master_flag heap p b) ≡ true
unfolding set_master_flag
set_master_flag-ends heap p b = ends-bind (deref heap p) _ (or_fault-ends _ _ refl) λ player. refl

demote-ends : (heap : List Player) (master : Option ℕ) → ends (demote heap master) ≡ true
demote-ends heap none = refl
demote-ends heap (some p) = set_master_flag-ends heap p false

pub set_master_client-ends : (pm : PlayerManager) (n : ℤ) → ends (set_master_client pm n) ≡ true
unfolding set_master_client
set_master_client-ends pm n =
    ends-bind (demote pm.heap pm.master_player) _ (demote-ends pm.heap pm.master_player) λ demoted.
      ends-bind (or_fault (find_player n pm.player_hash) null_pointer) _ (or_fault-ends _ _ refl)
        λ address.
          ends-bind (set_master_flag demoted address true) _
            (set_master_flag-ends demoted address true) λ promoted. refl

pub broadcast_message_all-ends :
    (heap : List Player) (hash : List (ℤ × ℕ)) (message : Bytes) (net : Network)
    → ends (broadcast_message_all heap hash message net) ≡ true
unfolding broadcast_message_all
broadcast_message_all-ends heap [] message net = refl
broadcast_message_all-ends heap ((k, p) ∷ hash) message net =
    ends-bind (deref heap p) _ (or_fault-ends _ _ refl) λ player.
      ends-bind (send player message false net) _ (send-ends player message false net)
        λ net'. broadcast_message_all-ends heap hash message net'

pub player_at-ends : (pm : PlayerManager) (n : ℤ) → ends (player_at pm n) ≡ true
unfolding player_at
player_at-ends pm n =
    ends-bind (or_fault (find_player n pm.player_hash) null_pointer) _ (or_fault-ends _ _ refl)
      λ address. ends-bind (deref pm.heap address) _ (or_fault-ends _ _ refl) λ player. refl

pub set_target_property-ends :
    (target : ℤ) (key type_name value : Bytes) (s : Server)
    → ends (set_target_property target key type_name value s) ≡ true
unfolding set_target_property
set_target_property-ends target key type_name value s = elim (Bool-cases (eqz target (pos 0))) [
  | inl room ↦ rw room refl
  | inr other ↦
      rw other
        (ends-bind (player_at s.players target) _ (player_at-ends s.players target) λ found. refl)
]

pub time_synch_receive-ends :
    (clock : ℕ → ℤ) (pings : PingManager) (player : Player) (net : Network)
    → ends (time_synch_receive clock pings player net) ≡ true
unfolding time_synch_receive
time_synch_receive-ends clock pings player net =
    ends-bind (send player _ true net) _ (send-ends player _ true net) λ net'. refl
