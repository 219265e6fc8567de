-- ===== src/Handler/Targets.antt =====
-- The table that a property request is for, and what the request makes of it.
use hamang_server.Prelude.{
  List, Result, [], ap, eqz, false, get_elem?, get_elem?-set_self, lt-length_of_get_elem?, ok, pos,
  refl, set, some, suc, zero, ℕ, ℤ, ◌>>=◌, ◌∙◌, ◌∷◌, ◌≡◌,
}
use hamang_server.Text.{Bytes}
use hamang_server.Properties.{HashTable, HashValue, set_property}
use hamang_server.Player.{Player}
use hamang_server.Players.{find_player}
use hamang_server.State.{Server, player_at}
use hamang_server.Handler.{set_target_property}

-- The updates of a table, in order.
abbrev pub set_all : HashTable → List (Bytes × HashValue) → HashTable
set_all t [] = t
set_all t ((key, v) ∷ entries) = set_all (set_property t key v.type_name v.value) entries

abbrev with_table : Player → HashTable → Player
with_table player t = record player { custom_property = t }

abbrev with_player : Server → ℕ → Player → Server
with_player s p player = record s {
  players = record s.players { heap = set s.players.heap p player };
}

-- What properties for a target make of the server: number 0 is the room, and any other number a player of
-- the room.
pub data Updates (entries : List (Bytes × HashValue)) (s : Server) : ℤ → Server → Type 0 where
  of_room : Updates entries s (pos 0) (record s { room = set_all s.room entries })
  of_player :
      (n : ℤ) (p : ℕ) (player : Player)
      → eqz n (pos 0) ≡ false
      → find_player n s.players.player_hash ≡ some p
      → get_elem? s.players.heap p ≡ some player
      → Updates entries s n
          (with_player s p (with_table player (set_all player.custom_property entries)))

-- The calls that set the properties, one after another.
abbrev pub set_targets : ℤ → List (Bytes × HashValue) → Server → Result Server
set_targets target [] s = ok s
set_targets target ((key, v) ∷ entries) s =
    set_target_property target key v.type_name v.value s >>= set_targets target entries

set_room :
    (entries : List (Bytes × HashValue)) (s : Server)
    → set_targets (pos 0) entries s ≡ ok (record s { room = set_all s.room entries })
unfolding set_target_property
set_room [] s = refl
set_room ((key, v) ∷ entries) s =
    set_room entries (record s { room = set_property s.room key v.type_name v.value })

set-get_elem? :
    (heap : List Player) (p : ℕ) (player : Player)
    → get_elem? heap p ≡ some player
    → set heap p player ≡ heap
set-get_elem? [] p player h = refl
set-get_elem? (q ∷ heap) zero player h =
    let same : player ≡ q = cc in ap (λ (first : Player). first ∷ heap) same
set-get_elem? (q ∷ heap) (suc p) player h =
    ap (λ (rest : List Player). q ∷ rest) (set-get_elem? heap p player h)

set-set :
    (heap : List Player) (p : ℕ) (old new : Player) → set (set heap p old) p new ≡ set heap p new
set-set [] p old new = refl
set-set (q ∷ heap) zero old new = refl
set-set (q ∷ heap) (suc p) old new = ap (λ (rest : List Player). q ∷ rest) (set-set heap p old new)

set_player :
    (entries : List (Bytes × HashValue)) (s : Server) (n : ℤ) (p : ℕ) (player : Player)
    → eqz n (pos 0) ≡ false
    → find_player n s.players.player_hash ≡ some p
    → get_elem? s.players.heap p ≡ some player
    → set_targets n entries s
      ≡ ok (with_player s p (with_table player (set_all player.custom_property entries)))
unfolding set_target_property player_at
set_player [] s n p player other found here = rw (set-get_elem? s.players.heap p player here) refl
set_player ((key, v) ∷ entries) s n p player other found here =
    let changed = with_table player (set_property player.custom_property key v.type_name v.value) in
    let there : get_elem? (set s.players.heap p changed) p ≡ some changed =
      get_elem?-set_self s.players.heap p changed
        (lt-length_of_get_elem? s.players.heap p player here) in
    rw (other, found, here)
      (set_player entries (with_player s p changed) n p changed other found there
        ∙ rw
            (set-set s.players.heap p changed
              (with_table changed (set_all changed.custom_property entries)))
            refl)

pub Updates-set_targets :
    (entries : List (Bytes × HashValue)) (s s' : Server) (n : ℤ)
    → Updates entries s n s'
    → set_targets n entries s ≡ ok s'
Updates-set_targets entries s _ _ of_room = set_room entries s
Updates-set_targets entries s _ _ (of_player n p player other found here) =
    set_player entries s n p player other found here
