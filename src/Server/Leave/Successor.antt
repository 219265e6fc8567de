-- ===== src/Server/Leave/Successor.antt =====
-- What follows the news of a departure: the reset of an empty room, or the choice of a new master.
use mathlib.Core.Path.{subst}
use hamang_server.Prelude.{
  Bool, InInt, List, [], ap, arith, false, if◌then◌else◌, inl, inr, negsuc, ok, pos, refl, some,
  sym, true, ℕ, ℤ, ◌++◌, ◌==◌, ◌^◌, ◌∙◌, ◌∷◌, ◌≡◌, ◌≤◌, ◌⊎◌,
}
use hamang_server.Values.{Rpc}
use hamang_server.Rpc.{remove_all, remove_player_nr}
use hamang_server.Players.{
  PlayerManager, find_player, get_player_count, is_nil, master_changed_message, reset,
}
use hamang_server.Players.Heap.{find-first, is_nil_of_find}
use hamang_server.Players.Invariant.{
  HasDistinctNumbers, HasEntries, HasMaster, IsConsistent, IsIssued, is_address,
}
use hamang_server.Players.Broadcast.{deliveries}
use hamang_server.Players.Departure.{change_master_runs, inherited, inherited-IsConsistent}
use hamang_server.State.{Env, Server}
use hamang_server.Server.{after_departure, reset_server}
use hamang_server.Server.Packets.{length-master_changed_message-le}

pub IsIssued-InInt : (n : ℤ) (next : ℕ) → next ≤ 2 ^ 31 → IsIssued n next → InInt n
IsIssued-InInt (pos k) next h i = omega arith
IsIssued-InInt (negsuc k) next h i = elim i [ ]

pub remove_all_lem : (queue : List Rpc) → remove_all queue ≡ []
unfolding remove_all
remove_all_lem [] = refl
remove_all_lem (r ∷ queue) = remove_all_lem queue

table-cases :
    (hash : List (ℤ × ℕ))
    → (hash ≡ []) ⊎ ((n : ℤ) × (p : ℕ) × (rest : List (ℤ × ℕ)) × (hash ≡ (n, p) ∷ rest))
table-cases [] = inl refl
table-cases ((n, p) ∷ rest) = inr (n, p, rest, refl)

reset-IsConsistent : (pm : PlayerManager) → pm.player_hash ≡ [] → IsConsistent (reset pm)
unfolding reset
reset-IsConsistent pm nobody =
    let no_entry : (n : ℤ) (p : ℕ) → find_player n pm.player_hash ≡ some p → ⊥ =
      λ n p f. cc (is_nil_of_find n p pm.player_hash f, ap is_nil nobody) in
    record {
      has_entries = record {
        entries = λ n p f. absurd (no_entry n p f);
        issued = λ n p f. absurd (no_entry n p f);
        next_positive = omega arith;
        distinct = subst HasDistinctNumbers (sym nobody) tt;
      };
      has_master = inl nobody;
    }

-- The room that a departure ends in: consistent, with the same table, and with a queue that has lost
-- the player's messages, or all if the room is empty; the next number has not grown.
abbrev pub IsSettled : ℤ → Server → Server → Type 0
IsSettled n t s' =
    IsConsistent s'.players
    × (s'.players.player_hash ≡ t.players.player_hash)
    × (s'.message_queue
        ≡ (if is_nil t.players.player_hash then [] else remove_player_nr t.message_queue n))
    × (s'.players.next_actor_number ≤ t.players.next_actor_number)

module _ (env : Env) (n : ℤ) (t : Server) (v : HasEntries t.players)
    (few : t.players.next_actor_number ≤ 2 ^ 31) where
  after_departure-empty :
      (master : Bool)
      → t.players.player_hash ≡ []
      → (s' : Server) × (after_departure env n master t ≡ ok s') × IsSettled n t s'
  unfolding after_departure reset_server reset
  after_departure-empty master nobody = (
    reset_server t,
    rw nobody,
    (
      reset-IsConsistent t.players nobody,
      refl,
      remove_all_lem t.message_queue ∙ rw nobody,
      omega (arith, v.next_positive),
    ),
  )

  occupied :
      (k : ℤ) (q : ℕ) (rest : List (ℤ × ℕ))
      → t.players.player_hash ≡ (k, q) ∷ rest
      → (get_player_count t.players == 0) ≡ false
  occupied k q rest first = rw first (ground arith)

  after_departure-stays :
      (k : ℤ) (q : ℕ) (rest : List (ℤ × ℕ))
      → t.players.player_hash ≡ (k, q) ∷ rest
      → HasMaster t.players
      → (s' : Server) × (after_departure env n false t ≡ ok s') × IsSettled n t s'
  unfolding after_departure
  after_departure-stays k q rest first master = (
    record t { message_queue = remove_player_nr t.message_queue n },
    rw (occupied k q rest first),
    (record { has_entries = v; has_master = master }, refl, rw first, omega arith),
  )

  after_departure-inherits :
      (k : ℤ) (q : ℕ) (rest : List (ℤ × ℕ))
      → t.players.player_hash ≡ (k, q) ∷ rest
      → ((n' : ℤ) (p' : ℕ)
          → find_player n' t.players.player_hash ≡ some p'
          → is_address p' t.players.master_player ≡ false)
      → (s' : Server) × (after_departure env n true t ≡ ok s') × IsSettled n t s'
  unfolding after_departure inherited
  after_departure-inherits k q rest first nobody =
      let found : find_player k t.players.player_hash ≡ some q = rw first (find-first k q rest) in
      let fits =
        length-master_changed_message-le (pos 0) k (omega arith)
          (IsIssued-InInt k t.players.next_actor_number few (v.issued k q found)) in
      (
        record t {
          players = inherited t.players v k q rest first nobody;
          net = record t.net {
            sent =
                t.net.sent
                ++ deliveries (inherited t.players v k q rest first nobody).heap
                    t.players.player_hash (master_changed_message (pos 0) k);
          };
          message_queue = remove_player_nr t.message_queue n;
        },
        rw (
          occupied k q rest first,
          change_master_runs t.players v k q rest first nobody t.net fits,
        ),
        (inherited-IsConsistent t.players v k q rest first nobody, refl, rw first, omega arith),
      )

  pub after_departure_lem :
      (master : Bool)
      → (master ≡ true
          → (n' : ℤ) (p' : ℕ) → find_player n' t.players.player_hash ≡ some p'
          → is_address p' t.players.master_player ≡ false)
      → (master ≡ false → HasMaster t.players)
      → (s' : Server) × (after_departure env n master t ≡ ok s') × IsSettled n t s'
  after_departure_lem true left stayed = elim (table-cases t.players.player_hash) [
    | inl nobody ↦ after_departure-empty true nobody
    | inr (k, q, rest, first) ↦ after_departure-inherits k q rest first (left refl)
  ]
  after_departure_lem false left stayed = elim (table-cases t.players.player_hash) [
    | inl nobody ↦ after_departure-empty false nobody
    | inr (k, q, rest, first) ↦ after_departure-stays k q rest first (stayed refl)
  ]
