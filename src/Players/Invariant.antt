-- ===== src/Players/Invariant.antt =====
-- The players' table, the heap and the master pointer agree, and joining and leaving keep it so.
use mathlib.Core.Path.{subst, subst₂}
use hamang_server.Prelude.{
  Bool, Bool-cases, List, Option, Option-cases, [], ap, arith, eqz, eqz_iff, eqz_refl, false,
  get_elem?, get_elem?-append, get_elem?-append_last, if◌then◌else◌, inl, inr, length,
  lt-length_of_get_elem?, negsuc, none, pos, refl, some, sym, ℕ, ℤ, ◌+◌, ◌<◌, ◌==◌, ◌∙◌, ◌∷◌, ◌≡◌,
  ◌⊎◌,
}
use hamang_server.Player.{Player}
use hamang_server.Players.{
  PlayerManager, create_player, erase_player, find_player, insert_player, is_nil, joining_player,
  new_player_manager,
}
use hamang_server.Players.Heap.{find-erase_player, find-insert_player, find-nil, is_nil_of_find}

abbrev pub is_address : ℕ → Option ℕ → Bool
is_address p none = false
is_address p (some q) = p == q

-- What the table promises of an entry: there is a player at the address, with that number and a
-- socket, and flagged as master exactly if the master pointer is the address.
pub record IsEntry (pm : PlayerManager) (n : ℤ) (p : ℕ) : Type 0 where
  pub player : Player
  pub at : get_elem? pm.heap p ≡ some player
  pub number : player.actor_number ≡ n
  pub flag : player.is_master_client ≡ is_address p pm.master_player
  pub socket : ℕ
  pub open_socket : player.handle_info ≡ some socket

-- A number that was given out.
abbrev pub IsIssued : ℤ → ℕ → Type 0
IsIssued (pos k) next = (0 < k) × (k < next)
IsIssued (negsuc k) next = ⊥

-- No number stands twice in the table.
abbrev pub HasDistinctNumbers : List (ℤ × ℕ) → Type 0
HasDistinctNumbers [] = Unit
HasDistinctNumbers ((k, p) ∷ hash) = (find_player k hash ≡ none) × HasDistinctNumbers hash

insert-HasDistinctNumbers :
    (n : ℤ) (p : ℕ) (hash : List (ℤ × ℕ))
    → find_player n hash ≡ none
    → HasDistinctNumbers hash
    → HasDistinctNumbers (insert_player n p hash)
unfolding insert_player find_player
insert-HasDistinctNumbers n p [] f h = (refl, tt)
insert-HasDistinctNumbers n p ((k, q) ∷ hash) f h = ground (
  arith,
  insert-HasDistinctNumbers n p hash,
  find-insert_player hash n p k,
  eqz_iff k n,
  eqz_iff n k,
)

pub erase-HasDistinctNumbers :
    (n : ℤ) (hash : List (ℤ × ℕ))
    → HasDistinctNumbers hash
    → HasDistinctNumbers (erase_player n hash)
unfolding erase_player
erase-HasDistinctNumbers n [] h = tt
erase-HasDistinctNumbers n ((k, q) ∷ hash) h =
    ground (arith, erase-HasDistinctNumbers n hash h.1, find-erase_player hash n k)

pub record HasEntries (pm : PlayerManager) : Type 0 where
  pub entries : (n : ℤ) (p : ℕ) → find_player n pm.player_hash ≡ some p → IsEntry pm n p
  pub issued :
      (n : ℤ) (p : ℕ) → find_player n pm.player_hash ≡ some p → IsIssued n pm.next_actor_number
  pub next_positive : 0 < pm.next_actor_number
  pub distinct : HasDistinctNumbers pm.player_hash

-- Somebody is the master, unless nobody is there.
abbrev pub HasMaster : PlayerManager → Type 0
HasMaster pm =
    (pm.player_hash ≡ [])
    ⊎ ((n : ℤ) × (p : ℕ) × (find_player n pm.player_hash ≡ some p) × (pm.master_player ≡ some p))

pub record IsConsistent (pm : PlayerManager) : Type 0 where
  pub has_entries : HasEntries pm
  pub has_master : HasMaster pm

pub new_player_manager-IsConsistent : IsConsistent new_player_manager
new_player_manager-IsConsistent = record {
  has_entries = record {
    entries = λ n p h. cc (find-nil n);
    issued = λ n p h. cc (find-nil n);
    next_positive = omega arith;
    distinct = tt;
  };
  has_master = inl refl;
}

-- The next number is not in use.
pub next_is_free :
    (pm : PlayerManager)
    → HasEntries pm
    → find_player (pos pm.next_actor_number) pm.player_hash ≡ none
next_is_free pm v = elim (Option-cases (find_player (pos pm.next_actor_number) pm.player_hash)) [
  | inl e ↦ e
  | inr (p, e) ↦ absurd (omega (arith, v.issued (pos pm.next_actor_number) p e))
]

IsIssued-suc : (n : ℤ) (next : ℕ) → IsIssued n next → IsIssued n (next + 1)
IsIssued-suc (pos k) next h = omega arith
IsIssued-suc (negsuc k) next h = h

module _ (pm : PlayerManager) (socket : ℕ) (v : IsConsistent pm) where
  pub joined_find :
      (n : ℤ)
      → find_player n (create_player pm socket).1.player_hash ≡ (
          if eqz (pos pm.next_actor_number) n
          then some (length pm.heap)
          else find_player n pm.player_hash)
  unfolding create_player
  joined_find n =
      find-insert_player pm.player_hash (pos pm.next_actor_number) (length pm.heap) n
        (next_is_free pm v.has_entries)

  -- The master pointer of a room with players is an address of before.
  master_is_old :
      is_nil pm.player_hash ≡ false → is_address (length pm.heap) pm.master_player ≡ false
  master_is_old full = elim v.has_master [
    | inl e ↦ cc (ap is_nil e)
    | inr (n, p, f, e) ↦
        rw e (ground (arith, lt-length_of_get_elem? pm.heap p _ (v.has_entries.entries n p f).at))
  ]

  new_flag :
      is_nil pm.player_hash
      ≡ is_address
          (length pm.heap)
          (if is_nil pm.player_hash then some (length pm.heap) else pm.master_player)
  new_flag = elim (Bool-cases (is_nil pm.player_hash)) [
    | inl nobody ↦ rw nobody (ground arith)
    | inr full ↦ rw full (sym (master_is_old full))
  ]

  -- An entry of before keeps its player, and the master pointer if somebody was there.
  kept_entry :
      (n : ℤ) (p : ℕ)
      → find_player n pm.player_hash ≡ some p
      → IsEntry (create_player pm socket).1 n p
  unfolding create_player
  kept_entry n p f =
      let e = v.has_entries.entries n p f in
      record {
        player = e.player;
        at = get_elem?-append pm.heap _ p e.player e.at;
        number = e.number;
        flag = e.flag ∙ rw (is_nil_of_find n p pm.player_hash f);
        socket = e.socket;
        open_socket = e.open_socket;
      }

  new_entry : IsEntry (create_player pm socket).1 (pos pm.next_actor_number) (length pm.heap)
  unfolding create_player
  new_entry = record {
    player = joining_player pm socket;
    at = get_elem?-append_last pm.heap (joining_player pm socket);
    number = refl;
    flag = new_flag;
    socket = socket;
    open_socket = refl;
  }

  joined_entry :
      (n : ℤ) (p : ℕ)
      → find_player n (create_player pm socket).1.player_hash ≡ some p
      → IsEntry (create_player pm socket).1 n p
  joined_entry n p f = elim (Bool-cases (eqz (pos pm.next_actor_number) n)) [
    | inl new ↦
        let e : length pm.heap ≡ p = ground (arith, joined_find n) in
        subst₂ (IsEntry (create_player pm socket).1) ((eqz_iff (pos pm.next_actor_number) n).0 new)
          e new_entry
    | inr old ↦ kept_entry n p (sym (rw old at (joined_find n)) ∙ f)
  ]

  joined-IsIssued :
      (n : ℤ) (p : ℕ)
      → find_player n (create_player pm socket).1.player_hash ≡ some p
      → IsIssued n (pm.next_actor_number + 1)
  joined-IsIssued n p f = elim (Bool-cases (eqz (pos pm.next_actor_number) n)) [
    | inl new ↦
        subst (λ k. IsIssued k (pm.next_actor_number + 1))
          ((eqz_iff (pos pm.next_actor_number) n).0 new)
          (omega (arith, v.has_entries.next_positive))
    | inr old ↦
        IsIssued-suc n pm.next_actor_number
          (v.has_entries.issued n p (sym (rw old at (joined_find n)) ∙ f))
  ]

  -- An old number is found where it was.
  find_old :
      (n : ℤ) (p : ℕ)
      → find_player n pm.player_hash ≡ some p
      → find_player n (create_player pm socket).1.player_hash ≡ some p
  find_old n p f = ground (
    arith,
    joined_find n,
    next_is_free pm v.has_entries,
    eqz_iff (pos pm.next_actor_number) n,
    ap (λ (k : ℤ). find_player k pm.player_hash),
  )

  joined_master : HasMaster (create_player pm socket).1
  unfolding create_player
  joined_master = elim (Bool-cases (is_nil pm.player_hash)) [
    | inl nobody ↦ inr (
      pos pm.next_actor_number,
      length pm.heap,
      joined_find (pos pm.next_actor_number) ∙ rw (eqz_refl (pos pm.next_actor_number)),
      rw nobody,
    )
    | inr full ↦ elim v.has_master [
      | inl e ↦ cc (ap is_nil e)
      | inr (n, p, f, e) ↦ inr (n, p, find_old n p f, rw full e)
    ]
  ]

  -- When a player with a socket joins a consistent room, the room stays consistent: the new number is
  -- one that no other player has, each entry of the table leads to a player on the heap with that
  -- number and a socket, and exactly the player at the master pointer is flagged as master.
  pub create_player-IsConsistent : IsConsistent (create_player pm socket).1
  unfolding create_player
  create_player-IsConsistent = record {
    has_entries = record {
      entries = joined_entry;
      issued = joined-IsIssued;
      next_positive = omega arith;
      distinct =
          insert-HasDistinctNumbers (pos pm.next_actor_number) (length pm.heap) pm.player_hash
            (next_is_free pm v.has_entries) v.has_entries.distinct;
    };
    has_master = joined_master;
  }
