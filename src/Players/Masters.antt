-- ===== src/Players/Masters.antt =====
-- A change of the master, on request and when the master leaves.
use hamang_server.Prelude.{
  Bool, List, Option, Option-cases, ap, arith, err, false, get_elem?, inl, inr, none, null_pointer,
  ok, refl, set, some, true, ℕ, ℤ, ◌==◌, ◌∙◌, ◌≡◌,
}
use hamang_server.Player.{Player}
use hamang_server.Players.{PlayerManager, find_player, is_nil, set_master_client}
use hamang_server.Players.Heap.{flagged, get_elem?-set_flag, is_nil_of_find}
use hamang_server.Players.Invariant.{HasEntries, HasMaster, IsConsistent, IsEntry}

-- The heap with the flag of one address set.
abbrev flag_at : List Player → ℕ → Bool → Player → List Player
flag_at heap p b player = set heap p (record player { is_master_client = b })

module _ (pm : PlayerManager) (v : HasEntries pm) (n₀ : ℤ) (q : ℕ)
    (f₀ : find_player n₀ pm.player_hash ≡ some q) (e₀ : pm.master_player ≡ some q) (n : ℤ) (p : ℕ)
    (f : find_player n pm.player_hash ≡ some p) where
  old : Player
  old = (v.entries n₀ q f₀).player

  demoted : List Player
  unfolding old
  demoted = flag_at pm.heap q false old

  -- The new master as it stands after the old one was demoted; they may be one.
  chosen : Player
  chosen = flagged q false p (v.entries n p f).player

  pub promoted : PlayerManager
  unfolding demoted chosen
  promoted = record pm { heap = flag_at demoted p true chosen; master_player = some p }

  at_demoted :
      (q' : ℕ) (player : Player)
      → get_elem? pm.heap q' ≡ some player
      → get_elem? demoted q' ≡ some (flagged q false q' player)
  unfolding demoted
  at_demoted q' player h = get_elem?-set_flag pm.heap q false old q' player (v.entries n₀ q f₀).at h

  set_master_client_runs : set_master_client pm n ≡ ok promoted
  unfolding set_master_client promoted
  set_master_client_runs =
      rw (e₀, set_master_client)
        (rw ((v.entries n₀ q f₀).at, f, at_demoted p (v.entries n p f).player (v.entries n p f).at))

  promoted_entry :
      (n' : ℤ) (p' : ℕ) → find_player n' pm.player_hash ≡ some p' → IsEntry promoted n' p'
  unfolding promoted
  promoted_entry n' p' f' =
      let e = v.entries n' p' f' in
      let old_flag : e.player.is_master_client ≡ (p' == q) = e.flag ∙ rw e₀ in
      record {
        player = flagged p true p' (flagged q false p' e.player);
        at =
            get_elem?-set_flag demoted p true chosen p' (flagged q false p' e.player)
              (at_demoted p (v.entries n p f).player (v.entries n p f).at)
              (at_demoted p' e.player e.at);
        number = e.number;
        flag = ground (arith, old_flag);
        socket = e.socket;
        open_socket = e.open_socket;
      }

  promoted-IsConsistent : IsConsistent promoted
  unfolding promoted
  promoted-IsConsistent = record {
    has_entries = record {
      entries = promoted_entry;
      issued = v.issued;
      next_positive = v.next_positive;
      distinct = v.distinct;
    };
    has_master = inr (n, p, f, refl);
  }

set_master_client_missing :
    (pm : PlayerManager) (n : ℤ)
    → find_player n pm.player_hash ≡ none
    → set_master_client pm n ≡ err null_pointer
unfolding set_master_client
set_master_client_missing pm n h = ground arith

abbrev pub Promoted : PlayerManager → ℤ → ℕ → Type 0
Promoted pm n p =
    (pm' : PlayerManager) × (set_master_client pm n ≡ ok pm')
    × IsConsistent pm'
    × (pm'.master_player ≡ some p)
    × (pm'.player_hash ≡ pm.player_hash)
    × (pm'.next_actor_number ≡ pm.next_actor_number)

set_master_client_found :
    (pm : PlayerManager) (n : ℤ) (p : ℕ)
    → IsConsistent pm
    → find_player n pm.player_hash ≡ some p
    → HasMaster pm
    → Promoted pm n p
unfolding promoted
set_master_client_found pm n p v f (inl e) = cc (is_nil_of_find n p pm.player_hash f, ap is_nil e)
set_master_client_found pm n p v f (inr (n₀, q, f₀, e₀)) =
    let w = v.has_entries in
    (
      promoted pm w n₀ q f₀ e₀ n p f,
      set_master_client_runs pm w n₀ q f₀ e₀ n p f,
      promoted-IsConsistent pm w n₀ q f₀ e₀ n p f,
      refl,
      refl,
      refl,
    )

-- What the call comes to, by where the number is found.
abbrev pub MasterOutcome : PlayerManager → ℤ → Option ℕ → Type 0
MasterOutcome pm n none = set_master_client pm n ≡ err null_pointer
MasterOutcome pm n (some p) = Promoted pm n p

-- In a consistent room, making a player of the table the master succeeds and leaves the room
-- consistent, with that player's address as the master pointer and the table and the next number as
-- they were; a number that is not in the table ends in a null pointer.
pub set_master_client-IsConsistent :
    (pm : PlayerManager) (n : ℤ)
    → IsConsistent pm
    → MasterOutcome pm n (find_player n pm.player_hash)
set_master_client-IsConsistent pm n v = elim (Option-cases (find_player n pm.player_hash)) [
  | inl e ↦ rw e (set_master_client_missing pm n e)
  | inr (p, e) ↦ rw e (set_master_client_found pm n p v e v.has_master)
]
