-- ===== src/Players/Departure.antt =====
-- A player leaves the table, and the first of those who stay becomes the master if the master left.
use mathlib.Core.Path.{subst}
use hamang_server.Prelude.{
  List, Option, [], ap, arith, eqz_iff, false, get_elem?, get_elem?-set_ne, get_elem?-set_self, inl,
  inr, length, lt-length_of_get_elem?, none, ok, pos, refl, set, some, sym, true, ℕ, ℤ, ◌++◌, ◌==◌,
  ◌∙◌, ◌∷◌, ◌≡◌, ◌≢◌, ◌≤◌,
}
use hamang_server.Values.{buffer_size}
use hamang_server.Player.{Network, Player}
use hamang_server.Players.{
  PlayerManager, change_master_client_on_disconnect, erase_player, find_player, get_first_player,
  is_nil, master_changed_message, remove_player,
}
use hamang_server.Players.Heap.{
  find-erase_player, find-first, flagged, get_elem?-set_flag, is_nil_of_find,
}
use hamang_server.Players.Invariant.{
  HasEntries, HasMaster, IsConsistent, IsEntry, erase-HasDistinctNumbers, is_address,
}
use hamang_server.Players.Broadcast.{HasEntries-AllPresent, broadcast_message_all_lem, deliveries}

other_is_not_master :
    (master : Option ℕ) (p p' : ℕ)
    → is_address p master ≡ true
    → p ≢ p'
    → is_address p' master ≡ false
other_is_not_master none p p' h ne = cc
other_is_not_master (some q) p p' h ne = ground arith

module _ (pm : PlayerManager) (v : HasEntries pm) (n : ℤ) (p : ℕ)
    (f : find_player n pm.player_hash ≡ some p) (handle : ℕ) where
  abbrev pub leaver : Player
  leaver = (v.entries n p f).player

  -- The table without the player. The handle that the player points to holds some other socket.
  unfoldable pub departed : PlayerManager
  departed = record pm {
    heap = set pm.heap p (record leaver { handle_info = some handle });
    player_hash = erase_player n pm.player_hash;
  }

  still_found :
      (n' : ℤ) (p' : ℕ)
      → find_player n' (erase_player n pm.player_hash) ≡ some p'
      → (n ≢ n') × (find_player n' pm.player_hash ≡ some p')
  still_found n' p' f' = ground (arith, find-erase_player pm.player_hash n n', eqz_iff n n')

  -- Two numbers have two addresses.
  other_address : (n' : ℤ) (p' : ℕ) → n ≢ n' → find_player n' pm.player_hash ≡ some p' → p ≢ p'
  other_address n' p' ne f' same =
      let e = v.entries n p f in
      let e' = v.entries n' p' f' in
      let at_p : get_elem? pm.heap p ≡ some e'.player = ap (get_elem? pm.heap) same ∙ e'.at in
      let one : e.player ≡ e'.player = ground (arith, e.at) in
      ne (sym e.number ∙ ap (λ (x : Player). x.actor_number) one ∙ e'.number)

  departed_entry :
      (n' : ℤ) (p' : ℕ)
      → find_player n' (erase_player n pm.player_hash) ≡ some p'
      → IsEntry departed n' p'
  unfolding departed
  departed_entry n' p' f' =
      let (ne, f₀) = still_found n' p' f' in
      let e = v.entries n' p' f₀ in
      record {
        player = e.player;
        at = get_elem?-set_ne pm.heap _ (other_address n' p' ne f₀) ∙ e.at;
        number = e.number;
        flag = e.flag;
        socket = e.socket;
        open_socket = e.open_socket;
      }

  pub departed-HasEntries : HasEntries departed
  unfolding departed
  departed-HasEntries = record {
    entries = departed_entry;
    issued = λ n' p' f'. v.issued n' p' (still_found n' p' f').1;
    next_positive = v.next_positive;
    distinct = erase-HasDistinctNumbers n pm.player_hash v.distinct;
  }

  -- `RemovePlayer` takes the player out, and closes the socket that the handle holds by then.
  pub remove_player-departed :
      (net : Network)
      → remove_player
          (record pm { heap = set pm.heap p (record leaver { handle_info = some handle }) })
          n
          net
        ≡ ok (departed, record net { closed = net.closed ++ handle ∷ [] })
  unfolding remove_player departed
  remove_player-departed net =
      let e = v.entries n p f in
      rw (
        f,
        get_elem?-set_self pm.heap p (record leaver { handle_info = some handle })
            (lt-length_of_get_elem? pm.heap p e.player e.at),
      )

  -- If another one is the master, that one still is.
  pub departed-HasMaster : HasMaster pm → leaver.is_master_client ≡ false → HasMaster departed
  unfolding departed
  departed-HasMaster (inl e) other = cc (is_nil_of_find n p pm.player_hash f, ap is_nil e)
  departed-HasMaster (inr (n₀, q, f₀, e₀)) other =
      let flag : leaver.is_master_client ≡ (p == q) = (v.entries n p f).flag ∙ rw e₀ in
      inr (
        n₀,
        q,
        ground (
          arith,
          find-erase_player pm.player_hash n n₀,
          eqz_iff n n₀,
          ap (λ (k : ℤ). find_player k pm.player_hash) {x = n} {y = n₀},
        ),
        e₀,
      )

  -- If the master left, nobody who stays is flagged.
  pub nobody_flagged :
      leaver.is_master_client ≡ true
      → (n' : ℤ) (p' : ℕ) → find_player n' (erase_player n pm.player_hash) ≡ some p'
      → is_address p' pm.master_player ≡ false
  nobody_flagged master n' p' f' =
      let (ne, f₀) = still_found n' p' f' in
      other_is_not_master pm.master_player p p' (sym (v.entries n p f).flag ∙ master)
        (other_address n' p' ne f₀)

-- `ChangeMasterClientOnDisconnect`: the first of those who stay becomes the master.
module _ (pm : PlayerManager) (v : HasEntries pm) (n : ℤ) (p : ℕ) (rest : List (ℤ × ℕ))
    (first : pm.player_hash ≡ (n, p) ∷ rest)
    (nobody : (n' : ℤ) (p' : ℕ)
      → find_player n' pm.player_hash ≡ some p'
      → is_address p' pm.master_player ≡ false) where
  pub found_first : find_player n pm.player_hash ≡ some p
  found_first = rw first (find-first n p rest)

  heir : IsEntry pm n p
  heir = v.entries n p found_first

  unfoldable pub inherited : PlayerManager
  unfolding heir
  inherited = record pm {
    heap = set pm.heap p (record heir.player { is_master_client = true });
    master_player = some p;
  }

  inherited_entry :
      (n' : ℤ) (p' : ℕ) → find_player n' pm.player_hash ≡ some p' → IsEntry inherited n' p'
  unfolding inherited
  inherited_entry n' p' f' =
      let e = v.entries n' p' f' in
      let unflagged : e.player.is_master_client ≡ false = e.flag ∙ nobody n' p' f' in
      record {
        player = flagged p true p' e.player;
        at = get_elem?-set_flag pm.heap p true heir.player p' e.player heir.at e.at;
        number = e.number;
        flag = ground arith;
        socket = e.socket;
        open_socket = e.open_socket;
      }

  pub inherited-IsConsistent : IsConsistent inherited
  unfolding inherited
  inherited-IsConsistent = record {
    has_entries = record {
      entries = inherited_entry;
      issued = v.issued;
      next_positive = v.next_positive;
      distinct = v.distinct;
    };
    has_master = inr (n, p, found_first, refl);
  }

  at_heir :
      get_elem? (set pm.heap p (record heir.player { is_master_client = true })) p
      ≡ some (record heir.player { is_master_client = true })
  at_heir = get_elem?-set_self pm.heap p _ (lt-length_of_get_elem? pm.heap p heir.player heir.at)

  abbrev told_of : ℤ → Network → Network
  told_of k net = record net {
    sent = net.sent ++ deliveries inherited.heap pm.player_hash (master_changed_message (pos 0) k);
  }

  -- Those who stay are told the number of the new master.
  pub change_master_runs :
      (net : Network)
      → length (master_changed_message (pos 0) n) ≤ buffer_size
      → change_master_client_on_disconnect pm net
        ≡ ok (
          inherited,
          record net {
            sent =
                net.sent
                ++ deliveries inherited.heap pm.player_hash (master_changed_message (pos 0) n);
          },
        )
  unfolding change_master_client_on_disconnect inherited
  change_master_runs net fits =
      let opens : get_first_player pm.player_hash ≡ ok p = rw first in
      let fits' : length (master_changed_message (pos 0) heir.player.actor_number) ≤ buffer_size =
        subst (λ k. length (master_changed_message (pos 0) k) ≤ buffer_size) (sym heir.number)
          fits in
      let told =
        broadcast_message_all_lem inherited.heap
          (master_changed_message (pos 0) heir.player.actor_number) fits' pm.player_hash net
          (HasEntries-AllPresent inherited inherited-IsConsistent.has_entries) in
      rw (opens, change_master_client_on_disconnect, heir.at, at_heir) (rw told)
      ∙ ap (λ (k : ℤ). ok (inherited, told_of k net)) heir.number
