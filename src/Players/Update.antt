-- ===== src/Players/Update.antt =====
-- A player on the heap is changed in what the room's order does not look at.
use hamang_server.Prelude.{
  ==_iff, Bool-cases, ap, arith, get_elem?, get_elem?-set_ne, get_elem?-set_self, inl, inr,
  lt-length_of_get_elem?, set, some, sym, ℕ, ◌==◌, ◌∙◌, ◌≡◌,
}
use hamang_server.Player.{Player}
use hamang_server.Players.{PlayerManager}
use hamang_server.Players.Invariant.{IsConsistent}

pub update-IsConsistent :
    (pm : PlayerManager) (address : ℕ) (old new : Player)
    → get_elem? pm.heap address ≡ some old
    → new.actor_number ≡ old.actor_number
    → new.is_master_client ≡ old.is_master_client
    → new.handle_info ≡ old.handle_info
    → IsConsistent pm
    → IsConsistent (record pm { heap = set pm.heap address new })
update-IsConsistent pm address old new here same_number same_flag same_handle v =
    let inside = lt-length_of_get_elem? pm.heap address old here in
    record {
      has_entries = record {
        entries = λ n p f.
            let e = v.has_entries.entries n p f in
            elim (Bool-cases (address == p)) [
              | inl here_too ↦
                  let at_p : get_elem? pm.heap p ≡ some old =
                    ap (get_elem? pm.heap) (sym ((==_iff address p).0 here_too)) ∙ here in
                  let one : e.player ≡ old = ground (arith, e.at) in
                  record {
                    player = new;
                    at =
                        ap (get_elem? (set pm.heap address new))
                          (sym ((==_iff address p).0 here_too))
                        ∙ get_elem?-set_self pm.heap address new inside;
                    number = same_number ∙ sym (ap (λ (q : Player). q.actor_number) one) ∙ e.number;
                    flag = same_flag ∙ sym (ap (λ (q : Player). q.is_master_client) one) ∙ e.flag;
                    socket = e.socket;
                    open_socket =
                        same_handle ∙ sym (ap (λ (q : Player). q.handle_info) one) ∙ e.open_socket;
                  }
              | inr other ↦ record {
                player = e.player;
                at = get_elem?-set_ne pm.heap new (λ same. cc ((==_iff address p).1 same)) ∙ e.at;
                number = e.number;
                flag = e.flag;
                socket = e.socket;
                open_socket = e.open_socket;
              }
            ];
        issued = v.has_entries.issued;
        next_positive = v.has_entries.next_positive;
        distinct = v.has_entries.distinct;
      };
      has_master = v.has_master;
    }
