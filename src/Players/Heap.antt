-- ===== src/Players/Heap.antt =====
-- Laws of the players' table and of their heap.
use hamang_server.Prelude.{
  Bool, List, [], ap, arith, eqz, eqz_iff, eqz_refl, false, get_elem?, if◌then◌else◌, none, ok,
  refl, set, some, suc, true, zero, ℕ, ℤ, ◌==◌, ◌∙◌, ◌∷◌, ◌≡◌,
}
use hamang_server.Player.{Player}
use hamang_server.Players.{erase_player, find_player, insert_player, is_nil, set_master_flag}

pub find-insert_player :
    (hash : List (ℤ × ℕ)) (n : ℤ) (p : ℕ) (n' : ℤ)
    → find_player n hash ≡ none
    → find_player n' (insert_player n p hash) ≡ (if eqz n n' then some p else find_player n' hash)
unfolding find_player insert_player
find-insert_player [] n p n' h = refl
find-insert_player ((k, q) ∷ hash) n p n' h =
    ground (arith, find-insert_player hash n p n', eqz_iff k n, eqz_iff k n', eqz_iff n n')

pub find-erase_player :
    (hash : List (ℤ × ℕ)) (n n' : ℤ)
    → find_player n' (erase_player n hash) ≡ (if eqz n n' then none else find_player n' hash)
unfolding find_player erase_player
find-erase_player [] n n' = ground arith
find-erase_player ((k, q) ∷ hash) n n' =
    ground (arith, find-erase_player hash n n', eqz_iff k n, eqz_iff k n', eqz_iff n n')

pub find-first : (n : ℤ) (p : ℕ) (hash : List (ℤ × ℕ)) → find_player n ((n, p) ∷ hash) ≡ some p
unfolding find_player
find-first n p hash = rw (eqz_refl n)

pub find-nil : (n : ℤ) → find_player n [] ≡ none
unfolding find_player
find-nil n = refl

pub find-later :
    (k : ℤ) (q : ℕ) (n : ℤ) (p : ℕ) (hash : List (ℤ × ℕ))
    → find_player k hash ≡ none
    → find_player n hash ≡ some p
    → find_player n ((k, q) ∷ hash) ≡ some p
unfolding find_player
find-later k q n p hash d f =
    ground (arith, eqz_iff k n, ap (λ (j : ℤ). find_player j hash) {x = k} {y = n})

pub is_nil_of_find :
    (n : ℤ) (p : ℕ) (hash : List (ℤ × ℕ)) → find_player n hash ≡ some p → is_nil hash ≡ false
is_nil_of_find n p [] h = cc (find-nil n)
is_nil_of_find n p (e ∷ hash) h = refl

pub set_master_flag_lem :
    (heap : List Player) (p : ℕ) (b : Bool) (player : Player)
    → get_elem? heap p ≡ some player
    → set_master_flag heap p b ≡ ok (set heap p (record player { is_master_client = b }))
unfolding set_master_flag
set_master_flag_lem heap p b player h = rw h

-- What stands at `q` after the flag at `p` was set.
abbrev pub flagged : ℕ → Bool → ℕ → Player → Player
flagged p b q player = record player {
  is_master_client = if p == q then b else player.is_master_client;
}

pub get_elem?-set_flag :
    (heap : List Player) (p : ℕ) (b : Bool) (at_p : Player) (q : ℕ) (player : Player)
    → get_elem? heap p ≡ some at_p
    → get_elem? heap q ≡ some player
    → get_elem? (set heap p (record at_p { is_master_client = b })) q ≡ some (flagged p b q player)
get_elem?-set_flag [] p b at_p q player h k = cc
get_elem?-set_flag (x ∷ heap) zero b at_p zero player h k = ground arith
get_elem?-set_flag (x ∷ heap) zero b at_p (suc q) player h k = ground arith
get_elem?-set_flag (x ∷ heap) (suc p) b at_p zero player h k = ground arith
get_elem?-set_flag (x ∷ heap) (suc p) b at_p (suc q) player h k =
    get_elem?-set_flag heap p b at_p q player h k ∙ ground arith

-- The heap with one player connected.
abbrev pub connected : ℕ → ℕ → Player → Player
connected p q player = record player { is_connected = if p == q then true else player.is_connected }

pub get_elem?-set-connected :
    (heap : List Player) (p : ℕ) (at_p : Player) (q : ℕ) (player : Player)
    → get_elem? heap p ≡ some at_p
    → get_elem? heap q ≡ some player
    → get_elem? (set heap p (record at_p { is_connected = true })) q ≡ some (connected p q player)
get_elem?-set-connected [] p at_p q player h k = cc
get_elem?-set-connected (x ∷ heap) zero at_p zero player h k = ground arith
get_elem?-set-connected (x ∷ heap) zero at_p (suc q) player h k = ground arith
get_elem?-set-connected (x ∷ heap) (suc p) at_p zero player h k = ground arith
get_elem?-set-connected (x ∷ heap) (suc p) at_p (suc q) player h k =
    get_elem?-set-connected heap p at_p q player h k ∙ ground arith
