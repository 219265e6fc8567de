-- ===== src/Server/Room/Encoding.antt =====
-- The encodings append their values one by one, and pass over the one who joins.
use hamang_server.Prelude.{
  Bool-cases, List, [], ap, arith, eqz, eqz_refl, get_elem?, get_elem?-append, inl, inr, length,
  none, ok, pos, refl, some, suc, sym, ℕ, ℤ, ◌++◌, ◌+◌, ◌∙◌, ◌∷◌, ◌≡◌,
}
use hamang_server.Text.{Bytes}
use hamang_server.Text.Decimal.{to_string}
use hamang_server.Message.{NetworkMessage, append}
use hamang_server.Message.Framing.{append_all}
use hamang_server.Properties.{HashTable, HashValue, encode_entries, encode_to_network}
use hamang_server.Player.{Player, encode_player, new_player}
use hamang_server.Players.{encode_others, find_player, insert_player}
use hamang_server.Handler.Updates.{entry_tokens}
use hamang_server.Server.Room.Reading.{player_values, players_values, table_values}

pub append_all-append :
    (m : NetworkMessage) (xs ys : List Bytes)
    → append_all m (xs ++ ys) ≡ append_all (append_all m xs) ys
append_all-append m [] ys = refl
append_all-append m (x ∷ xs) ys = append_all-append (append m x) xs ys

encode_entries-append_all :
    (entries : List (Bytes × HashValue)) (m : NetworkMessage)
    → encode_entries entries m ≡ append_all m (entry_tokens entries)
unfolding encode_entries
encode_entries-append_all [] m = refl
encode_entries-append_all ((key, v) ∷ entries) m =
    encode_entries-append_all entries (append (append (append m key) v.type_name) v.value)

pub encode_table-append_all :
    (t : HashTable) (m : NetworkMessage) → encode_to_network t m ≡ append_all m (table_values t)
unfolding encode_to_network
encode_table-append_all t m =
    encode_entries-append_all t.custom_property
      (append m (to_string (pos (length t.custom_property))))

pub encode_player-append_all :
    (p : Player) (m : NetworkMessage) → encode_player p m ≡ append_all m (player_values p)
unfolding encode_player
encode_player-append_all p m = encode_table-append_all p.custom_property _

-- The table's players, in its order.
abbrev pub Lists : List Player → List (ℤ × ℕ) → List Player → Type 0
Lists heap [] [] = Unit
Lists heap [] (p ∷ ps) = ⊥
Lists heap (e ∷ hash) [] = ⊥
Lists heap ((k, a) ∷ hash) (p ∷ ps) = (get_elem? heap a ≡ some p) × Lists heap hash ps

pub length-Lists :
    (heap : List Player) (hash : List (ℤ × ℕ)) (ps : List Player)
    → Lists heap hash ps
    → length hash ≡ length ps
length-Lists heap [] [] h = refl
length-Lists heap [] (p ∷ ps) h = elim h [ ]
length-Lists heap (e ∷ hash) [] h = elim h [ ]
length-Lists heap (e ∷ hash) (p ∷ ps) h = ap suc (length-Lists heap hash ps h.1)

-- The old players are encoded in order, the one with the joined number is passed over.
pub encode_others-joined :
    (heap : List Player) (new_player : Player) (hash : List (ℤ × ℕ)) (ps : List Player) (n : ℤ)
    (a : ℕ) (m : NetworkMessage)
    → Lists heap hash ps
    → find_player n hash ≡ none
    → get_elem? (heap ++ new_player ∷ []) a ≡ some new_player
    → encode_others (heap ++ new_player ∷ []) (insert_player n a hash) n m
      ≡ ok (append_all m (players_values ps))
unfolding encode_others insert_player find_player
encode_others-joined heap new_player [] [] n a m h none_there new = rw (new, eqz_refl n) refl
encode_others-joined heap new_player [] (p ∷ ps) n a m h none_there new = elim h [ ]
encode_others-joined heap new_player (e ∷ hash) [] n a m h none_there new = elim h [ ]
encode_others-joined heap new_player ((k, b) ∷ hash) (p ∷ ps) n a m h none_there new =
    elim (Bool-cases (eqz k n)) [
      | inl same ↦ cc (rw same at none_there)
      | inr other ↦
          let rest : find_player n hash ≡ none = rw other at none_there in
          rw (other, encode_others)
            (rw
              (get_elem?-append heap (new_player ∷ []) b p h.0, other, encode_player-append_all p m)
              (encode_others-joined heap new_player hash ps n a (append_all m (player_values p)) h.1
                  rest new
                ∙ ap (λ (x : NetworkMessage). ok x)
                    (sym (append_all-append m (player_values p) (players_values ps)))))
    ]

pub length-insert_player :
    (n : ℤ) (a : ℕ) (hash : List (ℤ × ℕ))
    → find_player n hash ≡ none
    → length (insert_player n a hash) ≡ length hash + 1
unfolding insert_player find_player
length-insert_player n a [] h = refl
length-insert_player n a ((k, b) ∷ hash) h = ground (arith, length-insert_player n a hash)
