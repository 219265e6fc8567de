-- ===== src/Message/Copy.antt =====
-- Which tokens a packet hands on to the other players.
use hamang_server.Prelude.{
  List, [], arith, drop, get_elem?-get_or, get_or, length, ok, refl, suc, take, zero, ℕ, ◌++◌, ◌+◌,
  ◌-◌, ◌>>=◌, ◌∙◌, ◌∷◌, ◌≡◌, ◌≤◌,
}
use hamang_server.Text.{Bytes}
use hamang_server.Protocol.{net_delim}
use hamang_server.Message.{NetworkMessage, copy_tokens, save_strings_for_broadcast}
use hamang_server.Message.Segments.{terminated}

copy_tokens_step :
    (ts : List Bytes) (rounds i : ℕ)
    → i + suc rounds ≤ length ts
    → copy_tokens ts (suc rounds) i
      ≡ (copy_tokens ts rounds (i + 1) >>= λ rest. ok (get_or ts i [] ++ net_delim ∷ rest))
unfolding copy_tokens
copy_tokens_step ts rounds i h = rw (get_elem?-get_or ts i [] (omega arith))

take-drop-suc {ℓ} :
    {A : Type ℓ} (xs : List A) (n i : ℕ) (d : A)
    → i + suc n ≤ length xs
    → take (suc n) (drop i xs) ≡ get_or xs i d ∷ take n (drop (i + 1) xs)
take-drop-suc [] n zero d h = absurd (omega arith)
take-drop-suc [] n (suc i) d h = absurd (omega arith)
take-drop-suc (x ∷ xs) n zero d h = refl
take-drop-suc (x ∷ xs) n (suc i) d h =
    rw (let e : suc i + 1 ≡ suc (i + 1) = omega arith in e) (take-drop-suc xs n i d (omega arith))

-- So many rounds copy the slice of the tokens, each token with the delimiter behind it.
pub copy_tokens_lem :
    (ts : List Bytes) (rounds i : ℕ)
    → i + rounds ≤ length ts
    → copy_tokens ts rounds i ≡ ok (terminated net_delim (take rounds (drop i ts)))
unfolding copy_tokens
copy_tokens_lem ts zero i h = refl
copy_tokens_lem ts (suc rounds) i h =
    copy_tokens_step ts rounds i h
    ∙ rw (copy_tokens_lem ts rounds (i + 1) (omega arith), take-drop-suc ts rounds i [] h)

-- If the packet's end is not before its begin and is among the tokens, then exactly the tokens from its begin to its end are
-- appended to the broadcast, and nothing else of the message changes but the count.
pub save_strings_for_broadcast_lem :
    (m : NetworkMessage)
    → m.begin_point ≤ m.end_point
    → m.end_point ≤ length m.tokens
    → save_strings_for_broadcast m ≡ (
        let rounds = m.end_point - m.begin_point in
        let packet = terminated net_delim (take rounds (drop m.begin_point m.tokens)) in
        ok (
          packet,
          record m { broadcast_message = m.broadcast_message ++ packet; count = m.count + rounds },
        ))
unfolding save_strings_for_broadcast
save_strings_for_broadcast_lem m h k =
    rw (copy_tokens_lem m.tokens (m.end_point - m.begin_point) m.begin_point (omega arith))
