-- ===== src/Handler/Updates.antt =====
-- A request that sets properties of the room or of a player: which tokens are read, what the table
-- becomes, and what is handed on.
use native.Mathlib.Nat.{add-zero}
use hamang_server.Prelude.{
  List, [], ap, arith, bind_ap, bind_assoc, drop, drop-drop, get_elem?, get_elem?-drop, length,
  lt-length_of_get_elem?, ok, pos, some, suc, sym, take, ℕ, ℤ, ◌++◌, ◌+◌, ◌-◌, ◌<◌, ◌>>=◌, ◌^◌, ◌∙◌,
  ◌∷◌, ◌≡◌, ◌≤◌,
}
use hamang_server.Text.{Bytes}
use hamang_server.Text.Decimal.{stoi}
use hamang_server.Properties.{HashValue}
use hamang_server.Message.{NetworkMessage}
use hamang_server.Message.Segments.{terminated}
use hamang_server.Message.Copy.{save_strings_for_broadcast_lem}
use hamang_server.Protocol.{net_delim}
use hamang_server.Message.Cursor.{get_next_at, get_next_int_at, has_next_lem}
use hamang_server.State.{Server}
use hamang_server.Handler.Targets.{Updates, Updates-set_targets, set_targets}
use hamang_server.Handler.{
  assert_next, assert_next_int, handle_property_request, read_properties, set_target_property,
}

-- The tokens of properties, three for each.
abbrev pub entry_tokens : List (Bytes × HashValue) → List Bytes
entry_tokens [] = []
entry_tokens ((key, v) ∷ entries) = key ∷ v.type_name ∷ v.value ∷ entry_tokens entries

assert_next_at :
    (m : NetworkMessage) (token : Bytes)
    → get_elem? m.tokens m.iterator ≡ some token
    → length m.tokens < 2 ^ 32
    → assert_next m ≡ ok (token, record m { iterator = m.iterator + 1 })
unfolding assert_next
assert_next_at m token here few =
    let inside = lt-length_of_get_elem? m.tokens m.iterator token here in
    rw (has_next_lem m inside, get_next_at m token here (omega (arith, inside)))

pub assert_next_int_at :
    (m : NetworkMessage) (token : Bytes) (n : ℤ)
    → get_elem? m.tokens m.iterator ≡ some token
    → stoi token ≡ ok n
    → length m.tokens < 2 ^ 32
    → assert_next_int m ≡ ok (n, record m { iterator = m.iterator + 1 })
unfolding assert_next_int
assert_next_int_at m token n here reads few =
    let inside = lt-length_of_get_elem? m.tokens m.iterator token here in
    rw (has_next_lem m inside, get_next_int_at m token n here reads (omega (arith, inside)))

-- The token so many places behind the cursor.
pub token_ahead :
    (m : NetworkMessage) (ahead : List Bytes)
    → drop m.iterator m.tokens ≡ ahead
    → (k : ℕ) → get_elem? m.tokens (m.iterator + k) ≡ get_elem? ahead k
token_ahead m ahead h k =
    get_elem?-drop m.tokens m.iterator k ∙ ap (λ (l : List Bytes). get_elem? l k) h

read_properties_lem :
    (target : ℤ) (entries : List (Bytes × HashValue)) (rest : List Bytes) (m : NetworkMessage)
    (s : Server)
    → drop m.iterator m.tokens ≡ entry_tokens entries ++ rest
    → length m.tokens < 2 ^ 32
    → read_properties (length entries) target m s
      ≡ set_targets target entries s
        >>= (λ s'. ok (record m { iterator = m.iterator + length (entry_tokens entries) }, s'))
unfolding read_properties
read_properties_lem target [] rest m s h few = rw (add-zero m.iterator)
read_properties_lem target ((key, v) ∷ entries) rest m s h few =
    let at = token_ahead m (key ∷ v.type_name ∷ v.value ∷ (entry_tokens entries ++ rest)) h in
    let m₁ = record m { iterator = m.iterator + 1 } in
    let m₂ = record m { iterator = m.iterator + 1 + 1 } in
    let m₃ = record m { iterator = m.iterator + 1 + 1 + 1 } in
    let n = length (entry_tokens entries) in
    let at_0 : get_elem? m.tokens m.iterator ≡ some key =
      ap (get_elem? m.tokens) (omega arith) ∙ at 0 in
    let at_1 : get_elem? m.tokens (m.iterator + 1) ≡ some v.type_name = at 1 in
    let at_2 : get_elem? m.tokens (m.iterator + 1 + 1) ≡ some v.value =
      ap (get_elem? m.tokens) (omega arith) ∙ at 2 in
    let behind : drop (m.iterator + 1 + 1 + 1) m.tokens ≡ entry_tokens entries ++ rest =
      ap (λ (k : ℕ). drop k m.tokens) (omega arith)
      ∙ drop-drop m.iterator 3 m.tokens
      ∙ ap (drop 3) h in
    let three_on : m.iterator + suc (suc (suc n)) ≡ m.iterator + 1 + 1 + 1 + n = omega arith in
    let first = set_target_property target key v.type_name v.value s in
    rw
      (
        three_on,
        assert_next_at m key at_0 few,
        assert_next_at m₁ v.type_name at_1 few,
        assert_next_at m₂ v.value at_2 few,
      )
      (bind_ap first _ _ (λ s'. read_properties_lem target entries rest m₃ s' behind few)
        ∙ sym (
            bind_assoc first (set_targets target entries)
              (λ s'. ok (record m { iterator = m.iterator + 1 + 1 + 1 + n }, s'))))

-- If the cursor stands on the number of a target, a count and so many properties of three tokens each, the
-- packet lies among the tokens, and the target is the room or a player in it, then the handler updates
-- the target's table with the properties in their order and changes nothing else of the server, leaves the
-- cursor behind the last property, and appends the packet's tokens to the broadcast.
pub handle_property_request_lem :
    (n : ℤ) (entries : List (Bytes × HashValue)) (rest : List Bytes) (target num : Bytes)
    (m : NetworkMessage) (s s' : Server)
    → Updates entries s n s'
    → drop m.iterator m.tokens ≡ target ∷ num ∷ (entry_tokens entries ++ rest)
    → stoi target ≡ ok n
    → stoi num ≡ ok (pos (length entries))
    → length m.tokens < 2 ^ 32
    → m.begin_point ≤ m.end_point
    → m.end_point ≤ length m.tokens
    → handle_property_request m s ≡ (
        let rounds = m.end_point - m.begin_point in
        let packet = terminated net_delim (take rounds (drop m.begin_point m.tokens)) in
        ok (
          record m {
            iterator = m.iterator + 2 + length (entry_tokens entries);
            broadcast_message = m.broadcast_message ++ packet;
            count = m.count + rounds;
          },
          s',
        ))
unfolding handle_property_request
handle_property_request_lem n entries rest target num m s s' updates h is_target is_num few k₀ k₁ =
    let at = token_ahead m (target ∷ num ∷ (entry_tokens entries ++ rest)) h in
    let m₁ = record m { iterator = m.iterator + 1 } in
    let m₂ = record m { iterator = m.iterator + 1 + 1 } in
    let len = length (entry_tokens entries) in
    let m₃ = record m { iterator = m.iterator + 1 + 1 + len } in
    let two_on : m.iterator + 2 + len ≡ m.iterator + 1 + 1 + len = omega arith in
    let at_0 : get_elem? m.tokens m.iterator ≡ some target =
      ap (get_elem? m.tokens) (omega arith) ∙ at 0 in
    let at_1 : get_elem? m.tokens (m.iterator + 1) ≡ some num = at 1 in
    let behind : drop (m.iterator + 1 + 1) m.tokens ≡ entry_tokens entries ++ rest =
      ap (λ (k : ℕ). drop k m.tokens) (omega arith)
      ∙ drop-drop m.iterator 2 m.tokens
      ∙ ap (drop 2) h in
    rw (
      two_on,
      assert_next_int_at m target n at_0 is_target few,
      assert_next_int_at m₁ num (pos (length entries)) at_1 is_num few,
      read_properties_lem n entries rest m₂ s behind few,
      Updates-set_targets entries s s' n updates,
      save_strings_for_broadcast_lem m₃ k₀ k₁,
    )
