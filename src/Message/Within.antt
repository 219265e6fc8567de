-- ===== src/Message/Within.antt =====
-- A cursor that stays within the tokens, behind the begin of a packet.
use hamang_server.Prelude.{
  Anything, Ends, Ends-bind, Ends-of_ends, InInt, List, Option-cases, ap, arith, ends, ends-bind,
  ends_of_Ends, get_elem?, inl, inr, length, lt-length_of_get_elem?, or_fault, or_fault-ends,
  out_of_bounds, refl, suc, true, zero, ℕ, ◌+◌, ◌-◌, ◌<◌, ◌^◌, ◌≡◌, ◌≤◌,
}
use hamang_server.Text.{Bytes}
use hamang_server.Text.Decimal.{stoi}
use hamang_server.Text.Decimal.Range.{stoi-InInt}
use hamang_server.Message.{
  NetworkMessage, copy_tokens, get_next, get_next_int, save_strings_for_broadcast,
  set_iterator_to_end, wrap32,
}

-- The cursor reads these tokens, stands behind the packet's begin, and the packet's end is known.
pub record IsWithin (ts : List Bytes) (begin end : ℕ) (m : NetworkMessage) : Type 0 where
  pub same_tokens : m.tokens ≡ ts
  pub same_end : m.end_point ≡ end
  pub behind : begin < m.iterator
  pub inside : m.iterator ≤ length ts

pub copy_tokens-ends : (ts : List Bytes) (rounds i : ℕ) → ends (copy_tokens ts rounds i) ≡ true
unfolding copy_tokens
copy_tokens-ends ts zero i = refl
copy_tokens-ends ts (suc rounds) i =
    ends-bind (or_fault (get_elem? ts i) out_of_bounds) _ (or_fault-ends _ _ refl) λ token.
      ends-bind (copy_tokens ts rounds (i + 1)) _ (copy_tokens-ends ts rounds (i + 1)) λ rest. refl

module _ (ts : List Bytes) (begin end : ℕ) (few : length ts < 2 ^ 32) where
  abbrev pub At : NetworkMessage → Type 0
  At = IsWithin ts begin end

  abbrev pub Reads {ℓ} : {T : Type ℓ} → T × NetworkMessage → Type 0
  Reads got = At got.1

  pub get_next-Reads : (m : NetworkMessage) → At m → Ends Reads (get_next m)
  unfolding get_next
  get_next-Reads m v = elim (Option-cases (get_elem? m.tokens m.iterator)) [
    | inl e ↦ rw e refl
    | inr (token, e) ↦
        let there = lt-length_of_get_elem? m.tokens m.iterator token e in
        let same : length m.tokens ≡ length ts = ap length v.same_tokens in
        let next : wrap32 (m.iterator + 1) ≡ m.iterator + 1 = omega (arith, there) in
        rw (e, next)
          (record {
            same_tokens = v.same_tokens;
            same_end = v.same_end;
            behind = omega (arith, v.behind);
            inside = omega (arith, there);
          })
  ]

  pub get_next_int-Reads : (m : NetworkMessage) → At m → Ends Reads (get_next_int m)
  unfolding get_next_int
  get_next_int-Reads m v = Ends-bind Reads Reads (get_next m) _ (get_next-Reads m v) λ got w.
      Ends-bind Anything Reads (stoi got.0) _
        (Ends-of_ends _ (ends_of_Ends InInt _ (stoi-InInt got.0))) λ n _. w

  pub save_strings-Reads : (m : NetworkMessage) → At m → Ends Reads (save_strings_for_broadcast m)
  unfolding save_strings_for_broadcast
  save_strings-Reads m v =
      Ends-bind Anything Reads (copy_tokens m.tokens (m.end_point - m.begin_point) m.begin_point) _
        (Ends-of_ends _ (copy_tokens-ends m.tokens (m.end_point - m.begin_point) m.begin_point))
        λ message _. record {
          same_tokens = v.same_tokens;
          same_end = v.same_end;
          behind = v.behind;
          inside = v.inside;
        }

  pub set_iterator_to_end-At :
      (m : NetworkMessage) → begin < end → end ≤ length ts → At m → At (set_iterator_to_end m)
  unfolding set_iterator_to_end
  set_iterator_to_end-At m h k v = record {
    same_tokens = v.same_tokens;
    same_end = v.same_end;
    behind = omega (arith, v.same_end);
    inside = omega (arith, v.same_end);
  }
