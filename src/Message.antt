-- ===== src/Message.antt =====
-- NetworkMessage.h: a cursor over the tokens of received packets, and the text of one to be sent.
-- Tokens are read by an unsigned 32-bit cursor; positions in a text and the count of tokens stay
-- plain numbers, since a text is at most a receive buffer long.
pub mod Cursor
pub mod Within
pub mod Names
pub mod Segments
pub mod Split
pub mod Framing
pub mod Copy
pub mod Numbers
use hamang_server.Prelude.{
  Bool, List, Option, Result, [], err, false, get_elem?, if◌then◌else◌, length, ltb, none, not, ok,
  or_fault, out_of_bounds, out_of_fuel, pos, some, suc, to_unsigned, true, zero, ℕ, ℤ, ◌%◌, ◌++◌,
  ◌+◌, ◌-◌, ◌>>=◌, ◌>>◌, ◌^◌, ◌∷◌,
}
use hamang_server.Text.{Bytes, find, is_empty, substr}
use hamang_server.Text.Decimal.{stoi, to_string}
use hamang_server.Protocol.{net_delim, net_sig}

pub record NetworkMessage : Type 0 where
  pub iterator : ℕ
  pub broadcast_message : Bytes
  pub tokens : List Bytes
  pub start_points : List ℕ
  pub incomplete_resume_point : ℕ
  pub count : ℕ
  pub sent_actor_nr : ℤ
  pub target_view_id : ℤ
  pub begin_point : ℕ
  pub end_point : ℕ

-- The constructor. It leaves `sentActorNr` and `targetViewID` unset; zero stands for those.
abbrev pub new_message : NetworkMessage
new_message = record {
  iterator = 0;
  broadcast_message = [];
  tokens = [];
  start_points = [];
  incomplete_resume_point = 0;
  count = 0;
  sent_actor_nr = pos 0;
  target_view_id = pos 0;
  begin_point = 0;
  end_point = 0;
}

-- The value of an unsigned 32-bit result.
abbrev pub wrap32 : ℕ → ℕ
wrap32 n = n % 2 ^ 32

-- The loop of `Split` over `previous`, `current`, the tokens and their start points. The `continue`
-- at an empty token goes back to the test with nothing changed.
unfoldable pub split_loop :
    ℕ → Bytes → ℕ → ℕ → Option ℕ → List Bytes → List ℕ → Result (List Bytes × List ℕ)
split_loop zero str delim previous current ts sps = err out_of_fuel
split_loop (suc f) str delim previous none ts sps = ok (ts, sps)
split_loop (suc f) str delim previous (some current) ts sps =
    let token = substr str previous (current - previous) in
    let stay = split_loop f str delim previous (some current) ts sps in
    let next = current + 1 in
    let go =
      split_loop f str delim next (find str delim next) (ts ++ token ∷ []) (sps ++ previous ∷ []) in
    if is_empty token then stay else go

unfoldable pub split : ℕ → NetworkMessage → Bytes → ℕ → Result NetworkMessage
unfolding split_loop
split f m str delim = do
  (ts, sps) ← split_loop f str delim 0 (find str delim 0) [] m.start_points
  ok (record m { tokens = ts; start_points = sps; count = length ts })

-- `tokens[iterator++]`
unfoldable pub get_next : NetworkMessage → Result (Bytes × NetworkMessage)
get_next m = do
  token ← or_fault (get_elem? m.tokens m.iterator) out_of_bounds
  ok (token, record m { iterator = wrap32 (m.iterator + 1) })

unfoldable pub get_next_int : NetworkMessage → Result (ℤ × NetworkMessage)
unfolding get_next
get_next_int m = do (token, m') ← get_next m; n ← stoi token; ok (n, m')

unfoldable pub append : NetworkMessage → Bytes → NetworkMessage
append m s = record m {
  broadcast_message = m.broadcast_message ++ s ++ net_delim ∷ [];
  count = m.count + 1;
}

unfoldable pub append_int : NetworkMessage → ℤ → NetworkMessage
unfolding append
append_int m n = append m (to_string n)

-- The tokens from `i` on, for so many rounds, each with the delimiter behind it.
unfoldable pub copy_tokens : List Bytes → ℕ → ℕ → Result Bytes
copy_tokens ts zero i = ok []
copy_tokens ts (suc rounds) i = do
  token ← or_fault (get_elem? ts i) out_of_bounds
  rest ← copy_tokens ts rounds (i + 1)
  ok (token ++ net_delim ∷ rest)

unfoldable pub save_strings_for_broadcast : NetworkMessage → Result (Bytes × NetworkMessage)
unfolding copy_tokens
save_strings_for_broadcast m = do
  let rounds = m.end_point - m.begin_point
  message ← copy_tokens m.tokens rounds m.begin_point
  ok (
    message,
    record m { broadcast_message = m.broadcast_message ++ message; count = m.count + rounds },
  )

unfoldable pub set_begin_point : NetworkMessage → NetworkMessage
set_begin_point m = record m { begin_point = m.iterator }

unfoldable pub set_end_point : NetworkMessage → ℤ → Result (Bool × NetworkMessage)
set_end_point m length_of_message = do
  let end = wrap32 (m.begin_point + to_unsigned length_of_message)
  begin_of_end_bytes ← or_fault (get_elem? m.start_points m.begin_point) out_of_bounds
  ok (
      if ltb (length m.tokens) end
      then (false, record m { end_point = end; incomplete_resume_point = begin_of_end_bytes })
      else (true, record m { end_point = end }))

unfoldable pub set_iterator_to_end : NetworkMessage → NetworkMessage
set_iterator_to_end m = record m { iterator = m.end_point }

unfoldable pub has_next : NetworkMessage → Bool
has_next m = ltb m.iterator (length m.tokens)

unfoldable pub has_message_to_broadcast : NetworkMessage → Bool
has_message_to_broadcast m = not (is_empty m.broadcast_message)

unfoldable pub build_copied_message : NetworkMessage → Bytes
build_copied_message m = m.broadcast_message

unfoldable pub build_new_signed_message : NetworkMessage → Bytes
build_new_signed_message m =
    net_sig ++ net_delim ∷ to_string (pos (m.count + 2)) ++ net_delim ∷ m.broadcast_message
