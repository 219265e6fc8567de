-- ===== src/Message/Numbers.antt =====
-- Numbers on the wire: `Append` of an int, and `GetNextInt` on the other side.
use hamang_server.Prelude.{
  All, InInt, List, Result, [], ap, arith, get_elem?, get_elem?-drop, length, map, ok, refl, some,
  suc, zero, ℕ, ℤ, ◌++◌, ◌+◌, ◌<◌, ◌>>=◌, ◌^◌, ◌∙◌, ◌∷◌, ◌≡◌,
}
use hamang_server.Text.{Bytes}
use hamang_server.Text.Decimal.{to_string}
use hamang_server.Text.Decimal.Digits.{to_string-Lacks, to_string-is_empty}
use hamang_server.Text.Decimal.RoundTrip.{stoi-to_string}
use hamang_server.Protocol.{net_delim}
use hamang_server.Message.{
  NetworkMessage, append, append_int, build_new_signed_message, get_next_int, new_message, split,
}
use hamang_server.Message.Cursor.{get_next_int_at}
use hamang_server.Message.Segments.{starts}
use hamang_server.Message.Framing.{CanTravel, append_all, packet_tokens, split-build}

-- One `Append` for each number, in order.
abbrev pub append_ints : NetworkMessage → List ℤ → NetworkMessage
append_ints m [] = m
append_ints m (z ∷ zs) = append_ints (append_int m z) zs

-- So many calls of `GetNextInt`.
unfoldable pub get_next_ints : ℕ → NetworkMessage → Result (List ℤ)
get_next_ints zero m = ok []
get_next_ints (suc k) m = do (z, m') ← get_next_int m; zs ← get_next_ints k m'; ok (z ∷ zs)

append_ints_lem :
    (m : NetworkMessage) (zs : List ℤ) → append_ints m zs ≡ append_all m (map to_string zs)
unfolding append_int
append_ints_lem m [] = refl
append_ints_lem m (z ∷ zs) = append_ints_lem (append m (to_string z)) zs

-- Numbers can travel.
pub numbers-CanTravel : (zs : List ℤ) → CanTravel (map to_string zs)
numbers-CanTravel [] = (refl, tt)
numbers-CanTravel (z ∷ zs) =
    let rest = numbers-CanTravel zs in
    (rw (to_string-is_empty z) rest.0, (to_string-Lacks net_delim z (omega arith), rest.1))

get_next_ints_lem :
    (m : NetworkMessage) (zs : List ℤ)
    → All InInt zs
    → ((k : ℕ) → get_elem? m.tokens (m.iterator + k) ≡ get_elem? (map to_string zs) k)
    → m.iterator + length zs < 2 ^ 32
    → get_next_ints (length zs) m ≡ ok zs
unfolding get_next_ints
get_next_ints_lem m [] h ahead few = refl
get_next_ints_lem m (z ∷ zs) h ahead few =
    let here : get_elem? m.tokens m.iterator ≡ some (to_string z) =
      ap (get_elem? m.tokens) (omega arith) ∙ ahead 0 in
    let rest : (k : ℕ) → get_elem? m.tokens (m.iterator + 1 + k) ≡ get_elem? (map to_string zs) k =
      λ k. ap (get_elem? m.tokens) (omega arith) ∙ ahead (suc k) in
    rw (
      get_next_int_at m (to_string z) z here (stoi-to_string z h.0) (omega arith),
      get_next_ints_lem (record m { iterator = m.iterator + 1 }) zs h.1 rest (omega arith),
    )

-- What `Split` makes of the signed packet with these numbers.
abbrev pub cut_numbers : List ℤ → NetworkMessage
cut_numbers zs = record new_message {
  tokens = packet_tokens (map to_string zs);
  start_points = starts 0 (packet_tokens (map to_string zs));
  count = length (map to_string zs) + 2;
}

-- Numbers in the range of an `int`, fewer than two billion, that are appended to a new message and
-- signed, are cut by `Split` into one packet, and from behind its signature and count as many calls
-- of `GetNextInt` read back the same numbers in order.
pub get_next_int-append_int :
    (zs : List ℤ)
    → All InInt zs
    → length zs < 2 ^ 31
    → (split
          (length (build_new_signed_message (append_ints new_message zs)) + 1)
          new_message
          (build_new_signed_message (append_ints new_message zs))
          net_delim
        ≡ ok (cut_numbers zs))
      × (get_next_ints (length zs) (record (cut_numbers zs) { iterator = 2 }) ≡ ok zs)
get_next_int-append_int zs h few = (
  rw (append_ints_lem new_message zs) (
      split-build
        (length (build_new_signed_message (append_all new_message (map to_string zs))) + 1)
        (map to_string zs) (numbers-CanTravel zs) (omega arith)),
  get_next_ints_lem (record (cut_numbers zs) { iterator = 2 }) zs h
      (λ k. get_elem?-drop (packet_tokens (map to_string zs)) 2 k) (omega arith),
)

pub CanTravel-append : (ss ts : List Bytes) → CanTravel ss → CanTravel ts → CanTravel (ss ++ ts)
CanTravel-append [] ts h k = k
CanTravel-append (s ∷ ss) ts h k = ground (arith, CanTravel-append ss ts)
