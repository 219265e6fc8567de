-- ===== src/Players/Broadcast.antt =====
-- Whom a broadcast reaches.
use hamang_server.Prelude.{
  Bool, Bool-cases, List, Option, Result, [], ap, append-nil, append_assoc, arith, buffer_overflow,
  eqz, err, false, get_elem?, if◌then◌else◌, inl, inr, leb, length, none, ok, refl, some, sym, take,
  true, ℕ, ℤ, ◌++◌, ◌>>=◌, ◌||◌, ◌∙◌, ◌∷◌, ◌≡◌, ◌≤◌,
}
use hamang_server.Text.{Bytes}
use hamang_server.Values.{buffer_size}
use hamang_server.Player.{Network, Player, send}
use hamang_server.Players.{
  PlayerManager, broadcast_message, broadcast_message_all, erase_player, find_player,
}
use hamang_server.Players.Heap.{find-first, find-later}
use hamang_server.Players.Invariant.{HasDistinctNumbers, HasEntries}

take-length {ℓ} : {A : Type ℓ} (xs : List A) → take (length xs) xs ≡ xs
take-length [] = refl
take-length (x ∷ xs) = rw (take-length xs)

-- `Send` to a player with a socket: a message that is initial, or whose player is connected, goes out
-- whole in one call if it is no longer than a buffer, and else is written past the buffer; any other
-- message is dropped.
pub send_lem :
    (p : Player) (message : Bytes) (is_initial : Bool) (net : Network) (socket : ℕ)
    → p.handle_info ≡ some socket
    → send p message is_initial net ≡ (
        if p.is_connected || is_initial
        then (if leb (length message) buffer_size
            then ok (record net { sent = net.sent ++ (socket, message) ∷ [] })
            else err buffer_overflow)
        else ok net)
unfolding send
send_lem p message is_initial net socket h = ground (arith, take-length message)

-- Every entry of the table is a player on the heap, with that number and a socket.
abbrev pub IsPresent : List Player → ℤ → ℕ → Type 0
IsPresent heap k p =
    (player : Player) × (get_elem? heap p ≡ some player)
    × (player.actor_number ≡ k)
    × (socket : ℕ) × (player.handle_info ≡ some socket)

abbrev pub AllPresent : List Player → List (ℤ × ℕ) → Type 0
AllPresent heap [] = Unit
AllPresent heap ((k, p) ∷ hash) = IsPresent heap k p × AllPresent heap hash

-- The calls of the socket by which a message goes to every connected player of a table.
abbrev pub delivery : Option Player → Bytes → List (ℕ × Bytes)
delivery none message = []
delivery (some player) message = elim player.handle_info [
  | none ↦ []
  | some socket ↦ if player.is_connected then (socket, message) ∷ [] else []
]

abbrev pub deliveries : List Player → List (ℤ × ℕ) → Bytes → List (ℕ × Bytes)
deliveries heap [] message = []
deliveries heap ((k, p) ∷ hash) message =
    delivery (get_elem? heap p) message ++ deliveries heap hash message

if_bind :
    (b : Bool) (x y : Network) (f : Network → Result Network)
    → ((if b then ok x else ok y) >>= f) ≡ f (if b then x else y)
if_bind true x y f = refl
if_bind false x y f = refl

module _ (heap : List Player) (message : Bytes) (fits : length message ≤ buffer_size) where
  send_here :
      (k : ℤ) (p : ℕ) (net : Network) (here : IsPresent heap k p)
      → send here.0 message false net
        ≡ ok (record net { sent = net.sent ++ delivery (some here.0) message })
  send_here k p net (player, at, number, socket, open_socket) =
      send_lem player message false net socket open_socket ∙ ground (arith, append-nil net.sent)

  -- A message no longer than a buffer, broadcast to a table whose entries are players on the heap with
  -- sockets, goes to exactly the connected players of the table, once to each, in the table's order.
  pub broadcast_message_all_lem :
      (hash : List (ℤ × ℕ)) (net : Network)
      → AllPresent heap hash
      → broadcast_message_all heap hash message net
        ≡ ok (record net { sent = net.sent ++ deliveries heap hash message })
  unfolding broadcast_message_all
  broadcast_message_all_lem [] net h = ground (arith, append-nil net.sent)
  broadcast_message_all_lem ((k, p) ∷ hash) net h =
      rw (h.0.1, send_here k p net h.0)
        (broadcast_message_all_lem hash _ h.1
          ∙ ground (
            arith,
            append_assoc net.sent (delivery (get_elem? heap p) message)
                (deliveries heap hash message),
          ))

  -- The calls so far and the delivery to one more player.
  abbrev delivered : ℕ → Network → Network
  delivered p net = record net { sent = net.sent ++ delivery (get_elem? heap p) message }

  broadcast_message_all-cons :
      (k : ℤ) (p : ℕ) (hash : List (ℤ × ℕ)) (net : Network)
      → IsPresent heap k p
      → broadcast_message_all heap ((k, p) ∷ hash) message net
        ≡ broadcast_message_all heap hash message (delivered p net)
  unfolding broadcast_message_all
  broadcast_message_all-cons k p hash net h = rw (h.1, send_here k p net h)

  broadcast_message-cons :
      (k : ℤ) (p : ℕ) (hash : List (ℤ × ℕ)) (source : ℤ) (net : Network)
      → IsPresent heap k p
      → broadcast_message heap ((k, p) ∷ hash) source message net
        ≡ broadcast_message heap hash source message (if eqz k source then net else delivered p net)
  unfolding broadcast_message
  broadcast_message-cons k p hash source net h =
      let here = record net { sent = net.sent ++ delivery (some h.0) message } in
      rw (h.1, send_here k p net h)
        (rw (ap (λ (n : ℤ). eqz n source) h.2) (
          if_bind (eqz k source) net here
            (λ net'. broadcast_message heap hash source message net')))

  -- A message no longer than a buffer, broadcast to all but its source over a table whose entries are
  -- players on the heap with those numbers and with sockets, does what a broadcast to all over the
  -- table without the source does.
  pub broadcast_message_all-erase :
      (hash : List (ℤ × ℕ)) (source : ℤ) (net : Network)
      → AllPresent heap hash
      → broadcast_message heap hash source message net
        ≡ broadcast_message_all heap (erase_player source hash) message net
  unfolding broadcast_message broadcast_message_all erase_player
  broadcast_message_all-erase [] source net h = refl
  broadcast_message_all-erase ((k, p) ∷ hash) source net h = elim (Bool-cases (eqz k source)) [
    | inl self ↦
        broadcast_message-cons k p hash source net h.0
        ∙ rw self (broadcast_message_all-erase hash source net h.1)
    | inr other ↦
        broadcast_message-cons k p hash source net h.0
        ∙ rw other (
            broadcast_message_all-erase hash source (delivered p net) h.1
            ∙ sym (broadcast_message_all-cons k p (erase_player source hash) net h.0))
  ]

AllPresent-find_player :
    (heap : List Player) (hash : List (ℤ × ℕ))
    → HasDistinctNumbers hash
    → ((n : ℤ) (p : ℕ) → find_player n hash ≡ some p → IsPresent heap n p)
    → AllPresent heap hash
AllPresent-find_player heap [] d h = tt
AllPresent-find_player heap ((k, q) ∷ hash) d h = (
  h k q (find-first k q hash),
  AllPresent-find_player heap hash d.1 (λ n p f. h n p (find-later k q n p hash d.0 f)),
)

-- In a room that is in order every broadcast has its players.
pub HasEntries-AllPresent : (pm : PlayerManager) → HasEntries pm → AllPresent pm.heap pm.player_hash
HasEntries-AllPresent pm v =
    AllPresent-find_player pm.heap pm.player_hash v.distinct
      λ n p f. let e = v.entries n p f in (e.player, e.at, e.number, e.socket, e.open_socket)

pub AllPresent-erase :
    (heap : List Player) (n : ℤ) (hash : List (ℤ × ℕ))
    → AllPresent heap hash
    → AllPresent heap (erase_player n hash)
unfolding erase_player
AllPresent-erase heap n [] h = tt
AllPresent-erase heap n ((k, p) ∷ hash) h = ground (arith, AllPresent-erase heap n hash h.1)
