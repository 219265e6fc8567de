-- ===== src/Server/Join.antt =====
-- `HandlePlayerJoin`: what the new player and the others are sent, and the room that comes of it.
pub mod Parts
use mathlib.Core.Path.{subst}
use hamang_server.Prelude.{
  InInt, List, [], ap, append_assoc, arith, eqz_refl, false, get_elem?, get_elem?-append_last,
  get_elem?-set_self, length, lt-length_of_get_elem?, ok, pos, refl, set, some, sym, true, ℕ, ℤ,
  ◌++◌, ◌+◌, ◌<◌, ◌^◌, ◌∙◌, ◌∷◌, ◌≡◌, ◌≤◌,
}
use hamang_server.Text.{Bytes}
use hamang_server.Values.{batch_limit, buffer_size}
use hamang_server.Rpc.Batches.{joined, send_batches_lem}
use hamang_server.Player.{Network, Player, send}
use hamang_server.Players.{
  PlayerManager, broadcast_message, create_player, erase_player, find_player, joining_player,
}
use hamang_server.Players.Invariant.{IsConsistent, create_player-IsConsistent, joined_find}
use hamang_server.Players.Broadcast.{
  AllPresent-erase, HasEntries-AllPresent, broadcast_message_all-erase, broadcast_message_all_lem,
  deliveries,
}
use hamang_server.Ping.{get_time_now, record_ping}
use hamang_server.State.{Env, Server}
use hamang_server.Server.{
  handle_player_join, local_joined_message, player_joined_message, room_message,
  send_buffered_messages,
}
use hamang_server.Server.Join.Parts.{
  backlog, connect-IsConsistent, fits_batch_lt, length-local_joined_message-le,
  length-player_joined_message-le, send_joined_lem, send_sends,
}

sent_assoc {ℓ} :
    {A : Type ℓ} (before : List A) (x : A) (xs : List A) (y : A) (ys : List A)
    → (((before ++ x ∷ []) ++ xs) ++ y ∷ []) ++ ys ≡ before ++ x ∷ (xs ++ y ∷ ys)
sent_assoc before x xs y ys =
    append_assoc ((before ++ x ∷ []) ++ xs) (y ∷ []) ys
    ∙ append_assoc (before ++ x ∷ []) xs (y ∷ ys)
    ∙ append_assoc before (x ∷ []) (xs ++ y ∷ ys)

module _ (env : Env) (f socket : ℕ) (s : Server) (v : IsConsistent s.players) where
  abbrev pub address_of_new : ℕ
  address_of_new = length s.players.heap

  abbrev pub new_number : ℤ
  new_number = pos s.players.next_actor_number

  -- The new player from the buffered messages on.
  abbrev pub joined_player : Player
  joined_player = record (joining_player s.players socket) { is_connected = true }

  abbrev pub joined_players : PlayerManager
  joined_players = record (create_player s.players socket).1 {
    heap = set (create_player s.players socket).1.heap address_of_new joined_player;
  }

  at_new :
      get_elem? (create_player s.players socket).1.heap address_of_new
      ≡ some (joining_player s.players socket)
  unfolding create_player
  at_new = get_elem?-append_last s.players.heap (joining_player s.players socket)

  at_joined : get_elem? joined_players.heap address_of_new ≡ some joined_player
  at_joined =
      get_elem?-set_self (create_player s.players socket).1.heap address_of_new joined_player
        (lt-length_of_get_elem? (create_player s.players socket).1.heap address_of_new _ at_new)

  joined_players-IsConsistent : IsConsistent joined_players
  joined_players-IsConsistent =
      connect-IsConsistent (create_player s.players socket).1 address_of_new
        (joining_player s.players socket) at_new (create_player-IsConsistent s.players socket v)

  handle_known : joined_player.handle_info ≡ some socket
  unfolding joining_player
  handle_known = refl

  bare : joined_player.custom_property.custom_property ≡ []
  unfolding joining_player
  bare = refl

  number_known : joined_player.actor_number ≡ new_number
  unfolding joining_player
  number_known = refl

  -- The room message goes out, although the player is not connected yet.
  room_sent :
      (text : Bytes)
      → length text ≤ buffer_size
      → send (joining_player s.players socket) text true s.net
        ≡ ok (record s.net { sent = s.net.sent ++ (socket, text) ∷ [] })
  room_sent text fits =
      send_sends (joining_player s.players socket) text true s.net socket handle_known
        (ground arith) fits

  buffered_sent :
      (net : Network)
      → length s.message_queue + 1 < f
      → length (joined s.message_queue) < batch_limit
      → send_buffered_messages f s.message_queue
          (create_player s.players socket).1
          address_of_new
          net
        ≡ ok (joined_players, record net { sent = net.sent ++ backlog socket s.message_queue })
  unfolding send_buffered_messages
  buffered_sent net fuel few = rw (
    at_new,
    send_batches_lem (λ message n. send joined_player message true n) f s.message_queue net fuel
        (fits_batch_lt s.message_queue few),
    send_joined_lem joined_player s.message_queue net socket handle_known few,
  )

  local_sent :
      (net : Network)
      → InInt new_number
      → send joined_player (local_joined_message joined_player) false net
        ≡ ok (record net { sent = net.sent ++ (socket, local_joined_message joined_player) ∷ [] })
  unfolding joining_player
  local_sent net h =
      send_sends joined_player (local_joined_message joined_player) false net socket handle_known
        refl (length-local_joined_message-le joined_player h)

  others_told :
      (net : Network)
      → InInt new_number
      → broadcast_message joined_players.heap joined_players.player_hash joined_player.actor_number
          (player_joined_message joined_player)
          net
        ≡ ok (record net {
          sent =
              net.sent
              ++ deliveries joined_players.heap
                  (erase_player joined_player.actor_number joined_players.player_hash)
                  (player_joined_message joined_player);
        })
  others_told net h =
      let present = HasEntries-AllPresent joined_players joined_players-IsConsistent.has_entries in
      let fits =
        length-player_joined_message-le joined_player (subst InInt (sym number_known) h) bare in
      broadcast_message_all-erase joined_players.heap (player_joined_message joined_player) fits
        joined_players.player_hash joined_player.actor_number net present
      ∙ broadcast_message_all_lem joined_players.heap (player_joined_message joined_player) fits
          (erase_player joined_player.actor_number joined_players.player_hash) net
          (AllPresent-erase joined_players.heap joined_player.actor_number
            joined_players.player_hash present)

  -- What the new player is sent, in order, and then the others.
  abbrev pub join_sent : Bytes → List (ℕ × Bytes)
  join_sent text =
      (socket, text) ∷ backlog socket s.message_queue
      ++ (socket, local_joined_message joined_player)
        ∷ deliveries joined_players.heap
            (erase_player joined_player.actor_number joined_players.player_hash)
            (player_joined_message joined_player)

  address_known : (create_player s.players socket).0 ≡ address_of_new
  unfolding create_player
  address_known = refl

  -- When a client with a socket joins a consistent room, and the room message has been made and fits a
  -- buffer, the buffered messages together are shorter than a batch may be, and the next number is an
  -- int, then with two rounds more than the queue is long `HandlePlayerJoin` returns. The room is
  -- consistent; the next number leads to the new player, who is connected and has this number and
  -- socket; the queue is as it was. The new player is sent the room message, the buffered messages in
  -- order in one text if there are any, and the news of the own arrival, in this order, and then
  -- every other connected player is told of the new one, once.
  pub handle_player_join_lem :
      (text : Bytes)
      → room_message s
          (create_player s.players socket).1
          (joining_player s.players socket)
          (env.clock s.pings.readings)
        ≡ ok text
      → length text ≤ buffer_size
      → length s.message_queue + 1 < f
      → length (joined s.message_queue) < batch_limit
      → s.players.next_actor_number < 2 ^ 31
      → (s' : Server) × (handle_player_join env f socket s ≡ ok (address_of_new, s'))
        × IsConsistent s'.players
        × (find_player new_number s'.players.player_hash ≡ some address_of_new)
        × (get_elem? s'.players.heap address_of_new ≡ some joined_player)
        × (s'.message_queue ≡ s.message_queue)
        × (s'.net.sent ≡ s.net.sent ++ join_sent text)
  unfolding handle_player_join get_time_now
  handle_player_join_lem text room fits fuel few numbered = (
    record s {
      players = joined_players;
      pings =
          record_ping (get_time_now env.clock s.pings).1
            (joining_player s.players socket).actor_number (env.clock s.pings.readings);
      net = record s.net { sent = s.net.sent ++ join_sent text };
    },
    rw
        (
          address_known,
          at_new,
          room,
          room_sent text fits,
          buffered_sent (record s.net { sent = s.net.sent ++ (socket, text) ∷ [] }) fuel few,
          at_joined,
        )
        (rw
          (
            local_sent
                (record s.net {
                  sent = (s.net.sent ++ (socket, text) ∷ []) ++ backlog socket s.message_queue;
                })
                numbered,
            others_told
                (record s.net {
                  sent =
                      ((s.net.sent ++ (socket, text) ∷ []) ++ backlog socket s.message_queue)
                      ++ (socket, local_joined_message joined_player) ∷ [];
                })
                numbered,
          )
          (ap
            (λ (sent : List (ℕ × Bytes)). ok (
              address_of_new,
              record s {
                players = joined_players;
                pings =
                    record_ping (get_time_now env.clock s.pings).1
                      (joining_player s.players socket).actor_number (env.clock s.pings.readings);
                net = record s.net { sent = sent };
              },
            ))
            (sent_assoc s.net.sent (socket, text) (backlog socket s.message_queue)
              (socket, local_joined_message joined_player)
              (deliveries joined_players.heap
                (erase_player joined_player.actor_number joined_players.player_hash)
                (player_joined_message joined_player))))),
    joined_players-IsConsistent,
    joined_find s.players socket v new_number ∙ rw (eqz_refl new_number),
    at_joined,
    refl,
    refl,
  )
