-- ===== src/Server/Opening/Joining.antt =====
-- `OpenServer` joins each client that it accepts.
use mathlib.Core.Path.{subst}
use hamang_server.Prelude.{
  Bool, List, Returns, Returns-bind, Returns-ok, [], ap, append-nil, append_assoc, arith, false,
  get_elem?-append_last, length, length-append, none, ok, pos, refl, set, some, sym, true, ℕ, ℤ,
  ◌++◌, ◌+◌, ◌∙◌, ◌∷◌, ◌≡◌,
}
use hamang_server.Values.{Rpc, buffer_size, read}
use hamang_server.Rpc.{send_batches}
use hamang_server.Buffers.{PerIoData, create_empty_buffer}
use hamang_server.Player.{Network, Player, send}
use hamang_server.Players.{
  PlayerManager, broadcast_message, create_player, deref, find_player, insert_player,
  joining_player,
}
use hamang_server.Players.Invariant.{IsConsistent, next_is_free}
use hamang_server.State.{Env, Server}
use hamang_server.Server.{handle_player_join, room_message, send_buffered_messages}
use hamang_server.Server.Steps.{handle_player_join-Returns}
use hamang_server.Server.Opening.{Accepted, accept_client, accept_clients, open_server}

-- The players of these clients: connected, each with the socket of its client, numbered on.
abbrev pub AreJoined : ℕ → List Accepted → List Player → Type 0
AreJoined n [] [] = Unit
AreJoined n [] (p ∷ ps) = ⊥
AreJoined n (client ∷ clients) [] = ⊥
AreJoined n (client ∷ clients) (p ∷ ps) =
    (p.actor_number ≡ pos n)
    × (p.handle_info ≡ some client.socket)
    × (p.is_connected ≡ true)
    × AreJoined (n + 1) clients ps

-- The players' addresses, one behind another, each with a buffer that can be read into as a whole.
abbrev pub AreReady : ℕ → List Accepted → List (ℕ × PerIoData) → Type 0
AreReady a [] [] = Unit
AreReady a [] (o ∷ opened) = ⊥
AreReady a (client ∷ clients) [] = ⊥
AreReady a (client ∷ clients) ((address, io) ∷ opened) =
    (address ≡ a)
    × (io.offset ≡ 0)
    × (io.len ≡ buffer_size)
    × (io.rw_mode ≡ read)
    × AreReady (a + 1) clients opened

-- The entries of the table for these clients.
abbrev pub entries : ℕ → ℕ → List Accepted → List (ℤ × ℕ)
entries n a [] = []
entries n a (client ∷ clients) = (pos n, a) ∷ entries (n + 1) (a + 1) clients

insert_player-append :
    (n : ℤ) (a : ℕ) (hash : List (ℤ × ℕ))
    → find_player n hash ≡ none
    → insert_player n a hash ≡ hash ++ (n, a) ∷ []
unfolding insert_player find_player
insert_player-append n a [] h = refl
insert_player-append n a ((k, b) ∷ hash) h = ground (arith, insert_player-append n a hash)

set-append_last :
    (heap : List Player) (p q : Player) → set (heap ++ p ∷ []) (length heap) q ≡ heap ++ q ∷ []
set-append_last [] p q = refl
set-append_last (r ∷ heap) p q = ap (λ (rest : List Player). r ∷ rest) (set-append_last heap p q)

abbrev connected : PlayerManager → ℕ → Player
connected pm socket = record (joining_player pm socket) { is_connected = true }

-- The players when the client of that socket has joined.
abbrev after_join : PlayerManager → ℕ → PlayerManager
after_join pm socket = record (create_player pm socket).1 {
  heap = pm.heap ++ connected pm socket ∷ [];
}

new_here :
    (pm : PlayerManager) (socket : ℕ)
    → deref (create_player pm socket).1.heap (create_player pm socket).0
      ≡ ok (joining_player pm socket)
unfolding create_player
new_here pm socket = rw (get_elem?-append_last pm.heap (joining_player pm socket)) refl

address_new : (pm : PlayerManager) (socket : ℕ) → (create_player pm socket).0 ≡ length pm.heap
unfolding create_player
address_new pm socket = refl

buffered-Returns :
    (f : ℕ) (queue : List Rpc) (pm : PlayerManager) (socket : ℕ) (net : Network)
    → Returns
        (λ (after : PlayerManager × Network). after.0 ≡ after_join pm socket)
        (send_buffered_messages f queue (create_player pm socket).1 (create_player pm socket).0 net)
unfolding send_buffered_messages create_player
buffered-Returns f queue pm socket net =
    rw (get_elem?-append_last pm.heap (joining_player pm socket)) (
      Returns-bind _ (send_batches _ f queue net) _ λ net' e.
        ap (λ (heap : List Player). record (after_join pm socket) { heap = heap })
          (set-append_last pm.heap (joining_player pm socket) (connected pm socket)))

-- What the loop makes of the players for these clients, with the addresses and buffers that come back.
abbrev pub Joined : List Accepted → PlayerManager → List (ℕ × PerIoData) → PlayerManager → Type 0
Joined clients pm opened pm' =
    IsConsistent pm'
    × AreReady (length pm.heap) clients opened
    × (pm'.next_actor_number ≡ pm.next_actor_number + length clients)
    × (pm'.player_hash ≡ pm.player_hash ++ entries pm.next_actor_number (length pm.heap) clients)
    × (joined : List Player) × (pm'.heap ≡ pm.heap ++ joined)
    × AreJoined pm.next_actor_number clients joined

-- One more client, before the others.
one_more :
    (client : Accepted) (clients : List Accepted) (pm pm' : PlayerManager)
    (opened : List (ℕ × PerIoData))
    → IsConsistent pm
    → Joined clients (after_join pm client.socket) opened pm'
    → Joined
        (client ∷ clients)
        pm
        ((length pm.heap, create_empty_buffer client.memory buffer_size read) ∷ opened)
        pm'
unfolding create_player joining_player create_empty_buffer
one_more client clients pm pm' opened v (consistent, ready, count, hash, joined, heap, all) =
    let new = connected pm client.socket in
    let size : length (pm.heap ++ new ∷ []) ≡ length pm.heap + 1 =
      omega (arith, length-append pm.heap (new ∷ [])) in
    let entry : ℤ × ℕ = (pos pm.next_actor_number, length pm.heap) in
    let free = next_is_free pm v.has_entries in
    let more = entries (pm.next_actor_number + 1) (length pm.heap + 1) clients in
    (
      consistent,
      (refl, refl, refl, refl, subst (λ (a : ℕ). AreReady a clients opened) size ready),
      omega (arith, count),
      hash
          ∙ ap
              (λ (a : ℕ).
                insert_player (pos pm.next_actor_number) (length pm.heap) pm.player_hash
                ++ entries (pm.next_actor_number + 1) a clients)
              size
          ∙ ap (λ (l : List (ℤ × ℕ)). l ++ more)
              (insert_player-append (pos pm.next_actor_number) (length pm.heap) pm.player_hash free)
          ∙ append_assoc pm.player_hash (entry ∷ []) more,
      new ∷ joined,
      heap ∙ append_assoc pm.heap (new ∷ []) joined,
      (refl, refl, refl, all),
    )

module _ (env : Env) where
  join-Returns :
      (f socket : ℕ) (s : Server)
      → Returns
          (λ (after : ℕ × Server).
            (after.0 ≡ length s.players.heap) × (after.1.players ≡ after_join s.players socket))
          (handle_player_join env f socket s)
  unfolding handle_player_join
  join-Returns f socket s =
      let new = create_player s.players socket in
      Returns-bind _ (deref new.1.heap new.0) _ λ player e₁.
        Returns-bind _ (room_message s new.1 player _) _ λ message e₂.
          Returns-bind _ (send player message true s.net) _ λ net₁ e₃.
            Returns-bind _ (send_buffered_messages f s.message_queue new.1 new.0 net₁) _ λ after e₄.
              Returns-bind _ (deref after.0.heap new.0) _ λ joined e₅.
                Returns-bind _ (send joined _ false after.1) _ λ net₃ e₆.
                  Returns-bind _
                    (broadcast_message after.0.heap after.0.player_hash joined.actor_number _ net₃)
                    _
                    λ net₄ e₇. (
                      address_new s.players socket,
                      Returns-ok
                          (λ (after : PlayerManager × Network).
                            after.0 ≡ after_join s.players socket)
                          _ after (buffered-Returns f s.message_queue s.players socket net₁) e₄,
                    )

  accept_client-Returns :
      (f : ℕ) (client : Accepted) (s : Server)
      → IsConsistent s.players
      → Returns
          (λ (after : ℕ × PerIoData × Server).
            (after.0 ≡ length s.players.heap)
            × (after.1 ≡ create_empty_buffer client.memory buffer_size read)
            × (after.2.players ≡ after_join s.players client.socket)
            × IsConsistent after.2.players)
          (accept_client env f client s)
  unfolding accept_client
  accept_client-Returns f client s v =
      Returns-bind _ (handle_player_join env f client.socket s) _ λ after e.
        let w =
          Returns-ok
            (λ (after : ℕ × Server).
              (after.0 ≡ length s.players.heap)
              × (after.1.players ≡ after_join s.players client.socket))
            _ after (join-Returns f client.socket s) e in
        (
          w.0,
          refl,
          w.1,
          Returns-ok (λ (after : ℕ × Server). IsConsistent after.1.players) _ after
              (handle_player_join-Returns env f client.socket s v) e,
        )

  accept_clients-Returns :
      (f : ℕ) (clients : List Accepted) (s : Server)
      → IsConsistent s.players
      → Returns
          (λ (after : List (ℕ × PerIoData) × Server).
            Joined clients s.players after.0 after.1.players)
          (accept_clients env f clients s)
  unfolding accept_clients
  accept_clients-Returns f [] s v = (
    v,
    tt,
    omega arith,
    sym (append-nil s.players.player_hash),
    [],
    sym (append-nil s.players.heap),
    tt,
  )
  accept_clients-Returns f (client ∷ clients) s v =
      Returns-bind _ (accept_client env f client s) _ λ first e₁.
        Returns-bind _ (accept_clients env f clients first.2) _ λ rest e₂.
          let (address, buffer, players, consistent) =
            Returns-ok
              (λ (after : ℕ × PerIoData × Server).
                (after.0 ≡ length s.players.heap)
                × (after.1 ≡ create_empty_buffer client.memory buffer_size read)
                × (after.2.players ≡ after_join s.players client.socket)
                × IsConsistent after.2.players)
              _ first (accept_client-Returns f client s v) e₁ in
          let w =
            Returns-ok
              (λ (after : List (ℕ × PerIoData) × Server).
                Joined clients first.2.players after.0 after.1.players)
              _ rest (accept_clients-Returns f clients first.2 consistent) e₂ in
          let more : Joined clients (after_join s.players client.socket) rest.0 rest.1.players =
            subst (λ (pm : PlayerManager). Joined clients pm rest.0 rest.1.players) players w in
          rw (address, buffer) (one_more client clients s.players rest.1.players rest.0 v more)

  -- If `OpenServer` has joined every client that it accepted so far, in a consistent room, then `bind`
  -- and `listen` have succeeded, and the room is consistent. Behind the players who were there stand the
  -- new ones, in the order of their clients, each connected, with its client's socket and the next
  -- number; the table has gained exactly their entries; and each of their addresses has come back, in
  -- order, with a buffer that the next call reads into as a whole.
  pub open_server-joins :
      (binds listens : Bool) (f : ℕ) (clients : List Accepted) (s : Server)
      (opened : List (ℕ × PerIoData)) (s' : Server)
      → IsConsistent s.players
      → open_server env binds listens f clients s ≡ ok (opened, s')
      → (binds ≡ true) × (listens ≡ true) × Joined clients s.players opened s'.players
  unfolding open_server
  open_server-joins false listens f clients s opened s' v h = cc
  open_server-joins true false f clients s opened s' v h = cc
  open_server-joins true true f clients s opened s' v h = (
    refl,
    refl,
    Returns-ok
        (λ (after : List (ℕ × PerIoData) × Server).
          Joined clients s.players after.0 after.1.players)
        _ (opened, s') (accept_clients-Returns f clients s v) h,
  )
