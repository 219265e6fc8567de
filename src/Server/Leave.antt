-- ===== src/Server/Leave.antt =====
-- `HandlePlayerDisconnect` keeps the room in order.
pub mod Successor
use hamang_server.Prelude.{
  Bool, InInt, List, Result, [], ap, append-nil, eqz, false, if◌then◌else◌, none, ok, refl, set,
  some, true, ℕ, ℤ, ◌++◌, ◌>>=◌, ◌>>◌, ◌^◌, ◌||◌, ◌∙◌, ◌∷◌, ◌≡◌, ◌≤◌,
}
use hamang_server.Values.{Rpc}
use hamang_server.Rpc.{remove_player_nr}
use hamang_server.Rpc.Views.{messages_of, messages_of-remove_player_nr}
use hamang_server.Properties.{remove_all_properties}
use hamang_server.Player.{Network}
use hamang_server.Players.{
  PlayerManager, broadcast_message_all, erase_player, find_player, is_nil, remove_player, reset,
}
use hamang_server.Players.Heap.{find-erase_player}
use hamang_server.Players.Invariant.{HasEntries, IsConsistent, IsEntry}
use hamang_server.Players.Broadcast.{HasEntries-AllPresent, broadcast_message_all_lem, deliveries}
use hamang_server.Players.Departure.{
  departed, departed-HasEntries, departed-HasMaster, nobody_flagged, remove_player-departed,
}
use hamang_server.State.{Env, Server}
use hamang_server.Server.{
  after_departure, delete_handle, disconnected_message, handle_player_disconnect, reset_server,
}
use hamang_server.Server.Packets.{length-disconnected_message-le}
use hamang_server.Server.Leave.Successor.{
  IsIssued-InInt, IsSettled, after_departure_lem, remove_all_lem,
}

messages_of-left :
    (queue : List Rpc) (n k view : ℤ) (nobody : Bool)
    → messages_of (if nobody then [] else remove_player_nr queue n) k view
      ≡ (if nobody || eqz n k then [] else messages_of queue k view)
unfolding messages_of
messages_of-left queue n k view true = refl
messages_of-left queue n k view false = messages_of-remove_player_nr queue n k view

module _ (env : Env) (s : Server) (v : IsConsistent s.players) (n : ℤ) (p : ℕ)
    (f : find_player n s.players.player_hash ≡ some p)
    (few : s.players.next_actor_number ≤ 2 ^ 31) where
  e : IsEntry s.players n p
  e = v.has_entries.entries n p f

  number-InInt : InInt n
  number-InInt = IsIssued-InInt n s.players.next_actor_number few (v.has_entries.issued n p f)

  after : PlayerManager
  after = departed s.players v.has_entries n p f (env.freed (v.has_entries.entries n p f).socket)

  after-HasEntries : HasEntries after
  unfolding after
  after-HasEntries =
      departed-HasEntries s.players v.has_entries n p f
        (env.freed (v.has_entries.entries n p f).socket)

  -- The departure up to the news of it: the handle is closed and the others are told.
  told : Network
  unfolding after
  told = record {
    sent = s.net.sent ++ deliveries after.heap after.player_hash (disconnected_message n);
    closed = s.net.closed ++ env.freed (v.has_entries.entries n p f).socket ∷ [];
  }

  abbrev handle_freed : PlayerManager
  handle_freed = record s.players {
    heap = delete_handle env s.players.heap p (v.has_entries.entries n p f).player;
  }

  -- What follows the lookup of the player, for a number and a flag.
  abbrev departing : Bool → ℤ → Result Server
  departing master k = do
    (players, net) ← remove_player handle_freed k s.net
    net' ← broadcast_message_all players.heap players.player_hash (disconnected_message k) net
    after_departure env k master (record s { players = players; net = net' })

  handle_freed_lem : handle_freed ≡ record s.players {
    heap = set s.players.heap p (record (v.has_entries.entries n p f).player {
      handle_info = some (env.freed (v.has_entries.entries n p f).socket);
    });
  }
  unfolding delete_handle
  handle_freed_lem = rw (v.has_entries.entries n p f).open_socket

  departing_lem :
      (master : Bool)
      → departing master n ≡ after_departure env n master (record s { players = after; net = told })
  unfolding after told
  departing_lem master =
      let removed =
        remove_player-departed s.players v.has_entries n p f
          (env.freed (v.has_entries.entries n p f).socket) s.net in
      let news =
        broadcast_message_all_lem after.heap (disconnected_message n)
          (length-disconnected_message-le n number-InInt) after.player_hash
          (record s.net {
            closed = s.net.closed ++ env.freed (v.has_entries.entries n p f).socket ∷ [];
          })
          (HasEntries-AllPresent after after-HasEntries) in
      rw (handle_freed_lem, removed) (rw news)

  disconnect_runs :
      handle_player_disconnect env p s
      ≡ after_departure env n
          (v.has_entries.entries n p f).player.is_master_client
          (record s { players = after; net = told })
  unfolding handle_player_disconnect
  disconnect_runs =
      let e = v.has_entries.entries n p f in
      rw (e.at, handle_player_disconnect)
        (ap (departing e.player.is_master_client) e.number
          ∙ departing_lem e.player.is_master_client)

  -- The room after the news, whatever the flag of the one who left.
  settled :
      (s' : Server) × (after_departure env n
          (v.has_entries.entries n p f).player.is_master_client
          (record s { players = after; net = told })
        ≡ ok s')
      × IsSettled n (record s { players = after; net = told }) s'
  unfolding after departed
  settled =
      let e = v.has_entries.entries n p f in
      let handle = env.freed e.socket in
      after_departure_lem env n (record s { players = after; net = told }) after-HasEntries few
        e.player.is_master_client (λ yes. nobody_flagged s.players v.has_entries n p f handle yes)
        (λ no. departed-HasMaster s.players v.has_entries n p f handle v.has_master no)

  -- The departure as a step: the room stays consistent, and its table has lost the number.
  pub disconnect_step :
      (s' : Server) × (handle_player_disconnect env p s ≡ ok s')
      × IsConsistent s'.players
      × (s'.players.player_hash ≡ erase_player n s.players.player_hash)
      × (s'.players.next_actor_number ≤ s.players.next_actor_number)
  unfolding after departed
  disconnect_step =
      let (s', runs, settles) = settled in
      (s', disconnect_runs ∙ runs, settles.0, settles.1, settles.3)

  -- When the player at an address of a consistent room leaves, and no number beyond an `int` has been
  -- given out, `HandlePlayerDisconnect` returns: no map reads, no assertion and no write past a buffer
  -- fail. The room it leaves is consistent, so that somebody who stays is its master; the player's
  -- number is not in the table any more and every other number is found where it was; and of the
  -- buffered messages exactly those of the player are gone, or all of them if nobody stays.
  pub disconnect_lem :
      (k view : ℤ)
      → (s' : Server) × (handle_player_disconnect env p s ≡ ok s')
        × IsConsistent s'.players
        × (find_player k s'.players.player_hash
            ≡ (if eqz n k then none else find_player k s.players.player_hash))
        × (messages_of s'.message_queue k view ≡ (
            if is_nil (erase_player n s.players.player_hash) || eqz n k
            then []
            else messages_of s.message_queue k view))
  unfolding after departed
  disconnect_lem k view =
      let (s', runs, settles) = settled in
      (
        s',
        disconnect_runs ∙ runs,
        settles.0,
        rw settles.1 (find-erase_player s.players.player_hash n k),
        rw settles.2 (
            messages_of-left s.message_queue n k view
              (is_nil (erase_player n s.players.player_hash))),
      )

  -- When the last player leaves, the room is as new: nobody is in it or is its master, the next player
  -- gets number 1, no buffered message and no room property is left, and no message has gone out.
  pub disconnect-resets :
      erase_player n s.players.player_hash ≡ []
      → (s' : Server) × (handle_player_disconnect env p s ≡ ok s')
        × (s'.players.player_hash ≡ [])
        × (s'.players.master_player ≡ none)
        × (s'.players.next_actor_number ≡ 1)
        × (s'.message_queue ≡ [])
        × (s'.room.custom_property ≡ [])
        × (s'.net.sent ≡ s.net.sent)
  unfolding after_departure reset_server reset remove_all_properties after told departed
  disconnect-resets last = (
    reset_server (record s { players = after; net = told }),
    disconnect_runs ∙ rw last,
    last,
    refl,
    refl,
    remove_all_lem s.message_queue,
    refl,
    rw last (append-nil s.net.sent),
  )
