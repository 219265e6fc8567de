-- ===== src/Players.antt =====
-- PlayerManager.h and PlayerManager.cpp. Players live on a heap, an address being a position in it:
-- the table, the master pointer and the handle data share them, and a player who is removed from
-- the table stays on the heap. The mutex makes each operation one step.
pub mod Heap
pub mod Invariant
pub mod Masters
pub mod Broadcast
pub mod Departure
pub mod Update
use hamang_server.Prelude.{
  Bool, List, Option, Result, [], eqz, err, false, get_elem?, if◌then◌else◌, length, none,
  null_pointer, ok, or_fault, out_of_bounds, pos, set, some, true, ℕ, ℤ, ◌++◌, ◌+◌, ◌>>=◌, ◌>>◌,
  ◌∷◌,
}
use hamang_server.Text.{Bytes}
use hamang_server.Protocol.{
  callback_code, master_client_changed, message_info_code, server_callbacks,
}
use hamang_server.Message.{NetworkMessage, append_int, build_new_signed_message, new_message}
use hamang_server.Player.{Network, Player, encode_player, new_player, send, set_actor_number}

pub record PlayerManager : Type 0 where
  pub heap : List Player
  -- actor numbers with addresses, in the table's order of iteration; a new one goes to the end
  pub player_hash : List (ℤ × ℕ)
  pub master_player : Option ℕ
  pub next_actor_number : ℕ

abbrev pub new_player_manager : PlayerManager
new_player_manager = record {
  heap = [];
  player_hash = [];
  master_player = none;
  next_actor_number = 1;
}

-- `playerHash[number]`: a number that is not there reads as the null pointer.
unfoldable pub find_player : ℤ → List (ℤ × ℕ) → Option ℕ
find_player number [] = none
find_player number ((k, p) ∷ hash) = if eqz k number then some p else find_player number hash

-- `insert` of a table: a key that is there already keeps its value.
unfoldable pub insert_player : ℤ → ℕ → List (ℤ × ℕ) → List (ℤ × ℕ)
insert_player number p [] = (number, p) ∷ []
insert_player number p ((k, q) ∷ hash) =
    if eqz k number then (k, q) ∷ hash else (k, q) ∷ insert_player number p hash

unfoldable pub erase_player : ℤ → List (ℤ × ℕ) → List (ℤ × ℕ)
erase_player number [] = []
erase_player number ((k, p) ∷ hash) =
    let rest = erase_player number hash in if eqz k number then rest else (k, p) ∷ rest

-- `*p`
abbrev pub deref : List Player → ℕ → Result Player
deref heap p = or_fault (get_elem? heap p) null_pointer

-- `p->isMasterClient = b`
unfoldable pub set_master_flag : List Player → ℕ → Bool → Result (List Player)
set_master_flag heap p b = do
  player ← deref heap p
  ok (set heap p (record player { is_master_client = b }))

abbrev pub is_nil : List (ℤ × ℕ) → Bool
is_nil [] = true
is_nil (e ∷ hash) = false

-- The player that `CreatePlayer` puts on the heap.
unfoldable pub joining_player : PlayerManager → ℕ → Player
unfolding set_actor_number
joining_player pm socket =
    record (set_actor_number (record new_player { handle_info = some socket })
      (pos pm.next_actor_number)) { is_master_client = is_nil pm.player_hash }

-- The new player's address comes back beside the new state.
unfoldable pub create_player : PlayerManager → ℕ → ℕ × PlayerManager
unfolding joining_player insert_player
create_player pm socket =
    let address = length pm.heap in
    let player = joining_player pm socket in
    (
      address,
      record pm {
        heap = pm.heap ++ player ∷ [];
        player_hash = insert_player player.actor_number address pm.player_hash;
        master_player = if player.is_master_client then some address else pm.master_player;
        next_actor_number = pm.next_actor_number + 1;
      },
    )

-- `if (masterPlayer) masterPlayer->isMasterClient = false;`
abbrev pub demote : List Player → Option ℕ → Result (List Player)
demote heap none = ok heap
demote heap (some p) = set_master_flag heap p false

unfoldable pub set_master_client : PlayerManager → ℤ → Result PlayerManager
unfolding set_master_flag
set_master_client pm new_master = do
  demoted ← demote pm.heap pm.master_player
  address ← or_fault (find_player new_master pm.player_hash) null_pointer
  promoted ← set_master_flag demoted address true
  ok (record pm { heap = promoted; master_player = some address })

-- `BroadcastMessageAll`
unfoldable pub broadcast_message_all : List Player → List (ℤ × ℕ) → Bytes → Network → Result Network
broadcast_message_all heap [] message net = ok net
broadcast_message_all heap ((k, p) ∷ hash) message net = do
  player ← deref heap p
  net' ← send player message false net
  broadcast_message_all heap hash message net'

-- `BroadcastMessage`: to all but the player with the source's number.
unfoldable pub broadcast_message : List Player → List (ℤ × ℕ) → ℤ → Bytes → Network → Result Network
broadcast_message heap [] source message net = ok net
broadcast_message heap ((k, p) ∷ hash) source message net = do
  player ← deref heap p
  net' ← if eqz player.actor_number source then ok net else send player message false net
  broadcast_message heap hash source message net'

-- `playerHash.begin()->second`; of an empty table there is none.
abbrev pub get_first_player : List (ℤ × ℕ) → Result ℕ
get_first_player [] = err out_of_bounds
get_first_player ((k, p) ∷ hash) = ok p

-- The packet that names the new master.
unfoldable pub master_changed_message : ℤ → ℤ → Bytes
master_changed_message sender master = build_new_signed_message (
    append_int
      (append_int
        (append_int (append_int new_message sender) (pos (message_info_code server_callbacks)))
        (pos (callback_code master_client_changed)))
      master)

unfoldable pub change_master_client_on_disconnect :
    PlayerManager → Network → Result (PlayerManager × Network)
unfolding set_master_flag
change_master_client_on_disconnect pm net = do
  address ← get_first_player pm.player_hash
  promoted ← set_master_flag pm.heap address true
  master ← deref promoted address
  net' ←
      broadcast_message_all promoted pm.player_hash
        (master_changed_message (pos 0) master.actor_number) net
  ok (record pm { heap = promoted; master_player = some address }, net')

-- `RemovePlayer`. A number that is not in the table is only logged.
abbrev remove_found : PlayerManager → ℤ → Network → Option ℕ → Result (PlayerManager × Network)
remove_found pm number net none = ok (pm, net)
remove_found pm number net (some address) = do
  player ← deref pm.heap address
  socket ← or_fault player.handle_info null_pointer
  ok (
    record pm { player_hash = erase_player number pm.player_hash },
    record net { closed = net.closed ++ socket ∷ [] },
  )

unfoldable pub remove_player : PlayerManager → ℤ → Network → Result (PlayerManager × Network)
remove_player pm number net = remove_found pm number net (find_player number pm.player_hash)

abbrev pub get_player_count : PlayerManager → ℕ
get_player_count pm = length pm.player_hash

unfoldable pub reset : PlayerManager → PlayerManager
reset pm = record pm { master_player = none; next_actor_number = 1 }

-- The players other than the one who joins, in the table's order.
unfoldable pub encode_others :
    List Player → List (ℤ × ℕ) → ℤ → NetworkMessage → Result NetworkMessage
encode_others heap [] joined m = ok m
encode_others heap ((k, p) ∷ hash) joined m = do
  player ← deref heap p
  encode_others heap hash joined (if eqz k joined then m else encode_player player m)

unfoldable pub encode_players_to_network :
    PlayerManager → Player → NetworkMessage → Result NetworkMessage
unfolding encode_others
encode_players_to_network pm joined m =
    encode_others pm.heap pm.player_hash joined.actor_number
      (encode_player joined (append_int m (pos (get_player_count pm))))
