-- ===== src/Handler.antt =====
-- MessageHandler.cpp: what a received packet does. Assertions are checked (a debug build). A handler
-- takes the message with its cursor and the server, and returns both.
pub mod Loop
pub mod Endless
pub mod Invariant
pub mod Ending
pub mod Targets
pub mod Updates
pub mod Removal
use hamang_server.Prelude.{
  Bool, List, Option, Result, assert, eqz, err, false, if◌then◌else◌, negsuc, ok, out_of_fuel, pos,
  pos_part, set, some, suc, true, zero, ℕ, ℤ, ◌>>=◌, ◌>>◌,
}
use hamang_server.Text.{Bytes, bytes_eq}
use hamang_server.Text.Decimal.{to_string}
use hamang_server.Protocol.{
  LexRequest, MessageInfo, callback_code, change_master_client, db_reference, instantiate,
  message_info_code, message_info_of, net_sig, ping, ping_received, receive_modified_time,
  remove_rpcs_request, request_of, rpc, server_callbacks, server_request, set_hash,
}
use hamang_server.Message.{
  NetworkMessage, append, append_int, build_new_signed_message, get_next, get_next_int, has_next,
  new_message, save_strings_for_broadcast, set_begin_point, set_end_point, set_iterator_to_end,
}
use hamang_server.Values.{Rpc}
use hamang_server.Rpc.{enqueue_message, remove_player_nr, remove_rpc, remove_view_id}
use hamang_server.Properties.{set_property}
use hamang_server.Player.{send}
use hamang_server.Players.{broadcast_message_all, master_changed_message, set_master_client}
use hamang_server.Ping.{get_time_now, time_synch_receive}
use hamang_server.Database.{handle_request}
use hamang_server.State.{Env, Server, player_at}

abbrev pub Handled : Type 0
Handled = Result (NetworkMessage × Server)

unfoldable pub check_message_complete : NetworkMessage → Result (Bool × NetworkMessage)
check_message_complete m =
    if has_next m
    then (do (length_of_messages, m') ← get_next_int m; set_end_point m' length_of_messages)
    else ok (false, m)

-- `assert(netMessage.HasNext())` and the read behind it.
assert_next : NetworkMessage → Result (Bytes × NetworkMessage)
assert_next m = do assert (has_next m); get_next m

pub assert_next_int : NetworkMessage → Result (ℤ × NetworkMessage)
assert_next_int m = do assert (has_next m); get_next_int m

-- One property of the room (target 0) or of a player.
unfoldable pub set_target_property : ℤ → Bytes → Bytes → Bytes → Server → Result Server
set_target_property target key type_name value s =
    if eqz target (pos 0)
    then ok (record s { room = set_property s.room key type_name value })
    else do
      (address, player) ← player_at s.players target
      let changed = record player {
        custom_property = set_property player.custom_property key type_name value;
      }
      ok (record s { players = record s.players { heap = set s.players.heap address changed } })

-- The loop over the properties of one packet.
unfoldable pub read_properties : ℕ → ℤ → NetworkMessage → Server → Handled
unfolding assert_next
read_properties zero target m s = ok (m, s)
read_properties (suc rounds) target m s = do
  (key, m₁) ← assert_next m
  (type_name, m₂) ← assert_next m₁
  (value, m₃) ← assert_next m₂
  s' ← set_target_property target key type_name value s
  read_properties rounds target m₃ s'

unfoldable pub handle_property_request : NetworkMessage → Server → Handled
unfolding assert_next_int read_properties
handle_property_request m s = do
  (target, m₁) ← assert_next_int m
  (num_hash, m₂) ← assert_next_int m₁
  (m₃, s') ← read_properties (pos_part num_hash) target m₂ s
  (message, m₄) ← save_strings_for_broadcast m₃
  ok (m₄, s')

unfoldable pub handle_change_master_client : NetworkMessage → Server → Handled
unfolding assert_next_int
handle_change_master_client m s = do
  (new_master_actor, m') ← assert_next_int m
  players ← set_master_client s.players new_master_actor
  net ←
      broadcast_message_all players.heap players.player_hash
        (master_changed_message m'.sent_actor_nr new_master_actor) s.net
  ok (m', record s { players = players; net = net })

-- The removal that an actor and a view ask for; -1 stands for any.
unfoldable pub remove_rpcs : ℤ → ℤ → List Rpc → List Rpc
remove_rpcs actor view queue =
    if eqz actor (negsuc 0)
    then remove_view_id queue view
    else if eqz view (negsuc 0)
    then remove_player_nr queue actor
    else remove_rpc queue actor view

unfoldable pub handle_remove_rpcs : NetworkMessage → Server → Handled
unfolding assert_next_int
handle_remove_rpcs m s = do
  (actor_id, m₁) ← assert_next_int m
  (view_id, m₂) ← assert_next_int m₁
  ok (m₂, record s { message_queue = remove_rpcs actor_id view_id s.message_queue })

-- The reply to a ping: the server's time.
unfoldable pub ping_message : ℤ → ℤ → Bytes
ping_message actor time_now = build_new_signed_message (
    append
      (append_int
        (append_int (append_int new_message actor) (pos (message_info_code server_callbacks)))
        (pos (callback_code ping_received)))
      (to_string time_now))

-- `RPC` and `Instantiate` are kept for those who join later.
unfoldable pub is_buffered : Option MessageInfo → Bool
is_buffered (some rpc) = true
is_buffered (some instantiate) = true
is_buffered _ = false

-- A packet for the other players.
unfoldable pub handle_echo : Option MessageInfo → NetworkMessage → Server → Handled
unfolding is_buffered
handle_echo info m s = do
  (message, m₁) ← save_strings_for_broadcast m
  let kept = do
    (view_id, m₂) ← get_next_int m₁
    let queue = enqueue_message s.message_queue m₂.sent_actor_nr view_id message
    ok (
      set_iterator_to_end (record m₂ { target_view_id = view_id }),
      record s { message_queue = queue },
    )
  if is_buffered info then kept else ok (set_iterator_to_end m₁, s)

module _ (env : Env) where
  unfoldable pub handle_receive_modified_time : NetworkMessage → Server → Handled
  unfolding assert_next_int
  handle_receive_modified_time m s = do
    (request_rpc, m') ← assert_next_int m
    (address, target) ← player_at s.players m'.sent_actor_nr
    (pings, net) ← time_synch_receive env.clock s.pings target s.net
    ok (m', record s { pings = pings; net = net })

  unfoldable pub handle_ping : NetworkMessage → Server → Handled
  unfolding ping_message
  handle_ping m s = do
    let (time_now, pings) = get_time_now env.clock s.pings
    (address, target) ← player_at s.players m.sent_actor_nr
    net ← send target (ping_message m.sent_actor_nr time_now) false s.net
    ok (m, record s { pings = pings; net = net })

  unfoldable pub handle_db_reference : NetworkMessage → Server → Handled
  handle_db_reference m s = do
    (m', executed, net) ← handle_request env.odbc m s.players s.executed s.net
    ok (m', record s { executed = executed; net = net })

  -- The `switch` on the request.
  unfoldable pub handle_request_code : Option LexRequest → NetworkMessage → Server → Handled
  handle_request_code (some remove_rpcs_request) m s = handle_remove_rpcs m s
  handle_request_code (some receive_modified_time) m s = handle_receive_modified_time m s
  handle_request_code (some change_master_client) m s = handle_change_master_client m s
  handle_request_code (some ping) m s = handle_ping m s
  handle_request_code (some db_reference) m s = handle_db_reference m s
  handle_request_code _ m s = ok (m, s)

  unfoldable pub handle_server_request : NetworkMessage → Server → Handled
  unfolding assert_next_int handle_request_code
  handle_server_request m s = do
    (message_code, m') ← assert_next_int m
    handle_request_code (request_of message_code) m' s

  unfoldable pub handle_info : Option MessageInfo → NetworkMessage → Server → Handled
  unfolding handle_server_request handle_property_request handle_echo
  handle_info (some server_request) m s = handle_server_request m s
  handle_info (some set_hash) m s = handle_property_request m s
  handle_info info m s = handle_echo info m s

  -- The packet behind its signature and length.
  unfoldable pub handle_packet : NetworkMessage → Server → Handled
  unfolding handle_info
  handle_packet m s = do
    (sent_actor_nr, m₁) ← get_next_int m
    (info, m₂) ← get_next_int (record m₁ { sent_actor_nr = sent_actor_nr })
    handle_info (message_info_of info) m₂ s

  -- The loop of `HandleMessage`, over the cursor.
  unfoldable pub handle_message : ℕ → NetworkMessage → Server → Handled
  unfolding handle_packet check_message_complete
  handle_message zero m s = err out_of_fuel
  handle_message (suc f) m s = elim (has_next m) [
    | false ↦ ok (m, s)
    | true ↦ do
      (signature, m₁) ← get_next (set_begin_point m)
      elim (bytes_eq signature net_sig) [
        | false ↦ handle_message f m₁ s
        | true ↦ do
          (is_complete, m₂) ← check_message_complete m₁
          elim is_complete [
            | false ↦ ok (m₂, s)
            | true ↦ do (m₃, s') ← handle_packet m₂ s; handle_message f m₃ s'
          ]
      ]
  ]
