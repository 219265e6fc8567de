-- ===== src/Player.antt =====
-- Player.h and Player.cpp, and the calls of the sockets: what was sent, and what was closed. A
-- pointer to the handle data is the socket that it holds; `none` is the null pointer.
use hamang_server.Prelude.{
  Bool, List, Option, Result, [], false, if◌then◌else◌, negsuc, none, not, null_pointer, ok,
  or_fault, take, true, ℕ, ℤ, ◌&&◌, ◌++◌, ◌>>=◌, ◌∷◌,
}
use hamang_server.Text.{Bytes, codes}
use hamang_server.Text.Decimal.{to_string}
use hamang_server.Message.{NetworkMessage, append}
use hamang_server.Values.{write}
use hamang_server.Buffers.{create_message_buffer}
use hamang_server.Properties.{HashTable, encode_to_network, new_hash_table}

-- The calls of `WSASend` and `closesocket`, in order.
pub record Network : Type 0 where
  pub sent : List (ℕ × Bytes)
  pub closed : List ℕ

pub record Player : Type 0 where
  pub handle_info : Option ℕ
  pub unique_id : Bytes
  pub actor_number : ℤ
  pub is_master_client : Bool
  pub is_connected : Bool
  pub custom_property : HashTable

abbrev pub new_player : Player
new_player = record {
  handle_info = none;
  unique_id = [];
  actor_number = negsuc 0;
  is_master_client = false;
  is_connected = false;
  custom_property = new_hash_table;
}

unfoldable pub set_actor_number : Player → ℤ → Player
set_actor_number p id = record p {
  actor_number = id;
  custom_property = record p.custom_property { name = codes "Client " ++ to_string id };
}

-- `Send`. A player who is not connected yet is sent only what is initial.
unfoldable pub send : Player → Bytes → Bool → Network → Result Network
unfolding create_message_buffer
send p message is_initial net = if not p.is_connected && not is_initial then ok net else do
  clone_io ← create_message_buffer message write
  target_socket ← or_fault p.handle_info null_pointer
  ok (record net { sent = net.sent ++ (target_socket, take clone_io.len clone_io.buffer) ∷ [] })

-- `to_string` of a `bool`
abbrev pub bool_text : Bool → Bytes
bool_text true = codes "1"
bool_text false = codes "0"

unfoldable pub encode_player : Player → NetworkMessage → NetworkMessage
encode_player p m =
    encode_to_network p.custom_property
      (append (append m (to_string p.actor_number)) (bool_text p.is_master_client))
