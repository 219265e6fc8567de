-- ===== src/Message/Names.antt =====
-- The printing of a message, of NetworkMessage.h, for a log (EASY_LOG).
use hamang_server.Prelude.{
  Option, Result, [], get_elem?, length, neg_part, none, ok, or_fault, out_of_bounds, pos_part,
  some, suc, zero, ℕ, ℤ, ◌++◌, ◌+◌, ◌-◌, ◌>>=◌,
}
use hamang_server.Text.{Bytes, codes}
use hamang_server.Text.Decimal.{stoi}
use hamang_server.Protocol.{
  LexRequest, MessageInfo, change_master_client, chat, destroy, instantiate, message_info_of, ping,
  receive_modified_time, remove_rpcs_request, request_of, rpc, server_callbacks, server_request,
  set_hash, sync_var,
}
use hamang_server.Message.{NetworkMessage}

unfoldable pub msg_info_to_string : Option MessageInfo → Bytes
msg_info_to_string none = codes "?"
msg_info_to_string (some server_request) = codes "Server Request"
msg_info_to_string (some rpc) = codes "RPC"
msg_info_to_string (some sync_var) = codes "SyncVar"
msg_info_to_string (some chat) = codes "Chat"
msg_info_to_string (some instantiate) = codes "Instantiate"
msg_info_to_string (some destroy) = codes "Destroy"
msg_info_to_string (some set_hash) = codes "SetHash"
msg_info_to_string (some server_callbacks) = codes "ServerCallbacks"

unfoldable pub req_info_to_string : Option LexRequest → Bytes
req_info_to_string (some remove_rpcs_request) = codes "RemoveRPC"
req_info_to_string (some change_master_client) = codes "ChangeMasterClient"
req_info_to_string (some receive_modified_time) = codes "Receive_modifiedTime"
req_info_to_string (some ping) = codes "Ping"
req_info_to_string _ = codes "?"

-- `tokens[iter]`
token_at : NetworkMessage → ℕ → Result Bytes
token_at m iter = or_fault (get_elem? m.tokens iter) out_of_bounds

-- The loop that prints the tokens from `iter` on, for so many rounds.
print_tokens : NetworkMessage → ℕ → ℕ → Result Bytes
unfolding token_at
print_tokens m zero iter = ok (codes "\n")
print_tokens m (suc rounds) iter = do
  token ← token_at m iter
  rest ← print_tokens m rounds (iter + 1)
  ok (codes " " ++ token ++ rest)

-- The rounds of `while (iter < initial + length)`.
rounds_left : ℕ → ℤ → ℕ → ℕ
rounds_left initial length iter = initial + pos_part length - (iter + neg_part length)

-- The head that a server request has in the log. A ping is not logged at all.
request_head : Bytes → Option LexRequest → Option Bytes
request_head sent_actor (some ping) = none
request_head sent_actor request = some (
    codes "===============================\n"
    ++ sent_actor
    ++ codes " : "
    ++ msg_info_to_string (some server_request)
    ++ codes " - "
    ++ req_info_to_string request)

print_rest : NetworkMessage → ℤ → ℕ → Option Bytes → Result Bytes
unfolding print_tokens rounds_left
print_rest m length iter none = ok []
print_rest m length iter (some head) = do
  rest ← print_tokens m (rounds_left m.begin_point length iter) iter
  ok (head ++ rest)

print_as : NetworkMessage → ℤ → Bytes → Option MessageInfo → Result Bytes
unfolding print_rest request_head token_at
print_as m length sent_actor (some server_request) = do
  token ← token_at m (m.begin_point + 4)
  request ← stoi token
  print_rest m length (m.begin_point + 5) (request_head sent_actor (request_of request))
print_as m length sent_actor info = print_rest m length (m.begin_point + 4) (some [])

-- The text that `PrintOut` writes.
unfoldable pub print_out : NetworkMessage → Result Bytes
unfolding print_as token_at
print_out m = do
  length_token ← token_at m (m.begin_point + 1)
  length ← stoi length_token
  sent_actor ← token_at m (m.begin_point + 2)
  info ← token_at m (m.begin_point + 3)
  code ← stoi info
  print_as m length sent_actor (message_info_of code)
