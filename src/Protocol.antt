-- ===== src/Protocol.antt =====
-- SharedEnums.h: the words of the wire format. An enum travels as the number of its enumerator; a
-- number that no enumerator has is cast to a value that no test of the server matches (`none`).
use hamang_server.Prelude.{Option, none, pos, some, suc, zero, ℕ, ℤ}
use hamang_server.Text.{Bytes, codes}

-- NET_DELIM is "#"
abbrev pub net_delim : ℕ
net_delim = b'#'

-- NET_SIG
abbrev pub net_sig : Bytes
net_sig = codes "LEX"

pub data MessageInfo : Type 0 where
  server_request rpc sync_var chat instantiate destroy set_hash server_callbacks : MessageInfo

pub data LexCallback : Type 0 where
  no_callback player_joined player_disconnected on_local_player_joined : LexCallback
  master_client_changed hash_changed disconnected modify_server_time : LexCallback
  room_information_received ping_received chat_received db_received : LexCallback

pub data LexRequest : Type 0 where
  no_request remove_rpcs_request change_master_client receive_modified_time ping db_reference :
      LexRequest

pub data LexDbCode : Type 0 where
  log_in set_value append_value get_value sql : LexDbCode

pub data LexDbTable : Type 0 where
  statistics events achievements leaderboards : LexDbTable

-- The casts to `int`.
abbrev pub message_info_code : MessageInfo → ℕ
message_info_code server_request = 0
message_info_code rpc = 1
message_info_code sync_var = 2
message_info_code chat = 3
message_info_code instantiate = 4
message_info_code destroy = 5
message_info_code set_hash = 6
message_info_code server_callbacks = 7

abbrev pub callback_code : LexCallback → ℕ
callback_code no_callback = 0
callback_code player_joined = 1
callback_code player_disconnected = 2
callback_code on_local_player_joined = 3
callback_code master_client_changed = 4
callback_code hash_changed = 5
callback_code disconnected = 6
callback_code modify_server_time = 7
callback_code room_information_received = 8
callback_code ping_received = 9
callback_code chat_received = 10
callback_code db_received = 11

abbrev pub db_code_code : LexDbCode → ℕ
db_code_code log_in = 0
db_code_code set_value = 1
db_code_code append_value = 2
db_code_code get_value = 3
db_code_code sql = 4

abbrev pub db_table_code : LexDbTable → ℕ
db_table_code statistics = 0
db_table_code events = 1
db_table_code achievements = 2
db_table_code leaderboards = 3

-- The casts from `int`.
abbrev pub message_info_of : ℤ → Option MessageInfo
message_info_of (pos zero) = some server_request
message_info_of (pos (suc zero)) = some rpc
message_info_of (pos (suc (suc zero))) = some sync_var
message_info_of (pos (suc (suc (suc zero)))) = some chat
message_info_of (pos (suc (suc (suc (suc zero))))) = some instantiate
message_info_of (pos (suc (suc (suc (suc (suc zero)))))) = some destroy
message_info_of (pos (suc (suc (suc (suc (suc (suc zero))))))) = some set_hash
message_info_of (pos (suc (suc (suc (suc (suc (suc (suc zero)))))))) = some server_callbacks
message_info_of _ = none

abbrev pub request_of : ℤ → Option LexRequest
request_of (pos zero) = some no_request
request_of (pos (suc zero)) = some remove_rpcs_request
request_of (pos (suc (suc zero))) = some change_master_client
request_of (pos (suc (suc (suc zero)))) = some receive_modified_time
request_of (pos (suc (suc (suc (suc zero))))) = some ping
request_of (pos (suc (suc (suc (suc (suc zero)))))) = some db_reference
request_of _ = none

abbrev pub db_code_of : ℤ → Option LexDbCode
db_code_of (pos zero) = some log_in
db_code_of (pos (suc zero)) = some set_value
db_code_of (pos (suc (suc zero))) = some append_value
db_code_of (pos (suc (suc (suc zero)))) = some get_value
db_code_of (pos (suc (suc (suc (suc zero))))) = some sql
db_code_of _ = none

abbrev pub db_table_of : ℤ → Option LexDbTable
db_table_of (pos zero) = some statistics
db_table_of (pos (suc zero)) = some events
db_table_of (pos (suc (suc zero))) = some achievements
db_table_of (pos (suc (suc (suc zero)))) = some leaderboards
db_table_of _ = none
