-- ===== src/Server/Room.antt =====
-- The room message of HandlePlayerJoin, and how a client reads it: the room's properties, the players
-- with theirs, and the time. The reader is written down from the protocol alone.
pub mod Reading
pub mod Encoding
pub mod Joining
use hamang_server.Prelude.{
  Bool, List, Result, [], assert, eqz, err, length, negsuc, ok, out_of_bounds, pos, suc, zero, ℕ, ℤ,
  ◌==◌, ◌>>=◌, ◌>>◌, ◌∷◌,
}
use hamang_server.Text.{Bytes, bytes_eq, codes}
use hamang_server.Text.Decimal.{stoi, to_string}
use hamang_server.Protocol.{
  callback_code, message_info_code, net_sig, room_information_received, server_callbacks,
}
use hamang_server.Properties.{HashValue}

pub record PlayerView : Type 0 where
  pub number : ℤ
  pub is_master : Bool
  pub properties : List (Bytes × HashValue)

pub record RoomView : Type 0 where
  pub properties : List (Bytes × HashValue)
  pub players : List PlayerView
  pub time : Bytes

count_of : ℤ → Result ℕ
count_of (pos n) = ok n
count_of (negsuc n) = err out_of_bounds

take_token : List Bytes → Result (Bytes × List Bytes)
take_token [] = err out_of_bounds
take_token (t ∷ ts) = ok (t, ts)

take_number : List Bytes → Result (ℤ × List Bytes)
unfolding take_token
take_number ts = do (t, rest) ← take_token ts; n ← stoi t; ok (n, rest)

read_entries : ℕ → List Bytes → Result (List (Bytes × HashValue) × List Bytes)
unfolding take_token
read_entries zero ts = ok ([], ts)
read_entries (suc n) ts = do
  (key, t₁) ← take_token ts
  (type_name, t₂) ← take_token t₁
  (value, t₃) ← take_token t₂
  (entries, rest) ← read_entries n t₃
  ok ((key, record { type_name = type_name; value = value }) ∷ entries, rest)

read_table : List Bytes → Result (List (Bytes × HashValue) × List Bytes)
unfolding take_number count_of read_entries
read_table ts = do (n, t₁) ← take_number ts; count ← count_of n; read_entries count t₁

read_player : List Bytes → Result (PlayerView × List Bytes)
unfolding take_token take_number read_table
read_player ts = do
  (number, t₁) ← take_number ts
  (flag, t₂) ← take_token t₁
  (entries, rest) ← read_table t₂
  ok (record { number = number; is_master = bytes_eq flag (codes "1"); properties = entries }, rest)

read_players : ℕ → List Bytes → Result (List PlayerView × List Bytes)
unfolding read_player
read_players zero ts = ok ([], ts)
read_players (suc n) ts = do
  (player, t₁) ← read_player ts
  (players, rest) ← read_players n t₁
  ok (player ∷ players, rest)

-- The front of a packet: the signature, the number of all tokens, the sender -1, and the two codes. The
-- rest comes back.
read_header : List Bytes → Result (List Bytes)
unfolding take_token take_number
read_header ts = do
  (signature, t₁) ← take_token ts
  assert (bytes_eq signature net_sig)
  (size, t₂) ← take_token t₁
  assert (bytes_eq size (to_string (pos (length ts))))
  (sender, t₃) ← take_number t₂
  assert (eqz sender (negsuc 0))
  (kind, t₄) ← take_number t₃
  assert (eqz kind (pos (message_info_code server_callbacks)))
  (code, t₅) ← take_number t₄
  assert (eqz code (pos (callback_code room_information_received)))
  ok t₅

-- A whole packet, with nothing left behind the time.
unfoldable pub read_room : List Bytes → Result RoomView
unfolding take_token take_number count_of read_table read_players read_header
read_room ts = do
  t₀ ← read_header ts
  (entries, t₁) ← read_table t₀
  (n, t₂) ← take_number t₁
  count ← count_of n
  (players, t₃) ← read_players count t₂
  (time, rest) ← take_token t₃
  assert (length rest == 0)
  ok (record { properties = entries; players = players; time = time })
