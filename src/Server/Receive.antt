-- ===== src/Server/Receive.antt =====
-- One round of the loop of `EchoThreadMain` in IOCP_Server.cpp, for the player at an address: a call
-- of the socket has ended. What it received is a parameter, and so is whether the next call works.
pub mod Relay
pub mod Cut
pub mod Resume
pub mod Ending
pub mod Bounds
use hamang_server.Prelude.{
  Bool, Option, Result, [], buffer_overflow, drop, err, false, get_or, if◌then◌else◌, length, ltb,
  none, not, ok, out_of_bounds, some, take, true, ℕ, ◌++◌, ◌+◌, ◌-◌, ◌==◌, ◌>>=◌, ◌>>◌, ◌||◌, ◌∷◌,
}
use hamang_server.Text.{Bytes}
use hamang_server.Protocol.{net_delim}
use hamang_server.Values.{buffer_size, read, write}
use hamang_server.Message.{
  NetworkMessage, build_copied_message, has_message_to_broadcast, new_message, split,
}
use hamang_server.Buffers.{PerIoData, recycle_io}
use hamang_server.Players.{broadcast_message, deref}
use hamang_server.State.{Env, Server}
use hamang_server.Handler.{handle_message}
use hamang_server.Server.{handle_player_disconnect}

-- `memcpy(buf + i, bytes, ...)`
abbrev pub write_at : Bytes → ℕ → Bytes → Bytes
write_at buf i bytes = take i buf ++ bytes ++ drop (i + length bytes) buf

-- The text of a `char *`: up to the first zero, which has to stand in the array.
unfoldable pub c_string : Bytes → Result Bytes
c_string [] = err out_of_bounds
c_string (c ∷ buf) = do
  let rest = c_string buf
  if c == 0 then ok [] else (rest >>= λ text. ok (c ∷ text))

-- The received bytes stand in the buffer, and a zero behind them if there is room for one.
unfoldable pub filled : PerIoData → Bytes → Bytes
filled io received =
    let buffer = write_at io.buffer io.offset received in
    if ltb (length received) io.len
    then write_at buffer (io.offset + length received) (0 ∷ [])
    else buffer

-- The packets of a message for others go to all but the player they came from.
unfoldable pub relay : ℕ → NetworkMessage → Server → Result Server
relay address m s =
    if has_message_to_broadcast m
    then (do
      source_player ← deref s.players.heap address
      net ←
          broadcast_message s.players.heap s.players.player_hash source_player.actor_number
            (build_copied_message m) s.net
      ok (record s { net = net }))
    else ok s

module _ (env : Env) where
  -- `memcpy(buffer, buffer + start, length)`, with `length` = BUFFER - `start`.
  unfoldable pub copy_down : Bytes → ℕ → ℕ → Bytes
  copy_down buffer start length_of_rest =
      if ltb start length_of_rest
      then env.overlapped buffer start
      else write_at buffer 0 (take length_of_rest (drop start buffer))

  -- What is left of the buffer is copied to its front, and the next bytes are to come behind it. With a
  -- start point behind the buffer the length would be negative, and the copy go beyond the buffer.
  unfoldable pub carry : PerIoData → Bytes → ℕ → Bool → Result PerIoData
  unfolding recycle_io copy_down
  carry io buffer start_point end_with_delim =
      let has_rest = ltb 0 start_point || not end_with_delim in
      let length_of_rest = if has_rest then buffer_size - start_point else 0 in
      let moved = if has_rest then copy_down buffer start_point length_of_rest else buffer in
      if ltb buffer_size start_point
      then err buffer_overflow
      else recycle_io (record io { buffer = moved }) read length_of_rest

  -- A message came in: it is cut, handled and relayed. Afterwards the buffer is used again.
  unfoldable pub receive_message : ℕ → ℕ → PerIoData → Bytes → Server → Result (PerIoData × Server)
  unfolding c_string filled carry relay
  receive_message f address io received s = do
    let buffer = filled io received
    message ← c_string buffer
    let end_with_delim = get_or buffer (io.offset + length received - 1) 0 == net_delim
    cut ← split f new_message message net_delim
    (m, s₁) ← handle_message env f cut s
    s₂ ← relay address m s₁
    io' ← carry io buffer m.incomplete_resume_point end_with_delim
    ok (io', s₂)

  -- The round: a player whose call received nothing, or whose next call fails, is disconnected. A
  -- buffer that was sent is given up. The buffer for the next call comes back, if there is one.
  unfoldable pub echo_thread :
      ℕ → ℕ → PerIoData → Bytes → Bool → Server → Result (Option PerIoData × Server)
  unfolding receive_message
  echo_thread f address io received is_next_call s = elim io.rw_mode [
    | write ↦ ok (none, s)
    | read ↦ elim received [
      | [] ↦ do s' ← handle_player_disconnect env address s; ok (none, s')
      | c ∷ bytes ↦ do
        (io', s₁) ← receive_message f address io (c ∷ bytes) s
        elim is_next_call [
          | true ↦ ok (some io', s₁)
          | false ↦ do s₂ ← handle_player_disconnect env address s₁; ok (none, s₂)
        ]
    ]
  ]
