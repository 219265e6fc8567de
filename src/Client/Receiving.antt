-- ===== src/Client/Receiving.antt =====
-- `RecvMsg` of Client/0506multiThreadClient.cpp: the length of a message comes in, then the message. The
-- buffer is shared with the sending thread there; the loop is modelled by itself.
pub mod Echo
use hamang_server.Prelude.{
  Bool, List, Result, [], buffer_overflow, err, get_or, if◌then◌else◌, length, ltb, neg_part,
  negsuc, ok, pos, pos_part, set, sub_ℕ, suc, zero, ℕ, ℤ, ◌*◌, ◌++◌, ◌+◌, ◌-ℤ◌, ◌-◌, ◌>>=◌, ◌>>◌,
  ◌∷◌,
}
use hamang_server.Text.{Bytes}
use hamang_server.Server.Receive.{c_string, write_at}
use hamang_server.Client.{Connection, Received, bytes, echo_line, old_client_buffer, socket_error}

-- What the next call of `recv` is for: a length, or more bytes of a message of which so many are expected
-- and so many are counted as received.
pub data Awaited : Type 0 where
  size : Awaited
  content : ℤ → ℤ → Awaited

-- `expectedBytes`, which was 0, once these bytes were written to it, the lowest first.
unfoldable pub int_of : Bytes → ℤ
int_of brought =
    let n =
      get_or brought 0 0
      + 256 * get_or brought 1 0
      + 65536 * get_or brought 2 0
      + 16777216 * get_or brought 3 0 in
    if ltb n 2147483648 then pos n else negsuc (4294967295 - n)

-- `receivedBytes < expectedBytes`.
unfoldable pub ltz : ℤ → ℤ → Bool
ltz a b = ltb (pos_part a + neg_part b) (pos_part b + neg_part a)

-- `receivedBytes += received`.
unfoldable pub add_received : ℤ → ℕ → ℤ
add_received received count = sub_ℕ (pos_part received + count) (neg_part received)

-- `msg[expectedBytes + 1] = 0`.
unfoldable pub terminate : ℤ → Bytes → Result Bytes
terminate (pos expected) msg =
    if ltb (expected + 1) old_client_buffer
    then ok (set msg (expected + 1) 0)
    else err buffer_overflow
terminate (negsuc zero) msg = ok (set msg 0 0)
terminate (negsuc (suc n)) msg = err buffer_overflow

-- The message is ended and printed.
unfoldable pub echo : ℤ → Bytes → Connection → Result (Bytes × Connection)
unfolding terminate c_string echo_line
echo expected msg c = do
  msg' ← terminate expected msg
  text ← c_string msg'
  ok (msg', record c { printed = c.printed ++ echo_line text ∷ [] })

-- A part of a message is received to the front of the buffer, whatever was received before.
unfoldable pub put_part : Bytes → Bytes → Result Bytes
put_part part msg =
    if ltb old_client_buffer (length part) then err buffer_overflow else ok (write_at msg 0 part)

-- The loops of `RecvMsg`, over the calls of `recv`, for what the next call is for. A failed call counts -1
-- bytes.
unfoldable pub recv_sized : Awaited → List Received → Bytes → Connection → Result Connection
unfolding int_of ltz add_received echo put_part
recv_sized awaited [] msg c = ok c
recv_sized size (bytes [] ∷ calls) msg c = ok c
recv_sized size (bytes (b ∷ part) ∷ calls) msg c =
    let expected = int_of (b ∷ part) in
    let more = recv_sized (content expected (pos 0)) calls msg c in
    let done = (do (msg', c') ← echo expected msg c; recv_sized size calls msg' c') in
    if ltz (pos 0) expected then more else done
recv_sized size (socket_error ∷ calls) msg c = do
  (msg', c') ← echo (pos 0) msg c
  recv_sized size calls msg' c'
recv_sized (content expected received) (bytes [] ∷ calls) msg c = do
  (msg', c') ← echo expected msg c
  recv_sized size calls msg' c'
recv_sized (content expected received) (bytes (b ∷ part) ∷ calls) msg c =
    let total = add_received received (length (b ∷ part)) in
    do
      msg' ← put_part (b ∷ part) msg
      let more = recv_sized (content expected total) calls msg' c
      let done = (do (msg'', c') ← echo expected msg' c; recv_sized size calls msg'' c')
      if ltz total expected then more else done
recv_sized (content expected received) (socket_error ∷ calls) msg c =
    recv_sized (content expected (received -ℤ pos 1)) calls msg c
