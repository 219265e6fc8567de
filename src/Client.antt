-- ===== src/Client.antt =====
-- The console clients of Client/Clientcpp.cpp and Client/0506multiThreadClient.cpp: the loops of their
-- two threads, each by itself, though the two share the buffer `msg`. The lines typed and what the calls of `recv` bring are
-- parameters; when they are used up, the loops wait.
pub mod Sending
pub mod Receiving
use hamang_server.Prelude.{
  Bool, List, Result, [], buffer_overflow, err, exited, if◌then◌else◌, length, ltb, not, ok,
  out_of_bounds, true, ℕ, ◌%◌, ◌++◌, ◌/◌, ◌==◌, ◌>>=◌, ◌>>◌, ◌∷◌,
}
use hamang_server.Text.{Bytes, bytes_eq, codes}

-- What the socket was given, whether it was closed, and what was printed.
pub record Connection : Type 0 where
  pub sent : List Bytes
  pub closed : Bool
  pub printed : List Bytes

-- A call of `recv`: the bytes it brings, none at the end of the connection, or SOCKET_ERROR.
pub data Received : Type 0 where
  bytes : Bytes → Received
  socket_error : Received

-- BUFFER of Clientcpp.cpp, and of 0506multiThreadClient.cpp.
abbrev pub client_buffer : ℕ
client_buffer = 1024

abbrev pub old_client_buffer : ℕ
old_client_buffer = 100

-- The text in a buffer: up to the first zero, if there is one.
unfoldable pub until_zero : Bytes → Bytes
until_zero [] = []
until_zero (c ∷ text) = let rest = until_zero text in if c == 0 then [] else c ∷ rest

-- `strcpy_s` into `msg`: a text that does not fit with its zero ends the process.
unfoldable pub copy_text : Bytes → Result Bytes
unfolding until_zero
copy_text line =
    if ltb (length (until_zero line)) client_buffer then ok (until_zero line) else err exited

-- `SendMsg`: each line is sent, until one is "q".
unfoldable pub send_msg : List Bytes → Connection → Result Connection
unfolding copy_text
send_msg [] c = ok c
send_msg (line ∷ lines) c = do
  msg ← copy_text line
  let rest = send_msg lines (record c { sent = c.sent ++ msg ∷ [] })
  if bytes_eq msg (codes "q") then ok (record c { closed = true }) else rest

-- The output of a message.
unfoldable pub echo_line : Bytes → Bytes
echo_line text = codes "ECHO:" ++ text

-- `RecvMsg`: what came in is printed. The zero behind it is written outside the buffer if that is full,
-- and before it if the call failed.
unfoldable pub recv_msg : List Received → Connection → Result Connection
unfolding until_zero echo_line
recv_msg [] c = ok c
recv_msg (socket_error ∷ calls) c = err out_of_bounds
recv_msg (bytes [] ∷ calls) c = ok c
recv_msg (bytes (b ∷ text) ∷ calls) c =
    let rest =
      recv_msg calls (record c { printed = c.printed ++ echo_line (until_zero (b ∷ text)) ∷ [] }) in
    if ltb (length (b ∷ text)) client_buffer then rest else err buffer_overflow

-- The four bytes of an `int`, the lowest first.
unfoldable pub int_bytes : ℕ → Bytes
int_bytes n = n % 256 ∷ n / 256 % 256 ∷ n / 65536 % 256 ∷ n / 16777216 % 256 ∷ []

-- `SendMsg` of the older client: the length of each word, and the word. `cin >> msg` writes past the
-- buffer if a word is longer; "q" ends the process.
unfoldable pub send_sized : List Bytes → Connection → Result Connection
unfolding int_bytes
send_sized [] c = ok c
send_sized (word ∷ words) c =
    let rest =
      send_sized words (record c { sent = c.sent ++ int_bytes (length word) ∷ word ∷ [] }) in
    if not (ltb (length word) old_client_buffer)
    then err buffer_overflow
    else if bytes_eq word (codes "q")
    then err exited
    else rest
