-- ===== src/Client/Sending.antt =====
-- What the client's threads do with lines and texts that fit their buffer.
use hamang_server.Prelude.{
  All, Bool, List, [], append-nil, append_assoc, arith, false, length, lt→ltb, map, ok, refl, true,
  ◌++◌, ◌<◌, ◌∙◌, ◌∷◌, ◌≡◌,
}
use hamang_server.Text.{Bytes, Lacks, bytes_eq, codes, is_empty}
use hamang_server.Client.{
  Connection, Received, bytes, client_buffer, copy_text, echo_line, recv_msg, send_msg, until_zero,
}

until_zero-Lacks : (text : Bytes) → Lacks 0 text → until_zero text ≡ text
unfolding until_zero
until_zero-Lacks [] h = refl
until_zero-Lacks (c ∷ text) h = ground (arith, until_zero-Lacks text)

-- A line without zeros that fits the buffer.
abbrev pub IsLine : Bytes → Type 0
IsLine line = Lacks 0 line × (length line < client_buffer)

abbrev pub is_quit : Bytes → Bool
is_quit line = bytes_eq line (codes "q")

-- A line of that kind that does not end the program.
abbrev pub IsSent : Bytes → Type 0
IsSent line = IsLine line × (is_quit line ≡ false)

copy_text_lem : (line : Bytes) → IsLine line → copy_text line ≡ ok line
unfolding copy_text
copy_text_lem line h = rw (until_zero-Lacks line h.0, lt→ltb (length line) client_buffer h.1)

-- If lines are typed that fit the buffer, hold no zero and are not "q", and then "q", then the sending
-- thread gives the socket exactly these lines, in order, closes it and ends; what is typed after "q" is
-- not sent.
pub send_msg_lem :
    (lines rest : List Bytes) (c : Connection)
    → All IsSent lines
    → send_msg (lines ++ codes "q" ∷ rest) c
      ≡ ok (record c { sent = c.sent ++ lines; closed = true })
unfolding send_msg
send_msg_lem [] rest c h = rw (append-nil c.sent)
send_msg_lem (line ∷ lines) rest c h =
    rw (copy_text_lem line h.0.0, h.0.1)
      (send_msg_lem lines rest (record c { sent = c.sent ++ line ∷ [] }) h.1
        ∙ rw (append_assoc c.sent (line ∷ []) lines))

-- A text that comes in whole and is printed.
abbrev pub IsPrinted : Bytes → Type 0
IsPrinted text = IsLine text × (is_empty text ≡ false)

-- If texts come in that are shorter than the buffer, hold no zero and are not empty, and then the end of
-- the connection, then the receiving thread prints exactly these texts, in order, each behind
-- "ECHO:", and ends.
pub recv_msg_lem :
    (texts : List Bytes) (rest : List Received) (c : Connection)
    → All IsPrinted texts
    → recv_msg (map bytes texts ++ bytes [] ∷ rest) c
      ≡ ok (record c { printed = c.printed ++ map echo_line texts })
unfolding recv_msg
recv_msg_lem [] rest c h = rw (append-nil c.printed)
recv_msg_lem ([] ∷ texts) rest c h = cc
recv_msg_lem ((b ∷ text) ∷ texts) rest c h =
    rw (lt→ltb (length (b ∷ text)) client_buffer h.0.0.1, until_zero-Lacks (b ∷ text) h.0.0.0)
      (recv_msg_lem texts rest (record c { printed = c.printed ++ echo_line (b ∷ text) ∷ [] }) h.1
        ∙ rw (append_assoc c.printed (echo_line (b ∷ text) ∷ []) (map echo_line texts)))
