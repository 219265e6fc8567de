-- ===== src/Examples/Clients.antt =====
-- The console client.
use hamang_server.Prelude.{[], arith, false, map, ok, refl, true, ◌>>=◌, ◌∷◌, ◌≡◌}
use hamang_server.Text.{Lacks-lacks, codes}
use hamang_server.Client.{Connection, bytes, echo_line, int_bytes, recv_msg, send_msg, send_sized}
use hamang_server.Client.Sending.{recv_msg_lem, send_msg_lem}
use hamang_server.Client.Receiving.{recv_sized, size}
use hamang_server.Client.Receiving.Echo.{blank_buffer, recv_sized-send_sized}

abbrev fresh : Connection
fresh = record { sent = []; closed = false; printed = [] }

send_msg_lem_example :
    send_msg (codes "hi" ∷ codes "you" ∷ codes "q" ∷ codes "late" ∷ []) fresh
    ≡ ok (record fresh { sent = codes "hi" ∷ codes "you" ∷ []; closed = true })
send_msg_lem_example = send_msg_lem (codes "hi" ∷ codes "you" ∷ []) (codes "late" ∷ []) fresh (
  ((Lacks-lacks 0 (codes "hi") refl, omega arith), refl),
  (((Lacks-lacks 0 (codes "you") refl, omega arith), refl), tt),
)

recv_msg_lem_example :
    recv_msg (bytes (codes "hi") ∷ bytes [] ∷ []) fresh
    ≡ ok (record fresh { printed = map echo_line (codes "hi" ∷ []) })
recv_msg_lem_example =
    recv_msg_lem (codes "hi" ∷ []) [] fresh
      (((Lacks-lacks 0 (codes "hi") refl, omega arith), refl), tt)

recv_sized-send_sized_example :
    (send_sized (codes "hi" ∷ codes "you" ∷ []) (record fresh { sent = [] }) >>= λ s.
    recv_sized size (map bytes s.sent) blank_buffer fresh)
    ≡ ok (record fresh { printed = map echo_line (codes "hi" ∷ codes "you" ∷ []) })
recv_sized-send_sized_example =
    recv_sized-send_sized (codes "hi" ∷ codes "you" ∷ []) fresh fresh
      (
        ((Lacks-lacks 0 (codes "hi") refl, refl), (omega arith, omega arith)),
        (((Lacks-lacks 0 (codes "you") refl, refl), (omega arith, omega arith)), tt),
      )
      (omega arith, (omega arith, tt))

-- A word behind a longer one is printed with a byte of that one.
shorter_word :
    (send_sized (codes "long" ∷ codes "hi" ∷ []) fresh >>= λ s.
    recv_sized size (map bytes s.sent) blank_buffer fresh)
    ≡ ok (record fresh { printed = codes "ECHO:long" ∷ codes "ECHO:hin" ∷ [] })
unfolding send_sized recv_sized
shorter_word = refl

-- The second part of a word is received over the first.
word_in_parts :
    recv_sized size
      (bytes (int_bytes 4) ∷ bytes (codes "wo") ∷ bytes (codes "rd") ∷ [])
      blank_buffer
      fresh
    ≡ ok (record fresh { printed = codes "ECHO:rd" ∷ [] })
unfolding int_bytes recv_sized
word_in_parts = refl
