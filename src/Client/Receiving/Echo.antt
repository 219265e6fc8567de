-- ===== src/Client/Receiving/Echo.antt =====
-- What the older client prints of the messages that another one sends.
use hamang_server.Prelude.{
  All, List, [], ap, append-nil, append_assoc, arith, drop, false, length, le→ltb, ltb, lt→ltb, map,
  ok, pos, refl, replicate, set, suc, true, zero, ℕ, ◌%◌, ◌*◌, ◌++◌, ◌+◌, ◌-◌, ◌/◌, ◌<◌, ◌>>=◌, ◌∙◌,
  ◌∷◌, ◌≡◌, ◌≤◌,
}
use hamang_server.Text.{Bytes, Lacks}
use hamang_server.Server.Receive.Relay.{c_string-terminated}
use hamang_server.Server.Receive.{c_string}
use hamang_server.Client.{
  Connection, Received, bytes, echo_line, int_bytes, old_client_buffer, send_sized,
}
use hamang_server.Client.Sending.{is_quit}
use hamang_server.Client.Receiving.{
  add_received, content, echo, int_of, ltz, put_part, recv_sized, size, terminate,
}

-- A word that fits the buffer with a zero behind it and one more byte, and is not "q".
abbrev pub IsWord : Bytes → Type 0
IsWord word = (Lacks 0 word × (is_quit word ≡ false)) × ((0 < length word) × (length word < 99))

-- No word is shorter than the one before it, the first of them not shorter than so many bytes.
abbrev pub IsGrowing : ℕ → List Bytes → Type 0
IsGrowing n [] = Unit
IsGrowing n (word ∷ words) = (n ≤ length word) × IsGrowing (length word) words

abbrev pub blank_buffer : Bytes
blank_buffer = replicate old_client_buffer 0

drop-replicate : (n k a : ℕ) → drop n (replicate k a) ≡ replicate (k - n) a
drop-replicate zero k a = rw (let e : k - 0 ≡ k = omega arith in e)
drop-replicate (suc n) zero a = rw (let e : 0 - suc n ≡ 0 = omega arith in e)
drop-replicate (suc n) (suc k) a =
    rw (let e : suc k - suc n ≡ k - n = omega arith in e) (drop-replicate n k a)

drop_behind :
    (n k : ℕ) (p : Bytes)
    → length p ≤ n
    → drop n (p ++ replicate k 0) ≡ replicate (length p + k - n) 0
drop_behind n k [] h = rw (let e : 0 + k - n ≡ k - n = omega arith in e) (drop-replicate n k 0)
drop_behind zero k (a ∷ p) h = absurd (omega arith)
drop_behind (suc n) k (a ∷ p) h =
    rw (let e : length (a ∷ p) + k - suc n ≡ length p + k - n = omega arith in e)
      (drop_behind n k p (omega arith))

set-replicate : (n k : ℕ) → set {A = ℕ} (replicate k 0) n 0 ≡ replicate k 0
set-replicate n zero = refl
set-replicate zero (suc k) = refl
set-replicate (suc n) (suc k) = ap (λ (rest : Bytes). 0 ∷ rest) (set-replicate n k)

set_behind :
    (p : Bytes) (k : ℕ) → set {A = ℕ} (p ++ replicate k 0) (length p + 1) 0 ≡ p ++ replicate k 0
set_behind [] k = set-replicate 1 k
set_behind (a ∷ p) k =
    rw (let e : length (a ∷ p) + 1 ≡ suc (length p + 1) = omega arith in e)
      (ap (λ (rest : Bytes). a ∷ rest) (set_behind p k))

int_of-int_bytes : (n : ℕ) → n < 256 → int_of (int_bytes n) ≡ pos n
unfolding int_of int_bytes
int_of-int_bytes n h =
    let e : n % 256
          + 256 * (n / 256 % 256)
          + 65536 * (n / 65536 % 256)
          + 16777216 * (n / 16777216 % 256)
        ≡ n =
      omega arith in
    rw (e, lt→ltb n 2147483648 (omega arith)) refl

echo_lem :
    (word : Bytes) (c : Connection)
    → IsWord word
    → echo (pos (length word)) (word ++ replicate (100 - length word) 0) c
      ≡ ok (
        word ++ replicate (100 - length word) 0,
        record c { printed = c.printed ++ echo_line word ∷ [] },
      )
unfolding echo terminate
echo_lem word c h =
    let e : 100 - length word ≡ suc (99 - length word) = omega (arith, h.1.1) in
    let ended : c_string (word ++ replicate (100 - length word) 0) ≡ ok word =
      rw e (c_string-terminated word (replicate (99 - length word) 0) h.0.0) in
    rw
      (
        lt→ltb (length word + 1) 100 (omega (arith, h.1.1)),
        set_behind word (100 - length word),
        ended,
      )
      refl

put_part_lem :
    (p word : Bytes)
    → length p ≤ length word
    → IsWord word
    → put_part word (p ++ replicate (100 - length p) 0)
      ≡ ok (word ++ replicate (100 - length word) 0)
unfolding put_part
put_part_lem p word le h =
    let fits : ltb 100 (length word) ≡ false = le→ltb 100 (length word) (omega (arith, h.1.1)) in
    let e : length p + (100 - length p) - length word ≡ 100 - length word = omega (arith, h.1.1) in
    let zero_plus : 0 + length word ≡ length word = omega arith in
    rw (fits, zero_plus, drop_behind (length word) (100 - length p) p le, e) refl

ltz_pos : (a b : ℕ) → a < b → ltz (pos a) (pos b) ≡ true
unfolding ltz
ltz_pos a b h = lt→ltb (a + 0) (b + 0) (omega arith)

ltz_self : (a : ℕ) → ltz (pos a) (pos a) ≡ false
unfolding ltz
ltz_self a = le→ltb (a + 0) (a + 0) (omega arith)

add_received_pos : (n : ℕ) → add_received (pos 0) n ≡ pos n
unfolding add_received
add_received_pos n = ground arith

-- Behind a length above 0, so many bytes are expected.
recv_size :
    (n : ℕ) (calls : List Received) (msg : Bytes) (c : Connection)
    → 0 < n
    → n < 256
    → recv_sized size (bytes (int_bytes n) ∷ calls) msg c
      ≡ recv_sized (content (pos n) (pos 0)) calls msg c
unfolding recv_sized int_bytes
recv_size n calls msg c above below = rw (int_of-int_bytes n below, ltz_pos 0 n above) refl

-- Once all bytes are there, the message is printed.
recv_content :
    (b : ℕ) (part msg msg' : Bytes) (calls : List Received) (c d : Connection)
    → put_part (b ∷ part) msg ≡ ok msg'
    → echo (pos (length (b ∷ part))) msg' c ≡ ok (msg', d)
    → recv_sized (content (pos (length (b ∷ part))) (pos 0)) (bytes (b ∷ part) ∷ calls) msg c
      ≡ recv_sized size calls msg' d
unfolding recv_sized
recv_content b part msg msg' calls c d put printed =
    rw (put, add_received_pos (length (b ∷ part)), ltz_self (length (b ∷ part)), printed) refl

-- A word that comes in whole behind its length is printed.
recv_word :
    (p word : Bytes) (calls : List Received) (c : Connection)
    → length p ≤ length word
    → IsWord word
    → recv_sized size
        (bytes (int_bytes (length word)) ∷ bytes word ∷ calls)
        (p ++ replicate (100 - length p) 0)
        c
      ≡ recv_sized size calls
          (word ++ replicate (100 - length word) 0)
          (record c { printed = c.printed ++ echo_line word ∷ [] })
recv_word p [] calls c le h = absurd (omega (arith, h.1.0))
recv_word p (b ∷ part) calls c le h =
    recv_size (length (b ∷ part)) (bytes (b ∷ part) ∷ calls) (p ++ replicate (100 - length p) 0) c
      h.1.0 (omega (arith, h.1.1))
    ∙ recv_content b part (p ++ replicate (100 - length p) 0)
        ((b ∷ part) ++ replicate (100 - length (b ∷ part)) 0) calls c
        (record c { printed = c.printed ++ echo_line (b ∷ part) ∷ [] })
        (put_part_lem p (b ∷ part) le h) (echo_lem (b ∷ part) c h)

-- What the sending thread gives the socket for these words.
abbrev pieces : List Bytes → List Bytes
pieces [] = []
pieces (word ∷ words) = int_bytes (length word) ∷ word ∷ pieces words

send_sized_lem :
    (words : List Bytes) (c : Connection)
    → All IsWord words
    → send_sized words c ≡ ok (record c { sent = c.sent ++ pieces words })
unfolding send_sized
send_sized_lem [] c h = rw (append-nil c.sent) refl
send_sized_lem (word ∷ words) c h =
    let sent = c.sent ++ int_bytes (length word) ∷ word ∷ [] in
    rw (lt→ltb (length word) old_client_buffer (omega (arith, h.0.1.1)), h.0.0.1)
      (send_sized_lem words (record c { sent = sent }) h.1
        ∙ rw (append_assoc c.sent (int_bytes (length word) ∷ word ∷ []) (pieces words)) refl)

recv_pieces :
    (words : List Bytes) (p : Bytes) (c : Connection)
    → All IsWord words
    → IsGrowing (length p) words
    → recv_sized size (map bytes (pieces words)) (p ++ replicate (100 - length p) 0) c
      ≡ ok (record c { printed = c.printed ++ map echo_line words })
unfolding recv_sized
recv_pieces [] p c h growing = rw (append-nil c.printed) refl
recv_pieces (word ∷ words) p c h growing =
    recv_word p word (map bytes (pieces words)) c growing.0 h.0
    ∙ (recv_pieces words word (record c { printed = c.printed ++ echo_line word ∷ [] }) h.1
          growing.1
        ∙ rw (append_assoc c.printed (echo_line word ∷ []) (map echo_line words)) refl)

-- If words of at most 98 bytes are typed, none of them empty, "q", with a zero byte, or shorter than the
-- one before it, and what the older client's sending thread gives the socket comes in at another such
-- client in the same pieces, then its receiving thread prints exactly these words, in order, each behind "ECHO:".
pub recv_sized-send_sized :
    (words : List Bytes) (sender receiver : Connection)
    → All IsWord words
    → IsGrowing 0 words
    → (send_sized words (record sender { sent = [] }) >>= λ s.
        recv_sized size (map bytes s.sent) blank_buffer receiver)
      ≡ ok (record receiver { printed = receiver.printed ++ map echo_line words })
recv_sized-send_sized words sender receiver h growing =
    rw (send_sized_lem words (record sender { sent = [] }) h)
      (recv_pieces words [] receiver h growing)
