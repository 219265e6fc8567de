-- ===== src/Server/Receive/Cut.antt =====
-- A packet that arrives in parts: what the round makes of the first part.
use hamang_server.Prelude.{
  List, [], append-nil, arith, assertion_failed, drop, drop-nil, err, false, get_or, length, le→ltb,
  ltb, ok, out_of_bounds, refl, suc, zero, ℕ, ◌++◌, ◌+◌, ◌-◌, ◌<◌, ◌==◌, ◌∙◌, ◌∷◌, ◌≡◌, ◌≤◌,
}
use hamang_server.Text.{Bytes, Lacks}
use hamang_server.Protocol.{net_delim}
use hamang_server.Values.{buffer_size}
use hamang_server.Message.{has_message_to_broadcast, has_next, new_message, split}
use hamang_server.Message.Segments.{segments-terminated}
use hamang_server.Message.Split.{split_lem}
use hamang_server.Buffers.{PerIoData, recycle_io}
use hamang_server.State.{Env, Server}
use hamang_server.Handler.{handle_message}
use hamang_server.Server.Receive.{c_string, carry, filled, receive_message, relay}
use hamang_server.Server.Receive.Relay.{c_string-terminated, filled_lem}

pub no_room :
    (env : Env) (io : PerIoData) (buffer : Bytes)
    → carry env io buffer 0 false ≡ err assertion_failed
unfolding carry recycle_io buffer_size
no_room env io buffer = refl

not_delim :
    (d : ℕ) (c : ℕ) (text rest : Bytes)
    → Lacks d (c ∷ text)
    → (get_or ((c ∷ text) ++ rest) (length (c ∷ text) - 1) 0 == d) ≡ false
not_delim d c [] rest h = ground arith
not_delim d c (c' ∷ text) rest h =
    let next : suc (suc (length text)) - 1 ≡ suc (suc (length text) - 1) = omega arith in
    rw next (not_delim d c' text rest h.1)

-- Nothing is cut off, and nothing is handled.
nothing_cut :
    (f : ℕ) (text : Bytes)
    → Lacks net_delim text
    → length text < f
    → split f new_message text net_delim ≡ ok new_message
nothing_cut f text clean fuel =
    split_lem f new_message text net_delim fuel
    ∙ rw (segments-terminated net_delim [] text tt clean)

nothing_handled :
    (env : Env) (f : ℕ) (s : Server)
    → 0 < f
    → handle_message env f new_message s ≡ ok (new_message, s)
unfolding handle_message has_next
nothing_handled env zero s h = absurd (omega arith)
nothing_handled env (suc f) s h = refl

-- If the first bytes of a connection that come in hold no delimiter, and are no zeros and fewer than
-- fit the buffer, then with more fuel than they are the assertion of `RecycleIO` fails, whatever
-- `memcpy` makes of copying the buffer onto itself: the rest of the packet would have to come behind a
-- whole buffer.
pub receive_message-first_part :
    (env : Env) (f address : ℕ) (io : PerIoData) (c : ℕ) (text : Bytes) (s : Server)
    → Lacks net_delim (c ∷ text)
    → Lacks 0 (c ∷ text)
    → io.offset ≡ 0
    → length (c ∷ text) < io.len
    → length (c ∷ text) < f
    → receive_message env f address io (c ∷ text) s ≡ err assertion_failed
unfolding receive_message relay has_message_to_broadcast
receive_message-first_part env f address io c text s clean printable start short fuel =
    let (rest, fill) = filled_lem io (c ∷ text) start short in
    let last : io.offset + length (c ∷ text) - 1 ≡ length (c ∷ text) - 1 = omega arith in
    rw (
      fill,
      c_string-terminated (c ∷ text) rest printable,
      nothing_cut f (c ∷ text) clean fuel,
      nothing_handled env f s (omega arith),
      last,
      not_delim net_delim c text (0 ∷ rest) clean,
      no_room env io ((c ∷ text) ++ 0 ∷ rest),
    )

no_zero : (text : Bytes) → Lacks 0 text → c_string text ≡ err out_of_bounds
unfolding c_string
no_zero [] h = refl
no_zero (c ∷ text) h = rw (no_zero text h.1) (ground arith)

drop-all {ℓ} : {A : Type ℓ} (xs : List A) (n : ℕ) → length xs ≤ n → drop n xs ≡ []
drop-all [] n h = drop-nil n
drop-all (x ∷ xs) zero h = absurd (omega arith)
drop-all (x ∷ xs) (suc n) h = drop-all xs n (omega arith)

filled_full :
    (io : PerIoData) (text : Bytes)
    → io.offset ≡ 0
    → length text ≡ io.len
    → length io.buffer ≡ io.len
    → filled io text ≡ text
unfolding filled
filled_full io text start full whole =
    let nothing_left : drop (io.offset + length text) io.buffer ≡ [] =
      drop-all io.buffer (io.offset + length text) (omega arith) in
    let no_place : ltb (length text) io.len ≡ false = le→ltb (length text) io.len (omega arith) in
    rw (no_place, nothing_left) (rw start (append-nil text))

-- If the bytes that come in fill the whole buffer, from its front, and none is zero, then the text is
-- read past the buffer's end, as there is no room for the zero that ends it.
pub receive_message-full_buffer :
    (env : Env) (f address : ℕ) (io : PerIoData) (text : Bytes) (s : Server)
    → Lacks 0 text
    → io.offset ≡ 0
    → length text ≡ io.len
    → length io.buffer ≡ io.len
    → receive_message env f address io text s ≡ err out_of_bounds
unfolding receive_message
receive_message-full_buffer env f address io text s printable start full whole =
    rw (filled_full io text start full whole, no_zero text printable)
