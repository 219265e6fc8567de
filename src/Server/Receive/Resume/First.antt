-- ===== src/Server/Receive/Resume/First.antt =====
-- The round in which whole packets come in and the part of one more.
use hamang_server.Prelude.{
  Bool, List, ap, append_assoc, arith, drop, drop-append_exact, false, get_elem?, length,
  length-append, le→ltb, ltb, lt→ltb, ok, refl, some, suc, sym, take, true, ℕ, ◌%◌, ◌++◌, ◌+◌, ◌-◌,
  ◌<◌, ◌==◌, ◌^◌, ◌∙◌, ◌∷◌, ◌≡◌, ◌≤◌,
}
use hamang_server.Text.{Bytes, Lacks, Lacks-append}
use hamang_server.Protocol.{net_delim, net_sig}
use hamang_server.Values.{buffer_size, read}
use hamang_server.Message.{NetworkMessage, new_message, split}
use hamang_server.Message.Segments.{
  AllLack, AllLack-append, has_empty, has_empty-append, segments, segments-terminated, starts,
  terminated,
}
use hamang_server.Message.Split.{split_lem}
use hamang_server.Buffers.{PerIoData, recycle_io}
use hamang_server.Player.{Player}
use hamang_server.Players.Broadcast.{AllPresent}
use hamang_server.State.{Env, Server}
use hamang_server.Handler.{handle_message}
use hamang_server.Handler.Loop.Echoes.{Echo}
use hamang_server.Handler.Loop.Stream.{AllEcho, kept_all, stream_tokens, terminated-append}
use hamang_server.Handler.Loop.Cut.{handle_message_cut, handle_message_prefix}
use hamang_server.Server.Receive.{carry, receive_message, write_at}
use hamang_server.Server.Receive.Relay.{
  buffer_size-lt, c_string-terminated, filled_lem, length-starts, length-stream_tokens,
  length-terminated-le, relay_lem, relayed,
}
use hamang_server.Server.Receive.Resume.{
  IsPart, Part, part_text, part_tokens, starts_at, take-append_le,
}

drop-append_at {ℓ} : {A : Type ℓ} (xs ys : List A) (n : ℕ) → n ≡ length xs → drop n (xs ++ ys) ≡ ys
drop-append_at xs ys n e = rw e (drop-append_exact xs ys)

buffer_size-small : buffer_size < 2 ^ 31
unfolding buffer_size
buffer_size-small = omega arith

-- The rest of the buffer, moved to its front, is what stood behind the start point, with its zero.
module _ (env : Env) (io : PerIoData) (xs ys rest : Bytes) (some_xs : 0 < length xs)
    (short : length xs + length ys < buffer_size)
    (apart : buffer_size ≤ length xs + length xs) where
  abbrev buffer : Bytes
  buffer = (xs ++ ys) ++ 0 ∷ rest

  abbrev left : ℕ
  left = buffer_size - length xs

  abbrev bytes : Bytes
  bytes = take left (drop (length xs) buffer)

  abbrev carried_io : PerIoData
  carried_io = record io {
    buffer = write_at buffer 0 bytes;
    offset = left;
    len = length xs;
    rw_mode = read;
  }

  recycle_lem :
      (io' : PerIoData)
      → recycle_io io' read left
        ≡ ok (record io' { offset = left; len = length xs; rw_mode = read })
  unfolding recycle_io
  recycle_lem io' =
      let room : (2 ^ 32 + buffer_size - left) % 2 ^ 32 ≡ length xs =
        omega (arith, buffer_size-lt) in
      let usable : (length xs == 0) ≡ false = ground arith in rw (room, usable) refl

  carry_lem :
      (end_with_delim : Bool) → carry env io buffer (length xs) end_with_delim ≡ ok carried_io
  unfolding carry
  carry_lem end_with_delim =
      let has_rest : ltb 0 (length xs) ≡ true = lt→ltb 0 (length xs) some_xs in
      let separate : ltb (length xs) left ≡ false = le→ltb (length xs) left (omega arith) in
      let within : ltb buffer_size (length xs) ≡ false =
        le→ltb buffer_size (length xs) (omega arith) in
      rw (has_rest, separate, within) (recycle_lem (record io { buffer = write_at buffer 0 bytes }))

  carried_front : (rest' : Bytes) × (write_at buffer 0 bytes ≡ ys ++ 0 ∷ rest')
  carried_front =
      let k = left - length ys - 1 in
      let room : left - length ys ≡ suc k = omega arith in
      let behind : drop (length xs) buffer ≡ ys ++ 0 ∷ rest =
        ap (drop (length xs)) (append_assoc xs ys (0 ∷ rest))
        ∙ drop-append_exact xs (ys ++ 0 ∷ rest) in
      let front : bytes ≡ ys ++ 0 ∷ take k rest =
        ap (take left) behind
        ∙ take-append_le ys (0 ∷ rest) left (omega arith)
        ∙ ap (λ (j : ℕ). ys ++ take j (0 ∷ rest)) room in
      (
        take k rest ++ drop (0 + length bytes) buffer,
        ap (λ (l : Bytes). l ++ drop (0 + length bytes) buffer) front
            ∙ append_assoc ys (0 ∷ take k rest) (drop (0 + length bytes) buffer),
      )

module _ (env : Env) (f : ℕ) (address : ℕ) (io : PerIoData) (e : Echo) (es : List Echo) (p : Part)
    (s : Server) (player : Player) where
  abbrev whole : Bytes
  whole = terminated net_delim (stream_tokens (e ∷ es))

  abbrev both : List Bytes
  both = stream_tokens (e ∷ es) ++ part_tokens p

  abbrev both_message : NetworkMessage
  both_message = record new_message {
    tokens = both;
    start_points = starts 0 both;
    count = length both;
  }

  both_text : whole ++ part_text p ≡ terminated net_delim both ++ p.partial
  both_text =
      sym (append_assoc whole (terminated net_delim (part_tokens p)) p.partial)
      ∙ ap (λ (l : Bytes). l ++ p.partial)
          (sym (terminated-append net_delim (stream_tokens (e ∷ es)) (part_tokens p)))

  both_splits :
      AllLack net_delim (stream_tokens (e ∷ es))
      → has_empty (stream_tokens (e ∷ es)) ≡ false
      → IsPart p
      → length (whole ++ part_text p) < f
      → split f new_message (whole ++ part_text p) net_delim ≡ ok both_message
  both_splits clean full h fuel =
      let pieces : segments net_delim (whole ++ part_text p) ≡ both =
        ap (segments net_delim) both_text
        ∙ segments-terminated net_delim both p.partial
            (AllLack-append net_delim (stream_tokens (e ∷ es)) (part_tokens p) clean h.clean)
            h.no_delim in
      split_lem f new_message (whole ++ part_text p) net_delim fuel
      ∙ rw (pieces, has_empty-append (stream_tokens (e ∷ es)) (part_tokens p) full h.full) refl

  both_handled :
      AllEcho (e ∷ es)
      → IsPart p
      → length both < 2 ^ 31
      → length both < f
      → (m : NetworkMessage) × (handle_message env f both_message s
          ≡ ok (m, record s { message_queue = s.message_queue ++ kept_all (e ∷ es) }))
        × (m.broadcast_message ≡ whole)
        × (m.incomplete_resume_point ≡ length whole)
  both_handled echoes h few fuel =
      let n = f - length (e ∷ es) - 1 in
      let sizes = length-append (stream_tokens (e ∷ es)) (part_tokens p) in
      let rounds : f ≡ length (e ∷ es) + suc n =
        omega (arith, sizes, length-stream_tokens (e ∷ es)) in
      let (m, runs, w) =
        handle_message_prefix env (suc n) (e ∷ es) (part_tokens p) both_message s echoes refl
          (omega arith) (omega (arith, length-starts 0 both)) in
      let place : m.iterator ≡ length (stream_tokens (e ∷ es)) = omega (arith, w.moved) in
      let kept_state = record s { message_queue = s.message_queue ++ kept_all (e ∷ es) } in
      let ahead : drop m.iterator m.tokens ≡ part_tokens p =
        rw w.same_tokens
          (drop-append_at (stream_tokens (e ∷ es)) (part_tokens p) m.iterator place) in
      let at : get_elem? m.start_points m.iterator ≡ some (length whole) =
        rw (w.same_starts, place)
          (starts_at 0 (stream_tokens (e ∷ es)) (p.size ∷ p.more) net_sig
            ∙ ap some (omega arith)) in
      (
        record m {
          iterator = m.iterator + 1 + 1;
          begin_point = m.iterator;
          end_point = m.iterator + p.declared;
          incomplete_resume_point = length whole;
        },
        ap (λ (k : ℕ). handle_message env k both_message s) rounds
            ∙ runs
            ∙ handle_message_cut env n p.declared (length whole) p.size p.more m kept_state ahead
                h.counted h.short (omega (arith, place, sizes, h.small)) at,
        w.copied,
        refl,
      )

  -- Let the socket's call bring in whole packets to hand on, at least one, and behind them a part of
  -- one more: its signature, its length and some tokens, fewer than the length says, and some bytes of
  -- a token. No token is empty or holds a delimiter, the text holds no zero byte, it is shorter than
  -- the buffer and came to its front, and the whole packets take at least half of the buffer, so that
  -- the copy to the front does not overlap what it reads. Then with more fuel than the text is long the
  -- round returns. It has handed on and kept the whole packets as if nothing had come behind them, and
  -- nothing of the part has changed the server or gone out. The bytes of the part stand at the buffer's
  -- front, a zero behind them, and the next call reads to the buffer's end, into as many bytes as the
  -- whole packets had.
  pub receive_message-cut :
      AllEcho (e ∷ es)
      → AllLack net_delim (stream_tokens (e ∷ es))
      → has_empty (stream_tokens (e ∷ es)) ≡ false
      → Lacks 0 whole
      → IsPart p
      → length (whole ++ part_text p) < buffer_size
      → buffer_size ≤ length whole + length whole
      → length (whole ++ part_text p) < f
      → io.offset ≡ 0
      → io.len ≡ buffer_size
      → AllPresent s.players.heap s.players.player_hash
      → get_elem? s.players.heap address ≡ some player
      → (io' : PerIoData) × (rest : Bytes) × (receive_message env f address io
            (whole ++ part_text p)
            s
          ≡ ok (io', relayed env f address io e es s player))
        × (io'.buffer ≡ part_text p ++ 0 ∷ rest)
        × (io'.offset ≡ buffer_size - length whole)
        × (io'.len ≡ length whole)
        × (io'.rw_mode ≡ read)
  unfolding receive_message
  receive_message-cut echoes clean full printable h short apart fuel start room present here =
      let text = whole ++ part_text p in
      let counts = length-append whole (part_text p) in
      let count_both : length both ≤ length text = omega (
        arith,
        length-terminated-le net_delim both,
        ap length both_text,
        length-append (terminated net_delim both) p.partial,
      ) in
      let some_whole : 0 < length whole =
        omega (arith, length-terminated-le net_delim (stream_tokens (e ∷ es))) in
      let (rest, fill) = filled_lem io text start (omega arith) in
      let (m, runs, broadcast, point) =
        both_handled echoes h (omega (arith, count_both, buffer_size-small))
          (omega (arith, count_both)) in
      let (rest', front) =
        carried_front env io whole (part_text p) rest some_whole (omega (arith, counts)) apart in
      (
        carried_io env io whole (part_text p) rest some_whole (omega (arith, counts)) apart,
        rest',
        rw (
          fill,
          c_string-terminated text rest (Lacks-append 0 whole (part_text p) printable h.printable),
          both_splits clean full h fuel,
          runs,
          relay_lem env f address io e es s player m broadcast (omega (arith, counts)) present here,
          point,
          carry_lem env io whole (part_text p) rest some_whole (omega (arith, counts)) apart _,
        ),
        front,
        refl,
        refl,
        refl,
      )
