-- ===== src/Server/Receive/Relay.antt =====
-- Packets to hand on, from the bytes that came in to the calls of the other players' sockets.
use hamang_server.Prelude.{
  List, [], ap, append-nil, append_assoc, arith, drop, false, get_elem?, get_or, length,
  length-append, lt→ltb, ok, refl, some, suc, sym, take-append_exact, true, ℕ, ◌++◌, ◌+◌, ◌-◌, ◌<◌,
  ◌==◌, ◌^◌, ◌∙◌, ◌∷◌, ◌≡◌, ◌≤◌,
}
use hamang_server.Text.{Bytes, Lacks}
use hamang_server.Protocol.{net_delim, net_sig}
use hamang_server.Values.{buffer_size, read}
use hamang_server.Message.{
  NetworkMessage, build_copied_message, has_message_to_broadcast, new_message, split,
}
use hamang_server.Message.Segments.{
  AllLack, has_empty, segments, segments-terminated, starts, terminated,
}
use hamang_server.Message.Split.{split_lem}
use hamang_server.Buffers.{PerIoData, recycle_io}
use hamang_server.Player.{Player}
use hamang_server.Players.{erase_player}
use hamang_server.Players.Broadcast.{
  AllPresent, AllPresent-erase, broadcast_message_all-erase, broadcast_message_all_lem, deliveries,
}
use hamang_server.State.{Env, Server}
use hamang_server.Handler.Loop.Echoes.{Echo}
use hamang_server.Handler.Loop.Stream.{AllEcho, handle_message-stream, kept_all, stream_tokens}
use hamang_server.Server.Receive.{c_string, carry, filled, receive_message, relay}

-- A text in a buffer, with a zero behind it, is read back.
pub c_string-terminated : (text rest : Bytes) → Lacks 0 text → c_string (text ++ 0 ∷ rest) ≡ ok text
unfolding c_string
c_string-terminated [] rest h = refl
c_string-terminated (c ∷ text) rest h = rw (c_string-terminated text rest h.1) (ground arith)

pub filled_lem :
    (io : PerIoData) (text : Bytes)
    → io.offset ≡ 0
    → length text < io.len
    → (rest : Bytes) × (filled io text ≡ text ++ 0 ∷ rest)
unfolding filled
filled_lem io text start short = (
  drop (length text + suc 0) (text ++ drop (length text) io.buffer),
  rw (start) (
      let none_before : 0 + length text ≡ length text = omega arith in
      rw
        (
          none_before,
          lt→ltb (length text) io.len short,
          take-append_exact text (drop (length text) io.buffer),
        )
        (append_assoc text (0 ∷ []) _)),
)

pub length-terminated-le : (d : ℕ) (ts : List Bytes) → length ts ≤ length (terminated d ts)
length-terminated-le d [] = omega arith
length-terminated-le d (t ∷ ts) =
    omega (arith, length-terminated-le d ts, length-append t (d ∷ terminated d ts))

pub length-starts : (p : ℕ) (ts : List Bytes) → length (starts p ts) ≡ length ts
length-starts p [] = refl
length-starts p (t ∷ ts) = ap suc (length-starts (p + length t + 1) ts)

get_or-append : (xs ys : Bytes) (i d : ℕ) → get_or (xs ++ ys) (length xs + i) d ≡ get_or ys i d
get_or-append [] ys i d = rw (let e : 0 + i ≡ i = omega arith in e)
get_or-append (x ∷ xs) ys i d =
    rw (let e : suc (length xs) + i ≡ suc (length xs + i) = omega arith in e)
      (get_or-append xs ys i d)

-- The last byte of a text of pieces is the delimiter.
last_is_delim :
    (d : ℕ) (t : Bytes) (ts : List Bytes) (rest : Bytes)
    → get_or (terminated d (t ∷ ts) ++ rest) (length (terminated d (t ∷ ts)) - 1) 0 ≡ d
last_is_delim d t [] rest =
    let last : length (t ++ d ∷ []) - 1 ≡ length t + 0 = omega (arith, length-append t (d ∷ [])) in
    rw (last, append_assoc t (d ∷ []) rest) (get_or-append t (d ∷ rest) 0 0)
last_is_delim d t (u ∷ us) rest =
    let more = terminated d (u ∷ us) in
    let last : length (t ++ d ∷ more) - 1 ≡ length t + suc (length more - 1) =
      omega (arith, length-append t (d ∷ more), length-append u (d ∷ terminated d us)) in
    rw (last, append_assoc t (d ∷ more) rest)
      (get_or-append t (d ∷ more ++ rest) (suc (length more - 1)) 0 ∙ last_is_delim d u us rest)

pub length-stream_tokens : (es : List Echo) → length es ≤ length (stream_tokens es)
length-stream_tokens [] = omega arith
length-stream_tokens (e ∷ es) =
    omega (arith, length-stream_tokens es, length-append e.body (stream_tokens es))

pub buffer_size-lt : buffer_size < 2 ^ 32
unfolding buffer_size
buffer_size-lt = omega arith

pub recycled :
    (io : PerIoData)
    → recycle_io io read 0 ≡ ok (record io { offset = 0; len = buffer_size; rw_mode = read })
unfolding recycle_io buffer_size
recycled io = refl

-- Nothing is carried on, and the whole buffer can be read into.
pub carried :
    (env : Env) (io : PerIoData) (buffer : Bytes)
    → carry env io buffer 0 true
      ≡ ok (record io { buffer = buffer; offset = 0; len = buffer_size; rw_mode = read })
unfolding carry buffer_size
carried env io buffer = refl

module _ (env : Env) (f : ℕ) (address : ℕ) (io : PerIoData) (e : Echo) (es : List Echo) (s : Server)
    (player : Player) where
  abbrev text : Bytes
  text = terminated net_delim (stream_tokens (e ∷ es))

  -- What is broadcast of the stream.
  abbrev pub relayed : Server
  relayed = record s {
    message_queue = s.message_queue ++ kept_all (e ∷ es);
    net = record s.net {
      sent =
          s.net.sent
          ++ deliveries s.players.heap (erase_player player.actor_number s.players.player_hash)
              text;
    };
  }

  abbrev stream_message : NetworkMessage
  stream_message = record new_message {
    tokens = stream_tokens (e ∷ es);
    start_points = starts 0 (stream_tokens (e ∷ es));
    count = length (stream_tokens (e ∷ es));
  }

  cut :
      AllLack net_delim (stream_tokens (e ∷ es))
      → has_empty (stream_tokens (e ∷ es)) ≡ false
      → length text < f
      → split f new_message text net_delim ≡ ok stream_message
  cut clean full fuel =
      let pieces : segments net_delim text ≡ stream_tokens (e ∷ es) =
        ap (segments net_delim) (sym (append-nil text))
        ∙ segments-terminated net_delim (stream_tokens (e ∷ es)) [] clean tt in
      split_lem f new_message text net_delim fuel ∙ rw (pieces, full)

  pub relay_lem :
      (m : NetworkMessage)
      → m.broadcast_message ≡ text
      → length text < buffer_size
      → AllPresent s.players.heap s.players.player_hash
      → get_elem? s.players.heap address ≡ some player
      → relay address m (record s { message_queue = s.message_queue ++ kept_all (e ∷ es) })
        ≡ ok relayed
  unfolding relay has_message_to_broadcast build_copied_message
  relay_lem m broadcast short present here =
      rw (broadcast, here)
        (rw (
          broadcast_message_all-erase s.players.heap text (omega arith) s.players.player_hash
              player.actor_number s.net present,
          broadcast_message_all_lem s.players.heap text (omega arith)
              (erase_player player.actor_number s.players.player_hash) s.net
              (AllPresent-erase s.players.heap player.actor_number s.players.player_hash present),
        ))

  ends :
      (rest : Bytes)
      → io.offset ≡ 0
      → (get_or (text ++ 0 ∷ rest) (io.offset + length text - 1) 0 == net_delim) ≡ true
  ends rest start =
      let last : io.offset + length text - 1 ≡ length text - 1 = omega arith in
      rw (last, last_is_delim net_delim net_sig (drop 1 (stream_tokens (e ∷ es))) (0 ∷ rest))

  -- Let the socket's call bring in nothing but whole packets to hand on, at least one: no token is
  -- empty or holds a delimiter, the text holds no zero byte, it is shorter than the buffer, and it
  -- came to the buffer's front. Then with more fuel than the text is long the round returns. Exactly
  -- the bytes that came in are sent, once and in one call, to every connected player but the source;
  -- the packets that are to be kept are added to the queue, in order; nothing else of the server has
  -- changed; and the next call reads into the whole buffer again.
  pub receive_message-relays :
      AllEcho (e ∷ es)
      → AllLack net_delim (stream_tokens (e ∷ es))
      → has_empty (stream_tokens (e ∷ es)) ≡ false
      → Lacks 0 text
      → length text < buffer_size
      → length text < f
      → io.offset ≡ 0
      → io.len ≡ buffer_size
      → AllPresent s.players.heap s.players.player_hash
      → get_elem? s.players.heap address ≡ some player
      → (io' : PerIoData) × (receive_message env f address io text s ≡ ok (io', relayed))
        × (io'.offset ≡ 0)
        × (io'.len ≡ buffer_size)
        × (io'.rw_mode ≡ read)
  unfolding receive_message
  receive_message-relays echoes clean full printable short fuel start room present here =
      let (rest, fill) = filled_lem io text start (omega arith) in
      let count = length-terminated-le net_delim (stream_tokens (e ∷ es)) in
      let (m, runs, broadcast, point, same, moved) =
        handle_message-stream env f (e ∷ es) stream_message s echoes refl
          (omega (arith, count, buffer_size-lt))
          (omega (arith, length-starts 0 (stream_tokens (e ∷ es))))
          (omega (arith, count, length-stream_tokens (e ∷ es))) in
      (
        record io { buffer = text ++ 0 ∷ rest; offset = 0; len = buffer_size; rw_mode = read },
        rw (
          fill,
          c_string-terminated text rest printable,
          cut clean full fuel,
          runs,
          relay_lem m broadcast short present here,
          point,
          ends rest start,
          carried env io (text ++ 0 ∷ rest),
        ),
        refl,
        refl,
        refl,
      )
