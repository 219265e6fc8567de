-- ===== src/Server/Receive/Resume.antt =====
-- A packet that the socket's call brings only a part of, behind whole packets: what the round keeps
-- of it, and what becomes of it in the next round.
pub mod First
use hamang_server.Prelude.{
  Bool-cases, List, [], ap, append_assoc, arith, assertion_failed, drop, err, false, get_elem?,
  get_or, inl, inr, length, length-append, ltb, ok, pos, refl, some, suc, sym, take, zero, ℕ, ◌++◌,
  ◌+◌, ◌-◌, ◌<◌, ◌==◌, ◌^◌, ◌∙◌, ◌∷◌, ◌≡◌, ◌≤◌, ◌⊎◌,
}
use hamang_server.Text.{Bytes, Lacks}
use hamang_server.Text.Decimal.{stoi}
use hamang_server.Protocol.{net_delim, net_sig}
use hamang_server.Values.{buffer_size, read}
use hamang_server.Message.{NetworkMessage, has_message_to_broadcast, new_message, split}
use hamang_server.Message.Segments.{AllLack, has_empty, segments-terminated, starts, terminated}
use hamang_server.Message.Split.{split_lem}
use hamang_server.Buffers.{PerIoData}
use hamang_server.State.{Env, Server}
use hamang_server.Handler.{handle_message}
use hamang_server.Handler.Loop.Cut.{handle_message_cut}
use hamang_server.Server.Receive.{filled, receive_message, relay, write_at}
use hamang_server.Server.Receive.Relay.{c_string-terminated, carried}
use hamang_server.Server.Receive.Cut.{no_room}

-- The part of a packet that came in: whole tokens, of which the second is the length, and some bytes
-- of one more.
pub record Part : Type 0 where
  pub size : Bytes
  pub declared : ℕ
  pub more : List Bytes
  pub partial : Bytes

abbrev pub part_tokens : Part → List Bytes
part_tokens p = net_sig ∷ p.size ∷ p.more

abbrev pub part_text : Part → Bytes
part_text p = terminated net_delim (part_tokens p) ++ p.partial

-- The length says that more tokens are to come, and no token can be mistaken for two.
pub record IsPart (p : Part) : Type 0 where
  pub counted : stoi p.size ≡ ok (pos p.declared)
  pub short : length p.more + 2 < p.declared
  pub small : p.declared < 2 ^ 31
  pub clean : AllLack net_delim (part_tokens p)
  pub full : has_empty (part_tokens p) ≡ false
  pub no_delim : Lacks net_delim p.partial
  pub printable : Lacks 0 (part_text p)

pub starts_at :
    (q : ℕ) (ts us : List Bytes) (u : Bytes)
    → get_elem? (starts q (ts ++ u ∷ us)) (length ts) ≡ some (q + length (terminated net_delim ts))
starts_at q [] us u = ap some (omega arith)
starts_at q (t ∷ ts) us u =
    starts_at (q + length t + 1) ts us u
    ∙ ap some (omega (arith, length-append t (net_delim ∷ terminated net_delim ts)))

pub take-append_le {ℓ} :
    {A : Type ℓ} (xs ys : List A) (n : ℕ)
    → length xs ≤ n
    → take n (xs ++ ys) ≡ xs ++ take (n - length xs) ys
take-append_le [] ys n h = rw (let e : n - 0 ≡ n = omega arith in e) refl
take-append_le (x ∷ xs) ys zero h = absurd (omega arith)
take-append_le (x ∷ xs) ys (suc n) h =
    let e : suc n - suc (length xs) ≡ n - length xs = omega arith in
    rw (e, take-append_le xs ys n (omega arith)) refl

-- A write behind a prefix leaves the prefix.
write_at-prefix :
    (p rest : Bytes) (i : ℕ) (bytes : Bytes)
    → length p ≤ i
    → (rest' : Bytes) × (write_at (p ++ rest) i bytes ≡ p ++ rest')
write_at-prefix p rest i bytes h = (
  take (i - length p) rest ++ bytes ++ drop (i + length bytes) (p ++ rest),
  rw (take-append_le p rest i h) (simp append_assoc),
)

filled-prefix :
    (io : PerIoData) (p rest received : Bytes)
    → io.buffer ≡ p ++ rest
    → length p ≤ io.offset
    → (rest' : Bytes) × (filled io received ≡ p ++ rest')
unfolding filled
filled-prefix io p rest received holds behind =
    let (rest₁, once) = write_at-prefix p rest io.offset received behind in
    let (rest₂, twice) =
      write_at-prefix p rest₁ (io.offset + length received) (0 ∷ []) (omega arith) in
    elim (Bool-cases (ltb (length received) io.len)) [
      | inl room ↦ (rest₂, rw (room, holds, once) twice)
      | inr no_place ↦ (rest₁, rw (no_place, holds) once)
    ]

module _ (p : Part) (h : IsPart p) where
  abbrev part_message : NetworkMessage
  part_message = record new_message {
    tokens = part_tokens p;
    start_points = starts 0 (part_tokens p);
    count = length (part_tokens p);
  }

  part_splits :
      (f : ℕ)
      → length (part_text p) < f
      → split f new_message (part_text p) net_delim ≡ ok part_message
  part_splits f fuel =
      split_lem f new_message (part_text p) net_delim fuel
      ∙ rw (segments-terminated net_delim (part_tokens p) p.partial h.clean h.no_delim, h.full) refl

  -- What the round makes of the part alone.
  abbrev stopped : NetworkMessage
  stopped = record part_message { iterator = 0 + 1 + 1; end_point = 0 + p.declared }

  part_handled :
      (env : Env) (f : ℕ) (s : Server)
      → 0 < f
      → handle_message env f part_message s ≡ ok (stopped, s)
  part_handled env zero s k = absurd (omega arith)
  part_handled env (suc f) s k =
      handle_message_cut env f p.declared 0 p.size p.more part_message s refl h.counted h.short
        (omega (arith, h.small)) refl

  nothing_relayed : (address : ℕ) (s : Server) → relay address stopped s ≡ ok s
  unfolding relay has_message_to_broadcast
  nothing_relayed address s = refl

  -- Let the buffer begin with the part, a zero behind it, and let the socket's call bring in further
  -- bytes, whatever they are, behind those. Then with more fuel than the part is long they are read
  -- by nobody: either an assertion fails, or the round returns with the server unchanged, and the
  -- next call reads over the part and over what came in.
  pub receive_message-loses :
      (env : Env) (f address : ℕ) (io : PerIoData) (rest received : Bytes) (s : Server)
      → io.buffer ≡ part_text p ++ 0 ∷ rest
      → length (part_text p) < io.offset
      → length (part_text p) < f
      → (receive_message env f address io received s ≡ err assertion_failed)
        ⊎ ((io' : PerIoData) × (receive_message env f address io received s ≡ ok (io', s))
            × (io'.offset ≡ 0)
            × (io'.len ≡ buffer_size))
  unfolding receive_message
  receive_message-loses env f address io rest received s holds behind fuel =
      let text = part_text p in
      let holds' : io.buffer ≡ (text ++ 0 ∷ []) ++ rest =
        holds ∙ sym (append_assoc text (0 ∷ []) rest) in
      let (rest', fill) =
        filled-prefix io (text ++ 0 ∷ []) rest received holds'
          (omega (arith, length-append text (0 ∷ []))) in
      let fill' : filled io received ≡ text ++ 0 ∷ rest' =
        fill ∙ append_assoc text (0 ∷ []) rest' in
      elim (Bool-cases
        (get_or (text ++ 0 ∷ rest') (io.offset + length received - 1) 0 == net_delim)) [
          | inr open_end ↦ inl (
              rw (
                fill',
                c_string-terminated text rest' h.printable,
                part_splits f fuel,
                part_handled env f s (omega arith),
                nothing_relayed address s,
                open_end,
                no_room env io (text ++ 0 ∷ rest'),
              ))
          | inl closed ↦ inr (
            record io { buffer = text ++ 0 ∷ rest'; offset = 0; len = buffer_size; rw_mode = read },
            rw (
              fill',
              c_string-terminated text rest' h.printable,
              part_splits f fuel,
              part_handled env f s (omega arith),
              nothing_relayed address s,
              closed,
              carried env io (text ++ 0 ∷ rest'),
            ),
            refl,
            refl,
          )
        ]
