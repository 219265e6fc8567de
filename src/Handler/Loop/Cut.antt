-- ===== src/Handler/Loop/Cut.antt =====
-- A stream whose last packet is not complete: the loop stops at it.
use hamang_server.Prelude.{
  List, [], ap, append-nil, append_assoc, arith, drop, get_elem?, length, length-append,
  length-drop, ok, pos, refl, some, suc, sym, ℕ, ◌++◌, ◌+◌, ◌<◌, ◌^◌, ◌∙◌, ◌∷◌, ◌≡◌, ◌≤◌,
}
use hamang_server.Text.{Bytes}
use hamang_server.Text.Decimal.{stoi}
use hamang_server.Protocol.{net_delim, net_sig}
use hamang_server.Message.{NetworkMessage, set_begin_point}
use hamang_server.Message.Segments.{terminated}
use hamang_server.Message.Cursor.{
  get_next_at, get_next_int_at, has_next_lem, set_end_point_incomplete,
}
use hamang_server.State.{Env, Server}
use hamang_server.Handler.{check_message_complete, handle_message}
use hamang_server.Handler.Updates.{token_ahead}
use hamang_server.Handler.Loop.{after_echo, echo_round, rest_ahead}
use hamang_server.Handler.Loop.Echoes.{Echo, echo_tokens, keep, kept}
use hamang_server.Handler.Loop.Stream.{AllEcho, broadcast_lem, kept_all, stream_tokens}

-- What the loop has made of the message when it has handed these packets on.
pub record IsBehind (es : List Echo) (m m' : NetworkMessage) : Type 0 where
  pub same_tokens : m'.tokens ≡ m.tokens
  pub same_starts : m'.start_points ≡ m.start_points
  pub moved : m'.iterator ≡ m.iterator + length (stream_tokens es)
  pub copied : m'.broadcast_message ≡ m.broadcast_message ++ terminated net_delim (stream_tokens es)
  pub same_point : m'.incomplete_resume_point ≡ m.incomplete_resume_point

-- The loop comes to what stands behind the packets.
pub handle_message_prefix :
    (env : Env) (f : ℕ) (es : List Echo) (rest : List Bytes) (m : NetworkMessage) (s : Server)
    → AllEcho es
    → drop m.iterator m.tokens ≡ stream_tokens es ++ rest
    → length m.tokens < 2 ^ 32
    → length m.tokens ≤ length m.start_points
    → (m' : NetworkMessage) × (handle_message env (length es + f) m s
        ≡ handle_message env f m' (record s { message_queue = s.message_queue ++ kept_all es }))
      × IsBehind es m m'
unfolding after_echo
handle_message_prefix env f [] rest m s h ahead few placed =
    let none_more : 0 + f ≡ f = omega arith in
    (
      m,
      rw (none_more, append-nil s.message_queue) refl,
      record {
        same_tokens = refl;
        same_starts = refl;
        moved = omega arith;
        copied = sym (append-nil m.broadcast_message);
        same_point = refl;
      },
    )
handle_message_prefix env f (e ∷ es) rest m s h ahead few placed =
    let us = stream_tokens es ++ rest in
    let ahead' : drop m.iterator m.tokens ≡ echo_tokens e ++ us =
      ahead ∙ append_assoc (echo_tokens e) (stream_tokens es) rest in
    let round : suc (length es) + f ≡ suc (length es + f) = omega arith in
    let (m', runs, w) =
      handle_message_prefix env f es rest (after_echo m e us h.0 ahead' few placed) (keep s e) h.1
        (rest_ahead m e us h.0 ahead' few placed) few placed in
    (
      m',
      rw round (echo_round m e us h.0 ahead' few placed env (length es + f) s)
          ∙ runs
          ∙ rw (append_assoc s.message_queue (kept e) (kept_all es)) refl,
      record {
        same_tokens = w.same_tokens;
        same_starts = w.same_starts;
        moved = omega (arith, w.moved, length-append (echo_tokens e) (stream_tokens es));
        copied = w.copied ∙ broadcast_lem m e es;
        same_point = w.same_point;
      },
    )

-- At a packet whose length says that it ends behind the tokens, the loop stops, with nothing done but
-- the note where the packet begins.
pub handle_message_cut :
    (env : Env) (f n start : ℕ) (size : Bytes) (more : List Bytes) (m : NetworkMessage) (s : Server)
    → drop m.iterator m.tokens ≡ net_sig ∷ size ∷ more
    → stoi size ≡ ok (pos n)
    → length more + 2 < n
    → m.iterator + n < 2 ^ 32
    → get_elem? m.start_points m.iterator ≡ some start
    → handle_message env (suc f) m s
      ≡ ok (
        record m {
          iterator = m.iterator + 1 + 1;
          begin_point = m.iterator;
          end_point = m.iterator + n;
          incomplete_resume_point = start;
        },
        s,
      )
unfolding handle_message check_message_complete set_begin_point
handle_message_cut env f n start size more m s ahead reads short few at =
    let count : length m.tokens ≡ m.iterator + (length more + 2) =
      omega (arith, length-drop m.iterator m.tokens, ap length ahead) in
    let m₁ = record m { iterator = m.iterator + 1; begin_point = m.iterator } in
    let m₂ = record m { iterator = m.iterator + 1 + 1; begin_point = m.iterator } in
    let at_0 : get_elem? m.tokens m.iterator ≡ some net_sig =
      ap (get_elem? m.tokens) (omega arith) ∙ token_ahead m (net_sig ∷ size ∷ more) ahead 0 in
    let at_1 : get_elem? m.tokens (m.iterator + 1) ≡ some size =
      token_ahead m (net_sig ∷ size ∷ more) ahead 1 in
    rw (
      has_next_lem m (omega (arith, count)),
      handle_message,
      get_next_at (record m { begin_point = m.iterator }) net_sig at_0 (omega arith),
      has_next_lem m₁ (omega (arith, count)),
      get_next_int_at m₁ size (pos n) at_1 reads (omega arith),
      set_end_point_incomplete m₂ n start at (omega (arith, count)) few,
    )
