-- ===== src/Handler/Loop/Stream.antt =====
-- The loop over a whole stream of packets that the server hands on.
use hamang_server.Prelude.{
  List, [], ap, append-nil, append_assoc, arith, drop, length, length-append, length-drop, le→ltb,
  ok, refl, suc, sym, zero, ℕ, ◌++◌, ◌+◌, ◌<◌, ◌^◌, ◌∙◌, ◌∷◌, ◌≡◌, ◌≤◌,
}
use hamang_server.Text.{Bytes}
use hamang_server.Protocol.{net_delim}
use hamang_server.Values.{Rpc}
use hamang_server.Message.{NetworkMessage, has_next}
use hamang_server.Message.Segments.{terminated}
use hamang_server.State.{Env, Server}
use hamang_server.Handler.{handle_message}
use hamang_server.Handler.Loop.{after_echo, echo_round, moved, rest_ahead}
use hamang_server.Handler.Loop.Echoes.{Echo, IsEcho, echo_tokens, keep, kept}

-- A stream of packets, in order: its tokens, and what is kept of it.
abbrev pub stream_tokens : List Echo → List Bytes
stream_tokens [] = []
stream_tokens (e ∷ es) = echo_tokens e ++ stream_tokens es

abbrev pub kept_all : List Echo → List Rpc
kept_all [] = []
kept_all (e ∷ es) = kept e ++ kept_all es

abbrev pub AllEcho : List Echo → Type 0
AllEcho [] = Unit
AllEcho (e ∷ es) = IsEcho e × AllEcho es

pub terminated-append :
    (d : ℕ) (ts us : List Bytes) → terminated d (ts ++ us) ≡ terminated d ts ++ terminated d us
terminated-append d [] us = refl
terminated-append d (t ∷ ts) us =
    rw (terminated-append d ts us) (sym (append_assoc t (d ∷ terminated d ts) (terminated d us)))

pub broadcast_lem :
    (m : NetworkMessage) (e : Echo) (es : List Echo)
    → m.broadcast_message
        ++ terminated net_delim (echo_tokens e)
        ++ terminated net_delim (stream_tokens es)
      ≡ m.broadcast_message ++ terminated net_delim (stream_tokens (e ∷ es))
broadcast_lem m e es =
    append_assoc m.broadcast_message (terminated net_delim (echo_tokens e))
      (terminated net_delim (stream_tokens es))
    ∙ ap (◌++◌ m.broadcast_message)
        (sym (terminated-append net_delim (echo_tokens e) (stream_tokens es)))

-- At the last token the loop ends.
at_the_end :
    (env : Env) (f : ℕ) (m : NetworkMessage) (s : Server)
    → length m.tokens ≤ m.iterator
    → handle_message env (suc f) m s ≡ ok (m, record s { message_queue = s.message_queue ++ [] })
unfolding handle_message has_next
at_the_end env f m s h =
    rw (le→ltb m.iterator (length m.tokens) h, handle_message, append-nil s.message_queue)

-- If what is ahead of the cursor is a stream of packets to hand on, then with more rounds than
-- packets the loop ends, with the cursor moved on by exactly the tokens of the stream. It has added
-- exactly the text of all packets to the broadcast, in order, and put exactly the packets that are to
-- be kept on the queue, in order, each under its actor and view with its whole text; the tokens, the
-- point to resume at and everything else of the server are as before.
pub handle_message-stream :
    (env : Env) (f : ℕ) (es : List Echo) (m : NetworkMessage) (s : Server)
    → AllEcho es
    → drop m.iterator m.tokens ≡ stream_tokens es
    → length m.tokens < 2 ^ 32
    → length m.tokens ≤ length m.start_points
    → length es < f
    → (m' : NetworkMessage) × (handle_message env f m s
        ≡ ok (m', record s { message_queue = s.message_queue ++ kept_all es }))
      × (m'.broadcast_message ≡ m.broadcast_message ++ terminated net_delim (stream_tokens es))
      × (m'.incomplete_resume_point ≡ m.incomplete_resume_point)
      × (m'.tokens ≡ m.tokens)
      × (m'.iterator ≡ m.iterator + length (stream_tokens es))
unfolding after_echo
handle_message-stream env zero es m s h ahead few placed fuel = elim fuel [ ]
handle_message-stream env (suc f) [] m s h ahead few placed fuel = (
  m,
  at_the_end env f m s (omega (arith, length-drop m.iterator m.tokens, ap length ahead)),
  sym (append-nil m.broadcast_message),
  refl,
  refl,
  omega arith,
)
handle_message-stream env (suc f) (e ∷ es) m s h ahead few placed fuel =
    let us = stream_tokens es in
    let (m', runs, text, point, same, moved) =
      handle_message-stream env f es (after_echo m e us h.0 ahead few placed) (keep s e) h.1
        (rest_ahead m e us h.0 ahead few placed) few placed (omega arith) in
    (
      m',
      echo_round m e us h.0 ahead few placed env f s
          ∙ runs
          ∙ rw (append_assoc s.message_queue (kept e) (kept_all es)),
      text ∙ broadcast_lem m e es,
      point,
      same,
      omega (arith, moved, length-append (echo_tokens e) (stream_tokens es)),
    )
