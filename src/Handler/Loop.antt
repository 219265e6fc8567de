-- ===== src/Handler/Loop.antt =====
-- Packets that the server only hands on are relayed word by word, in order, and those that a later
-- player needs are kept.
pub mod Echoes
pub mod Stream
pub mod Cut
use native.Mathlib.Nat.{add-zero}
use hamang_server.Prelude.{
  Bool-cases, List, ap, append-nil, arith, drop, drop-append_exact, drop-drop, get_elem?,
  get_elem?-drop, get_elem?-get_or, get_or, if◌then◌else◌, inl, inr, length, length-append,
  length-drop, lt-length_of_get_elem?, lt→ltb, ok, pos, some, suc, sym, take, take-append_exact,
  true, ℕ, ◌++◌, ◌+◌, ◌-◌, ◌<◌, ◌^◌, ◌∙◌, ◌≡◌, ◌≤◌,
}
use hamang_server.Text.{Bytes}
use hamang_server.Protocol.{message_info_of, net_delim, net_sig}
use hamang_server.Rpc.{enqueue_message}
use hamang_server.Message.{
  NetworkMessage, get_next, get_next_int, has_next, save_strings_for_broadcast, set_begin_point,
  set_iterator_to_end,
}
use hamang_server.Message.Segments.{terminated}
use hamang_server.Message.Copy.{save_strings_for_broadcast_lem}
use hamang_server.State.{Env, Server}
use hamang_server.Handler.{
  check_message_complete, handle_echo, handle_message, handle_packet, is_buffered,
}
use hamang_server.Message.Cursor.{
  get_next_at, get_next_int_at, has_next_lem, set_end_point_complete,
}
use hamang_server.Handler.Loop.Echoes.{
  Echo, IsEcho, echo_tokens, first_number, first_number-ok, handle_info-echo, keep,
}

module _ (m : NetworkMessage) (e : Echo) (rest : List Bytes) (h : IsEcho e)
    (ahead : drop m.iterator m.tokens ≡ echo_tokens e ++ rest) (few : length m.tokens < 2 ^ 32)
    (placed : length m.tokens ≤ length m.start_points) where
  -- The token so many places behind the cursor.
  token_ahead : (k : ℕ) → get_elem? m.tokens (m.iterator + k) ≡ get_elem? (echo_tokens e ++ rest) k
  token_ahead k =
      get_elem?-drop m.tokens m.iterator k ∙ ap (λ (l : List Bytes). get_elem? l k) ahead

  enough : m.iterator + (length e.body + 4) ≤ length m.tokens
  enough =
      omega (arith, length-drop m.iterator m.tokens, ap length ahead, length-append e.body rest)

  -- The message when the length has been read.
  measured : NetworkMessage
  measured = record m {
    iterator = m.iterator + 2;
    begin_point = m.iterator;
    end_point = m.iterator + (length e.body + 4);
  }

  at_signature : get_elem? m.tokens m.iterator ≡ some net_sig
  at_signature = sym (ap (get_elem? m.tokens) (add-zero m.iterator)) ∙ token_ahead 0

  is_next : has_next m ≡ true
  unfolding has_next
  is_next = lt→ltb m.iterator (length m.tokens) (omega (arith, enough))

  -- The cursor, moved on by so many places.
  abbrev moved : ℕ → NetworkMessage
  moved k = record m { iterator = m.iterator + k; begin_point = m.iterator }

  moved_suc : (k j : ℕ) → k + 1 ≡ j → record (moved k) { iterator = m.iterator + k + 1 } ≡ moved j
  moved_suc k j e =
      ap (λ (n : ℕ). record m { iterator = n; begin_point = m.iterator }) (omega arith)

  signature_read : get_next (set_begin_point m) ≡ ok (net_sig, moved 1)
  unfolding set_begin_point
  signature_read = get_next_at (set_begin_point m) net_sig at_signature (omega (arith, enough))

  start_known : get_elem? m.start_points m.iterator ≡ some (get_or m.start_points m.iterator 0)
  start_known = get_elem?-get_or m.start_points m.iterator 0 (omega (arith, enough))

  length_read : check_message_complete (moved 1) ≡ ok (true, measured)
  unfolding check_message_complete measured
  length_read =
      rw
        (
          has_next_lem (moved 1) (omega (arith, enough)),
          get_next_int_at (moved 1) e.length_token (pos (length e.body + 4)) (token_ahead 1)
              h.counted (omega (arith, enough)),
        )
        (rw (moved_suc 1 2 (omega arith)) (
          set_end_point_complete (moved 2) (length e.body + 4) (get_or m.start_points m.iterator 0)
            start_known enough few))

  -- The message when the actor and the kind have been read.
  opened : NetworkMessage
  unfolding measured
  opened = record measured { iterator = m.iterator + 4; sent_actor_nr = e.actor }

  packet : Bytes
  packet = terminated net_delim (echo_tokens e)

  -- What one packet makes of the message.
  pub after_echo : NetworkMessage
  unfolding opened packet
  after_echo = record opened {
    iterator = m.iterator + (length e.body + 4);
    broadcast_message = m.broadcast_message ++ packet;
    count = m.count + (length e.body + 4);
    target_view_id = if is_buffered (message_info_of e.info) then e.view else m.target_view_id;
  }

  packet_read :
      (s : Server) (env : Env)
      → handle_packet env measured s ≡ handle_echo (message_info_of e.info) opened s
  unfolding handle_packet measured opened
  packet_read s env =
      let at_3 : m.iterator + 2 + 1 ≡ m.iterator + 3 = omega arith in
      let at_4 : m.iterator + 3 + 1 ≡ m.iterator + 4 = omega arith in
      rw
        (
          get_next_int_at measured e.actor_token e.actor (token_ahead 2) h.from_actor
              (omega (arith, enough)),
          at_3,
        )
        (rw
          (
            get_next_int_at (record measured { iterator = m.iterator + 3; sent_actor_nr = e.actor })
                e.info_token e.info (token_ahead 3) h.of_kind (omega (arith, enough)),
            at_4,
          )
          (handle_info-echo env (message_info_of e.info) opened s h.echoed))

  slice_lem :
      take (m.iterator + (length e.body + 4) - m.iterator) (drop m.iterator m.tokens)
      ≡ echo_tokens e
  slice_lem =
      let rounds : m.iterator + (length e.body + 4) - m.iterator ≡ length (echo_tokens e) =
        omega arith in
      rw (rounds, ahead) (take-append_exact (echo_tokens e) rest)

  saved :
      save_strings_for_broadcast opened
      ≡ ok (
        packet,
        record opened {
          broadcast_message = m.broadcast_message ++ packet;
          count = m.count + (length e.body + 4);
        },
      )
  unfolding opened packet
  saved =
      let rounds : m.iterator + (length e.body + 4) - m.iterator ≡ length e.body + 4 =
        omega arith in
      save_strings_for_broadcast_lem opened (omega arith) enough ∙ rw (slice_lem, rounds)

  -- The message when the packet has been copied.
  copied : NetworkMessage
  unfolding opened packet
  copied = record opened {
    broadcast_message = m.broadcast_message ++ packet;
    count = m.count + (length e.body + 4);
  }

  view_read :
      first_number e.body ≡ ok e.view
      → get_next_int copied ≡ ok (e.view, record copied { iterator = m.iterator + 4 + 1 })
  unfolding copied opened measured
  view_read k =
      let (token, here, number) = first_number-ok e.body rest e.view k in
      let at_view = token_ahead 4 ∙ here in
      get_next_int_at copied token e.view at_view number
        (omega (arith, lt-length_of_get_elem? m.tokens (m.iterator + 4) token at_view))

  -- A packet to be kept is read up to its view, and stored.
  echo_stored :
      (s : Server)
      → is_buffered (message_info_of e.info) ≡ true
      → first_number e.body ≡ ok e.view
      → handle_echo (message_info_of e.info) opened s ≡ ok (after_echo, keep s e)
  unfolding handle_echo after_echo set_iterator_to_end enqueue_message copied
  echo_stored s stored k = rw (saved, stored, view_read k)

  echo_handled :
      (s : Server) → handle_echo (message_info_of e.info) opened s ≡ ok (after_echo, keep s e)
  unfolding handle_echo after_echo set_iterator_to_end
  echo_handled s = elim (Bool-cases (is_buffered (message_info_of e.info))) [
    | inl stored ↦ elim h.viewed [ inl passed ↦ cc | inr k ↦ echo_stored s stored k ]
    | inr passed ↦ rw (saved, passed, append-nil s.message_queue)
  ]

  -- One round of the loop hands the packet on and goes on behind it.
  pub echo_round :
      (env : Env) (f : ℕ) (s : Server)
      → handle_message env (suc f) m s ≡ handle_message env f after_echo (keep s e)
  unfolding handle_message
  echo_round env f s =
      rw (is_next, handle_message, signature_read, length_read, packet_read s env, echo_handled s)

  -- Behind the packet stands the rest.
  pub rest_ahead : drop (m.iterator + (length e.body + 4)) m.tokens ≡ rest
  rest_ahead =
      let size : length e.body + 4 ≡ length (echo_tokens e) = omega arith in
      rw (size, drop-drop m.iterator (length (echo_tokens e)) m.tokens, ahead)
        (drop-append_exact (echo_tokens e) rest)
