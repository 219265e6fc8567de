-- ===== src/Handler/Endless.antt =====
-- A packet whose declared length is 0 ends where it begins, and is read again and again.
use native.Mathlib.Nat.{add-zero}
use hamang_server.Prelude.{
  append-nil, arith, err, false, get_elem?, get_elem?-get_or, get_or, length,
  lt-length_of_get_elem?, ok, out_of_fuel, pos, refl, some, suc, true, zero, ℕ, ℤ, ◌+◌, ◌-◌, ◌<◌,
  ◌^◌, ◌∙◌, ◌≡◌, ◌≤◌,
}
use hamang_server.Text.{Bytes}
use hamang_server.Text.Decimal.{stoi}
use hamang_server.Protocol.{message_info_of, net_sig}
use hamang_server.Message.{
  NetworkMessage, copy_tokens, save_strings_for_broadcast, set_begin_point, set_iterator_to_end,
}
use hamang_server.Message.Cursor.{
  get_next_at, get_next_int_at, has_next_lem, set_end_point_complete,
}
use hamang_server.State.{Env, Server}
use hamang_server.Handler.{
  check_message_complete, handle_echo, handle_message, handle_packet, is_buffered,
}
use hamang_server.Handler.Loop.Echoes.{handle_info-echo, is_echo}

-- At the cursor stands a packet of a kind that is handed on and not kept, with declared length 0.
pub record IsStuck (m : NetworkMessage) : Type 0 where
  pub length_token : Bytes
  pub actor_token : Bytes
  pub info_token : Bytes
  pub actor : ℤ
  pub info : ℤ
  pub signed : get_elem? m.tokens m.iterator ≡ some net_sig
  pub at_length : get_elem? m.tokens (m.iterator + 1) ≡ some length_token
  pub at_actor : get_elem? m.tokens (m.iterator + 2) ≡ some actor_token
  pub at_info : get_elem? m.tokens (m.iterator + 3) ≡ some info_token
  pub empty : stoi length_token ≡ ok (pos 0)
  pub from_actor : stoi actor_token ≡ ok actor
  pub of_kind : stoi info_token ≡ ok info
  pub echoed : is_echo (message_info_of info) ≡ true
  pub passed : is_buffered (message_info_of info) ≡ false
  pub few : length m.tokens < 2 ^ 32
  pub placed : length m.tokens ≤ length m.start_points

-- The message after one round: the cursor is where it was.
abbrev again : NetworkMessage → ℤ → NetworkMessage
again m actor = record m { begin_point = m.iterator; end_point = m.iterator; sent_actor_nr = actor }

module _ (env : Env) (m : NetworkMessage) (h : IsStuck m) where
  inside : m.iterator + 3 < length m.tokens
  inside = lt-length_of_get_elem? m.tokens (m.iterator + 3) h.info_token h.at_info

  abbrev moved : ℕ → NetworkMessage
  moved k = record m { iterator = m.iterator + k; begin_point = m.iterator }

  next : (k j : ℕ) → k + 1 ≡ j → m.iterator + k + 1 ≡ m.iterator + j
  next k j e = omega arith

  start_known : get_elem? m.start_points m.iterator ≡ some (get_or m.start_points m.iterator 0)
  start_known = get_elem?-get_or m.start_points m.iterator 0 (omega (arith, inside, h.placed))

  measured : NetworkMessage
  measured = record m {
    iterator = m.iterator + 2;
    begin_point = m.iterator;
    end_point = m.iterator + 0;
  }

  length_read : check_message_complete (moved 1) ≡ ok (true, measured)
  unfolding check_message_complete measured
  length_read =
      rw
        (
          has_next_lem (moved 1) (omega (arith, inside)),
          get_next_int_at (moved 1) h.length_token (pos 0) h.at_length h.empty
              (omega (arith, inside, h.few)),
          next 1 2 refl,
        )
        (set_end_point_complete (moved 2) 0 (get_or m.start_points m.iterator 0) start_known
          (omega (arith, inside)) h.few)

  opened : NetworkMessage
  unfolding measured
  opened = record measured { iterator = m.iterator + 4; sent_actor_nr = h.actor }

  nothing_saved :
      (s : Server) → handle_echo (message_info_of h.info) opened s ≡ ok (again m h.actor, s)
  unfolding handle_echo opened save_strings_for_broadcast copy_tokens set_iterator_to_end
  nothing_saved s =
      let none_left : m.iterator + 0 - m.iterator ≡ 0 = omega arith in
      rw
        (none_left, h.passed, append-nil m.broadcast_message, add-zero m.count, add-zero m.iterator)

  echoed_again : (s : Server) → handle_packet env measured s ≡ ok (again m h.actor, s)
  unfolding handle_packet measured opened
  echoed_again s =
      rw
        (
          get_next_int_at measured h.actor_token h.actor h.at_actor h.from_actor
              (omega (arith, inside, h.few)),
          next 2 3 refl,
        )
        (rw
          (
            get_next_int_at (record measured { iterator = m.iterator + 3; sent_actor_nr = h.actor })
                h.info_token h.info h.at_info h.of_kind (omega (arith, inside, h.few)),
            next 3 4 refl,
          )
          (handle_info-echo env (message_info_of h.info) opened s h.echoed ∙ nothing_saved s))

  round :
      (f : ℕ) (s : Server)
      → handle_message env (suc f) m s ≡ handle_message env f (again m h.actor) s
  unfolding handle_message set_begin_point
  round f s = rw (
    has_next_lem m (omega (arith, inside)),
    handle_message,
    get_next_at (set_begin_point m) net_sig h.signed (omega (arith, inside, h.few)),
    length_read,
    echoed_again s,
  )

again-IsStuck : (m : NetworkMessage) (h : IsStuck m) → IsStuck (again m h.actor)
again-IsStuck m h = record {
  length_token = h.length_token;
  actor_token = h.actor_token;
  info_token = h.info_token;
  actor = h.actor;
  info = h.info;
  signed = h.signed;
  at_length = h.at_length;
  at_actor = h.at_actor;
  at_info = h.at_info;
  empty = h.empty;
  from_actor = h.from_actor;
  of_kind = h.of_kind;
  echoed = h.echoed;
  passed = h.passed;
  few = h.few;
  placed = h.placed;
}

-- If at the cursor stands a signed packet of a kind that is handed on and not kept, and it declares
-- the length 0, then the loop of `HandleMessage` runs for ever: no number of rounds ends it.
pub handle_message-endless :
    (env : Env) (f : ℕ) (m : NetworkMessage) (s : Server)
    → IsStuck m
    → handle_message env f m s ≡ err out_of_fuel
unfolding handle_message
handle_message-endless env zero m s h = refl
handle_message-endless env (suc f) m s h =
    round env m h f s ∙ handle_message-endless env f (again m h.actor) s (again-IsStuck m h)
