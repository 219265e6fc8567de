-- ===== src/Handler/Ending.antt =====
-- `HandleMessage` comes to an end on every message whose packets declare a length.
pub mod Calls
pub mod Lengths
pub mod Requests
use mathlib.Core.Path.{subst}
use hamang_server.Prelude.{
  Bool-cases, Ends, Ends-bind, List, Option, [], ap, arith, ends, ends-bind_Ends, get_elem?,
  get_elem?-get_or, get_or, inl, inr, length, ltb→lt, none, refl, some, suc, true, zero, ℕ, ◌+◌,
  ◌<◌, ◌^◌, ◌≡◌, ◌≤◌,
}
use hamang_server.Text.{Bytes, bytes_eq}
use hamang_server.Protocol.{
  LexRequest, MessageInfo, change_master_client, chat, db_reference, destroy, instantiate,
  message_info_of, net_sig, no_request, ping, receive_modified_time, remove_rpcs_request,
  request_of, rpc, server_callbacks, server_request, set_hash, sync_var,
}
use hamang_server.Message.{NetworkMessage, get_next_int, has_next, set_begin_point}
use hamang_server.Message.Within.{IsWithin, get_next_int-Reads}
use hamang_server.State.{Env, Server}
use hamang_server.Handler.{
  Handled, assert_next_int, check_message_complete, handle_echo, handle_info, handle_message,
  handle_packet, handle_request_code, handle_server_request,
}
use hamang_server.Handler.Ending.Requests.{
  assert_next_int-Reads, handle_change_master_client-Proceeds, handle_db_reference-Proceeds,
  handle_echo-Proceeds, handle_ping-Proceeds, handle_property_request-Proceeds,
  handle_receive_modified_time-Proceeds, handle_remove_rpcs-Proceeds,
}
use hamang_server.Message.Cursor.{get_next_at}
use hamang_server.Handler.Ending.Lengths.{DeclaresLengths, IsOpen, check_message_complete-IsOpen}

module _ (env : Env) (ts : List Bytes) (few : length ts < 2 ^ 31) where
  module _ (begin end : ℕ) (ordered : begin < end) (enclosed : end ≤ length ts) where
    fewer : length ts < 2 ^ 32
    fewer = omega arith

    abbrev Goes : Handled → Type 0
    Goes = Ends (λ (after : NetworkMessage × Server). IsWithin ts begin end after.0)

    abbrev Got {ℓ} : {T : Type ℓ} → T × NetworkMessage → Type 0
    Got got = IsWithin ts begin end got.1

    code-Goes :
        (code : Option LexRequest) (m : NetworkMessage) (s : Server)
        → IsWithin ts begin end m
        → Goes (handle_request_code env code m s)
    unfolding handle_request_code
    code-Goes none m s v = v
    code-Goes (some no_request) m s v = v
    code-Goes (some remove_rpcs_request) m s v =
        handle_remove_rpcs-Proceeds ts begin end fewer m s v
    code-Goes (some receive_modified_time) m s v =
        handle_receive_modified_time-Proceeds ts begin end fewer env m s v
    code-Goes (some change_master_client) m s v =
        handle_change_master_client-Proceeds ts begin end fewer m s v
    code-Goes (some ping) m s v = handle_ping-Proceeds ts begin end fewer env m s v
    code-Goes (some db_reference) m s v = handle_db_reference-Proceeds ts begin end fewer env m s v

    echo-Goes :
        (info : Option MessageInfo) (m : NetworkMessage) (s : Server)
        → IsWithin ts begin end m
        → Goes (handle_echo info m s)
    echo-Goes info m s v = handle_echo-Proceeds ts begin end fewer info m s ordered enclosed v

    info-Goes :
        (info : Option MessageInfo) (m : NetworkMessage) (s : Server)
        → IsWithin ts begin end m
        → Goes (handle_info env info m s)
    unfolding handle_info handle_server_request
    info-Goes (some server_request) m s v =
        Ends-bind Got _ (assert_next_int m) _ (assert_next_int-Reads ts begin end fewer m v)
          λ code w. code-Goes (request_of code.0) code.1 s w
    info-Goes (some set_hash) m s v = handle_property_request-Proceeds ts begin end fewer m s v
    info-Goes none m s v = echo-Goes none m s v
    info-Goes (some rpc) m s v = echo-Goes (some rpc) m s v
    info-Goes (some sync_var) m s v = echo-Goes (some sync_var) m s v
    info-Goes (some chat) m s v = echo-Goes (some chat) m s v
    info-Goes (some instantiate) m s v = echo-Goes (some instantiate) m s v
    info-Goes (some destroy) m s v = echo-Goes (some destroy) m s v
    info-Goes (some server_callbacks) m s v = echo-Goes (some server_callbacks) m s v

    packet-Goes :
        (m : NetworkMessage) (s : Server) → IsWithin ts begin end m → Goes (handle_packet env m s)
    unfolding handle_packet
    packet-Goes m s v =
        Ends-bind Got _ (get_next_int m) _ (get_next_int-Reads ts begin end fewer m v) λ actor w.
          Ends-bind Got _ (get_next_int (record actor.1 { sent_actor_nr = actor.0 })) _
            (get_next_int-Reads ts begin end fewer (record actor.1 { sent_actor_nr = actor.0 })
              (record {
                same_tokens = w.same_tokens;
                same_end = w.same_end;
                behind = w.behind;
                inside = w.inside;
              }))
            λ info u. info-Goes (message_info_of info.0) info.1 s u

  has_next-lt : (m : NetworkMessage) → has_next m ≡ true → m.iterator < length m.tokens
  unfolding has_next
  has_next-lt m h = ltb→lt m.iterator (length m.tokens) h

  handle_message_goes :
      (f : ℕ) (m : NetworkMessage) (s : Server)
      → DeclaresLengths ts
      → m.tokens ≡ ts
      → m.iterator ≤ length ts
      → length ts < f + m.iterator
      → ends (handle_message env f m s) ≡ true
  unfolding handle_message set_begin_point
  handle_message_goes zero m s lengths same inside fuel = absurd (omega arith)
  handle_message_goes (suc f) m s lengths same inside fuel = elim (Bool-cases (has_next m)) [
    | inr last ↦ rw (last, handle_message) refl
    | inl more ↦
        let token = get_or m.tokens m.iterator [] in
        let m₁ = record (set_begin_point m) { iterator = m.iterator + 1 } in
        let there : m.iterator < length m.tokens = has_next-lt m more in
        let size : length m.tokens ≡ length ts = ap length same in
        let at = get_elem?-get_or m.tokens m.iterator [] there in
        let signed : get_elem? ts m.iterator ≡ some token = rw (← same) at in
        rw (more, handle_message)
          (rw (get_next_at (set_begin_point m) token at (omega arith))
            (elim (Bool-cases (bytes_eq token net_sig)) [
              | inr foreign ↦
                  rw (foreign, ends)
                    (handle_message_goes f m₁ s lengths same (omega arith) (omega arith))
              | inl mine ↦
                  rw (mine, ends)
                    (ends-bind_Ends (IsOpen ts few m.iterator) (check_message_complete m₁) _
                      (check_message_complete-IsOpen ts few m.iterator m₁ token lengths same refl
                        (omega arith) signed mine)
                      λ got o. elim o [
                        | inl cut ↦ rw cut refl
                        | inr (end, ordered, enclosed, w) ↦ elim (Bool-cases got.0) [
                          | inr cut ↦ rw cut refl
                          | inl whole ↦ rw whole (
                              ends-bind_Ends
                                (λ (after : NetworkMessage × Server).
                                  IsWithin ts m.iterator end after.0)
                                (handle_packet env got.1 s) _
                                (packet-Goes m.iterator end ordered enclosed got.1 s w)
                                λ after u.
                                  handle_message_goes f after.0 after.1 lengths u.same_tokens
                                    u.inside (omega (arith, u.behind)))
                        ]
                      ])
            ]))
  ]

-- With more rounds than there are tokens left, the loop ends by its test, by a packet that is not
-- complete, or by a fault, if behind each signature the length is above 0 when it is a number.
pub handle_message-ends :
    (env : Env) (f : ℕ) (m : NetworkMessage) (s : Server)
    → DeclaresLengths m.tokens
    → length m.tokens < 2 ^ 31
    → m.iterator ≤ length m.tokens
    → length m.tokens < f + m.iterator
    → ends (handle_message env f m s) ≡ true
handle_message-ends env f m s lengths few inside fuel =
    handle_message_goes env m.tokens few f m s lengths refl inside fuel
