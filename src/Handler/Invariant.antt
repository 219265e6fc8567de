-- ===== src/Handler/Invariant.antt =====
-- Whatever packets come in, the room stays in order.
pub mod Requests
use hamang_server.Prelude.{
  Bool-cases, Option, Returns-bind, Returns-ok, inl, inr, none, ok, refl, some, suc, zero, ℕ, ◌≡◌,
}
use hamang_server.Text.{bytes_eq}
use hamang_server.Protocol.{
  LexRequest, MessageInfo, change_master_client, chat, db_reference, destroy, instantiate,
  message_info_of, net_sig, no_request, ping, receive_modified_time, remove_rpcs_request,
  request_of, rpc, server_callbacks, server_request, set_hash, sync_var,
}
use hamang_server.Message.{NetworkMessage, get_next, get_next_int, has_next, set_begin_point}
use hamang_server.Players.{PlayerManager}
use hamang_server.Players.Invariant.{IsConsistent}
use hamang_server.State.{Env, Server}
use hamang_server.Handler.{
  assert_next_int, check_message_complete, handle_info, handle_message, handle_packet,
  handle_request_code, handle_server_request,
}
use hamang_server.Handler.Invariant.Requests.{
  InOrder, Keeps, handle_change_master_client-Keeps, handle_db_reference-Keeps, handle_echo-Keeps,
  handle_ping-Keeps, handle_property_request-Keeps, handle_receive_modified_time-Keeps,
  handle_remove_rpcs-Keeps,
}

module _ (env : Env) where
  handle_request_code-Keeps :
      (pm : PlayerManager) (code : Option LexRequest) (m : NetworkMessage) (s : Server)
      → InOrder pm s.players
      → Keeps pm (handle_request_code env code m s)
  unfolding handle_request_code
  handle_request_code-Keeps pm none m s v = v
  handle_request_code-Keeps pm (some no_request) m s v = v
  handle_request_code-Keeps pm (some remove_rpcs_request) m s v = handle_remove_rpcs-Keeps pm m s v
  handle_request_code-Keeps pm (some receive_modified_time) m s v =
      handle_receive_modified_time-Keeps env pm m s v
  handle_request_code-Keeps pm (some change_master_client) m s v =
      handle_change_master_client-Keeps pm m s v
  handle_request_code-Keeps pm (some ping) m s v = handle_ping-Keeps env pm m s v
  handle_request_code-Keeps pm (some db_reference) m s v = handle_db_reference-Keeps env pm m s v

  handle_info-Keeps :
      (pm : PlayerManager) (info : Option MessageInfo) (m : NetworkMessage) (s : Server)
      → InOrder pm s.players
      → Keeps pm (handle_info env info m s)
  unfolding handle_info handle_server_request
  handle_info-Keeps pm (some server_request) m s v =
      Returns-bind _ (assert_next_int m) _
        λ code e. handle_request_code-Keeps pm (request_of code.0) code.1 s v
  handle_info-Keeps pm (some set_hash) m s v = handle_property_request-Keeps pm m s v
  handle_info-Keeps pm none m s v = handle_echo-Keeps pm none m s v
  handle_info-Keeps pm (some rpc) m s v = handle_echo-Keeps pm (some rpc) m s v
  handle_info-Keeps pm (some sync_var) m s v = handle_echo-Keeps pm (some sync_var) m s v
  handle_info-Keeps pm (some chat) m s v = handle_echo-Keeps pm (some chat) m s v
  handle_info-Keeps pm (some instantiate) m s v = handle_echo-Keeps pm (some instantiate) m s v
  handle_info-Keeps pm (some destroy) m s v = handle_echo-Keeps pm (some destroy) m s v
  handle_info-Keeps pm (some server_callbacks) m s v =
      handle_echo-Keeps pm (some server_callbacks) m s v

  handle_packet-Keeps :
      (pm : PlayerManager) (m : NetworkMessage) (s : Server)
      → InOrder pm s.players
      → Keeps pm (handle_packet env m s)
  unfolding handle_packet
  handle_packet-Keeps pm m s v = Returns-bind _ (get_next_int m) _ λ actor e₁.
      Returns-bind _ (get_next_int (record actor.1 { sent_actor_nr = actor.0 })) _
        λ info e₂. handle_info-Keeps pm (message_info_of info.0) info.1 s v

  handle_message-Keeps :
      (pm : PlayerManager) (f : ℕ) (m : NetworkMessage) (s : Server)
      → InOrder pm s.players
      → Keeps pm (handle_message env f m s)
  unfolding handle_message
  handle_message-Keeps pm zero m s v = tt
  handle_message-Keeps pm (suc f) m s v = elim (Bool-cases (has_next m)) [
    | inr last ↦ rw (last, handle_message) v
    | inl more ↦
        rw (more, handle_message)
          (Returns-bind _ (get_next (set_begin_point m)) _ λ signature e₁.
            elim (Bool-cases (bytes_eq signature.0 net_sig)) [
              | inr foreign ↦ rw foreign (handle_message-Keeps pm f signature.1 s v)
              | inl mine ↦ rw mine (
                  Returns-bind _ (check_message_complete signature.1) _ λ complete e₂.
                    elim (Bool-cases complete.0) [
                      | inr cut ↦ rw cut v
                      | inl whole ↦ rw whole (
                          Returns-bind _ (handle_packet env complete.1 s) _ λ after e₃.
                            handle_message-Keeps pm f after.0 after.1 (
                              Returns-ok
                                (λ (after : NetworkMessage × Server). InOrder pm after.1.players) _
                                after (handle_packet-Keeps pm complete.1 s v) e₃))
                    ])
            ])
  ]

  -- Whatever the packets of a message are, requests, properties, packets to hand on or none that the
  -- server knows: if the room is consistent when they come in and `HandleMessage` returns, then the
  -- room is consistent afterwards, with the same table of players and the same next number.
  pub handle_message-IsConsistent :
      (f : ℕ) (m : NetworkMessage) (s : Server) (m' : NetworkMessage) (s' : Server)
      → IsConsistent s.players
      → handle_message env f m s ≡ ok (m', s')
      → IsConsistent s'.players
        × (s'.players.player_hash ≡ s.players.player_hash)
        × (s'.players.next_actor_number ≡ s.players.next_actor_number)
  handle_message-IsConsistent f m s m' s' v h =
      Returns-ok (λ (after : NetworkMessage × Server). InOrder s.players after.1.players)
        (handle_message env f m s) (m', s') (handle_message-Keeps s.players f m s (v, refl, refl)) h
