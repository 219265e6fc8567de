-- ===== src/Handler/Ending/Requests.antt =====
-- Each handler ends, and leaves the cursor behind the packet's begin and among the tokens.
use hamang_server.Prelude.{
  Anything, Bool-cases, Ends, Ends-bind, Ends-of_ends, List, Option, assert, assert-ends, false,
  inl, inr, length, pos_part, suc, zero, ℕ, ℤ, ◌<◌, ◌^◌, ◌≤◌,
}
use hamang_server.Text.{Bytes}
use hamang_server.Protocol.{MessageInfo}
use hamang_server.Message.{
  NetworkMessage, get_next_int, has_next, save_strings_for_broadcast, set_iterator_to_end,
}
use hamang_server.Player.{Network, send}
use hamang_server.Players.{broadcast_message_all, set_master_client}
use hamang_server.Ping.{time_synch_receive}
use hamang_server.Database.{handle_request}
use hamang_server.State.{Env, Server, player_at}
use hamang_server.Handler.{
  Handled, assert_next, assert_next_int, handle_change_master_client, handle_db_reference,
  handle_echo, handle_ping, handle_property_request, handle_receive_modified_time,
  handle_remove_rpcs, is_buffered, read_properties, set_target_property,
}
use hamang_server.Handler.Ending.Calls.{
  broadcast_message_all-ends, player_at-ends, set_master_client-ends, set_target_property-ends,
  time_synch_receive-ends,
}
use hamang_server.Message.Within.{
  IsWithin, set_iterator_to_end-At, get_next-Reads, get_next_int-Reads, save_strings-Reads,
}
use hamang_server.Database.Ending.{handle_request-Ends, send-ends}

module _ (ts : List Bytes) (begin end : ℕ) (few : length ts < 2 ^ 32) where
  abbrev At : NetworkMessage → Type 0
  At = IsWithin ts begin end

  abbrev Reads {ℓ} : {T : Type ℓ} → T × NetworkMessage → Type 0
  Reads got = At got.1

  -- A handler of such a message ends, with such a message.
  abbrev pub Proceeds : Handled → Type 0
  Proceeds = Ends (λ (after : NetworkMessage × Server). At after.0)

  assert_next-Reads : (m : NetworkMessage) → At m → Ends Reads (assert_next m)
  unfolding assert_next
  assert_next-Reads m v =
      Ends-bind Anything Reads (assert (has_next m)) _ (Ends-of_ends _ (assert-ends (has_next m)))
        λ _ _. get_next-Reads ts begin end few m v

  pub assert_next_int-Reads : (m : NetworkMessage) → At m → Ends Reads (assert_next_int m)
  unfolding assert_next_int
  assert_next_int-Reads m v =
      Ends-bind Anything Reads (assert (has_next m)) _ (Ends-of_ends _ (assert-ends (has_next m)))
        λ _ _. get_next_int-Reads ts begin end few m v

  read_properties-Proceeds :
      (rounds : ℕ) (target : ℤ) (m : NetworkMessage) (s : Server)
      → At m
      → Proceeds (read_properties rounds target m s)
  unfolding read_properties
  read_properties-Proceeds zero target m s v = v
  read_properties-Proceeds (suc rounds) target m s v =
      Ends-bind Reads _ (assert_next m) _ (assert_next-Reads m v) λ k₁ v₁.
        Ends-bind Reads _ (assert_next k₁.1) _ (assert_next-Reads k₁.1 v₁) λ k₂ v₂.
          Ends-bind Reads _ (assert_next k₂.1) _ (assert_next-Reads k₂.1 v₂) λ k₃ v₃.
            Ends-bind Anything _ (set_target_property target k₁.0 k₂.0 k₃.0 s) _
              (Ends-of_ends _ (set_target_property-ends target k₁.0 k₂.0 k₃.0 s))
              λ s' _. read_properties-Proceeds rounds target k₃.1 s' v₃

  pub handle_property_request-Proceeds :
      (m : NetworkMessage) (s : Server) → At m → Proceeds (handle_property_request m s)
  unfolding handle_property_request
  handle_property_request-Proceeds m s v =
      Ends-bind Reads _ (assert_next_int m) _ (assert_next_int-Reads m v) λ target v₁.
        Ends-bind Reads _ (assert_next_int target.1) _ (assert_next_int-Reads target.1 v₁) λ num v₂.
          Ends-bind (λ (after : NetworkMessage × Server). At after.0) _
            (read_properties (pos_part num.0) target.0 num.1 s) _
            (read_properties-Proceeds (pos_part num.0) target.0 num.1 s v₂)
            λ after v₃.
              Ends-bind Reads _ (save_strings_for_broadcast after.0) _
                (save_strings-Reads ts begin end few after.0 v₃) λ saved v₄. v₄

  pub handle_change_master_client-Proceeds :
      (m : NetworkMessage) (s : Server) → At m → Proceeds (handle_change_master_client m s)
  unfolding handle_change_master_client
  handle_change_master_client-Proceeds m s v =
      Ends-bind Reads _ (assert_next_int m) _ (assert_next_int-Reads m v) λ chosen v₁.
        Ends-bind Anything _ (set_master_client s.players chosen.0) _
          (Ends-of_ends _ (set_master_client-ends s.players chosen.0))
          λ players _.
            Ends-bind Anything _ (broadcast_message_all players.heap players.player_hash _ s.net) _
              (Ends-of_ends _ (broadcast_message_all-ends players.heap players.player_hash _ s.net))
              λ net _. v₁

  pub handle_remove_rpcs-Proceeds :
      (m : NetworkMessage) (s : Server) → At m → Proceeds (handle_remove_rpcs m s)
  unfolding handle_remove_rpcs
  handle_remove_rpcs-Proceeds m s v =
      Ends-bind Reads _ (assert_next_int m) _ (assert_next_int-Reads m v) λ actor v₁.
        Ends-bind Reads _ (assert_next_int actor.1) _ (assert_next_int-Reads actor.1 v₁)
          λ view v₂. v₂

  pub handle_echo-Proceeds :
      (info : Option MessageInfo) (m : NetworkMessage) (s : Server)
      → begin < end
      → end ≤ length ts
      → At m
      → Proceeds (handle_echo info m s)
  unfolding handle_echo set_iterator_to_end
  handle_echo-Proceeds info m s h k v =
      Ends-bind Reads _ (save_strings_for_broadcast m) _ (save_strings-Reads ts begin end few m v)
        λ saved v₁. elim (Bool-cases (is_buffered info)) [
          | inl kept ↦ rw kept (
              Ends-bind Reads _ (get_next_int saved.1) _
                (get_next_int-Reads ts begin end few saved.1 v₁)
                λ view v₂.
                  set_iterator_to_end-At ts begin end few
                    (record view.1 { target_view_id = view.0 }) h k
                    (record {
                      same_tokens = v₂.same_tokens;
                      same_end = v₂.same_end;
                      behind = v₂.behind;
                      inside = v₂.inside;
                    }))
          | inr passed ↦ rw passed (set_iterator_to_end-At ts begin end few saved.1 h k v₁)
        ]

  module _ (env : Env) where
    pub handle_receive_modified_time-Proceeds :
        (m : NetworkMessage) (s : Server) → At m → Proceeds (handle_receive_modified_time env m s)
    unfolding handle_receive_modified_time
    handle_receive_modified_time-Proceeds m s v =
        Ends-bind Reads _ (assert_next_int m) _ (assert_next_int-Reads m v) λ request v₁.
          Ends-bind Anything _ (player_at s.players request.1.sent_actor_nr) _
            (Ends-of_ends _ (player_at-ends s.players request.1.sent_actor_nr))
            λ target _.
              Ends-bind Anything _ (time_synch_receive env.clock s.pings target.1 s.net) _
                (Ends-of_ends _ (time_synch_receive-ends env.clock s.pings target.1 s.net))
                λ pings _. v₁

    pub handle_ping-Proceeds :
        (m : NetworkMessage) (s : Server) → At m → Proceeds (handle_ping env m s)
    unfolding handle_ping
    handle_ping-Proceeds m s v =
        Ends-bind Anything _ (player_at s.players m.sent_actor_nr) _
          (Ends-of_ends _ (player_at-ends s.players m.sent_actor_nr))
          λ target _.
            Ends-bind Anything _ (send target.1 _ false s.net) _
              (Ends-of_ends _ (send-ends target.1 _ false s.net)) λ net _. v

    pub handle_db_reference-Proceeds :
        (m : NetworkMessage) (s : Server) → At m → Proceeds (handle_db_reference env m s)
    unfolding handle_db_reference
    handle_db_reference-Proceeds m s v =
        Ends-bind (λ (after : NetworkMessage × List Bytes × Network). At after.0) _
          (handle_request env.odbc m s.players s.executed s.net) _
          (handle_request-Ends ts begin end few env.odbc m s.players s.executed s.net v)
          λ after w. w
