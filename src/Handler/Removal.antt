-- ===== src/Handler/Removal.antt =====
-- A request that removes kept messages: which of them it removes.
use hamang_server.Prelude.{
  Bool, List, [], ap, arith, eqz, false, get_elem?, length, if◌then◌else◌, negsuc, ok, pos, some, ℤ,
  drop, ◌&&◌, ◌||◌, ◌+◌, ◌<◌, ◌^◌, ◌∙◌, ◌∷◌, ◌≡◌,
}
use hamang_server.Text.{Bytes}
use hamang_server.Text.Decimal.{stoi}
use hamang_server.Message.{NetworkMessage}
use hamang_server.Values.{Rpc}
use hamang_server.Rpc.Views.{
  messages_of, messages_of-remove_player_nr, messages_of-remove_rpc, messages_of-remove_view_id,
}
use hamang_server.State.{Env, Server}
use hamang_server.Handler.{handle_remove_rpcs, handle_server_request, remove_rpcs}
use hamang_server.Handler.Updates.{assert_next_int_at, token_ahead}

-- A number that -1 stands for, or the number itself.
abbrev pub is_meant : ℤ → ℤ → Bool
is_meant asked n = eqz asked (negsuc 0) || eqz asked n

removed_lem :
    (actor view nr view' : ℤ) (queue : List Rpc)
    → eqz actor (negsuc 0) && eqz view (negsuc 0) ≡ false
    → messages_of (remove_rpcs actor view queue) nr view'
      ≡ (if is_meant actor nr && is_meant view view' then [] else messages_of queue nr view')
unfolding remove_rpcs
removed_lem actor view nr view' queue named = ground (
  arith,
  named,
  messages_of-remove_player_nr queue actor nr view',
  messages_of-remove_view_id queue view nr view',
  messages_of-remove_rpc queue actor view nr view',
)

-- If the cursor stands on the request's code 1, an actor and a view, not both -1, then the request moves the cursor behind them and
-- changes nothing of the server but the kept messages: those of every player and view that it means, where -1 means any, are gone,
-- and all others are kept in their order.
pub handle_server_request-remove_rpcs :
    (env : Env) (code a v : Bytes) (rest : List Bytes) (actor view nr view' : ℤ)
    (m : NetworkMessage) (s : Server)
    → drop m.iterator m.tokens ≡ code ∷ a ∷ v ∷ rest
    → stoi code ≡ ok (pos 1)
    → stoi a ≡ ok actor
    → stoi v ≡ ok view
    → length m.tokens < 2 ^ 32
    → eqz actor (negsuc 0) && eqz view (negsuc 0) ≡ false
    → (let queue = remove_rpcs actor view s.message_queue in
        (handle_server_request env m s
          ≡ ok (record m { iterator = m.iterator + 1 + 1 + 1 }, record s { message_queue = queue }))
        × (messages_of queue nr view' ≡ (
            if is_meant actor nr && is_meant view view'
            then []
            else messages_of s.message_queue nr view')))
unfolding handle_server_request handle_remove_rpcs
handle_server_request-remove_rpcs env code a v rest actor view nr view' m s h is_code is_a is_v few
      named =
    let at = token_ahead m (code ∷ a ∷ v ∷ rest) h in
    let m₁ = record m { iterator = m.iterator + 1 } in
    let m₂ = record m { iterator = m.iterator + 1 + 1 } in
    let at_0 : get_elem? m.tokens m.iterator ≡ some code =
      ap (get_elem? m.tokens) (omega arith) ∙ at 0 in
    let at_2 : get_elem? m.tokens (m.iterator + 1 + 1) ≡ some v =
      ap (get_elem? m.tokens) (omega arith) ∙ at 2 in
    (
      rw (
        assert_next_int_at m code (pos 1) at_0 is_code few,
        assert_next_int_at m₁ a actor (at 1) is_a few,
        assert_next_int_at m₂ v view at_2 is_v few,
      ),
      removed_lem actor view nr view' s.message_queue named,
    )
