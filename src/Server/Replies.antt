-- ===== src/Server/Replies.antt =====
-- The server's answer to a ping, from the request's tokens to the bytes that go out.
use hamang_server.Prelude.{
  List, [], ap, arith, drop, get_elem?, false, leb, length, ok, pos, some, true, ℕ, ◌+◌, ◌++◌, ◌<◌,
  ◌≤◌, ◌^◌, ◌∙◌, ◌∷◌, ◌≡◌,
}
use hamang_server.Text.{Bytes}
use hamang_server.Text.Decimal.{stoi}
use hamang_server.Values.{buffer_size}
use hamang_server.Message.{NetworkMessage}
use hamang_server.Player.{Player}
use hamang_server.Players.Broadcast.{send_lem}
use hamang_server.Ping.{get_time_now}
use hamang_server.State.{Env, Server, player_at}
use hamang_server.Handler.{handle_ping, handle_server_request, ping_message}
use hamang_server.Handler.Updates.{assert_next_int_at, token_ahead}
use hamang_server.Server.Packets.{IsPacketOf, server_messages-IsPacketOf}

-- If the cursor stands on the request's code 4, the sender is a connected player with a socket, and the reply is no longer than a
-- buffer, then the request moves the cursor behind the code, reads the clock once, and sends the reply to the sender's socket and
-- nothing else; the reply is one packet, with the sender, the codes 7 and 9 and the time read.
pub handle_server_request-ping :
    (env : Env) (code : Bytes) (rest : List Bytes) (address socket : ℕ) (player : Player)
    (m : NetworkMessage) (s : Server)
    → drop m.iterator m.tokens ≡ code ∷ rest
    → stoi code ≡ ok (pos 4)
    → length m.tokens < 2 ^ 32
    → player_at s.players m.sent_actor_nr ≡ ok (address, player)
    → player.handle_info ≡ some socket
    → player.is_connected ≡ true
    → length (ping_message m.sent_actor_nr (env.clock s.pings.readings)) ≤ buffer_size
    → (let now = env.clock s.pings.readings in
        let reply = ping_message m.sent_actor_nr now in
        (handle_server_request env m s
          ≡ ok (
            record m { iterator = m.iterator + 1 },
            record s {
              pings = record s.pings { server_time = now; readings = s.pings.readings + 1 };
              net = record s.net { sent = s.net.sent ++ (socket, reply) ∷ [] };
            },
          ))
        × IsPacketOf reply (m.sent_actor_nr ∷ pos 7 ∷ pos 9 ∷ now ∷ []))
unfolding handle_server_request handle_ping get_time_now
handle_server_request-ping env code rest address socket player m s h is_code few at has on fits =
    let now = env.clock s.pings.readings in
    let reply = ping_message m.sent_actor_nr now in
    let at_0 : get_elem? m.tokens m.iterator ≡ some code =
      ap (get_elem? m.tokens) (omega arith) ∙ token_ahead m (code ∷ rest) h 0 in
    let fit : leb (length reply) buffer_size ≡ true = ground (arith, fits) in
    (
      rw (
        assert_next_int_at m code (pos 4) at_0 is_code few,
        at,
        send_lem player reply false s.net socket has,
        on,
        fit,
      ),
      (server_messages-IsPacketOf m.sent_actor_nr (pos 0) (pos 0) now player).3,
    )
