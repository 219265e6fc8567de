-- ===== src/Server/Packets.antt =====
-- The messages that the server makes itself are packets, which are read back token by token.
use hamang_server.Prelude.{
  All, InInt, List, [], arith, length, length-append, length-map, map, ok, pos, ℤ, ◌*◌, ◌+◌, ◌<◌,
  ◌∷◌, ◌≡◌, ◌≤◌,
}
use hamang_server.Text.{Bytes}
use hamang_server.Text.Decimal.{to_string}
use hamang_server.Text.Decimal.Digits.{length-to_string-le}
use hamang_server.Protocol.{net_delim, net_sig}
use hamang_server.Values.{buffer_size}
use hamang_server.Message.{append_int, build_new_signed_message, new_message, split}
use hamang_server.Message.Segments.{starts, terminated}
use hamang_server.Message.Framing.{append_all, build-append_all, packet_tokens, split-build}
use hamang_server.Player.{Player}
use hamang_server.Players.{master_changed_message}
use hamang_server.Ping.{time_sync_message}
use hamang_server.Database.{log_in_message}
use hamang_server.Handler.{ping_message}
use hamang_server.Server.{disconnected_message, local_joined_message}
use hamang_server.Message.Numbers.{numbers-CanTravel}

-- The packet with these values.
abbrev pub packet_of : List Bytes → Bytes
packet_of ss = build_new_signed_message (append_all new_message ss)

-- The text is one packet with these numbers: the signature, the count of the tokens, the numbers.
abbrev pub IsPacketOf : Bytes → List ℤ → Type 0
IsPacketOf message zs =
    split (length message + 1) new_message message net_delim
    ≡ ok (record new_message {
      tokens = packet_tokens (map to_string zs);
      start_points = starts 0 (packet_tokens (map to_string zs));
      count = length (map to_string zs) + 2;
    })

packet-IsPacketOf : (zs : List ℤ) → IsPacketOf (packet_of (map to_string zs)) zs
packet-IsPacketOf zs =
    split-build (length (packet_of (map to_string zs)) + 1) (map to_string zs)
      (numbers-CanTravel zs) (omega arith)

-- Each message that the server makes of numbers alone is one packet, which `Split` cuts into the
-- signature, the right count of tokens and these numbers: the news of a new master, of a departure
-- and of the own arrival, the replies to a ping and to a log-in, and the latency of a player.
pub server_messages-IsPacketOf :
    (sender master number time : ℤ) (player : Player)
    → IsPacketOf (master_changed_message sender master) (sender ∷ pos 7 ∷ pos 4 ∷ master ∷ [])
      × IsPacketOf (disconnected_message number) (pos 0 ∷ pos 7 ∷ pos 2 ∷ number ∷ [])
      × IsPacketOf (local_joined_message player) (player.actor_number ∷ pos 7 ∷ pos 3 ∷ [])
      × IsPacketOf (ping_message sender time) (sender ∷ pos 7 ∷ pos 9 ∷ time ∷ [])
      × IsPacketOf log_in_message (pos 0 ∷ pos 7 ∷ pos 11 ∷ pos 0 ∷ pos 0 ∷ pos 1 ∷ [])
      × IsPacketOf
          (time_sync_message player time)
          (pos 0 ∷ pos 7 ∷ pos 7 ∷ player.actor_number ∷ time ∷ [])
unfolding master_changed_message disconnected_message local_joined_message ping_message
    log_in_message time_sync_message append_int
server_messages-IsPacketOf sender master number time player = (
  packet-IsPacketOf (sender ∷ pos 7 ∷ pos 4 ∷ master ∷ []),
  packet-IsPacketOf (pos 0 ∷ pos 7 ∷ pos 2 ∷ number ∷ []),
  packet-IsPacketOf (player.actor_number ∷ pos 7 ∷ pos 3 ∷ []),
  packet-IsPacketOf (sender ∷ pos 7 ∷ pos 9 ∷ time ∷ []),
  packet-IsPacketOf (pos 0 ∷ pos 7 ∷ pos 11 ∷ pos 0 ∷ pos 0 ∷ pos 1 ∷ []),
  packet-IsPacketOf (pos 0 ∷ pos 7 ∷ pos 7 ∷ player.actor_number ∷ time ∷ []),
)

length-terminated-append :
    (t : Bytes) (ts : List Bytes)
    → length (terminated net_delim (t ∷ ts)) ≡ length t + (length (terminated net_delim ts) + 1)
length-terminated-append t ts = omega (arith, length-append t (net_delim ∷ terminated net_delim ts))

-- A packet of numbers is at most twelve bytes longer for each.
length-numbers-le :
    (zs : List ℤ) → All InInt zs → length (terminated net_delim (map to_string zs)) ≤ 12 * length zs
length-numbers-le [] h = omega arith
length-numbers-le (z ∷ zs) h = omega (
  arith,
  length-terminated-append (to_string z) (map to_string zs),
  length-to_string-le z h.0,
  length-numbers-le zs h.1,
)

pub length-packet-le :
    (zs : List ℤ) → All InInt zs → length zs < 100 → length (packet_of (map to_string zs)) ≤ 2000
length-packet-le zs h few = rw (build-append_all (map to_string zs)) (
    omega (
      arith,
      length-terminated-append net_sig
          (to_string (pos (length (map to_string zs) + 2)) ∷ map to_string zs),
      length-terminated-append (to_string (pos (length (map to_string zs) + 2))) (map to_string zs),
      length-numbers-le zs h,
      length-map zs to_string,
      length-to_string-le (pos (length (map to_string zs) + 2)),
    ))

pub length-disconnected_message-le :
    (n : ℤ) → InInt n → length (disconnected_message n) ≤ buffer_size
unfolding disconnected_message append_int buffer_size
length-disconnected_message-le n h = omega (
  arith,
  length-packet-le (pos 0 ∷ pos 7 ∷ pos 2 ∷ n ∷ [])
      (omega arith, (omega arith, (omega arith, (h, tt)))) (omega arith),
)

pub length-master_changed_message-le :
    (sender n : ℤ) → InInt sender → InInt n → length (master_changed_message sender n) ≤ buffer_size
unfolding master_changed_message append_int buffer_size
length-master_changed_message-le sender n h k = omega (
  arith,
  length-packet-le (sender ∷ pos 7 ∷ pos 4 ∷ n ∷ []) (h, (omega arith, (omega arith, (k, tt))))
      (omega arith),
)
