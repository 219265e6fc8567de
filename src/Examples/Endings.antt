-- ===== src/Examples/Endings.antt =====
-- Rounds that come to an end, whatever they come to.
use hamang_server.Prelude.{
  [], arith, assertion_failed, err, false, inl, inr, length, length-append, ok, out_of_fuel, refl,
  ◌++◌, ◌+◌, ◌-◌, ◌<◌, ◌∷◌, ◌≡◌, ◌≢◌, ◌≤◌, ◌⊎◌,
}
use hamang_server.Text.{Bytes, Lacks, Lacks-append, Lacks-lacks, codes}
use hamang_server.Text.Decimal.{stoi}
use hamang_server.Protocol.{net_delim}
use hamang_server.Values.{buffer_size, read}
use hamang_server.Message.Segments.{AllLack, AllLack-all_lack, has_empty, segments}
use hamang_server.Buffers.{PerIoData, create_empty_buffer}
use hamang_server.Handler.Ending.Lengths.{DeclaresLengths}
use hamang_server.Server.Receive.{c_string, filled, receive_message}
use hamang_server.Server.Receive.Ending.{receive_message_ends}
use hamang_server.Examples.Rooms.{all_present, connected_player, network, quiet_env}
use hamang_server.Examples.Rounds.{connected_room, io, io_room, io_start}
use hamang_server.Handler.{is_buffered}
use hamang_server.Players.{erase_player}
use hamang_server.Handler.Loop.Echoes.{Echo, IsEcho}
use hamang_server.Handler.Loop.Stream.{stream_tokens}
use hamang_server.Server.Receive.Resume.{
  IsPart, Part, part_text, part_tokens, receive_message-loses,
}
use hamang_server.Server.Receive.Resume.First.{receive_message-cut}
use hamang_server.Examples.Streams.{
  chat_echo, length-long_message, long_message, long_message-Lacks, long_message-is_empty,
}

-- A packet of the kind chat, and a ping of a player who is not there.
abbrev mixed : Bytes
mixed = codes "LEX#5#1#3#hi#LEX#5#9#0#4#"

mixed_stands : c_string (filled io mixed) ≡ ok mixed
unfolding c_string filled buffer_size create_empty_buffer
mixed_stands = refl

mixed_full : has_empty (segments net_delim mixed) ≡ false
unfolding segments
mixed_full = refl

mixed_lengths : DeclaresLengths (segments net_delim mixed)
unfolding segments stoi
mixed_lengths = (
  inr (omega arith),
  (
    inl refl,
    (inl refl, (inl refl, (inl refl, (inr (omega arith), (inl refl, (inl refl, (inl refl, tt))))))),
  ),
)

receive_message_ends_example :
    receive_message quiet_env 99 0 io mixed connected_room ≢ err out_of_fuel
receive_message_ends_example =
    receive_message_ends quiet_env 99 0 io mixed mixed connected_room mixed_stands mixed_full
      mixed_lengths (omega arith) (omega arith)

-- The first bytes of a chat packet of nine tokens.
abbrev half_packet : Part
half_packet = record { size = codes "9"; declared = 9; more = codes "1" ∷ []; partial = codes "3" }

half_packet-IsPart : IsPart half_packet
unfolding stoi
half_packet-IsPart = record {
  counted = refl;
  short = omega arith;
  small = omega arith;
  clean = AllLack-all_lack net_delim (part_tokens half_packet) refl;
  full = refl;
  no_delim = Lacks-lacks net_delim (codes "3") refl;
  printable = Lacks-lacks 0 (part_text half_packet) refl;
}

-- A chat packet that takes more than half of the buffer.
abbrev long_echo : Echo
long_echo = record chat_echo { body = long_message ∷ [] }

long_echo-IsEcho : IsEcho long_echo
unfolding stoi is_buffered
long_echo-IsEcho = record {
  counted = refl;
  from_actor = refl;
  of_kind = refl;
  echoed = refl;
  viewed = inl refl;
}

abbrev long_text : Bytes
long_text = codes "LEX#5#1#3#" ++ (long_message ++ codes "#")

long_clean : AllLack net_delim (stream_tokens (long_echo ∷ []))
long_clean = (
  Lacks-lacks net_delim (codes "LEX") refl,
  (
    Lacks-lacks net_delim (codes "5") refl,
    (
      Lacks-lacks net_delim (codes "1") refl,
      (Lacks-lacks net_delim (codes "3") refl, (long_message-Lacks net_delim (omega arith), tt)),
    ),
  ),
)

long_full : has_empty (stream_tokens (long_echo ∷ [])) ≡ false
long_full = rw long_message-is_empty refl

long_printable : Lacks 0 long_text
long_printable =
    Lacks-append 0 (codes "LEX#5#1#3#") (long_message ++ codes "#")
      (Lacks-lacks 0 (codes "LEX#5#1#3#") refl)
      (Lacks-append 0 long_message (codes "#") (long_message-Lacks 0 (omega arith))
        (Lacks-lacks 0 (codes "#") refl))

length-long_text : length long_text ≡ 70011
length-long_text = omega (arith, length-append long_message (codes "#"), length-long_message)

length-cut_text : length (long_text ++ codes "LEX#9#1#3") ≡ 70020
length-cut_text = omega (arith, length-append long_text (codes "LEX#9#1#3"), length-long_text)

cut_short : length (long_text ++ codes "LEX#9#1#3") < buffer_size
unfolding buffer_size
cut_short = omega (arith, length-cut_text)

long_half : buffer_size ≤ length long_text + length long_text
unfolding buffer_size
long_half = omega (arith, length-long_text)

receive_message-cut_example :
    (io' : PerIoData) × (rest : Bytes) × (receive_message quiet_env 100000 0 io
        (long_text ++ codes "LEX#9#1#3")
        connected_room
      ≡ ok (io', record connected_room { net = record network { sent = (80, long_text) ∷ [] } }))
    × (io'.buffer ≡ codes "LEX#9#1#3" ++ 0 ∷ rest)
    × (io'.offset ≡ buffer_size - length long_text)
    × (io'.len ≡ length long_text)
    × (io'.rw_mode ≡ read)
unfolding erase_player is_buffered
receive_message-cut_example =
    receive_message-cut quiet_env 100000 0 io long_echo [] half_packet connected_room
      connected_player (long_echo-IsEcho, tt) long_clean long_full long_printable half_packet-IsPart
      cut_short long_half (omega (arith, length-cut_text)) io_start io_room all_present refl

-- The buffer that such a round leaves.
abbrev resumed_io : PerIoData
resumed_io = record io { buffer = codes "LEX#9#1#3" ++ 0 ∷ []; offset = buffer_size - 13; len = 13 }

resumed_behind : length (codes "LEX#9#1#3") < resumed_io.offset
unfolding buffer_size
resumed_behind = omega arith

receive_message-loses_example :
    (receive_message quiet_env 99 0 resumed_io (codes "#hi#a#b#c#") connected_room
      ≡ err assertion_failed)
    ⊎ ((io' : PerIoData) × (receive_message quiet_env 99 0 resumed_io
            (codes "#hi#a#b#c#")
            connected_room
          ≡ ok (io', connected_room))
        × (io'.offset ≡ 0)
        × (io'.len ≡ buffer_size))
receive_message-loses_example =
    receive_message-loses half_packet half_packet-IsPart quiet_env 99 0 resumed_io []
      (codes "#hi#a#b#c#") connected_room refl resumed_behind (omega arith)
