-- ===== src/Message/Framing.antt =====
-- A packet that the server builds is cut by `Split` into the signature, the number of its tokens and
-- the values that were appended.
use hamang_server.Prelude.{
  List, [], ap, append-nil, append_assoc, arith, false, length, ok, pos, sym, ℕ, ◌++◌, ◌+◌, ◌<◌,
  ◌∙◌, ◌∷◌, ◌≡◌,
}
use hamang_server.Text.{Bytes}
use hamang_server.Text.Decimal.Digits.{to_string-Lacks, to_string-is_empty}
use hamang_server.Message.Split.{split_lem}
use hamang_server.Text.Decimal.{to_string}
use hamang_server.Protocol.{net_delim, net_sig}
use hamang_server.Message.{NetworkMessage, append, build_new_signed_message, new_message, split}
use hamang_server.Message.Segments.{
  AllLack, has_empty, segments, segments-terminated, starts, terminated,
}

-- One `Append` for each value, in order.
abbrev pub append_all : NetworkMessage → List Bytes → NetworkMessage
append_all m [] = m
append_all m (s ∷ ss) = append_all (append m s) ss

-- The tokens of a packet with these values.
abbrev pub packet_tokens : List Bytes → List Bytes
packet_tokens ss = net_sig ∷ to_string (pos (length ss + 2)) ∷ ss

append_all_lem :
    (m : NetworkMessage) (ss : List Bytes)
    → append_all m ss ≡ record m {
      broadcast_message = m.broadcast_message ++ terminated net_delim ss;
      count = m.count + length ss;
    }
unfolding append
append_all_lem m [] = ground (arith, append-nil m.broadcast_message)
append_all_lem m (s ∷ ss) =
    append_all_lem (append m s) ss
    ∙ ground (
      arith,
      append_assoc (m.broadcast_message ++ s) (net_delim ∷ []) (terminated net_delim ss),
      append_assoc m.broadcast_message s (net_delim ∷ terminated net_delim ss),
    )

-- What is sent is the tokens with the delimiter behind each.
pub build-append_all :
    (ss : List Bytes)
    → build_new_signed_message (append_all new_message ss) ≡ terminated net_delim (packet_tokens ss)
unfolding build_new_signed_message
build-append_all ss =
    rw (append_all_lem new_message ss) (rw (let e : 0 + length ss ≡ length ss = omega arith in e))

-- A value can travel if it is not empty and holds no delimiter.
abbrev pub CanTravel : List Bytes → Type 0
CanTravel ss = (has_empty ss ≡ false) × AllLack net_delim ss

packet_tokens-AllLack : (ss : List Bytes) → CanTravel ss → AllLack net_delim (packet_tokens ss)
packet_tokens-AllLack ss h =
    (omega arith, (to_string-Lacks net_delim (pos (length ss + 2)) (omega arith), h.1))

packet_tokens-has_empty : (ss : List Bytes) → CanTravel ss → has_empty (packet_tokens ss) ≡ false
packet_tokens-has_empty ss h = rw (to_string-is_empty (pos (length ss + 2))) h.0

packet_segments :
    (ss : List Bytes)
    → CanTravel ss
    → segments net_delim (terminated net_delim (packet_tokens ss)) ≡ packet_tokens ss
packet_segments ss h =
    ap (segments net_delim) (sym (append-nil (terminated net_delim (packet_tokens ss))))
    ∙ segments-terminated net_delim (packet_tokens ss) [] (packet_tokens-AllLack ss h) tt

-- Values that are not empty and hold no delimiter, appended in order to a new message and signed, are
-- cut by `Split`, with any fuel above the packet's length, into the signature, the number of all
-- tokens and the same values in order.
pub split-build :
    (f : ℕ) (ss : List Bytes)
    → CanTravel ss
    → length (build_new_signed_message (append_all new_message ss)) < f
    → split f new_message (build_new_signed_message (append_all new_message ss)) net_delim
      ≡ ok (record new_message {
        tokens = packet_tokens ss;
        start_points = starts 0 (packet_tokens ss);
        count = length ss + 2;
      })
split-build f ss h fuel =
    split_lem f new_message (build_new_signed_message (append_all new_message ss)) net_delim fuel
    ∙ rw (build-append_all ss, packet_segments ss h, packet_tokens-has_empty ss h) (ground arith)
