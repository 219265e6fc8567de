-- ===== src/Server/Receive/Ending.antt =====
-- A round of the receive loop comes to an end.
use hamang_server.Prelude.{
  Bool, Bool-cases, List, [], arith, assert, assert-ends, ends, ends-bind, ends-ne, eqz, err, false,
  if◌then◌else◌, inl, inr, length, ltb, not, ok, or_fault-ends, out_of_fuel, refl, true, ℕ, ℤ, ◌%◌,
  ◌+◌, ◌-◌, ◌<◌, ◌==◌, ◌^◌, ◌||◌, ◌∙◌, ◌∷◌, ◌≡◌, ◌≢◌, ◌≤◌,
}
use hamang_server.Text.{Bytes}
use hamang_server.Protocol.{net_delim}
use hamang_server.Message.{
  NetworkMessage, build_copied_message, has_message_to_broadcast, new_message, split,
}
use hamang_server.Message.Segments.{has_empty, length-segments_from-le, segments, starts}
use hamang_server.Message.Split.{split_lem}
use hamang_server.Buffers.{PerIoData, recycle_io}
use hamang_server.Player.{Network, Player, send}
use hamang_server.Players.{broadcast_message, deref}
use hamang_server.Database.Ending.{send-ends}
use hamang_server.State.{Env, Server}
use hamang_server.Handler.{handle_message}
use hamang_server.Handler.Ending.{handle_message-ends}
use hamang_server.Handler.Ending.Lengths.{DeclaresLengths}
use hamang_server.Server.Receive.{c_string, carry, copy_down, filled, receive_message, relay}
use hamang_server.Values.{RwMode, buffer_size, read}

broadcast_message-ends :
    (heap : List Player) (hash : List (ℤ × ℕ)) (source : ℤ) (message : Bytes) (net : Network)
    → ends (broadcast_message heap hash source message net) ≡ true
unfolding broadcast_message
broadcast_message-ends heap [] source message net = refl
broadcast_message-ends heap ((k, p) ∷ hash) source message net =
    ends-bind (deref heap p) _ (or_fault-ends _ _ refl) λ player.
      elim (Bool-cases (eqz player.actor_number source)) [
        | inl self ↦ rw self (broadcast_message-ends heap hash source message net)
        | inr other ↦ rw other (
            ends-bind (send player message false net) _ (send-ends player message false net)
              λ net'. broadcast_message-ends heap hash source message net')
      ]

relay-ends : (address : ℕ) (m : NetworkMessage) (s : Server) → ends (relay address m s) ≡ true
unfolding relay
relay-ends address m s = elim (Bool-cases (has_message_to_broadcast m)) [
  | inr nothing ↦ rw nothing refl
  | inl message ↦ rw message (
      ends-bind (deref s.players.heap address) _ (or_fault-ends _ _ refl) λ source.
        ends-bind
          (broadcast_message s.players.heap s.players.player_hash source.actor_number
            (build_copied_message m) s.net)
          _
          (broadcast_message-ends s.players.heap s.players.player_hash source.actor_number
            (build_copied_message m) s.net)
          λ net. refl)
]

recycle_io-ends :
    (io : PerIoData) (mode : RwMode) (offset : ℕ) → ends (recycle_io io mode offset) ≡ true
unfolding recycle_io
recycle_io-ends io mode offset =
    ends-bind (assert (not ((2 ^ 32 + buffer_size - offset) % 2 ^ 32 == 0))) _ (assert-ends _)
      λ checked. refl

carry-ends :
    (env : Env) (io : PerIoData) (buffer : Bytes) (start_point : ℕ) (end_with_delim : Bool)
    → ends (carry env io buffer start_point end_with_delim) ≡ true
unfolding carry
carry-ends env io buffer start_point end_with_delim =
    let has_rest = ltb 0 start_point || not end_with_delim in
    let left = if has_rest then buffer_size - start_point else 0 in
    let moved = if has_rest then copy_down env buffer start_point left else buffer in
    elim (Bool-cases (ltb buffer_size start_point)) [
      | inl beyond ↦ rw beyond refl
      | inr within ↦ rw within (recycle_io-ends (record io { buffer = moved }) read left)
    ]

-- Let the text in the buffer hold no two delimiters in a row and none at its front, let the token
-- behind each signature be above 0 if it is a number, and let the text be shorter than 2^31. Then
-- whatever the packets ask for, and whatever faults they run into, the round ends: with more fuel
-- than the text is long, none of its loops goes on.
pub receive_message_ends :
    (env : Env) (f address : ℕ) (io : PerIoData) (received text : Bytes) (s : Server)
    → c_string (filled io received) ≡ ok text
    → has_empty (segments net_delim text) ≡ false
    → DeclaresLengths (segments net_delim text)
    → length text < 2 ^ 31
    → length text < f
    → receive_message env f address io received s ≢ err out_of_fuel
unfolding receive_message segments
receive_message_ends env f address io received text s stands full lengths few fuel =
    let short : length (segments net_delim text) ≤ length text =
      length-segments_from-le net_delim [] text in
    let cut = record new_message {
      tokens = segments net_delim text;
      start_points = starts 0 (segments net_delim text);
      count = length (segments net_delim text);
    } in
    let splits : split f new_message text net_delim ≡ ok cut =
      split_lem f new_message text net_delim fuel ∙ rw full refl in
    ends-ne (receive_message env f address io received s) (
      rw (stands, splits)
        (ends-bind (handle_message env f cut s) _
          (handle_message-ends env f cut s lengths (omega arith) (omega arith) (omega arith))
          λ handled.
            ends-bind (relay address handled.0 handled.1) _ (relay-ends address handled.0 handled.1)
              λ relayed.
                ends-bind (carry env io _ handled.0.incomplete_resume_point _) _
                  (carry-ends env io _ handled.0.incomplete_resume_point _) λ io'. refl))
