-- ===== src/Server/Receive/Bounds.antt =====
-- Where the next call of a socket reads to: the offset and the length in the buffer that a round of
-- `EchoThreadMain` hands on, in IOCP_Server.cpp and HandleInfo.h.
use hamang_server.Prelude.{
  Bool, Bool-cases, Option, Returns, Returns-bind, Returns-ok, [], arith, false, if◌then◌else◌, inl,
  inr, ltb, not, ok, refl, some, true, ℕ, ◌%◌, ◌+◌, ◌-◌, ◌<◌, ◌==◌, ◌^◌, ◌||◌, ◌∷◌, ◌≡◌, ◌≤◌,
}
use hamang_server.Text.{Bytes}
use hamang_server.Values.{RwMode-cases, buffer_size, read}
use hamang_server.Buffers.{PerIoData, recycle_io}
use hamang_server.Message.{new_message, split}
use hamang_server.Protocol.{net_delim}
use hamang_server.State.{Env, Server}
use hamang_server.Handler.{handle_message}
use hamang_server.Server.{handle_player_disconnect}
use hamang_server.Server.Receive.{c_string, carry, echo_thread, filled, receive_message, relay}
use hamang_server.Server.Receive.Relay.{buffer_size-lt}
use mathlib.Core.Path.{subst}

-- A call that reads into such a buffer gets a part of it that is not empty and ends where it ends.
abbrev pub HasRoom : PerIoData → Type 0
HasRoom io = (0 < io.len) × (io.offset + io.len ≡ buffer_size) × (io.rw_mode ≡ read)

recycle_io-HasRoom :
    (io : PerIoData) (offset : ℕ)
    → offset ≤ buffer_size
    → Returns HasRoom (recycle_io io read offset)
unfolding recycle_io
recycle_io-HasRoom io offset h =
    let room : (2 ^ 32 + buffer_size - offset) % 2 ^ 32 ≡ buffer_size - offset =
      omega (arith, buffer_size-lt, h) in
    elim (Bool-cases (buffer_size - offset == 0)) [
      | inl full ↦ rw (room, full) tt
      | inr left ↦ rw (room, left) (ground arith, omega (arith, h), refl)
    ]

rest-le :
    (has_rest : Bool) (start_point : ℕ)
    → (if has_rest then buffer_size - start_point else 0) ≤ buffer_size
rest-le true start_point = omega arith
rest-le false start_point = omega arith

module _ (env : Env) where
  carry-HasRoom :
      (io : PerIoData) (buffer : Bytes) (start_point : ℕ) (end_with_delim : Bool)
      → Returns HasRoom (carry env io buffer start_point end_with_delim)
  unfolding carry
  carry-HasRoom io buffer start_point end_with_delim =
      elim (Bool-cases (ltb buffer_size start_point)) [
        | inl over ↦ rw over tt
        | inr within ↦ rw within (
            recycle_io-HasRoom (record io { buffer = _ }) _
              (rest-le (ltb 0 start_point || not end_with_delim) start_point))
      ]

  receive_message-HasRoom :
      (f address : ℕ) (io : PerIoData) (received : Bytes) (s : Server)
      → Returns
          (λ (after : PerIoData × Server). HasRoom after.0)
          (receive_message env f address io received s)
  unfolding receive_message
  receive_message-HasRoom f address io received s =
      Returns-bind _ (c_string (filled io received)) _ λ message e₁.
        Returns-bind _ (split f new_message message net_delim) _ λ cut e₂.
          Returns-bind _ (handle_message env f cut s) _ λ handled e₃.
            Returns-bind _ (relay address handled.0 handled.1) _ λ s₂ e₄.
              Returns-bind _ (carry env io (filled io received) handled.0.incomplete_resume_point _)
                _
                λ io' e₅.
                  Returns-ok HasRoom _ io'
                    (carry-HasRoom io (filled io received) handled.0.incomplete_resume_point _) e₅

  -- What the round hands on, if it hands on anything.
  abbrev IsReady : Option PerIoData × Server → Type 0
  IsReady after = (io : PerIoData) → after.0 ≡ some io → HasRoom io

  read_round :
      (f address : ℕ) (io : PerIoData) (received : Bytes) (is_next_call : Bool) (s : Server)
      → Returns IsReady
          (echo_thread env f address (record io { rw_mode = read }) received is_next_call s)
  unfolding echo_thread
  read_round f address io [] is_next_call s =
      Returns-bind IsReady (handle_player_disconnect env address s) _ λ s' e io' h. cc
  read_round f address io (c ∷ bytes) true s =
      Returns-bind IsReady
        (receive_message env f address (record io { rw_mode = read }) (c ∷ bytes) s) _
        λ after e io' h.
          let same : after.0 ≡ io' = cc in
          subst HasRoom same (
            Returns-ok (λ (after : PerIoData × Server). HasRoom after.0) _ after
              (receive_message-HasRoom f address (record io { rw_mode = read }) (c ∷ bytes) s) e)
  read_round f address io (c ∷ bytes) false s =
      Returns-bind IsReady
        (receive_message env f address (record io { rw_mode = read }) (c ∷ bytes) s) _
        λ after e.
          Returns-bind IsReady (handle_player_disconnect env address after.1) _ λ s₂ e₂ io' h. cc

  -- If a round, whatever it received and whatever the buffer was, returns a buffer for the next call,
  -- then that call reads, into a part of the buffer that is not empty and that ends where the buffer
  -- ends: the room computed in 32 bits has not wrapped around, and nothing is read beyond the buffer.
  pub echo_thread-HasRoom :
      (f address : ℕ) (io : PerIoData) (received : Bytes) (is_next_call : Bool) (s : Server)
      (io' : PerIoData) (s' : Server)
      → echo_thread env f address io received is_next_call s ≡ ok (some io', s')
      → HasRoom io'
  unfolding echo_thread
  echo_thread-HasRoom f address io received is_next_call s io' s' h =
      elim (RwMode-cases io.rw_mode) [
        | inl reads ↦
            Returns-ok IsReady _ (some io', s') (read_round f address io received is_next_call s)
              (rw reads at h) io' refl
        | inr writes ↦ cc (rw writes at h)
      ]
