-- ===== src/Values.antt =====
-- Values.h: the constants and the structures that the parts share.
use hamang_server.Prelude.{inl, inr, refl, ℕ, ℤ, ◌*◌, ◌+◌, ◌-◌, ◌≡◌, ◌⊎◌}
use hamang_server.Text.{Bytes}

-- BUFFER, the size of every send and receive buffer.
unfoldable pub buffer_size : ℕ
buffer_size = 128 * 1024

-- The room that `BUFFER - 10` leaves for buffered messages.
unfoldable pub batch_limit : ℕ
unfolding buffer_size
batch_limit = buffer_size - 10

pub data RwMode : Type 0 where
  read write : RwMode

pub RwMode-cases : (mode : RwMode) → (mode ≡ read) ⊎ (mode ≡ write)
RwMode-cases read = inl refl
RwMode-cases write = inr refl

-- An entry of the queue of buffered messages.
pub record Rpc : Type 0 where
  pub player_actor_nr : ℤ
  pub view_id : ℤ
  pub message : Bytes

pub batch_limit_lem : batch_limit + 10 ≡ buffer_size
unfolding batch_limit
batch_limit_lem = refl
