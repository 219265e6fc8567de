-- ===== src/Buffers.antt =====
-- The I/O buffers of IOCP_Server.h and `PER_IO_DATA` of Values.h. A buffer is its bytes, of a message
-- only those that were written; `offset` and `len` say which part of it the next call of the socket
-- uses.
use hamang_server.Prelude.{
  Result, assert, buffer_overflow, err, if◌then◌else◌, leb, length, not, ok, ℕ, ◌%◌, ◌+◌, ◌-◌, ◌==◌,
  ◌>>◌, ◌^◌,
}
use hamang_server.Text.{Bytes}
use hamang_server.Values.{RwMode, buffer_size}

pub record PerIoData : Type 0 where
  pub buffer : Bytes
  pub offset : ℕ
  pub len : ℕ
  pub rw_mode : RwMode

-- `new char[BUFFER]` is not initialised: `memory` is what it holds.
unfoldable pub create_empty_buffer : Bytes → ℕ → RwMode → PerIoData
create_empty_buffer memory size mode = record {
  buffer = memory;
  offset = 0;
  len = size;
  rw_mode = mode;
}

-- `memcpy` into a new buffer of BUFFER bytes.
unfoldable pub create_message_buffer : Bytes → RwMode → Result PerIoData
create_message_buffer message mode =
    if leb (length message) buffer_size
    then ok (record { buffer = message; offset = 0; len = length message; rw_mode = mode })
    else err buffer_overflow

unfoldable pub recycle_io : PerIoData → RwMode → ℕ → Result PerIoData
recycle_io io mode offset = do
  let room = (2 ^ 32 + buffer_size - offset) % 2 ^ 32
  assert (not (room == 0))
  ok (record io { offset = offset; len = room; rw_mode = mode })
