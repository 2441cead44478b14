-- ===== src/Hidapi.antt =====
-- What libmccr uses of the hidapi library, which is not part of the program. `D` is the state of an
-- open device: what the library and the reader behind it remember from call to call.
use mccr.Prelude.{ℕ, ◌≤◌, ◌≡◌, length, Option}
use mccr.Prelude.Bytes.{Bytes}
use mccr.Prelude.Int.{ℤ, pos}

pub record Hidapi (D : Type 0) : Type 0 where
  -- the device at a path, or NULL
  pub hid_open_path : Option Bytes → Option D
  -- the bytes of a report, with the report id in front; the number of bytes written, or -1
  pub hid_send_feature_report : D → Bytes → ℤ × D
  -- the buffer as it stands; the number of bytes read, or -1, and the buffer as it is left
  pub hid_get_feature_report : D → Bytes → ℤ × Bytes × D
  -- the room in the buffer and the timeout; the number of bytes read, or -1, and these bytes
  pub hid_read_timeout : D → ℕ → ℤ → ℤ × Bytes × D

-- The documented behaviour: a buffer keeps its size, and a read returns as many bytes as it says and
-- no more than there is room for.
pub record IsHidapi {D : Type 0} (h : Hidapi D) : Type 0 where
  pub buffer_size :
      (d : D) (buffer : Bytes) → length (h.hid_get_feature_report d buffer).1 ≡ length buffer
  pub read_size :
      (d : D) (room : ℕ) (timeout_ms : ℤ) (n : ℕ)
      → (h.hid_read_timeout d room timeout_ms).0 ≡ pos n
      → (length (h.hid_read_timeout d room timeout_ms).1 ≡ n) × (n ≤ room)
