-- ===== src/InputReport.antt =====
-- src/libmccr/mccr-input-report.c: waiting for the report that a swipe produces.
pub mod Reads
pub mod Receive
use mccr.Prelude.{
  ℕ, zero, suc, ◌+◌, ◌-◌, Bool, true, false, not, ◌&&◌, List, [], ◌∷◌, ◌++◌, Option, none, some,
  Run, ok, out_of_fuel, ◌>>=◌, ◌==◌, if◌then◌else◌, length, replicate, write_block,
}
use mccr.Prelude.Bytes.{Bytes}
use mccr.Prelude.Int.{ℤ, pos, negsuc, is_negative}
use mccr.Hidapi.{Hidapi}
use mccr.Hid.Usages.{Allocator}
use mccr.Hid.Context.{DescriptorContext, get_input_report_size}
use mccr.Status.{Status}

pub record InputReport : Type 0 where
  pub report_data : Bytes
  pub report_size : ℕ

-- sizeof (mccr_input_report_t), two words
abbrev sizeof_input_report : ℕ
sizeof_input_report = 16

-- mccr_input_report_new, with the count of requests for memory before and after
unfoldable pub mccr_input_report_new : Allocator → DescriptorContext → ℕ → Option InputReport × ℕ
unfolding get_input_report_size
mccr_input_report_new grants desc calls =
    let size = get_input_report_size desc in
    if not (grants calls sizeof_input_report)
    then (none, calls + 1)
    else if not (grants (calls + 1) size)
    then (none, calls + 2)
    else (some (record { report_data = replicate size 0; report_size = size }), calls + 2)

-- mccr_input_report_get_data
unfoldable pub mccr_input_report_get_data : InputReport → Bytes × ℕ
mccr_input_report_get_data r = (r.report_data, r.report_size)

-- DEFAULT_IN_PROGRESS_TIMEOUT_MS
abbrev pub in_progress_timeout_ms : ℤ
in_progress_timeout_ms = pos 500

-- the timeout of one read
abbrev pub read_timeout : ℕ → ℤ → ℤ
read_timeout total_read timeout_ms = if total_read == 0 then timeout_ms else in_progress_timeout_ms

-- The tests after the loop.
unfoldable pub receive_status : InputReport → ℤ → ℕ → Status
receive_status r timeout_ms total_read =
    if not (is_negative timeout_ms) && total_read == 0
    then Status.timed_out
    else if not (total_read == r.report_size)
    then Status.unexpected_format
    else Status.ok

module _ {D : Type 0} (hid : Hidapi D) where
  -- The body of the `do … while` loop after a read: how the loop ends (`none` for an error), the report
  -- and the device, or the next round. What was read is stored behind what is there already.
  unfoldable pub after_read :
      (InputReport → ℕ → Run (Option ℕ × InputReport × D))
      → InputReport
      → ℕ
      → ℤ
      → Bytes
      → D
      → Run (Option ℕ × InputReport × D)
  after_read next r total_read (negsuc _) bytes d = ok (none, r, d)
  after_read next r total_read (pos n) bytes d = if n == 0 then ok (some total_read, r, d) else do
    stored ← write_block r.report_data total_read bytes
    let r' : InputReport = record r { report_data = stored }
    if total_read + n == r.report_size
        then ok (some (total_read + n), r', d)
        else next r' (total_read + n)

  -- The loop, at most as many rounds as the fuel.
  unfoldable pub receive_loop : ℕ → ℤ → InputReport → ℕ → D → Run (Option ℕ × InputReport × D)
  receive_loop zero timeout_ms r total_read d = out_of_fuel
  receive_loop (suc fuel) timeout_ms r total_read d =
      let (n_read, bytes, d') =
        hid.hid_read_timeout d (r.report_size - total_read) (read_timeout total_read timeout_ms) in
      after_read (λ r' total. receive_loop fuel timeout_ms r' total d') r total_read n_read bytes d'

  -- what follows the loop
  unfoldable pub finish : ℤ → Option ℕ × InputReport × D → Run (Status × InputReport × D)
  finish timeout_ms (none, r, d) = ok (Status.report_failed, r, d)
  finish timeout_ms (some total_read, r, d) = ok (receive_status r timeout_ms total_read, r, d)

  -- mccr_input_report_receive on an open device. Every round but the last reads at least one byte.
  unfoldable pub mccr_input_report_receive : InputReport → ℤ → D → Run (Status × InputReport × D)
  unfolding finish
  mccr_input_report_receive r timeout_ms d = do
    result ← receive_loop (suc r.report_size) timeout_ms r 0 d
    finish timeout_ms result
