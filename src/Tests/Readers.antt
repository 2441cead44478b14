-- ===== src/Tests/Readers.antt =====
-- Commands (src/libmccr/mccr.c, src/libmccr/mccr-feature-report.c) to a reader that takes every request and
-- answers with code 0, the length 2 and two bytes of data.
use mccr.Prelude.{
  aborted, fault, ℕ, suc, min, ◌≡◌, refl, ap, true, [], ◌∷◌, none, some, ok, ◌>>=◌, arith, length,
  length-replicate, replicate, Returns,
}
use mccr.Prelude.Bytes.{Bytes}
use mccr.Prelude.Int.{ℤ, pos}
use mccr.Hidapi.{Hidapi, IsHidapi}
use mccr.Status
use mccr.Status.{mccr_status_to_string}
use mccr.Hid.Tests.{always}
use mccr.FeatureReport.{
  FeatureReport, mccr_feature_report_reset, mccr_feature_report_set_request,
  mccr_feature_report_send_receive, result_to_status,
}
use mccr.FeatureReport.Request.{IsFeatureReport, set_request-request_bytes}
use mccr.FeatureReport.Exchange.{KeepsSize, send_receive-Returns}
use mccr.Device.{Device}
use mccr.Device.Commands.{exchange, transact, mccr_device_get_reader_state}
use mccr.Device.Commands.Copied.{common_device_read_property_string}
use mccr.Device.Commands.Transact.{IsOpen, asked, transact-request_bytes, transact-Returns}
use mccr.Device.Commands.Answers.{
  ReaderState, read_property_string_answer, get_reader_state-Returns,
}

overlay : Bytes → Bytes → Bytes
overlay [] ys = []
overlay (x ∷ xs) [] = x ∷ xs
overlay (x ∷ xs) (y ∷ ys) = y ∷ overlay xs ys

length-overlay : (xs ys : Bytes) → length (overlay xs ys) ≡ length xs
unfolding overlay
length-overlay [] ys = refl
length-overlay (x ∷ xs) [] = refl
length-overlay (x ∷ xs) (y ∷ ys) = ap suc (length-overlay xs ys)

-- The state counts the calls. A read for a swipe returns two bytes, or what there is room for.
unfoldable pub reader : Hidapi ℕ
unfolding overlay
reader = record {
  hid_open_path = λ path. some 0;
  hid_send_feature_report = λ d bytes. (pos (length bytes), suc d);
  hid_get_feature_report =
      λ d buffer. (pos (length buffer), overlay buffer (0 ∷ 0 ∷ 2 ∷ 0 ∷ 3 ∷ []), suc d);
  hid_read_timeout = λ d room timeout_ms. (pos (min 2 room), replicate (min 2 room) 7, suc d);
}

magnitude : ℤ → ℕ
magnitude (pos n) = n
magnitude _ = 0

pub reader-IsHidapi : IsHidapi reader
unfolding reader magnitude
reader-IsHidapi = record {
  buffer_size = λ d buffer. length-overlay buffer (0 ∷ 0 ∷ 2 ∷ 0 ∷ 3 ∷ []);
  read_size = λ d room timeout_ms n e.
      let same : min 2 room ≡ n = ap magnitude e in
      (omega (arith, length-replicate {A = ℕ} (min 2 room) 7), omega arith);
}

abbrev five_bytes : FeatureReport
five_bytes = record { report_size = 5; request = replicate 5 1; response = replicate 5 1 }

five_bytes-IsFeatureReport : IsFeatureReport five_bytes
five_bytes-IsFeatureReport = record {
  request_size = refl;
  response_size = refl;
  header = omega arith;
}

abbrev pub open_device : Device ℕ
open_device = record {
  refcount = 2;
  path = some (b'p' ∷ []);
  vid = 0x0801;
  pid = 0x11;
  serial_number = none;
  manufacturer = none;
  product = none;
  hid = some 0;
  desc = some 3;
  feature_report = some five_bytes;
}

pub open_device-IsOpen : IsOpen 5 open_device
open_device-IsOpen = record {
  report = five_bytes;
  handle = 0;
  has_report = refl;
  has_handle = refl;
  well_formed = five_bytes-IsFeatureReport;
  has_size = refl;
}

set_request-request_bytes_example :
    mccr_feature_report_set_request (mccr_feature_report_reset five_bytes) 0x15 (some (9 ∷ []))
    ≡ ok (record { report_size = 5; request = 0 ∷ 0x15 ∷ 1 ∷ 9 ∷ 0 ∷ []; response = replicate 5 0 })
set_request-request_bytes_example =
    set_request-request_bytes five_bytes 0x15 (some (9 ∷ [])) five_bytes-IsFeatureReport
      (omega arith) (omega arith)

send_receive-Returns_example :
    Returns (KeepsSize reader five_bytes 0) (mccr_feature_report_send_receive reader five_bytes 0)
send_receive-Returns_example =
    send_receive-Returns reader five_bytes 0 reader-IsHidapi five_bytes-IsFeatureReport

transact-request_bytes_example : transact reader open_device 0x15 (some (9 ∷ [])) ≡ (
    mccr_feature_report_send_receive reader (asked 5 0x15 (some (9 ∷ []))) 0 >>= λ (st, r', d').
    ok (st, record open_device { feature_report = some r'; hid = some d' }))
transact-request_bytes_example =
    transact-request_bytes reader open_device 0x15 (some (9 ∷ [])) five_bytes 0 refl refl
      five_bytes-IsFeatureReport (omega arith) (omega arith)

transact-Returns_example :
    Returns (λ result. IsOpen 5 (result.1)) (transact reader open_device 0x15 (some (9 ∷ [])))
transact-Returns_example =
    transact-Returns reader open_device 0x15 5 (some (9 ∷ [])) reader-IsHidapi open_device-IsOpen
      (omega arith) (omega arith)

get_reader_state-Returns_example :
    Returns (ReaderState reader 5 open_device) (mccr_device_get_reader_state reader open_device)
get_reader_state-Returns_example =
    get_reader_state-Returns reader open_device 5 reader-IsHidapi open_device-IsOpen (omega arith)
      (omega arith)

-- what a command for a property leaves
abbrev answered : ℕ → FeatureReport
answered property_id = record {
  report_size = 5;
  request = 0 ∷ 0 ∷ 1 ∷ property_id ∷ 0 ∷ [];
  response = 0 ∷ 0 ∷ 2 ∷ 0 ∷ 3 ∷ [];
}

abbrev device_after : ℕ → Device ℕ
device_after property_id = record open_device {
  feature_report = some (answered property_id);
  hid = some 2;
}

read_property_string_answer_example :
    common_device_read_property_string reader always open_device 7 true 0
    ≡ ok (Status.ok, some (0 ∷ 3 ∷ 0 ∷ []), device_after 7)
unfolding transact exchange reader overlay mccr_feature_report_reset mccr_feature_report_set_request
    mccr_feature_report_send_receive result_to_status
read_property_string_answer_example =
    read_property_string_answer reader always open_device (device_after 7) 7 0 2 (answered 7) refl
      refl (record { request_size = refl; response_size = refl; header = omega arith }) refl refl

-- the difference of sizes in the assert wraps around where there is no room for the header
set_request_faults :
    mccr_feature_report_set_request
      (record { report_size = 1; request = 0 ∷ []; response = 0 ∷ [] })
      2
      none
    ≡ fault
unfolding mccr_feature_report_set_request
set_request_faults = refl

-- data that does not fit behind the header stops the process
set_request_aborts : mccr_feature_report_set_request five_bytes 2 (some (1 ∷ 2 ∷ 3 ∷ [])) ≡ aborted
unfolding mccr_feature_report_set_request
set_request_aborts = refl

timed_out_text : mccr_status_to_string Status.timed_out ≡ "unknown"
unfolding mccr_status_to_string
timed_out_text = refl
