-- ===== src/FeatureReport.antt =====
-- src/libmccr/mccr-feature-report.c: the pair of buffers in which commands travel to the reader and back.
-- Both buffers are bytes: the report id, the command or result code, the data length, the data.
pub mod Command
pub mod Request
pub mod Exchange
use mccr.Prelude.{
  ℕ, ◌+◌, ◌-◌, ◌*◌, ◌%◌, ◌^◌, ◌≡◌, Bool, true, false, not, ◌&&◌, ◌||◌, List, [], ◌∷◌, Option, none,
  some, Run, ok, ◌>>=◌, ◌>>◌, assert, leb, ◌==◌, if◌then◌else◌, length, drop, replicate, read,
  write_block,
}
use mccr.Prelude.Bytes.{Bytes}
use mccr.Prelude.Int.{ℤ, to_size}
use mccr.Hidapi.{Hidapi}
use mccr.Hid.Usages.{Allocator, size_mod}
use mccr.Hid.Context.{DescriptorContext, get_feature_report_size}
use mccr.Status.{Status}

pub record FeatureReport : Type 0 where
  pub report_size : ℕ
  pub request : Bytes
  pub response : Bytes

-- sizeof (struct feature_report_request_s), up to the data
abbrev pub header_size : ℕ
header_size = 3

-- feature_report_result_to_mccr_status
unfoldable pub result_to_status : ℕ → Status
result_to_status code =
    if code == 0x00
    then Status.ok
    else if code == 0x02
    then Status.internal
    else if code == 0x05
    then Status.delayed
    else if code == 0x07
    then Status.invalid_operation
    else Status.failed

-- sizeof (mccr_feature_report_t), three words
abbrev sizeof_feature_report : ℕ
sizeof_feature_report = 24

-- mccr_feature_report_new, with the count of requests for memory before and after; the buffers come
-- zeroed. One extra byte stands for the report id.
unfoldable pub mccr_feature_report_new :
    Allocator → DescriptorContext → ℕ → Option FeatureReport × ℕ
unfolding get_feature_report_size
mccr_feature_report_new grants desc calls =
    let size = 1 + get_feature_report_size desc in
    if not (grants calls sizeof_feature_report)
    then (none, calls + 1)
    else if not (grants (calls + 1) size) || not (grants (calls + 2) size)
    then (none, calls + 3)
    else (
      some (record { report_size = size; request = replicate size 0; response = replicate size 0 }),
      calls + 3,
    )

-- mccr_feature_report_reset
unfoldable pub mccr_feature_report_reset : FeatureReport → FeatureReport
mccr_feature_report_reset r = record r {
  request = replicate r.report_size 0;
  response = replicate r.report_size 0;
}

-- mccr_feature_report_set_request; `none` is a NULL pointer with size 0
unfoldable pub mccr_feature_report_set_request :
    FeatureReport → ℕ → Option Bytes → Run FeatureReport
mccr_feature_report_set_request r command payload =
    let bytes : Bytes = elim payload [ none ↦ [] | some bs ↦ bs ] in
    do
      assert (leb (length bytes) ((r.report_size + size_mod - header_size) % size_mod))
      commanded ← write_block r.request 1 (command ∷ [])
      if length bytes == 0 then ok (record r { request = commanded }) else (do
        sized ← write_block commanded 2 ((length bytes % 256) ∷ [])
        filled ← write_block sized header_size bytes
        ok (record r { request = filled }))

-- mccr_feature_report_get_response: the memory from the data on, and the length that the reader sent
unfoldable pub mccr_feature_report_get_response : FeatureReport → Run (Bytes × ℕ)
mccr_feature_report_get_response r = do
  data_length ← read r.response 2
  ok (drop header_size r.response, data_length)

module _ {D : Type 0} (hid : Hidapi D) where
  -- mccr_feature_report_send_receive
  unfoldable pub mccr_feature_report_send_receive :
      FeatureReport → D → Run (Status × FeatureReport × D)
  unfolding result_to_status
  mccr_feature_report_send_receive r d =
      let (sent, d1) = hid.hid_send_feature_report d r.request in
      if not (to_size sent == r.report_size)
      then ok (Status.write_failed, r, d1)
      else let (got, response, d2) = hid.hid_get_feature_report d1 r.response in
        let answered : FeatureReport = record r { response = response } in
        if not (to_size got == r.report_size)
        then ok (Status.read_failed, answered, d2)
        else do code ← read response 1; ok (result_to_status code, answered, d2)
