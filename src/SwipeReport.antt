-- ===== src/SwipeReport.antt =====
-- The swipe reports of src/libmccr/mccr.c: waiting for one, reading its fields, disposing of it.
pub mod Fields
use mccr.Prelude.{
  ℕ, ◌+◌, ◌*◌, ◌/◌, ◌%◌, ◌<◌, Bool, true, false, not, ◌&&◌, ◌||◌, List, [], ◌∷◌, Option, none, some,
  Run, ok, fault, ◌>>=◌, ltb, leb, ◌==◌, if◌then◌else◌, length, read,
}
use mccr.Prelude.Bytes.{Bytes}
use mccr.Prelude.Int.{ℤ}
use mccr.Hidapi.{Hidapi}
use mccr.Hid.Usages.{Allocator}
use mccr.Hid.Parser.{word_mod}
use mccr.Hid.Context.{DescriptorContext, get_input_report_usage}
use mccr.InputReport.{
  InputReport, mccr_input_report_new, mccr_input_report_receive, mccr_input_report_get_data,
}
use mccr.Device.{Device, Contexts, load, ref_at, unref_at}
use mccr.Status
use mccr.Status.{Status, is_ok}

-- `struct mccr_swipe_report_s`; `desc` is an address in the heap of contexts.
pub record SwipeReport : Type 0 where
  pub input_report : InputReport
  pub desc : ℕ

-- mccr_swipe_report_free
unfoldable pub mccr_swipe_report_free : SwipeReport → Contexts → Run Contexts
mccr_swipe_report_free report heap = unref_at heap report.desc

-- The tests of swipe_report_get_usage on what the look-up of the field returned.
unfoldable pub check_usage : InputReport → ℕ → Option (ℕ × ℕ) → Run (Status × Option ℕ)
unfolding mccr_input_report_get_data
check_usage input_report expected_usage_size_bytes none = ok (Status.not_found, none)
check_usage input_report expected_usage_size_bytes (some (offset_bits, size_bits)) =
    if not (offset_bits % 8 == 0) || not (size_bits % 8 == 0)
    then ok (Status.internal, none)
    else let usage_offset = offset_bits / 8 in
      let usage_size = size_bits / 8 in
      if not (expected_usage_size_bytes == 0) && not (usage_size == expected_usage_size_bytes)
      then ok (Status.unexpected_format, none)
      else if ltb (mccr_input_report_get_data input_report).1
          ((usage_offset + usage_size) % word_mod)
      then ok (Status.unexpected_format, none)
      else ok (Status.ok, some usage_offset)

-- swipe_report_get_usage: the status and where in the input report the field begins, in bytes
unfoldable pub swipe_report_get_usage : Contexts → SwipeReport → ℕ → ℕ → Run (Status × Option ℕ)
unfolding check_usage
swipe_report_get_usage heap report usage_id expected_usage_size_bytes = do
  desc ← load heap report.desc
  check_usage report.input_report expected_usage_size_bytes (get_input_report_usage desc usage_id)

-- `*usage`, where there is one
unfoldable pub read_field : Bytes → Status × Option ℕ → Run (Status × Option ℕ)
read_field report_data (st, none) = ok (st, none)
read_field report_data (st, some offset) = do
  value ← read report_data offset
  ok (Status.ok, some value)

-- The getters of one byte: a field that must be one byte long, and its value.
unfoldable pub get_byte_field : Contexts → SwipeReport → ℕ → Run (Status × Option ℕ)
unfolding read_field
get_byte_field heap report usage_id = do
  usage ← swipe_report_get_usage heap report usage_id 1
  read_field report.input_report.report_data usage

-- The getters of a pointer to a field of any length.
unfoldable pub get_data_field : Contexts → SwipeReport → ℕ → Run (Status × Option ℕ)
get_data_field heap report usage_id = swipe_report_get_usage heap report usage_id 0

-- The usage ids of track `n`, 1 to 3: `MCCR_INPUT_USAGE_ID_TRACK_…` of src/libmccr/mccr-hid.h.
abbrev pub track_decode_status_id : ℕ → ℕ
track_decode_status_id n = 0x1f + n

abbrev pub track_encrypted_data_length_id : ℕ → ℕ
track_encrypted_data_length_id n = 0x27 + n

abbrev pub track_encrypted_data_id : ℕ → ℕ
track_encrypted_data_id n = 0x2f + n

abbrev pub track_masked_data_length_id : ℕ → ℕ
track_masked_data_length_id n = 0x46 + n

abbrev pub track_masked_data_id : ℕ → ℕ
track_masked_data_id n = 0x49 + n

abbrev pub track_absolute_data_length_id : ℕ → ℕ
track_absolute_data_length_id n = 0x50 + n

abbrev pub card_encode_type_id : ℕ
card_encode_type_id = 0x38

module _ (heap : Contexts) (report : SwipeReport) where
  -- the six functions of `TRACK_API (n)`
  unfoldable pub mccr_swipe_report_get_track_decode_status : ℕ → Run (Status × Option ℕ)
  mccr_swipe_report_get_track_decode_status n =
      get_byte_field heap report (track_decode_status_id n)

  unfoldable pub mccr_swipe_report_get_track_encrypted_data_length : ℕ → Run (Status × Option ℕ)
  mccr_swipe_report_get_track_encrypted_data_length n =
      get_byte_field heap report (track_encrypted_data_length_id n)

  unfoldable pub mccr_swipe_report_get_track_absolute_data_length : ℕ → Run (Status × Option ℕ)
  mccr_swipe_report_get_track_absolute_data_length n =
      get_byte_field heap report (track_absolute_data_length_id n)

  unfoldable pub mccr_swipe_report_get_track_encrypted_data : ℕ → Run (Status × Option ℕ)
  mccr_swipe_report_get_track_encrypted_data n =
      get_data_field heap report (track_encrypted_data_id n)

  unfoldable pub mccr_swipe_report_get_track_masked_data_length : ℕ → Run (Status × Option ℕ)
  mccr_swipe_report_get_track_masked_data_length n =
      get_byte_field heap report (track_masked_data_length_id n)

  unfoldable pub mccr_swipe_report_get_track_masked_data : ℕ → Run (Status × Option ℕ)
  mccr_swipe_report_get_track_masked_data n = get_data_field heap report (track_masked_data_id n)

  -- mccr_swipe_report_get_card_encode_type
  unfoldable pub mccr_swipe_report_get_card_encode_type : Run (Status × Option ℕ)
  mccr_swipe_report_get_card_encode_type = get_byte_field heap report card_encode_type_id

-- sizeof (struct mccr_swipe_report_s), two words
abbrev sizeof_swipe_report : ℕ
sizeof_swipe_report = 16

module _ {D : Type 0} (hidapi : Hidapi D) (grants : Allocator) where
  -- the end of mccr_device_wait_swipe_report, for a report that has been received
  keep_swipe_report : ℕ → Contexts → InputReport → ℕ → Run (Status × Option SwipeReport × Contexts)
  keep_swipe_report calls heap input_report p =
      if grants calls sizeof_swipe_report
      then (do
        heap' ← ref_at heap p
        ok (Status.ok, some (record { input_report = input_report; desc = p }), heap'))
      else ok (Status.failed, none, heap)

  -- mccr_device_wait_swipe_report; `wanted` is whether the caller takes the report
  unfoldable pub mccr_device_wait_swipe_report :
      Device D → Contexts → ℤ → Bool → Run (Status × Option SwipeReport × Device D × Contexts)
  unfolding keep_swipe_report
  mccr_device_wait_swipe_report device heap timeout_ms wanted = elim device.desc [
    | none ↦ ok (Status.not_open, none, device, heap)
    | some p ↦ (do
      desc ← load heap p
      let (made, calls) = mccr_input_report_new grants desc 0
      elim made [
        | none ↦ ok (Status.failed, none, device, heap)
        | some r ↦ elim device.hid [
          | none ↦ ok (Status.not_open, none, device, heap)
          | some d ↦ (do
            (st, received, d') ← mccr_input_report_receive hidapi r timeout_ms d
            let device' : Device D = record device { hid = some d' }
            if not (is_ok st)
                then ok (st, none, device', heap)
                else if not wanted
                then ok (Status.ok, none, device', heap)
                else (do
                  (kept, report, heap') ← keep_swipe_report calls heap received p
                  ok (kept, report, device', heap')))
        ]
      ])
  ]
