-- ===== src/Device/Commands.antt =====
-- The commands of src/libmccr/mccr.c. Each sends a request to an open device and takes the answer apart.
-- An output that the caller may decline is asked for by a Boolean, and `none` is an output that is
-- not written.
pub mod Copied
pub mod Transact
pub mod Answers
use mccr.Prelude.{
  ℕ, ◌+◌, ◌*◌, ◌/◌, ◌%◌, ◌^◌, Bool, true, false, not, ◌&&◌, ◌||◌, List, [], ◌∷◌, ◌++◌, Option, none,
  some, Run, ok, aborted, ◌>>=◌, leb, ◌==◌, if◌then◌else◌, length, read, read_block,
}
use mathlib.Core.List.{reverse}
use mccr.Prelude.Bytes.{Bytes, from_le, to_le}
use mccr.Hidapi.{Hidapi}
use mccr.Hid.Usages.{Allocator, is_null}
use mccr.FeatureReport.{
  FeatureReport, mccr_feature_report_reset, mccr_feature_report_set_request,
  mccr_feature_report_get_response, mccr_feature_report_send_receive,
}
use mccr.FeatureReport.Command
use mccr.Device.{Device}
use mccr.Status
use mccr.Status.{Status, is_ok}

-- `enum { PROPERTY_… }`
abbrev pub property_software_id : ℕ
property_software_id = 0x00

abbrev pub property_usb_serial_number : ℕ
property_usb_serial_number = 0x01

abbrev pub property_polling_interval : ℕ
property_polling_interval = 0x02

abbrev pub property_device_serial_number : ℕ
property_device_serial_number = 0x03

abbrev pub property_magnesafe_version_number : ℕ
property_magnesafe_version_number = 0x04

abbrev pub property_track_id_enable : ℕ
property_track_id_enable = 0x05

abbrev pub property_iso_track_mask : ℕ
property_iso_track_mask = 0x07

abbrev pub property_aamva_track_mask : ℕ
property_aamva_track_mask = 0x08

abbrev pub property_max_packet_size : ℕ
property_max_packet_size = 0x0A

-- What mccr_device_read_track_id_enable writes.
pub record TrackIdEnable : Type 0 where
  pub aamva_supported : Bool
  pub track_1 : ℕ
  pub track_2 : ℕ
  pub track_3 : ℕ

-- The masks and shifts of mccr_device_read_track_id_enable.
abbrev pub split_track_id : ℕ → TrackIdEnable
split_track_id val = record {
  aamva_supported = not (val / 128 % 2 == 0);
  track_1 = val % 4;
  track_2 = val / 4 % 4;
  track_3 = val / 16 % 4;
}

-- `htobe64` as the bytes in memory
abbrev pub to_be64 : ℕ → Bytes
to_be64 v = reverse (to_le 8 v)

-- The memory of the feature report, which every answer is read from.
abbrev pub answer_of : {D : Type 0} → Device D → Run (Bytes × ℕ)
answer_of device = elim device.feature_report [
  | none ↦ Run.fault
  | some r ↦ mccr_feature_report_get_response r
]

module _ {D : Type 0} (hidapi : Hidapi D) where
  -- The three calls on a feature report that every command makes: reset, set_request, send_receive.
  unfoldable pub exchange : FeatureReport → Device D → ℕ → Option Bytes → Run (Status × Device D)
  exchange r device command payload = do
    asked ← mccr_feature_report_set_request (mccr_feature_report_reset r) command payload
    elim device.hid [
      | none ↦ aborted
      | some d ↦ (do
        (st, r', d') ← mccr_feature_report_send_receive hidapi asked d
        ok (st, record device { feature_report = some r'; hid = some d' }))
    ]

  -- The same on the feature report of the device, where a NULL pointer is a fault: the commands test for it
  -- before.
  unfoldable pub transact : Device D → ℕ → Option Bytes → Run (Status × Device D)
  transact device command payload = elim device.feature_report [
    | none ↦ Run.fault
    | some r ↦ exchange r device command payload
  ]

  -- mccr_device_reset
  unfoldable pub mccr_device_reset : Device D → Run (Status × Device D)
  mccr_device_reset device =
      if is_null device.feature_report
      then ok (Status.not_open, device)
      else transact device Command.reset_device none

  -- mccr_device_set_session_id
  unfoldable pub mccr_device_set_session_id : Device D → ℕ → Run (Status × Device D)
  mccr_device_set_session_id device session_id =
      if is_null device.feature_report
      then ok (Status.not_open, device)
      else transact device Command.set_session_id (some (to_be64 session_id))

  -- common_device_read_property_byte: the status and the byte, `none` where it is not written
  unfoldable pub common_device_read_property_byte :
      Device D → ℕ → Run (Status × Option ℕ × Device D)
  common_device_read_property_byte device property_id =
      if is_null device.feature_report then ok (Status.not_open, none, device) else (do
        (st, device') ← transact device Command.get_property (some (property_id ∷ []))
        if not (is_ok st) then ok (st, none, device') else (do
          (response, response_size) ← answer_of device'
          if response_size == 1
              then (do val ← read response 0; ok (Status.ok, some val, device'))
              else ok (Status.ok, none, device')))

  -- mccr_device_read_polling_interval
  unfoldable pub mccr_device_read_polling_interval : Device D → Run (Status × Option ℕ × Device D)
  mccr_device_read_polling_interval device =
      common_device_read_property_byte device property_polling_interval

  -- mccr_device_read_max_packet_size
  unfoldable pub mccr_device_read_max_packet_size : Device D → Run (Status × Option ℕ × Device D)
  mccr_device_read_max_packet_size device =
      common_device_read_property_byte device property_max_packet_size

  -- mccr_device_read_track_id_enable. `uninitialised` is what `val` holds before it is written.
  unfoldable pub mccr_device_read_track_id_enable :
      Device D → ℕ → Run (Status × Option TrackIdEnable × Device D)
  mccr_device_read_track_id_enable device uninitialised = do
    (st, written, device') ← common_device_read_property_byte device property_track_id_enable
    let val : ℕ = elim written [ none ↦ uninitialised | some v ↦ v ]
    if not (is_ok st)
        then ok (st, none, device')
        else ok (Status.ok, some (split_track_id val), device')

  -- mccr_device_get_reader_state: the state and the antecedent
  unfoldable pub mccr_device_get_reader_state : Device D → Run (Status × Option (ℕ × ℕ) × Device D)
  mccr_device_get_reader_state device =
      if is_null device.feature_report then ok (Status.not_open, none, device) else (do
        (st, device') ← transact device Command.get_reader_state none
        if not (is_ok st) then ok (st, none, device') else (do
          (response, response_size) ← answer_of device'
          if not (response_size == 2) then ok (Status.unexpected_format, none, device') else (do
            state ← read response 0
            antecedent ← read response 1
            ok (Status.ok, some (state, antecedent), device'))))

  -- mccr_device_get_security_level, which sends the command to set it, with no data
  unfoldable pub mccr_device_get_security_level : Device D → Run (Status × Option ℕ × Device D)
  mccr_device_get_security_level device =
      if is_null device.feature_report then ok (Status.not_open, none, device) else (do
        (st, device') ← transact device Command.set_security_level none
        if not (is_ok st) then ok (st, none, device') else (do
          (response, response_size) ← answer_of device'
          if not (response_size == 1)
              then ok (Status.unexpected_format, none, device')
              else (do level ← read response 0; ok (Status.ok, some level, device'))))
