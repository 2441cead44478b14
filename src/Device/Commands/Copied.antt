-- ===== src/Device/Commands/Copied.antt =====
-- The commands of src/libmccr/mccr.c that copy an answer into memory of its own. A request for memory is
-- counted from `calls`.
use mccr.Prelude.{
  ℕ, ◌+◌, Bool, not, ◌||◌, [], ◌∷◌, ◌++◌, Option, none, some, Run, ok, ◌>>=◌, ◌==◌, if◌then◌else◌,
  read_block,
}
use mccr.Prelude.Bytes.{Bytes, from_le}
use mccr.Hidapi.{Hidapi}
use mccr.Hid.Usages.{Allocator, is_null}
use mccr.FeatureReport.Command
use mccr.Device.{Device}
use mccr.Status.{Status, is_ok}
use mccr.Device.Commands.{
  answer_of, transact, property_software_id, property_usb_serial_number,
  property_device_serial_number, property_magnesafe_version_number, property_iso_track_mask,
  property_aamva_track_mask,
}

module _ {D : Type 0} (hidapi : Hidapi D) where
  module _ (grants : Allocator) where
    -- common_device_read_property_string: the text is the answer and a NUL
    unfoldable pub common_device_read_property_string :
        Device D → ℕ → Bool → ℕ → Run (Status × Option Bytes × Device D)
    common_device_read_property_string device property_id wanted calls =
        if is_null device.feature_report then ok (Status.not_open, none, device) else (do
          (st, device') ← transact hidapi device Command.get_property (some (property_id ∷ []))
          if not (is_ok st)
              then ok (st, none, device')
              else if not wanted
              then ok (Status.ok, none, device')
              else (do
                (response, response_size) ← answer_of device'
                if grants calls (response_size + 1)
                    then (do
                      str ← read_block response 0 response_size
                      ok (Status.ok, some (str ++ 0 ∷ []), device'))
                    else ok (Status.failed, none, device')))

    -- mccr_device_read_software_id
    unfoldable pub mccr_device_read_software_id :
        Device D → Bool → ℕ → Run (Status × Option Bytes × Device D)
    mccr_device_read_software_id device =
        common_device_read_property_string device property_software_id

    -- mccr_device_read_usb_serial_number
    unfoldable pub mccr_device_read_usb_serial_number :
        Device D → Bool → ℕ → Run (Status × Option Bytes × Device D)
    mccr_device_read_usb_serial_number device =
        common_device_read_property_string device property_usb_serial_number

    -- mccr_device_read_device_serial_number
    unfoldable pub mccr_device_read_device_serial_number :
        Device D → Bool → ℕ → Run (Status × Option Bytes × Device D)
    mccr_device_read_device_serial_number device =
        common_device_read_property_string device property_device_serial_number

    -- mccr_device_read_magnesafe_version_number
    unfoldable pub mccr_device_read_magnesafe_version_number :
        Device D → Bool → ℕ → Run (Status × Option Bytes × Device D)
    mccr_device_read_magnesafe_version_number device =
        common_device_read_property_string device property_magnesafe_version_number

    -- mccr_device_read_iso_track_mask
    unfoldable pub mccr_device_read_iso_track_mask :
        Device D → Bool → ℕ → Run (Status × Option Bytes × Device D)
    mccr_device_read_iso_track_mask device =
        common_device_read_property_string device property_iso_track_mask

    -- mccr_device_read_aamva_track_mask
    unfoldable pub mccr_device_read_aamva_track_mask :
        Device D → Bool → ℕ → Run (Status × Option Bytes × Device D)
    mccr_device_read_aamva_track_mask device =
        common_device_read_property_string device property_aamva_track_mask

    -- The end of the commands that copy an answer of a fixed length: the size is written before the
    -- memory is asked for.
    copy_answer : Device D → Bytes → ℕ → Bool → ℕ → Run (Status × Option Bytes × Device D)
    copy_answer device response response_size wanted calls =
        if not wanted
        then ok (Status.ok, none, device)
        else if grants calls response_size
        then (do copied ← read_block response 0 response_size; ok (Status.ok, some copied, device))
        else ok (Status.failed, none, device)

    -- mccr_device_get_dukpt_ksn_and_counter
    unfoldable pub mccr_device_get_dukpt_ksn_and_counter :
        Device D → Bool → ℕ → Run (Status × Option Bytes × Device D)
    unfolding copy_answer
    mccr_device_get_dukpt_ksn_and_counter device wanted calls =
        if is_null device.feature_report then ok (Status.not_open, none, device) else (do
          (st, device') ← transact hidapi device Command.get_dukpt_ksn_and_counter none
          if not (is_ok st) then ok (st, none, device') else (do
            (response, response_size) ← answer_of device'
            if not (response_size == 10)
                then ok (Status.unexpected_format, none, device')
                else copy_answer device' response response_size wanted calls))

    -- mccr_device_get_magtek_update_token
    unfoldable pub mccr_device_get_magtek_update_token :
        Device D → Bool → ℕ → Run (Status × Option Bytes × Device D)
    unfolding copy_answer
    mccr_device_get_magtek_update_token device wanted calls =
        if is_null device.feature_report then ok (Status.not_open, none, device) else (do
          (st, device') ← transact hidapi device Command.get_magtek_update_token none
          if not (is_ok st) then ok (st, none, device') else (do
            (response, response_size) ← answer_of device'
            if not (response_size == 36)
                then ok (Status.unexpected_format, none, device')
                else copy_answer device' response response_size wanted calls))

    -- The serial number of mccr_device_get_encryption_counter: sixteen bytes and a NUL.
    copy_serial_number : Bytes → Bool → ℕ → Run (Status × Option Bytes)
    copy_serial_number response wanted calls =
        if not wanted
        then ok (Status.ok, none)
        else if grants calls 17
        then (do serial ← read_block response 0 16; ok (Status.ok, some (serial ++ 0 ∷ [])))
        else ok (Status.failed, none)

    -- mccr_device_get_encryption_counter: the serial number and the counter
    unfoldable pub mccr_device_get_encryption_counter :
        Device D → Bool → Bool → ℕ → Run (Status × Option Bytes × Option ℕ × Device D)
    unfolding copy_serial_number
    mccr_device_get_encryption_counter device serial_wanted counter_wanted calls =
        if is_null device.feature_report then ok (Status.not_open, none, none, device) else (do
          (st, device') ← transact hidapi device Command.get_encryption_counter none
          if not (is_ok st) then ok (st, none, none, device') else (do
            (response, response_size) ← answer_of device'
            if not (response_size == 19)
                then ok (Status.unexpected_format, none, none, device')
                else (do
                  (copied, serial) ← copy_serial_number response serial_wanted calls
                  if not (is_ok copied)
                      then ok (copied, none, none, device')
                      else if counter_wanted
                      then (do
                        counter ← read_block response 16 3
                        ok (Status.ok, serial, some (from_le counter), device'))
                      else ok (Status.ok, serial, none, device'))))

    -- mccr_device_run_generic: the answer and its size
    unfoldable pub mccr_device_run_generic :
        Device D
        → ℕ
        → Option Bytes
        → Bool
        → Bool
        → ℕ
        → Run (Status × Option Bytes × Option ℕ × Device D)
    mccr_device_run_generic device command_id blob blob_wanted size_wanted calls =
        if is_null device.feature_report then ok (Status.not_open, none, none, device) else (do
          (st, device') ← transact hidapi device command_id blob
          if not (is_ok st)
              then ok (st, none, none, device')
              else if not (blob_wanted || size_wanted)
              then ok (Status.ok, none, none, device')
              else (do
                (response, response_size) ← answer_of device'
                let size : Option ℕ = if size_wanted then some response_size else none
                if not blob_wanted
                    then ok (Status.ok, none, size, device')
                    else if grants calls response_size
                    then (do
                      copied ← read_block response 0 response_size
                      ok (Status.ok, some copied, size, device'))
                    else ok (Status.failed, none, size, device')))
