-- ===== src/Processor/Properties.antt =====
-- load_device_properties of src/mccr-gtk/mui-processor.c: the device is opened and its properties are
-- reported one by one, as "n/a" where one cannot be read.
use mccr.Prelude.{
  ℕ, ◌+◌, Bool, true, false, not, List, [], ◌∷◌, Option, none, some, Run, ok, fault, ◌>>=◌, ◌>>◌,
  assert, if◌then◌else◌, length,
}
use mccr.Prelude.Bytes.{Bytes}
use mccr.Prelude.Text.{Text, Piece, literal, unsigned}
use mccr.Hid.Usages.{is_null}
use mccr.Status.{Status, is_ok, mccr_status_to_string}
use mccr.Device.{Device, mccr_device_open, mccr_device_is_open}
use mccr.Device.Commands.{
  mccr_device_read_track_id_enable, mccr_device_read_max_packet_size,
  mccr_device_read_polling_interval, mccr_device_get_reader_state, mccr_device_get_security_level,
}
use mccr.Device.Commands.Copied.{
  mccr_device_read_software_id, mccr_device_read_usb_serial_number,
  mccr_device_read_device_serial_number, mccr_device_read_magnesafe_version_number,
  mccr_device_read_iso_track_mask, mccr_device_read_aamva_track_mask,
  mccr_device_get_dukpt_ksn_and_counter, mccr_device_get_encryption_counter,
  mccr_device_get_magtek_update_token,
}
use mccr.Environment.{Environment}
use mccr.Processor.Texts.{text_at, counter_text, track_id_items, reader_state_items, multiline}
use mccr.Processor.{
  Item, Processor, report_item, report_items, with_device, grants_from, device_at, shown,
  strhex_from,
}

module _ {D : Type 0} (env : Environment D) where
  -- report_wide_string. `wcslen` follows the pointer, so NULL is a fault.
  unfoldable pub report_wide_string : Processor D → Item → Option (List ℕ) → Run (Processor D)
  report_wide_string self item none = do assert (not (is_null self.device)); fault
  report_wide_string self item (some wstr) = do
    assert (not (is_null self.device))
    ok (report_item self item (some (shown (text_at (env.g_convert wstr)))))

  -- A property that a command reads and that becomes one text. `read` returns what is to be shown.
  unfoldable pub report_read :
      (Device D → Run (Option Text × Device D)) → Bool → Item → Processor D → Run (Processor D)
  report_read read false item self = ok (report_item self item (some (shown none)))
  report_read read true item self = do
    device ← device_at self
    (text, device') ← read device
    ok (report_item (with_device self device') item (some (shown text)))

  -- a command whose text is shown if it is there, whatever the status
  abbrev pub read_string :
      (Device D → Bool → ℕ → Run (Status × Option Bytes × Device D))
      → Device D
      → Run (Option Text × Device D)
  read_string command device = do
    (st, str, device') ← command device true 0
    ok (text_at str, device')

  -- A property of one number, which is shown with a unit. The variable is not written where the
  -- answer has another length, and shown all the same.
  unfoldable pub report_number :
      (Device D → Run (Status × Option ℕ × Device D))
      → List Piece
      → Bool
      → Item
      → Processor D
      → Run (Processor D)
  report_number command unit false item self = ok (report_item self item (some (shown none)))
  report_number command unit true item self = do
    device ← device_at self
    (st, written, device') ← command device
    let val : ℕ = elim written [ none ↦ self.val | some v ↦ v ]
    ok (
        report_item (record (with_device self device') { val = val }) item
          (some (shown (if is_ok st then some (unsigned val ∷ unit) else none))))

  -- the security level
  abbrev pub read_security_level : Device D → Run (Option Text × Device D)
  read_security_level device = do
    (st, written, device') ← mccr_device_get_security_level env.hidapi device
    let level : ℕ = elim written [ none ↦ env.uninitialised | some v ↦ v ]
    ok (if is_ok st then some (unsigned level ∷ []) else none, device')

  -- strhex or strhex_multiline of the bytes that a command returns
  abbrev pub read_hex :
      (Device D → Bool → ℕ → Run (Status × Option Bytes × Device D))
      → (Bytes → Run Bytes)
      → Device D
      → Run (Option Text × Device D)
  read_hex command to_text device = do
    (st, array, device') ← command device true 0
    if not (is_ok st) then ok (none, device') else elim array [
      | none ↦ fault
      | some bytes ↦ (do text ← to_text bytes; ok (text_at (some text), device'))
    ]

  abbrev pub read_encryption_counter : Processor D → Device D → Run (Option Text × Device D)
  read_encryption_counter self device = do
    (st, serial, counter, device') ←
        mccr_device_get_encryption_counter env.hidapi (grants_from env self) device false true 0
    let val : ℕ = elim counter [ none ↦ env.uninitialised | some v ↦ v ]
    ok (if is_ok st then counter_text val else none, device')

  -- the supported cards and the tracks
  unfoldable pub report_track_id_enable : Bool → Processor D → Run (Processor D)
  report_track_id_enable false self = ok (report_items self (track_id_items none))
  report_track_id_enable true self = do
    device ← device_at self
    (st, read, device') ← mccr_device_read_track_id_enable env.hidapi device env.uninitialised
    ok (report_items (with_device self device') (track_id_items (if is_ok st then read else none)))

  -- the state of the reader and how it came to it
  unfoldable pub report_reader_state : Bool → Processor D → Run (Processor D)
  report_reader_state false self = ok (report_items self (reader_state_items none))
  report_reader_state true self = do
    device ← device_at self
    (st, read, device') ← mccr_device_get_reader_state env.hidapi device
    ok (
        report_items (with_device self device')
          (reader_state_items (if is_ok st then read else none)))

  -- The device is opened; a failure is reported, and the properties are gone through all the same.
  unfoldable pub open_device : Processor D → Run (Processor D)
  open_device self = do
    device ← device_at self
    (st, device', heap') ←
        mccr_device_open env.hidapi (grants_from env self) env.parse_grants env.log_is_enabled
          env.mccr_read_report_descriptor device self.heap self.fresh
    let opened : Processor D = record (with_device self device') {
      heap = heap';
      fresh = self.fresh + 1;
    }
    ok (
        if is_ok st
        then opened
        else report_item opened Item.status_error (
            some (literal "Couldn't open mccr device: " ∷ literal (mccr_status_to_string st) ∷ [])))

  -- the properties of the reader, from the software id on
  unfoldable pub report_properties : Bool → Processor D → Run (Processor D)
  unfolding report_read report_number report_track_id_enable report_reader_state
  report_properties is_open self0 = do
    let hidapi = env.hidapi
    self1 ←
        report_read (read_string (mccr_device_read_software_id hidapi (grants_from env self0)))
          is_open Item.software_id self0
    self2 ←
        report_read
          (read_string (mccr_device_read_usb_serial_number hidapi (grants_from env self1))) is_open
          Item.usb_sn self1
    self3 ←
        report_read
          (read_string (mccr_device_read_device_serial_number hidapi (grants_from env self2)))
          is_open Item.device_sn self2
    self4 ←
        report_read
          (read_string (mccr_device_read_magnesafe_version_number hidapi (grants_from env self3)))
          is_open Item.magnesafe_version self3
    self5 ← report_track_id_enable is_open self4
    self6 ←
        report_read (read_string (mccr_device_read_iso_track_mask hidapi (grants_from env self5)))
          is_open Item.iso_track_mask self5
    self7 ←
        report_read (read_string (mccr_device_read_aamva_track_mask hidapi (grants_from env self6)))
          is_open Item.aamva_track_mask self6
    self8 ←
        report_number (mccr_device_read_max_packet_size hidapi) (literal " bytes" ∷ []) is_open
          Item.max_packet_size self7
    self9 ←
        report_read
          (read_hex (mccr_device_get_dukpt_ksn_and_counter hidapi (grants_from env self8)) (λ bytes.
            strhex_from (grants_from env self8) 1 bytes (length bytes) (some (b' ' ∷ []))))
          is_open Item.dukpt_ksn_and_counter self8
    self10 ←
        report_number (mccr_device_read_polling_interval hidapi) (literal "ms" ∷ []) is_open
          Item.polling_interval self9
    self11 ← report_reader_state is_open self10
    self12 ← report_read read_security_level is_open Item.security_level self11
    self13 ← report_read (read_encryption_counter self12) is_open Item.encryption_counter self12
    report_read
        (read_hex (mccr_device_get_magtek_update_token hidapi (grants_from env self13))
          (multiline (grants_from env self13)))
        is_open Item.magtek_update_token self13

  -- load_device_properties
  unfoldable pub load_device_properties : Processor D → Run (Processor D)
  unfolding report_wide_string open_device report_properties
  load_device_properties self0 = do
    assert (not (is_null self0.device))
    let self1 : Processor D =
        report_item (record self0 { val = env.uninitialised }) Item.status
          (some (literal "Loading device properties..." ∷ []))
    device1 ← device_at self1
    self2 ← report_wide_string self1 Item.manufacturer device1.manufacturer
    device2 ← device_at self2
    self3 ← report_wide_string self2 Item.product device2.product
    self4 ← open_device self3
    device4 ← device_at self4
    report_properties (mccr_device_is_open device4) self4
