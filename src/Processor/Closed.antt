-- ===== src/Processor/Closed.antt =====
-- load_device_properties of src/mccr-gtk/mui-processor.c for a device that cannot be opened or that has no
-- texts.
use mccr.Prelude.{
  ℕ, ◌≡◌, refl, ◌∙◌, false, List, [], ◌∷◌, ◌++◌, append_assoc, append-nil, sym, Option, none, some,
  ok, Returns, returned,
}
use mccr.Prelude.Bytes.{Bytes}
use mccr.Prelude.Text.{Text, literal}
use mccr.Status.{Status, is_ok, mccr_status_to_string}
use mccr.Device.{Device, mccr_device_is_open}
use mccr.Device.Lifetime.{closed, open-no_descriptor}
use mccr.Environment.{Environment}
use mccr.Processor.{Item, Processor, report_item, report_items, n_a, shown, grants_from}
use mccr.Processor.Properties.{
  load_device_properties, report_wide_string, open_device, report_properties, report_read,
  report_number, report_track_id_enable, report_reader_state,
}
use mccr.Processor.Texts.{text_at}

report_items_lem :
    {D : Type 0} (self : Processor D) (items : List (Item × Option Text))
    → (report_items self items).reported ≡ self.reported ++ items
report_items_lem self [] = sym (append-nil self.reported)
report_items_lem self ((item, value) ∷ items) =
    report_items_lem (report_item self item value) items
    ∙ append_assoc self.reported ((item, value) ∷ []) items

-- What is reported of the properties of a reader that is not open.
abbrev pub all_n_a : List (Item × Option Text)
all_n_a =
    (Item.software_id, some n_a)
    ∷ (Item.usb_sn, some n_a)
    ∷ (Item.device_sn, some n_a)
    ∷ (Item.magnesafe_version, some n_a)
    ∷ (Item.supported_cards, some n_a)
    ∷ (Item.track_status 1, some n_a)
    ∷ (Item.track_status 2, some n_a)
    ∷ (Item.track_status 3, some n_a)
    ∷ (Item.iso_track_mask, some n_a)
    ∷ (Item.aamva_track_mask, some n_a)
    ∷ (Item.max_packet_size, some n_a)
    ∷ (Item.dukpt_ksn_and_counter, some n_a)
    ∷ (Item.polling_interval, some n_a)
    ∷ (Item.reader_state, some n_a)
    ∷ (Item.antecedent, some n_a)
    ∷ (Item.security_level, some n_a)
    ∷ (Item.encryption_counter, some n_a)
    ∷ (Item.magtek_update_token, some n_a)
    ∷ []

module _ {D : Type 0} (env : Environment D) where
  report_properties-closed :
      (self : Processor D) → report_properties env false self ≡ ok (report_items self all_n_a)
  unfolding report_properties report_read report_number report_track_id_enable report_reader_state
  report_properties-closed self = refl

  -- what is reported of a device whose descriptor cannot be read
  abbrev pub closed_report : List ℕ → List ℕ → List (Item × Option Text)
  closed_report manufacturer product =
      (Item.status, some (literal "Loading device properties..." ∷ []))
      ∷ (Item.manufacturer, some (shown (text_at (env.g_convert manufacturer))))
      ∷ (Item.product, some (shown (text_at (env.g_convert product))))
      ∷ (
        Item.status_error,
        some (
            literal "Couldn't open mccr device: "
            ∷ literal (mccr_status_to_string Status.failed)
            ∷ []),
      )
      ∷ all_n_a

  -- For a closed device with both texts whose report descriptor cannot be read, loading the properties
  -- returns: the failure is reported, then every property of the reader as "n/a", in the order of the
  -- source, the device is closed and no context has come or gone.
  pub load_device_properties-closed :
      (self : Processor D) (device : Device D) (manufacturer product : List ℕ) (st : Status)
      (read : Bytes)
      → self.device ≡ some device
      → device.manufacturer ≡ some manufacturer
      → device.product ≡ some product
      → device.desc ≡ none
      → env.mccr_read_report_descriptor device.path ≡ (st, read)
      → is_ok st ≡ false
      → Returns
          (λ self'.
            (self'.reported ≡ self.reported ++ closed_report manufacturer product)
            × (self'.device ≡ some (closed device))
            × (self'.heap ≡ self.heap))
          (load_device_properties env self)
  unfolding load_device_properties report_wide_string open_device mccr_device_is_open
  load_device_properties-closed self device manufacturer product st read d m p shut failed not_ok =
      let opened =
        open-no_descriptor env.hidapi (grants_from env self) env.parse_grants env.log_is_enabled
          env.mccr_read_report_descriptor device self.heap self.fresh st read shut failed not_ok in
      simp (d, m, p, opened)
        (returned (report_items_lem self (closed_report manufacturer product), refl, refl))
