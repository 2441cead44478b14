-- ===== src/BasicPage/Life.antt =====
-- The keys of the page of src/mccr-gtk/mui-page-basic.c through its whole life.
use mccr.Prelude.{
  ℕ, ◌≡◌, refl, Bool, true, List, [], ◌∷◌, Option, none, some, Run, ◌>>=◌, length, IfReturns, value,
  no_value_aborted, no_value_fault, IfReturns-bind, IfReturns-map, IfReturns-option, IfReturns-if,
  IfReturns-then, IfReturns-mono, ◌+◌, ◌/◌, memcpy,
}
use mccr.Prelude.Bytes.{Bytes}
use mccr.Prelude.Int.{ℤ}
use mccr.Common.{Ssize, count, minus, is_count, strbin, strhex, strascii}
use mccr.Prelude.Text.{c_string}
use mccr.Dukpt.{Dukpt}
use mccr.Processor.{
  Item, security_level, status, status_error, dukpt_ksn_and_counter, swipe_started, swipe_finished,
  track_encrypted_data, track_masked_data,
}
use mccr.BasicPage.{
  BasicPage, put_track, reload_decryption, bdk_entry_activated, key_type_of, key_type_updated,
  dukpt_ksn_and_counter_updated, assigned_to_swipe, show_masked, masked_data_updated, value_at,
  report_item,
}
use mccr.BasicPage.Events.{
  Widgets, blank_page, Event, bdk_typed, variant_chosen, switched, reported, page_reset,
  mui_page_basic_new, perform, perform_all,
}
use mccr.BasicPage.Coherent.{
  IsCoherent, nothing_set, reload_decryption_key-IsCoherent, put_track-IsCoherent,
  reload_decryption-IsCoherent,
}

module _ (dukpt : Dukpt) (isprint : ℕ → Bool) (atoi : Bytes → ℤ) (granted : Bool) where
  bdk_entry_activated-IsCoherent :
      (self : BasicPage)
      → IfReturns (IsCoherent dukpt) (bdk_entry_activated dukpt isprint atoi granted self)
  unfolding bdk_entry_activated
  bdk_entry_activated-IsCoherent self =
      IfReturns-bind (strbin self.bdk_entry dukpt.sizeof_key) _ (λ (converted, written) _.
        reload_decryption-IsCoherent dukpt isprint atoi granted _ (nothing_set refl refl))

  key_type_updated-IsCoherent :
      (self : BasicPage)
      → IsCoherent dukpt self
      → IfReturns (IsCoherent dukpt) (key_type_updated dukpt isprint atoi granted self)
  unfolding key_type_updated
  key_type_updated-IsCoherent self v = IfReturns-option self.key_variant _ _ no_value_aborted (λ id.
      IfReturns-option (key_type_of id) _ _ no_value_aborted (λ key_type.
        reload_decryption-IsCoherent dukpt isprint atoi granted _
          (record { initial_key = v.initial_key; key = λ h. (cc) })))

  assigned_to_swipe-IsCoherent :
      (self : BasicPage)
      → IsCoherent dukpt self
      → IfReturns (IsCoherent dukpt) (assigned_to_swipe dukpt isprint atoi granted self)
  unfolding assigned_to_swipe
  assigned_to_swipe-IsCoherent self v =
      IfReturns-if self.next_ksn_set _ _
        (λ _. reload_decryption_key-IsCoherent dukpt isprint atoi granted _ (nothing_set refl refl))
        (λ _. value v)

  dukpt_ksn_and_counter_updated-IsCoherent :
      (self : BasicPage) (text : Bytes)
      → IsCoherent dukpt self
      → IfReturns
          (IsCoherent dukpt)
          (dukpt_ksn_and_counter_updated dukpt isprint atoi granted self text)
  unfolding dukpt_ksn_and_counter_updated
  dukpt_ksn_and_counter_updated-IsCoherent self text v =
      IfReturns-bind (strbin text dukpt.sizeof_ksn) _ (λ (converted, written) _.
        let next = memcpy self.next_ksn 0 written in
        IfReturns-if (is_count converted dukpt.sizeof_ksn) _ _
          (λ _.
            IfReturns-map (strhex granted next dukpt.sizeof_ksn (some (b':' ∷ [])))
              (λ _. record self { next_ksn = next; next_ksn_set = true })
              (λ _. record { initial_key = v.initial_key; key = v.key }))
          (λ _. value (record { initial_key = v.initial_key; key = v.key })))

  masked-IsCoherent :
      (self : BasicPage) (n : ℕ) (converted : Ssize) (bin : Bytes)
      → IsCoherent dukpt self
      → IfReturns (IsCoherent dukpt) (show_masked dukpt isprint atoi granted self n converted bin)
  unfolding show_masked
  masked-IsCoherent self n (minus error) bin v = value v
  masked-IsCoherent self n (count size) bin v =
      IfReturns-map (strascii isprint granted bin size)
        (λ text. put_track self n (record (self.tracks n) { masked = c_string text }))
        (λ text. put_track-IsCoherent dukpt isprint atoi granted self n _ v)

  masked_data_updated-IsCoherent :
      (self : BasicPage) (n : ℕ) (text : Bytes)
      → IsCoherent dukpt self
      → IfReturns (IsCoherent dukpt) (masked_data_updated dukpt isprint atoi granted self n text)
  unfolding masked_data_updated
  masked_data_updated-IsCoherent self n text v =
      IfReturns-bind (strbin text (1 + length text / 2)) _
        (λ (converted, bin) _. masked-IsCoherent self n converted bin v)

  swipe_finished-IsCoherent :
      (self : BasicPage)
      → IsCoherent dukpt self
      → IfReturns (IsCoherent dukpt) (
          assigned_to_swipe dukpt isprint atoi granted self
          >>= reload_decryption dukpt isprint atoi granted)
  swipe_finished-IsCoherent self v =
      IfReturns-then _ (assigned_to_swipe-IsCoherent self v)
        (λ assigned w. reload_decryption-IsCoherent dukpt isprint atoi granted assigned w)

  -- a function that follows the pointer to the text of an item
  with_value-IsCoherent :
      (text : Option Bytes) (f : Bytes → Run BasicPage)
      → ((bytes : Bytes) → IfReturns (IsCoherent dukpt) (f bytes))
      → IfReturns (IsCoherent dukpt) (value_at text >>= f)
  with_value-IsCoherent none f holds = no_value_fault
  with_value-IsCoherent (some bytes) f holds = holds bytes

  report_item-IsCoherent :
      (self : BasicPage) (item : Item) (text : Option Bytes)
      → IsCoherent dukpt self
      → IfReturns (IsCoherent dukpt) (report_item dukpt isprint atoi granted self item text)
  unfolding report_item
  report_item-IsCoherent self status text v =
      value (record { initial_key = v.initial_key; key = v.key })
  report_item-IsCoherent self status_error text v =
      value (record { initial_key = v.initial_key; key = v.key })
  report_item-IsCoherent self (track_encrypted_data n) text v =
      value (put_track-IsCoherent dukpt isprint atoi granted self n _ v)
  report_item-IsCoherent self security_level text v =
      with_value-IsCoherent text _
        (λ bytes. value (record { initial_key = v.initial_key; key = v.key }))
  report_item-IsCoherent self dukpt_ksn_and_counter text v =
      with_value-IsCoherent text _ (λ bytes. dukpt_ksn_and_counter_updated-IsCoherent self bytes v)
  report_item-IsCoherent self swipe_started text v =
      value (record { initial_key = v.initial_key; key = v.key })
  report_item-IsCoherent self (track_masked_data n) text v =
      with_value-IsCoherent text _ (λ bytes. masked_data_updated-IsCoherent self n bytes v)
  report_item-IsCoherent self swipe_finished text v = swipe_finished-IsCoherent self v
  report_item-IsCoherent self item text v = value v

  perform-IsCoherent :
      (event : Event) (self : BasicPage)
      → IsCoherent dukpt self
      → IfReturns (IsCoherent dukpt) (perform dukpt isprint atoi granted event self)
  unfolding perform
  perform-IsCoherent (bdk_typed text) self v = bdk_entry_activated-IsCoherent _
  perform-IsCoherent (variant_chosen id) self v =
      key_type_updated-IsCoherent _ (record { initial_key = v.initial_key; key = v.key })
  perform-IsCoherent (switched on) self v =
      reload_decryption-IsCoherent dukpt isprint atoi granted _
        (record { initial_key = v.initial_key; key = v.key })
  perform-IsCoherent (reported item text) self v = report_item-IsCoherent self item text v
  perform-IsCoherent page_reset self v = value (record { initial_key = v.initial_key; key = v.key })

  perform_all-IsCoherent :
      (events : List Event) (self : BasicPage)
      → IsCoherent dukpt self
      → IfReturns (IsCoherent dukpt) (perform_all dukpt isprint atoi granted events self)
  unfolding perform_all
  perform_all-IsCoherent [] self v = value v
  perform_all-IsCoherent (event ∷ events) self v =
      IfReturns-then _ (perform-IsCoherent event self v)
        (λ self' w. perform_all-IsCoherent events self' w)

  mui_page_basic_new-IsCoherent :
      (widgets : Widgets)
      → IfReturns (IsCoherent dukpt) (mui_page_basic_new dukpt isprint atoi granted widgets)
  unfolding mui_page_basic_new
  mui_page_basic_new-IsCoherent widgets =
      IfReturns-then _ (bdk_entry_activated-IsCoherent (blank_page dukpt widgets))
        (λ keyed v. key_type_updated-IsCoherent keyed v)

  -- Whatever happens to the page from its making on, whenever it comes to rest: if a key for the
  -- decryption is marked as set, then a base key and a serial number are set, and it is the key of the
  -- chosen type for the initial key of these two.
  pub life-IsCoherent :
      (widgets : Widgets) (events : List Event)
      → IfReturns
          (λ page.
            page.decryption_key_set ≡ true
            → (page.bdk_set ≡ true)
              × (page.ksn_set ≡ true)
              × (page.decryption_key
                  ≡ dukpt.compute_key
                      (dukpt.compute_ipek page.bdk page.ksn)
                      page.ksn
                      page.key_type))
          (mui_page_basic_new dukpt isprint atoi granted widgets
            >>= perform_all dukpt isprint atoi granted events)
  life-IsCoherent widgets events =
      IfReturns-then _ (mui_page_basic_new-IsCoherent widgets) (λ made v.
        IfReturns-mono (perform_all-IsCoherent events made v) (λ page w has_key.
          let key = w.key has_key in
          let initial = w.initial_key key.0 in (initial.0, initial.1, cc (key.1, initial.2))))
