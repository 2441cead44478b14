-- ===== src/BasicPage/Events.antt =====
-- The life of the page of src/mccr-gtk/mui-page-basic.c: its making, and what happens to it.
use Prim.Native.String.{String}
use mccr.Prelude.{ℕ, Bool, false, List, [], ◌∷◌, Option, Run, ok, ◌>>=◌, replicate}
use mccr.Prelude.Bytes.{Bytes}
use mccr.Prelude.Int.{ℤ, pos}
use mccr.Dukpt.{Dukpt, pin_encryption}
use mccr.Processor.{Item}
use mccr.BasicPage.{
  BasicPage, reload_decryption, bdk_entry_activated, key_type_updated, report_item, reset_page,
}

-- What the description of the window gives the widgets.
pub record Widgets : Type 0 where
  pub bdk_entry : Bytes
  pub decryption_switch : Bool
  pub key_variant : Option String
  pub label : Bytes

-- the page when its widgets have been looked up; its memory is all zeroes
abbrev pub blank_page : Dukpt → Widgets → BasicPage
blank_page dukpt widgets = record {
  footer_visible = false;
  decryption_switch = widgets.decryption_switch;
  bdk_entry = widgets.bdk_entry;
  bdk_is_red = false;
  key_variant = widgets.key_variant;
  status_text = widgets.label;
  status_visible = false;
  error_text = widgets.label;
  error_visible = false;
  tracks = λ n. record {
    original = widgets.label;
    dec_hex = widgets.label;
    ascii = widgets.label;
    masked = widgets.label;
  };
  security_level = pos 0;
  bdk = replicate dukpt.sizeof_key 0;
  bdk_set = false;
  ksn = replicate dukpt.sizeof_ksn 0;
  ksn_set = false;
  ipek = replicate dukpt.sizeof_key 0;
  ipek_set = false;
  key_type = pin_encryption;
  decryption_key = replicate dukpt.sizeof_key 0;
  decryption_key_set = false;
  next_ksn = replicate dukpt.sizeof_ksn 0;
  next_ksn_set = false;
}

-- What reaches the page: the user types a key, chooses a type of key or switches the decryption, the
-- processor reports an item, or the window resets its pages.
pub data Event : Type 0 where
  bdk_typed : Bytes → Event
  variant_chosen : Option String → Event
  switched : Bool → Event
  reported : Item → Option Bytes → Event
  page_reset : Event

module _ (dukpt : Dukpt) (isprint : ℕ → Bool) (atoi : Bytes → ℤ) (granted : Bool) where
  -- mui_page_basic_new
  unfoldable pub mui_page_basic_new : Widgets → Run BasicPage
  mui_page_basic_new widgets = do
    keyed ← bdk_entry_activated dukpt isprint atoi granted (blank_page dukpt widgets)
    key_type_updated dukpt isprint atoi granted keyed

  -- the callback of an event
  unfoldable pub perform : Event → BasicPage → Run BasicPage
  perform (bdk_typed text) self =
      bdk_entry_activated dukpt isprint atoi granted (record self { bdk_entry = text })
  perform (variant_chosen id) self =
      key_type_updated dukpt isprint atoi granted (record self { key_variant = id })
  perform (switched on) self =
      reload_decryption dukpt isprint atoi granted (record self { decryption_switch = on })
  perform (reported item value) self = report_item dukpt isprint atoi granted self item value
  perform page_reset self = ok (reset_page self)

  unfoldable pub perform_all : List Event → BasicPage → Run BasicPage
  perform_all [] self = ok self
  perform_all (event ∷ events) self = do self' ← perform event self; perform_all events self'
