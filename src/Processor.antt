-- ===== src/Processor.antt =====
-- src/mccr-gtk/mui-processor.c: the object that owns a device and runs the operations on it, one after
-- another, in a thread of its own. What is emitted with the signal "report-item" is a list.
pub mod Texts
pub mod Properties
pub mod Swipe
pub mod Command
pub mod Queue
pub mod Sent
pub mod Order
pub mod Threads
pub mod Progress
pub mod Closed
pub mod Shown
use mccr.Prelude.{
  ℕ, ◌+◌, ◌-◌, ◌*◌, Bool, true, false, not, ◌&&◌, List, [], ◌∷◌, ◌++◌, Option, none, some, Run, ok,
  aborted, fault, ◌>>=◌, ◌>>◌, assert, if◌then◌else◌, length,
}
use mccr.Prelude.Bytes.{Bytes}
use mccr.Prelude.Text.{Text, Piece, literal, unsigned, is_empty}
use mccr.Hidapi.{Hidapi}
use mccr.Environment.{Environment}
use mccr.Hid.Usages.{Allocator, is_null}
use mccr.Status.{Status}
use mccr.Device.{Device, HidDeviceInfo, Contexts}
use mccr.Common.{text_of, strhex, strhex_length}

-- `MuiProcessorItem`, in the order of the source; a track has its number, 1 to 3.
pub data Item : Type 0 where
  status status_error manufacturer product software_id usb_sn device_sn magnesafe_version : Item
  supported_cards polling_interval max_packet_size : Item
  track_status : ℕ → Item
  iso_track_mask aamva_track_mask dukpt_ksn_and_counter reader_state antecedent : Item
  security_level encryption_counter magtek_update_token swipe_started card_encode_type : Item
  track_decode_status track_encrypted_data_length track_encrypted_data : ℕ → Item
  track_masked_data_length track_masked_data : ℕ → Item
  swipe_finished : Item

-- `MuiProcessorPrivate`, as far as the operations use it, with the contexts of the library and what
-- has been reported.
pub record Processor (D : Type 0) : Type 0 where
  pub path : Option Bytes
  pub device : Option (Device D)
  pub heap : Contexts
  -- the address of the next context
  pub fresh : ℕ
  -- requests for memory so far, or more
  pub calls : ℕ
  pub reported : List (Item × Option Text)
  -- the variable `val` of load_device_properties
  pub val : ℕ
  -- whether the loop of the thread runs
  pub runs : Bool

module _ {D : Type 0} where
  -- report_item
  abbrev pub report_item : Processor D → Item → Option Text → Processor D
  report_item self item value = record self { reported = self.reported ++ (item, value) ∷ [] }

  -- several calls of report_item
  abbrev pub report_items : Processor D → List (Item × Option Text) → Processor D
  report_items self [] = self
  report_items self ((item, value) ∷ rest) = report_items (report_item self item value) rest

  -- the state after a command, which asks for memory three times at most
  abbrev pub with_device : Processor D → Device D → Processor D
  with_device self device = record self { device = some device; calls = self.calls + 3 }

  -- the memory that is granted from now on
  abbrev pub grants_from : Environment D → Processor D → Allocator
  grants_from env self n = env.grants (self.calls + n)

  -- a pointer to the device that a function of the library follows
  abbrev pub device_at : Processor D → Run (Device D)
  device_at self = elim self.device [ none ↦ fault | some device ↦ ok device ]

-- mui_processor_new: the device is made by the operation that starts the processor
abbrev pub mui_processor_new : {D : Type 0} → Option Bytes → Contexts → ℕ → Processor D
mui_processor_new path heap fresh = record {
  path = path;
  device = none;
  heap = heap;
  fresh = fresh;
  calls = 0;
  reported = [];
  val = 0;
  runs = true;
}

-- mui_processot_item_to_string
abbrev pub item_to_string : Item → Text
item_to_string status = literal "status" ∷ []
item_to_string status_error = literal "status-error" ∷ []
item_to_string manufacturer = literal "manufacturer" ∷ []
item_to_string product = literal "product" ∷ []
item_to_string software_id = literal "software-id" ∷ []
item_to_string usb_sn = literal "usb-s/n" ∷ []
item_to_string device_sn = literal "device-s/n" ∷ []
item_to_string magnesafe_version = literal "magnesafe-version" ∷ []
item_to_string supported_cards = literal "supported-cards" ∷ []
item_to_string polling_interval = literal "polling-interval" ∷ []
item_to_string max_packet_size = literal "max-packet-size" ∷ []
item_to_string (track_status n) = literal "track-" ∷ unsigned n ∷ literal "-status" ∷ []
item_to_string iso_track_mask = literal "iso-track-mask" ∷ []
item_to_string aamva_track_mask = literal "aamva-track-mask" ∷ []
item_to_string dukpt_ksn_and_counter = literal "dukpt-ksn-and-counter" ∷ []
item_to_string reader_state = literal "reader-state" ∷ []
item_to_string antecedent = literal "antecedent" ∷ []
item_to_string security_level = literal "security-level" ∷ []
item_to_string encryption_counter = literal "encryption-counter" ∷ []
item_to_string magtek_update_token = literal "magtek-update-token" ∷ []
item_to_string swipe_started = literal "swipe-started" ∷ []
item_to_string card_encode_type = literal "card-encode-type" ∷ []
item_to_string (track_decode_status n) =
    literal "track-" ∷ unsigned n ∷ literal "-decode-status" ∷ []
item_to_string (track_encrypted_data_length n) =
    literal "track-" ∷ unsigned n ∷ literal "-encrypted-data-length" ∷ []
item_to_string (track_encrypted_data n) =
    literal "track-" ∷ unsigned n ∷ literal "-encrypted-data" ∷ []
item_to_string (track_masked_data_length n) =
    literal "track-" ∷ unsigned n ∷ literal "-masked-data-length" ∷ []
item_to_string (track_masked_data n) = literal "track-" ∷ unsigned n ∷ literal "-masked-data" ∷ []
item_to_string swipe_finished = literal "swipe-finished" ∷ []

abbrev pub n_a : Text
n_a = literal "n/a" ∷ []

-- `(str && str[0]) ? str : "n/a"`
abbrev pub shown : Option Text → Text
shown none = n_a
shown (some text) = if is_empty text then n_a else text

-- strhex, with the memory that it asks for
abbrev pub strhex_from : Allocator → ℕ → Bytes → ℕ → Option Bytes → Run Bytes
strhex_from grants calls mem size delimiter =
    strhex (grants calls (strhex_length size (text_of delimiter))) mem size delimiter
