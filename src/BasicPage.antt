-- ===== src/BasicPage.antt =====
-- src/mccr-gtk/mui-page-basic.c: the page that shows the data of a swipe, decrypted. A widget is what it
-- shows: the text of a label, whether it is visible, the state of a switch. Texts are without their NUL.
pub mod Events
pub mod Coherent
pub mod Life
pub mod Tracks
pub mod Decrypted
use Prim.Native.String.{String}
use mccr.Prelude.{
  ℕ, ◌+◌, ◌/◌, Bool, true, false, not, ◌||◌, [], ◌∷◌, Option, none, some, Run, ok, aborted, fault,
  ◌>>=◌, ◌==◌, if◌then◌else◌, length, replicate, memcpy,
}
use mccr.Prelude.Bytes.{Bytes, same_bytes}
use mccr.Prelude.Int.{ℤ, lt_int, is_int}
use mccr.Prelude.Text.{c_string, same_string}
use mccr.Common.{Ssize, count, minus, is_count, text_of, strhex, strbin, strascii}
use mccr.Dukpt.{
  Dukpt, KeyType, pin_encryption, mac_request, mac_response, data_request, data_response,
}
use mccr.Processor.{
  Item, status, status_error, security_level, dukpt_ksn_and_counter, swipe_started, swipe_finished,
  track_encrypted_data, track_masked_data,
}

-- The labels of a track: what the reader sent, and the three that are made from it.
pub record Track : Type 0 where
  pub original : Bytes
  pub dec_hex : Bytes
  pub ascii : Bytes
  pub masked : Bytes

-- `MuiPageBasicPrivate`
pub record BasicPage : Type 0 where
  pub footer_visible : Bool
  pub decryption_switch : Bool
  pub bdk_entry : Bytes
  -- whether the text of the entry is red
  pub bdk_is_red : Bool
  -- the id of the active entry of the box, if there is one
  pub key_variant : Option String
  pub status_text : Bytes
  pub status_visible : Bool
  pub error_text : Bytes
  pub error_visible : Bool
  -- the tracks 1 to 3
  pub tracks : ℕ → Track
  pub security_level : ℤ
  pub bdk : Bytes
  pub bdk_set : Bool
  pub ksn : Bytes
  pub ksn_set : Bool
  pub ipek : Bytes
  pub ipek_set : Bool
  pub key_type : KeyType
  pub decryption_key : Bytes
  pub decryption_key_set : Bool
  pub next_ksn : Bytes
  pub next_ksn_set : Bool

-- "n/a"
abbrev pub not_available : Bytes
not_available = b'n' ∷ b'/' ∷ b'a' ∷ []

abbrev pub put_track : BasicPage → ℕ → Track → BasicPage
put_track self n track = record self { tracks = λ m. if m == n then track else self.tracks m }

-- reset_all_track_decryption
abbrev pub reset_all_track_decryption : BasicPage → BasicPage
reset_all_track_decryption self = record self {
  tracks = λ n. record (self.tracks n) { dec_hex = not_available; ascii = not_available };
}

-- the type of key for the id of an entry of the box, if it is one of those that the code knows
abbrev pub key_type_of : String → Option KeyType
key_type_of id =
    if same_string id "pin"
    then some pin_encryption
    else if same_string id "mac-request"
    then some mac_request
    else if same_string id "mac-response"
    then some mac_response
    else if same_string id "data-request"
    then some data_request
    else if same_string id "data-response"
    then some data_response
    else none

-- The text of an item, where a function follows the pointer to it.
abbrev pub value_at : Option Bytes → Run Bytes
value_at none = fault
value_at (some value) = ok value

-- what the C library, libdukpt and the locale give, and whether memory for texts is granted
module _ (dukpt : Dukpt) (isprint : ℕ → Bool) (atoi : Bytes → ℤ) (granted : Bool) where
  -- security_level_updated
  unfoldable pub security_level_updated : BasicPage → Bytes → BasicPage
  security_level_updated self value =
      let level = atoi value in
      record self { security_level = level; footer_visible = not (lt_int level 3) }

  -- The memory of reload_decryption_key: the initial key, if it is not known yet.
  unfoldable pub with_ipek : BasicPage → Run BasicPage
  with_ipek self = if self.ipek_set then ok self else (do
    let ipek = dukpt.compute_ipek self.bdk self.ksn
    logged ← strhex granted ipek dukpt.sizeof_key (some (b':' ∷ []))
    ok (record self { ipek_set = true; ipek = ipek }))

  -- reload_decryption_key
  unfoldable pub reload_decryption_key : BasicPage → Run BasicPage
  unfolding with_ipek
  reload_decryption_key self =
      if self.decryption_key_set
      then ok self
      else if not self.ksn_set
      then ok self
      else if not self.bdk_set
      then ok self
      else (do
        self' ← with_ipek self
        let key = dukpt.compute_key self'.ipek self'.ksn self'.key_type
        logged ← strhex granted key dukpt.sizeof_key (some (b':' ∷ []))
        ok (record self' { decryption_key = key; decryption_key_set = true }))

  -- The end of reload_track_decryption: `size` bytes that are decrypted into a buffer of `buffer_size`.
  unfoldable pub show_decrypted : BasicPage → ℕ → Bytes → ℕ → ℕ → Run BasicPage
  show_decrypted self n input size buffer_size = do
    let output = memcpy (replicate buffer_size 0) 0 (dukpt.decrypt self.decryption_key input)
    hex ← strhex granted output size (some (b' ' ∷ []))
    text ← strascii isprint granted output size
    ok (put_track self n (record (self.tracks n) { dec_hex = c_string hex; ascii = c_string text }))

  -- The part of reload_track_decryption behind the call of strbin.
  unfoldable pub show_converted : BasicPage → ℕ → ℕ → Ssize → Bytes → Run BasicPage
  unfolding show_decrypted
  show_converted self n buffer_size (minus error) input = ok self
  show_converted self n buffer_size (count size) input =
      if is_int self.security_level 2 || not self.decryption_switch
      then (do
        text ← strascii isprint granted input size
        ok (
            put_track self n
              (record (self.tracks n) { dec_hex = not_available; ascii = c_string text })))
      else if not self.decryption_key_set
      then ok self
      else show_decrypted self n input size buffer_size

  -- reload_track_decryption
  unfoldable pub reload_track_decryption : BasicPage → ℕ → Run BasicPage
  unfolding show_converted
  reload_track_decryption self n =
      let original = (self.tracks n).original in
      let buffer_size = 1 + length original / 2 in
      if lt_int self.security_level 2
      then ok self
      else if same_bytes original not_available
      then ok self
      else (do
        (converted, input) ← strbin original buffer_size
        show_converted self n buffer_size converted input)

  -- reload_decryption, which is also what follows a change of the switch
  unfoldable pub reload_decryption : BasicPage → Run BasicPage
  reload_decryption self = do
    keyed ← reload_decryption_key self
    first ← reload_track_decryption keyed 1
    second ← reload_track_decryption first 2
    reload_track_decryption second 3

  -- bdk_entry_activated, with the text that the entry has
  unfoldable pub bdk_entry_activated : BasicPage → Run BasicPage
  bdk_entry_activated self = do
    (converted, written) ← strbin self.bdk_entry dukpt.sizeof_key
    let complete = is_count converted dukpt.sizeof_key
    reload_decryption (record (reset_all_track_decryption self) {
      bdk = memcpy self.bdk 0 written;
      bdk_set = complete;
      bdk_is_red = not complete;
      ipek_set = false;
      decryption_key_set = false;
    })

  -- key_type_updated
  unfoldable pub key_type_updated : BasicPage → Run BasicPage
  key_type_updated self = elim self.key_variant [
    | none ↦ aborted
    | some id ↦ elim (key_type_of id) [
      | none ↦ aborted
      | some key_type ↦
          reload_decryption (record self { decryption_key_set = false; key_type = key_type })
    ]
  ]

  -- dukpt_ksn_and_counter_updated
  unfoldable pub dukpt_ksn_and_counter_updated : BasicPage → Bytes → Run BasicPage
  dukpt_ksn_and_counter_updated self value = do
    (converted, written) ← strbin value dukpt.sizeof_ksn
    let next = memcpy self.next_ksn 0 written
    let complete = is_count converted dukpt.sizeof_ksn
    if complete
        then (do
          logged ← strhex granted next dukpt.sizeof_ksn (some (b':' ∷ []))
          ok (record self { next_ksn = next; next_ksn_set = true }))
        else ok (record self { next_ksn = next; next_ksn_set = false })

  -- dukpt_ksn_and_counter_assigned_to_swipe
  unfoldable pub assigned_to_swipe : BasicPage → Run BasicPage
  assigned_to_swipe self =
      if self.next_ksn_set
      then reload_decryption_key (record (reset_all_track_decryption self) {
        ksn = self.next_ksn;
        ksn_set = true;
        next_ksn_set = false;
        ipek_set = false;
        decryption_key_set = false;
      })
      else ok self

  -- The part of masked_data_updated behind the call of strbin.
  unfoldable pub show_masked : BasicPage → ℕ → Ssize → Bytes → Run BasicPage
  show_masked self n (minus error) bin = ok self
  show_masked self n (count size) bin = do
    text ← strascii isprint granted bin size
    ok (put_track self n (record (self.tracks n) { masked = c_string text }))

  -- masked_data_updated
  unfoldable pub masked_data_updated : BasicPage → ℕ → Bytes → Run BasicPage
  unfolding show_masked
  masked_data_updated self n value = do
    (converted, bin) ← strbin value (1 + length value / 2)
    show_masked self n converted bin

  -- report_item: the label of the item if it has one, and then what the item asks for
  unfoldable pub report_item : BasicPage → Item → Option Bytes → Run BasicPage
  unfolding security_level_updated
  report_item self status value =
      ok (record self { status_text = text_of value; error_visible = false; status_visible = true })
  report_item self status_error value =
      ok (record self { error_text = text_of value; status_visible = false; error_visible = true })
  report_item self (track_encrypted_data n) value =
      ok (put_track self n (record (self.tracks n) { original = text_of value }))
  report_item self security_level value = do
    text ← value_at value
    ok (security_level_updated self text)
  report_item self dukpt_ksn_and_counter value = do
    text ← value_at value
    dukpt_ksn_and_counter_updated self text
  report_item self swipe_started value = ok (reset_all_track_decryption self)
  report_item self (track_masked_data n) value = do
    text ← value_at value
    masked_data_updated self n text
  report_item self swipe_finished value = do
    assigned ← assigned_to_swipe self
    reload_decryption assigned
  report_item self item value = ok self

-- "Initializing..."
abbrev pub initializing : Bytes
initializing =
    b'I' ∷ b'n' ∷ b'i' ∷ b't' ∷ b'i' ∷ b'a' ∷ b'l' ∷ b'i' ∷ b'z' ∷ b'i' ∷ b'n' ∷ b'g' ∷ b'.' ∷ b'.'
    ∷ b'.' ∷ []

-- reset
abbrev pub reset_page : BasicPage → BasicPage
reset_page self = record self {
  tracks = λ n. record {
    original = not_available;
    dec_hex = not_available;
    ascii = not_available;
    masked = not_available;
  };
  error_text = not_available;
  error_visible = false;
  status_text = initializing;
  status_visible = true;
}
