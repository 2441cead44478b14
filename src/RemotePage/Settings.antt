-- ===== src/RemotePage/Settings.antt =====
-- The settings file of src/mccr-gtk/mui-page-remote-services.c: what the entries say is stored a while
-- after a change, and loaded when the page is made.
pub mod Fields
pub mod Stored
use Prim.Native.String.{String}
use mccr.Prelude.{
  ℕ, zero, suc, ◌+◌, Bool, true, false, not, ◌&&◌, ◌||◌, List, [], ◌∷◌, Option, none, some, ◌==◌,
  if◌then◌else◌,
}
use mccr.Prelude.Bytes.{Bytes}
use mccr.RemotePage.{
  SettingsField, url, customer_code, username, password, billing_label, customer_trid,
}
use mccr.RemotePage.Keys.{is_named}

-- What reading a file into a key file comes to: with an error other than that there is no file, the key
-- file is what had been read.
pub data Loaded (F : Type 0) : Type 0 where
  loaded : F → Loaded F
  no_file : Loaded F
  load_failed : F → Loaded F

-- What the page uses of GKeyFile and of the disk, which says whether a write succeeds.
pub record KeyFiles (F Disk : Type 0) : Type 0 where
  pub new : F
  pub get_string : F → String → String → Option Bytes
  pub set_string : F → String → String → Bytes → F
  pub load : Disk → F → Loaded F
  pub save : Disk → F → Bool × Disk

-- `settings_fields`
abbrev pub group_of : SettingsField → String
group_of field = "remote-service"

abbrev pub key_of : SettingsField → String
key_of url = "url"
key_of customer_code = "customer-code"
key_of username = "username"
key_of password = "password"
key_of billing_label = "billing-label"
key_of customer_trid = "customer-transaction-id"

-- "https://...", and nothing for the others
abbrev pub default_of : SettingsField → Bytes
default_of url = b'h' ∷ b't' ∷ b't' ∷ b'p' ∷ b's' ∷ b':' ∷ b'/' ∷ b'/' ∷ b'.' ∷ b'.' ∷ b'.' ∷ []
default_of field = []

abbrev pub all_fields : List SettingsField
all_fields = url ∷ customer_code ∷ username ∷ password ∷ billing_label ∷ customer_trid ∷ []

abbrev pub same_field : SettingsField → SettingsField → Bool
same_field url url = true
same_field customer_code customer_code = true
same_field username username = true
same_field password password = true
same_field billing_label billing_label = true
same_field customer_trid customer_trid = true
same_field field other = false

-- The part of `MuiPageRemoteServicesPrivate` for the settings, with the timers of the main loop and the disk.
pub record Settings (F Disk : Type 0) : Type 0 where
  pub entries : SettingsField → Bytes
  pub settings : Option F
  pub has_path : Bool
  pub store_id : ℕ
  pub timers : List ℕ
  -- the id of the timer that is added next
  pub next_id : ℕ
  pub disk : Disk

abbrev pub without : ℕ → List ℕ → List ℕ
without id [] = []
without id (timer ∷ timers) = if timer == id then timers else timer ∷ without id timers

-- The user types into an entry, or the time of a timer has passed.
pub data Change : Type 0 where
  typed : SettingsField → Bytes → Change
  elapsed : Change

module _ {F Disk : Type 0} (files : KeyFiles F Disk) where
  abbrev pub get_field : F → SettingsField → Option Bytes
  get_field file field = files.get_string file (group_of field) (key_of field)

  abbrev pub set_field : F → SettingsField → Bytes → F
  set_field file field text = files.set_string file (group_of field) (key_of field) text

  -- one round of store_settings: the file, and the number of updates
  unfoldable pub store_field : (SettingsField → Bytes) → F → SettingsField → F × ℕ
  store_field entries file field =
      if not (is_named (get_field file field) (entries field))
      then (set_field file field (entries field), 1)
      else (file, 0)

  unfoldable pub store_fields : (SettingsField → Bytes) → F → List SettingsField → F × ℕ
  store_fields entries file [] = (file, 0)
  store_fields entries file (field ∷ fields) =
      let once = store_field entries file field in
      let rest = store_fields entries once.0 fields in (rest.0, once.1 + rest.1)

  -- the end of store_settings
  abbrev pub save_updates : Settings F Disk → F × ℕ → Settings F Disk
  save_updates self updated =
      if updated.1 == 0
      then record self { settings = some updated.0 }
      else record self { settings = some updated.0; disk = (files.save self.disk updated.0).1 }

  -- store_settings
  unfoldable pub store_settings : Settings F Disk → Settings F Disk
  store_settings self = if not self.has_path then self else (elim self.settings [
    | none ↦ self
    | some file ↦ save_updates self (store_fields self.entries file all_fields)
  ])

  -- settings_store_cb, which is the end of its timer
  unfoldable pub settings_store_cb : Settings F Disk → Settings F Disk
  settings_store_cb self = store_settings (record self { store_id = 0 })

  -- settings_entry_activated
  unfoldable pub settings_entry_activated : Settings F Disk → Settings F Disk
  settings_entry_activated self =
      let timers = if self.store_id == 0 then self.timers else without self.store_id self.timers in
      record self {
        timers = self.next_id ∷ timers;
        store_id = self.next_id;
        next_id = self.next_id + 1;
      }

  -- set_defaults: the loop of load_settings where there is no file
  unfoldable pub set_defaults : F → List SettingsField → F
  set_defaults file [] = file
  set_defaults file (field ∷ fields) = set_defaults (set_field file field (default_of field)) fields

  abbrev pub set_entry : Settings F Disk → SettingsField → Bytes → Settings F Disk
  set_entry self field text = record self {
    entries = λ other. if same_field other field then text else self.entries other;
  }

  -- a round of the loop of load_settings: a setting without a value is set to its default
  abbrev pub load_field :
      Settings F Disk → F → SettingsField → Option Bytes → Settings F Disk × F × Bool
  load_field self file field none =
      (set_entry self field (default_of field), set_field file field (default_of field), true)
  load_field self file field (some text) = (set_entry self field text, file, false)

  unfoldable pub load_fields : Settings F Disk → F → List SettingsField → Settings F Disk × F × Bool
  load_fields self file [] = (self, file, false)
  load_fields self file (field ∷ fields) =
      let once = load_field self file field (get_field file field) in
      let rest = load_fields once.0 once.1 fields in (rest.0, rest.1, once.2 || rest.2)

  -- the end of load_settings, behind the loop
  abbrev pub save_loaded : Bool → Settings F Disk × F × Bool → Settings F Disk
  save_loaded needs_store result =
      if needs_store || result.2
      then record (result.0) {
        settings = some result.1;
        disk = (files.save result.0.disk result.1).1;
      }
      else record (result.0) { settings = some result.1 }

  -- load_settings, by what the file comes to
  unfoldable pub load_by : Settings F Disk → F → Loaded F → Settings F Disk
  load_by self before (loaded file) = save_loaded false (load_fields self file all_fields)
  load_by self before no_file =
      save_loaded true (load_fields self (set_defaults before all_fields) all_fields)
  load_by self before (load_failed file) = record self { settings = some file }

  abbrev pub opened : Option F → F
  opened none = files.new
  opened (some file) = file

  -- load_settings
  unfoldable pub load_settings : Settings F Disk → Settings F Disk
  load_settings self =
      let before = opened self.settings in
      load_by (record self { has_path = true }) before (files.load self.disk before)

  -- a page that is new, on a disk
  abbrev pub new_settings : (SettingsField → Bytes) → Disk → Settings F Disk
  new_settings entries disk = record {
    entries = entries;
    settings = none;
    has_path = false;
    store_id = 0;
    timers = [];
    next_id = 1;
    disk = disk;
  }

  -- the callback of the first timer, if there is one
  unfoldable pub fire : Settings F Disk → List ℕ → Settings F Disk
  fire self [] = self
  fire self (timer ∷ timers) = settings_store_cb (record self { timers = timers })

  unfoldable pub change : Settings F Disk → Change → Settings F Disk
  change self (typed field text) = settings_entry_activated (set_entry self field text)
  change self elapsed = fire self self.timers

  unfoldable pub changes : Settings F Disk → List Change → Settings F Disk
  changes self [] = self
  changes self (event ∷ events) = changes (change self event) events
