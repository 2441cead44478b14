-- ===== src/RemotePage/Settings/Stored.antt =====
-- What the entries of src/mccr-gtk/mui-page-remote-services.c say reaches the settings file.
use Prim.Native.String.{String}
use mccr.Prelude.{
  ℕ, ◌<◌, ◌≡◌, refl, sym, subst, ap, ◌∙◌, Bool, true, false, List, [], ◌∷◌, Option, some, ◌==◌,
  if◌then◌else◌, arith,
}
use mccr.Prelude.Bytes.{Bytes}
use mccr.RemotePage.{SettingsField}
use mccr.RemotePage.Settings.{
  Loaded, loaded, no_file, load_failed, KeyFiles, key_of, group_of, all_fields, Settings, without,
  Change, typed, elapsed, store_fields, save_updates, store_settings, settings_store_cb,
  settings_entry_activated, set_defaults, load_fields, load_by, load_settings, new_settings, fire,
  change, changes, set_entry,
}
use mccr.RemotePage.Settings.Fields.{
  IsKeyFiles, Has, HasAll-Has, store_fields-HasAll, store_fields_unchanged, load_by-entries,
  load_fields-HasAll, load_fields-left_alone,
}

-- behind the first timer, where one runs at most
only_timer :
    (id timer : ℕ) (timers : List ℕ)
    → timer ∷ timers ≡ (if id == 0 then [] else id ∷ [])
    → timers ≡ []
only_timer id timer timers one = behind (id == 0) one
  where
    rest_of : List ℕ → List ℕ
    rest_of [] = []
    rest_of (t ∷ ts) = ts

    behind : (rests : Bool) → timer ∷ timers ≡ (if rests then [] else id ∷ []) → timers ≡ []
    behind true e = cc (e)
    behind false e = ap rest_of e

no_timer : (id : ℕ) → [] ≡ (if id == 0 then [] else id ∷ []) → id ≡ 0
no_timer id e = none_kept (id == 0) refl e
  where
    none_kept : (rests : Bool) → (id == 0) ≡ rests → [] ≡ (if rests then [] else id ∷ []) → id ≡ 0
    none_kept true is e = ground (arith, is)
    none_kept false is e = cc (e)

-- A change adds a timer, in place of the one that runs.
new_timer :
    (id next : ℕ) (timers : List ℕ)
    → timers ≡ (if id == 0 then [] else id ∷ [])
    → 0 < next
    → next ∷ (if id == 0 then timers else without id timers) ≡ (if next == 0 then [] else next ∷ [])
new_timer id next timers are more =
    let used : (next == 0) ≡ false = ground (arith, more) in
    let same : (id == id) ≡ true = ground arith in
    rw used (ap (λ (ts : List ℕ). next ∷ ts) (alone (id == 0) are same))
  where
    alone :
        (rests : Bool)
        → timers ≡ (if rests then [] else id ∷ [])
        → (id == id) ≡ true
        → (if rests then timers else without id timers) ≡ []
    alone true e same = e
    alone false e same = rw (e, same) refl

module _ {F Disk : Type 0} (files : KeyFiles F Disk) (laws : IsKeyFiles files) where
  -- A key file that is loaded from the disk, and has what another one has.
  abbrev OnDisk : Disk → F → Type 0
  OnDisk disk file =
      (again : F) × (files.load disk files.new ≡ loaded again)
      × ((group key : String) → files.get_string again group key ≡ files.get_string file group key)

  -- The page has a key file, which is on the disk; while no timer runs it has what the entries say; and no
  -- other timer runs than the one whose id is kept.
  record IsStored (self : Settings F Disk) : Type 0 where
    file : F
    has_file : self.settings ≡ some file
    has_path : self.has_path ≡ true
    on_disk : OnDisk self.disk file
    timers_are : self.timers ≡ (if self.store_id == 0 then [] else self.store_id ∷ [])
    next_is : 0 < self.next_id
    says : self.store_id ≡ 0 → (f : SettingsField) → Has files laws self.entries file f

  -- A page whose settings are to be a key file.
  record IsReady (self : Settings F Disk) (file : F) : Type 0 where
    path : self.has_path ≡ true
    timers : self.timers ≡ (if self.store_id == 0 then [] else self.store_id ∷ [])
    next : 0 < self.next_id
    says : self.store_id ≡ 0 → (f : SettingsField) → Has files laws self.entries file f

  kept-IsStored :
      (self : Settings F Disk) (file : F)
      → IsReady self file
      → OnDisk self.disk file
      → IsStored (record self { settings = some file })
  kept-IsStored self file v on_disk = record {
    file = file;
    has_file = refl;
    has_path = v.path;
    on_disk = on_disk;
    timers_are = v.timers;
    next_is = v.next;
    says = v.says;
  }

  saved-IsStored :
      (self : Settings F Disk) (file : F)
      → IsReady self file
      → IsStored (record self { settings = some file; disk = (files.save self.disk file).1 })
  saved-IsStored self file v = record {
    file = file;
    has_file = refl;
    has_path = v.path;
    on_disk = laws.load_saved self.disk file;
    timers_are = v.timers;
    next_is = v.next;
    says = v.says;
  }

  if-IsStored :
      (b : Bool) (saved kept : Settings F Disk)
      → (b ≡ true → IsStored saved)
      → (b ≡ false → IsStored kept)
      → IsStored (if b then saved else kept)
  if-IsStored true saved kept v w = v refl
  if-IsStored false saved kept v w = w refl

  save_updates-IsStored :
      (self : Settings F Disk) (file : F) (updated : F × ℕ)
      → OnDisk self.disk file
      → (updated.1 ≡ 0 → updated.0 ≡ file)
      → IsReady self updated.0
      → IsStored (save_updates files self updated)
  save_updates-IsStored self file updated on_disk same ready =
      if-IsStored (updated.1 == 0) _ _
        (λ none_updated.
          kept-IsStored self updated.0 ready
            (subst (OnDisk self.disk) (sym (same (ground (arith, none_updated)))) on_disk))
        (λ _. saved-IsStored self updated.0 ready)

  fire-IsStored :
      (self : Settings F Disk) (timers : List ℕ)
      → self.timers ≡ timers
      → IsStored self
      → IsStored (fire files self timers)
  unfolding fire settings_store_cb store_settings
  fire-IsStored self [] are v = v
  fire-IsStored self (timer ∷ timers) are v =
      rw (v.has_path, v.has_file)
        (save_updates-IsStored (record self { timers = timers; store_id = 0 }) v.file
          (store_fields files self.entries v.file all_fields) v.on_disk
          (store_fields_unchanged files laws self.entries v.file all_fields)
          (record {
            path = v.has_path;
            timers = only_timer self.store_id timer timers (sym are ∙ v.timers_are);
            next = v.next_is;
            says = λ rests.
                HasAll-Has files laws self.entries
                  (store_fields files self.entries v.file all_fields).0
                  (store_fields-HasAll files laws self.entries v.file all_fields);
          }))

  typed-IsStored :
      (self : Settings F Disk) (field : SettingsField) (text : Bytes)
      → IsStored self
      → IsStored (settings_entry_activated files (set_entry files self field text))
  unfolding settings_entry_activated
  typed-IsStored self field text v = record {
    file = v.file;
    has_file = v.has_file;
    has_path = v.has_path;
    on_disk = v.on_disk;
    timers_are = new_timer self.store_id self.next_id self.timers v.timers_are v.next_is;
    next_is = omega (arith, v.next_is);
    says = λ rests. absurd (omega (arith, v.next_is, rests));
  }

  changes-IsStored :
      (self : Settings F Disk) (events : List Change)
      → IsStored self
      → IsStored (changes files self events)
  unfolding changes change
  changes-IsStored self [] v = v
  changes-IsStored self (typed field text ∷ events) v =
      changes-IsStored (settings_entry_activated files (set_entry files self field text)) events
        (typed-IsStored self field text v)
  changes-IsStored self (elapsed ∷ events) v =
      changes-IsStored (fire files self self.timers) events (fire-IsStored self self.timers refl v)

  -- The page after the loop of load_settings.
  load_fields-IsReady :
      (self : Settings F Disk) (file : F)
      → self.has_path ≡ true
      → self.timers ≡ []
      → self.store_id ≡ 0
      → 0 < self.next_id
      → IsReady
          (load_fields files self file all_fields).0
          (load_fields files self file all_fields).1
  load_fields-IsReady self file path timers id next =
      let rest = (load_fields-left_alone files laws self file all_fields).0 in
      let result = load_fields files self file all_fields in
      let no_id : result.0.store_id ≡ 0 =
        ap (λ (r : Option F × Bool × ℕ × List ℕ × ℕ × Disk). r.2) rest ∙ id in
      record {
        path = ap (λ (r : Option F × Bool × ℕ × List ℕ × ℕ × Disk). r.1) rest ∙ path;
        timers = rw no_id (ap (λ (r : Option F × Bool × ℕ × List ℕ × ℕ × Disk). r.3) rest ∙ timers);
        next =
            subst (λ n. 0 < n)
              (sym (ap (λ (r : Option F × Bool × ℕ × List ℕ × ℕ × Disk). r.4) rest)) next;
        says = λ _.
            HasAll-Has files laws result.0.entries result.1
              (load_fields-HasAll files laws self file all_fields);
      }

  -- The file is there and is a key file, or it is not there.
  abbrev Reads : Loaded F → Type 0
  Reads (load_failed file) = ⊥
  Reads result = Unit

  load_by-IsStored :
      (self : Settings F Disk) (before : F) (result : Loaded F)
      → Reads result
      → files.load self.disk files.new ≡ result
      → self.has_path ≡ true
      → self.timers ≡ []
      → self.store_id ≡ 0
      → 0 < self.next_id
      → IsStored (load_by files self before result)
  unfolding load_by
  load_by-IsStored self before (loaded file) reads is path timers id next =
      let result = load_fields files self file all_fields in
      let ready = load_fields-IsReady self file path timers id next in
      let rest = load_fields-left_alone files laws self file all_fields in
      if-IsStored result.2 _ _ (λ _. saved-IsStored result.0 result.1 ready)
        (λ kept. kept-IsStored result.0 result.1 ready (
          rw (ap (λ (r : Option F × Bool × ℕ × List ℕ × ℕ × Disk). r.5) rest.0, rest.1 kept)
            (file, is, λ group key. refl)))
  load_by-IsStored self before no_file reads is path timers id next =
      let defaults = set_defaults files before all_fields in
      let result = load_fields files self defaults all_fields in
      saved-IsStored result.0 result.1 (load_fields-IsReady self defaults path timers id next)
  load_by-IsStored self before (load_failed file) reads is path timers id next = absurd reads

  -- a page that is made on a disk, after some changes
  abbrev used : (SettingsField → Bytes) → Disk → List Change → Settings F Disk
  used widgets disk events =
      changes files (load_settings files (new_settings files widgets disk)) events

  -- With GKeyFile as it is documented and a disk that can be written to: a page is made where the settings
  -- file is not there or is a key file, and its entries are changed. Once no timer is left, a page that is
  -- made on this disk has in its entries what the first page has.
  pub load_settings-entries :
      (widgets widgets' : SettingsField → Bytes) (disk : Disk) (events : List Change)
      → Reads (files.load disk files.new)
      → (used widgets disk events).timers ≡ []
      → (f : SettingsField)
      → (load_settings files (new_settings files widgets' (used widgets disk events).disk)).entries
          f
        ≡ (used widgets disk events).entries f
  unfolding load_settings
  load_settings-entries widgets widgets' disk events reads none_left f =
      let page = new_settings files widgets disk in
      let v = changes-IsStored (load_settings files page) events (
        load_by-IsStored (record page { has_path = true }) files.new (files.load disk files.new)
          reads refl refl refl refl (omega arith)) in
      let (again, loads, same) = v.on_disk in
      let says =
        v.says (no_timer (used widgets disk events).store_id (sym none_left ∙ v.timers_are)) in
      rw loads (
        load_by-entries files laws _ again files.new (used widgets disk events).entries
          (λ g. same (group_of g) (key_of g) ∙ says g) f)
