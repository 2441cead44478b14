-- ===== src/RemotePage/Settings/Fields.antt =====
-- The loops over the settings of src/mccr-gtk/mui-page-remote-services.c: every field is in the file behind
-- them.
use Prim.Native.String.{String}
use mccr.Prelude.{
  ℕ, ◌≡◌, refl, sym, subst, ap, ◌∙◌, Bool, true, false, not, ◌||◌, List, [], ◌∷◌, Option, none,
  some, if◌then◌else◌, arith, inl, inr, Bool-cases,
}
use mccr.Prelude.Bytes.{Bytes, same_bytes→eq}
use mccr.Prelude.Text.{same_string}
use mccr.RemotePage.{
  SettingsField, url, customer_code, username, password, billing_label, customer_trid,
}
use mccr.RemotePage.Keys.{is_named}
use mccr.RemotePage.Settings.{
  loaded, KeyFiles, key_of, group_of, all_fields, same_field, Settings, get_field, set_field,
  store_field, store_fields, load_field, load_fields, load_by, default_of,
}

-- The documented behaviour of GKeyFile, on a disk that can be written to: what is set is read again and
-- nothing else is changed, and what is saved is loaded again.
pub record IsKeyFiles {F Disk : Type 0} (files : KeyFiles F Disk) : Type 0 where
  pub get_set :
      (file : F) (group key : String) (text : Bytes)
      → files.get_string (files.set_string file group key text) group key ≡ some text
  pub get_set_other :
      (file : F) (group key other : String) (text : Bytes)
      → same_string other key ≡ false
      → files.get_string (files.set_string file group key text) group other
        ≡ files.get_string file group other
  pub load_saved :
      (disk : Disk) (file : F)
      → (again : F) × (files.load (files.save disk file).1 files.new ≡ loaded again)
        × ((group key : String)
            → files.get_string again group key ≡ files.get_string file group key)

-- Two fields are the same, or have different keys.
data Compared (f g : SettingsField) : Type 0 where
  equal : f ≡ g → same_field f g ≡ true → Compared f g
  differing : same_string (key_of f) (key_of g) ≡ false → same_field f g ≡ false → Compared f g

compared : (f g : SettingsField) → Compared f g
compared url url = equal refl refl
compared customer_code customer_code = equal refl refl
compared username username = equal refl refl
compared password password = equal refl refl
compared billing_label billing_label = equal refl refl
compared customer_trid customer_trid = equal refl refl
compared f g = differing refl refl

same_field_refl : (f : SettingsField) → same_field f f ≡ true
same_field_refl url = refl
same_field_refl customer_code = refl
same_field_refl username = refl
same_field_refl password = refl
same_field_refl billing_label = refl
same_field_refl customer_trid = refl

or_false : (a b : Bool) → (a || b) ≡ false → (a ≡ false) × (b ≡ false)
or_false false false e = (refl, refl)
or_false false true e = cc (e)
or_false true b e = cc (e)

module _ {F Disk : Type 0} (files : KeyFiles F Disk) (laws : IsKeyFiles files) where
  -- The file has what an entry says.
  abbrev pub Has : (SettingsField → Bytes) → F → SettingsField → Type 0
  Has entries file f = get_field files file f ≡ some (entries f)

  Has-set_field :
      (entries : SettingsField → Bytes) (file : F) (g f : SettingsField)
      → Has entries file f
      → Has entries (set_field files file g (entries g)) f
  Has-set_field entries file g f has = elim (compared f g) [
    | equal e same ↦
        subst (λ h. Has entries (set_field files file g (entries g)) h) (sym e)
          (laws.get_set file (group_of g) (key_of g) (entries g))
    | differing keys same ↦
        laws.get_set_other file (group_of g) (key_of g) (key_of f) (entries g) keys ∙ has
  ]

  is_named→eq : (text : Option Bytes) (name : Bytes) → is_named text name ≡ true → text ≡ some name
  is_named→eq none name h = cc (h)
  is_named→eq (some text) name h = ap some (same_bytes→eq text name h)

  store_field-keeps :
      (entries : SettingsField → Bytes) (file : F) (g f : SettingsField)
      → Has entries file f
      → Has entries (store_field files entries file g).0 f
  unfolding store_field
  store_field-keeps entries file g f has =
      elim (Bool-cases (is_named (get_field files file g) (entries g))) [
        | inl e ↦ rw e has
        | inr e ↦ rw e (Has-set_field entries file g f has)
      ]

  store_field-sets :
      (entries : SettingsField → Bytes) (file : F) (f : SettingsField)
      → Has entries (store_field files entries file f).0 f
  unfolding store_field
  store_field-sets entries file f =
      elim (Bool-cases (is_named (get_field files file f) (entries f))) [
        | inl e ↦ rw e (is_named→eq _ _ e)
        | inr e ↦ rw e (laws.get_set file (group_of f) (key_of f) (entries f))
      ]

  store_fields-keeps :
      (entries : SettingsField → Bytes) (file : F) (fields : List SettingsField) (f : SettingsField)
      → Has entries file f
      → Has entries (store_fields files entries file fields).0 f
  unfolding store_fields
  store_fields-keeps entries file [] f has = has
  store_fields-keeps entries file (g ∷ fields) f has =
      store_fields-keeps entries (store_field files entries file g).0 fields f
        (store_field-keeps entries file g f has)

  -- All of some fields are in the file.
  abbrev HasAll : (SettingsField → Bytes) → F → List SettingsField → Type 0
  HasAll entries file [] = Unit
  HasAll entries file (field ∷ fields) = Has entries file field × HasAll entries file fields

  pub HasAll-Has :
      (entries : SettingsField → Bytes) (file : F)
      → HasAll entries file all_fields
      → (f : SettingsField) → Has entries file f
  HasAll-Has entries file all url = all.0
  HasAll-Has entries file all customer_code = all.1.0
  HasAll-Has entries file all username = all.1.1.0
  HasAll-Has entries file all password = all.1.1.1.0
  HasAll-Has entries file all billing_label = all.1.1.1.1.0
  HasAll-Has entries file all customer_trid = all.1.1.1.1.1.0

  pub store_fields-HasAll :
      (entries : SettingsField → Bytes) (file : F) (fields : List SettingsField)
      → HasAll entries (store_fields files entries file fields).0 fields
  unfolding store_fields
  store_fields-HasAll entries file [] = tt
  store_fields-HasAll entries file (g ∷ fields) = (
    store_fields-keeps entries (store_field files entries file g).0 fields g
        (store_field-sets entries file g),
    store_fields-HasAll entries (store_field files entries file g).0 fields,
  )

  -- Without an update the file is as it was.
  abbrev chosen : F → F → Bool → F × ℕ
  chosen file updated has = if not has then (updated, 1) else (file, 0)

  settled :
      (file updated : F) (has : Bool)
      → (chosen file updated has).1 ≡ 0
      → (chosen file updated has).0 ≡ file
  settled file updated true none_updated = refl
  settled file updated false none_updated = cc (none_updated)

  store_field_unchanged :
      (entries : SettingsField → Bytes) (file : F) (g : SettingsField)
      → (store_field files entries file g).1 ≡ 0
      → (store_field files entries file g).0 ≡ file
  unfolding store_field
  store_field_unchanged entries file g none_updated =
      settled file (set_field files file g (entries g))
        (is_named (get_field files file g) (entries g)) none_updated

  pub store_fields_unchanged :
      (entries : SettingsField → Bytes) (file : F) (fields : List SettingsField)
      → (store_fields files entries file fields).1 ≡ 0
      → (store_fields files entries file fields).0 ≡ file
  unfolding store_fields
  store_fields_unchanged entries file [] none_updated = refl
  store_fields_unchanged entries file (g ∷ fields) none_updated =
      let once = store_field files entries file g in
      store_fields_unchanged entries once.0 fields (omega (arith, none_updated))
      ∙ store_field_unchanged entries file g (omega (arith, none_updated))

  -- every entry overwritten, the last one on top
  abbrev overwritten : (SettingsField → Bytes) → (SettingsField → Bytes) → SettingsField → Bytes
  overwritten entries before f =
      if same_field f customer_trid
      then entries customer_trid
      else if same_field f billing_label
      then entries billing_label
      else if same_field f password
      then entries password
      else if same_field f username
      then entries username
      else if same_field f customer_code
      then entries customer_code
      else if same_field f url
      then entries url
      else before f

  overwritten-same :
      (entries before : SettingsField → Bytes) (f : SettingsField)
      → overwritten entries before f ≡ entries f
  overwritten-same entries before url = refl
  overwritten-same entries before customer_code = refl
  overwritten-same entries before username = refl
  overwritten-same entries before password = refl
  overwritten-same entries before billing_label = refl
  overwritten-same entries before customer_trid = refl

  -- The entries of a page that has loaded a file are what the file says.
  pub load_by-entries :
      (self : Settings F Disk) (file before : F) (entries : SettingsField → Bytes)
      → ((f : SettingsField) → Has entries file f)
      → (f : SettingsField) → (load_by files self before (loaded file)).entries f ≡ entries f
  unfolding load_by load_fields
  load_by-entries self file before entries has f =
      rw
        (
          has url,
          has customer_code,
          has username,
          has password,
          has billing_label,
          has customer_trid,
        )
        (overwritten-same entries self.entries f)

  load_field-keeps :
      (self : Settings F Disk) (file : F) (g f : SettingsField) (text : Option Bytes)
      → get_field files file g ≡ text
      → Has self.entries file f
      → Has (load_field files self file g text).0.entries (load_field files self file g text).1 f
  load_field-keeps self file g f none is has = elim (compared f g) [
    | equal e same ↦
        rw (e, same_field_refl g) (laws.get_set file (group_of g) (key_of g) (default_of g))
    | differing keys same ↦
        rw same
          (laws.get_set_other file (group_of g) (key_of g) (key_of f) (default_of g) keys ∙ has)
  ]
  load_field-keeps self file g f (some text) is has = elim (compared f g) [
    | equal e same ↦ rw same (ap (get_field files file) e ∙ is)
    | differing keys same ↦ rw same has
  ]

  load_field-sets :
      (self : Settings F Disk) (file : F) (f : SettingsField) (text : Option Bytes)
      → get_field files file f ≡ text
      → Has (load_field files self file f text).0.entries (load_field files self file f text).1 f
  load_field-sets self file f none is =
      rw (same_field_refl f) (laws.get_set file (group_of f) (key_of f) (default_of f))
  load_field-sets self file f (some text) is = rw (same_field_refl f) is

  load_fields-keeps :
      (self : Settings F Disk) (file : F) (fields : List SettingsField) (f : SettingsField)
      → Has self.entries file f
      → Has (load_fields files self file fields).0.entries (load_fields files self file fields).1 f
  unfolding load_fields
  load_fields-keeps self file [] f has = has
  load_fields-keeps self file (g ∷ fields) f has =
      let once = load_field files self file g (get_field files file g) in
      load_fields-keeps once.0 once.1 fields f (load_field-keeps self file g f _ refl has)

  pub load_fields-HasAll :
      (self : Settings F Disk) (file : F) (fields : List SettingsField)
      → HasAll
          (load_fields files self file fields).0.entries
          (load_fields files self file fields).1
          fields
  unfolding load_fields
  load_fields-HasAll self file [] = tt
  load_fields-HasAll self file (g ∷ fields) =
      let once = load_field files self file g (get_field files file g) in
      (
        load_fields-keeps once.0 once.1 fields g (load_field-sets self file g _ refl),
        load_fields-HasAll once.0 once.1 fields,
      )

  -- what the loop leaves alone
  abbrev pub left_alone : Settings F Disk → Option F × Bool × ℕ × List ℕ × ℕ × Disk
  left_alone self =
      (self.settings, self.has_path, self.store_id, self.timers, self.next_id, self.disk)

  load_field-left_alone :
      (self : Settings F Disk) (file : F) (g : SettingsField) (text : Option Bytes)
      → (left_alone (load_field files self file g text).0 ≡ left_alone self)
        × ((load_field files self file g text).2 ≡ false
            → (load_field files self file g text).1 ≡ file)
  load_field-left_alone self file g none = (refl, λ kept. cc (kept))
  load_field-left_alone self file g (some text) = (refl, λ kept. refl)

  pub load_fields-left_alone :
      (self : Settings F Disk) (file : F) (fields : List SettingsField)
      → (left_alone (load_fields files self file fields).0 ≡ left_alone self)
        × ((load_fields files self file fields).2 ≡ false
            → (load_fields files self file fields).1 ≡ file)
  unfolding load_fields
  load_fields-left_alone self file [] = (refl, λ kept. refl)
  load_fields-left_alone self file (g ∷ fields) =
      let text = get_field files file g in
      let once = load_field files self file g text in
      let first = load_field-left_alone self file g text in
      let others = load_fields-left_alone once.0 once.1 fields in
      (
        others.0 ∙ first.0,
        λ kept.
            let both = or_false once.2 (load_fields files once.0 once.1 fields).2 kept in
            others.1 both.1 ∙ first.1 both.0,
      )
