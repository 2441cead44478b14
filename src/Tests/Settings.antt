-- ===== src/Tests/Settings.antt =====
-- The settings file of src/mccr-gtk/mui-page-remote-services.c.
use mccr.Prelude.{if◌then◌else◌, ◌≡◌, refl, true, List, [], ◌∷◌, none, some}
use mccr.Prelude.Bytes.{Bytes}
use text.Mathlib.TextPositions.{compare_refl}
use Prim.Native.String.{String}
use mccr.Prelude.{◌&&◌, Option}
use mccr.Prelude.Text.{same_string}
use mccr.RemotePage.{username}
use mccr.RemotePage.Settings.{
  KeyFiles, loaded, no_file, Change, typed, elapsed, new_settings, load_settings, load_by,
  load_fields, set_defaults, changes, change, fire, settings_entry_activated, settings_store_cb,
  store_settings, store_fields, store_field,
}
use mccr.RemotePage.Settings.Fields.{IsKeyFiles}
use mccr.RemotePage.Settings.Stored.{load_settings-entries}

-- a key file as a function of the group and the key, and a disk with at most one of them
abbrev KeyFile : Type 0
KeyFile = String → String → Option Bytes

abbrev disk_files : KeyFiles KeyFile (Option KeyFile)
disk_files = record {
  new = λ group key. none;
  get_string = λ file group key. file group key;
  set_string = λ file group key text other_group other.
      if same_string other_group group && same_string other key
      then some text
      else file other_group other;
  load = λ disk old. elim disk [ none ↦ no_file | some file ↦ loaded file ];
  save = λ disk file. (true, some file);
}

same_string_refl : (s : String) → same_string s s ≡ true
same_string_refl s = rw (same_string, compare_refl s) refl

disk_files-IsKeyFiles : IsKeyFiles disk_files
disk_files-IsKeyFiles = record {
  get_set = λ file group key text. rw (same_string_refl group, same_string_refl key) refl;
  get_set_other = λ file group key other text differs. rw (same_string_refl group, differs) refl;
  load_saved = λ disk file. (file, refl, λ group key. refl);
}

abbrev typing : List Change
typing = typed username (b'm' ∷ b'e' ∷ []) ∷ elapsed ∷ []

load_settings-entries_example :
    (load_settings disk_files (
        new_settings disk_files
          (λ field. [])
          (changes disk_files
            (load_settings disk_files (new_settings disk_files (λ field. []) none))
            typing).disk)).entries
      username
    ≡ (changes disk_files
          (load_settings disk_files (new_settings disk_files (λ field. []) none))
          typing).entries
        username
unfolding load_settings load_by load_fields set_defaults changes change fire
    settings_entry_activated settings_store_cb store_settings store_fields store_field
load_settings-entries_example =
    load_settings-entries disk_files disk_files-IsKeyFiles (λ field. []) (λ field. []) none typing
      tt refl username
