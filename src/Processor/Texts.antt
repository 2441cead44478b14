-- ===== src/Processor/Texts.antt =====
-- What load_device_properties of src/mccr-gtk/mui-processor.c makes of the answers of a reader.
use mccr.Prelude.{ℕ, ◌&&◌, List, [], ◌∷◌, Option, none, some, Run, leb, ◌==◌, if◌then◌else◌, length}
use mccr.Prelude.Bytes.{Bytes}
use mccr.Prelude.Text.{Text, literal, chars, unsigned, c_string}
use mccr.Hid.Usages.{Allocator}
use mccr.Device.Names.{
  mccr_track_state_to_string, mccr_reader_state_to_string, mccr_reader_state_antecedent_to_string,
}
use mccr.Device.Commands.{TrackIdEnable}
use mccr.Common.{strhex_multiline, multiline_length}
use mccr.Processor.{Item, n_a}

-- a C string in memory, or NULL
abbrev pub text_at : Option Bytes → Option Text
text_at none = none
text_at (some mem) = some (chars (c_string mem) ∷ [])

-- the text of the encryption counter
abbrev pub counter_text : ℕ → Option Text
counter_text val =
    if val == 0xFFFFFF
    then some (literal "disabled" ∷ [])
    else if val == 0
    then some (literal "expired" ∷ [])
    else if leb 1 val && leb val 0x0F4240
    then some (unsigned val ∷ [])
    else none

-- strhex_multiline in lines of ten bytes, with the memory that it asks for
abbrev pub multiline : Allocator → Bytes → Run Bytes
multiline grants bytes =
    let size = length bytes in
    strhex_multiline (grants 1 (multiline_length size 10 [] (b':' ∷ []))) bytes size 10 none
      (some (b':' ∷ []))

abbrev pub track_id_items : Option TrackIdEnable → List (Item × Option Text)
track_id_items (some read) =
    (
      Item.supported_cards,
      some (literal (if read.aamva_supported then "ISO and AAMVA" else "ISO only") ∷ []),
    )
    ∷ (Item.track_status 1, some (literal (mccr_track_state_to_string read.track_1) ∷ []))
    ∷ (Item.track_status 2, some (literal (mccr_track_state_to_string read.track_2) ∷ []))
    ∷ (Item.track_status 3, some (literal (mccr_track_state_to_string read.track_3) ∷ []))
    ∷ []
track_id_items none =
    (Item.supported_cards, some n_a)
    ∷ (Item.track_status 1, some n_a)
    ∷ (Item.track_status 2, some n_a)
    ∷ (Item.track_status 3, some n_a)
    ∷ []

abbrev pub reader_state_items : Option (ℕ × ℕ) → List (Item × Option Text)
reader_state_items (some (state, antecedent)) =
    (Item.reader_state, some (literal (mccr_reader_state_to_string state) ∷ []))
    ∷ (Item.antecedent, some (literal (mccr_reader_state_antecedent_to_string antecedent) ∷ []))
    ∷ []
reader_state_items none = (Item.reader_state, some n_a) ∷ (Item.antecedent, some n_a) ∷ []
