-- ===== src/Device/Names.antt =====
-- The texts of the numbers that readers report, and the start and the end of the library
-- (src/libmccr/mccr.c): each table is looked up by index, and what is behind it is "unknown".
use Prim.Native.String.{String}
use mccr.Prelude.{ℕ, List, [], ◌∷◌, get_or, if◌then◌else◌}
use mccr.Prelude.Int.{ℤ, is_negative}
use mccr.Status.{Status}

abbrev track_state_str : List String
track_state_str = "disabled" ∷ "enabled" ∷ "enabled/required" ∷ []

abbrev pub mccr_track_state_to_string : ℕ → String
mccr_track_state_to_string st = get_or track_state_str st "unknown"

abbrev reader_state_str : List String
reader_state_str =
    "waiting to activate authentication" ∷ "waiting for activation challenge reply"
    ∷ "waiting for swipe" ∷ "waiting for anti-hacking timer" ∷ []

abbrev pub mccr_reader_state_to_string : ℕ → String
mccr_reader_state_to_string st = get_or reader_state_str st "unknown"

abbrev reader_state_antecedent_str : List String
reader_state_antecedent_str =
    "powered up" ∷ "good authentication" ∷ "good swipe" ∷ "bad swipe" ∷ "failed authentication"
    ∷ "failed deactivation" ∷ "authentication timed out" ∷ "swipe timed out" ∷ "key sync error" ∷ []

abbrev pub mccr_reader_state_antecedent_to_string : ℕ → String
mccr_reader_state_antecedent_to_string val = get_or reader_state_antecedent_str val "unknown"

abbrev card_encode_type_str : List String
card_encode_type_str =
    "ISO/ABA" ∷ "AAMVA" ∷ "reserved" ∷ "blank" ∷ "other" ∷ "undetermined" ∷ "none" ∷ []

abbrev pub mccr_card_encode_type_to_string : ℕ → String
mccr_card_encode_type_to_string st = get_or card_encode_type_str st "unknown"

-- mccr_init, on what `hid_init` returns
abbrev pub mccr_init : ℤ → Status
mccr_init hid_init = if is_negative hid_init then Status.failed else Status.ok
