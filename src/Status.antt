-- ===== src/Status.antt =====
-- `mccr_status_t` of src/libmccr/mccr.h.in and its texts in src/libmccr/mccr.c.
use Prim.Native.String.{String}
use mccr.Prelude.{ℕ, Bool, true, false, List, [], ◌∷◌, get_or}

pub data Status : Type 0 where
  ok failed not_found internal not_open write_failed read_failed report_failed delayed : Status
  invalid_operation invalid_input unexpected_format timed_out : Status

-- the value of the enumerator
abbrev pub status_value : Status → ℕ
status_value ok = 0
status_value failed = 1
status_value not_found = 2
status_value internal = 3
status_value not_open = 4
status_value write_failed = 5
status_value read_failed = 6
status_value report_failed = 7
status_value delayed = 8
status_value invalid_operation = 9
status_value invalid_input = 10
status_value unexpected_format = 11
status_value timed_out = 12

-- `st == MCCR_STATUS_OK`
abbrev pub is_ok : Status → Bool
is_ok ok = true
is_ok _ = false

status_str : List String
status_str =
    "success" ∷ "failed" ∷ "not found" ∷ "internal" ∷ "device not open" ∷ "write operation failed"
    ∷ "read operation failed" ∷ "report operation failed" ∷ "operation delayed"
    ∷ "invalid operation" ∷ "invalid input" ∷ "unexpected format" ∷ []

-- mccr_status_to_string
unfoldable pub mccr_status_to_string : Status → String
unfolding status_str
mccr_status_to_string st = get_or status_str (status_value st) "unknown"
