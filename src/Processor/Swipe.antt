-- ===== src/Processor/Swipe.antt =====
-- run_wait_swipe and process_track of src/mccr-gtk/mui-processor.c: a swipe is waited for and reported.
use mccr.Prelude.{
  ℕ, ◌+◌, ◌%◌, true, not, List, [], ◌∷◌, Option, none, some, Run, ok, ◌>>=◌, ltb, ◌==◌,
  if◌then◌else◌, drop,
}
use mccr.Prelude.Text.{Text, literal, unsigned, hex}
use mccr.Prelude.Int.{pos}
use mccr.Status.{Status, is_ok, mccr_status_to_string}
use mccr.Device.Names.{mccr_card_encode_type_to_string}
use mccr.SwipeReport.{
  SwipeReport, mccr_device_wait_swipe_report, mccr_swipe_report_free,
  mccr_swipe_report_get_track_decode_status, mccr_swipe_report_get_track_encrypted_data_length,
  mccr_swipe_report_get_track_encrypted_data, mccr_swipe_report_get_track_masked_data_length,
  mccr_swipe_report_get_track_masked_data, mccr_swipe_report_get_card_encode_type,
}
use mccr.Environment.{Environment}
use mccr.Processor.{
  Item, Processor, report_item, report_items, with_device, grants_from, device_at, n_a, strhex_from,
}
use mccr.Processor.Texts.{text_at}

-- `DEFAULT_WAIT_SWIPE_TIMEOUT_MS`
abbrev pub default_wait_swipe_timeout_ms : ℕ
default_wait_swipe_timeout_ms = 1000

-- The codes of a `GError` and its message.
pub data ErrorCode : Type 0 where
  invalid_argument timed_out cancelled failed : ErrorCode

abbrev pub GError : Type 0
GError = ErrorCode × Text

-- the value that is reported, where NULL is shown as "n/a"
abbrev pub or_n_a : Option Text → Text
or_n_a none = n_a
or_n_a (some text) = text

-- the text of the decode status: the lowest bit is the error
abbrev pub decode_status_text : ℕ → Text
decode_status_text status =
    if status == 0
    then literal "success" ∷ []
    else if status % 2 == 1
    then literal "error" ∷ []
    else literal "unknown status (0x" ∷ hex status ∷ literal ")" ∷ []

-- a variable that a getter may have left as it was
abbrev pub or_else : ℕ → Option ℕ → ℕ
or_else before none = before
or_else before (some value) = value

-- The error of a wait that gave no report.
abbrev pub swipe_error : Status → GError
swipe_error Status.timed_out = (timed_out, literal "Timeout" ∷ [])
swipe_error st =
    (failed, literal "Cannot get swipe report: " ∷ literal (mccr_status_to_string st) ∷ [])

module _ {D : Type 0} (env : Environment D) where
  -- The text of the data of a track: `get_data` gives where the field begins, and as many bytes as
  -- the length says are read from there.
  unfoldable pub data_text :
      Processor D → SwipeReport → ℕ → (Unit {0} → Run (Status × Option ℕ)) → Run (Option Text)
  data_text self report length get_data = if not (ltb 0 length) then ok none else do
    (st, offset) ← get_data tt
    if not (is_ok st) then ok none else do
      text ←
          strhex_from (grants_from env self) 0
            (drop (or_else env.uninitialised offset) report.input_report.report_data) length
            (some (b' ' ∷ []))
      ok (text_at (some text))

  -- One of the two data blocks of process_track: the items of the length and of the data. A getter
  -- of the length that fails leaves `length` as it was.
  unfoldable pub track_data_items :
      Processor D
      → SwipeReport
      → Item
      → Item
      → Run (Status × Option ℕ)
      → (Unit {0} → Run (Status × Option ℕ))
      → Run (List (Item × Option Text))
  unfolding data_text
  track_data_items self report length_item data_item get_length get_data = do
    (st, written) ← get_length
    let length = or_else env.uninitialised written
    let length_text : Option Text =
        if is_ok st then some (unsigned length ∷ literal " bytes" ∷ []) else none
    text ← data_text self report length get_data
    ok ((length_item, some (or_n_a length_text)) ∷ (data_item, some (or_n_a text)) ∷ [])

  -- process_track, for track 1, 2 or 3
  unfoldable pub process_track : Processor D → SwipeReport → ℕ → Run (Processor D)
  unfolding track_data_items
  process_track self report n = do
    (st, written) ← mccr_swipe_report_get_track_decode_status self.heap report n
    let status : Text =
        if is_ok st then decode_status_text (or_else env.uninitialised written) else n_a
    let decoded : Processor D = report_item self (Item.track_decode_status n) (some status)
    encrypted ←
        track_data_items decoded report (Item.track_encrypted_data_length n)
          (Item.track_encrypted_data n)
          (mccr_swipe_report_get_track_encrypted_data_length decoded.heap report n)
          (λ _. mccr_swipe_report_get_track_encrypted_data decoded.heap report n)
    let halfway : Processor D = record (report_items decoded encrypted) {
      calls = decoded.calls + 1;
    }
    masked ←
        track_data_items halfway report (Item.track_masked_data_length n) (Item.track_masked_data n)
          (mccr_swipe_report_get_track_masked_data_length halfway.heap report n)
          (λ _. mccr_swipe_report_get_track_masked_data halfway.heap report n)
    ok (record (report_items halfway masked) { calls = halfway.calls + 1 })

  -- run_wait_swipe on a report that has been received
  unfoldable pub report_swipe : Processor D → SwipeReport → Run (Processor D)
  unfolding process_track
  report_swipe self report = do
    let started : Processor D = report_item self Item.swipe_started none
    (st, written) ← mccr_swipe_report_get_card_encode_type started.heap report
    let type : Option Text =
        if is_ok st
        then some
            (literal (mccr_card_encode_type_to_string (or_else env.uninitialised written)) ∷ [])
        else none
    track_1 ← process_track (report_item started Item.card_encode_type type) report 1
    track_2 ← process_track track_1 report 2
    track_3 ← process_track track_2 report 3
    let finished : Processor D = report_item track_3 Item.swipe_finished none
    heap' ← mccr_swipe_report_free report finished.heap
    ok (record finished { heap = heap' })

  -- The end of run_wait_swipe: the error of a wait that failed, or the report.
  unfoldable pub swipe_received :
      Processor D → Status → Option SwipeReport → Run (Option GError × Processor D)
  unfolding report_swipe
  swipe_received self Status.ok none = Run.fault
  swipe_received self Status.ok (some report) = do
    self' ← report_swipe self report
    ok (none, self')
  swipe_received self st report = ok (some (swipe_error st), self)

  -- run_wait_swipe: the error, if there is one
  unfoldable pub run_wait_swipe : Processor D → Run (Option GError × Processor D)
  unfolding swipe_received
  run_wait_swipe self = do
    let waiting : Processor D =
        report_item self Item.status (some (literal "Waiting for swipe..." ∷ []))
    device ← device_at waiting
    (st, report, device', heap') ←
        mccr_device_wait_swipe_report env.hidapi (grants_from env waiting) device waiting.heap
          (pos default_wait_swipe_timeout_ms) true
    swipe_received (record (with_device waiting device') { heap = heap' }) st report
