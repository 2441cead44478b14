-- ===== src/Cli/Swipe.antt =====
-- run_wait_swipe of src/mccr-cli/mccr-cli.c and its macro PROCESS_TRACK: a swipe is waited for without an
-- end, and printed.
use Prim.Native.String.{String}
use mccr.Prelude.{
  ℕ, ◌+◌, ◌%◌, Bool, true, not, List, [], ◌∷◌, ◌++◌, Option, none, some, Run, ok, fault, ◌>>=◌, ltb,
  ◌==◌, if◌then◌else◌, drop,
}
use mccr.Prelude.Bytes.{Bytes}
use mccr.Prelude.Text.{literal, chars, unsigned, c_string}
use mccr.Prelude.Int.{negsuc}
use mccr.Environment.{Environment}
use mccr.Hid.Usages.{Allocator}
use mccr.Status.{Status, is_ok, mccr_status_to_string}
use mccr.Device.{Contexts}
use mccr.Device.Names.{mccr_card_encode_type_to_string}
use mccr.Common.{strhex, strascii, strhex_length}
use mccr.SwipeReport.{
  SwipeReport, mccr_device_wait_swipe_report, mccr_swipe_report_free,
  mccr_swipe_report_get_track_decode_status, mccr_swipe_report_get_track_encrypted_data_length,
  mccr_swipe_report_get_track_encrypted_data, mccr_swipe_report_get_track_absolute_data_length,
  mccr_swipe_report_get_track_masked_data_length, mccr_swipe_report_get_track_masked_data,
  mccr_swipe_report_get_card_encode_type,
}
use mccr.Cli.{
  Line, out, err, Exit, exit_success, exit_failure, Session, print, after_command, grants_from,
  failure,
}

-- "error: cannot get track %u …: %s"
abbrev track_failure : ℕ → String → Status → Line
track_failure n what st = err (
    literal "error: cannot get track "
    ∷ unsigned n
    ∷ literal what
    ∷ literal (mccr_status_to_string st)
    ∷ [])

abbrev decoding_line : ℕ → ℕ → Line
decoding_line n status = out (
    literal "track "
    ∷ unsigned n
    ∷ literal (
        if status == 0
        then " decoding: success"
        else if status % 2 == 1
        then " decoding: error"
        else " decoding: unknown status")
    ∷ [])

-- The next step of a track, with what a getter wrote, after one that succeeded; one that failed ends
-- the track with an error, behind what has been printed.
unfoldable pub and_then :
    List Line → (Status → Line) → Run (Status × Option ℕ) → (ℕ → Run (List Line)) → Run (List Line)
and_then printed error get next = do
  (st, written) ← get
  if not (is_ok st)
      then ok (printed ++ error st ∷ [])
      else elim written [ none ↦ fault | some value ↦ next value ]

module _ (isprint : ℕ → Bool) (grants : Allocator) where
  -- the data of a track in hexadecimal and, if it is wanted, as text
  abbrev encrypted_lines : Bool → Bytes → ℕ → Run (List Line)
  encrypted_lines ascii bytes length = if not (ltb 0 length) then ok [] else do
    aux ← strhex (grants 0 (strhex_length length (b':' ∷ []))) bytes length (some (b':' ∷ []))
    let line : Line = out (literal "\tdata:                 " ∷ chars (c_string aux) ∷ [])
    if not ascii then ok (line ∷ []) else do
      text ← strascii isprint (grants 1 (length + 1)) bytes length
      ok (line ∷ out (literal "\tascii:                " ∷ chars (c_string text) ∷ []) ∷ [])

  abbrev masked_lines : Bytes → ℕ → Run (List Line)
  masked_lines bytes length = if not (ltb 0 length) then ok [] else do
    text ← strascii isprint (grants 2 (length + 1)) bytes length
    ok (out (literal "\tmasked data:          " ∷ chars (c_string text) ∷ []) ∷ [])

  abbrev absolute_line : Status × Option ℕ → List Line
  absolute_line (st, none) = out (literal "\tabsolute data length: unknown" ∷ []) ∷ []
  absolute_line (st, some length) =
      out (literal "\tabsolute data length: " ∷ unsigned length ∷ literal " bytes" ∷ []) ∷ []

  -- PROCESS_TRACK (n) from the absolute length on, behind what has been printed
  unfoldable pub process_masked : Contexts → SwipeReport → ℕ → List Line → Run (List Line)
  unfolding and_then
  process_masked heap report n printed = do
    absolute ← mccr_swipe_report_get_track_absolute_data_length heap report n
    let printed' = printed ++ absolute_line absolute
    and_then printed' (track_failure n " masked data length: ")
        (mccr_swipe_report_get_track_masked_data_length heap report n)
        (λ length.
          and_then printed' (track_failure n " masked data: ")
            (mccr_swipe_report_get_track_masked_data heap report n)
            (λ offset. do
              lines ← masked_lines (drop offset report.input_report.report_data) length
              ok (
                  printed'
                  ++ (out (
                        literal "\tmasked data length:   "
                        ∷ unsigned length
                        ∷ literal " bytes"
                        ∷ [])
                      ∷ lines))))

  -- PROCESS_TRACK (n)
  unfoldable pub process_track : Contexts → SwipeReport → Bool → ℕ → Run (List Line)
  unfolding and_then process_masked
  process_track heap report ascii n =
      and_then [] (track_failure n " decode status: ")
        (mccr_swipe_report_get_track_decode_status heap report n)
        (λ status.
          let decoded : List Line = decoding_line n status ∷ [] in
          and_then decoded (track_failure n " data length: ")
            (mccr_swipe_report_get_track_encrypted_data_length heap report n)
            (λ length.
              and_then decoded (track_failure n " data: ")
                (mccr_swipe_report_get_track_encrypted_data heap report n)
                (λ offset. do
                  lines ← encrypted_lines ascii (drop offset report.input_report.report_data) length
                  process_masked heap report n (
                      decoded
                      ++ (out (
                            literal "\tdata length:          "
                            ∷ unsigned length
                            ∷ literal " bytes"
                            ∷ [])
                          ∷ lines)))))

-- the line of the card encode type
abbrev encode_type_line : Status × Option ℕ → Line
encode_type_line (st, none) = failure "warning: cannot get card encode type: " st
encode_type_line (st, some type) =
    out (literal "card encode type: " ∷ literal (mccr_card_encode_type_to_string type) ∷ [])

module _ {D : Type 0} (env : Environment D) where
  -- one track of the report, in the session
  unfoldable pub print_track : Session D → SwipeReport → Bool → ℕ → Run (Session D)
  unfolding process_track
  print_track s report ascii n = do
    lines ← process_track env.isprint (grants_from env s) s.heap report ascii n
    ok (record (print s lines) { calls = s.calls + 3 })

  -- run_wait_swipe on a report that has been received
  unfoldable pub print_swipe : Session D → SwipeReport → Bool → Run (Exit × Session D)
  unfolding print_track
  print_swipe s report ascii = do
    let detected : Session D = print s (out (literal "swipe detected" ∷ []) ∷ [])
    type ← mccr_swipe_report_get_card_encode_type detected.heap report
    track_1 ← print_track (print detected (encode_type_line type ∷ [])) report ascii 1
    track_2 ← print_track track_1 report ascii 2
    track_3 ← print_track track_2 report ascii 3
    heap' ← mccr_swipe_report_free report track_3.heap
    ok (exit_success, record track_3 { heap = heap' })

  -- run_wait_swipe
  unfoldable pub run_wait_swipe : Session D → Bool → Run (Exit × Session D)
  unfolding print_swipe
  run_wait_swipe s ascii = do
    (st, report, device', heap') ←
        mccr_device_wait_swipe_report env.hidapi (grants_from env s) s.device s.heap (negsuc 0) true
    let s' : Session D = record (after_command s device') { heap = heap' }
    if not (is_ok st)
        then ok (exit_failure, print s' (failure "error: cannot get swipe report: " st ∷ []))
        else elim report [ none ↦ fault | some r ↦ print_swipe s' r ascii ]
