-- ===== src/InputReport/Receive.antt =====
-- What mccr_input_report_receive (src/libmccr/mccr-input-report.c) comes to, by the reads that it makes.
use mccr.Prelude.{
  ℕ, suc, ◌≤◌, ◌<◌, ◌≡◌, refl, sym, ap, subst, ◌∙◌, false, not, ◌&&◌, [], ◌∷◌, Option, arith, true,
  ◌⊎◌, ◌==◌, if_cases, inl, inr, length, length-take, take, take_all, Returns, returned,
  Returns-bind,
}
use mccr.Prelude.Bytes.{Bytes}
use mccr.Prelude.Int.{ℤ, is_negative}
use mccr.Hidapi.{Hidapi, IsHidapi}
use mccr.Status.{Status}
use mccr.InputReport.{InputReport, receive_status, finish, mccr_input_report_receive}
use mccr.InputReport.Reads.{
  full, stopped, broken, Reads, Received, broke_off, stopped_at, filled, receive_loop-Received,
}

module _ {D : Type 0} (hid : Hidapi D) (timeout_ms : ℤ) where
  -- What mccr_input_report_receive comes to.
  pub data Outcome (size : ℕ) (d : D) : Status × InputReport × D → Type 0 where
    -- the reads filled the report, which is all that they returned
    received :
        {r' : InputReport} {d' : D}
        → length r'.report_data ≡ size
        → r'.report_size ≡ size
        → Reads hid timeout_ms size d 0 r'.report_data full d'
        → Outcome size d (Status.ok, r', d')
    -- there is nothing to read, and no limit to the time
    nothing :
        {r' : InputReport} {d' : D}
        → length r'.report_data ≡ size
        → r'.report_size ≡ size
        → size ≡ 0
        → is_negative timeout_ms ≡ true
        → Reads hid timeout_ms size d 0 [] stopped d'
        → Outcome size d (Status.ok, r', d')
    -- a read returned 0 before the report was full, and not at once if the time is limited
    partial :
        {r' : InputReport} {d' : D} (bytes : Bytes)
        → length r'.report_data ≡ size
        → r'.report_size ≡ size
        → length bytes < size
        → (not (is_negative timeout_ms) && length bytes == 0) ≡ false
        → take (length bytes) r'.report_data ≡ bytes
        → Reads hid timeout_ms size d 0 bytes stopped d'
        → Outcome size d (Status.unexpected_format, r', d')
    -- the first read returned 0, and the time is limited
    timed_out :
        {r' : InputReport} {d' : D}
        → length r'.report_data ≡ size
        → r'.report_size ≡ size
        → is_negative timeout_ms ≡ false
        → Reads hid timeout_ms size d 0 [] stopped d'
        → Outcome size d (Status.timed_out, r', d')
    -- a read returned an error
    failed :
        {r' : InputReport} {d' : D} (bytes : Bytes)
        → length r'.report_data ≡ size
        → r'.report_size ≡ size
        → Reads hid timeout_ms size d 0 bytes broken d'
        → Outcome size d (Status.report_failed, r', d')

  empty : (bytes : Bytes) → length bytes ≡ 0 → bytes ≡ []
  empty [] e = refl
  empty (b ∷ bytes) e = absurd (omega (arith, e))

  stopped-Outcome :
      (r r' : InputReport) (d d' : D) (t : ℕ) (bytes : Bytes)
      → length r'.report_data ≡ r.report_size
      → r'.report_size ≡ r.report_size
      → t ≤ r.report_size
      → (t < r.report_size) ⊎ (t ≡ 0)
      → take t r'.report_data ≡ bytes
      → Reads hid timeout_ms r.report_size d 0 bytes stopped d'
      → Outcome r.report_size d (receive_status r' timeout_ms t, r', d')
  unfolding receive_status
  stopped-Outcome r r' d d' t bytes whole same bound place front reads =
      let long : length bytes ≡ t =
        ap length (sym front) ∙ length-take t r'.report_data ∙ omega arith in
      let Ended = λ (st : Status). Outcome r.report_size d (st, r', d') in
      let nothing_read : t ≡ 0 → Reads hid timeout_ms r.report_size d 0 [] stopped d' = λ none_read.
        subst (λ (bs : Bytes). Reads hid timeout_ms r.report_size d 0 bs stopped d')
          (empty bytes (long ∙ none_read)) reads in
      if_cases Ended (not (is_negative timeout_ms) && t == 0) Status.timed_out _
        (λ patient.
          timed_out whole same (ground (arith, patient)) (nothing_read (ground (arith, patient))))
        (λ impatient.
          if_cases Ended (not (t == r'.report_size)) Status.unexpected_format Status.ok
            (λ less.
              partial bytes whole same (ground (arith, less)) (rw long impatient) (rw long front)
                reads)
            (λ all.
              let at_end : t ≡ r.report_size = ground (arith, all) in
              let none_read : t ≡ 0 = elim place [
                | inl before ↦ absurd (omega (arith, before, at_end))
                | inr here ↦ here
              ] in
              nothing whole same (sym at_end ∙ none_read) (ground (arith, impatient, none_read))
                (nothing_read none_read)))

  filled-Outcome :
      (r r' : InputReport) (d d' : D) (t : ℕ) (bytes : Bytes)
      → length r'.report_data ≡ r.report_size
      → r'.report_size ≡ r.report_size
      → t ≡ r.report_size
      → 0 < t
      → take t r'.report_data ≡ bytes
      → Reads hid timeout_ms r.report_size d 0 bytes full d'
      → Outcome r.report_size d (receive_status r' timeout_ms t, r', d')
  unfolding receive_status
  filled-Outcome r r' d d' t bytes whole same done positive front reads =
      let waiting : (not (is_negative timeout_ms) && t == 0) ≡ false = ground (arith, positive) in
      let all : not (t == r'.report_size) ≡ false = ground (arith, done, same) in
      rw (waiting, all)
        (received whole same (
          subst (λ (bs : Bytes). Reads hid timeout_ms r.report_size d 0 bs full d')
            (sym front ∙ take_all t r'.report_data (omega (arith, done, whole))) reads))

  Received-Outcome :
      (r : InputReport) (d : D) {result : Option ℕ × InputReport × D}
      → Received hid timeout_ms r 0 d result
      → Returns (Outcome r.report_size d) (finish hid timeout_ms result)
  unfolding finish
  Received-Outcome r d (broke_off bytes whole size reads) = returned (failed bytes whole size reads)
  Received-Outcome r d (stopped_at bytes whole size bound place front reads) =
      returned (stopped-Outcome r _ d _ _ bytes whole size bound place front reads)
  Received-Outcome r d (filled bytes whole size done positive front reads) =
      returned (filled-Outcome r _ d _ _ bytes whole size done positive front reads)

  -- With hidapi as it is documented, and a report whose data is as long as it says, receiving returns:
  -- the loop comes to an end and stores nothing outside the report. The reads are made one after another
  -- up to the first that fails, returns nothing or fills the report, and the status says which: with
  -- REPORT_FAILED a read failed; with TIMED_OUT the first read returned nothing, and the timeout was not
  -- negative; with UNEXPECTED_FORMAT a read returned nothing before the report was full, and what was read
  -- stands in front of the report; with OK the reads filled the report and it is all that they returned, or
  -- the report has no bytes and the timeout was negative. The report keeps its size.
  pub receive-Outcome :
      (r : InputReport) (d : D)
      → IsHidapi hid
      → length r.report_data ≡ r.report_size
      → Returns (Outcome r.report_size d) (mccr_input_report_receive hid r timeout_ms d)
  unfolding mccr_input_report_receive
  receive-Outcome r d h whole =
      Returns-bind _
        (receive_loop-Received hid timeout_ms (suc r.report_size) r 0 d h whole (omega arith)
          (omega arith))
        (λ _. Received-Outcome r d)
