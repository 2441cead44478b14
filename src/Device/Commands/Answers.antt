-- ===== src/Device/Commands/Answers.antt =====
-- The answers that the commands of src/libmccr/mccr.c take apart. The reader says in the answer how long
-- its data is, and nothing compares that with the buffer.
use mccr.Prelude.{
  ℕ, suc, ◌+◌, ◌^◌, ◌≤◌, ◌<◌, ◌≡◌, Bool, refl, ap, true, false, ◌==◌, [], ◌∷◌, ◌++◌, Option, none,
  some, ok, fault, >>=-if, arith, leb, if◌then◌else◌, Bool-cases, inl, inr, length, length-drop,
  take, drop, read, read_block, read_inside, Returns, returned, Returns-bind_eq, ◌∙◌,
}
use mccr.Hidapi.{Hidapi, IsHidapi}
use mccr.Hid.Usages.{Allocator}
use mccr.Status.{Status, is_ok}
use mccr.Prelude.Bytes.{Bytes}
use mccr.FeatureReport.{FeatureReport, mccr_feature_report_get_response}
use mccr.FeatureReport.Request.{IsFeatureReport}
use mccr.Device.{Device}
use mccr.Device.Commands.{answer_of, transact, mccr_device_get_reader_state}
use mccr.Device.Commands.Copied.{common_device_read_property_string}
use mccr.Device.Commands.Transact.{IsOpen, IsOpen-not_null, transact-not_null, transact-Returns}

answer_of_lem :
    {D : Type 0} (device : Device D) (r : FeatureReport) (data_length : ℕ)
    → device.feature_report ≡ some r
    → read r.response 2 ≡ ok data_length
    → answer_of device ≡ ok (drop 3 r.response, data_length)
unfolding mccr_feature_report_get_response
answer_of_lem device r data_length e said = rw e (rw said refl)

-- Reading as many bytes behind the header as the reader says is defined just where they are in the
-- report.
read_answer :
    (r : FeatureReport) (data_length : ℕ)
    → IsFeatureReport r
    → read_block (drop 3 r.response) 0 data_length ≡ (
        if leb (3 + data_length) r.report_size
        then ok (take data_length (drop 3 r.response))
        else fault)
read_answer r data_length v =
    let same : leb (0 + data_length) (length (drop 3 r.response))
        ≡ leb (3 + data_length) r.report_size =
      ground (arith, length-drop 3 r.response, v.response_size, v.header) in
    ap (λ (t : Bool). if t then ok (take data_length (drop 3 r.response)) else fault) same

-- behind the header
read-drop_three : (bytes : Bytes) (i : ℕ) → read (drop 3 bytes) i ≡ read bytes (suc (suc (suc i)))
read-drop_three [] i = refl
read-drop_three (a ∷ []) i = refl
read-drop_three (a ∷ b ∷ []) i = refl
read-drop_three (a ∷ b ∷ c ∷ bytes) i = refl

module _ {D : Type 0} (hid : Hidapi D) (grants : Allocator) where
  -- After an exchange that succeeded, reading a property as text gives the bytes of the answer and a
  -- NUL if as many bytes as the reader says it sent are in the feature report; if they are not, the
  -- copy reads outside the report. The memory for the text is granted, and the report well formed.
  pub read_property_string_answer :
      (device device' : Device D) (property_id calls data_length : ℕ) (r : FeatureReport)
      → transact hid device 0x00 (some (property_id ∷ [])) ≡ ok (Status.ok, device')
      → device'.feature_report ≡ some r
      → IsFeatureReport r
      → read r.response 2 ≡ ok data_length
      → grants calls (data_length + 1) ≡ true
      → common_device_read_property_string hid grants device property_id true calls ≡ (
          if leb (3 + data_length) r.report_size
          then ok (Status.ok, some (take data_length (drop 3 r.response) ++ 0 ∷ []), device')
          else fault)
  unfolding common_device_read_property_string
  read_property_string_answer device device' property_id calls data_length r sent e v said granted =
      rw (transact-not_null hid device _ _ sent, sent)
        (simp (answer_of_lem device' r data_length e said, granted, read_answer r data_length v)
          (>>=-if (leb (3 + data_length) r.report_size) _ _))

module _ {D : Type 0} (hid : Hidapi D) where
  -- What mccr_device_get_reader_state comes to, by the exchange: its status if it failed; otherwise the two
  -- bytes of the data, if the reader says that these are two.
  pub data ReaderState (size : ℕ) (device : Device D)
      : Status × Option (ℕ × ℕ) × Device D → Type 0 where
    refused :
        {st : Status} {device' : Device D}
        → transact hid device 0x14 none ≡ ok (st, device')
        → is_ok st ≡ false
        → IsOpen size device'
        → ReaderState size device (st, none, device')
    other_length :
        {device' : Device D} {r : FeatureReport} (n : ℕ)
        → transact hid device 0x14 none ≡ ok (Status.ok, device')
        → device'.feature_report ≡ some r
        → read r.response 2 ≡ ok n
        → (n == 2) ≡ false
        → IsOpen size device'
        → ReaderState size device (Status.unexpected_format, none, device')
    two_bytes :
        {device' : Device D} {r : FeatureReport} (state antecedent : ℕ)
        → transact hid device 0x14 none ≡ ok (Status.ok, device')
        → device'.feature_report ≡ some r
        → read r.response 2 ≡ ok 2
        → read r.response 3 ≡ ok state
        → read r.response 4 ≡ ok antecedent
        → IsOpen size device'
        → ReaderState size device (Status.ok, some (state, antecedent), device')

  -- a status for which is_ok holds
  is_ok→eq : (st : Status) → is_ok st ≡ true → st ≡ Status.ok
  is_ok→eq Status.ok e = refl
  is_ok→eq st e = cc (e)

  -- On an open device whose feature report has room for two bytes of data, with hidapi as it is
  -- documented, mccr_device_get_reader_state returns, reads nothing outside the report and leaves the
  -- device open. A status of the exchange other than OK is returned with no output; with an answer whose
  -- length byte is not 2 the status is UNEXPECTED_FORMAT, with no output; and otherwise it is OK, the state
  -- is the first byte of the data and the antecedent the second. The report is shorter than 2 ^ 63 bytes.
  pub get_reader_state-Returns :
      (device : Device D) (size : ℕ)
      → IsHidapi hid
      → IsOpen size device
      → 5 ≤ size
      → size < 2 ^ 63
      → Returns (ReaderState size device) (mccr_device_get_reader_state hid device)
  unfolding mccr_device_get_reader_state
  get_reader_state-Returns device size h o room small = rw (IsOpen-not_null o) (
      Returns-bind_eq _ (transact-Returns hid device 0x14 size none h o (omega arith) small)
        (λ (st, device') sent o'. elim (Bool-cases (is_ok st)) [
          | inr failed ↦ rw failed (returned (refused sent failed o'))
          | inl succeeded ↦
              let r = o'.report in
              let long : 5 ≤ length r.response =
                omega (arith, o'.well_formed.response_size, o'.has_size, room) in
              let (n, said) = read_inside r.response 2 (omega (arith, long)) in
              let (state, first) = read_inside r.response 3 (omega (arith, long)) in
              let (antecedent, second) = read_inside r.response 4 (omega (arith, long)) in
              let sent_ok : transact hid device 0x14 none ≡ ok (Status.ok, device') =
                sent ∙ ap (λ (s : Status). ok (s, device')) (is_ok→eq st succeeded) in
              rw (succeeded, answer_of_lem device' r n o'.has_report said)
                (elim (Bool-cases (n == 2)) [
                  | inr other ↦
                      rw other (returned (other_length n sent_ok o'.has_report said other o'))
                  | inl two ↦
                      rw
                        (
                          two,
                          read-drop_three r.response 0 ∙ first,
                          read-drop_three r.response 1 ∙ second,
                        )
                        (returned (
                          two_bytes state antecedent sent_ok o'.has_report
                            (said ∙ ap ok (ground (arith, two))) first second o'))
                ])
        ]))
