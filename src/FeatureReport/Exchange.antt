-- ===== src/FeatureReport/Exchange.antt =====
-- Sending a request and taking the answer: mccr_feature_report_send_receive of
-- src/libmccr/mccr-feature-report.c.
use mccr.Prelude.{
  ℕ, ◌<◌, ◌≡◌, refl, ◌∙◌, false, ok, read, arith, ◌==◌, Bool-cases, inl, inr, length, read_inside,
  Returns, returned,
}
use mccr.Prelude.Bytes.{Bytes}
use mccr.Prelude.Int.{ℤ, to_size}
use mccr.Hidapi.{Hidapi, IsHidapi}
use mccr.Status.{Status}
use mccr.FeatureReport.{FeatureReport, result_to_status, mccr_feature_report_send_receive}
use mccr.FeatureReport.Request.{IsFeatureReport}

-- What an exchange comes to, by the two transfers: with a report that was not sent whole the answer is not
-- asked for; with an answer that was not received whole its result is not looked at; otherwise the status
-- is that of the result, the second byte of the answer.
pub data Exchanged {D : Type 0} (hid : Hidapi D) (r : FeatureReport) (d : D)
    : Status × FeatureReport × D → Type 0 where
  not_sent :
      {sent : ℤ} {d' : D}
      → hid.hid_send_feature_report d r.request ≡ (sent, d')
      → (to_size sent == r.report_size) ≡ false
      → Exchanged hid r d (Status.write_failed, r, d')
  not_received :
      {sent got : ℤ} {d' d'' : D} {response : Bytes}
      → hid.hid_send_feature_report d r.request ≡ (sent, d')
      → to_size sent ≡ r.report_size
      → hid.hid_get_feature_report d' r.response ≡ (got, response, d'')
      → (to_size got == r.report_size) ≡ false
      → Exchanged hid r d (Status.read_failed, record r { response = response }, d'')
  replied :
      {sent got : ℤ} {d' d'' : D} {response : Bytes} (code : ℕ)
      → hid.hid_send_feature_report d r.request ≡ (sent, d')
      → to_size sent ≡ r.report_size
      → hid.hid_get_feature_report d' r.response ≡ (got, response, d'')
      → to_size got ≡ r.report_size
      → read response 1 ≡ ok code
      → Exchanged hid r d (result_to_status code, record r { response = response }, d'')

-- Both buffers keep their size, and the exchange comes to what the transfers say.
pub record KeepsSize {D : Type 0} (hid : Hidapi D) (r : FeatureReport) (d : D)
    (result : Status × FeatureReport × D) : Type 0 where
  pub well_formed : IsFeatureReport (result.1)
  pub same_size : (result.1).report_size ≡ r.report_size
  pub exchanged : Exchanged hid r d result

module _ {D : Type 0} (hid : Hidapi D) where
  -- With hidapi as it is documented, sending a well-formed feature report and taking the answer
  -- returns, reads nothing outside the buffers, and leaves the report well formed and of the same size.
  -- The status is WRITE_FAILED if the report was not sent whole, and nothing else is done then;
  -- READ_FAILED if the answer was not received whole; and otherwise that of the second byte of the answer.
  -- The answer is kept in the report, whose request stays as it was.
  pub send_receive-Returns :
      (r : FeatureReport) (d : D)
      → IsHidapi hid
      → IsFeatureReport r
      → Returns (KeepsSize hid r d) (mccr_feature_report_send_receive hid r d)
  unfolding mccr_feature_report_send_receive
  send_receive-Returns r d h v =
      let (sent, d1) = hid.hid_send_feature_report d r.request in
      let answered : FeatureReport = record r {
        response = (hid.hid_get_feature_report d1 r.response).1;
      } in
      let v' : IsFeatureReport answered = record {
        request_size = v.request_size;
        response_size = h.buffer_size d1 r.response ∙ v.response_size;
        header = v.header;
      } in
      let inside : 1 < length answered.response = omega (arith, v'.response_size, v.header) in
      let (code, e) = read_inside answered.response 1 inside in
      elim (Bool-cases (to_size sent == r.report_size)) [
        | inr short ↦ simp short (
            returned
              (record { well_formed = v; same_size = refl; exchanged = not_sent refl short }))
        | inl whole ↦
            elim (Bool-cases
              (to_size (hid.hid_get_feature_report d1 r.response).0 == r.report_size)) [
                | inr less ↦
                    simp (whole, less)
                      (returned (record {
                        well_formed = v';
                        same_size = refl;
                        exchanged = not_received refl (ground (arith, whole)) refl less;
                      }))
                | inl all ↦
                    simp (whole, all, e)
                      (returned (record {
                        well_formed = v';
                        same_size = refl;
                        exchanged =
                            replied code refl (ground (arith, whole)) refl (ground (arith, all)) e;
                      }))
              ]
      ]
