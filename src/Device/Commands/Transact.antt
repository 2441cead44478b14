-- ===== src/Device/Commands/Transact.antt =====
-- What the three calls of every command of src/libmccr/mccr.c come to on an open device.
use mccr.Prelude.{
  ℕ, ◌+◌, ◌-◌, ◌^◌, ◌≤◌, ◌<◌, ◌≡◌, refl, ap, sym, subst, ◌∙◌, Option, false, none, some, Run, ok,
  fault, ◌>>=◌, arith, length, length-append, length-replicate, replicate, Returns, returned,
  Returns-bind,
}
use mccr.Prelude.Bytes.{Bytes}
use mccr.Hidapi.{Hidapi, IsHidapi}
use mccr.Hid.Usages.{is_null}
use mccr.Status.{Status}
use mccr.FeatureReport.{FeatureReport, mccr_feature_report_send_receive}
use mccr.FeatureReport.Request.{
  IsFeatureReport, payload_of, request_bytes, set_request-request_bytes,
}
use mccr.FeatureReport.Exchange.{send_receive-Returns}
use mccr.Device.{Device}
use mccr.Device.Commands.{exchange, transact}

-- The device is open: it has a handle, and a feature report that is well formed and of this size.
pub record IsOpen {D : Type 0} (size : ℕ) (device : Device D) : Type 0 where
  pub report : FeatureReport
  pub handle : D
  pub has_report : device.feature_report ≡ some report
  pub has_handle : device.hid ≡ some handle
  pub well_formed : IsFeatureReport report
  pub has_size : report.report_size ≡ size

-- The guard of the commands lets an open device pass.
pub IsOpen-not_null :
    {D : Type 0} {size : ℕ} {device : Device D}
    → IsOpen size device
    → is_null device.feature_report ≡ false
IsOpen-not_null o = ap is_null o.has_report

-- the feature report as it is handed to hidapi
abbrev pub asked : ℕ → ℕ → Option Bytes → FeatureReport
asked size command payload = record {
  report_size = size;
  request = request_bytes size command (payload_of payload);
  response = replicate size 0;
}

request_bytes_lem :
    (size command : ℕ) (payload : Option Bytes)
    → length (payload_of payload) + 3 ≤ size
    → length (request_bytes size command (payload_of payload)) ≡ size
request_bytes_lem size command payload fits =
    let rest = size - 3 - length (payload_of payload) in
    omega (
      arith,
      length-append (payload_of payload) (replicate rest 0),
      length-replicate {A = ℕ} rest 0,
    )

module _ {D : Type 0} (hid : Hidapi D) where
  -- and so it did where the calls succeeded
  call-not_null :
      {A : Type 0} {a : A} (report : Option FeatureReport) (f : FeatureReport → Run A)
      → elim report [ none ↦ fault | some r ↦ f r ] ≡ ok a
      → is_null report ≡ false
  call-not_null none f e = cc (e)
  call-not_null (some r) f e = refl

  pub transact-not_null :
      {result : Status × Device D} (device : Device D) (command : ℕ) (payload : Option Bytes)
      → transact hid device command payload ≡ ok result
      → is_null device.feature_report ≡ false
  unfolding transact
  transact-not_null device command payload e =
      call-not_null device.feature_report (λ r. exchange hid r device command payload) e

  exchange-request_bytes :
      (device : Device D) (command : ℕ) (payload : Option Bytes) (r : FeatureReport) (d : D)
      → device.hid ≡ some d
      → IsFeatureReport r
      → length (payload_of payload) + 3 ≤ r.report_size
      → r.report_size < 2 ^ 63
      → exchange hid r device command payload ≡ (
          mccr_feature_report_send_receive hid (asked r.report_size command payload) d
          >>= λ (st, r', d'). ok (st, record device { feature_report = some r'; hid = some d' }))
  unfolding exchange
  exchange-request_bytes device command payload r d has_handle v fits small =
      simp (set_request-request_bytes r command payload v fits small, has_handle)

  -- On a device with a handle and a well-formed feature report shorter than 2 ^ 63 bytes, a command
  -- with data that fits behind the header exchanges exactly the bytes that the reader expects, with
  -- nothing that an earlier command left behind, and keeps the report and the handle that come back.
  pub transact-request_bytes :
      (device : Device D) (command : ℕ) (payload : Option Bytes) (r : FeatureReport) (d : D)
      → device.feature_report ≡ some r
      → device.hid ≡ some d
      → IsFeatureReport r
      → length (payload_of payload) + 3 ≤ r.report_size
      → r.report_size < 2 ^ 63
      → transact hid device command payload ≡ (
          mccr_feature_report_send_receive hid (asked r.report_size command payload) d
          >>= λ (st, r', d'). ok (st, record device { feature_report = some r'; hid = some d' }))
  unfolding transact exchange
  transact-request_bytes device command payload r d has_report has_handle v fits small =
      ap
        (λ (o : Option FeatureReport). elim o [
          | none ↦ fault
          | some r ↦ exchange hid r device command payload
        ])
        has_report
      ∙ exchange-request_bytes device command payload r d has_handle v fits small

  -- With hidapi as it is documented, a command with data that fits behind the header, on an open device
  -- whose feature report is shorter than 2 ^ 63 bytes, returns, and the device stays open with a feature
  -- report of the same size.
  pub transact-Returns :
      (device : Device D) (command size : ℕ) (payload : Option Bytes)
      → IsHidapi hid
      → IsOpen size device
      → length (payload_of payload) + 3 ≤ size
      → size < 2 ^ 63
      → Returns (λ result. IsOpen size (result.1)) (transact hid device command payload)
  transact-Returns device command size payload h o fits small =
      let r = o.report in
      let fits' : length (payload_of payload) + 3 ≤ r.report_size = omega (arith, o.has_size) in
      let small' : r.report_size < 2 ^ 63 = omega (arith, o.has_size) in
      let v : IsFeatureReport (asked r.report_size command payload) = record {
        request_size = request_bytes_lem r.report_size command payload fits';
        response_size = length-replicate r.report_size 0;
        header = o.well_formed.header;
      } in
      subst (Returns (λ result. IsOpen size (result.1)))
        (sym (
          transact-request_bytes device command payload r o.handle o.has_report o.has_handle
            o.well_formed fits' small'))
        (Returns-bind _
          (send_receive-Returns hid (asked r.report_size command payload) o.handle h v)
          (λ (st, r', d') kept. returned (record {
            report = r';
            handle = d';
            has_report = refl;
            has_handle = refl;
            well_formed = kept.well_formed;
            has_size = kept.same_size ∙ o.has_size;
          })))
