-- ===== src/FeatureReport/Request.antt =====
-- What a feature report and a request look like in memory (src/libmccr/mccr-feature-report.c).
use mccr.Prelude.{
  ℕ, suc, ◌+◌, ◌-◌, ◌%◌, ◌^◌, ◌<◌, ◌≤◌, ◌≡◌, sym, ap, ◌∙◌, true, false, [], ◌∷◌, ◌++◌, Option, none,
  some, Run, ok, arith, leb, ◌==◌, le→leb, length, drop, replicate, write_block, write_block_inside,
  drop-drop, drop-replicate, ◌>>=◌, length-replicate,
}
use mccr.Prelude.Bytes.{Bytes}
use mccr.Hid.Usages.{Allocator, size_mod}
use mccr.Hid.Context.{DescriptorContext, get_feature_report_size}
use mccr.FeatureReport.{
  FeatureReport, header_size, mccr_feature_report_new, mccr_feature_report_reset,
  mccr_feature_report_set_request,
}

-- Both buffers are as long as the report, and there is room for the header.
pub record IsFeatureReport (r : FeatureReport) : Type 0 where
  pub request_size : length r.request ≡ r.report_size
  pub response_size : length r.response ≡ r.report_size
  pub header : 3 ≤ r.report_size

-- A feature report that is made for a descriptor whose feature report has two bytes or more is well
-- formed: its buffers are as long as it says, and there is room for the header.
pub mccr_feature_report_new-IsFeatureReport :
    (grants : Allocator) (desc : DescriptorContext) (calls : ℕ) (r : FeatureReport)
    → 2 ≤ get_feature_report_size desc
    → (mccr_feature_report_new grants desc calls).0 ≡ some r
    → IsFeatureReport r
unfolding mccr_feature_report_new
mccr_feature_report_new-IsFeatureReport grants desc calls r h e =
    ground (arith, length-replicate {A = ℕ} (1 + desc.feature.size) 0)

pub mccr_feature_report_reset-IsFeatureReport :
    (r : FeatureReport) → IsFeatureReport r → IsFeatureReport (mccr_feature_report_reset r)
unfolding mccr_feature_report_reset
mccr_feature_report_reset-IsFeatureReport r v = record {
  request_size = length-replicate r.report_size 0;
  response_size = length-replicate r.report_size 0;
  header = v.header;
}

-- the bytes behind a pointer and a size
abbrev pub payload_of : Option Bytes → Bytes
payload_of none = []
payload_of (some bs) = bs

-- The request that the reader should get: report id 0, the command, the length, the data, zeroes.
abbrev pub request_bytes : ℕ → ℕ → Bytes → Bytes
request_bytes size command bytes =
    0 ∷ command ∷ (length bytes % 256) ∷ (bytes ++ replicate (size - 3 - length bytes) 0)

abbrev sent : ℕ → Bytes → ℕ → Bytes → FeatureReport
sent size response command bytes = record {
  report_size = size;
  request = request_bytes size command bytes;
  response = response;
}

abbrev zeroed : ℕ → Bytes → FeatureReport
zeroed size response = record {
  report_size = size;
  request = replicate size 0;
  response = response;
}

fits_header :
    (n m : ℕ) → m + 3 ≤ n → n < 2 ^ 63 → leb m ((n + size_mod - header_size) % size_mod) ≡ true
fits_header n m h small = le→leb _ _ (omega arith)

-- The payload overwrites the zeroes behind the header.
write_payload :
    (k a c l : ℕ) (bs : Bytes)
    → length bs ≤ k
    → write_block (a ∷ c ∷ l ∷ replicate k 0) 3 bs
      ≡ ok (a ∷ c ∷ l ∷ (bs ++ replicate (k - length bs) 0))
write_payload k a c l bs h =
    let behind : drop (3 + length bs) (a ∷ c ∷ l ∷ replicate k 0) ≡ replicate (k - length bs) 0 =
      sym (drop-drop (length bs) 3 (a ∷ c ∷ l ∷ replicate k 0)) ∙ drop-replicate (length bs) k 0 in
    write_block_inside (a ∷ c ∷ l ∷ replicate k 0) 3 bs
      (omega (arith, length-replicate {A = ℕ} k 0))
    ∙ ap (λ (t : Bytes). ok (a ∷ c ∷ l ∷ (bs ++ t))) behind

write_length :
    (k c l : ℕ)
    → write_block (0 ∷ c ∷ 0 ∷ replicate k 0) 2 (l ∷ []) ≡ ok (0 ∷ c ∷ l ∷ replicate k 0)
write_length k c l = write_block_inside (0 ∷ c ∷ 0 ∷ replicate k 0) 2 (l ∷ []) (omega arith)

room_for_two : (k : ℕ) → leb 2 (suc (suc (suc (length (replicate {A = ℕ} k 0))))) ≡ true
room_for_two k = le→leb _ _ (omega arith)

set_request-zeroed :
    (n k : ℕ) (response : Bytes) (command : ℕ) (payload : Option Bytes)
    → n ≡ suc (suc (suc k))
    → length (payload_of payload) + 3 ≤ n
    → n < 2 ^ 63
    → mccr_feature_report_set_request (zeroed n response) command payload
      ≡ ok (sent n response command (payload_of payload))
unfolding mccr_feature_report_set_request
set_request-zeroed n k response command none e fits small =
    let kept : suc (suc (suc k)) - 3 - 0 ≡ k = omega arith in
    rw (fits_header n 0 fits small) (rw e (rw (room_for_two k) (rw kept)))
set_request-zeroed n k response command (some []) e fits small =
    let kept : suc (suc (suc k)) - 3 - 0 ≡ k = omega arith in
    rw (fits_header n 0 fits small) (rw e (rw (room_for_two k) (rw kept)))
set_request-zeroed n k response command (some (b ∷ bs)) e fits small =
    let kept : suc (suc (suc k)) - 3 - length (b ∷ bs) ≡ k - length (b ∷ bs) = omega arith in
    let full : (length (b ∷ bs) == 0) ≡ false = ground arith in
    rw (fits_header n (length (b ∷ bs)) fits small) (
      rw e (
        rw (room_for_two k) (
          rw full (
            rw (write_length k command (length (b ∷ bs) % 256)) (
              rw kept (
                ap
                  (λ (m : Run Bytes). m >>= λ filled. ok (record {
                    report_size = suc (suc (suc k));
                    request = filled;
                    response = response;
                  }))
                  (write_payload k 0 command (length (b ∷ bs) % 256) (b ∷ bs) (omega arith))))))))

-- After a reset of a well-formed report, setting a request whose data fits behind the header returns,
-- and the request is the report id 0, the command, the length, the data and zeroes to the end; the
-- response is zeroes. The report is shorter than 2 ^ 63 bytes.
pub set_request-request_bytes :
    (r : FeatureReport) (command : ℕ) (payload : Option Bytes)
    → IsFeatureReport r
    → length (payload_of payload) + 3 ≤ r.report_size
    → r.report_size < 2 ^ 63
    → mccr_feature_report_set_request (mccr_feature_report_reset r) command payload
      ≡ ok (record {
        report_size = r.report_size;
        request = request_bytes r.report_size command (payload_of payload);
        response = replicate r.report_size 0;
      })
unfolding mccr_feature_report_reset
set_request-request_bytes r command payload v fits small =
    set_request-zeroed r.report_size (r.report_size - 3) (replicate r.report_size 0) command payload
      (omega (arith, v.header)) fits small
