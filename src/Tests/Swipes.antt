-- ===== src/Tests/Swipes.antt =====
-- Receiving and reading a swipe report, and the life of its context (src/libmccr/mccr-input-report.c,
-- src/libmccr/mccr.c).
use mccr.Prelude.{
  ℕ, ◌<◌, ◌≡◌, refl, ap, Bool, true, false, not, [], ◌∷◌, Option, none, some, ok, ◌>>=◌, arith,
  ◌==◌, if◌then◌else◌, replicate, Ends, Returns,
}
use mccr.Prelude.Int.{pos}
use mccr.Status.{Status, is_ok}
use mccr.Hid.Parser.{word_mod}
use mccr.Hid.Usages.{Usage, empty_array, is_null, lookup_usage_array, lookup_from}
use mccr.Hid.Context.{DescriptorContext, get_input_report_usage, get_feature_report_size}
use mccr.Hid.Tests.{always, swipe_descriptor}
use mccr.FeatureReport.{mccr_feature_report_new}
use mccr.FeatureReport.Request.{IsFeatureReport, mccr_feature_report_new-IsFeatureReport}
use mccr.InputReport.{InputReport, mccr_input_report_receive}
use mccr.InputReport.Receive.{Outcome, receive-Outcome}
use mccr.SwipeReport.{SwipeReport, swipe_report_get_usage, get_byte_field}
use mccr.SwipeReport.Fields.{HasWords, Located, get_usage-Located, get_byte_field-Returns}
use mccr.Device.{Contexts, update, ref_at, mccr_device_close, mccr_device_open}
use mccr.Device.Lifetime.{closed, close_keeps_report, close_again, reopen-close-close}
use mccr.Device.Opening.{Settled, mccr_device_open-Settled}
use mccr.Tests.Readers.{reader, reader-IsHidapi, open_device}

abbrev three_bytes : InputReport
three_bytes = record { report_data = replicate 3 0; report_size = 3 }

receive-Outcome_example :
    Returns
      (Outcome reader (pos 100) 3 0)
      (mccr_input_report_receive reader three_bytes (pos 100) 0)
receive-Outcome_example = receive-Outcome reader (pos 100) three_bytes 0 reader-IsHidapi refl

-- a context whose input report has one byte, the decode status of track 1, at its second byte
abbrev one_field : DescriptorContext
one_field = record {
  refcount = 1;
  input = record {
    usages = record {
      buffer = some (record { id = 0x20; size_bits = 8; offset_bits = 8 } ∷ []);
      size = 1;
      allocated = 2;
    };
    size = 3;
  };
  feature = record { usages = empty_array; size = 2 };
}

abbrev field : Usage
field = record { id = 0x20; size_bits = 8; offset_bits = 8 }

-- the offset and the size of a field, where there are some
abbrev words_of : Option (ℕ × ℕ) → ℕ × ℕ
words_of none = (0, 0)
words_of (some w) = w

abbrev usage_words : Option Usage → Option (ℕ × ℕ)
usage_words o = elim o [ none ↦ none | some usage ↦ some (usage.offset_bits, usage.size_bits) ]

words_if :
    (t : Bool) (offset_bits size_bits : ℕ)
    → usage_words (if t then some field else none) ≡ some (offset_bits, size_bits)
    → (offset_bits < word_mod) × (size_bits < word_mod)
words_if true offset_bits size_bits e =
    (omega (arith, ap (λ o. (words_of o).0) e), omega (arith, ap (λ o. (words_of o).1) e))
words_if false offset_bits size_bits e = absurd (cc (e))

one_field-HasWords : HasWords one_field
unfolding get_input_report_usage lookup_usage_array lookup_from
one_field-HasWords = record {
  words = λ usage_id offset_bits size_bits e. words_if (0x20 == usage_id) offset_bits size_bits e;
}

abbrev heap : Contexts
heap = update (λ p. none) 3 (some one_field)

abbrev swipe : SwipeReport
swipe = record { input_report = three_bytes; desc = 3 }

get_usage-Located_example :
    Returns (Located one_field 3 0x20 1) (swipe_report_get_usage heap swipe 0x20 1)
get_usage-Located_example = get_usage-Located heap swipe one_field 0x20 1 refl one_field-HasWords

get_byte_field-Returns_example :
    Returns
      (λ (result : Status × Option ℕ). is_ok result.0 ≡ not (is_null result.1))
      (get_byte_field heap swipe 0x20)
get_byte_field-Returns_example =
    get_byte_field-Returns heap swipe one_field 0x20 refl one_field-HasWords refl

close_keeps_report_example :
    Returns
      (λ (left, heap'). heap' 3 ≡ some one_field)
      (ref_at heap 3 >>= mccr_device_close open_device)
close_keeps_report_example =
    close_keeps_report open_device heap 3 one_field refl refl (omega arith) (omega arith)

reopen-close-close_example :
    (mccr_device_open reader always always true (λ path. (Status.failed, [])) open_device heap 4
      >>= (λ (st, opened, heap'). mccr_device_close opened heap')
      >>= close_again)
    ≡ ok (some (closed open_device))
reopen-close-close_example =
    reopen-close-close reader always always true (λ path. (Status.failed, [])) open_device heap 3 4
      one_field refl refl (omega arith) (omega arith)

new_report-IsFeatureReport :
    IsFeatureReport (record { report_size = 3; request = replicate 3 0; response = replicate 3 0 })
unfolding mccr_feature_report_new get_feature_report_size
new_report-IsFeatureReport =
    mccr_feature_report_new-IsFeatureReport always one_field 0 _ (omega arith) refl

mccr_device_open-Settled_example : Ends (Settled (closed open_device) heap 4) (
    mccr_device_open reader always always true
      (λ path. (Status.ok, swipe_descriptor))
      (closed open_device)
      heap
      4)
mccr_device_open-Settled_example =
    mccr_device_open-Settled reader always always true (λ path. (Status.ok, swipe_descriptor))
      (closed open_device) heap 4 refl refl (omega arith)
