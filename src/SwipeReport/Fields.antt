-- ===== src/SwipeReport/Fields.antt =====
-- Where the getters of a swipe report (src/libmccr/mccr.c) look for their fields.
use mccr.Prelude.{
  ℕ, ◌+◌, ◌*◌, ◌/◌, ◌%◌, ◌≤◌, ◌<◌, ◌≡◌, refl, false, not, ◌&&◌, ◌||◌, Option, none, some, ok, arith,
  ltb, ◌==◌, Bool-cases, inl, inr, ◌⊎◌, length, read_inside, Returns, returned, Returns-bind,
  Returns-if,
}
use mccr.Hid.Usages.{is_null}
use mccr.Hid.Context.{DescriptorContext, get_input_report_usage}
use mccr.Hid.Parser.{word_mod}
use mccr.Status.{Status, is_ok}
use mccr.InputReport.{InputReport, mccr_input_report_get_data}
use mccr.Device.{Contexts}
use mccr.Device.Lifetime.{load_lem}
use mccr.SwipeReport.{SwipeReport, swipe_report_get_usage, check_usage, read_field, get_byte_field}

-- The offsets and sizes of the fields are 32-bit words.
pub record HasWords (desc : DescriptorContext) : Type 0 where
  pub words :
      (usage_id offset_bits size_bits : ℕ)
      → get_input_report_usage desc usage_id ≡ some (offset_bits, size_bits)
      → (offset_bits < word_mod) × (size_bits < word_mod)

-- What a look-up of a field of an input report comes to.
pub data Located (desc : DescriptorContext) (report_size usage_id expected : ℕ)
    : Status × Option ℕ → Type 0 where
  -- the field is whole bytes long, as long as is expected, and inside the report
  found :
      {offset : ℕ} (offset_bits size_bits : ℕ)
      → get_input_report_usage desc usage_id ≡ some (offset_bits, size_bits)
      → offset_bits ≡ 8 * offset
      → (expected ≡ 0) ⊎ (size_bits ≡ 8 * expected)
      → 8 * offset + size_bits ≤ 8 * report_size
      → Located desc report_size usage_id expected (Status.ok, some offset)
  refused : {st : Status} → is_ok st ≡ false → Located desc report_size usage_id expected (st, none)

whole_bytes : (o s : ℕ) → (not (o % 8 == 0) || not (s % 8 == 0)) ≡ false → (o % 8 ≡ 0) × (s % 8 ≡ 0)
whole_bytes o s h = ground arith

as_expected :
    (o s expected : ℕ)
    → (not (o % 8 == 0) || not (s % 8 == 0)) ≡ false
    → (not (expected == 0) && not (s / 8 == expected)) ≡ false
    → (expected ≡ 0) ⊎ (s ≡ 8 * expected)
as_expected o s expected aligned h =
    let (_, whole) = whole_bytes o s aligned in
    elim (Bool-cases (expected == 0)) [
      | inl any ↦ inl (ground arith)
      | inr one ↦ let agreed : s / 8 ≡ expected = ground arith in inr (omega arith)
    ]

-- The sum of a byte offset and a byte size cannot wrap around.
inside_report :
    (o s size : ℕ)
    → (not (o % 8 == 0) || not (s % 8 == 0)) ≡ false
    → o < word_mod
    → s < word_mod
    → ltb size ((o / 8 + s / 8) % word_mod) ≡ false
    → 8 * (o / 8) + s ≤ 8 * size
inside_report o s size aligned small small' h =
    let (_, whole) = whole_bytes o s aligned in
    let bound : (o / 8 + s / 8) % word_mod ≤ size = ground arith in omega arith

check_usage-Located :
    (r : InputReport) (desc : DescriptorContext) (usage_id expected : ℕ) (o : Option (ℕ × ℕ))
    → get_input_report_usage desc usage_id ≡ o
    → HasWords desc
    → Returns (Located desc r.report_size usage_id expected) (check_usage r expected o)
unfolding check_usage mccr_input_report_get_data
check_usage-Located r desc usage_id expected none e w = returned (refused refl)
check_usage-Located r desc usage_id expected (some (offset_bits, size_bits)) e w =
    let (o, s) = w.words usage_id offset_bits size_bits e in
    Returns-if (not (offset_bits % 8 == 0) || not (size_bits % 8 == 0)) (ok (Status.internal, none))
      _ (λ _. returned (refused refl))
      (λ aligned.
        Returns-if (not (expected == 0) && not (size_bits / 8 == expected))
          (ok (Status.unexpected_format, none)) _ (λ _. returned (refused refl))
          (λ agreed.
            Returns-if (ltb r.report_size ((offset_bits / 8 + size_bits / 8) % word_mod))
              (ok (Status.unexpected_format, none)) (ok (Status.ok, some (offset_bits / 8)))
              (λ _. returned (refused refl))
              (λ inside. returned (
                found offset_bits size_bits e
                  (omega (arith, (whole_bytes offset_bits size_bits aligned).0))
                  (as_expected offset_bits size_bits expected aligned agreed)
                  (inside_report offset_bits size_bits r.report_size aligned o s inside)))))

-- While the context of a swipe report is in the heap and its fields are 32-bit words, looking up a
-- field returns a status: OK with an offset of whole bytes, where the field ends inside the input
-- report and is as long as is expected, if a length is, or another status and no offset. The sum of
-- offset and size, which is computed in 32 bits, does not let a longer field through.
pub get_usage-Located :
    (heap : Contexts) (report : SwipeReport) (desc : DescriptorContext) (usage_id expected : ℕ)
    → heap report.desc ≡ some desc
    → HasWords desc
    → Returns
        (Located desc report.input_report.report_size usage_id expected)
        (swipe_report_get_usage heap report usage_id expected)
unfolding swipe_report_get_usage
get_usage-Located heap report desc usage_id expected e w =
    rw (load_lem heap report.desc desc e)
      (check_usage-Located report.input_report desc usage_id expected _ refl w)

read_field_lem :
    (desc : DescriptorContext) (r : InputReport) (usage_id : ℕ) {result : Status × Option ℕ}
    → length r.report_data ≡ r.report_size
    → Located desc r.report_size usage_id 1 result
    → Returns (λ value. is_ok value.0 ≡ not (is_null value.1)) (read_field r.report_data result)
unfolding read_field
read_field_lem desc r usage_id full (refused failed) = returned failed
read_field_lem desc r usage_id full (found offset_bits size_bits e o (inl never) inside) =
    absurd (omega arith)
read_field_lem desc r usage_id full (found {offset} offset_bits size_bits e o (inr byte) inside) =
    let (value, e') = read_inside r.report_data offset (omega arith) in simp e' (returned refl)

-- While the context of a swipe report is in the heap, its fields are 32-bit words and its input report
-- is as long as it says, a getter of a one-byte field returns without a read outside the report,
-- whatever the descriptor said, and gives a value just when the status is OK.
pub get_byte_field-Returns :
    (heap : Contexts) (report : SwipeReport) (desc : DescriptorContext) (usage_id : ℕ)
    → heap report.desc ≡ some desc
    → HasWords desc
    → length report.input_report.report_data ≡ report.input_report.report_size
    → Returns
        (λ result. is_ok result.0 ≡ not (is_null result.1))
        (get_byte_field heap report usage_id)
unfolding get_byte_field
get_byte_field-Returns heap report desc usage_id e w full =
    Returns-bind _ (get_usage-Located heap report desc usage_id 1 e w)
      (λ _. read_field_lem desc report.input_report usage_id full)
