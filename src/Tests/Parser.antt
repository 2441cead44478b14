-- ===== src/Tests/Parser.antt =====
-- The parser of descriptors (src/libmccr/mccr-hid.c) on a descriptor, on two items and on a report.
use mccr.Prelude.{
  ℕ, ◌+◌, ◌*◌, ◌%◌, ◌≢◌, ◌≤◌, ◌≡◌, ◌⊎◌, inl, refl, true, false, [], ◌∷◌, ◌++◌, List, some, ok,
  aborted, arith, Ends,
}
use mccr.Hid.Usages.{
  UsageArray, empty_array, append_to_usage_array, lookup_usage_array, lookup_from, contents,
}
use mccr.Hid.Usages.Append.{IsArray, append-IsArray, append_aborts, empty_array-IsArray}
use mccr.Hid.Context.{Report}
use mccr.Hid.Parser.{parse_report_descriptor, fresh_parse_context}
use mccr.Hid.Parser.Items.{Item, parse_items}
use mccr.Hid.Parser.Refine.{parse_report_descriptor-encode}
use mccr.Hid.Parser.Invariant.{IsContext}
use mccr.Hid.Parser.Safe.{parse_report_descriptor-IsContext}
use mccr.Hid.Reports.{process_report, end_offset, place}
use mccr.Hid.Reports.Layout.{
  Contiguous, total_bits, IsLaidOut, process_report_lem, process_report-Contiguous,
  lookup-inside_report,
}
use mccr.Hid.Tests.{always, swipe_descriptor}

parse_report_descriptor-IsContext_example :
    Ends (IsContext 31) (parse_report_descriptor always true fresh_parse_context swipe_descriptor)
parse_report_descriptor-IsContext_example =
    parse_report_descriptor-IsContext always true swipe_descriptor (omega arith)

-- usage 1, report size 8
abbrev two_items : List Item
two_items =
    record { type = 2; tag = 0; payload = 1 ∷ [] }
    ∷ record { type = 1; tag = 7; payload = 8 ∷ [] }
    ∷ []

parse_report_descriptor-encode_example :
    parse_report_descriptor always false fresh_parse_context (0x09 ∷ 1 ∷ 0x75 ∷ 8 ∷ [])
    ≡ parse_items always false two_items fresh_parse_context
parse_report_descriptor-encode_example =
    parse_report_descriptor-encode always false two_items fresh_parse_context (
      record {
        type_fits = omega arith;
        tag_fits = omega arith;
        size_fits = inl (omega arith);
        not_long = λ e. absurd (omega (arith, e));
      },
      (
        record {
          type_fits = omega arith;
          tag_fits = omega arith;
          size_fits = inl (omega arith);
          not_long = λ e. absurd (omega (arith, e));
        },
        tt,
      ),
    )

-- the decode status of track 1, one byte, and its encrypted data, two bytes
abbrev two_usages : UsageArray
two_usages = record {
  buffer = some (
      record { id = 0x20; size_bits = 8; offset_bits = 0 }
      ∷ record { id = 0x30; size_bits = 16; offset_bits = 0 }
      ∷ []);
  size = 2;
  allocated = 2;
}

abbrev two_fields : Report
two_fields = record { usages = two_usages; size = 0 }

two_usages-IsArray : IsArray two_usages
two_usages-IsArray = record { size_is = refl; room = omega arith; null_iff = ground arith }

process_report_lem_example :
    (((process_report two_fields).1 ≡ false) × IsLaidOut two_fields (process_report two_fields).0)
    ⊎ (((process_report two_fields).1 ≡ true)
        × ((two_fields.usages.size ≡ 0) ⊎ (total_bits (contents two_usages) % 8 ≢ 0)))
process_report_lem_example = process_report_lem two_fields two_usages-IsArray

process_report-Contiguous_example :
    Contiguous 0 (contents (process_report two_fields).0.usages)
    × (8 * (process_report two_fields).0.size
        ≡ total_bits (contents (process_report two_fields).0.usages))
unfolding process_report end_offset
process_report-Contiguous_example =
    process_report-Contiguous two_fields two_usages-IsArray (omega arith) refl

lookup-inside_report_example :
    (8 + 16 ≤ 8 * (process_report two_fields).0.size) × ◌≡◌ {A = ℕ} 0x30 0x30
unfolding process_report end_offset place lookup_usage_array lookup_from
lookup-inside_report_example =
    lookup-inside_report two_fields 0x30 two_usages-IsArray (omega arith) refl refl

append-IsArray_example :
    (b : UsageArray) × (n : ℕ) × (append_to_usage_array always two_usages (contents two_usages) 1
      ≡ ok (b, n))
    × IsArray b
    × ((contents b ≡ contents two_usages ++ contents two_usages) ⊎ ((b ≡ empty_array) × (n ≡ 2)))
append-IsArray_example =
    append-IsArray always (contents two_usages) 1 two_usages two_usages-IsArray (omega arith)
      (omega arith)

append_nothing_to_null : append_to_usage_array always empty_array [] 1 ≡ aborted
append_nothing_to_null = append_aborts always 1 empty_array empty_array-IsArray refl
