-- ===== src/Hid/Tests.antt =====
-- Report descriptors run through the parser.
use mccr.Prelude.{ℕ, ◌≡◌, refl, true, [], ◌∷◌, Option, some, none, ok, aborted, Run}
use mccr.Prelude.Bytes.{Bytes}
use mccr.Status.{Status}
use mccr.Hid.Usages.{
  Allocator, grow, copy_items, append_to_usage_array, lookup_usage_array, lookup_from,
}
use mccr.Hid.Context.{
  DescriptorContext, context_ref, context_unref, get_input_report_usage, get_input_report_size,
  get_feature_report_usage, get_feature_report_size,
}
use mccr.Hid.Parser.{
  process_input_output_feature, check_collection, process_collection, process_collection_end,
  parse_item_main, process_report_count, process_report_size, process_usage_page, parse_item_global,
  process_usage, parse_item_local, parse_short_item, parse_long_item, parse_step, parse_loop,
  parse_report_descriptor,
}
use mccr.Hid.Reports.{
  place, end_offset, process_report, process_input_report, process_feature_report, finish_parse,
  mccr_parse_report_descriptor,
}

abbrev pub always : Allocator
always n bytes = true

-- the parser with all that it calls
unfoldable pub parse : Bytes → Run (Status × Option DescriptorContext)
unfolding grow copy_items append_to_usage_array lookup_usage_array lookup_from context_ref
    context_unref get_input_report_usage get_input_report_size get_feature_report_usage
    get_feature_report_size process_input_output_feature check_collection process_collection
    process_collection_end parse_item_main process_report_count process_report_size
    process_usage_page parse_item_global process_usage parse_item_local parse_short_item
    parse_long_item parse_step parse_loop parse_report_descriptor place end_offset process_report
    process_input_report process_feature_report finish_parse mccr_parse_report_descriptor
parse desc = mccr_parse_report_descriptor always true desc

-- usage page, usage 1, application collection, report size 8; input usages 0x20 and 0x21 of one
-- byte each, 0x30 of four; feature usage 0x20 of three bytes; end collection
abbrev pub swipe_descriptor : Bytes
swipe_descriptor =
    0x06 ∷ 0x00 ∷ 0xff ∷ 0x09 ∷ 0x01 ∷ 0xa1 ∷ 0x01 ∷ 0x75 ∷ 0x08 ∷ 0x09 ∷ 0x20 ∷ 0x09 ∷ 0x21 ∷ 0x95
    ∷ 0x02 ∷ 0x81 ∷ 0x02 ∷ 0x09 ∷ 0x30 ∷ 0x95 ∷ 0x04 ∷ 0x81 ∷ 0x02 ∷ 0x09 ∷ 0x20 ∷ 0x95 ∷ 0x03
    ∷ 0xb1 ∷ 0x02 ∷ 0xc0 ∷ []

abbrev summary : Run (Status × Option DescriptorContext) → Option ((Option (ℕ × ℕ)) × ℕ × ℕ)
summary (ok (st, some c)) =
    some (get_input_report_usage c 0x30, get_input_report_size c, get_feature_report_size c)
summary _ = none

parse-swipe_descriptor : summary (parse swipe_descriptor) ≡ some (some (16, 32), 6, 3)
unfolding parse
parse-swipe_descriptor = refl

-- an Input item with no usage before it stops the process
parse_aborts : parse (0x81 ∷ 0x02 ∷ []) ≡ aborted
unfolding parse
parse_aborts = refl

-- an unsupported usage page is refused
parse_refuses : parse (0x06 ∷ 0x01 ∷ 0x00 ∷ []) ≡ ok (Status.failed, none)
unfolding parse
parse_refuses = refl
