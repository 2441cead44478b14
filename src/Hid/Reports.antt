-- ===== src/Hid/Reports.antt =====
-- process_report and mccr_parse_report_descriptor of src/libmccr/mccr-hid.c.
pub mod Layout
use mccr.Prelude.{
  ℕ, ◌+◌, ◌/◌, ◌%◌, Bool, true, false, List, [], ◌∷◌, Option, none, some, Run, ok, ◌>>=◌, ◌==◌,
  if◌then◌else◌,
}
use mccr.Prelude.Bytes.{Bytes}
use mccr.Hid.Usages.{Usage, contents, Allocator}
use mccr.Hid.Context.{Report, DescriptorContext, context_ref, context_unref}
use mccr.Hid.Parser.{ParseContext, word_mod, fail, fresh_parse_context, parse_report_descriptor}
use mccr.Status.{Status}

-- The loop of process_report: every usage gets the sum of the sizes before it, in 32 bits.
unfoldable pub place : ℕ → List Usage → List Usage
place offset [] = []
place offset (u ∷ us) =
    record u { offset_bits = offset } ∷ place ((offset + u.size_bits) % word_mod) us

-- `offset_bits` after the loop
unfoldable pub end_offset : ℕ → List Usage → ℕ
end_offset offset [] = offset
end_offset offset (u ∷ us) = end_offset ((offset + u.size_bits) % word_mod) us

abbrev pub placed : Report → Report
placed r = record r { usages = record (r.usages) { buffer = some (place 0 (contents r.usages)) } }

-- The report and whether it is refused, for a report of a context that has no error yet.
unfoldable pub process_report : Report → Report × Bool
process_report r =
    if r.usages.size == 0
    then (r, true)
    else let offset = end_offset 0 (contents r.usages) in
      if offset % 8 == 0 then (record (placed r) { size = offset / 8 }, false) else (placed r, true)

-- process_report on `ctx->desc_ctx->input`
unfoldable pub process_input_report : ParseContext → ParseContext
process_input_report ctx =
    let (r, refused) = process_report ctx.desc_ctx.input in
    let stored : ParseContext = record ctx { desc_ctx = record (ctx.desc_ctx) { input = r } } in
    if ctx.fatal_error then ctx else if refused then fail stored else stored

-- process_report on `ctx->desc_ctx->feature`
unfoldable pub process_feature_report : ParseContext → ParseContext
process_feature_report ctx =
    let (r, refused) = process_report ctx.desc_ctx.feature in
    let stored : ParseContext = record ctx { desc_ctx = record (ctx.desc_ctx) { feature = r } } in
    if ctx.fatal_error then ctx else if refused then fail stored else stored

-- What mccr_parse_report_descriptor does after the walk. `none` for the context stands for an
-- output that is not written.
unfoldable pub finish_parse : ParseContext → Status × Option DescriptorContext
finish_parse ctx =
    let done = process_feature_report (process_input_report ctx) in
    if done.fatal_error
    then (Status.failed, none)
    else (Status.ok, context_unref (context_ref done.desc_ctx))

-- sizeof (mccr_report_descriptor_context_t): a count and two reports of four words
abbrev pub sizeof_context : ℕ
sizeof_context = 72

-- The `calloc` of the context is request 0; its result is used unchecked.
unfoldable pub mccr_parse_report_descriptor :
    Allocator → Bool → Bytes → Run (Status × Option DescriptorContext)
mccr_parse_report_descriptor grants log_is_enabled desc =
    if grants 0 sizeof_context
    then (do
      ctx ← parse_report_descriptor grants log_is_enabled fresh_parse_context desc
      ok (finish_parse ctx))
    else Run.fault
