-- ===== src/Hid/Parser.antt =====
-- `parse_context_t` and the walk over a report descriptor, src/libmccr/mccr-hid.c. What is written to
-- the log is left out; whether the log is on shows in `log_indent`.
pub mod Items
pub mod Refine
pub mod Invariant
pub mod Safe
use mccr.Prelude.{
  ℕ, zero, suc, ◌+◌, ◌-◌, ◌*◌, ◌/◌, ◌%◌, ◌^◌, Bool, true, false, not, ◌&&◌, List, [], ◌∷◌, map,
  Option, none, some, Run, ok, out_of_fuel, ◌>>=◌, ltb, leb, ◌==◌, if◌then◌else◌, length, read,
  read_block,
}
use mccr.Prelude.Bytes.{Bytes, from_le}
use mccr.Hid.Usages.{
  Usage, UsageArray, empty_array, is_null, target, contents, Allocator, append_to_usage_array,
  cleanup_usage_array,
}
use mccr.Hid.Context.{DescriptorContext, fresh_context}

pub record ParseContext : Type 0 where
  pub desc_ctx : DescriptorContext
  pub usage_page : ℕ
  pub report_size : ℕ
  pub report_count : ℕ
  pub collection : ℕ
  pub log_indent : ℕ
  pub fatal_error : Bool
  pub wip_usages : UsageArray
  -- requests for memory made so far
  pub calls : ℕ

-- values of a `uint32_t`
abbrev pub word_mod : ℕ
word_mod = 2 ^ 32

abbrev pub fail : ParseContext → ParseContext
fail ctx = record ctx { fatal_error = true }

abbrev pub set_input : ParseContext → UsageArray × ℕ → ParseContext
set_input ctx (us, calls) = record ctx {
  desc_ctx = record (ctx.desc_ctx) { input = record (ctx.desc_ctx.input) { usages = us } };
  calls = calls;
}

abbrev pub set_feature : ParseContext → UsageArray × ℕ → ParseContext
set_feature ctx (us, calls) = record ctx {
  desc_ctx = record (ctx.desc_ctx) { feature = record (ctx.desc_ctx.feature) { usages = us } };
  calls = calls;
}

abbrev pub cleanup_wip : ParseContext → ParseContext
cleanup_wip ctx = record ctx { wip_usages = cleanup_usage_array ctx.wip_usages }

-- the usage copied in by process_usage: zeroes, but for the id
abbrev pub new_usage : ℕ → Usage
new_usage id = record { id = id; size_bits = 0; offset_bits = 0 }

abbrev pub with_size : ℕ → Usage → Usage
with_size bits u = record u { size_bits = bits }

abbrev pub set_first : ℕ → List Usage → List Usage
set_first bits [] = []
set_first bits (u ∷ us) = with_size bits u ∷ us

-- `log_indent >= 2 ? log_indent - 2 : 0`
abbrev pub dedent : ℕ → ℕ
dedent n = if leb 2 n then n - 2 else 0

-- the `id` of the first usage behind a pointer
abbrev pub first_id : List Usage → ℕ
first_id [] = 0
first_id (u ∷ us) = u.id

-- the checks of process_collection
unfoldable pub check_collection : ParseContext → ℕ → ParseContext
check_collection ctx value =
    if ctx.wip_usages.size == 0
    then fail ctx
    else if not (ctx.wip_usages.size == 1)
    then fail ctx
    else if not (first_id (target ctx.wip_usages.buffer) == 1)
    then fail ctx
    else if not (value == 1)
    then fail ctx
    else cleanup_wip (record ctx { collection = value })

abbrev pub set_wip : ParseContext → List Usage → ParseContext
set_wip ctx us = record ctx { wip_usages = record (ctx.wip_usages) { buffer = some us } }

-- `value * ctx->report_size`, in 32 bits
abbrev pub field_bits : ParseContext → ℕ → ℕ
field_bits ctx value = (value * ctx.report_size) % word_mod

-- The loop of process_report_count from usage `i` on. The counter has 32 bits: where it wraps around it is 0
-- again, which is below the number of usages, and the loop does not come to its end.
unfoldable pub size_usages : ℕ → ℕ → List Usage → Run (List Usage)
size_usages bits i [] = ok []
size_usages bits i (u ∷ us) =
    let rest = size_usages bits (i + 1) us in
    if i + 1 == word_mod then out_of_fuel else (do sized ← rest; ok (with_size bits u ∷ sized))

unfoldable pub process_report_count : ParseContext → ℕ → Run ParseContext
unfolding size_usages
process_report_count ctx value =
    let bits = field_bits ctx value in
    let size = ctx.wip_usages.size in
    if size == 0
    then ok ctx
    else if size == 1
    then (let sized : ParseContext = set_wip ctx (set_first bits (target ctx.wip_usages.buffer)) in
        ok (if bits == 0 then fail sized else sized))
    else if not (bits % size == 0)
    then ok (fail ctx)
    else (do
      usages ← size_usages (bits / size % word_mod) 0 (contents ctx.wip_usages)
      ok (set_wip ctx usages))

unfoldable pub process_report_size : ParseContext → ℕ → ParseContext
process_report_size ctx value = record ctx { report_size = value }

unfoldable pub process_usage_page : ParseContext → ℕ → ParseContext
process_usage_page ctx value =
    let paged : ParseContext = record ctx { usage_page = value } in
    if value == 0xFF00 then paged else fail paged

-- `prefix & 0b11`, where 3 stands for 4
abbrev pub item_size : ℕ → ℕ
item_size bits = if bits == 3 then 4 else bits

module _ (grants : Allocator) (log_is_enabled : Bool) where
  unfoldable pub process_input_output_feature : ParseContext → ℕ → Run ParseContext
  process_input_output_feature ctx tag =
      if tag == 8
      then (do
        r ←
            append_to_usage_array grants ctx.desc_ctx.input.usages (contents ctx.wip_usages)
              ctx.calls
        ok (cleanup_wip (set_input ctx r)))
      else if tag == 11
      then (do
        r ←
            append_to_usage_array grants ctx.desc_ctx.feature.usages (contents ctx.wip_usages)
              ctx.calls
        ok (cleanup_wip (set_feature ctx r)))
      else ok (cleanup_wip ctx)

  unfoldable pub process_collection : ParseContext → ℕ → ParseContext
  process_collection ctx value =
      check_collection
        (if log_is_enabled then record ctx { log_indent = ctx.log_indent + 2 } else ctx) value

  unfoldable pub process_collection_end : ParseContext → ParseContext
  process_collection_end ctx =
      let logged : ParseContext =
        if log_is_enabled then record ctx { log_indent = dedent ctx.log_indent } else ctx in
      let checked : ParseContext = if logged.wip_usages.size == 0 then logged else fail logged in
      record checked { collection = 0 }

  unfoldable pub parse_item_main : ParseContext → ℕ → ℕ → Run ParseContext
  parse_item_main ctx tag value =
      if tag == 8
      then process_input_output_feature ctx tag
      else if tag == 9
      then process_input_output_feature ctx tag
      else if tag == 11
      then process_input_output_feature ctx tag
      else if tag == 10
      then ok (process_collection ctx value)
      else if tag == 12
      then ok (process_collection_end ctx)
      else ok (cleanup_wip ctx)

  unfoldable pub parse_item_global : ParseContext → ℕ → ℕ → Run ParseContext
  parse_item_global ctx tag value =
      if tag == 0
      then ok (process_usage_page ctx value)
      else if tag == 7
      then ok (process_report_size ctx value)
      else if tag == 9
      then process_report_count ctx value
      else ok ctx

  unfoldable pub process_usage : ParseContext → ℕ → Run ParseContext
  process_usage ctx value = do
    (us, calls) ← append_to_usage_array grants ctx.wip_usages (new_usage value ∷ []) ctx.calls
    let appended = record ctx { wip_usages = us; calls = calls }
    ok (if is_null us.buffer then fail appended else appended)

  unfoldable pub parse_item_local : ParseContext → ℕ → ℕ → Run ParseContext
  parse_item_local ctx tag value = if tag == 0 then process_usage ctx value else ok ctx

  -- the `switch (type)` over a short item
  unfoldable pub parse_short_item : ParseContext → ℕ → ℕ → ℕ → Run ParseContext
  parse_short_item ctx type tag value =
      if type == 0
      then parse_item_main ctx tag value
      else if type == 1
      then parse_item_global ctx tag value
      else if type == 2
      then parse_item_local ctx tag value
      else ok ctx

  -- A long item at byte `i`: only the byte behind the prefix is looked at.
  unfoldable pub parse_long_item : Bytes → ℕ → ParseContext → Run (Option ℕ × ParseContext)
  parse_long_item desc i ctx =
      if leb (length desc) (i + 1)
      then ok (none, ctx)
      else do data_size ← read desc (i + 1); ok (some (i + (data_size + 1)), ctx)

  -- One round of the loop at byte `i`: the context and the next `i`, or `none` for the `break`.
  unfoldable pub parse_step : Bytes → ℕ → ParseContext → Run (Option ℕ × ParseContext)
  parse_step desc i ctx = do
    prefix ← read desc i
    if prefix == 0b11111110
        then parse_long_item desc i ctx
        else (let data_size = item_size (prefix % 4) in
            if leb (length desc) (i + data_size) then ok (some (i + (data_size + 1)), ctx) else do
              payload ← read_block desc (i + 1) data_size
              ctx' ← parse_short_item ctx (prefix / 4 % 4) (prefix / 16) (from_le payload)
              ok (some (i + (data_size + 1)), ctx'))

  -- `while (i < desc_size && !ctx->fatal_error)`, at most as many rounds as the fuel
  unfoldable pub parse_loop : ℕ → Bytes → ℕ → ParseContext → Run ParseContext
  parse_loop zero desc i ctx = out_of_fuel
  parse_loop (suc fuel) desc i ctx =
      let round : Run ParseContext = parse_step desc i ctx >>= λ r.
      let (next, ctx') = r in elim next [ none ↦ ok ctx' | some j ↦ parse_loop fuel desc j ctx' ] in
      if ltb i (length desc) && not ctx.fatal_error then round else ok ctx

  -- `i` grows in every round, so one round for each byte and one for the last test are enough.
  unfoldable pub parse_report_descriptor : ParseContext → Bytes → Run ParseContext
  parse_report_descriptor ctx desc = parse_loop (suc (length desc)) desc 0 ctx

abbrev pub fresh_parse_context : ParseContext
fresh_parse_context = record {
  desc_ctx = fresh_context;
  usage_page = 0;
  report_size = 0;
  report_count = 0;
  collection = 0;
  log_indent = 0;
  fatal_error = false;
  wip_usages = empty_array;
  calls = 1;
}
