-- ===== src/Hid/Parser/Safe.antt =====
-- parse_report_descriptor of src/libmccr/mccr-hid.c on any bytes, with any memory.
use mccr.Prelude.{
  ℕ, zero, suc, ◌+◌, ◌<◌, ◌≤◌, ◌^◌, inl, inr, refl, [], ◌∷◌, Option, some, none, arith, Bool,
  Bool-cases, ◌==◌, leb, length, Ends, returns, Ends-bind, Ends-mono, Ends-if, if_cases, ◌%◌,
  read_inside, read_block_inside,
}
use native.Mathlib.Decide.{dec_lt}
use mccr.Prelude.Bytes.{Bytes}
use mccr.Hid.Usages.{is_null, Allocator, contents}
use mccr.Hid.Usages.Append.{empty_array-IsArray, length-contents, append-Ends}
use mccr.Hid.Parser.{
  word_mod, ParseContext, new_usage, item_size, process_input_output_feature, parse_item_main,
  process_report_size, process_usage_page, parse_item_global, process_usage, parse_item_local,
  parse_short_item, parse_long_item, parse_step, parse_loop, parse_report_descriptor,
  fresh_parse_context,
}
use mccr.Hid.Parser.Refine.{continue, parse_loop_stop, parse_loop_round}
use mccr.Hid.Parser.Invariant.{
  IsContext, cleanup_wip-IsContext, fail-IsContext, same_arrays, process_report_count-IsContext,
  process_collection-IsContext, process_collection_end-IsContext, IsContext-le, weaken,
}

-- the next `i` of the loop, if there is one, is past this one
abbrev IsLater : ℕ → Option ℕ → Type 0
IsLater i none = Unit
IsLater i (some j) = i < j

module _ (grants : Allocator) (log_is_enabled : Bool) {n : ℕ} {ctx : ParseContext} where
  process_input_output_feature-IsContext :
      (tag : ℕ)
      → IsContext n ctx
      → n ≤ 2 ^ 63
      → Ends (IsContext n) (process_input_output_feature grants log_is_enabled ctx tag)
  unfolding process_input_output_feature
  process_input_output_feature-IsContext tag v h =
      Ends-if (tag == 8) _ _
        (λ _.
          Ends-bind _
            (append-Ends grants (contents ctx.wip_usages) ctx.calls ctx.desc_ctx.input.usages
              v.input (omega (arith, length-contents v.wip, v.bounded)))
            λ r p. returns (record {
              wip = empty_array-IsArray;
              input = p.0;
              feature = v.feature;
              bounded = omega (arith, length-contents v.wip, v.bounded, p.1);
            }))
        (λ _.
          Ends-if (tag == 11) _ _
            (λ _.
              Ends-bind _
                (append-Ends grants (contents ctx.wip_usages) ctx.calls ctx.desc_ctx.feature.usages
                  v.feature (omega (arith, length-contents v.wip, v.bounded)))
                λ r p. returns (record {
                  wip = empty_array-IsArray;
                  input = v.input;
                  feature = p.0;
                  bounded = omega (arith, length-contents v.wip, v.bounded, p.1);
                }))
            (λ _. returns (cleanup_wip-IsContext v)))

  process_usage-IsContext :
      (value : ℕ)
      → IsContext n ctx
      → n + 1 ≤ 2 ^ 63
      → Ends (IsContext (n + 1)) (process_usage grants log_is_enabled ctx value)
  unfolding process_usage
  process_usage-IsContext value v h =
      Ends-bind _
        (append-Ends grants (new_usage value ∷ []) ctx.calls ctx.wip_usages v.wip
          (omega (arith, v.bounded)))
        λ r p.
          let appended : IsContext (n + 1) (record ctx { wip_usages = r.0; calls = r.1 }) = record {
            wip = p.0;
            input = v.input;
            feature = v.feature;
            bounded = omega (arith, v.bounded, p.1);
          } in
          returns (
            if_cases (IsContext (n + 1)) (is_null r.0.buffer) _ _ (λ _. fail-IsContext appended)
              (λ _. appended))

  parse_item_main-IsContext :
      (tag value : ℕ)
      → IsContext n ctx
      → n ≤ 2 ^ 63
      → Ends (IsContext n) (parse_item_main grants log_is_enabled ctx tag value)
  unfolding parse_item_main
  parse_item_main-IsContext tag value v h =
      let io = process_input_output_feature-IsContext tag v h in
      Ends-if (tag == 8) _ _ (λ _. io)
        λ _.
          Ends-if (tag == 9) _ _ (λ _. io)
            λ _.
              Ends-if (tag == 11) _ _ (λ _. io)
                λ _.
                  Ends-if (tag == 10) _ _
                    (λ _. returns (process_collection-IsContext log_is_enabled grants value v))
                    λ _.
                      Ends-if (tag == 12) _ _
                        (λ _. returns (process_collection_end-IsContext log_is_enabled grants v))
                        λ _. returns (cleanup_wip-IsContext v)

  parse_item_global-IsContext :
      (tag value : ℕ)
      → IsContext n ctx
      → n < word_mod
      → Ends (IsContext n) (parse_item_global grants log_is_enabled ctx tag value)
  unfolding parse_item_global process_usage_page process_report_size
  parse_item_global-IsContext tag value v small =
      Ends-if (tag == 0) _ _
        (λ _. returns (
          if_cases (IsContext n) (value == 0xFF00) _ _ (λ _. same_arrays v refl refl)
            (λ _.
              fail-IsContext (same_arrays {ctx' = record ctx { usage_page = value }} v refl refl))))
        λ _.
          Ends-if (tag == 7) _ _ (λ _. returns (same_arrays v refl refl))
            λ _.
              Ends-if (tag == 9) _ _ (λ _. process_report_count-IsContext value v small)
                (λ _. returns v)

  -- What every item keeps.
  parse_short_item-IsContext :
      (type tag value : ℕ)
      → IsContext n ctx
      → n + 1 < word_mod
      → Ends (IsContext (n + 1)) (parse_short_item grants log_is_enabled ctx type tag value)
  unfolding parse_short_item parse_item_local
  parse_short_item-IsContext type tag value v h =
      Ends-if (type == 0) _ _
        (λ _. Ends-mono (parse_item_main-IsContext tag value v (omega arith)) (λ c w. weaken w))
        λ _.
          Ends-if (type == 1) _ _
            (λ _.
              Ends-mono (parse_item_global-IsContext tag value v (omega arith)) (λ c w. weaken w))
            λ _.
              Ends-if (type == 2) _ _
                (λ _.
                  Ends-if (tag == 0) _ _ (λ _. process_usage-IsContext value v (omega arith))
                    (λ _. returns (weaken v)))
                (λ _. returns (weaken v))

  parse_long_item-IsContext :
      (desc : Bytes) (i : ℕ)
      → IsContext n ctx
      → Ends
          (λ (next, ctx'). IsContext (n + 1) ctx' × IsLater i next)
          (parse_long_item grants log_is_enabled desc i ctx)
  unfolding parse_long_item
  parse_long_item-IsContext desc i v =
      Ends-if (leb (length desc) (i + 1)) _ _ (λ _. returns (weaken v, tt))
        λ inside.
          let (b, e) = read_inside desc (i + 1) (ground arith) in
          rw e (returns (weaken v, omega arith))

  -- One round reads inside the descriptor and goes forward.
  parse_step-IsContext :
      (desc : Bytes) (i : ℕ)
      → IsContext n ctx
      → n + 1 < word_mod
      → i < length desc
      → Ends
          (λ (next, ctx'). IsContext (n + 1) ctx' × IsLater i next)
          (parse_step grants log_is_enabled desc i ctx)
  unfolding parse_step
  parse_step-IsContext desc i v h here =
      let (prefix, e) = read_inside desc i here in
      rw e (
        Ends-if (prefix == 0b11111110) _ _ (λ _. parse_long_item-IsContext desc i v)
          λ _.
            Ends-if (leb (length desc) (i + item_size (prefix % 4))) _ _
              (λ _. returns (weaken v, omega arith))
              λ inside.
                rw (read_block_inside desc (i + 1) (item_size (prefix % 4)) (ground arith)) (
                  Ends-bind _ (parse_short_item-IsContext _ _ _ v h)
                    λ c w. returns (w, omega arith)))

module _ (grants : Allocator) (log_is_enabled : Bool) where
  continue-IsContext :
      (fuel : ℕ) (desc : Bytes) (i m k : ℕ) (next : Option ℕ) {ctx : ParseContext}
      → ((j : ℕ) → i < j → Ends (IsContext k) (parse_loop grants log_is_enabled fuel desc j ctx))
      → m ≤ k
      → IsContext m ctx × IsLater i next
      → Ends (IsContext k) (continue grants log_is_enabled fuel desc (next, ctx))
  continue-IsContext fuel desc i m k none go h v = returns (IsContext-le h v.0)
  continue-IsContext fuel desc i m k (some j) go h v = go j v.1

  -- With a round for every byte left and one more, the loop ends by its own tests.
  parse_loop-IsContext :
      (fuel : ℕ) (desc : Bytes) (i n k : ℕ) (ctx : ParseContext)
      → IsContext n ctx
      → length desc < fuel + i
      → 0 < fuel
      → n + fuel ≤ k
      → k < word_mod
      → Ends (IsContext k) (parse_loop grants log_is_enabled fuel desc i ctx)
  parse_loop-IsContext zero desc i n k ctx v f pos h b = absurd (omega arith)
  parse_loop-IsContext (suc fuel) desc i n k ctx v f pos h b = elim (dec_lt i (length desc)) [
    | no past ↦
        rw (parse_loop_stop grants log_is_enabled fuel desc i ctx (inl (omega arith)))
          (returns (IsContext-le (omega arith) v))
    | yes inside ↦ elim (Bool-cases ctx.fatal_error) [
      | inl bad ↦
          rw (parse_loop_stop grants log_is_enabled fuel desc i ctx (inr bad))
            (returns (IsContext-le (omega arith) v))
      | inr good ↦ rw (parse_loop_round grants log_is_enabled fuel desc i ctx inside good) (
          Ends-bind _ (parse_step-IsContext grants log_is_enabled desc i v (omega arith) inside)
            λ (next, c) w.
              continue-IsContext fuel desc i (n + 1) k next
                (λ j later.
                  parse_loop-IsContext fuel desc j (n + 1) k c w.0 (omega arith) (omega arith)
                    (omega arith) b)
                (omega arith) w)
    ]
  ]

  -- Whatever bytes a device sends as its descriptor and whatever memory is granted, parsing it from
  -- the fresh context ends, reads only inside the descriptor and leaves three well-formed arrays with
  -- no more usages than the descriptor has bytes, and one; or a failed `assert` stops the process.
  -- The descriptor has fewer than 2 ^ 32 - 1 bytes.
  pub parse_report_descriptor-IsContext :
      (desc : Bytes)
      → length desc + 1 < word_mod
      → Ends
          (IsContext (length desc + 1))
          (parse_report_descriptor grants log_is_enabled fresh_parse_context desc)
  unfolding parse_report_descriptor
  parse_report_descriptor-IsContext desc h =
      parse_loop-IsContext (suc (length desc)) desc 0 0 (length desc + 1) fresh_parse_context
        (record {
          wip = empty_array-IsArray;
          input = empty_array-IsArray;
          feature = empty_array-IsArray;
          bounded = omega arith;
        })
        (omega arith) (omega arith) (omega arith) (omega arith)
