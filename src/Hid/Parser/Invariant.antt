-- ===== src/Hid/Parser/Invariant.antt =====
-- The invariant of the parser of descriptors: three well-formed arrays, and what the operations on
-- the usages that are collected (src/libmccr/mccr-hid.c) do to it.
use mccr.Prelude.{
  ℕ, ◌+◌, ◌/◌, ◌<◌, map, ok, Ends, returns, Ends-if, ◌≤◌, ◌≡◌, refl, true, false, List, [], ◌∷◌,
  some, arith, Bool, ◌==◌, if◌then◌else◌, length, if_cases, length-map, sym, ◌∙◌, ◌%◌, not,
}
use mccr.Hid.Usages.{Usage, UsageArray, Allocator, contents, target}
use mccr.Hid.Usages.Append.{IsArray, empty_array-IsArray, length-contents}
use mccr.Hid.Parser.{
  word_mod, with_size, size_usages, ParseContext, fail, cleanup_wip, set_wip, set_first, first_id,
  dedent, field_bits, check_collection, process_collection, process_collection_end,
  process_report_count,
}

-- The three arrays of a context are well formed and hold at most `n` usages together.
pub record IsContext (n : ℕ) (ctx : ParseContext) : Type 0 where
  pub wip : IsArray ctx.wip_usages
  pub input : IsArray ctx.desc_ctx.input.usages
  pub feature : IsArray ctx.desc_ctx.feature.usages
  pub bounded :
      ctx.wip_usages.size + ctx.desc_ctx.input.usages.size + ctx.desc_ctx.feature.usages.size ≤ n

-- New values for the usages of an array.
with_buffer-IsArray :
    {a : UsageArray} (us : List Usage)
    → IsArray a
    → length us ≡ a.size
    → 0 < a.size
    → IsArray (record a { buffer = some us })
with_buffer-IsArray us v e pos = record {
  size_is = omega arith;
  room = v.room;
  null_iff = ground arith;
}

module _ {n : ℕ} {ctx : ParseContext} where
  pub cleanup_wip-IsContext : IsContext n ctx → IsContext n (cleanup_wip ctx)
  cleanup_wip-IsContext v = record {
    wip = empty_array-IsArray;
    input = v.input;
    feature = v.feature;
    bounded = omega (arith, v.bounded);
  }

  set_wip-IsContext :
      (us : List Usage)
      → IsContext n ctx
      → length us ≡ ctx.wip_usages.size
      → 0 < ctx.wip_usages.size
      → IsContext n (set_wip ctx us)
  set_wip-IsContext us v e pos = record {
    wip = with_buffer-IsArray us v.wip e pos;
    input = v.input;
    feature = v.feature;
    bounded = v.bounded;
  }

  pub fail-IsContext : IsContext n ctx → IsContext n (fail ctx)
  fail-IsContext v = record {
    wip = v.wip;
    input = v.input;
    feature = v.feature;
    bounded = v.bounded;
  }

  -- A change of fields other than the arrays.
  pub same_arrays :
      {ctx' : ParseContext}
      → IsContext n ctx
      → ctx'.wip_usages ≡ ctx.wip_usages
      → ctx'.desc_ctx ≡ ctx.desc_ctx
      → IsContext n ctx'
  same_arrays {ctx'} v w d = record {
    wip = rw w v.wip;
    input = rw d v.input;
    feature = rw d v.feature;
    bounded = rw (w, d) v.bounded;
  }

length-set_first : (bits : ℕ) (us : List Usage) → length (set_first bits us) ≡ length us
length-set_first bits [] = refl
length-set_first bits (u ∷ us) = refl

-- The loop ends where the counter does not wrap around, with every usage sized.
size_usages-map :
    (bits i : ℕ) (us : List Usage)
    → i + length us < word_mod
    → size_usages bits i us ≡ ok (map (with_size bits) us)
unfolding size_usages
size_usages-map bits i [] small = refl
size_usages-map bits i (u ∷ us) small =
    let goes_on : (i + 1 == word_mod) ≡ false = ground (arith, small) in
    rw (goes_on, size_usages-map bits (i + 1) us (omega (arith, small))) refl

pub process_report_count-IsContext :
    {n : ℕ} {ctx : ParseContext} (value : ℕ)
    → IsContext n ctx
    → n < word_mod
    → Ends (IsContext n) (process_report_count ctx value)
unfolding process_report_count
process_report_count-IsContext {n} {ctx} value v small =
    let a = ctx.wip_usages in
    Ends-if (a.size == 0) _ _ (λ _. returns v)
      λ some_usage.
        Ends-if (a.size == 1) _ _
          (λ one.
            let sized : IsContext n
                (set_wip ctx (set_first (field_bits ctx value) (target a.buffer))) =
              set_wip-IsContext _ v
                (length-set_first (field_bits ctx value) (target a.buffer) ∙ sym v.wip.size_is)
                (ground arith) in
            returns (
              if_cases (IsContext n) (field_bits ctx value == 0) _ _ (λ _. fail-IsContext sized)
                (λ _. sized)))
          λ several.
            Ends-if (not (field_bits ctx value % a.size == 0)) _ _ (λ _. returns (fail-IsContext v))
              λ _.
                let bits = field_bits ctx value / a.size % word_mod in
                rw
                  (size_usages-map bits 0 (contents a)
                    (omega (arith, length-contents v.wip, v.bounded, small)))
                  (returns (
                    set_wip-IsContext _ v (length-map (contents a) _ ∙ length-contents v.wip)
                      (ground arith)))

pub process_collection-IsContext :
    {n : ℕ} {ctx : ParseContext} (log : Bool) (grants : Allocator) (value : ℕ)
    → IsContext n ctx
    → IsContext n (process_collection grants log ctx value)
unfolding process_collection check_collection
process_collection-IsContext {n} {ctx} log grants value v = checked (ctx' log) (moved log)
  where
    ctx' : Bool → ParseContext
    ctx' log = if log then record ctx { log_indent = ctx.log_indent + 2 } else ctx

    moved : (log : Bool) → IsContext n (ctx' log)
    moved true = same_arrays v refl refl
    moved false = v

    checked : (c : ParseContext) → IsContext n c → IsContext n (check_collection c value)
    checked c w =
        if_cases (IsContext n) (c.wip_usages.size == 0) _ _ (λ _. fail-IsContext w)
          λ _.
            if_cases (IsContext n) (not (c.wip_usages.size == 1)) _ _ (λ _. fail-IsContext w)
              λ _.
                if_cases (IsContext n) (not (first_id (target c.wip_usages.buffer) == 1)) _ _
                  (λ _. fail-IsContext w)
                  λ _.
                    if_cases (IsContext n) (not (value == 1)) _ _ (λ _. fail-IsContext w)
                      λ _. cleanup_wip-IsContext (same_arrays w refl refl)

pub process_collection_end-IsContext :
    {n : ℕ} {ctx : ParseContext} (log : Bool) (grants : Allocator)
    → IsContext n ctx
    → IsContext n (process_collection_end grants log ctx)
unfolding process_collection_end
process_collection_end-IsContext {n} {ctx} log grants v =
    same_arrays (closed (dedented log)) refl refl
  where
    logged : Bool → ParseContext
    logged log = if log then record ctx { log_indent = dedent ctx.log_indent } else ctx

    dedented : (log : Bool) → IsContext n (logged log)
    dedented true = same_arrays v refl refl
    dedented false = v

    closed :
        {c : ParseContext}
        → IsContext n c
        → IsContext n (if c.wip_usages.size == 0 then c else fail c)
    closed {c} w =
        if_cases (IsContext n) (c.wip_usages.size == 0) _ _ (λ _. w) (λ _. fail-IsContext w)

pub IsContext-le : {n m : ℕ} {ctx : ParseContext} → n ≤ m → IsContext n ctx → IsContext m ctx
IsContext-le h v = record {
  wip = v.wip;
  input = v.input;
  feature = v.feature;
  bounded = omega (arith, v.bounded);
}

pub weaken : {n : ℕ} {ctx : ParseContext} → IsContext n ctx → IsContext (n + 1) ctx
weaken = IsContext-le (omega arith)
