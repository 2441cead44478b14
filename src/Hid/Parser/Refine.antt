-- ===== src/Hid/Parser/Refine.antt =====
-- The loop over the bytes of a descriptor (src/libmccr/mccr-hid.c) and the walk over its items.
use mccr.Prelude.{
  ℕ, zero, suc, ◌+◌, ◌/◌, ◌%◌, ◌<◌, ◌≤◌, ◌≡◌, ◌⊎◌, inl, inr, refl, ap, ◌∙◌, sym, true, false, List,
  [], ◌∷◌, ◌++◌, Run, ok, ◌>>=◌, arith, Bool, Bool-cases, ◌==◌, lt→leb, lt→ltb, le→ltb, length,
  read-drop, read_block_inside, drop, drop-cons, take-append, drop-append, drop-drop, length-append,
  length-drop, Option, none, >>=_assoc, >>=_ext, some,
}
use native.Mathlib.Numerals.{add-one}
use mathlib.Core.Bool.{and-false}
use mccr.Prelude.Bytes.{Bytes}
use mccr.Hid.Usages.{Allocator}
use mccr.Hid.Parser.{ParseContext, item_size, parse_step, parse_loop, parse_report_descriptor}
use mccr.Hid.Parser.Items.{
  Item, IsItem, AllItems, size_code, prefix_of, encode_item, encode, parse_item, parse_items,
}

-- The fields of a prefix byte.
prefix_fields :
    (it : Item)
    → IsItem it
    → (prefix_of it / 16 ≡ it.tag)
      × (prefix_of it / 4 % 4 ≡ it.type)
      × (item_size (prefix_of it % 4) ≡ length it.payload)
      × ((prefix_of it == 0b11111110) ≡ false)
prefix_fields it v = (fields.0, fields.1, ground arith, ground arith)
  where
    code : size_code (length it.payload) < 4
    code = ground arith

    fields :
        (prefix_of it / 16 ≡ it.tag)
        × (prefix_of it / 4 % 4 ≡ it.type)
        × (prefix_of it % 4 ≡ size_code (length it.payload))
    fields = omega (arith, code)

-- What is left of a descriptor after its item at `i`.
after_item :
    (desc : Bytes) (i : ℕ) (it : Item) (rest : Bytes)
    → drop i desc ≡ encode_item it ++ rest
    → drop (i + (length it.payload + 1)) desc ≡ rest
after_item desc i it rest e =
    sym (drop-drop (length it.payload + 1) i desc)
    ∙ rw (e, add-one) (drop-append (length it.payload) it.payload rest refl)

module _ (grants : Allocator) (log_is_enabled : Bool) where
  -- One round of the loop at the first byte of an item.
  parse_step-item :
      (desc : Bytes) (i : ℕ) (it : Item) (rest : Bytes) (ctx : ParseContext)
      → IsItem it
      → drop i desc ≡ encode_item it ++ rest
      → parse_step grants log_is_enabled desc i ctx ≡ (
          parse_item grants log_is_enabled it ctx >>= λ ctx'.
          ok (some (i + (length it.payload + 1)), ctx'))
  unfolding parse_step
  parse_step-item desc i it rest ctx v e =
      let (head, tail, total) = drop-cons i desc 0 e in
      let (tag, type, size, short) = prefix_fields it v in
      let next : drop (i + 1) desc ≡ it.payload ++ rest = rw add-one tail in
      let inside : i + length it.payload < length desc =
        omega (arith, total, length-append it.payload rest) in
      rw (
        read-drop i desc e,
        short,
        size,
        lt→leb _ _ inside,
        read_block_inside desc (i + 1) (length it.payload) (omega (arith, inside)),
        next,
        take-append (length it.payload) it.payload rest refl,
        tag,
        type,
      )

  abbrev pub continue : ℕ → Bytes → Option ℕ × ParseContext → Run ParseContext
  continue fuel desc (next, ctx) = elim next [
    | none ↦ ok ctx
    | some j ↦ parse_loop grants log_is_enabled fuel desc j ctx
  ]

  -- The two ways to leave the test of the loop.
  pub parse_loop_stop :
      (fuel : ℕ) (desc : Bytes) (i : ℕ) (ctx : ParseContext)
      → (length desc ≤ i) ⊎ (ctx.fatal_error ≡ true)
      → parse_loop grants log_is_enabled (suc fuel) desc i ctx ≡ ok ctx
  unfolding parse_loop
  parse_loop_stop fuel desc i ctx (inl h) = rw (le→ltb i (length desc) h)
  parse_loop_stop fuel desc i ctx (inr h) = rw (h, and-false)

  pub parse_loop_round :
      (fuel : ℕ) (desc : Bytes) (i : ℕ) (ctx : ParseContext)
      → i < length desc
      → ctx.fatal_error ≡ false
      → parse_loop grants log_is_enabled (suc fuel) desc i ctx
        ≡ (parse_step grants log_is_enabled desc i ctx >>= continue fuel desc)
  unfolding parse_loop
  parse_loop_round fuel desc i ctx h good = simp (lt→ltb i (length desc) h, good)

  -- The loop from the first byte of well-formed items is the walk over them.
  parse_loop-items :
      (fuel : ℕ) (desc : Bytes) (i : ℕ) (items : List Item) (ctx : ParseContext)
      → AllItems items
      → drop i desc ≡ encode items
      → length (encode items) < fuel
      → parse_loop grants log_is_enabled fuel desc i ctx
        ≡ parse_items grants log_is_enabled items ctx
  unfolding parse_items
  parse_loop-items zero desc i items ctx v e f = absurd (omega arith)
  parse_loop-items (suc fuel) desc i [] ctx v e f =
      parse_loop_stop fuel desc i ctx (inl (omega (arith, length-drop i desc, ap length e)))
  parse_loop-items (suc fuel) desc i (it ∷ items) ctx v e f = elim (Bool-cases ctx.fatal_error) [
    | inl bad ↦ parse_loop_stop fuel desc i ctx (inr bad) ∙ simp bad
    | inr good ↦
        let inside : i < length desc = omega (arith, length-drop i desc, ap length e) in
        let j = i + (length it.payload + 1) in
        let rest : drop j desc ≡ encode items = after_item desc i it (encode items) e in
        let shorter : length (encode items) < fuel =
          omega (arith, length-append it.payload (encode items)) in
        parse_loop_round fuel desc i ctx inside good
        ∙ simp (parse_step-item desc i it (encode items) ctx v.0 e, good)
            (>>=_assoc (parse_item grants log_is_enabled it ctx) _ _
              ∙ >>=_ext (parse_item grants log_is_enabled it ctx) _ _
                  λ ctx' _. parse_loop-items fuel desc j items ctx' v.1 rest shorter)
  ]

  -- On the encoding of well-formed items, the parser of bytes does what the walk over the items does.
  pub parse_report_descriptor-encode :
      (items : List Item) (ctx : ParseContext)
      → AllItems items
      → parse_report_descriptor grants log_is_enabled ctx (encode items)
        ≡ parse_items grants log_is_enabled items ctx
  unfolding parse_report_descriptor
  parse_report_descriptor-encode items ctx v =
      parse_loop-items (suc (length (encode items))) (encode items) 0 items ctx v refl (omega arith)
