-- ===== src/Processor/Shown.antt =====
-- What src/mccr-gtk/mui-processor.c shows of the data of a track.
use mccr.Prelude.{
  ℕ, zero, suc, ◌+◌, ◌≡◌, refl, false, [], ◌∷◌, some, ok, fault, arith, leb, lt→ltb, ◌==◌,
  if◌then◌else◌, length, take, drop, Bool-cases, inl, inr, ◌<◌, ◌^◌,
}
use mccr.Prelude.Bytes.{Bytes}
use mccr.Prelude.Text.{Text, literal, chars, unsigned}
use mccr.Environment.{Environment}
use mccr.Status.{Status}
use mccr.SwipeReport.{SwipeReport}
use mccr.Common.Hex.{hex_text}
use mccr.Common.Shown.{strhex_first, c_string-NoNul, hex_text-NoNul}
use mccr.Processor.{Item, Processor, n_a}
use mccr.Processor.Swipe.{data_text, track_data_items}
use mccr.Processor.Sent.{AlwaysGrants}

module _ {D : Type 0} (env : Environment D) where
  -- what is shown of a field of bytes
  abbrev pub shown_data : Bytes → Text
  shown_data bytes = chars (hex_text (b' ' ∷ []) bytes) ∷ []

  -- While memory is granted: for a track whose length `n` is found, and whose data is found at an
  -- offset if it has any, the length is shown and, if it is not 0, as many bytes of the report from
  -- the offset on in hexadecimal; if the report ends before, this reads outside it. The length is
  -- below 2 ^ 62.
  pub track_data_items-shown :
      (self : Processor D) (report : SwipeReport) (length_item data_item : Item) (n offset : ℕ)
      → AlwaysGrants env.grants
      → n < 2 ^ 62
      → track_data_items env self report length_item data_item
          (ok (Status.ok, some n))
          (λ _. ok (Status.ok, some offset))
        ≡ (let length_text : Text = unsigned n ∷ literal " bytes" ∷ [] in
            let held = drop offset report.input_report.report_data in
            if n == 0
            then ok ((length_item, some length_text) ∷ (data_item, some n_a) ∷ [])
            else if leb n (length held)
            then ok (
                (length_item, some length_text) ∷ (data_item, some (shown_data (take n held))) ∷ [])
            else fault)
  unfolding track_data_items data_text
  track_data_items-shown self report length_item data_item zero offset granted small = refl
  track_data_items-shown self report length_item data_item (suc n) offset granted small =
      let held = drop offset report.input_report.report_data in
      let some_bytes : (suc n == 0) ≡ false = ground arith in
      let first = strhex_first held (suc n) (some (b' ' ∷ [])) (omega arith) (omega arith) in
      rw (lt→ltb 0 (suc n) (omega arith)) (
        rw some_bytes (
          rw (granted (self.calls + 0) _) (
            rw first (elim (Bool-cases (leb (suc n) (length held))) [
              | inl inside ↦ rw inside (
                  let text = hex_text (b' ' ∷ []) (take (suc n) held) in
                  rw
                    (c_string-NoNul text
                      (hex_text-NoNul (b' ' ∷ []) (take (suc n) held) (omega arith, tt)))
                    refl)
              | inr outside ↦ rw outside refl
            ]))))
