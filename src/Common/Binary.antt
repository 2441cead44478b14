-- ===== src/Common/Binary.antt =====
-- strbin of src/common/common.c on the text that strhex writes.
use mccr.Prelude.{
  ℕ, ◌+◌, ◌*◌, ◌/◌, ◌%◌, ◌≤◌, ◌<◌, ◌≡◌, refl, ap, ◌∙◌, true, false, [], ◌∷◌, ◌++◌, append_assoc,
  append-nil, some, ok, arith, lt→leb, length, length-append,
}
use mccr.Prelude.Bytes.{Bytes, AllBytes}
use mccr.Common.{hex_digit, hextable, is_separator, count, strbin, strbin_loop}
use mccr.Common.Hex.{hex_text}

abbrev pub AllSeparators : Bytes → Type 0
AllSeparators [] = Unit
AllSeparators (c ∷ cs) = (is_separator c ≡ true) × AllSeparators cs

hextable-hex_digit : (n : ℕ) → n < 16 → hextable (hex_digit n) ≡ ok (some n)
unfolding hextable
hextable-hex_digit n h = ground arith

hex_digit_separates : (n : ℕ) → n < 16 → is_separator (hex_digit n) ≡ false
hex_digit_separates n h = ground arith

skip_separator :
    (size : ℕ) (out : Bytes) (c : ℕ) (xs : Bytes)
    → is_separator c ≡ true
    → strbin_loop size out (c ∷ xs) ≡ strbin_loop size out xs
unfolding strbin_loop
skip_separator size out c [] h = simp h
skip_separator size out c (d ∷ rest) h = simp h

skip_separators :
    (size : ℕ) (out : Bytes) (cs xs : Bytes)
    → AllSeparators cs
    → strbin_loop size out (cs ++ xs) ≡ strbin_loop size out xs
skip_separators size out [] xs v = refl
skip_separators size out (c ∷ cs) xs v =
    skip_separator size out c (cs ++ xs) v.0 ∙ skip_separators size out cs xs v.1

read_byte :
    (size : ℕ) (out : Bytes) (b : ℕ) (xs : Bytes)
    → b < 256
    → length out < size
    → strbin_loop size out (hex_digit (b / 16) ∷ hex_digit (b % 16) ∷ xs)
      ≡ strbin_loop size (out ++ b ∷ []) xs
unfolding strbin_loop
read_byte size out b xs byte room =
    let whole : 16 * (b / 16) + b % 16 ≡ b = omega arith in
    rw (hex_digit_separates (b / 16) (omega arith)) (
      rw (lt→leb size (length out) room) (
        rw (hextable-hex_digit (b / 16) (omega arith))
          (rw (hextable-hex_digit (b % 16) (omega arith)) (rw whole refl))))

loop-hex_text :
    (size : ℕ) (out delimiter : Bytes) (bs : Bytes)
    → AllBytes bs
    → AllSeparators delimiter
    → length out + length bs ≤ size
    → strbin_loop size out (hex_text delimiter bs) ≡ ok (count (length (out ++ bs)), out ++ bs)
unfolding strbin_loop
loop-hex_text size out delimiter [] v w h = rw (append-nil out) refl
loop-hex_text size out delimiter (b ∷ []) v w h = read_byte size out b [] v.0 (omega arith)
loop-hex_text size out delimiter (b ∷ c ∷ cs) v w h =
    let rest = hex_text delimiter (c ∷ cs) in
    let whole = append_assoc out (b ∷ []) (c ∷ cs) in
    read_byte size out b (delimiter ++ rest) v.0 (omega arith)
    ∙ skip_separators size (out ++ b ∷ []) delimiter rest w
    ∙ loop-hex_text size (out ++ b ∷ []) delimiter (c ∷ cs) v.1 w
        (omega (arith, length-append out (b ∷ [])))
    ∙ ap (λ (t : Bytes). ok (count (length t), t)) whole

-- The hexadecimal text of bytes, with separators between them, is read back by strbin as these bytes,
-- into a buffer with room for them.
pub strbin-hex_text :
    (bs delimiter : Bytes) (size : ℕ)
    → AllBytes bs
    → AllSeparators delimiter
    → length bs ≤ size
    → strbin (hex_text delimiter bs) size ≡ ok (count (length bs), bs)
unfolding strbin
strbin-hex_text bs delimiter size v w h = loop-hex_text size [] delimiter bs v w (omega arith)
