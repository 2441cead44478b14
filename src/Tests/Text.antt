-- ===== src/Tests/Text.antt =====
-- Hexadecimal text (src/common/common.c) of two bytes.
use mccr.Prelude.{leb, none, fault, ◌≡◌, refl, true, [], ◌∷◌, some, ok, arith}
use mccr.Prelude.Bytes.{Bytes}
use mccr.Common.{strhex, strhex_multiline, strbin, strascii, count, minus}
use mccr.Common.Hex.{hex_text, strhex-hex_text}
use mccr.Common.Binary.{strbin-hex_text}

abbrev two_bytes : Bytes
two_bytes = 0xab ∷ 0x01 ∷ []

abbrev colon : Bytes
colon = b':' ∷ []

strhex-hex_text_example :
    strhex true two_bytes 2 (some colon) ≡ ok (b'A' ∷ b'B' ∷ b':' ∷ b'0' ∷ b'1' ∷ 0 ∷ [])
strhex-hex_text_example = strhex-hex_text 0xab (0x01 ∷ []) (some colon) (omega arith)

strbin-hex_text_example : strbin (hex_text colon two_bytes) 2 ≡ ok (count 2, two_bytes)
strbin-hex_text_example =
    strbin-hex_text two_bytes colon 2 (omega arith, (omega arith, tt)) (refl, tt) (omega arith)

-- three line breaks and no delimiter leave the memory
strhex_multiline_faults : strhex_multiline true (1 ∷ 2 ∷ 3 ∷ 4 ∷ []) 4 1 none none ≡ fault
unfolding strhex_multiline
strhex_multiline_faults = refl

-- with a delimiter there is room for them
strhex_multiline_fits :
    strhex_multiline true (1 ∷ 2 ∷ 3 ∷ []) 3 2 none (some colon)
    ≡ ok (b'0' ∷ b'1' ∷ b':' ∷ b'0' ∷ b'2' ∷ b'\n' ∷ b'0' ∷ b'3' ∷ 0 ∷ 0 ∷ [])
unfolding strhex_multiline
strhex_multiline_fits = refl

-- a byte from 128 on is a negative index into the table
strbin_faults : strbin (0x80 ∷ []) 4 ≡ fault
unfolding strbin
strbin_faults = refl

-- a digit with no second digit
strbin_refuses : strbin (b'A' ∷ []) 4 ≡ ok (minus 3, [])
unfolding strbin
strbin_refuses = refl

strascii_example : strascii (leb 0x20) true (b'a' ∷ 7 ∷ []) 2 ≡ ok (b'a' ∷ b'#' ∷ 0 ∷ [])
unfolding strascii
strascii_example = refl
