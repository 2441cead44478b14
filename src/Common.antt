-- ===== src/Common.antt =====
-- src/common/common.c: bytes as text and back. A C string is the list of its bytes, without the NUL
-- unless it is said otherwise; what `calloc` returns is used unchecked, so a refusal is a fault.
pub mod Hex
pub mod Binary
pub mod Overrun
pub mod Shown
pub mod Stops
use mccr.Prelude.{
  ℕ, zero, suc, ◌+◌, ◌-◌, ◌*◌, ◌/◌, ◌%◌, ◌^◌, Bool, true, false, not, ◌&&◌, ◌||◌, List, [], ◌∷◌,
  ◌++◌, Option, none, some, Run, ok, fault, ◌>>=◌, ◌>>◌, assert, within, ltb, leb, ◌==◌,
  if◌then◌else◌, length, replicate, read, write_block,
}
use mccr.Prelude.Bytes.{Bytes}

-- `"%02X"` of one nibble and of one byte
abbrev pub hex_digit : ℕ → ℕ
hex_digit n = if ltb n 10 then b'0' + n else b'A' + (n - 10)

abbrev pub hex_byte : ℕ → Bytes
hex_byte b = hex_digit (b / 16) ∷ hex_digit (b % 16) ∷ []

-- `delimiter ? strlen (delimiter) : 0`, and the text
abbrev pub text_of : Option Bytes → Bytes
text_of none = []
text_of (some s) = s

-- `calloc (n, 1)`, used unchecked
abbrev pub calloc : Bool → ℕ → Run Bytes
calloc granted n = if granted then ok (replicate n 0) else fault

-- `new_str_length` of strhex, and what strhex_multiline asks for: each is a `size_t`
abbrev pub strhex_length : ℕ → Bytes → ℕ
strhex_length size delimiter = (1 + 2 * size + (size - 1) * length delimiter) % 2 ^ 64

abbrev pub multiline_length : ℕ → ℕ → Bytes → Bytes → ℕ
multiline_length size max_bytes line_prefix delimiter =
    (1 + 2 * size + size / max_bytes * length line_prefix + (size - 1) * length delimiter + 1)
    % 2 ^ 64

-- One round of the loop of strhex: `snprintf` writes the two digits and a NUL, and the delimiter
-- follows if the byte is not the last.
strhex_round : Bytes → ℕ → Bytes → ℕ → ℕ → Bytes → Run Bytes
strhex_round mem size delimiter i j new_str = do
  b ← read mem i
  printed ← write_block new_str j (hex_byte b ++ 0 ∷ [])
  if not (length delimiter == 0) && not (i == size - 1)
      then write_block printed (j + 2) delimiter
      else ok printed

-- the rounds left, and `i` and `j` of the loop
strhex_loop : ℕ → Bytes → ℕ → Bytes → ℕ → ℕ → Bytes → Run Bytes
strhex_loop zero mem size delimiter i j new_str = ok new_str
strhex_loop (suc rounds) mem size delimiter i j new_str = do
  new_str' ← strhex_round mem size delimiter i j new_str
  strhex_loop rounds mem size delimiter (i + 1) (j + (2 + length delimiter)) new_str'

-- strhex; the result is the whole allocated memory
unfoldable pub strhex : Bool → Bytes → ℕ → Option Bytes → Run Bytes
unfolding strhex_loop strhex_round
strhex granted mem size delimiter =
    let text = text_of delimiter in
    do
      assert (ltb 0 size)
      new_str ← calloc granted (strhex_length size text)
      strhex_loop size mem size text 0 0 new_str

-- One round of the loop of strhex_multiline: the next `j` and the memory.
strhex_multiline_round : Bytes → ℕ → ℕ → Bytes → Bytes → ℕ → ℕ → Bytes → Run (ℕ × Bytes)
strhex_multiline_round mem size max_bytes line_prefix delimiter i j new_str = do
  b ← read mem i
  printed ← write_block new_str j (hex_byte b ++ 0 ∷ [])
  if i == size - 1
      then ok (j, printed)
      else if (i + 1) % max_bytes == 0
      then (do
        broken ← write_block printed (j + 2) (b'\n' ∷ [])
        if not (length line_prefix == 0)
            then (do
              prefixed ← write_block broken (j + 3) line_prefix
              ok (j + 3 + length line_prefix, prefixed))
            else ok (j + 3, broken))
      else if not (length delimiter == 0)
      then (do
        delimited ← write_block printed (j + 2) delimiter
        ok (j + 2 + length delimiter, delimited))
      else ok (j + 2, printed)

strhex_multiline_loop : ℕ → Bytes → ℕ → ℕ → Bytes → Bytes → ℕ → ℕ → Bytes → Run Bytes
strhex_multiline_loop zero mem size max_bytes line_prefix delimiter i j new_str = ok new_str
strhex_multiline_loop (suc rounds) mem size max_bytes line_prefix delimiter i j new_str = do
  (j', new_str') ← strhex_multiline_round mem size max_bytes line_prefix delimiter i j new_str
  strhex_multiline_loop rounds mem size max_bytes line_prefix delimiter (i + 1) j' new_str'

-- strhex_multiline; a division by 0 is a fault
unfoldable pub strhex_multiline : Bool → Bytes → ℕ → ℕ → Option Bytes → Option Bytes → Run Bytes
unfolding strhex_multiline_loop strhex_multiline_round
strhex_multiline granted mem size max_bytes line_prefix delimiter =
    let prefix = text_of line_prefix in
    let text = text_of delimiter in
    do
      assert (ltb 0 size)
      within (ltb 0 max_bytes)
      new_str ← calloc granted (multiline_length size max_bytes prefix text)
      strhex_multiline_loop size mem size max_bytes prefix text 0 0 new_str

-- `hextable[c]` for the index `(int) c` of a signed `char`: a byte from 128 on is a negative index.
unfoldable pub hextable : ℕ → Run (Option ℕ)
hextable c =
    if leb 128 c
    then fault
    else if leb b'0' c && leb c b'9'
    then ok (some (c - b'0'))
    else if leb b'A' c && leb c b'F'
    then ok (some (c - b'A' + 10))
    else if leb b'a' c && leb c b'f'
    then ok (some (c - b'a' + 10))
    else ok none

-- what strbin skips between the bytes
abbrev pub is_separator : ℕ → Bool
is_separator c = c == b' ' || c == b'\n' || c == b':'

-- The `ssize_t` that strbin returns: a count of bytes, or minus one of the numbers 1 to 4.
pub data Ssize : Type 0 where
  count : ℕ → Ssize
  minus : ℕ → Ssize

-- whether strbin has returned just this count
abbrev pub is_count : Ssize → ℕ → Bool
is_count (count n) size = n == size
is_count (minus error) size = false

-- The loop of strbin on what is left of the text; `out` is the part of the buffer that is written.
strbin_loop : ℕ → Bytes → Bytes → Run (Ssize × Bytes)
strbin_loop buffer_size out [] = ok (count (length out), out)
strbin_loop buffer_size out (c ∷ []) =
    if is_separator c
    then ok (count (length out), out)
    else if leb buffer_size (length out)
    then ok (minus 1, out)
    else do high ← hextable c; elim high [ none ↦ ok (minus 2, out) | some h ↦ ok (minus 3, out) ]
strbin_loop buffer_size out (c ∷ d ∷ rest) =
    let skipped = strbin_loop buffer_size out (d ∷ rest) in
    let digits : Run (Ssize × Bytes) = (do
      high ← hextable c
      elim high [
        | none ↦ ok (minus 2, out)
        | some h ↦ (do
          low ← hextable d
          elim low [
            | none ↦ ok (minus 4, out)
            | some l ↦ strbin_loop buffer_size (out ++ (16 * h + l) ∷ []) rest
          ])
      ]) in
    if is_separator c
    then skipped
    else if leb buffer_size (length out)
    then ok (minus 1, out)
    else digits

unfoldable pub strbin : Bytes → ℕ → Run (Ssize × Bytes)
unfolding strbin_loop hextable
strbin str buffer_size = strbin_loop buffer_size [] str

-- strascii. Which bytes are printable is up to `isprint` of the C library and its locale. The result
-- is the whole allocated memory, the NUL included.
module _ (isprint : ℕ → Bool) where
  strascii_loop : ℕ → Bytes → ℕ → Bytes → Run Bytes
  strascii_loop zero mem i new_str = ok new_str
  strascii_loop (suc rounds) mem i new_str = do
    b ← read mem i
    new_str' ← write_block new_str i ((if isprint b then b else b'#') ∷ [])
    strascii_loop rounds mem (i + 1) new_str'

  unfoldable pub strascii : Bool → Bytes → ℕ → Run Bytes
  unfolding strascii_loop
  strascii granted mem size = do
    new_str ← calloc granted (size + 1)
    strascii_loop size mem 0 new_str
