-- ===== src/Common/Stops.antt =====
-- The functions of src/common/common.c do not stop the process where their sizes are positive.
use mccr.Prelude.{
  ℕ, zero, suc, ◌+◌, ◌-◌, ◌*◌, ◌<◌, not, ◌&&◌, Bool, [], ◌∷◌, ◌++◌, Option, lt→ltb, leb, ◌==◌,
  length, read, read_block, write_block, Keeps, keeps, faults, Keeps-bind, Keeps-if, Keeps-option,
}
use mccr.Prelude.Bytes.{Bytes}
use mccr.Common.{
  hex_byte, text_of, calloc, strhex, strhex_loop, strhex_round, hextable, is_separator, strbin,
  strbin_loop,
}

abbrev pub Anything {ℓ} : {A : Type ℓ} → A → Type 0
Anything a = Unit

read-Keeps : (mem : Bytes) (i : ℕ) → Keeps Anything (read mem i)
read-Keeps [] i = faults
read-Keeps (b ∷ mem) zero = keeps tt
read-Keeps (b ∷ mem) (suc i) = read-Keeps mem i

pub write_block-Keeps : (mem : Bytes) (i : ℕ) (src : Bytes) → Keeps Anything (write_block mem i src)
write_block-Keeps mem i src =
    Keeps-if (leb (i + length src) (length mem)) _ _ (λ _. keeps tt) (λ _. faults)

pub read_block-Keeps : (mem : Bytes) (i n : ℕ) → Keeps Anything (read_block mem i n)
read_block-Keeps mem i n = Keeps-if (leb (i + n) (length mem)) _ _ (λ _. keeps tt) (λ _. faults)

strhex_round-Keeps :
    (mem : Bytes) (size : ℕ) (delimiter : Bytes) (i j : ℕ) (new_str : Bytes)
    → Keeps Anything (strhex_round mem size delimiter i j new_str)
unfolding strhex_round
strhex_round-Keeps mem size delimiter i j new_str = Keeps-bind _ (read-Keeps mem i) (λ b _.
    Keeps-bind _ (write_block-Keeps new_str j (hex_byte b ++ 0 ∷ [])) (λ printed _.
      Keeps-if (not (length delimiter == 0) && not (i == size - 1)) _ _
        (λ _. write_block-Keeps printed (j + 2) delimiter) (λ _. keeps tt)))

strhex_loop-Keeps :
    (rounds : ℕ) (mem : Bytes) (size : ℕ) (delimiter : Bytes) (i j : ℕ) (new_str : Bytes)
    → Keeps Anything (strhex_loop rounds mem size delimiter i j new_str)
unfolding strhex_loop
strhex_loop-Keeps zero mem size delimiter i j new_str = keeps tt
strhex_loop-Keeps (suc rounds) mem size delimiter i j new_str =
    Keeps-bind _ (strhex_round-Keeps mem size delimiter i j new_str)
      (λ new_str' _. strhex_loop-Keeps rounds mem size delimiter (i + 1) _ new_str')

calloc-Keeps : (granted : Bool) (n : ℕ) → Keeps Anything (calloc granted n)
calloc-Keeps granted n = Keeps-if granted _ _ (λ _. keeps tt) (λ _. faults)

pub strhex-Keeps :
    (granted : Bool) (mem : Bytes) (size : ℕ) (delimiter : Option Bytes)
    → 0 < size
    → Keeps Anything (strhex granted mem size delimiter)
unfolding strhex
strhex-Keeps granted mem size delimiter more = rw (lt→ltb 0 size more) (
    Keeps-bind _ (calloc-Keeps granted _)
      (λ new_str _. strhex_loop-Keeps size mem size (text_of delimiter) 0 0 new_str))

hextable-Keeps : (c : ℕ) → Keeps Anything (hextable c)
unfolding hextable
hextable-Keeps c =
    Keeps-if (leb 128 c) _ _ (λ _. faults)
      (λ _.
        Keeps-if (leb b'0' c && leb c b'9') _ _ (λ _. keeps tt)
          (λ _.
            Keeps-if (leb b'A' c && leb c b'F') _ _ (λ _. keeps tt)
              (λ _. Keeps-if (leb b'a' c && leb c b'f') _ _ (λ _. keeps tt) (λ _. keeps tt))))

strbin_loop-Keeps : (size : ℕ) (out str : Bytes) → Keeps Anything (strbin_loop size out str)
unfolding strbin_loop
strbin_loop-Keeps size out [] = keeps tt
strbin_loop-Keeps size out (c ∷ []) =
    Keeps-if (is_separator c) _ _ (λ _. keeps tt)
      (λ _.
        Keeps-if (leb size (length out)) _ _ (λ _. keeps tt)
          (λ _.
            Keeps-bind _ (hextable-Keeps c)
              (λ high _. Keeps-option high _ _ (keeps tt) (λ h. keeps tt))))
strbin_loop-Keeps size out (c ∷ d ∷ rest) =
    Keeps-if (is_separator c) _ _ (λ _. strbin_loop-Keeps size out (d ∷ rest))
      (λ _.
        Keeps-if (leb size (length out)) _ _ (λ _. keeps tt)
          (λ _. Keeps-bind _ (hextable-Keeps c) (λ high _. Keeps-option high _ _ (keeps tt) (λ h.
            Keeps-bind _ (hextable-Keeps d) (λ low _.
              Keeps-option low _ _ (keeps tt)
                (λ l. strbin_loop-Keeps size (out ++ (16 * h + l) ∷ []) rest))))))

pub strbin-Keeps : (str : Bytes) (size : ℕ) → Keeps Anything (strbin str size)
unfolding strbin
strbin-Keeps str size = strbin_loop-Keeps size [] str
