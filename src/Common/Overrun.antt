-- ===== src/Common/Overrun.antt =====
-- strhex of src/common/common.c on fewer bytes than it is told.
use mccr.Prelude.{
  ℕ, zero, suc, ◌+◌, ◌-◌, ◌≤◌, ◌<◌, ◌≡◌, refl, Bool, true, false, not, ◌&&◌, [], ◌∷◌, ◌++◌, Option,
  Run, ok, fault, ◌>>=◌, arith, leb, lt→ltb, ◌==◌, if◌then◌else◌, length, read, write_block, memcpy,
  ◌⊎◌, inl, inr,
}
use mccr.Prelude.Bytes.{Bytes}
use mccr.Common.{hex_byte, text_of, strhex, strhex_loop, strhex_round}

-- A call that returns or accesses something outside an object.
data OkOrFault {A : Type 0} : Run A → Type 0 where
  is_ok : (a : A) → OkOrFault (ok a)
  is_fault : OkOrFault fault

read-OkOrFault : (xs : Bytes) (i : ℕ) → OkOrFault (read xs i)
read-OkOrFault [] i = is_fault
read-OkOrFault (x ∷ xs) zero = is_ok x
read-OkOrFault (x ∷ xs) (suc i) = read-OkOrFault xs i

if-OkOrFault :
    {A : Type 0} (b : Bool) {m n : Run A}
    → OkOrFault m
    → OkOrFault n
    → OkOrFault (if b then m else n)
if-OkOrFault true m n = m
if-OkOrFault false m n = n

write_block-OkOrFault : (xs : Bytes) (i : ℕ) (src : Bytes) → OkOrFault (write_block xs i src)
write_block-OkOrFault xs i src =
    if-OkOrFault (leb (i + length src) (length xs)) (is_ok (memcpy xs i src)) is_fault

bind-OkOrFault :
    {A B : Type 0} {m : Run A} (f : A → Run B)
    → OkOrFault m
    → ((a : A) → OkOrFault (f a))
    → OkOrFault (m >>= f)
bind-OkOrFault f (is_ok a) next = next a
bind-OkOrFault f is_fault next = is_fault

strhex_round-OkOrFault :
    (mem : Bytes) (size : ℕ) (delimiter : Bytes) (i j : ℕ) (new_str : Bytes)
    → OkOrFault (strhex_round mem size delimiter i j new_str)
unfolding strhex_round
strhex_round-OkOrFault mem size delimiter i j new_str =
    bind-OkOrFault _ (read-OkOrFault mem i) (λ b.
      bind-OkOrFault _ (write_block-OkOrFault new_str j (hex_byte b ++ 0 ∷ [])) (λ printed.
        if-OkOrFault (not (length delimiter == 0) && not (i == size - 1))
          (write_block-OkOrFault printed (j + 2) delimiter) (is_ok printed)))

bind_fault :
    {A B : Type 0} {m : Run A} (f : A → Run B)
    → OkOrFault m
    → ((a : A) → f a ≡ fault)
    → (m >>= f) ≡ fault
bind_fault f (is_ok a) next = next a
bind_fault f is_fault next = refl

read_outside : (xs : Bytes) (i : ℕ) → length xs ≤ i → read xs i ≡ fault
read_outside [] i h = refl
read_outside (x ∷ xs) zero h = absurd (omega arith)
read_outside (x ∷ xs) (suc i) h = read_outside xs i (omega arith)

round_outside :
    (mem : Bytes) (size : ℕ) (delimiter : Bytes) (i j : ℕ) (new_str : Bytes)
    → length mem ≤ i
    → strhex_round mem size delimiter i j new_str ≡ fault
unfolding strhex_round
round_outside mem size delimiter i j new_str h = rw (read_outside mem i h) refl

loop_fault :
    (rounds : ℕ) (mem : Bytes) (size : ℕ) (delimiter : Bytes) (i j : ℕ) (new_str : Bytes)
    → i ≤ length mem
    → length mem < i + rounds
    → strhex_loop rounds mem size delimiter i j new_str ≡ fault
unfolding strhex_loop
loop_fault zero mem size delimiter i j new_str begun short = absurd (omega arith)
loop_fault (suc rounds) mem size delimiter i j new_str begun short = elim (read_or_not i) [
  | inl inside ↦ bind_fault _ (strhex_round-OkOrFault mem size delimiter i j new_str) (λ new_str'.
      loop_fault rounds mem size delimiter (i + 1) (j + (2 + length delimiter)) new_str'
        (omega arith) (omega arith))
  | inr outside ↦ rw (round_outside mem size delimiter i j new_str outside) refl
]
  where
    read_or_not : (i : ℕ) → (i < length mem) ⊎ (length mem ≤ i)
    read_or_not i = ground arith

-- With more bytes asked for than there are, strhex reads outside them.
pub strhex_fault :
    (mem : Bytes) (size : ℕ) (delimiter : Option Bytes)
    → length mem < size
    → strhex true mem size delimiter ≡ fault
unfolding strhex
strhex_fault mem size delimiter short =
    rw (lt→ltb 0 size (omega arith))
      (loop_fault size mem size (text_of delimiter) 0 0 _ (omega arith) (omega arith))
