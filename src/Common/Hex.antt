-- ===== src/Common/Hex.antt =====
-- The text that strhex of src/common/common.c writes.
use mccr.Prelude.{
  ℕ, suc, ◌+◌, ◌-◌, ◌*◌, ◌^◌, ◌<◌, ◌≤◌, ◌≡◌, refl, sym, ap, ◌∙◌, Bool, true, false, not, ◌&&◌, [],
  ◌∷◌, ◌++◌, append_assoc, append-nil, Option, Run, ok, arith, lt→ltb, ◌==◌, if◌then◌else◌, length,
  length-append, length-replicate, replicate, drop, drop-cons, drop-append, drop-drop,
  drop-replicate, take-append, memcpy, read, read-drop, write_block, write_block_inside,
}
use native.Mathlib.Nat.{suc-mul}
use mccr.Prelude.Bytes.{Bytes}
use mccr.Common.{hex_byte, text_of, strhex, strhex_length, strhex_loop, strhex_round}

-- The bytes as hexadecimal digits, with the delimiter between them.
abbrev pub hex_text : Bytes → Bytes → Bytes
hex_text delimiter [] = []
hex_text delimiter (b ∷ []) = hex_byte b
hex_text delimiter (b ∷ c ∷ bs) = hex_byte b ++ (delimiter ++ hex_text delimiter (c ∷ bs))

-- A write behind what is written, into the zeroes that follow.
pub write_behind :
    (done src : Bytes) (j room : ℕ)
    → j ≡ length done
    → length src ≤ room
    → write_block (done ++ replicate room 0) j src
      ≡ ok ((done ++ src) ++ replicate (room - length src) 0)
write_behind done src j room e h =
    let rest = replicate {A = ℕ} room 0 in
    let front : memcpy (done ++ rest) j src
        ≡ done ++ (src ++ drop (j + length src) (done ++ rest)) =
      ap (λ (t : Bytes). t ++ (src ++ drop (j + length src) (done ++ rest)))
        (take-append j done rest e) in
    let behind : drop (j + length src) (done ++ rest) ≡ replicate (room - length src) 0 =
      sym (drop-drop (length src) j (done ++ rest))
      ∙ ap (drop (length src)) (drop-append j done rest e)
      ∙ drop-replicate (length src) room 0 in
    write_block_inside (done ++ rest) j src
      (omega (arith, length-append done rest, length-replicate {A = ℕ} room 0))
    ∙ ap ok (
        front
        ∙ ap (λ (t : Bytes). done ++ (src ++ t)) behind
        ∙ sym (append_assoc done src (replicate (room - length src) 0)))

-- The NUL that `snprintf` writes is one of the zeroes.
print_byte :
    (done : Bytes) (b j k : ℕ)
    → j ≡ length done
    → write_block (done ++ replicate (suc (suc (suc k))) 0) j (hex_byte b ++ 0 ∷ [])
      ≡ ok ((done ++ hex_byte b) ++ replicate (suc k) 0)
print_byte done b j k e =
    let less : suc (suc (suc k)) - length (hex_byte b ++ 0 ∷ []) ≡ k = omega arith in
    write_behind done (hex_byte b ++ 0 ∷ []) j (suc (suc (suc k))) e (omega arith)
    ∙ ap ok (
        rw less (
          append_assoc done (hex_byte b ++ 0 ∷ []) (replicate k 0)
          ∙ sym (append_assoc done (hex_byte b) (replicate (suc k) 0))))

-- A round for a byte that is not the last.
round_more :
    (mem : Bytes) (size : ℕ) (delimiter done : Bytes) (i j k b : ℕ)
    → read mem i ≡ ok b
    → (i == size - 1) ≡ false
    → j ≡ length done
    → length delimiter ≤ suc k
    → strhex_round mem size delimiter i j (done ++ replicate (suc (suc (suc k))) 0)
      ≡ ok (((done ++ hex_byte b) ++ delimiter) ++ replicate (suc k - length delimiter) 0)
unfolding strhex_round
round_more mem size [] done i j k b here more e fits =
    let all : suc k - 0 ≡ suc k = omega arith in
    rw here (
      rw (print_byte done b j k e) (
        rw all (
          ap (λ (t : Bytes). ok (t ++ replicate (suc k) 0))
            (sym (append-nil (done ++ hex_byte b))))))
round_more mem size (c ∷ cs) done i j k b here more e fits =
    let some_text : (length (c ∷ cs) == 0) ≡ false = ground arith in
    let next : j + 2 ≡ length (done ++ hex_byte b) =
      omega (arith, length-append done (hex_byte b)) in
    rw here (
      rw (print_byte done b j k e) (
        rw some_text
          (rw more (write_behind (done ++ hex_byte b) (c ∷ cs) (j + 2) (suc k) next fits))))

-- A round for the last byte.
round_last :
    (mem : Bytes) (size : ℕ) (delimiter done : Bytes) (i j b : ℕ)
    → read mem i ≡ ok b
    → (i == size - 1) ≡ true
    → j ≡ length done
    → strhex_round mem size delimiter i j (done ++ replicate 3 0)
      ≡ ok ((done ++ hex_byte b) ++ 0 ∷ [])
unfolding strhex_round
round_last mem size delimiter done i j b here last e =
    rw here (rw (print_byte done b j 0 e) (rw last (if_same (not (length delimiter == 0)) _)))
  where
    if_same :
        (t : Bool) (m : Run Bytes)
        → (if t && false then m else ok ((done ++ hex_byte b) ++ 0 ∷ []))
          ≡ ok ((done ++ hex_byte b) ++ 0 ∷ [])
    if_same true m = refl
    if_same false m = refl

-- The loop from a byte on writes the text of the bytes that are left.
loop-hex_text :
    (mem : Bytes) (size : ℕ) (delimiter done : Bytes) (i j b : ℕ) (bs rest : Bytes)
    → drop i mem ≡ b ∷ (bs ++ rest)
    → size ≡ i + suc (length bs)
    → j ≡ length done
    → strhex_loop
        (suc (length bs))
        mem
        size
        delimiter
        i
        j
        (done ++ replicate (suc (length (hex_text delimiter (b ∷ bs)))) 0)
      ≡ ok ((done ++ hex_text delimiter (b ∷ bs)) ++ 0 ∷ [])
unfolding strhex_loop
loop-hex_text mem size delimiter done i j b [] rest here total e =
    rw (round_last mem size delimiter done i j b (read-drop i mem here) (ground arith) e) refl
loop-hex_text mem size delimiter done i j b (c ∷ cs) rest here total e =
    let text = hex_text delimiter (c ∷ cs) in
    let written = (done ++ hex_byte b) ++ delimiter in
    let long : length (delimiter ++ text) ≡ length delimiter + length text =
      length-append delimiter text in
    let room : suc (length (delimiter ++ text)) - length delimiter ≡ suc (length text) =
      omega arith in
    let next : i + 1 ≡ suc i = omega arith in
    let further : j + (2 + length delimiter) ≡ length written =
      omega
        (arith, length-append (done ++ hex_byte b) delimiter, length-append done (hex_byte b)) in
    let (_, below, _) = drop-cons i mem 0 here in
    rw
      (round_more mem size delimiter done i j (length (delimiter ++ text)) b (read-drop i mem here)
        (ground arith) e (omega arith))
      (rw room (
        rw next (
          loop-hex_text mem size delimiter written (suc i) (j + (2 + length delimiter)) c cs rest
            below (omega arith) further
          ∙ ap (λ (t : Bytes). ok (t ++ 0 ∷ []))
              (append_assoc (done ++ hex_byte b) delimiter text
                ∙ append_assoc done (hex_byte b) (delimiter ++ text)))))

pub length-hex_text :
    (delimiter : Bytes) (b : ℕ) (bs : Bytes)
    → length (hex_text delimiter (b ∷ bs)) ≡ 2 + 2 * length bs + length bs * length delimiter
length-hex_text delimiter b [] = omega arith
length-hex_text delimiter b (c ∷ cs) = omega (
  arith,
  length-hex_text delimiter c cs,
  length-append delimiter (hex_text delimiter (c ∷ cs)),
  suc-mul (length cs) (length delimiter),
)

-- Memory behind the bytes that are asked for is not read.
pub strhex-front :
    (b : ℕ) (bs rest : Bytes) (delimiter : Option Bytes)
    → 1 + 2 * suc (length bs) + length bs * length (text_of delimiter) < 2 ^ 64
    → strhex true (b ∷ (bs ++ rest)) (suc (length bs)) delimiter
      ≡ ok (hex_text (text_of delimiter) (b ∷ bs) ++ 0 ∷ [])
unfolding strhex
strhex-front b bs rest delimiter small =
    let text = text_of delimiter in
    let room : strhex_length (suc (length bs)) text ≡ suc (length (hex_text text (b ∷ bs))) =
      let one_less : suc (length bs) - 1 ≡ length bs = omega arith in
      rw one_less (omega (arith, length-hex_text text b bs, small)) in
    rw (lt→ltb 0 (suc (length bs)) (omega arith)) (
      rw room (
        loop-hex_text (b ∷ (bs ++ rest)) (suc (length bs)) text [] 0 0 b bs rest refl (omega arith)
          refl))

-- For one byte or more whose text takes fewer than 2 ^ 64 bytes with its NUL, and with the memory
-- granted, strhex returns: no write leaves the memory that it asked for, which then holds exactly the
-- text of the bytes, the delimiter between them, and a NUL.
pub strhex-hex_text :
    (b : ℕ) (bs : Bytes) (delimiter : Option Bytes)
    → length (hex_text (text_of delimiter) (b ∷ bs)) + 1 < 2 ^ 64
    → strhex true (b ∷ bs) (suc (length bs)) delimiter
      ≡ ok (hex_text (text_of delimiter) (b ∷ bs) ++ 0 ∷ [])
strhex-hex_text b bs delimiter small =
    ap (λ (t : Bytes). strhex true (b ∷ t) (suc (length bs)) delimiter) (sym (append-nil bs))
    ∙ strhex-front b bs [] delimiter (omega (arith, length-hex_text (text_of delimiter) b bs))
