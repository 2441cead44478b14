-- ===== src/Common/Shown.antt =====
-- What a program sees of the texts that strhex and strascii of src/common/common.c write: all in front of
-- the NUL.
use mccr.Prelude.{
  ℕ, zero, suc, ◌+◌, ◌-◌, ◌/◌, ◌*◌, ◌%◌, ◌^◌, subst, ◌<◌, ◌≡◌, refl, sym, ap, ◌∙◌, Bool, true,
  false, [], ◌∷◌, ◌++◌, map, append_assoc, append-nil, Option, ok, fault, arith, leb, lt→leb,
  if◌then◌else◌, length, length-append, replicate, take, drop, take-append-drop, length-take,
  Bool-cases, inl, inr, leb→le, drop-cons, read-drop,
}
use mccr.Prelude.Bytes.{Bytes}
use mccr.Prelude.Text.{c_string}
use mccr.Common.{hex_digit, hex_byte, text_of, strhex, strascii, strascii_loop}
use mccr.Common.Hex.{hex_text, strhex-front, write_behind}
use mccr.Common.Overrun.{strhex_fault}

-- no byte is a NUL
abbrev pub NoNul : Bytes → Type 0
NoNul [] = Unit
NoNul (b ∷ bs) = (0 < b) × NoNul bs

pub NoNul-append : (xs ys : Bytes) → NoNul xs → NoNul ys → NoNul (xs ++ ys)
NoNul-append [] ys h k = k
NoNul-append (x ∷ xs) ys h k = (h.0, NoNul-append xs ys h.1 k)

hex_byte-NoNul : (b : ℕ) → NoNul (hex_byte b)
hex_byte-NoNul b = (digit (b / 16), (digit (b % 16), tt))
  where
    digit : (n : ℕ) → 0 < hex_digit n
    digit n = ground arith

pub hex_text-NoNul : (delimiter bs : Bytes) → NoNul delimiter → NoNul (hex_text delimiter bs)
hex_text-NoNul delimiter [] h = tt
hex_text-NoNul delimiter (b ∷ []) h = hex_byte-NoNul b
hex_text-NoNul delimiter (b ∷ c ∷ bs) h =
    NoNul-append (hex_byte b) _ (hex_byte-NoNul b)
      (NoNul-append delimiter _ h (hex_text-NoNul delimiter (c ∷ bs) h))

pub c_string-NoNul : (bs : Bytes) → NoNul bs → c_string (bs ++ 0 ∷ []) ≡ bs
c_string-NoNul [] h = refl
c_string-NoNul (zero ∷ bs) h = absurd (omega (arith, h.0))
c_string-NoNul (suc b ∷ bs) h = ap (λ (t : Bytes). suc b ∷ t) (c_string-NoNul bs h.1)

-- strhex of the first bytes of memory, or a read outside it
pub strhex_first :
    (mem : Bytes) (n : ℕ) (delimiter : Option Bytes)
    → 0 < n
    → 1 + 2 * n + (n - 1) * length (text_of delimiter) < 2 ^ 64
    → strhex true mem n delimiter ≡ (
        if leb n (length mem)
        then ok (hex_text (text_of delimiter) (take n mem) ++ 0 ∷ [])
        else fault)
strhex_first mem zero delimiter pos small = absurd (omega arith)
strhex_first [] (suc n) delimiter pos small =
    rw (lt→leb (suc n) 0 (omega arith)) (strhex_fault [] (suc n) delimiter (omega arith))
strhex_first (b ∷ bs) (suc n) delimiter pos small =
    elim (Bool-cases (leb (suc n) (length (b ∷ bs)))) [
      | inl inside ↦
          let long : length (take n bs) ≡ n =
            omega (arith, length-take n bs, leb→le (suc n) (length (b ∷ bs)) inside) in
          let less : 1 + 2 * suc n + n * length (text_of delimiter) < 2 ^ 64 =
            let one_less : suc n - 1 ≡ n = omega arith in
            subst (λ (k : ℕ). 1 + 2 * suc n + k * length (text_of delimiter) < 2 ^ 64) one_less
              small in
          rw inside (
            ap (λ (t : Bytes). strhex true (b ∷ t) (suc n) delimiter) (sym (take-append-drop n bs))
            ∙ ap (λ (k : ℕ). strhex true (b ∷ (take n bs ++ drop n bs)) (suc k) delimiter)
                (sym long)
            ∙ strhex-front b (take n bs) (drop n bs) delimiter (
                subst (λ (k : ℕ). 1 + 2 * suc k + k * length (text_of delimiter) < 2 ^ 64)
                  (sym long) less))
      | inr outside ↦ rw outside (strhex_fault (b ∷ bs) (suc n) delimiter (short outside))
    ]
  where
    short : leb (suc n) (length (b ∷ bs)) ≡ false → length (b ∷ bs) < suc n
    short outside = ground arith

-- the text of bytes, with a mark for those that cannot be printed
abbrev pub ascii_text : (ℕ → Bool) → Bytes → Bytes
ascii_text isprint = map (λ b. if isprint b then b else b'#')

ascii_text-NoNul :
    (isprint : ℕ → Bool) (bs : Bytes) → isprint 0 ≡ false → NoNul (ascii_text isprint bs)
ascii_text-NoNul isprint [] h = tt
ascii_text-NoNul isprint (zero ∷ bs) h = (rw h (omega arith), ascii_text-NoNul isprint bs h)
ascii_text-NoNul isprint (suc b ∷ bs) h = (ground arith, ascii_text-NoNul isprint bs h)

-- The loop of strascii behind what it has written.
strascii_loop_lem :
    (isprint : ℕ → Bool) (mem done bs rest : Bytes) (i : ℕ)
    → drop i mem ≡ bs ++ rest
    → i ≡ length done
    → strascii_loop isprint (length bs) mem i (done ++ replicate (suc (length bs)) 0)
      ≡ ok ((done ++ ascii_text isprint bs) ++ 0 ∷ [])
unfolding strascii_loop
strascii_loop_lem isprint mem done [] rest i held e = rw (append-nil done) refl
strascii_loop_lem isprint mem done (b ∷ bs) rest i held e =
    let c = if isprint b then b else b'#' in
    let less : suc (suc (length bs)) - length {A = ℕ} (c ∷ []) ≡ suc (length bs) = omega arith in
    let step : i + 1 ≡ suc i = omega arith in
    rw (read-drop i mem held) (
      rw (write_behind done (c ∷ []) i (suc (suc (length bs))) e (omega arith)) (
        rw (less, step)
          (strascii_loop_lem isprint mem (done ++ c ∷ []) bs rest (suc i) (drop-cons i mem 0 held).1
              (omega (arith, length-append done (c ∷ [])))
            ∙ ap (λ (t : Bytes). ok (t ++ 0 ∷ []))
                (append_assoc done (c ∷ []) (ascii_text isprint bs)))))

-- strascii of the first bytes of memory returns their text and a NUL, while memory is granted.
pub strascii_first :
    (isprint : ℕ → Bool) (bs rest : Bytes)
    → strascii isprint true (bs ++ rest) (length bs) ≡ ok (ascii_text isprint bs ++ 0 ∷ [])
unfolding strascii
strascii_first isprint bs rest =
    let more : length bs + 1 ≡ suc (length bs) = omega arith in
    rw more (strascii_loop_lem isprint (bs ++ rest) [] bs rest 0 refl refl)

-- What is seen of the text of strascii is all of it, if a NUL cannot be printed.
pub c_string-ascii_text :
    (isprint : ℕ → Bool) (bs : Bytes)
    → isprint 0 ≡ false
    → c_string (ascii_text isprint bs ++ 0 ∷ []) ≡ ascii_text isprint bs
c_string-ascii_text isprint bs h = c_string-NoNul _ (ascii_text-NoNul isprint bs h)
