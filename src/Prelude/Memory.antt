-- ===== src/Prelude/Memory.antt =====
-- Reads and writes of C objects: an access outside the object is a fault.
use Prim.Native.Nat.{ℕ, zero, suc, ◌+◌, ◌≤◌, ◌<◌}
use mathlib.Core.Path.{◌≡◌, refl}
use mathlib.Core.List.{List, [], ◌∷◌}
use native.Mathlib.Omega.{arith}
use mccr.Prelude.Lists.{length, take, drop, memcpy}
use mccr.Prelude.Outcome.{Run, ok, fault}
use mccr.Prelude.Tests.{leb, if◌then◌else◌, le→leb}

module _ {ℓ} {A : Type ℓ} where
  -- `object[i]`
  abbrev pub read : List A → ℕ → Run A
  read [] i = fault
  read (x ∷ xs) zero = ok x
  read (x ∷ xs) (suc i) = read xs i

  -- the source of a `memcpy` of `n` elements from `object + i`
  abbrev pub read_block : List A → ℕ → ℕ → Run (List A)
  read_block xs i n = if leb (i + n) (length xs) then ok (take n (drop i xs)) else fault

  -- `memcpy (object + i, src, length src)`
  abbrev pub write_block : List A → ℕ → List A → Run (List A)
  write_block xs i src = if leb (i + length src) (length xs) then ok (memcpy xs i src) else fault

  pub read-drop :
      (i : ℕ) (xs : List A) {x : A} {ys : List A} → drop i xs ≡ x ∷ ys → read xs i ≡ ok x
  read-drop zero [] h = cc
  read-drop zero (x ∷ xs) h = cc
  read-drop (suc i) [] h = cc
  read-drop (suc i) (x ∷ xs) h = read-drop i xs h

  -- A read inside the object returns.
  pub read_inside : (xs : List A) (i : ℕ) → i < length xs → (x : A) × (read xs i ≡ ok x)
  read_inside [] i h = absurd (omega arith)
  read_inside (x ∷ xs) zero h = (x, refl)
  read_inside (x ∷ xs) (suc i) h = read_inside xs i (omega arith)

  pub read_block_inside :
      (xs : List A) (i n : ℕ) → i + n ≤ length xs → read_block xs i n ≡ ok (take n (drop i xs))
  read_block_inside xs i n h = rw (le→leb _ _ h)

  pub write_block_inside :
      (xs : List A) (i : ℕ) (src : List A)
      → i + length src ≤ length xs
      → write_block xs i src ≡ ok (memcpy xs i src)
  write_block_inside xs i src h = rw (le→leb _ _ h)
