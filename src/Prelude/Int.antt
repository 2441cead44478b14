-- ===== src/Prelude/Int.antt =====
-- The `int`s that the program exchanges with the C libraries: return codes and timeouts.
use Prim.Native.Nat.{ℕ, suc, ◌-◌, ◌^◌}
use mccr.Prelude.Tests.{ltb, ◌==◌}
use mathlib.Core.Bool.{Bool, true, false}

-- `negsuc n` is -(n + 1).
pub data ℤ : Type 0 where
  pos : ℕ → ℤ
  negsuc : ℕ → ℤ

abbrev pub is_negative : ℤ → Bool
is_negative (pos n) = false
is_negative (negsuc n) = true

abbrev pub is_zero : ℤ → Bool
is_zero (pos n) = n == 0
is_zero (negsuc n) = false

-- `n < m` and `n == m`
abbrev pub lt_int : ℤ → ℕ → Bool
lt_int (pos n) m = ltb n m
lt_int (negsuc n) m = true

abbrev pub is_int : ℤ → ℕ → Bool
is_int (pos n) m = n == m
is_int (negsuc n) m = false

-- `(size_t) n`
abbrev pub to_size : ℤ → ℕ
to_size (pos n) = n
to_size (negsuc n) = 2 ^ 64 - suc n
