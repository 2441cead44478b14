-- ===== src/Prelude/Text.antt =====
-- Texts that are made of literals, of bytes read from a reader, and of formatted numbers.
use Prim.Native.Nat.{ℕ, zero, suc}
use Prim.Native.String.{String, compare}
use Prim.Native.Nat.{Ordering}
use mathlib.Core.Bool.{Bool, true, false, ◌&&◌}
use mathlib.Core.List.{List, [], ◌∷◌}
use mccr.Prelude.Bytes.{Bytes}

pub data Piece : Type 0 where
  literal : String → Piece
  -- "%s" of bytes without a NUL
  chars : Bytes → Piece
  -- "%ls"
  wide : List ℕ → Piece
  -- "%u"
  unsigned : ℕ → Piece
  -- "%02x"
  hex : ℕ → Piece
  -- "%04x"
  hex_4 : ℕ → Piece

abbrev pub Text : Type 0
Text = List Piece

abbrev pub same_string : String → String → Bool
same_string a b = elim (compare a b) [ Ordering.eq ↦ true | _ ↦ false ]

-- `!str[0]`
abbrev pub is_empty : Text → Bool
is_empty [] = true
is_empty (literal s ∷ pieces) = same_string s "" && is_empty pieces
is_empty (chars [] ∷ pieces) = is_empty pieces
is_empty (chars (c ∷ cs) ∷ pieces) = false
is_empty (wide [] ∷ pieces) = is_empty pieces
is_empty (wide (c ∷ cs) ∷ pieces) = false
is_empty (unsigned n ∷ pieces) = false
is_empty (hex n ∷ pieces) = false
is_empty (hex_4 n ∷ pieces) = false

-- The bytes in front of the first NUL.
abbrev pub c_string : Bytes → Bytes
c_string [] = []
c_string (zero ∷ bytes) = []
c_string (suc c ∷ bytes) = suc c ∷ c_string bytes
