-- ===== src/Prelude/Ints.antt =====
-- The signed numbers that the program compares with sequence numbers.
use Prim.Native.Nat.{ℕ}
use mathlib.Core.Bool.{Bool, true, false}
use et_go.Prelude.Tests.{leb}

-- `negsuc n` is -(n + 1).
pub data ℤ : Type 0 where
  pos : ℕ → ℤ
  negsuc : ℕ → ℤ

-- `z >= n` for a sequence number `n`.
abbrev pub at_or_after : ℤ → ℕ → Bool
at_or_after (pos m) n = leb n m
at_or_after (negsuc m) n = false

-- `n >= z`.
abbrev pub at_most : ℤ → ℕ → Bool
at_most (pos m) n = leb m n
at_most (negsuc m) n = true
