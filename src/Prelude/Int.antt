-- ===== src/Prelude/Int.antt =====
-- The C++ `int`s that are tokens: a token or -1. No arithmetic is done on them.
use Prim.Native.Nat.{ℕ}

-- `negsuc n` is -(n + 1).
pub data ℤ : Type 0 where
  pos : ℕ → ℤ
  negsuc : ℕ → ℤ

abbrev pub minus_one : ℤ
minus_one = negsuc 0
