-- ===== src/Prelude/Integers.antt =====
-- Integers over the native numbers, for the i64 of the source: `negsuc n` is -(n + 1).
use Prim.Native.Nat.{ℕ}

pub data ℤ : Type 0 where
  pos : ℕ → ℤ
  negsuc : ℕ → ℤ
