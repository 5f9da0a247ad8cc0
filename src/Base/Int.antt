-- ===== src/Base/Int.antt =====
-- Signed integers over the native numbers, for math/big values and their signs.
use Prim.Native.Nat.{ℕ}

-- `negsuc n` is -(n + 1).
pub data ℤ : Type 0 where
  pos : ℕ → ℤ
  negsuc : ℕ → ℤ
