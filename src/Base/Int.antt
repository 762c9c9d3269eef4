-- ===== src/Base/Int.antt =====
-- Signed machine integers by the number that they stand for.
use Prim.Native.Nat.{ℕ}

-- `negsuc n` is -(n + 1).
pub data ℤ : Type 0 where
  pos : ℕ → ℤ
  negsuc : ℕ → ℤ
