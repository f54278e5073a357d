-- ===== src/Prelude/Integers.antt =====
-- Integers over the native numbers.
use Prim.Native.Nat.{ℕ, zero, suc}

pub data ℤ : Type 0 where
  pos negsuc : ℕ → ℤ

-- `-n`
unfoldable pub negated : ℕ → ℤ
negated zero = pos 0
negated (suc n) = negsuc n
