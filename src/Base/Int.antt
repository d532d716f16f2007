-- ===== src/Base/Int.antt =====
-- Integers over the native numbers: what a change of a traffic counter may be.
use Prim.Native.Nat.{ℕ, suc, ◌+◌, ◌-◌}

-- `negsuc n` is -(n + 1).
pub data ℤ : Type 0 where
  pos : ℕ → ℤ
  negsuc : ℕ → ℤ

-- `Math.max(0, used + delta)` of a count
unfoldable pub add_clamped : ℕ → ℤ → ℕ
add_clamped used (pos n) = used + n
add_clamped used (negsuc n) = used - suc n
