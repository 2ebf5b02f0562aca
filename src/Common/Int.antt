-- ===== src/Common/Int.antt =====
-- Signed integers over the native numbers.
use Prim.Native.Nat.{ℕ, zero, suc}
use mathlib.Core.Bool.{Bool, true, false}

-- `negsuc n` is -(n + 1).
pub data ℤ : Type 0 where
  pos : ℕ → ℤ
  negsuc : ℕ → ℤ

-- n - 1
abbrev pub pred_ℤ : ℤ → ℤ
pred_ℤ (pos zero) = negsuc 0
pred_ℤ (pos (suc n)) = pos n
pred_ℤ (negsuc n) = negsuc (suc n)

-- n + 1
abbrev pub suc_ℤ : ℤ → ℤ
suc_ℤ (pos n) = pos (suc n)
suc_ℤ (negsuc zero) = pos 0
suc_ℤ (negsuc (suc n)) = negsuc n

-- n <= 0
abbrev pub nonpos_ℤ : ℤ → Bool
nonpos_ℤ (pos zero) = true
nonpos_ℤ (pos (suc n)) = false
nonpos_ℤ (negsuc n) = true

-- n < 0
abbrev pub negative_ℤ : ℤ → Bool
negative_ℤ (pos n) = false
negative_ℤ (negsuc n) = true
