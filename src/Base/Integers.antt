-- ===== src/Base/Integers.antt =====
-- Integers over the native numbers.
use Prim.Native.Nat.{ℕ, zero, suc}
use mathlib.Core.Bool.{Bool, true, false}

pub data ℤ : Type 0 where
  pos negsuc : ℕ → ℤ

-- the integer of a sign and a size
abbrev pub signed : Bool → ℕ → ℤ
signed negative zero = pos zero
signed true (suc n) = negsuc n
signed false (suc n) = pos (suc n)
