-- ===== src/Prelude/Int.antt =====
-- The integers over the native numbers: C's `int`, with its range stated where it matters.
use Prim.Native.Nat.{ℕ, zero, suc, ◌-◌}
use distributed_task_dispath.Prelude.Tests.{leb, if◌then◌else◌}

-- `negsuc n` is -(n + 1).
pub data ℤ : Type 0 where
  pos : ℕ → ℤ
  negsuc : ℕ → ℤ

-- a - b, as an integer.
abbrev pub sub_ℕ : ℕ → ℕ → ℤ
sub_ℕ a b = if leb b a then pos (a - b) else negsuc (b - a - 1)

abbrev pub neg : ℕ → ℤ
neg zero = pos 0
neg (suc n) = negsuc n
