-- ===== src/Prelude/Int.antt =====
-- Python's integers where a difference may fall below zero. `negsuc n` is -(n + 1).
use Prim.Native.Nat.{ℕ, suc, ◌+◌, ◌-◌}
use inference_perf.Prelude.Tests.{leb, if◌then◌else◌}

pub data ℤ : Type 0 where
  pos negsuc : (n : ℕ) → ℤ

-- The difference of two natural numbers.
abbrev pub sub_ℕ : ℕ → ℕ → ℤ
sub_ℕ m n = if leb n m then pos (m - n) else negsuc (n - m - 1)

infixl 30 ◌+ℤ◌
abbrev pub ◌+ℤ◌ : ℤ → ℤ → ℤ
pos a +ℤ pos b = pos (a + b)
pos a +ℤ negsuc b = sub_ℕ a (suc b)
negsuc a +ℤ pos b = sub_ℕ b (suc a)
negsuc a +ℤ negsuc b = negsuc (suc (a + b))
