-- ===== src/Prelude/Int.antt =====
-- Integers over the native numbers, as far as votes need them: steps up and down, and the sign.
use infomesh.Prelude.Tests.{leb}
use Prim.Native.Nat.{ℕ, zero, suc, ◌+◌}
use mathlib.Core.Path.{◌≡◌}
use mathlib.Core.Bool.{Bool, true, false}
use native.Mathlib.Omega.{arith}

-- `negsuc n` is -(n + 1).
pub data ℤ : Type 0 where
  pos : ℕ → ℤ
  negsuc : ℕ → ℤ

unfoldable pub increment : ℤ → ℤ
increment (pos n) = pos (suc n)
increment (negsuc zero) = pos 0
increment (negsuc (suc n)) = negsuc n

unfoldable pub decrement : ℤ → ℤ
decrement (pos zero) = negsuc 0
decrement (pos (suc n)) = pos n
decrement (negsuc n) = negsuc (suc n)

unfoldable pub nonnegative : ℤ → Bool
nonnegative (pos n) = true
nonnegative (negsuc n) = false

-- The integer is the number of ups less the number of downs.
abbrev pub Balance : ℤ → ℕ → ℕ → Type 0
Balance (pos n) ups downs = n + downs ≡ ups
Balance (negsuc n) ups downs = suc n + ups ≡ downs

pub increment-Balance : (z : ℤ) (u d : ℕ) → Balance z u d → Balance (increment z) (suc u) d
unfolding increment
increment-Balance (pos n) u d h = omega arith
increment-Balance (negsuc zero) u d h = omega arith
increment-Balance (negsuc (suc n)) u d h = omega arith

pub decrement-Balance : (z : ℤ) (u d : ℕ) → Balance z u d → Balance (decrement z) u (suc d)
unfolding decrement
decrement-Balance (pos zero) u d h = omega arith
decrement-Balance (pos (suc n)) u d h = omega arith
decrement-Balance (negsuc n) u d h = omega arith

pub nonnegative-eq : (z : ℤ) (u d : ℕ) → Balance z u d → nonnegative z ≡ leb d u
unfolding nonnegative
nonnegative-eq (pos n) u d h = ground arith
nonnegative-eq (negsuc n) u d h = ground arith
