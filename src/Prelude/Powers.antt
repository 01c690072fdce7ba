-- ===== src/Prelude/Powers.antt =====
-- Powers of two, and finite tables.
use infomesh.Prelude.Tests.{if◌then◌else◌}
use Prim.Native.Nat.{ℕ, zero, suc, ◌+◌, ◌*◌, ◌^◌, ◌≤◌, ◌<◌}
use mathlib.Core.Path.{◌≡◌}
use mathlib.Core.Logic.{◌↔◌}
use mathlib.Core.Bool.{Bool, true, false}
use native.Mathlib.Nat.{pow-suc}
use native.Mathlib.Omega.{arith}

pub two_pow-add : (a b : ℕ) → 2 ^ (a + b) ≡ 2 ^ a * 2 ^ b
two_pow-add zero b = let e : 0 + b ≡ b = omega arith in rw e (omega arith)
two_pow-add (suc a) b =
    let e : suc a + b ≡ suc (a + b) = omega arith in
    rw (e, pow-suc 2 (a + b), pow-suc 2 a) (omega (arith, two_pow-add a b))

pub two_pow-pos : (a : ℕ) → 0 < 2 ^ a
two_pow-pos zero = omega arith
two_pow-pos (suc a) = omega (arith, pow-suc 2 a, two_pow-pos a)

pub two_pow_mono : (a b : ℕ) → a ≤ b → 2 ^ a ≤ 2 ^ b
two_pow_mono zero b h = two_pow-pos b
two_pow_mono (suc a) zero h = absurd (omega arith)
two_pow_mono (suc a) (suc b) h =
    omega (arith, pow-suc 2 a, pow-suc 2 b, two_pow_mono a b (omega arith))

-- A number with the remainder r below m is below p * m exactly when its quotient is below p.
pub digit_lt_iff : (b p m r : ℕ) → r < m → (b * m + r < p * m) ↔ (b < p)
digit_lt_iff b p m r h = (λ l. grind arith, λ l. grind arith)

-- A test that every number below a bound passes: a table of the test's values.
unfoldable pub every_below : (ℕ → Bool) → ℕ → Bool
every_below test zero = true
every_below test (suc bound) = if test bound then every_below test bound else false

pub every_below_sound :
    (test : ℕ → Bool) (bound k : ℕ) → k < bound → every_below test bound ≡ true → test k ≡ true
unfolding every_below
every_below_sound test zero k l passed = absurd (omega arith)
every_below_sound test (suc bound) k l passed = ground (arith, every_below_sound test bound k)
