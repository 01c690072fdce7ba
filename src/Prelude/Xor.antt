-- ===== src/Prelude/Xor.antt =====
-- Exclusive or of numbers, digit by digit, and the sum of binary digits.
use Prim.Native.Nat.{
  ℕ, zero, suc, ◌+◌, ◌*◌, ◌/◌, ◌%◌, ◌^◌, ◌≤◌, ◌<◌, differ, bit_xor, bit_xor-bitwise, digits,
}
use mathlib.Core.Path.{◌≡◌, refl, sym}
use native.Mathlib.Nat.{pow-suc}
use native.Mathlib.Omega.{arith}

differ-eq : (p q : ℕ) → p < 2 → q < 2 → differ p q ≡ (p + q) % 2
differ-eq zero zero h k = refl
differ-eq zero (suc zero) h k = refl
differ-eq (suc zero) zero h k = refl
differ-eq (suc zero) (suc zero) h k = refl
differ-eq zero (suc (suc q)) h k = absurd (omega arith)
differ-eq (suc zero) (suc (suc q)) h k = absurd (omega arith)
differ-eq (suc (suc p)) q h k = absurd (omega arith)

abbrev xor_digits : ℕ → ℕ → ℕ → ℕ
xor_digits n a b = digits (λ b. b) differ n a b

-- More digits than the first number has change nothing.
xor_digits-fuel : (n m a b : ℕ) → a ≤ n → a ≤ m → xor_digits n a b ≡ xor_digits m a b
xor_digits-fuel zero zero a b h k = refl
xor_digits-fuel zero (suc m) zero b h k = refl
xor_digits-fuel zero (suc m) (suc a) b h k = absurd (omega arith)
xor_digits-fuel (suc n) zero zero b h k = refl
xor_digits-fuel (suc n) zero (suc a) b h k = absurd (omega arith)
xor_digits-fuel (suc n) (suc m) zero b h k = refl
xor_digits-fuel (suc n) (suc m) (suc a) b h k =
    omega (arith, xor_digits-fuel n m (suc a / 2) (b / 2) (omega arith) (omega arith))

zero-bit_xor : (b : ℕ) → bit_xor 0 b ≡ b
zero-bit_xor b = bit_xor-bitwise 0 b

-- The lowest digit, and the rest.
pub bit_xor_step : (a b : ℕ) → bit_xor a b ≡ bit_xor (a / 2) (b / 2) * 2 + (a % 2 + b % 2) % 2
bit_xor_step zero b = omega (arith, zero-bit_xor b, zero-bit_xor (b / 2))
bit_xor_step (suc a) b = omega (
  arith,
  bit_xor-bitwise (suc a) b,
  bit_xor-bitwise (suc a / 2) (b / 2),
  xor_digits-fuel a (suc a / 2) (suc a / 2) (b / 2) (omega arith) (omega arith),
  differ-eq (suc a % 2) (b % 2) (omega arith) (omega arith),
)

cancel_fuel : (n a b c : ℕ) → a + b + c ≤ n → bit_xor a b ≡ bit_xor a c → b ≡ c
cancel_fuel zero a b c h e = omega arith
cancel_fuel (suc n) a b c h e =
    let halves : bit_xor (a / 2) (b / 2) ≡ bit_xor (a / 2) (c / 2) =
      omega (arith, e, bit_xor_step a b, bit_xor_step a c) in
    omega (
      arith,
      e,
      bit_xor_step a b,
      bit_xor_step a c,
      cancel_fuel n (a / 2) (b / 2) (c / 2) (omega arith) halves,
    )

-- Two numbers at one distance from a third are equal.
pub bit_xor_cancel : (a b c : ℕ) → bit_xor a b ≡ bit_xor a c → b ≡ c
bit_xor_cancel a b c e = cancel_fuel (a + b + c) a b c (omega arith) e

self_fuel : (n a : ℕ) → a ≤ n → bit_xor a a ≡ 0
self_fuel zero a h = let e : a ≡ 0 = omega arith in rw e (zero-bit_xor 0)
self_fuel (suc n) a h = omega (arith, bit_xor_step a a, self_fuel n (a / 2) (omega arith))

pub bit_xor_self : (a : ℕ) → bit_xor a a ≡ 0
bit_xor_self a = self_fuel a a (omega arith)

pub bit_xor_lt : (k a b : ℕ) → a < 2 ^ k → b < 2 ^ k → bit_xor a b < 2 ^ k
bit_xor_lt zero a b h k =
    let e : a ≡ 0 = omega arith in
    let f : b ≡ 0 = omega arith in rw (e, f) (omega (arith, zero-bit_xor 0))
bit_xor_lt (suc n) a b h k = omega (
  arith,
  pow-suc 2 n,
  bit_xor_step a b,
  bit_xor_lt n (a / 2) (b / 2) (omega (arith, pow-suc 2 n)) (omega (arith, pow-suc 2 n)),
)

-- The number of binary digits 1 among the lowest n.
unfoldable pub digit_sum : ℕ → ℕ → ℕ
digit_sum zero x = 0
digit_sum (suc n) x = x % 2 + digit_sum n (x / 2)

pub digit_sum-zero : (n : ℕ) → digit_sum n 0 ≡ 0
unfolding digit_sum
digit_sum-zero zero = refl
digit_sum-zero (suc n) = omega (arith, digit_sum-zero n)

pub digit_sum-fuel : (n m x : ℕ) → x ≤ n → x ≤ m → digit_sum n x ≡ digit_sum m x
unfolding digit_sum
digit_sum-fuel zero m x h k = let e : x ≡ 0 = omega arith in rw e (sym (digit_sum-zero m))
digit_sum-fuel (suc n) zero x h k =
    let e : x ≡ 0 = omega arith in rw e (omega (arith, digit_sum-zero n))
digit_sum-fuel (suc n) (suc m) x h k =
    omega (arith, digit_sum-fuel n m (x / 2) (omega arith) (omega arith))

pub digit_sum-le : (n k x : ℕ) → x < 2 ^ k → digit_sum n x ≤ k
unfolding digit_sum
digit_sum-le zero k x h = omega arith
digit_sum-le (suc n) zero x h =
    let e : x ≡ 0 = omega arith in rw e (omega (arith, digit_sum-zero n))
digit_sum-le (suc n) (suc k) x h =
    omega (arith, pow-suc 2 k, digit_sum-le n k (x / 2) (omega (arith, pow-suc 2 k)))

pub digit_sum_pos : (n x : ℕ) → x ≤ n → digit_sum n x ≡ 0 → x ≡ 0
unfolding digit_sum
digit_sum_pos zero x h e = omega arith
digit_sum_pos (suc n) x h e =
    omega (arith, digit_sum_pos n (x / 2) (omega arith) (omega (arith, e)))

digit_sum-bit_xor :
    (n a b : ℕ)
    → digit_sum (suc n) (bit_xor a b) ≡ (a % 2 + b % 2) % 2 + digit_sum n (bit_xor (a / 2) (b / 2))
unfolding digit_sum
digit_sum-bit_xor n a b =
    let half : bit_xor a b / 2 ≡ bit_xor (a / 2) (b / 2) = omega (arith, bit_xor_step a b) in
    rw half (omega (arith, bit_xor_step a b))

pub digit_sum-bit_xor_comm : (n a b : ℕ) → digit_sum n (bit_xor a b) ≡ digit_sum n (bit_xor b a)
digit_sum-bit_xor_comm zero a b = unfold digit_sum in refl
digit_sum-bit_xor_comm (suc n) a b = omega (
  arith,
  digit_sum-bit_xor n a b,
  digit_sum-bit_xor n b a,
  digit_sum-bit_xor_comm n (a / 2) (b / 2),
)

pub digit_sum_triangle :
    (n a b c : ℕ)
    → digit_sum n (bit_xor a c) ≤ digit_sum n (bit_xor a b) + digit_sum n (bit_xor b c)
digit_sum_triangle zero a b c = unfold digit_sum in omega arith
digit_sum_triangle (suc n) a b c = omega (
  arith,
  digit_sum-bit_xor n a b,
  digit_sum-bit_xor n b c,
  digit_sum-bit_xor n a c,
  digit_sum_triangle n (a / 2) (b / 2) (c / 2),
)
