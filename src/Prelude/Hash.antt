-- ===== src/Prelude/Hash.antt =====
-- What the program takes from `hashlib.sha256`, and `bytes.hex()`.
use infomesh.Prelude.Lists.{length, All}
use infomesh.Prelude.Equality.{Text}
use infomesh.Prelude.Tests.{if◌then◌else◌, ltb}
use Prim.Native.Nat.{ℕ, zero, suc, ◌+◌, ◌-◌, ◌*◌, ◌/◌, ◌%◌, ◌<◌}
use mathlib.Core.Path.{◌≡◌, refl, ap}
use mathlib.Core.Logic.{◌≢◌}
use mathlib.Core.List.{[], ◌∷◌}
use native.Mathlib.Omega.{arith}

-- The hash function itself is a parameter. A digest has 32 bytes.
pub record Sha256 : Type 0 where
  pub digest : Text → Text
  pub length-digest : (input : Text) → length (digest input) ≡ 32
  pub digest-IsBytes : (input : Text) → All (λ b. b < 256) (digest input)

-- Two different inputs with one digest, both among the inputs that the predicate names.
abbrev pub Collision : ⦃h : Sha256⦄ → (Text → Type 0) → Type 0
Collision ⦃h⦄ P = (x : Text) × (y : Text) × P x × P y × (x ≢ y) × (h.digest x ≡ h.digest y)

-- The character of a hexadecimal digit.
unfoldable pub hex_digit : ℕ → ℕ
hex_digit d = if ltb d 10 then b'0' + d else b'a' + (d - 10)

-- `data.hex()`
unfoldable pub hex : Text → Text
unfolding hex_digit
hex [] = []
hex (b ∷ bs) = hex_digit (b / 16) ∷ hex_digit (b % 16) ∷ hex bs

unfoldable pub hexdigest : ⦃h : Sha256⦄ → Text → Text
unfolding hex
hexdigest ⦃h⦄ t = hex (h.digest t)

pub length-hex : (bs : Text) → length (hex bs) ≡ 2 * length bs
unfolding hex
length-hex [] = omega arith
length-hex (b ∷ bs) = omega (arith, length-hex bs)

hex_digit-injective : (c d : ℕ) → c < 16 → d < 16 → hex_digit c ≡ hex_digit d → c ≡ d
unfolding hex_digit
hex_digit-injective c d p q h = ground arith

hex_byte-injective :
    (x y : ℕ)
    → x < 256
    → y < 256
    → hex_digit (x / 16) ≡ hex_digit (y / 16)
    → hex_digit (x % 16) ≡ hex_digit (y % 16)
    → x ≡ y
hex_byte-injective x y p q h l = omega (
  arith,
  hex_digit-injective (x / 16) (y / 16) (omega arith) (omega arith) h,
  hex_digit-injective (x % 16) (y % 16) (omega arith) (omega arith) l,
)

-- Distinct byte strings print as distinct texts.
pub hex-injective :
    (a b : Text) → All (λ b. b < 256) a → All (λ b. b < 256) b → hex a ≡ hex b → a ≡ b
unfolding hex
hex-injective [] [] p q h = refl
hex-injective [] (y ∷ b) p q h = cc
hex-injective (x ∷ a) [] p q h = cc
hex-injective (x ∷ a) (y ∷ b) p q h =
    let first : x ≡ y = hex_byte-injective x y p.0 q.0 (cc) (cc) in
    let rest : a ≡ b = hex-injective a b p.1 q.1 (cc) in cc

pub length-hexdigest : ⦃h : Sha256⦄ → (t : Text) → length (hexdigest t) ≡ 64
unfolding hexdigest
length-hexdigest ⦃h⦄ t = omega (arith, length-hex (h.digest t), h.length-digest t)

-- A stand-in for SHA-256 on which tests run: the first 32 bytes, filled up with zeros.
abbrev pub clamp_byte : ℕ → ℕ
clamp_byte b = b % 256

abbrev pub toy_digest : ℕ → Text → Text
toy_digest zero t = []
toy_digest (suc n) [] = 0 ∷ toy_digest n []
toy_digest (suc n) (x ∷ t) = clamp_byte x ∷ toy_digest n t

pub length-toy_digest : (n : ℕ) (t : Text) → length (toy_digest n t) ≡ n
length-toy_digest zero t = refl
length-toy_digest (suc n) [] = ap suc (length-toy_digest n [])
length-toy_digest (suc n) (x ∷ t) = ap suc (length-toy_digest n t)

pub toy_digest-IsBytes : (n : ℕ) (t : Text) → All (λ b. b < 256) (toy_digest n t)
toy_digest-IsBytes zero t = tt
toy_digest-IsBytes (suc n) [] = (omega arith, toy_digest-IsBytes n [])
toy_digest-IsBytes (suc n) (x ∷ t) = (omega arith, toy_digest-IsBytes n t)

instance abbrev pub toy_hash : Sha256
toy_hash = record {
  digest = toy_digest 32;
  length-digest = length-toy_digest 32;
  digest-IsBytes = toy_digest-IsBytes 32;
}
