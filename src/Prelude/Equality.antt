-- ===== src/Prelude/Equality.antt =====
-- Equality as an interface, with the instances that the program's keys need. A `str` is the list
-- of the bytes of its UTF-8 encoding, so that `.encode()` is the identity.
use Prim.Native.Nat.{ℕ}
use Prim.Native.Char.{code}
use Prim.Native.String.{String}
use mathlib.Core.Path.{◌≡◌, refl, ap, subst}
use mathlib.Core.Logic.{◌↔◌}
use mathlib.Core.Bool.{Bool, true, false, ◌&&◌}
use mathlib.Core.List.{List, [], ◌∷◌, ◌++◌}
use native.Mathlib.Omega.{arith}
use infomesh.Prelude.Tests.{nat_beq}
use infomesh.Prelude.Lists.{length, length-append}

pub nat_beq_iff : (a b : ℕ) → (nat_beq a b ≡ true) ↔ (a ≡ b)
nat_beq_iff a b = ground arith

abbrev pub Text : Type 0
Text = List ℕ

abbrev pub text_beq : Text → Text → Bool
text_beq [] [] = true
text_beq [] (y ∷ ys) = false
text_beq (x ∷ xs) [] = false
text_beq (x ∷ xs) (y ∷ ys) = let rest = text_beq xs ys in nat_beq x y && rest

text_beq→eq : (a b : Text) → text_beq a b ≡ true → a ≡ b
text_beq→eq [] [] h = refl
text_beq→eq [] (y ∷ ys) h = cc
text_beq→eq (x ∷ xs) [] h = cc
text_beq→eq (x ∷ xs) (y ∷ ys) h = ground (arith, text_beq→eq xs ys)

text_beq_refl : (a : Text) → text_beq a a ≡ true
text_beq_refl [] = refl
text_beq_refl (x ∷ xs) = ground (arith, text_beq_refl xs)

pub text_beq_iff : (a b : Text) → (text_beq a b ≡ true) ↔ (a ≡ b)
text_beq_iff a b = (text_beq→eq a b, λ p. subst (λ c. text_beq a c ≡ true) p (text_beq_refl a))

-- What a key type of a dictionary has to offer.
pub record Eq {ℓ} (K : Type ℓ) : Type ℓ where
  pub same : K → K → Bool
  pub same_iff : (x y : K) → (same x y ≡ true) ↔ (x ≡ y)

instance abbrev pub text_eq : Eq Text
text_eq = record { same = text_beq; same_iff = text_beq_iff }

instance abbrev pub nat_eq : Eq ℕ
nat_eq = record { same = nat_beq; same_iff = nat_beq_iff }

abbrev pub ◌==◌ {ℓ} : {K : Type ℓ} ⦃e : Eq K⦄ → K → K → Bool
◌==◌ ⦃e⦄ x y = e.same x y

infix 50 ◌==◌
-- The bytes of an ASCII literal.
abbrev pub bytes : String → Text
bytes String.[] = []
bytes (String.◌∷◌ c s) = code c ∷ bytes s

-- With one length on the left or on the right, a concatenation has one reading.
pub append_cancel_left {ℓ} :
    {A : Type ℓ} (a b c d : List A) → length a ≡ length b → a ++ c ≡ b ++ d → (a ≡ b) × (c ≡ d)
append_cancel_left [] [] c d h e = (refl, e)
append_cancel_left [] (y ∷ b) c d h e = absurd (omega arith)
append_cancel_left (x ∷ a) [] c d h e = absurd (omega arith)
append_cancel_left (x ∷ a) (y ∷ b) c d h e =
    let ih = append_cancel_left a b c d (omega arith) (cc) in (cc, cc)

pub append_cancel_right {ℓ} :
    {A : Type ℓ} (a b c d : List A) → length c ≡ length d → a ++ c ≡ b ++ d → (a ≡ b) × (c ≡ d)
append_cancel_right a b c d h e =
    append_cancel_left a b c d (omega (arith, length-append a c, length-append b d, ap length e)) e
