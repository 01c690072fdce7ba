-- ===== src/Crawler/UrlAssigner/Distance.antt =====
-- infomesh/crawler/url_assigner.py, `_xor_distance`, on hexadecimal digests.
use infomesh.Prelude.{
  ℕ, ◌+◌, ◌-◌, ◌*◌, ◌/◌, ◌%◌, ◌≤◌, ◌<◌, ◌≡◌, refl, sym, ◌∙◌, false, some, [], ◌∷◌, arith, length,
  append-nil, null, max, bit_xor, Text, All,
}
use infomesh.Prelude.Hash.{Sha256, hex, hex_digit, hexdigest, length-hexdigest, length-hex}
use infomesh.Crawler.UrlAssigner.{
  digit_value, int_from, int_base_16, ljust, xor_distance, content_hash,
}

-- The number that the bytes write to the base 256, after the number `acc`.
pub big_endian : ℕ → Text → ℕ
big_endian acc [] = acc
big_endian acc (b ∷ bs) = big_endian (acc * 256 + b) bs

digit_value-hex_digit : (d : ℕ) → d < 16 → digit_value (hex_digit d) ≡ some d
unfolding digit_value hex_digit
digit_value-hex_digit d l = ground arith

int_from-hex :
    (acc : ℕ) (bs : Text) → All (λ b. b < 256) bs → int_from acc (hex bs) ≡ some (big_endian acc bs)
unfolding int_from hex big_endian
int_from-hex acc [] a = refl
int_from-hex acc (b ∷ bs) a =
    let e : (acc * 16 + b / 16) * 16 + b % 16 ≡ acc * 256 + b = omega arith in
    rw
      (
        digit_value-hex_digit (b / 16) (omega arith),
        digit_value-hex_digit (b % 16) (omega arith),
        e,
      )
      (int_from-hex (acc * 256 + b) bs a.1)

-- Bytes of one length are determined by the number that they write.
big_endian-injective :
    (m n : ℕ) (xs bs : Text)
    → length xs ≡ length bs
    → All (λ b. b < 256) xs
    → All (λ b. b < 256) bs
    → big_endian m xs ≡ big_endian n bs
    → (m ≡ n) × (xs ≡ bs)
unfolding big_endian
big_endian-injective m n [] [] l p q e = (e, refl)
big_endian-injective m n [] (y ∷ bs) l p q e = absurd (omega arith)
big_endian-injective m n (x ∷ xs) [] l p q e = absurd (omega arith)
big_endian-injective m n (x ∷ xs) (y ∷ bs) l p q e =
    let (high, rest) =
      big_endian-injective (m * 256 + x) (n * 256 + y) xs bs (omega arith) p.1 q.1 e in
    let x_is : x ≡ y = omega (arith, high, p.0, q.0) in (omega (arith, high, p.0, q.0), cc)

ljust-le : (a : Text) (width : ℕ) → width ≤ length a → ljust a width ≡ a
unfolding ljust
ljust-le a width l = let z : width - length a ≡ 0 = omega arith in rw z (append-nil a)

null_long : (a : Text) → 0 < length a → null a ≡ false
null_long [] l = absurd (omega arith)
null_long (c ∷ a) l = refl

pub int_base_16-hex :
    (bs : Text)
    → 0 < length bs
    → All (λ b. b < 256) bs
    → int_base_16 (hex bs) ≡ some (big_endian 0 bs)
unfolding int_base_16
int_base_16-hex bs l a =
    rw (null_long (hex bs) (omega (arith, length-hex bs))) (int_from-hex 0 bs a)

module _ ⦃h : Sha256⦄ where
  -- The hash of a text, as a number.
  pub hash_value : Text → ℕ
  hash_value t = big_endian 0 (h.digest t)

  int_base_16-content_hash : (t : Text) → int_base_16 (content_hash t) ≡ some (hash_value t)
  unfolding hash_value hexdigest
  int_base_16-content_hash t =
      int_base_16-hex (h.digest t) (omega (arith, h.length-digest t)) (h.digest-IsBytes t)

  pub xor_distance-content_hash :
      (s t : Text)
      → xor_distance (content_hash s) (content_hash t)
        ≡ some (bit_xor (hash_value s) (hash_value t))
  unfolding xor_distance
  xor_distance-content_hash s t =
      let a = content_hash s in
      let b = content_hash t in
      let same : length a ≡ length b = length-hexdigest s ∙ sym (length-hexdigest t) in
      let swapped : ljust b (max (length a) (length b)) ≡ b =
        ljust-le b (max (length a) (length b)) (omega arith) in
      rw
        (
          ljust-le a (max (length a) (length b)) (omega arith),
          swapped,
          int_base_16-content_hash s,
          int_base_16-content_hash t,
        )
        refl

  pub hash_value-injective : (p q : Text) → hash_value p ≡ hash_value q → h.digest p ≡ h.digest q
  unfolding hash_value
  hash_value-injective p q e =
      (big_endian-injective 0 0 (h.digest p) (h.digest q)
        (h.length-digest p ∙ sym (h.length-digest q)) (h.digest-IsBytes p) (h.digest-IsBytes q) e).1
