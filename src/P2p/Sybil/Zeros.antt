-- ===== src/P2p/Sybil/Zeros.antt =====
-- infomesh/p2p/sybil.py, `_count_leading_zero_bits_fast`: the test of the proof of work as a bound on
-- the hash, read as a number.
use infomesh.Prelude.{
  ℕ, suc, ◌+◌, ◌-◌, ◌*◌, ◌^◌, ◌≤◌, ◌<◌, ◌≡◌, ◌↔◌, inl, inr, refl, Bool, true, false, [], ◌∷◌, arith,
  ltb, leb, if◌then◌else◌, length, Text, All, ◌==◌, nat_eq, nat_beq_iff, Bool-cases,
}
use infomesh.Prelude.Powers.{
  two_pow-add, two_pow_mono, digit_lt_iff, every_below, every_below_sound,
}
use infomesh.P2p.Sybil.{bit_length, count_leading_zero_bits_fast}

-- The number that the bytes spell, the highest byte first.
pub big_endian : Text → ℕ
big_endian [] = 0
big_endian (b ∷ bs) = b * 2 ^ (8 * length bs) + big_endian bs

big_endian_lt : (bs : Text) → All (λ b. b < 256) bs → big_endian bs < 2 ^ (8 * length bs)
unfolding big_endian
big_endian_lt [] h = omega arith
big_endian_lt (b ∷ bs) h =
    let e : 8 * suc (length bs) ≡ 8 + 8 * length bs = omega arith in
    rw (e, two_pow-add 8 (8 * length bs))
      ((digit_lt_iff b 256 (2 ^ (8 * length bs)) (big_endian bs) (big_endian_lt bs h.1)).1 h.0)

-- For each byte that is not 0 and each d up to 8, the leading zeros reach d exactly when the byte is
-- below 2^(8 - d).
byte_ok : ℕ → ℕ → Bool
byte_ok d b =
    if b == 0
    then true
    else (if leb d (8 - bit_length 8 b) then ltb b (2 ^ (8 - d)) else leb (2 ^ (8 - d)) b)

byte_table : every_below (λ d. every_below (byte_ok d) 256) 9 ≡ true
unfolding every_below byte_ok bit_length
byte_table = refl

byte_ok_reads :
    (d b : ℕ) → byte_ok d b ≡ true → (b == 0) ≡ false → (d ≤ 8 - bit_length 8 b) ↔ (b < 2 ^ (8 - d))
unfolding byte_ok
byte_ok_reads d b c n = (λ h. ground arith, λ h. ground arith)

byte_zeros :
    (d b : ℕ) → d < 9 → b < 256 → (b == 0) ≡ false → (d ≤ 8 - bit_length 8 b) ↔ (b < 2 ^ (8 - d))
byte_zeros d b p q n =
    byte_ok_reads d b
      (every_below_sound (byte_ok d) 256 b q
        (every_below_sound (λ d. every_below (byte_ok d) 256) 9 d p byte_table))
      n

module _ (b : ℕ) (bs : Text) (h : All (λ b. b < 256) (b ∷ bs)) (d : ℕ)
    (l : d ≤ 8 * suc (length bs)) where
  Claim : Type 0
  Claim =
      (d ≤ count_leading_zero_bits_fast (b ∷ bs))
      ↔ (big_endian (b ∷ bs) < 2 ^ (8 * suc (length bs) - d))

  zeros_zero :
      (b == 0) ≡ true → count_leading_zero_bits_fast (b ∷ bs) ≡ 8 + count_leading_zero_bits_fast bs
  unfolding count_leading_zero_bits_fast
  zeros_zero z = rw z

  zeros_nonzero : (b == 0) ≡ false → count_leading_zero_bits_fast (b ∷ bs) ≡ 8 - bit_length 8 b
  unfolding count_leading_zero_bits_fast
  zeros_nonzero z = rw z

  value_zero : (b == 0) ≡ true → big_endian (b ∷ bs) ≡ big_endian bs
  unfolding big_endian
  value_zero z = let e : b ≡ 0 = (nat_beq_iff b 0).0 z in rw e (omega arith)

  value : big_endian (b ∷ bs) ≡ b * 2 ^ (8 * length bs) + big_endian bs
  unfolding big_endian
  value = refl

  zero_low : (b == 0) ≡ true → d ≤ 8 → Claim
  unfolding Claim
  zero_low z s =
      rw (zeros_zero z, value_zero z)
        (
          λ _. omega (
            arith,
            big_endian_lt bs h.1,
            two_pow_mono (8 * length bs) (8 * suc (length bs) - d) (omega arith),
          ),
          λ _. omega arith,
        )

  zero_high :
      (b == 0) ≡ true
      → 8 < d
      → (d - 8 ≤ count_leading_zero_bits_fast bs) ↔ (big_endian bs < 2 ^ (8 * length bs - (d - 8)))
      → Claim
  unfolding Claim
  zero_high z s ih =
      let e : 8 * suc (length bs) - d ≡ 8 * length bs - (d - 8) = omega arith in
      rw (zeros_zero z, value_zero z, e) (λ p. ih.0 (omega arith), λ p. omega (arith, ih.1 p))

  nonzero_low : (b == 0) ≡ false → d < 9 → Claim
  unfolding Claim
  nonzero_low z s =
      let e : 8 * suc (length bs) - d ≡ 8 - d + 8 * length bs = omega arith in
      let digit =
        digit_lt_iff b (2 ^ (8 - d)) (2 ^ (8 * length bs)) (big_endian bs) (big_endian_lt bs h.1) in
      let byte = byte_zeros d b s h.0 z in
      rw (zeros_nonzero z, value, e, two_pow-add (8 - d) (8 * length bs))
        (λ p. digit.1 (byte.0 p), λ p. byte.1 (digit.0 p))

  nonzero_high : (b == 0) ≡ false → 8 < d → Claim
  unfolding Claim
  nonzero_high z s =
      let m = two_pow_mono (8 * suc (length bs) - d) (8 * length bs) (omega arith) in
      let pos : 0 < b = ground arith in
      let big : 2 ^ (8 * length bs) ≤ b * 2 ^ (8 * length bs) = grind arith in
      rw (zeros_nonzero z, value) (λ p. absurd (omega arith), λ p. absurd (omega (arith, m, big)))

-- A digest has at least d leading zero bits exactly when the number that it spells is below
-- 2^(bits - d), where bits is its length in bits and d is at most that.
pub leading_zeros_iff :
    (bs : Text) (d : ℕ)
    → All (λ b. b < 256) bs
    → d ≤ 8 * length bs
    → (d ≤ count_leading_zero_bits_fast bs) ↔ (big_endian bs < 2 ^ (8 * length bs - d))
unfolding Claim
leading_zeros_iff [] d h l =
    let e : d ≡ 0 = omega arith in rw e (unfold big_endian in (λ _. omega arith, λ _. omega arith))
leading_zeros_iff (b ∷ bs) d h l = elim (Bool-cases (b == 0)) [
  | inl z ↦ elim (Bool-cases (ltb 8 d)) [
    | inl high ↦
        zero_high b bs h d l z (ground arith) (leading_zeros_iff bs (d - 8) h.1 (ground arith))
    | inr low ↦ zero_low b bs h d l z (ground arith)
  ]
  | inr n ↦ elim (Bool-cases (ltb 8 d)) [
    | inl high ↦ nonzero_high b bs h d l n (ground arith)
    | inr low ↦ nonzero_low b bs h d l n (ground arith)
  ]
]
