-- ===== src/Crawler/SimHash/Distance.antt =====
-- infomesh/crawler/simhash.py, `hamming_distance`: it is a metric on fingerprints, bounded by the
-- number of bits.
use infomesh.Prelude.{
  ℕ, zero, suc, ◌+◌, ◌*◌, ◌/◌, ◌^◌, ◌≤◌, ◌<◌, ◌≡◌, ◌↔◌, refl, true, arith, bit_xor, nat_eq, ap, sym,
  ◌∙◌, subst,
}
use infomesh.Prelude.Xor.{
  bit_xor_self, bit_xor_cancel, bit_xor_lt, digit_sum, digit_sum-zero, digit_sum-fuel, digit_sum-le,
  digit_sum_pos, digit_sum-bit_xor_comm, digit_sum_triangle,
}
use infomesh.Crawler.SimHash.{ones, hamming_distance, is_near_duplicate}

-- The loop that stops at 0 counts what a count of all digits counts.
ones-eq : (fuel x : ℕ) → ones fuel x ≡ digit_sum fuel x
unfolding ones digit_sum
ones-eq zero x = refl
ones-eq (suc fuel) x = ground (arith, ones-eq fuel (x / 2), digit_sum-zero fuel)

hamming_distance-eq :
    (n a b : ℕ) → bit_xor a b ≤ n → hamming_distance a b ≡ digit_sum n (bit_xor a b)
unfolding hamming_distance
hamming_distance-eq n a b h =
    ones-eq (bit_xor a b) (bit_xor a b)
    ∙ digit_sum-fuel (bit_xor a b) n (bit_xor a b) (omega arith) h

hamming_distance_comm : (a b : ℕ) → hamming_distance a b ≡ hamming_distance b a
hamming_distance_comm a b =
    let n = bit_xor a b + bit_xor b a in
    hamming_distance-eq n a b (omega arith)
    ∙ (digit_sum-bit_xor_comm n a b ∙ sym (hamming_distance-eq n b a (omega arith)))

pub hamming_distance_self : (a : ℕ) → hamming_distance a a ≡ 0
hamming_distance_self a =
    hamming_distance-eq (bit_xor a a) a a (omega arith)
    ∙ (ap (digit_sum (bit_xor a a)) (bit_xor_self a) ∙ digit_sum-zero (bit_xor a a))

eq_of_distance : (a b : ℕ) → hamming_distance a b ≡ 0 → a ≡ b
eq_of_distance a b h =
    let n = bit_xor a b in
    let e = digit_sum_pos n n (omega arith) (sym (hamming_distance-eq n a b (omega arith)) ∙ h) in
    bit_xor_cancel a a b (bit_xor_self a ∙ sym e)

hamming_distance_triangle :
    (a b c : ℕ) → hamming_distance a c ≤ hamming_distance a b + hamming_distance b c
hamming_distance_triangle a b c =
    let n = bit_xor a b + bit_xor b c + bit_xor a c in
    omega (
      arith,
      hamming_distance-eq n a b (omega arith),
      hamming_distance-eq n b c (omega arith),
      hamming_distance-eq n a c (omega arith),
      digit_sum_triangle n a b c,
    )

hamming_distance-le : (k a b : ℕ) → a < 2 ^ k → b < 2 ^ k → hamming_distance a b ≤ k
hamming_distance-le k a b h l =
    let n = bit_xor a b in
    omega
      (arith, hamming_distance-eq n a b (omega arith), digit_sum-le n k n (bit_xor_lt k a b h l))

-- `hamming_distance` is symmetric, is 0 exactly between equal fingerprints, satisfies the triangle
-- inequality, and is at most k between fingerprints of k bits.
pub hamming_distance_metric :
    (a b c k : ℕ)
    → a < 2 ^ k
    → b < 2 ^ k
    → (hamming_distance a b ≡ hamming_distance b a)
      × ((hamming_distance a b ≡ 0) ↔ (a ≡ b))
      × (hamming_distance a c ≤ hamming_distance a b + hamming_distance b c)
      × (hamming_distance a b ≤ k)
hamming_distance_metric a b c k h l = (
  hamming_distance_comm a b,
  (eq_of_distance a b, λ e. subst (λ x. hamming_distance a x ≡ 0) e (hamming_distance_self a)),
  hamming_distance_triangle a b c,
  hamming_distance-le k a b h l,
)

-- If b is a near duplicate of both a and c under a threshold, then a and c are near duplicates under
-- twice the threshold.
is_near_duplicate_twice :
    (a b c threshold : ℕ)
    → is_near_duplicate a b threshold ≡ true
    → is_near_duplicate b c threshold ≡ true
    → is_near_duplicate a c (2 * threshold) ≡ true
unfolding is_near_duplicate
is_near_duplicate_twice a b c threshold h l = ground (arith, hamming_distance_triangle a b c)
