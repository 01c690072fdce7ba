-- ===== src/Crawler/SimHash/Fingerprint.antt =====
-- infomesh/crawler/simhash.py, `simhash`: each bit of a fingerprint is the vote of the shingles.
use infomesh.Prelude.{
  ℕ, zero, suc, ◌+◌, ◌*◌, ◌/◌, ◌^◌, ◌<◌, ◌≡◌, refl, ap, ◌∙◌, Bool, true, false, List, [], ◌∷◌,
  arith, leb, if◌then◌else◌, length, null, map, replicate, Text, nat_eq, length-replicate,
  Bool-cases, inl, inr, subst,
}
use infomesh.Prelude.Int.{
  ℤ, pos, increment, decrement, nonnegative, Balance, increment-Balance, decrement-Balance,
  nonnegative-eq,
}
use infomesh.Crawler.SimHash.{
  TextTools, tokenize, hash64, test_bit, vote, vote_all, collapse, simhash,
}
use native.Mathlib.Nat.{pow-suc}

-- How many of the hashes have the bit `i`, and how many do not.
pub with_bit : ℕ → List ℕ → ℕ
with_bit i [] = 0
with_bit i (h ∷ hs) = (if test_bit h i then 1 else 0) + with_bit i hs

pub without_bit : ℕ → List ℕ → ℕ
without_bit i [] = 0
without_bit i (h ∷ hs) = (if test_bit h i then 0 else 1) + without_bit i hs

-- Weights from the bit `i` on that stand at given numbers of votes.
abbrev Balanced : ℕ → (ℕ → ℕ) → (ℕ → ℕ) → List ℤ → Type 0
Balanced i ups downs [] = Unit
Balanced i ups downs (w ∷ ws) = Balance w (ups i) (downs i) × Balanced (suc i) ups downs ws

one_vote :
    (b : Bool) (w : ℤ) (u d : ℕ)
    → Balance w u d
    → Balance
        (if b then increment w else decrement w)
        ((if b then 1 else 0) + u)
        ((if b then 0 else 1) + d)
one_vote true w u d h =
    let e : 1 + u ≡ suc u = omega arith in
    let f : 0 + d ≡ d = omega arith in rw (e, f) (increment-Balance w u d h)
one_vote false w u d h =
    let e : 0 + u ≡ u = omega arith in
    let f : 1 + d ≡ suc d = omega arith in rw (e, f) (decrement-Balance w u d h)

Balanced-vote :
    (h i : ℕ) (ups downs : ℕ → ℕ) (ws : List ℤ)
    → Balanced i ups downs ws
    → Balanced i
        (λ j. (if test_bit h j then 1 else 0) + ups j)
        (λ j. (if test_bit h j then 0 else 1) + downs j)
        (vote h i ws)
unfolding vote
Balanced-vote h i ups downs [] b = tt
Balanced-vote h i ups downs (w ∷ ws) b =
    (one_vote (test_bit h i) w (ups i) (downs i) b.0, Balanced-vote h (suc i) ups downs ws b.1)

Balanced-resp :
    (i : ℕ) (u u' d d' : ℕ → ℕ) (ws : List ℤ)
    → ((j : ℕ) → u j ≡ u' j)
    → ((j : ℕ) → d j ≡ d' j)
    → Balanced i u d ws
    → Balanced i u' d' ws
Balanced-resp i u u' d d' [] p q b = tt
Balanced-resp i u u' d d' (w ∷ ws) p q b = (
  subst (λ n. Balance w (u' i) n) (q i) (subst (λ n. Balance w n (d i)) (p i) b.0),
  Balanced-resp (suc i) u u' d d' ws p q b.1,
)

Balanced-vote_all :
    (hs : List ℕ) (ups downs : ℕ → ℕ) (ws : List ℤ)
    → Balanced 0 ups downs ws
    → Balanced 0 (λ j. with_bit j hs + ups j) (λ j. without_bit j hs + downs j) (vote_all hs ws)
unfolding vote_all with_bit without_bit
Balanced-vote_all [] ups downs ws b =
    Balanced-resp 0 ups (λ j. 0 + ups j) downs (λ j. 0 + downs j) ws (λ j. omega arith)
      (λ j. omega arith) b
Balanced-vote_all (h ∷ hs) ups downs ws b =
    Balanced-resp 0 _ _ _ _ (vote_all hs (vote h 0 ws)) (λ j. omega arith) (λ j. omega arith)
      (Balanced-vote_all hs _ _ (vote h 0 ws) (Balanced-vote h 0 ups downs ws b))

Balanced-zeros : (n i : ℕ) → Balanced i (λ j. 0) (λ j. 0) (replicate n (pos 0))
Balanced-zeros zero i = tt
Balanced-zeros (suc n) i = (omega arith, Balanced-zeros n (suc i))

length-vote : (h i : ℕ) (ws : List ℤ) → length (vote h i ws) ≡ length ws
unfolding vote
length-vote h i [] = refl
length-vote h i (w ∷ ws) = ap suc (length-vote h (suc i) ws)

length-vote_all : (hs : List ℕ) (ws : List ℤ) → length (vote_all hs ws) ≡ length ws
unfolding vote_all
length-vote_all [] ws = refl
length-vote_all (h ∷ hs) ws = length-vote_all hs (vote h 0 ws) ∙ length-vote h 0 ws

-- The number whose binary digits are the signs, the lowest first.
horner : List ℤ → ℕ
horner [] = 0
horner (w ∷ ws) = (if nonnegative w then 1 else 0) + 2 * horner ws

collapse-eq : (i : ℕ) (ws : List ℤ) → collapse i ws ≡ 2 ^ i * horner ws
unfolding collapse horner
collapse-eq i [] = omega arith
collapse-eq i (w ∷ ws) =
    rw (collapse-eq (suc i) ws, pow-suc 2 i)
      (elim (Bool-cases (nonnegative w)) [
        | inl p ↦ rw p (omega arith)
        | inr n ↦ rw n (omega arith)
      ])

horner_lt : (ws : List ℤ) → horner ws < 2 ^ length ws
unfolding horner
horner_lt [] = omega arith
horner_lt (w ∷ ws) = ground (arith, horner_lt ws, pow-suc 2 (length ws))

horner_half : (w : ℤ) (ws : List ℤ) → horner (w ∷ ws) / 2 ≡ horner ws
unfolding horner
horner_half w ws = ground arith

test_bit-horner :
    (i j : ℕ) (ups downs : ℕ → ℕ) (ws : List ℤ)
    → Balanced i ups downs ws
    → j < length ws
    → test_bit (horner ws) j ≡ leb (downs (i + j)) (ups (i + j))
unfolding horner test_bit
test_bit-horner i j ups downs [] b l = absurd (omega arith)
test_bit-horner i zero ups downs (w ∷ ws) b l =
    let e : i + 0 ≡ i = omega arith in rw e (ground (arith, nonnegative-eq w (ups i) (downs i) b.0))
test_bit-horner i (suc j) ups downs (w ∷ ws) b l =
    let e : i + suc j ≡ suc i + j = omega arith in
    rw (e, horner_half w ws) (test_bit-horner (suc i) j ups downs ws b.1 (omega arith))

test_bit-zero : (i : ℕ) → test_bit 0 i ≡ false
unfolding test_bit
test_bit-zero zero = refl
test_bit-zero (suc i) = test_bit-zero i

module _ (hs : List ℕ) where
  votes : List ℤ
  votes = vote_all hs (replicate 64 (pos 0))

  length-votes : length votes ≡ 64
  unfolding votes
  length-votes = length-vote_all hs (replicate 64 (pos 0)) ∙ length-replicate 64 (pos 0)

  collapse-votes : collapse 0 votes ≡ horner votes
  collapse-votes = omega (arith, collapse-eq 0 votes)

  votes_lt : collapse 0 votes < 2 ^ 64
  votes_lt = rw collapse-votes (subst (λ n. horner votes < 2 ^ n) length-votes (horner_lt votes))

  votes-Balanced : Balanced 0 (λ j. with_bit j hs + 0) (λ j. without_bit j hs + 0) votes
  unfolding votes
  votes-Balanced =
      Balanced-vote_all hs (λ j. 0) (λ j. 0) (replicate 64 (pos 0)) (Balanced-zeros 64 0)

  test_bit-votes :
      (i : ℕ) → i < 64 → test_bit (collapse 0 votes) i ≡ leb (without_bit i hs) (with_bit i hs)
  test_bit-votes i l =
      let long : i < length votes = omega (arith, length-votes) in
      rw collapse-votes (
        ground (
          arith,
          test_bit-horner 0 i (λ j. with_bit j hs + 0) (λ j. without_bit j hs + 0) votes
              votes-Balanced long,
        ))

-- The bit i of the fingerprint of a text with at least one shingle is set exactly when no more
-- shingles have a hash with that bit clear than with that bit set; the fingerprint has at most 64
-- bits, and is 0 for a text with no shingle.
pub simhash_majority :
    ⦃t : TextTools⦄
    → (text : Text) (width i : ℕ) → i < 64
    → let hashes = map hash64 (tokenize text width) in
      (simhash text width < 2 ^ 64)
      × (test_bit (simhash text width) i ≡ (
          if null (tokenize text width)
          then false
          else leb (without_bit i hashes) (with_bit i hashes)))
unfolding simhash
simhash_majority text width i l = elim (Bool-cases (null (tokenize text width))) [
  | inl empty ↦ rw empty (omega arith, test_bit-zero i)
  | inr full ↦ rw full (
      unfold votes in
      (
        votes_lt (map hash64 (tokenize text width)),
        test_bit-votes (map hash64 (tokenize text width)) i l,
      ))
]

-- Texts with the same words have the same fingerprint.
pub simhash-words :
    ⦃t : TextTools⦄
    → (a b : Text) (width : ℕ) → t.words a ≡ t.words b
    → simhash a width ≡ simhash b width
unfolding simhash tokenize
simhash-words a b width e = rw e refl
