-- ===== src/P2p/Sybil/Work.antt =====
-- infomesh/p2p/sybil.py, `generate_pow` and `verify_pow`.
use infomesh.Prelude.{
  ℕ, zero, suc, ◌+◌, ◌-◌, ◌*◌, ◌^◌, ◌≤◌, ◌<◌, ◌≡◌, ◌≢◌, ◌↔◌, ◌⊎◌, inl, inr, refl, ap, sym, ◌∙◌,
  true, false, ◌++◌, arith, ltb, leb, Text, Bool-cases, leb→le, le→leb, ltb→lt, subst,
}
use infomesh.Prelude.Hash.{Sha256, hex}
use infomesh.Prelude.Result.{Result, ok, err, ◌>>=◌, ok-injective}
use infomesh.P2p.Sybil.{
  SybilError, struct_error, ProofOfWork, count_leading_zero_bits_fast, pack_le, compute_pow_hash,
  generate_from, generate_pow, verify_pow,
}
use infomesh.P2p.Sybil.Zeros.{big_endian, leading_zeros_iff}

module _ ⦃h : Sha256⦄ (public_key : Text) (difficulty_bits : ℕ) where
  verify_pow_small :
      (nonce : ℕ)
      → nonce < 2 ^ 64
      → verify_pow public_key nonce difficulty_bits
        ≡ ok (
            leb difficulty_bits
              (count_leading_zero_bits_fast (h.digest (public_key ++ pack_le 8 nonce))))
  unfolding verify_pow compute_pow_hash
  verify_pow_small nonce p = ground arith

  verify_pow_large :
      (nonce : ℕ) → 2 ^ 64 ≤ nonce → verify_pow public_key nonce difficulty_bits ≡ err struct_error
  unfolding verify_pow compute_pow_hash
  verify_pow_large nonce p = ground arith

  -- A nonce is accepted exactly when it fits 8 bytes and the hash of the key with the nonce, as a
  -- number of 256 bits, is below 2^(256 - difficulty), for a difficulty of at most 256 bits.
  verify_pow_iff :
      (nonce : ℕ)
      → difficulty_bits ≤ 256
      → (verify_pow public_key nonce difficulty_bits ≡ ok true) ↔ (
          (nonce < 2 ^ 64)
          × (big_endian (h.digest (public_key ++ pack_le 8 nonce)) < 2 ^ (256 - difficulty_bits)))
  verify_pow_iff nonce d = (forward, backward)
    where
      hash : Text
      hash = h.digest (public_key ++ pack_le 8 nonce)

      target :
          (difficulty_bits ≤ count_leading_zero_bits_fast hash)
          ↔ (big_endian hash < 2 ^ (256 - difficulty_bits))
      target =
          subst
            (λ n.
              (difficulty_bits ≤ count_leading_zero_bits_fast hash)
              ↔ (big_endian hash < 2 ^ (8 * n - difficulty_bits)))
            (h.length-digest (public_key ++ pack_le 8 nonce))
            (leading_zeros_iff hash difficulty_bits
              (h.digest-IsBytes (public_key ++ pack_le 8 nonce))
              (omega (arith, h.length-digest (public_key ++ pack_le 8 nonce))))

      forward :
          verify_pow public_key nonce difficulty_bits ≡ ok true
          → (nonce < 2 ^ 64) × (big_endian hash < 2 ^ (256 - difficulty_bits))
      forward p = elim (Bool-cases (ltb nonce (2 ^ 64))) [
        | inl small ↦ (
          ground arith,
          target.0 (leb→le _ _ (ok-injective (sym (verify_pow_small nonce (ground arith)) ∙ p))),
        )
        | inr large ↦ cc (verify_pow_large nonce (ground arith))
      ]

      backward :
          (nonce < 2 ^ 64) × (big_endian hash < 2 ^ (256 - difficulty_bits))
          → verify_pow public_key nonce difficulty_bits ≡ ok true
      backward q = verify_pow_small nonce q.0 ∙ ap ok (le→leb _ _ (target.1 q.1))

  -- One round of the loop.
  generate_from-hit :
      (rounds nonce : ℕ)
      → verify_pow public_key nonce difficulty_bits ≡ ok true
      → (hash : Text) × (generate_from public_key difficulty_bits (suc rounds) nonce
          ≡ ok (nonce, hash))
  unfolding generate_from verify_pow compute_pow_hash
  generate_from-hit rounds nonce p = (h.digest (public_key ++ pack_le 8 nonce), ground arith)

  generate_from-miss :
      (rounds nonce : ℕ)
      → verify_pow public_key nonce difficulty_bits ≡ ok false
      → generate_from public_key difficulty_bits (suc rounds) nonce
        ≡ generate_from public_key difficulty_bits rounds (nonce + 1)
  unfolding generate_from verify_pow compute_pow_hash
  generate_from-miss rounds nonce p = ground arith

  generate_from-fail :
      (rounds nonce : ℕ)
      → 2 ^ 64 ≤ nonce
      → generate_from public_key difficulty_bits (suc rounds) nonce ≡ err struct_error
  unfolding generate_from compute_pow_hash
  generate_from-fail rounds nonce p = ground arith

  -- The first accepted nonce from `start` on.
  record IsFirst (start : ℕ) (nonce : ℕ) : Type 0 where
    valid : verify_pow public_key nonce difficulty_bits ≡ ok true
    least : (m : ℕ) → start ≤ m → m < nonce → verify_pow public_key m difficulty_bits ≡ ok false

  verify_cases :
      (nonce : ℕ)
      → (verify_pow public_key nonce difficulty_bits ≡ ok true)
        ⊎ (verify_pow public_key nonce difficulty_bits ≡ ok false)
        ⊎ (2 ^ 64 ≤ nonce)
  verify_cases nonce = elim (Bool-cases (ltb nonce (2 ^ 64))) [
    | inr large ↦ inr (inr (ground arith))
    | inl small ↦
        elim (Bool-cases (
          leb difficulty_bits
            (count_leading_zero_bits_fast (h.digest (public_key ++ pack_le 8 nonce))))) [
              | inl hit ↦ inl (verify_pow_small nonce (ground arith) ∙ ap ok hit)
              | inr miss ↦ inr (inl (verify_pow_small nonce (ground arith) ∙ ap ok miss))
            ]
  ]

  generate_zero :
      (start : ℕ) {found : ℕ × Text}
      → generate_from public_key difficulty_bits zero start ≢ ok found
  unfolding generate_from
  generate_zero start p = cc

  generate_large :
      (rounds start : ℕ) {found : ℕ × Text}
      → 2 ^ 64 ≤ start
      → generate_from public_key difficulty_bits (suc rounds) start ≢ ok found
  generate_large rounds start large p = cc (generate_from-fail rounds start large)

  ne_of_valid :
      (a b : ℕ)
      → verify_pow public_key a difficulty_bits ≡ ok false
      → verify_pow public_key b difficulty_bits ≡ ok true
      → a ≢ b
  ne_of_valid a b p q e = cc (ap (λ n. verify_pow public_key n difficulty_bits) e)

  not_below :
      (n first : ℕ)
      → verify_pow public_key n difficulty_bits ≡ ok true
      → ((m : ℕ) → m < first → verify_pow public_key m difficulty_bits ≡ ok false)
      → first ≤ n
  not_below n first p least = elim (Bool-cases (ltb n first)) [
    | inl below ↦ absurd (ne_of_valid n n (least n (ltb→lt n first below)) p refl)
    | inr above ↦ ground arith
  ]

  least_from :
      (start nonce : ℕ)
      → verify_pow public_key start difficulty_bits ≡ ok false
      → IsFirst (start + 1) nonce
      → (m : ℕ) → start ≤ m
      → m < nonce
      → verify_pow public_key m difficulty_bits ≡ ok false
  least_from start nonce miss first m a b = elim (Bool-cases (ltb start m)) [
    | inl above ↦ first.least m (ground arith) b
    | inr same ↦ let e : m ≡ start = ground arith in rw e miss
  ]

  generate_pow_of :
      (max_nonce started finished : ℕ) {found : ℕ × Text}
      → generate_from public_key difficulty_bits max_nonce 0 ≡ ok found
      → (pow : ProofOfWork) × (generate_pow public_key difficulty_bits max_nonce started finished
          ≡ ok pow)
  unfolding generate_pow
  generate_pow_of max_nonce started finished {found} q = (
    record {
      nonce = found.0;
      difficulty_bits = difficulty_bits;
      hash_hex = hex found.1;
      elapsed_seconds = finished - started;
    },
    rw q refl,
  )

  generate_from-IsFirst :
      (rounds start : ℕ) {nonce : ℕ} {hash : Text}
      → generate_from public_key difficulty_bits rounds start ≡ ok (nonce, hash)
      → (nonce < start + rounds) × IsFirst start nonce
  generate_from-IsFirst zero start p = absurd (generate_zero start p)
  generate_from-IsFirst (suc rounds) start {nonce} {hash} p = elim (verify_cases start) [
    | inl hit ↦
        let (other, q) = generate_from-hit rounds start hit in
        let e : nonce ≡ start = ap (λ (r : ℕ × Text). r.0) (ok-injective (sym p ∙ q)) in
        rw e (omega arith, record { valid = hit; least = λ m a b. absurd (omega arith) })
    | inr (inl miss) ↦
        let (bound, first) =
          generate_from-IsFirst rounds (start + 1)
            (sym (generate_from-miss rounds start miss) ∙ p) in
        (omega arith, record { valid = first.valid; least = least_from start nonce miss first })
    | inr (inr large) ↦ absurd (generate_large rounds start large p)
  ]

  generate_from_total :
      (rounds start nonce : ℕ)
      → start ≤ nonce
      → nonce < start + rounds
      → verify_pow public_key nonce difficulty_bits ≡ ok true
      → (found : ℕ × Text) × (generate_from public_key difficulty_bits rounds start ≡ ok found)
  generate_from_total zero start nonce a b p = absurd (omega arith)
  generate_from_total (suc rounds) start nonce a b p = elim (verify_cases start) [
    | inl hit ↦ let (hash, q) = generate_from-hit rounds start hit in ((start, hash), q)
    | inr (inl miss) ↦
        let (found, q) =
          generate_from_total rounds (start + 1) nonce
            (omega (arith, ne_of_valid start nonce miss p)) (omega arith) p in
        (found, generate_from-miss rounds start miss ∙ q)
    | inr (inr large) ↦ cc (verify_pow_large nonce (omega arith))
  ]

  generate_pow-parts :
      (max_nonce started finished : ℕ) {pow : ProofOfWork}
      → generate_pow public_key difficulty_bits max_nonce started finished ≡ ok pow
      → (hash : Text) × (generate_from public_key difficulty_bits max_nonce 0
          ≡ ok (pow.nonce, hash))
  unfolding generate_pow
  generate_pow-parts max_nonce started finished p =
      split (generate_from public_key difficulty_bits max_nonce 0) p
    where
      split :
          (r : Result SybilError (ℕ × Text)) {pow : ProofOfWork}
          → (r >>= λ found. ok (record {
            nonce = found.0;
            difficulty_bits = difficulty_bits;
            hash_hex = hex found.1;
            elapsed_seconds = finished - started;
          }))
            ≡ ok pow
          → (hash : Text) × (r ≡ ok (pow.nonce, hash))
      split (ok (n, hash)) p = (hash, ground arith)
      split (err x) p = cc

  -- A proof of work that `generate_pow` returns is accepted by `verify_pow` for the same key and
  -- difficulty, its nonce is below `max_nonce`, and `verify_pow` rejects every smaller nonce.
  pub verify_pow-generate_pow :
      (max_nonce started finished : ℕ) {pow : ProofOfWork}
      → generate_pow public_key difficulty_bits max_nonce started finished ≡ ok pow
      → (verify_pow public_key pow.nonce difficulty_bits ≡ ok true)
        × (pow.nonce < max_nonce)
        × ((m : ℕ) → m < pow.nonce → verify_pow public_key m difficulty_bits ≡ ok false)
  verify_pow-generate_pow max_nonce started finished p =
      let (hash, q) = generate_pow-parts max_nonce started finished p in
      let (bound, first) = generate_from-IsFirst max_nonce 0 q in
      (first.valid, omega arith, λ m l. first.least m (omega arith) l)

  -- `generate_pow` finds a proof of work whenever some nonce below `max_nonce` is accepted.
  pub generate_pow_total :
      (max_nonce started finished nonce : ℕ)
      → nonce < max_nonce
      → verify_pow public_key nonce difficulty_bits ≡ ok true
      → (pow : ProofOfWork) × (generate_pow public_key difficulty_bits max_nonce started finished
          ≡ ok pow)
        × (pow.nonce ≤ nonce)
  generate_pow_total max_nonce started finished nonce l p =
      let (found, q) = generate_from_total max_nonce 0 nonce (omega arith) (omega arith) p in
      let (pow, r) = generate_pow_of max_nonce started finished q in
      let (a, b, least) = verify_pow-generate_pow max_nonce started finished r in
      (pow, r, not_below nonce pow.nonce p least)
