-- ===== src/P2p/Throttle/Supply.antt =====
-- infomesh/p2p/throttle.py: every call of `acquire` comes to an end.
use infomesh.Prelude.{
  ℕ, zero, suc, ◌+◌, ◌-◌, ◌*◌, ◌/◌, ◌%◌, ◌≤◌, ◌<◌, min, ◌≡◌, refl, ◌∙◌, ◌⊎◌, inl, inr, Option, some,
  List, [], ◌∷◌, arith, ltb, length, nat_eq, ◌==◌, Bool-cases,
}
use infomesh.P2p.Throttle.{
  BandwidthBucket, second, refill, sleep_time, take_tokens, take_chunk, take_chunks, acquire,
  Waited,
}
use native.Mathlib.Nat.{div-add-mod', mod-lt, add-mul, mul-le-mul_right}

-- A sleep is long enough.
pub sleep_time_enough : (d r : ℕ) → 0 < r → d ≤ sleep_time d r * r
unfolding sleep_time
sleep_time_enough d r pos = elim (Bool-cases (d % r == 0)) [
  | inl whole ↦ rw whole (ground (arith, div-add-mod' d r))
  | inr part ↦ rw (part, add-mul (d / r) 1 r) (omega (arith, div-add-mod' d r, mod-lt d pos))
]

pub refill_served :
    (b : BandwidthBucket) (c delay : ℕ)
    → 0 < b.rate_bps
    → c ≤ b.rate_bps * second
    → c ≤ (refill b (b.last_refill + sleep_time (c - b.tokens) b.rate_bps + delay)).tokens
unfolding refill
refill_served b c delay pos fits =
    let st = sleep_time (c - b.tokens) b.rate_bps in
    let e : b.last_refill + st + delay - b.last_refill ≡ st + delay = omega arith in
    rw (e, add-mul st delay b.rate_bps)
      (omega (arith, sleep_time_enough (c - b.tokens) b.rate_bps pos))

-- A call returns, with the rate as it was and at most so many readings used.
Returns : ℕ → List ℕ → BandwidthBucket → Option Waited → Type 0
Returns used delays b result =
    (w : ℕ) × (b' : BandwidthBucket) × (ds : List ℕ) × (result ≡ some (w, b', ds))
    × (length delays ≤ length ds + used)
    × (b'.rate_bps ≡ b.rate_bps)

pub take_tokens-at_once :
    (c w : ℕ) (b : BandwidthBucket) (ds : List ℕ)
    → c ≤ b.tokens
    → take_tokens c w b ds ≡ some (w, record b { tokens = b.tokens - c }, ds)
unfolding take_tokens
take_tokens-at_once c w b [] h = ground arith
take_tokens-at_once c w b (d ∷ ds) h = ground arith

take_tokens-Returns :
    (c w : ℕ) (b : BandwidthBucket) (d : ℕ) (ds : List ℕ)
    → 0 < b.rate_bps
    → c ≤ b.rate_bps * second
    → Returns 1 (d ∷ ds) b (take_tokens c w b (d ∷ ds))
unfolding Returns take_tokens refill
take_tokens-Returns c w b d ds pos fits = elim (Bool-cases (ltb b.tokens c)) [
  | inl short ↦
      let b₁ = refill b (b.last_refill + sleep_time (c - b.tokens) b.rate_bps + d) in
      (
        w + (c - b.tokens),
        record b₁ { tokens = b₁.tokens - c },
        ds,
        rw (take_tokens, short)
            (take_tokens-at_once c (w + (c - b.tokens)) b₁ ds (refill_served b c d pos fits)),
        omega arith,
        refl,
      )
  | inr enough ↦ (
    w,
    record b { tokens = b.tokens - c },
    d ∷ ds,
    take_tokens-at_once c w b (d ∷ ds) (ground arith),
    omega arith,
    refl,
  )
]

take_chunk-Returns :
    (bytes w : ℕ) (b : BandwidthBucket) (delays : List ℕ)
    → 0 < b.rate_bps
    → bytes ≤ b.rate_bps
    → 2 ≤ length delays
    → Returns 2 delays b (take_chunk bytes w b delays)
unfolding Returns take_chunk refill
take_chunk-Returns bytes w b [] pos fits long = absurd (omega arith)
take_chunk-Returns bytes w b (d ∷ []) pos fits long = absurd (omega arith)
take_chunk-Returns bytes w b (d ∷ e ∷ ds) pos fits long =
    let (w', b', ds', done, used, same) =
      take_tokens-Returns (bytes * second) w (refill b (b.last_refill + d)) e ds pos
        (mul-le-mul_right second fits) in
    (w', b', ds', done, omega arith, same)

take_chunks-Returns :
    (fuel k n w : ℕ) (b : BandwidthBucket) (delays : List ℕ)
    → 0 < b.rate_bps
    → n ≤ k * b.rate_bps
    → 2 * k ≤ length delays
    → Returns (2 * k) delays b (take_chunks fuel n w b delays)
unfolding Returns take_chunks
take_chunks-Returns zero k n w b delays pos few long = (w, b, delays, refl, omega arith, refl)
take_chunks-Returns (suc fuel) k zero w b delays pos few long =
    (w, b, delays, refl, omega arith, refl)
take_chunks-Returns (suc fuel) zero (suc n) w b delays pos few long = absurd (omega arith)
take_chunks-Returns (suc fuel) (suc k) (suc n) w b delays pos few long =
    let chunk = min (suc n) b.rate_bps in
    let (w₁, b₁, ds₁, done₁, used₁, same₁) =
      take_chunk-Returns chunk w b delays pos (omega arith) (omega arith) in
    let (w₂, b₂, ds₂, done₂, used₂, same₂) =
      take_chunks-Returns fuel k (suc n - chunk) w₁ b₁ ds₁ (rw same₁ pos)
        (rw same₁ (omega (arith, add-mul 1 k b.rate_bps))) (omega arith) in
    (w₂, b₂, ds₂, rw done₁ done₂, omega arith, same₂ ∙ same₁)

-- A call of `acquire` for at most k seconds' worth of bytes returns once the clock has been read
-- 2 k times, however late each reading comes; a rate of 0 does not limit at all.
pub acquire_returns :
    (nbytes k : ℕ) (b : BandwidthBucket) (delays : List ℕ)
    → (b.rate_bps ≡ 0) ⊎ (nbytes ≤ k * b.rate_bps)
    → 2 * k ≤ length delays
    → (w : ℕ) × (b' : BandwidthBucket) × (ds : List ℕ) × (acquire nbytes b delays
        ≡ some (w, b', ds))
      × (length delays ≤ length ds + 2 * k)
unfolding acquire Returns
acquire_returns nbytes k b delays few long = elim (Bool-cases (b.rate_bps == 0)) [
  | inl free ↦ (0, b, delays, rw free refl, omega arith)
  | inr limited ↦
      let (w, b', ds, done, used, same) =
        take_chunks-Returns nbytes k nbytes 0 b delays (ground arith) (ground arith) long in
      (w, b', ds, rw limited done, used)
]
