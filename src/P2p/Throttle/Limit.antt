-- ===== src/P2p/Throttle/Limit.antt =====
-- infomesh/p2p/throttle.py: how many bytes a bucket lets through. The tasks that share a bucket take
-- turns at its lock, chunk by chunk, so that a history of the bucket is a sequence of chunks.
use infomesh.Prelude.{
  ℕ, zero, suc, ◌+◌, ◌-◌, ◌*◌, ◌≤◌, ◌<◌, min, ◌≡◌, refl, sym, subst, ◌∙◌, inl, inr, Option, some,
  List, [], ◌∷◌, arith, ltb, nat_eq, Bool-cases, Option-cases,
}
use infomesh.P2p.Throttle.{
  BandwidthBucket, second, refill, sleep_time, take_tokens, take_chunk, take_chunks, acquire,
  Waited,
}
use infomesh.P2p.Throttle.Supply.{take_tokens-at_once}
use native.Mathlib.Nat.{add-mul}

-- The bucket `b` after so many bytes that were let through since it was `b₀`.
pub data Served (b₀ : BandwidthBucket) : BandwidthBucket → ℕ → Type 0 where
  idle : Served b₀ b₀ 0
  chunk_taken :
      {b : BandwidthBucket} {served : ℕ} (bytes w : ℕ) (delays : List ℕ) (w' : ℕ) (ds : List ℕ)
      (b' : BandwidthBucket)
      → Served b₀ b served
      → take_chunk bytes w b delays ≡ some (w', b', ds)
      → Served b₀ b' (served + bytes)

-- So many tokens are gone since `b₀`, while the clock moved on by `elapsed`.
record Budget (b₀ b : BandwidthBucket) (gone : ℕ) : Type 0 where
  elapsed : ℕ
  moved : b.last_refill ≡ b₀.last_refill + elapsed
  same_rate : b.rate_bps ≡ b₀.rate_bps
  within : gone + b.tokens ≤ b₀.rate_bps * second + elapsed * b₀.rate_bps

refill-Budget :
    (b₀ b : BandwidthBucket) (gone d : ℕ)
    → Budget b₀ b gone
    → Budget b₀ (refill b (b.last_refill + d)) gone
unfolding refill
refill-Budget b₀ b gone d i =
    let e : b.last_refill + d - b.last_refill ≡ d = omega arith in
    record {
      elapsed = i.elapsed + d;
      moved = omega (arith, i.moved);
      same_rate = i.same_rate;
      within = rw (e, i.same_rate, add-mul i.elapsed d b₀.rate_bps) (omega (arith, i.within));
    }

consume-Budget :
    (b₀ b : BandwidthBucket) (gone c : ℕ)
    → c ≤ b.tokens
    → Budget b₀ b gone
    → Budget b₀ (record b { tokens = b.tokens - c }) (gone + c)
consume-Budget b₀ b gone c h i = record {
  elapsed = i.elapsed;
  moved = i.moved;
  same_rate = i.same_rate;
  within = omega (arith, i.within);
}

-- the bucket that a successful call leaves
bucket_of :
    {w w' : ℕ} {b b' : BandwidthBucket} {ds ds' : List ℕ}
    → ◌≡◌ {A = Option Waited} (some (w, b, ds)) (some (w', b', ds'))
    → b ≡ b'
bucket_of e = cc

take_tokens-Budget :
    (b₀ b : BandwidthBucket) (gone c w : ℕ) (delays : List ℕ) (w' : ℕ) (b' : BandwidthBucket)
    (ds : List ℕ)
    → Budget b₀ b gone
    → take_tokens c w b delays ≡ some (w', b', ds)
    → Budget b₀ b' (gone + c)
unfolding take_tokens
take_tokens-Budget b₀ b gone c w [] w' b' ds i e = elim (Bool-cases (ltb b.tokens c)) [
  | inl short ↦ absurd (ground arith)
  | inr enough ↦
      subst (λ x. Budget b₀ x (gone + c))
        (bucket_of (sym (take_tokens-at_once c w b [] (ground arith)) ∙ e))
        (consume-Budget b₀ b gone c (ground arith) i)
]
take_tokens-Budget b₀ b gone c w (d ∷ delays) w' b' ds i e = elim (Bool-cases (ltb b.tokens c)) [
  | inl short ↦
      let st = sleep_time (c - b.tokens) b.rate_bps in
      let again : b.last_refill + st + d ≡ b.last_refill + (st + d) = omega arith in
      take_tokens-Budget b₀ (refill b (b.last_refill + st + d)) gone c (w + (c - b.tokens)) delays
        w' b' ds (rw again (refill-Budget b₀ b gone (st + d) i))
        (sym (rw (take_tokens, short) refl) ∙ e)
  | inr enough ↦
      subst (λ x. Budget b₀ x (gone + c))
        (bucket_of (sym (take_tokens-at_once c w b (d ∷ delays) (ground arith)) ∙ e))
        (consume-Budget b₀ b gone c (ground arith) i)
]

take_chunk-Budget :
    (b₀ b : BandwidthBucket) (served bytes w : ℕ) (delays : List ℕ) (w' : ℕ) (b' : BandwidthBucket)
    (ds : List ℕ)
    → Budget b₀ b (served * second)
    → take_chunk bytes w b delays ≡ some (w', b', ds)
    → Budget b₀ b' ((served + bytes) * second)
unfolding take_chunk
take_chunk-Budget b₀ b served bytes w [] w' b' ds i e = cc
take_chunk-Budget b₀ b served bytes w (d ∷ delays) w' b' ds i e = rw (add-mul served bytes second) (
    take_tokens-Budget b₀ (refill b (b.last_refill + d)) (served * second) (bytes * second) w delays
      w' b' ds (refill-Budget b₀ b (served * second) d i) e)

Served-Budget :
    (b₀ b : BandwidthBucket) (served : ℕ)
    → b₀.tokens ≤ b₀.rate_bps * second
    → Served b₀ b served
    → Budget b₀ b (served * second)
Served-Budget b₀ b served full idle = record {
  elapsed = 0;
  moved = omega arith;
  same_rate = refl;
  within = omega arith;
}
Served-Budget b₀ b served full (chunk_taken {b = c} {served = n} bytes w delays w' ds b' s e) =
    take_chunk-Budget b₀ c n bytes w delays w' b ds (Served-Budget b₀ c n full s) e

-- Between any two moments of a bucket that was not overfull at the first, with the tasks taking their
-- chunks in any order, at most as many bytes are let through as the rate allows in the time between,
-- and one second's worth more.
pub throughput_bounded :
    (b₀ b : BandwidthBucket) (served : ℕ)
    → b₀.tokens ≤ b₀.rate_bps * second
    → Served b₀ b served
    → served * second ≤ (b.last_refill - b₀.last_refill) * b₀.rate_bps + b₀.rate_bps * second
throughput_bounded b₀ b served full s =
    let i = Served-Budget b₀ b served full s in
    let e : b.last_refill - b₀.last_refill ≡ i.elapsed = omega (arith, i.moved) in
    rw e (omega (arith, i.within))

take_chunks-Served :
    (b₀ b : BandwidthBucket) (served fuel n w : ℕ) (delays : List ℕ) (w' : ℕ) (b' : BandwidthBucket)
    (ds : List ℕ)
    → 0 < b₀.rate_bps
    → b₀.tokens ≤ b₀.rate_bps * second
    → n ≤ fuel
    → Served b₀ b served
    → take_chunks fuel n w b delays ≡ some (w', b', ds)
    → Served b₀ b' (served + n)
unfolding take_chunks
take_chunks-Served b₀ b served zero n w delays w' b' ds pos full l s e =
    subst (λ x. Served b₀ x (served + n)) (bucket_of e) (subst (Served b₀ b) (omega (arith, l)) s)
take_chunks-Served b₀ b served (suc fuel) zero w delays w' b' ds pos full l s e =
    subst (λ x. Served b₀ x (served + 0)) (bucket_of e) (subst (Served b₀ b) (omega arith) s)
take_chunks-Served b₀ b served (suc fuel) (suc n) w delays w' b' ds pos full l s e =
    let chunk = min (suc n) b.rate_bps in
    let i = Served-Budget b₀ b served full s in
    elim (Option-cases (take_chunk chunk w b delays)) [
      | inl blocked ↦ cc
      | inr ((w₁, b₁, ds₁), done) ↦ subst (Served b₀ b') (omega arith) (
          take_chunks-Served b₀ b₁ (served + chunk) fuel (suc n - chunk) w₁ ds₁ w' b' ds pos full
            (omega (arith, i.same_rate)) (chunk_taken chunk w delays w₁ ds₁ b₁ s done)
            (sym (rw done refl) ∙ e))
    ]

-- A call of `acquire` that returns has let through all its bytes, chunk by chunk.
pub acquire-Served :
    (b₀ b : BandwidthBucket) (served nbytes : ℕ) (delays : List ℕ) (w' : ℕ) (b' : BandwidthBucket)
    (ds : List ℕ)
    → 0 < b₀.rate_bps
    → b₀.tokens ≤ b₀.rate_bps * second
    → Served b₀ b served
    → acquire nbytes b delays ≡ some (w', b', ds)
    → Served b₀ b' (served + nbytes)
unfolding acquire
acquire-Served b₀ b served nbytes delays w' b' ds pos full s e =
    let i = Served-Budget b₀ b served full s in
    take_chunks-Served b₀ b served nbytes nbytes 0 delays w' b' ds pos full (omega arith) s
      (ground (arith, i.same_rate))
