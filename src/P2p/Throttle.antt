-- ===== src/P2p/Throttle.antt =====
-- infomesh/p2p/throttle.py: the token buckets that limit the bandwidth. A rate is a whole number of
-- bytes per second and a time a natural number of microseconds. Tokens are counted in millionths of
-- a byte, so that a microsecond at a rate of r adds r of them and nothing is rounded. A sleep is
-- measured by the tokens that it waits for; the rate turns these into a time.
pub mod Supply
pub mod Limit
mod Tests
use infomesh.Prelude.{
  ℕ, zero, suc, ◌+◌, ◌-◌, ◌*◌, ◌/◌, ◌%◌, min, Bool, true, false, Option, none, some, List, [], ◌∷◌,
  ltb, if◌then◌else◌, nat_eq, ◌==◌,
}
use infomesh.Prelude.Result.Partial.{◌>>=◌}

-- microseconds in a second
abbrev pub second : ℕ
second = 1_000_000

pub record BandwidthBucket : Type 0 where
  pub rate_bps : ℕ
  pub tokens : ℕ
  pub last_refill : ℕ

-- `BandwidthBucket(rate_mbps)`, with the rate in bytes per second
pub new_bucket : ℕ → ℕ → BandwidthBucket
new_bucket rate now = record { rate_bps = rate; tokens = rate * second; last_refill = now }

-- `_refill` when the clock reads `now`
pub refill : BandwidthBucket → ℕ → BandwidthBucket
refill b now = record b {
  tokens = min (b.rate_bps * second) (b.tokens + (now - b.last_refill) * b.rate_bps);
  last_refill = now;
}

-- The least number of microseconds in which a rate adds so many tokens.
pub sleep_time : ℕ → ℕ → ℕ
sleep_time deficit rate = deficit / rate + (if deficit % rate == 0 then 0 else 1)

-- The result of a call that waits: the tokens it waited for, the bucket, and the delays that are
-- left. A delay is by how much a reading of the clock comes after the moment that was asked for;
-- `none` is a call that still waits when no more readings come.
abbrev pub Waited : Type 0
Waited = ℕ × BandwidthBucket × List ℕ

-- `while self._tokens < chunk:`, and the consumption. `asyncio.sleep` lasts at least as long as asked.
pub take_tokens : ℕ → ℕ → BandwidthBucket → List ℕ → Option Waited
take_tokens chunk waited b [] =
    if ltb b.tokens chunk then none else some (waited, record b { tokens = b.tokens - chunk }, [])
take_tokens chunk waited b (delay ∷ delays) =
    let deficit = chunk - b.tokens in
    let later =
      take_tokens chunk (waited + deficit)
        (refill b (b.last_refill + sleep_time deficit b.rate_bps + delay)) delays in
    if ltb b.tokens chunk
    then later
    else some (waited, record b { tokens = b.tokens - chunk }, delay ∷ delays)

-- one round of the loop of `acquire`, for so many bytes: the lock is taken, the bucket refilled
pub take_chunk : ℕ → ℕ → BandwidthBucket → List ℕ → Option Waited
take_chunk bytes waited b [] = none
take_chunk bytes waited b (delay ∷ delays) =
    take_tokens (bytes * second) waited (refill b (b.last_refill + delay)) delays

-- `while remaining > 0`, with the rounds that are left
pub take_chunks : ℕ → ℕ → ℕ → BandwidthBucket → List ℕ → Option Waited
take_chunks zero remaining waited b delays = some (waited, b, delays)
take_chunks (suc fuel) zero waited b delays = some (waited, b, delays)
take_chunks (suc fuel) (suc n) waited b delays = do
  (waited', b', delays') ← take_chunk (min (suc n) b.rate_bps) waited b delays
  take_chunks fuel (suc n - min (suc n) b.rate_bps) waited' b' delays'

-- `BandwidthBucket.acquire`: a round takes at least one byte, so there are at most `nbytes` rounds.
pub acquire : ℕ → BandwidthBucket → List ℕ → Option Waited
acquire nbytes b delays =
    let rounds = take_chunks nbytes nbytes 0 b delays in
    if b.rate_bps == 0 then some (0, b, delays) else rounds

pub record BandwidthStats : Type 0 where
  pub upload_bytes : ℕ
  pub download_bytes : ℕ
  pub upload_waits : ℕ
  pub download_waits : ℕ

pub record BandwidthThrottle : Type 0 where
  pub upload : Option BandwidthBucket
  pub download : Option BandwidthBucket
  pub stats : BandwidthStats

abbrev bucket_for : ℕ → ℕ → Option BandwidthBucket
bucket_for zero now = none
bucket_for (suc r) now = some (new_bucket (suc r) now)

-- `BandwidthThrottle(upload_mbps, download_mbps)`, with the rates in bytes per second
pub new_throttle : ℕ → ℕ → ℕ → BandwidthThrottle
new_throttle up down now = record {
  upload = bucket_for up now;
  download = bucket_for down now;
  stats = record { upload_bytes = 0; download_bytes = 0; upload_waits = 0; download_waits = 0 };
}

-- `if waited > 0: waits += 1`
abbrev one_if_waited : ℕ → ℕ
one_if_waited zero = 0
one_if_waited (suc w) = 1

pub acquire_upload : ℕ → BandwidthThrottle → List ℕ → Option (ℕ × BandwidthThrottle × List ℕ)
acquire_upload nbytes t delays =
    let counted = record t {
      stats = record t.stats { upload_bytes = t.stats.upload_bytes + nbytes };
    } in
    elim t.upload [
      | none ↦ some (0, counted, delays)
      | some b ↦ acquire nbytes b delays >>= λ (waited, b', delays'). some (
        waited,
        record counted {
          upload = some b';
          stats = record counted.stats {
            upload_waits = t.stats.upload_waits + one_if_waited waited;
          };
        },
        delays',
      )
    ]

pub acquire_download : ℕ → BandwidthThrottle → List ℕ → Option (ℕ × BandwidthThrottle × List ℕ)
acquire_download nbytes t delays =
    let counted = record t {
      stats = record t.stats { download_bytes = t.stats.download_bytes + nbytes };
    } in
    elim t.download [
      | none ↦ some (0, counted, delays)
      | some b ↦ acquire nbytes b delays >>= λ (waited, b', delays'). some (
        waited,
        record counted {
          download = some b';
          stats = record counted.stats {
            download_waits = t.stats.download_waits + one_if_waited waited;
          };
        },
        delays',
      )
    ]
