-- ===== src/P2p/Throttle/Tests.antt =====
-- infomesh/p2p/throttle.py: five bytes at two bytes per second.
use infomesh.Prelude.{ℕ, ◌+◌, ◌-◌, ◌*◌, ◌≤◌, ◌≡◌, refl, inr, some, List, [], ◌∷◌, arith, length}
use infomesh.P2p.Throttle.{
  BandwidthBucket, second, refill, sleep_time, take_tokens, take_chunk, take_chunks, acquire,
}
use infomesh.P2p.Throttle.Supply.{acquire_returns}
use infomesh.P2p.Throttle.Limit.{idle, throughput_bounded, acquire-Served}

abbrev slow : BandwidthBucket
slow = record { rate_bps = 2; tokens = 2 * second; last_refill = 0 }

-- The second chunk waits for a second, less the 7 microseconds that the lock came late.
abbrev prompt : List ℕ
prompt = 7 ∷ 0 ∷ 0 ∷ 0 ∷ 0 ∷ 0 ∷ []

abbrev drained : BandwidthBucket
drained = record { rate_bps = 2; tokens = 0; last_refill = 1_500_007 }

five_bytes : acquire 5 slow prompt ≡ some (3_000_000, drained, 0 ∷ [])
unfolding acquire take_chunks take_chunk take_tokens refill sleep_time
five_bytes = refl

acquire_returns_example :
    (w : ℕ) × (b' : BandwidthBucket) × (ds : List ℕ) × (acquire 5 slow prompt ≡ some (w, b', ds))
    × (length prompt ≤ length ds + 2 * 3)
acquire_returns_example = acquire_returns 5 3 slow prompt (inr (omega arith)) (omega arith)

throughput_bounded_example : 5 * second ≤ (drained.last_refill - slow.last_refill) * 2 + 2 * second
throughput_bounded_example = throughput_bounded slow drained 5 (omega arith) (
    acquire-Served slow slow 0 5 prompt 3_000_000 drained (0 ∷ []) (omega arith) (omega arith) idle
      five_bytes)
