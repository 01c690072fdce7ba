-- ===== src/P2p/LoadGuard/Tests.antt =====
-- infomesh/p2p/load_guard.py on a short history.
use infomesh.Prelude.{
  ℕ, ◌+◌, ◌≤◌, ◌<◌, ◌≡◌, ◌↔◌, refl, true, some, [], ◌∷◌, arith, length, get_elem?, Text, bytes,
  text_eq,
}
use infomesh.Prelude.Dict.{lookup, insert}
use infomesh.P2p.LoadGuard.{
  NodeLoadGuard, new_guard, try_acquire, release, drop_old, no_stats, peer_query_count, place,
  sorted_by_count,
}
use infomesh.P2p.LoadGuard.Log.{Reachable, made, tried, released, recent}
use infomesh.P2p.LoadGuard.Limits.{rate_limit_kept, try_acquire_iff}

abbrev alice : Text
alice = bytes "alice"

-- Two queries a minute, one at a time: at 5 s, at 20 s after a release, and at 66 s after another.
abbrev guard1 : NodeLoadGuard
guard1 = record (new_guard 2 1) {
  concurrent = 1;
  timestamps = 5 ∷ [];
  stats = record no_stats { accepted = 1 };
  peer_counts = (alice, 1) ∷ [];
}

abbrev guard2 : NodeLoadGuard
guard2 = record guard1 {
  timestamps = 5 ∷ 20 ∷ [];
  stats = record no_stats { accepted = 2 };
  peer_counts = (alice, 2) ∷ [];
}

abbrev guard3 : NodeLoadGuard
guard3 = record guard2 {
  timestamps = 20 ∷ 67 ∷ [];
  stats = record no_stats { accepted = 3 };
  peer_counts = (alice, 3) ∷ [];
}

guard1_reached : Reachable 2 1 guard1 (5 ∷ []) 5
unfolding try_acquire drop_old lookup insert
guard1_reached = tried alice 5 5 made (omega arith) (omega arith)

guard2_reached : Reachable 2 1 guard2 (5 ∷ 20 ∷ []) 20
unfolding try_acquire drop_old lookup insert release
guard2_reached = tried alice 20 20 (released guard1_reached) (omega arith) (omega arith)

guard3_reached : Reachable 2 1 guard3 (5 ∷ 20 ∷ 67 ∷ []) 67
unfolding try_acquire drop_old lookup insert release
guard3_reached = tried alice 66 67 (released guard2_reached) (omega arith) (omega arith)

by_count :
    sorted_by_count ((bytes "a", 3) ∷ (bytes "b", 1) ∷ (bytes "c", 3) ∷ [])
    ≡ (bytes "b", 1) ∷ (bytes "a", 3) ∷ (bytes "c", 3) ∷ []
unfolding sorted_by_count place
by_count = refl

rate_limit_kept_example :
    ((i first last : ℕ)
      → get_elem? (5 ∷ 20 ∷ 67 ∷ []) i ≡ some first
      → get_elem? (5 ∷ 20 ∷ 67 ∷ []) (i + 2) ≡ some last
      → first + 60 < last)
    × (guard3.concurrent ≤ 1)
    × (length guard3.timestamps ≤ 2)
rate_limit_kept_example = rate_limit_kept 2 1 guard3 (5 ∷ 20 ∷ 67 ∷ []) 67 guard3_reached

try_acquire_iff_example :
    ((try_acquire guard3 alice 70 71).0 ≡ true)
    ↔ ((recent 70 (5 ∷ 20 ∷ 67 ∷ []) < 2) × (guard3.concurrent < 1))
try_acquire_iff_example =
    try_acquire_iff 2 1 guard3 (5 ∷ 20 ∷ 67 ∷ []) 67 alice 70 71 guard3_reached (omega arith)

-- A guard that tracks one peer only, and tracks it already.
abbrev full_guard : NodeLoadGuard
full_guard = record (new_guard 2 1) { peer_counts = (alice, 1) ∷ []; max_tracked_peers = 1 }

not_counted : peer_query_count (try_acquire full_guard alice 5 5).1 alice ≡ 1
unfolding peer_query_count try_acquire drop_old lookup
not_counted = refl
