-- ===== src/P2p/LoadGuard/Counts.antt =====
-- infomesh/p2p/load_guard.py: the statistics, and the counts per peer.
use infomesh.Prelude.{
  ℕ, ◌+◌, ◌≤◌, ◌≡◌, refl, Bool, ◌||◌, List, arith, leb, ltb, if◌then◌else◌, length, Text, text_eq,
  ◌==◌,
}
use infomesh.Prelude.Dict.{lookup}
use infomesh.Prelude.Dict.Laws.{lookup-insert}
use infomesh.P2p.LoadGuard.{
  NodeLoadGuard, prune_old_timestamps, count_peer, or_zero, try_acquire, update_stats, stats,
  is_overloaded, peer_query_count,
}
use infomesh.P2p.LoadGuard.Log.{Reachable, recent, IsLog, prune-IsLog, length-recent}
use infomesh.P2p.LoadGuard.Steps.{Outcome, refused, admitted, try_acquire-Outcome}
use infomesh.P2p.LoadGuard.Limits.{Reachable-IsKept}

count_peer-lookup :
    (g : NodeLoadGuard) (peer_id other : Text)
    → or_zero (lookup other (count_peer peer_id g.max_tracked_peers g.peer_counts)) ≡ (
        if other == peer_id
        then (if ltb (length g.peer_counts) g.max_tracked_peers
            then or_zero (lookup peer_id g.peer_counts) + 1
            else or_zero (lookup other g.peer_counts))
        else or_zero (lookup other g.peer_counts))
count_peer-lookup g peer_id other =
    ground (
      arith,
      lookup-insert peer_id other (or_zero (lookup peer_id g.peer_counts) + 1) g.peer_counts,
    )

counted :
    (g : NodeLoadGuard) (peer_id other : Text) (cut now : ℕ) (r : Bool × NodeLoadGuard)
    → Outcome g peer_id cut now r
    → peer_query_count r.1 other ≡ (
        if r.0
        then (if other == peer_id
            then (if ltb (length g.peer_counts) g.max_tracked_peers
                then peer_query_count g peer_id + 1
                else peer_query_count g other)
            else peer_query_count g other)
        else peer_query_count g other)
unfolding peer_query_count
counted g peer_id other cut now r (refused why) = refl
counted g peer_id other cut now r (admitted room free) = count_peer-lookup g peer_id other

-- An accepted query adds 1 to the count of its peer as long as fewer than `max_tracked_peers` peers
-- are tracked; from there on no accepted query changes any count, of a tracked peer or not. A refused
-- query never changes one.
pub peer_query_count-try_acquire :
    (g : NodeLoadGuard) (peer_id other : Text) (cut now : ℕ)
    → peer_query_count (try_acquire g peer_id cut now).1 other ≡ (
        if (try_acquire g peer_id cut now).0
        then (if other == peer_id
            then (if ltb (length g.peer_counts) g.max_tracked_peers
                then peer_query_count g peer_id + 1
                else peer_query_count g other)
            else peer_query_count g other)
        else peer_query_count g other)
peer_query_count-try_acquire g peer_id other cut now =
    counted g peer_id other cut now (try_acquire g peer_id cut now)
      (try_acquire-Outcome g peer_id cut now)

-- In every history of a guard, the statistics report the number of queries accepted in the last 60
-- seconds, the queries counted as running, and as overload that one of the two limits is reached.
pub stats_accurate :
    (max_qpm max_concurrent : ℕ) (g : NodeLoadGuard) (log : List ℕ) (t now later : ℕ)
    → Reachable max_qpm max_concurrent g log t
    → t ≤ now
    → now ≤ later
    → let s = (stats g now later).0 in
      (s.queries_this_minute ≡ recent now log)
      × (s.concurrent ≡ g.concurrent)
      × (s.is_overloaded ≡ (leb max_concurrent g.concurrent || leb max_qpm (recent later log)))
      × (s.accepted ≡ g.stats.accepted)
      × (s.rejected ≡ g.stats.rejected)
unfolding stats update_stats is_overloaded
stats_accurate max_qpm max_concurrent g log t now later r l m =
    let k = Reachable-IsKept g log t r in
    let g' : NodeLoadGuard = prune_old_timestamps g now in
    let i : IsLog g' log now = prune-IsLog g g' log t now l refl k.logged in
    (
      length-recent g log t now l k.logged,
      refl,
      rw (k.qpm, k.at_once, length-recent g' log now later m i) refl,
      refl,
      refl,
    )
