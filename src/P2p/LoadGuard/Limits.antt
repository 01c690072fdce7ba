-- ===== src/P2p/LoadGuard/Limits.antt =====
-- infomesh/p2p/load_guard.py: the limit per minute and the limit on queries at one time, over every
-- history of a guard.
use infomesh.Prelude.{
  ℕ, ◌+◌, ◌-◌, ◌≤◌, ◌<◌, ◌≡◌, ◌↔◌, refl, Bool, true, some, List, [], arith, ltb, length, get_elem?,
  Text, Bool-cases, inl, inr,
}
use infomesh.P2p.LoadGuard.{
  NodeLoadGuard, new_guard, drop_old, prune_old_timestamps, try_acquire, release, stats,
  update_stats, is_overloaded, reset,
}
use infomesh.P2p.LoadGuard.Log.{
  Reachable, made, tried, released, asked, observed, restarted, recent, length-recent,
}
use infomesh.P2p.LoadGuard.Steps.{
  Outcome, refused, admitted, try_acquire-Outcome, IsKept, later-IsLog, pruned-IsKept, tried-IsKept,
}

module _ {max_qpm max_concurrent : ℕ} where
  made-IsKept : IsKept max_qpm max_concurrent (new_guard max_qpm max_concurrent) [] 0
  made-IsKept = record {
    qpm = refl;
    at_once = refl;
    logged = record { dropped = []; splits = refl; old = tt; ascending = tt };
    few = omega arith;
    free = omega arith;
    spaced = λ i a b p q. absurd (cc);
  }

  release-IsKept :
      (g : NodeLoadGuard) (log : List ℕ) (t : ℕ)
      → IsKept max_qpm max_concurrent g log t
      → IsKept max_qpm max_concurrent (release g) log t
  unfolding release
  release-IsKept g log t k = elim (Bool-cases (ltb 0 g.concurrent)) [
    | inl some_left ↦ rw some_left (record {
      qpm = k.qpm;
      at_once = k.at_once;
      logged =
          later-IsLog g (record g { concurrent = g.concurrent - 1 }) log t t (omega arith) refl
            k.logged;
      few = k.few;
      free = omega (arith, k.free);
      spaced = k.spaced;
    })
    | inr none_left ↦ rw none_left k
  ]

  reset-IsKept :
      (g : NodeLoadGuard) (log : List ℕ) (t : ℕ)
      → IsKept max_qpm max_concurrent g log t
      → IsKept max_qpm max_concurrent (reset g) [] t
  unfolding reset
  reset-IsKept g log t k = record {
    qpm = k.qpm;
    at_once = k.at_once;
    logged = record { dropped = []; splits = refl; old = tt; ascending = tt };
    few = omega arith;
    free = omega arith;
    spaced = λ i a b p q. absurd (cc);
  }

  observed-IsKept :
      (g : NodeLoadGuard) (log : List ℕ) (t now later : ℕ)
      → t ≤ now
      → now ≤ later
      → IsKept max_qpm max_concurrent g log t
      → IsKept max_qpm max_concurrent (stats g now later).1 log later
  unfolding stats update_stats is_overloaded
  observed-IsKept g log t now later l m k =
      let g' : NodeLoadGuard = prune_old_timestamps g now in
      pruned-IsKept g' _ log now later later m (omega arith) refl refl refl refl
        (pruned-IsKept g g' log t now now l (omega arith) refl refl refl refl k)

  asked-IsKept :
      (g : NodeLoadGuard) (log : List ℕ) (t now : ℕ)
      → t ≤ now
      → IsKept max_qpm max_concurrent g log t
      → IsKept max_qpm max_concurrent (is_overloaded g now).1 log now
  unfolding is_overloaded
  asked-IsKept g log t now l k =
      pruned-IsKept g (prune_old_timestamps g now) log t now now l (omega arith) refl refl refl refl
        k

  pub Reachable-IsKept :
      (g : NodeLoadGuard) (log : List ℕ) (t : ℕ)
      → Reachable max_qpm max_concurrent g log t
      → IsKept max_qpm max_concurrent g log t
  Reachable-IsKept g log t made = made-IsKept
  Reachable-IsKept g log t (tried {g = h} {log = old} {t = s} peer_id cut now r l m) =
      tried-IsKept h peer_id old s cut now (try_acquire h peer_id cut now) l m
        (try_acquire-Outcome h peer_id cut now) (Reachable-IsKept h old s r)
  Reachable-IsKept g log t (released {g = h} r) =
      release-IsKept h log t (Reachable-IsKept h log t r)
  Reachable-IsKept g log t (asked {g = h} {t = s} now r l) =
      asked-IsKept h log s now l (Reachable-IsKept h log s r)
  Reachable-IsKept g log t (observed {g = h} {t = s} now later r l m) =
      observed-IsKept h log s now later l m (Reachable-IsKept h log s r)
  Reachable-IsKept g log t (restarted {g = h} {log = old} r) =
      reset-IsKept h old t (Reachable-IsKept h old t r)

-- In every history of a guard, with a clock that never runs backwards: of any max_qpm + 1 successive
-- queries that were accepted since the start or the last reset, the last comes more than 60 seconds
-- after the first; at most `max_concurrent` queries are counted as running, and at most `max_qpm`
-- times are kept.
pub rate_limit_kept :
    (max_qpm max_concurrent : ℕ) (g : NodeLoadGuard) (log : List ℕ) (t : ℕ)
    → Reachable max_qpm max_concurrent g log t
    → ((i first last : ℕ)
        → get_elem? log i ≡ some first
        → get_elem? log (i + max_qpm) ≡ some last
        → first + 60 < last)
      × (g.concurrent ≤ max_concurrent)
      × (length g.timestamps ≤ max_qpm)
rate_limit_kept max_qpm max_concurrent g log t r =
    let k = Reachable-IsKept g log t r in (k.spaced, k.free, k.few)

accepted_iff :
    (max_qpm max_concurrent : ℕ) (g : NodeLoadGuard) (log : List ℕ) (peer_id : Text) (cut now : ℕ)
    (r : Bool × NodeLoadGuard)
    → g.max_qpm ≡ max_qpm
    → g.max_concurrent ≡ max_concurrent
    → length (drop_old cut g.timestamps) ≡ recent cut log
    → Outcome g peer_id cut now r
    → (r.0 ≡ true) ↔ ((recent cut log < max_qpm) × (g.concurrent < max_concurrent))
accepted_iff q c g log peer_id cut now r e f n (refused (inl full)) =
    (λ h. cc, λ h. absurd (omega (arith, h.0)))
accepted_iff q c g log peer_id cut now r e f n (refused (inr busy)) =
    (λ h. cc, λ h. absurd (omega (arith, h.1)))
accepted_iff q c g log peer_id cut now r e f n (admitted room free) =
    (λ h. (omega arith, omega arith), λ h. refl)

-- In every history of a guard, a query is accepted exactly when fewer than `max_qpm` of the queries
-- accepted since the start or the last reset are at most 60 seconds old and fewer than
-- `max_concurrent` queries are counted as running.
pub try_acquire_iff :
    (max_qpm max_concurrent : ℕ) (g : NodeLoadGuard) (log : List ℕ) (t : ℕ) (peer_id : Text)
    (cut now : ℕ)
    → Reachable max_qpm max_concurrent g log t
    → t ≤ cut
    → ((try_acquire g peer_id cut now).0 ≡ true)
      ↔ ((recent cut log < max_qpm) × (g.concurrent < max_concurrent))
try_acquire_iff max_qpm max_concurrent g log t peer_id cut now r l =
    let k = Reachable-IsKept g log t r in
    accepted_iff max_qpm max_concurrent g log peer_id cut now (try_acquire g peer_id cut now) k.qpm
      k.at_once (length-recent g log t cut l k.logged) (try_acquire-Outcome g peer_id cut now)
