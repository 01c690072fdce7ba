-- ===== src/P2p/LoadGuard/Log.antt =====
-- infomesh/p2p/load_guard.py: the history of a guard, and the times of the queries that it accepted.
use infomesh.Prelude.{
  ℕ, ◌+◌, ◌≤◌, ◌<◌, ◌≡◌, refl, List, [], ◌∷◌, ◌++◌, arith, ltb, if◌then◌else◌, length, append_assoc,
  Text, Bool-cases, inl, inr, All, All-append, subst,
}
use infomesh.P2p.LoadGuard.{
  NodeLoadGuard, new_guard, drop_old, try_acquire, release, stats, is_overloaded, reset,
}

-- A guard that some sequence of calls leads to, with the times of the accepted queries since it was
-- made or reset, the oldest first, and the last reading of the clock, which never runs backwards.
pub data Reachable (max_qpm max_concurrent : ℕ) : NodeLoadGuard → List ℕ → ℕ → Type 0 where
  made : Reachable max_qpm max_concurrent (new_guard max_qpm max_concurrent) [] 0
  tried :
      {g : NodeLoadGuard} {log : List ℕ} {t : ℕ} (peer_id : Text) (cut now : ℕ)
      → Reachable max_qpm max_concurrent g log t
      → t ≤ cut
      → cut ≤ now
      → Reachable max_qpm max_concurrent
          (try_acquire g peer_id cut now).1
          (if (try_acquire g peer_id cut now).0 then log ++ now ∷ [] else log)
          now
  released :
      {g : NodeLoadGuard} {log : List ℕ} {t : ℕ}
      → Reachable max_qpm max_concurrent g log t
      → Reachable max_qpm max_concurrent (release g) log t
  asked :
      {g : NodeLoadGuard} {log : List ℕ} {t : ℕ} (now : ℕ)
      → Reachable max_qpm max_concurrent g log t
      → t ≤ now
      → Reachable max_qpm max_concurrent (is_overloaded g now).1 log now
  observed :
      {g : NodeLoadGuard} {log : List ℕ} {t : ℕ} (now later : ℕ)
      → Reachable max_qpm max_concurrent g log t
      → t ≤ now
      → now ≤ later
      → Reachable max_qpm max_concurrent (stats g now later).1 log later
  restarted :
      {g : NodeLoadGuard} {log : List ℕ} {t : ℕ}
      → Reachable max_qpm max_concurrent g log t
      → Reachable max_qpm max_concurrent (reset g) [] t

-- How many of the times are at most 60 seconds before `now`.
pub recent : ℕ → List ℕ → ℕ
recent now [] = 0
recent now (t ∷ ts) = (if ltb (t + 60) now then 0 else 1) + recent now ts

-- Every time is at most the following ones and at most `t`.
abbrev pub Ascending : List ℕ → ℕ → Type 0
Ascending [] t = Unit
Ascending (x ∷ xs) t = (x ≤ t) × All (λ y. x ≤ y) xs × Ascending xs t

pub Ascending-later : (xs : List ℕ) (s t : ℕ) → s ≤ t → Ascending xs s → Ascending xs t
Ascending-later [] s t l a = tt
Ascending-later (x ∷ xs) s t l a = (omega arith, a.1, Ascending-later xs s t l a.2)

pub Ascending-append : (xs : List ℕ) (s t : ℕ) → s ≤ t → Ascending xs s → Ascending (xs ++ t ∷ []) t
Ascending-append [] s t l a = (omega arith, tt, tt)
Ascending-append (x ∷ xs) s t l a = (
  omega arith,
  All-append (λ y. x ≤ y) xs (t ∷ []) a.1 (omega arith, tt),
  Ascending-append xs s t l a.2,
)

-- The log is the times that were dropped, each more than 60 seconds old, and those that are kept.
pub record IsLog (g : NodeLoadGuard) (log : List ℕ) (t : ℕ) : Type 0 where
  pub dropped : List ℕ
  pub splits : log ≡ dropped ++ g.timestamps
  pub old : All (λ x. x + 60 < t) dropped
  pub ascending : Ascending log t

pub old_later :
    (xs : List ℕ) (s t : ℕ) → s ≤ t → All (λ x. x + 60 < s) xs → All (λ x. x + 60 < t) xs
old_later [] s t l a = tt
old_later (x ∷ xs) s t l a = (omega arith, old_later xs s t l a.1)

-- What the pruning takes away.
pub taken : ℕ → List ℕ → List ℕ
taken now [] = []
taken now (x ∷ xs) = if ltb (x + 60) now then x ∷ taken now xs else []

taken-drop_old : (now : ℕ) (xs : List ℕ) → taken now xs ++ drop_old now xs ≡ xs
unfolding taken drop_old
taken-drop_old now [] = refl
taken-drop_old now (x ∷ xs) = ground (arith, taken-drop_old now xs)

taken_old : (now : ℕ) (xs : List ℕ) → All (λ x. x + 60 < now) (taken now xs)
unfolding taken
taken_old now [] = tt
taken_old now (x ∷ xs) = ground (arith, taken_old now xs)

-- Pruning at `cut` keeps the log.
pub prune-IsLog :
    (g g' : NodeLoadGuard) (log : List ℕ) (t cut : ℕ)
    → t ≤ cut
    → g'.timestamps ≡ drop_old cut g.timestamps
    → IsLog g log t
    → IsLog g' log cut
prune-IsLog g g' log t cut l e i = record {
  dropped = i.dropped ++ taken cut g.timestamps;
  splits =
      rw
        (
          e,
          append_assoc i.dropped (taken cut g.timestamps) (drop_old cut g.timestamps),
          taken-drop_old cut g.timestamps,
        )
        i.splits;
  old =
      All-append (λ x. x + 60 < cut) i.dropped (taken cut g.timestamps)
        (old_later i.dropped t cut l i.old) (taken_old cut g.timestamps);
  ascending = Ascending-later log t cut l i.ascending;
}

-- The queue after the pruning holds as many times as the log has recent ones.
recent-append : (now : ℕ) (xs ys : List ℕ) → recent now (xs ++ ys) ≡ recent now xs + recent now ys
unfolding recent
recent-append now [] ys = omega arith
recent-append now (x ∷ xs) ys = omega (arith, recent-append now xs ys)

recent_old : (now : ℕ) (xs : List ℕ) → All (λ x. x + 60 < now) xs → recent now xs ≡ 0
unfolding recent
recent_old now [] a = refl
recent_old now (x ∷ xs) a = ground (arith, recent_old now xs a.1)

recent-All :
    (now x : ℕ) (xs : List ℕ) → now ≤ x + 60 → All (λ y. x ≤ y) xs → recent now xs ≡ length xs
unfolding recent
recent-All now x [] l a = refl
recent-All now x (y ∷ xs) l a = ground (arith, recent-All now x xs l a.1)

Ascending-right : (xs ys : List ℕ) (t : ℕ) → Ascending (xs ++ ys) t → Ascending ys t
Ascending-right [] ys t a = a
Ascending-right (x ∷ xs) ys t a = Ascending-right xs ys t a.2

length-drop_old :
    (now t : ℕ) (xs : List ℕ) → Ascending xs t → length (drop_old now xs) ≡ recent now xs
unfolding drop_old recent
length-drop_old now t [] a = refl
length-drop_old now t (x ∷ xs) a = elim (Bool-cases (ltb (x + 60) now)) [
  | inl gone ↦ rw gone (omega (arith, length-drop_old now t xs a.2))
  | inr kept ↦ rw kept (omega (arith, recent-All now x xs (ground arith) a.1))
]

pub length-recent :
    (g : NodeLoadGuard) (log : List ℕ) (t cut : ℕ)
    → t ≤ cut
    → IsLog g log t
    → length (drop_old cut g.timestamps) ≡ recent cut log
length-recent g log t cut l i = rw (i.splits) (
    omega (
      arith,
      recent-append cut i.dropped g.timestamps,
      recent_old cut i.dropped (old_later i.dropped t cut l i.old),
      length-drop_old cut t g.timestamps (
          Ascending-right i.dropped g.timestamps t
            (subst (λ r. Ascending r t) i.splits i.ascending)),
    ))
