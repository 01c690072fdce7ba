-- ===== src/P2p/LoadGuard/Steps.antt =====
-- infomesh/p2p/load_guard.py: `try_acquire` and the pruning keep the two limits.
use infomesh.Prelude.{
  ℕ, zero, suc, ◌+◌, ◌≤◌, ◌<◌, ◌≡◌, refl, sym, ap, ◌∙◌, Bool, true, false, some, List, [], ◌∷◌,
  ◌++◌, arith, leb, ltb, if◌then◌else◌, length, length-append, append_assoc, get_elem?,
  get_elem?-append_left, get_elem?-append_end, Text, Bool-cases, inl, inr, ◌⊎◌, All, subst,
}
use infomesh.P2p.LoadGuard.{
  NodeLoadGuard, drop_old, prune_old_timestamps, reject, accept, try_acquire,
}
use infomesh.P2p.LoadGuard.Log.{IsLog, prune-IsLog, Ascending-append, Ascending-later, old_later}

get_elem?-lt {ℓ} :
    {A : Type ℓ} (xs : List A) (i : ℕ) {a : A} → get_elem? xs i ≡ some a → i < length xs
get_elem?-lt [] i h = cc
get_elem?-lt (x ∷ xs) zero h = omega arith
get_elem?-lt (x ∷ xs) (suc i) h = omega (arith, get_elem?-lt xs i h)

All-get_elem? {ℓ κ} :
    {A : Type ℓ} (P : A → Type κ) (xs : List A) (i : ℕ) (a : A)
    → All P xs
    → get_elem? xs i ≡ some a
    → P a
All-get_elem? P [] i a h e = absurd (cc)
All-get_elem? P (x ∷ xs) zero a h e = subst P (cc) h.0
All-get_elem? P (x ∷ xs) (suc i) a h e = All-get_elem? P xs i a h.1 e

-- Of any n + 1 successive times, the last is more than 60 seconds after the first.
abbrev pub Spaced : ℕ → List ℕ → Type 0
Spaced n log = (i a b : ℕ) → get_elem? log i ≡ some a → get_elem? log (i + n) ≡ some b → a + 60 < b

Spaced-append :
    (n cut now : ℕ) (log dropped kept : List ℕ)
    → log ≡ dropped ++ kept
    → length kept < n
    → All (λ x. x + 60 < cut) dropped
    → cut ≤ now
    → Spaced n log
    → Spaced n (log ++ now ∷ [])
Spaced-append n cut now log dropped kept e l old c s i a b p q =
    let total : length log ≡ length dropped + length kept =
      ap length e ∙ length-append dropped kept in
    let inside : i + n < length log + 1 =
      omega (arith, get_elem?-lt (log ++ now ∷ []) (i + n) q, length-append log (now ∷ [])) in
    elim (Bool-cases (ltb (i + n) (length log))) [
      | inl before ↦
          s i a b (sym (get_elem?-append_left log (now ∷ []) i (ground arith)) ∙ p)
            (sym (get_elem?-append_left log (now ∷ []) (i + n) (ground arith)) ∙ q)
      | inr at_end ↦
          let last : i + n ≡ length log = ground arith in
          let b_now : ◌≡◌ {A = ℕ} now b =
            (let r : get_elem? (log ++ now ∷ []) (length log) ≡ some b =
                subst (λ k. get_elem? (log ++ now ∷ []) k ≡ some b) last q in
              let r' = get_elem?-append_end log now in cc) in
          let first : get_elem? dropped i ≡ some a =
            (let r : get_elem? log i ≡ some a =
                sym (get_elem?-append_left log (now ∷ []) i (omega arith)) ∙ p in
              let r' : get_elem? (dropped ++ kept) i ≡ some a =
                subst (λ k. get_elem? k i ≡ some a) e r in
              sym (get_elem?-append_left dropped kept i (omega arith)) ∙ r') in
          omega (arith, All-get_elem? (λ x. x + 60 < cut) dropped i a old first)
    ]

-- What `try_acquire` returns, by its two limits.
module _ (g : NodeLoadGuard) (peer_id : Text) (cut now : ℕ) where
  pub data Outcome : Bool × NodeLoadGuard → Type 0 where
    refused :
        (g.max_qpm ≤ length (drop_old cut g.timestamps)) ⊎ (g.max_concurrent ≤ g.concurrent)
        → Outcome (false, reject (prune_old_timestamps g cut))
    admitted :
        length (drop_old cut g.timestamps) < g.max_qpm
        → g.concurrent < g.max_concurrent
        → Outcome (true, accept (prune_old_timestamps g cut) peer_id now)

  pub try_acquire-Outcome : Outcome (try_acquire g peer_id cut now)
  unfolding try_acquire
  try_acquire-Outcome = elim (Bool-cases (leb g.max_qpm (length (drop_old cut g.timestamps)))) [
    | inl full ↦ rw full (refused (inl (ground arith)))
    | inr room ↦ rw room (elim (Bool-cases (leb g.max_concurrent g.concurrent)) [
      | inl busy ↦ rw busy (refused (inr (ground arith)))
      | inr free ↦ rw free (admitted (ground arith) (ground arith))
    ])
  ]

-- What a guard with the two limits has kept to, with the times of its accepted queries.
pub record IsKept (max_qpm max_concurrent : ℕ) (g : NodeLoadGuard) (log : List ℕ) (t : ℕ)
    : Type 0 where
  pub qpm : g.max_qpm ≡ max_qpm
  pub at_once : g.max_concurrent ≡ max_concurrent
  pub logged : IsLog g log t
  pub few : length g.timestamps ≤ max_qpm
  pub free : g.concurrent ≤ max_concurrent
  pub spaced : Spaced max_qpm log

length-drop_old-le : (now : ℕ) (xs : List ℕ) → length (drop_old now xs) ≤ length xs
unfolding drop_old
length-drop_old-le now [] = omega arith
length-drop_old-le now (x ∷ xs) = ground (arith, length-drop_old-le now xs)

pub later-IsLog :
    (g g' : NodeLoadGuard) (log : List ℕ) (s t : ℕ)
    → s ≤ t
    → g'.timestamps ≡ g.timestamps
    → IsLog g log s
    → IsLog g' log t
later-IsLog g g' log s t l e i = record {
  dropped = i.dropped;
  splits = rw e i.splits;
  old = old_later i.dropped s t l i.old;
  ascending = Ascending-later log s t l i.ascending;
}

module _ {max_qpm max_concurrent : ℕ} where
  -- A guard that differs in its statistics and counts only, and has dropped old times.
  pub pruned-IsKept :
      (g g' : NodeLoadGuard) (log : List ℕ) (t cut now : ℕ)
      → t ≤ cut
      → cut ≤ now
      → g'.timestamps ≡ drop_old cut g.timestamps
      → g'.max_qpm ≡ g.max_qpm
      → g'.max_concurrent ≡ g.max_concurrent
      → g'.concurrent ≡ g.concurrent
      → IsKept max_qpm max_concurrent g log t
      → IsKept max_qpm max_concurrent g' log now
  pruned-IsKept g g' log t cut now l m e q a c k = record {
    qpm = q ∙ k.qpm;
    at_once = a ∙ k.at_once;
    logged = later-IsLog g' g' log cut now m refl (prune-IsLog g g' log t cut l e k.logged);
    few = omega (arith, length-drop_old-le cut g.timestamps, ap length e, k.few);
    free = omega (arith, c, k.free);
    spaced = k.spaced;
  }

  accept-IsKept :
      (g : NodeLoadGuard) (peer_id : Text) (log : List ℕ) (t cut now : ℕ)
      → t ≤ cut
      → cut ≤ now
      → length (drop_old cut g.timestamps) < g.max_qpm
      → g.concurrent < g.max_concurrent
      → IsKept max_qpm max_concurrent g log t
      → IsKept max_qpm max_concurrent
          (accept (prune_old_timestamps g cut) peer_id now)
          (log ++ now ∷ [])
          now
  accept-IsKept g peer_id log t cut now l m room free k =
      let ts = drop_old cut g.timestamps in
      let i : IsLog (prune_old_timestamps g cut) log cut =
        prune-IsLog g (prune_old_timestamps g cut) log t cut l refl k.logged in
      record {
        qpm = k.qpm;
        at_once = k.at_once;
        logged = record {
          dropped = i.dropped;
          splits = ap (λ r. r ++ now ∷ []) i.splits ∙ append_assoc i.dropped ts (now ∷ []);
          old = old_later i.dropped cut now m i.old;
          ascending = Ascending-append log cut now m i.ascending;
        };
        few = omega (arith, length-append ts (now ∷ []), room, k.qpm);
        free = omega (arith, free, k.at_once);
        spaced =
            Spaced-append max_qpm cut now log i.dropped ts i.splits (omega (arith, room, k.qpm))
              i.old m k.spaced;
      }

  pub tried-IsKept :
      (g : NodeLoadGuard) (peer_id : Text) (log : List ℕ) (t cut now : ℕ) (r : Bool × NodeLoadGuard)
      → t ≤ cut
      → cut ≤ now
      → Outcome g peer_id cut now r
      → IsKept max_qpm max_concurrent g log t
      → IsKept max_qpm max_concurrent r.1 (if r.0 then log ++ now ∷ [] else log) now
  tried-IsKept g peer_id log t cut now r l m (refused why) k =
      pruned-IsKept g (reject (prune_old_timestamps g cut)) log t cut now l m refl refl refl refl k
  tried-IsKept g peer_id log t cut now r l m (admitted room free) k =
      accept-IsKept g peer_id log t cut now l m room free k
