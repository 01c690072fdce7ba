-- ===== src/Crawler/Scheduler/Limits/Closed.antt =====
-- infomesh/crawler/scheduler.py: a domain that is full stays closed. A get_url that is cancelled is one
-- whose step `dequeued` no `finished` follows.
use infomesh.Prelude.{
  ℕ, ◌+◌, ◌≤◌, ◌≡◌, ◌≢◌, refl, sym, subst, ◌⊎◌, inl, inr, true, false, ◌&&◌, List, [], ◌∷◌, arith,
  ltb, leb, Text, text_eq, nat_eq, All, length, Bool-cases, Option-cases,
}
use infomesh.Prelude.Dict.{lookup}
use infomesh.Crawler.Scheduler.{
  UrlParse, Scheduler, new_scheduler, or_new, prune_stale_domains, admit, enqueue, set_crawl_delay,
  dequeue, refresh_hour, finish, mark_done, mark_error, domain_prune_threshold,
}
use infomesh.Crawler.Scheduler.Kept.{pending, Holds, insert-Holds, prune-Holds, write-Holds}
use infomesh.Crawler.Scheduler.Take.{dequeue_head, dequeue_empty}
use infomesh.Crawler.Scheduler.Limits.{
  Event, admitted, enqueued, dequeued, finished, done, failed, delayed, limited, apply, apply_all,
  or_same, or_waiting,
}

-- At least `n` URLs of `d` are pending, with the limit `most` per domain.
pub record IsOpen (d : Text) (n most : ℕ) (s : Scheduler) : Type 0 where
  pub holds : Holds d n s.domains
  pub limit : s.pending_per_domain ≡ most

-- No URL of the domain is marked as done or as failed.
abbrev pub Spares : ⦃u : UrlParse⦄ → Text → Event → Type 0
Spares ⦃u⦄ d (done url now) = u.netloc url ≢ d
Spares ⦃u⦄ d (failed url now) = u.netloc url ≢ d
Spares ⦃u⦄ d _ = Unit

module _ ⦃u : UrlParse⦄ (d : Text) (n most : ℕ) where
  at_domain :
      (url : Text) (s : Scheduler)
      → Holds d n s.domains
      → u.netloc url ≡ d
      → n ≤ (or_new (lookup (u.netloc url) s.domains)).pending_count
  at_domain url s h same = subst (λ e. n ≤ pending e s.domains) (sym same) h.at_least

  admit-Holds :
      (s : Scheduler) (url : Text) (depth now : ℕ)
      → IsOpen d n most s
      → IsOpen d n most (admit s url depth now).1
  unfolding admit
  admit-Holds s url depth now i = elim (Bool-cases (ltb 0 s.max_depth && ltb s.max_depth depth)) [
    | inl deep ↦ rw deep i
    | inr fine ↦
        let ds = prune_stale_domains domain_prune_threshold now s.domains in
        let h = prune-Holds d n domain_prune_threshold now s.domains i.holds in
        let e = u.netloc url in
        let enough : e ≡ d → n ≤ (or_new (lookup e ds)).pending_count =
          λ same. subst (λ f. n ≤ pending f ds) (sym same) h.at_least in
        rw fine (elim (Bool-cases (leb s.pending_per_domain (or_new (lookup e ds)).pending_count)) [
          | inl full ↦ rw full (record {
            holds = insert-Holds d n e (or_new (lookup e ds)) ds enough h;
            limit = i.limit;
          })
          | inr room ↦ rw room (record {
            holds = insert-Holds d n e _ ds (λ same. omega (arith, enough same)) h;
            limit = i.limit;
          })
        ])
  ]

  enqueue-Holds :
      (s : Scheduler) (url : Text) (depth : ℕ)
      → IsOpen d n most s
      → IsOpen d n most (or_waiting s (enqueue s url depth))
  unfolding enqueue
  enqueue-Holds s url depth i = elim (Bool-cases (leb 10000 (length s.queue))) [
    | inl full ↦ rw (enqueue, full) i
    | inr room ↦ rw (enqueue, room) (record { holds = i.holds; limit = i.limit })
  ]

  dequeue-Holds :
      (s : Scheduler) (now : ℕ) → IsOpen d n most s → IsOpen d n most (or_same s (dequeue s now))
  dequeue-Holds s now i = go s.queue refl
    where
      go : (q : List (Text × ℕ)) → s.queue ≡ q → IsOpen d n most (or_same s (dequeue s now))
      go [] e = rw (dequeue_empty s now e) i
      go ((url, depth) ∷ rest) e = rw (dequeue_head s now url depth rest e) (record {
        holds =
            insert-Holds d n (u.netloc url) (or_new (lookup (u.netloc url) s.domains)) s.domains
              (at_domain url s i.holds) i.holds;
        limit = i.limit;
      })

  refresh-Holds :
      (s : Scheduler) (now : ℕ) → IsOpen d n most s → IsOpen d n most (refresh_hour s now)
  unfolding refresh_hour
  refresh-Holds s now i = elim (Bool-cases (leb (s.hour_start + 3600) now)) [
    | inl new ↦
        rw new (record { holds = prune-Holds d n 50000 now s.domains i.holds; limit = i.limit })
    | inr same ↦ rw same i
  ]

  finish-Holds :
      (s : Scheduler) (url : Text) (depth now later : ℕ)
      → IsOpen d n most s
      → IsOpen d n most (finish s url depth now later).1
  unfolding finish
  finish-Holds s url depth now later i = elim (Bool-cases (ltb 0 s.urls_per_hour)) [
    | inr unlimited ↦
        rw unlimited (record {
          holds = write-Holds d n (u.netloc url) later s.domains i.holds;
          limit = i.limit;
        })
    | inl counted ↦
        let s' = refresh_hour s now in
        let i' = refresh-Holds s now i in
        rw counted (elim (Bool-cases (leb s.urls_per_hour s'.hourly_count)) [
          | inl spent ↦ rw spent i'
          | inr left_over ↦ rw left_over (record {
            holds = write-Holds d n (u.netloc url) later s'.domains i'.holds;
            limit = i'.limit;
          })
        ])
  ]

  mark_done-Holds :
      (s : Scheduler) (url : Text) (now : ℕ)
      → (u.netloc url ≢ d) ⊎ (n ≡ 0)
      → IsOpen d n most s
      → IsOpen d n most (mark_done s url now)
  unfolding mark_done
  mark_done-Holds s url now spared i = elim (Option-cases (lookup (u.netloc url) s.domains)) [
    | inl absent ↦ rw (mark_done, absent) i
    | inr (state, there) ↦
        rw (mark_done, there)
          (record {
            holds =
                prune-Holds d n domain_prune_threshold now _
                  (insert-Holds d n (u.netloc url) _ s.domains (untouched n spared) i.holds);
            limit = i.limit;
          })
  ]
    where
      untouched : {m : ℕ} (n' : ℕ) → (u.netloc url ≢ d) ⊎ (n' ≡ 0) → u.netloc url ≡ d → n' ≤ m
      untouched n' (inl other) same = absurd (other same)
      untouched n' (inr z) same = omega (arith, z)

  mark_error-Holds :
      (s : Scheduler) (url : Text) (now : ℕ)
      → (u.netloc url ≢ d) ⊎ (n ≡ 0)
      → IsOpen d n most s
      → IsOpen d n most (mark_error s url now)
  unfolding mark_error
  mark_error-Holds s url now spared i = elim (Option-cases (lookup (u.netloc url) s.domains)) [
    | inl absent ↦ rw (mark_error, absent) i
    | inr (state, there) ↦
        rw (mark_error, there)
          (mark_done-Holds _ url now spared (record {
            holds =
                insert-Holds d n (u.netloc url)
                  (record state { error_count = state.error_count + 1 }) s.domains
                  (λ same.
                    subst (λ o. n ≤ (or_new o).pending_count) there (at_domain url s i.holds same))
                  i.holds;
            limit = i.limit;
          }))
  ]

  apply-Holds :
      (s : Scheduler) (e : Event)
      → Spares d e ⊎ (n ≡ 0)
      → IsOpen d n most s
      → IsOpen d n most (apply s e)
  unfolding apply set_crawl_delay
  apply-Holds s (admitted url depth now) c i = admit-Holds s url depth now i
  apply-Holds s (enqueued url depth) c i = enqueue-Holds s url depth i
  apply-Holds s (dequeued now) c i = dequeue-Holds s now i
  apply-Holds s (finished url depth now later) c i = finish-Holds s url depth now later i
  apply-Holds s (done url now) c i = mark_done-Holds s url now c i
  apply-Holds s (failed url now) c i = mark_error-Holds s url now c i
  apply-Holds s (delayed domain delay) c i = record {
    holds =
        insert-Holds d n domain _ s.domains
          (λ same. subst (λ e. n ≤ pending e s.domains) (sym same) i.holds.at_least) i.holds;
    limit = i.limit;
  }
  apply-Holds s (limited limit) c i = record { holds = i.holds; limit = i.limit }

  apply_all-Holds :
      (s : Scheduler) (events : List Event)
      → All (λ e. Spares d e ⊎ (n ≡ 0)) events
      → IsOpen d n most s
      → IsOpen d n most (apply_all s events)
  unfolding apply_all
  apply_all-Holds s [] c i = i
  apply_all-Holds s (e ∷ rest) c i = apply_all-Holds (apply s e) rest c.1 (apply-Holds s e c.0 i)

  admit_refuses :
      (s : Scheduler) (url : Text) (depth now : ℕ)
      → u.netloc url ≡ d
      → most ≤ n
      → IsOpen d n most s
      → (admit s url depth now).0 ≡ false
  unfolding admit
  admit_refuses s url depth now same full i =
      elim (Bool-cases (ltb 0 s.max_depth && ltb s.max_depth depth)) [
        | inl deep ↦ rw deep refl
        | inr fine ↦
            let ds = prune_stale_domains domain_prune_threshold now s.domains in
            let h = prune-Holds d n domain_prune_threshold now s.domains i.holds in
            let enough : n ≤ (or_new (lookup (u.netloc url) ds)).pending_count =
              subst (λ f. n ≤ pending f ds) (sym same) h.at_least in
            let e : leb s.pending_per_domain (or_new (lookup (u.netloc url) ds)).pending_count
                ≡ true =
              ground (arith, enough, full, i.limit) in
            rw (fine, e) refl
      ]

any_events :
    {n : ℕ} → n ≡ 0 → (S : Event → Type 0) (events : List Event) → All (λ e. S e ⊎ (n ≡ 0)) events
any_events z S [] = tt
any_events z S (e ∷ rest) = (inr z, any_events z S rest)

sparing_events :
    (n : ℕ) (S : Event → Type 0) (events : List Event)
    → All S events
    → All (λ e. S e ⊎ (n ≡ 0)) events
sparing_events n S [] a = tt
sparing_events n S (e ∷ rest) a = (inl a.0, sparing_events n S rest a.1)

-- A domain that has as many pending URLs as the limit, after any steps of coroutines and other calls,
-- accepts no URL as long as none of its URLs is marked as done or as failed, whatever else happens:
-- also where get_url has taken its URLs from the queue and is cancelled in its sleep, so that nobody
-- is left to mark them.
pub full_domain_closed :
    ⦃u : UrlParse⦄
    → (politeness_delay urls_per_hour pending_per_domain max_depth start : ℕ)
      (before after : List Event) (url : Text) (depth now : ℕ)
    → pending_per_domain
      ≤ (or_new (
          lookup
            (u.netloc url)
            (apply_all
              (new_scheduler politeness_delay urls_per_hour pending_per_domain max_depth start)
              before).domains)).pending_count
    → All (Spares (u.netloc url)) after
    → (admit
        (apply_all
          (apply_all
            (new_scheduler politeness_delay urls_per_hour pending_per_domain max_depth start)
            before)
          after)
        url
        depth
        now).0
      ≡ false
full_domain_closed ⦃u⦄ politeness_delay urls_per_hour most max_depth start before after url depth
      now full spared =
    let d = u.netloc url in
    let made = new_scheduler politeness_delay urls_per_hour most max_depth start in
    let s = apply_all made before in
    let n = pending d s.domains in
    let first =
      apply_all-Holds d 0 most made before (any_events refl (Spares d) before)
        (record { holds = record { unique = tt; at_least = omega arith }; limit = refl }) in
    let then_full : IsOpen d n most s = record {
      holds = record { unique = first.holds.unique; at_least = omega arith };
      limit = first.limit;
    } in
    admit_refuses d n most (apply_all s after) url depth now refl full
      (apply_all-Holds d n most s after (sparing_events n (Spares d) after spared) then_full)
