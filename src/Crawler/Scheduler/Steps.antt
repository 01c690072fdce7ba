-- ===== src/Crawler/Scheduler/Steps.antt =====
-- infomesh/crawler/scheduler.py: each step of a coroutine keeps the limits.
use infomesh.Prelude.{
  ℕ, ◌+◌, ◌-◌, ◌≤◌, ◌≡◌, subst, ◌&&◌, some, [], ◌∷◌, ◌++◌, arith, ltb, leb, length, length-append,
  Text, text_eq, nat_eq, Bool-cases, Option-cases, inl, inr,
}
use infomesh.Prelude.Dict.{Dict, lookup}
use infomesh.Crawler.Scheduler.{
  UrlParse, DomainState, Scheduler, or_new, prune_stale_domains, admit, enqueue, set_crawl_delay,
  refresh_hour, finish, mark_done, mark_error, domain_prune_threshold,
}
use infomesh.Crawler.Scheduler.Pending.{IsPolite, insert-IsPolite, prune-IsPolite, write-IsPolite}

-- The limits of a scheduler: per domain, of the queue, and per hour, as long as no more than `hourly`
-- URLs per hour are set.
pub record IsLimited (pending hourly : ℕ) (s : Scheduler) : Type 0 where
  pub set_pending : s.pending_per_domain ≡ pending
  pub polite : IsPolite pending s.domains
  pub queued : length s.queue ≤ 10000
  pub set_hourly : s.urls_per_hour ≤ hourly
  pub counted : s.hourly_count ≤ hourly

module _ ⦃u : UrlParse⦄ (pending hourly : ℕ) where
  pub admit-IsLimited :
      (s : Scheduler) (url : Text) (depth now : ℕ)
      → IsLimited pending hourly s
      → IsLimited pending hourly (admit s url depth now).1
  unfolding admit
  admit-IsLimited s url depth now w =
      elim (Bool-cases (ltb 0 s.max_depth && ltb s.max_depth depth)) [
        | inl deep ↦ rw deep w
        | inr fine ↦
            let ds = prune_stale_domains domain_prune_threshold now s.domains in
            let polite = prune-IsPolite pending domain_prune_threshold now s.domains w.polite in
            let d = u.netloc url in
            rw fine
              (elim (Bool-cases (leb s.pending_per_domain (or_new (lookup d ds)).pending_count)) [
                | inl full ↦ rw full (record {
                  set_pending = w.set_pending;
                  polite = insert-IsPolite pending d (or_new (lookup d ds)) ds (polite.at d) polite;
                  queued = w.queued;
                  set_hourly = w.set_hourly;
                  counted = w.counted;
                })
                | inr room ↦ rw room (record {
                  set_pending = w.set_pending;
                  polite = insert-IsPolite pending d _ ds (ground (arith, w.set_pending)) polite;
                  queued = w.queued;
                  set_hourly = w.set_hourly;
                  counted = w.counted;
                })
              ])
      ]

  pub enqueue-IsLimited :
      (s s' : Scheduler) (url : Text) (depth : ℕ)
      → enqueue s url depth ≡ some s'
      → IsLimited pending hourly s
      → IsLimited pending hourly s'
  unfolding enqueue
  enqueue-IsLimited s s' url depth e w = elim (Bool-cases (leb 10000 (length s.queue))) [
    | inl full ↦ absurd (ground arith)
    | inr room ↦
        let grown : record s { queue = s.queue ++ (url, depth) ∷ [] } ≡ s' = ground arith in
        subst (IsLimited pending hourly) grown (record {
          set_pending = w.set_pending;
          polite = w.polite;
          queued = ground (arith, length-append s.queue ((url, depth) ∷ []));
          set_hourly = w.set_hourly;
          counted = w.counted;
        })
  ]

  changed-IsLimited :
      (s : Scheduler) (ds : Dict Text DomainState)
      → IsPolite pending ds
      → IsLimited pending hourly s
      → IsLimited pending hourly (record s { domains = ds })
  changed-IsLimited s ds p w = record {
    set_pending = w.set_pending;
    polite = p;
    queued = w.queued;
    set_hourly = w.set_hourly;
    counted = w.counted;
  }

  refresh-IsLimited :
      (s : Scheduler) (now : ℕ)
      → IsLimited pending hourly s
      → IsLimited pending hourly (refresh_hour s now)
  unfolding refresh_hour
  refresh-IsLimited s now w = elim (Bool-cases (leb (s.hour_start + 3600) now)) [
    | inr same ↦ rw same w
    | inl new ↦ rw new (record {
      set_pending = w.set_pending;
      polite = prune-IsPolite pending 50000 now s.domains w.polite;
      queued = w.queued;
      set_hourly = w.set_hourly;
      counted = omega arith;
    })
  ]

  pub mark_done-IsLimited :
      (s : Scheduler) (url : Text) (now : ℕ)
      → IsLimited pending hourly s
      → IsLimited pending hourly (mark_done s url now)
  unfolding mark_done
  mark_done-IsLimited s url now w = elim (Option-cases (lookup (u.netloc url) s.domains)) [
    | inl absent ↦ rw (mark_done, absent) w
    | inr (state, there) ↦
        let le : state.pending_count ≤ pending =
          subst (λ o. (or_new o).pending_count ≤ pending) there (w.polite.at (u.netloc url)) in
        rw (mark_done, there)
          (changed-IsLimited s _
            (prune-IsPolite pending 40000 now _ (
              insert-IsPolite pending (u.netloc url)
                (record state { pending_count = state.pending_count - 1 }) s.domains
                (omega (arith, le)) w.polite))
            w)
  ]

  pub mark_error-IsLimited :
      (s : Scheduler) (url : Text) (now : ℕ)
      → IsLimited pending hourly s
      → IsLimited pending hourly (mark_error s url now)
  unfolding mark_error
  mark_error-IsLimited s url now w = elim (Option-cases (lookup (u.netloc url) s.domains)) [
    | inl absent ↦ rw (mark_error, absent) w
    | inr (state, there) ↦
        let le : state.pending_count ≤ pending =
          subst (λ o. (or_new o).pending_count ≤ pending) there (w.polite.at (u.netloc url)) in
        rw (mark_error, there)
          (mark_done-IsLimited _ url now (
            changed-IsLimited s _
              (insert-IsPolite pending (u.netloc url)
                (record state { error_count = state.error_count + 1 }) s.domains le w.polite)
              w))
  ]

  pub set_crawl_delay-IsLimited :
      (s : Scheduler) (domain : Text) (delay : ℕ)
      → IsLimited pending hourly s
      → IsLimited pending hourly (set_crawl_delay s domain delay)
  unfolding set_crawl_delay
  set_crawl_delay-IsLimited s domain delay w =
      changed-IsLimited s _
        (insert-IsPolite pending domain _ s.domains (w.polite.at domain) w.polite) w

  counted_up :
      (s : Scheduler) (ds : Dict Text DomainState) (count : ℕ)
      → IsPolite pending ds
      → count ≤ hourly
      → IsLimited pending hourly s
      → IsLimited pending hourly (record s { domains = ds; hourly_count = count })
  counted_up s ds count p l w = record {
    set_pending = w.set_pending;
    polite = p;
    queued = w.queued;
    set_hourly = w.set_hourly;
    counted = l;
  }

  pub finish-IsLimited :
      (s : Scheduler) (url : Text) (depth now later : ℕ)
      → IsLimited pending hourly s
      → IsLimited pending hourly (finish s url depth now later).1
  unfolding finish
  finish-IsLimited s url depth now later w = elim (Bool-cases (ltb 0 s.urls_per_hour)) [
    | inr unlimited ↦ rw unlimited (
        counted_up s _ s.hourly_count
          (write-IsPolite pending (u.netloc url) later s.domains w.polite) w.counted w)
    | inl limited ↦
        let s' = refresh_hour s now in
        let w' = refresh-IsLimited s now w in
        rw limited (elim (Bool-cases (leb s.urls_per_hour s'.hourly_count)) [
          | inl spent ↦ rw spent w'
          | inr left_over ↦ rw left_over (
              counted_up s' _ (s'.hourly_count + 1)
                (write-IsPolite pending (u.netloc url) later s'.domains w'.polite)
                (ground (arith, w.set_hourly)) w')
        ])
  ]
