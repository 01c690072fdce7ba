-- ===== src/Crawler/Scheduler/Limits.antt =====
-- infomesh/crawler/scheduler.py: the limits, under every interleaving of the coroutines' steps.
pub mod Closed
use infomesh.Prelude.{
  ℕ, ◌≤◌, ◌≡◌, refl, Option, none, some, List, [], ◌∷◌, arith, length, Text, text_eq, nat_eq,
  Option-cases, inl, inr,
}
use infomesh.Prelude.Dict.{lookup}
use infomesh.Crawler.Scheduler.{
  UrlParse, Scheduler, new_scheduler, or_new, admit, enqueue, set_urls_per_hour, set_crawl_delay,
  dequeue, finish, mark_done, mark_error,
}
use infomesh.Crawler.Scheduler.Steps.{
  IsLimited, admit-IsLimited, enqueue-IsLimited, mark_done-IsLimited, mark_error-IsLimited,
  set_crawl_delay-IsLimited, finish-IsLimited,
}
use infomesh.Crawler.Scheduler.Take.{dequeue_head, dequeue_empty, taken-IsLimited}

-- One step of some coroutine, or a call that is not one. A step that has to wait changes nothing.
pub data Event : Type 0 where
  admitted : Text → ℕ → ℕ → Event
  enqueued : Text → ℕ → Event
  dequeued : ℕ → Event
  finished : Text → ℕ → ℕ → ℕ → Event
  done failed : Text → ℕ → Event
  delayed : Text → ℕ → Event
  limited : ℕ → Event

-- No limit per hour above `hourly` is set.
abbrev pub LimitedBy : ℕ → List Event → Type 0
LimitedBy hourly [] = Unit
LimitedBy hourly (limited limit ∷ rest) = (limit ≤ hourly) × LimitedBy hourly rest
LimitedBy hourly (_ ∷ rest) = LimitedBy hourly rest

module _ ⦃u : UrlParse⦄ where
  abbrev or_same : {A : Type 0} → Scheduler → Option (A × Scheduler) → Scheduler
  or_same s none = s
  or_same s (some (x, s')) = s'

  abbrev or_waiting : Scheduler → Option Scheduler → Scheduler
  or_waiting s none = s
  or_waiting s (some s') = s'

  unfoldable pub apply : Scheduler → Event → Scheduler
  apply s (admitted url depth now) = (admit s url depth now).1
  apply s (enqueued url depth) = or_waiting s (enqueue s url depth)
  apply s (dequeued now) = or_same s (dequeue s now)
  apply s (finished url depth now later) = (finish s url depth now later).1
  apply s (done url now) = mark_done s url now
  apply s (failed url now) = mark_error s url now
  apply s (delayed domain delay) = set_crawl_delay s domain delay
  apply s (limited limit) = set_urls_per_hour s limit

  unfoldable pub apply_all : Scheduler → List Event → Scheduler
  apply_all s [] = s
  apply_all s (e ∷ rest) = apply_all (apply s e) rest

  or_same-IsLimited :
      (pending hourly : ℕ) (s : Scheduler) (now : ℕ)
      → IsLimited pending hourly s
      → IsLimited pending hourly (or_same s (dequeue s now))
  or_same-IsLimited pending hourly s now w = go s.queue refl
    where
      go :
          (q : List (Text × ℕ)) → s.queue ≡ q → IsLimited pending hourly (or_same s (dequeue s now))
      go [] e = rw (dequeue_empty s now e) w
      go ((url, depth) ∷ rest) e =
          rw (dequeue_head s now url depth rest e)
            (taken-IsLimited pending hourly s url depth rest e w)

  or_waiting-IsLimited :
      (pending hourly : ℕ) (s : Scheduler) (url : Text) (depth : ℕ)
      → IsLimited pending hourly s
      → IsLimited pending hourly (or_waiting s (enqueue s url depth))
  or_waiting-IsLimited pending hourly s url depth w = elim (Option-cases (enqueue s url depth)) [
    | inl waits ↦ rw waits w
    | inr (s', e) ↦ rw e (enqueue-IsLimited pending hourly s s' url depth e w)
  ]

  apply-IsLimited :
      (pending hourly : ℕ) (s : Scheduler) (e : Event) (rest : List Event)
      → LimitedBy hourly (e ∷ rest)
      → IsLimited pending hourly s
      → IsLimited pending hourly (apply s e) × LimitedBy hourly rest
  unfolding apply
  apply-IsLimited pending hourly s (admitted url depth now) rest l w =
      (admit-IsLimited pending hourly s url depth now w, l)
  apply-IsLimited pending hourly s (enqueued url depth) rest l w =
      (or_waiting-IsLimited pending hourly s url depth w, l)
  apply-IsLimited pending hourly s (dequeued now) rest l w =
      (or_same-IsLimited pending hourly s now w, l)
  apply-IsLimited pending hourly s (finished url depth now later) rest l w =
      (finish-IsLimited pending hourly s url depth now later w, l)
  apply-IsLimited pending hourly s (done url now) rest l w =
      (mark_done-IsLimited pending hourly s url now w, l)
  apply-IsLimited pending hourly s (failed url now) rest l w =
      (mark_error-IsLimited pending hourly s url now w, l)
  apply-IsLimited pending hourly s (delayed domain delay) rest l w =
      (set_crawl_delay-IsLimited pending hourly s domain delay w, l)
  apply-IsLimited pending hourly s (limited limit) rest l w = (
    record {
      set_pending = w.set_pending;
      polite = w.polite;
      queued = w.queued;
      set_hourly = l.0;
      counted = w.counted;
    },
    l.1,
  )

  all-IsLimited :
      (pending hourly : ℕ) (s : Scheduler) (events : List Event)
      → LimitedBy hourly events
      → IsLimited pending hourly s
      → IsLimited pending hourly (apply_all s events)
  unfolding apply_all
  all-IsLimited pending hourly s [] l w = w
  all-IsLimited pending hourly s (e ∷ rest) l w =
      let (w', l') = apply-IsLimited pending hourly s e rest l w in
      all-IsLimited pending hourly (apply s e) rest l' w'

  -- Whatever steps of coroutines and other calls follow each other: no domain has more pending URLs than
  -- the limit, the queue has at most 10 000 entries, and no more URLs are counted in an hour than the
  -- highest limit that was set.
  pub limits_kept :
      (politeness_delay urls_per_hour pending_per_domain max_depth start hourly : ℕ)
      (events : List Event)
      → urls_per_hour ≤ hourly
      → LimitedBy hourly events
      → let s =
          apply_all
            (new_scheduler politeness_delay urls_per_hour pending_per_domain max_depth start)
            events in
        ((d : Text) → (or_new (lookup d s.domains)).pending_count ≤ pending_per_domain)
        × (length s.queue ≤ 10000)
        × (s.hourly_count ≤ hourly)
  limits_kept politeness_delay urls_per_hour pending max_depth start hourly events l b =
      let w =
        all-IsLimited pending hourly
          (new_scheduler politeness_delay urls_per_hour pending max_depth start) events b
          (record {
            set_pending = refl;
            polite = record { at = λ d. unfold lookup in omega arith };
            queued = omega arith;
            set_hourly = l;
            counted = omega arith;
          }) in
      (w.polite.at, w.queued, w.counted)
