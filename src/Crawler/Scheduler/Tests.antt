-- ===== src/Crawler/Scheduler/Tests.antt =====
-- infomesh/crawler/scheduler.py for two pages of one domain.
use infomesh.Prelude.{
  false, ℕ, ◌≤◌, ◌≡◌, refl, true, some, List, [], ◌∷◌, arith, length, take, Text, bytes, text_eq,
}
use infomesh.Prelude.Dict.{lookup, insert}
use infomesh.Crawler.Scheduler.{
  UrlParse, new_domain, Scheduler, new_scheduler, or_new, add_url, admit, enqueue, dequeue,
  prune_stale_domains,
}
use infomesh.Crawler.Scheduler.Limits.{
  Event, apply, admitted, enqueued, dequeued, finished, done, limited, apply_all, limits_kept,
}
use infomesh.Crawler.Scheduler.Limits.Closed.{full_domain_closed}

-- The domain is the first three characters.
instance abbrev short_names : UrlParse
short_names = record { netloc = take 3 }

abbrev page : Text
page = bytes "a.b/1"

abbrev waiting : Scheduler
waiting = record (new_scheduler 1 60 1 0 0) {
  domains =
      (
        bytes "a.b",
        record new_domain { last_request_at = 90; pending_count = 1; crawl_delay = some 30 },
      )
      ∷ [];
  queue = (page, 0) ∷ [];
}

added :
    add_url (new_scheduler 1 60 1 0 0) page 0 5
    ≡ some (
      true,
      record (new_scheduler 1 60 1 0 0) {
        domains = (bytes "a.b", record new_domain { pending_count = 1 }) ∷ [];
        queue = (page, 0) ∷ [];
      },
    )
unfolding add_url admit enqueue prune_stale_domains lookup insert
added = refl

-- The sleep of 20 seconds is longer than the 5 seconds that the crawl loop waits for get_url, and
-- afterwards the domain is full and the queue empty.
cut_off :
    (wait : ℕ) × (s' : Scheduler) × (dequeue waiting 100 ≡ some ((page, 0, wait), s')) × (wait ≡ 20)
unfolding dequeue lookup insert
cut_off = (20, _, refl, refl)

abbrev calls : List Event
calls =
    admitted page 0 5
    ∷ enqueued page 0
    ∷ admitted (bytes "a.b/2") 0 6
    ∷ limited 30
    ∷ dequeued 7
    ∷ finished page 0 8 8
    ∷ done page 9
    ∷ []

limits_kept_example :
    let s = apply_all (new_scheduler 1 60 1 0 0) calls in
    ((d : Text) → (or_new (lookup d s.domains)).pending_count ≤ 1)
    × (length s.queue ≤ 10000)
    × (s.hourly_count ≤ 60)
limits_kept_example = limits_kept 1 60 1 0 0 60 calls (omega arith) (omega arith, tt)

abbrev queued : List Event
queued = admitted page 0 5 ∷ enqueued page 0 ∷ []

is_full :
    1
    ≤ (or_new
        (lookup (bytes "a.b") (apply_all (new_scheduler 1 60 1 0 0) queued).domains)).pending_count
unfolding apply_all apply admit enqueue prune_stale_domains lookup insert
is_full = omega arith

-- The only page is taken, the call that took it is cancelled, and the domain stays closed.
full_domain_closed_example :
    (admit
      (apply_all (apply_all (new_scheduler 1 60 1 0 0) queued) (dequeued 7 ∷ []))
      (bytes "a.b/2")
      0
      7200).0
    ≡ false
full_domain_closed_example =
    full_domain_closed 1 60 1 0 0 queued (dequeued 7 ∷ []) (bytes "a.b/2") 0 7200 is_full (tt, tt)
