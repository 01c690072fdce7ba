-- ===== src/Crawler/Scheduler.antt =====
-- infomesh/crawler/scheduler.py: the queue of URLs, with its limits per domain and per hour. A time is a
-- natural number of seconds, and what the clock reads is an argument. A coroutine is a sequence of
-- steps, one from each `await` to the next, between which other coroutines may run.
pub mod Pending
pub mod Steps
pub mod Take
pub mod Limits
pub mod Kept
mod Tests
use infomesh.Prelude.{
  ℕ, zero, suc, ◌+◌, ◌-◌, Bool, true, false, ◌&&◌, Option, none, some, List, [], ◌∷◌, ◌++◌, ltb,
  leb, if◌then◌else◌, min, max, length, Text, text_eq, ◌==◌, nat_eq,
}
use infomesh.Prelude.Dict.{Dict, lookup, insert, erase}
use infomesh.Prelude.Result.Partial.{◌>>=◌}

-- `urlparse(url).netloc`
pub record UrlParse : Type 0 where
  pub netloc : Text → Text

pub record DomainState : Type 0 where
  pub last_request_at : ℕ
  pub pending_count : ℕ
  pub error_count : ℕ
  pub crawl_delay : Option ℕ

abbrev pub new_domain : DomainState
new_domain = record { last_request_at = 0; pending_count = 0; error_count = 0; crawl_delay = none }

abbrev pub max_tracked_domains : ℕ
max_tracked_domains = 50000

-- `int(_MAX_TRACKED_DOMAINS * 0.8)`
abbrev pub domain_prune_threshold : ℕ
domain_prune_threshold = 40000

abbrev pub domain_stale_seconds : ℕ
domain_stale_seconds = 3600

abbrev pub queue_size : ℕ
queue_size = 10000

pub record Scheduler : Type 0 where
  pub politeness_delay : ℕ
  pub urls_per_hour : ℕ
  pub pending_per_domain : ℕ
  pub max_depth : ℕ
  pub domains : Dict Text DomainState
  pub queue : List (Text × ℕ)
  pub hourly_count : ℕ
  pub hour_start : ℕ

abbrev pub new_scheduler : ℕ → ℕ → ℕ → ℕ → ℕ → Scheduler
new_scheduler politeness_delay urls_per_hour pending_per_domain max_depth now = record {
  politeness_delay = politeness_delay;
  urls_per_hour = urls_per_hour;
  pending_per_domain = pending_per_domain;
  max_depth = max_depth;
  domains = [];
  queue = [];
  hourly_count = 0;
  hour_start = now;
}

-- `self._domains[domain]`: a `defaultdict` gains an entry when a missing key is read.
abbrev pub or_new : Option DomainState → DomainState
or_new none = new_domain
or_new (some state) = state

pub stale_domains : ℕ → Dict Text DomainState → List Text
stale_domains now [] = []
stale_domains now ((d, s) ∷ rest) =
    let others = stale_domains now rest in
    if ltb (s.last_request_at + domain_stale_seconds) now && s.pending_count == 0
    then d ∷ others
    else others

pub delete_domains : List Text → Dict Text DomainState → Dict Text DomainState
delete_domains [] ds = ds
delete_domains (d ∷ rest) ds = delete_domains rest (erase d ds)

pub prune_stale_domains : ℕ → ℕ → Dict Text DomainState → Dict Text DomainState
prune_stale_domains threshold now ds =
    if leb (length ds) threshold then ds else delete_domains (stale_domains now ds) ds

-- `add_url` up to its `await`: whether the URL is to be put into the queue.
pub admit : ⦃u : UrlParse⦄ → Scheduler → Text → ℕ → ℕ → Bool × Scheduler
admit ⦃u⦄ s url depth now =
    if ltb 0 s.max_depth && ltb s.max_depth depth
    then (false, s)
    else let domains = prune_stale_domains domain_prune_threshold now s.domains in
      let domain = u.netloc url in
      let state = or_new (lookup domain domains) in
      if leb s.pending_per_domain state.pending_count
      then (false, record s { domains = insert domain state domains })
      else let state' : DomainState = record state { pending_count = state.pending_count + 1 } in
        (true, record s { domains = insert domain state' domains })

-- `await self._queue.put(...)`: none while the queue is full and the coroutine waits.
pub enqueue : Scheduler → Text → ℕ → Option Scheduler
enqueue s url depth =
    if leb queue_size (length s.queue)
    then none
    else some (record s { queue = s.queue ++ (url, depth) ∷ [] })

-- `add_url` where nothing runs in between; none where it waits.
pub add_url : ⦃u : UrlParse⦄ → Scheduler → Text → ℕ → ℕ → Option (Bool × Scheduler)
add_url s url depth now =
    let (added, s') = admit s url depth now in
    if added then (enqueue s' url depth >>= λ s''. some (true, s'')) else some (false, s')

abbrev pub set_urls_per_hour : Scheduler → ℕ → Scheduler
set_urls_per_hour s limit = record s { urls_per_hour = limit }

pub set_crawl_delay : Scheduler → Text → ℕ → Scheduler
set_crawl_delay s domain delay =
    let state : DomainState = record (or_new (lookup domain s.domains)) {
      crawl_delay = some (min delay 60);
    } in
    record s { domains = insert domain state s.domains }

abbrev pub delay_of : Scheduler → DomainState → ℕ
delay_of s state = elim state.crawl_delay [ none ↦ s.politeness_delay | some delay ↦ delay ]

-- `get_url` up to its first sleep: the URL, and how long to sleep; none while the queue is empty.
pub dequeue : ⦃u : UrlParse⦄ → Scheduler → ℕ → Option ((Text × ℕ × ℕ) × Scheduler)
dequeue ⦃u⦄ s now = elim s.queue [
  | [] ↦ none
  | (url, depth) ∷ rest ↦
      let domain = u.netloc url in
      let state = or_new (lookup domain s.domains) in
      some (
        (url, depth, (state.last_request_at + delay_of s state) - now),
        record s { domains = insert domain state s.domains; queue = rest },
      )
]

pub refresh_hour : Scheduler → ℕ → Scheduler
refresh_hour s now =
    if leb (s.hour_start + 3600) now
    then record s {
      hourly_count = 0;
      hour_start = now;
      domains = prune_stale_domains max_tracked_domains now s.domains;
    }
    else s

-- A write to the state that `dequeue` found, which is lost where the domain has been pruned since. Where
-- the domain has also been added again, the code still writes to the old object, and the model to the
-- new one.
pub write_request : Text → ℕ → Dict Text DomainState → Dict Text DomainState
write_request domain now ds = elim (lookup domain ds) [
  | none ↦ ds
  | some state ↦ insert domain (record state { last_request_at = now }) ds
]

-- `get_url` from its first sleep on: the URL is returned, or goes back to the queue and the
-- coroutine sleeps for the rest of the hour. `later` is the reading of the clock after the test.
pub data Turn : Type 0 where
  returned : Text → ℕ → Turn
  put_back : Text → ℕ → ℕ → Turn

pub finish : ⦃u : UrlParse⦄ → Scheduler → Text → ℕ → ℕ → ℕ → Turn × Scheduler
finish ⦃u⦄ s url depth now later =
    let s' : Scheduler = (if ltb 0 s.urls_per_hour then refresh_hour s now else s) in
    if ltb 0 s.urls_per_hour && leb s.urls_per_hour s'.hourly_count
    then (put_back url depth (max ((s'.hour_start + 3600) - later) 1), s')
    else (
      returned url depth,
      record s' {
        domains = write_request (u.netloc url) later s'.domains;
        hourly_count = (if ltb 0 s.urls_per_hour then s'.hourly_count + 1 else s'.hourly_count);
      },
    )

pub mark_done : ⦃u : UrlParse⦄ → Scheduler → Text → ℕ → Scheduler
mark_done ⦃u⦄ s url now = elim (lookup (u.netloc url) s.domains) [
  | none ↦ s
  | some state ↦
      let state' : DomainState = record state { pending_count = state.pending_count - 1 } in
      record s {
        domains =
            prune_stale_domains domain_prune_threshold now (insert (u.netloc url) state' s.domains);
      }
]

pub mark_error : ⦃u : UrlParse⦄ → Scheduler → Text → ℕ → Scheduler
mark_error ⦃u⦄ s url now = elim (lookup (u.netloc url) s.domains) [
  | none ↦ s
  | some state ↦
      let state' : DomainState = record state { error_count = state.error_count + 1 } in
      mark_done (record s { domains = insert (u.netloc url) state' s.domains }) url now
]

abbrev pub pending_count : Scheduler → ℕ
pending_count s = length s.queue
