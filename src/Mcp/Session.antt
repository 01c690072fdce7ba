-- ===== src/Mcp/Session.antt =====
-- infomesh/mcp/session.py: conversational sessions, counters, and the registry of webhooks. A time is a
-- natural number of seconds, and what the clock reads is an argument.
pub mod Store
pub mod Opened
pub mod Webhooks
mod Tests
use infomesh.Prelude.{
  ℕ, zero, suc, ◌+◌, Bool, true, false, not, Option, none, some, List, [], ◌∷◌, ◌++◌, ltb, leb,
  if◌then◌else◌, length, null, Text, text_eq, ◌==◌,
}
use infomesh.Prelude.Dict.{Dict, lookup, insert, erase}
use infomesh.Prelude.Result.{Result, ok, err, ◌>>=◌}

abbrev pub session_max_size : ℕ
session_max_size = 1000

abbrev pub session_ttl_seconds : ℕ
session_ttl_seconds = 3600

abbrev pub webhook_max_registrations : ℕ
webhook_max_registrations = 20

pub record SearchSession : Type 0 where
  pub last_query : Text
  pub last_results : Text
  pub updated_at : ℕ

abbrev pub new_session : SearchSession
new_session = record { last_query = []; last_results = []; updated_at = 0 }

-- `min` of an empty sequence raises ValueError.
pub data StoreError : Type 0 where
  value_error : StoreError

pub record SessionStore : Type 0 where
  pub sessions : Dict Text SearchSession
  pub max_size : ℕ
  pub ttl : ℕ

abbrev pub new_store : ℕ → ℕ → SessionStore
new_store max_size ttl = record { sessions = []; max_size = max_size; ttl = ttl }

-- `now - session.updated_at >= ttl`
abbrev pub expired : ℕ → ℕ → SearchSession → Bool
expired now ttl session = leb (session.updated_at + ttl) now

pub expired_ids : ℕ → ℕ → Dict Text SearchSession → List Text
expired_ids now ttl [] = []
expired_ids now ttl ((k, v) ∷ rest) =
    let others = expired_ids now ttl rest in if expired now ttl v then k ∷ others else others

pub delete_ids : List Text → Dict Text SearchSession → Dict Text SearchSession
delete_ids [] d = d
delete_ids (k ∷ ks) d = delete_ids ks (erase k d)

pub evict : ℕ → ℕ → Dict Text SearchSession → Dict Text SearchSession
evict now ttl d = delete_ids (expired_ids now ttl d) d

-- `min(d, key=lambda k: d[k].updated_at)`: the first of the least, from a first candidate on
pub oldest_from : Text × SearchSession → Dict Text SearchSession → Text
oldest_from best [] = best.0
oldest_from best (x ∷ rest) =
    let moved = oldest_from x rest in
    let kept = oldest_from best rest in if ltb x.1.updated_at best.1.updated_at then moved else kept

pub oldest_key : Dict Text SearchSession → Result StoreError Text
oldest_key [] = err value_error
oldest_key (x ∷ rest) = ok (oldest_from x rest)

-- `self._sessions[session_id] = SearchSession()`
abbrev pub with_new : SessionStore → Text → Dict Text SearchSession → SearchSession × SessionStore
with_new s session_id d = (new_session, record s { sessions = insert session_id new_session d })

-- the last part of `get_or_create`, from the test of the size on
pub create : SessionStore → Text → ℕ → Result StoreError (SearchSession × SessionStore)
create s session_id now =
    let d =
      (if leb s.max_size (length s.sessions) then evict now s.ttl s.sessions else s.sessions) in
    if leb s.max_size (length d)
    then (oldest_key d >>= λ k. ok (with_new s session_id (erase k d)))
    else ok (with_new s session_id d)

pub get_or_create : SessionStore → Text → ℕ → Result StoreError (SearchSession × SessionStore)
get_or_create s session_id now = elim (lookup session_id s.sessions) [
  | none ↦ create s session_id now
  | some existing ↦
      if not (expired now s.ttl existing)
      then ok (existing, s)
      else create (record s { sessions = erase session_id s.sessions }) session_id now
]

-- The update of a session after a search, in handlers.py: the object that get_or_create returned
-- is the one in the dictionary. `results` is the text that the handler has cut already.
pub remember : SessionStore → Text → Text → Text → ℕ → ℕ → Result StoreError SessionStore
remember s session_id query results now later = get_or_create s session_id now >>= λ found.
    let session : SearchSession = record {
      last_query = query;
      last_results = results;
      updated_at = later;
    } in
    ok (record found.1 { sessions = insert session_id session found.1.sessions })

pub record AnalyticsTracker : Type 0 where
  pub total_searches : ℕ
  pub total_crawls : ℕ
  pub total_fetches : ℕ
  pub latency_sum : ℕ

abbrev pub record_search : AnalyticsTracker → ℕ → AnalyticsTracker
record_search a latency_ms = record a {
  total_searches = a.total_searches + 1;
  latency_sum = a.latency_sum + latency_ms;
}

abbrev pub record_crawl : AnalyticsTracker → AnalyticsTracker
record_crawl a = record a { total_crawls = a.total_crawls + 1 }

abbrev pub record_fetch : AnalyticsTracker → AnalyticsTracker
record_fetch a = record a { total_fetches = a.total_fetches + 1 }

pub record WebhookRegistry : Type 0 where
  pub urls : List Text
  pub max_registrations : ℕ

-- The two error texts of `register`.
pub data WebhookError : Type 0 where
  blocked : Text → WebhookError
  max_webhooks : ℕ → WebhookError

pub member : Text → List Text → Bool
member x [] = false
member x (y ∷ ys) = if x == y then true else member x ys

-- `is_safe url` is false where `validate_url(url)` raises SSRFError.
pub register : (Text → Bool) → WebhookRegistry → Text → Option WebhookError × WebhookRegistry
register is_safe w url =
    if not (is_safe url)
    then (some (blocked url), w)
    else if member url w.urls
    then (none, w)
    else if leb w.max_registrations (length w.urls)
    then (some (max_webhooks w.max_registrations), w)
    else (none, record w { urls = w.urls ++ url ∷ [] })

-- `self._urls.remove(url)`, which removes the first one
pub remove_first : Text → List Text → List Text
remove_first x [] = []
remove_first x (y ∷ ys) = if x == y then ys else y ∷ remove_first x ys

pub unregister : WebhookRegistry → Text → Bool × WebhookRegistry
unregister w url =
    if member url w.urls then (true, record w { urls = remove_first url w.urls }) else (false, w)

-- The sum of what the posts return: `post url` is whether the delivery to `url` succeeded.
pub notify : (Text → Bool) → List Text → ℕ
notify post [] = 0
notify post (url ∷ urls) = (if post url then 1 else 0) + notify post urls
