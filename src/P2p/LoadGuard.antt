-- ===== src/P2p/LoadGuard.antt =====
-- infomesh/p2p/load_guard.py: the limits on queries per minute and on queries at one time. A time
-- is a natural number of seconds; what the clock reads is an argument.
pub mod Log
pub mod Steps
pub mod Limits
pub mod Counts
mod Tests
use infomesh.Prelude.{
  ℕ, zero, suc, ◌+◌, ◌-◌, Bool, true, false, ◌||◌, Option, none, some, List, [], ◌∷◌, ◌++◌, ltb,
  leb, if◌then◌else◌, length, take, Text, text_eq,
}
use infomesh.Prelude.Dict.{Dict, lookup, insert, erase}

abbrev pub max_queries_per_minute : ℕ
max_queries_per_minute = 30

abbrev pub max_concurrent_queries : ℕ
max_concurrent_queries = 5

abbrev pub overload_retry_ms : ℕ
overload_retry_ms = 5000

pub record LoadGuardStats : Type 0 where
  pub accepted : ℕ
  pub rejected : ℕ
  pub concurrent : ℕ
  pub queries_this_minute : ℕ
  pub is_overloaded : Bool

abbrev pub no_stats : LoadGuardStats
no_stats = record {
  accepted = 0;
  rejected = 0;
  concurrent = 0;
  queries_this_minute = 0;
  is_overloaded = false;
}

pub record NodeLoadGuard : Type 0 where
  pub max_qpm : ℕ
  pub max_concurrent : ℕ
  pub concurrent : ℕ
  pub timestamps : List ℕ
  pub stats : LoadGuardStats
  pub peer_counts : Dict Text ℕ
  pub max_tracked_peers : ℕ

abbrev pub new_guard : ℕ → ℕ → NodeLoadGuard
new_guard max_qpm max_concurrent = record {
  max_qpm = max_qpm;
  max_concurrent = max_concurrent;
  concurrent = 0;
  timestamps = [];
  stats = no_stats;
  peer_counts = [];
  max_tracked_peers = 10000;
}

-- `while timestamps and timestamps[0] < now - 60.0: timestamps.popleft()`
pub drop_old : ℕ → List ℕ → List ℕ
drop_old now [] = []
drop_old now (t ∷ ts) = if ltb (t + 60) now then drop_old now ts else t ∷ ts

abbrev pub prune_old_timestamps : NodeLoadGuard → ℕ → NodeLoadGuard
prune_old_timestamps g now = record g { timestamps = drop_old now g.timestamps }

-- `d.get(peer_id, 0)`
abbrev pub or_zero : Option ℕ → ℕ
or_zero none = 0
or_zero (some n) = n

-- the test of `is_overloaded`, after its pruning
abbrev pub at_limit : NodeLoadGuard → Bool
at_limit g = leb g.max_concurrent g.concurrent || leb g.max_qpm (length g.timestamps)

pub is_overloaded : NodeLoadGuard → ℕ → Bool × NodeLoadGuard
is_overloaded g now = let g' = prune_old_timestamps g now in (at_limit g', g')

abbrev pub reject : NodeLoadGuard → NodeLoadGuard
reject g = record g { stats = record g.stats { rejected = g.stats.rejected + 1 } }

abbrev pub count_peer : Text → ℕ → Dict Text ℕ → Dict Text ℕ
count_peer peer_id max_tracked_peers counts =
    if ltb (length counts) max_tracked_peers
    then insert peer_id (or_zero (lookup peer_id counts) + 1) counts
    else counts

-- the acceptance in `try_acquire`
abbrev pub accept : NodeLoadGuard → Text → ℕ → NodeLoadGuard
accept g peer_id now = record g {
  timestamps = g.timestamps ++ now ∷ [];
  concurrent = g.concurrent + 1;
  stats = record g.stats { accepted = g.stats.accepted + 1 };
  peer_counts = count_peer peer_id g.max_tracked_peers g.peer_counts;
}

-- `cut` is the reading of the clock for the pruning, `now` the one for the new entry.
pub try_acquire : NodeLoadGuard → Text → ℕ → ℕ → Bool × NodeLoadGuard
try_acquire g peer_id cut now =
    let g' = prune_old_timestamps g cut in
    if leb g'.max_qpm (length g'.timestamps)
    then (false, reject g')
    else if leb g'.max_concurrent g'.concurrent
    then (false, reject g')
    else (true, accept g' peer_id now)

-- `if self._concurrent > 0: self._concurrent -= 1`
pub release : NodeLoadGuard → NodeLoadGuard
release g = if ltb 0 g.concurrent then record g { concurrent = g.concurrent - 1 } else g

-- `sorted(counts.items(), key=lambda x: x[1])`, which is stable
pub place : Text × ℕ → Dict Text ℕ → Dict Text ℕ
place x [] = x ∷ []
place x (y ∷ ys) = if leb x.1 y.1 then x ∷ y ∷ ys else y ∷ place x ys

pub sorted_by_count : Dict Text ℕ → Dict Text ℕ
sorted_by_count [] = []
sorted_by_count (x ∷ xs) = place x (sorted_by_count xs)

pub delete_all : Dict Text ℕ → Dict Text ℕ → Dict Text ℕ
delete_all [] counts = counts
delete_all ((pid, cnt) ∷ rest) counts = delete_all rest (erase pid counts)

pub evict_least_active : ℕ → Dict Text ℕ → Dict Text ℕ
evict_least_active max_tracked_peers counts =
    if ltb max_tracked_peers (length counts)
    then delete_all (take (length counts - max_tracked_peers) (sorted_by_count counts)) counts
    else counts

-- The clock is read once here, and once more in `is_overloaded`.
pub update_stats : NodeLoadGuard → ℕ → ℕ → NodeLoadGuard
update_stats g now later =
    let g' : NodeLoadGuard = record (prune_old_timestamps g now) {
      peer_counts = evict_least_active g.max_tracked_peers g.peer_counts;
    } in
    let (overloaded, g'') = is_overloaded g' later in
    record g'' {
      stats = record g''.stats {
        concurrent = g.concurrent;
        queries_this_minute = length g'.timestamps;
        is_overloaded = overloaded;
      };
    }

pub stats : NodeLoadGuard → ℕ → ℕ → LoadGuardStats × NodeLoadGuard
stats g now later = let g' = update_stats g now later in (g'.stats, g')

pub record RejectInfo : Type 0 where
  pub retry_after_ms : ℕ
  pub concurrent : ℕ
  pub qpm : ℕ

abbrev pub get_reject_info : NodeLoadGuard → RejectInfo
get_reject_info g = record {
  retry_after_ms = overload_retry_ms;
  concurrent = g.concurrent;
  qpm = length g.timestamps;
}

pub peer_query_count : NodeLoadGuard → Text → ℕ
peer_query_count g peer_id = or_zero (lookup peer_id g.peer_counts)

pub reset : NodeLoadGuard → NodeLoadGuard
reset g = record g { concurrent = 0; timestamps = []; peer_counts = []; stats = no_stats }
