-- ===== src/Search/QueryCache/History.antt =====
-- infomesh/search/cache.py: sequences of calls, and what they last put for each key.
use infomesh.Prelude.{ℕ, ◌+◌, List, [], ◌∷◌, Text, text_eq}
use infomesh.Prelude.Dict.{Dict, insert, erase}
use infomesh.Prelude.Hash.{Sha256}
use infomesh.Prelude.Result.{Result, ok, err}
use infomesh.Search.QueryCache.{
  CacheError, QueryCache, make_key, get, put, invalidate, clear, evict_expired,
}

-- One call, with the reading of the clock where there is one.
pub data Event (R : Type 0) : Type 0 where
  asked : Text → ℕ → ℕ → Event R
  stored : Text → ℕ → R → ℕ → Event R
  invalidated : Text → ℕ → Event R
  swept : ℕ → Event R
  cleared : Event R

module _ {R : Type 0} ⦃h : Sha256⦄ where
  abbrev pub after_put : QueryCache R → Result CacheError (QueryCache R) → QueryCache R
  after_put c (ok c') = c'
  after_put c (err e) = c

  unfoldable pub apply : QueryCache R → Event R → QueryCache R
  apply c (asked query limit now) = (get c query limit now).1
  apply c (stored query limit results now) = after_put c (put c query limit results now)
  apply c (invalidated query limit) = (invalidate c query limit).1
  apply c (swept now) = (evict_expired c now).1
  apply c cleared = clear c

  unfoldable pub apply_all : QueryCache R → List (Event R) → QueryCache R
  apply_all c [] = c
  apply_all c (e ∷ rest) = apply_all (apply c e) rest

  -- The results that were last put for each key, with their times, less the keys that were dropped.
  unfoldable pub latest : Dict Text (R × ℕ) → Event R → Dict Text (R × ℕ)
  latest log (asked query limit now) = log
  latest log (stored query limit results now) = insert (make_key query limit) (results, now) log
  latest log (invalidated query limit) = erase (make_key query limit) log
  latest log (swept now) = log
  latest log cleared = []

  unfoldable pub latest_all : Dict Text (R × ℕ) → List (Event R) → Dict Text (R × ℕ)
  latest_all log [] = log
  latest_all log (e ∷ rest) = latest_all (latest log e) rest

  abbrev pub asks : Event R → ℕ
  asks (asked query limit now) = 1
  asks _ = 0

  unfoldable pub asked_count : List (Event R) → ℕ
  asked_count [] = 0
  asked_count (e ∷ rest) = asks e + asked_count rest
