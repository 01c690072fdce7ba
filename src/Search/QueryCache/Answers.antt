-- ===== src/Search/QueryCache/Answers.antt =====
-- infomesh/search/cache.py: what a query is answered with.
use infomesh.Prelude.{
  ℕ, ◌+◌, ◌≤◌, ◌<◌, ◌≡◌, ap, subst, Option, none, some, List, [], arith, ltb, if◌then◌else◌, length,
  Text, text_eq,
}
use infomesh.Prelude.Dict.{Dict, lookup, IsUnique}
use infomesh.Prelude.Hash.{Sha256}
use infomesh.Prelude.Result.{ok}
use infomesh.Search.QueryCache.{QueryCache, make_key, get, get_key, put, new_entry, new_cache}
use infomesh.Search.QueryCache.Entries.{IsCache, Got, missing, stale, fresh, get_key-Got}
use infomesh.Search.QueryCache.Stores.{put_key-Stored, Stored-IsCache, put_self}
use infomesh.Search.QueryCache.History.{Event, apply_all, latest_all, asked_count}
use infomesh.Search.QueryCache.Sound.{IsSound, apply_all-IsSound, made-IsSound, put_limits}

module _ {R : Type 0} ⦃h : Sha256⦄ where
  answer :
      (m ttl : ℕ) (c : QueryCache R) (log : Dict Text (R × ℕ)) (key : Text) (now : ℕ)
      (r : Option R × QueryCache R) (results : R)
      → Got c key now r
      → IsSound m ttl c log
      → r.0 ≡ some results
      → (time : ℕ) × (lookup key log ≡ some (results, time)) × (now ≤ time + ttl)
  answer m ttl c log key now r results (missing absent) s e = cc
  answer m ttl c log key now r results (stale entry found old) s e = cc
  answer m ttl c log key now r results (fresh entry found young) s e =
      let same : entry.results ≡ results = cc in
      (
        entry.timestamp,
        subst (λ x. lookup key log ≡ some (x, entry.timestamp)) same (s.logged key entry found),
        omega (arith, s.ttl_kept),
      )

  -- In a cache made with room for at least one entry, after any calls: when a query is answered from
  -- the cache, the results are those that were last put for its key, they were put at most `ttl`
  -- seconds ago, and the key was not invalidated and the cache not cleared since.
  pub get_sound :
      (max_size ttl : ℕ) (events : List (Event R)) (query : Text) (limit now : ℕ) (results : R)
      → 0 < max_size
      → (get (apply_all (new_cache R max_size ttl) events) query limit now).0 ≡ some results
      → (time : ℕ) × (lookup (make_key query limit) (latest_all [] events) ≡ some (results, time))
        × (now ≤ time + ttl)
  unfolding get
  get_sound max_size ttl events query limit now results p e =
      let (s, n) =
        apply_all-IsSound max_size ttl (new_cache R max_size ttl) [] events p
          (made-IsSound max_size ttl) in
      let c = apply_all (new_cache R max_size ttl) events in
      let key = make_key query limit in
      answer max_size ttl c (latest_all [] events) key now (get_key c key now) results
        (get_key-Got c key now) s e

  -- After any calls, a cache made with room for at least one entry holds at most `max_size` entries, none of
  -- two has the same key, and its hits and misses add up to the number of queries it was asked.
  pub cache_bounded :
      (max_size ttl : ℕ) (events : List (Event R))
      → 0 < max_size
      → let c = apply_all (new_cache R max_size ttl) events in
        (length c.cache ≤ max_size)
        × IsUnique c.cache
        × (c.stats.hits + c.stats.misses ≡ asked_count events)
  cache_bounded max_size ttl events p =
      let (s, n) =
        apply_all-IsSound max_size ttl (new_cache R max_size ttl) [] events p
          (made-IsSound max_size ttl) in
      (omega (arith, s.formed.bounded, s.size_kept), s.formed.unique, omega (arith, n))

  found_again :
      (c c' : QueryCache R) (key : Text) (results : R) (now later : ℕ) (r : Option R × QueryCache R)
      → c'.ttl ≡ c.ttl
      → lookup key c'.cache ≡ some (new_entry results now)
      → Got c' key later r
      → r.0 ≡ (if ltb (now + c.ttl) later then none else some results)
  found_again c c' key results now later r t self (missing absent) = absurd (cc)
  found_again c c' key results now later r t self (stale entry found old) =
      let e : entry ≡ new_entry results now = cc in ground (arith, t, ap (λ x. x.timestamp) e)
  found_again c c' key results now later r t self (fresh entry found young) =
      let e : entry ≡ new_entry results now = cc in
      ground (arith, t, ap (λ x. x.timestamp) e, ap (λ x. x.results) e)

  -- In a well-formed cache with room for at least one entry, a put succeeds, and until more than `ttl`
  -- seconds have passed the same query with the same limit is answered with what was put.
  pub get-put :
      (c : QueryCache R) (query : Text) (limit : ℕ) (results : R) (now later : ℕ)
      → 0 < c.max_size
      → IsCache c
      → (c' : QueryCache R) × (put c query limit results now ≡ ok c')
        × IsCache c'
        × ((get c' query limit later).0 ≡ (if ltb (now + c.ttl) later then none else some results))
  unfolding put get
  get-put c query limit results now later p k =
      let key = make_key query limit in
      let (c', e, g) = put_key-Stored c key results now p in
      (
        c',
        e,
        Stored-IsCache c key results now c' p g k,
        found_again c c' key results now later (get_key c' key later)
            (put_limits c key results now c' g).1 (put_self c key results now c' g)
            (get_key-Got c' key later),
      )
