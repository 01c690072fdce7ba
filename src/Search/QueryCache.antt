-- ===== src/Search/QueryCache.antt =====
-- infomesh/search/cache.py: the cache of query results, least recently used first, with a time to
-- live. A time is a natural number of seconds, and what the clock reads is an argument. A query is
-- ASCII text.
pub mod Sweep
pub mod History
pub mod Sound
pub mod Answers
pub mod Entries
pub mod Stores
pub mod Recency
mod Tests
use infomesh.Prelude.{
  ℕ, zero, suc, ◌+◌, ◌-◌, ◌*◌, ◌/◌, ◌%◌, Bool, true, false, ◌&&◌, ◌||◌, Option, none, some, List,
  [], ◌∷◌, ◌++◌, map, ltb, leb, if◌then◌else◌, length, take, null, Text, text_eq, bytes, ◌==◌,
  nat_eq,
}
use infomesh.Prelude.Dict.{Dict, lookup, contains, insert, erase, move_to_end, pop_first}
use infomesh.Prelude.Hash.{Sha256, hexdigest}
use infomesh.Prelude.Result.{Result, ok, err, ◌>>=◌}

-- `str.strip()` and `str.lower()` of ASCII text
pub is_space : ℕ → Bool
is_space c = (leb 9 c && leb c 13) || (leb 28 c && leb c 32)

pub lstrip : Text → Text
lstrip [] = []
lstrip (c ∷ cs) = if is_space c then lstrip cs else c ∷ cs

pub rstrip : Text → Text
rstrip [] = []
rstrip (c ∷ cs) = let rest = rstrip cs in if is_space c && null rest then [] else c ∷ rest

pub lower : Text → Text
lower [] = []
lower (c ∷ cs) = (if leb 65 c && leb c 90 then c + 32 else c) ∷ lower cs

-- `str(n)`, with at least as much fuel as `n` has digits
pub digits_of : ℕ → ℕ → Text
digits_of zero n = []
digits_of (suc fuel) n =
    let high = digits_of fuel (n / 10) in (if ltb n 10 then [] else high) ++ (48 + n % 10) ∷ []

-- `short_hash` of hashing.py with its default length
pub short_hash : ⦃h : Sha256⦄ → Text → Text
short_hash text = take 16 (hexdigest text)

pub raw_key : Text → ℕ → Text
raw_key query limit = lower (rstrip (lstrip query)) ++ (bytes ":" ++ digits_of (limit + 1) limit)

pub make_key : ⦃h : Sha256⦄ → Text → ℕ → Text
make_key query limit = short_hash (raw_key query limit)

pub record CacheEntry (R : Type 0) : Type 0 where
  pub results : R
  pub timestamp : ℕ
  pub hit_count : ℕ

pub record CacheStats : Type 0 where
  pub hits : ℕ
  pub misses : ℕ
  pub evictions : ℕ

abbrev pub total : CacheStats → ℕ
total s = s.hits + s.misses

abbrev pub count_miss : CacheStats → CacheStats
count_miss s = record s { misses = s.misses + 1 }

abbrev pub count_hit : CacheStats → CacheStats
count_hit s = record s { hits = s.hits + 1 }

abbrev pub count_evictions : ℕ → CacheStats → CacheStats
count_evictions n s = record s { evictions = s.evictions + n }

-- `OrderedDict.popitem` of an empty dictionary raises KeyError.
pub data CacheError : Type 0 where
  key_error : CacheError

pub record QueryCache (R : Type 0) : Type 0 where
  pub max_size : ℕ
  pub ttl : ℕ
  pub cache : Dict Text (CacheEntry R)
  pub stats : CacheStats

abbrev pub new_cache : (R : Type 0) → ℕ → ℕ → QueryCache R
new_cache R max_size ttl = record {
  max_size = max_size;
  ttl = ttl;
  cache = [];
  stats = record { hits = 0; misses = 0; evictions = 0 };
}

module _ {R : Type 0} where
  abbrev pub size : QueryCache R → ℕ
  size c = length c.cache

  -- `now - entry.timestamp > ttl`
  abbrev pub expired : ℕ → ℕ → CacheEntry R → Bool
  expired now ttl entry = ltb (entry.timestamp + ttl) now

  -- `get` of an entry that is there
  pub get_entry : QueryCache R → Text → ℕ → CacheEntry R → Option R × QueryCache R
  get_entry c key now entry =
      if expired now c.ttl entry
      then (
        none,
        record c { cache = erase key c.cache; stats = count_evictions 1 (count_miss c.stats) },
      )
      else (
        some entry.results,
        record c {
          cache =
              insert key (record entry { hit_count = entry.hit_count + 1 })
                (move_to_end key c.cache);
          stats = count_hit c.stats;
        },
      )

  pub get_key : QueryCache R → Text → ℕ → Option R × QueryCache R
  get_key c key now = elim (lookup key c.cache) [
    | none ↦ (none, record c { stats = count_miss c.stats })
    | some entry ↦ get_entry c key now entry
  ]

  pub get : ⦃h : Sha256⦄ → QueryCache R → Text → ℕ → ℕ → Option R × QueryCache R
  get c query limit now = get_key c (make_key query limit) now

  abbrev pub new_entry : R → ℕ → CacheEntry R
  new_entry results now = record { results = results; timestamp = now; hit_count = 0 }

  -- the eviction of `put`
  pub make_room : QueryCache R → Result CacheError (QueryCache R)
  make_room c =
      if leb c.max_size (length c.cache)
      then (if null c.cache
          then err key_error
          else ok (record c { cache = pop_first c.cache; stats = count_evictions 1 c.stats }))
      else ok c

  pub put_key : QueryCache R → Text → R → ℕ → Result CacheError (QueryCache R)
  put_key c key results now =
      if contains key c.cache
      then ok (record c { cache = move_to_end key (insert key (new_entry results now) c.cache) })
      else (make_room c >>= λ c'.
          ok (record c' { cache = insert key (new_entry results now) c'.cache }))

  pub put : ⦃h : Sha256⦄ → QueryCache R → Text → ℕ → R → ℕ → Result CacheError (QueryCache R)
  put c query limit results now = put_key c (make_key query limit) results now

  pub invalidate : ⦃h : Sha256⦄ → QueryCache R → Text → ℕ → Bool × QueryCache R
  invalidate c query limit =
      let key = make_key query limit in
      if contains key c.cache then (true, record c { cache = erase key c.cache }) else (false, c)

  abbrev pub clear : QueryCache R → QueryCache R
  clear c = record c { cache = [] }

  pub expired_keys : ℕ → ℕ → Dict Text (CacheEntry R) → List Text
  expired_keys now ttl [] = []
  expired_keys now ttl ((k, v) ∷ rest) =
      let others = expired_keys now ttl rest in if expired now ttl v then k ∷ others else others

  -- The entries that are left when the keys are deleted, and how many were deleted.
  pub delete_keys : List Text → Dict Text (CacheEntry R) → Dict Text (CacheEntry R) × ℕ
  delete_keys [] entries = (entries, 0)
  delete_keys (k ∷ keys) entries =
      let (left, removed) = delete_keys keys (erase k entries) in (left, removed + 1)

  pub evict_expired : QueryCache R → ℕ → ℕ × QueryCache R
  evict_expired c now =
      let (left, removed) = delete_keys (expired_keys now c.ttl c.cache) c.cache in
      (removed, record c { cache = left; stats = count_evictions removed c.stats })
