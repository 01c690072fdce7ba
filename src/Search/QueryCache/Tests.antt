-- ===== src/Search/QueryCache/Tests.antt =====
-- infomesh/search/cache.py on a cache for two queries.
use infomesh.Prelude.{
  ℕ, ◌+◌, ◌≤◌, ◌≡◌, refl, none, some, List, [], ◌∷◌, arith, ltb, if◌then◌else◌, Text, bytes,
  text_eq,
}
use infomesh.Prelude.Dict.{lookup, contains, insert, erase, move_to_end}
use infomesh.Prelude.Hash.{toy_hash, hexdigest, hex, hex_digit}
use infomesh.Prelude.Result.{ok}
use infomesh.Search.QueryCache.{
  CacheEntry, QueryCache, raw_key, lower, rstrip, lstrip, is_space, digits_of, make_key, new_cache,
  get, put, evict_expired, get_key, get_entry, put_key, make_room, short_hash, expired_keys,
  delete_keys,
}
use infomesh.Search.QueryCache.Entries.{IsCache}
use infomesh.Search.QueryCache.History.{Event, asked, stored, swept, apply, apply_all, latest_all}
use infomesh.Search.QueryCache.Answers.{get_sound, get-put}

raw : raw_key (bytes "  Python Async ") 120 ≡ bytes "python async:120"
unfolding raw_key lower rstrip lstrip is_space digits_of
raw = refl

abbrev entry_at : ℕ → CacheEntry ℕ
entry_at now = record { results = now + 1; timestamp = now; hit_count = 0 }

abbrev two_entries : QueryCache ℕ
two_entries = record (new_cache ℕ 2 300) {
  cache = (bytes "k1", entry_at 10) ∷ (bytes "k2", entry_at 400) ∷ [];
}

two_entries-IsCache : IsCache two_entries
two_entries-IsCache = record { unique = unfold lookup in (refl, (refl, tt)); bounded = omega arith }

abbrev python : Text
python = bytes "Python"

abbrev calls : List (Event ℕ)
calls = stored python 10 7 100 ∷ asked python 10 150 ∷ stored python 10 8 200 ∷ swept 250 ∷ []

answered : (get (apply_all (new_cache ℕ 2 300) calls) python 10 260).0 ≡ some 8
unfolding get get_key get_entry put put_key make_room make_key short_hash raw_key lower rstrip
    lstrip is_space digits_of evict_expired expired_keys delete_keys apply_all apply lookup contains
    insert erase move_to_end hexdigest hex hex_digit
answered = refl

get_sound_example :
    (time : ℕ) × (lookup (make_key python 10) (latest_all [] calls) ≡ some (8, time))
    × (260 ≤ time + 300)
get_sound_example = get_sound 2 300 calls python 10 260 8 (omega arith) answered

get-put_example :
    (c' : QueryCache ℕ) × (put two_entries python 10 9 500 ≡ ok c')
    × IsCache c'
    × ((get c' python 10 600).0 ≡ (if ltb (500 + 300) 600 then none else some 9))
get-put_example = get-put two_entries python 10 9 500 600 (omega arith) two_entries-IsCache
