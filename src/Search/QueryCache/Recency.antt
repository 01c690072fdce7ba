-- ===== src/Search/QueryCache/Recency.antt =====
-- infomesh/search/cache.py: the order of the entries is the order of their last use, and an entry that
-- has to go is the one used least recently.
use infomesh.Prelude.{
  ℕ, suc, ◌+◌, ◌-◌, ◌≤◌, ◌<◌, ◌≡◌, refl, sym, ap, ◌∙◌, true, false, Option, none, some, List, [],
  ◌∷◌, ◌++◌, map, arith, if◌then◌else◌, length, length-append, append-nil, length-map, drop, Text,
  text_eq, ◌==◌,
}
use infomesh.Prelude.Dict.{Dict, lookup, contains, insert, erase, move_to_end, pop_first, IsUnique}
use infomesh.Prelude.Dict.Laws.{
  lookup-insert, lookup-move_to_end, length-move_to_end, move_to_end-eq, insert_of_none,
  lookup-IsNone, lookup-IsSome, eq_refl,
}
use infomesh.Prelude.Hash.{Sha256}
use infomesh.Prelude.Result.{ok}
use infomesh.Search.QueryCache.{CacheEntry, QueryCache, make_key, get, get_key, put, new_entry}
use infomesh.Search.QueryCache.Entries.{
  contains-some, IsCache, Got, missing, stale, fresh, get_key-Got,
}
use infomesh.Search.QueryCache.Stores.{
  contains-pop_first, Stored, updated, added, replaced, put_key-Stored,
}

-- The list without a key, and with the key moved or added to the end.
pub without : Text → List Text → List Text
without key [] = []
without key (k ∷ ks) = let rest = without key ks in if key == k then rest else k ∷ rest

-- The keys, the one used least recently first, with `key` used now, and at most `max_size` of them.
abbrev pub touched : ℕ → Text → List Text → List Text
touched max_size key ks = let t = without key ks ++ key ∷ [] in drop (length t - max_size) t

drop-append_end :
    (xs : List Text) (k : Text) → 0 < length xs → drop 1 (xs ++ k ∷ []) ≡ drop 1 xs ++ k ∷ []
drop-append_end [] k h = absurd (omega arith)
drop-append_end (x ∷ xs) k h = refl

module _ {R : Type 0} where
  abbrev pub keys : Dict Text (CacheEntry R) → List Text
  keys entries = map (λ x. x.0) entries

  keys-append : (c d : Dict Text (CacheEntry R)) → keys (c ++ d) ≡ keys c ++ keys d
  keys-append [] d = refl
  keys-append (x ∷ c) d = ap (λ r. x.0 ∷ r) (keys-append c d)

  keys-erase : (k : Text) (d : Dict Text (CacheEntry R)) → keys (erase k d) ≡ without k (keys d)
  unfolding erase without
  keys-erase k [] = refl
  keys-erase k ((j, w) ∷ d) = ground (arith, keys-erase k d)

  keys-insert_old :
      (k : Text) (v : CacheEntry R) (d : Dict Text (CacheEntry R))
      → contains k d ≡ true
      → keys (insert k v d) ≡ keys d
  unfolding insert contains lookup
  keys-insert_old k v [] h = cc
  keys-insert_old k v ((j, w) ∷ d) h = ground (arith, keys-insert_old k v d)

  keys-insert_new :
      (k : Text) (v : CacheEntry R) (d : Dict Text (CacheEntry R))
      → contains k d ≡ false
      → keys (insert k v d) ≡ keys d ++ k ∷ []
  keys-insert_new k v d h =
      ap (keys) (insert_of_none k v d (lookup-IsNone k d h)) ∙ keys-append d ((k, v) ∷ [])

  keys-move_to_end :
      (k : Text) (d : Dict Text (CacheEntry R)) (v : CacheEntry R)
      → lookup k d ≡ some v
      → keys (move_to_end k d) ≡ without k (keys d) ++ k ∷ []
  keys-move_to_end k d v h =
      ap (keys) (move_to_end-eq k d v h)
      ∙ (keys-append (erase k d) ((k, v) ∷ []) ∙ ap (λ r. r ++ k ∷ []) (keys-erase k d))

  without-none :
      (k : Text) (d : Dict Text (CacheEntry R)) → lookup k d ≡ none → without k (keys d) ≡ keys d
  unfolding without lookup
  without-none k [] h = refl
  without-none k ((j, w) ∷ d) h = ground (arith, without-none k d)

  got-keys :
      (c : QueryCache R) (key : Text) (now : ℕ) (r : Option R × QueryCache R)
      → Got c key now r
      → keys r.1.cache
        ≡ without key (keys c.cache) ++ elim r.0 [ none ↦ [] | some results ↦ key ∷ [] ]
  got-keys c key now r (missing absent) = sym (append-nil _ ∙ without-none key c.cache absent)
  got-keys c key now r (stale entry found old) = keys-erase key c.cache ∙ sym (append-nil _)
  got-keys c key now r (fresh entry found young) =
      let d = move_to_end key c.cache in
      keys-insert_old key (record entry { hit_count = entry.hit_count + 1 }) d
        (contains-some key entry d (lookup-move_to_end key key c.cache ∙ found))
      ∙ keys-move_to_end key c.cache entry found

  keys-pop_first : (d : Dict Text (CacheEntry R)) → keys (pop_first d) ≡ drop 1 (keys d)
  unfolding pop_first
  keys-pop_first [] = refl
  keys-pop_first (x ∷ d) = refl

  length-keys : (d : Dict Text (CacheEntry R)) → length (keys d) ≡ length d
  length-keys d = length-map (λ x. x.0) d

  length-touch_old :
      (k : Text) (d : Dict Text (CacheEntry R)) (v : CacheEntry R)
      → IsUnique d
      → lookup k d ≡ some v
      → length (without k (keys d) ++ k ∷ []) ≡ length d
  length-touch_old k d v u h =
      sym (ap length (keys-move_to_end k d v h))
      ∙ (length-keys (move_to_end k d) ∙ length-move_to_end k d u)

  touched-old :
      (max_size : ℕ) (k : Text) (d : Dict Text (CacheEntry R)) (v : CacheEntry R)
      → IsUnique d
      → length d ≤ max_size
      → lookup k d ≡ some v
      → touched max_size k (keys d) ≡ without k (keys d) ++ k ∷ []
  touched-old m k d v u b h =
      let z : length (without k (keys d) ++ k ∷ []) - m ≡ 0 =
        omega (arith, length-touch_old k d v u h) in
      rw z refl

  touched-new :
      (max_size : ℕ) (k : Text) (d : Dict Text (CacheEntry R))
      → lookup k d ≡ none
      → touched max_size k (keys d) ≡ drop (suc (length d) - max_size) (keys d ++ k ∷ [])
  touched-new m k d h =
      let n : length (keys d ++ k ∷ []) ≡ suc (length d) =
        omega (arith, length-append (keys d) (k ∷ []), length-keys d) in
      rw (without-none k d h, n) refl

  Stored-keys :
      (c : QueryCache R) (key : Text) (results : R) (now : ℕ) (c' : QueryCache R)
      → 0 < c.max_size
      → IsCache c
      → Stored c key results now c'
      → keys c'.cache ≡ touched c.max_size key (keys c.cache)
  Stored-keys c key results now c' p k (updated there) =
      let v = new_entry results now in
      let (old, found) = lookup-IsSome key c.cache there in
      let self : lookup key (insert key v c.cache) ≡ some v =
        ground (arith, lookup-insert key key v c.cache, eq_refl key) in
      keys-move_to_end key (insert key v c.cache) v self
      ∙ (ap (λ ks. without key ks ++ key ∷ []) (keys-insert_old key v c.cache there)
          ∙ sym (touched-old c.max_size key c.cache old k.unique k.bounded found))
  Stored-keys c key results now c' p k (added new room) =
      let z : suc (length c.cache) - c.max_size ≡ 0 = omega arith in
      keys-insert_new key (new_entry results now) c.cache new
      ∙ sym (touched-new c.max_size key c.cache (lookup-IsNone key c.cache new) ∙ rw z refl)
  Stored-keys c key results now c' p k (replaced new full) =
      let one : suc (length c.cache) - c.max_size ≡ 1 = omega (arith, k.bounded) in
      let long : 0 < length (keys c.cache) = omega (arith, length-keys c.cache) in
      keys-insert_new key (new_entry results now) (pop_first c.cache)
        (contains-pop_first key c.cache k.unique new)
      ∙ (ap (λ ks. ks ++ key ∷ []) (keys-pop_first c.cache)
          ∙ (sym (drop-append_end (keys c.cache) key long)
              ∙ sym (
                  touched-new c.max_size key c.cache (lookup-IsNone key c.cache new)
                  ∙ rw one refl)))

module _ {R : Type 0} ⦃h : Sha256⦄ where
  -- In a well-formed cache with room for at least one entry, a put leaves the keys in the order of
  -- their last use with the key of the put last, and of these the last `max_size`: the key that has to
  -- go is the one used least recently.
  pub put-keys :
      (c : QueryCache R) (query : Text) (limit : ℕ) (results : R) (now : ℕ)
      → 0 < c.max_size
      → IsCache c
      → (c' : QueryCache R) × (put c query limit results now ≡ ok c')
        × (keys c'.cache ≡ touched c.max_size (make_key query limit) (keys c.cache))
  unfolding put
  put-keys c query limit results now p k =
      let (c', e, g) = put_key-Stored c (make_key query limit) results now p in
      (c', e, Stored-keys c (make_key query limit) results now c' p k g)

  -- A query that is answered from the cache moves its key to the end of the order, one that is not
  -- takes its key out of it, and no other key moves.
  get-keys :
      (c : QueryCache R) (query : Text) (limit now : ℕ)
      → keys (get c query limit now).1.cache
        ≡ without (make_key query limit) (keys c.cache)
          ++ elim (get c query limit now).0 [ none ↦ [] | some results ↦ make_key query limit ∷ [] ]
  unfolding get
  get-keys c query limit now =
      let key = make_key query limit in
      got-keys c key now (get_key c key now) (get_key-Got c key now)
