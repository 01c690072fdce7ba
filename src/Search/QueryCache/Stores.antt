-- ===== src/Search/QueryCache/Stores.antt =====
-- infomesh/search/cache.py: what `put` does to the entries.
use infomesh.Prelude.{
  ℕ, ◌+◌, ◌≤◌, ◌<◌, ◌≡◌, refl, true, false, some, List, [], ◌∷◌, arith, leb, length, null, Text,
  text_eq, text_beq_iff, ◌==◌, Bool-cases, Option-cases, inl, inr,
}
use infomesh.Prelude.Dict.{Dict, lookup, contains, insert, move_to_end, pop_first, IsUnique}
use infomesh.Prelude.Dict.Laws.{
  lookup-insert, lookup-move_to_end, insert-IsUnique, move_to_end-IsUnique, pop_first-IsUnique,
  length-insert, length-move_to_end, length-pop_first, eq_refl,
}
use infomesh.Prelude.Result.{ok}
use infomesh.Search.QueryCache.{
  CacheEntry, QueryCache, put_key, make_room, new_entry, count_evictions,
}
use infomesh.Search.QueryCache.Entries.{IsCache, length-insert_old}

null_pos {ℓ} : {A : Type ℓ} (xs : List A) → 0 < length xs → null xs ≡ false
null_pos [] h = absurd (omega arith)
null_pos (x ∷ xs) h = refl

module _ {R : Type 0} where
  -- What `put` does, with room for at least one entry.
  pub data Stored (c : QueryCache R) (key : Text) (results : R) (now : ℕ)
      : QueryCache R → Type 0 where
    updated :
        contains key c.cache ≡ true
        → Stored c key results now
            (record c { cache = move_to_end key (insert key (new_entry results now) c.cache) })
    added :
        contains key c.cache ≡ false
        → length c.cache < c.max_size
        → Stored c key results now (record c { cache = insert key (new_entry results now) c.cache })
    replaced :
        contains key c.cache ≡ false
        → c.max_size ≤ length c.cache
        → Stored c key results now (record c {
          cache = insert key (new_entry results now) (pop_first c.cache);
          stats = count_evictions 1 c.stats;
        })

  pub put_key-Stored :
      (c : QueryCache R) (key : Text) (results : R) (now : ℕ)
      → 0 < c.max_size
      → (c' : QueryCache R) × (put_key c key results now ≡ ok c') × Stored c key results now c'
  unfolding put_key make_room
  put_key-Stored c key results now p = elim (Bool-cases (contains key c.cache)) [
    | inl there ↦ (_, rw there refl, updated there)
    | inr new ↦ elim (Bool-cases (leb c.max_size (length c.cache))) [
      | inl full ↦
          let some_there : null c.cache ≡ false = null_pos c.cache (ground arith) in
          (_, rw (new, full, some_there) refl, replaced new (ground arith))
      | inr room ↦ (_, rw (new, room) refl, added new (ground arith))
    ]
  ]

  lookup-pop_first :
      (k : Text) (v : CacheEntry R) (d : Dict Text (CacheEntry R))
      → IsUnique d
      → lookup k (pop_first d) ≡ some v
      → lookup k d ≡ some v
  unfolding lookup pop_first
  lookup-pop_first k v [] u h = h
  lookup-pop_first k v ((j, w) ∷ d) u h = ground (arith, text_beq_iff k j)

  pub contains-pop_first :
      (k : Text) (d : Dict Text (CacheEntry R))
      → IsUnique d
      → contains k d ≡ false
      → contains k (pop_first d) ≡ false
  unfolding contains
  contains-pop_first k d u h = elim (Option-cases (lookup k (pop_first d))) [
    | inl absent ↦ rw (contains, absent) refl
    | inr (v, there) ↦ absurd (let e = lookup-pop_first k v d u there in ground arith)
  ]

  length-insert_new :
      (k : Text) (v : CacheEntry R) (d : Dict Text (CacheEntry R))
      → contains k d ≡ false
      → length (insert k v d) ≡ length d + 1
  length-insert_new k v d h = ground (arith, length-insert k v d)

  pub Stored-IsCache :
      (c : QueryCache R) (key : Text) (results : R) (now : ℕ) (c' : QueryCache R)
      → 0 < c.max_size
      → Stored c key results now c'
      → IsCache c
      → IsCache c'
  Stored-IsCache c key results now c' p (updated there) k =
      let v = new_entry results now in
      let u = insert-IsUnique key v c.cache k.unique in
      record {
        unique = move_to_end-IsUnique key (insert key v c.cache) u;
        bounded = omega (
          arith,
          length-move_to_end key (insert key v c.cache) u,
          length-insert_old key v c.cache there,
          k.bounded,
        );
      }
  Stored-IsCache c key results now c' p (added new room) k = record {
    unique = insert-IsUnique key (new_entry results now) c.cache k.unique;
    bounded = omega (arith, length-insert_new key (new_entry results now) c.cache new);
  }
  Stored-IsCache c key results now c' p (replaced new full) k = record {
    unique =
        insert-IsUnique key (new_entry results now) (pop_first c.cache)
          (pop_first-IsUnique c.cache k.unique);
    bounded = omega (
      arith,
      length-insert_new key (new_entry results now) (pop_first c.cache)
          (contains-pop_first key c.cache k.unique new),
      length-pop_first c.cache,
      k.bounded,
    );
  }

  -- The key of a `put` stands with its results, and every other entry stood before.
  pub put_self :
      (c : QueryCache R) (key : Text) (results : R) (now : ℕ) (c' : QueryCache R)
      → Stored c key results now c'
      → lookup key c'.cache ≡ some (new_entry results now)
  put_self c key results now c' (updated there) = ground (
    arith,
    eq_refl key,
    lookup-move_to_end key key (insert key (new_entry results now) c.cache),
    lookup-insert key key (new_entry results now) c.cache,
  )
  put_self c key results now c' (added new room) =
      ground (arith, eq_refl key, lookup-insert key key (new_entry results now) c.cache)
  put_self c key results now c' (replaced new full) =
      ground (arith, eq_refl key, lookup-insert key key (new_entry results now) (pop_first c.cache))

  pub put_other :
      (c : QueryCache R) (key other : Text) (results : R) (now : ℕ) (c' : QueryCache R)
      (entry : CacheEntry R)
      → Stored c key results now c'
      → IsUnique c.cache
      → (other == key) ≡ false
      → lookup other c'.cache ≡ some entry
      → lookup other c.cache ≡ some entry
  put_other c key other results now c' entry (updated there) u n h = ground (
    arith,
    lookup-move_to_end key other (insert key (new_entry results now) c.cache),
    lookup-insert key other (new_entry results now) c.cache,
  )
  put_other c key other results now c' entry (added new room) u n h =
      ground (arith, lookup-insert key other (new_entry results now) c.cache)
  put_other c key other results now c' entry (replaced new full) u n h =
      lookup-pop_first other entry c.cache u
        (ground (arith, lookup-insert key other (new_entry results now) (pop_first c.cache)))
