-- ===== src/Search/QueryCache/Entries.antt =====
-- infomesh/search/cache.py: what a look-up does to the entries, and the bound on their number.
use infomesh.Prelude.{
  ℕ, ◌+◌, ◌≤◌, ◌<◌, ◌≡◌, refl, sym, ◌∙◌, true, Option, none, some, arith, length, Text, text_eq,
  text_beq_iff, ◌==◌, Bool-cases, Option-cases, inl, inr, subst,
}
use infomesh.Prelude.Dict.{Dict, lookup, contains, insert, erase, move_to_end, IsUnique}
use infomesh.Prelude.Dict.Laws.{
  lookup-insert, lookup-erase, lookup-move_to_end, insert-IsUnique, erase-IsUnique,
  move_to_end-IsUnique, length-insert, length-erase-le, length-move_to_end,
}
use infomesh.Search.QueryCache.{
  CacheEntry, QueryCache, get_entry, get_key, expired, count_miss, count_hit, count_evictions,
}

module _ {R : Type 0} where
  -- No key stands twice, and there are at most `max_size` entries.
  pub record IsCache (c : QueryCache R) : Type 0 where
    pub unique : IsUnique c.cache
    pub bounded : length c.cache ≤ c.max_size

  -- What a look-up leads to.
  pub data Got (c : QueryCache R) (key : Text) (now : ℕ) : Option R × QueryCache R → Type 0 where
    missing :
        lookup key c.cache ≡ none → Got c key now (none, record c { stats = count_miss c.stats })
    stale :
        (entry : CacheEntry R)
        → lookup key c.cache ≡ some entry
        → entry.timestamp + c.ttl < now
        → Got c key now (
          none,
          record c { cache = erase key c.cache; stats = count_evictions 1 (count_miss c.stats) },
        )
    fresh :
        (entry : CacheEntry R)
        → lookup key c.cache ≡ some entry
        → now ≤ entry.timestamp + c.ttl
        → Got c key now (
          some entry.results,
          record c {
            cache =
                insert key
                  (record entry { hit_count = entry.hit_count + 1 })
                  (move_to_end key c.cache);
            stats = count_hit c.stats;
          },
        )

  pub get_key-Got : (c : QueryCache R) (key : Text) (now : ℕ) → Got c key now (get_key c key now)
  unfolding get_key get_entry
  get_key-Got c key now = elim (Option-cases (lookup key c.cache)) [
    | inl absent ↦ rw (get_key, absent) (missing absent)
    | inr (entry, found) ↦
        rw (get_key, found)
          (elim (Bool-cases (expired now c.ttl entry)) [
            | inl old ↦ rw (get_entry, old) (stale entry found (ground arith))
            | inr young ↦ rw (get_entry, young) (fresh entry found (ground arith))
          ])
  ]

  -- The entry of a key, up to the count of its hits.
  abbrev pub Stands : QueryCache R → Text → R → ℕ → Type 0
  Stands c key results timestamp =
      (entry : CacheEntry R) × (lookup key c.cache ≡ some entry)
      × (entry.results ≡ results)
      × (entry.timestamp ≡ timestamp)

  pub length-insert_old :
      (k : Text) (v : CacheEntry R) (d : Dict Text (CacheEntry R))
      → contains k d ≡ true
      → length (insert k v d) ≡ length d
  length-insert_old k v d h = ground (arith, length-insert k v d)

  pub contains-some :
      (k : Text) (v : CacheEntry R) (d : Dict Text (CacheEntry R))
      → lookup k d ≡ some v
      → contains k d ≡ true
  unfolding contains
  contains-some k v d h = ground arith

  pub got-IsCache :
      (c : QueryCache R) (key : Text) (now : ℕ) (r : Option R × QueryCache R)
      → Got c key now r
      → IsCache c
      → IsCache r.1
  got-IsCache c key now r (missing absent) k = record { unique = k.unique; bounded = k.bounded }
  got-IsCache c key now r (stale entry found old) k = record {
    unique = erase-IsUnique key c.cache k.unique;
    bounded = omega (arith, length-erase-le key c.cache, k.bounded);
  }
  got-IsCache c key now r (fresh entry found young) k =
      let there =
        contains-some key entry (move_to_end key c.cache)
          (lookup-move_to_end key key c.cache ∙ found) in
      record {
        unique =
            insert-IsUnique key _ (move_to_end key c.cache)
              (move_to_end-IsUnique key c.cache k.unique);
        bounded = omega (
          arith,
          length-insert_old key (record entry { hit_count = entry.hit_count + 1 })
              (move_to_end key c.cache) there,
          length-move_to_end key c.cache k.unique,
          k.bounded,
        );
      }

  -- A look-up adds nothing: what stands afterwards stood before.
  pub got-Stands :
      (c : QueryCache R) (key : Text) (now : ℕ) (r : Option R × QueryCache R) (other : Text)
      (entry : CacheEntry R)
      → Got c key now r
      → lookup other r.1.cache ≡ some entry
      → Stands c other entry.results entry.timestamp
  got-Stands c key now r other entry (missing absent) h = (entry, h, refl, refl)
  got-Stands c key now r other entry (stale e found old) h =
      (entry, ground (arith, lookup-erase key other c.cache), refl, refl)
  got-Stands c key now r other entry (fresh e found young) h = elim (Bool-cases (other == key)) [
    | inl same ↦
        let o : other ≡ key = (text_beq_iff other key).0 same in
        (
          e,
          subst (λ k. lookup k c.cache ≡ some e) (sym o) found,
          ground (
            arith,
            lookup-insert key other (record e { hit_count = e.hit_count + 1 })
                (move_to_end key c.cache),
          ),
          ground (
            arith,
            lookup-insert key other (record e { hit_count = e.hit_count + 1 })
                (move_to_end key c.cache),
          ),
        )
    | inr differs ↦ (
      entry,
      ground (
        arith,
        lookup-insert key other (record e { hit_count = e.hit_count + 1 })
            (move_to_end key c.cache),
        lookup-move_to_end key other c.cache,
      ),
      refl,
      refl,
    )
  ]
