-- ===== src/Search/QueryCache/Sweep.antt =====
-- infomesh/search/cache.py, `QueryCache.evict_expired`.
use infomesh.Prelude.{
  ℕ, ◌+◌, ◌≡◌, refl, ap, ◌∙◌, Bool, true, false, not, none, some, List, [], ◌∷◌, arith,
  if◌then◌else◌, length, keep, Text, text_eq, text_beq_iff, ◌==◌, Bool-cases, inl, inr,
}
use infomesh.Prelude.Dict.{Dict, lookup, erase, IsUnique}
use infomesh.Prelude.Dict.Laws.{erase_of_none, eq_refl}
use infomesh.Search.QueryCache.{
  CacheEntry, QueryCache, expired, expired_keys, delete_keys, evict_expired,
}
use infomesh.Search.QueryCache.Entries.{IsCache}

listed : Text → List Text → Bool
listed k [] = false
listed k (x ∷ xs) = if k == x then true else listed k xs

module _ {R : Type 0} where
  -- The entries that have not expired, in their order.
  abbrev pub unexpired : ℕ → ℕ → Dict Text (CacheEntry R) → Dict Text (CacheEntry R)
  unexpired now ttl entries = keep (λ x. not (expired now ttl x.1)) entries

  erase_head :
      (k : Text) (v : CacheEntry R) (d : Dict Text (CacheEntry R))
      → lookup k d ≡ none
      → erase k ((k, v) ∷ d) ≡ d
  unfolding erase
  erase_head k v d h = rw (eq_refl k) (erase_of_none k d h)

  erase_tail :
      (k x : Text) (v : CacheEntry R) (d : Dict Text (CacheEntry R))
      → (x == k) ≡ false
      → erase x ((k, v) ∷ d) ≡ (k, v) ∷ erase x d
  unfolding erase
  erase_tail k x v d h = rw h refl

  delete_keys-cons :
      (k : Text) (v : CacheEntry R) (keys : List Text) (d : Dict Text (CacheEntry R))
      → listed k keys ≡ false
      → (delete_keys keys ((k, v) ∷ d)).0 ≡ (k, v) ∷ (delete_keys keys d).0
  unfolding delete_keys listed
  delete_keys-cons k v [] d h = refl
  delete_keys-cons k v (x ∷ keys) d h =
      let ne : (x == k) ≡ false = ground (arith, text_beq_iff k x, text_beq_iff x k) in
      rw (erase_tail k x v d ne) (delete_keys-cons k v keys (erase x d) (ground arith))

  delete_keys-head :
      (k : Text) (v : CacheEntry R) (keys : List Text) (d : Dict Text (CacheEntry R))
      → lookup k d ≡ none
      → (delete_keys (k ∷ keys) ((k, v) ∷ d)).0 ≡ (delete_keys keys d).0
  unfolding delete_keys
  delete_keys-head k v keys d h = ap (λ x. (delete_keys keys x).0) (erase_head k v d h)

  listed-expired_keys :
      (k : Text) (now ttl : ℕ) (d : Dict Text (CacheEntry R))
      → lookup k d ≡ none
      → listed k (expired_keys now ttl d) ≡ false
  unfolding listed expired_keys lookup
  listed-expired_keys k now ttl [] h = refl
  listed-expired_keys k now ttl ((j, w) ∷ d) h = ground (arith, listed-expired_keys k now ttl d)

  delete-expired :
      (now ttl : ℕ) (d : Dict Text (CacheEntry R))
      → IsUnique d
      → (delete_keys (expired_keys now ttl d) d).0 ≡ unexpired now ttl d
  unfolding expired_keys
  delete-expired now ttl [] u = unfold delete_keys in refl
  delete-expired now ttl ((k, v) ∷ d) u =
      let rest = delete-expired now ttl d u.1 in
      elim (Bool-cases (expired now ttl v)) [
        | inl old ↦ rw old (delete_keys-head k v (expired_keys now ttl d) d u.0 ∙ rest)
        | inr young ↦ rw young (
            delete_keys-cons k v (expired_keys now ttl d) d (listed-expired_keys k now ttl d u.0)
            ∙ ap (λ r. (k, v) ∷ r) rest)
      ]

  removed-eq :
      (keys : List Text) (d : Dict Text (CacheEntry R)) → (delete_keys keys d).1 ≡ length keys
  unfolding delete_keys
  removed-eq [] d = refl
  removed-eq (k ∷ keys) d = omega (arith, removed-eq keys (erase k d))

  length-unexpired :
      (now ttl : ℕ) (d : Dict Text (CacheEntry R))
      → length (expired_keys now ttl d) + length (unexpired now ttl d) ≡ length d
  unfolding expired_keys
  length-unexpired now ttl [] = refl
  length-unexpired now ttl ((k, v) ∷ d) = ground (arith, length-unexpired now ttl d)

  -- In a cache whose keys are unique, evict_expired keeps exactly the entries that have not expired,
  -- in their order, and what it returns and adds to the evictions is the number of the other ones.
  pub evict_expired-eq :
      (c : QueryCache R) (now : ℕ)
      → IsCache c
      → (removed : ℕ) × (evict_expired c now ≡ (
        removed,
        record c {
          cache = keep (λ x. not (expired now c.ttl x.1)) c.cache;
          stats = record c.stats { evictions = c.stats.evictions + removed };
        },
      ))
        × (removed + length (keep (λ x. not (expired now c.ttl x.1)) c.cache) ≡ length c.cache)
  unfolding evict_expired
  evict_expired-eq c now k =
      let keys = expired_keys now c.ttl c.cache in
      (
        length keys,
        rw (delete-expired now c.ttl c.cache k.unique, removed-eq keys c.cache) refl,
        length-unexpired now c.ttl c.cache,
      )

  -- Keeping some of the entries.
  pub lookup-keep :
      (p : Text × CacheEntry R → Bool) (k : Text) (d : Dict Text (CacheEntry R)) (v : CacheEntry R)
      → IsUnique d
      → lookup k (keep p d) ≡ some v
      → lookup k d ≡ some v
  unfolding lookup
  lookup-keep p k [] v u h = h
  lookup-keep p k ((j, w) ∷ d) v u h = ground (arith, text_beq_iff k j, lookup-keep p k d v u.1)

  lookup-keep-none :
      (p : Text × CacheEntry R → Bool) (k : Text) (d : Dict Text (CacheEntry R))
      → lookup k d ≡ none
      → lookup k (keep p d) ≡ none
  unfolding lookup
  lookup-keep-none p k [] h = h
  lookup-keep-none p k ((j, w) ∷ d) h = ground (arith, lookup-keep-none p k d)

  pub keep-IsUnique :
      (p : Text × CacheEntry R → Bool) (d : Dict Text (CacheEntry R))
      → IsUnique d
      → IsUnique (keep p d)
  keep-IsUnique p [] u = tt
  keep-IsUnique p ((j, w) ∷ d) u = ground (arith, lookup-keep-none p j d, keep-IsUnique p d u.1)
