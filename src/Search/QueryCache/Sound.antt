-- ===== src/Search/QueryCache/Sound.antt =====
-- infomesh/search/cache.py: no call leaves an entry that was not the last one put for its key.
use infomesh.Prelude.{
  ℕ, ◌+◌, ◌<◌, ◌≡◌, refl, ap, ◌∙◌, subst, Bool, Option, some, List, [], ◌∷◌, arith, not,
  length-keep-le, Text, text_eq, text_beq_iff, ◌==◌, Bool-cases, inl, inr,
}
use infomesh.Prelude.Dict.{Dict, lookup, contains, insert, erase}
use infomesh.Prelude.Dict.Laws.{
  lookup-IsNone, lookup-insert, lookup-erase, erase-IsUnique, length-erase-le,
}
use infomesh.Prelude.Hash.{Sha256}
use infomesh.Search.QueryCache.{
  CacheEntry, QueryCache, make_key, get, get_key, put, invalidate, clear, evict_expired, expired,
  total, new_cache,
}
use infomesh.Search.QueryCache.Entries.{
  IsCache, Got, missing, stale, fresh, get_key-Got, got-IsCache, got-Stands,
}
use infomesh.Search.QueryCache.Stores.{
  Stored, updated, added, replaced, put_key-Stored, Stored-IsCache, put_self, put_other,
}
use infomesh.Search.QueryCache.Sweep.{evict_expired-eq, lookup-keep, keep-IsUnique}
use infomesh.Search.QueryCache.History.{
  Event, asked, stored, invalidated, swept, cleared, apply, apply_all, latest, latest_all, asks,
  asked_count,
}

cong_lookup : {V : Type 0} (j k : Text) (d : Dict Text V) → j ≡ k → lookup j d ≡ lookup k d
cong_lookup j k d e = ap (λ x. lookup x d) e

module _ {R : Type 0} ⦃h : Sha256⦄ where
  -- The entries are those that were last put, and the limits are those of the constructor.
  pub record IsSound (max_size ttl : ℕ) (c : QueryCache R) (log : Dict Text (R × ℕ)) : Type 0 where
    pub size_kept : c.max_size ≡ max_size
    pub ttl_kept : c.ttl ≡ ttl
    pub formed : IsCache c
    pub logged :
        (k : Text) (e : CacheEntry R)
        → lookup k c.cache ≡ some e
        → lookup k log ≡ some (e.results, e.timestamp)

  got_limits :
      (c : QueryCache R) (key : Text) (now : ℕ) (r : Option R × QueryCache R)
      → Got c key now r
      → (r.1.max_size ≡ c.max_size) × (r.1.ttl ≡ c.ttl) × (total r.1.stats ≡ 1 + total c.stats)
  got_limits c key now r (missing absent) = (refl, refl, omega arith)
  got_limits c key now r (stale entry found old) = (refl, refl, omega arith)
  got_limits c key now r (fresh entry found young) = (refl, refl, omega arith)

  pub put_limits :
      (c : QueryCache R) (key : Text) (results : R) (now : ℕ) (c' : QueryCache R)
      → Stored c key results now c'
      → (c'.max_size ≡ c.max_size) × (c'.ttl ≡ c.ttl) × (total c'.stats ≡ total c.stats)
  put_limits c key results now c' (updated there) = (refl, refl, refl)
  put_limits c key results now c' (added new room) = (refl, refl, refl)
  put_limits c key results now c' (replaced new full) = (refl, refl, refl)

  got-IsSound :
      (m ttl : ℕ) (c : QueryCache R) (log : Dict Text (R × ℕ)) (key : Text) (now : ℕ)
      (r : Option R × QueryCache R)
      → Got c key now r
      → IsSound m ttl c log
      → IsSound m ttl r.1 log × (total r.1.stats ≡ 1 + total c.stats)
  got-IsSound m ttl c log key now r g s =
      let sound : IsSound m ttl r.1 log = record {
        size_kept = (got_limits c key now r g).0 ∙ s.size_kept;
        ttl_kept = (got_limits c key now r g).1 ∙ s.ttl_kept;
        formed = got-IsCache c key now r g s.formed;
        logged = λ k e l.
            let (entry, there, same, time) = got-Stands c key now r k e g l in
            subst (λ t. lookup k log ≡ some (e.results, t)) time
              (subst (λ x. lookup k log ≡ some (x, entry.timestamp)) same (s.logged k entry there));
      } in
      (sound, (got_limits c key now r g).2)

  after_get-IsSound :
      (m ttl : ℕ) (c : QueryCache R) (log : Dict Text (R × ℕ)) (query : Text) (limit now : ℕ)
      → IsSound m ttl c log
      → IsSound m ttl (get c query limit now).1 log
        × (total (get c query limit now).1.stats ≡ 1 + total c.stats)
  unfolding get
  after_get-IsSound m ttl c log query limit now s =
      let key = make_key query limit in
      got-IsSound m ttl c log key now (get_key c key now) (get_key-Got c key now) s

  put-IsSound :
      (m ttl : ℕ) (c : QueryCache R) (log : Dict Text (R × ℕ)) (key : Text) (results : R) (now : ℕ)
      (c' : QueryCache R)
      → 0 < m
      → Stored c key results now c'
      → IsSound m ttl c log
      → IsSound m ttl c' (insert key (results, now) log) × (total c'.stats ≡ total c.stats)
  put-IsSound m ttl c log key results now c' p g s =
      let sound : IsSound m ttl c' (insert key (results, now) log) = record {
        size_kept = (put_limits c key results now c' g).0 ∙ s.size_kept;
        ttl_kept = (put_limits c key results now c' g).1 ∙ s.ttl_kept;
        formed = Stored-IsCache c key results now c' (omega (arith, s.size_kept)) g s.formed;
        logged = λ k e l. elim (Bool-cases (k == key)) [
          | inl same ↦
              let k_is : k ≡ key = (text_beq_iff k key).0 same in
              let l' : lookup key c'.cache ≡ some e =
                subst (λ x. lookup x c'.cache ≡ some e) k_is l in
              let self = put_self c key results now c' g in
              ground (arith, lookup-insert key k (results, now) log)
          | inr differs ↦
              let before =
                s.logged k e (put_other c key k results now c' e g s.formed.unique differs l) in
              ground (arith, lookup-insert key k (results, now) log)
        ];
      } in
      (sound, (put_limits c key results now c' g).2)

  invalidate-IsSound :
      (m ttl : ℕ) (c : QueryCache R) (log : Dict Text (R × ℕ)) (query : Text) (limit : ℕ)
      → IsSound m ttl c log
      → IsSound m ttl (invalidate c query limit).1 (erase (make_key query limit) log)
        × (total (invalidate c query limit).1.stats ≡ total c.stats)
  unfolding invalidate
  invalidate-IsSound m ttl c log query limit s =
      let key = make_key query limit in
      elim (Bool-cases (contains key c.cache)) [
        | inr absent ↦ rw absent (
          record {
            size_kept = s.size_kept;
            ttl_kept = s.ttl_kept;
            formed = s.formed;
            logged = λ k e l.
                let there = s.logged k e l in
                ground (
                  arith,
                  text_beq_iff k key,
                  lookup-erase key k log,
                  cong_lookup k key c.cache,
                  lookup-IsNone key c.cache absent,
                );
          },
          refl,
        )
        | inl found ↦ rw found (
          record {
            size_kept = s.size_kept;
            ttl_kept = s.ttl_kept;
            formed = record {
              unique = erase-IsUnique key c.cache s.formed.unique;
              bounded = omega (arith, length-erase-le key c.cache, s.formed.bounded);
            };
            logged = λ k e l.
                ground (arith, lookup-erase key k c.cache, lookup-erase key k log, s.logged k e);
          },
          refl,
        )
      ]

  sweep-IsSound :
      (m ttl : ℕ) (c : QueryCache R) (log : Dict Text (R × ℕ)) (now : ℕ)
      → IsSound m ttl c log
      → IsSound m ttl (evict_expired c now).1 log
        × (total (evict_expired c now).1.stats ≡ total c.stats)
  sweep-IsSound m ttl c log now s =
      let p : Text × CacheEntry R → Bool = λ x. not (expired now c.ttl x.1) in
      let (removed, e, n) = evict_expired-eq c now s.formed in
      rw e (
        record {
          size_kept = s.size_kept;
          ttl_kept = s.ttl_kept;
          formed = record {
            unique = keep-IsUnique p c.cache s.formed.unique;
            bounded = omega (arith, length-keep-le p c.cache, s.formed.bounded);
          };
          logged = λ k v l. s.logged k v (lookup-keep p k c.cache v s.formed.unique l);
        },
        refl,
      )

  clear-IsSound :
      (m ttl : ℕ) (c : QueryCache R) (log : Dict Text (R × ℕ))
      → IsSound m ttl c log
      → IsSound m ttl (clear c) []
  clear-IsSound m ttl c log s = record {
    size_kept = s.size_kept;
    ttl_kept = s.ttl_kept;
    formed = record { unique = tt; bounded = omega arith };
    logged = λ k e l. unfold lookup in cc;
  }

  apply-IsSound :
      (m ttl : ℕ) (c : QueryCache R) (log : Dict Text (R × ℕ)) (e : Event R)
      → 0 < m
      → IsSound m ttl c log
      → IsSound m ttl (apply c e) (latest log e)
        × (total (apply c e).stats ≡ asks e + total c.stats)
  unfolding apply latest
  apply-IsSound m ttl c log (asked query limit now) p s =
      after_get-IsSound m ttl c log query limit now s
  apply-IsSound m ttl c log (stored query limit results now) p s =
      let (c', e, g) =
        put_key-Stored c (make_key query limit) results now (omega (arith, s.size_kept)) in
      let (s', n) = put-IsSound m ttl c log (make_key query limit) results now c' p g s in
      unfold put in rw e (s', omega (arith, n))
  apply-IsSound m ttl c log (invalidated query limit) p s =
      let (s', n) = invalidate-IsSound m ttl c log query limit s in (s', omega (arith, n))
  apply-IsSound m ttl c log (swept now) p s =
      let (s', n) = sweep-IsSound m ttl c log now s in (s', omega (arith, n))
  apply-IsSound m ttl c log cleared p s = (clear-IsSound m ttl c log s, omega arith)

  pub apply_all-IsSound :
      (m ttl : ℕ) (c : QueryCache R) (log : Dict Text (R × ℕ)) (events : List (Event R))
      → 0 < m
      → IsSound m ttl c log
      → IsSound m ttl (apply_all c events) (latest_all log events)
        × (total (apply_all c events).stats ≡ asked_count events + total c.stats)
  unfolding apply_all latest_all asked_count
  apply_all-IsSound m ttl c log [] p s = (s, omega arith)
  apply_all-IsSound m ttl c log (e ∷ rest) p s =
      let (s', n) = apply-IsSound m ttl c log e p s in
      let (s'', n') = apply_all-IsSound m ttl (apply c e) (latest log e) rest p s' in
      (s'', omega (arith, n, n'))

  pub made-IsSound : (m ttl : ℕ) → IsSound m ttl (new_cache R m ttl) []
  made-IsSound m ttl = record {
    size_kept = refl;
    ttl_kept = refl;
    formed = record { unique = tt; bounded = omega arith };
    logged = λ k e l. unfold lookup in cc;
  }
