-- ===== src/Crawler/SimHash/Index.antt =====
-- infomesh/crawler/simhash.py, `SimHashIndex.add`: its bound, and what it keeps.
use infomesh.Prelude.{
  ℕ, zero, suc, ◌+◌, ◌-◌, ◌≤◌, ◌<◌, ◌≡◌, ◌≢◌, refl, sym, ap, ◌∙◌, true, none, some, List, [], ◌∷◌,
  ◌++◌, arith, leb, if◌then◌else◌, length, drop, ◌==◌, nat_eq, nat_beq_iff, Bool-cases, inl, inr,
  length-drop,
}
use infomesh.Prelude.Dict.{Dict, lookup, pop_first, IsUnique}
use infomesh.Prelude.Dict.Laws.{
  lookup-insert, insert-IsUnique, length-insert, eq_refl, insert_of_none,
}
use infomesh.Prelude.Result.{ok, ok-injective}
use infomesh.Crawler.SimHash.{
  SimHashIndex, evict, append_to, add, find_near_duplicates, hamming_distance,
}
use infomesh.Crawler.SimHash.Matches.{
  docs_at, listed, listed-append_end, listed-append, IsIndex, find_near_duplicates_iff,
}

drop-pop_first : (n : ℕ) (d : Dict ℕ (List ℕ)) → drop n (pop_first d) ≡ drop (suc n) d
unfolding pop_first
drop-pop_first zero [] = refl
drop-pop_first (suc n) [] = refl
drop-pop_first n (x ∷ d) = refl

-- The loop drops the oldest entries until there is room for one.
pub evict-eq :
    (max_entries fuel : ℕ) (d : Dict ℕ (List ℕ))
    → 0 < max_entries
    → length d < fuel
    → evict max_entries fuel d ≡ ok (drop (suc (length d) - max_entries) d)
unfolding evict pop_first
evict-eq m zero d p l = absurd (omega arith)
evict-eq m (suc fuel) [] p l = ground arith
evict-eq m (suc fuel) (x ∷ d) p l = elim (Bool-cases (leb m (suc (length d)))) [
  | inl full ↦
      let e : suc (suc (length d)) - m ≡ suc (suc (length d) - m) = ground arith in
      rw (full, e) (evict-eq m fuel d p (omega arith))
  | inr room ↦ let e : suc (suc (length d)) - m ≡ 0 = ground arith in rw (room, e) refl
]

add-eq :
    (index : SimHashIndex) (doc_id fingerprint : ℕ)
    → 0 < index.max_entries
    → add index doc_id fingerprint
      ≡ ok (record index {
        entries =
            append_to fingerprint doc_id
              (drop (suc (length index.entries) - index.max_entries) index.entries);
      })
unfolding add
add-eq index doc_id fingerprint p =
    rw (evict-eq index.max_entries (length index.entries + 1) index.entries p (omega arith)) refl

drop-IsUnique : (n : ℕ) (d : Dict ℕ (List ℕ)) → IsUnique d → IsUnique (drop n d)
drop-IsUnique zero d u = u
drop-IsUnique (suc n) [] u = tt
drop-IsUnique (suc n) (x ∷ d) u = drop-IsUnique n d u.1

-- What is left after the drop was there before.
lookup-drop :
    (n k : ℕ) (d : Dict ℕ (List ℕ)) (v : List ℕ)
    → IsUnique d
    → lookup k (drop n d) ≡ some v
    → lookup k d ≡ some v
unfolding lookup
lookup-drop zero k d v u h = h
lookup-drop (suc n) k [] v u h = h
lookup-drop (suc n) k ((j, w) ∷ d) v u h = ground (arith, nat_beq_iff k j, lookup-drop n k d v u.1)

lookup-append_to :
    (fingerprint doc_id k : ℕ) (d : Dict ℕ (List ℕ))
    → lookup k (append_to fingerprint doc_id d)
      ≡ (if k == fingerprint then some (docs_at d fingerprint ++ doc_id ∷ []) else lookup k d)
unfolding append_to
lookup-append_to fingerprint doc_id k d =
    lookup-insert fingerprint k (docs_at d fingerprint ++ doc_id ∷ []) d

docs_at-append_to :
    (fingerprint doc_id : ℕ) (d : Dict ℕ (List ℕ))
    → docs_at (append_to fingerprint doc_id d) fingerprint ≡ docs_at d fingerprint ++ doc_id ∷ []
docs_at-append_to fingerprint doc_id d =
    ground (arith, lookup-append_to fingerprint doc_id fingerprint d, eq_refl fingerprint)

append_ne {ℓ} : {A : Type ℓ} (xs : List A) (a : A) → xs ++ a ∷ [] ≢ []
append_ne [] a h = cc
append_ne (x ∷ xs) a h = cc

append_to_new :
    (fingerprint doc_id : ℕ) (d : Dict ℕ (List ℕ))
    → lookup fingerprint d ≡ none
    → append_to fingerprint doc_id d ≡ d ++ (fingerprint, doc_id ∷ []) ∷ []
unfolding append_to
append_to_new fingerprint doc_id d h = rw h (insert_of_none fingerprint (doc_id ∷ []) d h)

length-append_to :
    (fingerprint doc_id : ℕ) (d : Dict ℕ (List ℕ))
    → length (append_to fingerprint doc_id d) ≤ length d + 1
unfolding append_to
length-append_to fingerprint doc_id d =
    ground (arith, length-insert fingerprint (docs_at d fingerprint ++ doc_id ∷ []) d)

module _ (d : Dict ℕ (List ℕ)) (max_entries : ℕ) (n : ℕ) (fingerprint doc_id : ℕ) where
  append_to-IsIndex :
      IsIndex (record { entries = d; max_entries = max_entries })
      → length (drop n d) < max_entries
      → IsIndex
          (record { entries = append_to fingerprint doc_id (drop n d); max_entries = max_entries })
  append_to-IsIndex w l = record {
    unique =
        unfold append_to in insert-IsUnique fingerprint _ (drop n d) (drop-IsUnique n d w.unique);
    inhabited = λ k h. elim (Bool-cases (k == fingerprint)) [
      | inl same ↦
          append_ne (docs_at (drop n d) fingerprint) doc_id
            (ground (arith, lookup-append_to fingerprint doc_id k (drop n d)))
      | inr other ↦ w.inhabited k (
          lookup-drop n k d [] w.unique
            (ground (arith, lookup-append_to fingerprint doc_id k (drop n d))))
    ];
    bounded = omega (arith, length-append_to fingerprint doc_id (drop n d));
  }

-- With room for at least one entry, adding to a well-formed index succeeds, keeps the index
-- well-formed and within its bound, and the document is found from every fingerprint that is near
-- the one that it was added with.
pub add-IsIndex :
    (index : SimHashIndex) (doc_id fingerprint other threshold : ℕ)
    → 0 < index.max_entries
    → IsIndex index
    → hamming_distance other fingerprint ≤ threshold
    → (after : SimHashIndex) × (add index doc_id fingerprint ≡ ok after)
      × IsIndex after
      × (after.max_entries ≡ index.max_entries)
      × (listed doc_id (find_near_duplicates after other threshold) ≡ true)
add-IsIndex index doc_id fingerprint other threshold p w near =
    let n = suc (length index.entries) - index.max_entries in
    let after : SimHashIndex = record index {
      entries = append_to fingerprint doc_id (drop n index.entries);
    } in
    let short : length (drop n index.entries) < index.max_entries =
      omega (arith, length-drop n index.entries, w.bounded) in
    let good : IsIndex after =
      append_to-IsIndex index.entries index.max_entries n fingerprint doc_id w short in
    (
      after,
      add-eq index doc_id fingerprint p,
      good,
      refl,
      (find_near_duplicates_iff after other threshold doc_id good).1 (
        fingerprint,
        rw (docs_at-append_to fingerprint doc_id (drop n index.entries))
            (listed-append_end doc_id (docs_at (drop n index.entries) fingerprint)),
        near,
      ),
    )

-- At capacity, adding a document with the oldest fingerprint drops every earlier document with
-- that fingerprint, although the fingerprint needs no new entry.
pub add_forgets :
    (fingerprint doc_id : ℕ) (ids : List ℕ) (rest : Dict ℕ (List ℕ))
    → lookup fingerprint rest ≡ none
    → add
        (record { entries = (fingerprint, ids) ∷ rest; max_entries = suc (length rest) })
        doc_id
        fingerprint
      ≡ ok (record {
        entries = rest ++ (fingerprint, doc_id ∷ []) ∷ [];
        max_entries = suc (length rest);
      })
add_forgets fingerprint doc_id ids rest h =
    let one : suc (suc (length rest)) - suc (length rest) ≡ 1 = omega arith in
    add-eq (record { entries = (fingerprint, ids) ∷ rest; max_entries = suc (length rest) }) doc_id
      fingerprint (omega arith)
    ∙ rw (one, append_to_new fingerprint doc_id rest h) refl

-- As long as there is room, adding only appends.
add-room :
    (index after : SimHashIndex) (doc_id fingerprint : ℕ)
    → length index.entries < index.max_entries
    → add index doc_id fingerprint ≡ ok after
    → append_to fingerprint doc_id index.entries ≡ after.entries
add-room index after doc_id fingerprint room e =
    let none_dropped : suc (length index.entries) - index.max_entries ≡ 0 = omega arith in
    ap (λ i. i.entries)
      (ok-injective (
        sym (
          ap
            (λ n.
              ok (record index { entries = append_to fingerprint doc_id (drop n index.entries) }))
            none_dropped)
        ∙ sym (add-eq index doc_id fingerprint (omega arith))
        ∙ e))

pub add_places :
    (index after : SimHashIndex) (doc_id fingerprint : ℕ)
    → length index.entries < index.max_entries
    → add index doc_id fingerprint ≡ ok after
    → (listed doc_id (docs_at after.entries fingerprint) ≡ true)
      × (length after.entries ≤ length index.entries + 1)
add_places index after doc_id fingerprint room e =
    rw (sym (add-room index after doc_id fingerprint room e)) (
      ap (listed doc_id) (docs_at-append_to fingerprint doc_id index.entries)
          ∙ listed-append_end doc_id (docs_at index.entries fingerprint),
      length-append_to fingerprint doc_id index.entries,
    )

pub add_keeps :
    (index after : SimHashIndex) (doc_id fingerprint x stored : ℕ)
    → length index.entries < index.max_entries
    → add index doc_id fingerprint ≡ ok after
    → listed x (docs_at index.entries stored) ≡ true
    → listed x (docs_at after.entries stored) ≡ true
add_keeps index after doc_id fingerprint x stored room e l =
    rw (sym (add-room index after doc_id fingerprint room e)) (
      ground (
        arith,
        l,
        lookup-append_to fingerprint doc_id stored index.entries,
        nat_beq_iff stored fingerprint,
        listed-append x (docs_at index.entries fingerprint) (doc_id ∷ []),
        ap (docs_at index.entries),
      ))
