-- ===== src/Crawler/SimHash/Remove.antt =====
-- infomesh/crawler/simhash.py, `SimHashIndex.remove`.
use infomesh.Prelude.{
  ℕ, ◌≡◌, inl, inr, refl, true, false, List, [], ◌∷◌, arith, if◌then◌else◌, length, null, ◌==◌,
  nat_eq, nat_beq_iff, Bool-cases,
}
use infomesh.Prelude.Dict.{Dict, contains, insert, erase}
use infomesh.Prelude.Dict.Laws.{
  lookup-insert, lookup-erase, insert-IsUnique, erase-IsUnique, length-insert, length-erase-le,
}
use infomesh.Crawler.SimHash.{SimHashIndex, remove, remove_first}
use infomesh.Crawler.SimHash.Matches.{docs_at, IsIndex}

null→eq : (xs : List ℕ) → null xs ≡ true → xs ≡ []
null→eq [] h = refl
null→eq (x ∷ xs) h = cc

remove_first-null : (x : ℕ) (xs : List ℕ) → null xs ≡ true → remove_first x xs ≡ xs
unfolding remove_first
remove_first-null x [] h = refl
remove_first-null x (y ∷ xs) h = cc

length-insert_old :
    (k : ℕ) (v : List ℕ) (d : Dict ℕ (List ℕ))
    → null (docs_at d k) ≡ false
    → length (insert k v d) ≡ length d
length-insert_old k v d h = unfold contains in ground (arith, length-insert k v d)

module _ (index : SimHashIndex) (doc_id fingerprint : ℕ) where
  remaining : List ℕ
  remaining = remove_first doc_id (docs_at index.entries fingerprint)

  Removed : SimHashIndex → Type 0
  unfolding remaining
  Removed after =
      (IsIndex index → IsIndex after)
      × (after.max_entries ≡ index.max_entries)
      × ((k : ℕ)
          → docs_at after.entries k
            ≡ (if k == fingerprint then remaining else docs_at index.entries k))

  Removed-none : null (docs_at index.entries fingerprint) ≡ true → Removed index
  unfolding Removed remaining
  Removed-none h = (
    λ w. w,
    refl,
    λ k. ground (
      arith,
      nat_beq_iff k fingerprint,
      remove_first-null doc_id (docs_at index.entries fingerprint) h,
    ),
  )

  Removed-erase :
      null remaining ≡ true → Removed (record index { entries = erase fingerprint index.entries })
  unfolding Removed remaining
  Removed-erase h = (
    λ w. record {
      unique = erase-IsUnique fingerprint index.entries w.unique;
      inhabited = λ k e. w.inhabited k (ground (arith, lookup-erase fingerprint k index.entries));
      bounded = omega (arith, length-erase-le fingerprint index.entries, w.bounded);
    },
    refl,
    λ k. ground (
      arith,
      lookup-erase fingerprint k index.entries,
      null→eq (remove_first doc_id (docs_at index.entries fingerprint)) h,
    ),
  )

  Removed-insert :
      null (docs_at index.entries fingerprint) ≡ false
      → null remaining ≡ false
      → Removed (record index { entries = insert fingerprint remaining index.entries })
  unfolding Removed
  Removed-insert full h = (
    λ w. record {
      unique = insert-IsUnique fingerprint remaining index.entries w.unique;
      inhabited = λ k e. elim (Bool-cases (k == fingerprint)) [
        | inl same ↦
            (let gone : remaining ≡ [] =
                ground (arith, lookup-insert fingerprint k remaining index.entries) in
              ground arith)
        | inr other ↦
            w.inhabited k (ground (arith, lookup-insert fingerprint k remaining index.entries))
      ];
      bounded =
          omega (arith, length-insert_old fingerprint remaining index.entries full, w.bounded);
    },
    refl,
    λ k. ground (arith, lookup-insert fingerprint k remaining index.entries),
  )

remove-Removed :
    (index : SimHashIndex) (doc_id fingerprint : ℕ)
    → Removed index doc_id fingerprint (remove index doc_id fingerprint)
unfolding remove remaining
remove-Removed index doc_id fingerprint =
    elim (Bool-cases (null (docs_at index.entries fingerprint))) [
      | inl none_there ↦ rw none_there (Removed-none index doc_id fingerprint none_there)
      | inr some_there ↦
          rw some_there
            (elim (Bool-cases (null (remove_first doc_id (docs_at index.entries fingerprint)))) [
              | inl last ↦ rw last (Removed-erase index doc_id fingerprint last)
              | inr more ↦ rw more (Removed-insert index doc_id fingerprint some_there more)
            ])
    ]

-- Removing a document keeps a well-formed index well-formed and its bound, takes the first
-- occurrence of the document from the documents with the fingerprint, and changes no other ones.
pub remove-IsIndex :
    (index : SimHashIndex) (doc_id fingerprint : ℕ)
    → IsIndex index
    → IsIndex (remove index doc_id fingerprint)
      × ((remove index doc_id fingerprint).max_entries ≡ index.max_entries)
      × ((k : ℕ)
          → docs_at (remove index doc_id fingerprint).entries k ≡ (
              if k == fingerprint
              then remove_first doc_id (docs_at index.entries fingerprint)
              else docs_at index.entries k))
remove-IsIndex index doc_id fingerprint w =
    let r = remove-Removed index doc_id fingerprint in unfold Removed remaining in (r.0 w, r.1, r.2)
