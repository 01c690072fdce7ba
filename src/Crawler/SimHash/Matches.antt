-- ===== src/Crawler/SimHash/Matches.antt =====
-- infomesh/crawler/simhash.py, `SimHashIndex`: the documents that a search finds.
use infomesh.Prelude.{
  ◌⊎◌, subst, ℕ, ◌≤◌, ◌≡◌, ◌≢◌, ◌↔◌, refl, Bool, true, false, none, some, List, [], ◌∷◌, ◌++◌,
  arith, leb, if◌then◌else◌, length, ◌==◌, nat_eq, nat_beq_iff, Bool-cases, inl, inr,
}
use infomesh.Prelude.Dict.{Dict, lookup, IsUnique}
use infomesh.Prelude.Dict.Laws.{eq_refl}
use infomesh.Crawler.SimHash.{
  SimHashIndex, or_none, matches_in, find_near_duplicates, hamming_distance,
}

-- The documents with a fingerprint.
abbrev pub docs_at : Dict ℕ (List ℕ) → ℕ → List ℕ
docs_at entries fingerprint = or_none (lookup fingerprint entries)

abbrev pub listed : ℕ → List ℕ → Bool
listed x [] = false
listed x (y ∷ ys) = if x == y then true else listed x ys

pub listed-append :
    (x : ℕ) (xs ys : List ℕ) → listed x (xs ++ ys) ≡ (if listed x xs then true else listed x ys)
listed-append x [] ys = refl
listed-append x (y ∷ xs) ys = ground (arith, listed-append x xs ys)

pub listed-append_end : (x : ℕ) (xs : List ℕ) → listed x (xs ++ x ∷ []) ≡ true
listed-append_end x xs = ground (arith, listed-append x xs (x ∷ []))

-- Keys stand once, no fingerprint is kept without a document, and the bound is kept.
pub record IsIndex (index : SimHashIndex) : Type 0 where
  pub unique : IsUnique index.entries
  pub inhabited : (fingerprint : ℕ) → lookup fingerprint index.entries ≢ some []
  pub bounded : length index.entries ≤ index.max_entries

module _ (x stored : ℕ) (ids : List ℕ) (d : Dict ℕ (List ℕ)) where
  docs_at-head : listed x ids ≡ true → listed x (docs_at ((stored, ids) ∷ d) stored) ≡ true
  unfolding lookup
  docs_at-head h = ground (arith, eq_refl stored)

  docs_at-tail :
      (s : ℕ)
      → lookup stored d ≡ none
      → listed x (docs_at d s) ≡ true
      → listed x (docs_at ((stored, ids) ∷ d) s) ≡ true
  unfolding lookup
  docs_at-tail s u h = ground (arith, nat_beq_iff s stored)

  docs_at-cons :
      (s : ℕ)
      → listed x (docs_at ((stored, ids) ∷ d) s) ≡ true
      → ((s ≡ stored) × (listed x ids ≡ true)) ⊎ (listed x (docs_at d s) ≡ true)
  unfolding lookup
  docs_at-cons s h = ground (arith, nat_beq_iff s stored)

  matches_in-head :
      (fingerprint threshold : ℕ)
      → listed x (matches_in fingerprint threshold ((stored, ids) ∷ d)) ≡ (
          if leb (hamming_distance fingerprint stored) threshold
          then (if listed x ids then true else listed x (matches_in fingerprint threshold d))
          else listed x (matches_in fingerprint threshold d))
  unfolding matches_in
  matches_in-head fingerprint threshold =
      elim (Bool-cases (leb (hamming_distance fingerprint stored) threshold)) [
        | inl near ↦ rw near (listed-append x ids (matches_in fingerprint threshold d))
        | inr far ↦ rw far refl
      ]

-- A document is found exactly when it stands with a fingerprint that is near enough.
matches_in_iff :
    (fingerprint threshold x : ℕ) (d : Dict ℕ (List ℕ))
    → IsUnique d
    → (listed x (matches_in fingerprint threshold d) ≡ true) ↔ (
        (stored : ℕ) × (listed x (docs_at d stored) ≡ true)
        × (hamming_distance fingerprint stored ≤ threshold))
matches_in_iff fingerprint threshold x [] u =
    (unfold matches_in in λ h. cc, unfold lookup in λ s. cc)
matches_in_iff fingerprint threshold x ((stored, ids) ∷ d) u =
    let ih = matches_in_iff fingerprint threshold x d u.1 in
    let step = matches_in-head x stored ids d fingerprint threshold in
    let near = hamming_distance fingerprint stored ≤ threshold in
    let split : listed x (matches_in fingerprint threshold ((stored, ids) ∷ d)) ≡ true
        → (near × (listed x ids ≡ true)) ⊎ (listed x (matches_in fingerprint threshold d) ≡ true) =
      λ h. ground (arith, step) in
    (
      λ h. elim (split h) [
        | inl (n, l) ↦ (stored, docs_at-head x stored ids d l, n)
        | inr r ↦
            let found = ih.0 r in
            (found.0, docs_at-tail x stored ids d found.0 u.0 found.1, found.2)
      ],
      λ s. elim (docs_at-cons x stored ids d s.0 s.1) [
        | inl (e, l) ↦
            let n : near = subst (λ n. hamming_distance fingerprint n ≤ threshold) e s.2 in
            ground (arith, step)
        | inr r ↦ let rest = ih.1 (s.0, r, s.2) in ground (arith, step)
      ],
    )

-- In a well-formed index, find_near_duplicates lists a document exactly when the document stands
-- with a fingerprint that differs from the given one in at most `threshold` bits.
pub find_near_duplicates_iff :
    (index : SimHashIndex) (fingerprint threshold x : ℕ)
    → IsIndex index
    → (listed x (find_near_duplicates index fingerprint threshold) ≡ true) ↔ (
        (stored : ℕ) × (listed x (docs_at index.entries stored) ≡ true)
        × (hamming_distance fingerprint stored ≤ threshold))
unfolding find_near_duplicates
find_near_duplicates_iff index fingerprint threshold x w =
    matches_in_iff fingerprint threshold x index.entries w.unique
