-- ===== src/Index/Distributed/Query.antt =====
-- infomesh/index/distributed.py, `query`: the scores and the order of the results.
use infomesh.Prelude.{
  map, ℕ, ◌+◌, ◌≤◌, ◌≡◌, refl, sym, ap, subst, ◌∙◌, append-nil, append_assoc, true, inl, inr,
  Option, none, some, List, [], ◌∷◌, ◌++◌, arith, if◌then◌else◌, Text, ◌==◌, Bool-cases,
  Option-cases, All,
}
use infomesh.Prelude.Dict.{Dict, lookup, insert, contains, IsUnique}
use infomesh.Prelude.Dict.Laws.{insert-IsUnique}
use infomesh.Prelude.Hash.{Sha256}
use infomesh.P2p.Dht.{PeerPointer, Kad, DhtNode, key_eq, pair_beq_iff, pointer_key, values}
use infomesh.P2p.Dht.Node.{query_keyword}
use infomesh.Index.Distributed.{
  DistributedIndex, place, sorted_down, score_of, add_scores, or_half, with_score, query_all, query,
}
use infomesh.Index.Distributed.Sorted.{IsDescending, sorted_down-IsDescending}

-- the sum of a measure over the pointers to one document
unfoldable pub total : (PeerPointer → ℕ) → Text × ℕ → List PeerPointer → ℕ
total g k [] = 0
total g k (p ∷ ps) = (if k == pointer_key p then g p else 0) + total g k ps

abbrev pub once : PeerPointer → ℕ
once p = 1

total-append :
    (g : PeerPointer → ℕ) (k : Text × ℕ) (ps qs : List PeerPointer)
    → total g k (ps ++ qs) ≡ total g k ps + total g k qs
unfolding total
total-append g k [] qs = omega arith
total-append g k (p ∷ ps) qs = omega (arith, total-append g k ps qs)

total-place :
    (g : PeerPointer → ℕ) (k : Text × ℕ) (p : PeerPointer) (ps : List PeerPointer)
    → total g k (place score_of p ps) ≡ total g k (p ∷ ps)
unfolding total place
total-place g k p [] = refl
total-place g k p (q ∷ ps) = ground (arith, total-place g k p ps)

total-sorted_down :
    (g : PeerPointer → ℕ) (k : Text × ℕ) (ps : List PeerPointer)
    → total g k (sorted_down score_of ps) ≡ total g k ps
unfolding total sorted_down
total-sorted_down g k [] = refl
total-sorted_down g k (p ∷ ps) =
    omega (arith, total-place g k p (sorted_down score_of ps), total-sorted_down g k ps)

-- A pointer with a score.
abbrev pub HasScore : PeerPointer → Type 0
HasScore p = (n : ℕ) × (p.score ≡ some n)

-- Every pointer stands under its own key, with a score.
abbrev Keyed : Dict (Text × ℕ) PeerPointer → Type 0
Keyed d = All (λ (k, p). (pointer_key p ≡ k) × HasScore p) d

insert-Keyed :
    (p : PeerPointer) (d : Dict (Text × ℕ) PeerPointer)
    → HasScore p
    → Keyed d
    → Keyed (insert (pointer_key p) p d)
unfolding insert
insert-Keyed p [] s h = ((refl, s), tt)
insert-Keyed p ((j, q) ∷ d) s h = elim (Bool-cases (pointer_key p == j)) [
  | inl here ↦ rw here (((pair_beq_iff (pointer_key p) j).0 here, s), h.1)
  | inr there ↦ rw there (h.0, insert-Keyed p d s h.1)
]

total-insert_new :
    (k : Text × ℕ) (p : PeerPointer) (d : Dict (Text × ℕ) PeerPointer)
    → lookup (pointer_key p) d ≡ none
    → total score_of k (values (insert (pointer_key p) p d))
      ≡ total score_of k (values d) + total score_of k (p ∷ [])
unfolding total values insert lookup
total-insert_new k p [] h = omega arith
total-insert_new k p ((j, q) ∷ d) h = ground (arith, total-insert_new k p d)

-- `q` with the score of `p` added
abbrev joined : PeerPointer → PeerPointer → PeerPointer
joined q p = record q { score = some (score_of q + or_half p.score) }

half_unused : (p : PeerPointer) → HasScore p → or_half p.score ≡ score_of p
half_unused p (n, e) = rw e refl

same_pointer : {p q : PeerPointer} → ◌≡◌ {A = Option PeerPointer} (some p) (some q) → p ≡ q
same_pointer e = cc

lookup_here :
    (k j : Text × ℕ) (r : PeerPointer) (d : Dict (Text × ℕ) PeerPointer) {o : Option PeerPointer}
    → lookup k ((j, r) ∷ d) ≡ o
    → (k == j) ≡ true
    → some r ≡ o
unfolding lookup
lookup_here k j r d e here = sym (rw here refl) ∙ e

total-insert_old :
    (k : Text × ℕ) (p q : PeerPointer) (d : Dict (Text × ℕ) PeerPointer)
    → HasScore p
    → Keyed d
    → lookup (pointer_key p) d ≡ some q
    → total score_of k (values (insert (pointer_key p) (joined q p) d))
      ≡ total score_of k (values d) + total score_of k (p ∷ [])
unfolding total values insert lookup
total-insert_old k p q [] s h e = cc
total-insert_old k p q ((j, r) ∷ d) s h e = elim (Bool-cases (pointer_key p == j)) [
  | inl here ↦
      let same = same_pointer (lookup_here (pointer_key p) j r d e here) in
      let at_r : pointer_key r ≡ pointer_key p =
        h.0.0 ∙ sym ((pair_beq_iff (pointer_key p) j).0 here) in
      let at_q : pointer_key q ≡ pointer_key p = ap pointer_key (sym same) ∙ at_r in
      rw here (
        ground
          (arith, ap (λ t. k == t) at_q, ap (λ t. k == t) at_r, ap score_of same, half_unused p s))
  | inr there ↦ rw there (omega (arith, total-insert_old k p q d s h.1 (ground arith)))
]

Keyed-lookup :
    (k : Text × ℕ) (q : PeerPointer) (d : Dict (Text × ℕ) PeerPointer)
    → Keyed d
    → lookup k d ≡ some q
    → (pointer_key q ≡ k) × HasScore q
unfolding lookup
Keyed-lookup k q [] h e = cc
Keyed-lookup k q ((j, r) ∷ d) h e = elim (Bool-cases (k == j)) [
  | inl here ↦
      let same = same_pointer (lookup_here k j r d e here) in
      (
        ap pointer_key (sym same) ∙ h.0.0 ∙ sym ((pair_beq_iff k j).0 here),
        subst HasScore same h.0.1,
      )
  | inr there ↦ Keyed-lookup k q d h.1 (ground arith)
]

-- Each document counts once.
total-once :
    (k : Text × ℕ) (d : Dict (Text × ℕ) PeerPointer)
    → Keyed d
    → IsUnique d
    → total once k (values d) ≡ (if contains k d then 1 else 0)
unfolding total values contains lookup
total-once k [] h u = refl
total-once k ((j, r) ∷ d) h u = elim (Bool-cases (k == j)) [
  | inl here ↦
      let absent : lookup k d ≡ none = ap (λ t. lookup t d) ((pair_beq_iff k j).0 here) ∙ u.0 in
      ground (arith, total-once k d h.1 u.1, ap (λ t. k == t) h.0.0, here, absent)
  | inr there ↦ ground (arith, total-once k d h.1 u.1, ap (λ t. k == t) h.0.0, there)
]

-- The dictionary of `query`: every pointer under its key, each key once, and the totals of `found`.
record IsSummed (d : Dict (Text × ℕ) PeerPointer) (found : List PeerPointer) : Type 0 where
  keyed : Keyed d
  unique : IsUnique d
  sums : (k : Text × ℕ) → total score_of k (values d) ≡ total score_of k found

IsSummed-insert :
    (p p' : PeerPointer) (d : Dict (Text × ℕ) PeerPointer) (found : List PeerPointer)
    → pointer_key p' ≡ pointer_key p
    → HasScore p'
    → ((k : Text × ℕ)
        → total score_of k (values (insert (pointer_key p) p' d))
          ≡ total score_of k (values d) + total score_of k (p ∷ []))
    → IsSummed d found
    → IsSummed (insert (pointer_key p) p' d) (found ++ p ∷ [])
IsSummed-insert p p' d found same scored sum i = record {
  keyed = subst (λ k. Keyed (insert k p' d)) same (insert-Keyed p' d scored i.keyed);
  unique = insert-IsUnique (pointer_key p) p' d i.unique;
  sums = λ k. omega (arith, sum k, i.sums k, total-append score_of k found (p ∷ []));
}

-- How one pointer with a score changes the dictionary.
add_scores-known :
    (p q : PeerPointer) (ps : List PeerPointer) (d : Dict (Text × ℕ) PeerPointer)
    → lookup (pointer_key p) d ≡ some q
    → HasScore q
    → add_scores (p ∷ ps) d ≡ add_scores ps (insert (pointer_key p) (joined q p) d)
unfolding add_scores
add_scores-known p q ps d old (n, e) = rw (add_scores, old, e) refl

add_scores-new :
    (p : PeerPointer) (ps : List PeerPointer) (d : Dict (Text × ℕ) PeerPointer)
    → lookup (pointer_key p) d ≡ none
    → add_scores (p ∷ ps) d ≡ add_scores ps (insert (pointer_key p) p d)
unfolding add_scores
add_scores-new p ps d new = rw (add_scores, new) refl

add_scores-IsSummed :
    (ps : List PeerPointer) (d : Dict (Text × ℕ) PeerPointer) (found : List PeerPointer)
    → All HasScore ps
    → IsSummed d found
    → (d' : Dict (Text × ℕ) PeerPointer) × (add_scores ps d ≡ some d') × IsSummed d' (found ++ ps)
unfolding add_scores
add_scores-IsSummed [] d found s i = (d, refl, subst (IsSummed d) (sym (append-nil found)) i)
add_scores-IsSummed (p ∷ ps) d found s i = elim (Option-cases (lookup (pointer_key p) d)) [
  | inl new ↦
      let (d', e, j) =
        add_scores-IsSummed ps (insert (pointer_key p) p d) (found ++ p ∷ []) s.1
          (IsSummed-insert p p d found refl s.0 (λ k. total-insert_new k p d new) i) in
      (d', add_scores-new p ps d new ∙ e, subst (IsSummed d') (append_assoc found (p ∷ []) ps) j)
  | inr (q, old) ↦
      let (key, has) = Keyed-lookup (pointer_key p) q d i.keyed old in
      let (d', e, j) =
        add_scores-IsSummed ps (insert (pointer_key p) (joined q p) d) (found ++ p ∷ []) s.1 (
          IsSummed-insert p (joined q p) d found key (_, refl)
            (λ k. total-insert_old k p q d s.0 i.keyed old) i) in
      (
        d',
        add_scores-known p q ps d old has ∙ e,
        subst (IsSummed d') (append_assoc found (p ∷ []) ps) j,
      )
]

total-map :
    (g : PeerPointer → ℕ) (k : Text × ℕ) (ps : List PeerPointer)
    → ((p : PeerPointer) → g (with_score p) ≡ g p)
    → total g k (map with_score ps) ≡ total g k ps
unfolding total
total-map g k [] same = refl
total-map g k (p ∷ ps) same = ground (arith, same p, total-map g k ps same)

All-map_below :
    (n : ℕ) (ps : List PeerPointer)
    → All (λ q. score_of q ≤ n) ps
    → All (λ q. score_of q ≤ n) (map with_score ps)
All-map_below n [] a = tt
All-map_below n (q ∷ ps) a = (a.0, All-map_below n ps a.1)

map-IsDescending :
    (ps : List PeerPointer) → IsDescending score_of ps → IsDescending score_of (map with_score ps)
map-IsDescending [] a = tt
map-IsDescending (p ∷ ps) a = (All-map_below (score_of p) ps a.0, map-IsDescending ps a.1)

All-left : (xs ys : List PeerPointer) → All HasScore (xs ++ ys) → All HasScore xs × All HasScore ys
All-left [] ys a = (tt, a)
All-left (x ∷ xs) ys a = let (l, r) = All-left xs ys a.1 in ((a.0, l), r)

module _ ⦃h : Sha256⦄ {N : Type 0} ⦃kad : Kad N⦄ where
  -- What the DHT answers for the keywords, one after the other.
  unfoldable pub all_found : DhtNode → N → List Text → List PeerPointer
  all_found node net [] = []
  all_found node net (kw ∷ kws) =
      let (pointers, node') = query_keyword node net kw in pointers ++ all_found node' net kws

  query_all-step :
      (node : DhtNode) (net : N) (kw : Text) (kws : List Text) (d d' : Dict (Text × ℕ) PeerPointer)
      → add_scores (query_keyword node net kw).0 d ≡ some d'
      → query_all node net (kw ∷ kws) d ≡ query_all (query_keyword node net kw).1 net kws d'
  unfolding query_all
  query_all-step node net kw kws d d' e = rw (query_all, e) refl

  query_all-IsSummed :
      (node : DhtNode) (net : N) (kws : List Text) (d : Dict (Text × ℕ) PeerPointer)
      (found : List PeerPointer)
      → All HasScore (all_found node net kws)
      → IsSummed d found
      → (d' : Dict (Text × ℕ) PeerPointer) × ((query_all node net kws d).0 ≡ some d')
        × IsSummed d' (found ++ all_found node net kws)
  unfolding query_all all_found
  query_all-IsSummed node net [] d found s i =
      (d, refl, subst (IsSummed d) (sym (append-nil found)) i)
  query_all-IsSummed node net (kw ∷ kws) d found s i =
      let (pointers, node') = query_keyword node net kw in
      let (here, rest) = All-left pointers (all_found node' net kws) s in
      let (d₁, e₁, i₁) = add_scores-IsSummed pointers d found here i in
      let (d₂, e₂, i₂) = query_all-IsSummed node' net kws d₁ (found ++ pointers) rest i₁ in
      (
        d₂,
        ap (λ r. r.0) (query_all-step node net kw kws d d₁ e₁) ∙ e₂,
        subst (IsSummed d₂) (append_assoc found pointers (all_found node' net kws)) i₂,
      )

  query-some :
      (index : DistributedIndex) (net : N) (keywords : List Text) (d : Dict (Text × ℕ) PeerPointer)
      → (query_all index.dht net keywords []).0 ≡ some d
      → (query index net keywords).0 ≡ some (map with_score (sorted_down score_of (values d)))
  unfolding query
  query-some index net keywords d e = rw (query, e) refl

  -- Where every pointer that the DHT has for the keywords carries a score, `query` returns. Its
  -- results then name each document of a peer once at most, with the sum of the scores of all those
  -- pointers to it, and stand in descending order of the scores.
  pub query-IsDescending :
      (index : DistributedIndex) (net : N) (keywords : List Text)
      → All HasScore (all_found index.dht net keywords)
      → (results : List PeerPointer) × ((query index net keywords).0 ≡ some results)
        × ((k : Text × ℕ)
            → (total score_of k results ≡ total score_of k (all_found index.dht net keywords))
              × (total once k results ≤ 1))
        × IsDescending score_of results
  unfolding total values
  query-IsDescending index net keywords scored =
      let (d, e, i) =
        query_all-IsSummed index.dht net keywords [] [] scored
          (record { keyed = tt; unique = tt; sums = λ j. refl }) in
      let ranked = sorted_down score_of (values d) in
      (
        map with_score ranked,
        query-some index net keywords d e,
        λ k. (
          total-map score_of k ranked (λ p. refl)
              ∙ (total-sorted_down score_of k (values d) ∙ i.sums k),
          ground (
            arith,
            total-map once k ranked (λ p. refl),
            total-sorted_down once k (values d),
            total-once k d i.keyed i.unique,
          ),
        ),
        map-IsDescending ranked (sorted_down-IsDescending score_of (values d)),
      )
