-- ===== src/P2p/Dht/Merge.antt =====
-- infomesh/p2p/dht.py, `_merge_pointers`: the pointers that are kept.
use infomesh.Prelude.{
  ℕ, suc, ◌+◌, ◌<◌, ◌≡◌, refl, sym, ap, ◌∙◌, Bool, true, false, not, inl, inr, List, [], ◌∷◌, ◌++◌,
  arith, leb, leb→le, if◌then◌else◌, length, take, take_all, take-append_le, keep, Text, ◌==◌,
  Bool-cases, append_assoc, append-nil, length-append,
}
use infomesh.Prelude.Dict.{Dict, lookup, insert, contains}
use infomesh.Prelude.Dict.Laws.{insert_of_none, contains-insert, lookup-IsNone}
use infomesh.P2p.Dht.{PeerPointer, key_eq, pointer_key, merge_from, merge_pointers, values}

abbrev pub same_document : PeerPointer → PeerPointer → Bool
same_document p q = pointer_key p == pointer_key q

-- The first pointer to each document, in order.
unfoldable pub distinct : List PeerPointer → List PeerPointer
distinct [] = []
distinct (p ∷ ps) = p ∷ keep (λ q. not (same_document q p)) (distinct ps)

-- The pointers to documents that the dictionary has no key for.
unseen : Dict (Text × ℕ) PeerPointer → List PeerPointer → List PeerPointer
unseen merged ps = keep (λ q. not (contains (pointer_key q) merged)) ps

values-append : {K V : Type 0} (c d : Dict K V) → values (c ++ d) ≡ values c ++ values d
unfolding values
values-append [] d = refl
values-append ((k, v) ∷ c) d = ap (λ r. v ∷ r) (values-append c d)

length-values : {K V : Type 0} (d : Dict K V) → length (values d) ≡ length d
unfolding values
length-values [] = refl
length-values ((k, v) ∷ d) = ap suc (length-values d)

keep-keep :
    (p q r : PeerPointer → Bool) (xs : List PeerPointer)
    → ((x : PeerPointer) → (if q x then p x else false) ≡ r x)
    → keep p (keep q xs) ≡ keep r xs
keep-keep p q r [] h = refl
keep-keep p q r (x ∷ xs) h = ground (arith, h x, keep-keep p q r xs h)

-- A document that is there already adds nothing, a new one itself.
unseen-old :
    (m : Dict (Text × ℕ) PeerPointer) (p : PeerPointer) (ps : List PeerPointer)
    → contains (pointer_key p) m ≡ true
    → unseen m (distinct (p ∷ ps)) ≡ unseen m (distinct ps)
unfolding unseen distinct
unseen-old m p ps h = rw h (
    keep-keep (λ q. not (contains (pointer_key q) m)) (λ q. not (same_document q p))
      (λ q. not (contains (pointer_key q) m)) (distinct ps)
      (λ x.
        ground (arith, key_eq.same_iff (pointer_key x) (pointer_key p), ap (λ k. contains k m))))

unseen-new :
    (m : Dict (Text × ℕ) PeerPointer) (p : PeerPointer) (ps : List PeerPointer)
    → contains (pointer_key p) m ≡ false
    → unseen m (distinct (p ∷ ps)) ≡ p ∷ unseen (insert (pointer_key p) p m) (distinct ps)
unfolding unseen distinct
unseen-new m p ps h = rw h (
    ap (λ r. p ∷ r)
      (keep-keep (λ q. not (contains (pointer_key q) m)) (λ q. not (same_document q p))
        (λ q. not (contains (pointer_key q) (insert (pointer_key p) p m))) (distinct ps)
        (λ x. ground (arith, contains-insert (pointer_key p) (pointer_key x) p m))))

values-insert :
    (m : Dict (Text × ℕ) PeerPointer) (p : PeerPointer)
    → contains (pointer_key p) m ≡ false
    → values (insert (pointer_key p) p m) ≡ values m ++ p ∷ []
unfolding values
values-insert m p h =
    ap values (insert_of_none (pointer_key p) p m (lookup-IsNone (pointer_key p) m h))
    ∙ values-append m ((pointer_key p, p) ∷ [])

unseen_none : (m : Dict (Text × ℕ) PeerPointer) → unseen m (distinct []) ≡ []
unfolding unseen distinct
unseen_none m = refl

merge_from-eq :
    (limit : ℕ) (ps : List PeerPointer) (m : Dict (Text × ℕ) PeerPointer)
    → length m < limit
    → values (merge_from limit ps m) ≡ take limit (values m ++ unseen m (distinct ps))
unfolding merge_from
merge_from-eq limit [] m room = sym (
    ap (λ r. take limit (values m ++ r)) (unseen_none m)
    ∙ ap (take limit) (append-nil (values m))
    ∙ take_all limit (values m) (omega (arith, length-values m)))
merge_from-eq limit (p ∷ ps) m room = elim (Bool-cases (contains (pointer_key p) m)) [
  | inl old ↦
      let go_on : leb limit (length m) ≡ false = ground arith in
      rw (merge_from, old, go_on)
        (merge_from-eq limit ps m room
          ∙ ap (λ r. take limit (values m ++ r)) (sym (unseen-old m p ps old)))
  | inr new ↦
      let m' = insert (pointer_key p) p m in
      let size : length m' ≡ length m + 1 = omega (
        arith,
        sym (length-values m'),
        length-values m,
        ap length (values-insert m p new),
        length-append (values m) (p ∷ []),
      ) in
      let split : values m ++ unseen m (distinct (p ∷ ps)) ≡ values m' ++ unseen m' (distinct ps) =
        ap (λ r. values m ++ r) (unseen-new m p ps new)
        ∙ sym (append_assoc (values m) (p ∷ []) (unseen m' (distinct ps)))
        ∙ ap (λ r. r ++ unseen m' (distinct ps)) (sym (values-insert m p new)) in
      elim (Bool-cases (leb limit (length m'))) [
        | inl full ↦
            rw (merge_from, new, full)
              (sym (
                ap (take limit) split
                ∙ take-append_le limit (values m') (unseen m' (distinct ps))
                    (omega (arith, length-values m', leb→le limit (length m') full))
                ∙ take_all limit (values m') (omega (arith, length-values m'))))
        | inr more ↦
            rw (merge_from, new, more)
              (merge_from-eq limit ps m' (ground arith) ∙ ap (take limit) (sym split))
      ]
]

unseen-nil : (ps : List PeerPointer) → unseen [] ps ≡ ps
unfolding unseen contains lookup
unseen-nil [] = refl
unseen-nil (p ∷ ps) = ap (λ r. p ∷ r) (unseen-nil ps)

-- The merge keeps, of the new pointers and then the old ones, the first to each document of a peer, up
-- to the limit, in their order, where the limit is not 0.
pub merge_pointers-eq :
    (existing new : List PeerPointer) (limit : ℕ)
    → 0 < limit
    → merge_pointers existing new limit ≡ take limit (distinct (new ++ existing))
unfolding merge_pointers values
merge_pointers-eq existing new limit pos =
    merge_from-eq limit (new ++ existing) [] pos
    ∙ ap (take limit) (unseen-nil (distinct (new ++ existing)))
