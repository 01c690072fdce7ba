-- ===== src/Index/Distributed/Gather.antt =====
-- infomesh/index/distributed.py, `publish_batch`: the pointers that are gathered for a keyword.
use infomesh.Prelude.{
  ◌≤◌, ◌≡◌, refl, sym, ap, ◌∙◌, ◌||◌, inl, inr, List, [], ◌∷◌, ◌++◌, arith, ltb, if◌then◌else◌,
  length, length-append, take, take_all, take-append_le, append_assoc, append-nil, null, nat_eq,
  Text, text_eq, ◌==◌, text_beq_iff, Bool-cases,
}
use infomesh.Prelude.Dict.{Dict, lookup}
use infomesh.Prelude.Dict.Laws.{lookup-insert}
use infomesh.P2p.Dht.{PeerPointer, max_pointers_per_keyword}
use infomesh.Index.Distributed.{
  WordFinder, Document, member, or_empty, add_pointer, add_pointers, keywords_of, pointer_of,
  gather, max_keywords_per_doc,
}
use infomesh.Index.Distributed.Keywords.{IsDistinct, extract_keywords-IsDistinct}

abbrev pub at : Text → Dict Text (List PeerPointer) → List PeerPointer
at k d = or_empty (lookup k d)

-- one pointer more, up to the limit
abbrev with_pointer : PeerPointer → List PeerPointer → List PeerPointer
with_pointer p ps = if ltb (length ps) max_pointers_per_keyword then ps ++ p ∷ [] else ps

at-add_pointer :
    (k j : Text) (p : PeerPointer) (d : Dict Text (List PeerPointer))
    → at k (add_pointer p j d) ≡ (if k == j then with_pointer p (at k d) else at k d)
unfolding add_pointer
at-add_pointer k j p d =
    ground
      (arith, lookup-insert j k (with_pointer p (at j d)) d, text_beq_iff k j, ap (λ t. at t d))

at-add_pointers :
    (k : Text) (p : PeerPointer) (ks : List Text) (d : Dict Text (List PeerPointer))
    → IsDistinct ks
    → at k (add_pointers p ks d) ≡ (if member k ks then with_pointer p (at k d) else at k d)
unfolding add_pointers
at-add_pointers k p [] d u = refl
at-add_pointers k p (j ∷ ks) d u =
    at-add_pointers k p ks (add_pointer p j d) u.1
    ∙ ground (arith, at-add_pointer k j p d, text_beq_iff k j, u.0, ap (λ t. member t ks))

-- The pointers to the documents that have the keyword, in the order of the documents.
unfoldable pub pointers_for : ⦃f : WordFinder⦄ → Text → Text → List Document → List PeerPointer
pointers_for peer_id k [] = []
pointers_for peer_id k (doc ∷ docs) =
    let rest = pointers_for peer_id k docs in
    if member k (keywords_of doc) then pointer_of peer_id doc ∷ rest else rest

keywords_of-IsDistinct : ⦃f : WordFinder⦄ → (doc : Document) → IsDistinct (keywords_of doc)
unfolding keywords_of
keywords_of-IsDistinct doc = elim (Bool-cases (doc.doc_id == 0)) [
  | inl bad ↦ rw (keywords_of, bad) tt
  | inr good ↦ elim (Bool-cases (null doc.url || null doc.text)) [
    | inl empty ↦ rw (keywords_of, good, empty) tt
    | inr full ↦
        rw (keywords_of, good, full) (extract_keywords-IsDistinct doc.text max_keywords_per_doc).0
  ]
]

take-with_pointer :
    (p : PeerPointer) (ps qs : List PeerPointer)
    → length ps ≤ max_pointers_per_keyword
    → (take max_pointers_per_keyword (with_pointer p ps ++ qs)
        ≡ take max_pointers_per_keyword (ps ++ p ∷ qs))
      × (length (with_pointer p ps) ≤ max_pointers_per_keyword)
take-with_pointer p ps qs h = elim (Bool-cases (ltb (length ps) max_pointers_per_keyword)) [
  | inl room ↦ rw room (
    ap (take max_pointers_per_keyword) (append_assoc ps (p ∷ []) qs),
    ground (arith, length-append ps (p ∷ [])),
  )
  | inr full ↦ rw full (
    take-append_le max_pointers_per_keyword ps qs (ground arith)
        ∙ sym (take-append_le max_pointers_per_keyword ps (p ∷ qs) (ground arith)),
    h,
  )
]

at-gather :
    ⦃f : WordFinder⦄
    → (peer_id k : Text) (docs : List Document) (d : Dict Text (List PeerPointer))
    → length (at k d) ≤ max_pointers_per_keyword
    → at k (gather peer_id docs d)
      ≡ take max_pointers_per_keyword (at k d ++ pointers_for peer_id k docs)
unfolding gather pointers_for
at-gather peer_id k [] d h = sym (
    ap (take max_pointers_per_keyword) (append-nil (at k d))
    ∙ take_all max_pointers_per_keyword (at k d) h)
at-gather peer_id k (doc ∷ docs) d h =
    let p = pointer_of peer_id doc in
    let d' = add_pointers p (keywords_of doc) d in
    let e = at-add_pointers k p (keywords_of doc) d (keywords_of-IsDistinct doc) in
    let (taken, small) = take-with_pointer p (at k d) (pointers_for peer_id k docs) h in
    elim (Bool-cases (member k (keywords_of doc))) [
      | inl has ↦
          let e' : at k d' ≡ with_pointer p (at k d) = e ∙ rw has refl in
          rw (gather, has)
            (at-gather peer_id k docs d' (rw e' small)
              ∙ ap (λ r. take max_pointers_per_keyword (r ++ pointers_for peer_id k docs)) e'
              ∙ taken)
      | inr has_not ↦
          let e' : at k d' ≡ at k d = e ∙ rw has_not refl in
          rw (gather, has_not)
            (at-gather peer_id k docs d' (rw e' h)
              ∙ ap (λ r. take max_pointers_per_keyword (r ++ pointers_for peer_id k docs)) e')
    ]

-- For each keyword `publish_batch` gathers the pointers to the documents that have it, in their order,
-- up to 100 of them.
pub gather-eq :
    ⦃f : WordFinder⦄
    → (peer_id k : Text) (docs : List Document)
    → or_empty (lookup k (gather peer_id docs []))
      ≡ take max_pointers_per_keyword (pointers_for peer_id k docs)
unfolding lookup
gather-eq peer_id k docs = at-gather peer_id k docs [] (omega arith)
