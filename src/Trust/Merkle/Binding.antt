-- ===== src/Trust/Merkle/Binding.antt =====
-- infomesh/trust/merkle.py, `verify_proof` and `verify_document`: what an accepted proof binds.
use infomesh.Prelude.{
  In, All, subst, ℕ, ◌≡◌, refl, ap, ◌⊎◌, inl, inr, true, some, List, [], ◌∷◌, ◌++◌, arith, length,
  get_elem?, Text, bytes, Bool-cases, ◌==◌, text_eq, text_beq_iff, sym, ◌∙◌, append_cancel_left,
  append_cancel_right,
}
use infomesh.Prelude.Hash.{Sha256, Collision, hexdigest, hex-injective, length-hexdigest}
use infomesh.Prelude.Result.{ok, ok-injective}
use infomesh.Trust.Merkle.{
  ProofSide, left, right, MerkleProof, MerkleTree, hash_pair, hash_leaf, build, get_proof, combine,
  fold_path, verify_document,
}
use infomesh.Trust.Merkle.Proof.{verify_document-get_proof}

-- The sides of the steps of a path.
abbrev pub sides : List (Text × ProofSide) → List ProofSide
sides [] = []
sides (step ∷ rest) = step.1 ∷ sides rest

In-All : (P : Text → Type 0) (xs : List Text) → ((x : Text) → In x xs → P x) → All P xs
In-All P [] f = tt
In-All P (x ∷ xs) f = (f x (inl refl), In-All P xs (λ y i. f y (inr i)))

module _ ⦃h : Sha256⦄ where
  -- What is hashed on the way from a hash up a path.
  abbrev pub hashed_above : Text → List (Text × ProofSide) → List Text
  hashed_above current [] = []
  hashed_above current ((s, left) ∷ rest) = (s ++ current) ∷ hashed_above (hash_pair s current) rest
  hashed_above current ((s, right) ∷ rest) =
      (current ++ s) ∷ hashed_above (hash_pair current s) rest

  -- What `verify_document` hashes for a document and a path.
  abbrev pub hashed_for : Text → List (Text × ProofSide) → List Text
  hashed_for d path = (bytes "leaf:" ++ d) ∷ hashed_above (hash_leaf d) path

  length-hash_pair : (a b : Text) → length (hash_pair a b) ≡ 64
  unfolding hash_pair
  length-hash_pair a b = length-hexdigest (a ++ b)

  length-hash_leaf : (d : Text) → length (hash_leaf d) ≡ 64
  unfolding hash_leaf
  length-hash_leaf d = length-hexdigest (bytes "leaf:" ++ d)

  module _ (P : Text → Type 0) where
    hexdigest-binds : (x y : Text) → P x → P y → hexdigest x ≡ hexdigest y → (x ≡ y) ⊎ Collision P
    unfolding hexdigest
    hexdigest-binds x y in_x in_y e = elim (Bool-cases (x == y)) [
      | inl same ↦ inl ((text_beq_iff x y).0 same)
      | inr other ↦ inr (
        x,
        y,
        in_x,
        in_y,
        (λ p. cc ((text_beq_iff x y).1 p)),
        hex-injective (h.digest x) (h.digest y) (h.digest-IsBytes x) (h.digest-IsBytes y) e,
      )
    ]

    hash_pair-binds :
        (a b c d : Text)
        → P (a ++ b)
        → P (c ++ d)
        → (length a ≡ length c) ⊎ (length b ≡ length d)
        → hash_pair a b ≡ hash_pair c d
        → ((a ≡ c) × (b ≡ d)) ⊎ Collision P
    unfolding hash_pair
    hash_pair-binds a b c d in_x in_y l e = elim (hexdigest-binds (a ++ b) (c ++ d) in_x in_y e) [
      | inr collision ↦ inr collision
      | inl same ↦ elim l [
        | inl first ↦ inl (append_cancel_left a c b d first same)
        | inr second ↦ inl (append_cancel_right a c b d second same)
      ]
    ]

    hash_leaf-binds :
        (d e : Text)
        → P (bytes "leaf:" ++ d)
        → P (bytes "leaf:" ++ e)
        → hash_leaf d ≡ hash_leaf e
        → (d ≡ e) ⊎ Collision P
    unfolding hash_leaf
    hash_leaf-binds d e in_d in_e p =
        elim (hexdigest-binds (bytes "leaf:" ++ d) (bytes "leaf:" ++ e) in_d in_e p) [
          | inr collision ↦ inr collision
          | inl same ↦ inl (append_cancel_left (bytes "leaf:") (bytes "leaf:") d e refl same).1
        ]

    fold_path-binds :
        (c d : Text) (p q : List (Text × ProofSide))
        → All P (hashed_above c p)
        → All P (hashed_above d q)
        → length c ≡ length d
        → sides p ≡ sides q
        → fold_path c p ≡ fold_path d q
        → (c ≡ d) ⊎ Collision P
    unfolding fold_path combine
    fold_path-binds c d [] [] m n l s e = inl e
    fold_path-binds c d [] (y ∷ q) m n l s e = cc
    fold_path-binds c d (x ∷ p) [] m n l s e = cc
    fold_path-binds c d ((x, left) ∷ p) ((y, left) ∷ q) m n l s e =
        elim (fold_path-binds (hash_pair x c) (hash_pair y d) p q m.1 n.1
          (length-hash_pair x c ∙ sym (length-hash_pair y d)) (cc) e) [
            | inr collision ↦ inr collision
            | inl same ↦ elim (hash_pair-binds x c y d m.0 n.0 (inr l) same) [
              | inr collision ↦ inr collision
              | inl parts ↦ inl parts.1
            ]
          ]
    fold_path-binds c d ((x, right) ∷ p) ((y, right) ∷ q) m n l s e =
        elim (fold_path-binds (hash_pair c x) (hash_pair d y) p q m.1 n.1
          (length-hash_pair c x ∙ sym (length-hash_pair d y)) (cc) e) [
            | inr collision ↦ inr collision
            | inl same ↦ elim (hash_pair-binds c x d y m.0 n.0 (inl l) same) [
              | inr collision ↦ inr collision
              | inl parts ↦ inl parts.0
            ]
          ]
    fold_path-binds c d ((x, left) ∷ p) ((y, right) ∷ q) m n l s e = cc
    fold_path-binds c d ((x, right) ∷ p) ((y, left) ∷ q) m n l s e = cc

  -- An input of the hash function in the check of `c` with `p` or in that of `d` with `q`.
  abbrev pub IsHashed : Text → MerkleProof → Text → MerkleProof → Text → Type 0
  IsHashed c p d q x = In x (hashed_for c p.proof_path) ⊎ In x (hashed_for d q.proof_path)

  -- What `verify_document` has checked when it returns true.
  verify_document-parts :
      (d : Text) (proof : MerkleProof)
      → verify_document d proof ≡ true
      → (hash_leaf d ≡ proof.doc_hash)
        × (fold_path (hash_leaf d) proof.proof_path ≡ proof.root_hash)
  unfolding verify_document
  verify_document-parts d proof e = ground (
    arith,
    text_beq_iff (hash_leaf d) proof.doc_hash,
    text_beq_iff (fold_path proof.doc_hash proof.proof_path) proof.root_hash,
  )

  -- Two accepted proofs against one root, whose steps have the same sides, are for one document, or
  -- two different inputs that their checks hash have one digest.
  verify_document-binds :
      (c d : Text) (p q : MerkleProof)
      → verify_document c p ≡ true
      → verify_document d q ≡ true
      → p.root_hash ≡ q.root_hash
      → sides p.proof_path ≡ sides q.proof_path
      → (c ≡ d) ⊎ Collision (IsHashed c p d q)
  verify_document-binds c d p q vp vq r s =
      let (lp, fp) = verify_document-parts c p vp in
      let (lq, fq) = verify_document-parts d q vq in
      let P = IsHashed c p d q in
      let hashed_c = In-All P (hashed_for c p.proof_path) (λ x i. inl i) in
      let hashed_d = In-All P (hashed_for d q.proof_path) (λ x i. inr i) in
      elim (fold_path-binds P (hash_leaf c) (hash_leaf d) p.proof_path q.proof_path hashed_c.1
        hashed_d.1 (length-hash_leaf c ∙ sym (length-hash_leaf d)) s (fp ∙ r ∙ sym fq)) [
          | inr collision ↦ inr collision
          | inl same ↦ hash_leaf-binds P c d hashed_c.0 hashed_d.0 same
        ]

  -- A proof that anyone made, accepted for a document against the root of a built tree, and with
  -- the sides of the path that the tree itself gives for index `i`, is for the hash at `i`, or two
  -- different inputs that the checks of the two proofs hash have one digest.
  pub verify_document_sound :
      (hashes : List Text) (now i : ℕ) {c d : Text} {tree : MerkleTree} {honest : MerkleProof}
      (proof : MerkleProof)
      → get_elem? hashes i ≡ some d
      → build hashes now ≡ ok tree
      → get_proof tree i ≡ ok honest
      → verify_document c proof ≡ true
      → proof.root_hash ≡ tree.root_hash
      → sides proof.proof_path ≡ sides honest.proof_path
      → (c ≡ d) ⊎ Collision (IsHashed c proof d honest)
  verify_document_sound hashes now i {c} {d} {tree} {honest} proof at b g v r s =
      let (tree', honest', b', g', v', r') = verify_document-get_proof hashes now i at in
      let t : tree ≡ tree' = ok-injective (sym b ∙ b') in
      let g'' : get_proof tree i ≡ ok honest' = ap (λ (t : MerkleTree). get_proof t i) t ∙ g' in
      let k : honest ≡ honest' = ok-injective (sym g ∙ g'') in
      subst (λ (p : MerkleProof). (c ≡ d) ⊎ Collision (IsHashed c proof d p)) (sym k)
        (verify_document-binds c d proof honest' v v'
          (r ∙ ap (λ (t : MerkleTree). t.root_hash) t ∙ sym r')
          (s ∙ ap (λ (p : MerkleProof). sides p.proof_path) k))
