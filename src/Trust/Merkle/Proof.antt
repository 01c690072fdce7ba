-- ===== src/Trust/Merkle/Proof.antt =====
-- infomesh/trust/merkle.py, `get_proof` and `verify_proof`: the proofs of a built tree.
use infomesh.Prelude.{
  ℕ, zero, suc, ◌/◌, ◌<◌, ◌≡◌, refl, true, some, List, [], ◌∷◌, map, arith, length, get_elem?, drop,
  Text, length-map, get_elem?-map, text_beq_iff, text_eq, nat_eq, sym, ◌∙◌,
}
use infomesh.Prelude.Hash.{Sha256}
use infomesh.Prelude.Result.{ok}
use infomesh.Trust.Merkle.{
  ProofSide, MerkleProof, MerkleTree, hash_leaf, grow, root_of, build, without_root, sibling,
  path_from, get_proof, combine, fold_path, verify_document,
}
use infomesh.Trust.Merkle.Levels.{
  Tower, top, round, Tower-grow, Tower-first, root_of-cons, without_root-cons,
}
use infomesh.Trust.Merkle.Steps.{lt_of_some, step_up}

module _ ⦃h : Sha256⦄ where
  -- A path from a node of any level leads to the root of the tower.
  abbrev LeadsUp : List (List Text) → ℕ → Text → Type 0
  LeadsUp levels idx c =
      (steps : List (Text × ProofSide)) × (path_from idx (without_root levels) ≡ some steps)
      × (fold_path c steps ≡ root_of levels)

  top-LeadsUp :
      (current : List Text) (idx : ℕ) (c : Text)
      → length current ≡ 1
      → get_elem? current idx ≡ some c
      → LeadsUp (current ∷ []) idx c
  unfolding without_root path_from fold_path root_of
  top-LeadsUp [] idx c e p = absurd (omega arith)
  top-LeadsUp (x ∷ []) zero c e p = ([], refl, ground arith)
  top-LeadsUp (x ∷ []) (suc idx) c e p = cc
  top-LeadsUp (x ∷ y ∷ r) idx c e p = absurd (omega arith)

  path_from-cons :
      (idx : ℕ) (level : List Text) (step : Text × ProofSide) (rest : List (List Text))
      (steps : List (Text × ProofSide))
      → sibling idx level ≡ some step
      → path_from (idx / 2) rest ≡ some steps
      → path_from idx (level ∷ rest) ≡ some (step ∷ steps)
  unfolding path_from
  path_from-cons idx level step rest steps p q = rw (p, q)

  fold_path-cons :
      (c : Text) (step : Text × ProofSide) (steps : List (Text × ProofSide))
      → fold_path c (step ∷ steps) ≡ fold_path (combine c step) steps
  unfolding fold_path
  fold_path-cons c step steps = refl

  Tower-LeadsUp :
      {current : List Text} {levels : List (List Text)}
      → (idx : ℕ) (c : Text) → Tower current levels
      → get_elem? current idx ≡ some c
      → LeadsUp levels idx c
  Tower-LeadsUp idx c (top {current = current} e) p = top-LeadsUp current idx c e p
  Tower-LeadsUp idx c (round {current = current} {level = level} {rest = rest} m l t) p =
      let (step, found, up) = step_up current level idx c p l in
      let (steps, path, root) = Tower-LeadsUp (idx / 2) (combine c step) t up in
      (
        step ∷ steps,
        rw (without_root-cons level t)
            (path_from-cons idx level step (without_root rest) steps found path),
        fold_path-cons c step steps ∙ root ∙ sym (root_of-cons level t),
      )

  -- The levels of the tree over `hashes`, as `build` leaves them.
  abbrev pub leaves_of : List Text → List Text
  leaves_of hashes = map hash_leaf hashes

  abbrev pub levels_of : List Text → List (List Text)
  levels_of hashes = leaves_of hashes ∷ drop 1 (grow (length (leaves_of hashes)) (leaves_of hashes))

  abbrev pub tree_of : List Text → ℕ → MerkleTree
  tree_of hashes now = record {
    leaves = leaves_of hashes;
    levels = levels_of hashes;
    root_hash = root_of (levels_of hashes);
    built_at = now;
  }

  pub Tower-levels_of :
      (hashes : List Text) → 0 < length hashes → Tower (leaves_of hashes) (levels_of hashes)
  Tower-levels_of hashes p = Tower-first (
      Tower-grow (length (leaves_of hashes)) (leaves_of hashes)
        (omega (arith, length-map hash_leaf hashes)) (omega arith))

  pub build-eq :
      (hashes : List Text) (now : ℕ)
      → 0 < length hashes
      → build hashes now ≡ ok (tree_of hashes now)
  unfolding build
  build-eq [] now p = absurd (omega arith)
  build-eq (x ∷ hashes) now p = refl

  -- What `get_proof` returns when the path is found.
  get_proof-eq :
      (tree : MerkleTree) (i : ℕ) (leaf : Text) (steps : List (Text × ProofSide)) (l : List Text)
      (ls : List (List Text))
      → tree.levels ≡ l ∷ ls
      → get_elem? tree.leaves i ≡ some leaf
      → path_from i (without_root tree.levels) ≡ some steps
      → get_proof tree i
        ≡ ok (record {
          doc_hash = leaf;
          proof_path = steps;
          root_hash = tree.root_hash;
          leaf_index = i;
        })
  unfolding get_proof
  get_proof-eq tree i leaf steps l ls n p q = ground arith

  verify_document-eq :
      (d : Text) (proof : MerkleProof)
      → hash_leaf d ≡ proof.doc_hash
      → fold_path proof.doc_hash proof.proof_path ≡ proof.root_hash
      → verify_document d proof ≡ true
  unfolding verify_document
  verify_document-eq d proof p q = ground (
    arith,
    text_beq_iff (hash_leaf d) proof.doc_hash,
    text_beq_iff (fold_path proof.doc_hash proof.proof_path) proof.root_hash,
  )

  -- For any list of hashes and each index `i` of it, `build` returns a tree, `get_proof` returns a
  -- proof for `i`, and `verify_document` accepts that proof for the hash at `i`, against the root of
  -- the tree.
  pub verify_document-get_proof :
      (hashes : List Text) (now i : ℕ) {d : Text}
      → get_elem? hashes i ≡ some d
      → (tree : MerkleTree) × (proof : MerkleProof) × (build hashes now ≡ ok tree)
        × (get_proof tree i ≡ ok proof)
        × (verify_document d proof ≡ true)
        × (proof.root_hash ≡ tree.root_hash)
  verify_document-get_proof hashes now i {d} p =
      let nonempty : 0 < length hashes = omega (arith, lt_of_some hashes i p) in
      let leaf = get_elem?-map hash_leaf hashes i p in
      let (steps, path, root) =
        Tower-LeadsUp i (hash_leaf d) (Tower-levels_of hashes nonempty) leaf in
      let proof : MerkleProof = record {
        doc_hash = hash_leaf d;
        proof_path = steps;
        root_hash = root_of (levels_of hashes);
        leaf_index = i;
      } in
      (
        tree_of hashes now,
        proof,
        build-eq hashes now nonempty,
        get_proof-eq (tree_of hashes now) i (hash_leaf d) steps _ _ refl leaf path,
        verify_document-eq d proof refl root,
        refl,
      )
