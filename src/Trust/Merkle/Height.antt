-- ===== src/Trust/Merkle/Height.antt =====
-- infomesh/trust/merkle.py: the number of levels, and what `get_proof` returns in all cases.
use infomesh.Prelude.{
  ℕ, zero, suc, ◌+◌, ◌*◌, ◌/◌, ◌^◌, ◌≤◌, ◌<◌, ◌≡◌, refl, ap, inl, inr, none, some, List, [], ◌∷◌,
  arith, length, get_elem?, Text, sym, ◌∙◌, Option, subst, ◌≢◌, ◌⊎◌, length-map,
}
use infomesh.Prelude.Hash.{Sha256}
use infomesh.Prelude.Result.{ok, err, ok-injective}
use infomesh.Prelude.Result.Partial.{◌>>=◌}
use infomesh.Trust.Merkle.{
  ProofSide, MerkleProof, MerkleTree, value_error, index_error, runtime_error, unbuilt, hash_leaf,
  build, without_root, path_from, sibling, get_proof,
}
use infomesh.Trust.Merkle.Levels.{Tower, top, round, length-round, without_root-cons}
use infomesh.Trust.Merkle.Proof.{Tower-levels_of, levels_of, leaves_of, tree_of, build-eq}
use native.Mathlib.Nat.{pow-suc}

module _ ⦃h : Sha256⦄ where
  -- A tower with k levels above the first stands on n hashes with n ≤ 2^k < 2n.
  Tower-height :
      {current : List Text} {levels : List (List Text)}
      → Tower current levels
      → (length current ≤ 2 ^ length (without_root levels))
        × ((2 ^ length (without_root levels) + 2 ≤ 2 * length current)
            ⊎ (length current ≡ 1) × (2 ^ length (without_root levels) ≡ 1))
  unfolding without_root
  Tower-height (top e) = (omega arith, inr (e, omega arith))
  Tower-height (round {current = current} {level = level} {rest = rest} m l t) =
      let (a, b) = Tower-height t in
      rw (without_root-cons level t) (
        omega (arith, a, b, pow-suc 2 (length (without_root rest)), length-round current),
        inl (omega (arith, a, b, pow-suc 2 (length (without_root rest)), length-round current)),
      )

  length-bind :
      {A : Type 0} (o : Option A) (p : Option (List A)) (n : ℕ) {r : List A}
      → ((s : List A) → p ≡ some s → length s ≡ n)
      → (o >>= λ step. p >>= λ steps. some (step ∷ steps)) ≡ some r
      → length r ≡ suc n
  length-bind none p n h e = cc
  length-bind (some a) none n h e = cc
  length-bind {A} (some a) (some s) n {r} h e =
      let f : a ∷ s ≡ r = cc in subst (λ (x : List A). length x ≡ suc n) f (ap suc (h s refl))

  length-path_from :
      (idx : ℕ) (levels : List (List Text)) (steps : List (Text × ProofSide))
      → path_from idx levels ≡ some steps
      → length steps ≡ length levels
  unfolding path_from
  length-path_from idx [] steps e = ground arith
  length-path_from idx (l ∷ ls) steps e =
      length-bind (sibling idx l) (path_from (idx / 2) ls) (length ls)
        (λ s p. length-path_from (idx / 2) ls s p) e

  get_proof-path :
      (tree : MerkleTree) (i : ℕ) {proof : MerkleProof}
      → get_proof tree i ≡ ok proof
      → path_from i (without_root tree.levels) ≡ some proof.proof_path
  unfolding get_proof
  get_proof-path tree i e = ground arith

  build_nil-ne-ok : (now : ℕ) {tree : MerkleTree} → build [] now ≢ ok tree
  unfolding build
  build_nil-ne-ok now e = cc

  -- A proof from a tree over n hashes has as many steps as the logarithm of n to base 2, rounded
  -- up: for k steps, n ≤ 2^k < 2n.
  pub length-get_proof :
      (hashes : List Text) (now i : ℕ) {tree : MerkleTree} {proof : MerkleProof}
      → build hashes now ≡ ok tree
      → get_proof tree i ≡ ok proof
      → (length hashes ≤ 2 ^ length proof.proof_path)
        × (2 ^ length proof.proof_path < 2 * length hashes)
  length-get_proof [] now i b g = absurd (build_nil-ne-ok now b)
  length-get_proof (x ∷ r) now i {tree} {proof} b g =
      let hashes : List Text = x ∷ r in
      let t : tree ≡ tree_of hashes now =
        ok-injective (sym b ∙ build-eq hashes now (omega arith)) in
      let path =
        get_proof-path (tree_of hashes now) i
          (ap (λ (t : MerkleTree). get_proof t i) (sym t) ∙ g) in
      let l = length-path_from i (without_root (levels_of hashes)) proof.proof_path path in
      let bound = Tower-height (Tower-levels_of hashes (omega arith)) in
      rw l (omega (arith, bound, length-map hash_leaf hashes))

  get_elem?-none : {A : Type 0} (xs : List A) (i : ℕ) → length xs ≤ i → get_elem? xs i ≡ none
  get_elem?-none [] i p = refl
  get_elem?-none (x ∷ xs) zero p = absurd (omega arith)
  get_elem?-none (x ∷ xs) (suc i) p = get_elem?-none xs i (omega arith)

  get_proof-tree_of :
      (hashes : List Text) (now i : ℕ)
      → length hashes ≤ i
      → get_proof (tree_of hashes now) i ≡ err index_error
  unfolding get_proof
  get_proof-tree_of hashes now i p =
      rw (get_elem?-none (leaves_of hashes) i (omega (arith, length-map hash_leaf hashes)))

  -- `build` of no hashes raises ValueError, `get_proof` before any build raises RuntimeError, and
  -- `get_proof` on a built tree raises IndexError at every index from the number of hashes on.
  pub get_proof_errors :
      (hashes : List Text) (now i : ℕ) {tree : MerkleTree}
      → build hashes now ≡ ok tree
      → length hashes ≤ i
      → (build [] now ≡ err value_error)
        × (get_proof unbuilt i ≡ err runtime_error)
        × (get_proof tree i ≡ err index_error)
  get_proof_errors [] now i b p = absurd (build_nil-ne-ok now b)
  get_proof_errors (x ∷ r) now i {tree} b p =
      let t : tree ≡ tree_of (x ∷ r) now =
        ok-injective (sym b ∙ build-eq (x ∷ r) now (omega arith)) in
      (
        unfold build in refl,
        unfold get_proof in refl,
        ap (λ (t : MerkleTree). get_proof t i) t ∙ get_proof-tree_of (x ∷ r) now i p,
      )
