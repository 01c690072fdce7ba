-- ===== src/Trust/Merkle.antt =====
-- infomesh/trust/merkle.py: the Merkle tree over document hashes, its membership proofs and their
-- verification. An index is a natural number; the check for negative ones has no counterpart.
pub mod Levels
pub mod Steps
pub mod Height
pub mod Proof
pub mod Binding
mod Tests
use infomesh.Prelude.{
  ℕ, zero, suc, ◌+◌, ◌-◌, ◌/◌, ◌%◌, Bool, true, false, Option, none, some, List, [], ◌∷◌, ◌++◌, map,
  ltb, leb, if◌then◌else◌, not, length, get_elem?, drop, null, Text, bytes, ◌==◌, nat_eq, text_eq,
}
use infomesh.Prelude.Hash.{Sha256, hexdigest}
use infomesh.Prelude.Result.{Result, ok, err}
use infomesh.Prelude.Result.Partial.{◌>>=◌}
use mathlib.Core.Option as Option

pub data ProofSide : Type 0 where
  left right : ProofSide

pub record MerkleProof : Type 0 where
  pub doc_hash : Text
  pub proof_path : List (Text × ProofSide)
  pub root_hash : Text
  pub leaf_index : ℕ

pub record MerkleRoot : Type 0 where
  pub root_hash : Text
  pub document_count : ℕ
  pub built_at : ℕ
  pub peer_id : Text
  pub signature : Text

pub record MerkleTree : Type 0 where
  pub leaves : List Text
  pub levels : List (List Text)
  pub root_hash : Text
  pub built_at : ℕ

pub data MerkleError : Type 0 where
  value_error runtime_error index_error : MerkleError

abbrev pub unbuilt : MerkleTree
unbuilt = record { leaves = []; levels = []; root_hash = []; built_at = 0 }

pub hash_pair : ⦃h : Sha256⦄ → Text → Text → Text
unfolding hexdigest
hash_pair l r = hexdigest (l ++ r)

pub hash_leaf : ⦃h : Sha256⦄ → Text → Text
unfolding hexdigest
hash_leaf d = hexdigest (bytes "leaf:" ++ d)

-- `current[-1]`, as a list of no or one element
abbrev pub last_of : List Text → List Text
last_of [] = []
last_of (x ∷ []) = x ∷ []
last_of (x ∷ y ∷ r) = last_of (y ∷ r)

-- the duplication of the last element of an odd level
pub pad : List Text → List Text
pad current = if length current % 2 == 1 then current ++ last_of current else current

-- the `for` loop of `build`, over neighbours
pub pairs : ⦃h : Sha256⦄ → List Text → List Text
pairs (x ∷ y ∷ r) = hash_pair x y ∷ pairs r
pairs _ = []

-- The `while` loop of `build`, with the rounds that are left: the list of levels from `current` on.
-- A level is padded in place when its turn comes, so it is kept padded, except for the last one.
pub grow : ⦃h : Sha256⦄ → ℕ → List Text → List (List Text)
unfolding pad
grow zero current = current ∷ []
grow (suc fuel) current =
    let rest = grow fuel (pairs (pad current)) in
    if ltb 1 (length current) then pad current ∷ rest else current ∷ []

-- `current[0]` once the loop has ended, `current` being the last of the levels
pub root_of : List (List Text) → Text
root_of [] = []
root_of ([] ∷ []) = []
root_of ((x ∷ xs) ∷ []) = x
root_of (l ∷ m ∷ ls) = root_of (m ∷ ls)

-- The first level is a copy of the leaves that the loop does not touch.
pub build : ⦃h : Sha256⦄ → List Text → ℕ → Result MerkleError MerkleTree
unfolding hash_leaf grow
build document_hashes now =
    if null document_hashes
    then err value_error
    else let leaves : List Text = map hash_leaf document_hashes in
      let levels : List (List Text) = leaves ∷ drop 1 (grow (length leaves) leaves) in
      ok (record { leaves = leaves; levels = levels; root_hash = root_of levels; built_at = now })

-- `self._levels[:-1]`
pub without_root : List (List Text) → List (List Text)
without_root [] = []
without_root (l ∷ []) = []
without_root (l ∷ m ∷ ls) = l ∷ without_root (m ∷ ls)

abbrev with_side : ProofSide → Option Text → Option (Text × ProofSide)
with_side side none = none
with_side side (some t) = some (t, side)

-- one round of the loop in `get_proof`; `none` is an index out of range
pub sibling : ℕ → List Text → Option (Text × ProofSide)
sibling idx level =
    if idx % 2 == 0
    then (if ltb (idx + 1) (length level)
        then with_side right (get_elem? level (idx + 1))
        else with_side right (get_elem? level idx))
    else with_side left (get_elem? level (idx - 1))

pub path_from : ℕ → List (List Text) → Option (List (Text × ProofSide))
unfolding sibling
path_from idx [] = some []
path_from idx (level ∷ rest) =
    sibling idx level >>= λ step. path_from (idx / 2) rest >>= λ steps. some (step ∷ steps)

abbrev proof_at :
    MerkleTree → ℕ → Text → Option (List (Text × ProofSide)) → Result MerkleError MerkleProof
proof_at tree i leaf none = err index_error
proof_at tree i leaf (some steps) =
    ok (record { doc_hash = leaf; proof_path = steps; root_hash = tree.root_hash; leaf_index = i })

pub get_proof : MerkleTree → ℕ → Result MerkleError MerkleProof
unfolding path_from without_root
get_proof tree leaf_index =
    if null tree.levels then err runtime_error else elim (get_elem? tree.leaves leaf_index) [
      | none ↦ err index_error
      | some leaf ↦ proof_at tree leaf_index leaf (path_from leaf_index (without_root tree.levels))
    ]

-- one round of the loop in `verify_proof`
pub combine : ⦃h : Sha256⦄ → Text → Text × ProofSide → Text
combine current (sibling_hash, left) = hash_pair sibling_hash current
combine current (sibling_hash, right) = hash_pair current sibling_hash

pub fold_path : ⦃h : Sha256⦄ → Text → List (Text × ProofSide) → Text
unfolding combine
fold_path current [] = current
fold_path current (step ∷ rest) = fold_path (combine current step) rest

pub verify_proof : ⦃h : Sha256⦄ → MerkleProof → Bool
verify_proof proof = fold_path proof.doc_hash proof.proof_path == proof.root_hash

pub verify_document : ⦃h : Sha256⦄ → Text → MerkleProof → Bool
unfolding verify_proof
verify_document document_hash proof =
    if not (hash_leaf document_hash == proof.doc_hash) then false else verify_proof proof
