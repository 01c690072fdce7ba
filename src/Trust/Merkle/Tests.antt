-- ===== src/Trust/Merkle/Tests.antt =====
-- infomesh/trust/merkle.py: runs of the model on small trees, with a short stand-in for SHA-256.
use infomesh.Prelude.{◌≡◌, refl, ◌⊎◌, List, [], ◌∷◌, Text, bytes, true}
use infomesh.Prelude.Hash.{Collision, toy_hash}
use infomesh.Prelude.Result.{ok}
use infomesh.Trust.Merkle.{MerkleTree, MerkleProof, build, get_proof, verify_document}
use infomesh.Trust.Merkle.Proof.{verify_document-get_proof}
use infomesh.Trust.Merkle.Binding.{IsHashed, verify_document_sound}

abbrev three : List Text
three = bytes "a" ∷ bytes "b" ∷ bytes "c" ∷ []

verify_document-get_proof_example :
    (tree : MerkleTree) × (proof : MerkleProof) × (build three 7 ≡ ok tree)
    × (get_proof tree 2 ≡ ok proof)
    × (verify_document (bytes "c") proof ≡ true)
    × (proof.root_hash ≡ tree.root_hash)
verify_document-get_proof_example = verify_document-get_proof three 7 2 refl

abbrev third :
    (tree : MerkleTree) × (proof : MerkleProof) × (build three 7 ≡ ok tree)
    × (get_proof tree 2 ≡ ok proof)
    × (verify_document (bytes "c") proof ≡ true)
    × (proof.root_hash ≡ tree.root_hash)
third = verify_document-get_proof three 7 2 refl

verify_document_sound_example :
    (bytes "c" ≡ bytes "c") ⊎ Collision (IsHashed (bytes "c") third.1 (bytes "c") third.1)
verify_document_sound_example =
    verify_document_sound three 7 2 third.1 refl third.2 third.3 third.4 third.5 refl
