-- ===== src/P2p/Sybil/Tests.antt =====
-- infomesh/p2p/sybil.py: the theorems at concrete peers, with stand-ins for SHA-256 and `ipaddress`.
use infomesh.Prelude.{
  ℕ, ◌≤◌, ◌<◌, ◌≡◌, ◌↔◌, refl, true, false, some, [], ◌∷◌, arith, length, Text, bytes,
}
use infomesh.Prelude.Dict.{lookup}
use infomesh.Prelude.Hash.{toy_hash, hex}
use infomesh.Prelude.Result.{ok}
use infomesh.P2p.Sybil.{
  ProofOfWork, IpAddress, SybilValidator, accepted, get_subnet, verify_pow, generate_pow,
  compute_pow_hash, count_leading_zero_bits_fast, bit_length, pack_le, validate_peer, new_validator,
  derive_node_id, peers_at,
}
use infomesh.P2p.Sybil.Work.{verify_pow-generate_pow, generate_pow_total}
use infomesh.P2p.Sybil.Admission.{peers_of, Admissible, validate_peer_iff}
use infomesh.P2p.Sybil.Histories.{join, leave, apply_all, subnet_limit_kept}

-- every address in one network
instance abbrev one_network : IpAddress
one_network = record { network_of = λ ip. some (bytes "10.0.0.0/24") }

-- With the stand-in the hash begins with the key: here one zero byte.
abbrev key : Text
key = 0 ∷ []

abbrev mined : ProofOfWork
mined = record {
  nonce = 1;
  difficulty_bits = 9;
  hash_hex = hex (toy_hash.digest (0 ∷ 1 ∷ 0 ∷ 0 ∷ 0 ∷ 0 ∷ 0 ∷ 0 ∷ 0 ∷ []));
  elapsed_seconds = 2;
}

mined_zero : (pow : ProofOfWork) × (generate_pow key 9 5 1 3 ≡ ok pow) × (pow.nonce ≤ 0)
unfolding verify_pow compute_pow_hash count_leading_zero_bits_fast bit_length pack_le
mined_zero = generate_pow_total key 9 5 1 3 0 (omega arith) refl

generate_pow_total_example :
    (pow : ProofOfWork) × (generate_pow key 9 7 2 3 ≡ ok pow) × (pow.nonce ≤ 4)
unfolding verify_pow compute_pow_hash count_leading_zero_bits_fast bit_length pack_le
generate_pow_total_example = generate_pow_total key 9 7 2 3 4 (omega arith) refl

verify_pow-generate_pow_example :
    (verify_pow key mined_zero.0.nonce 9 ≡ ok true)
    × (mined_zero.0.nonce < 5)
    × ((m : ℕ) → m < mined_zero.0.nonce → verify_pow key m 9 ≡ ok false)
verify_pow-generate_pow_example = verify_pow-generate_pow key 9 5 1 3 mined_zero.1

abbrev fresh : SybilValidator
fresh = new_validator 8 3

abbrev name : Text
name = bytes "0007000000000000000000000000000000000000"

validate_peer_iff_example :
    ((v' : SybilValidator) × (validate_peer fresh key 7 (bytes "10.0.0.9") name 4
        ≡ ok (accepted, v')))
    ↔ ((s : Text) × Admissible fresh key 7 (bytes "10.0.0.9") name 4 s)
validate_peer_iff_example = validate_peer_iff fresh key 7 (bytes "10.0.0.9") name 4

joined :
    (v' : SybilValidator) × (validate_peer fresh key 7 (bytes "10.0.0.9") name 4
      ≡ ok (accepted, v'))
joined = validate_peer_iff_example.1 (
  bytes "10.0.0.0/24",
  record {
    worked =
        unfold new_validator verify_pow compute_pow_hash count_leading_zero_bits_fast bit_length
          pack_le in
        refl;
    named = unfold derive_node_id compute_pow_hash hex pack_le in refl;
    located = unfold get_subnet in refl;
    room = unfold new_validator peers_at lookup in omega arith;
  },
)

subnet_limit_kept_example :
    length (
      peers_of
        (apply_all (new_validator 8 1) (
          join key 7 (bytes "10.0.0.9") name 4
          ∷ join key 7 (bytes "10.0.0.8") name 4
          ∷ leave (bytes "10.0.0.9") name 4
          ∷ []))
        4
        (bytes "10.0.0.0/24"))
    ≤ 1
subnet_limit_kept_example =
    subnet_limit_kept 8 1
      (join key 7 (bytes "10.0.0.9") name 4
        ∷ join key 7 (bytes "10.0.0.8") name 4
        ∷ leave (bytes "10.0.0.9") name 4
        ∷ [])
      4 (bytes "10.0.0.0/24")
