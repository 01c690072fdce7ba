-- ===== src/P2p/Sybil.antt =====
-- infomesh/p2p/sybil.py: the proof of work behind a node id, the limit on nodes per subnet, and the
-- validator that joins them.
pub mod Work
pub mod Zeros
pub mod Limits
pub mod Admission
pub mod Histories
mod Tests
use infomesh.Prelude.{
  ℕ, zero, suc, ◌+◌, ◌-◌, ◌*◌, ◌/◌, ◌%◌, ◌^◌, Bool, true, false, not, Option, none, some, List, [],
  ◌∷◌, ◌++◌, ltb, leb, if◌then◌else◌, length, take, null, keep, Text, bytes, ◌==◌, text_eq, nat_eq,
}
use infomesh.Prelude.Dict.{Dict, lookup, insert, erase}
use infomesh.Prelude.Hash.{Sha256, hex}
use infomesh.Prelude.Result.{Result, ok, err, ◌>>=◌}

abbrev pub default_difficulty_bits : ℕ
default_difficulty_bits = 20

abbrev pub default_max_per_subnet : ℕ
default_max_per_subnet = 3

pub data SybilError : Type 0 where
  struct_error runtime_error value_error : SybilError

pub record ProofOfWork : Type 0 where
  pub nonce : ℕ
  pub difficulty_bits : ℕ
  pub hash_hex : Text
  pub elapsed_seconds : ℕ

-- `int.bit_length()`, with at least as much fuel as the number has bits
pub bit_length : ℕ → ℕ → ℕ
bit_length zero n = 0
bit_length (suc fuel) n = let rest = bit_length fuel (n / 2) in if n == 0 then 0 else suc rest

-- `7 - byte.bit_length() + 1`, which is not below 0 for a byte, is written 8 - bit_length.
pub count_leading_zero_bits_fast : Text → ℕ
count_leading_zero_bits_fast [] = 0
count_leading_zero_bits_fast (byte ∷ rest) =
    if byte == 0 then 8 + count_leading_zero_bits_fast rest else 8 - bit_length 8 byte

-- `struct.pack("<Q", nonce)` for a nonce that fits
pub pack_le : ℕ → ℕ → Text
pack_le zero nonce = []
pack_le (suc n) nonce = nonce % 256 ∷ pack_le n (nonce / 256)

pub compute_pow_hash : ⦃h : Sha256⦄ → Text → ℕ → Result SybilError Text
compute_pow_hash ⦃h⦄ public_key nonce =
    if leb (2 ^ 64) nonce then err struct_error else ok (h.digest (public_key ++ pack_le 8 nonce))

-- The `while` loop of `generate_pow`, with the rounds that are left until `max_nonce`.
pub generate_from : ⦃h : Sha256⦄ → Text → ℕ → ℕ → ℕ → Result SybilError (ℕ × Text)
generate_from public_key difficulty_bits zero nonce = err runtime_error
generate_from public_key difficulty_bits (suc rounds) nonce =
    let rest = generate_from public_key difficulty_bits rounds (nonce + 1) in
    compute_pow_hash public_key nonce >>= λ hash_bytes.
    if leb difficulty_bits (count_leading_zero_bits_fast hash_bytes)
    then ok (nonce, hash_bytes)
    else rest

-- `started` and `finished` are the two readings of the clock.
pub generate_pow : ⦃h : Sha256⦄ → Text → ℕ → ℕ → ℕ → ℕ → Result SybilError ProofOfWork
generate_pow public_key difficulty_bits max_nonce started finished =
    generate_from public_key difficulty_bits max_nonce 0 >>= λ found. ok (record {
      nonce = found.0;
      difficulty_bits = difficulty_bits;
      hash_hex = hex found.1;
      elapsed_seconds = finished - started;
    })

pub verify_pow : ⦃h : Sha256⦄ → Text → ℕ → ℕ → Result SybilError Bool
verify_pow public_key nonce difficulty_bits = compute_pow_hash public_key nonce >>= λ hash_bytes.
    ok (leb difficulty_bits (count_leading_zero_bits_fast hash_bytes))

pub derive_node_id : ⦃h : Sha256⦄ → Text → ℕ → Result SybilError Text
derive_node_id public_key nonce =
    compute_pow_hash public_key nonce >>= λ hash_bytes. ok (take 40 (hex hash_bytes))

-- `ipaddress`: the text of the /24 or /48 network of an address, `none` where it raises ValueError.
pub record IpAddress : Type 0 where
  pub network_of : Text → Option Text

abbrev pub Buckets : Type 0
Buckets = Dict ℕ (Dict Text (List Text))

pub record SubnetLimiter : Type 0 where
  pub max_per_subnet : ℕ
  pub buckets : Buckets

pub get_subnet : ⦃i : IpAddress⦄ → Text → Result SybilError Text
get_subnet ⦃i⦄ ip = elim (i.network_of ip) [ none ↦ err value_error | some subnet ↦ ok subnet ]

abbrev pub or_empty {ℓ} : {A : Type ℓ} → Option (List A) → List A
or_empty none = []
or_empty (some xs) = xs

-- `self._buckets[bucket_id][subnet]`
pub peers_at : Buckets → ℕ → Text → List Text
peers_at b bucket_id subnet = or_empty (lookup subnet (or_empty (lookup bucket_id b)))

-- A `defaultdict` gains an entry when a missing key is read.
pub put_peers : Buckets → ℕ → Text → List Text → Buckets
put_peers b bucket_id subnet peers =
    insert bucket_id (insert subnet peers (or_empty (lookup bucket_id b))) b

-- `peer_id in current`, `current.add(peer_id)` and `current.discard(peer_id)` of a set
pub member : Text → List Text → Bool
member x [] = false
member x (y ∷ ys) = if x == y then true else member x ys

pub set_add : Text → List Text → List Text
set_add x s = if member x s then s else s ++ x ∷ []

pub set_discard : Text → List Text → List Text
set_discard x s = keep (λ y. not (x == y)) s

pub can_add : ⦃i : IpAddress⦄ → SubnetLimiter → Text → ℕ → Result SybilError (Bool × SubnetLimiter)
can_add l ip bucket_id = get_subnet ip >>= λ subnet.
    let current = peers_at l.buckets bucket_id subnet in
    ok (
      ltb (length current) l.max_per_subnet,
      record l { buckets = put_peers l.buckets bucket_id subnet current },
    )

pub add :
    ⦃i : IpAddress⦄ → SubnetLimiter → Text → Text → ℕ → Result SybilError (Bool × SubnetLimiter)
add l ip peer_id bucket_id = get_subnet ip >>= λ subnet.
    let current = peers_at l.buckets bucket_id subnet in
    ok (
      if leb l.max_per_subnet (length current)
      then (false, record l { buckets = put_peers l.buckets bucket_id subnet current })
      else (
        true,
        record l { buckets = put_peers l.buckets bucket_id subnet (set_add peer_id current) },
      ))

-- the two `del` statements at the end of `remove`
pub drop_empty : Buckets → ℕ → Text → Buckets
drop_empty b bucket_id subnet =
    let b' : Buckets =
      (if null (peers_at b bucket_id subnet)
        then insert bucket_id (erase subnet (or_empty (lookup bucket_id b))) b
        else b) in
    if null (or_empty (lookup bucket_id b')) then erase bucket_id b' else b'

pub remove : ⦃i : IpAddress⦄ → SubnetLimiter → Text → Text → ℕ → Result SybilError SubnetLimiter
remove l ip peer_id bucket_id = get_subnet ip >>= λ subnet.
    let b =
      put_peers l.buckets bucket_id subnet
        (set_discard peer_id (peers_at l.buckets bucket_id subnet)) in
    ok (record l { buckets = drop_empty b bucket_id subnet })

pub counts : Dict Text (List Text) → Dict Text ℕ
counts [] = []
counts ((subnet, peers) ∷ rest) =
    let others = counts rest in if null peers then others else (subnet, length peers) ∷ others

-- Reading the bucket creates it where it is missing.
pub get_subnet_counts : SubnetLimiter → ℕ → Dict Text ℕ × SubnetLimiter
get_subnet_counts l bucket_id =
    let bucket = or_empty (lookup bucket_id l.buckets) in
    (counts bucket, record l { buckets = insert bucket_id bucket l.buckets })

pub sum_peers : Dict Text (List Text) → ℕ
sum_peers [] = 0
sum_peers ((subnet, peers) ∷ rest) = length peers + sum_peers rest

pub total_in : Buckets → ℕ
total_in [] = 0
total_in ((bucket_id, bucket) ∷ rest) = sum_peers bucket + total_in rest

pub total_nodes : SubnetLimiter → ℕ
total_nodes l = total_in l.buckets

pub record SybilValidator : Type 0 where
  pub difficulty_bits : ℕ
  pub subnet_limiter : SubnetLimiter

-- `SybilValidator(...)` with `__post_init__`
pub new_validator : ℕ → ℕ → SybilValidator
new_validator difficulty_bits max_per_subnet = record {
  difficulty_bits = difficulty_bits;
  subnet_limiter = record { max_per_subnet = max_per_subnet; buckets = [] };
}

pub data Verdict : Type 0 where
  invalid_pow node_id_mismatch subnet_limit_exceeded accepted : Verdict

-- The result of the call of `add` is not read.
pub validate_peer :
    ⦃h : Sha256⦄ ⦃i : IpAddress⦄
    → SybilValidator
    → Text
    → ℕ
    → Text
    → Text
    → ℕ
    → Result SybilError (Verdict × SybilValidator)
validate_peer v public_key pow_nonce ip peer_id bucket_id =
    verify_pow public_key pow_nonce v.difficulty_bits >>= λ valid.
    if not valid
    then ok (invalid_pow, v)
    else (derive_node_id public_key pow_nonce >>= λ expected_id.
        if not (peer_id == expected_id)
        then ok (node_id_mismatch, v)
        else (can_add v.subnet_limiter ip bucket_id >>= λ asked.
            if not asked.0
            then ok (subnet_limit_exceeded, record v { subnet_limiter = asked.1 })
            else (add asked.1 ip peer_id bucket_id >>= λ added.
                ok (accepted, record v { subnet_limiter = added.1 }))))
