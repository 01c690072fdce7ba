-- ===== src/P2p/MessageAuth.antt =====
-- infomesh/p2p/message_auth.py: signed envelopes, the registry of public keys, and the tracking of
-- nonces. A time is a natural number of microseconds. A nonce is a natural number: a negative one
-- is refused by the code as a replay, since it is not above 0.
pub mod Tracker
pub mod Accept
pub mod Replay
mod Tests
use infomesh.Prelude.{
  ℕ, zero, suc, ◌+◌, ◌-◌, ◌/◌, ◌%◌, ◌^◌, Bool, true, false, Option, none, some, List, [], ◌∷◌, ◌++◌,
  ltb, leb, if◌then◌else◌, length, Text, bytes, text_eq, ◌≡◌,
}
use infomesh.Prelude.Clock.{or_clock}
use infomesh.Prelude.Dict.{Dict, lookup, insert, move_to_end, pop_first, erase, contains}
use infomesh.Prelude.Result.{Result, ok, err}

-- Ed25519 of the `cryptography` package, and `f"{timestamp:.6f}"`: parameters. What the code relies
-- on is that a signature made with a private key is accepted with its public key.
pub record Signing : Type 0 where
  pub public_of : Text → Text
  pub sign : Text → Text → Text
  pub verify : Text → Text → Text → Bool
  pub verify-sign : (key message : Text) → verify (public_of key) message (sign key message) ≡ true
  pub format_timestamp : ℕ → Text

-- 300 seconds
abbrev pub max_message_age : ℕ
max_message_age = 300_000_000

abbrev pub max_nonce_history : ℕ
max_nonce_history = 10_000

pub record SignedEnvelope : Type 0 where
  pub payload : Text
  pub peer_id : Text
  pub signature : Text
  pub nonce : ℕ
  pub timestamp : ℕ

pub record KeyPair : Type 0 where
  pub peer_id : Text
  pub private_key : Text

pub data AuthError : Type 0 where
  isolated unknown_key too_old replayed_nonce overflow invalid_signature : AuthError

-- `nonce.to_bytes(n, "big")`, for a nonce that fits
pub to_bytes : ℕ → ℕ → Text
to_bytes zero nonce = []
to_bytes (suc n) nonce = to_bytes n (nonce / 256) ++ nonce % 256 ∷ []

pub canonical_text : ⦃s : Signing⦄ → Text → ℕ → ℕ → Text → Text
canonical_text ⦃s⦄ peer_id nonce timestamp payload =
    peer_id
    ++ (bytes "|"
        ++ (to_bytes 8 nonce
            ++ (bytes "|" ++ (s.format_timestamp timestamp ++ (bytes "|" ++ payload)))))

-- `to_bytes` raises OverflowError for a nonce of more than 8 bytes.
pub canonical_bytes : ⦃s : Signing⦄ → Text → ℕ → ℕ → Text → Result AuthError Text
canonical_bytes peer_id nonce timestamp payload =
    if leb (2 ^ 64) nonce then err overflow else ok (canonical_text peer_id nonce timestamp payload)

pub record NonceCounter : Type 0 where
  pub value : ℕ

-- `NonceCounter.next`
pub next : NonceCounter → NonceCounter × ℕ
next c = (record { value = c.value + 1 }, c.value + 1)

abbrev seal :
    ⦃s : Signing⦄ → KeyPair → Text → ℕ → ℕ → Result AuthError Text → Result AuthError SignedEnvelope
seal key payload nonce time (err e) = err e
seal ⦃s⦄ key payload nonce time (ok canonical) = ok (record {
  payload = payload;
  peer_id = key.peer_id;
  signature = s.sign key.private_key canonical;
  nonce = nonce;
  timestamp = time;
})

-- The counter has moved on also where `to_bytes` raises.
pub sign_envelope :
    ⦃s : Signing⦄
    → Text
    → KeyPair
    → NonceCounter
    → Option ℕ
    → ℕ
    → NonceCounter × Result AuthError SignedEnvelope
sign_envelope payload key counter now clock =
    let (counter', nonce) = next counter in
    let time = or_clock now clock in
    (counter', seal key payload nonce time (canonical_bytes key.peer_id nonce time payload))

-- `PeerKeyRegistry`
abbrev pub PeerKeyRegistry : Type 0
PeerKeyRegistry = Dict Text Text

pub register : Text → Text → PeerKeyRegistry → PeerKeyRegistry
register peer_id public_key keys = insert peer_id public_key keys

pub get_key : PeerKeyRegistry → Text → Option Text
get_key keys peer_id = lookup peer_id keys

pub remove_key : Text → PeerKeyRegistry → PeerKeyRegistry
remove_key peer_id keys = erase peer_id keys

-- `NonceTracker`: the highest nonce for each peer, the least recently active first
abbrev pub NonceTracker : Type 0
NonceTracker = Dict Text ℕ

abbrev pub or_zero : Option ℕ → ℕ
or_zero none = 0
or_zero (some n) = n

pub highest : NonceTracker → Text → ℕ
highest t peer_id = or_zero (lookup peer_id t)

-- `while len(self._highest) > MAX_NONCE_HISTORY: popitem(last=False)`, with the rounds that are left
pub trim : ℕ → NonceTracker → NonceTracker
trim zero t = t
trim (suc fuel) t =
    let rest = trim fuel (pop_first t) in if ltb max_nonce_history (length t) then rest else t

pub check_and_record : NonceTracker → Text → ℕ → Bool × NonceTracker
check_and_record t peer_id nonce =
    if leb nonce (highest t peer_id)
    then (false, t)
    else let t' : NonceTracker = move_to_end peer_id (insert peer_id nonce t) in
      (true, trim (length t') t')

abbrev pub abs_diff : ℕ → ℕ → ℕ
abs_diff a b = if leb b a then a - b else b - a

-- `is_isolated_fn is not None and is_isolated_fn(pid)`
abbrev pub is_isolated : Option (Text → Bool) → Text → Bool
is_isolated none pid = false
is_isolated (some f) pid = f pid

-- the last check, on the canonical bytes
pub check_signature : ⦃s : Signing⦄ → Text → SignedEnvelope → Result AuthError Text
check_signature ⦃s⦄ public_key e = elim (canonical_bytes e.peer_id e.nonce e.timestamp e.payload) [
  | err x ↦ err x
  | ok canonical ↦
      if s.verify public_key canonical e.signature then ok e.payload else err invalid_signature
]

-- The tracker comes back beside the error: a nonce is recorded before the signature is checked.
pub verify_envelope :
    ⦃s : Signing⦄
    → SignedEnvelope
    → PeerKeyRegistry
    → NonceTracker
    → Option (Text → Bool)
    → Option ℕ
    → ℕ
    → ℕ
    → Result AuthError Text × NonceTracker
verify_envelope e keys t isolated_fn now clock max_age =
    if is_isolated isolated_fn e.peer_id then (err isolated, t) else elim (get_key keys e.peer_id) [
      | none ↦ (err unknown_key, t)
      | some public_key ↦
          if ltb max_age (abs_diff (or_clock now clock) e.timestamp)
          then (err too_old, t)
          else let (fresh, t') = check_and_record t e.peer_id e.nonce in
            if fresh then (check_signature public_key e, t') else (err replayed_nonce, t')
    ]
