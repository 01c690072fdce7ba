-- ===== src/P2p/MessageAuth/Accept.antt =====
-- infomesh/p2p/message_auth.py, `sign_envelope` and `verify_envelope`: which envelopes are accepted.
use infomesh.Prelude.{
  ℕ, ◌+◌, ◌≤◌, ◌<◌, ◌^◌, ◌≡◌, ◌↔◌, refl, ap, sym, ◌∙◌, ◌⊎◌, Bool, true, false, Option, some, arith,
  leb, if◌then◌else◌, Text, text_eq, Bool-cases,
}
use infomesh.Prelude.Result.{Result, ok, err}
use infomesh.P2p.MessageAuth.{
  Signing, SignedEnvelope, KeyPair, NonceCounter, next, AuthError, invalid_signature,
  canonical_bytes, canonical_text, sign_envelope, PeerKeyRegistry, get_key, NonceTracker, highest,
  check_and_record, abs_diff, is_isolated, check_signature, verify_envelope,
}
use infomesh.Prelude.Clock.{or_clock}
use infomesh.P2p.MessageAuth.Tracker.{check_and_record_stale, check_and_record_new}

-- Everything that `verify_envelope` has to find for the payload `p`.
pub record Accepted ⦃s : Signing⦄ (e : SignedEnvelope) (keys : PeerKeyRegistry) (t : NonceTracker)
    (isolated_fn : Option (Text → Bool)) (time max_age : ℕ) (p : Text) : Type 0 where
  pub public_key : Text
  pub canonical : Text
  pub admitted : is_isolated isolated_fn e.peer_id ≡ false
  pub known : get_key keys e.peer_id ≡ some public_key
  pub recent : abs_diff time e.timestamp ≤ max_age
  pub fresh : highest t e.peer_id < e.nonce
  pub encoded : canonical_bytes e.peer_id e.nonce e.timestamp e.payload ≡ ok canonical
  pub signed : s.verify public_key canonical e.signature ≡ true
  pub returned : p ≡ e.payload

check_signature-parts :
    ⦃s : Signing⦄
    → (k : Text) (e : SignedEnvelope) {p : Text} → check_signature k e ≡ ok p
    → (c : Text) × (canonical_bytes e.peer_id e.nonce e.timestamp e.payload ≡ ok c)
      × (s.verify k c e.signature ≡ true)
      × (p ≡ e.payload)
unfolding check_signature
check_signature-parts ⦃s⦄ k e {p} h =
    split (canonical_bytes e.peer_id e.nonce e.timestamp e.payload) h
  where
    split :
        (r : Result AuthError Text)
        → elim r [
          | err x ↦ err x
          | ok c ↦ (if s.verify k c e.signature then ok e.payload else err invalid_signature)
        ]
          ≡ ok p
        → (c : Text) × (r ≡ ok c) × (s.verify k c e.signature ≡ true) × (p ≡ e.payload)
    split (ok c) h = (c, refl, ground arith, ground arith)
    split (err x) h = cc

module _ ⦃s : Signing⦄ (e : SignedEnvelope) (keys : PeerKeyRegistry) (t : NonceTracker)
    (isolated_fn : Option (Text → Bool)) (now : Option ℕ) (clock max_age : ℕ) where
  accepted_only :
      {p : Text}
      → (verify_envelope e keys t isolated_fn now clock max_age).0 ≡ ok p
      → (k : Text) × (is_isolated isolated_fn e.peer_id ≡ false)
        × (get_key keys e.peer_id ≡ some k)
        × (abs_diff (or_clock now clock) e.timestamp ≤ max_age)
        × (highest t e.peer_id < e.nonce)
        × (check_signature k e ≡ ok p)
  unfolding verify_envelope
  accepted_only h = ground (
    arith,
    check_and_record_stale t e.peer_id e.nonce,
    Bool-cases (leb e.nonce (highest t e.peer_id)),
  )

  verify_envelope-parts :
      {p : Text}
      → (verify_envelope e keys t isolated_fn now clock max_age).0 ≡ ok p
      → Accepted e keys t isolated_fn (or_clock now clock) max_age p
  verify_envelope-parts h =
      let (k, a, b, c, d, f) = accepted_only h in
      let (canonical, encoded, signed, returned) = check_signature-parts k e f in
      record {
        public_key = k;
        canonical = canonical;
        admitted = a;
        known = b;
        recent = c;
        fresh = d;
        encoded = encoded;
        signed = signed;
        returned = returned;
      }

  check_signature_accepts :
      (k : Text) (c : Text)
      → canonical_bytes e.peer_id e.nonce e.timestamp e.payload ≡ ok c
      → s.verify k c e.signature ≡ true
      → check_signature k e ≡ ok e.payload
  unfolding check_signature
  check_signature_accepts k c p q = ground arith

  pub verify_envelope_checks :
      (k : Text)
      → is_isolated isolated_fn e.peer_id ≡ false
      → get_key keys e.peer_id ≡ some k
      → abs_diff (or_clock now clock) e.timestamp ≤ max_age
      → highest t e.peer_id < e.nonce
      → verify_envelope e keys t isolated_fn now clock max_age
        ≡ (check_signature k e, (check_and_record t e.peer_id e.nonce).1)
  unfolding verify_envelope
  verify_envelope_checks k a b c d = ground (arith, check_and_record_new t e.peer_id e.nonce)

  -- `verify_envelope` returns a payload exactly when the peer is not isolated, its key is
  -- registered, the timestamp is within `max_age` of the clock on either side, the nonce is above
  -- the highest one recorded for the peer, the nonce fits 8 bytes, and the signature is valid for
  -- the canonical bytes; the payload is then the envelope's.
  pub verify_envelope_iff :
      (p : Text)
      → ((verify_envelope e keys t isolated_fn now clock max_age).0 ≡ ok p)
        ↔ Accepted e keys t isolated_fn (or_clock now clock) max_age p
  verify_envelope_iff p = (
    verify_envelope-parts,
    λ a.
        ap (λ (r : Result AuthError Text × NonceTracker). r.0)
          (verify_envelope_checks a.public_key a.admitted a.known a.recent a.fresh)
        ∙ (check_signature_accepts a.public_key a.canonical a.encoded a.signed
            ∙ ap ok (sym a.returned)),
  )

  -- What a call leaves in the tracker, whether it accepts or raises.
  pub verify_envelope-tracker :
      ((verify_envelope e keys t isolated_fn now clock max_age).1 ≡ t)
      ⊎ ((k : Text) × (get_key keys e.peer_id ≡ some k)
          × (highest t e.peer_id < e.nonce)
          × ((verify_envelope e keys t isolated_fn now clock max_age).1
              ≡ (check_and_record t e.peer_id e.nonce).1))
  unfolding verify_envelope
  verify_envelope-tracker = ground (arith, check_and_record_stale t e.peer_id e.nonce)

-- What `sign_envelope` returns while the nonce fits 8 bytes.
sign_envelope-eq :
    ⦃s : Signing⦄
    → (payload : Text) (key : KeyPair) (counter : NonceCounter) (now : Option ℕ) (clock : ℕ)
    → counter.value + 1 < 2 ^ 64
    → (canonical : Text) × (canonical_bytes key.peer_id
          (counter.value + 1)
          (or_clock now clock)
          payload
        ≡ ok canonical)
      × (sign_envelope payload key counter now clock ≡ (
        record { value = counter.value + 1 },
        ok (record {
          payload = payload;
          peer_id = key.peer_id;
          signature = s.sign key.private_key canonical;
          nonce = counter.value + 1;
          timestamp = or_clock now clock;
        }),
      ))
unfolding sign_envelope next canonical_bytes
sign_envelope-eq ⦃s⦄ payload key counter now clock h = (
  canonical_text key.peer_id (counter.value + 1) (or_clock now clock) payload,
  ground arith,
  ground arith,
)

-- An envelope that `sign_envelope` returns is accepted, with its payload, by a node that has
-- registered the public key of the signer, does not isolate it, reads a clock within `max_age` of
-- the signer's, and has recorded no nonce above the signer's counter; the counter must be below
-- 2^64 - 1.
pub verify_envelope-sign_envelope :
    ⦃s : Signing⦄
    → (payload : Text) (key : KeyPair) (counter : NonceCounter) (sent received : Option ℕ)
      (clock clock' max_age : ℕ) (keys : PeerKeyRegistry) (t : NonceTracker)
      (isolated_fn : Option (Text → Bool))
    → counter.value + 1 < 2 ^ 64
    → get_key keys key.peer_id ≡ some (s.public_of key.private_key)
    → is_isolated isolated_fn key.peer_id ≡ false
    → abs_diff (or_clock received clock') (or_clock sent clock) ≤ max_age
    → highest t key.peer_id ≤ counter.value
    → (e : SignedEnvelope) × ((sign_envelope payload key counter sent clock).1 ≡ ok e)
      × ((verify_envelope e keys t isolated_fn received clock' max_age).0 ≡ ok payload)
verify_envelope-sign_envelope ⦃s⦄ payload key counter sent received clock clock' max_age keys t
      isolated_fn fits known admitted recent old =
    let (canonical, encoded, signed) = sign_envelope-eq payload key counter sent clock fits in
    let e : SignedEnvelope = record {
      payload = payload;
      peer_id = key.peer_id;
      signature = s.sign key.private_key canonical;
      nonce = counter.value + 1;
      timestamp = or_clock sent clock;
    } in
    (
      e,
      rw signed,
      (verify_envelope_iff e keys t isolated_fn received clock' max_age payload).1 (record {
        public_key = s.public_of key.private_key;
        canonical = canonical;
        admitted = admitted;
        known = known;
        recent = recent;
        fresh = omega arith;
        encoded = encoded;
        signed = s.verify-sign key.private_key canonical;
        returned = refl;
      }),
    )
