-- ===== src/P2p/MessageAuth/Tests.antt =====
-- infomesh/p2p/message_auth.py: the theorems at concrete envelopes, with a stand-in for Ed25519.
use infomesh.Prelude.{
  ℕ, ◌≡◌, ◌≢◌, ◌↔◌, refl, Bool, true, none, [], ◌∷◌, ◌++◌, arith, Text, bytes, text_eq, text_beq,
  text_beq_iff,
}
use infomesh.Prelude.Dict.{lookup, contains}
use infomesh.Prelude.Result.{ok, err}
use infomesh.P2p.MessageAuth.{
  Signing, SignedEnvelope, KeyPair, invalid_signature, replayed_nonce, sign_envelope,
  verify_envelope, PeerKeyRegistry, get_key, highest, check_and_record, max_message_age,
  canonical_text, canonical_bytes, check_signature, to_bytes,
}
use infomesh.Prelude.Clock.{or_clock}
use infomesh.P2p.MessageAuth.Accept.{Accepted, verify_envelope_iff, verify_envelope-sign_envelope}
use infomesh.P2p.MessageAuth.Replay.{Tracks, deliver, no_replay, forged_nonce}

abbrev sign_plain : Text → Text → Text
sign_plain key message = key ++ message

abbrev verify_plain : Text → Text → Text → Bool
verify_plain key message signature = text_beq signature (key ++ message)

verify-sign_plain : (key message : Text) → verify_plain key message (sign_plain key message) ≡ true
verify-sign_plain key message = (text_beq_iff (key ++ message) (key ++ message)).1 refl

instance abbrev plain : Signing
plain = record {
  public_of = λ k. k;
  sign = sign_plain;
  verify = verify_plain;
  verify-sign = verify-sign_plain;
  format_timestamp = λ t. t ∷ [];
}

abbrev alice : KeyPair
alice = record { peer_id = bytes "alice"; private_key = bytes "k" }

abbrev keys : PeerKeyRegistry
keys = (bytes "alice", bytes "k") ∷ []

abbrev envelope : ℕ → Text → SignedEnvelope
envelope n signature = record {
  payload = bytes "hi";
  peer_id = bytes "alice";
  signature = signature;
  nonce = n;
  timestamp = 5;
}

abbrev good : ℕ → SignedEnvelope
good n = envelope n (bytes "k" ++ canonical_text (bytes "alice") n 5 (bytes "hi"))

abbrev forged : SignedEnvelope
forged = envelope 9 (bytes "x")

Tracks-empty : Tracks keys []
unfolding contains lookup
Tracks-empty = record { unique = tt; within = λ k h. cc }

verify_envelope_iff_example :
    ((verify_envelope (good 1) keys [] none none 7 max_message_age).0 ≡ ok (bytes "hi"))
    ↔ Accepted (good 1) keys [] none 7 max_message_age (bytes "hi")
unfolding or_clock
verify_envelope_iff_example =
    verify_envelope_iff (good 1) keys [] none none 7 max_message_age (bytes "hi")

verify_envelope-sign_envelope_example :
    (e : SignedEnvelope) × ((sign_envelope (bytes "hi") alice (record { value = 0 }) none 5).1
      ≡ ok e)
    × ((verify_envelope e keys [] none none 7 max_message_age).0 ≡ ok (bytes "hi"))
unfolding get_key lookup or_clock highest
verify_envelope-sign_envelope_example =
    verify_envelope-sign_envelope (bytes "hi") alice (record { value = 0 }) none none 5 7
      max_message_age keys [] none (omega arith) refl refl (omega arith) (omega arith)

accepted_once : (verify_envelope (good 1) keys [] none none 7 max_message_age).0 ≡ ok (bytes "hi")
unfolding verify_envelope get_key lookup or_clock highest check_and_record check_signature
    canonical_bytes canonical_text to_bytes
accepted_once = refl

no_replay_example :
    (verify_envelope
      (good 1)
      keys
      (deliver keys none max_message_age
        ((good 2, 8) ∷ [])
        (verify_envelope (good 1) keys [] none none 7 max_message_age).1)
      none
      none
      9
      max_message_age).0
    ≢ ok (bytes "hi")
no_replay_example =
    no_replay keys (omega arith) none max_message_age (good 1) (good 1) [] none none 7 9
      ((good 2, 8) ∷ []) Tracks-empty accepted_once refl (omega arith)

forged_nonce_example :
    let t = (verify_envelope forged keys [] none none 7 max_message_age).1 in
    ((verify_envelope forged keys [] none none 7 max_message_age).0 ≡ err invalid_signature)
    × ((verify_envelope
          (good 1)
          keys
          (deliver keys none max_message_age ((good 2, 8) ∷ []) t)
          none
          none
          9
          max_message_age).0
        ≡ err replayed_nonce)
unfolding get_key lookup or_clock highest check_signature canonical_bytes canonical_text to_bytes
forged_nonce_example =
    forged_nonce keys (omega arith) none max_message_age forged (good 1) [] none none 7 9
      ((good 2, 8) ∷ []) (bytes "k") Tracks-empty refl refl (omega arith) (omega arith) refl refl
      (omega arith) (omega arith)
