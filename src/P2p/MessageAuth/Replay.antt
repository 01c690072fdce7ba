-- ===== src/P2p/MessageAuth/Replay.antt =====
-- infomesh/p2p/message_auth.py: replays. As long as no more keys are registered than the tracker
-- remembers peers, a tracker forgets nothing.
use infomesh.Prelude.{
  ℕ, ◌≤◌, ◌<◌, ◌≡◌, ◌≢◌, sym, inl, inr, Bool, true, false, Option, none, some, List, [], ◌∷◌, arith,
  length, Text, text_eq, text_beq_iff, subst,
}
use infomesh.Prelude.Dict.{contains, insert, move_to_end, IsUnique}
use infomesh.Prelude.Dict.Laws.{
  lookup-insert, lookup-move_to_end, insert-IsUnique, move_to_end-IsUnique,
}
use infomesh.Prelude.Dict.Subset.{Within, length-Within}
use infomesh.Prelude.Result.{ok, err}
use infomesh.P2p.MessageAuth.{
  Signing, SignedEnvelope, AuthError, replayed_nonce, PeerKeyRegistry, get_key, NonceTracker,
  max_nonce_history, highest, check_and_record, abs_diff, is_isolated, check_signature,
  verify_envelope,
}
use infomesh.Prelude.Clock.{or_clock}
use infomesh.P2p.MessageAuth.Tracker.{
  check_and_record_fresh, highest-check_and_record, check_and_record_stale,
}
use infomesh.P2p.MessageAuth.Accept.{
  verify_envelope_iff, verify_envelope-tracker, verify_envelope_checks,
}

-- A tracker of registered peers.
pub record Tracks (keys : PeerKeyRegistry) (t : NonceTracker) : Type 0 where
  pub unique : IsUnique t
  pub within : (k : Text) → contains k t ≡ true → contains k keys ≡ true

-- `envelopes` arrive one after another, each with the reading of the clock.
pub deliver :
    ⦃s : Signing⦄
    → PeerKeyRegistry
    → Option (Text → Bool)
    → ℕ
    → List (SignedEnvelope × ℕ)
    → NonceTracker
    → NonceTracker
deliver keys isolated_fn max_age [] t = t
deliver keys isolated_fn max_age ((e, clock) ∷ rest) t =
    deliver keys isolated_fn max_age rest
      (verify_envelope e keys t isolated_fn none clock max_age).1

module _ (keys : PeerKeyRegistry) (few : length keys ≤ max_nonce_history) where
  contains_of_key : (pid k : Text) → get_key keys pid ≡ some k → contains pid keys ≡ true
  unfolding get_key contains
  contains_of_key pid k h = ground arith

  Within-insert :
      (t : NonceTracker) (pid : Text) (n : ℕ)
      → Within t keys
      → contains pid keys ≡ true
      → (j : Text) → contains j (insert pid n t) ≡ true
      → contains j keys ≡ true
  unfolding contains
  Within-insert t pid n w c j h = ground (arith, w j, lookup-insert pid j n t, text_beq_iff j pid)

  Within-move :
      (t : NonceTracker) (pid j : Text)
      → contains j (move_to_end pid t) ≡ true
      → contains j t ≡ true
  unfolding contains
  Within-move t pid j h = ground (arith, lookup-move_to_end pid j t)

  room :
      (t : NonceTracker) (pid : Text) (n : ℕ)
      → Tracks keys t
      → contains pid keys ≡ true
      → length (insert pid n t) ≤ max_nonce_history
  room t pid n v c = omega (
    arith,
    few,
    length-Within (insert pid n t) keys (insert-IsUnique pid n t v.unique)
        (Within-insert t pid n v.within c),
  )

  record_Tracks :
      (t : NonceTracker) (pid k : Text) (n : ℕ)
      → Tracks keys t
      → get_key keys pid ≡ some k
      → highest t pid < n
      → Tracks keys (check_and_record t pid n).1
  record_Tracks t pid k n v g f =
      let c = contains_of_key pid k g in
      let e = check_and_record_fresh t pid n v.unique (room t pid n v c) f in
      subst (λ (r : Bool × NonceTracker). Tracks keys r.1) (sym e)
        (record {
          unique = move_to_end-IsUnique pid (insert pid n t) (insert-IsUnique pid n t v.unique);
          within = λ j h. Within-insert t pid n v.within c j (Within-move (insert pid n t) pid j h);
        })

  -- No call lowers what is recorded of a peer.
  record_grows :
      (t : NonceTracker) (pid k other : Text) (n : ℕ)
      → Tracks keys t
      → get_key keys pid ≡ some k
      → highest t pid < n
      → highest t other ≤ highest (check_and_record t pid n).1 other
  record_grows t pid k other n v g f = ground (
    arith,
    highest-check_and_record t pid other n v.unique (room t pid n v (contains_of_key pid k g)) f,
    text_beq_iff other pid,
  )

  module _ ⦃s : Signing⦄ (isolated_fn : Option (Text → Bool)) (max_age : ℕ) where
    verify_Tracks :
        (e : SignedEnvelope) (t : NonceTracker) (now : Option ℕ) (clock : ℕ)
        → Tracks keys t
        → Tracks keys (verify_envelope e keys t isolated_fn now clock max_age).1
    verify_Tracks e t now clock v =
        elim (verify_envelope-tracker e keys t isolated_fn now clock max_age) [
          | inl same ↦ subst (Tracks keys) (sym same) v
          | inr (k, g, f, p) ↦
              subst (Tracks keys) (sym p) (record_Tracks t e.peer_id k e.nonce v g f)
        ]

    verify_grows :
        (e : SignedEnvelope) (t : NonceTracker) (now : Option ℕ) (clock : ℕ) (other : Text)
        → Tracks keys t
        → highest t other ≤ highest (verify_envelope e keys t isolated_fn now clock max_age).1 other
    verify_grows e t now clock other v =
        elim (verify_envelope-tracker e keys t isolated_fn now clock max_age) [
          | inl same ↦ rw same (omega arith)
          | inr (k, g, f, p) ↦ rw p (record_grows t e.peer_id k other e.nonce v g f)
        ]

    deliver_grows :
        (envelopes : List (SignedEnvelope × ℕ)) (t : NonceTracker) (other : Text)
        → Tracks keys t
        → highest t other ≤ highest (deliver keys isolated_fn max_age envelopes t) other
    unfolding deliver
    deliver_grows [] t other v = omega arith
    deliver_grows ((e, clock) ∷ rest) t other v =
        let t' = (verify_envelope e keys t isolated_fn none clock max_age).1 in
        omega (
          arith,
          verify_grows e t none clock other v,
          deliver_grows rest t' other (verify_Tracks e t none clock v),
        )

    accepted_recorded :
        (e : SignedEnvelope) (t : NonceTracker) (now : Option ℕ) (clock : ℕ) {p : Text}
        → Tracks keys t
        → (verify_envelope e keys t isolated_fn now clock max_age).0 ≡ ok p
        → highest (verify_envelope e keys t isolated_fn now clock max_age).1 e.peer_id ≡ e.nonce
    accepted_recorded e t now clock {p} v h =
        let a = (verify_envelope_iff e keys t isolated_fn now clock max_age p).0 h in
        let r =
          verify_envelope_checks e keys t isolated_fn now clock max_age a.public_key a.admitted
            a.known a.recent a.fresh in
        rw r (
          ground (
            arith,
            text_beq_iff e.peer_id e.peer_id,
            highest-check_and_record t e.peer_id e.peer_id e.nonce v.unique
                (room t e.peer_id e.nonce v (contains_of_key e.peer_id a.public_key a.known))
                a.fresh,
          ))

    stale_raises :
        (e : SignedEnvelope) (t : NonceTracker) (now : Option ℕ) (clock : ℕ) (k : Text)
        → is_isolated isolated_fn e.peer_id ≡ false
        → get_key keys e.peer_id ≡ some k
        → abs_diff (or_clock now clock) e.timestamp ≤ max_age
        → e.nonce ≤ highest t e.peer_id
        → (verify_envelope e keys t isolated_fn now clock max_age).0 ≡ err replayed_nonce
    unfolding verify_envelope
    stale_raises e t now clock k a b c d =
        ground (arith, check_and_record_stale t e.peer_id e.nonce d)

    -- With at most 10 000 registered keys, and from a tracker of registered peers: once an envelope
    -- has been accepted, no envelope of its peer with the same or a lower nonce is ever accepted
    -- again, whatever arrives in between and whatever the clock shows.
    pub no_replay :
        (e replay : SignedEnvelope) (t : NonceTracker) (now later : Option ℕ) (clock clock' : ℕ)
        (between : List (SignedEnvelope × ℕ)) {p q : Text}
        → Tracks keys t
        → (verify_envelope e keys t isolated_fn now clock max_age).0 ≡ ok p
        → replay.peer_id ≡ e.peer_id
        → replay.nonce ≤ e.nonce
        → (verify_envelope replay keys
            (deliver keys isolated_fn max_age between
              (verify_envelope e keys t isolated_fn now clock max_age).1)
            isolated_fn
            later
            clock'
            max_age).0
          ≢ ok q
    no_replay e replay t now later clock clock' between {p} {q} v h same older accepted =
        let t' = (verify_envelope e keys t isolated_fn now clock max_age).1 in
        let t'' = deliver keys isolated_fn max_age between t' in
        let a =
          (verify_envelope_iff replay keys t'' isolated_fn later clock' max_age q).0 accepted in
        let f : highest t'' e.peer_id < replay.nonce =
          subst (λ (x : Text). highest t'' x < replay.nonce) same a.fresh in
        omega (
          arith,
          older,
          f,
          accepted_recorded e t now clock v h,
          deliver_grows between t' e.peer_id (verify_Tracks e t now clock v),
        )

    -- With at most 10 000 registered keys, and from a tracker of registered peers: an envelope of a
    -- registered peer that passes the checks on isolation, age and nonce, but has no valid
    -- signature, raises and still uses up its nonce. Whatever arrives after it, an envelope of that
    -- peer with the same or a lower nonce that is not too old then raises as a replay, also one with
    -- a valid signature.
    pub forged_nonce :
        (e genuine : SignedEnvelope) (t : NonceTracker) (now later : Option ℕ) (clock clock' : ℕ)
        (between : List (SignedEnvelope × ℕ)) (k : Text) {x : AuthError}
        → Tracks keys t
        → is_isolated isolated_fn e.peer_id ≡ false
        → get_key keys e.peer_id ≡ some k
        → abs_diff (or_clock now clock) e.timestamp ≤ max_age
        → highest t e.peer_id < e.nonce
        → check_signature k e ≡ err x
        → genuine.peer_id ≡ e.peer_id
        → genuine.nonce ≤ e.nonce
        → abs_diff (or_clock later clock') genuine.timestamp ≤ max_age
        → let t' = (verify_envelope e keys t isolated_fn now clock max_age).1 in
          let t'' = deliver keys isolated_fn max_age between t' in
          ((verify_envelope e keys t isolated_fn now clock max_age).0 ≡ err x)
          × ((verify_envelope genuine keys t'' isolated_fn later clock' max_age).0
              ≡ err replayed_nonce)
    forged_nonce e genuine t now later clock clock' between k {x} v a b c d bad same older recent =
        let r = verify_envelope_checks e keys t isolated_fn now clock max_age k a b c d in
        let t' = (verify_envelope e keys t isolated_fn now clock max_age).1 in
        let up =
          highest-check_and_record t e.peer_id e.peer_id e.nonce v.unique
            (room t e.peer_id e.nonce v (contains_of_key e.peer_id k b)) d in
        let recorded : highest (check_and_record t e.peer_id e.nonce).1 e.peer_id ≡ e.nonce =
          ground (arith, up, text_beq_iff e.peer_id e.peer_id) in
        let used : highest t' e.peer_id ≡ e.nonce = rw r recorded in
        let grown = deliver_grows between t' e.peer_id (verify_Tracks e t now clock v) in
        (
          rw r bad,
          stale_raises genuine (deliver keys isolated_fn max_age between t') later clock' k
              (rw same a) (rw same b) recent (rw same (omega (arith, used, grown, older))),
        )
