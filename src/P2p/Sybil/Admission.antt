-- ===== src/P2p/Sybil/Admission.antt =====
-- infomesh/p2p/sybil.py, `SybilValidator`: whom it admits, and the bound that holds at all times.
use infomesh.Prelude.{
  ℕ, ◌≤◌, ◌<◌, ◌≡◌, ◌≢◌, ◌↔◌, ◌⊎◌, inl, inr, refl, ap, sym, ◌∙◌, true, false, List, arith, ltb,
  if◌then◌else◌, length, Text, Bool-cases, ltb→lt, ◌==◌, nat_eq, text_eq, nat_beq_iff, text_beq_iff,
  subst,
}
use infomesh.Prelude.Hash.{Sha256}
use infomesh.Prelude.Result.{Result, ok, err, Result-cases}
use infomesh.P2p.Sybil.{
  SybilError, IpAddress, SubnetLimiter, SybilValidator, Verdict, invalid_pow, node_id_mismatch,
  subnet_limit_exceeded, accepted, get_subnet, peers_at, put_peers, member, set_add, can_add,
  verify_pow, derive_node_id, validate_peer,
}
use infomesh.P2p.Sybil.Limits.{
  peers_at-put_peers, peers_at-touch, length-set_add-le, member-set_add, IsLimited, can_add-eq,
  add_room,
}

abbrev pub peers_of : SybilValidator → ℕ → Text → List Text
peers_of v = peers_at v.subnet_limiter.buckets

-- The same peers everywhere but at one bucket and subnet.
abbrev pub SameElsewhere : SybilValidator → SybilValidator → ℕ → Text → Type 0
SameElsewhere v v' i s = (j : ℕ) (t : Text) → (j ≢ i) ⊎ (t ≢ s) → peers_of v' j t ≡ peers_of v j t

module _ ⦃h : Sha256⦄ ⦃ip_address : IpAddress⦄ (v : SybilValidator) (public_key : Text)
    (pow_nonce : ℕ) (ip peer_id : Text) (i : ℕ) where
  -- The checks that an admitted peer has passed, in the subnet `s`.
  pub record Admissible (s : Text) : Type 0 where
    pub worked : verify_pow public_key pow_nonce v.difficulty_bits ≡ ok true
    pub named : derive_node_id public_key pow_nonce ≡ ok peer_id
    pub located : get_subnet ip ≡ ok s
    pub room : length (peers_of v i s) < v.subnet_limiter.max_per_subnet

  abbrev touched : Text → SubnetLimiter
  touched s = record v.subnet_limiter {
    buckets = put_peers v.subnet_limiter.buckets i s (peers_of v i s);
  }

  -- The state after an admission.
  abbrev admitted : Text → SybilValidator
  admitted s = record v {
    subnet_limiter = record (touched s) {
      buckets =
          put_peers (touched s).buckets i s (set_add peer_id (peers_at (touched s).buckets i s));
    };
  }

  admit :
      (s : Text)
      → Admissible s
      → validate_peer v public_key pow_nonce ip peer_id i ≡ ok (accepted, admitted s)
  unfolding validate_peer
  admit s a =
      rw (a.worked, a.named)
        (ground (
          arith,
          text_beq_iff peer_id peer_id,
          can_add-eq v.subnet_limiter ip i s a.located,
          peers_at-touch v.subnet_limiter.buckets i i s s,
          a.room,
          add_room (touched s) ip i peer_id s a.located,
        ))

  reject_work :
      verify_pow public_key pow_nonce v.difficulty_bits ≡ ok false
      → validate_peer v public_key pow_nonce ip peer_id i ≡ ok (invalid_pow, v)
  unfolding validate_peer
  reject_work p = rw p

  reject_name :
      (id : Text)
      → verify_pow public_key pow_nonce v.difficulty_bits ≡ ok true
      → derive_node_id public_key pow_nonce ≡ ok id
      → (peer_id == id) ≡ false
      → validate_peer v public_key pow_nonce ip peer_id i ≡ ok (node_id_mismatch, v)
  unfolding validate_peer
  reject_name id p q r = rw (p, q, r)

  reject_full :
      (s : Text)
      → verify_pow public_key pow_nonce v.difficulty_bits ≡ ok true
      → derive_node_id public_key pow_nonce ≡ ok peer_id
      → get_subnet ip ≡ ok s
      → v.subnet_limiter.max_per_subnet ≤ length (peers_of v i s)
      → validate_peer v public_key pow_nonce ip peer_id i
        ≡ ok (subnet_limit_exceeded, record v { subnet_limiter = touched s })
  unfolding validate_peer
  reject_full s p q r full =
      rw (p, q) (ground (arith, text_beq_iff peer_id peer_id, can_add-eq v.subnet_limiter ip i s r))

  raise_work :
      (x : SybilError)
      → verify_pow public_key pow_nonce v.difficulty_bits ≡ err x
      → validate_peer v public_key pow_nonce ip peer_id i ≡ err x
  unfolding validate_peer
  raise_work x p = rw p

  raise_name :
      (x : SybilError)
      → verify_pow public_key pow_nonce v.difficulty_bits ≡ ok true
      → derive_node_id public_key pow_nonce ≡ err x
      → validate_peer v public_key pow_nonce ip peer_id i ≡ err x
  unfolding validate_peer
  raise_name x p q = rw (p, q)

  raise_location :
      (x : SybilError)
      → verify_pow public_key pow_nonce v.difficulty_bits ≡ ok true
      → derive_node_id public_key pow_nonce ≡ ok peer_id
      → get_subnet ip ≡ err x
      → validate_peer v public_key pow_nonce ip peer_id i ≡ err x
  unfolding validate_peer can_add
  raise_location x p q r = rw (p, q) (ground (arith, text_beq_iff peer_id peer_id))

  -- The two ways in which a call returns.
  abbrev Outcome : Verdict → SybilValidator → Type 0
  Outcome verdict v' =
      ((verdict ≡ accepted) × ((s : Text) × Admissible s × (v' ≡ admitted s)))
      ⊎ ((verdict ≢ accepted)
          × (v'.subnet_limiter.max_per_subnet ≡ v.subnet_limiter.max_per_subnet)
          × ((j : ℕ) (t : Text) → peers_of v' j t ≡ peers_of v j t))

  abbrev Returned : Result SybilError (Verdict × SybilValidator) → Type 0
  Returned (ok (verdict, v')) = Outcome verdict v'
  Returned (err x) = Unit

  touched_same : (s : Text) (j : ℕ) (t : Text) → peers_at (touched s).buckets j t ≡ peers_of v j t
  touched_same s j t = peers_at-touch v.subnet_limiter.buckets i j s t

  located_outcome :
      verify_pow public_key pow_nonce v.difficulty_bits ≡ ok true
      → derive_node_id public_key pow_nonce ≡ ok peer_id
      → Returned (validate_peer v public_key pow_nonce ip peer_id i)
  located_outcome p q = elim (Result-cases (get_subnet ip)) [
    | inr (x, r) ↦ subst Returned (sym (raise_location x p q r)) tt
    | inl (s, r) ↦
        elim (Bool-cases (ltb (length (peers_of v i s)) v.subnet_limiter.max_per_subnet)) [
          | inl free ↦
              let a : Admissible s = record {
                worked = p;
                named = q;
                located = r;
                room = ltb→lt _ _ free;
              } in
              subst Returned (sym (admit s a)) (inl (refl, (s, a, refl)))
          | inr full ↦
              subst Returned (sym (reject_full s p q r (ground arith)))
                (inr ((λ e. cc), refl, touched_same s))
        ]
  ]

  named_outcome :
      verify_pow public_key pow_nonce v.difficulty_bits ≡ ok true
      → Returned (validate_peer v public_key pow_nonce ip peer_id i)
  named_outcome p = elim (Result-cases (derive_node_id public_key pow_nonce)) [
    | inr (x, q) ↦ subst Returned (sym (raise_name x p q)) tt
    | inl (id, q) ↦ elim (Bool-cases (peer_id == id)) [
      | inl same ↦ located_outcome p (q ∙ ap ok (sym ((text_beq_iff peer_id id).0 same)))
      | inr other ↦
          subst Returned (sym (reject_name id p q other)) (inr ((λ e. cc), refl, λ j t. refl))
    ]
  ]

  outcome : Returned (validate_peer v public_key pow_nonce ip peer_id i)
  outcome = elim (Result-cases (verify_pow public_key pow_nonce v.difficulty_bits)) [
    | inr (x, p) ↦ subst Returned (sym (raise_work x p)) tt
    | inl (true, p) ↦ named_outcome p
    | inl (false, p) ↦ subst Returned (sym (reject_work p)) (inr ((λ e. cc), refl, λ j t. refl))
  ]

  peers_of-admitted :
      (s : Text) (j : ℕ) (t : Text)
      → peers_of (admitted s) j t ≡ (
          if j == i
          then (if t == s then set_add peer_id (peers_of v i s) else peers_of v j t)
          else peers_of v j t)
  peers_of-admitted s j t = ground (
    arith,
    touched_same s j t,
    touched_same s i s,
    peers_at-put_peers (touched s).buckets i j s t
        (set_add peer_id (peers_at (touched s).buckets i s)),
  )

  -- `validate_peer` answers "ok" exactly when the proof of work is valid, the peer id is the one
  -- derived from the key and the nonce, the address has a subnet, and that subnet has room in the
  -- bucket.
  pub validate_peer_iff :
      ((v' : SybilValidator) × (validate_peer v public_key pow_nonce ip peer_id i
          ≡ ok (accepted, v')))
      ↔ ((s : Text) × Admissible s)
  validate_peer_iff =
      (λ r. admissible_of (subst Returned r.1 outcome), λ a. (admitted a.0, admit a.0 a.1))
    where
      admissible_of : {v' : SybilValidator} → Outcome accepted v' → (s : Text) × Admissible s
      admissible_of (inl (e, (s, a, q))) = (s, a)
      admissible_of (inr (n, m, q)) = absurd (n refl)

  -- Whatever `validate_peer` answers, each bucket and subnet holds the peers it held before, but for
  -- the subnet of an admitted peer in its bucket, which has gained that peer.
  pub validate_peer-peers :
      {verdict : Verdict} {v' : SybilValidator}
      → validate_peer v public_key pow_nonce ip peer_id i ≡ ok (verdict, v')
      → ((verdict ≡ accepted)
          × ((s : Text) × (get_subnet ip ≡ ok s)
              × (member peer_id (peers_of v' i s) ≡ true)
              × SameElsewhere v v' i s))
        ⊎ ((verdict ≢ accepted) × ((j : ℕ) (t : Text) → peers_of v' j t ≡ peers_of v j t))
  validate_peer-peers {verdict} {v'} r = spread (subst Returned r outcome)
    where
      elsewhere : (s : Text) → SameElsewhere v (admitted s) i s
      elsewhere s j t d =
          ground (arith, d, nat_beq_iff j i, text_beq_iff t s, peers_of-admitted s j t)

      gained : (s : Text) → member peer_id (peers_of (admitted s) i s) ≡ true
      gained s = ground (
        arith,
        nat_beq_iff i i,
        text_beq_iff s s,
        peers_of-admitted s i s,
        member-set_add peer_id (peers_of v i s),
      )

      spread :
          Outcome verdict v'
          → ((verdict ≡ accepted)
              × ((s : Text) × (get_subnet ip ≡ ok s)
                  × (member peer_id (peers_of v' i s) ≡ true)
                  × SameElsewhere v v' i s))
            ⊎ ((verdict ≢ accepted) × ((j : ℕ) (t : Text) → peers_of v' j t ≡ peers_of v j t))
      spread (inr (n, m, q)) = inr (n, q)
      spread (inl (e, (s, a, q))) = inl (
        e,
        (
          s,
          a.located,
          rw q (gained s),
          subst (λ (w : SybilValidator). SameElsewhere v w i s) (sym q) (elsewhere s),
        ),
      )

  Outcome-IsLimited :
      {verdict : Verdict} {v' : SybilValidator}
      → IsLimited v.subnet_limiter
      → Outcome verdict v'
      → (v'.subnet_limiter.max_per_subnet ≡ v.subnet_limiter.max_per_subnet)
        × IsLimited v'.subnet_limiter
  Outcome-IsLimited l (inr (n, m, q)) = (m, record { at = λ j t. rw (q j t, m) (l.at j t) })
  Outcome-IsLimited {v' = v'} l (inl (e, (s, a, q))) = (
    rw q refl,
    subst (λ (w : SybilValidator). IsLimited w.subnet_limiter) (sym q)
        (record {
          at = λ j t. ground (
            arith,
            peers_of-admitted s j t,
            l.at j t,
            a.room,
            length-set_add-le peer_id (peers_of v i s),
          );
        }),
  )

  -- A call keeps the limit, and keeps to it.
  pub validate_peer-IsLimited :
      {verdict : Verdict} {v' : SybilValidator}
      → IsLimited v.subnet_limiter
      → validate_peer v public_key pow_nonce ip peer_id i ≡ ok (verdict, v')
      → (v'.subnet_limiter.max_per_subnet ≡ v.subnet_limiter.max_per_subnet)
        × IsLimited v'.subnet_limiter
  validate_peer-IsLimited l r = Outcome-IsLimited l (subst Returned r outcome)
