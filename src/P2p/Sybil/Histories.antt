-- ===== src/P2p/Sybil/Histories.antt =====
-- infomesh/p2p/sybil.py, `SybilValidator` and `SubnetLimiter` over time: peers join and leave in any
-- order, and no subnet ever has more than its share.
use infomesh.Prelude.{
  ℕ, ◌≤◌, ◌≡◌, inl, inr, refl, sym, ◌∙◌, List, [], ◌∷◌, arith, length, Text, nat_eq, text_eq, subst,
}
use infomesh.Prelude.Dict.{lookup}
use infomesh.Prelude.Hash.{Sha256}
use infomesh.Prelude.Result.{Result, ok, err, Result-cases}
use infomesh.P2p.Sybil.{
  SybilError, IpAddress, SubnetLimiter, SybilValidator, Verdict, get_subnet, peers_at, put_peers,
  set_discard, remove, drop_empty, new_validator, validate_peer,
}
use infomesh.P2p.Sybil.Limits.{
  peers_at-put_peers, peers_at-drop_empty, length-set_discard-le, IsLimited, remove-eq,
}
use infomesh.P2p.Sybil.Admission.{peers_of, validate_peer-IsLimited}

-- A request to join, and a departure.
pub data Event : Type 0 where
  join : Text → ℕ → Text → Text → ℕ → Event
  leave : Text → Text → ℕ → Event

abbrev after_join : SybilValidator → Result SybilError (Verdict × SybilValidator) → SybilValidator
after_join v (ok (verdict, v')) = v'
after_join v (err x) = v

abbrev after_leave : SybilValidator → Result SybilError SubnetLimiter → SybilValidator
after_leave v (ok l) = record v { subnet_limiter = l }
after_leave v (err x) = v

module _ ⦃h : Sha256⦄ ⦃ip_address : IpAddress⦄ where
  pub apply : SybilValidator → Event → SybilValidator
  apply v (join public_key pow_nonce ip peer_id i) =
      after_join v (validate_peer v public_key pow_nonce ip peer_id i)
  apply v (leave ip peer_id i) = after_leave v (remove v.subnet_limiter ip peer_id i)

  pub apply_all : SybilValidator → List Event → SybilValidator
  apply_all v [] = v
  apply_all v (e ∷ rest) = apply_all (apply v e) rest

  -- The limit holds, and is the one that was set.
  pub record IsKept (max_per_subnet : ℕ) (v : SybilValidator) : Type 0 where
    pub limit : v.subnet_limiter.max_per_subnet ≡ max_per_subnet
    pub limited : IsLimited v.subnet_limiter

  remove-IsLimited :
      (l : SubnetLimiter) (ip peer_id s : Text) (i : ℕ)
      → IsLimited l
      → IsLimited (record l {
        buckets =
            drop_empty (put_peers l.buckets i s (set_discard peer_id (peers_at l.buckets i s))) i s;
      })
  remove-IsLimited l ip peer_id s i k = record {
    at = λ j t.
        let b = put_peers l.buckets i s (set_discard peer_id (peers_at l.buckets i s)) in
        rw (peers_at-drop_empty b i j s t) (
          ground (
            arith,
            peers_at-put_peers l.buckets i j s t (set_discard peer_id (peers_at l.buckets i s)),
            k.at i s,
            k.at j t,
            length-set_discard-le peer_id (peers_at l.buckets i s),
          ));
  }

  remove-err :
      (l : SubnetLimiter) (ip peer_id : Text) (i : ℕ) (x : SybilError)
      → get_subnet ip ≡ err x
      → remove l ip peer_id i ≡ err x
  unfolding remove
  remove-err l ip peer_id i x p = rw p

  leave-IsKept :
      (m : ℕ) (v : SybilValidator) (ip peer_id : Text) (i : ℕ)
      → IsKept m v
      → IsKept m (after_leave v (remove v.subnet_limiter ip peer_id i))
  leave-IsKept m v ip peer_id i k = elim (Result-cases (get_subnet ip)) [
    | inl (s, p) ↦
        subst (λ r. IsKept m (after_leave v r)) (sym (remove-eq v.subnet_limiter ip i peer_id s p))
          (record {
            limit = k.limit;
            limited = remove-IsLimited v.subnet_limiter ip peer_id s i k.limited;
          })
    | inr (x, p) ↦
        subst (λ r. IsKept m (after_leave v r)) (sym (remove-err v.subnet_limiter ip peer_id i x p))
          k
  ]

  join-IsKept :
      (m : ℕ) (v : SybilValidator) (public_key : Text) (pow_nonce : ℕ) (ip peer_id : Text) (i : ℕ)
      → IsKept m v
      → IsKept m (after_join v (validate_peer v public_key pow_nonce ip peer_id i))
  join-IsKept m v public_key pow_nonce ip peer_id i k =
      elim (Result-cases (validate_peer v public_key pow_nonce ip peer_id i)) [
        | inl ((verdict, v'), p) ↦
            let (same, limited) =
              validate_peer-IsLimited v public_key pow_nonce ip peer_id i k.limited p in
            subst (λ r. IsKept m (after_join v r)) (sym p)
              (record { limit = same ∙ k.limit; limited = limited })
        | inr (x, p) ↦ subst (λ r. IsKept m (after_join v r)) (sym p) k
      ]

  apply_all-IsKept :
      (m : ℕ) (v : SybilValidator) (events : List Event)
      → IsKept m v
      → IsKept m (apply_all v events)
  unfolding apply_all apply
  apply_all-IsKept m v [] k = k
  apply_all-IsKept m v (join public_key pow_nonce ip peer_id i ∷ rest) k =
      apply_all-IsKept m (after_join v (validate_peer v public_key pow_nonce ip peer_id i)) rest
        (join-IsKept m v public_key pow_nonce ip peer_id i k)
  apply_all-IsKept m v (leave ip peer_id i ∷ rest) k =
      apply_all-IsKept m (after_leave v (remove v.subnet_limiter ip peer_id i)) rest
        (leave-IsKept m v ip peer_id i k)

  new_validator-IsKept : (difficulty m : ℕ) → IsKept m (new_validator difficulty m)
  unfolding new_validator peers_at lookup
  new_validator-IsKept difficulty m = record {
    limit = refl;
    limited = record { at = λ i s. omega arith };
  }

  -- A validator made with the limit m has, after any sequence of requests to join and departures,
  -- at most m peers of any one subnet in any one bucket.
  pub subnet_limit_kept :
      (difficulty m : ℕ) (events : List Event) (i : ℕ) (s : Text)
      → length (peers_of (apply_all (new_validator difficulty m) events) i s) ≤ m
  subnet_limit_kept difficulty m events i s =
      let k =
        apply_all-IsKept m (new_validator difficulty m) events
          (new_validator-IsKept difficulty m) in
      subst (λ n. length (peers_of (apply_all (new_validator difficulty m) events) i s) ≤ n) k.limit
        (k.limited.at i s)
