-- ===== src/P2p/Pex/Responses.antt =====
-- infomesh/p2p/pex.py, `build_response`: what a node shares.
use infomesh.Prelude.{
  ℕ, zero, suc, ◌+◌, ◌-◌, ◌≤◌, ◌<◌, ◌≡◌, refl, sym, ap, ◌∙◌, Bool, true, false, not, ◌&&◌, List, [],
  ◌∷◌, ◌++◌, map, arith, leb, max, length, length-append, append-nil, append_assoc, take, keep,
  Text, text_eq, ◌==◌, Bool-cases, inl, inr,
}
use infomesh.P2p.Pex.{PeerExchange, PexPeerInfo, is_valid_multiaddr, response_from, build_response}

abbrev pub info : Text × Text → PexPeerInfo
info x = record { peer_id = x.0; multiaddr = x.1 }

-- A connection that may be shared.
abbrev pub shareable : Text → Text × Text → Bool
shareable self x = not (x.0 == self) && is_valid_multiaddr x.1

abbrev pub shared : Text → List (Text × Text) → List PexPeerInfo
shared self peers = map (info) (keep (shareable self) peers)

snoc-take :
    (n : ℕ) (xs : List PexPeerInfo) (y : PexPeerInfo) (ys : List PexPeerInfo)
    → xs ++ take (suc n) (y ∷ ys) ≡ (xs ++ y ∷ []) ++ take n ys
snoc-take n xs y ys = sym (append_assoc xs (y ∷ []) (take n ys))

shared-skip :
    (self : Text) (x : Text × Text) (peers : List (Text × Text))
    → shareable self x ≡ false
    → shared self (x ∷ peers) ≡ shared self peers
shared-skip self x peers h = rw h refl

shared-cons :
    (self : Text) (x : Text × Text) (peers : List (Text × Text))
    → shareable self x ≡ true
    → shared self (x ∷ peers) ≡ info x ∷ shared self peers
shared-cons self x peers h = rw h refl

module _ (self : Text) (max_peers : ℕ) (result : List PexPeerInfo) (x : Text × Text)
    (rest : List (Text × Text)) where
  -- The three ways of a round of the loop.
  response_skip :
      shareable self x ≡ false
      → response_from self max_peers result (x ∷ rest) ≡ response_from self max_peers result rest
  unfolding response_from
  response_skip h = ground arith

  response_last :
      shareable self x ≡ true
      → max_peers ≤ length result + 1
      → response_from self max_peers result (x ∷ rest) ≡ result ++ info x ∷ []
  unfolding response_from
  response_last h l = ground (arith, length-append result (info x ∷ []))

  response_more :
      shareable self x ≡ true
      → length result + 1 < max_peers
      → response_from self max_peers result (x ∷ rest)
        ≡ response_from self max_peers (result ++ info x ∷ []) rest
  unfolding response_from
  response_more h l = ground (arith, length-append result (info x ∷ []))

positive : (n : ℕ) → 0 < n → (k : ℕ) × (n ≡ suc k)
positive zero h = absurd (omega arith)
positive (suc k) h = (k, refl)

response_from-eq :
    (self : Text) (max_peers : ℕ) (result : List PexPeerInfo) (peers : List (Text × Text))
    → length result < max 1 max_peers
    → response_from self max_peers result peers
      ≡ result ++ take (max 1 max_peers - length result) (shared self peers)
response_from-eq self m result [] l =
    let (n, e) = positive (max 1 m - length result) (omega arith) in
    unfold response_from in rw e (sym (append-nil result))
response_from-eq self m result (x ∷ rest) l = elim (Bool-cases (shareable self x)) [
  | inr skip ↦
      response_skip self m result x rest skip
      ∙ rw (shared-skip self x rest skip) (response_from-eq self m result rest l)
  | inl share ↦
      let ih = response_from-eq self m (result ++ info x ∷ []) rest in
      let grown : length (result ++ info x ∷ []) ≡ length result + 1 =
        length-append result (info x ∷ []) in
      rw (shared-cons self x rest share) (elim (Bool-cases (leb m (length result + 1))) [
        | inl last ↦
            let one : max 1 m - length result ≡ 1 = ground arith in
            response_last self m result x rest share (ground arith) ∙ rw one refl
        | inr more ↦
            let room : max 1 m - length result ≡ suc (max 1 m - (length result + 1)) =
              ground arith in
            response_more self m result x rest share (ground arith)
            ∙ (ih (ground (arith, grown))
                ∙ rw (grown, room)
                    (sym (
                      snoc-take (max 1 m - (length result + 1)) result (info x)
                        (shared self rest))))
      ])
]

-- build_response returns the connected peers other than the node itself that have a valid address, in
-- their order, up to `max_peers` of them, and one where `max_peers` is 0.
pub build_response-eq :
    (p : PeerExchange) (connected : List (Text × Text)) (max_peers : ℕ)
    → build_response p connected max_peers
      ≡ take
          (max 1 max_peers)
          (map (info) (keep (λ x. not (x.0 == p.peer_id) && is_valid_multiaddr x.1) connected))
unfolding build_response
build_response-eq p connected m =
    let all : max 1 m - 0 ≡ max 1 m = omega arith in
    response_from-eq p.peer_id m [] connected (omega arith)
    ∙ ap (λ n. take n (shared p.peer_id connected)) all
