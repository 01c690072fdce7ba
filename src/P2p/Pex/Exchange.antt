-- ===== src/P2p/Pex/Exchange.antt =====
-- infomesh/p2p/pex.py, `process_response`: what a node takes over, and a whole exchange.
use infomesh.Prelude.{
  ℕ, zero, suc, ◌≤◌, ◌≡◌, refl, sym, ap, ◌∙◌, subst, Bool, true, false, not, ◌&&◌, ◌||◌, some, List,
  [], ◌∷◌, map, arith, if◌then◌else◌, max, length, take, length-take, length-map, keep, null, Text,
  text_eq, ◌==◌, Bool-cases, inl, inr, All,
}
use infomesh.P2p.Pex.{
  PeerExchange, PexPeerInfo, PeerEntry, is_valid_multiaddr, has_infix, starts_with, build_response,
  or_blank, member, process_entries, process_response,
}
use infomesh.P2p.Pex.Responses.{info, shareable, shared, build_response-eq}

-- An entry that may be taken over, as the peer that it names.
abbrev pub read_entry : PeerEntry → PexPeerInfo
read_entry e = record { peer_id = or_blank e.peer_id; multiaddr = or_blank e.multiaddr }

abbrev pub acceptable : Text → Text → List Text → PexPeerInfo → Bool
acceptable self sender known i =
    not (null i.peer_id)
    && not (i.peer_id == self)
    && not (i.peer_id == sender)
    && not (member i.peer_id known)
    && is_valid_multiaddr i.multiaddr

valid-IsFull : (maddr : Text) → is_valid_multiaddr maddr ≡ true → null maddr ≡ false
unfolding is_valid_multiaddr has_infix starts_with
valid-IsFull [] h = cc
valid-IsFull (c ∷ cs) h = refl

-- The guards of a round, one after the other, and all at once.
guards :
    (no_id no_addr own sent known valid : Bool) (x : PexPeerInfo) (rest : List PexPeerInfo)
    → (valid ≡ true → no_addr ≡ false)
    → (if no_id || no_addr
        then rest
        else if own || sent
        then rest
        else if known
        then rest
        else if not valid
        then rest
        else x ∷ rest)
      ≡ (if not no_id && not own && not sent && not known && valid then x ∷ rest else rest)
guards true no_addr own sent known valid x rest h = refl
guards false true own sent known true x rest h = absurd (let e = h refl in cc)
guards false true true sent known false x rest h = refl
guards false true false true known false x rest h = refl
guards false true false false true false x rest h = refl
guards false true false false false false x rest h = refl
guards false false true sent known valid x rest h = refl
guards false false false true known valid x rest h = refl
guards false false false false true valid x rest h = refl
guards false false false false false true x rest h = refl
guards false false false false false false x rest h = refl

process_entries-eq :
    (self sender : Text) (known : List Text) (entries : List PeerEntry)
    → process_entries self sender known entries
      ≡ keep (acceptable self sender known) (map (read_entry) entries)
unfolding process_entries
process_entries-eq self sender known [] = refl
process_entries-eq self sender known (e ∷ rest) =
    let i = read_entry e in
    guards (null i.peer_id) (null i.multiaddr) (i.peer_id == self) (i.peer_id == sender)
      (member i.peer_id known) (is_valid_multiaddr i.multiaddr) i
      (process_entries self sender known rest) (valid-IsFull i.multiaddr)
    ∙ ap (λ r. if acceptable self sender known i then i ∷ r else r)
        (process_entries-eq self sender known rest)

-- process_response takes over, of the first ten entries and in their order, exactly those with an id
-- and a valid address that name neither the node itself, nor the sender, nor a known peer.
process_response-eq :
    (p : PeerExchange) (sender : Text) (entries : List PeerEntry) (known : List Text)
    → process_response p sender entries known
      ≡ keep
          (λ i.
            not (null i.peer_id)
            && not (i.peer_id == p.peer_id)
            && not (i.peer_id == sender)
            && not (member i.peer_id known)
            && is_valid_multiaddr i.multiaddr)
          (map
            (λ e. record { peer_id = or_blank e.peer_id; multiaddr = or_blank e.multiaddr })
            (take 10 entries))
unfolding process_response
process_response-eq p sender entries known =
    process_entries-eq p.peer_id sender known (take 10 entries)

-- An exchange: what a node puts in a response, as the other one reads it.
abbrev pub sent : PexPeerInfo → PeerEntry
sent i = record { peer_id = some i.peer_id; multiaddr = some i.multiaddr }

-- A peer of a response is neither its sender nor without a valid address.
abbrev IsShared : Text → PexPeerInfo → Type 0
IsShared self i = ((i.peer_id == self) ≡ false) × (is_valid_multiaddr i.multiaddr ≡ true)

split_shareable : (self : Text) (x : Text × Text) → shareable self x ≡ true → IsShared self (info x)
split_shareable self x h = (ground arith, ground arith)

shared-All : (self : Text) (peers : List (Text × Text)) → All (IsShared self) (shared self peers)
shared-All self [] = tt
shared-All self (x ∷ rest) = elim (Bool-cases (shareable self x)) [
  | inl share ↦ rw share (split_shareable self x share, shared-All self rest)
  | inr skip ↦ rw skip (shared-All self rest)
]

take-All {ℓ κ} : {A : Type ℓ} (P : A → Type κ) (n : ℕ) (xs : List A) → All P xs → All P (take n xs)
take-All P zero xs a = tt
take-All P (suc n) [] a = tt
take-All P (suc n) (x ∷ xs) a = (a.0, take-All P n xs a.1)

take-short {ℓ} : {A : Type ℓ} (n : ℕ) (xs : List A) → length xs ≤ n → take n xs ≡ xs
take-short zero [] l = refl
take-short zero (x ∷ xs) l = absurd (omega arith)
take-short (suc n) [] l = refl
take-short (suc n) (x ∷ xs) l = ap (λ r. x ∷ r) (take-short n xs (omega arith))

read-sent : (is : List PexPeerInfo) → map (read_entry) (map (sent) is) ≡ is
read-sent [] = refl
read-sent (i ∷ is) = ap (λ r. i ∷ r) (read-sent is)

abbrev pub welcome : Text → List Text → PexPeerInfo → Bool
welcome self known i =
    not (null i.peer_id) && not (i.peer_id == self) && not (member i.peer_id known)

four_guards : (a b c : Bool) → (not a && not b && true && not c && true) ≡ (not a && not b && not c)
four_guards true b c = refl
four_guards false true c = refl
four_guards false false true = refl
four_guards false false false = refl

keep-welcome :
    (self sender : Text) (known : List Text) (is : List PexPeerInfo)
    → All (IsShared sender) is
    → keep (acceptable self sender known) is ≡ keep (welcome self known) is
keep-welcome self sender known [] a = refl
keep-welcome self sender known (i ∷ is) a =
    rw (a.0.0, a.0.1, keep-welcome self sender known is a.1)
      (ap (λ t. if t then i ∷ keep (welcome self known) is else keep (welcome self known) is)
        (four_guards (null i.peer_id) (i.peer_id == self) (member i.peer_id known)))

-- When a node builds a response of at most ten peers and another node processes it, the other node takes
-- over exactly the peers of the response that have an id, are not the other node itself, and are not known to it.
pub process_response-build_response :
    (a b : PeerExchange) (connected : List (Text × Text)) (max_peers : ℕ) (known : List Text)
    → max_peers ≤ 10
    → process_response b a.peer_id (map (sent) (build_response a connected max_peers)) known
      ≡ keep
          (λ i.
            not (null i.peer_id) && not (i.peer_id == b.peer_id) && not (member i.peer_id known))
          (build_response a connected max_peers)
process_response-build_response a b connected m known l =
    let is = build_response a connected m in
    let short : length (map (sent) is) ≤ 10 = omega (
      arith,
      length-map (sent) is,
      ap length (build_response-eq a connected m),
      length-take (max 1 m) (shared a.peer_id connected),
    ) in
    let ok : All (IsShared a.peer_id) is =
      subst (All (IsShared a.peer_id)) (sym (build_response-eq a connected m)) (
        take-All (IsShared a.peer_id) (max 1 m) (shared a.peer_id connected)
          (shared-All a.peer_id connected)) in
    process_response-eq b a.peer_id (map (sent) is) known
    ∙ (ap (λ es. keep (acceptable b.peer_id a.peer_id known) (map (read_entry) es))
          (take-short 10 (map (sent) is) short)
        ∙ (ap (keep (acceptable b.peer_id a.peer_id known)) (read-sent is)
            ∙ keep-welcome b.peer_id a.peer_id known is ok))
