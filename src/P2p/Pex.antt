-- ===== src/P2p/Pex.antt =====
-- infomesh/p2p/pex.py: the exchange of peer addresses. A time is a natural number of seconds, and what
-- the clock reads is an argument.
pub mod Memory
pub mod Rate
pub mod Responses
pub mod Exchange
mod Tests
use infomesh.Prelude.{
  ℕ, zero, suc, ◌+◌, ◌*◌, Bool, true, false, not, ◌&&◌, ◌||◌, Option, none, some, List, [], ◌∷◌,
  ◌++◌, ltb, leb, if◌then◌else◌, length, take, null, keep, Text, bytes, text_eq, ◌==◌, nat_beq,
}
use infomesh.Prelude.Dict.{Dict, lookup, insert, erase}

abbrev pub pex_max_peers : ℕ
pex_max_peers = 10

abbrev pub pex_min_interval : ℕ
pex_min_interval = 60

pub record PexPeerInfo : Type 0 where
  pub peer_id : Text
  pub multiaddr : Text

pub record PeerExchange : Type 0 where
  pub peer_id : Text
  pub last_request : Dict Text ℕ

abbrev pub new_exchange : Text → PeerExchange
new_exchange peer_id = record { peer_id = peer_id; last_request = [] }

-- `d.get(requester_id, 0.0)`
abbrev pub or_epoch : Option ℕ → ℕ
or_epoch none = 0
or_epoch (some t) = t

pub check_rate_limit : PeerExchange → Text → ℕ → Bool × PeerExchange
check_rate_limit p requester_id now =
    let last = or_epoch (lookup requester_id p.last_request) in
    if ltb now (last + pex_min_interval)
    then (false, p)
    else (true, record p { last_request = insert requester_id now p.last_request })

-- `text.startswith(prefix)` and `infix in text`
pub starts_with : Text → Text → Bool
starts_with [] text = true
starts_with (c ∷ cs) [] = false
starts_with (c ∷ cs) (d ∷ ds) = let rest = starts_with cs ds in nat_beq c d && rest

pub has_infix : Text → Text → Bool
has_infix part [] = starts_with part []
has_infix part (c ∷ cs) = starts_with part (c ∷ cs) || has_infix part cs

pub is_valid_multiaddr : Text → Bool
is_valid_multiaddr maddr =
    has_infix (bytes "/p2p/") maddr
    && (starts_with (bytes "/ip4/") maddr || starts_with (bytes "/ip6/") maddr)

-- the loop of `build_response`, with the response so far
pub response_from : Text → ℕ → List PexPeerInfo → List (Text × Text) → List PexPeerInfo
response_from self max_peers result [] = result
response_from self max_peers result ((pid, maddr) ∷ rest) =
    let skipped = response_from self max_peers result rest in
    let result' = result ++ record { peer_id = pid; multiaddr = maddr } ∷ [] in
    let continued = response_from self max_peers result' rest in
    if pid == self
    then skipped
    else if not (is_valid_multiaddr maddr)
    then skipped
    else if leb max_peers (length result')
    then result'
    else continued

pub build_response : PeerExchange → List (Text × Text) → ℕ → List PexPeerInfo
build_response p connected_peers max_peers = response_from p.peer_id max_peers [] connected_peers

-- An entry of a response that was received: `str(...)` of its two values, where it has them.
pub record PeerEntry : Type 0 where
  pub peer_id : Option Text
  pub multiaddr : Option Text

abbrev pub or_blank : Option Text → Text
or_blank none = []
or_blank (some t) = t

pub member : Text → List Text → Bool
member x [] = false
member x (y ∷ ys) = if x == y then true else member x ys

-- the loop of `process_response`
pub process_entries : Text → Text → List Text → List PeerEntry → List PexPeerInfo
process_entries self sender_id known_peers [] = []
process_entries self sender_id known_peers (entry ∷ rest) =
    let new_peers = process_entries self sender_id known_peers rest in
    let pid = or_blank entry.peer_id in
    let maddr = or_blank entry.multiaddr in
    if null pid || null maddr
    then new_peers
    else if pid == self || pid == sender_id
    then new_peers
    else if member pid known_peers
    then new_peers
    else if not (is_valid_multiaddr maddr)
    then new_peers
    else record { peer_id = pid; multiaddr = maddr } ∷ new_peers

-- `known_peers` is the empty list where the argument is None.
pub process_response : PeerExchange → Text → List PeerEntry → List Text → List PexPeerInfo
process_response p sender_id peers_data known_peers =
    process_entries p.peer_id sender_id known_peers (take pex_max_peers peers_data)

-- `ts < time.time() - PEX_MIN_INTERVAL * 10`
pub stale : ℕ → Dict Text ℕ → List Text
stale now [] = []
stale now ((pid, ts) ∷ rest) =
    let others = stale now rest in
    if ltb (ts + pex_min_interval * 10) now then pid ∷ others else others

pub delete_all : List Text → Dict Text ℕ → Dict Text ℕ
delete_all [] d = d
delete_all (pid ∷ pids) d = delete_all pids (erase pid d)

pub cleanup_rate_limits : PeerExchange → ℕ → PeerExchange
cleanup_rate_limits p now = record p {
  last_request = delete_all (stale now p.last_request) p.last_request;
}
