-- ===== src/P2p/Dht/Node.antt =====
-- infomesh/p2p/dht.py: the operations of `InfoMeshDHT`. Each takes the node and the network and gives
-- both back; an exception of the network is caught, as in the code.
pub mod Index
pub mod Locks
mod Tests
use infomesh.Prelude.{
  ℕ, ◌+◌, Bool, true, false, Option, none, some, List, [], ◌++◌, ltb, if◌then◌else◌, Text, bytes,
}
use infomesh.Prelude.Ascii.{lower}
use infomesh.Prelude.Result.{Result, ok, err}
use infomesh.Prelude.Hash.{Sha256, hexdigest}
use infomesh.P2p.Dht.{
  PeerPointer, KeywordEntry, LockData, AttestationData, DhtValue, keyword_value, lock_value,
  attestation_value, malformed, Kad, max_pointers_per_keyword, DhtNode, count_get, count_put,
  count_published, check_publish_rate, record_publish, merge_pointers,
}

-- `keyword_to_dht_key` of infomesh/p2p/protocol.py
pub keyword_to_dht_key : ⦃h : Sha256⦄ → Text → Text
keyword_to_dht_key keyword = bytes "/infomesh/kw/" ++ hexdigest (lower keyword)

pub lock_key : ⦃h : Sha256⦄ → Text → Text
lock_key url = bytes "/infomesh/lock/" ++ hexdigest url

pub attestation_key : ⦃h : Sha256⦄ → Text → Text
attestation_key url = bytes "/infomesh/att/" ++ hexdigest url

-- `entry.get("pointers", [])` of an answer; an exception, no value and other data count as no pointers.
unfoldable pub pointers_in : Result Unit (Option DhtValue) → List PeerPointer
pointers_in (ok (some (keyword_value e))) = e.pointers
pointers_in _ = []

-- `lock_data.get("timestamp", 0)`, none where there is no value or an exception
pub timestamp_in : Result Unit (Option DhtValue) → Option ℕ
timestamp_in (ok (some (keyword_value e))) = some (e.timestamp)
timestamp_in (ok (some (lock_value l))) = some (l.timestamp)
timestamp_in (ok (some (attestation_value a))) = some (a.timestamp)
timestamp_in _ = none

abbrev pub returned : Result Unit (Option DhtValue) → Bool
returned (ok v) = true
returned (err e) = false

abbrev pub count_acquired : DhtNode → DhtNode
count_acquired node = record node {
  stats = record node.stats { locks_acquired = node.stats.locks_acquired + 1 };
}

abbrev pub count_released : DhtNode → DhtNode
count_released node = record node {
  stats = record node.stats { locks_released = node.stats.locks_released + 1 };
}

abbrev pub found : Result Unit (Option DhtValue) → Option DhtValue
found (ok (some malformed)) = none
found (ok v) = v
found (err e) = none

abbrev pub raw : Result Unit (Option DhtValue) → Option DhtValue
raw (ok v) = v
raw (err e) = none

module _ ⦃h : Sha256⦄ {N : Type 0} ⦃kad : Kad N⦄ where
  -- `put_value`, and what the caller does with the node where it returns
  pub try_put : (DhtNode → DhtNode) → DhtNode → N → Text → DhtValue → Bool × DhtNode × N
  try_put after node net key v = elim (kad.put_value net key v) [
    | ok net' ↦ (true, after node, net')
    | err e ↦ (false, node, net)
  ]

  -- the entry that replaces the one in the network
  pub merged_entry : DhtNode → N → Text → List PeerPointer → Text → ℕ → KeywordEntry
  merged_entry node net keyword pointers signature stamped = record {
    keyword = keyword;
    pointers =
        merge_pointers (pointers_in (kad.get_value net (keyword_to_dht_key keyword))) pointers
          max_pointers_per_keyword;
    peer_id = node.peer_id;
    timestamp = stamped;
    signature = signature;
  }

  -- The clock is read for the check, the entry, and the record. The read and the put find the network
  -- in one state: no other node puts between the two awaits.
  pub publish_keyword :
      DhtNode → N → Text → List PeerPointer → Text → ℕ → ℕ → ℕ → Bool × DhtNode × N
  publish_keyword node net keyword pointers signature checked stamped recorded =
      let (allowed, node') = check_publish_rate node keyword checked in
      let published =
        try_put (λ n. record_publish (count_published (count_put n)) keyword recorded) node' net
          (keyword_to_dht_key keyword)
          (keyword_value (merged_entry node net keyword pointers signature stamped)) in
      if allowed then published else (false, node', net)

  unfoldable pub query_keyword : DhtNode → N → Text → List PeerPointer × DhtNode
  query_keyword node net keyword =
      let answer = kad.get_value net (keyword_to_dht_key keyword) in
      (pointers_in answer, if returned answer then count_get node else node)

  -- `acquire_crawl_lock` up to the first await: whether a lock is in the way
  pub lock_held : N → Text → ℕ → ℕ → Bool
  lock_held net url ttl_seconds now = elim (timestamp_in (kad.get_value net (lock_key url))) [
    | none ↦ false
    | some lock_time ↦ ltb now (lock_time + ttl_seconds)
  ]

  -- `acquire_crawl_lock` from there on
  pub put_lock : DhtNode → N → Text → ℕ → ℕ → Bool × DhtNode × N
  put_lock node net url ttl_seconds stamped = try_put count_acquired node net (lock_key url) (
      lock_value
        (record { peer_id = node.peer_id; url = url; timestamp = stamped; ttl = ttl_seconds }))

  pub acquire_crawl_lock : DhtNode → N → Text → ℕ → ℕ → ℕ → Bool × DhtNode × N
  acquire_crawl_lock node net url ttl_seconds now stamped =
      let put = put_lock node net url ttl_seconds stamped in
      if lock_held net url ttl_seconds now then (false, node, net) else put

  pub release_crawl_lock : DhtNode → N → Text → Bool × DhtNode × N
  release_crawl_lock node net url =
      try_put count_released node net (lock_key url)
        (lock_value (record { peer_id = node.peer_id; url = url; timestamp = 0; ttl = 0 }))

  pub publish_attestation : DhtNode → N → Text → Text → Text → Text → ℕ → Bool × DhtNode × N
  publish_attestation node net url raw_hash text_hash signature now =
      try_put count_put node net (attestation_key url) (
        attestation_value (record {
          url = url;
          raw_hash = raw_hash;
          text_hash = text_hash;
          peer_id = node.peer_id;
          timestamp = now;
          signature = signature;
        }))

  pub get_attestation : DhtNode → N → Text → Option DhtValue × DhtNode
  get_attestation node net url =
      let answer = kad.get_value net (attestation_key url) in
      (found answer, if returned answer then count_get node else node)

  -- `put` and `get`, of the packed form of any value
  pub put : DhtNode → N → Text → DhtValue → Bool × DhtNode × N
  put node net key v = try_put count_put node net key v

  pub get : DhtNode → N → Text → Option DhtValue × DhtNode
  get node net key =
      let answer = kad.get_value net key in
      (raw answer, if returned answer then count_get node else node)
