-- ===== src/P2p/Dht.antt =====
-- infomesh/p2p/dht.py: what a node stores in the DHT: the pointers of the inverted index, the locks of
-- crawlers, and attestations. A time is a natural number of seconds, a score one of
-- thousandths. Values stand for their msgpack form. Each reading of the clock is an argument.
pub mod Merge
pub mod Node
use infomesh.Prelude.{
  ℕ, ◌+◌, Bool, true, false, Option, none, some, List, [], ◌∷◌, ◌++◌, ltb, leb, if◌then◌else◌,
  length, keep, Eq, nat_eq, Text, bytes, text_eq, ◌==◌, ◌&&◌, ◌≡◌, ◌↔◌, arith, null,
}
use infomesh.Prelude.Ascii.{lower}
use infomesh.Prelude.Dict.{Dict, lookup, insert, erase, contains}
use infomesh.Prelude.Result.{Result, ok, err}
use infomesh.Prelude.Hash.{Sha256, hexdigest}

-- `PeerPointer` of infomesh/p2p/protocol.py, and the dict with its fields, where a peer may have left
-- out the score
pub record PeerPointer : Type 0 where
  pub peer_id : Text
  pub doc_id : ℕ
  pub url : Text
  pub score : Option ℕ
  pub title : Text

pub record KeywordEntry : Type 0 where
  pub keyword : Text
  pub pointers : List PeerPointer
  pub peer_id : Text
  pub timestamp : ℕ
  pub signature : Text

pub record LockData : Type 0 where
  pub peer_id : Text
  pub url : Text
  pub timestamp : ℕ
  pub ttl : ℕ

pub record AttestationData : Type 0 where
  pub url : Text
  pub raw_hash : Text
  pub text_hash : Text
  pub peer_id : Text
  pub timestamp : ℕ
  pub signature : Text

-- What is stored under a key. `malformed` is what `safe_unpackb` raises on.
pub data DhtValue : Type 0 where
  keyword_value : KeywordEntry → DhtValue
  lock_value : LockData → DhtValue
  attestation_value : AttestationData → DhtValue
  malformed : DhtValue

-- libp2p's `KadDHT`, on the states of a network. Both calls may raise.
pub record Kad (N : Type 0) : Type 0 where
  pub get_value : N → Text → Result Unit (Option DhtValue)
  pub put_value : N → Text → DhtValue → Result Unit N

-- A put that returns is what a get then finds.
pub Reliable : {N : Type 0} → Kad N → Type 0
Reliable {N} kad =
    (net net' : N) (key : Text) (v : DhtValue)
    → kad.put_value net key v ≡ ok net'
    → kad.get_value net' key ≡ ok (some v)

abbrev pub lock_ttl_seconds : ℕ
lock_ttl_seconds = 300

abbrev pub max_pointers_per_keyword : ℕ
max_pointers_per_keyword = 100

abbrev pub max_publishes_per_keyword_hr : ℕ
max_publishes_per_keyword_hr = 10

pub record DhtStats : Type 0 where
  pub keys_stored : ℕ
  pub keys_published : ℕ
  pub gets_performed : ℕ
  pub puts_performed : ℕ
  pub locks_acquired : ℕ
  pub locks_released : ℕ

-- `InfoMeshDHT`, without the network
pub record DhtNode : Type 0 where
  pub peer_id : Text
  pub stats : DhtStats
  pub publish_times : Dict Text (List ℕ)

pub new_node : Text → DhtNode
new_node peer_id = record {
  peer_id = peer_id;
  stats = record {
    keys_stored = 0;
    keys_published = 0;
    gets_performed = 0;
    puts_performed = 0;
    locks_acquired = 0;
    locks_released = 0;
  };
  publish_times = [];
}

abbrev pub count_get : DhtNode → DhtNode
count_get node = record node {
  stats = record node.stats { gets_performed = node.stats.gets_performed + 1 };
}

abbrev pub count_put : DhtNode → DhtNode
count_put node = record node {
  stats = record node.stats { puts_performed = node.stats.puts_performed + 1 };
}

abbrev pub count_published : DhtNode → DhtNode
count_published node = record node {
  stats = record node.stats { keys_published = node.stats.keys_published + 1 };
}

abbrev pub times_of : Option (List ℕ) → List ℕ
times_of none = []
times_of (some ts) = ts

-- `_check_publish_rate`
pub check_publish_rate : DhtNode → Text → ℕ → Bool × DhtNode
check_publish_rate node keyword now =
    let times = keep (λ t. ltb now (t + 3600)) (times_of (lookup keyword node.publish_times)) in
    (
      ltb (length times) max_publishes_per_keyword_hr,
      record node {
        publish_times =
            if null times
            then erase keyword node.publish_times
            else insert keyword times node.publish_times;
      },
    )

-- `_record_publish`
pub record_publish : DhtNode → Text → ℕ → DhtNode
record_publish node keyword now = record node {
  publish_times =
      insert keyword (times_of (lookup keyword node.publish_times) ++ now ∷ []) node.publish_times;
}

abbrev pub pair_beq : Text × ℕ → Text × ℕ → Bool
pair_beq (a, i) (b, j) = a == b && i == j

pub pair_beq_iff : (x y : Text × ℕ) → (pair_beq x y ≡ true) ↔ (x ≡ y)
pair_beq_iff (a, i) (b, j) = ground (arith, text_eq.same_iff a b, nat_eq.same_iff i j)

instance abbrev pub key_eq : Eq (Text × ℕ)
key_eq = record { same = pair_beq; same_iff = pair_beq_iff }

abbrev pub pointer_key : PeerPointer → Text × ℕ
pointer_key p = (p.peer_id, p.doc_id)

-- the loop of `_merge_pointers`
pub merge_from : ℕ → List PeerPointer → Dict (Text × ℕ) PeerPointer → Dict (Text × ℕ) PeerPointer
merge_from limit [] merged = merged
merge_from limit (p ∷ ps) merged =
    let merged' =
      if contains (pointer_key p) merged then merged else insert (pointer_key p) p merged in
    let rest = merge_from limit ps merged' in if leb limit (length merged') then merged' else rest

-- `d.values()`
unfoldable pub values : {K V : Type 0} → Dict K V → List V
values [] = []
values ((k, v) ∷ d) = v ∷ values d

-- `_merge_pointers`
pub merge_pointers : List PeerPointer → List PeerPointer → ℕ → List PeerPointer
merge_pointers existing new limit = values (merge_from limit (new ++ existing) [])
