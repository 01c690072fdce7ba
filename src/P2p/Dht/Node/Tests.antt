-- ===== src/P2p/Dht/Node/Tests.antt =====
-- infomesh/p2p/dht.py on a network that is one dictionary.
use infomesh.Prelude.{
  List, ◌≡◌, refl, ap, subst, Bool, true, false, some, [], ◌∷◌, arith, take, Text, bytes, text_eq,
}
use infomesh.Prelude.Dict.{Dict, lookup, insert}
use infomesh.Prelude.Dict.Laws.{lookup-insert, eq_refl}
use infomesh.Prelude.Result.{ok, ok-injective}
use infomesh.Prelude.Ascii.{lower}
use infomesh.Prelude.Hash.{toy_hash}
use infomesh.P2p.Dht.{
  PeerPointer, DhtValue, Kad, Reliable, DhtNode, new_node, max_pointers_per_keyword,
  check_publish_rate,
}
use infomesh.P2p.Dht.Merge.{distinct}
use infomesh.P2p.Dht.Node.{
  publish_keyword, query_keyword, acquire_crawl_lock, release_crawl_lock, lock_held, try_put,
  put_lock, count_acquired, count_released, timestamp_in,
}
use infomesh.P2p.Dht.Node.Index.{query_keyword-publish_keyword}
use infomesh.P2p.Dht.Node.Locks.{
  Attempt, attempts, Steps, trying, holding, lock_excludes, both_hold,
}

instance abbrev table : Kad (Dict Text DhtValue)
table = record {
  get_value = λ net key. ok (lookup key net);
  put_value = λ net key v. ok (insert key v net);
}

Reliable-table : Reliable table
unfolding Reliable
Reliable-table net net' key v e = ap ok (
    subst (λ n. lookup key n ≡ some v) (ok-injective e)
      (rw (lookup-insert key key v net, eq_refl key) refl))

abbrev empty : Dict Text DhtValue
empty = []

abbrev alice : DhtNode
alice = new_node (bytes "alice")

abbrev bob : DhtNode
bob = new_node (bytes "bob")

abbrev first : PeerPointer
first = record { peer_id = bytes "alice"; doc_id = 1; url = bytes "u"; score = some 5; title = [] }

abbrev again : PeerPointer
again = record { peer_id = bytes "alice"; doc_id = 1; url = bytes "v"; score = some 7; title = [] }

abbrev published : Bool × DhtNode × Dict Text DhtValue
published = publish_keyword alice empty (bytes "tea") (first ∷ again ∷ []) [] 10 10 11

published_once : published.0 ≡ true
unfolding publish_keyword check_publish_rate new_node lookup try_put
published_once = refl

query_keyword-publish_keyword_example :
    (query_keyword bob published.2 (bytes "Tea")).0
    ≡ take max_pointers_per_keyword
        (distinct (first ∷ again ∷ (query_keyword alice empty (bytes "tea")).0))
query_keyword-publish_keyword_example =
    query_keyword-publish_keyword alice empty (bytes "tea") (first ∷ again ∷ []) [] 10 10 11
      published.1 bob published.2 (bytes "Tea") Reliable-table (unfold lower in refl)
      (ap (λ b. (b, published.1, published.2)) published_once)

abbrev page : Text
page = bytes "u"

abbrev locked : Dict Text DhtValue
locked = (acquire_crawl_lock alice [] page 300 1000 1001).2

locked_once : acquire_crawl_lock alice [] page 300 1000 1001 ≡ (true, count_acquired alice, locked)
unfolding acquire_crawl_lock lock_held timestamp_in put_lock try_put lookup
locked_once = refl

abbrev two_attempts : List Attempt
two_attempts =
    record { node = bob; ttl = 300; now = 1200; stamped = 1201 }
    ∷ record { node = alice; ttl = 400; now = 1350; stamped = 1351 }
    ∷ []

lock_excludes_example : attempts page two_attempts locked ≡ (false ∷ false ∷ [], locked)
lock_excludes_example =
    lock_excludes alice [] page 300 1000 1001 (count_acquired alice) locked two_attempts
      Reliable-table locked_once (omega arith, (omega arith, tt))

abbrev freed : Dict Text DhtValue
freed = (release_crawl_lock bob locked page).2

freed_once : release_crawl_lock bob locked page ≡ (true, count_released bob, freed)
unfolding release_crawl_lock try_put
freed_once = refl

both_hold_example :
    (net' : Dict Text DhtValue) × (a : DhtNode) × (b : DhtNode) × Steps page 300
      ([], trying alice, trying bob)
      (net', holding a, holding b)
both_hold_example =
    both_hold alice bob [] page 300 1000 1000 1001 1002 (λ n key v. (insert key v n, refl))
      (unfold lock_held timestamp_in lookup in refl) (unfold lock_held timestamp_in lookup in refl)
