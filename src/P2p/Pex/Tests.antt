-- ===== src/P2p/Pex/Tests.antt =====
-- infomesh/p2p/pex.py for two nodes.
use infomesh.Prelude.{
  ◌+◌, ◌≤◌, ◌≡◌, refl, true, not, ◌&&◌, List, [], ◌∷◌, map, keep, null, arith, Text, bytes, text_eq,
  ◌==◌,
}
use infomesh.Prelude.Dict.{lookup, insert, erase}
use infomesh.P2p.Pex.{
  PeerExchange, new_exchange, check_rate_limit, cleanup_rate_limits, stale, delete_all,
  is_valid_multiaddr, has_infix, starts_with, build_response, response_from, process_response,
  member,
}
use infomesh.P2p.Pex.Rate.{Event, requested, cleaned, apply, apply_all, last_time, requests_spaced}
use infomesh.P2p.Pex.Exchange.{sent, process_response-build_response}

abbrev alice : PeerExchange
alice = new_exchange (bytes "alice")

abbrev bob : PeerExchange
bob = new_exchange (bytes "bob")

abbrev carol_address : Text
carol_address = bytes "/ip4/10.0.0.3/tcp/4001/p2p/carol"

abbrev connected : List (Text × Text)
connected =
    (bytes "alice", carol_address)
    ∷ (bytes "carol", carol_address)
    ∷ (bytes "dave", bytes "/dns4/dave")
    ∷ []

response :
    build_response alice connected 10
    ≡ record { peer_id = bytes "carol"; multiaddr = carol_address } ∷ []
unfolding build_response response_from is_valid_multiaddr has_infix starts_with
response = refl

-- One peer is sent although none was asked for.
none_asked_for :
    build_response alice connected 0
    ≡ record { peer_id = bytes "carol"; multiaddr = carol_address } ∷ []
unfolding build_response response_from is_valid_multiaddr has_infix starts_with
none_asked_for = refl

process_response-build_response_example :
    process_response bob (bytes "alice") (map (sent) (build_response alice connected 10)) []
    ≡ keep
        (λ i. not (null i.peer_id) && not (i.peer_id == bytes "bob") && not (member i.peer_id []))
        (build_response alice connected 10)
process_response-build_response_example =
    process_response-build_response alice bob connected 10 [] (omega arith)

abbrev between : List Event
between = requested (bytes "bob") 1030 ∷ cleaned 1700 ∷ []

first_accepted :
    (check_rate_limit
      (apply_all (new_exchange (bytes "alice")) (requested (bytes "carol") 900 ∷ []))
      (bytes "bob")
      1000).0
    ≡ true
unfolding apply_all apply check_rate_limit lookup insert
first_accepted = refl

second_accepted :
    (check_rate_limit
      (apply_all
        (check_rate_limit
          (apply_all (new_exchange (bytes "alice")) (requested (bytes "carol") 900 ∷ []))
          (bytes "bob")
          1000).1
        between)
      (bytes "bob")
      1800).0
    ≡ true
unfolding apply_all apply check_rate_limit lookup insert cleanup_rate_limits stale delete_all erase
second_accepted = refl

requests_spaced_example : 1000 + 60 ≤ 1800
requests_spaced_example =
    requests_spaced (bytes "alice") (requested (bytes "carol") 900 ∷ []) between (bytes "bob") 1000
      1800 first_accepted (omega arith, (omega arith, tt)) (unfold last_time in omega arith)
      second_accepted
