-- ===== src/P2p/Dht/Node/Index.antt =====
-- infomesh/p2p/dht.py: pointers that are published are found.
use infomesh.Prelude.{
  ℕ, ◌≡◌, refl, sym, ap, ◌∙◌, true, inl, inr, List, ◌++◌, arith, take, Text, bytes, Bool-cases,
}
use infomesh.Prelude.Ascii.{lower}
use infomesh.Prelude.Result.{ok, Result-cases}
use infomesh.Prelude.Hash.{Sha256, hexdigest}
use infomesh.P2p.Dht.{
  PeerPointer, DhtValue, Kad, Reliable, DhtNode, max_pointers_per_keyword, check_publish_rate,
  keyword_value, record_publish, count_published, count_put,
}
use infomesh.P2p.Dht.Merge.{distinct, merge_pointers-eq}
use infomesh.P2p.Dht.Node.{
  keyword_to_dht_key, try_put, merged_entry, publish_keyword, query_keyword, pointers_in,
}

module _ ⦃h : Sha256⦄ {N : Type 0} ⦃kad : Kad N⦄ where
  pub try_put-put_value :
      (after : DhtNode → DhtNode) (node : DhtNode) (net : N) (key : Text) (v : DhtValue)
      (node' : DhtNode) (net' : N)
      → try_put after node net key v ≡ (true, node', net')
      → kad.put_value net key v ≡ ok net'
  unfolding try_put
  try_put-put_value after node net key v node' net' e =
      elim (Result-cases (kad.put_value net key v)) [
        | inl (net₁, done) ↦ ground (arith, e, done)
        | inr (x, failed) ↦ absurd (ground (arith, e, failed))
      ]

  -- Where a put that returns is found by a get: after a publication that succeeds, a query for the
  -- keyword, in whatever case its letters are, by any node finds the published pointers and then those
  -- that were found before, the first to each document of a peer, up to 100 of them.
  pub query_keyword-publish_keyword :
      (node : DhtNode) (net : N) (keyword : Text) (pointers : List PeerPointer) (signature : Text)
      (checked stamped recorded : ℕ) (node' other : DhtNode) (net' : N) (asked : Text)
      → Reliable kad
      → lower asked ≡ lower keyword
      → publish_keyword node net keyword pointers signature checked stamped recorded
        ≡ (true, node', net')
      → (query_keyword other net' asked).0
        ≡ take max_pointers_per_keyword (distinct (pointers ++ (query_keyword node net keyword).0))
  unfolding publish_keyword merged_entry query_keyword keyword_to_dht_key Reliable pointers_in
  query_keyword-publish_keyword node net keyword pointers signature checked stamped recorded node'
        other net' asked reliable same e =
      elim (Bool-cases (check_publish_rate node keyword checked).0) [
        | inl allowed ↦
            let entry = merged_entry node net keyword pointers signature stamped in
            let stored =
              try_put-put_value
                (λ n. record_publish (count_published (count_put n)) keyword recorded)
                (check_publish_rate node keyword checked).1 net (keyword_to_dht_key keyword)
                (keyword_value entry) node' net' (sym (rw (publish_keyword, allowed) refl) ∙ e) in
            ap (λ k. pointers_in (kad.get_value net' (bytes "/infomesh/kw/" ++ hexdigest k))) same
            ∙ ap pointers_in
                (reliable net net' (keyword_to_dht_key keyword) (keyword_value entry) stored)
            ∙ merge_pointers-eq (pointers_in (kad.get_value net (keyword_to_dht_key keyword)))
                pointers max_pointers_per_keyword (omega arith)
        | inr limited ↦ absurd (ground (arith, e, limited))
      ]
