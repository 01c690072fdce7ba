-- ===== src/Index/Distributed/Tests.antt =====
-- infomesh/index/distributed.py on two documents, in a network that answers every get alike.
use infomesh.Prelude.{ℕ, List, some, none, ◌≤◌, ◌≡◌, refl, [], ◌∷◌, map, take, Text, bytes, text_eq}
use infomesh.Prelude.Dict.{lookup, insert}
use infomesh.Prelude.Result.{ok}
use infomesh.Prelude.Hash.{toy_hash}
use infomesh.P2p.Dht.{Kad, PeerPointer, keyword_value, key_eq, new_node, max_pointers_per_keyword}
use infomesh.P2p.Dht.Node.{query_keyword, pointers_in}
use infomesh.Index.StopWords.{stop_words}
use infomesh.Index.Distributed.{
  WordFinder, DistributedIndex, Document, is_skipped, count_words, place, sorted_down,
  extract_keywords, or_empty, gather, score_of, query, add_scores,
}
use infomesh.Index.Distributed.Sorted.{IsDescending}
use infomesh.Index.Distributed.Gather.{pointers_for, gather-eq}
use infomesh.Index.Distributed.Query.{total, once, all_found, query-IsDescending}

-- Each letter, twice, is a word.
instance abbrev letters : WordFinder
letters = record { find_words = λ t. map (λ c. c ∷ c ∷ []) t }

-- A network that has the same pointers for every keyword.
instance abbrev shared_table : Kad (List PeerPointer)
shared_table = record {
  get_value = λ net key. ok (
      some (
        keyword_value (record {
          keyword = [];
          pointers = net;
          peer_id = bytes "alice";
          timestamp = 10;
          signature = [];
        })));
  put_value = λ net key v. ok net;
}

abbrev tea : Text
tea = bytes "tta"

tea_keywords : extract_keywords tea 1 ≡ bytes "tt" ∷ []
unfolding extract_keywords count_words is_skipped stop_words lookup insert sorted_down place
tea_keywords = refl

abbrev doc1 : Document
doc1 = record { doc_id = 1; url = bytes "u"; title = []; text = tea; score = 5 }

abbrev doc2 : Document
doc2 = record { doc_id = 2; url = bytes "v"; title = []; text = bytes "t"; score = 7 }

abbrev index : DistributedIndex
index = record {
  dht = new_node (bytes "alice");
  peer_id = bytes "alice";
  stats = record {
    documents_published = 0;
    keywords_published = 0;
    queries_performed = 0;
    pointers_found = 0;
  };
}

abbrev shared : List PeerPointer
shared =
    record { peer_id = bytes "alice"; doc_id = 1; url = bytes "u"; score = some 5; title = [] }
    ∷ record { peer_id = bytes "alice"; doc_id = 2; url = bytes "v"; score = some 7; title = [] }
    ∷ []

gather-eq_example :
    or_empty (lookup (bytes "tt") (gather (bytes "alice") (doc1 ∷ doc2 ∷ []) []))
    ≡ take max_pointers_per_keyword (pointers_for (bytes "alice") (bytes "tt") (doc1 ∷ doc2 ∷ []))
gather-eq_example = gather-eq (bytes "alice") (bytes "tt") (doc1 ∷ doc2 ∷ [])

abbrev words : List Text
words = bytes "tt" ∷ bytes "aa" ∷ []

query-IsDescending_example :
    (results : List PeerPointer) × ((query index shared words).0 ≡ some results)
    × ((k : Text × ℕ)
        → (total score_of k results ≡ total score_of k (all_found index.dht shared words))
          × (total once k results ≤ 1))
    × IsDescending score_of results
query-IsDescending_example = query-IsDescending index shared words (
    unfold all_found query_keyword pointers_in in
    ((5, refl), ((7, refl), ((5, refl), ((7, refl), tt)))))

-- The second pointer to a document raises KeyError where the first one has no score.
key_error :
    add_scores
      (record { peer_id = bytes "alice"; doc_id = 1; url = bytes "u"; score = none; title = [] }
        ∷ record {
          peer_id = bytes "alice";
          doc_id = 1;
          url = bytes "u";
          score = some 5;
          title = [];
        }
        ∷ [])
      []
    ≡ none
unfolding add_scores lookup insert
key_error = refl
