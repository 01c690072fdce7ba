-- ===== src/Index/Distributed.antt =====
-- infomesh/index/distributed.py: the keywords of documents, published to the DHT and queried there.
-- Documents have fields of the types that the conversions of `publish_batch` ask for. A score is a
-- natural number of thousandths.
pub mod Sorted
mod Counts
pub mod Keywords
pub mod Gather
pub mod Query
mod Tests
use infomesh.Prelude.{
  ℕ, ◌+◌, Bool, true, false, ◌||◌, Option, none, some, List, [], ◌∷◌, ◌++◌, map, ltb, leb,
  if◌then◌else◌, length, take, null, nat_eq, Text, bytes, text_eq, ◌==◌,
}
use infomesh.Prelude.Dict.{Dict, lookup, insert, contains}
use infomesh.Prelude.Hash.{Sha256}
use infomesh.P2p.Dht.{
  PeerPointer, Kad, DhtNode, key_eq, pointer_key, max_pointers_per_keyword, values,
}
use infomesh.P2p.Dht.Node.{publish_keyword, query_keyword}
use infomesh.Index.StopWords.{stop_words}

-- `_WORD_RE.findall(text.lower())`
pub record WordFinder : Type 0 where
  pub find_words : Text → List Text

abbrev pub min_keyword_length : ℕ
min_keyword_length = 2

abbrev pub max_keywords_per_doc : ℕ
max_keywords_per_doc = 50

abbrev pub member : Text → List Text → Bool
member t [] = false
member t (x ∷ xs) = let rest = member t xs in if t == x then true else rest

-- the two conditions under which a word is passed over
pub is_skipped : Text → Bool
is_skipped word = ltb (length word) min_keyword_length || member word stop_words

abbrev pub or_zero : Option ℕ → ℕ
or_zero none = 0
or_zero (some n) = n

pub count_words : List Text → Dict Text ℕ → Dict Text ℕ
count_words [] freq = freq
count_words (w ∷ ws) freq =
    if is_skipped w
    then count_words ws freq
    else count_words ws (insert w (or_zero (lookup w freq) + 1) freq)

-- `sorted(items, key=..., reverse=True)`, which keeps the order of items with one key
module _ {A : Type 0} (rank : A → ℕ) where
  pub place : A → List A → List A
  place x [] = x ∷ []
  place x (y ∷ ys) = let rest = place x ys in if ltb (rank x) (rank y) then y ∷ rest else x ∷ y ∷ ys

  pub sorted_down : List A → List A
  sorted_down [] = []
  sorted_down (x ∷ xs) = place x (sorted_down xs)

abbrev pub word_of : Text × ℕ → Text
word_of (w, n) = w

abbrev pub frequency : Text × ℕ → ℕ
frequency (w, n) = n

pub extract_keywords : ⦃f : WordFinder⦄ → Text → ℕ → List Text
extract_keywords ⦃f⦄ text max_keywords =
    map word_of (take max_keywords (sorted_down frequency (count_words (f.find_words text) [])))

pub record DistributedIndexStats : Type 0 where
  pub documents_published : ℕ
  pub keywords_published : ℕ
  pub queries_performed : ℕ
  pub pointers_found : ℕ

-- `DistributedIndex` with the node of the DHT that it uses
pub record DistributedIndex : Type 0 where
  pub dht : DhtNode
  pub peer_id : Text
  pub stats : DistributedIndexStats

pub record Document : Type 0 where
  pub doc_id : ℕ
  pub url : Text
  pub title : Text
  pub text : Text
  pub score : ℕ

abbrev pub or_empty : Option (List PeerPointer) → List PeerPointer
or_empty none = []
or_empty (some ps) = ps

-- one round of `for keyword in keywords`
pub add_pointer : PeerPointer → Text → Dict Text (List PeerPointer) → Dict Text (List PeerPointer)
add_pointer p keyword d =
    let ps = or_empty (lookup keyword d) in
    insert keyword (if ltb (length ps) max_pointers_per_keyword then ps ++ p ∷ [] else ps) d

pub add_pointers :
    PeerPointer → List Text → Dict Text (List PeerPointer) → Dict Text (List PeerPointer)
add_pointers p [] d = d
add_pointers p (k ∷ ks) d = add_pointers p ks (add_pointer p k d)

-- the keywords of a document, none where it is passed over
pub keywords_of : ⦃f : WordFinder⦄ → Document → List Text
keywords_of doc =
    if doc.doc_id == 0
    then []
    else if null doc.url || null doc.text
    then []
    else extract_keywords doc.text max_keywords_per_doc

pub pointer_of : Text → Document → PeerPointer
pointer_of peer_id doc = record {
  peer_id = peer_id;
  doc_id = doc.doc_id;
  url = doc.url;
  score = some doc.score;
  title = doc.title;
}

-- `keyword_pointers` after the loop over the documents
pub gather :
    ⦃f : WordFinder⦄
    → Text
    → List Document
    → Dict Text (List PeerPointer)
    → Dict Text (List PeerPointer)
gather peer_id [] d = d
gather peer_id (doc ∷ docs) d =
    gather peer_id docs (add_pointers (pointer_of peer_id doc) (keywords_of doc) d)

-- `documents_with_keywords`
pub count_documents : ⦃f : WordFinder⦄ → List Document → ℕ
count_documents [] = 0
count_documents (doc ∷ docs) = (if null (keywords_of doc) then 0 else 1) + count_documents docs

-- `p.get("score", 0)`
abbrev pub score_of : PeerPointer → ℕ
score_of p = or_zero p.score

-- `ptr.get("score", 0.5)`
abbrev pub or_half : Option ℕ → ℕ
or_half none = 500
or_half (some n) = n

-- `for ptr in pointers` of `query`; none where `pointer_scores[key]["score"]` raises KeyError, since
-- the first pointer to the document has no score.
pub add_scores :
    List PeerPointer → Dict (Text × ℕ) PeerPointer → Option (Dict (Text × ℕ) PeerPointer)
add_scores [] d = some d
add_scores (p ∷ ps) d = elim (lookup (pointer_key p) d) [
  | none ↦ add_scores ps (insert (pointer_key p) p d)
  | some q ↦ elim q.score [
    | none ↦ none
    | some n ↦
        add_scores ps (insert (pointer_key p) (record q { score = some (n + or_half p.score) }) d)
  ]
]

-- the pointer that `query` makes of a dict
abbrev pub with_score : PeerPointer → PeerPointer
with_score p = record p { score = some (score_of p) }

module _ ⦃h : Sha256⦄ {N : Type 0} ⦃kad : Kad N⦄ where
  -- The loop over `keyword_pointers`, with the readings of the clock for each keyword.
  pub publish_all :
      (Text → ℕ × ℕ × ℕ) → DhtNode → N → Dict Text (List PeerPointer) → ℕ × DhtNode × N
  publish_all clock node net [] = (0, node, net)
  publish_all clock node net ((keyword, pointers) ∷ d) =
      let (checked, stamped, recorded) = clock keyword in
      let (done, node', net') =
        publish_keyword node net keyword pointers [] checked stamped recorded in
      let (n, node'', net'') = publish_all clock node' net' d in
      ((if done then 1 else 0) + n, node'', net'')

  pub publish_batch :
      ⦃f : WordFinder⦄
      → (Text → ℕ × ℕ × ℕ)
      → DistributedIndex
      → N
      → List Document
      → ℕ × DistributedIndex × N
  publish_batch clock index net documents =
      let (published, node, net') =
        publish_all clock index.dht net (gather index.peer_id documents []) in
      (
        published,
        record index {
          dht = node;
          stats = record index.stats {
            documents_published = index.stats.documents_published + count_documents documents;
            keywords_published = index.stats.keywords_published + published;
          };
        },
        net',
      )

  pub publish_document :
      ⦃f : WordFinder⦄
      → (Text → ℕ × ℕ × ℕ)
      → DistributedIndex
      → N
      → Document
      → ℕ × DistributedIndex × N
  publish_document clock index net doc = publish_batch clock index net (doc ∷ [])

  pub query_all :
      DhtNode
      → N
      → List Text
      → Dict (Text × ℕ) PeerPointer
      → Option (Dict (Text × ℕ) PeerPointer) × DhtNode
  query_all node net [] d = (some d, node)
  query_all node net (kw ∷ kws) d =
      let (pointers, node') = query_keyword node net kw in
      elim (add_scores pointers d) [ none ↦ (none, node') | some d' ↦ query_all node' net kws d' ]

  -- None where a KeyError leaves `query`; the index comes back either way.
  pub query : DistributedIndex → N → List Text → Option (List PeerPointer) × DistributedIndex
  query index net keywords =
      let (scores, node) = query_all index.dht net keywords [] in
      let asked : DistributedIndex = record index {
        dht = node;
        stats = record index.stats { queries_performed = index.stats.queries_performed + 1 };
      } in
      elim scores [
        | none ↦ (none, asked)
        | some d ↦
            let ranked = sorted_down score_of (values d) in
            (
              some (map with_score ranked),
              record asked {
                stats = record asked.stats {
                  pointers_found = asked.stats.pointers_found + length ranked;
                };
              },
            )
      ]
