-- ===== src/Crawler/Dedup/Tests.antt =====
-- infomesh/crawler/dedup.py on a table of one page, with a parser of URLs, an MD5 and a tokenizer
-- that stand in for the real ones.
use infomesh.Prelude.{
  List, false, Text, not, inl, inr, Bool-cases, text_beq_iff, ap, ◌≡◌, ◌≤◌, refl, true, some, none,
  [], ◌∷◌, ◌++◌, arith, if◌then◌else◌, replicate, bytes, ◌==◌, text_eq, All,
}
use infomesh.Prelude.Dict.{Dict, lookup}
use infomesh.Prelude.Ascii.{lower}
use infomesh.Prelude.Int.{negsuc}
use infomesh.Prelude.Hash.{toy_hash}
use infomesh.Crawler.SimHash.Distance.{hamming_distance_self}
use infomesh.Crawler.SimHash.Fingerprint.{simhash-words}
use infomesh.Crawler.UrlAssigner.{content_hash}
use infomesh.Crawler.SimHash.{TextTools, simhash, hamming_distance, new_index}
use infomesh.Crawler.SimHash.Matches.{IsIndex}
use infomesh.Crawler.Dedup.{
  UrlFormat, UrlParts, normal_form, SeenUrl, DeduplicatorDb, normalize_url, normal_path,
  rstrip_slash, normal_query, sorted_items, place_item, precedes, tracking_params, any_of,
  mark_seen, open_db, is_near_duplicate_text,
}
use infomesh.Crawler.Dedup.Normal.{normalize_url_same}
use infomesh.Crawler.Dedup.Reload.{IsDigest}
use infomesh.Crawler.Dedup.Seen.{mark_seen_detects, open_db-mark_seen}

instance abbrev toy_tools : TextTools
toy_tools = record { md5 = λ text. text ++ replicate 16 7; words = λ text. lower text ∷ [] }

abbrev short : Dict Text (List Text)
short = (bytes "a", bytes "1" ∷ []) ∷ (bytes "b", bytes "2" ∷ []) ∷ []

abbrev tracked : Dict Text (List Text)
tracked =
    (bytes "b", bytes "2" ∷ [])
    ∷ (bytes "UTM_source", bytes "x" ∷ [])
    ∷ (bytes "a", bytes "1" ∷ [])
    ∷ []

abbrev all_items : Dict Text (List Text) → Text
all_items [] = []
all_items ((k, vs) ∷ rest) = k ++ all_items rest

abbrev parts_of : Text → UrlParts
parts_of url = record {
  scheme = if url == bytes "/page" then bytes "http" else bytes "HTTP";
  netloc = bytes "Host";
  path = url;
  params = [];
  query = url;
  fragment = bytes "top";
}

-- A URL is a path, "//[" excepted; "/page" has two parameters, any other one more, for tracking.
instance abbrev toy_format : UrlFormat
toy_format = record {
  urlparse = λ url. if url == bytes "//[" then none else some (parts_of url);
  urlunparse = λ p. p.scheme ++ bytes "://" ++ p.netloc ++ p.path ++ bytes "?" ++ p.query;
  parse_qs = λ query. if query == bytes "/page" then short else tracked;
  urlencode = all_items;
}

normal_example : normalize_url (bytes "/page//") ≡ some (bytes "http://host/page?ab")
unfolding normalize_url normal_form normal_path rstrip_slash normal_query sorted_items place_item
    precedes tracking_params lower
normal_example = refl

kept_same :
    (k : Text) → not (any_of (lower k) tracking_params) ≡ true → lookup k short ≡ lookup k tracked
unfolding lookup
kept_same k kept = elim (Bool-cases (k == bytes "UTM_source")) [
  | inl utm ↦
      let e : not (any_of (lower (bytes "UTM_source")) tracking_params) ≡ false =
        unfold lower tracking_params in refl in
      absurd (
        ground (
          arith,
          kept,
          e,
          ap (λ t. not (any_of (lower t) tracking_params))
              ((text_beq_iff k (bytes "UTM_source")).0 utm),
        ))
  | inr other ↦ elim (Bool-cases (k == bytes "a")) [
    | inl here ↦ rw ((text_beq_iff k (bytes "a")).0 here) refl
    | inr there ↦ simp (other, there)
  ]
]

normalize_url_same_example :
    (n : Text) × (normalize_url (bytes "/page") ≡ some n)
    × (normalize_url (bytes "/page//") ≡ some n)
normalize_url_same_example =
    normalize_url_same (bytes "/page") (bytes "/page//") refl refl (unfold lower in refl) refl
      (unfold rstrip_slash in refl) refl (unfold lookup in (refl, (refl, tt)))
      (unfold lookup in (refl, (refl, (refl, tt)))) kept_same

normal_root : normal_path [] ≡ bytes "/"
unfolding normal_path rstrip_slash
normal_root = refl

page_taken : normalize_url (bytes "/page") ≡ some (normal_form (parts_of (bytes "/page")))
unfolding normalize_url
page_taken = refl

abbrev old_page : SeenUrl
old_page = record {
  url_hash = content_hash (bytes "old");
  url = bytes "old";
  content_hash = bytes "h";
  simhash = some (negsuc 4);
}

abbrev one_page : DeduplicatorDb
one_page = record { seen_urls = old_page ∷ []; simhash_index = new_index 1 }

-- Where urlparse raises, nothing is written.
nothing_marked : mark_seen one_page (bytes "//[") (bytes "k") (bytes "tea") ≡ (false, one_page)
unfolding mark_seen normalize_url
nothing_marked = refl

one_page-digests : All IsDigest (old_page ∷ [])
one_page-digests = ((bytes "old", refl), tt)

new-IsIndex : IsIndex one_page.simhash_index
new-IsIndex = record { unique = tt; inhabited = λ k h. unfold lookup in cc; bounded = omega arith }

near : hamming_distance (simhash (bytes "Tea") 3) (simhash (bytes "tea") 3) ≤ 3
near =
    let e : simhash (bytes "Tea") 3 ≡ simhash (bytes "tea") 3 =
      simhash-words (bytes "Tea") (bytes "tea") 3 (unfold lower in refl) in
    rw e (omega (arith, hamming_distance_self (simhash (bytes "tea") 3)))

mark_seen_detects_example :
    let (done, after) = mark_seen one_page (bytes "/page") (bytes "k") (bytes "tea") in
    (done ≡ true)
    × IsIndex after.simhash_index
    × (after.simhash_index.max_entries ≡ 1)
    × (is_near_duplicate_text after (bytes "Tea") 3 ≡ true)
mark_seen_detects_example =
    mark_seen_detects one_page (bytes "/page") page_taken (bytes "k") (bytes "tea") (bytes "Tea") 3
      new-IsIndex (omega arith) refl near

open_db-mark_seen_example :
    (reopened : DeduplicatorDb) × (open_db
        (mark_seen one_page (bytes "/page") (bytes "k") (bytes "tea")).1.seen_urls
      ≡ some reopened)
    × (is_near_duplicate_text reopened (bytes "Tea") 3 ≡ true)
open_db-mark_seen_example =
    open_db-mark_seen one_page (bytes "/page") page_taken (bytes "k") (bytes "tea") (bytes "Tea") 3
      one_page-digests (omega arith) refl near
