-- ===== src/Crawler/Dedup.antt =====
-- infomesh/crawler/dedup.py: the normal form of URLs, and the table of what was crawled, with the
-- index of fingerprints beside it. Each call commits its writes.
pub mod DocId
pub mod Order
pub mod Normal
pub mod Reload
pub mod Seen
mod Tests
use infomesh.Prelude.{
  ℕ, ◌+◌, ◌-◌, ◌%◌, ◌^◌, Bool, true, false, ◌&&◌, ◌||◌, not, Option, none, some, List, [], ◌∷◌,
  ◌++◌, ltb, leb, if◌then◌else◌, take, keep, null, Text, bytes, text_eq, nat_eq, ◌==◌,
}
use infomesh.Prelude.Ascii.{lower}
use infomesh.Prelude.Int.{ℤ, pos, negsuc}
use infomesh.Prelude.Dict.{Dict, lookup, contains, erase}
use infomesh.Prelude.Result.{Result, ok, err}
use infomesh.Prelude.Result.Partial.{◌>>=◌}
use infomesh.Prelude.Hash.{Sha256}
use infomesh.Crawler.UrlAssigner.{content_hash, int_base_16}
use infomesh.Crawler.SimHash.{
  TextTools, simhash, SimHashIndex, new_index, add, find_near_duplicates,
}

-- what `urlparse` returns and `urlunparse` takes
pub record UrlParts : Type 0 where
  pub scheme : Text
  pub netloc : Text
  pub path : Text
  pub params : Text
  pub query : Text
  pub fragment : Text

-- `urllib.parse`: `urlparse`, none where it raises ValueError; `parse_qs` with blank values, the result in the order of the keys' first places;
-- `urlencode` with `doseq`.
pub record UrlFormat : Type 0 where
  pub urlparse : Text → Option UrlParts
  pub urlunparse : UrlParts → Text
  pub parse_qs : Text → Dict Text (List Text)
  pub urlencode : Dict Text (List Text) → Text

pub to_signed64 : ℕ → ℤ
to_signed64 val = if leb (2 ^ 63) val then negsuc (2 ^ 64 - val - 1) else pos val

-- `val & _MASK64`
pub to_unsigned64 : ℤ → ℕ
to_unsigned64 (pos n) = n % 2 ^ 64
to_unsigned64 (negsuc n) = 2 ^ 64 - 1 - n % 2 ^ 64

pub tracking_params : List Text
tracking_params =
    bytes "utm_source"
    ∷ bytes "utm_medium"
    ∷ bytes "utm_campaign"
    ∷ bytes "utm_term"
    ∷ bytes "utm_content"
    ∷ bytes "fbclid"
    ∷ bytes "gclid"
    ∷ bytes "ref"
    ∷ bytes "source"
    ∷ bytes "mc_cid"
    ∷ bytes "mc_eid"
    ∷ []

abbrev pub any_of : Text → List Text → Bool
any_of t [] = false
any_of t (x ∷ xs) = let rest = any_of t xs in if t == x then true else rest

-- the order of strings, by their characters
pub precedes : Text → Text → Bool
precedes [] b = true
precedes (x ∷ a) [] = false
precedes (x ∷ a) (y ∷ b) =
    let rest = precedes a b in if ltb x y then true else if ltb y x then false else rest

pub place_item : Text × List Text → Dict Text (List Text) → Dict Text (List Text)
place_item (k, v) [] = (k, v) ∷ []
place_item (k, v) ((j, w) ∷ d) =
    let rest = place_item (k, v) d in if precedes k j then (k, v) ∷ (j, w) ∷ d else (j, w) ∷ rest

pub sorted_items : Dict Text (List Text) → Dict Text (List Text)
sorted_items [] = []
sorted_items (x ∷ d) = place_item x (sorted_items d)

-- `path.rstrip("/")`
pub rstrip_slash : Text → Text
rstrip_slash [] = []
rstrip_slash (c ∷ cs) =
    let rest = rstrip_slash cs in if null rest && c == b'/' then [] else c ∷ rest

-- The lines on the path: without a slash at the end, the root itself excepted.
pub normal_path : Text → Text
normal_path path =
    let stripped = rstrip_slash path in
    if path == bytes "/" then path else if null stripped then bytes "/" else stripped

-- `filtered` and `sorted_query`
pub normal_query : ⦃u : UrlFormat⦄ → Text → Text
normal_query ⦃u⦄ query =
    u.urlencode
      (sorted_items (keep (λ (k, v). not (any_of (lower k) tracking_params)) (u.parse_qs query)))

-- `normalize_url` from the parts on
pub normal_form : ⦃u : UrlFormat⦄ → UrlParts → Text
normal_form ⦃u⦄ parsed = u.urlunparse (record {
  scheme = lower parsed.scheme;
  netloc = lower parsed.netloc;
  path = normal_path parsed.path;
  params = parsed.params;
  query = normal_query parsed.query;
  fragment = [];
})

-- None where the ValueError of `urlparse` leaves it.
pub normalize_url : ⦃u : UrlFormat⦄ → Text → Option Text
normalize_url ⦃u⦄ url = elim (u.urlparse url) [
  | none ↦ none
  | some parsed ↦ some (normal_form parsed)
]

-- a row of `seen_urls`, but for `crawled_at`, which is not read
pub record SeenUrl : Type 0 where
  pub url_hash : Text
  pub url : Text
  pub content_hash : Text
  pub simhash : Option ℤ

pub record DeduplicatorDb : Type 0 where
  pub seen_urls : List SeenUrl
  pub simhash_index : SimHashIndex

abbrev pub max_index_entries : ℕ
max_index_entries = 500_000

-- `int(url_hash[:8], 16) & 0x7FFFFFFF`
pub doc_id_of : Text → Option ℕ
doc_id_of url_hash = elim (int_base_16 (take 8 url_hash)) [
  | none ↦ none
  | some n ↦ some (n % 2 ^ 31)
]

-- The entry in the index, where neither the id nor the index raises.
pub index_fingerprint : Text → ℕ → SimHashIndex → Option SimHashIndex
index_fingerprint url_hash fp index = elim (doc_id_of url_hash) [
  | none ↦ none
  | some doc_id ↦ elim (add index doc_id fp) [ ok index' ↦ some index' | err e ↦ none ]
]

-- `_reload_simhash_index` over the rows in the order in which they come
pub reload : List SeenUrl → SimHashIndex → Option SimHashIndex
reload [] index = some index
reload (r ∷ rows) index = elim r.simhash [
  | none ↦ reload rows index
  | some fp ↦ index_fingerprint r.url_hash (to_unsigned64 fp) index >>= reload rows
]

-- `DeduplicatorDB(db_path)` on the rows of the file
pub open_db : List SeenUrl → Option DeduplicatorDb
open_db rows = reload rows (new_index max_index_entries) >>= λ index.
    some (record { seen_urls = rows; simhash_index = index })

pub has_url_hash : Text → List SeenUrl → Bool
has_url_hash h [] = false
has_url_hash h (r ∷ rows) = let rest = has_url_hash h rows in if h == r.url_hash then true else rest

pub has_content_hash : Text → List SeenUrl → Bool
has_content_hash h [] = false
has_content_hash h (r ∷ rows) =
    let rest = has_content_hash h rows in if h == r.content_hash then true else rest

pub is_url_seen : ⦃h : Sha256⦄ ⦃u : UrlFormat⦄ → DeduplicatorDb → Text → Option Bool
is_url_seen db url = elim (normalize_url url) [
  | none ↦ none
  | some normalized ↦ some (has_url_hash (content_hash normalized) db.seen_urls)
]

pub is_content_seen : DeduplicatorDb → Text → Bool
is_content_seen db text_hash = has_content_hash text_hash db.seen_urls

-- `simhash` with its default width of shingles
pub is_near_duplicate_text : ⦃t : TextTools⦄ → DeduplicatorDb → Text → ℕ → Bool
is_near_duplicate_text db text threshold =
    not (null (find_near_duplicates db.simhash_index (simhash text 3) threshold))

-- INSERT OR REPLACE
pub save_row : SeenUrl → List SeenUrl → List SeenUrl
save_row r rows = keep (λ x. not (x.url_hash == r.url_hash)) rows ++ r ∷ []

abbrev pub fingerprint_of : ⦃t : TextTools⦄ → Text → Option ℕ
fingerprint_of text = if null text then none else some (simhash text 3)

abbrev pub signed_of : Option ℕ → Option ℤ
signed_of none = none
signed_of (some fp) = some (to_signed64 fp)

-- Where the index raises it is left as it was, and the flag is false; the row is written before.
abbrev pub index_or_keep : Option SimHashIndex → SimHashIndex → Bool × SimHashIndex
index_or_keep none index = (false, index)
index_or_keep (some index') index = (true, index')

abbrev pub index_if : Option ℕ → Text → SimHashIndex → Bool × SimHashIndex
index_if none url_hash index = (true, index)
index_if (some fp) url_hash index = index_or_keep (index_fingerprint url_hash fp index) index

-- `mark_seen` once the URL is normalised
pub mark_normalized :
    ⦃h : Sha256⦄ ⦃t : TextTools⦄ → DeduplicatorDb → Text → Text → Text → Bool × DeduplicatorDb
mark_normalized db normalized text_hash text =
    let url_hash = content_hash normalized in
    let fp = fingerprint_of text in
    let (done, index) = index_if fp url_hash db.simhash_index in
    (
      done,
      record {
        seen_urls =
            save_row
              (record {
                url_hash = url_hash;
                url = normalized;
                content_hash = text_hash;
                simhash = signed_of fp;
              })
              db.seen_urls;
        simhash_index = index;
      },
    )

-- The flag is false where a call raises; where `urlparse` raises, nothing has been written.
pub mark_seen :
    ⦃h : Sha256⦄ ⦃u : UrlFormat⦄ ⦃t : TextTools⦄
    → DeduplicatorDb
    → Text
    → Text
    → Text
    → Bool × DeduplicatorDb
mark_seen db url text_hash text = elim (normalize_url url) [
  | none ↦ (false, db)
  | some normalized ↦ mark_normalized db normalized text_hash text
]
