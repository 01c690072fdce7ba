-- ===== src/Crawler/Dedup/Seen.antt =====
-- infomesh/crawler/dedup.py, `DeduplicatorDB.mark_seen`: what a call leaves behind, in the table,
-- in the index and after a restart.
use infomesh.Prelude.{
  ℕ, ◌+◌, ◌≤◌, ◌<◌, ◌≡◌, refl, ap, ◌∙◌, Bool, true, false, not, inl, inr, some, List, [], ◌∷◌, ◌++◌,
  arith, length, length-append, length-keep-le, keep, In, All, All-append, Text, text_eq,
  text_beq_iff, null, ◌==◌, if◌then◌else◌, Bool-cases,
}
use infomesh.Prelude.Result.{ok}
use infomesh.Prelude.Hash.{Sha256}
use infomesh.Crawler.UrlAssigner.{content_hash}
use infomesh.Crawler.SimHash.{TextTools, simhash, hamming_distance, SimHashIndex, add}
use infomesh.Crawler.SimHash.Fingerprint.{simhash_majority}
use infomesh.Crawler.SimHash.Matches.{IsIndex}
use infomesh.Crawler.Dedup.{
  UrlFormat, SeenUrl, DeduplicatorDb, normalize_url, has_url_hash, has_content_hash, is_url_seen,
  is_content_seen, save_row, mark_normalized, mark_seen, open_db, max_index_entries,
  is_near_duplicate_text, fingerprint_of, signed_of, doc_id_of, index_if, index_or_keep,
}
use infomesh.Crawler.Dedup.DocId.{doc_id_of-content_hash}
use infomesh.Crawler.Dedup.Reload.{
  IsDigest, index_fingerprint-add, open_db_finds, is_near_duplicate_text_lem,
}
use infomesh.Crawler.SimHash.Index.{add-IsIndex}

has_url_hash-append :
    (g : Text) (r : SeenUrl) (rows : List SeenUrl)
    → has_url_hash g (keep (λ x. not (x.url_hash == r.url_hash)) rows ++ r ∷ [])
      ≡ (if g == r.url_hash then true else has_url_hash g rows)
unfolding has_url_hash
has_url_hash-append g r [] = refl
has_url_hash-append g r (x ∷ rows) = ground (
  arith,
  has_url_hash-append g r rows,
  text_beq_iff g x.url_hash,
  text_beq_iff x.url_hash r.url_hash,
  text_beq_iff g r.url_hash,
)

has_content_hash-end :
    (r : SeenUrl) (rows : List SeenUrl) → has_content_hash r.content_hash (rows ++ r ∷ []) ≡ true
unfolding has_content_hash
has_content_hash-end r [] = ground (arith, text_beq_iff r.content_hash r.content_hash)
has_content_hash-end r (x ∷ rows) = ground (arith, has_content_hash-end r rows)

In-end : {A : Type 0} (a : A) (xs : List A) → In a (xs ++ a ∷ [])
In-end a [] = inl refl
In-end a (x ∷ xs) = inr (In-end a xs)

All-keep : {A : Type 0} (P : A → Type 0) (p : A → Bool) (xs : List A) → All P xs → All P (keep p xs)
All-keep P p [] a = tt
All-keep P p (x ∷ xs) a = elim (Bool-cases (p x)) [
  | inl kept ↦ rw kept (a.0, All-keep P p xs a.1)
  | inr gone ↦ rw gone (All-keep P p xs a.1)
]

-- The row that a call writes.
abbrev pub row_of : ⦃h : Sha256⦄ ⦃t : TextTools⦄ → Text → Text → Text → SeenUrl
row_of normalized text_hash text = record {
  url_hash = content_hash normalized;
  url = normalized;
  content_hash = text_hash;
  simhash = signed_of (fingerprint_of text);
}

module _ ⦃h : Sha256⦄ ⦃u : UrlFormat⦄ ⦃t : TextTools⦄ (db : DeduplicatorDb) (url : Text)
    {normalized : Text} (parsed : normalize_url url ≡ some normalized) where
  mark_seen-eq :
      (text_hash text : Text)
      → mark_seen db url text_hash text ≡ mark_normalized db normalized text_hash text
  unfolding mark_seen
  mark_seen-eq text_hash text = rw (mark_seen, parsed) refl

  mark_seen-rows :
      (text_hash text : Text)
      → (mark_seen db url text_hash text).1.seen_urls
        ≡ save_row (row_of normalized text_hash text) db.seen_urls
  unfolding mark_normalized
  mark_seen-rows text_hash text = ap (λ r. r.1.seen_urls) (mark_seen-eq text_hash text)

  -- After mark_seen of a URL that urlparse takes, whether the index raises or not, the content is
  -- seen, and a URL that urlparse takes is seen exactly when its normal form has the digest of the
  -- marked one's or it was seen before.
  pub mark_seen-seen :
      (text_hash text other : Text) {normal : Text}
      → normalize_url other ≡ some normal
      → let after = (mark_seen db url text_hash text).1 in
        (is_content_seen after text_hash ≡ true)
        × (is_url_seen after other
            ≡ some (
                if content_hash normal == content_hash normalized
                then true
                else has_url_hash (content_hash normal) db.seen_urls))
  unfolding is_content_seen is_url_seen save_row
  mark_seen-seen text_hash text other {normal} taken =
      let r = row_of normalized text_hash text in
      (
        ap (has_content_hash text_hash) (mark_seen-rows text_hash text)
            ∙ has_content_hash-end r (keep (λ x. not (x.url_hash == r.url_hash)) db.seen_urls),
        rw (is_url_seen, taken)
            (ap (λ rows. some (has_url_hash (content_hash normal) rows))
                (mark_seen-rows text_hash text)
              ∙ ap (λ b. some b) (has_url_hash-append (content_hash normal) r db.seen_urls)),
      )

save_row-All :
    (P : SeenUrl → Type 0) (r : SeenUrl) (rows : List SeenUrl)
    → All P rows
    → P r
    → All P (save_row r rows)
unfolding save_row
save_row-All P r rows a p =
    All-append P (keep (λ x. not (x.url_hash == r.url_hash)) rows) (r ∷ [])
      (All-keep P (λ x. not (x.url_hash == r.url_hash)) rows a) (p, tt)

save_row-In : (r : SeenUrl) (rows : List SeenUrl) → In r (save_row r rows)
unfolding save_row
save_row-In r rows = In-end r (keep (λ x. not (x.url_hash == r.url_hash)) rows)

length-save_row : (r : SeenUrl) (rows : List SeenUrl) → length (save_row r rows) ≤ length rows + 1
unfolding save_row
length-save_row r rows =
    let kept = keep (λ x. not (x.url_hash == r.url_hash)) rows in
    omega (
      arith,
      length-append kept (r ∷ []),
      length-keep-le (λ x. not (x.url_hash == r.url_hash)) rows,
    )

fingerprint_of-text :
    ⦃t : TextTools⦄
    → (text : Text) → null text ≡ false
    → fingerprint_of text ≡ some (simhash text 3)
fingerprint_of-text text n = rw n refl

module _ ⦃h : Sha256⦄ ⦃u : UrlFormat⦄ ⦃t : TextTools⦄ (db : DeduplicatorDb) (url : Text)
    {normalized : Text} (parsed : normalize_url url ≡ some normalized) where
  -- A text near one that was marked is found again after a restart: where urlparse takes the URL,
  -- and the rows of the table are keyed by digests and fewer than 500,000, the table that mark_seen
  -- leaves opens, and every text whose fingerprint is within the threshold of the marked one's is a
  -- near-duplicate there.
  pub open_db-mark_seen :
      (text_hash text other : Text) (threshold : ℕ)
      → All IsDigest db.seen_urls
      → length db.seen_urls < max_index_entries
      → null text ≡ false
      → hamming_distance (simhash other 3) (simhash text 3) ≤ threshold
      → (reopened : DeduplicatorDb) × (open_db (mark_seen db url text_hash text).1.seen_urls
          ≡ some reopened)
        × (is_near_duplicate_text reopened other threshold ≡ true)
  open_db-mark_seen text_hash text other threshold digests room full near =
      let r = row_of normalized text_hash text in
      let rows = save_row r db.seen_urls in
      let (reopened, opened, found) =
        open_db_finds rows r other (simhash text 3) threshold
          (save_row-All IsDigest r db.seen_urls digests (normalized, refl))
          (omega (arith, length-save_row r db.seen_urls)) (save_row-In r db.seen_urls)
          ((simhash_majority text 3 0 (omega arith)).0)
          (ap signed_of (fingerprint_of-text text full)) near in
      (reopened, ap open_db (mark_seen-rows db url parsed text_hash text) ∙ opened, found)

  mark_seen_indexed :
      (text_hash text : Text) (doc_id : ℕ) (index : SimHashIndex)
      → null text ≡ false
      → doc_id_of (content_hash normalized) ≡ some doc_id
      → add db.simhash_index doc_id (simhash text 3) ≡ ok index
      → mark_seen db url text_hash text ≡ (
        true,
        record {
          seen_urls = save_row (row_of normalized text_hash text) db.seen_urls;
          simhash_index = index;
        },
      )
  unfolding mark_normalized
  mark_seen_indexed text_hash text doc_id index full has added =
      let url_hash = content_hash normalized in
      mark_seen-eq db url parsed text_hash text
      ∙ ap
          (λ (p : Bool × SimHashIndex). (
            p.0,
            record {
              seen_urls = save_row (row_of normalized text_hash text) db.seen_urls;
              simhash_index = p.1;
            },
          ))
          (ap (λ fp. index_if fp url_hash db.simhash_index) (fingerprint_of-text text full)
            ∙ ap (λ i. index_or_keep i db.simhash_index)
                (index_fingerprint-add url_hash (simhash text 3) doc_id db.simhash_index index has
                  added))

  -- Where urlparse takes the URL and the index is well-formed and may hold an entry, marking a page
  -- with a text that is not empty succeeds and keeps the index well-formed with its capacity, and
  -- right after the call every text whose fingerprint is within the threshold of the marked one's
  -- is a near-duplicate, even where the index is full.
  pub mark_seen_detects :
      (text_hash text other : Text) (threshold : ℕ)
      → IsIndex db.simhash_index
      → 0 < db.simhash_index.max_entries
      → null text ≡ false
      → hamming_distance (simhash other 3) (simhash text 3) ≤ threshold
      → let (done, after) = mark_seen db url text_hash text in
        (done ≡ true)
        × IsIndex after.simhash_index
        × (after.simhash_index.max_entries ≡ db.simhash_index.max_entries)
        × (is_near_duplicate_text after other threshold ≡ true)
  mark_seen_detects text_hash text other threshold w p full near =
      let (doc_id, has) = doc_id_of-content_hash normalized in
      let (index, added, good, same, found) =
        add-IsIndex db.simhash_index doc_id (simhash text 3) (simhash other 3) threshold p w near in
      rw (mark_seen_indexed text_hash text doc_id index full has added) (
        refl,
        good,
        same,
        is_near_duplicate_text_lem
            (record {
              seen_urls = save_row (row_of normalized text_hash text) db.seen_urls;
              simhash_index = index;
            })
            other doc_id threshold found,
      )
