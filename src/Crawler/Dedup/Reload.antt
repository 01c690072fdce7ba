-- ===== src/Crawler/Dedup/Reload.antt =====
-- infomesh/crawler/dedup.py: near-duplicates are found again after a restart.
use infomesh.Prelude.{
  ℕ, ◌+◌, ◌^◌, ◌≤◌, ◌<◌, ◌≡◌, refl, sym, ap, ◌∙◌, subst, true, false, inl, inr, Option, none, some,
  List, [], ◌∷◌, arith, length, In, All, Text, null, Option-cases,
}
use infomesh.Prelude.Int.{ℤ}
use infomesh.Prelude.Dict.{lookup}
use infomesh.Prelude.Result.{ok}
use infomesh.Prelude.Hash.{Sha256}
use infomesh.Crawler.UrlAssigner.{content_hash}
use infomesh.Crawler.SimHash.{
  TextTools, simhash, hamming_distance, SimHashIndex, new_index, add, find_near_duplicates,
}
use infomesh.Crawler.SimHash.Matches.{IsIndex, docs_at, listed, find_near_duplicates_iff}
use infomesh.Crawler.SimHash.Index.{add-IsIndex, add_keeps, add_places}
use infomesh.Crawler.Dedup.{
  SeenUrl, DeduplicatorDb, to_signed64, to_unsigned64, doc_id_of, index_fingerprint, reload,
  open_db, max_index_entries, is_near_duplicate_text,
}
use infomesh.Crawler.Dedup.DocId.{doc_id_of-content_hash, to_unsigned64-to_signed64}

-- The row was written for some normalised URL.
abbrev pub IsDigest : ⦃h : Sha256⦄ → SeenUrl → Type 0
IsDigest r = (t : Text) × (r.url_hash ≡ content_hash t)

-- What adding a fingerprint to an index with room comes to.
record IsAdded (index after : SimHashIndex) (fp : ℕ) : Type 0 where
  good : IsIndex after
  capacity : after.max_entries ≡ index.max_entries
  size : length after.entries ≤ length index.entries + 1
  place : (x : ℕ) × (listed x (docs_at after.entries fp) ≡ true)
  kept :
      (x stored : ℕ)
      → listed x (docs_at index.entries stored) ≡ true
      → listed x (docs_at after.entries stored) ≡ true

pub index_fingerprint-add :
    (url_hash : Text) (fp doc_id : ℕ) (index after : SimHashIndex)
    → doc_id_of url_hash ≡ some doc_id
    → add index doc_id fp ≡ ok after
    → index_fingerprint url_hash fp index ≡ some after
unfolding index_fingerprint
index_fingerprint-add url_hash fp doc_id index after has added =
    rw (index_fingerprint, has, added) refl

index_fingerprint-IsAdded :
    ⦃h : Sha256⦄
    → (index : SimHashIndex) (r : SeenUrl) (fp : ℕ) → IsDigest r
    → IsIndex index
    → length index.entries < index.max_entries
    → (after : SimHashIndex) × (index_fingerprint r.url_hash fp index ≡ some after)
      × IsAdded index after fp
index_fingerprint-IsAdded index r fp (t, digest) w room =
    let (doc_id, has_id) = doc_id_of-content_hash t in
    let has : doc_id_of r.url_hash ≡ some doc_id = ap doc_id_of digest ∙ has_id in
    let (after, added, good, same, near) =
      add-IsIndex index doc_id fp fp (hamming_distance fp fp) (omega arith) w (omega arith) in
    let (placed, size) = add_places index after doc_id fp room added in
    (
      after,
      index_fingerprint-add r.url_hash fp doc_id index after has added,
      record {
        good = good;
        capacity = same;
        size = size;
        place = (doc_id, placed);
        kept = λ x stored. add_keeps index after doc_id fp x stored room added;
      },
    )

-- What a reload of rows into an index with room comes to.
record IsReloaded (rows : List SeenUrl) (index after : SimHashIndex) : Type 0 where
  good : IsIndex after
  kept :
      (x stored : ℕ)
      → listed x (docs_at index.entries stored) ≡ true
      → listed x (docs_at after.entries stored) ≡ true
  found :
      (r : SeenUrl) (s : ℤ)
      → In r rows
      → r.simhash ≡ some s
      → (x : ℕ) × (listed x (docs_at after.entries (to_unsigned64 s)) ≡ true)

some_same : {a b : ℤ} → ◌≡◌ {A = Option ℤ} (some a) (some b) → a ≡ b
some_same e = cc

reload_bare :
    (q : SeenUrl) (rows : List SeenUrl) (index : SimHashIndex)
    → q.simhash ≡ none
    → reload (q ∷ rows) index ≡ reload rows index
unfolding reload
reload_bare q rows index bare = rw bare refl

reload_marked :
    (q : SeenUrl) (rows : List SeenUrl) (index next : SimHashIndex) (fp : ℤ)
    → q.simhash ≡ some fp
    → index_fingerprint q.url_hash (to_unsigned64 fp) index ≡ some next
    → reload (q ∷ rows) index ≡ reload rows next
unfolding reload
reload_marked q rows index next fp marked added = rw (marked, added) refl

reload-IsReloaded :
    ⦃h : Sha256⦄
    → (rows : List SeenUrl) (index : SimHashIndex) → All IsDigest rows
    → IsIndex index
    → length index.entries + length rows ≤ index.max_entries
    → (after : SimHashIndex) × (reload rows index ≡ some after) × IsReloaded rows index after
unfolding reload
reload-IsReloaded [] index a w room =
    (index, refl, record { good = w; kept = λ x stored l. l; found = λ r s i e. absurd i })
reload-IsReloaded (q ∷ rows) index a w room = elim (Option-cases q.simhash) [
  | inl bare ↦
      let (after, e, i) = reload-IsReloaded rows index a.1 w (omega arith) in
      (
        after,
        reload_bare q rows index bare ∙ e,
        record { good = i.good; kept = i.kept; found = λ r s. found_bare r s after i bare },
      )
  | inr (fp, marked) ↦
      let (next, added, j) =
        index_fingerprint-IsAdded index q (to_unsigned64 fp) a.0 w (omega arith) in
      let (after, e, i) =
        reload-IsReloaded rows next a.1 j.good (omega (arith, j.size, j.capacity)) in
      (
        after,
        reload_marked q rows index next fp marked added ∙ e,
        record {
          good = i.good;
          kept = λ x stored l. i.kept x stored (j.kept x stored l);
          found = λ r s. found_marked r s next after j i marked;
        },
      )
]
  where
    found_bare :
        (r : SeenUrl) (s : ℤ) (after : SimHashIndex)
        → IsReloaded rows index after
        → q.simhash ≡ none
        → In r (q ∷ rows)
        → r.simhash ≡ some s
        → (x : ℕ) × (listed x (docs_at after.entries (to_unsigned64 s)) ≡ true)
    found_bare r s after i bare (inl here) e =
        absurd (ground (arith, sym e ∙ ap (λ y. y.simhash) here ∙ bare))
    found_bare r s after i bare (inr there) e = i.found r s there e

    found_marked :
        {fp : ℤ} (r : SeenUrl) (s : ℤ) (next after : SimHashIndex)
        → IsAdded index next (to_unsigned64 fp)
        → IsReloaded rows next after
        → q.simhash ≡ some fp
        → In r (q ∷ rows)
        → r.simhash ≡ some s
        → (x : ℕ) × (listed x (docs_at after.entries (to_unsigned64 s)) ≡ true)
    found_marked {fp} r s next after j i marked (inl here) e =
        let same : fp ≡ s = some_same (sym marked ∙ sym (ap (λ y. y.simhash) here) ∙ e) in
        let (x, l) = j.place in
        (
          x,
          subst (λ y. listed x (docs_at after.entries (to_unsigned64 y)) ≡ true) same
              (i.kept x (to_unsigned64 fp) l),
        )
    found_marked r s next after j i marked (inr there) e = i.found r s there e

null-listed : (x : ℕ) (xs : List ℕ) → listed x xs ≡ true → null xs ≡ false
null-listed x [] l = cc
null-listed x (y ∷ xs) l = refl

-- A document that the search finds makes the text a near-duplicate.
pub is_near_duplicate_text_lem :
    ⦃t : TextTools⦄
    → (db : DeduplicatorDb) (text : Text) (x threshold : ℕ)
    → listed x (find_near_duplicates db.simhash_index (simhash text 3) threshold) ≡ true
    → is_near_duplicate_text db text threshold ≡ true
unfolding is_near_duplicate_text
is_near_duplicate_text_lem db text x threshold found =
    rw (null-listed x (find_near_duplicates db.simhash_index (simhash text 3) threshold) found) refl

new_index-IsIndex : (max_entries : ℕ) → IsIndex (new_index max_entries)
new_index-IsIndex max_entries = record {
  unique = tt;
  inhabited = λ k h. unfold lookup in cc;
  bounded = omega arith;
}

-- Opening a table of at most 500,000 rows, all with digests, succeeds, and a text near the
-- fingerprint of a row is then a near-duplicate.
pub open_db_finds :
    ⦃h : Sha256⦄ ⦃t : TextTools⦄
    → (rows : List SeenUrl) (r : SeenUrl) (text : Text) (v threshold : ℕ) → All IsDigest rows
    → length rows ≤ max_index_entries
    → In r rows
    → v < 2 ^ 64
    → r.simhash ≡ some (to_signed64 v)
    → hamming_distance (simhash text 3) v ≤ threshold
    → (db : DeduplicatorDb) × (open_db rows ≡ some db)
      × (is_near_duplicate_text db text threshold ≡ true)
unfolding open_db
open_db_finds rows r text v threshold digests fits i small marked near =
    let (index, e, j) =
      reload-IsReloaded rows (new_index max_index_entries) digests
        (new_index-IsIndex max_index_entries) (omega arith) in
    let (x, placed) = j.found r (to_signed64 v) i marked in
    let db : DeduplicatorDb = record { seen_urls = rows; simhash_index = index } in
    let here : listed x (docs_at index.entries v) ≡ true =
      subst (λ y. listed x (docs_at index.entries y) ≡ true) (to_unsigned64-to_signed64 v small)
        placed in
    (
      db,
      rw e refl,
      is_near_duplicate_text_lem db text x threshold
          ((find_near_duplicates_iff index (simhash text 3) threshold x j.good).1 (v, here, near)),
    )
