-- ===== src/Crawler/SimHash.antt =====
-- infomesh/crawler/simhash.py: fingerprints, their distance, and the index of fingerprints. A
-- fingerprint is a natural number.
pub mod Distance
pub mod Fingerprint
pub mod Matches
pub mod Index
pub mod Remove
mod Tests
use infomesh.Prelude.{
  ℕ, zero, suc, ◌+◌, ◌-◌, ◌*◌, ◌/◌, ◌%◌, ◌^◌, Bool, true, false, Option, none, some, List, [], ◌∷◌,
  ◌++◌, map, ltb, leb, if◌then◌else◌, length, take, drop, replicate, null, bit_xor, Text, bytes,
  ◌==◌, nat_eq,
}
use infomesh.Prelude.Int.{ℤ, pos, increment, decrement, nonnegative}
use infomesh.Prelude.Dict.{Dict, lookup, insert, erase, pop_first}
use infomesh.Prelude.Result.{Result, ok, err, ◌>>=◌}

abbrev pub hamming_threshold : ℕ
hamming_threshold = 3

abbrev pub num_bits : ℕ
num_bits = 64

-- `hashlib.md5(...).digest()`, and `re.findall(r"\w+", text.lower())`
pub record TextTools : Type 0 where
  pub md5 : Text → Text
  pub words : Text → List Text

-- `" ".join(words)`
pub join : List Text → Text
join [] = []
join (w ∷ []) = w
join (w ∷ x ∷ r) = w ++ (bytes " " ++ join (x ∷ r))

-- `range(start, start + n)`
pub range_from : ℕ → ℕ → List ℕ
range_from start zero = []
range_from start (suc n) = start ∷ range_from (start + 1) n

pub tokenize : ⦃t : TextTools⦄ → Text → ℕ → List Text
tokenize ⦃t⦄ text width =
    let words = t.words text in
    if ltb (length words) width
    then (if null words then [] else join words ∷ [])
    else map (λ i. join (take width (drop i words))) (range_from 0 (length words - width + 1))

-- `int.from_bytes(..., byteorder="big")`
pub from_bytes : ℕ → Text → ℕ
from_bytes acc [] = acc
from_bytes acc (b ∷ bs) = from_bytes (acc * 256 + b) bs

pub hash64 : ⦃t : TextTools⦄ → Text → ℕ
hash64 ⦃t⦄ shingle = from_bytes 0 (take 8 (t.md5 shingle))

-- `h & (1 << i)` is not 0: the digit i of `h`
pub test_bit : ℕ → ℕ → Bool
test_bit h zero = h % 2 == 1
test_bit h (suc i) = test_bit (h / 2) i

-- the inner loop of `simhash`, from the bit `i` on
pub vote : ℕ → ℕ → List ℤ → List ℤ
vote h i [] = []
vote h i (weight ∷ rest) =
    (if test_bit h i then increment weight else decrement weight) ∷ vote h (suc i) rest

pub vote_all : List ℕ → List ℤ → List ℤ
vote_all [] vector = vector
vote_all (h ∷ hs) vector = vote_all hs (vote h 0 vector)

-- The last loop, from the bit `i` on. A bit is set once, so `|=` adds it.
pub collapse : ℕ → List ℤ → ℕ
collapse i [] = 0
collapse i (weight ∷ rest) = (if nonnegative weight then 2 ^ i else 0) + collapse (suc i) rest

pub simhash : ⦃t : TextTools⦄ → Text → ℕ → ℕ
simhash text shingle_width =
    let shingles = tokenize text shingle_width in
    if null shingles
    then 0
    else collapse 0 (vote_all (map hash64 shingles) (replicate num_bits (pos 0)))

-- `bin(x).count("1")`, with at least as much fuel as `x` has digits
pub ones : ℕ → ℕ → ℕ
ones zero x = 0
ones (suc fuel) x = let rest = ones fuel (x / 2) in if x == 0 then 0 else x % 2 + rest

pub hamming_distance : ℕ → ℕ → ℕ
hamming_distance a b = ones (bit_xor a b) (bit_xor a b)

pub is_near_duplicate : ℕ → ℕ → ℕ → Bool
is_near_duplicate a b threshold = leb (hamming_distance a b) threshold

-- `next(iter(...))` of an empty dictionary raises StopIteration.
pub data IndexError : Type 0 where
  stop_iteration : IndexError

pub record SimHashIndex : Type 0 where
  pub entries : Dict ℕ (List ℕ)
  pub max_entries : ℕ

abbrev pub new_index : ℕ → SimHashIndex
new_index max_entries = record { entries = []; max_entries = max_entries }

-- the `while` loop of `add`, with more rounds than there are entries
pub evict : ℕ → ℕ → Dict ℕ (List ℕ) → Result IndexError (Dict ℕ (List ℕ))
evict max_entries zero entries = ok entries
evict max_entries (suc fuel) entries =
    let rest = evict max_entries fuel (pop_first entries) in
    if leb max_entries (length entries)
    then (if null entries then err stop_iteration else rest)
    else ok entries

abbrev pub or_none : Option (List ℕ) → List ℕ
or_none none = []
or_none (some ids) = ids

-- `self._entries.setdefault(fingerprint, []).append(doc_id)`
pub append_to : ℕ → ℕ → Dict ℕ (List ℕ) → Dict ℕ (List ℕ)
append_to fingerprint doc_id entries =
    insert fingerprint (or_none (lookup fingerprint entries) ++ doc_id ∷ []) entries

pub add : SimHashIndex → ℕ → ℕ → Result IndexError SimHashIndex
add index doc_id fingerprint =
    evict index.max_entries (length index.entries + 1) index.entries >>= λ entries.
    ok (record index { entries = append_to fingerprint doc_id entries })

-- `ids.remove(doc_id)`, which removes the first one; its ValueError is suppressed
pub remove_first : ℕ → List ℕ → List ℕ
remove_first x [] = []
remove_first x (y ∷ ys) = if x == y then ys else y ∷ remove_first x ys

pub remove : SimHashIndex → ℕ → ℕ → SimHashIndex
remove index doc_id fingerprint =
    let ids = or_none (lookup fingerprint index.entries) in
    if null ids
    then index
    else let left = remove_first doc_id ids in
      record index {
        entries =
            (if null left
              then erase fingerprint index.entries
              else insert fingerprint left index.entries);
      }

pub matches_in : ℕ → ℕ → Dict ℕ (List ℕ) → List ℕ
matches_in fingerprint threshold [] = []
matches_in fingerprint threshold ((stored, ids) ∷ rest) =
    (if leb (hamming_distance fingerprint stored) threshold then ids else [])
    ++ matches_in fingerprint threshold rest

pub find_near_duplicates : SimHashIndex → ℕ → ℕ → List ℕ
find_near_duplicates index fingerprint threshold = matches_in fingerprint threshold index.entries

pub total_documents : Dict ℕ (List ℕ) → ℕ
total_documents [] = 0
total_documents ((fingerprint, ids) ∷ rest) = length ids + total_documents rest

pub get_stats : SimHashIndex → ℕ × ℕ
get_stats index = (length index.entries, total_documents index.entries)
