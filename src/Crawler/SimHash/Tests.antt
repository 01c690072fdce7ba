-- ===== src/Crawler/SimHash/Tests.antt =====
-- infomesh/crawler/simhash.py on concrete texts and indices, with an MD5 and a tokenizer that stand in
-- for the real ones.
use infomesh.Prelude.{
  ◌^◌, ◌<◌, ◌≤◌, ◌≡◌, refl, true, false, List, [], ◌∷◌, ◌++◌, map, arith, leb, if◌then◌else◌, Text,
  bytes, ◌==◌, nat_eq, null, replicate,
}
use infomesh.Prelude.Dict.{lookup}
use infomesh.Prelude.Result.{ok}
use infomesh.Crawler.SimHash.{
  TextTools, tokenize, join, range_from, hash64, simhash, test_bit, SimHashIndex, add,
  find_near_duplicates, hamming_distance, ones,
}
use infomesh.Crawler.SimHash.Fingerprint.{with_bit, without_bit, simhash_majority}
use infomesh.Crawler.SimHash.Index.{add-IsIndex}
use infomesh.Crawler.SimHash.Matches.{IsIndex, listed}

-- The words of a text, with the word that is being read.
split_words : Text → Text → List Text
split_words word [] = if null word then [] else word ∷ []
split_words word (c ∷ cs) =
    if c == 32
    then (if null word then split_words [] cs else word ∷ split_words [] cs)
    else split_words (word ++ c ∷ []) cs

instance abbrev toy_tools : TextTools
unfolding split_words
toy_tools = record { md5 = λ text. text ++ replicate 16 7; words = split_words [] }

abbrev fox : Text
fox = bytes "a fox ran"

three_shingles : tokenize fox 1 ≡ bytes "a" ∷ bytes "fox" ∷ bytes "ran" ∷ []
unfolding tokenize join range_from toy_tools split_words
three_shingles = refl

one_shingle : tokenize fox 4 ≡ fox ∷ []
unfolding tokenize join toy_tools split_words
one_shingle = refl

simhash_majority_example :
    (simhash fox 1 < 2 ^ 64)
    × (test_bit (simhash fox 1) 40 ≡ (
        if null (tokenize fox 1)
        then false
        else leb
            (without_bit 40 (map hash64 (tokenize fox 1)))
            (with_bit 40 (map hash64 (tokenize fox 1)))))
simhash_majority_example = simhash_majority fox 1 40 (omega arith)

-- 7 is at distance 1 from 3, and at distance 3 from 0.
abbrev two_entries : SimHashIndex
two_entries = record { entries = (7, 1 ∷ 2 ∷ []) ∷ (8, 3 ∷ []) ∷ []; max_entries = 2 }

two_entries-IsIndex : IsIndex two_entries
two_entries-IsIndex = record {
  unique = unfold lookup in (refl, (refl, tt));
  inhabited = λ k h. unfold lookup in ground arith;
  bounded = omega arith;
}

hamming_3_7 : hamming_distance 3 7 ≤ 1
hamming_3_7 = unfold hamming_distance ones in omega arith

add-IsIndex_example :
    (after : SimHashIndex) × (add two_entries 4 7 ≡ ok after)
    × IsIndex after
    × (after.max_entries ≡ 2)
    × (listed 4 (find_near_duplicates after 3 1) ≡ true)
add-IsIndex_example = add-IsIndex two_entries 4 7 3 1 (omega arith) two_entries-IsIndex hamming_3_7
