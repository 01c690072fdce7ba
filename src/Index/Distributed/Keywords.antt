-- ===== src/Index/Distributed/Keywords.antt =====
-- infomesh/index/distributed.py, `extract_keywords`: which words of a text are taken.
use infomesh.Prelude.{
  ℕ, zero, suc, ◌≤◌, ◌≡◌, refl, sym, ◌∙◌, true, false, inl, inr, some, List, [], ◌∷◌, map, arith,
  length, length-take, length-map, take, All, Text, text_eq, ◌==◌, Bool-cases, Option-cases,
}
use infomesh.Prelude.Dict.{Dict, lookup, contains, IsUnique}
use infomesh.Prelude.Dict.Laws.{lookup-IsSome}
use infomesh.Index.Distributed.Counts.{
  occurrences, count_words-IsUnique, lookup-sorted_down, sorted_down-IsUnique, counted, uncounted,
}
use infomesh.Index.Distributed.Sorted.{IsDescending, sorted_down-IsDescending}
use infomesh.Index.Distributed.{
  WordFinder, member, is_skipped, count_words, sorted_down, word_of, frequency, extract_keywords,
}

-- No text stands twice.
abbrev pub IsDistinct : List Text → Type 0
IsDistinct [] = Unit
IsDistinct (x ∷ xs) = (member x xs ≡ false) × IsDistinct xs

lookup-All :
    (w : Text) (d : Dict Text ℕ) (m b : ℕ)
    → All (λ y. frequency y ≤ m) d
    → lookup w d ≡ some b
    → b ≤ m
unfolding lookup
lookup-All w [] m b a h = cc
lookup-All w ((j, c) ∷ d) m b a h = ground (arith, lookup-All w d m b a.1)

-- Of a descending list, what is taken is at least as frequent as what is left.
take_most_frequent :
    (n : ℕ) (d : Dict Text ℕ) (k w : Text) (b : ℕ)
    → IsDescending frequency d
    → contains k (take n d) ≡ true
    → contains w (take n d) ≡ false
    → lookup w d ≡ some b
    → (a : ℕ) × (lookup k d ≡ some a) × (b ≤ a)
unfolding contains lookup
take_most_frequent zero d k w b s h g l = cc
take_most_frequent (suc n) [] k w b s h g l = cc
take_most_frequent (suc n) ((j, c) ∷ d) k w b s h g l = elim (Bool-cases (k == j)) [
  | inl here ↦
      let below : lookup w d ≡ some b = ground arith in
      (c, rw here refl, lookup-All w d c b s.0 below)
  | inr there ↦
      let (a, found, less) =
        take_most_frequent n d k w b s.1 (ground arith) (ground arith) (ground arith) in
      (a, rw there found, less)
]

member-word_of : (k : Text) (d : Dict Text ℕ) → member k (map word_of d) ≡ contains k d
unfolding contains lookup
member-word_of k [] = refl
member-word_of k ((j, c) ∷ d) = ground (arith, member-word_of k d)

contains-take :
    (k : Text) (n : ℕ) (d : Dict Text ℕ) → contains k d ≡ false → contains k (take n d) ≡ false
unfolding contains lookup
contains-take k zero d h = refl
contains-take k (suc n) [] h = refl
contains-take k (suc n) ((j, c) ∷ d) h = ground (arith, contains-take k n d)

IsDistinct-take : (n : ℕ) (d : Dict Text ℕ) → IsUnique d → IsDistinct (map word_of (take n d))
IsDistinct-take zero d u = tt
IsDistinct-take (suc n) [] u = tt
IsDistinct-take (suc n) ((j, c) ∷ d) u = (
  member-word_of j (take n d) ∙ contains-take j n d (unfold contains in (ground (arith, u.0))),
  IsDistinct-take n d u.1,
)

-- The keywords of a text are distinct and at most as many as asked for.
pub extract_keywords-IsDistinct :
    ⦃f : WordFinder⦄
    → (text : Text) (max_keywords : ℕ)
    → IsDistinct (extract_keywords text max_keywords)
      × (length (extract_keywords text max_keywords) ≤ max_keywords)
unfolding extract_keywords
extract_keywords-IsDistinct ⦃f⦄ text max_keywords =
    let d = sorted_down frequency (count_words (f.find_words text) []) in
    (
      IsDistinct-take max_keywords d
          (sorted_down-IsUnique _ (count_words-IsUnique (f.find_words text) [] tt)),
      omega (arith, length-map word_of (take max_keywords d), length-take max_keywords d),
    )

-- A keyword of a text has two characters at least, is no stop word, and stands in the text at least as
-- often as any other such word that is not among the keywords.
pub extract_keywords_most_frequent :
    ⦃f : WordFinder⦄
    → (text : Text) (max_keywords : ℕ) (k w : Text)
    → member k (extract_keywords text max_keywords) ≡ true
    → member w (extract_keywords text max_keywords) ≡ false
    → is_skipped w ≡ false
    → (is_skipped k ≡ false)
      × (1 ≤ occurrences k (f.find_words text))
      × (occurrences w (f.find_words text) ≤ occurrences k (f.find_words text))
unfolding extract_keywords
extract_keywords_most_frequent ⦃f⦄ text max_keywords k w taken left kept =
    let ws = f.find_words text in
    let d = sorted_down frequency (count_words ws []) in
    let there : contains k (take max_keywords d) ≡ true =
      sym (member-word_of k (take max_keywords d)) ∙ taken in
    let gone : contains w (take max_keywords d) ≡ false =
      sym (member-word_of w (take max_keywords d)) ∙ left in
    elim (Option-cases (lookup w d)) [
      | inl absent ↦ elim (Bool-cases (contains k d)) [
        | inl here ↦
            let (a, found) = lookup-IsSome k d here in
            let (is, positive, n) = counted k ws a found in
            let nowhere =
              sym (lookup-sorted_down (count_words ws []) (count_words-IsUnique ws [] tt) w)
              ∙ absent in
            (is, omega (arith, n, positive), omega (arith, n, uncounted w ws nowhere kept))
        | inr missing ↦
            let clash : true ≡ false = sym there ∙ contains-take k max_keywords d missing in
            absurd (ground (arith, clash))
      ]
      | inr (b, e) ↦
          let (a, found, less) =
            take_most_frequent max_keywords d k w b
              (sorted_down-IsDescending frequency (count_words ws [])) there gone e in
          let (is, positive, n) = counted k ws a found in
          let (is', positive', n') = counted w ws b e in
          (is, omega (arith, n, positive), omega (arith, n, n', less))
    ]
