-- ===== src/Index/Distributed/Counts.antt =====
-- infomesh/index/distributed.py, `extract_keywords`: the counts of words, and their order.
use infomesh.Prelude.{
  ℕ, ◌+◌, ◌≤◌, ◌≡◌, refl, sym, ap, ◌∙◌, false, inl, inr, none, some, List, [], ◌∷◌, arith,
  if◌then◌else◌, All, Text, text_eq, ◌==◌, text_beq_iff, Bool-cases,
}
use infomesh.Prelude.Dict.{Dict, lookup, insert, IsUnique}
use infomesh.Prelude.Dict.Laws.{lookup-insert, insert-IsUnique}
use infomesh.Index.Distributed.{
  is_skipped, or_zero, count_words, place, sorted_down, word_of, frequency,
}

-- how often the word stands in the list
unfoldable pub occurrences : Text → List Text → ℕ
occurrences w [] = 0
occurrences w (x ∷ xs) = (if w == x then 1 else 0) + occurrences w xs

pub count_words-IsUnique :
    (ws : List Text) (d : Dict Text ℕ) → IsUnique d → IsUnique (count_words ws d)
unfolding count_words
count_words-IsUnique [] d u = u
count_words-IsUnique (w ∷ ws) d u = ground (
  arith,
  count_words-IsUnique ws d u,
  count_words-IsUnique ws (insert w (or_zero (lookup w d) + 1) d)
      (insert-IsUnique w (or_zero (lookup w d) + 1) d u),
)

lookup-count_words :
    (w : Text) (ws : List Text) (d : Dict Text ℕ)
    → or_zero (lookup w (count_words ws d))
      ≡ or_zero (lookup w d) + (if is_skipped w then 0 else occurrences w ws)
unfolding count_words occurrences
lookup-count_words w [] d = ground arith
lookup-count_words w (x ∷ ws) d = elim (Bool-cases (is_skipped x)) [
  | inl skipped ↦
      rw (count_words, skipped)
        (ground (arith, lookup-count_words w ws d, text_beq_iff w x, ap is_skipped))
  | inr taken ↦
      let d' = insert x (or_zero (lookup x d) + 1) d in
      rw (count_words, taken)
        (ground (
          arith,
          lookup-count_words w ws d',
          lookup-insert x w (or_zero (lookup x d) + 1) d,
          text_beq_iff w x,
          ap is_skipped,
          ap (λ t. lookup t d),
        ))
]

lookup-place :
    (w : Text) (x : Text × ℕ) (ys : Dict Text ℕ)
    → lookup (word_of x) ys ≡ none
    → lookup w (place frequency x ys) ≡ (if w == word_of x then some (frequency x) else lookup w ys)
unfolding lookup place
lookup-place w (k, n) [] h = ground arith
lookup-place w (k, n) ((j, c) ∷ ys) h =
    ground (arith, lookup-place w (k, n) ys, text_beq_iff w k, text_beq_iff k j, text_beq_iff w j)

place-IsUnique :
    (x : Text × ℕ) (ys : Dict Text ℕ)
    → lookup (word_of x) ys ≡ none
    → IsUnique ys
    → IsUnique (place frequency x ys)
unfolding lookup place
place-IsUnique (k, n) [] h u = (refl, tt)
place-IsUnique (k, n) ((j, c) ∷ ys) h u =
    ground (
      arith,
      place-IsUnique (k, n) ys,
      lookup-place j (k, n) ys,
      text_beq_iff k j,
      text_beq_iff j k,
    )

pub lookup-sorted_down :
    (d : Dict Text ℕ) → IsUnique d → (w : Text) → lookup w (sorted_down frequency d) ≡ lookup w d
unfolding lookup sorted_down
lookup-sorted_down [] u w = refl
lookup-sorted_down ((k, n) ∷ d) u w =
    lookup-place w (k, n) (sorted_down frequency d) (lookup-sorted_down d u.1 k ∙ u.0)
    ∙ ground (arith, lookup-sorted_down d u.1 w)

pub sorted_down-IsUnique : (d : Dict Text ℕ) → IsUnique d → IsUnique (sorted_down frequency d)
unfolding sorted_down
sorted_down-IsUnique [] u = tt
sorted_down-IsUnique ((k, n) ∷ d) u =
    place-IsUnique (k, n) (sorted_down frequency d) (lookup-sorted_down d u.1 k ∙ u.0)
      (sorted_down-IsUnique d u.1)

All-insert_positive :
    (k : Text) (n : ℕ) (d : Dict Text ℕ)
    → 1 ≤ n
    → All (λ x. 1 ≤ frequency x) d
    → All (λ x. 1 ≤ frequency x) (insert k n d)
unfolding insert
All-insert_positive k n [] h a = (h, tt)
All-insert_positive k n ((j, c) ∷ d) h a = ground (arith, All-insert_positive k n d h a.1)

All-count_words :
    (ws : List Text) (d : Dict Text ℕ)
    → All (λ x. 1 ≤ frequency x) d
    → All (λ x. 1 ≤ frequency x) (count_words ws d)
unfolding count_words
All-count_words [] d a = a
All-count_words (w ∷ ws) d a =
    let more = or_zero (lookup w d) + 1 in
    ground (
      arith,
      All-count_words ws d a,
      All-count_words ws (insert w more d) (All-insert_positive w more d (omega arith) a),
    )

lookup_positive :
    (w : Text) (d : Dict Text ℕ) (b : ℕ)
    → All (λ x. 1 ≤ frequency x) d
    → lookup w d ≡ some b
    → 1 ≤ b
unfolding lookup
lookup_positive w [] b a h = cc
lookup_positive w ((j, c) ∷ d) b a h = ground (arith, lookup_positive w d b a.1)

-- An entry of the counts is the number of occurrences of a word that is not passed over.
pub counted :
    (k : Text) (ws : List Text) (a : ℕ)
    → lookup k (sorted_down frequency (count_words ws [])) ≡ some a
    → (is_skipped k ≡ false) × (1 ≤ a) × (occurrences k ws ≡ a)
unfolding lookup
counted k ws a h =
    let h' = sym (lookup-sorted_down (count_words ws []) (count_words-IsUnique ws [] tt) k) ∙ h in
    let positive = lookup_positive k (count_words ws []) a (All-count_words ws [] tt) h' in
    ground (arith, h', positive, lookup-count_words k ws [])

pub uncounted :
    (w : Text) (ws : List Text)
    → lookup w (count_words ws []) ≡ none
    → is_skipped w ≡ false
    → occurrences w ws ≡ 0
unfolding lookup
uncounted w ws h kept = ground (arith, h, kept, lookup-count_words w ws [])
