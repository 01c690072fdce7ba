-- ===== src/Crawler/Dedup/Order.antt =====
-- infomesh/crawler/dedup.py: `sorted` on the items of a query, whose result does not depend on the
-- order of the items.
use infomesh.Prelude.{
  ◌≡◌, ◌≢◌, refl, sym, ap, ◌∙◌, true, false, inl, inr, List, [], ◌∷◌, arith, Text, text_eq,
  text_beq_iff, ◌==◌, Option, some, Bool-cases,
}
use infomesh.Prelude.Dict.{Dict, lookup, erase, IsUnique}
use infomesh.Prelude.Dict.Laws.{eq_refl, lookup-erase, erase-IsUnique, erase_of_none}
use infomesh.Crawler.Dedup.{precedes, place_item, sorted_items}

precedes_antisym : (a b : Text) → precedes a b ≡ true → precedes b a ≡ true → a ≡ b
unfolding precedes
precedes_antisym [] [] h l = refl
precedes_antisym [] (y ∷ b) h l = cc
precedes_antisym (x ∷ a) [] h l = cc
precedes_antisym (x ∷ a) (y ∷ b) h l = ground (arith, precedes_antisym a b)

precedes_total : (a b : Text) → precedes a b ≡ false → precedes b a ≡ true
unfolding precedes
precedes_total [] b h = cc
precedes_total (x ∷ a) [] h = refl
precedes_total (x ∷ a) (y ∷ b) h = ground (arith, precedes_total a b)

precedes_trans : (a b c : Text) → precedes a b ≡ true → precedes b c ≡ true → precedes a c ≡ true
unfolding precedes
precedes_trans [] b c h l = refl
precedes_trans (x ∷ a) [] c h l = cc
precedes_trans (x ∷ a) (y ∷ b) [] h l = cc
precedes_trans (x ∷ a) (y ∷ b) (z ∷ c) h l = ground (arith, precedes_trans a b c)

precedes_ne : (a b : Text) → a ≢ b → precedes a b ≡ true → precedes b a ≡ false
precedes_ne a b ne h = elim (Bool-cases (precedes b a)) [
  | inl back ↦ absurd (ne (precedes_antisym a b h back))
  | inr e ↦ e
]

some_same : {a b : List Text} → ◌≡◌ {A = Option (List Text)} (some a) (some b) → a ≡ b
some_same e = cc

-- Two items with distinct keys may be placed in either order.
pub place_item_comm :
    (j k : Text) (v w : List Text) (d : Dict Text (List Text))
    → j ≢ k
    → place_item (j, v) (place_item (k, w) d) ≡ place_item (k, w) (place_item (j, v) d)
unfolding place_item
place_item_comm j k v w [] ne = elim (Bool-cases (precedes j k)) [
  | inl jk ↦ rw (jk, precedes_ne j k ne jk) refl
  | inr kj ↦ rw (kj, precedes_total j k kj) refl
]
place_item_comm j k v w ((i, u) ∷ d) ne = elim (Bool-cases (precedes k i)) [
  | inl ki ↦ elim (Bool-cases (precedes j k)) [
    | inl jk ↦ simp (ki, precedes_trans j k i jk ki, jk, precedes_ne j k ne jk)
    | inr kj ↦ elim (Bool-cases (precedes j i)) [
      | inl ji ↦ simp (ki, ji, kj, precedes_total j k kj)
      | inr ij ↦ simp (ki, ij, kj)
    ]
  ]
  | inr ik ↦ elim (Bool-cases (precedes j i)) [
    | inl ji ↦ elim (Bool-cases (precedes j k)) [
      | inl jk ↦ simp (ik, ji, precedes_ne j k ne jk)
      | inr kj ↦ absurd (ground (arith, ik, precedes_trans k j i (precedes_total j k kj) ji))
    ]
    | inr ij ↦ simp (ik, ij, place_item_comm j k v w d ne)
  ]
]

module _ (k : Text) (v : List Text) where
  -- An item may be taken out before sorting and placed after.
  sorted_items-erase :
      (d : Dict Text (List Text))
      → lookup k d ≡ some v
      → IsUnique d
      → sorted_items d ≡ place_item (k, v) (sorted_items (erase k d))
  unfolding sorted_items lookup erase
  sorted_items-erase [] h u = cc
  sorted_items-erase ((j, w) ∷ d) h u = elim (Bool-cases (k == j)) [
    | inl same ↦
        let here : k ≡ j = (text_beq_iff k j).0 same in
        let value : w ≡ v = some_same (ground (arith, h, same)) in
        let gone : erase k d ≡ d = erase_of_none k d (ap (λ i. lookup i d) here ∙ u.0) in
        rw (same, gone, here, value) refl
    | inr other ↦
        let ne : j ≢ k = λ e. absurd (ground (arith, other, (text_beq_iff k j).1 (sym e))) in
        let rest : lookup k d ≡ some v = ground (arith, h, other) in
        rw (other) (
          ap (place_item (j, w)) (sorted_items-erase d rest u.1)
          ∙ place_item_comm j k w v (sorted_items (erase k d)) ne)
  ]

-- Dictionaries with the same values have the same sorted items.
pub sorted_items_same :
    (d e : Dict Text (List Text))
    → IsUnique d
    → IsUnique e
    → ((k : Text) → lookup k d ≡ lookup k e)
    → sorted_items d ≡ sorted_items e
unfolding sorted_items lookup
sorted_items_same [] [] u w same = refl
sorted_items_same [] ((k, v) ∷ e) u w same = absurd (ground (arith, same k, eq_refl k))
sorted_items_same ((k, v) ∷ d) e u w same =
    let found : lookup k e ≡ some v = ground (arith, same k, eq_refl k) in
    let rest : (j : Text) → lookup j d ≡ lookup j (erase k e) = λ j. elim (Bool-cases (j == k)) [
      | inl here ↦
          ground
            (arith, here, u.0, ap (λ i. lookup i d) ((text_beq_iff j k).0 here), lookup-erase k j e)
      | inr other ↦ ground (arith, other, same j, lookup-erase k j e)
    ] in
    ap (place_item (k, v)) (sorted_items_same d (erase k e) u.1 (erase-IsUnique k e w) rest)
    ∙ sym (sorted_items-erase k v e found w)
