-- ===== src/Prelude/Dict/Laws.antt =====
-- The laws of the dictionaries, in terms of `lookup`, and their sizes.
use infomesh.Prelude.Lists.{length, length-append}
use infomesh.Prelude.Tests.{if◌then◌else◌, Bool-cases, Option-cases}
use infomesh.Prelude.Equality.{Eq, ◌==◌}
use infomesh.Prelude.Dict.{Dict, lookup, contains, insert, erase, move_to_end, IsUnique, pop_first}
use Prim.Native.Nat.{◌+◌, ◌-◌, ◌≤◌}
use mathlib.Core.Path.{◌≡◌, refl}
use mathlib.Core.Logic.{◌≢◌, inl, inr}
use mathlib.Core.Bool.{true, false}
use mathlib.Core.Option.{none, some}
use mathlib.Core.List.{[], ◌∷◌, ◌++◌}
use native.Mathlib.Omega.{arith}

module _ {K : Type 0} ⦃e : Eq K⦄ where
  pub eq_refl : (k : K) → (k == k) ≡ true
  eq_refl k = (e.same_iff k k).1 refl

  eq_of_test : (k j : K) → (k == j) ≡ true → k ≡ j
  eq_of_test k j h = (e.same_iff k j).0 h

  ne_test : (k j : K) → k ≢ j → (k == j) ≡ false
  ne_test k j h = elim (Bool-cases (k == j)) [ inl t ↦ absurd (h (eq_of_test k j t)) | inr f ↦ f ]

module _ {K : Type 0} ⦃e : Eq K⦄ {V : Type 0} where
  pub lookup-insert :
      (k j : K) (v : V) (d : Dict K V)
      → lookup j (insert k v d) ≡ (if j == k then some v else lookup j d)
  unfolding lookup insert
  lookup-insert k j v [] = refl
  lookup-insert k j v ((i, w) ∷ d) =
      ground (arith, e.same_iff j k, e.same_iff k i, e.same_iff j i, lookup-insert k j v d)

  pub lookup-erase :
      (k j : K) (d : Dict K V) → lookup j (erase k d) ≡ (if j == k then none else lookup j d)
  unfolding lookup erase
  lookup-erase k j [] = ground arith
  lookup-erase k j ((i, w) ∷ d) =
      ground (arith, e.same_iff j k, e.same_iff k i, e.same_iff j i, lookup-erase k j d)

  lookup-append :
      (k : K) (c d : Dict K V)
      → lookup k (c ++ d) ≡ elim (lookup k c) [ none ↦ lookup k d | some v ↦ some v ]
  unfolding lookup
  lookup-append k [] d = refl
  lookup-append k ((j, v) ∷ c) d = ground (arith, lookup-append k c d)

  pub move_to_end-eq :
      (k : K) (d : Dict K V) (v : V)
      → lookup k d ≡ some v
      → move_to_end k d ≡ erase k d ++ (k, v) ∷ []
  unfolding move_to_end
  move_to_end-eq k d v h = ground arith

  move_to_end-none : (k : K) (d : Dict K V) → lookup k d ≡ none → move_to_end k d ≡ d
  unfolding move_to_end
  move_to_end-none k d h = ground arith

  lookup-append_erase :
      (k j : K) (d : Dict K V) (v : V)
      → lookup k d ≡ some v
      → lookup j (erase k d ++ (k, v) ∷ []) ≡ lookup j d
  unfolding lookup
  lookup-append_erase k j d v h =
      ground (arith, e.same_iff j k, lookup-append j (erase k d) ((k, v) ∷ []), lookup-erase k j d)

  pub lookup-move_to_end : (k j : K) (d : Dict K V) → lookup j (move_to_end k d) ≡ lookup j d
  lookup-move_to_end k j d = elim (Option-cases (lookup k d)) [
    | inl missing ↦ rw (move_to_end-none k d missing) refl
    | inr (v, h) ↦ rw (move_to_end-eq k d v h) (lookup-append_erase k j d v h)
  ]

  pub contains-insert :
      (k j : K) (v : V) (d : Dict K V)
      → contains j (insert k v d) ≡ (if j == k then true else contains j d)
  unfolding contains
  contains-insert k j v d = ground (arith, lookup-insert k j v d)

  pub lookup-IsNone : (k : K) (d : Dict K V) → contains k d ≡ false → lookup k d ≡ none
  unfolding contains
  lookup-IsNone k d h = ground arith

  pub lookup-IsSome : (k : K) (d : Dict K V) → contains k d ≡ true → (v : V) × (lookup k d ≡ some v)
  unfolding contains
  lookup-IsSome k d h = ground arith

  pub insert-IsUnique : (k : K) (v : V) (d : Dict K V) → IsUnique d → IsUnique (insert k v d)
  unfolding insert
  insert-IsUnique k v [] h = (unfold lookup in refl, tt)
  insert-IsUnique k v ((j, w) ∷ d) h =
      ground
        (arith, e.same_iff j k, e.same_iff k j, lookup-insert k j v d, insert-IsUnique k v d h.1)

  pub erase-IsUnique : (k : K) (d : Dict K V) → IsUnique d → IsUnique (erase k d)
  unfolding erase
  erase-IsUnique k [] h = tt
  erase-IsUnique k ((j, w) ∷ d) h = ground (arith, lookup-erase k j d, erase-IsUnique k d h.1)

  append-IsUnique :
      (k : K) (v : V) (d : Dict K V) → lookup k d ≡ none → IsUnique d → IsUnique (d ++ (k, v) ∷ [])
  unfolding lookup
  append-IsUnique k v [] h u = (refl, tt)
  append-IsUnique k v ((j, w) ∷ d) h u = ground (
    arith,
    e.same_iff k j,
    e.same_iff j k,
    lookup-append j d ((k, v) ∷ []),
    append-IsUnique k v d,
  )

  pub pop_first-IsUnique : (d : Dict K V) → IsUnique d → IsUnique (pop_first d)
  unfolding pop_first
  pop_first-IsUnique [] h = h
  pop_first-IsUnique (x ∷ d) h = h.1

  -- A new key makes the dictionary one longer, an old one does not.
  pub length-insert :
      (k : K) (v : V) (d : Dict K V)
      → length (insert k v d) ≡ (if contains k d then length d else length d + 1)
  unfolding insert contains
  length-insert k v [] = omega arith
  length-insert k v ((j, w) ∷ d) = ground (arith, length-insert k v d)

  pub length-erase-le : (k : K) (d : Dict K V) → length (erase k d) ≤ length d
  unfolding erase
  length-erase-le k [] = omega arith
  length-erase-le k ((j, w) ∷ d) = ground (arith, length-erase-le k d)

  pub erase_of_none : (k : K) (d : Dict K V) → lookup k d ≡ none → erase k d ≡ d
  unfolding lookup erase
  erase_of_none k [] h = refl
  erase_of_none k ((j, w) ∷ d) h = ground (arith, erase_of_none k d)

  length-erase :
      (k : K) (d : Dict K V)
      → IsUnique d
      → length (erase k d) + (if contains k d then 1 else 0) ≡ length d
  unfolding erase contains
  length-erase k [] u = refl
  length-erase k ((j, w) ∷ d) u =
      ground (arith, e.same_iff k j, length-erase k d u.1, erase_of_none k d)

  pub move_to_end-IsUnique : (k : K) (d : Dict K V) → IsUnique d → IsUnique (move_to_end k d)
  move_to_end-IsUnique k d u = elim (Option-cases (lookup k d)) [
    | inl missing ↦ rw (move_to_end-none k d missing) u
    | inr (v, h) ↦ rw (move_to_end-eq k d v h) (
        append-IsUnique k v (erase k d) (ground (arith, lookup-erase k k d, eq_refl k))
          (erase-IsUnique k d u))
  ]

  pub length-move_to_end : (k : K) (d : Dict K V) → IsUnique d → length (move_to_end k d) ≡ length d
  unfolding contains
  length-move_to_end k d u = elim (Option-cases (lookup k d)) [
    | inl missing ↦ rw (move_to_end-none k d missing) refl
    | inr (v, h) ↦
        rw (move_to_end-eq k d v h)
          (ground (arith, length-append (erase k d) ((k, v) ∷ []), length-erase k d u))
  ]

pub length-pop_first : {K V : Type 0} (d : Dict K V) → length (pop_first d) ≡ length d - 1
unfolding pop_first
length-pop_first [] = omega arith
length-pop_first (x ∷ d) = omega arith

module _ {K : Type 0} ⦃e : Eq K⦄ {V : Type 0} where
  -- A new key goes to the end.
  pub insert_of_none :
      (k : K) (v : V) (d : Dict K V) → lookup k d ≡ none → insert k v d ≡ d ++ (k, v) ∷ []
  unfolding lookup insert
  insert_of_none k v [] h = refl
  insert_of_none k v ((j, w) ∷ d) h = ground (arith, insert_of_none k v d)
