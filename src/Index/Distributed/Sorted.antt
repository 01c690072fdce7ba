-- ===== src/Index/Distributed/Sorted.antt =====
-- infomesh/index/distributed.py: a list that `sorted(..., reverse=True)` returns is in descending order.
use infomesh.Prelude.{ℕ, ◌≤◌, List, [], ◌∷◌, Bool-cases, inl, inr, arith, All, ltb}
use infomesh.Index.Distributed.{place, sorted_down}

module _ {A : Type 0} (rank : A → ℕ) where
  -- Every rank is at least the following ones.
  abbrev pub IsDescending : List A → Type 0
  IsDescending [] = Unit
  IsDescending (x ∷ xs) = All (λ y. rank y ≤ rank x) xs × IsDescending xs

  All-place :
      (m : ℕ) (x : A) (ys : List A)
      → rank x ≤ m
      → All (λ y. rank y ≤ m) ys
      → All (λ y. rank y ≤ m) (place rank x ys)
  unfolding place
  All-place m x [] h a = (h, tt)
  All-place m x (y ∷ ys) h a = ground (arith, All-place m x ys h a.1)

  All-weaker :
      (m m' : ℕ) (ys : List A) → m ≤ m' → All (λ y. rank y ≤ m) ys → All (λ y. rank y ≤ m') ys
  All-weaker m m' [] l a = tt
  All-weaker m m' (y ∷ ys) l a = (omega (arith, a.0), All-weaker m m' ys l a.1)

  place-IsDescending : (x : A) (ys : List A) → IsDescending ys → IsDescending (place rank x ys)
  unfolding place
  place-IsDescending x [] s = (tt, tt)
  place-IsDescending x (y ∷ ys) s = elim (Bool-cases (ltb (rank x) (rank y))) [
    | inl less ↦
        rw (place, less) (All-place (rank y) x ys (ground arith) s.0, place-IsDescending x ys s.1)
    | inr more ↦
        rw (place, more) ((ground arith, All-weaker (rank y) (rank x) ys (ground arith) s.0), s)
  ]

  pub sorted_down-IsDescending : (xs : List A) → IsDescending (sorted_down rank xs)
  unfolding sorted_down
  sorted_down-IsDescending [] = tt
  sorted_down-IsDescending (x ∷ xs) =
      place-IsDescending x (sorted_down rank xs) (sorted_down-IsDescending xs)
