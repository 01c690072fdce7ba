-- ===== src/Trust/Merkle/Steps.antt =====
-- infomesh/trust/merkle.py, `get_proof`: one round of its loop.
use infomesh.Prelude.{
  ℕ, zero, suc, ◌+◌, ◌-◌, ◌*◌, ◌/◌, ◌%◌, ◌<◌, ◌≡◌, refl, ap, ◌⊎◌, inl, inr, some, List, [], ◌∷◌,
  arith, ltb, length, get_elem?, Text, get_elem?_total, Bool-cases, ◌==◌, text_eq, nat_eq, sym, ◌∙◌,
}
use infomesh.Prelude.Hash.{Sha256}
use infomesh.Trust.Merkle.{ProofSide, left, right, pad, pairs, sibling, combine}
use infomesh.Trust.Merkle.Levels.{get_elem?-pairs, get_elem?-pad, get_elem?-pad_end}

module _ ⦃h : Sha256⦄ where
  -- What one round of `get_proof` finds for the node `c` at `idx`: the step that takes it to its parent.
  abbrev pub StepUp : List Text → List Text → ℕ → Text → Type 0
  StepUp current level idx c =
      (step : Text × ProofSide) × (sibling idx level ≡ some step)
      × (get_elem? (pairs (pad current)) (idx / 2) ≡ some (combine c step))

  right_step :
      (current level : List Text) (idx : ℕ) (c s : Text)
      → get_elem? (pad current) idx ≡ some c
      → get_elem? (pad current) (idx + 1) ≡ some s
      → sibling idx level ≡ some (s, right)
      → idx % 2 ≡ 0
      → StepUp current level idx c
  unfolding combine
  right_step current level idx c s p q r even =
      let e : idx ≡ idx / 2 * 2 = omega arith in
      (
        (s, right),
        r,
        get_elem?-pairs (idx / 2) (pad current) (ap (get_elem? (pad current)) (sym e) ∙ p)
            (ap (λ k. get_elem? (pad current) (k + 1)) (sym e) ∙ q),
      )

  left_step :
      (current level : List Text) (idx : ℕ) (c s : Text)
      → get_elem? (pad current) idx ≡ some c
      → get_elem? (pad current) (idx - 1) ≡ some s
      → sibling idx level ≡ some (s, left)
      → idx % 2 ≡ 1
      → StepUp current level idx c
  unfolding combine
  left_step current level idx c s p q r odd =
      let e : idx / 2 * 2 ≡ idx - 1 = omega arith in
      let f : idx / 2 * 2 + 1 ≡ idx = omega arith in
      (
        (s, left),
        r,
        get_elem?-pairs (idx / 2) (pad current) (ap (get_elem? (pad current)) e ∙ q)
            (ap (get_elem? (pad current)) f ∙ p),
      )

  pub lt_of_some :
      {A : Type 0} (xs : List A) (i : ℕ) {a : A} → get_elem? xs i ≡ some a → i < length xs
  lt_of_some [] i p = cc
  lt_of_some (x ∷ xs) zero p = omega arith
  lt_of_some (x ∷ xs) (suc i) p = omega (arith, lt_of_some xs i p)

  sibling_left :
      (level : List Text) (idx : ℕ) {s : Text}
      → idx % 2 ≡ 1
      → get_elem? level (idx - 1) ≡ some s
      → sibling idx level ≡ some (s, left)
  unfolding sibling
  sibling_left level idx o p = ground arith

  sibling_right :
      (level : List Text) (idx : ℕ) {s : Text}
      → idx % 2 ≡ 0
      → get_elem? level (idx + 1) ≡ some s
      → sibling idx level ≡ some (s, right)
  unfolding sibling
  sibling_right level idx o p = ground (arith, lt_of_some level (idx + 1) p)

  sibling_self :
      (level : List Text) (idx : ℕ) {s : Text}
      → idx % 2 ≡ 0
      → length level ≡ idx + 1
      → get_elem? level idx ≡ some s
      → sibling idx level ≡ some (s, right)
  unfolding sibling
  sibling_self level idx o l p = ground arith

  level_elem :
      (current level : List Text) (i : ℕ) {a : Text}
      → (level ≡ current) ⊎ (level ≡ pad current)
      → get_elem? current i ≡ some a
      → get_elem? level i ≡ some a
  level_elem current level i (inl e) p = rw e p
  level_elem current level i (inr e) p = rw e (get_elem?-pad current i (lt_of_some current i p) ∙ p)

  step_odd :
      (current level : List Text) (idx : ℕ) (c : Text)
      → get_elem? current idx ≡ some c
      → (level ≡ current) ⊎ (level ≡ pad current)
      → idx % 2 ≡ 1
      → StepUp current level idx c
  step_odd current level idx c p e o =
      let (s, q) = get_elem?_total current (idx - 1) (omega (arith, lt_of_some current idx p)) in
      left_step current level idx c s (level_elem current (pad current) idx (inr refl) p)
        (level_elem current (pad current) (idx - 1) (inr refl) q)
        (sibling_left level idx o (level_elem current level (idx - 1) e q)) o

  step_inside :
      (current level : List Text) (idx : ℕ) (c : Text)
      → get_elem? current idx ≡ some c
      → (level ≡ current) ⊎ (level ≡ pad current)
      → idx % 2 ≡ 0
      → idx + 1 < length current
      → StepUp current level idx c
  step_inside current level idx c p e o l =
      let (s, q) = get_elem?_total current (idx + 1) l in
      right_step current level idx c s (level_elem current (pad current) idx (inr refl) p)
        (level_elem current (pad current) (idx + 1) (inr refl) q)
        (sibling_right level idx o (level_elem current level (idx + 1) e q)) o

  step_end :
      (current level : List Text) (idx : ℕ) (c : Text)
      → get_elem? current idx ≡ some c
      → (level ≡ current) ⊎ (level ≡ pad current)
      → idx % 2 ≡ 0
      → length current ≡ idx + 1
      → StepUp current level idx c
  step_end current level idx c p e o l =
      let q = get_elem?-pad_end current idx l (omega arith) ∙ p in
      right_step current level idx c c (level_elem current (pad current) idx (inr refl) p) q (own e)
        o
    where
      own : (level ≡ current) ⊎ (level ≡ pad current) → sibling idx level ≡ some (c, right)
      own (inl f) = rw f (sibling_self current idx o l p)
      own (inr f) =
          rw f
            (sibling_right (pad current) idx o (get_elem?-pad_end current idx l (omega arith) ∙ p))

  pub step_up :
      (current level : List Text) (idx : ℕ) (c : Text)
      → get_elem? current idx ≡ some c
      → (level ≡ current) ⊎ (level ≡ pad current)
      → StepUp current level idx c
  step_up current level idx c p e = elim (Bool-cases (idx % 2 == 0)) [
    | inl even ↦ elim (Bool-cases (ltb (idx + 1) (length current))) [
      | inl inside ↦ step_inside current level idx c p e (ground arith) (ground arith)
      | inr outside ↦
          step_end current level idx c p e (ground arith) (ground (arith, lt_of_some current idx p))
    ]
    | inr odd ↦ step_odd current level idx c p e (ground arith)
  ]
