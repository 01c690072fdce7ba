-- ===== src/Trust/Merkle/Levels.antt =====
-- infomesh/trust/merkle.py, `build`: the shape of the levels that the loop leaves behind.
use infomesh.Prelude.{
  ℕ, zero, suc, ◌+◌, ◌*◌, ◌/◌, ◌%◌, ◌≤◌, ◌<◌, ◌≡◌, refl, ◌⊎◌, inl, inr, some, List, [], ◌∷◌, ◌++◌,
  arith, ltb, length, get_elem?, drop, length-append, get_elem?-append_left, Text, Bool-cases,
  ltb→lt,
}
use infomesh.Prelude.Hash.{Sha256}
use infomesh.Trust.Merkle.{hash_pair, last_of, pad, pairs, grow, root_of, without_root}

length-last_of : (x : Text) (r : List Text) → length (last_of (x ∷ r)) ≡ 1
length-last_of x [] = refl
length-last_of x (y ∷ r) = length-last_of y r

length-pad : (xs : List Text) → length (pad xs) ≡ length xs + length xs % 2
unfolding pad
length-pad [] = omega arith
length-pad (x ∷ r) = ground (arith, length-append (x ∷ r) (last_of (x ∷ r)), length-last_of x r)

length-pairs : ⦃h : Sha256⦄ → (xs : List Text) → length (pairs xs) ≡ length xs / 2
unfolding pairs
length-pairs [] = omega arith
length-pairs (x ∷ []) = omega arith
length-pairs (x ∷ y ∷ r) = omega (arith, length-pairs r)

-- A round halves the level, rounding up.
pub length-round : ⦃h : Sha256⦄ → (xs : List Text) → length (pairs (pad xs)) ≡ (length xs + 1) / 2
length-round xs = omega (arith, length-pairs (pad xs), length-pad xs)

-- Neighbours at 2i and 2i + 1 meet at i.
pub get_elem?-pairs :
    ⦃h : Sha256⦄
    → (i : ℕ) (xs : List Text) {a b : Text} → get_elem? xs (i * 2) ≡ some a
    → get_elem? xs (i * 2 + 1) ≡ some b
    → get_elem? (pairs xs) i ≡ some (hash_pair a b)
unfolding pairs
get_elem?-pairs i [] p q = cc
get_elem?-pairs zero (x ∷ []) p q = cc
get_elem?-pairs (suc i) (x ∷ []) p q = ground arith
get_elem?-pairs zero (x ∷ y ∷ r) p q = ground arith
get_elem?-pairs (suc i) (x ∷ y ∷ r) p q = get_elem?-pairs i r (ground arith) (ground arith)

pub get_elem?-pad : (xs : List Text) (i : ℕ) → i < length xs → get_elem? (pad xs) i ≡ get_elem? xs i
unfolding pad
get_elem?-pad xs i h = ground (arith, get_elem?-append_left xs (last_of xs) i h)

get_elem?-last_of :
    (x : Text) (r : List Text)
    → get_elem? ((x ∷ r) ++ last_of (x ∷ r)) (length (x ∷ r)) ≡ get_elem? (x ∷ r) (length r)
get_elem?-last_of x [] = refl
get_elem?-last_of x (y ∷ r) = get_elem?-last_of y r

-- An odd level is continued by its own last element.
pub get_elem?-pad_end :
    (xs : List Text) (i : ℕ)
    → length xs ≡ i + 1
    → length xs % 2 ≡ 1
    → get_elem? (pad xs) (i + 1) ≡ get_elem? xs i
unfolding pad
get_elem?-pad_end [] i h o = absurd (omega arith)
get_elem?-pad_end (x ∷ r) i h o =
    let e : i ≡ length r = omega arith in
    let f : i + 1 ≡ length (x ∷ r) = omega arith in
    rw f (rw e (ground (arith, get_elem?-last_of x r)))

-- The levels over `current`, described without the loop: a last level of one hash, and below it
-- levels that are kept as they were or padded.
pub data Tower ⦃h : Sha256⦄ : List Text → List (List Text) → Type 0 where
  top : {current : List Text} → length current ≡ 1 → Tower current (current ∷ [])
  round :
      {current level : List Text} {rest : List (List Text)}
      → 1 < length current
      → (level ≡ current) ⊎ (level ≡ pad current)
      → Tower (pairs (pad current)) rest
      → Tower current (level ∷ rest)

pub Tower-grow :
    ⦃h : Sha256⦄
    → (fuel : ℕ) (current : List Text) → 0 < length current
    → length current ≤ fuel
    → Tower current (grow fuel current)
unfolding grow
Tower-grow zero current p q = absurd (omega arith)
Tower-grow (suc fuel) current p q = elim (Bool-cases (ltb 1 (length current))) [
  | inl more ↦
      let m : 1 < length current = ltb→lt 1 (length current) more in
      rw more (
        round m (inr refl) (
          Tower-grow fuel (pairs (pad current)) (omega (arith, length-round current))
            (omega (arith, length-round current))))
  | inr done ↦ rw done (top (ground arith))
]

-- The copy of the leaves may stand for the first level of the loop.
pub Tower-first :
    ⦃h : Sha256⦄
    → {current : List Text} {levels : List (List Text)} → Tower current levels
    → Tower current (current ∷ drop 1 levels)
Tower-first (top e) = top e
Tower-first (round m c t) = round m (inl refl) t

pub root_of-cons :
    ⦃h : Sha256⦄
    → {current : List Text} (level : List Text) {rest : List (List Text)} → Tower current rest
    → root_of (level ∷ rest) ≡ root_of rest
unfolding root_of
root_of-cons [] (top e) = refl
root_of-cons (x ∷ level) (top e) = refl
root_of-cons [] (round m c t) = refl
root_of-cons (x ∷ level) (round m c t) = refl

pub without_root-cons :
    ⦃h : Sha256⦄
    → {current : List Text} (level : List Text) {rest : List (List Text)} → Tower current rest
    → without_root (level ∷ rest) ≡ level ∷ without_root rest
unfolding without_root
without_root-cons level (top e) = refl
without_root-cons level (round m c t) = refl
