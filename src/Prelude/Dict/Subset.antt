-- ===== src/Prelude/Dict/Subset.antt =====
-- A dictionary whose keys are all keys of another one is no longer than that one.
use infomesh.Prelude.Lists.{length}
use infomesh.Prelude.Equality.{Eq, ◌==◌}
use infomesh.Prelude.Dict.{Dict, lookup, contains, erase, IsUnique}
use infomesh.Prelude.Dict.Laws.{lookup-erase, length-erase-le, eq_refl}
use Prim.Native.Nat.{◌+◌, ◌≤◌}
use mathlib.Core.Path.{◌≡◌}
use mathlib.Core.Bool.{true, false}
use mathlib.Core.Logic.{◌⊎◌, inl, inr}
use infomesh.Prelude.Tests.{Bool-cases}
use mathlib.Core.Option.{none}
use mathlib.Core.List.{[], ◌∷◌}
use native.Mathlib.Omega.{arith}

module _ {K : Type 0} ⦃e : Eq K⦄ {V W : Type 0} where
  abbrev pub Within : Dict K V → Dict K W → Type 0
  Within d r = (k : K) → contains k d ≡ true → contains k r ≡ true

module _ {K : Type 0} ⦃e : Eq K⦄ {V : Type 0} where
  pub contains-head : (k : K) (v : V) (d : Dict K V) → contains k ((k, v) ∷ d) ≡ true
  unfolding contains
  contains-head k v d = ground (arith, eq_refl k)

  pub contains-tail :
      (j k : K) (v : V) (d : Dict K V) → contains j d ≡ true → contains j ((k, v) ∷ d) ≡ true
  unfolding contains
  contains-tail j k v d h = ground arith

  pub contains-cons :
      (j k : K) (v : V) (d : Dict K V)
      → contains j ((k, v) ∷ d) ≡ true
      → (j ≡ k) ⊎ (contains j d ≡ true)
  unfolding contains lookup
  contains-cons j k v d h = elim (Bool-cases (j == k)) [
    | inl same ↦ inl ((e.same_iff j k).0 same)
    | inr other ↦ inr (ground arith)
  ]

  -- A key of the rest is not the first one.
  key_ne : (j k : K) (d : Dict K V) → lookup k d ≡ none → contains j d ≡ true → (j == k) ≡ false
  unfolding contains
  key_ne j k d h c = ground (arith, e.same_iff j k)

module _ {K : Type 0} ⦃e : Eq K⦄ {W : Type 0} where
  pub contains-erase :
      (j k : K) (r : Dict K W)
      → (j == k) ≡ false
      → contains j r ≡ true
      → contains j (erase k r) ≡ true
  unfolding contains
  contains-erase j k r n c = ground (arith, lookup-erase k j r)

  pub length-erase_lt :
      (k : K) (r : Dict K W) → contains k r ≡ true → length (erase k r) + 1 ≤ length r
  unfolding contains erase
  length-erase_lt k [] c = cc
  length-erase_lt k ((j, w) ∷ r) c = ground (arith, length-erase_lt k r, length-erase-le k r)

pub length-Within :
    {K V W : Type 0} ⦃e : Eq K⦄
    → (d : Dict K V) (r : Dict K W) → IsUnique d
    → Within d r
    → length d ≤ length r
length-Within [] r u w = omega arith
length-Within ((k, v) ∷ d) r u w = omega (
  arith,
  length-Within d (erase k r) u.1
      (λ j c. contains-erase j k r (key_ne j k d u.0 c) (w j (contains-tail j k v d c))),
  length-erase_lt k r (w k (contains-head k v d)),
)
