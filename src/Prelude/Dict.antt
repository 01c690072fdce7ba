-- ===== src/Prelude/Dict.antt =====
-- Python's `dict` and `OrderedDict`: the entries in insertion order. An assignment to a key that is
-- there keeps its place.
pub mod Laws
pub mod Subset
use infomesh.Prelude.Lists.{length, keep}
use infomesh.Prelude.Tests.{if◌then◌else◌}
use infomesh.Prelude.Equality.{Eq, ◌==◌}
use Prim.Native.Nat.{ℕ}
use mathlib.Core.Path.{◌≡◌}
use mathlib.Core.Bool.{Bool, true, false}
use mathlib.Core.Option.{Option, none, some}
use mathlib.Core.List.{List, [], ◌∷◌, ◌++◌}

abbrev pub Dict : Type 0 → Type 0 → Type 0
Dict K V = List (K × V)

module _ {K : Type 0} ⦃e : Eq K⦄ {V : Type 0} where
  -- `d.get(k)`
  unfoldable pub lookup : K → Dict K V → Option V
  lookup k [] = none
  lookup k ((j, v) ∷ d) = if k == j then some v else lookup k d

  -- `k in d`
  unfoldable pub contains : K → Dict K V → Bool
  unfolding lookup
  contains k d = elim (lookup k d) [ none ↦ false | some v ↦ true ]

  -- `d[k] = v`
  unfoldable pub insert : K → V → Dict K V → Dict K V
  insert k v [] = (k, v) ∷ []
  insert k v ((j, w) ∷ d) = if k == j then (j, v) ∷ d else (j, w) ∷ insert k v d

  -- `d.pop(k, None)`
  unfoldable pub erase : K → Dict K V → Dict K V
  erase k [] = []
  erase k ((j, w) ∷ d) = let rest = erase k d in if k == j then rest else (j, w) ∷ rest

  -- `d.move_to_end(k)`
  unfoldable pub move_to_end : K → Dict K V → Dict K V
  unfolding lookup erase
  move_to_end k d = elim (lookup k d) [ none ↦ d | some v ↦ erase k d ++ (k, v) ∷ [] ]

  -- No key stands twice.
  abbrev pub IsUnique : Dict K V → Type 0
  IsUnique [] = Unit
  IsUnique ((k, v) ∷ d) = (lookup k d ≡ none) × IsUnique d

-- `d.popitem(last=False)`, and `del d[next(iter(d))]`
unfoldable pub pop_first : {K V : Type 0} → Dict K V → Dict K V
pop_first [] = []
pop_first (x ∷ d) = d
