-- ===== src/Base/Dict.antt =====
-- A Go map with keys that can be compared, as an association list. Proofs go by the laws.
use mathlib.Core.Path.{◌≡◌}
use mathlib.Core.Bool.{Bool, true, false}
use mathlib.Core.Option.{Option, none, some}
use mathlib.Core.List.{List, [], ◌∷◌}
use native.Mathlib.Omega.{arith}
use synk.Base.Tests.{if◌then◌else◌}
use synk.Base.Equality.{Eq, ◌==◌}

abbrev pub Dict {ℓ κ} : Type ℓ → Type κ → Type (ℓ ⊔ κ)
Dict K V = List (K × V)

module _ {ℓ κ} {K : Type ℓ} {V : Type κ} ⦃e : Eq K⦄ where
  -- `v, ok := m[k]`
  unfoldable pub lookup : K → Dict K V → Option V
  lookup k [] = none
  lookup k ((j, v) ∷ d) = if k == j then some v else lookup k d

  -- `delete(m, k)`
  unfoldable pub erase : K → Dict K V → Dict K V
  erase k [] = []
  erase k ((j, v) ∷ d) = let rest = erase k d in if k == j then rest else (j, v) ∷ rest

  -- `m[k] = v`
  unfoldable pub insert : K → V → Dict K V → Dict K V
  unfolding erase
  insert k v d = (k, v) ∷ erase k d

  -- `_, ok := m[k]`
  unfoldable pub contains : K → Dict K V → Bool
  unfolding lookup
  contains k d = elim (lookup k d) [ none ↦ false | some v ↦ true ]

  pub lookup-erase :
      (j k : K) (d : Dict K V) → lookup j (erase k d) ≡ (if j == k then none else lookup j d)
  unfolding erase lookup
  lookup-erase j k [] = ground arith
  lookup-erase j k (_ ∷ d) = ground (arith, lookup-erase j k d)

  pub lookup-insert :
      (j k : K) (v : V) (d : Dict K V)
      → lookup j (insert k v d) ≡ (if j == k then some v else lookup j d)
  unfolding insert lookup
  lookup-insert j k v d = ground (arith, lookup-erase j k d)

  pub contains-erase :
      (j k : K) (d : Dict K V) → contains j (erase k d) ≡ (if j == k then false else contains j d)
  unfolding contains
  contains-erase j k d = ground (arith, lookup-erase j k d)

  pub contains-insert :
      (j k : K) (v : V) (d : Dict K V)
      → contains j (insert k v d) ≡ (if j == k then true else contains j d)
  unfolding contains
  contains-insert j k v d = ground (arith, lookup-insert j k v d)
