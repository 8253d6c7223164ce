-- ===== src/Base/Dict.antt =====
-- A Python dict: an association list in insertion order, where a write keeps the place of its key.
use mathlib.Core.Path.{◌≡◌, refl}
use mathlib.Core.Bool.{Bool}
use mathlib.Core.List.{List, [], ◌∷◌}
use mathlib.Core.Option.{Option, none, some}
use native.Mathlib.Omega.{arith}
use openeo_argoworkflows.Base.Equality.{Eq, ◌==◌, if◌then◌else◌}
use openeo_argoworkflows.Base.Tests.{is_some}

abbrev pub Dict {ℓ κ} : Type ℓ → Type κ → Type (ℓ ⊔ κ)
Dict K V = List (K × V)

module _ {ℓ κ} {K : Type ℓ} {V : Type κ} ⦃e : Eq K⦄ where
  -- `d.get(k)`
  unfoldable pub get : K → Dict K V → Option V
  get k [] = none
  get k ((j, v) ∷ d) = if k == j then some v else get k d

  -- `k in d`
  abbrev pub has : K → Dict K V → Bool
  has k d = is_some (get k d)

  -- `d[k] = v`
  unfoldable pub set : K → V → Dict K V → Dict K V
  set k v [] = (k, v) ∷ []
  set k v ((j, w) ∷ d) = if k == j then (j, v) ∷ d else (j, w) ∷ set k v d

  -- `d.pop(k, None)`
  unfoldable pub erase : K → Dict K V → Dict K V
  erase k [] = []
  erase k ((j, w) ∷ d) = let rest = erase k d in if k == j then rest else (j, w) ∷ rest

  pub get-set :
      (j k : K) (v : V) (d : Dict K V) → get j (set k v d) ≡ (if j == k then some v else get j d)
  unfolding get set
  get-set j k v [] = refl
  get-set j k v ((i, w) ∷ d) = ground (arith, get-set j k v d)

  pub get-erase : (j k : K) (d : Dict K V) → get j (erase k d) ≡ (if j == k then none else get j d)
  unfolding get erase
  get-erase j k [] = ground arith
  get-erase j k ((i, w) ∷ d) = ground (arith, get-erase j k d)
