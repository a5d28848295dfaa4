-- ===== src/Prelude/Map.antt =====
-- Go's `map` and `sync.Map`, as the list of the entries in the order in which a range visits them.
-- Go leaves that order open: a theorem about every list of entries holds for every order.
use ukfaas.Prelude.Text.{Eq, ◌==◌}
use ukfaas.Prelude.Lists.{if◌then◌else◌}
use mathlib.Core.Path.{◌≡◌, refl}
use mathlib.Core.Logic.{◌≢◌}
use mathlib.Core.Option.{Option, none, some}
use mathlib.Core.List.{List, [], ◌∷◌}
use native.Mathlib.Omega.{arith}

abbrev pub Map {ℓ κ} : Type ℓ → Type κ → Type (ℓ ⊔ κ)
Map K V = List (K × V)

module _ {ℓ κ} {K : Type ℓ} {V : Type κ} ⦃e : Eq K⦄ where
  -- `m[k]`, `Load`
  unfoldable pub load : K → Map K V → Option V
  load k [] = none
  load k ((j, v) ∷ m) = if j == k then some v else load k m

  -- `m[k] = v`, `Store`
  unfoldable pub store : K → V → Map K V → Map K V
  store k v [] = (k, v) ∷ []
  store k v ((j, w) ∷ m) = if j == k then (k, v) ∷ m else (j, w) ∷ store k v m

  -- `delete(m, k)`, `Delete`. A real map has at most one entry of the key.
  unfoldable pub remove : K → Map K V → Map K V
  remove k [] = []
  remove k ((j, w) ∷ m) = let rest = remove k m in if j == k then rest else (j, w) ∷ rest

  -- No key occurs twice.
  abbrev pub NodupKeys : Map K V → Type κ
  NodupKeys [] = Unit
  NodupKeys ((k, _) ∷ m) = (load k m ≡ none) × NodupKeys m

  pub load-nil : (k : K) → load k [] ≡ none
  unfolding load
  load-nil k = refl

  pub load-store :
      (j k : K) (v : V) (m : Map K V) → load j (store k v m) ≡ (if k == j then some v else load j m)
  unfolding load store
  load-store j k v [] = refl
  load-store j k v ((i, w) ∷ m) = ground (arith, load-store j k v m)

  pub load-remove :
      (j k : K) (m : Map K V) → load j (remove k m) ≡ (if k == j then none else load j m)
  unfolding load remove
  load-remove j k [] = ground arith
  load-remove j k ((i, w) ∷ m) = ground (arith, load-remove j k m)

  pub load-store_self : (k : K) (v : V) (m : Map K V) → load k (store k v m) ≡ some v
  load-store_self k v m = ground (arith, load-store k k v m)

  pub load-store_ne : (j k : K) (v : V) (m : Map K V) → k ≢ j → load j (store k v m) ≡ load j m
  load-store_ne j k v m h = ground (arith, load-store j k v m)

  pub load-remove_self : (k : K) (m : Map K V) → load k (remove k m) ≡ none
  load-remove_self k m = ground (arith, load-remove k k m)

  pub load-remove_ne : (j k : K) (m : Map K V) → k ≢ j → load j (remove k m) ≡ load j m
  load-remove_ne j k m h = ground (arith, load-remove j k m)

  pub store-NodupKeys : (k : K) (v : V) (m : Map K V) → NodupKeys m → NodupKeys (store k v m)
  unfolding store
  store-NodupKeys k v [] u = (load-nil k, tt)
  store-NodupKeys k v ((j, w) ∷ m) u = ground (arith, store-NodupKeys k v m u.1, load-store j k v m)

  pub remove-NodupKeys : (k : K) (m : Map K V) → NodupKeys m → NodupKeys (remove k m)
  unfolding remove
  remove-NodupKeys k [] u = tt
  remove-NodupKeys k ((j, w) ∷ m) u = ground (arith, remove-NodupKeys k m u.1, load-remove j k m)

pub ruleset map_laws = (load-nil, load-store, load-remove)

-- The items of a list that are not `x`.
pub without {ℓ} : {K : Type ℓ} ⦃e : Eq K⦄ → K → List K → List K
without x [] = []
without x (y ∷ ys) = let rest = without x ys in if y == x then rest else y ∷ rest
