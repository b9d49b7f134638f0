-- ===== src/Prelude/Dict.antt =====
-- Go's `map[string]V` as an association list in the order in which a `range` statement goes
-- through it. A Go map has each key once: `NodupKeys`.
use Prim.Native.String.{String}
use mathlib.Core.Path.{◌≡◌, refl}
use mathlib.Core.Logic.{inl, inr}
use mathlib.Core.Logic.{◌≢◌, ◌↔◌}
use mathlib.Core.Bool.{Bool, true}
use mathlib.Core.Option.{Option, none, some}
use mathlib.Core.List.{List, [], ◌∷◌}
use native.Mathlib.Omega.{arith}
use text.Mathlib.Text.{◌==◌}
use text.Mathlib.TextEquality.{eq_iff}
use text.Mathlib.TextPositions.{eq_refl}
use notification_controller.Prelude.Lists.{length, In}
use notification_controller.Prelude.Tests.{eq_cases, nat_eq, if◌then◌else◌}

abbrev pub Dict {ℓ} : Type ℓ → Type ℓ
Dict V = List (String × V)

module _ {ℓ} {V : Type ℓ} where
  -- `v, ok := m[k]`
  unfoldable pub lookup : String → Dict V → Option V
  lookup k [] = none
  lookup k ((j, v) ∷ m) = if j == k then some v else lookup k m

  -- `m[k] = v`
  unfoldable pub insert : String → V → Dict V → Dict V
  insert k v [] = (k, v) ∷ []
  insert k v ((j, w) ∷ m) = if j == k then (k, v) ∷ m else (j, w) ∷ insert k v m

  -- `delete(m, k)`
  unfoldable pub delete : String → Dict V → Dict V
  delete k [] = []
  delete k ((j, w) ∷ m) = let rest = delete k m in if j == k then rest else (j, w) ∷ rest

  -- A copy of the entries whose key and value pass a test, as a `range` loop makes it.
  unfoldable pub filter_keys : (String → Bool) → Dict V → Dict V
  filter_keys p [] = []
  filter_keys p ((j, w) ∷ m) = let rest = filter_keys p m in if p j then (j, w) ∷ rest else rest

  abbrev pub NodupKeys : Dict V → Type ℓ
  NodupKeys [] = Unit
  NodupKeys ((k, _) ∷ m) = (lookup k m ≡ none) × NodupKeys m

  -- The same map, whatever the order of its entries.
  abbrev pub SameMap : Dict V → Dict V → Type ℓ
  SameMap m n = (k : String) → lookup k m ≡ lookup k n

  pub lookup-insert :
      (j k : String) (v : V) (m : Dict V)
      → lookup j (insert k v m) ≡ (if k == j then some v else lookup j m)
  unfolding lookup insert
  lookup-insert j k v [] = refl
  lookup-insert j k v ((i, w) ∷ m) =
      ground (arith, eq_iff k j, eq_iff i k, eq_iff i j, lookup-insert j k v m)

  pub lookup-delete :
      (j k : String) (m : Dict V) → lookup j (delete k m) ≡ (if k == j then none else lookup j m)
  unfolding lookup delete
  lookup-delete j k [] = ground arith
  lookup-delete j k ((i, w) ∷ m) =
      ground (arith, eq_iff k j, eq_iff i k, eq_iff i j, lookup-delete j k m)

  pub lookup-filter_keys :
      (j : String) (p : String → Bool) (m : Dict V)
      → lookup j (filter_keys p m) ≡ (if p j then lookup j m else none)
  unfolding lookup filter_keys
  lookup-filter_keys j p [] = ground arith
  lookup-filter_keys j p ((i, w) ∷ m) = elim (eq_cases i j) [
    | inl same ↦ rw same (ground (arith, eq_refl j, lookup-filter_keys j p m))
    | inr other ↦ ground (arith, lookup-filter_keys j p m)
  ]

  pub insert-NodupKeys : (k : String) (v : V) (m : Dict V) → NodupKeys m → NodupKeys (insert k v m)
  unfolding insert lookup
  insert-NodupKeys k v [] u = (refl, tt)
  insert-NodupKeys k v ((j, w) ∷ m) (fresh, u) =
      ground (arith, insert-NodupKeys k v m u, lookup-insert j k v m, eq_iff j k, eq_iff k j)

  pub filter_keys-NodupKeys :
      (p : String → Bool) (m : Dict V) → NodupKeys m → NodupKeys (filter_keys p m)
  unfolding filter_keys
  filter_keys-NodupKeys p [] u = tt
  filter_keys-NodupKeys p ((j, w) ∷ m) (fresh, u) =
      ground (arith, filter_keys-NodupKeys p m u, lookup-filter_keys j p m)

  pub delete-NodupKeys : (k : String) (m : Dict V) → NodupKeys m → NodupKeys (delete k m)
  unfolding delete
  delete-NodupKeys k [] u = tt
  delete-NodupKeys k ((j, w) ∷ m) (fresh, u) =
      ground (arith, delete-NodupKeys k m u, lookup-delete j k m)

  pub lookup_of_empty : (k : String) (m : Dict V) → nat_eq (length m) 0 ≡ true → lookup k m ≡ none
  unfolding lookup
  lookup_of_empty k [] h = refl
  lookup_of_empty k (_ ∷ m) h = ground arith

  abbrev pub keys : Dict V → List String
  keys [] = []
  keys ((k, _) ∷ m) = k ∷ keys m

  pub lookup_iff_key : (k : String) (m : Dict V) → (lookup k m ≢ none) ↔ In k (keys m)
  unfolding lookup
  lookup_iff_key k [] = (λ h. absurd (h refl), λ h. absurd h)
  lookup_iff_key k ((j, v) ∷ m) = ground (arith, lookup_iff_key k m, eq_iff j k)
