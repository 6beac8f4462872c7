-- ===== src/Prelude/Maps.antt =====
-- Go maps as association lists: a lookup finds the first entry, a write replaces it in place or
-- adds it at the end, and a deletion drops the entry.
use mathlib.Core.Path.{◌≡◌, refl}
use mathlib.Core.Bool.{Bool, true, false}
use mathlib.Core.List.{List, [], ◌∷◌}
use mathlib.Core.Option.{Option, none, some}
use native.Mathlib.Omega.{arith}
use soju_bouncer.Prelude.Tests.{Eq, ◌==◌, if◌then◌else◌}

abbrev pub is_some {ℓ} : {A : Type ℓ} → Option A → Bool
is_some none = false
is_some (some a) = true

-- The value of a key, or the zero value: what `m[k]` reads.
abbrev pub value_or {ℓ} : {A : Type ℓ} → Option A → A → A
value_or none d = d
value_or (some a) d = a

module _ {ℓ κ} {K : Type ℓ} {V : Type κ} ⦃e : Eq K⦄ where
  unfoldable pub lookup : K → List (K × V) → Option V
  lookup k [] = none
  lookup k ((j, v) ∷ m) = if j == k then some v else lookup k m

  unfoldable pub insert : K → V → List (K × V) → List (K × V)
  insert k v [] = (k, v) ∷ []
  insert k v ((j, w) ∷ m) = if j == k then (j, v) ∷ m else (j, w) ∷ insert k v m

  unfoldable pub delete : K → List (K × V) → List (K × V)
  delete k [] = []
  delete k ((j, w) ∷ m) = if j == k then delete k m else (j, w) ∷ delete k m

  pub lookup-insert :
      (key name : K) (value : V) (entries : List (K × V))
      → lookup name (insert key value entries)
        ≡ (if key == name then some value else lookup name entries)
  unfolding lookup insert
  lookup-insert key name value [] = refl
  lookup-insert key name value ((first, old) ∷ rest) = ground (
    arith,
    e.test_iff key name,
    e.test_iff first key,
    e.test_iff first name,
    lookup-insert key name value rest,
  )

  pub lookup-delete :
      (k j : K) (m : List (K × V)) → lookup j (delete k m) ≡ (if k == j then none else lookup j m)
  unfolding lookup delete
  lookup-delete k j [] = ground arith
  lookup-delete k j ((i, w) ∷ m) =
      ground (arith, e.test_iff k j, e.test_iff i k, e.test_iff i j, lookup-delete k j m)

  -- No key stands twice, as in a Go map.
  abbrev pub DistinctKeys : List (K × V) → Type κ
  DistinctKeys [] = Unit
  DistinctKeys ((k, v) ∷ m) = (lookup k m ≡ none) × DistinctKeys m

  pub insert-DistinctKeys :
      (k : K) (v : V) (m : List (K × V)) → DistinctKeys m → DistinctKeys (insert k v m)
  unfolding insert lookup
  insert-DistinctKeys k v [] d = ground arith
  insert-DistinctKeys k v ((j, w) ∷ m) d =
      ground
        (arith, e.test_iff j k, e.test_iff k j, insert-DistinctKeys k v m, lookup-insert k j v m)

  pub delete-DistinctKeys : (k : K) (m : List (K × V)) → DistinctKeys m → DistinctKeys (delete k m)
  unfolding delete
  delete-DistinctKeys k [] d = tt
  delete-DistinctKeys k ((j, w) ∷ m) d =
      ground (arith, e.test_iff j k, e.test_iff k j, delete-DistinctKeys k m, lookup-delete k j m)
