-- ===== src/Prelude/Maps.antt =====
-- A JavaScript `Map` with string keys: entries in the order of insertion, no key twice.
use Prim.Native.Nat.{◌+◌, ◌≤◌}
use mathlib.Core.Path.{◌≡◌, refl}
use mathlib.Core.Option.{Option, none, some}
use mathlib.Core.List.{List, [], ◌∷◌, ◌++◌}
use native.Mathlib.Omega.{arith}
use hacienda.Prelude.Tests.{if◌then◌else◌}
use hacienda.Prelude.Lists.{length}
use hacienda.Prelude.Strings.{Text, ◌===◌, ===_iff}

abbrev pub JsMap {ℓ} : Type ℓ → Type ℓ
JsMap V = List (Text × V)

module _ {ℓ} {V : Type ℓ} where
  -- `map.get(key)`.
  unfoldable pub map_get : Text → JsMap V → Option V
  map_get k [] = none
  map_get k ((j, v) ∷ m) = if j === k then some v else map_get k m

  -- `map.set(key, value)`: in place if the key is there, else at the end.
  unfoldable pub map_set : Text → V → JsMap V → JsMap V
  map_set k v [] = (k, v) ∷ []
  map_set k v ((j, w) ∷ m) = if j === k then (k, v) ∷ m else (j, w) ∷ map_set k v m

  -- `map.delete(key)`.
  unfoldable pub map_delete : Text → JsMap V → JsMap V
  map_delete k [] = []
  map_delete k ((j, w) ∷ m) = if j === k then map_delete k m else (j, w) ∷ map_delete k m

  pub map_get-map_set :
      (k j : Text) (v : V) (m : JsMap V)
      → map_get j (map_set k v m) ≡ (if k === j then some v else map_get j m)
  unfolding map_get map_set
  map_get-map_set k j v [] = refl
  map_get-map_set k j v ((i, w) ∷ m) =
      ground (arith, ===_iff k j, ===_iff i k, ===_iff i j, map_get-map_set k j v m)

  pub map_get-map_delete :
      (k j : Text) (m : JsMap V)
      → map_get j (map_delete k m) ≡ (if k === j then none else map_get j m)
  unfolding map_get map_delete
  map_get-map_delete k j [] = ground arith
  map_get-map_delete k j ((i, w) ∷ m) =
      ground (arith, ===_iff k j, ===_iff i k, ===_iff i j, map_get-map_delete k j m)

  pub length-map_delete : (k : Text) (m : JsMap V) → length (map_delete k m) ≤ length m
  unfolding map_delete
  length-map_delete k [] = omega arith
  length-map_delete k ((j, w) ∷ m) = ground (arith, length-map_delete k m)

  pub length-map_set : (k : Text) (v : V) (m : JsMap V) → length (map_set k v m) ≤ length m + 1
  unfolding map_set
  length-map_set k v [] = omega arith
  length-map_set k v ((j, w) ∷ m) = ground (arith, length-map_set k v m)

  -- No key stands twice, as in any `Map`.
  abbrev pub Distinct : JsMap V → Type ℓ
  Distinct [] = Unit
  Distinct ((k, v) ∷ m) = (map_get k m ≡ none) × Distinct m

  pub map_delete_absent : (k : Text) (m : JsMap V) → map_get k m ≡ none → map_delete k m ≡ m
  unfolding map_get map_delete
  map_delete_absent k [] h = refl
  map_delete_absent k ((j, w) ∷ m) h = ground (arith, map_delete_absent k m)

  pub map_set_absent :
      (k : Text) (v : V) (m : JsMap V) → map_get k m ≡ none → map_set k v m ≡ m ++ (k, v) ∷ []
  unfolding map_get map_set
  map_set_absent k v [] h = refl
  map_set_absent k v ((j, w) ∷ m) h = ground (arith, map_set_absent k v m)

  pub Distinct-map_delete : (k : Text) (m : JsMap V) → Distinct m → Distinct (map_delete k m)
  unfolding map_delete
  Distinct-map_delete k [] d = tt
  Distinct-map_delete k ((j, w) ∷ m) d =
      ground (arith, Distinct-map_delete k m, map_get-map_delete k j m)

  pub Distinct-map_set : (k : Text) (v : V) (m : JsMap V) → Distinct m → Distinct (map_set k v m)
  unfolding map_set map_get
  Distinct-map_set k v [] d = (refl, tt)
  Distinct-map_set k v ((j, w) ∷ m) d =
      ground (arith, Distinct-map_set k v m, map_get-map_set k j v m, ===_iff j k, ===_iff k j)

  pub map_get-append :
      (k : Text) (m n : JsMap V)
      → map_get k (m ++ n) ≡ elim (map_get k m) [ none ↦ map_get k n | some v ↦ some v ]
  unfolding map_get
  map_get-append k [] n = refl
  map_get-append k ((j, w) ∷ m) n = ground (arith, map_get-append k m n)

  -- Deleting the entry of a key that stands once leaves the entries before and behind it.
  pub map_delete-append :
      (k : Text) (v : V) (m n : JsMap V)
      → Distinct (m ++ (k, v) ∷ n)
      → map_delete k (m ++ (k, v) ∷ n) ≡ m ++ n
  unfolding map_get map_delete
  map_delete-append k v [] n d = ground (arith, ===_iff k k, map_delete_absent k n)
  map_delete-append k v ((j, w) ∷ m) n d = ground (
    arith,
    ===_iff j k,
    ===_iff k k,
    ===_iff k j,
    map_delete-append k v m n,
    map_get-append j m ((k, v) ∷ n),
  )
