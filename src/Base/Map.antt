-- ===== src/Base/Map.antt =====
-- A `Map` with text keys, as the list of its entries: one entry to a key, in order of insertion.
use mathlib.Core.Path.{◌≡◌, refl}
use mathlib.Core.Bool.{Bool, true, false}
use mathlib.Core.List.{List, [], ◌∷◌}
use mathlib.Core.Option.{Option, none, some}
use Prim.Native.Nat.{◌+◌, ◌≤◌}
use Prim.Native.String.{String}
use native.Mathlib.Omega.{arith}
use text.Mathlib.Text.{◌==◌ as str_eq}
use text.Mathlib.TextEquality.{eq_iff}
use zcash_faucet.Base.Tests.{if◌then◌else◌}
use zcash_faucet.Base.Lists.{length}

module _ {ℓ} {V : Type ℓ} where
  abbrev pub lookup : String → List (String × V) → Option V
  lookup k [] = none
  lookup k ((j, v) ∷ m) = if str_eq j k then some v else lookup k m

  -- `map.set(k, v)`.
  unfoldable pub insert : String → V → List (String × V) → List (String × V)
  insert k v [] = (k, v) ∷ []
  insert k v ((j, w) ∷ m) = if str_eq j k then (j, v) ∷ m else (j, w) ∷ insert k v m

  -- Deletes the entries whose value fails the test.
  abbrev pub keep_values : (V → Bool) → List (String × V) → List (String × V)
  keep_values p [] = []
  keep_values p ((j, w) ∷ m) = let rest = keep_values p m in if p w then (j, w) ∷ rest else rest

  abbrev pub is_some : Option V → Bool
  is_some none = false
  is_some (some v) = true

  abbrev pub HasDistinctKeys : List (String × V) → Type 0
  HasDistinctKeys [] = Unit
  HasDistinctKeys ((j, w) ∷ m) = (is_some (lookup j m) ≡ false) × HasDistinctKeys m

  pub lookup-insert :
      (k j : String) (v : V) (m : List (String × V))
      → lookup j (insert k v m) ≡ (if str_eq k j then some v else lookup j m)
  unfolding insert
  lookup-insert k j v [] = refl
  lookup-insert k j v ((i, w) ∷ m) =
      ground (arith, eq_iff k j, eq_iff i k, eq_iff i j, lookup-insert k j v m)

  pub length-insert :
      (k : String) (v : V) (m : List (String × V))
      → length (insert k v m) ≡ length m + (if is_some (lookup k m) then 0 else 1)
  unfolding insert
  length-insert k v [] = omega arith
  length-insert k v ((i, w) ∷ m) = ground (arith, length-insert k v m)

  pub length-keep_values-le :
      (p : V → Bool) (m : List (String × V)) → length (keep_values p m) ≤ length m
  length-keep_values-le p [] = omega arith
  length-keep_values-le p ((i, w) ∷ m) = ground (arith, length-keep_values-le p m)

  pub lookup-keep_values :
      (k : String) (p : V → Bool) (v : V) (m : List (String × V))
      → lookup k m ≡ some v
      → p v ≡ true
      → lookup k (keep_values p m) ≡ some v
  lookup-keep_values k p v [] e h = cc
  lookup-keep_values k p v ((i, w) ∷ m) e h = ground (arith, lookup-keep_values k p v m)

  pub lookup-keep_values_none :
      (k : String) (p : V → Bool) (m : List (String × V))
      → is_some (lookup k m) ≡ false
      → is_some (lookup k (keep_values p m)) ≡ false
  lookup-keep_values_none k p [] e = e
  lookup-keep_values_none k p ((i, w) ∷ m) e = ground (arith, lookup-keep_values_none k p m)

  pub lookup-keep_values_gone :
      (k : String) (p : V → Bool) (v : V) (m : List (String × V))
      → HasDistinctKeys m
      → lookup k m ≡ some v
      → p v ≡ false
      → is_some (lookup k (keep_values p m)) ≡ false
  lookup-keep_values_gone k p v [] d e h = cc
  lookup-keep_values_gone k p v ((i, w) ∷ m) (d, ds) e h =
      ground
        (arith, eq_iff i k, lookup-keep_values_none i p m d, lookup-keep_values_gone k p v m ds)

  pub keep_values-HasDistinctKeys :
      (p : V → Bool) (m : List (String × V)) → HasDistinctKeys m → HasDistinctKeys (keep_values p m)
  keep_values-HasDistinctKeys p [] d = tt
  keep_values-HasDistinctKeys p ((i, w) ∷ m) (d, ds) =
      ground (arith, lookup-keep_values_none i p m d, keep_values-HasDistinctKeys p m ds)

  pub insert-HasDistinctKeys :
      (k : String) (v : V) (m : List (String × V))
      → HasDistinctKeys m
      → HasDistinctKeys (insert k v m)
  unfolding insert
  insert-HasDistinctKeys k v [] d = (refl, tt)
  insert-HasDistinctKeys k v ((i, w) ∷ m) (d, ds) =
      ground (arith, eq_iff i k, eq_iff k i, lookup-insert k i v m, insert-HasDistinctKeys k v m ds)
