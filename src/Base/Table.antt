-- ===== src/Base/Table.antt =====
-- A Go map with string keys, as an association list without an order of its own.
use mathlib.Core.Path.{◌≡◌, refl}
use native.Mathlib.Omega.{arith}
use mathlib.Core.Bool.{Bool, true, false}
use mathlib.Core.Option.{Option, none, some}
use mathlib.Core.List.{List, [], ◌∷◌}
use node_reaper.Base.Tests.{if◌then◌else◌}
use node_reaper.Base.Strings.{Bytes, bytes_eq, bytes_eq_iff}

abbrev pub Table {ℓ} : Type ℓ → Type ℓ
Table V = List (Bytes × V)

module _ {ℓ} {V : Type ℓ} where
  unfoldable pub lookup : Bytes → Table V → Option V
  lookup k [] = none
  lookup k ((j, v) ∷ t) = if bytes_eq j k then some v else lookup k t

  unfoldable pub insert : Bytes → V → Table V → Table V
  insert k v [] = (k, v) ∷ []
  insert k v ((j, w) ∷ t) = if bytes_eq j k then (k, v) ∷ t else (j, w) ∷ insert k v t

  -- `_, ok := t[k]`
  abbrev pub contains : Bytes → Table V → Bool
  contains k t = elim (lookup k t) [ none ↦ false | some _ ↦ true ]

module _ {ℓ} {V : Type ℓ} where
  pub lookup-insert :
      (k j : Bytes) (v : V) (t : Table V)
      → lookup j (insert k v t) ≡ (if bytes_eq k j then some v else lookup j t)
  unfolding lookup insert
  lookup-insert k j v [] = refl
  lookup-insert k j v ((i, w) ∷ t) =
      ground (arith, bytes_eq_iff k j, bytes_eq_iff i k, bytes_eq_iff i j, lookup-insert k j v t)

  -- The keys of a Go map are distinct.
  abbrev pub HasDistinctKeys : Table V → Type ℓ
  HasDistinctKeys [] = Unit
  HasDistinctKeys ((k, v) ∷ t) = (lookup k t ≡ none) × HasDistinctKeys t

  pub insert-HasDistinctKeys :
      (k : Bytes) (v : V) (t : Table V) → HasDistinctKeys t → HasDistinctKeys (insert k v t)
  unfolding lookup insert
  insert-HasDistinctKeys k v [] h = (refl, tt)
  insert-HasDistinctKeys k v ((i, w) ∷ t) h = ground (
    arith,
    bytes_eq_iff i k,
    bytes_eq_iff k i,
    lookup-insert k i v t,
    insert-HasDistinctKeys k v t h.1,
  )
