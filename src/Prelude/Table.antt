-- ===== src/Prelude/Table.antt =====
-- A table of rows by key, as SQLite and Go's maps keep them: lookup, write, delete, delete by a test
-- on the key, each with its law.
use mathlib.Core.Path.{◌≡◌, ap}
use mathlib.Core.Bool.{Bool}
use mathlib.Core.Option.{Option, none, some}
use mathlib.Core.List.{List, [], ◌∷◌, map}
use native.Mathlib.Omega.{arith}
use models_db.Prelude.Tests.{if◌then◌else◌}
use models_db.Prelude.Equality.{Eq, ◌==◌, ==_iff}

abbrev pub Table {ℓ} : Type ℓ → Type ℓ → Type ℓ
Table K V = List (K × V)

module _ {ℓ} {K V : Type ℓ} where
  abbrev pub keys : Table K V → List K
  keys = map (λ r. r.0)

module _ {ℓ} {K V : Type ℓ} ⦃e : Eq K⦄ where
  unfoldable pub lookup : K → Table K V → Option V
  lookup k [] = none
  lookup k ((j, v) ∷ t) = if j == k then some v else lookup k t

  -- Writes over the first row of the key, or adds a row at the end.
  unfoldable pub put : K → V → Table K V → Table K V
  put k v [] = (k, v) ∷ []
  put k v ((j, w) ∷ t) = if j == k then (k, v) ∷ t else (j, w) ∷ put k v t

  -- Deletes every row whose key passes.
  unfoldable pub remove_where : (K → Bool) → Table K V → Table K V
  remove_where p [] = []
  remove_where p ((j, w) ∷ t) = let rest = remove_where p t in if p j then rest else (j, w) ∷ rest

  unfoldable pub remove : K → Table K V → Table K V
  unfolding remove_where
  remove k = remove_where (λ j. j == k)

  pub lookup-put :
      (k j : K) (v : V) (t : Table K V)
      → lookup j (put k v t) ≡ (if j == k then some v else lookup j t)
  unfolding lookup put
  lookup-put k j v [] = ground (arith, ==_iff k j, ==_iff j k)
  lookup-put k j v ((i, w) ∷ t) =
      ground (arith, ==_iff k j, ==_iff j k, ==_iff i k, ==_iff i j, lookup-put k j v t)

  pub lookup-remove_where :
      (p : K → Bool) (j : K) (t : Table K V)
      → lookup j (remove_where p t) ≡ (if p j then none else lookup j t)
  unfolding lookup remove_where
  lookup-remove_where p j [] = ground arith
  lookup-remove_where p j ((i, w) ∷ t) = ground (arith, ==_iff i j, ap p, lookup-remove_where p j t)

  pub lookup-remove :
      (k j : K) (t : Table K V) → lookup j (remove k t) ≡ (if j == k then none else lookup j t)
  unfolding remove
  lookup-remove k j t = lookup-remove_where (λ i. i == k) j t

pub ruleset table_laws = (lookup-put, lookup-remove_where, lookup-remove)
