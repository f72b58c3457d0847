-- ===== src/Store/Shipped/Declared.antt =====
-- DeclareShippedSources and the stored cells.
mod Kept
use mathlib.Core.Option.{some-injective}
use models_db.Prelude.{
  ℕ, suc, String, ◌≡◌, inl, inr, refl, sym, ap, ◌∙◌, subst, Bool, true, false, Option, none, some,
  List, [], ◌∷◌, arith, Bool-cases, if◌then◌else◌, str_eq, string_eq, contains,
}
use models_db.Prelude.Table.{lookup}
use models_db.Prelude.Table as Tables
use models_db.Store.Source.{Source, source_eq}
use models_db.Store.Schema.{
  ok-injective, Column, ValueType, CellKey, cell_key_eq, cell_key_eqb, cell_key_eqb_iff, Cell, Db,
  Result, ok, err, ◌>>=◌, ◌>>◌, find_column,
}
use models_db.Store.Columns.{check_source_list}
use models_db.Store.Cells.{sort_key_for, sort_key_of}
use models_db.Store.Cells.Effect.{HasDistinctIds}
use models_db.Store.Cells.Invariant.{IsWellFormed}
use models_db.Store.Shipped.{
  intended_sources, has_cell_outside, described, declare_column, declare_columns,
  declare_shipped_sources,
}
use models_db.Store.Shipped.Declared.Kept.{IsKept, declare_column-IsKept, same_sort}

-- Two lists of columns, the second what a declaration leaves of the first.
data AllKept (cells : Tables.Table CellKey Cell) : List Column → List Column → Type 0 where
  none_left : AllKept cells [] []
  one_more :
      (c d : Column) (cs ds : List Column)
      → IsKept cells c d
      → AllKept cells cs ds
      → AllKept cells (c ∷ cs) (d ∷ ds)

-- The results of the columns after the first, with its own.
abbrev counted : Column × Bool → List Column × ℕ → Result (List Column × ℕ)
counted declared rest = ok (declared.0 ∷ rest.0, if declared.1 then suc rest.1 else rest.1)

declare_columns-AllKept :
    (tied : Tables.Table String String) (cells : Tables.Table CellKey Cell) (cs ds : List Column)
    (n : ℕ)
    → declare_columns tied cells cs ≡ ok (ds, n)
    → AllKept cells cs ds
unfolding declare_columns
declare_columns-AllKept tied cells [] ds n e =
    subst (AllKept cells []) (ap (λ r. r.0) (ok-injective e)) none_left
declare_columns-AllKept tied cells (c ∷ cs) ds n e =
    by_column (declare_column tied cells c) (declare_columns-AllKept tied cells cs) refl e
  where
    by_rest :
        (declared : Column × Bool) (r : Result (List Column × ℕ))
        → declare_column tied cells c ≡ ok declared
        → declare_columns tied cells cs ≡ r
        → ((rest : List Column) (m : ℕ)
            → declare_columns tied cells cs ≡ ok (rest, m)
            → AllKept cells cs rest)
        → (r >>= counted declared) ≡ ok (ds, n)
        → AllKept cells (c ∷ cs) ds
    by_rest declared (err x) f g again e = cc
    by_rest declared (ok rest) f g again e =
        subst (AllKept cells (c ∷ cs)) (ap (λ r. r.0) (ok-injective e)) (
          one_more c declared.0 cs rest.0 (declare_column-IsKept tied cells c declared f)
            (again rest.0 rest.1 g))

    by_column :
        (r : Result (Column × Bool))
        → ((rest : List Column) (m : ℕ)
            → declare_columns tied cells cs ≡ ok (rest, m)
            → AllKept cells cs rest)
        → declare_column tied cells c ≡ r
        → (r >>= λ declared. declare_columns tied cells cs >>= counted declared) ≡ ok (ds, n)
        → AllKept cells (c ∷ cs) ds
    by_column (err x) again f e = cc
    by_column (ok declared) again f e =
        by_rest declared (declare_columns tied cells cs) f refl again e

find_here :
    (key : String) (x : Column) (cs : List Column)
    → str_eq x.key key ≡ true
    → find_column key (x ∷ cs) ≡ some x
unfolding find_column
find_here key x cs e = rw e refl

find_past :
    (key : String) (x : Column) (cs : List Column)
    → str_eq x.key key ≡ false
    → find_column key (x ∷ cs) ≡ find_column key cs
unfolding find_column
find_past key x cs e = rw e refl

find_after :
    (cells : Tables.Table CellKey Cell) (key : String) (c : Column) (cs ds : List Column)
    → AllKept cells cs ds
    → find_column key cs ≡ some c
    → (d : Column) × (find_column key ds ≡ some d) × IsKept cells c d
unfolding find_column
find_after cells key c _ _ none_left e = cc
find_after cells key c _ _ (one_more x y cs ds k ks) e = elim (Bool-cases (str_eq x.key key)) [
  | inl here ↦
      let same : x ≡ c = some-injective _ _ (sym (find_here key x cs here) ∙ e) in
      (
        y,
        find_here key y ds (ap (λ a. str_eq a key) k.key ∙ here),
        subst (λ z. IsKept cells z y) same k,
      )
  | inr apart ↦
      let (d, found, kept) = find_after cells key c cs ds ks (sym (find_past key x cs apart) ∙ e) in
      (d, find_past key y ds (ap (λ a. str_eq a key) k.key ∙ apart) ∙ found, kept)
]

find_before :
    (cells : Tables.Table CellKey Cell) (key : String) (d : Column) (cs ds : List Column)
    → AllKept cells cs ds
    → find_column key ds ≡ some d
    → (c : Column) × (find_column key cs ≡ some c) × IsKept cells c d
unfolding find_column
find_before cells key d _ _ none_left e = cc
find_before cells key d _ _ (one_more x y cs ds k ks) e = elim (Bool-cases (str_eq y.key key)) [
  | inl here ↦
      let same : y ≡ d = some-injective _ _ (sym (find_here key y ds here) ∙ e) in
      (
        x,
        find_here key x cs (ap (λ a. str_eq a key) (sym k.key) ∙ here),
        subst (IsKept cells x) same k,
      )
  | inr apart ↦
      let (c, found, kept) =
        find_before cells key d cs ds ks (sym (find_past key y ds apart) ∙ e) in
      (c, find_past key x cs (ap (λ a. str_eq a key) (sym k.key) ∙ apart) ∙ found, kept)
]

declared-HasDistinctIds :
    (cells : Tables.Table CellKey Cell) (cs ds : List Column)
    → AllKept cells cs ds
    → HasDistinctIds cs
    → HasDistinctIds ds
declared-HasDistinctIds cells cs ds kept distinct k j d e at_k at_j same =
    let (c, found_c, kept_c) = find_before cells k d cs ds kept at_k in
    let (b, found_b, kept_b) = find_before cells j e cs ds kept at_j in
    distinct k j c b found_c found_b (sym kept_c.id ∙ same ∙ kept_b.id)

-- Declaring the sources of the columns anew at a start keeps the catalog well formed: every stored
-- cell still stands on a column that declares its source and still carries the sort key of its text.
pub declare_shipped_sources-IsWellFormed :
    (tied : Tables.Table String String) (db db' : Db) (n : ℕ)
    → IsWellFormed db
    → declare_shipped_sources tied db ≡ ok (n, db')
    → IsWellFormed db'
unfolding declare_shipped_sources
declare_shipped_sources-IsWellFormed tied db db' n well e =
    by_columns (declare_columns tied db.cells db.columns) refl e
  where
    of_declared :
        {ds : List Column}
        → AllKept db.cells db.columns ds
        → IsWellFormed (record db { columns = ds })
    of_declared {ds} kept = record {
      distinct = declared-HasDistinctIds db.cells db.columns ds kept well.distinct;
      cells = λ j cell at.
          let s = well.cells j cell at in
          let (d, found, k) = find_after db.cells s.key s.column db.columns ds kept s.found in
          record {
            key = s.key;
            column = d;
            found = found;
            id = k.id ∙ s.id;
            declared = k.declared j cell at s.id s.declared;
            not_empty = s.not_empty;
            in_step = same_sort cell.value_text k ∙ s.in_step;
            model = s.model;
          };
    }

    by_columns :
        (r : Result (List Column × ℕ))
        → declare_columns tied db.cells db.columns ≡ r
        → (let rewritten : List Column × ℕ → Result (ℕ × Db) =
              λ declared. ok (declared.1, record db { columns = declared.0 }) in
            r >>= rewritten)
          ≡ ok (n, db')
        → IsWellFormed db'
    by_columns (err x) f e = cc
    by_columns (ok declared) f e =
        subst IsWellFormed (ap (λ r. r.1) (ok-injective e))
          (of_declared (declare_columns-AllKept tied db.cells db.columns declared.0 declared.1 f))
