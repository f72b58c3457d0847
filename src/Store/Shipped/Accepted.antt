-- ===== src/Store/Shipped/Accepted.antt =====
-- DeclareShippedSources refuses nothing: every list of sources that the code states is declarable.
use models_db.Prelude.{
  ℕ, String, ◌≡◌, subst, inl, inr, refl, Bool, true, false, some, List, [], ◌∷◌, arith, Bool-cases,
  Option-cases, str_eq, string_eq, contains, any,
}
use models_db.Prelude.Table.{lookup}
use models_db.Prelude.Table as Tables
use models_db.Store.Source.{Source, source_eq, source_eqb}
use models_db.Store.Schema.{Column, CellKey, Cell, Db, Result-cases, ok, err}
use models_db.Store.Columns.{check_source_list, check_sources_from}
use models_db.Store.Cells.Invariant.{IsWellFormed}
use models_db.Store.Shipped.{
  find_shipped, intended_sources, has_cell_outside, declare_column, declare_columns,
  declare_shipped_sources, feed_column_sources,
}
use models_db.Store.Shipped.Declared.{declare_shipped_sources-IsWellFormed}
use models_db.Store.Shipped.Table.{ShippedColumn, shipped_columns}

is_refused : List Source → Bool
is_refused ss = elim (check_source_list ss) [ ok u ↦ false | err x ↦ true ]

not_refused : (ss : List Source) → is_refused ss ≡ false → check_source_list ss ≡ ok tt
unfolding is_refused
not_refused ss e = elim (Result-cases (check_source_list ss)) [
  | inl (x, f) ↦ absurd (ground (arith, e, f))
  | inr (u, f) ↦ f
]

shipped_not_refused : any (λ c. is_refused c.sources) shipped_columns ≡ false
unfolding is_refused check_source_list check_sources_from contains source_eqb
shipped_not_refused = refl

find_shipped-not_refused :
    (key : String) (cs : List ShippedColumn) (c : ShippedColumn)
    → any (λ s. is_refused s.sources) cs ≡ false
    → find_shipped key cs ≡ some c
    → is_refused c.sources ≡ false
unfolding find_shipped
find_shipped-not_refused key [] c h e = cc
find_shipped-not_refused key (x ∷ cs) c h e = elim (Bool-cases (str_eq x.key key)) [
  | inl here ↦ ground (arith, rw here at e)
  | inr apart ↦ find_shipped-not_refused key cs c (ground arith) (rw apart at e)
]

hand_not_refused : is_refused (Source.hand ∷ []) ≡ false
unfolding is_refused check_source_list check_sources_from contains source_eqb
hand_not_refused = refl

feed_not_refused : is_refused feed_column_sources ≡ false
unfolding is_refused check_source_list check_sources_from contains source_eqb
feed_not_refused = refl

intended_sources-not_refused :
    (c : Column) (tied : Tables.Table String String) (wanted : List Source)
    → intended_sources c tied ≡ some wanted
    → is_refused wanted ≡ false
unfolding intended_sources
intended_sources-not_refused c tied wanted e = elim (Bool-cases c.sealed) [
  | inl is_sealed ↦ elim (Option-cases (find_shipped c.key shipped_columns)) [
    | inl f ↦ elim (Option-cases (lookup c.key tied)) [
      | inl g ↦ absurd (ground (arith, e, f, g, is_sealed))
      | inr (path, g) ↦
          subst (λ w. is_refused w ≡ false) (ground (arith, e, f, g, is_sealed)) feed_not_refused
    ]
    | inr (shipped, f) ↦
        subst (λ w. is_refused w ≡ false) (ground (arith, e, f, is_sealed))
          (find_shipped-not_refused c.key shipped_columns shipped shipped_not_refused f)
  ]
  | inr unsealed ↦ subst (λ w. is_refused w ≡ false) (ground (arith, e, unsealed)) hand_not_refused
]

declare_column-accepts :
    (tied : Tables.Table String String) (cells : Tables.Table CellKey Cell) (c : Column)
    → (declared : Column × Bool) × (declare_column tied cells c ≡ ok declared)
unfolding declare_column
declare_column-accepts tied cells c = elim (Option-cases (intended_sources c tied)) [
  | inl e ↦ rw (e, declare_column) (_, refl)
  | inr (wanted, e) ↦ elim (Bool-cases (has_cell_outside c.id wanted cells)) [
    | inl f ↦ rw (e, f, declare_column) (_, refl)
    | inr f ↦
        rw (e, f, not_refused wanted (intended_sources-not_refused c tied wanted e), declare_column)
          (_, refl)
  ]
]

declare_columns-accepts :
    (tied : Tables.Table String String) (cells : Tables.Table CellKey Cell) (cs : List Column)
    → (declared : List Column × ℕ) × (declare_columns tied cells cs ≡ ok declared)
unfolding declare_columns
declare_columns-accepts tied cells [] = (_, refl)
declare_columns-accepts tied cells (c ∷ cs) =
    let (declared, e) = declare_column-accepts tied cells c in
    let (rest, f) = declare_columns-accepts tied cells cs in rw (e, f, declare_columns) (_, refl)

-- Declaring the sources of the columns anew at a start is never refused, and keeps a well-formed
-- catalog well formed: every stored cell still stands on a column that declares its source, and
-- still carries the sort key of its text.
pub declare_shipped_sources-accepts :
    (tied : Tables.Table String String) (db : Db)
    → IsWellFormed db
    → (n : ℕ) × (db' : Db) × (declare_shipped_sources tied db ≡ ok (n, db')) × IsWellFormed db'
unfolding declare_shipped_sources
declare_shipped_sources-accepts tied db well =
    let (declared, e) = declare_columns-accepts tied db.cells db.columns in
    let accepted : declare_shipped_sources tied db
        ≡ ok (declared.1, record db { columns = declared.0 }) =
      rw (e, declare_shipped_sources) refl in
    (
      declared.1,
      record db { columns = declared.0 },
      accepted,
      declare_shipped_sources-IsWellFormed tied db _ declared.1 well accepted,
    )
