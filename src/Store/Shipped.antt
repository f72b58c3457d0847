-- ===== src/Store/Shipped.antt =====
-- internal/store/shipped.go: seeding the columns the app ships, what kind a column is, and declaring
-- every column's sources anew at a start. The feed paths that columns are made from (feed_fields) are
-- an argument.
pub mod Table
pub mod Feed
pub mod Declared
pub mod Accepted
pub mod Seeds
use models_db.Prelude.{
  ℕ, suc, ◌+◌, String, Bool, true, false, ◌&&◌, ◌||◌, not, Option, none, some, List, [], ◌∷◌, ◌++◌,
  map, leb, nat_eqb, if◌then◌else◌, str_eq, string_eq, contains, any, length,
}
use Prim.Native.String.{◌++◌ as str_append}
use models_db.Prelude.Table.{lookup}
use models_db.Prelude.Table as Tables
use models_db.Store.Source.{Source, open_router, hugging_face, app, source_eq, stored_name}
use models_db.Store.Schema.{
  Column, ValueType, Resolve, first_stated, union, CellKey, Cell, Db, Error, Result, ok, err, ◌>>=◌,
  ◌>>◌, find_column,
}
use models_db.Store.Columns.{ColumnSpec, create_column, check_source_list}
use models_db.Store.Shipped.Table.{ShippedColumn, shipped_columns}
use models_db.Store.Shipped.Feed.{feed_column_about}

-- The words of the kinds of value and of the ways to resolve.
unfoldable pub value_type_word : ValueType → String
value_type_word ValueType.text = "text"
value_type_word ValueType.number = "number"
value_type_word ValueType.flag = "flag"
value_type_word ValueType.choice = "choice"
value_type_word ValueType.list = "list"

unfoldable pub resolve_word : Resolve → String
resolve_word first_stated = ""
resolve_word union = "union"

unfoldable pub spec_of : ShippedColumn → ℕ → ColumnSpec
unfolding value_type_word resolve_word
spec_of shipped position = record {
  key = shipped.key;
  label = shipped.label;
  value_type = value_type_word shipped.value_type;
  resolve = resolve_word shipped.resolve;
  unit = shipped.unit;
  about = shipped.about;
  position = position;
  hidden = not shipped.visible;
  sealed = true;
  options = [];
  colors = shipped.colors;
}

-- seedOneColumn: the catalog after it, and whether it made the column.
unfoldable pub seed_one_column : String → ShippedColumn → ℕ → Db → Result (Bool × Db)
unfolding find_column create_column spec_of stored_name
seed_one_column stamp shipped position db = elim (find_column shipped.key db.columns) [
  | some c ↦ ok (false, db)
  | none ↦
      create_column stamp (spec_of shipped position) (map stored_name shipped.sources) db
      >>= λ made. ok (true, made.1)
]

-- What a seeding leaves: the catalog, the keys it created, and the error that stopped it, if one did.
pub record Seeding : Type 0 where
  pub db : Db
  pub created : List String
  pub error : Option Error

-- The loop of SeedShippedColumns. Every column is a transaction of its own, which a later error leaves.
unfoldable pub seed_from : String → ℕ → List ShippedColumn → Db → List String → Seeding
unfolding seed_one_column
seed_from stamp position [] db created = record { db = db; created = created; error = none }
seed_from stamp position (shipped ∷ rest) db created =
    elim (seed_one_column stamp shipped position db) [
      | err e ↦ record { db = db; created = created; error = some e }
      | ok made ↦
          seed_from stamp (suc position) rest made.1
            (if made.0 then created ++ shipped.key ∷ [] else created)
    ]

-- SeedShippedColumns
unfoldable pub seed_shipped_columns : String → Db → Seeding
unfolding seed_from
seed_shipped_columns stamp db = seed_from stamp 0 shipped_columns db []

-- ensureShippedColumns, with seedMarkerColumn.
unfoldable pub ensure_shipped_columns : String → Db → Seeding
unfolding find_column seed_shipped_columns
ensure_shipped_columns stamp db = elim (find_column "added" db.columns) [
  | some c ↦ record { db = db; created = []; error = none }
  | none ↦ seed_shipped_columns stamp db
]

-- shippedByKey
unfoldable pub find_shipped : String → List ShippedColumn → Option ShippedColumn
find_shipped key [] = none
find_shipped key (c ∷ cs) = if str_eq c.key key then some c else find_shipped key cs

-- The kinds of column the page draws.
pub data ColumnKind : Type 0 where
  fetched measured derived stamped yours : ColumnKind

unfoldable pub is_derived : String → Bool
unfolding find_shipped
is_derived key = elim (find_shipped key shipped_columns) [
  | none ↦ false
  | some c ↦ not (str_eq c.derived "")
]

-- ColumnKind, and DerivedFrom as far as it asks it.
unfoldable pub column_kind : Column → List Source → ColumnKind
unfolding is_derived
column_kind column (app ∷ []) = stamped
column_kind column (Source.hand ∷ []) = yours
column_kind column (hugging_face ∷ ss) = if is_derived column.key then derived else measured
column_kind column ss = if is_derived column.key then derived else fetched

abbrev pub feed_column_sources : List Source
feed_column_sources = open_router ∷ Source.research ∷ []

-- feedFieldAbout
unfoldable pub feed_field_about : String → String → String
unfolding lookup
feed_field_about key path = elim (lookup key feed_column_about) [
  | some about ↦ about
  | none ↦
      if str_eq path ""
      then "A field of OpenRouter's feed for this model, as the listing states it."
      else str_append "The field "
          (str_append path " of OpenRouter's feed for this model, as the listing states it.")
]

-- intendedSources
unfoldable pub intended_sources : Column → Tables.Table String String → Option (List Source)
unfolding find_shipped lookup
intended_sources column tied =
    if not column.sealed
    then some (Source.hand ∷ [])
    else elim (find_shipped column.key shipped_columns) [
      | some shipped ↦ some shipped.sources
      | none ↦ elim (lookup column.key tied) [ none ↦ none | some path ↦ some feed_column_sources ]
    ]

-- cellSourcesOutside, as far as it is asked whether it is empty.
unfoldable pub has_cell_outside : ℕ → List Source → Tables.Table CellKey Cell → Bool
unfolding contains
has_cell_outside id wanted [] = false
has_cell_outside id wanted ((j, cell) ∷ cells) =
    nat_eqb j.column id && not (contains wanted j.source) || has_cell_outside id wanted cells

-- The descriptions that DeclareShippedSources writes.
unfoldable pub described : Tables.Table String String → Column → Column
unfolding find_shipped lookup feed_field_about
described tied column =
    let shipped_about : String = elim (find_shipped column.key shipped_columns) [
      | none ↦ column.about
      | some shipped ↦ if column.sealed then shipped.about else column.about
    ] in
    record column {
      about = (elim (lookup column.key tied) [
        | none ↦ shipped_about
        | some path ↦
            if column.sealed && str_eq column.about ""
            then feed_field_about column.key path
            else shipped_about
      ]);
    }

-- The body of the loop of DeclareShippedSources: the column, and whether its sources were rewritten.
unfoldable pub declare_column :
    Tables.Table String String → Tables.Table CellKey Cell → Column → Result (Column × Bool)
unfolding intended_sources has_cell_outside described check_source_list
declare_column tied cells column = elim (intended_sources column tied) [
  | none ↦ ok (described tied column, false)
  | some wanted ↦
      if has_cell_outside column.id wanted cells
      then ok (described tied column, false)
      else check_source_list wanted
        >> ok (record (described tied column) { sources = wanted }, true)
]

unfoldable pub declare_columns :
    Tables.Table String String → Tables.Table CellKey Cell → List Column → Result (List Column × ℕ)
unfolding declare_column
declare_columns tied cells [] = ok ([], 0)
declare_columns tied cells (c ∷ cs) = do
  declared ← declare_column tied cells c
  rest ← declare_columns tied cells cs
  ok (declared.0 ∷ rest.0, if declared.1 then suc rest.1 else rest.1)

-- DeclareShippedSources: how many columns were rewritten, and the catalog after it.
unfoldable pub declare_shipped_sources : Tables.Table String String → Db → Result (ℕ × Db)
unfolding declare_columns
declare_shipped_sources tied db = do
  declared ← declare_columns tied db.cells db.columns
  ok (declared.1, record db { columns = declared.0 })
