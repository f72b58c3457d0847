-- ===== src/Store/Cells/Effect.antt =====
-- What one write changes, and what a loop of writes changes.
use models_db.Prelude.{
  String, ◌≡◌, refl, ◌∙◌, Bool, true, false, ◌&&◌, ◌||◌, Option, none, some, List, [], ◌∷◌, arith,
  if◌then◌else◌, str_eq, eq_iff, string_eq, contains,
}
use models_db.Prelude.Table.{Table, lookup, lookup-put, lookup-remove}
use models_db.Prelude.Text.{trim_space}
use models_db.Store.Source.{Source, source_eq, source_eqb, source_eqb_iff}
use models_db.Store.Schema.{
  Column, CellKey, cell_key_eq, cell_key_eqb, cell_key_eqb_iff, Cell, Db, Result, ok, err,
  find_column,
}
use models_db.Store.Cells.{
  cell_key, sort_key_for, write_one_cell, each_key, insert_key, sorted_keys, value_at,
}

-- What a value written into a column leaves stored: nothing for a blank one, else the trimmed text
-- with its sort key.
abbrev pub stored : Column → String → String → Option Cell
stored column value stamp =
    if str_eq (trim_space value) "" then none else elim (sort_key_for column (trim_space value)) [
      | err _ ↦ none
      | ok k ↦ some (record { value_text = trim_space value; value_number = k; written_at = stamp })
    ]

-- Everything but the cells is as it was.
pub record SameFrame (db db' : Db) : Type 0 where
  pub models : db'.models ≡ db.models
  pub columns : db'.columns ≡ db.columns
  pub records : db'.records ≡ db.records
  pub next_id : db'.next_id ≡ db.next_id

pub SameFrame-trans : {a b c : Db} → SameFrame a b → SameFrame b c → SameFrame a c
SameFrame-trans h k = record {
  models = k.models ∙ h.models;
  columns = k.columns ∙ h.columns;
  records = k.records ∙ h.records;
  next_id = k.next_id ∙ h.next_id;
}

module _ (column : Column) (src : Source) (name value stamp : String) (db : Db) where
  pub write_one_cell-SameFrame :
      {db' : Db} → write_one_cell column src name value stamp db ≡ ok db' → SameFrame db db'
  unfolding write_one_cell
  write_one_cell-SameFrame h = ground arith

  pub lookup-write_one_cell :
      (j : CellKey) {db' : Db}
      → write_one_cell column src name value stamp db ≡ ok db'
      → lookup j db'.cells ≡ (
          if cell_key_eqb j (cell_key column src name)
          then stored column value stamp
          else lookup j db.cells)
  unfolding write_one_cell
  lookup-write_one_cell j h = grind (arith, lookup-put, lookup-remove)

-- No two columns share an id (INTEGER PRIMARY KEY).
abbrev pub HasDistinctIds : List Column → Type 0
HasDistinctIds cs =
    (k j : String) (c d : Column)
    → find_column k cs ≡ some c
    → find_column j cs ≡ some d
    → c.id ≡ d.id
    → k ≡ j

abbrev pub at : Column → Source → String → Db → Option Cell
at column src name db = lookup (cell_key column src name) db.cells

-- A cell of another model, or of a source that is not the written one, is not the written cell.
pub cell_key_eqb_ne :
    (j : CellKey) (c : Column) (src : Source) (name : String)
    → str_eq j.model name && source_eqb j.source src ≡ false
    → cell_key_eqb j (cell_key c src name) ≡ false
cell_key_eqb_ne j c src name h = ground (
  arith,
  cell_key_eqb_iff j (cell_key c src name),
  eq_iff j.model name,
  source_eqb_iff j.source src,
)

-- One key of a call that writes each key's value as the source that `src_of` gives its column: the
-- column is found, declares the source, and its cell is written.
pub record OneWrite (src_of : Column → Source) (stamp name : String) (values : Table String String)
    (key : String) (db db' : Db) : Type 0 where
  pub column : Column
  pub found : find_column key db.columns ≡ some column
  pub declared : contains column.sources (src_of column) ≡ true
  pub wrote : write_one_cell column (src_of column) name (value_at key values) stamp db ≡ ok db'

module _ {src_of : Column → Source} {stamp name : String} {values : Table String String}
    {key : String} {db db' : Db} (w : OneWrite src_of stamp name values key db db') where
  pub OneWrite-SameFrame : SameFrame db db'
  OneWrite-SameFrame =
      write_one_cell-SameFrame w.column (src_of w.column) name (value_at key values) stamp db
        w.wrote

  -- What the write does to the cell of a column.
  pub at-OneWrite :
      (k : String) (c : Column)
      → HasDistinctIds db.columns
      → find_column k db.columns ≡ some c
      → at c (src_of c) name db'
        ≡ (if str_eq key k then stored c (value_at k values) stamp else at c (src_of c) name db)
  at-OneWrite k c distinct found =
      let d = w.column in
      let j = cell_key c (src_of c) name in
      ground (
        arith,
        eq_iff key k,
        w.found,
        lookup-write_one_cell d (src_of d) name (value_at key values) stamp db j w.wrote,
        cell_key_eqb_iff j (cell_key d (src_of d) name),
        distinct key k d c w.found found,
      )

  -- A cell that no column's write reaches is as it was.
  pub lookup-OneWrite_ne :
      (j : CellKey)
      → ((c : Column) → cell_key_eqb j (cell_key c (src_of c) name) ≡ false)
      → lookup j db'.cells ≡ lookup j db.cells
  lookup-OneWrite_ne j other =
      let d = w.column in
      ground (
        arith,
        other d,
        lookup-write_one_cell d (src_of d) name (value_at key values) stamp db j w.wrote,
      )

pub each_key_cons :
    (step : String → Db → Result Db) (key : String) (ks : List String) (db : Db) {db' : Db}
    → each_key step (key ∷ ks) db ≡ ok db'
    → (mid : Db) × (step key db ≡ ok mid) × (each_key step ks mid ≡ ok db')
unfolding each_key
each_key_cons step key ks db h = ground arith

-- A loop whose every step is such a write.
module _ (src_of : Column → Source) (stamp name : String) (values : Table String String)
    (step : String → Db → Result Db)
    (inv : (key : String) (db db' : Db)
      → step key db ≡ ok db'
      → OneWrite src_of stamp name values key db db') where
  pub each_key-SameFrame :
      (ks : List String) (db db' : Db) → each_key step ks db ≡ ok db' → SameFrame db db'
  unfolding each_key
  each_key-SameFrame [] db db' h = ground arith
  each_key-SameFrame (key ∷ ks) db db' h =
      let (mid, one, rest) = each_key_cons step key ks db h in
      SameFrame-trans (OneWrite-SameFrame (inv key db mid one)) (each_key-SameFrame ks mid db' rest)

  pub at-each_key :
      (ks : List String) (k : String) (c : Column) (db db' : Db)
      → HasDistinctIds db.columns
      → find_column k db.columns ≡ some c
      → each_key step ks db ≡ ok db'
      → at c (src_of c) name db'
        ≡ (if contains ks k then stored c (value_at k values) stamp else at c (src_of c) name db)
  unfolding each_key contains
  at-each_key [] k c db db' distinct found h = ground arith
  at-each_key (key ∷ ks) k c db db' distinct found h =
      let (mid, one, rest) = each_key_cons step key ks db h in
      let w = inv key db mid one in
      let frame = OneWrite-SameFrame w in
      ground (
        arith,
        at-OneWrite w k c distinct found,
        at-each_key ks k c mid db' (rw frame.columns distinct) (rw frame.columns found) rest,
      )

  pub lookup-each_key_ne :
      (ks : List String) (j : CellKey) (db db' : Db)
      → ((c : Column) → cell_key_eqb j (cell_key c (src_of c) name) ≡ false)
      → each_key step ks db ≡ ok db'
      → lookup j db'.cells ≡ lookup j db.cells
  unfolding each_key
  lookup-each_key_ne [] j db db' other h = ground arith
  lookup-each_key_ne (key ∷ ks) j db db' other h =
      let (mid, one, rest) = each_key_cons step key ks db h in
      lookup-each_key_ne ks j mid db' other rest ∙ lookup-OneWrite_ne (inv key db mid one) j other

-- A key is written exactly when the map has it.
contains-insert_key :
    (k j : String) (ks : List String) → contains (insert_key k ks) j ≡ (str_eq k j || contains ks j)
unfolding insert_key contains
contains-insert_key k j [] = refl
contains-insert_key k j (i ∷ ks) =
    ground (arith, eq_iff k i, eq_iff k j, eq_iff i j, contains-insert_key k j ks)

abbrev pub has_key : String → Table String String → Bool
has_key k values = elim (lookup k values) [ none ↦ false | some _ ↦ true ]

pub contains-sorted_keys :
    (k : String) (values : Table String String) → contains (sorted_keys values) k ≡ has_key k values
unfolding sorted_keys contains lookup
contains-sorted_keys k [] = refl
contains-sorted_keys k ((j, v) ∷ values) =
    ground (arith, contains-insert_key j k (sorted_keys values), contains-sorted_keys k values)
