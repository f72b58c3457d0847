-- ===== src/Store/Cells/Writes.antt =====
-- internal/store/cells.go, WriteCells: the calls it accepts, what one leaves, and the invariant.
use models_db.Prelude.{
  String, ◌≡◌, ◌↔◌, true, false, ◌&&◌, ◌⊎◌, inl, inr, some, List, arith, if◌then◌else◌, str_eq,
  string_eq, contains, sym, subst, ◌∙◌,
}
use models_db.Prelude.Table.{Table, lookup}
use models_db.Prelude.Text.{trim_space}
use models_db.Store.Source.{Source, source_eq, source_eqb, parse_source}
use models_db.Store.Schema.{
  Result-cases, Column, CellKey, cell_key_eq, Db, Result, ok, find_column, column_by_key,
  model_must_exist, stamp_model_written, after,
}
use models_db.Store.Cells.{
  sort_key_for, write_one_cell, each_key, sorted_keys, value_at, write_key, write_cells,
  has_no_name, valid_source,
}
use models_db.Store.Cells.Accept.{each_key-accepts_iff}
use models_db.Store.Cells.Effect.{
  stored, at, has_key, OneWrite, OneWrite-SameFrame, each_key-SameFrame, at-each_key,
  lookup-each_key_ne, cell_key_eqb_ne, contains-sorted_keys,
}
use models_db.Store.Cells.Invariant.{
  IsWellFormed, HasModel, each_key-IsWellFormed, stamp_model_written-IsWellFormed,
  lookup-stamp_rows, stamped_row,
}

-- One key: its column is found and declares the source, and its cell holds the value.
write_key_inv :
    (stamp : String) (src : Source) (name : String) (values : Table String String) (key : String)
    (db db' : Db)
    → write_key stamp src name values key db ≡ ok db'
    → OneWrite (λ _. src) stamp name values key db db'
unfolding write_key column_by_key
write_key_inv stamp src name values key db db' h = ground arith

abbrev writes : String → Source → String → Table String String → List String → Db → Result Db
writes stamp src name values = each_key (write_key stamp src name values)

-- An accepted call: the checks it passed, and the writes before the row was stamped.
record Accepted (stamp source_text name : String) (values : Table String String) (db db' : Db)
    : Type 0 where
  src : Source
  valid : parse_source source_text ≡ some src
  named : has_no_name name ≡ false
  model : HasModel name db
  mid : Db
  wrote : writes stamp src name values (sorted_keys values) db ≡ ok mid
  stamped : stamp_model_written name stamp mid ≡ db'

write_cells_inv :
    (stamp source_text name : String) (values : Table String String) (db : Db) {db' : Db}
    → write_cells stamp source_text name values db ≡ ok db'
    → Accepted stamp source_text name values db db'
unfolding write_cells valid_source model_must_exist
write_cells_inv stamp source_text name values db {db'} h = ground arith

-- A value a column takes: a blank one, which clears the cell, or one with a sort key.
abbrev pub Takes : Column → String → Type 0
Takes c value =
    (str_eq (trim_space value) "" ≡ true) ⊎ ((k : _) × (sort_key_for c (trim_space value) ≡ ok k))

-- A key that `src` may write with that value.
pub record IsWritable (src : Source) (cs : List Column) (key value : String) : Type 0 where
  pub column : Column
  pub found : find_column key cs ≡ some column
  pub declared : contains column.sources src ≡ true
  pub takes : Takes column value

pub write_one_cell_of_Takes :
    (c : Column) (src : Source) (name value stamp : String) (db : Db)
    → Takes c value
    → (db' : Db) × (write_one_cell c src name value stamp db ≡ ok db')
unfolding write_one_cell
write_one_cell_of_Takes c src name value stamp db t =
    elim (Result-cases (write_one_cell c src name value stamp db)) [
      | inl (e, refused) ↦ absurd (ground arith)
      | inr written ↦ written
    ]

pub Takes-of_write_one_cell :
    (c : Column) (src : Source) (name value stamp : String) (db : Db) {db' : Db}
    → write_one_cell c src name value stamp db ≡ ok db'
    → Takes c value
unfolding write_one_cell
Takes-of_write_one_cell c src name value stamp db h = ground arith

write_key_iff :
    (stamp : String) (src : Source) (name : String) (values : Table String String) (key : String)
    (db : Db)
    → ((db' : Db) × (write_key stamp src name values key db ≡ ok db'))
      ↔ IsWritable src db.columns key (value_at key values)
unfolding write_key column_by_key
write_key_iff stamp src name values key db = (
  λ (db', h).
      let w = write_key_inv stamp src name values key db db' h in
      record {
        column = w.column;
        found = w.found;
        declared = w.declared;
        takes = Takes-of_write_one_cell w.column src name (value_at key values) stamp db w.wrote;
      },
  λ w.
      let (db', h) =
        write_one_cell_of_Takes w.column src name (value_at key values) stamp db w.takes in
      (db', ground (arith, w.found, w.declared)),
)

writes_iff :
    (stamp : String) (src : Source) (name : String) (values : Table String String)
    (ks : List String) (db : Db)
    → ((db' : Db) × (writes stamp src name values ks db ≡ ok db'))
      ↔ ((k : String) → contains ks k ≡ true → IsWritable src db.columns k (value_at k values))
writes_iff stamp src name values =
    each_key-accepts_iff (write_key stamp src name values)
      (λ db k. IsWritable src db.columns k (value_at k values))
      (write_key_iff stamp src name values)
      λ key k db mid one.
        let e = (OneWrite-SameFrame (write_key_inv stamp src name values key db mid one)).columns in
        let at = λ (cs : List Column). IsWritable src cs k (value_at k values) in
        (subst at e, subst at (sym e))

-- `WriteCells` accepts a call exactly when the source is one of the known ones, the name is not
-- blank and names a model, and every key of the map names a column that declares the source and
-- takes the value sent for it.
pub write_cells-accepts_iff :
    (stamp source_text name : String) (values : Table String String) (db : Db)
    → ((db' : Db) × (write_cells stamp source_text name values db ≡ ok db')) ↔ (
        (src : Source) × (parse_source source_text ≡ some src)
        × (has_no_name name ≡ false)
        × HasModel name db
        × ((k : String)
            → has_key k values ≡ true
            → IsWritable src db.columns k (value_at k values)))
unfolding write_cells valid_source model_must_exist
write_cells-accepts_iff stamp source_text name values db = (
  λ (db', h).
      let a = write_cells_inv stamp source_text name values db h in
      (
        a.src,
        a.valid,
        a.named,
        a.model,
        λ k c.
            (writes_iff stamp a.src name values (sorted_keys values) db).0 (a.mid, a.wrote) k
              (contains-sorted_keys k values ∙ c),
      ),
  λ (src, valid, named, (m, held), all).
      let (mid, wrote) =
        (writes_iff stamp src name values (sorted_keys values) db).1
          (λ k c. all k (sym (contains-sorted_keys k values) ∙ c)) in
      (stamp_model_written name stamp mid, ground arith),
)

-- On a well-formed catalog an accepted call leaves, in the source's cell of every column whose key
-- the map has, the trimmed value with its sort key and the time of the call, or no cell for a blank
-- value; every other cell, the columns and the source records are as they were, and of the models
-- only the time of the named row changes.
pub write_cells-writes :
    (stamp source_text name : String) (values : Table String String) (db : Db)
    → IsWellFormed db
    → (src : Source) → parse_source source_text ≡ some src
    → (db' : Db) → write_cells stamp source_text name values db ≡ ok db'
    → ((k : String) (c : Column)
        → find_column k db.columns ≡ some c
        → at c src name db'
          ≡ (if has_key k values then stored c (value_at k values) stamp else at c src name db))
      × ((j : CellKey)
          → str_eq j.model name && source_eqb j.source src ≡ false
          → lookup j db'.cells ≡ lookup j db.cells)
      × (db'.columns ≡ db.columns)
      × (db'.records ≡ db.records)
      × ((n : String) → lookup n db'.models ≡ stamped_row name stamp n (lookup n db.models))
unfolding stamp_model_written
write_cells-writes stamp source_text name values db well src valid db' h =
    let a = write_cells_inv stamp source_text name values db h in
    let e : a.src ≡ src = ground arith in
    let wrote : writes stamp src name values (sorted_keys values) db ≡ ok a.mid =
      subst (λ s. writes stamp s name values (sorted_keys values) db ≡ ok a.mid) e a.wrote in
    let step = write_key stamp src name values in
    let inv = write_key_inv stamp src name values in
    let ks = sorted_keys values in
    let frame = each_key-SameFrame (λ _. src) stamp name values step inv ks db a.mid wrote in
    (
      λ k c found. ground (
        arith,
        a.stamped,
        at-each_key (λ _. src) stamp name values step inv ks k c db a.mid well.distinct found wrote,
        contains-sorted_keys k values,
      ),
      λ j other. ground (
        arith,
        a.stamped,
        lookup-each_key_ne (λ _. src) stamp name values step inv ks j db a.mid
            (λ c. cell_key_eqb_ne j c src name other) wrote,
      ),
      ground (arith, a.stamped, frame.columns),
      ground (arith, a.stamped, frame.records),
      λ n. ground (arith, a.stamped, frame.models, lookup-stamp_rows name stamp n a.mid.models),
    )

-- After a call, accepted or refused, the catalog is well formed if it was: every cell stands on a
-- column and a model that are there, its source is one the column declares, its text is not empty
-- and its sort key is that of its text.
pub write_cells-IsWellFormed :
    (stamp source_text name : String) (values : Table String String) (db : Db)
    → IsWellFormed db
    → IsWellFormed (after (write_cells stamp source_text name values db) db)
unfolding after
write_cells-IsWellFormed stamp source_text name values db well =
    elim (Result-cases (write_cells stamp source_text name values db)) [
      | inl (e, refused) ↦ rw refused well
      | inr (db', done) ↦
          let a = write_cells_inv stamp source_text name values db done in
          rw done (
            subst IsWellFormed a.stamped (
              stamp_model_written-IsWellFormed name stamp a.mid (
                each_key-IsWellFormed (λ _. a.src) stamp name values
                  (write_key stamp a.src name values) (write_key_inv stamp a.src name values)
                  (sorted_keys values) db a.mid a.model a.wrote well)))
    ]
