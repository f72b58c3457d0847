-- ===== src/Store/Cells/Invariant.antt =====
-- The invariant of the stored cells, and a single write under it.
use models_db.Prelude.{
  String, ◌≡◌, refl, true, false, Option, none, some, List, [], ◌∷◌, arith, if◌then◌else◌, str_eq,
  eq_iff, string_eq, contains, Bool-cases, ap, sym, subst, ◌∙◌, inl, inr,
}
use models_db.Prelude.Table.{Table, lookup}
use models_db.Store.Source.{Source, source_eq}
use models_db.Store.Schema.{
  Column, Model, CellKey, cell_key_eq, cell_key_eqb, cell_key_eqb_iff, Cell, Db, Result, ok,
  find_column, stamp_rows, stamp_model_written,
}
use models_db.Store.Cells.{cell_key, sort_key_for, write_one_cell, value_at, each_key}
use models_db.Store.Cells.Effect.{
  stored, SameFrame, HasDistinctIds, write_one_cell-SameFrame, lookup-write_one_cell, OneWrite,
  OneWrite-SameFrame, each_key_cons,
}

abbrev pub HasModel : String → Db → Type 0
HasModel name db = (m : Model) × (lookup name db.models ≡ some m)

-- A stored cell stands on a column and a model that are there, was stated by a source its column
-- declares, is not empty, and carries the sort key of its text.
pub record IsSound (db : Db) (j : CellKey) (cell : Cell) : Type 0 where
  pub key : String
  pub column : Column
  pub found : find_column key db.columns ≡ some column
  pub id : column.id ≡ j.column
  pub declared : contains column.sources j.source ≡ true
  pub not_empty : str_eq cell.value_text "" ≡ false
  pub in_step : sort_key_for column cell.value_text ≡ ok cell.value_number
  pub model : HasModel j.model db

pub record IsWellFormed (db : Db) : Type 0 where
  pub distinct : HasDistinctIds db.columns
  pub cells : (j : CellKey) (cell : Cell) → lookup j db.cells ≡ some cell → IsSound db j cell

-- What `stored` gives is not empty and carries its sort key.
stored_sound :
    (c : Column) (value stamp : String) (cell : Cell)
    → stored c value stamp ≡ some cell
    → (str_eq cell.value_text "" ≡ false) × (sort_key_for c cell.value_text ≡ ok cell.value_number)
stored_sound c value stamp cell h = ground arith

IsSound-SameFrame :
    {db db' : Db} {j : CellKey} {cell : Cell}
    → SameFrame db db'
    → IsSound db j cell
    → IsSound db' j cell
IsSound-SameFrame frame s = record {
  key = s.key;
  column = s.column;
  found = ap (find_column s.key) frame.columns ∙ s.found;
  id = s.id;
  declared = s.declared;
  not_empty = s.not_empty;
  in_step = s.in_step;
  model = (s.model.0, ap (lookup _) frame.models ∙ s.model.1);
}

pub write_one_cell-IsWellFormed :
    (key : String) (c : Column) (src : Source) (name value stamp : String) (db : Db) {db' : Db}
    → find_column key db.columns ≡ some c
    → contains c.sources src ≡ true
    → HasModel name db
    → write_one_cell c src name value stamp db ≡ ok db'
    → IsWellFormed db
    → IsWellFormed db'
write_one_cell-IsWellFormed key c src name value stamp db {db'} found declared model h well =
    let frame = write_one_cell-SameFrame c src name value stamp db h in
    record {
      distinct = subst HasDistinctIds (sym frame.columns) well.distinct;
      cells = λ j cell at.
          let law = lookup-write_one_cell c src name value stamp db j h in
          elim (Bool-cases (cell_key_eqb j (cell_key c src name))) [
            | inl here ↦
                let same = (cell_key_eqb_iff j (cell_key c src name)).0 here in
                let kept : stored c value stamp ≡ some cell = ground arith in
                let sound = stored_sound c value stamp cell kept in
                record {
                  key = key;
                  column = c;
                  found = ap (find_column key) frame.columns ∙ found;
                  id = ground arith;
                  declared = ground arith;
                  not_empty = sound.0;
                  in_step = sound.1;
                  model = (model.0, ground arith);
                }
            | inr other ↦ IsSound-SameFrame frame (well.cells j cell (ground arith))
          ];
    }

pub HasModel-SameFrame :
    (name : String) {db db' : Db} → SameFrame db db' → HasModel name db → HasModel name db'
HasModel-SameFrame name frame (m, e) = (m, ap (lookup name) frame.models ∙ e)

module _ (src_of : Column → Source) (stamp name : String) (values : Table String String)
    (step : String → Db → Result Db)
    (inv : (key : String) (db db' : Db)
      → step key db ≡ ok db'
      → OneWrite src_of stamp name values key db db') where
  pub each_key-IsWellFormed :
      (ks : List String) (db db' : Db)
      → HasModel name db
      → each_key step ks db ≡ ok db'
      → IsWellFormed db
      → IsWellFormed db'
  unfolding each_key
  each_key-IsWellFormed [] db db' model h well = subst IsWellFormed (ground arith) well
  each_key-IsWellFormed (key ∷ ks) db db' model h well =
      let (mid, one, rest) = each_key_cons step key ks db h in
      let w = inv key db mid one in
      each_key-IsWellFormed ks mid db' (HasModel-SameFrame name (OneWrite-SameFrame w) model) rest (
        write_one_cell-IsWellFormed key w.column (src_of w.column) name (value_at key values) stamp
          db w.found w.declared model w.wrote well)

-- A row after `name` was stamped.
abbrev pub stamped_row : String → String → String → Option Model → Option Model
stamped_row name stamp n none = none
stamped_row name stamp n (some m) =
    some (if str_eq n name then record m { updated_at = stamp } else m)

-- Stamping a row changes its time and nothing else.
pub lookup-stamp_rows :
    (name stamp n : String) (t : Table String Model)
    → lookup n (stamp_rows name stamp t) ≡ stamped_row name stamp n (lookup n t)
unfolding stamp_rows lookup
lookup-stamp_rows name stamp n [] = refl
lookup-stamp_rows name stamp n ((i, m) ∷ t) =
    ground (arith, eq_iff i n, eq_iff i name, eq_iff n name, lookup-stamp_rows name stamp n t)

HasModel-stamp_model_written :
    (n name stamp : String) (db : Db)
    → HasModel n db
    → HasModel n (stamp_model_written name stamp db)
unfolding stamp_model_written
HasModel-stamp_model_written n name stamp db (m, e) = (
  if str_eq n name then record m { updated_at = stamp } else m,
  ground (arith, lookup-stamp_rows name stamp n db.models),
)

pub stamp_model_written-IsWellFormed :
    (name stamp : String) (db : Db)
    → IsWellFormed db
    → IsWellFormed (stamp_model_written name stamp db)
unfolding stamp_model_written
stamp_model_written-IsWellFormed name stamp db well = record {
  distinct = well.distinct;
  cells = λ j cell at.
      let s = well.cells j cell at in
      record {
        key = s.key;
        column = s.column;
        found = s.found;
        id = s.id;
        declared = s.declared;
        not_empty = s.not_empty;
        in_step = s.in_step;
        model = HasModel-stamp_model_written j.model name stamp db s.model;
      };
}
