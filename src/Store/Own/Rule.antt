-- ===== src/Store/Own/Rule.antt =====
-- internal/store/savecells.go: one key of a save, and the rule that decides its source.
use models_db.Prelude.{
  String, ◌≡◌, ◌↔◌, ◌⊎◌, inl, inr, refl, true, false, none, some, List, [], ◌∷◌, arith,
  if◌then◌else◌, str_eq, string_eq, contains, Bool-cases,
}
use models_db.Prelude.Table.{Table}
use models_db.Prelude.Text.{trim_space}
use models_db.Store.Source.{
  Source, open_router, hugging_face, research, hand, kind_is_fetched, source_eq, source_eqb,
  source_eqb_iff,
}
use models_db.Store.Schema.{
  Column, cell_key_eq, cell_key_eqb_iff, Db, Result-cases, ok, find_column, column_by_key,
}
use models_db.Store.Cells.{cell_key, value_at}
use models_db.Store.Cells.Effect.{OneWrite, OneWrite-SameFrame, lookup-write_one_cell}
use models_db.Store.Cells.Writes.{Takes, write_one_cell_of_Takes, Takes-of_write_one_cell}
use models_db.Store.Own.{automatic_from, automatic_answer, source_for_own_write, write_own_key}

-- The one source a save may write a column as.
unfoldable pub own_source : Column → Source
own_source c = if contains c.sources hand then hand else research

-- When the rule accepts a value for a column of a model.
abbrev pub MayWrite : Column → String → String → Db → Type 0
MayWrite c name value db =
    (contains c.sources hand ≡ true)
    ⊎ ((contains c.sources research ≡ true)
        × ((str_eq (trim_space value) "" ≡ true) ⊎ (automatic_answer c name db ≡ none)))

pub source_for_own_write_inv :
    (c : Column) (name value : String) (db : Db) {src : Source}
    → source_for_own_write c name value db ≡ ok src
    → (src ≡ own_source c) × (contains c.sources (own_source c) ≡ true) × MayWrite c name value db
unfolding source_for_own_write own_source
source_for_own_write_inv c name value db h = ground arith

pub source_for_own_write_lem :
    (c : Column) (name value : String) (db : Db)
    → MayWrite c name value db
    → source_for_own_write c name value db ≡ ok (own_source c)
unfolding source_for_own_write own_source
source_for_own_write_lem c name value db h = ground arith

-- An own write is never an automatic source's cell.
pub own_source-not_fetched :
    (src : Source) (c : Column) → kind_is_fetched src ≡ true → source_eqb src (own_source c) ≡ false
unfolding own_source kind_is_fetched
own_source-not_fetched open_router c h = ground (arith, source_eqb_iff open_router (own_source c))
own_source-not_fetched hugging_face c h = ground (arith, source_eqb_iff hugging_face (own_source c))
own_source-not_fetched _ c h = cc

-- A key that a save may write, with the value it carries.
pub record IsOwnWritable (name : String) (values : Table String String) (db : Db) (key : String)
    : Type 0 where
  pub column : Column
  pub found : find_column key db.columns ≡ some column
  pub may : MayWrite column name (value_at key values) db
  pub takes : Takes column (value_at key values)

module _ (stamp name : String) (values : Table String String) where
  pub write_own_key_inv :
      (key : String) (db db' : Db)
      → write_own_key stamp name values key db ≡ ok db'
      → (w : OneWrite own_source stamp name values key db db') × MayWrite w.column name
          (value_at key values)
          db
  unfolding write_own_key column_by_key
  write_own_key_inv key db db' h = elim (Result-cases (column_by_key key db)) [
    | inl (e, none_found) ↦ absurd (ground arith)
    | inr (c, found) ↦ elim (Result-cases (source_for_own_write c name (value_at key values) db)) [
      | inl (e, refused) ↦ absurd (ground arith)
      | inr (src, ruled) ↦
          let r = source_for_own_write_inv c name (value_at key values) db ruled in
          (
            record {
              column = c;
              found = ground arith;
              declared = r.1;
              wrote = ground (arith, r.0);
            },
            r.2,
          )
    ]
  ]

  pub own_step :
      (key : String) (db db' : Db)
      → write_own_key stamp name values key db ≡ ok db'
      → OneWrite own_source stamp name values key db db'
  own_step key db db' h = (write_own_key_inv key db db' h).0

  -- What an automatic source holds is as it was.
  pub automatic_from-OneWrite :
      (key : String) (db mid : Db)
      → OneWrite own_source stamp name values key db mid
      → (sources : List Source) (c : Column) (n : String)
      → automatic_from sources c n mid ≡ automatic_from sources c n db
  unfolding automatic_from
  automatic_from-OneWrite key db mid w [] c n = refl
  automatic_from-OneWrite key db mid w (src ∷ rest) c n =
      let d = w.column in
      let j = cell_key c src n in
      elim (Bool-cases (kind_is_fetched src)) [
        | inl fetched ↦ ground (
          arith,
          automatic_from-OneWrite key db mid w rest c n,
          own_source-not_fetched src d fetched,
          source_eqb_iff src (own_source d),
          cell_key_eqb_iff j (cell_key d (own_source d) name),
          lookup-write_one_cell d (own_source d) name (value_at key values) stamp db j w.wrote,
        )
        | inr typed ↦ ground (arith, automatic_from-OneWrite key db mid w rest c n)
      ]

  pub write_own_key_iff :
      (key : String) (db : Db)
      → ((db' : Db) × (write_own_key stamp name values key db ≡ ok db'))
        ↔ IsOwnWritable name values db key
  unfolding write_own_key column_by_key
  write_own_key_iff key db = (
    λ (db', h).
        let (w, may) = write_own_key_inv key db db' h in
        record {
          column = w.column;
          found = w.found;
          may = may;
          takes =
              Takes-of_write_one_cell w.column (own_source w.column) name (value_at key values)
                stamp db w.wrote;
        },
    λ w.
        let (db', h) =
          write_one_cell_of_Takes w.column (own_source w.column) name (value_at key values) stamp db
            w.takes in
        (
          db',
          ground (
            arith,
            w.found,
            source_for_own_write_lem w.column name (value_at key values) db w.may,
          ),
        ),
  )

  -- One write changes for no key whether it may be written.
  pub own_stable :
      (key k : String) (db mid : Db)
      → write_own_key stamp name values key db ≡ ok mid
      → IsOwnWritable name values mid k ↔ IsOwnWritable name values db k
  own_stable key k db mid h =
      let w = own_step key db mid h in
      let frame = OneWrite-SameFrame w in
      (
        λ o. record {
          column = o.column;
          found = ground (arith, frame.columns, o.found);
          may =
              ground
                (arith, automatic_from-OneWrite key db mid w o.column.sources o.column name, o.may);
          takes = o.takes;
        },
        λ o. record {
          column = o.column;
          found = ground (arith, frame.columns, o.found);
          may =
              ground
                (arith, automatic_from-OneWrite key db mid w o.column.sources o.column name, o.may);
          takes = o.takes;
        },
      )
