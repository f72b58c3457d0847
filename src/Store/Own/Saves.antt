-- ===== src/Store/Own/Saves.antt =====
-- internal/store/savecells.go, writeOwnCells: the requests it accepts, and what one leaves.
use models_db.Prelude.{
  String, ◌≡◌, ◌↔◌, inl, inr, refl, true, false, ◌&&◌, ◌||◌, none, some, [], ◌∷◌, arith,
  if◌then◌else◌, str_eq, eq_iff, string_eq, subst, sym, ◌∙◌,
}
use models_db.Prelude.Table.{Table, lookup}
use models_db.Shared.Number.{Floats}
use models_db.Store.Source.{research, hand, source_eq, source_eqb}
use models_db.Store.Schema.{
  Column, CellKey, cell_key_eq, Db, Result-cases, ok, after, find_column, model_must_exist,
  stamp_model_written,
}
use models_db.Store.Cells.{each_key, sorted_keys, value_at}
use models_db.Store.Cells.Accept.{each_key-accepts_iff}
use models_db.Store.Cells.Effect.{
  at, stored, has_key, each_key-SameFrame, at-each_key, lookup-each_key_ne, cell_key_eqb_ne,
  contains-sorted_keys,
}
use models_db.Store.Cells.Invariant.{
  IsWellFormed, HasModel, stamped_row, lookup-stamp_rows, each_key-IsWellFormed,
  stamp_model_written-IsWellFormed,
}
use models_db.Store.Own.{rounded_cells, rounded_for_storage, write_own_key, own_cells}
use models_db.Store.Own.Rule.{own_source, IsOwnWritable, write_own_key_iff, own_stable, own_step}

module _ (fl : Floats) where
  lookup-rounded_cells :
      (k : String) (cells : Table String String)
      → lookup k (rounded_cells fl cells)
        ≡ (elim (lookup k cells) [ none ↦ none | some v ↦ some (rounded_for_storage fl k v) ])
  unfolding rounded_cells lookup
  lookup-rounded_cells k [] = refl
  lookup-rounded_cells k ((j, v) ∷ cells) = ground (arith, eq_iff j k, lookup-rounded_cells k cells)

  has_key-rounded_cells :
      (k : String) (cells : Table String String)
      → has_key k (rounded_cells fl cells) ≡ has_key k cells
  has_key-rounded_cells k cells = ground (arith, lookup-rounded_cells k cells)

  -- The value a key is stored with.
  pub value_at-rounded_cells :
      (k : String) (cells : Table String String)
      → has_key k cells ≡ true
      → value_at k (rounded_cells fl cells) ≡ rounded_for_storage fl k (value_at k cells)
  unfolding value_at
  value_at-rounded_cells k cells h = ground (arith, lookup-rounded_cells k cells)

record Accepted (fl : Floats) (stamp name : String) (cells : Table String String) (db db' : Db)
    : Type 0 where
  model : HasModel name db
  mid : Db
  wrote :
      each_key
        (write_own_key stamp name (rounded_cells fl cells))
        (sorted_keys (rounded_cells fl cells))
        db
      ≡ ok mid
  stamped : stamp_model_written name stamp mid ≡ db'

own_cells_inv :
    (fl : Floats) (stamp name : String) (cells : Table String String) (db : Db) {db' : Db}
    → own_cells fl stamp name cells db ≡ ok db'
    → Accepted fl stamp name cells db db'
unfolding own_cells model_must_exist
own_cells_inv fl stamp name cells db h = ground arith

-- A save's transaction is accepted exactly when the model is there and every key of the request
-- names a column that takes its value, rounded where the column is, and that either is the reader's
-- own or may be filled by research, and then the value is blank or no automatic source of the
-- column has a cell for the model.
pub own_cells-accepts_iff :
    (fl : Floats) (stamp name : String) (cells : Table String String) (db : Db)
    → ((db' : Db) × (own_cells fl stamp name cells db ≡ ok db')) ↔ (
        HasModel name db
        × ((k : String)
            → has_key k cells ≡ true
            → IsOwnWritable name (rounded_cells fl cells) db k))
unfolding own_cells model_must_exist
own_cells-accepts_iff fl stamp name cells db =
    let values = rounded_cells fl cells in
    let iff =
      each_key-accepts_iff (write_own_key stamp name values) (IsOwnWritable name values)
        (write_own_key_iff stamp name values) (own_stable stamp name values) (sorted_keys values)
        db in
    let same = λ (k : String). contains-sorted_keys k values ∙ has_key-rounded_cells fl k cells in
    (
      λ (db', h).
          let a = own_cells_inv fl stamp name cells db h in
          (a.model, λ k c. iff.0 (a.mid, a.wrote) k (same k ∙ c)),
      λ ((m, held), all).
          let (mid, wrote) = iff.1 (λ k c. all k (sym (same k) ∙ c)) in
          (stamp_model_written name stamp mid, ground arith),
    )

-- On a well-formed catalog an accepted save leaves, for every column whose key the request has, the
-- value, rounded where the column is, in the reader's cell of a column of theirs and in the research
-- cell of any other. Every cell of another model, and every cell of the named one that neither
-- research nor the reader states, an automatic source's and the app's, is as it was; so are the
-- columns and the source records, and of the models only the time of the named row changes.
pub own_cells-writes :
    (fl : Floats) (stamp name : String) (cells : Table String String) (db : Db)
    → IsWellFormed db
    → (db' : Db) → own_cells fl stamp name cells db ≡ ok db'
    → ((k : String) (c : Column)
        → find_column k db.columns ≡ some c
        → at c (own_source c) name db' ≡ (
            if has_key k cells
            then stored c (rounded_for_storage fl k (value_at k cells)) stamp
            else at c (own_source c) name db))
      × ((j : CellKey)
          → str_eq j.model name && (source_eqb j.source research || source_eqb j.source hand)
            ≡ false
          → lookup j db'.cells ≡ lookup j db.cells)
      × (db'.columns ≡ db.columns)
      × (db'.records ≡ db.records)
      × ((n : String) → lookup n db'.models ≡ stamped_row name stamp n (lookup n db.models))
unfolding stamp_model_written own_source
own_cells-writes fl stamp name cells db well db' h =
    let a = own_cells_inv fl stamp name cells db h in
    let values = rounded_cells fl cells in
    let step = write_own_key stamp name values in
    let inv = own_step stamp name values in
    let ks = sorted_keys values in
    let frame = each_key-SameFrame own_source stamp name values step inv ks db a.mid a.wrote in
    (
      λ k c found. ground (
        arith,
        a.stamped,
        at-each_key own_source stamp name values step inv ks k c db a.mid well.distinct found
            a.wrote,
        contains-sorted_keys k values,
        has_key-rounded_cells fl k cells,
        value_at-rounded_cells fl k cells,
      ),
      λ j other. ground (
        arith,
        a.stamped,
        lookup-each_key_ne own_source stamp name values step inv ks j db a.mid
            (λ c. cell_key_eqb_ne j c (own_source c) name (ground arith)) a.wrote,
      ),
      ground (arith, a.stamped, frame.columns),
      ground (arith, a.stamped, frame.records),
      λ n. ground (arith, a.stamped, frame.models, lookup-stamp_rows name stamp n a.mid.models),
    )

-- After a save's transaction, accepted or refused, the catalog is well formed if it was.
pub own_cells-IsWellFormed :
    (fl : Floats) (stamp name : String) (cells : Table String String) (db : Db)
    → IsWellFormed db
    → IsWellFormed (after (own_cells fl stamp name cells db) db)
unfolding after
own_cells-IsWellFormed fl stamp name cells db well =
    elim (Result-cases (own_cells fl stamp name cells db)) [
      | inl (e, refused) ↦ rw refused well
      | inr (db', done) ↦
          let a = own_cells_inv fl stamp name cells db done in
          let values = rounded_cells fl cells in
          rw done (
            subst IsWellFormed a.stamped (
              stamp_model_written-IsWellFormed name stamp a.mid (
                each_key-IsWellFormed own_source stamp name values (write_own_key stamp name values)
                  (own_step stamp name values) (sorted_keys values) db a.mid a.model a.wrote well)))
    ]
