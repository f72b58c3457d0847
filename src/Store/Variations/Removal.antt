-- ===== src/Store/Variations/Removal.antt =====
-- internal/store/removal.go, DeleteModelPermanently: what is accepted and what is left.
use models_db.Prelude.{
  String, ◌≡◌, ◌≢◌, ◌↔◌, false, none, some, arith, if◌then◌else◌, str_eq, eq_iff, string_eq, inl,
  inr, Bool-cases,
}
use models_db.Prelude.Table.{lookup, remove, remove_where, lookup-remove, lookup-remove_where}
use models_db.Store.Schema.{
  Model, CellKey, Cell, RecordKey, cell_key_eq, record_key_eq, Db, ok, Result-cases, after,
}
use models_db.Store.Cells.Invariant.{IsSound, IsWellFormed}
use models_db.Store.Variations.{delete_model_permanently}

-- What an accepted deletion leaves.
record Deleted (name : String) (db db' : Db) : Type 0 where
  named : str_eq name "" ≡ false
  row : Model
  held : lookup name db.models ≡ some row
  not_fetched : str_eq row.source "openrouter" ≡ false
  models : db'.models ≡ remove name db.models
  cells : db'.cells ≡ remove_where (λ j. str_eq j.model name) db.cells
  records : db'.records ≡ remove_where (λ j. str_eq j.model name) db.records
  columns : db'.columns ≡ db.columns

delete_inv :
    (name : String) (db : Db) {db' : Db}
    → delete_model_permanently name db ≡ ok db'
    → Deleted name db db'
unfolding delete_model_permanently
delete_inv name db h = ground arith

-- A deletion is accepted exactly when the name is not empty, the model is there, and its row was not
-- created by OpenRouter.
pub delete_model_permanently-accepts_iff :
    (name : String) (db : Db)
    → ((db' : Db) × (delete_model_permanently name db ≡ ok db'))
      ↔ ((name ≢ "") × ((m : Model) × (lookup name db.models ≡ some m) × (m.source ≢ "openrouter")))
delete_model_permanently-accepts_iff name db = (
  λ (db', h).
      let w = delete_inv name db h in
      (
        ground (arith, eq_iff name "", w.named),
        (w.row, w.held, ground (arith, eq_iff w.row.source "openrouter", w.not_fetched)),
      ),
  λ (named, (m, held, other)).
      unfold delete_model_permanently in
      elim (Result-cases (delete_model_permanently name db)) [
        | inl (e, refused) ↦ absurd (ground (arith, eq_iff name "", eq_iff m.source "openrouter"))
        | inr done ↦ done
      ],
)

-- An accepted deletion leaves no row, cell and source record of the model, every row, cell and source
-- record of every other one as it was, the variations of the model among them, and the columns.
pub delete_model_permanently-removes :
    (name : String) (db db' : Db)
    → delete_model_permanently name db ≡ ok db'
    → ((n : String) → lookup n db'.models ≡ (if str_eq n name then none else lookup n db.models))
      × ((j : CellKey)
          → lookup j db'.cells ≡ (if str_eq j.model name then none else lookup j db.cells))
      × ((j : RecordKey)
          → lookup j db'.records ≡ (if str_eq j.model name then none else lookup j db.records))
      × (db'.columns ≡ db.columns)
delete_model_permanently-removes name db db' h =
    let w = delete_inv name db h in
    (
      λ n. ground (arith, w.models, lookup-remove name n db.models),
      λ j. ground (arith, w.cells, lookup-remove_where (λ i. str_eq i.model name) j db.cells),
      λ j. ground (arith, w.records, lookup-remove_where (λ i. str_eq i.model name) j db.records),
      w.columns,
    )

IsSound-after :
    (name : String) (db db' : Db) (j : CellKey) (cell : Cell)
    → Deleted name db db'
    → str_eq j.model name ≡ false
    → IsSound db j cell
    → IsSound db' j cell
IsSound-after name db db' j cell w other s = record {
  key = s.key;
  column = s.column;
  found = rw w.columns s.found;
  id = s.id;
  declared = s.declared;
  not_empty = s.not_empty;
  in_step = s.in_step;
  model = (s.model.0, ground (arith, w.models, lookup-remove name j.model db.models, s.model.1));
}

-- A deletion, accepted or refused, keeps the catalog well formed: no cell is left of a model that is
-- not there.
pub delete_model_permanently-IsWellFormed :
    (name : String) (db : Db)
    → IsWellFormed db
    → IsWellFormed (after (delete_model_permanently name db) db)
unfolding after
delete_model_permanently-IsWellFormed name db well =
    elim (Result-cases (delete_model_permanently name db)) [
      | inl (e, refused) ↦ rw refused well
      | inr (db', done) ↦
          let w = delete_inv name db done in
          rw done (record {
            distinct = rw w.columns well.distinct;
            cells = λ j cell h.
                let law = lookup-remove_where (λ i. str_eq i.model name) j db.cells in
                elim (Bool-cases (str_eq j.model name)) [
                  | inl gone ↦ absurd (ground (arith, w.cells, law))
                  | inr other ↦
                      IsSound-after name db db' j cell w other
                        (well.cells j cell (ground (arith, w.cells, law)))
                ];
          })
    ]
