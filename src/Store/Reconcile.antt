-- ===== src/Store/Reconcile.antt =====
-- internal/store/reconcile.go: a model that OpenRouter has renamed keeps its row, or its rows become one.
pub mod Rekey
pub mod Merge
pub mod Texts
pub mod Answers
use models_db.Prelude.{
  String, Bool, true, false, ◌&&◌, ◌||◌, not, Option, none, some, List, [], ◌∷◌, leb, length, any,
  keep, if◌then◌else◌, str_eq, nat_eqb, string_eq, contains,
}
use models_db.Prelude.Table.{Table, lookup, put, remove, remove_where}
use models_db.Prelude.Text.{trim_space, str_ltb}
use models_db.Store.Source.{Source, open_router, hand, app, source_eqb}
use models_db.Store.Schema.{
  Column, Model, CellKey, Cell, RecordKey, cell_key_eq, record_key_eq, Db, Error, Result, ok, err,
  ◌>>=◌, ◌>>◌, guard, find_column, model_exists, invalid_request,
}
use models_db.Store.Cells.{cell_key, each_key, insert_key, has_no_name}
use models_db.Store.Variations.{set_row}
use models_db.Store.Reconcile.Rekey.{rekey, cell_of_model, record_of_model}

-- upstreamIDColumns[0] and AddedColumnKey
abbrev pub upstream_id_column : String
upstream_id_column = "id"

abbrev pub added_column_key : String
added_column_key = "added"

-- Reconciliation: `renamed` is empty when no row was renamed.
pub record Reconciliation : Type 0 where
  pub renamed : String
  pub merged : List String

-- reconcilePlan
pub record Plan : Type 0 where
  pub rename : String
  pub merge : List String

abbrev pub no_plan : Plan
no_plan = record { rename = ""; merge = [] }

-- reconcilePlan.empty
abbrev pub is_empty : Plan → Bool
is_empty p = str_eq p.rename "" && leb (length p.merge) 0

abbrev pub text_at : Column → Source → String → Db → Option String
text_at c src name db = elim (lookup (cell_key c src name) db.cells) [
  | none ↦ none
  | some x ↦ some x.value_text
]

abbrev holds_id : String → String → Db → Bool
holds_id id name db = elim (find_column upstream_id_column db.columns) [
  | none ↦ false
  | some c ↦ elim (text_at c open_router name db) [ none ↦ false | some t ↦ str_eq t id ]
]

-- The rows of OpenRouter's that hold the id, in the order of their names.
unfoldable pub holders_in : String → Db → Table String Model → List String
holders_in id db [] = []
holders_in id db ((n, m) ∷ t) =
    let rest = holders_in id db t in
    if str_eq m.source "openrouter" && holds_id id n db then insert_key n rest else rest

-- The reader's answers in a column, over some models.
unfoldable pub hand_texts : Column → List String → Db → List String
hand_texts c [] db = []
hand_texts c (n ∷ ns) db =
    let rest = hand_texts c ns db in elim (text_at c hand n db) [ none ↦ rest | some t ↦ t ∷ rest ]

-- COUNT(DISTINCT ...) > 1
unfoldable pub differ : List String → Bool
differ [] = false
differ (t ∷ ts) = any (λ u. not (str_eq u t)) ts

unfoldable pub hand_conflict : List String → Db → Bool
unfolding hand_texts differ
hand_conflict names db = any (λ c. differ (hand_texts c names db)) db.columns

-- planReconcile
unfoldable pub plan_reconcile : String → String → Db → Plan
unfolding holders_in hand_conflict
plan_reconcile id name db =
    let holders = holders_in id db db.models in
    let others = keep (λ h. not (str_eq h name)) holders in
    if leb (length others) 0 then no_plan else elim (lookup name db.models) [
      | none ↦ elim others [ old ∷ [] ↦ record { rename = old; merge = [] } | _ ↦ no_plan ]
      | some bearer ↦
          if not (str_eq bearer.source "openrouter")
          then no_plan
          else if not (contains holders name)
          then no_plan
          else if hand_conflict holders db
          then no_plan
          else record { rename = ""; merge = others }
    ]

-- UPDATE models SET variant_of=? WHERE variant_of=?
unfoldable pub move_variations : String → String → Table String Model → Table String Model
move_variations old next [] = []
move_variations old next ((n, m) ∷ t) =
    (n, if str_eq m.variant_of old then record m { variant_of = next } else m)
    ∷ move_variations old next t

-- DELETE FROM models WHERE name=?, with its cascade.
unfoldable pub delete_row : String → Db → Db
delete_row name db = record db {
  models = remove name db.models;
  cells = remove_where (λ j. str_eq j.model name) db.cells;
  records = remove_where (λ j. str_eq j.model name) db.records;
}

-- Whether a row moved to `next` would meet one that is there.
unfoldable pub cells_meet : String → String → Db → Bool
cells_meet old next db =
    any
      (λ (k, _).
        str_eq k.model old
        && (elim (lookup (record k { model = next }) db.cells) [ none ↦ false | some _ ↦ true ]))
      db.cells

unfoldable pub records_meet : String → String → Db → Bool
records_meet old next db =
    any
      (λ (k, _).
        str_eq k.model old
        && (elim (lookup (record k { model = next }) db.records) [ none ↦ false | some _ ↦ true ]))
      db.records

-- renameRow: the primary keys refuse a name, a cell and a record that are there.
unfoldable pub rename_row : String → String → String → Db → Result Db
rename_row stamp old next db = do
  models ← elim (lookup old db.models) [
    | none ↦ ok db.models
    | some m ↦ elim (lookup next db.models) [
      | some _ ↦ err (model_exists next)
      | none ↦ ok (put next (record m { updated_at = stamp }) db.models)
    ]
  ]
  guard (not (cells_meet old next db)) (invalid_request "UNIQUE constraint failed")
  guard (not (records_meet old next db)) (invalid_request "UNIQUE constraint failed")
  ok (
      delete_row old (record db {
        models = move_variations old next models;
        cells = rekey old next (λ _. true) db.cells;
        records = rekey old next (λ _. true) db.records;
      }))

-- mergeRowInto, "keep the older added date".
unfoldable pub older_added : String → String → Db → Table CellKey Cell
older_added stale survivor db = elim (find_column added_column_key db.columns) [
  | none ↦ db.cells
  | some c ↦ elim (lookup (cell_key c app survivor) db.cells) [
    | none ↦ db.cells
    | some kept ↦ elim (lookup (cell_key c app stale) db.cells) [
      | none ↦ db.cells
      | some other ↦
          if str_ltb other.value_text kept.value_text
          then put (cell_key c app survivor) (record kept { value_text = other.value_text })
              db.cells
          else db.cells
    ]
  ]
]

-- Whether a row of the stale model moves: it is not OpenRouter's, and the survivor has none there.
abbrev pub cell_moves : String → Table CellKey Cell → CellKey → Bool
cell_moves survivor cells k =
    not (source_eqb k.source open_router)
    && (elim (lookup (record k { model = survivor }) cells) [ none ↦ true | some _ ↦ false ])

abbrev pub record_moves : String → Table RecordKey String → RecordKey → Bool
record_moves survivor records k =
    not (source_eqb k.source open_router)
    && (elim (lookup (record k { model = survivor }) records) [ none ↦ true | some _ ↦ false ])

-- mergeRowInto. The stale row is there, since the plan has read it.
unfoldable pub merge_row_into : String → String → String → Db → Db
unfolding older_added
merge_row_into stamp survivor stale db =
    let cells = older_added stale survivor db in
    let stale_hidden : Bool = elim (lookup stale db.models) [ none ↦ true | some m ↦ m.hidden ] in
    delete_row stale (record db {
      models = move_variations stale survivor (
          set_row survivor (λ m. record m { hidden = m.hidden && stale_hidden; updated_at = stamp })
            db.models);
      cells = rekey stale survivor (cell_moves survivor cells) cells;
      records = rekey stale survivor (record_moves survivor db.records) db.records;
    })

unfoldable pub merge_all : String → String → List String → Db → Db
merge_all stamp survivor [] db = db
merge_all stamp survivor (stale ∷ rest) db =
    merge_all stamp survivor rest (merge_row_into stamp survivor stale db)

-- foreignKeysHold, of the tables that name a model.
unfoldable pub foreign_keys_hold : Db → Bool
foreign_keys_hold db =
    let there : String → Bool = λ n. elim (lookup n db.models) [ none ↦ false | some _ ↦ true ] in
    not (any (λ (k, _). not (there k.model)) db.cells)
    && not (any (λ (k, _). not (there k.model)) db.records)

-- ReconcileRenamedModel. `snapshot` is what `beforeFirstChange` answers; a caller without one has
-- `ok tt`.
unfoldable pub reconcile_renamed_model :
    String → Result (Unit {0}) → String → String → Db → Result (Reconciliation × Db)
unfolding plan_reconcile rename_row merge_all merge_row_into
reconcile_renamed_model stamp snapshot id_text name db =
    let id = trim_space id_text in
    let plan = plan_reconcile id name db in
    if str_eq id "" || has_no_name name || is_empty plan
    then ok (record { renamed = ""; merged = [] }, db)
    else do
      snapshot
      renamed ← if str_eq plan.rename "" then ok db else rename_row stamp plan.rename name db
      let merged = merge_all stamp name plan.merge renamed
      guard (foreign_keys_hold merged) (invalid_request "the change left rows pointing at no model")
      ok (record { renamed = plan.rename; merged = plan.merge }, merged)
