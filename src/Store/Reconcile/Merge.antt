-- ===== src/Store/Reconcile/Merge.antt =====
-- internal/store/reconcile.go, mergeRowInto: the rows and cells afterwards.
use models_db.Prelude.{
  String, ◌≡◌, refl, Bool, false, ◌&&◌, none, some, [], ◌∷◌, arith, if◌then◌else◌, str_eq, eq_iff,
  string_eq,
}
use models_db.Prelude.Table.{Table, lookup, lookup-put, lookup-remove, lookup-remove_where}
use models_db.Store.Source.{open_router, app, source_eqb, source_eqb_iff}
use models_db.Store.Schema.{Model, CellKey, cell_key_eq, record_key_eq, cell_key_eqb_iff, Db}
use models_db.Store.Variations.{set_row}
use models_db.Store.Variations.Depth.{lookup-set_row}
use models_db.Store.Reconcile.{older_added, cell_moves, move_variations, delete_row, merge_row_into}
use models_db.Store.Reconcile.Rekey.{rekey, lookup-rekey, cell_of_model, record_of_model}

-- Only the date a row was added is taken over, and no cell comes or goes.
pub older_added_other :
    (stale survivor : String) (db : Db) (j : CellKey)
    → source_eqb j.source app ≡ false
    → lookup j (older_added stale survivor db) ≡ lookup j db.cells
unfolding older_added
older_added_other stale survivor db j other =
    grind (arith, lookup-put, cell_key_eqb_iff, source_eqb_iff)

pub lookup-merged :
    (stamp survivor stale : String) (db : Db)
    → str_eq stale survivor ≡ false
    → (j : CellKey)
    → lookup j (merge_row_into stamp survivor stale db).cells ≡ (
        if str_eq j.model stale
        then none
        else if str_eq j.model survivor
        then elim (lookup j (older_added stale survivor db)) [
          | some v ↦ some v
          | none ↦
              if source_eqb j.source open_router
              then none
              else lookup (record j { model = stale }) (older_added stale survivor db)
        ]
        else lookup j (older_added stale survivor db))
unfolding merge_row_into delete_row
lookup-merged stamp survivor stale db other j =
    let cells = older_added stale survivor db in
    let law =
      lookup-rekey stale survivor (cell_moves survivor cells) cells other (λ k q m. ground arith)
        j in
    let gone =
      lookup-remove_where (λ (i : CellKey). str_eq i.model stale) j
        (rekey stale survivor (cell_moves survivor cells) cells) in
    ground (arith, law, gone, eq_iff j.model survivor, eq_iff j.model stale)

lookup-move_variations :
    (n old next : String) (t : Table String Model)
    → lookup n (move_variations old next t) ≡ (elim (lookup n t) [
      | none ↦ none
      | some m ↦ some (if str_eq m.variant_of old then record m { variant_of = next } else m)
    ])
unfolding move_variations lookup
lookup-move_variations n old next [] = refl
lookup-move_variations n old next ((k, m) ∷ t) =
    ground (arith, eq_iff k n, lookup-move_variations n old next t)

-- The row a merge leaves where it found `m`.
abbrev pub merged_row : String → String → String → Bool → String → Model → Model
merged_row stamp survivor stale stale_hidden n m =
    let settled =
      if str_eq n survivor
      then record m { hidden = m.hidden && stale_hidden; updated_at = stamp }
      else m in
    if str_eq m.variant_of stale then record settled { variant_of = survivor } else settled

-- Merging a row that is there into another removes it and keeps every other row. The survivor is
-- hidden afterwards exactly if both were, and carries the time of the merge; the rows that were filed
-- under the removed one are filed under the survivor, and nothing else of any row changes.
pub merge_row_into_rows :
    (stamp survivor stale : String) (db : Db)
    → str_eq stale survivor ≡ false
    → (gone : Model) → lookup stale db.models ≡ some gone
    → (n : String)
    → lookup n (merge_row_into stamp survivor stale db).models ≡ (
        if str_eq n stale then none else elim (lookup n db.models) [
          | none ↦ none
          | some m ↦ some (merged_row stamp survivor stale gone.hidden n m)
        ])
unfolding merge_row_into delete_row
merge_row_into_rows stamp survivor stale db other gone held n =
    let f = λ (m : Model). record m { hidden = m.hidden && gone.hidden; updated_at = stamp } in
    let t = set_row survivor f db.models in
    rw held (
      ground (
        arith,
        lookup-remove stale n (move_variations stale survivor t),
        lookup-move_variations n stale survivor t,
        lookup-set_row n survivor f db.models,
      ))

-- A survivor that was filed under the row merged into it is afterwards filed under itself.
pub merge_row_into_files_under_itself :
    (stamp survivor stale : String) (db : Db)
    → str_eq stale survivor ≡ false
    → (gone m : Model) → lookup stale db.models ≡ some gone
    → lookup survivor db.models ≡ some m
    → m.variant_of ≡ stale
    → (m' : Model) × (lookup survivor (merge_row_into stamp survivor stale db).models ≡ some m')
      × (m'.variant_of ≡ survivor)
merge_row_into_files_under_itself stamp survivor stale db other gone m held there filed = (
  merged_row stamp survivor stale gone.hidden survivor m,
  ground (
    arith,
    merge_row_into_rows stamp survivor stale db other gone held survivor,
    eq_iff survivor stale,
    eq_iff stale survivor,
  ),
  ground (arith, eq_iff m.variant_of stale),
)
