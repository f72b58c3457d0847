-- ===== src/Store/RowTests.antt =====
-- Runs of internal/store/variations.go, removal.go and reconcile.go at concrete inputs: a catalog in
-- which OpenRouter has listed one model under two names.
use models_db.Prelude.{
  String, ◌≡◌, ◌≢◌, ◌↔◌, refl, true, false, none, some, [], ◌∷◌, arith, if◌then◌else◌, str_eq,
  eq_iff, contains, inl, inr, ◌⊎◌, string_eq, subst, keep,
}
use models_db.Prelude.Table.{lookup, put, remove, remove_where}
use models_db.Prelude.Text.{trim_space, trim_left, trim_right, is_space, str_ltb}
use models_db.Store.Source.{Source, open_router, hand, source_eqb}
use models_db.Store.Schema.{
  Column, Model, CellKey, RecordKey, Cell, cell_key_eq, cell_key_eqb, cell_key_eqb_iff,
  record_key_eq, null, Db, ValueType, Resolve, ok, after, find_column,
}
use models_db.Store.Cells.{sort_key_of, has_no_name, insert_key}
use models_db.Store.Cells.Effect.{HasDistinctIds}
use models_db.Store.Cells.Invariant.{IsSound, IsWellFormed}
use models_db.Store.Variations.{
  set_row, variant_of, children, variations_of, file_as_variation, unfile_variation,
  delete_model_permanently,
}
use models_db.Store.Variations.Depth.{
  IsOneLevel, filed, here, step, Reached-IsOneLevel, file_as_variation-accepts_iff,
}
use models_db.Store.Variations.Removal.{
  delete_model_permanently-removes, delete_model_permanently-IsWellFormed,
}
use models_db.Store.Reconcile.{
  text_at, holders_in, hand_texts, differ, hand_conflict, plan_reconcile, older_added,
  move_variations, delete_row, merge_row_into, merge_all, foreign_keys_hold,
  reconcile_renamed_model,
}
use models_db.Store.Reconcile.Rekey.{rekey, cell_of_model, record_of_model}
use models_db.Store.Reconcile.Merge.{
  merged_row, merge_row_into_rows, merge_row_into_files_under_itself,
}
use models_db.Store.Reconcile.Answers.{now_at, reconcile_renamed_model-keeps_answers}

program : Unit {0}
unfolding trim_space trim_left trim_right is_space str_ltb lookup put remove remove_where source_eqb
    cell_key_eqb after find_column sort_key_of has_no_name insert_key set_row variant_of children
    variations_of file_as_variation unfile_variation delete_model_permanently holders_in hand_texts
    differ hand_conflict plan_reconcile older_added move_variations delete_row merge_row_into
    merge_all foreign_keys_hold reconcile_renamed_model rekey now_at contains keep
program = tt

abbrev id_column : Column
id_column = record {
  id = 1;
  key = "id";
  label = "OpenRouter id";
  value_type = ValueType.text;
  resolve = Resolve.first_stated;
  unit = "";
  about = "";
  position = 1;
  visible = true;
  sealed = true;
  created_at = "";
  options = [];
  sources = open_router ∷ [];
  colors = none;
}

abbrev notes : Column
notes = record id_column {
  id = 2;
  key = "notes";
  label = "Notes";
  sources = hand ∷ [];
  sealed = false;
}

abbrev listed : Model
listed = record { source = "openrouter"; variant_of = ""; updated_at = "old"; hidden = false }

abbrev text_cell : String → Cell
text_cell t = record { value_text = t; value_number = null; written_at = "old" }

abbrev key_at : Column → String → Source → CellKey
key_at c name src = record { column = c.id; model = name; source = src }

abbrev db : Db
db = record {
  models =
      ("New", record listed { variant_of = "Old" })
      ∷ ("Old", listed)
      ∷ ("Mine", record listed { source = "manual" })
      ∷ [];
  columns = id_column ∷ notes ∷ [];
  cells =
      (key_at id_column "New" open_router, text_cell "x/1")
      ∷ (key_at id_column "Old" open_router, text_cell "x/1")
      ∷ (key_at notes "Old" hand, text_cell "good")
      ∷ [];
  records = [];
  next_id = 3;
}

db-HasDistinctIds : HasDistinctIds db.columns
unfolding find_column
db-HasDistinctIds k j c d hc hd e =
    ground (arith, eq_iff "id" k, eq_iff "id" j, eq_iff "notes" k, eq_iff "notes" j)

abbrev HeldAs : (name key : String) (c : Column) (src : Source) → String → Type 0
HeldAs name key c src t = IsSound db (key_at c name src) (text_cell t)

new_id-IsSound : HeldAs "New" "id" id_column open_router "x/1"
unfolding program
new_id-IsSound = record {
  key = "id";
  column = id_column;
  found = refl;
  id = refl;
  declared = refl;
  not_empty = refl;
  in_step = refl;
  model = (record listed { variant_of = "Old" }, refl);
}

old_id-IsSound : HeldAs "Old" "id" id_column open_router "x/1"
unfolding program
old_id-IsSound = record {
  key = "id";
  column = id_column;
  found = refl;
  id = refl;
  declared = refl;
  not_empty = refl;
  in_step = refl;
  model = (listed, refl);
}

old_notes-IsSound : HeldAs "Old" "notes" notes hand "good"
unfolding program
old_notes-IsSound = record {
  key = "notes";
  column = notes;
  found = refl;
  id = refl;
  declared = refl;
  not_empty = refl;
  in_step = refl;
  model = (listed, refl);
}

db_rows :
    (j : CellKey) (cell : Cell)
    → lookup j db.cells ≡ some cell
    → ((key_at id_column "New" open_router ≡ j) × (text_cell "x/1" ≡ cell))
      ⊎ ((key_at id_column "Old" open_router ≡ j) × (text_cell "x/1" ≡ cell))
      ⊎ ((key_at notes "Old" hand ≡ j) × (text_cell "good" ≡ cell))
unfolding lookup
db_rows j cell h = ground (
  arith,
  cell_key_eqb_iff (key_at id_column "New" open_router) j,
  cell_key_eqb_iff (key_at id_column "Old" open_router) j,
  cell_key_eqb_iff (key_at notes "Old" hand) j,
)

IsSound-at : {i j : CellKey} {a b : Cell} → IsSound db i a → i ≡ j → a ≡ b → IsSound db j b
IsSound-at {i} {j} {a} {b} s e f = subst (λ c. IsSound db j c) f (subst (λ k. IsSound db k a) e s)

db-IsWellFormed : IsWellFormed db
db-IsWellFormed = record {
  distinct = db-HasDistinctIds;
  cells = λ j cell h. elim (db_rows j cell h) [
    | inl (e, f) ↦ IsSound-at new_id-IsSound e f
    | inr (inl (e, f)) ↦ IsSound-at old_id-IsSound e f
    | inr (inr (e, f)) ↦ IsSound-at old_notes-IsSound e f
  ];
}

-- The row "Old" is merged into "New", which OpenRouter lists now.
abbrev merged_db : Db
merged_db = merge_row_into "now" "New" "Old" db

test_merge :
    reconcile_renamed_model "now" (ok tt) "x/1" "New" db
    ≡ ok (record { renamed = ""; merged = "Old" ∷ [] }, merged_db)
unfolding program
test_merge = refl

test_note_kept : text_at notes hand "New" merged_db ≡ some "good"
unfolding program
test_note_kept = refl

reconcile_renamed_model-keeps_answers_example :
    text_at notes hand (now_at (record { renamed = ""; merged = "Old" ∷ [] }) "New" "Old") merged_db
    ≡ some "good"
unfolding program
reconcile_renamed_model-keeps_answers_example =
    reconcile_renamed_model-keeps_answers "now" (ok tt) "x/1" "New" db db-IsWellFormed
      (record { renamed = ""; merged = "Old" ∷ [] }) merged_db test_merge "notes" notes refl "Old"
      "good" refl

merge_row_into_rows_example : lookup "New" merged_db.models ≡ (
    if str_eq "New" "Old" then none else elim (lookup "New" db.models) [
      | none ↦ none
      | some m ↦ some (merged_row "now" "New" "Old" false "New" m)
    ])
unfolding program
merge_row_into_rows_example = merge_row_into_rows "now" "New" "Old" db refl listed refl "New"

merge_row_into_files_under_itself_example :
    (m' : Model) × (lookup "New" merged_db.models ≡ some m') × (m'.variant_of ≡ "New")
unfolding program
merge_row_into_files_under_itself_example =
    merge_row_into_files_under_itself "now" "New" "Old" db refl listed
      (record listed { variant_of = "Old" }) refl refl refl

file_as_variation-accepts_iff_example :
    ((db' : Db) × (file_as_variation "now" "Mine" "Old" db ≡ ok db')) ↔ (
      (str_eq (trim_space "Mine") "" ≡ false)
      × (str_eq (trim_space "Old") "" ≡ false)
      × (◌≢◌ {A = String} "Mine" "Old")
      × ((m : Model) × (lookup "Mine" db.models ≡ some m))
      × ((p : Model) × (lookup "Old" db.models ≡ some p) × (trim_space p.variant_of ≡ ""))
      × (variations_of "Mine" db ≡ []))
file_as_variation-accepts_iff_example = file_as_variation-accepts_iff "now" "Mine" "Old" db

abbrev filed_db : Db
filed_db = record db {
  models =
      ("New", record listed { variant_of = "Old" })
      ∷ ("Old", listed)
      ∷ (
        "Mine",
        record { source = "manual"; variant_of = "Old"; updated_at = "now"; hidden = true },
      )
      ∷ [];
}

test_file : file_as_variation "now" "Mine" "Old" db ≡ ok filed_db
unfolding program
test_file = refl

test_blank : str_eq (trim_space "") "" ≡ true
unfolding program
test_blank = refl

db-IsOneLevel : IsOneLevel db.models
unfolding lookup
db-IsOneLevel n k m x hm hx below under e = ground (
  arith,
  test_blank,
  eq_iff "Old" "New",
  eq_iff "New" n,
  eq_iff "Old" n,
  eq_iff "Mine" n,
  eq_iff "New" k,
  eq_iff "Old" k,
  eq_iff "Mine" k,
)

Reached-IsOneLevel_example : IsOneLevel filed_db.models
Reached-IsOneLevel_example =
    Reached-IsOneLevel (step here (filed "now" "Mine" "Old" test_file)) db-IsOneLevel

abbrev without_mine : Db
without_mine = record db {
  models = ("New", record listed { variant_of = "Old" }) ∷ ("Old", listed) ∷ [];
}

test_delete : delete_model_permanently "Mine" db ≡ ok without_mine
unfolding program
test_delete = refl

delete_model_permanently-removes_example :
    ((n : String)
      → lookup n without_mine.models ≡ (if str_eq n "Mine" then none else lookup n db.models))
    × ((j : CellKey)
        → lookup j without_mine.cells ≡ (if str_eq j.model "Mine" then none else lookup j db.cells))
    × ((j : RecordKey)
        → lookup j without_mine.records
          ≡ (if str_eq j.model "Mine" then none else lookup j db.records))
    × (without_mine.columns ≡ db.columns)
delete_model_permanently-removes_example =
    delete_model_permanently-removes "Mine" db without_mine test_delete

delete_model_permanently-IsWellFormed_example :
    IsWellFormed (after (delete_model_permanently "Mine" db) db)
delete_model_permanently-IsWellFormed_example =
    delete_model_permanently-IsWellFormed "Mine" db db-IsWellFormed
