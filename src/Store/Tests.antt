-- ===== src/Store/Tests.antt =====
-- Runs of internal/store at concrete inputs: a catalog of two columns and one model.
use models_db.Prelude.{
  String, ◌≡◌, ◌≢◌, ◌↔◌, refl, true, false, ◌&&◌, ◌||◌, none, some, [], ◌∷◌, arith, if◌then◌else◌,
  str_eq, eq_iff, contains, subst, string_eq,
}
use models_db.Prelude.Table.{Table, lookup, put, remove, remove_where}
use models_db.Prelude.Text.{
  trim_space, trim_left, trim_right, is_space, codes, codes_eqb, lower_codes, str_ltb,
}
use models_db.Shared.Number.{
  Decimal, Floats, whole, parse_number, parse_codes, read_decimal, take_digits, take_sign,
  take_fraction, take_exponent, is_digit, is_finite, two_decimals,
}
use models_db.Store.Source.{
  Source, open_router, hugging_face, research, hand, app, parse_source, source_eqb, kind,
  kind_is_fetched, source_eq,
}
use models_db.Store.Schema.{
  Column, Model, CellKey, cell_key_eqb_iff, cell_key_eqb, cell_key_eq, Cell, figure, null, Db,
  ValueType, Resolve, Result, ok, err, after, find_column, column_by_key, model_must_exist,
  stamp_rows, stamp_model_written,
}
use models_db.Store.Cells.{
  option_position, flag_key, sort_key_of, write_one_cell, each_key, insert_key, sorted_keys,
  value_at, has_no_name, valid_source, write_key, write_cells,
}
use models_db.Store.Cells.Effect.{at, stored, has_key, HasDistinctIds}
use models_db.Store.Cells.Invariant.{HasModel, IsSound, IsWellFormed, stamped_row}
use models_db.Store.Cells.Writes.{
  IsWritable, write_cells-accepts_iff, write_cells-writes, write_cells-IsWellFormed,
}
use models_db.Store.Columns.{check_source_list}
use models_db.Store.Columns.Sources.{IsDeclarable, check_source_list_iff}
use models_db.Store.Own.{
  check_own_key, every_value_its_column_will_hold, plain_i, two_decimal_stem, rounded_for_storage,
  rounded_cells, automatic_from, source_for_own_write, write_own_key, own_cells,
}
use models_db.Store.Own.Rule.{own_source, IsOwnWritable}
use models_db.Store.Own.Saves.{own_cells-accepts_iff, own_cells-writes, own_cells-IsWellFormed}
use models_db.Store.Own.Shown.{own_cells-shown}
use models_db.Store.Own.Checked.{own_cells-every_value_its_column_will_hold}
use models_db.Store.Reads.{held, answer_row, first_cell}
use models_db.Store.Reads.Answers.{answer_row_iff}

program : Unit {0}
unfolding trim_space trim_left trim_right is_space codes codes_eqb lower_codes str_ltb lookup put
    remove remove_where parse_number parse_codes read_decimal take_digits take_sign take_fraction
    take_exponent is_digit is_finite two_decimals parse_source source_eqb kind kind_is_fetched
    cell_key_eqb after find_column column_by_key model_must_exist stamp_rows stamp_model_written
    option_position flag_key sort_key_of write_one_cell each_key insert_key sorted_keys value_at
    has_no_name valid_source write_key write_cells plain_i two_decimal_stem rounded_for_storage
    rounded_cells automatic_from source_for_own_write write_own_key own_cells own_source contains
    answer_row first_cell
program = tt

abbrev context : Column
context = record {
  id = 1;
  key = "context_length";
  label = "Context";
  value_type = ValueType.number;
  resolve = Resolve.first_stated;
  unit = "tokens";
  about = "";
  position = 1;
  visible = true;
  sealed = false;
  created_at = "2026-01-01T00:00:00Z";
  options = [];
  sources = open_router ∷ hugging_face ∷ research ∷ [];
  colors = none;
}

abbrev notes : Column
notes = record context {
  id = 2;
  key = "notes";
  label = "Notes";
  value_type = ValueType.text;
  sources = hand ∷ [];
}

abbrev license : Column
license = record notes {
  id = 3;
  key = "license";
  label = "License";
  sources = open_router ∷ research ∷ [];
}

abbrev model : Model
model = record { source = "openrouter"; variant_of = ""; updated_at = "old"; hidden = false }

abbrev tokens : Cell
tokens = record { value_text = "8192"; value_number = figure (whole 8192); written_at = "old" }

abbrev held_key : CellKey
held_key = record { column = 1; model = "a/b"; source = open_router }

-- OpenRouter states the context length.
abbrev db : Db
db = record {
  models = ("a/b", model) ∷ [];
  columns = context ∷ notes ∷ license ∷ [];
  cells = (held_key, tokens) ∷ [];
  records = [];
  next_id = 4;
}

abbrev fl : Floats
fl = record {
  Float = Decimal;
  nearest = λ d. d;
  hundred = whole 100;
  times = λ a b. a;
  over = λ a b. a;
  round = λ a. a;
  is_zero = λ a. false;
  zero = whole 0;
  format = λ a. "0";
}

db-HasDistinctIds : HasDistinctIds db.columns
unfolding find_column
db-HasDistinctIds k j c d hc hd e = ground (
  arith,
  eq_iff "context_length" k,
  eq_iff "context_length" j,
  eq_iff "notes" k,
  eq_iff "notes" j,
  eq_iff "license" k,
  eq_iff "license" j,
)

tokens-IsSound : IsSound db held_key tokens
unfolding program
tokens-IsSound = record {
  key = "context_length";
  column = context;
  found = refl;
  id = refl;
  declared = refl;
  not_empty = refl;
  in_step = refl;
  model = (model, refl);
}

db_row :
    (j : CellKey) (cell : Cell) → lookup j db.cells ≡ some cell → (held_key ≡ j) × (tokens ≡ cell)
unfolding lookup
db_row j cell h = ground (arith, cell_key_eqb_iff held_key j)

db-IsWellFormed : IsWellFormed db
db-IsWellFormed = record {
  distinct = db-HasDistinctIds;
  cells = λ j cell h.
      let (e, f) = db_row j cell h in
      subst (λ c. IsSound db j c) f (subst (λ k. IsSound db k tokens) e tokens-IsSound);
}

-- A clear of the context length and a license.
abbrev fetched : Table String String
fetched = ("license", " mit ") ∷ ("context_length", " ") ∷ []

abbrev after_fetch : Db
after_fetch = record db {
  models = ("a/b", record model { updated_at = "now" }) ∷ [];
  cells =
      (
        record { column = 3; model = "a/b"; source = open_router },
        record { value_text = "mit"; value_number = null; written_at = "now" },
      )
      ∷ [];
}

test_fetch : write_cells "now" "openrouter" "a/b" fetched db ≡ ok after_fetch
unfolding program
test_fetch = refl

write_cells-accepts_iff_example :
    ((db' : Db) × (write_cells "now" "openrouter" "a/b" fetched db ≡ ok db')) ↔ (
      (src : Source) × (parse_source "openrouter" ≡ some src)
      × (has_no_name "a/b" ≡ false)
      × HasModel "a/b" db
      × ((k : String)
          → has_key k fetched ≡ true
          → IsWritable src db.columns k (value_at k fetched)))
write_cells-accepts_iff_example = write_cells-accepts_iff "now" "openrouter" "a/b" fetched db

write_cells-writes_example :
    ((k : String) (c : Column)
      → find_column k db.columns ≡ some c
      → at c open_router "a/b" after_fetch ≡ (
          if has_key k fetched
          then stored c (value_at k fetched) "now"
          else at c open_router "a/b" db))
    × ((j : CellKey)
        → str_eq j.model "a/b" && source_eqb j.source open_router ≡ false
        → lookup j after_fetch.cells ≡ lookup j db.cells)
    × (after_fetch.columns ≡ db.columns)
    × (after_fetch.records ≡ db.records)
    × ((n : String) → lookup n after_fetch.models ≡ stamped_row "a/b" "now" n (lookup n db.models))
unfolding program
write_cells-writes_example =
    write_cells-writes "now" "openrouter" "a/b" fetched db db-IsWellFormed open_router refl
      after_fetch test_fetch

write_cells-IsWellFormed_example :
    IsWellFormed (after (write_cells "now" "openrouter" "a/b" fetched db) db)
write_cells-IsWellFormed_example =
    write_cells-IsWellFormed "now" "openrouter" "a/b" fetched db db-IsWellFormed

-- A note of the reader's, and a license found by research.
abbrev typed : Table String String
typed = ("notes", "try it") ∷ ("license", "mit") ∷ []

abbrev license_cell : Cell
license_cell = record { value_text = "mit"; value_number = null; written_at = "now" }

abbrev after_save : Db
after_save = record db {
  models = ("a/b", record model { updated_at = "now" }) ∷ [];
  cells =
      (held_key, tokens)
      ∷ (record { column = 3; model = "a/b"; source = research }, license_cell)
      ∷ (
        record { column = 2; model = "a/b"; source = hand },
        record license_cell { value_text = "try it" },
      )
      ∷ [];
}

test_save : own_cells fl "now" "a/b" typed db ≡ ok after_save
unfolding program
test_save = refl

-- A context length, which OpenRouter has stated, is refused.
test_refused :
    own_cells fl "now" "a/b" (("context_length", "4096") ∷ []) db
    ≡ err (models_db.Store.Schema.not_writable "context_length" (some (open_router, "8192")))
unfolding program
test_refused = refl

own_cells-accepts_iff_example : ((db' : Db) × (own_cells fl "now" "a/b" typed db ≡ ok db')) ↔ (
    HasModel "a/b" db
    × ((k : String) → has_key k typed ≡ true → IsOwnWritable "a/b" (rounded_cells fl typed) db k))
own_cells-accepts_iff_example = own_cells-accepts_iff fl "now" "a/b" typed db

own_cells-writes_example :
    ((k : String) (c : Column)
      → find_column k db.columns ≡ some c
      → at c (own_source c) "a/b" after_save ≡ (
          if has_key k typed
          then stored c (rounded_for_storage fl k (value_at k typed)) "now"
          else at c (own_source c) "a/b" db))
    × ((j : CellKey)
        → str_eq j.model "a/b" && (source_eqb j.source research || source_eqb j.source hand) ≡ false
        → lookup j after_save.cells ≡ lookup j db.cells)
    × (after_save.columns ≡ db.columns)
    × (after_save.records ≡ db.records)
    × ((n : String) → lookup n after_save.models ≡ stamped_row "a/b" "now" n (lookup n db.models))
own_cells-writes_example =
    own_cells-writes fl "now" "a/b" typed db db-IsWellFormed after_save test_save

own_cells-IsWellFormed_example : IsWellFormed (after (own_cells fl "now" "a/b" typed db) db)
own_cells-IsWellFormed_example = own_cells-IsWellFormed fl "now" "a/b" typed db db-IsWellFormed

license-IsDeclarable : IsDeclarable license.sources
license-IsDeclarable = (check_source_list_iff license.sources).0 (
    unfold check_source_list models_db.Store.Columns.check_sources_from contains source_eqb in refl)

own_cells-shown_example :
    (cell : Cell) × (stored license
        (rounded_for_storage fl "license" (value_at "license" typed))
        "now"
      ≡ some cell)
    × (answer_row license "a/b" (own_source license) after_save ≡ some cell)
    × ((s : Source) → s ≢ own_source license → answer_row license "a/b" s after_save ≡ none)
unfolding program
own_cells-shown_example =
    own_cells-shown fl "now" "a/b" typed db after_save db-IsWellFormed test_save "license" license
      refl license-IsDeclarable refl refl

context_declared : (s : Source) → held context "a/b" s db ≡ true → contains context.sources s ≡ true
unfolding lookup cell_key_eqb contains source_eqb
context_declared open_router h = refl
context_declared hugging_face h = refl
context_declared research h = refl
context_declared hand h = cc
context_declared app h = cc

answer_row_iff_example :
    (answer_row context "a/b" open_router db ≡ some tokens)
    ↔ (first_cell context.sources context "a/b" db ≡ some (open_router, tokens))
answer_row_iff_example = answer_row_iff context "a/b" db context_declared open_router tokens

test_checked : every_value_its_column_will_hold fl "c/d" typed db ≡ ok db
unfolding program check_own_key every_value_its_column_will_hold
test_checked = refl

own_cells-every_value_its_column_will_hold_example :
    (saved : Db) × (own_cells fl "now" "c/d" typed
        (record db { models = put "c/d" model db.models })
      ≡ ok saved)
own_cells-every_value_its_column_will_hold_example =
    own_cells-every_value_its_column_will_hold fl "now" "c/d" typed model db test_checked
