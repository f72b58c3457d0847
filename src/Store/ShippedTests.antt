-- ===== src/Store/ShippedTests.antt =====
-- Runs of internal/store/shipped.go: seeding an empty catalog and declaring its sources.
use models_db.Prelude.{
  ◌≡◌, refl, true, false, none, some, [], ◌∷◌, contains, length, ℕ, subst, arith, eq_iff, string_eq,
}
use models_db.Prelude.Table.{lookup}
use models_db.Prelude.Text.{
  trim_space, trim_left, trim_right, is_space, codes, codes_eqb, lower_codes,
}
use models_db.Shared.Number.{
  whole, parse_number, parse_codes, read_decimal, take_digits, take_sign, take_fraction,
  take_exponent, is_digit, is_finite,
}
use models_db.Store.Source.{
  source_eqb, open_router, hugging_face, research, app, parse_source, stored_name,
}
use models_db.Store.Schema.{
  Column, Model, CellKey, cell_key_eq, cell_key_eqb, cell_key_eqb_iff, Cell, figure, Db, ValueType,
  Resolve, ok, find_column,
}
use models_db.Store.Cells.{valid_source, sort_key_of}
use models_db.Store.Cells.Effect.{HasDistinctIds}
use models_db.Store.Cells.Invariant.{IsSound, IsWellFormed}
use models_db.Store.Shipped.Accepted.{declare_shipped_sources-accepts}
use models_db.Store.Columns.{
  parse_value_type, parse_resolve, has_dot, trimmed_options, has_repeat, clean_options,
  check_sources_from, check_source_list, valid_sources, same_label, key_or_label_taken,
  stored_colors, check_spec, create_column,
}
use models_db.Store.Colors.{
  check_color_rules, colors_empty, decimal_leb, column_takes_colors, is_hex_digit, all_hex,
  is_hex_color, check_color, only_these_fields, check_thresholds, check_option_colors,
  check_colors_of,
}
use models_db.Store.Shipped.{
  value_type_word, resolve_word, spec_of, seed_one_column, seed_from, seed_shipped_columns,
  ensure_shipped_columns, find_shipped, is_derived, column_kind, ColumnKind, feed_field_about,
  intended_sources, has_cell_outside, described, declare_column, declare_columns,
  declare_shipped_sources,
}
use models_db.Store.Shipped.Seeds.{Extends, ensure_shipped_columns-Extends}

program : Unit {0}
unfolding sort_key_of parse_number parse_codes read_decimal take_digits take_sign take_fraction
    take_exponent is_digit is_finite trim_space trim_left trim_right is_space codes codes_eqb
    lower_codes source_eqb parse_source stored_name cell_key_eqb find_column valid_source
    parse_value_type parse_resolve has_dot trimmed_options has_repeat clean_options
    check_sources_from check_source_list valid_sources same_label key_or_label_taken stored_colors
    check_spec create_column check_color_rules colors_empty decimal_leb column_takes_colors
    is_hex_digit all_hex is_hex_color check_color only_these_fields check_thresholds
    check_option_colors check_colors_of value_type_word resolve_word spec_of seed_one_column
    seed_from seed_shipped_columns ensure_shipped_columns find_shipped is_derived column_kind
    feed_field_about intended_sources has_cell_outside described declare_column declare_columns
    declare_shipped_sources contains lookup
program = tt

abbrev fresh : Db
fresh = record { models = []; columns = []; cells = []; records = []; next_id = 1 }

test_seeded : (seed_shipped_columns "now" fresh).error ≡ none
unfolding program
test_seeded = refl

test_created : length (seed_shipped_columns "now" fresh).created ≡ 56
unfolding program
test_created = refl

-- A second seeding, and a seeding before a write, find every column there.
abbrev seeded : Db
seeded = (seed_shipped_columns "now" fresh).db

test_seeded_again : (seed_shipped_columns "later" seeded).created ≡ []
unfolding program
test_seeded_again = refl

test_declared : declare_shipped_sources [] seeded ≡ ok (56, seeded)
unfolding program
test_declared = refl

-- A catalog from before the context length could be researched, with a cell of OpenRouter's.
abbrev context : Column
context = record {
  id = 1;
  key = "context_length";
  label = "Window";
  value_type = ValueType.number;
  resolve = Resolve.first_stated;
  unit = "tokens";
  about = "";
  position = 0;
  visible = true;
  sealed = true;
  created_at = "old";
  options = [];
  sources = open_router ∷ [];
  colors = none;
}

abbrev model : Model
model = record { source = "openrouter"; variant_of = ""; updated_at = "old"; hidden = false }

abbrev tokens : Cell
tokens = record { value_text = "8192"; value_number = figure (whole 8192); written_at = "old" }

abbrev held_key : CellKey
held_key = record { column = 1; model = "a/b"; source = open_router }

abbrev old : Db
old = record {
  models = ("a/b", model) ∷ [];
  columns = context ∷ [];
  cells = (held_key, tokens) ∷ [];
  records = [];
  next_id = 2;
}

old-HasDistinctIds : HasDistinctIds old.columns
unfolding find_column
old-HasDistinctIds k j c d hc hd e =
    ground (arith, eq_iff "context_length" k, eq_iff "context_length" j)

tokens-IsSound : IsSound old held_key tokens
unfolding program
tokens-IsSound = record {
  key = "context_length";
  column = context;
  found = refl;
  id = refl;
  declared = refl;
  not_empty = refl;
  in_step = refl;
  model = (model, refl);
}

old_row :
    (j : CellKey) (cell : Cell) → lookup j old.cells ≡ some cell → (held_key ≡ j) × (tokens ≡ cell)
unfolding lookup
old_row j cell h = ground (arith, cell_key_eqb_iff held_key j)

old-IsWellFormed : IsWellFormed old
old-IsWellFormed = record {
  distinct = old-HasDistinctIds;
  cells = λ j cell h.
      let (e, f) = old_row j cell h in
      subst (λ c. IsSound old j c) f (subst (λ k. IsSound old k tokens) e tokens-IsSound);
}

declare_shipped_sources-accepts_example :
    (n : ℕ) × (db' : Db) × (declare_shipped_sources [] old ≡ ok (n, db')) × IsWellFormed db'
declare_shipped_sources-accepts_example = declare_shipped_sources-accepts [] old old-IsWellFormed

-- What that declaration does to the column.
test_old :
    declare_shipped_sources [] old
    ≡ ok (
      1,
      record old {
        columns =
            record context {
              about = "How much context the model takes.";
              sources = open_router ∷ hugging_face ∷ research ∷ [];
            }
            ∷ [];
      },
    )
unfolding program
test_old = refl

ensure_shipped_columns-Extends_example :
    Extends old (seed_shipped_columns "now" old).db
    × Extends old (ensure_shipped_columns "now" old).db
ensure_shipped_columns-Extends_example = ensure_shipped_columns-Extends "now" old

test_kinds :
    (column_kind context (hugging_face ∷ research ∷ []) ≡ ColumnKind.measured)
    × (column_kind context (app ∷ []) ≡ ColumnKind.stamped)
    × (column_kind context [] ≡ ColumnKind.fetched)
unfolding program
test_kinds = (refl, refl, refl)
