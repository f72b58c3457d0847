-- ===== src/Store/Columns.antt =====
-- internal/store/cells.go and custom_columns.go: making, relabelling and deleting a column.
pub mod Sources
use models_db.Prelude.{
  ℕ, suc, ◌+◌, String, ◌≡◌, refl, Bool, true, false, ◌&&◌, ◌||◌, not, Option, none, some, List, [],
  ◌∷◌, ◌++◌, leb, nat_eqb, if◌then◌else◌, str_eq, string_eq, contains, any, length,
}
use models_db.Prelude.Table.{Table, lookup, remove_where}
use models_db.Prelude.Text.{trim_space, codes, codes_eqb, lower_codes}
use models_db.Store.Source.{
  Source, research, hand, app, is_fetched, parse_source, source_eq, source_eqb,
}
use models_db.Store.Schema.{
  Column, ColorRules, ValueType, Resolve, first_stated, union, CellKey, cell_key_eq, Db, Result, ok,
  err, ◌>>=◌, ◌>>◌, guard, find_column, column_by_key, unusable_column_key, column_is_a_source,
  invalid_request,
}
use models_db.Store.Cells.{valid_source}
use models_db.Store.Colors.{check_color_rules, colors_empty}

-- ColumnSpec
pub record ColumnSpec : Type 0 where
  pub key : String
  pub label : String
  pub value_type : String
  pub resolve : String
  pub unit : String
  pub about : String
  pub position : ℕ
  pub hidden : Bool
  pub sealed : Bool
  pub options : List String
  pub colors : Option ColorRules

-- ValidValueType, with the kind that a valid text is.
unfoldable pub parse_value_type : String → Option ValueType
parse_value_type s =
    if str_eq s "text"
    then some ValueType.text
    else if str_eq s "number"
    then some ValueType.number
    else if str_eq s "flag"
    then some ValueType.flag
    else if str_eq s "choice"
    then some ValueType.choice
    else if str_eq s "list"
    then some ValueType.list
    else none

-- The ways to resolve: a text that is none of them is refused, and the empty one is the ordinary one.
unfoldable pub parse_resolve : String → Option Resolve
parse_resolve s =
    if str_eq s "" || str_eq s "first_stated"
    then some first_stated
    else if str_eq s "union"
    then some union
    else none

abbrev pub reserved_column_keys : List String
reserved_column_keys =
    "name" ∷ "include_hidden" ∷ "hide_free" ∷ "links" ∷ "fields" ∷ "source" ∷ "hidden"
    ∷ "variant_of" ∷ "_raw" ∷ []

unfoldable pub has_dot : List ℕ → Bool
has_dot [] = false
has_dot (c ∷ cs) = nat_eqb c b'.' || has_dot cs

-- cleanOptions: the trimmed lines that are not blank, and the two shapes that mean nothing.
unfoldable pub trimmed_options : List String → List String
unfolding trim_space
trimmed_options [] = []
trimmed_options (o ∷ os) =
    let rest = trimmed_options os in if str_eq (trim_space o) "" then rest else trim_space o ∷ rest

unfoldable pub has_repeat : List String → Bool
unfolding contains
has_repeat [] = false
has_repeat (o ∷ os) = contains os o || has_repeat os

unfoldable pub clean_options : ValueType → List String → Result (List String)
unfolding trimmed_options has_repeat
clean_options ValueType.choice options =
    let clean = trimmed_options options in
    do
      guard (not (leb (length clean) 0))
          (invalid_request "a choice column needs at least one option")
      guard (not (has_repeat clean)) (invalid_request "the option is offered twice")
      ok clean
clean_options _ options = do
  guard (leb (length (trimmed_options options)) 0)
      (invalid_request "only a choice column has options")
  ok []

-- checkSourceList: the loop, `seen` being the sources before, and `n` how many the list names.
unfoldable pub check_sources_from : ℕ → List Source → List Source → Result (Unit {0})
unfolding contains source_eqb
check_sources_from n seen [] = ok tt
check_sources_from n seen (src ∷ rest) = do
  guard (not (contains seen src)) (unusable_column_key "a source is declared twice")
  guard (not ((source_eqb src hand || source_eqb src app) && not (leb n 1)))
      (unusable_column_key "hand and app are declared alone")
  guard (not (source_eqb src research && not (leb (length rest) 0)))
      (unusable_column_key "research is declared last")
  check_sources_from n (src ∷ seen) rest

unfoldable pub check_source_list : List Source → Result (Unit {0})
check_source_list sources = do
  guard (not (leb (length sources) 0)) (unusable_column_key "a column needs a source")
  check_sources_from (length sources) [] sources

unfoldable pub valid_sources : List String → Result (List Source)
unfolding valid_source parse_source
valid_sources [] = ok []
valid_sources (s ∷ ss) = do src ← valid_source s; rest ← valid_sources ss; ok (src ∷ rest)

-- COLLATE NOCASE: equal but for the case of ASCII letters.
unfoldable pub same_label : String → String → Bool
unfolding lower_codes codes_eqb codes
same_label a b = codes_eqb (lower_codes (codes a)) (lower_codes (codes b))

-- The unique indexes on columns.column_key and columns.label.
unfoldable pub key_or_label_taken : String → String → List Column → Bool
unfolding same_label
key_or_label_taken key label = any (λ c. str_eq c.key key || same_label c.label label)

-- colorRulesText and colorRulesFrom: rules that paint nothing are stored as none.
unfoldable pub stored_colors : Option ColorRules → Option ColorRules
unfolding colors_empty
stored_colors none = none
stored_colors (some r) = if colors_empty r then none else some r

-- What CreateColumn is given, checked: everything insertColumn writes.
unfoldable pub check_spec : ColumnSpec → List String → String → ℕ → Result Column
unfolding trim_space has_dot codes parse_value_type parse_resolve clean_options valid_sources
    contains check_color_rules stored_colors
check_spec spec source_texts stamp id = do
  let key = trim_space spec.key
  let label = trim_space spec.label
  guard (not (str_eq key "")) (unusable_column_key key)
  guard (not (has_dot (codes key))) (unusable_column_key key)
  guard (not (contains reserved_column_keys key)) (unusable_column_key key)
  guard (not (str_eq label "")) (invalid_request "a column needs a label")
  value_type ← elim (parse_value_type spec.value_type) [
    | none ↦ err (invalid_request "not a kind of value")
    | some t ↦ ok t
  ]
  resolve ← elim (parse_resolve spec.resolve) [
    | none ↦ err (invalid_request "not a way to resolve")
    | some r ↦ ok r
  ]
  guard (not (leb (length source_texts) 0)) (unusable_column_key key)
  sources ← valid_sources source_texts
  options ← clean_options value_type spec.options
  let column : Column = record {
    id = id;
    key = key;
    label = label;
    value_type = value_type;
    resolve = resolve;
    unit = spec.unit;
    about = spec.about;
    position = spec.position;
    visible = not spec.hidden;
    sealed = spec.sealed;
    created_at = stamp;
    options = options;
    sources = sources;
    colors = stored_colors spec.colors;
  }
  elim spec.colors [ none ↦ ok tt | some r ↦ check_color_rules column r ]
  ok column

-- CreateColumn: the checks, the row (refused by the unique indexes where its key or label is taken)
-- and its sources. The answer is the column as stored.
unfoldable pub create_column : String → ColumnSpec → List String → Db → Result (Column × Db)
unfolding check_spec key_or_label_taken check_source_list check_sources_from
create_column stamp spec source_texts db = do
  column ← check_spec spec source_texts stamp db.next_id
  guard (not (key_or_label_taken column.key column.label db.columns))
      (invalid_request "UNIQUE constraint failed")
  check_source_list column.sources
  ok (column, record db { columns = db.columns ++ column ∷ []; next_id = db.next_id + 1 })

unfoldable pub without_column : ℕ → List Column → List Column
without_column id [] = []
without_column id (c ∷ cs) =
    let rest = without_column id cs in if nat_eqb c.id id then rest else c ∷ rest

-- DeleteColumn: the row, and by ON DELETE CASCADE its options, sources and cells.
unfoldable pub delete_column : String → Db → Result Db
unfolding without_column
delete_column key db = do
  column ← column_by_key key db
  guard (not column.sealed) (column_is_a_source column.key)
  guard (not (any is_fetched column.sources)) (column_is_a_source column.key)
  ok (record db {
    columns = without_column column.id db.columns;
    cells = remove_where (λ j. nat_eqb j.column column.id) db.cells;
  })

unfoldable pub find_label : String → List Column → Option Column
unfolding same_label
find_label label [] = none
find_label label (c ∷ cs) = if same_label c.label label then some c else find_label label cs

unfoldable pub set_label : ℕ → String → List Column → List Column
set_label id label [] = []
set_label id label (c ∷ cs) =
    (if nat_eqb c.id id then record c { label = label } else c) ∷ set_label id label cs

-- RelabelColumn
unfoldable pub relabel_column : String → String → Db → Result Db
unfolding find_label set_label trim_space
relabel_column key text db = do
  let label = trim_space text
  guard (not (str_eq label "")) (invalid_request "a column needs a label")
  column ← column_by_key key db
  elim (find_label label db.columns) [
    | none ↦ ok tt
    | some taken ↦ guard (nat_eqb taken.id column.id) (invalid_request "the label is taken")
  ]
  ok (record db { columns = set_label column.id label db.columns })
