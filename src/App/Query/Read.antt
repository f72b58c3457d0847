-- ===== src/App/Query/Read.antt =====
-- internal/app/modelquery.go: reading the value of one parameter (readCellTest, readLinkTest,
-- readHideFree), with each refusal as a value.
use models_db.Prelude.{
  String, Bool, true, false, not, Option, none, some, List, [], ◌∷◌, ◌++◌, map, contains,
  if◌then◌else◌,
}
use models_db.Prelude.Table.{Table, lookup}
use models_db.Prelude.Text.{codes, codes_eqb, codes_eq}
use models_db.Prelude.Runes.{Runes, lower, trim, strip, has_prefix}
use models_db.Shared.Number.{parse_codes}
use models_db.Store.Schema.{Column, ValueType}
use models_db.Store.Source.{stored_name}
use models_db.App.Search.{SearchExpr, parse_search}
use models_db.App.Query.{Host, is_word, split_list, split_members, truthy_param, parses_as_day}

pub data QueryError : Type 0 where
  unknown_parameter unknown_field bad_hide_free bad_links unknown_link : Runes → QueryError
  -- by the key of the column that cannot answer
  source_not_declared : String → Runes → QueryError
  not_figures not_a_figure not_a_date_column not_a_day not_searchable not_listable :
      String → QueryError

pub data Reply {ℓ} (A : Type ℓ) : Type ℓ where
  refused : QueryError → Reply A
  reply : A → Reply A

infixl 5 ◌>>=◌
abbrev pub ◌>>=◌ {ℓ κ} : {A : Type ℓ} {B : Type κ} (r : Reply A) → (A → Reply B) → Reply B
refused e >>= next = refused e
reply a >>= next = next a

-- cellTest without its column: how the column is asked, and what for.
pub data Ask (h : Host) : Type 0 where
  is_value : Runes → Ask h
  min_figure max_figure : h.Float → Ask h
  contains_text : SearchExpr → Ask h
  any_of none_of : List Runes → Ask h
  answered_by : Runes → Ask h
  from_day to_day : Runes → Ask h

pub record CellTest (h : Host) : Type 0 where
  pub column : Column
  pub ask : Ask h

-- dateColumnKeys of internal/store/shipped.go
unfoldable pub is_date_column : String → Bool
unfolding is_word codes
is_date_column key =
    is_word (codes key) ("created_at" ∷ "added" ∷ "expiration_date" ∷ "knowledge_cutoff" ∷ [])

unfoldable pub is_number : ValueType → Bool
is_number ValueType.number = true
is_number _ = false

unfoldable pub is_text_or_list : ValueType → Bool
is_text_or_list ValueType.text = true
is_text_or_list ValueType.list = true
is_text_or_list _ = false

abbrev pub not_prefix : Runes
not_prefix = codes "not_"

-- `strings.TrimPrefix`
unfoldable pub trim_prefix : Runes → Runes → Runes
unfolding strip
trim_prefix prefix s = elim (strip prefix s) [ none ↦ s | some rest ↦ rest ]

-- hideFreeColumns
abbrev pub hide_free_columns : List Runes
hide_free_columns = codes "price_prompt" ∷ codes "price_completion" ∷ []

-- The loop of readHideFree over its keys.
unfoldable pub columns_of_figures : Table Runes Column → List Runes → Reply (List Column)
unfolding lookup is_number
columns_of_figures by_key [] = reply []
columns_of_figures by_key (key ∷ keys) = elim (lookup key by_key) [
  | none ↦ refused (bad_hide_free key)
  | some column ↦
      if is_number column.value_type
      then (columns_of_figures by_key keys >>= λ columns. reply (column ∷ columns))
      else refused (bad_hide_free key)
]

module _ (h : Host) where
  -- The branch of a value after by:. ListColumnSources answers the sources a column declares.
  unfoldable pub read_by : Column → Runes → Reply (Ask h)
  unfolding trim trim_prefix has_prefix contains stored_name codes codes_eqb
  read_by column rest =
      let state = trim rest in
      let negated = has_prefix not_prefix state in
      let asked = trim_prefix not_prefix state in
      let name = if codes_eqb asked (codes "you") then codes "hand" else asked in
      if contains (map (λ s. codes (stored_name s)) column.sources) name
      then reply (answered_by (if negated then not_prefix ++ name else name))
      else refused (source_not_declared column.key name)

  -- The branch of a value after min: or max:.
  unfoldable pub read_figure : Column → (h.Float → Ask h) → Runes → Reply (Ask h)
  unfolding trim parse_codes is_number
  read_figure column ask rest =
      if is_number column.value_type
      then elim (parse_codes (trim rest)) [
        | none ↦ refused (not_a_figure column.key)
        | some d ↦ reply (ask (h.nearest d))
      ]
      else refused (not_figures column.key)

  -- The branch of a value after from: or to:.
  unfoldable pub read_day : Column → (Runes → Ask h) → Runes → Reply (Ask h)
  unfolding trim is_date_column parses_as_day
  read_day column ask rest =
      let day = trim rest in
      if not (is_date_column column.key)
      then refused (not_a_date_column column.key)
      else if parses_as_day day
      then reply (ask day)
      else refused (not_a_day column.key)

  -- The branch of a value after contains:.
  unfoldable pub read_contains : Column → Runes → Reply (Ask h)
  unfolding is_text_or_list parse_search
  read_contains column rest =
      if is_text_or_list column.value_type
      then reply (contains_text (parse_search h.unicode rest))
      else refused (not_searchable column.key)

  -- The branch of a value after any: or not:.
  unfoldable pub read_members : Column → (List Runes → Ask h) → Runes → Reply (Ask h)
  unfolding is_number split_members
  read_members column ask rest =
      if is_number column.value_type
      then refused (not_listable column.key)
      else reply (ask (split_members rest))

  -- The prefixes in the order of the switch, and the branch of each.
  unfoldable pub branches : Column → List (Runes × (Runes → Reply (Ask h)))
  unfolding codes read_by read_figure read_day read_contains read_members
  branches column =
      (codes "by:", read_by column)
      ∷ (codes "min:", read_figure column min_figure)
      ∷ (codes "max:", read_figure column max_figure)
      ∷ (codes "from:", read_day column from_day)
      ∷ (codes "to:", read_day column to_day)
      ∷ (codes "contains:", read_contains column)
      ∷ (codes "any:", read_members column any_of)
      ∷ (codes "not:", read_members column none_of)
      ∷ []

  unfoldable pub first_branch : List (Runes × (Runes → Reply (Ask h))) → Runes → Reply (Ask h)
  unfolding strip lower
  first_branch [] value = reply (is_value (lower h.unicode value))
  first_branch ((prefix, branch) ∷ rest) value = elim (strip prefix value) [
    | none ↦ first_branch rest value
    | some after ↦ branch after
  ]

  -- readCellTest
  unfoldable pub read_cell_test : Column → Runes → Reply (CellTest h)
  unfolding branches first_branch trim
  read_cell_test column value = do
    ask ← first_branch (branches column) (trim value)
    reply (record { column = column; ask = ask })

  -- readHideFree
  unfoldable pub read_hide_free : Table Runes Column → Runes → Reply (Bool × List Column)
  unfolding lower trim is_word truthy_param split_list columns_of_figures
  read_hide_free by_key value =
      let v = trim value in
      let keys = if truthy_param h v then hide_free_columns else split_list v in
      if is_word (lower h.unicode v) ("" ∷ "0" ∷ "false" ∷ "no" ∷ [])
      then reply (false, [])
      else columns_of_figures by_key keys >>= λ columns. reply (true, columns)

-- linkTest: one of the named links (any:), or none of them (not:).
pub record LinkTest : Type 0 where
  pub wants_one : Bool
  pub columns : List Runes

-- linkColumns
unfoldable pub link_column : Runes → Option Runes
unfolding codes codes_eqb
link_column name =
    if codes_eqb name (codes "huggingface")
    then some (codes "repository")
    else if codes_eqb name (codes "openrouter")
    then some (codes "id")
    else none

module _ (h : Host) where
  -- The loop of readLinkTest over the named links, with the column of each.
  unfoldable pub link_columns : List Runes → Reply (List Runes)
  unfolding lower link_column
  link_columns [] = reply []
  link_columns (member ∷ members) = elim (link_column (lower h.unicode member)) [
    | none ↦ refused (unknown_link (lower h.unicode member))
    | some column ↦ link_columns members >>= λ columns. reply (column ∷ columns)
  ]

  -- readLinkTest
  unfoldable pub read_link_test : Runes → Reply LinkTest
  unfolding trim strip codes split_members link_columns
  read_link_test value = elim (strip (codes "any:") (trim value)) [
    | some rest ↦ link_columns (split_members rest) >>= λ columns.
        reply (record { wants_one = true; columns = columns })
    | none ↦ elim (strip (codes "not:") (trim value)) [
      | some rest ↦ link_columns (split_members rest) >>= λ columns.
          reply (record { wants_one = false; columns = columns })
      | none ↦ refused (bad_links (trim value))
    ]
  ]
