-- ===== src/App/Query/Match.antt =====
-- internal/app/modelquery.go: whether a row meets one condition of a question (holdsValue,
-- cellTest.matches, linkTest.matches, isFreeListing, isZeroIn).
use models_db.Prelude.{
  Bool, true, false, not, ◌&&◌, ◌||◌, none, some, List, [], ◌∷◌, any, if◌then◌else◌,
}
use models_db.Prelude.Text.{codes, codes_eqb, codes_eq}
use models_db.Prelude.Runes.{Runes, lower, trim, strip, has_suffix, equal_fold, runes_leb}
use models_db.Shared.Number.{parse_codes}
use models_db.Store.Schema.{Column, ValueType}
use models_db.App.Search.{matches}
use models_db.App.Query.{Host, Row, text_at, shown_name, cell_of, flag_says, parse_arr, day_of}
use models_db.App.Query.Read.{
  is_value, min_figure, max_figure, contains_text, any_of, none_of, answered_by, from_day, to_day,
  Ask, CellTest, LinkTest, not_prefix,
}

unfoldable pub is_empty : Runes → Bool
is_empty [] = true
is_empty (c ∷ s) = false

module _ (h : Host) where
  -- holdsValue
  unfoldable pub holds_value : Column → Runes → Runes → Bool
  unfolding is_empty equal_fold trim flag_says parse_arr
  holds_value column value want =
      let same = equal_fold h.unicode value want in
      if is_empty want || is_empty value
      then is_empty want && is_empty value
      else elim column.value_type [
        | ValueType.list ↦
            any (λ member. equal_fold h.unicode (trim member) want) (parse_arr h value)
        | ValueType.flag ↦ elim (flag_says h value) [
          | none ↦ same
          | some said ↦ elim (flag_says h want) [
            | none ↦ same
            | some wanted ↦ if said then wanted else not wanted
          ]
        ]
        | _ ↦ same
      ]

  -- The comparison of a figure in a cell, false where the cell holds none.
  unfoldable pub figure_passes : (h.Float → Bool) → Runes → Bool
  unfolding parse_codes
  figure_passes test value = elim (parse_codes value) [ none ↦ false | some d ↦ test (h.nearest d) ]

  unfoldable pub day_passes : (Runes → Bool) → Runes → Bool
  unfolding day_of
  day_passes test value = elim (day_of value) [ none ↦ false | some day ↦ test day ]

  -- The texts that contains: looks through.
  unfoldable pub members_of : Column → Runes → List Runes
  unfolding parse_arr
  members_of column value = elim column.value_type [
    | ValueType.list ↦ parse_arr h value
    | _ ↦ value ∷ []
  ]

  -- cellTest.matches, of a column and the way it is asked.
  unfoldable pub ask_matches : Column → Ask h → Row → Bool
  unfolding cell_of text_at holds_value matches members_of figure_passes day_passes runes_leb strip
      codes codes_eqb
  ask_matches column (is_value want) row = holds_value column (cell_of column row) want
  ask_matches column (any_of members) row = any (holds_value column (cell_of column row)) members
  ask_matches column (none_of members) row =
      not (any (holds_value column (cell_of column row)) members)
  ask_matches column (contains_text e) row =
      matches h.unicode e (members_of column (cell_of column row))
  ask_matches column (answered_by want) row =
      let source = text_at (codes column.key) row.answered_by in
      elim (strip not_prefix want) [
        | some name ↦ not (codes_eqb source name)
        | none ↦ codes_eqb source want
      ]
  ask_matches column (from_day want) row = day_passes (runes_leb want) (cell_of column row)
  ask_matches column (to_day want) row = day_passes (λ day. runes_leb day want) (cell_of column row)
  ask_matches column (min_figure figure) row = figure_passes (h.at_most figure) (cell_of column row)
  ask_matches column (max_figure figure) row =
      figure_passes (λ x. h.at_most x figure) (cell_of column row)

  -- cellTest.matches
  unfoldable pub cell_test_matches : CellTest h → Row → Bool
  unfolding ask_matches
  cell_test_matches t row = ask_matches t.column t.ask row

  -- isZeroIn
  unfoldable pub is_zero_in : Column → Row → Bool
  unfolding cell_of figure_passes
  is_zero_in column row = figure_passes h.is_zero (cell_of column row)

  -- isFreeListing
  unfoldable pub is_free_listing : Row → Bool
  unfolding lower trim text_at codes has_suffix shown_name
  is_free_listing row =
      has_suffix (codes ":free") (lower h.unicode (trim (text_at (codes "id") row.cells)))
      || has_suffix (codes "(free)") (lower h.unicode (trim (shown_name row)))

-- linkTest.matches
unfoldable pub link_test_matches : LinkTest → Row → Bool
unfolding is_empty trim text_at
link_test_matches t row =
    let has = any (λ column. not (is_empty (trim (text_at column row.cells)))) t.columns in
    if t.wants_one then has else not has
