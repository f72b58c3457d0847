-- ===== src/Store/Own.antt =====
-- internal/store/savecells.go and rounding.go: the rule that decides, for each key of a request, the
-- source it is written as, and the transaction that writes them.
pub mod Rule
pub mod Saves
pub mod Shown
pub mod Checked
use models_db.Prelude.{
  ℕ, nat_eqb, String, ◌≡◌, Bool, true, false, ◌||◌, Option, none, some, List, [], ◌∷◌,
  if◌then◌else◌, str_eq, contains,
}
use models_db.Prelude.Table.{Table, lookup}
use models_db.Prelude.Text.{trim_space, codes, codes_eqb, lower_codes}
use models_db.Shared.Number.{Floats, two_decimals}
use models_db.Store.Source.{Source, research, hand, kind_is_fetched, source_eq}
use models_db.Store.Schema.{
  Column, CellKey, cell_key_eq, Db, Result, ok, err, ◌>>=◌, ◌>>◌, column_by_key, model_must_exist,
  stamp_model_written, not_writable,
}
use models_db.Store.Cells.{
  cell_key, sort_key_for, write_one_cell, each_key, sorted_keys, value_at, lower_is,
}

-- What `strings.ToLower` does beyond ASCII, as far as a comparison with a word that has no k sees it:
-- U+0130, the capital I with a dot, becomes i.
unfoldable pub plain_i : List ℕ → List ℕ
plain_i [] = []
plain_i (c ∷ cs) = (if nat_eqb c 304 then b'i' else c) ∷ plain_i cs

-- twoDecimalStems
unfoldable pub two_decimal_stem : String → Bool
unfolding trim_space lower_codes plain_i codes_eqb codes
two_decimal_stem key =
    let k = lower_codes (plain_i (codes (trim_space key))) in
    codes_eqb k (codes "parameters")
    || codes_eqb k (codes "active_parameters")
    || codes_eqb k (codes "weights_size_gb")

-- roundedForStorage
unfoldable pub rounded_for_storage : Floats → String → String → String
unfolding two_decimal_stem two_decimals
rounded_for_storage fl key value = if two_decimal_stem key then two_decimals fl value else value

-- roundedCells
unfoldable pub rounded_cells : Floats → Table String String → Table String String
rounded_cells fl [] = []
rounded_cells fl ((key, value) ∷ cells) =
    (key, rounded_for_storage fl key value) ∷ rounded_cells fl cells

-- automaticAnswer: the first cell of an automatic source, in the order of the column's ranks.
unfoldable pub automatic_from : List Source → Column → String → Db → Option (Source × String)
automatic_from [] column name db = none
automatic_from (src ∷ rest) column name db =
    let later = automatic_from rest column name db in
    elim (lookup (cell_key column src name) db.cells) [
      | none ↦ later
      | some cell ↦ if kind_is_fetched src then some (src, cell.value_text) else later
    ]

abbrev pub automatic_answer : Column → String → Db → Option (Source × String)
automatic_answer column name db = automatic_from column.sources column name db

-- sourceForOwnWrite
unfoldable pub source_for_own_write : Column → String → String → Db → Result Source
unfolding automatic_from
source_for_own_write column name value db =
    if contains column.sources hand
    then ok hand
    else if contains column.sources research
    then (if str_eq (trim_space value) ""
        then ok research
        else elim (automatic_answer column name db) [
          | none ↦ ok research
          | some held ↦ err (not_writable column.key (some held))
        ])
    else err (not_writable column.key none)

-- One key of `writeOwnCells`.
unfoldable pub write_own_key : String → String → Table String String → String → Db → Result Db
unfolding source_for_own_write
write_own_key stamp name values key db = do
  column ← column_by_key key db
  src ← source_for_own_write column name (value_at key values) db
  write_one_cell column src name (value_at key values) stamp db

-- writeOwnCells, from the start of its transaction to its commit.
unfoldable pub own_cells : Floats → String → String → Table String String → Db → Result Db
unfolding write_own_key
own_cells fl stamp name cells db = do
  let values = rounded_cells fl cells
  model_must_exist name db
  db' ← each_key (write_own_key stamp name values) (sorted_keys values) db
  ok (stamp_model_written name stamp db')

-- One key of `everyValueItsColumnWillHold`: it reads and writes nothing.
unfoldable pub check_own_key : Floats → String → Table String String → String → Db → Result Db
unfolding source_for_own_write
check_own_key fl name cells key db = do
  column ← column_by_key key db
  _ ← source_for_own_write column name (value_at key cells) db
  let value = trim_space (rounded_for_storage fl key (value_at key cells))
  if str_eq value "" then ok db else do _ ← sort_key_for column value; ok db

-- everyValueItsColumnWillHold
unfoldable pub every_value_its_column_will_hold :
    Floats → String → Table String String → Db → Result Db
unfolding check_own_key
every_value_its_column_will_hold fl name cells db =
    each_key (check_own_key fl name cells) (sorted_keys cells) db
