-- ===== src/Store/Cells.antt =====
-- internal/store/cells.go: the typing rule, the one statement that writes a cell, and `WriteCells`.
pub mod Accept
pub mod Effect
pub mod Invariant
pub mod Writes
use models_db.Prelude.{
  ℕ, suc, ◌+◌, String, ◌≡◌, refl, Bool, true, false, Option, none, some, List, [], ◌∷◌, ◌&&◌, ◌||◌,
  not, leb, if◌then◌else◌, str_eq, nat_eqb, string_eq, contains,
}
use models_db.Prelude.Table.{Table, lookup, put, remove, keys}
use models_db.Prelude.Text.{trim_space, str_ltb, codes, codes_eqb, lower_codes}
use models_db.Shared.Number.{whole, parse_number}
use models_db.Store.Source.{Source, open_router, hugging_face, parse_source, source_eq}
use models_db.Store.Schema.{
  Column, ValueType, CellKey, cell_key_eq, SortKey, null, figure, Cell, Db, Error, Result, ok, err,
  ◌>>=◌, ◌>>◌, guard, column_by_key, find_column, model_must_exist, stamp_model_written, stamp_rows,
  no_model_name, unusable_column_key, cell_value,
}

abbrev pub lower_is : String → String → Bool
lower_is value word = codes_eqb (lower_codes (codes value)) (codes word)

unfoldable pub option_position : ℕ → String → List String → Option ℕ
option_position n value [] = none
option_position n value (o ∷ os) =
    if str_eq o value then some n else option_position (suc n) value os

unfoldable pub flag_key : String → Option ℕ
unfolding lower_codes codes_eqb codes
flag_key value =
    if lower_is value "yes" || lower_is value "true" || lower_is value "1"
    then some 1
    else if lower_is value "no" || lower_is value "false" || lower_is value "0"
    then some 0
    else none

abbrev pub or_refused : Column → String → Option ℕ → Result SortKey
or_refused column value none = err (cell_value column.key value)
or_refused column value (some n) = ok (figure (whole n))

-- sortKeyFor. Its last line, for a column of no known kind, is never reached: columns.value_type is
-- held to the five kinds by a CHECK.
unfoldable pub sort_key_of : ValueType → Column → String → Result SortKey
unfolding parse_number flag_key option_position
sort_key_of ValueType.text column value = ok null
sort_key_of ValueType.list column value = ok null
sort_key_of ValueType.number column value = elim (parse_number value) [
  | none ↦ err (cell_value column.key value)
  | some d ↦ ok (figure d)
]
sort_key_of ValueType.flag column value = or_refused column value (flag_key value)
sort_key_of ValueType.choice column value =
    or_refused column value (option_position 0 value column.options)

abbrev pub sort_key_for : Column → String → Result SortKey
sort_key_for column value = sort_key_of column.value_type column value

abbrev pub cell_key : Column → Source → String → CellKey
cell_key column src name = record { column = column.id; model = name; source = src }

-- writeOneCell
unfoldable pub write_one_cell : Column → Source → String → String → String → Db → Result Db
write_one_cell column src name value stamp db =
    let v = trim_space value in
    if str_eq v ""
    then ok (record db { cells = remove (cell_key column src name) db.cells })
    else do
      sort_key ← sort_key_for column v
      ok (record db {
        cells =
            put (cell_key column src name)
              (record { value_text = v; value_number = sort_key; written_at = stamp }) db.cells;
      })

-- A loop over keys that stops at the first refusal.
unfoldable pub each_key : (String → Db → Result Db) → List String → Db → Result Db
each_key step [] db = ok db
each_key step (k ∷ ks) db = step k db >>= each_key step ks

unfoldable pub insert_key : String → List String → List String
insert_key k [] = k ∷ []
insert_key k (j ∷ js) =
    if str_eq k j then j ∷ js else if str_ltb k j then k ∷ j ∷ js else j ∷ insert_key k js

-- sortedKeys: the keys of a map in one order.
unfoldable pub sorted_keys : Table String String → List String
unfolding insert_key
sorted_keys [] = []
sorted_keys ((k, v) ∷ t) = insert_key k (sorted_keys t)

-- `values[key]`: the empty text where the map has no such key.
unfoldable pub value_at : String → Table String String → String
value_at key values = elim (lookup key values) [ none ↦ "" | some v ↦ v ]

-- hasNoName
unfoldable pub has_no_name : String → Bool
has_no_name name = str_eq (trim_space name) ""

-- validSource
unfoldable pub valid_source : String → Result Source
valid_source s = elim (parse_source s) [ none ↦ err (unusable_column_key s) | some src ↦ ok src ]

-- One key of `WriteCells`: its column, the check that the source is declared for it, and the write.
unfoldable pub write_key : String → Source → String → Table String String → String → Db → Result Db
write_key stamp src name values key db = do
  column ← column_by_key key db
  guard (contains column.sources src) (unusable_column_key key)
  write_one_cell column src name (value_at key values) stamp db

-- WriteCells. `stamp` is the time of the call (dbcore.NowStamp); the whole is one transaction, so a
-- refusal keeps nothing.
unfoldable pub write_cells : String → String → String → Table String String → Db → Result Db
write_cells stamp source_text name values db = do
  src ← valid_source source_text
  guard (not (has_no_name name)) no_model_name
  model_must_exist name db
  db' ← each_key (write_key stamp src name values) (sorted_keys values) db
  ok (stamp_model_written name stamp db')
