-- ===== src/Store/Colors.antt =====
-- internal/store/colors.go: which colour rules a column takes.
use models_db.Prelude.{
  ℕ, zero, suc, ◌+◌, ◌*◌, ◌^◌, String, Bool, true, false, ◌&&◌, ◌||◌, not, Option, none, some, List,
  [], ◌∷◌, leb, if◌then◌else◌, str_eq, string_eq, contains, length,
}
use models_db.Prelude.Table.{Table, lookup}
use models_db.Prelude.Text.{codes}
use models_db.Shared.Number.{Decimal, is_digit}
use models_db.Store.Schema.{
  Column, ValueType, ColorRules, ColorThreshold, Result, ok, err, ◌>>◌, guard, unusable_colors,
}
use models_db.Store.Cells.{sorted_keys, value_at}

-- The order of two decimals, by which float64 figures are compared.
unfoldable pub decimal_leb : Decimal → Decimal → Bool
decimal_leb a b =
    let up = λ (d : Decimal). d.digits * (if d.exponent_negative then 1 else 10 ^ d.exponent) in
    let down =
      λ (d : Decimal). 10 ^ (d.fraction + (if d.exponent_negative then d.exponent else 0)) in
    let l = up a * down b in
    let r = up b * down a in
    if a.negative
    then (if b.negative then leb r l else true)
    else if b.negative
    then leb l 0 && leb r 0
    else leb l r

-- ColorRules.IsEmpty
unfoldable pub colors_empty : ColorRules → Bool
colors_empty r =
    leb (length r.thresholds) 0
    && str_eq r.otherwise ""
    && str_eq r.for_yes ""
    && str_eq r.for_no ""
    && leb (length r.for_options) 0

-- ColumnTakesColors
unfoldable pub column_takes_colors : ValueType → Bool
column_takes_colors ValueType.number = true
column_takes_colors ValueType.flag = true
column_takes_colors ValueType.choice = true
column_takes_colors _ = false

unfoldable pub is_hex_digit : ℕ → Bool
unfolding is_digit
is_hex_digit c = is_digit c || leb b'a' c && leb c b'f' || leb b'A' c && leb c b'F'

unfoldable pub all_hex : ℕ → List ℕ → Bool
unfolding is_hex_digit
all_hex zero [] = true
all_hex (suc n) (c ∷ cs) = is_hex_digit c && all_hex n cs
all_hex _ _ = false

unfoldable pub is_hex_color : List ℕ → Bool
unfolding all_hex
is_hex_color [] = false
is_hex_color (c ∷ cs) = leb b'#' c && leb c b'#' && (all_hex 3 cs || all_hex 6 cs)

-- checkColor
unfoldable pub check_color : Column → String → Result (Unit {0})
unfolding is_hex_color codes
check_color column color =
    guard (str_eq color "" || is_hex_color (codes color)) (unusable_colors column.key)

-- onlyTheseFields: what the rules carry for another kind of column.
unfoldable pub only_these_fields : ValueType → Column → ColorRules → Result (Unit {0})
only_these_fields kind column r =
    let thresholds = not (leb (length r.thresholds) 0) || not (str_eq r.otherwise "") in
    let flags = not (str_eq r.for_yes "") || not (str_eq r.for_no "") in
    let options = not (leb (length r.for_options) 0) in
    let foreign : Bool = elim kind [
      | ValueType.number ↦ flags || options
      | ValueType.flag ↦ thresholds || options
      | ValueType.choice ↦ thresholds || flags
      | _ ↦ thresholds || flags || options
    ] in
    guard (not foreign) (unusable_colors column.key)

-- The loop over the thresholds, `last` being the figure of the one before.
unfoldable pub check_thresholds : Column → Option Decimal → List ColorThreshold → Result (Unit {0})
unfolding check_color decimal_leb
check_thresholds column last [] = ok tt
check_thresholds column last (t ∷ ts) = do
  check_color column t.color
  guard (elim last [ none ↦ true | some l ↦ not (decimal_leb t.below l) ])
      (unusable_colors column.key)
  check_thresholds column (some t.below) ts

unfoldable pub check_option_colors : Column → Table String String → List String → Result (Unit {0})
unfolding check_color contains value_at lookup
check_option_colors column colors [] = ok tt
check_option_colors column colors (label ∷ labels) = do
  guard (contains column.options label) (unusable_colors column.key)
  check_color column (value_at label colors)
  check_option_colors column colors labels

unfoldable pub check_colors_of : ValueType → Column → ColorRules → Result (Unit {0})
unfolding only_these_fields check_thresholds check_option_colors check_color sorted_keys
check_colors_of ValueType.number column r = do
  only_these_fields ValueType.number column r
  guard (not (leb (length r.thresholds) 0)) (unusable_colors column.key)
  check_thresholds column none r.thresholds
  check_color column r.otherwise
check_colors_of ValueType.flag column r = do
  only_these_fields ValueType.flag column r
  guard (not (str_eq r.for_yes "" && str_eq r.for_no "")) (unusable_colors column.key)
  check_color column r.for_yes
  check_color column r.for_no
check_colors_of ValueType.choice column r = do
  only_these_fields ValueType.choice column r
  check_option_colors column r.for_options (sorted_keys r.for_options)
check_colors_of _ column r = ok tt

-- checkColorRules
unfoldable pub check_color_rules : Column → ColorRules → Result (Unit {0})
unfolding colors_empty column_takes_colors check_colors_of
check_color_rules column r =
    if colors_empty r
    then ok tt
    else if not (column_takes_colors column.value_type)
    then err (unusable_colors column.key)
    else check_colors_of column.value_type column r
