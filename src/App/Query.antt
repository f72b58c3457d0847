-- ===== src/App/Query.antt =====
-- internal/app/modelquery.go: the question that GET /api/models asks, in the values it is made of. The
-- children read a request into a question, ask it of a row, and answer a request.
pub mod Days
pub mod Members
pub mod Read
pub mod Match
pub mod Answer
use models_db.Prelude.{
  ℕ, zero, suc, String, ◌+◌, ◌-◌, ◌*◌, ◌/◌, ◌%◌, Bool, true, false, not, ◌&&◌, ◌||◌, Option, none,
  some, List, [], ◌∷◌, nat_eqb, leb, ltb, length, if◌then◌else◌, keep, any, map,
}
use models_db.Prelude.Table.{Table, lookup}
use models_db.Prelude.Text.{codes, codes_eqb, codes_eq}
use models_db.Prelude.Runes.{Runes, Unicode, lower, trim, split_by, equal_fold, has_suffix}
use models_db.Shared.Number.{Decimal, parse_codes, is_digit}
use models_db.Store.Schema.{Column, ValueType}
use models_db.App.Search.{SearchExpr}

-- What the code takes from Go's standard library: the tables of package unicode, json.Unmarshal into
-- an array with each member printed by %v, and the float64 nearest to a decimal, with its order.
pub record Host : Type 1 where
  pub unicode : Unicode
  pub json_array : Runes → Option (List Runes)
  pub Float : Type 0
  pub nearest : Decimal → Float
  pub at_most : Float → Float → Bool
  pub is_zero : Float → Bool

-- A value of a row that is not a cell.
pub data Field : Type 0 where
  text : Runes → Field
  switch : Bool → Field
  other : Runes → Field

-- One row that processModels builds.
pub record Row : Type 0 where
  pub fields : Table Runes Field
  pub cells : Table Runes Runes
  pub answered_by : Table Runes Runes

-- The value of a key of a Go map of texts, "" where the map has none.
unfoldable pub text_at : Runes → Table Runes Runes → Runes
unfolding lookup
text_at key t = elim (lookup key t) [ none ↦ [] | some v ↦ v ]

-- `row["name"].(string)`
unfoldable pub shown_name : Row → Runes
unfolding lookup
shown_name row = elim (lookup (codes "name") row.fields) [ some (text s) ↦ s | _ ↦ [] ]

-- `row["hidden"].(bool)`
unfoldable pub is_hidden : Row → Bool
unfolding lookup
is_hidden row = elim (lookup (codes "hidden") row.fields) [ some (switch b) ↦ b | _ ↦ false ]

unfoldable pub cell_of : Column → Row → Runes
unfolding text_at trim codes
cell_of column row = trim (text_at (codes column.key) row.cells)

unfoldable pub is_word : Runes → List String → Bool
unfolding codes codes_eqb
is_word s [] = false
is_word s (w ∷ ws) = codes_eqb s (codes w) || is_word s ws

-- SplitList of internal/dbcore/db.go
unfoldable pub split_list : Runes → List Runes
unfolding trim split_by
split_list s = trimmed (split_by b',' s)
  where
    trimmed : List Runes → List Runes
    trimmed [] = []
    trimmed (p ∷ ps) =
        let rest = trimmed ps in elim (trim p) [ [] ↦ rest | (c ∷ q) ↦ (c ∷ q) ∷ rest ]

-- Adds a code point to the first of some texts.
unfoldable pub onto_first : ℕ → List Runes → List Runes
onto_first c [] = (c ∷ []) ∷ []
onto_first c (m ∷ ms) = (c ∷ m) ∷ ms

abbrev pub comma : ℕ
comma = b','

abbrev pub backslash : ℕ
backslash = b'\\'

-- The loop of splitMembers, before it trims.
unfoldable pub cut_members : Runes → List Runes
unfolding onto_first
cut_members [] = [] ∷ []
cut_members (c ∷ []) = if nat_eqb c comma then [] ∷ [] ∷ [] else (c ∷ []) ∷ []
cut_members (c ∷ d ∷ s) =
    let escaped = cut_members s in
    let rest = cut_members (d ∷ s) in
    if nat_eqb c backslash && nat_eqb d comma
    then onto_first comma escaped
    else if nat_eqb c comma
    then [] ∷ rest
    else onto_first c rest

-- splitMembers
unfoldable pub split_members : Runes → List Runes
unfolding cut_members trim
split_members list = map trim (cut_members list)

module _ (h : Host) where
  -- truthyParam
  unfoldable pub truthy_param : Runes → Bool
  unfolding lower trim is_word
  truthy_param v = is_word (lower h.unicode (trim v)) ("1" ∷ "true" ∷ "yes" ∷ [])

  -- flagSays
  unfoldable pub flag_says : Runes → Option Bool
  unfolding lower trim is_word
  flag_says value =
      let word = lower h.unicode (trim value) in
      if is_word word ("yes" ∷ "true" ∷ "1" ∷ [])
      then some true
      else if is_word word ("no" ∷ "false" ∷ "0" ∷ [])
      then some false
      else none

  -- ParseArr of internal/dbcore/db.go
  unfoldable pub parse_arr : Runes → List Runes
  unfolding trim split_list
  parse_arr s = elim (trim s) [
    | [] ↦ []
    | (c ∷ t) ↦ elim (h.json_array (c ∷ t)) [ none ↦ split_list (c ∷ t) | some members ↦ members ]
  ]

-- time.Parse with the layout 2006-01-02.
unfoldable pub is_leap : ℕ → Bool
is_leap y = nat_eqb (y % 4) 0 && (not (nat_eqb (y % 100) 0) || nat_eqb (y % 400) 0)

unfoldable pub days_in : ℕ → ℕ → ℕ
unfolding is_leap
days_in y m =
    if nat_eqb m 2
    then (if is_leap y then 29 else 28)
    else if nat_eqb m 4 || nat_eqb m 6 || nat_eqb m 9 || nat_eqb m 11
    then 30
    else 31

unfoldable pub is_date : ℕ → ℕ → ℕ → Bool
unfolding days_in
is_date y m d = leb 1 m && leb m 12 && leb 1 d && leb d (days_in y m)

-- dateLayout
abbrev pub date_layout : Runes
date_layout = codes "2006-01-02"

-- A digit where the layout has one, and the layout's own character elsewhere.
unfoldable pub has_layout : Runes → Runes → Bool
unfolding is_digit
has_layout [] [] = true
has_layout (l ∷ layout) (c ∷ s) =
    (if is_digit l then is_digit c else nat_eqb c l) && has_layout layout s
has_layout _ _ = false

-- The number that the digits of a text make: YYYYMMDD of a day.
unfoldable pub digits_of : Runes → ℕ → ℕ
unfolding is_digit
digits_of [] n = n
digits_of (c ∷ s) n = digits_of s (if is_digit c then n * 10 + (c - b'0') else n)

unfoldable pub parses_as_day : Runes → Bool
unfolding has_layout digits_of is_date codes
parses_as_day s =
    let n = digits_of s 0 in
    has_layout date_layout s && is_date (n / 10000) (n / 100 % 100) (n % 100)

-- The first ten code points and what follows them.
unfoldable pub take_front : ℕ → Runes → Option (Runes × Runes)
take_front zero s = some ([], s)
take_front (suc n) [] = none
take_front (suc n) (c ∷ s) = elim (take_front n s) [ none ↦ none | some p ↦ some (c ∷ p.0, p.1) ]

-- dayOf
unfoldable pub day_of : Runes → Option Runes
unfolding take_front parses_as_day
day_of value = elim (take_front 10 value) [
  | none ↦ none
  | some p ↦
      let day = if parses_as_day p.0 then some p.0 else none in
      elim p.1 [ [] ↦ day | (c ∷ t) ↦ if nat_eqb c b'T' || nat_eqb c b' ' then day else none ]
]
