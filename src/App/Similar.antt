-- ===== src/App/Similar.antt =====
-- internal/app/similarnames.go: finding a model by a name that is close (foldName, nameCloseness,
-- rankSimilarModels, hiddenFilteredRows), and closeColumns of modelquery.go.
pub mod Rank
pub mod Question
pub mod Limits
use models_db.Prelude.{
  ℕ, suc, zero, ◌+◌, ◌*◌, ◌-◌, ◌^◌, String, Bool, true, false, not, ◌&&◌, ◌||◌, Option, none, some,
  List, [], ◌∷◌, ◌++◌, map, length, nat_eqb, leb, ltb, if◌then◌else◌, keep,
}
use models_db.Prelude.Table.{Table, lookup}
use models_db.Prelude.Text.{codes, codes_eqb, codes_eq}
use models_db.Prelude.Runes.{Runes, Unicode, lower, trim, is_letter, is_decimal_digit, runes_leb}
use models_db.Shared.Number.{take_digits}
use models_db.Store.Schema.{Column}
use models_db.App.Closeness.{Reason, closeness_reason}
use models_db.App.Query.{Host, Field, text, Row, shown_name, is_hidden, truthy_param}
use models_db.App.Query.Answer.{Params, sort_params, first_value}

unfoldable pub splits_name : ℕ → Bool
splits_name c =
    nat_eqb c b'/'
    || nat_eqb c b'-'
    || nat_eqb c b'_'
    || nat_eqb c b'.'
    || nat_eqb c b':'
    || nat_eqb c b' '

-- What letterOrDigit answers.
pub data RuneClass : Type 0 where
  neither letter_class digit_class : RuneClass

unfoldable pub class_eqb : RuneClass → RuneClass → Bool
class_eqb neither neither = true
class_eqb letter_class letter_class = true
class_eqb digit_class digit_class = true
class_eqb _ _ = false

-- The token that is open, if it holds anything.
unfoldable pub flush : Runes → List Runes
flush [] = []
flush (c ∷ s) = (c ∷ s) ∷ []

module _ (u : Unicode) where
  unfoldable pub letter_or_digit : ℕ → RuneClass
  unfolding is_letter is_decimal_digit
  letter_or_digit c =
      if is_decimal_digit u c then digit_class else if is_letter u c then letter_class else neither

  -- The loop of foldName, with the token that is open and its class.
  unfoldable pub fold_runes : Runes → RuneClass → Runes → List Runes
  unfolding flush splits_name letter_or_digit class_eqb
  fold_runes current class [] = flush current
  fold_runes current class (c ∷ s) =
      let found = letter_or_digit c in
      let boundary =
        not (class_eqb found neither)
        && not (class_eqb class neither)
        && not (class_eqb found class) in
      let kept : RuneClass = if class_eqb found neither then class else found in
      let next : List Runes × Runes × RuneClass =
        if splits_name c
        then (flush current, [], neither)
        else if boundary
        then (flush current, c ∷ [], found)
        else ([], current ++ c ∷ [], kept) in
      next.0 ++ fold_runes next.1 next.2 s

  -- foldName
  unfoldable pub fold_name : Runes → List Runes
  unfolding fold_runes lower
  fold_name name = fold_runes [] neither (lower u name)

  -- `strings.Join(tokens, " ")`
  unfoldable pub join_tokens : List Runes → Runes
  join_tokens [] = []
  join_tokens (t ∷ []) = t
  join_tokens (t ∷ r ∷ ts) = t ++ b' ' ∷ join_tokens (r ∷ ts)

  -- nameCloseness
  unfoldable pub name_closeness : Runes → Runes → Option (ℕ × Reason)
  unfolding closeness_reason fold_name join_tokens
  name_closeness a b =
      let folded = closeness_reason u (join_tokens (fold_name a)) (join_tokens (fold_name b)) in
      elim (closeness_reason u a b) [
        | none ↦ folded
        | some raw ↦ elim folded [
          | none ↦ some raw
          | some other ↦ if leb raw.0 other.0 then some raw else some other
        ]
      ]

-- similarModel
pub record SimilarModel : Type 0 where
  pub name : Runes
  pub score : ℕ
  pub why : Reason
  pub hidden : Bool
  pub variant_of : Runes

unfoldable pub rank_key : SimilarModel → ℕ × Runes
rank_key m = (m.score, m.name)

unfoldable pub variant_of_row : Row → Runes
unfolding lookup codes
variant_of_row row = elim (lookup (codes "variant_of") row.fields) [ some (text s) ↦ s | _ ↦ [] ]

-- Whether the first is to stand before the second: by score, then by name.
unfoldable pub comes_first : ℕ × Runes → ℕ × Runes → Bool
unfolding runes_leb
comes_first (m, s) (n, t) = if nat_eqb m n then runes_leb s t else leb m n

-- sort.Slice by a score and a name.
unfoldable pub insert_by : {A : Type 0} → (A → ℕ × Runes) → A → List A → List A
unfolding comes_first
insert_by key a [] = a ∷ []
insert_by key a (b ∷ bs) =
    let rest = insert_by key a bs in if comes_first (key a) (key b) then a ∷ b ∷ bs else b ∷ rest

unfoldable pub sort_by : {A : Type 0} → (A → ℕ × Runes) → List A → List A
unfolding insert_by
sort_by key [] = []
sort_by key (a ∷ as') = insert_by key a (sort_by key as')

-- `out[:limit]`
unfoldable pub first_of : {A : Type 0} → ℕ → List A → List A
first_of zero xs = []
first_of (suc n) [] = []
first_of (suc n) (x ∷ xs) = x ∷ first_of n xs

-- The loop of rankSimilarModels over the rows.
unfoldable pub score_rows : Unicode → Runes → Runes → List Row → List SimilarModel
unfolding shown_name codes_eqb name_closeness is_hidden variant_of_row
score_rows u name exclude [] = []
score_rows u name exclude (row ∷ rows) =
    let rest = score_rows u name exclude rows in
    let shown = shown_name row in
    if codes_eqb shown [] || codes_eqb shown exclude
    then rest
    else elim (name_closeness u name shown) [
      | none ↦ rest
      | some found ↦
          record {
            name = shown;
            score = found.0;
            why = found.1;
            hidden = is_hidden row;
            variant_of = variant_of_row row;
          }
          ∷ rest
    ]

-- rankSimilarModels
unfoldable pub rank_similar_models : Unicode → Runes → List Row → ℕ → Runes → List SimilarModel
unfolding score_rows sort_by first_of rank_key
rank_similar_models u name rows limit exclude =
    first_of limit (sort_by rank_key (score_rows u name exclude rows))

-- hiddenFilteredRows
unfoldable pub hidden_filtered_rows : List Row → Bool → List Row
unfolding keep is_hidden
hidden_filtered_rows rows include_hidden =
    if include_hidden then rows else keep (λ row. not (is_hidden row)) rows

-- A column whose key or label is close to a word.
pub record ColumnMatch : Type 0 where
  pub score : ℕ
  pub key : Runes
  pub label : Runes

unfoldable pub match_key : ColumnMatch → ℕ × Runes
match_key m = (m.score, m.key)

-- The loop of closeColumns over the columns, by the text that a column is known by.
unfoldable pub close_matches : Unicode → (Column → String) → Runes → List Column → List ColumnMatch
unfolding closeness_reason codes
close_matches u known_by word [] = []
close_matches u known_by word (c ∷ cs) =
    let rest = close_matches u known_by word cs in
    elim (closeness_reason u (codes (known_by c)) word) [
      | none ↦ rest
      | some found ↦ record { score = found.0; key = codes c.key; label = codes c.label } ∷ rest
    ]

-- closeColumns
unfoldable pub close_columns : Unicode → Runes → List Column → List ColumnMatch × List ColumnMatch
unfolding close_matches sort_by match_key first_of
close_columns u word columns =
    let pick : List ColumnMatch → List ColumnMatch = λ all. first_of 5 (sort_by match_key all) in
    (
      pick (close_matches u (λ c. c.key) word columns),
      pick (close_matches u (λ c. c.label) word columns),
    )
