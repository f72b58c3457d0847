-- ===== src/App/QueryTests.antt =====
-- Runs of the query grammar, of edit distances and of the search for similar names at concrete inputs.
use models_db.Prelude.{
  ℕ, ◌≤◌, ◌≡◌, ◌↔◌, refl, Bool, true, false, none, some, List, [], ◌∷◌, map, keep, All, Some, here,
  there, nat_eqb, leb, String,
}
use models_db.Prelude.Text.{codes}
use models_db.Prelude.Runes.{Runes, Unicode}
use models_db.Store.Source.{hugging_face, open_router}
use models_db.Store.Schema.{Column, ValueType, first_stated}
use models_db.App.Closeness.{edit_distance, within_changes, shares_word, closeness_reason}
use models_db.App.Closeness.Distance.{Changes, edit_distance-least}
use models_db.App.Query.{
  Host, Row, text, switch, shown_name, cell_of, digits_of, day_of, parses_as_day, split_members,
}
use models_db.App.Query.Days.{day_filters_iff}
use models_db.App.Query.Members.{write_members, split_members-write_members}
use models_db.App.Query.Read.{
  QueryError, not_a_figure, Reply, refused, reply, min_figure, max_figure, CellTest, read_cell_test,
  from_day, to_day,
}
use models_db.App.Query.Match.{ask_matches, cell_test_matches}
use models_db.App.Query.Answer.{
  Params, ModelQuery, parse_model_query, is_kept, project, filter_and_project,
}
use models_db.App.Query.Answer.Refusals.{at_first, at_later, filter_and_project-refuses_unknown}
use models_db.App.Query.Answer.Kept.{Meets, filter_and_project-answers}
use models_db.App.Query.Answer.Filters.{filter_and_project-drops_no_filter}
use models_db.App.Similar.{rank_similar_models, fold_name, name_closeness}
use models_db.App.Similar.Question.{SimilarQuery, parse_similar_query, default_limit}
use models_db.App.Similar.Question

program : Unit {0}
unfolding edit_distance closeness_reason parse_model_query filter_and_project is_kept project
    rank_similar_models fold_name name_closeness parse_similar_query cell_of day_of split_members
    codes read_cell_test ask_matches write_members
program = tt

abbrev ascii : Unicode
ascii = record {
  lower_beyond = λ c. c;
  fold_beyond = λ c. c;
  letter_beyond = λ c. false;
  digit_beyond = λ c. false;
}

-- Figures without a fraction stand for themselves.
abbrev host : Host
host = record {
  unicode = ascii;
  json_array = λ s. none;
  Float = ℕ;
  nearest = λ d. d.digits;
  at_most = leb;
  is_zero = λ n. nat_eqb n 0;
}

abbrev column : ℕ → String → ValueType → Column
column id key value_type = record {
  id = id;
  key = key;
  label = key;
  value_type = value_type;
  resolve = first_stated;
  unit = "";
  about = "";
  position = id;
  visible = true;
  sealed = false;
  created_at = "";
  options = [];
  sources = hugging_face ∷ open_router ∷ [];
  colors = none;
}

abbrev columns : List Column
columns =
    column 1 "context_length" ValueType.number
    ∷ column 2 "created_at" ValueType.text
    ∷ column 3 "license" ValueType.text
    ∷ []

abbrev row : String → Bool → String → String → String → Row
row name hidden context created license = record {
  fields = (codes "name", text (codes name)) ∷ (codes "hidden", switch hidden) ∷ [];
  cells =
      (codes "context_length", codes context)
      ∷ (codes "created_at", codes created)
      ∷ (codes "license", codes license)
      ∷ [];
  answered_by = (codes "license", codes "huggingface") ∷ [];
}

abbrev rows : List Row
rows =
    row "Qwen3-32B" false "32768" "2025-04-28" "Apache-2.0"
    ∷ row "Qwen3-8B" true "32768" "2025-04-28T10:00:00Z" "apache-2.0"
    ∷ row "Gemma 3" false "131072" "2025-02-30" "gemma"
    ∷ []

-- The names of the rows that a request is answered with.
abbrev kept_names : Params → List Row → Reply (List Runes)
kept_names q all = elim (parse_model_query host q columns) as (λ _. Reply (List Runes)) [
  | refused e ↦ refused e
  | reply mq ↦ reply (map shown_name (keep (is_kept host mq) all))
]

abbrev at_least_16k : Params
at_least_16k = (codes "context_length", codes "min:16000" ∷ codes "max:40000" ∷ []) ∷ []

test_kept :
    (kept_names [] rows ≡ reply (codes "Qwen3-32B" ∷ codes "Gemma 3" ∷ []))
    × (kept_names at_least_16k rows ≡ reply (codes "Qwen3-32B" ∷ []))
    × (kept_names
          ((codes "include_hidden", codes "yes" ∷ [])
            ∷ (codes "license", codes "any:APACHE-2.0,MIT" ∷ [])
            ∷ [])
          rows
        ≡ reply (codes "Qwen3-32B" ∷ codes "Qwen3-8B" ∷ []))
    × (kept_names ((codes "created_at", codes "from:2025-01-01" ∷ []) ∷ []) rows
        ≡ reply (codes "Qwen3-32B" ∷ []))
    × (kept_names ((codes "license", codes "by:not_openrouter" ∷ codes "not:gemma" ∷ []) ∷ []) rows
        ≡ reply (codes "Qwen3-32B" ∷ []))
    × (kept_names ((codes "context_length", codes "min:many" ∷ []) ∷ []) rows
        ≡ refused (not_a_figure "context_length"))
unfolding program keep
test_kept = (refl, refl, refl, refl, refl, refl)

edit_distance-least_example :
    Changes (codes "kitten") (codes "sitting") (edit_distance (codes "kitten") (codes "sitting"))
    × ((n : ℕ)
        → Changes (codes "kitten") (codes "sitting") n
        → edit_distance (codes "kitten") (codes "sitting") ≤ n)
edit_distance-least_example = edit_distance-least (codes "kitten") (codes "sitting")

test_distance :
    (edit_distance (codes "kitten") (codes "sitting") ≡ 3)
    × (closeness_reason ascii (codes "context_length") (codes "min_context")
        ≡ some (5, shares_word (codes "context")))
    × (closeness_reason ascii (codes "license") (codes "lisense") ≡ some (2, within_changes 1))
    × (fold_name ascii (codes "Qwen/Qwen3-32B-FP8")
        ≡ codes "qwen"
          ∷ codes "qwen"
          ∷ codes "3"
          ∷ codes "32"
          ∷ codes "b"
          ∷ codes "fp"
          ∷ codes "8"
          ∷ [])
unfolding program
test_distance = (refl, refl, refl, refl)

parses_example : parses_as_day (codes "2025-01-01") ≡ true
unfolding program parses_as_day
parses_example = refl

day_filters_iff_example :
    ((ask_matches host
          (column 2 "created_at" ValueType.text)
          (from_day (codes "2025-01-01"))
          (row "a" false "1" "2025-04-28" "x")
        ≡ true)
      ↔ ((day : Runes) × (day_of
              (cell_of (column 2 "created_at" ValueType.text) (row "a" false "1" "2025-04-28" "x"))
            ≡ some day)
          × (digits_of (codes "2025-01-01") 0 ≤ digits_of day 0)))
    × ((ask_matches host
            (column 2 "created_at" ValueType.text)
            (to_day (codes "2025-01-01"))
            (row "a" false "1" "2025-04-28" "x")
          ≡ true)
        ↔ ((day : Runes) × (day_of (
                cell_of (column 2 "created_at" ValueType.text) (row "a" false "1" "2025-04-28" "x"))
              ≡ some day)
            × (digits_of day 0 ≤ digits_of (codes "2025-01-01") 0)))
day_filters_iff_example =
    day_filters_iff host (column 2 "created_at" ValueType.text) (row "a" false "1" "2025-04-28" "x")
      (codes "2025-01-01") parses_example

split_members-write_members_example :
    split_members (write_members (codes "a,b" ∷ [] ∷ codes "c" ∷ []))
    ≡ codes "a,b" ∷ [] ∷ codes "c" ∷ []
unfolding program
split_members-write_members_example =
    split_members-write_members (codes "a,b") ([] ∷ codes "c" ∷ [])
      ((refl, refl), ((refl, tt), ((refl, refl), tt)))

abbrev strange : Params
strange = (codes "context_length", codes "min:16000" ∷ []) ∷ (codes "contxt", codes "8" ∷ []) ∷ []

filter_and_project-refuses_unknown_example :
    (e : QueryError) × (filter_and_project host rows strange columns ≡ refused e)
unfolding program
filter_and_project-refuses_unknown_example =
    filter_and_project-refuses_unknown host rows strange columns (codes "contxt") (codes "8" ∷ [])
      (at_later at_first) refl (refl, (refl, (refl, tt)))

abbrev test_at_least : CellTest host
test_at_least = record {
  column = column 1 "context_length" ValueType.number;
  ask = min_figure 16000;
}

abbrev test_at_most : CellTest host
test_at_most = record {
  column = column 1 "context_length" ValueType.number;
  ask = max_figure 40000;
}

abbrev question : ModelQuery host
question = record {
  include_hidden = false;
  hide_free = false;
  hide_zero = [];
  links = [];
  name = [];
  tests = test_at_least ∷ test_at_most ∷ [];
  identity = [];
  cells = [];
  projecting = false;
}

question_is_read : parse_model_query host at_least_16k columns ≡ reply question
unfolding program
question_is_read = refl

filter_and_project-answers_example :
    (filter_and_project host rows at_least_16k columns
      ≡ reply (map (project host question) (keep (is_kept host question) rows)))
    × ((r : Row) → (is_kept host question r ≡ true) ↔ Meets host question r)
filter_and_project-answers_example =
    filter_and_project-answers host rows at_least_16k columns question question_is_read

filter_and_project-drops_no_filter_example :
    (c : Column) × (t : CellTest host) × Some
      (λ d. (d ≡ c) × (codes c.key ≡ codes "context_length"))
      columns
    × (read_cell_test host c (codes "max:40000") ≡ reply t)
    × (filter_and_project host rows at_least_16k columns
        ≡ reply (map (project host question) (keep (is_kept host question) rows)))
    × All (λ r. cell_test_matches host t r ≡ true) (keep (is_kept host question) rows)
unfolding program
filter_and_project-drops_no_filter_example =
    filter_and_project-drops_no_filter host rows at_least_16k columns question
      (codes "context_length") (codes "min:16000" ∷ codes "max:40000" ∷ []) (codes "max:40000")
      question_is_read at_first refl (there (here refl))

abbrev similar_params : Params
similar_params = (codes "name", codes "qwen3" ∷ []) ∷ (codes "limit", codes "50" ∷ []) ∷ []

abbrev similar_question : SimilarQuery
similar_question = record { name = codes "qwen3"; limit = 50; include_hidden = false }

similar_question_is_read : parse_similar_query host similar_params ≡ Question.reply similar_question
unfolding program
similar_question_is_read = refl
