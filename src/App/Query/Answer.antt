-- ===== src/App/Query/Answer.antt =====
-- internal/app/modelquery.go: parseModelQuery over the parameters of a request, filterAndProject over
-- the rows, and project.
pub mod Refusals
pub mod Kept
pub mod Growth
pub mod Filters
use models_db.Prelude.{
  ℕ, Bool, true, false, not, ◌&&◌, ◌||◌, Option, none, some, List, [], ◌∷◌, ◌++◌, map, any,
  contains, if◌then◌else◌, String,
}
use models_db.Prelude.Table.{Table, lookup, keys}
use models_db.Prelude.Text.{codes, codes_eqb, codes_eq}
use models_db.Prelude.Runes.{Runes, trim, runes_leb}
use models_db.Store.Schema.{Column}
use models_db.App.Search.{SearchExpr, parse_search, matches}
use models_db.App.Query.{Host, Field, Row, shown_name, is_hidden, truthy_param, split_list, is_word}
use models_db.App.Query.Read.{
  QueryError, unknown_parameter, unknown_field, Reply, refused, reply, ◌>>=◌, CellTest, LinkTest,
  read_cell_test, read_link_test, read_hide_free,
}
use models_db.App.Query.Match.{cell_test_matches, link_test_matches, is_zero_in, is_free_listing}

-- The parameters of a request: url.Values, with every value of each name.
abbrev pub Params : Type 0
Params = Table Runes (List Runes)

pub record ModelQuery (h : Host) : Type 0 where
  pub include_hidden : Bool
  pub hide_free : Bool
  pub hide_zero : List Column
  pub links : List LinkTest
  pub name : SearchExpr
  pub tests : List (CellTest h)
  pub identity : List Runes
  pub cells : List Runes
  pub projecting : Bool

-- `byKey`, a map in which the last column of a key counts.
unfoldable pub by_key : List Column → Table Runes Column → Table Runes Column
unfolding codes
by_key [] t = t
by_key (c ∷ cs) t = by_key cs ((codes c.key, c) ∷ t)

-- `q.Get(name)`
unfoldable pub first_value : List Runes → Runes
first_value [] = []
first_value (v ∷ vs) = v

-- sort.Strings
unfoldable pub insert_param : Runes × List Runes → Params → Params
unfolding runes_leb
insert_param p [] = p ∷ []
insert_param p (r ∷ rs) =
    let rest = insert_param p rs in if runes_leb p.0 r.0 then p ∷ r ∷ rs else r ∷ rest

unfoldable pub sort_params : Params → Params
unfolding insert_param
sort_params [] = []
sort_params (p ∷ ps) = insert_param p (sort_params ps)

-- A loop that reads each value and stops at the first refusal.
unfoldable pub read_each : {A : Type 0} → (Runes → Reply A) → List Runes → Reply (List A)
read_each read [] = reply []
read_each read (v ∷ vs) = do a ← read v; rest ← read_each read vs; reply (a ∷ rest)

module _ (h : Host) where
  -- The loop over the names of fields=.
  unfoldable pub read_fields : Table Runes Column → List Runes → ModelQuery h → Reply (ModelQuery h)
  unfolding lookup is_word
  read_fields columns [] mq = reply mq
  read_fields columns (field ∷ fields) mq =
      if is_word field ("name" ∷ "source" ∷ "hidden" ∷ "variant_of" ∷ "_raw" ∷ [])
      then read_fields columns fields (record mq { identity = mq.identity ++ field ∷ [] })
      else elim (lookup field columns) [
        | none ↦ refused (unknown_field field)
        | some c ↦ read_fields columns fields (record mq { cells = mq.cells ++ field ∷ [] })
      ]

  unfoldable pub read_include_hidden : List Runes → ModelQuery h → Reply (ModelQuery h)
  unfolding truthy_param first_value
  read_include_hidden values mq =
      reply (record mq { include_hidden = truthy_param h (first_value values) })

  unfoldable pub read_free : Table Runes Column → List Runes → ModelQuery h → Reply (ModelQuery h)
  unfolding read_hide_free first_value
  read_free columns values mq = do
    r ← read_hide_free h columns (first_value values)
    reply (record mq { hide_free = r.0; hide_zero = r.1 })

  unfoldable pub read_links : List Runes → ModelQuery h → Reply (ModelQuery h)
  unfolding read_each read_link_test
  read_links values mq = do
    tests ← read_each (read_link_test h) values
    reply (record mq { links = mq.links ++ tests })

  unfoldable pub read_name : List Runes → ModelQuery h → Reply (ModelQuery h)
  unfolding parse_search first_value
  read_name values mq = reply (record mq { name = parse_search h.unicode (first_value values) })

  unfoldable pub read_tests :
      Table Runes Column → Runes → List Runes → ModelQuery h → Reply (ModelQuery h)
  unfolding lookup read_each read_cell_test
  read_tests columns param values mq = elim (lookup param columns) [
    | none ↦ refused (unknown_parameter param)
    | some column ↦ read_each (read_cell_test h column) values >>= λ tests.
        reply (record mq { tests = mq.tests ++ tests })
  ]

  -- The body of the loop over the parameters.
  unfoldable pub read_param :
      Table Runes Column → Runes × List Runes → ModelQuery h → Reply (ModelQuery h)
  unfolding codes codes_eqb read_include_hidden read_free read_links read_name read_fields
      read_tests split_list first_value
  read_param columns (param, values) mq =
      if codes_eqb param (codes "include_hidden")
      then read_include_hidden values mq
      else if codes_eqb param (codes "hide_free")
      then read_free columns values mq
      else if codes_eqb param (codes "links")
      then read_links values mq
      else if codes_eqb param (codes "name")
      then read_name values mq
      else if codes_eqb param (codes "fields")
      then read_fields columns (split_list (first_value values)) (record mq { projecting = true })
      else read_tests columns param values mq

  unfoldable pub read_params : Table Runes Column → Params → ModelQuery h → Reply (ModelQuery h)
  unfolding read_param
  read_params columns [] mq = reply mq
  read_params columns (p ∷ ps) mq = read_param columns p mq >>= read_params columns ps

  abbrev pub no_question : ModelQuery h
  no_question = record {
    include_hidden = false;
    hide_free = false;
    hide_zero = [];
    links = [];
    name = [];
    tests = [];
    identity = [];
    cells = [];
    projecting = false;
  }

  -- parseModelQuery
  unfoldable pub parse_model_query : Params → List Column → Reply (ModelQuery h)
  unfolding by_key sort_params read_params
  parse_model_query q columns = read_params (by_key columns []) (sort_params q) no_question

  -- The loop body of filterAndProject, up to the row it keeps.
  unfoldable pub is_kept : ModelQuery h → Row → Bool
  unfolding is_hidden is_free_listing is_zero_in link_test_matches cell_test_matches matches
      shown_name
  is_kept mq row =
      let zero = any (λ column. is_zero_in h column row) mq.hide_zero in
      let linked = not (any (λ t. not (link_test_matches t row)) mq.links) in
      let matched = not (any (λ t. not (cell_test_matches h t row)) mq.tests) in
      if not mq.include_hidden && is_hidden row
      then false
      else if mq.hide_free && is_free_listing h row
      then false
      else if mq.hide_free && zero
      then false
      else if not linked
      then false
      else if not (matches h.unicode mq.name (shown_name row ∷ []))
      then false
      else matched

-- What a request receives of a row: all of it, or the fields and the cells it named.
pub data Shown : Type 0 where
  whole : Row → Shown
  part : Table Runes Field → Option (Table Runes Runes) → Shown

-- The entries of a map under some keys.
unfoldable pub entries_at : {V : Type 0} → List Runes → Table Runes V → Table Runes V
unfolding lookup
entries_at [] t = []
entries_at (key ∷ keys) t =
    let rest = entries_at keys t in elim (lookup key t) [ none ↦ rest | some v ↦ (key, v) ∷ rest ]

module _ (h : Host) where
  -- modelQuery.project
  unfoldable pub project : ModelQuery h → Row → Shown
  unfolding entries_at
  project mq row =
      let cells : Option (Table Runes Runes) = elim mq.cells [
        | [] ↦ none
        | (k ∷ ks) ↦ some (entries_at (k ∷ ks) row.cells)
      ] in
      if mq.projecting then part (entries_at mq.identity row.fields) cells else whole row

  unfoldable pub filter_rows : ModelQuery h → List Row → List Shown
  unfolding is_kept project
  filter_rows mq [] = []
  filter_rows mq (row ∷ rows) =
      let rest = filter_rows mq rows in if is_kept h mq row then project mq row ∷ rest else rest

  -- filterAndProject
  unfoldable pub filter_and_project : List Row → Params → List Column → Reply (List Shown)
  unfolding parse_model_query filter_rows
  filter_and_project rows q columns = do
    mq ← parse_model_query h q columns
    reply (filter_rows mq rows)
