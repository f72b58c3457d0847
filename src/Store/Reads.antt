-- ===== src/Store/Reads.antt =====
-- Reading a cell: the `answers` view (internal/dbcore/pivotcontract.go) and who answered it
-- (internal/store/provenance.go).
pub mod Answers
use models_db.Prelude.{
  ℕ, zero, suc, ◌+◌, String, Bool, true, false, ◌&&◌, ◌||◌, not, Option, none, some, List, [], ◌∷◌,
  ltb, leb, if◌then◌else◌, str_eq, any, length, contains, string_eq,
}
use models_db.Prelude.Table.{Table, lookup}
use models_db.Store.Source.{
  Source, open_router, hugging_face, research, hand, app, kind_is_fetched, source_eqb, source_eq,
}
use models_db.Store.Schema.{Column, Resolve, first_stated, union, CellKey, cell_key_eq, Cell, Db}
use models_db.Store.Cells.{cell_key}

abbrev pub all_sources : List Source
all_sources = open_router ∷ hugging_face ∷ research ∷ hand ∷ app ∷ []

-- The rank of a source on a column, from `n`: its position in column_sources, and the largest int
-- where it has no row there (COALESCE(rank, 2147483647)).
unfoldable pub rank_from : ℕ → List Source → Source → ℕ
rank_from n [] src = 2147483647
rank_from n (s ∷ rest) src =
    let later = rank_from (suc n) rest src in if source_eqb s src then n else later

abbrev pub rank : Column → Source → ℕ
rank c src = rank_from 0 c.sources src

abbrev pub held : Column → String → Source → Db → Bool
held c name src db = elim (lookup (cell_key c src name) db.cells) [ none ↦ false | some _ ↦ true ]

-- NOT EXISTS of the view: another source of the same column and model has a lower rank. By the
-- primary key the rows of one column and model are those of the five sources.
unfoldable pub outranked : Column → String → Source → Db → Bool
unfolding rank_from
outranked c name src db = any (λ s. held c name s db && ltb (rank c s) (rank c src)) all_sources

-- The row of the view for one column, model and source.
unfoldable pub answer_row : Column → String → Source → Db → Option Cell
unfolding outranked
answer_row c name src db =
    if outranked c name src db then none else lookup (cell_key c src name) db.cells

-- The answer of the first source, in the order of the ranks, that has a cell.
unfoldable pub first_cell : List Source → Column → String → Db → Option (Source × Cell)
first_cell [] c name db = none
first_cell (src ∷ rest) c name db =
    let later = first_cell rest c name db in
    elim (lookup (cell_key c src name) db.cells) [ none ↦ later | some cell ↦ some (src, cell) ]

-- The texts of the automatic sources' cells, each once: the keys of `automatic` in AllProvenance.
unfoldable pub automatic_texts : List Source → Column → String → Db → List String
unfolding contains
automatic_texts [] c name db = []
automatic_texts (src ∷ rest) c name db =
    let later = automatic_texts rest c name db in
    if kind_is_fetched src
    then elim (lookup (cell_key c src name) db.cells) [
      | none ↦ later
      | some cell ↦ if contains later cell.value_text then later else cell.value_text ∷ later
    ]
    else later

-- What AllProvenance says of one cell: who answers it ("merged" as none), whether it is disputed,
-- and whether a research answer on it is overtaken.
pub record Provenance : Type 0 where
  pub answered_by : Option Source
  pub disputed : Bool
  pub overtaken : Bool

abbrev is_union : Resolve → Bool
is_union first_stated = false
is_union union = true

-- neverDisputed
unfoldable pub never_disputed : String → Bool
never_disputed key = str_eq key "description" || str_eq key "created_at"

-- The loop body of AllProvenance, for a column and a model with a cell.
unfoldable pub provenance : Column → String → Db → Option Provenance
unfolding first_cell automatic_texts never_disputed
provenance c name db =
    let automatic = automatic_texts c.sources c name db in
    elim (first_cell c.sources c name db) [
      | none ↦ none
      | some (winner, cell) ↦ some (record {
        answered_by =
            if is_union c.resolve && not (leb (length automatic) 0) then none else some winner;
        disputed = leb 2 (length automatic) && not (never_disputed c.key);
        overtaken =
            contains c.sources research
            && held c name research db
            && not (leb (length automatic) 0);
      })
    ]
