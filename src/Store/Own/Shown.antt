-- ===== src/Store/Own/Shown.antt =====
-- internal/store/savecells.go and the answers view: a save and the row that is read afterwards.
use models_db.Prelude.{
  String, ◌≡◌, ◌≢◌, inl, inr, refl, Bool, true, false, ◌||◌, none, some, List, [], ◌∷◌, arith,
  str_eq, contains, ◌∙◌, Option-cases, Bool-cases, ◌&&◌,
}
use models_db.Prelude.Table.{Table, lookup}
use models_db.Prelude.Text.{trim_space}
use models_db.Shared.Number.{Floats}
use models_db.Store.Source.{
  Source, open_router, hugging_face, app, research, hand, is_fetched, kind_is_fetched,
  kind_is_fetched-eq-is_fetched, source_eq, source_eqb, source_eqb_iff,
}
use models_db.Store.Schema.{Column, CellKey, cell_key_eq, Cell, Db, ok, find_column, after}
use models_db.Store.Cells.{cell_key, value_at}
use models_db.Store.Cells.Effect.{at, stored, has_key}
use models_db.Store.Cells.Invariant.{IsWellFormed}
use models_db.Store.Cells.Writes.{Takes}
use models_db.Store.Columns.Sources.{IsRanked, IsDeclarable}
use models_db.Store.Reads.{held, answer_row, first_cell}
use models_db.Store.Reads.Answers.{answer_row_iff}
use models_db.Store.Own.{automatic_from, own_cells, rounded_for_storage}
use models_db.Store.Own.Rule.{own_source, MayWrite}
use models_db.Store.Own.Saves.{
  own_cells-accepts_iff, own_cells-writes, value_at-rounded_cells, own_cells-IsWellFormed,
}

-- A value that a column takes and that is not blank is stored.
stored_of_Takes :
    (c : Column) (value stamp : String)
    → Takes c value
    → str_eq (trim_space value) "" ≡ false
    → (cell : Cell) × (stored c value stamp ≡ some cell)
stored_of_Takes c value stamp t filled = elim (Option-cases (stored c value stamp)) [
  | inl nothing ↦ absurd (ground arith)
  | inr found ↦ found
]

automatic_from-none :
    (ss : List Source) (c : Column) (name : String) (db : Db) (s : Source)
    → automatic_from ss c name db ≡ none
    → contains ss s ≡ true
    → kind_is_fetched s ≡ true
    → at c s name db ≡ none
unfolding automatic_from contains
automatic_from-none [] c name db s h d f = cc
automatic_from-none (t ∷ ss) c name db s h d f =
    ground (arith, automatic_from-none ss c name db s, source_eqb_iff t s)

IsRanked-no_hand : (ss : List Source) → IsRanked ss → contains ss hand ≡ false
unfolding contains is_fetched source_eqb
IsRanked-no_hand [] r = refl
IsRanked-no_hand (open_router ∷ ss) (f, r) = IsRanked-no_hand ss r
IsRanked-no_hand (hugging_face ∷ ss) (f, r) = IsRanked-no_hand ss r
IsRanked-no_hand (research ∷ ss) (f, r) = IsRanked-no_hand ss r
IsRanked-no_hand (hand ∷ ss) (f, r) = ground arith
IsRanked-no_hand (app ∷ ss) (f, r) = IsRanked-no_hand ss r

-- Where no automatic source has a cell, research answers.
first_cell_research :
    (ss : List Source) (c : Column) (name : String) (db : Db) (cell : Cell)
    → IsRanked ss
    → contains ss research ≡ true
    → ((s : Source) → contains ss s ≡ true → is_fetched s ≡ true → at c s name db ≡ none)
    → at c research name db ≡ some cell
    → first_cell ss c name db ≡ some (research, cell)
unfolding first_cell contains
first_cell_research [] c name db cell r d none_held h = cc
first_cell_research (t ∷ ss) c name db cell (inl f, r) d none_held h =
    let rest =
      first_cell_research ss c name db cell r
        (unfold is_fetched in ground (arith, source_eqb_iff t research))
        (λ s ds fs. none_held s (ground arith) fs) h in
    ground (arith, none_held t, source_eqb_iff t t)
first_cell_research (t ∷ ss) c name db cell (inr (e, last), r) d none_held h = ground arith

-- A column of the reader's own declares nobody else.
hand_alone : (ss : List Source) → IsDeclarable ss → contains ss hand ≡ true → ss ≡ hand ∷ []
unfolding contains source_eqb
hand_alone ss (inl e) d = e
hand_alone ss (inr (inl e)) d = ground arith
hand_alone ss (inr (inr (_, r, _))) d = ground (arith, IsRanked-no_hand ss r)

research_IsRanked : (ss : List Source) → IsDeclarable ss → contains ss research ≡ true → IsRanked ss
unfolding contains source_eqb
research_IsRanked ss (inl e) d = ground arith
research_IsRanked ss (inr (inl e)) d = ground arith
research_IsRanked ss (inr (inr (_, r, _))) d = r

held_declared :
    (k : String) (c : Column) (name : String) (db : Db)
    → IsWellFormed db
    → find_column k db.columns ≡ some c
    → (s : Source) → held c name s db ≡ true
    → contains c.sources s ≡ true
held_declared k c name db well found s h =
    elim (Option-cases (lookup (cell_key c s name) db.cells)) [
      | inl nothing ↦ absurd (ground arith)
      | inr (cell, there) ↦
          let sound = well.cells (cell_key c s name) cell there in
          let same = well.distinct sound.key k sound.column c sound.found found sound.id in
          ground (arith, sound.declared, sound.found, same)
    ]

fetched_not_own :
    (s : Source) (b : Bool)
    → is_fetched s ≡ true
    → b && (source_eqb s research || source_eqb s hand) ≡ false
unfolding is_fetched source_eqb
fetched_not_own open_router b f = ground arith
fetched_not_own hugging_face b f = ground arith
fetched_not_own _ b f = cc

first_after :
    (name : String) (db db' : Db) (c : Column) (value : String) (cell : Cell)
    → IsDeclarable c.sources
    → MayWrite c name value db
    → str_eq (trim_space value) "" ≡ false
    → at c (own_source c) name db' ≡ some cell
    → ((j : CellKey)
        → str_eq j.model name && (source_eqb j.source research || source_eqb j.source hand) ≡ false
        → lookup j db'.cells ≡ lookup j db.cells)
    → first_cell c.sources c name db' ≡ some (own_source c, cell)
first_after name db db' c value cell declarable may filled here kept =
    elim (Bool-cases (contains c.sources hand)) [
      | inl yours ↦
          let alone = hand_alone c.sources declarable yours in
          unfold first_cell own_source in ground (arith, alone, here)
      | inr gap ↦
          let research_in : contains c.sources research ≡ true = ground (arith, may) in
          let nothing : automatic_from c.sources c name db ≡ none = ground (arith, may) in
          let ranked = research_IsRanked c.sources declarable research_in in
          let own : own_source c ≡ research = unfold own_source in ground arith in
          rw own (
            first_cell_research c.sources c name db' cell ranked research_in
              (λ s ds fs.
                let f : kind_is_fetched s ≡ true =
                  ground (arith, kind_is_fetched-eq-is_fetched s) in
                kept (cell_key c s name) (fetched_not_own s (str_eq name name) fs)
                ∙ automatic_from-none c.sources c name db s nothing ds f)
              (rw own at here))
    ]

-- After an accepted save on a well-formed catalog, for every key of the request whose column
-- declares a list of sources that may be declared, and whose value, rounded where the column is, is
-- not blank: the `answers` view has exactly one row for the column and the model, and it is the
-- value saved, as the source the save wrote.
pub own_cells-shown :
    (fl : Floats) (stamp name : String) (cells : Table String String) (db db' : Db)
    → IsWellFormed db
    → own_cells fl stamp name cells db ≡ ok db'
    → (k : String) (c : Column) → find_column k db.columns ≡ some c
    → IsDeclarable c.sources
    → has_key k cells ≡ true
    → str_eq (trim_space (rounded_for_storage fl k (value_at k cells))) "" ≡ false
    → (cell : Cell) × (stored c (rounded_for_storage fl k (value_at k cells)) stamp ≡ some cell)
      × (answer_row c name (own_source c) db' ≡ some cell)
      × ((s : Source) → s ≢ own_source c → answer_row c name s db' ≡ none)
own_cells-shown fl stamp name cells db db' well done k c found declarable sent filled =
    let value = rounded_for_storage fl k (value_at k cells) in
    let (wrote, kept, columns, _, _) = own_cells-writes fl stamp name cells db well db' done in
    let w = ((own_cells-accepts_iff fl stamp name cells db).0 (db', done)).1 k sent in
    let e = value_at-rounded_cells fl k cells sent in
    let takes : Takes c value = ground (arith, w.takes, w.found, e) in
    let (cell, is_stored) = stored_of_Takes c value stamp takes filled in
    let here : at c (own_source c) name db' ≡ some cell = ground (arith, wrote k c found) in
    let may : MayWrite c name value db = ground (arith, w.may, w.found, e) in
    let first = first_after name db db' c value cell declarable may filled here kept in
    let well' : IsWellFormed db' =
      unfold after in rw done at (own_cells-IsWellFormed fl stamp name cells db well) in
    let found' : find_column k db'.columns ≡ some c = ground (arith, columns, found) in
    let iff = answer_row_iff c name db' (held_declared k c name db' well' found') in
    (
      cell,
      is_stored,
      (iff (own_source c) cell).1 first,
      λ s other. elim (Option-cases (answer_row c name s db')) [
        | inl nothing ↦ nothing
        | inr (x, there) ↦ absurd (other (ground (arith, (iff s x).0 there, first)))
      ],
    )
