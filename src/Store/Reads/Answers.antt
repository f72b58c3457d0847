-- ===== src/Store/Reads/Answers.antt =====
-- internal/dbcore/pivotcontract.go: the rows of the answers view and the order of the sources.
use models_db.Prelude.{
  ℕ, suc, ◌≤◌, String, ◌≡◌, ◌↔◌, inl, inr, Bool, true, false, ◌&&◌, none, some, List, [], ◌∷◌,
  arith, ltb, contains, Bool-cases, Option-cases,
}
use models_db.Prelude.Table.{lookup}
use models_db.Store.Source.{
  Source, open_router, hugging_face, research, hand, app, source_eqb_iff, source_eq,
}
use models_db.Store.Schema.{Column, cell_key_eq, Cell, Db}
use models_db.Store.Cells.{cell_key}
use models_db.Store.Reads.{rank_from, rank, held, outranked, answer_row, first_cell}

-- The rank of a declared source is below the bound, from `n` on.
rank_from-le :
    (n : ℕ) (ss : List Source) (src : Source) → contains ss src ≡ true → n ≤ rank_from n ss src
unfolding rank_from contains
rank_from-le n [] src h = cc
rank_from-le n (s ∷ ss) src h = ground (arith, rank_from-le (suc n) ss src)

-- The source of the first cell has a cell, is declared, and no declared source with a cell is before it.
first_cell-least :
    (n : ℕ) (ss : List Source) (c : Column) (name : String) (db : Db) {src : Source} {cell : Cell}
    → first_cell ss c name db ≡ some (src, cell)
    → (contains ss src ≡ true)
      × (lookup (cell_key c src name) db.cells ≡ some cell)
      × ((s : Source)
          → contains ss s ≡ true
          → held c name s db ≡ true
          → ltb (rank_from n ss s) (rank_from n ss src) ≡ false)
unfolding first_cell rank_from contains
first_cell-least n [] c name db h = cc
first_cell-least n (t ∷ ss) c name db {src} {cell} h =
    elim (Option-cases (lookup (cell_key c t name) db.cells)) [
      | inl nothing ↦
          let (declared, here, least) =
            first_cell-least (suc n) ss c name db {src = src} {cell = cell} (ground arith) in
          (
            ground arith,
            here,
            λ s d hs. ground (arith, least s, source_eqb_iff t s, source_eqb_iff t src),
          )
      | inr (d, there) ↦ (
        ground (arith, source_eqb_iff t t),
        ground arith,
        λ s d' hs.
            ground (arith, rank_from-le (suc n) ss s, source_eqb_iff t src, source_eqb_iff t s),
      )
    ]

first_cell-none :
    (ss : List Source) (c : Column) (name : String) (db : Db) (s : Source)
    → first_cell ss c name db ≡ none
    → contains ss s ≡ true
    → held c name s db ≡ false
unfolding first_cell contains
first_cell-none [] c name db s h d = cc
first_cell-none (t ∷ ss) c name db s h d =
    ground (arith, first_cell-none ss c name db s, source_eqb_iff t s)

-- Two declared sources of one rank are one.
rank_from-inj :
    (n : ℕ) (ss : List Source) (a b : Source)
    → contains ss a ≡ true
    → contains ss b ≡ true
    → rank_from n ss a ≡ rank_from n ss b
    → a ≡ b
unfolding rank_from contains
rank_from-inj n [] a b ha hb e = cc
rank_from-inj n (t ∷ ss) a b ha hb e = ground (
  arith,
  source_eqb_iff t a,
  source_eqb_iff t b,
  rank_from-le (suc n) ss a,
  rank_from-le (suc n) ss b,
  rank_from-inj (suc n) ss a b,
)

module _ (c : Column) (name : String) (db : Db) where
  abbrev beats : Source → Source → Bool
  beats s src = held c name s db && ltb (rank c s) (rank c src)

  outranked-false :
      (src : Source) → outranked c name src db ≡ false → (s : Source) → beats s src ≡ false
  unfolding outranked
  outranked-false src h open_router = ground arith
  outranked-false src h hugging_face = ground arith
  outranked-false src h research = ground arith
  outranked-false src h hand = ground arith
  outranked-false src h app = ground arith

  not-outranked :
      (src : Source) → ((s : Source) → beats s src ≡ false) → outranked c name src db ≡ false
  unfolding outranked
  not-outranked src h = ground (arith, h open_router, h hugging_face, h research, h hand, h app)

-- Where every cell of a column and model is of a source the column declares, the `answers` view has
-- a row for exactly the first source of the column, in its declared order, that has a cell, and the
-- row is that cell.
pub answer_row_iff :
    (c : Column) (name : String) (db : Db)
    → ((s : Source) → held c name s db ≡ true → contains c.sources s ≡ true)
    → (src : Source) (cell : Cell)
    → (answer_row c name src db ≡ some cell) ↔ (first_cell c.sources c name db ≡ some (src, cell))
unfolding answer_row
answer_row_iff c name db declared src cell = (
  λ h.
      let clear = outranked-false c name db src (ground arith) in
      let known = declared src (ground arith) in
      elim (Option-cases (first_cell c.sources c name db)) [
        | inl nothing ↦
            absurd (ground (arith, first_cell-none c.sources c name db src nothing known))
        | inr ((w, cw), found) ↦
            let (dw, here, least) = first_cell-least 0 c.sources c name db found in
            ground
              (arith, clear w, least src known, rank_from-inj 0 c.sources w src dw known, h, here)
      ],
  λ found.
      let (d, here, least) = first_cell-least 0 c.sources c name db found in
      ground (
        arith,
        not-outranked c name db src (λ s. elim (Bool-cases (held c name s db)) [
          | inl has ↦ ground (arith, least s (declared s has) has)
          | inr hasnt ↦ ground arith
        ]),
      ),
)
