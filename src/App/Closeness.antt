-- ===== src/App/Closeness.antt =====
-- internal/app/modelquery.go: how alike two words are (editDistance, sharesAWord, closenessReason), and
-- internal/app/similarnames.go: how alike two model names are (foldName, nameCloseness). The negative
-- score of a pair that is not alike is `none`.
pub mod Distance
use models_db.Prelude.{
  ℕ, zero, suc, ◌+◌, min, Bool, true, false, not, ◌&&◌, ◌||◌, Option, none, some, List, [], ◌∷◌,
  ◌++◌, map, nat_eqb, leb, ltb, length, if◌then◌else◌, any, keep, contains,
}
use models_db.Prelude.Text.{codes_eqb, codes_eq}
use models_db.Prelude.Runes.{
  Runes, Unicode, lower, trim, has_part, runes_leb, is_letter, is_decimal_digit,
}

unfoldable pub cost : ℕ → ℕ → ℕ
cost x y = if nat_eqb x y then 0 else 1

-- The inner loop of editDistance: the cells of the current row from the one after `left` on, with the
-- previous row from the cell above `left` on.
unfoldable pub fill_cells : ℕ → Runes → ℕ → List ℕ → List ℕ
unfolding cost
fill_cells x (y ∷ ys) left (diagonal ∷ above ∷ previous) =
    let cell = min (above + 1) (min (left + 1) (diagonal + cost x y)) in
    cell ∷ fill_cells x ys cell (above ∷ previous)
fill_cells x _ left previous = []

-- The first row.
unfoldable pub count_from : ℕ → Runes → List ℕ
count_from j [] = j ∷ []
count_from j (y ∷ ys) = j ∷ count_from (suc j) ys

-- The outer loop, at its row `i`.
unfoldable pub fill_rows : ℕ → Runes → Runes → List ℕ → List ℕ
unfolding fill_cells
fill_rows i [] b previous = previous
fill_rows i (x ∷ a) b previous = fill_rows (suc i) a b (i ∷ fill_cells x b i previous)

unfoldable pub last_cell : List ℕ → ℕ
last_cell [] = 0
last_cell (n ∷ []) = n
last_cell (n ∷ m ∷ ns) = last_cell (m ∷ ns)

-- editDistance
unfoldable pub edit_distance : Runes → Runes → ℕ
unfolding count_from fill_rows last_cell
edit_distance a b = last_cell (fill_rows 1 a b (count_from 0 b))

-- The bytes of a code point in UTF-8.
unfoldable pub rune_bytes : ℕ → ℕ
rune_bytes c = if ltb c 0x80 then 1 else if ltb c 0x800 then 2 else if ltb c 0x10000 then 3 else 4

unfoldable pub byte_length : Runes → ℕ
unfolding rune_bytes
byte_length [] = 0
byte_length (c ∷ s) = rune_bytes c + byte_length s

unfoldable pub breaks_word : ℕ → Bool
breaks_word c = nat_eqb c b'.' || nat_eqb c b'_' || nat_eqb c b' ' || nat_eqb c b'-'

-- The parts between the code points that a test marks, the empty ones too.
unfoldable pub parts_at : (ℕ → Bool) → Runes → List Runes
parts_at sep [] = [] ∷ []
parts_at sep (c ∷ s) = elim (parts_at sep s) [
  | [] ↦ []
  | (part ∷ parts) ↦ if sep c then [] ∷ part ∷ parts else (c ∷ part) ∷ parts
]

-- The words that sharesAWord compares: an empty part is shorter than three bytes too.
unfoldable pub long_words : Runes → List Runes
unfolding parts_at breaks_word byte_length keep
long_words s = keep (λ part. ltb 2 (byte_length part)) (parts_at breaks_word s)

-- The first of some texts in byte order.
unfoldable pub first_in_order : List Runes → Option Runes
unfolding runes_leb
first_in_order [] = none
first_in_order (w ∷ ws) = elim (first_in_order ws) [
  | none ↦ some w
  | some v ↦ if runes_leb w v then some w else some v
]

-- sharesAWord
unfoldable pub shares_a_word : Runes → Runes → Option Runes
unfolding long_words first_in_order keep contains
shares_a_word candidate word =
    let theirs = long_words word in first_in_order (keep (contains theirs) (long_words candidate))

pub data Reason : Type 0 where
  same_name one_contains_other : Reason
  within_changes : ℕ → Reason
  shares_word : Runes → Reason

module _ (u : Unicode) where
  -- closenessReason
  unfoldable pub closeness_reason : Runes → Runes → Option (ℕ × Reason)
  unfolding lower trim edit_distance shares_a_word has_part
  closeness_reason candidate word =
      let c = lower u (trim candidate) in
      let w = lower u (trim word) in
      let changes = edit_distance c w in
      if codes_eqb c [] || codes_eqb w []
      then none
      else if codes_eqb c w
      then some (0, same_name)
      else if has_part w c || has_part c w
      then some (1, one_contains_other)
      else if leb changes 3 && ltb changes (length w)
      then some (1 + changes, within_changes changes)
      else elim (shares_a_word c w) [ none ↦ none | some shared ↦ some (5, shares_word shared) ]
