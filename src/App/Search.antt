-- ===== src/App/Search.antt =====
-- internal/app/searchsyntax.go: the words, phrases, ! and AND/OR that every text box understands.
-- The loop over the text runs on fuel, one unit for each term it reads.
pub mod Loop
pub mod Written
pub mod Meaning
use models_db.Prelude.{
  ℕ, zero, suc, Bool, true, false, not, ◌&&◌, ◌||◌, Option, none, some, List, [], ◌∷◌, ◌++◌, map,
  nat_eqb, length, if◌then◌else◌, any, ◌+◌,
}
use models_db.Prelude.Text.{codes, codes_eqb}
use models_db.Prelude.Runes.{Runes, Unicode, lower, has_part}

pub record SearchTerm : Type 0 where
  pub text : Runes
  pub negated : Bool

-- A group is an AND of terms, and an expression an OR of groups.
abbrev pub SearchExpr : Type 0
SearchExpr = List (List SearchTerm)

unfoldable pub search_blank : ℕ → Bool
search_blank c = nat_eqb c 32 || nat_eqb c 9 || nat_eqb c 10 || nat_eqb c 13

abbrev pub quote : ℕ
quote = b'"'

-- A term as the loop reads it: after its !, with the text that follows it.
pub record Reading : Type 0 where
  pub negated : Bool
  pub quoted : Bool
  pub term : Runes
  pub rest : Runes

-- The text before the closing quote and the text after it; an unclosed quote runs to the end.
unfoldable pub take_quoted : Runes → Runes × Runes
take_quoted [] = ([], [])
take_quoted (c ∷ s) =
    let (term, rest) = take_quoted s in if nat_eqb c quote then ([], s) else (c ∷ term, rest)

-- The text before the next blank, and the text from it on.
unfoldable pub take_word : Runes → Runes × Runes
unfolding search_blank
take_word [] = ([], [])
take_word (c ∷ s) =
    let (term, rest) = take_word s in if search_blank c then ([], c ∷ s) else (c ∷ term, rest)

-- The term that begins after the !.
unfoldable pub read_body : Bool → Runes → Reading
unfolding take_quoted take_word
read_body negated [] = record { negated = negated; quoted = false; term = []; rest = [] }
read_body negated (c ∷ s) =
    let phrase = take_quoted s in
    let word = take_word (c ∷ s) in
    if nat_eqb c quote
    then record { negated = negated; quoted = true; term = phrase.0; rest = phrase.1 }
    else record { negated = negated; quoted = false; term = word.0; rest = word.1 }

-- One turn of the loop after the blanks.
unfoldable pub read_term : Runes → Reading
unfolding read_body
read_term [] = read_body false []
read_term (c ∷ s) = if nat_eqb c b'!' then read_body true s else read_body false (c ∷ s)

unfoldable pub close_group : List SearchTerm → SearchExpr
close_group [] = []
close_group (t ∷ ts) = (t ∷ ts) ∷ []

abbrev pub word_and : Runes
word_and = codes "AND"

abbrev pub word_or : Runes
word_or = codes "OR"

-- What the loop does with a term.
pub data Role : Type 0 where
  passes ends_group adds : Role

unfoldable pub role_of : Reading → Role
role_of r =
    if not r.negated && not r.quoted && codes_eqb r.term word_and
    then passes
    else if not r.negated && not r.quoted && codes_eqb r.term word_or
    then ends_group
    else elim r.term [ [] ↦ passes | _ ↦ adds ]

module _ (u : Unicode) where
  unfoldable pub term_of : Reading → SearchTerm
  term_of r = record { text = lower u r.term; negated = r.negated }

  -- The loop, with the group that is open.
  unfoldable pub read_groups : ℕ → Runes → List SearchTerm → SearchExpr
  unfolding search_blank read_term close_group role_of term_of
  read_groups zero s group = close_group group
  read_groups (suc n) [] group = close_group group
  read_groups (suc n) (c ∷ s) group =
      let r = read_term (c ∷ s) in
      elim (search_blank c) [
        | true ↦ read_groups n s group
        | false ↦ elim (role_of r) [
          | passes ↦ read_groups n r.rest group
          | ends_group ↦ close_group group ++ read_groups n r.rest []
          | adds ↦ read_groups n r.rest (group ++ term_of r ∷ [])
        ]
      ]

  -- parseSearch
  unfoldable pub parse_search : Runes → SearchExpr
  unfolding read_groups
  parse_search text = read_groups (length text) text []

unfoldable pub found_in : List Runes → SearchTerm → Bool
found_in lowered t = any (λ m. has_part t.text m) lowered

-- The loop over the terms of a group: false at the first term that is not met.
unfoldable pub group_met : List Runes → List SearchTerm → Bool
unfolding found_in
group_met lowered [] = true
group_met lowered (t ∷ ts) =
    let rest = group_met lowered ts in
    if found_in lowered t
    then (if t.negated then false else rest)
    else if t.negated
    then rest
    else false

-- searchExpr.matches
unfoldable pub matches : Unicode → SearchExpr → List Runes → Bool
unfolding group_met
matches u [] members = true
matches u (g ∷ gs) members = any (group_met (map (lower u) members)) (g ∷ gs)
