-- ===== src/App/Search/Meaning.antt =====
-- What it means for the texts of a cell to meet an expression, with no search in it.
use models_db.Prelude.{
  ◌≡◌, ◌↔◌, ◌⊎◌, inl, inr, refl, Bool, true, false, List, [], ◌∷◌, ◌++◌, map, arith, All, Some,
  any_iff, if◌then◌else◌, Bool-cases, nat_eqb_iff, ap,
}
use mathlib.Core.Path.{ap₂}
use mathlib.Core.Bool.{false≢true}
use models_db.Prelude.Runes.{Runes, Unicode, lower, has_prefix, has_part}
use models_db.App.Search.{SearchTerm, SearchExpr, found_in, group_met, matches}

-- The first text stands somewhere in the second.
abbrev pub IsPart : Runes → Runes → Type 0
IsPart part s = (before : Runes) × (rest : Runes) × (s ≡ before ++ part ++ rest)

has_prefix→split : (p s : Runes) → has_prefix p s ≡ true → (rest : Runes) × (s ≡ p ++ rest)
unfolding has_prefix
has_prefix→split [] s h = (s, refl)
has_prefix→split (c ∷ p) [] h = cc
has_prefix→split (c ∷ p) (d ∷ s) h =
    (let (rest, q) = has_prefix→split p s (ground arith) in
      (rest, ap₂ ◌∷◌ (ground (arith, nat_eqb_iff c d)) q))

has_prefix-append : (p rest : Runes) → has_prefix p (p ++ rest) ≡ true
unfolding has_prefix
has_prefix-append [] rest = refl
has_prefix-append (c ∷ p) rest = ground (arith, has_prefix-append p rest)

has_part_sound : (p s : Runes) → has_part p s ≡ true → IsPart p s
unfolding has_part
has_part_sound p [] h = (let (rest, q) = has_prefix→split p [] h in ([], rest, q))
has_part_sound p (c ∷ s) h = elim (Bool-cases (has_prefix p (c ∷ s))) [
  | inl e ↦ (let (rest, q) = has_prefix→split p (c ∷ s) e in ([], rest, q))
  | inr e ↦
      (let (before, rest, q) = has_part_sound p s (ground arith) in (c ∷ before, rest, ap (c ∷◌) q))
]

has_prefix-has_part : (p s : Runes) → has_prefix p s ≡ true → has_part p s ≡ true
unfolding has_part
has_prefix-has_part p [] h = h
has_prefix-has_part p (c ∷ s) h = ground (arith, h)

has_part_complete : (p before rest : Runes) → has_part p (before ++ p ++ rest) ≡ true
unfolding has_part
has_part_complete p [] rest = has_prefix-has_part p (p ++ rest) (has_prefix-append p rest)
has_part_complete p (c ∷ before) rest = ground (arith, has_part_complete p before rest)

pub has_part_iff : (p s : Runes) → (has_part p s ≡ true) ↔ IsPart p s
has_part_iff p s = (has_part_sound p s, λ (before, rest, e). rw e (has_part_complete p before rest))

-- A term is met by the texts of a cell, in lower case: one holds it, or none does after a !.
abbrev pub IsMet : List Runes → SearchTerm → Type 0
IsMet lowered t = elim t.negated [
  | true ↦ ¬ Some (IsPart t.text) lowered
  | false ↦ Some (IsPart t.text) lowered
]

found_in_iff :
    (lowered : List Runes) (t : SearchTerm)
    → (found_in lowered t ≡ true) ↔ Some (IsPart t.text) lowered
unfolding found_in
found_in_iff lowered t = any_iff (has_part t.text) (has_part_iff t.text) lowered

group_met_step :
    (b found rest : Bool) {P Q : Type 0}
    → (found ≡ true) ↔ P
    → (rest ≡ true) ↔ Q
    → ((if found then if b then false else rest else if b then rest else false) ≡ true)
      ↔ (elim b as (λ _. Type 0) [ true ↦ ¬ P | false ↦ P ] × Q)
group_met_step true true rest p q = (λ h. cc, λ (n, _). absurd (n (p.0 refl)))
group_met_step true false rest p q =
    (λ h. (λ x. absurd (false≢true (p.1 x)), q.0 h), λ (_, y). q.1 y)
group_met_step false true rest p q = (λ h. (p.0 refl, q.0 h), λ (_, y). q.1 y)
group_met_step false false rest p q = (λ h. cc, λ (x, _). p.1 x)

group_met_iff :
    (lowered : List Runes) (g : List SearchTerm)
    → (group_met lowered g ≡ true) ↔ All (IsMet lowered) g
unfolding group_met
group_met_iff lowered [] = (λ h. tt, λ h. refl)
group_met_iff lowered (t ∷ ts) =
    group_met_step t.negated (found_in lowered t) (group_met lowered ts) (found_in_iff lowered t)
      (group_met_iff lowered ts)

-- The texts of a cell meet an expression exactly if it has no group, or if one of its groups has all
-- its terms met: a term after a ! by no text holding it, any other by some text holding it, capitals
-- ignored.
pub matches_iff :
    (u : Unicode) (e : SearchExpr) (members : List Runes)
    → (matches u e members ≡ true) ↔ ((e ≡ []) ⊎ Some (All (IsMet (map (lower u) members))) e)
unfolding matches
matches_iff u [] members = (λ h. inl refl, λ h. refl)
matches_iff u (g ∷ gs) members =
    let found = any_iff _ (group_met_iff (map (lower u) members)) (g ∷ gs) in
    (λ h. inr (found.0 h), λ s. elim s [ inl e ↦ cc | inr w ↦ found.1 w ])
