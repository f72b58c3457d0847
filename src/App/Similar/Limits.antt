-- ===== src/App/Similar/Limits.antt =====
-- The questions that GET /api/models/similar takes.
use models_db.Prelude.{
  ℕ, ◌≤◌, ◌≡◌, ◌≢◌, refl, subst, Bool, true, false, Option, none, some, List, [], ◌∷◌, arith, leb,
  Bool-cases, inl, inr, if◌then◌else◌,
}
use mathlib.Core.Option.{some-injective, none-ne-some}
use models_db.Prelude.Text.{codes, codes_eqb}
use models_db.Prelude.Runes.{Runes, trim}
use models_db.App.Query.{Host}
use models_db.App.Query.Answer.{Params, sort_params, first_value}
use models_db.App.Similar.Question.{
  SimilarQuery, SimilarError, SimilarReply, refused, reply, max_limit, read_limit,
  read_similar_param, read_similar_params, parse_similar_query, bad_limit, name_required, too_many,
}

-- A limit that can be answered.
abbrev InBounds : SimilarQuery → Type 0
InBounds sq = (1 ≤ sq.limit) × (sq.limit ≤ max_limit)

reply-injective : {a b : SimilarQuery} → reply a ≡ reply b → a ≡ b
reply-injective e = cc

data Within : SimilarReply → Type 0 where
  out : {e : SimilarError} → Within (refused e)
  within : {sq : SimilarQuery} → InBounds sq → Within (reply sq)

accepted_limit :
    (rest : Runes) (ok : Bool) (n m : ℕ)
    → (ok ≡ true → 1 ≤ n)
    → (elim rest as (λ _. Option ℕ) [ [] ↦ if ok then some n else none | (c ∷ t) ↦ none ]) ≡ some m
    → 1 ≤ m
accepted_limit [] true n m h e = subst (λ k. 1 ≤ k) (some-injective _ _ e) (h refl)
accepted_limit [] false n m h e = absurd (none-ne-some _ e)
accepted_limit (c ∷ t) ok n m h e = absurd (none-ne-some _ e)

read_limit-positive : (s : Runes) (n : ℕ) → read_limit s ≡ some n → 1 ≤ n
unfolding read_limit
read_limit-positive s n e = accepted_limit _ _ _ n (λ h. ground (arith, h)) e

read_similar_param-Within :
    (h : Host) (p : Runes × List Runes) (sq : SimilarQuery)
    → InBounds sq
    → Within (read_similar_param h p sq)
unfolding read_similar_param
read_similar_param-Within h (param, values) sq b =
    within_if (codes_eqb param (codes "name")) (within b) (
      within_if (codes_eqb param (codes "limit"))
        (by_limit (read_limit (trim (first_value values))) refl)
        (within_if (codes_eqb param (codes "include_hidden")) (within b) out))
  where
    within_if : (c : Bool) {x y : SimilarReply} → Within x → Within y → Within (if c then x else y)
    within_if true m n = m
    within_if false m n = n

    by_limit :
        (read : Option ℕ)
        → read_limit (trim (first_value values)) ≡ read
        → Within (elim read [
          | none ↦ refused (bad_limit (trim (first_value values)))
          | some n ↦
              if leb n max_limit
              then reply (record sq { limit = n })
              else refused (too_many (trim (first_value values)))
        ])
    by_limit none e = out
    by_limit (some n) e = elim (Bool-cases (leb n max_limit)) [
      | inl l ↦
          rw l (within (read_limit-positive (trim (first_value values)) n e, ground (arith, l)))
      | inr l ↦ rw l out
    ]

-- A question that is taken has a name, and a limit in bounds.
read_similar_params-bounds :
    (h : Host) (ps : Params) (sq taken : SimilarQuery)
    → InBounds sq
    → read_similar_params h ps sq ≡ reply taken
    → (taken.name ≢ []) × InBounds taken
unfolding read_similar_params
read_similar_params-bounds h [] sq taken b e = named_question sq.name refl e
  where
    named_question :
        (name : Runes)
        → sq.name ≡ name
        → (elim name as (λ _. SimilarReply) [ [] ↦ refused name_required | (c ∷ s) ↦ reply sq ])
          ≡ reply taken
        → (taken.name ≢ []) × InBounds taken
    named_question [] n q = cc
    named_question (c ∷ s) n q =
        subst (λ t. (t.name ≢ []) × InBounds t) (reply-injective q) (λ z. cc, b)
read_similar_params-bounds h (p ∷ ps) sq taken b e =
    by_reply (read_similar_param h p sq) (read_similar_param-Within h p sq b) e
      (λ sq'. read_similar_params-bounds h ps sq' taken)
  where
    by_reply :
        (r : SimilarReply)
        → Within r
        → (elim r as (λ _. SimilarReply) [
          | refused e ↦ refused e
          | reply sq' ↦ read_similar_params h ps sq'
        ])
          ≡ reply taken
        → ((sq' : SimilarQuery)
            → InBounds sq'
            → read_similar_params h ps sq' ≡ reply taken
            → (taken.name ≢ []) × InBounds taken)
        → (taken.name ≢ []) × InBounds taken
    by_reply (refused x) w q later = cc
    by_reply (reply sq') (within c) q later = later sq' c q

-- A question for similar models that is taken has a name and a limit from 1 to 50.
pub parse_similar_query-bounds :
    (h : Host) (q : Params) (taken : SimilarQuery)
    → parse_similar_query h q ≡ reply taken
    → (taken.name ≢ []) × (1 ≤ taken.limit) × (taken.limit ≤ 50)
unfolding parse_similar_query
parse_similar_query-bounds h q taken e =
    let (named, within_bounds) =
      read_similar_params-bounds h (sort_params q) _ taken (omega arith, omega arith) e in
    (named, within_bounds.0, within_bounds.1)
