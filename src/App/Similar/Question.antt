-- ===== src/App/Similar/Question.antt =====
-- internal/app/similarnames.go: the question of GET /api/models/similar (parseSimilarQuery).
use models_db.Prelude.{
  ℕ, ◌^◌, Bool, false, ◌&&◌, Option, none, some, List, [], ◌∷◌, nat_eqb, leb, ltb, if◌then◌else◌,
}
use models_db.Prelude.Text.{codes, codes_eqb, codes_eq}
use models_db.Prelude.Runes.{Runes, trim}
use models_db.Shared.Number.{take_digits}
use models_db.App.Query.{Host, truthy_param}
use models_db.App.Query.Answer.{Params, sort_params, first_value}

-- similarQuery
pub record SimilarQuery : Type 0 where
  pub name : Runes
  pub limit : ℕ
  pub include_hidden : Bool

pub data SimilarError : Type 0 where
  bad_limit too_many unknown_similar_parameter : Runes → SimilarError
  name_required : SimilarError

pub data SimilarReply : Type 0 where
  refused : SimilarError → SimilarReply
  reply : SimilarQuery → SimilarReply

abbrev pub default_limit : ℕ
default_limit = 10

abbrev pub max_limit : ℕ
max_limit = 50

-- strconv.Atoi of a text that is to be at least 1: an optional + and digits, below 2^63.
unfoldable pub read_limit : Runes → Option ℕ
unfolding take_digits
read_limit s =
    let unsigned : Runes = elim s [ [] ↦ [] | (c ∷ t) ↦ if nat_eqb c b'+' then t else c ∷ t ] in
    let (n, count, rest) = take_digits 0 0 unsigned in
    elim rest [
      | [] ↦ if leb 1 count && leb 1 n && ltb n (2 ^ 63) then some n else none
      | (c ∷ t) ↦ none
    ]

module _ (h : Host) where
  -- The body of the loop of parseSimilarQuery over the parameters.
  unfoldable pub read_similar_param : Runes × List Runes → SimilarQuery → SimilarReply
  unfolding codes codes_eqb trim first_value read_limit truthy_param
  read_similar_param (param, values) sq =
      let value = trim (first_value values) in
      if codes_eqb param (codes "name")
      then reply (record sq { name = value })
      else if codes_eqb param (codes "limit")
      then elim (read_limit value) [
        | none ↦ refused (bad_limit value)
        | some n ↦
            if leb n max_limit then reply (record sq { limit = n }) else refused (too_many value)
      ]
      else if codes_eqb param (codes "include_hidden")
      then reply (record sq { include_hidden = truthy_param h value })
      else refused (unknown_similar_parameter param)

  unfoldable pub read_similar_params : Params → SimilarQuery → SimilarReply
  unfolding read_similar_param
  read_similar_params [] sq = elim sq.name [ [] ↦ refused name_required | (c ∷ s) ↦ reply sq ]
  read_similar_params (p ∷ ps) sq = elim (read_similar_param p sq) [
    | refused e ↦ refused e
    | reply sq' ↦ read_similar_params ps sq'
  ]

  -- parseSimilarQuery
  unfoldable pub parse_similar_query : Params → SimilarReply
  unfolding sort_params read_similar_params
  parse_similar_query q =
      read_similar_params (sort_params q)
        (record { name = []; limit = default_limit; include_hidden = false })
