-- ===== src/App/Query/Answer/Refusals.antt =====
-- Which requests are refused, and how the parameters of a request narrow its answer.
use models_db.Prelude.{
  ◌≡◌, refl, inl, inr, Bool, false, ◌||◌, none, List, [], ◌∷◌, All, arith, Bool-cases,
}
use models_db.Prelude.Table.{Table, lookup}
use models_db.Prelude.Text.{codes, codes_eqb, codes_eq}
use models_db.Prelude.Runes.{Runes, runes_leb}
use models_db.Store.Schema.{Column}
use models_db.App.Query.{Host, Row}
use models_db.App.Query.Read.{QueryError, unknown_parameter, Reply, refused, reply, ◌>>=◌}
use models_db.App.Query.Answer.{
  Params, ModelQuery, by_key, insert_param, sort_params, read_tests, read_param, read_params,
  parse_model_query, filter_and_project, no_question,
}

-- `Names q p`: the parameter p is in the request.
pub data Names : Params → Runes × List Runes → Type 0 where
  at_first : {p : Runes × List Runes} {ps : Params} → Names (p ∷ ps) p
  at_later : {p r : Runes × List Runes} {ps : Params} → Names ps p → Names (r ∷ ps) p

insert_param-first : (p : Runes × List Runes) (ps : Params) → Names (insert_param p ps) p
unfolding insert_param
insert_param-first p [] = at_first
insert_param-first p (r ∷ rs) = elim (Bool-cases (runes_leb p.0 r.0)) [
  | inl e ↦ rw e at_first
  | inr e ↦ rw e (at_later (insert_param-first p rs))
]

insert_param-later :
    (r : Runes × List Runes) {ps : Params} {p : Runes × List Runes}
    → Names ps p
    → Names (insert_param r ps) p
unfolding insert_param
insert_param-later r {ps = []} n = elim n [ ]
insert_param-later r {ps = q ∷ qs} at_first = elim (Bool-cases (runes_leb r.0 q.0)) [
  | inl e ↦ rw e (at_later at_first)
  | inr e ↦ rw e at_first
]
insert_param-later r {ps = q ∷ qs} (at_later n) = elim (Bool-cases (runes_leb r.0 q.0)) [
  | inl e ↦ rw e (at_later (at_later n))
  | inr e ↦ rw e (at_later (insert_param-later r n))
]

pub sort_params-Names : {q : Params} {p : Runes × List Runes} → Names q p → Names (sort_params q) p
unfolding sort_params
sort_params-Names at_first = insert_param-first _ _
sort_params-Names (at_later n) = insert_param-later _ (sort_params-Names n)

-- A word that is none of the five parameters that are not columns.
abbrev pub is_reserved : Runes → Bool
is_reserved p =
    codes_eqb p (codes "include_hidden")
    || codes_eqb p (codes "hide_free")
    || codes_eqb p (codes "links")
    || codes_eqb p (codes "name")
    || codes_eqb p (codes "fields")

-- No column has the key.
abbrev IsNoKey : Runes → List Column → Type 0
IsNoKey p = All (λ c. codes_eqb (codes c.key) p ≡ false)

by_key-none :
    (p : Runes) (columns : List Column) (t : Table Runes Column)
    → IsNoKey p columns
    → lookup p t ≡ none
    → lookup p (by_key columns t) ≡ none
unfolding by_key lookup
by_key-none p [] t h e = e
by_key-none p (c ∷ cs) t (h, hs) e = by_key-none p cs ((codes c.key, c) ∷ t) hs (rw h e)

module _ (h : Host) (p : Runes) (values : List Runes) (reserved : is_reserved p ≡ false) where
  read_param-refuses :
      (columns : Table Runes Column) (mq : ModelQuery h)
      → lookup p columns ≡ none
      → read_param h columns (p, values) mq ≡ refused (unknown_parameter p)
  unfolding read_param read_tests
  read_param-refuses columns mq e = ground (arith, reserved, e)

  read_params-refuses :
      (columns : Table Runes Column) (ps : Params) (mq : ModelQuery h)
      → lookup p columns ≡ none
      → Names ps (p, values)
      → (e : QueryError) × (read_params h columns ps mq ≡ refused e)
  unfolding read_params
  read_params-refuses columns [] mq none_held n = elim n [ ]
  read_params-refuses columns (r ∷ ps) mq none_held at_first =
      (unknown_parameter p, rw (read_param-refuses columns mq none_held) refl)
  read_params-refuses columns (r ∷ ps) mq none_held (at_later n) =
      go (read_param h columns r mq) λ mq'. read_params-refuses columns ps mq' none_held n
    where
      go :
          (first : Reply (ModelQuery h))
          → ((mq' : ModelQuery h) → (e : QueryError) × (read_params h columns ps mq' ≡ refused e))
          → (e : QueryError) × ((first >>= read_params h columns ps) ≡ refused e)
      go (refused e) later = (e, refl)
      go (reply mq') later = later mq'

-- A request with a parameter that is neither a column's key nor one of the five others is refused,
-- whatever else it asks and whatever rows there are.
pub filter_and_project-refuses_unknown :
    (h : Host) (rows : List Row) (q : Params) (columns : List Column) (p : Runes)
    (values : List Runes)
    → Names q (p, values)
    → is_reserved p ≡ false
    → IsNoKey p columns
    → (e : QueryError) × (filter_and_project h rows q columns ≡ refused e)
unfolding filter_and_project parse_model_query
filter_and_project-refuses_unknown h rows q columns p values n reserved free =
    let (e, r) =
      read_params-refuses h p values reserved (by_key columns []) (sort_params q) (no_question h)
        (by_key-none p columns [] free refl) (sort_params-Names n) in
    (e, rw r refl)
