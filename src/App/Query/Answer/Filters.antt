-- ===== src/App/Query/Answer/Filters.antt =====
-- The filters of a request, from its parameters to the rows of its answer.
use models_db.Prelude.{
  ◌≡◌, ◌⊎◌, refl, sym, ◌∙◌, subst, inl, inr, Bool, true, false, List, [], ◌∷◌, ◌++◌, map, keep, All,
  Some, here, there, arith, Bool-cases, Option, none, some,
}
use mathlib.Core.Option.{some-injective, none-ne-some}
use models_db.Prelude.Text.{codes_eqb_iff}
use models_db.Prelude.Table.{Table, lookup}
use models_db.Prelude.Text.{codes, codes_eqb, codes_eq}
use models_db.Prelude.Runes.{Runes}
use models_db.Store.Schema.{Column}
use models_db.App.Query.{Host, Row}
use models_db.App.Query.Match.{cell_test_matches}
use models_db.App.Query.Read.{
  unknown_parameter, Reply, refused, reply, ◌>>=◌, CellTest, read_cell_test,
}
use models_db.App.Query.Answer.{
  Params, ModelQuery, by_key, sort_params, read_each, read_tests, read_param, read_params,
  parse_model_query, is_kept, project, filter_and_project, no_question,
}
use models_db.App.Query.Answer.Growth.{
  reply-injective, IsIn, IsIn-append_right, All-IsIn, read_each-IsIn, HasTests, stops, goes_on,
  read_params-HasTests,
}
use models_db.App.Query.Answer.Refusals.{Names, at_first, at_later, sort_params-Names, is_reserved}
use models_db.App.Query.Answer.Kept.{is_kept_iff, filter_and_project-answers}

module _ (h : Host) (p : Runes) (values : List Runes) (reserved : is_reserved p ≡ false) where
  bind_replies :
      (r : Reply (ModelQuery h)) (next : ModelQuery h → Reply (ModelQuery h)) (mq' : ModelQuery h)
      → (r >>= next) ≡ reply mq'
      → (mq₁ : ModelQuery h) × (r ≡ reply mq₁) × (next mq₁ ≡ reply mq')
  bind_replies (refused x) next mq' e = cc
  bind_replies (reply mq₁) next mq' e = (mq₁, refl, e)

  HasTests-reads :
      {ts : List (CellTest h)} {r : Reply (ModelQuery h)} {mq' : ModelQuery h}
      → HasTests h ts r
      → r ≡ reply mq'
      → (t : CellTest h) → IsIn t ts
      → IsIn t mq'.tests
  HasTests-reads stops e = cc
  HasTests-reads (goes_on m) e = λ t i. subst (λ mq. IsIn t mq.tests) (reply-injective e) (m t i)

  is_tests :
      (columns : Table Runes Column) (mq : ModelQuery h)
      → read_param h columns (p, values) mq ≡ read_tests h columns p values mq
  unfolding read_param
  is_tests columns mq = ground (arith, reserved)

  -- A column's parameter that is read leaves a filter for each of its values.
  read_tests-IsIn :
      (columns : Table Runes Column) (mq mq' : ModelQuery h) (v : Runes)
      → read_tests h columns p values mq ≡ reply mq'
      → IsIn v values
      → (c : Column) × (t : CellTest h) × (lookup p columns ≡ some c)
        × (read_cell_test h c v ≡ reply t)
        × IsIn t mq'.tests
  unfolding read_tests
  read_tests-IsIn columns mq mq' v e i = by_column (lookup p columns) refl e
    where
      by_column :
          (held : Option Column)
          → lookup p columns ≡ held
          → (elim held as (λ _. Reply (ModelQuery h)) [
            | none ↦ refused (unknown_parameter p)
            | some c ↦ read_each (read_cell_test h c) values >>= λ tests.
                reply (record mq { tests = mq.tests ++ tests })
          ])
            ≡ reply mq'
          → (c : Column) × (t : CellTest h) × (lookup p columns ≡ some c)
            × (read_cell_test h c v ≡ reply t)
            × IsIn t mq'.tests
      by_column none l q = cc
      by_column (some c) l q =
          let (t, r, n) = reply-read (read_each (read_cell_test h c) values) q refl in
          (c, t, l, r, n)
        where
          reply-read :
              (read : Reply (List (CellTest h)))
              → (read >>= λ tests. reply (record mq { tests = mq.tests ++ tests })) ≡ reply mq'
              → read_each (read_cell_test h c) values ≡ read
              → (t : CellTest h) × (read_cell_test h c v ≡ reply t) × IsIn t mq'.tests
          reply-read (refused x) q f = cc
          reply-read (reply ts) q f =
              let (t, r, n) = read_each-IsIn (read_cell_test h c) values ts v f i in
              (t, r, subst (λ m. IsIn t m.tests) (reply-injective q) (IsIn-append_right mq.tests n))

  -- A parameter among others leaves the same filters.
  read_params-IsIn :
      (columns : Table Runes Column) (ps : Params) (mq mq' : ModelQuery h) (v : Runes)
      → Names ps (p, values)
      → read_params h columns ps mq ≡ reply mq'
      → IsIn v values
      → (c : Column) × (t : CellTest h) × (lookup p columns ≡ some c)
        × (read_cell_test h c v ≡ reply t)
        × IsIn t mq'.tests
  unfolding read_params
  read_params-IsIn columns [] mq mq' v n e i = elim n [ ]
  read_params-IsIn columns (r ∷ ps) mq mq' v at_first e i =
      let (mq₁, first, rest) = bind_replies (read_param h columns (p, values) mq) _ mq' e in
      let (c, t, held, read, n) =
        read_tests-IsIn columns mq mq₁ v (sym (is_tests columns mq) ∙ first) i in
      (c, t, held, read, HasTests-reads (read_params-HasTests h columns ps mq₁) rest t n)
  read_params-IsIn columns (r ∷ ps) mq mq' v (at_later n) e i =
      let (mq₁, first, rest) = bind_replies (read_param h columns r mq) _ mq' e in
      read_params-IsIn columns ps mq₁ mq' v n rest i

-- The lookup of `byKey` gives a column of the list with that key.
by_key-column :
    (p : Runes) (columns : List Column) (t : Table Runes Column) (c : Column)
    → lookup p (by_key columns t) ≡ some c
    → Some (λ d. (d ≡ c) × (codes c.key ≡ p)) columns ⊎ (lookup p t ≡ some c)
unfolding by_key lookup
by_key-column p [] t c e = inr e
by_key-column p (d ∷ ds) t c e = elim (by_key-column p ds ((codes d.key, d) ∷ t) c e) [
  | inl s ↦ inl (there s)
  | inr q ↦ elim (Bool-cases (codes_eqb (codes d.key) p)) [
    | inl k ↦
        let same : d ≡ c = some-injective _ _ (sym (rw k refl) ∙ q) in
        inl (here (same, subst (λ b. codes b.key ≡ p) same ((codes_eqb_iff (codes d.key) p).0 k)))
    | inr k ↦ inr (rw k at q)
  ]
]

keep-All :
    {A : Type 0} (P : A → Type 0) (p : A → Bool) (xs : List A)
    → ((x : A) → p x ≡ true → P x)
    → All P (keep p xs)
unfolding keep
keep-All P p [] k = tt
keep-All P p (x ∷ xs) k = elim (Bool-cases (p x)) [
  | inl e ↦ rw (e, keep) (k x e, keep-All P p xs k)
  | inr e ↦ rw (e, keep) (keep-All P p xs k)
]

-- No filter is dropped: of an accepted request, every value of every parameter that names a column is
-- read as a filter on a column of that key, and every row of the answer passes it.
pub filter_and_project-drops_no_filter :
    (h : Host) (rows : List Row) (q : Params) (columns : List Column) (mq : ModelQuery h)
    (p : Runes) (values : List Runes) (v : Runes)
    → parse_model_query h q columns ≡ reply mq
    → Names q (p, values)
    → is_reserved p ≡ false
    → IsIn v values
    → (c : Column) × (t : CellTest h) × Some (λ d. (d ≡ c) × (codes c.key ≡ p)) columns
      × (read_cell_test h c v ≡ reply t)
      × (filter_and_project h rows q columns
          ≡ reply (map (project h mq) (keep (is_kept h mq) rows)))
      × All (λ row. cell_test_matches h t row ≡ true) (keep (is_kept h mq) rows)
unfolding parse_model_query
filter_and_project-drops_no_filter h rows q columns mq p values v e n reserved i =
    let (c, t, held, read, among) =
      read_params-IsIn h p values reserved (by_key columns []) (sort_params q) (no_question h) mq v
        (sort_params-Names n) e i in
    (
      c,
      t,
      in_columns (by_key-column p columns [] c held),
      read,
      (filter_and_project-answers h rows q columns mq e).0,
      keep-All _ (is_kept h mq) rows λ row kept.
          All-IsIn (λ t. cell_test_matches h t row ≡ true) mq.tests
            ((is_kept_iff h mq row).0 kept).tested among,
    )
  where
    in_columns : {c : Column} {P : Type 0} → P ⊎ (lookup {V = Column} p [] ≡ some c) → P
    in_columns (inl s) = s
    in_columns (inr e) = absurd (none-ne-some _ e)
