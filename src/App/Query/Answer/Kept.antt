-- ===== src/App/Query/Answer/Kept.antt =====
-- Which rows an accepted request is answered with.
use models_db.Prelude.{
  ◌≡◌, ◌↔◌, ◌⊎◌, refl, ap, inl, inr, Bool, true, false, not, ◌&&◌, List, [], ◌∷◌, map, any, keep,
  All, arith, Bool-cases, if◌then◌else◌,
}
use models_db.Store.Schema.{Column}
use models_db.App.Search.{matches}
use models_db.App.Query.{Host, Row, is_hidden, shown_name}
use models_db.App.Query.Match.{cell_test_matches, link_test_matches, is_zero_in, is_free_listing}
use models_db.App.Query.Read.{reply}
use models_db.App.Query.Answer.{
  Params, ModelQuery, parse_model_query, is_kept, project, filter_rows, filter_and_project,
}

-- What a question asks of a row.
pub record Meets (h : Host) (mq : ModelQuery h) (row : Row) : Type 0 where
  pub not_hidden : (mq.include_hidden ≡ true) ⊎ (is_hidden row ≡ false)
  pub not_free :
      (mq.hide_free ≡ false)
      ⊎ ((is_free_listing h row ≡ false) × All (λ c. is_zero_in h c row ≡ false) mq.hide_zero)
  pub linked : All (λ t. link_test_matches t row ≡ true) mq.links
  pub named : matches h.unicode mq.name (shown_name row ∷ []) ≡ true
  pub tested : All (λ t. cell_test_matches h t row ≡ true) mq.tests

any_none :
    {A : Type 0} (p : A → Bool) (xs : List A) → (any p xs ≡ false) ↔ All (λ x. p x ≡ false) xs
any_none p [] = (λ e. tt, λ e. refl)
any_none p (x ∷ xs) = (
  λ e. (ground arith, (any_none p xs).0 (ground arith)),
  λ (e, es). ground (arith, e, (any_none p xs).1 es),
)

any-All :
    {A : Type 0} (p : A → Bool) (xs : List A)
    → (any (λ x. not (p x)) xs ≡ false) ↔ All (λ x. p x ≡ true) xs
any-All p [] = (λ e. tt, λ e. refl)
any-All p (x ∷ xs) = (
  λ e. (ground arith, (any-All p xs).0 (ground arith)),
  λ (e, es). ground (arith, e, (any-All p xs).1 es),
)

-- The chain of conditions, with what each one tests.
chain_iff :
    (asked hidden hide free zero unlinked named unmatched : Bool)
    → ((if not asked && hidden
          then false
          else if hide && free
          then false
          else if hide && zero
          then false
          else if not (not unlinked)
          then false
          else if not named
          then false
          else not unmatched)
        ≡ true)
      ↔ (((asked ≡ true) ⊎ (hidden ≡ false))
          × ((hide ≡ false) ⊎ ((free ≡ false) × (zero ≡ false)))
          × (unlinked ≡ false)
          × (named ≡ true)
          × (unmatched ≡ false))
chain_iff true hidden true free zero unlinked named unmatched = (
  λ e. (inl refl, inr (ground arith, ground arith), ground arith, ground arith, ground arith),
  λ p. ground (arith, p),
)
chain_iff true hidden false free zero unlinked named unmatched =
    (λ e. (inl refl, inl refl, ground arith, ground arith, ground arith), λ p. ground (arith, p))
chain_iff false hidden true free zero unlinked named unmatched = (
  λ e. (
    inr (ground arith),
    inr (ground arith, ground arith),
    ground arith,
    ground arith,
    ground arith,
  ),
  λ p. ground (arith, p),
)
chain_iff false hidden false free zero unlinked named unmatched = (
  λ e. (inr (ground arith), inl refl, ground arith, ground arith, ground arith),
  λ p. ground (arith, p),
)

pub is_kept_iff :
    (h : Host) (mq : ModelQuery h) (row : Row) → (is_kept h mq row ≡ true) ↔ Meets h mq row
unfolding is_kept
is_kept_iff h mq row =
    let zero : Bool = any (λ c. is_zero_in h c row) mq.hide_zero in
    let unlinked : Bool = any (λ t. not (link_test_matches t row)) mq.links in
    let named : Bool = matches h.unicode mq.name (shown_name row ∷ []) in
    let unmatched : Bool = any (λ t. not (cell_test_matches h t row)) mq.tests in
    let chain =
      chain_iff mq.include_hidden (is_hidden row) mq.hide_free (is_free_listing h row) zero unlinked
        named unmatched in
    let zeros = any_none (λ c. is_zero_in h c row) mq.hide_zero in
    let links = any-All (λ t. link_test_matches t row) mq.links in
    let tests = any-All (λ t. cell_test_matches h t row) mq.tests in
    (
      λ e.
          let (hidden, free, linked, shown, tested) = chain.0 e in
          record {
            not_hidden = hidden;
            not_free = elim free [ inl a ↦ inl a | inr (b, c) ↦ inr (b, zeros.0 c) ];
            linked = links.0 linked;
            named = shown;
            tested = tests.0 tested;
          },
      λ m. chain.1 (
        m.not_hidden,
        elim m.not_free [ inl a ↦ inl a | inr (b, c) ↦ inr (b, zeros.1 c) ],
        links.1 m.linked,
        m.named,
        tests.1 m.tested,
      ),
    )

filter_rows-keep :
    (h : Host) (mq : ModelQuery h) (rows : List Row)
    → filter_rows h mq rows ≡ map (project h mq) (keep (is_kept h mq) rows)
unfolding filter_rows keep
filter_rows-keep h mq [] = refl
filter_rows-keep h mq (row ∷ rows) = elim (Bool-cases (is_kept h mq row)) [
  | inl e ↦ rw (e, keep) (ap (project h mq row ∷◌) (filter_rows-keep h mq rows))
  | inr e ↦ rw (e, keep) (filter_rows-keep h mq rows)
]

-- An accepted request is answered with the projection of the rows that meet its question, all of them
-- and in their order; a row meets it exactly if it is not hidden or hidden rows were asked for, is not
-- a free one where these were to go, and passes every link, the name and every filter.
pub filter_and_project-answers :
    (h : Host) (rows : List Row) (q : Params) (columns : List Column) (mq : ModelQuery h)
    → parse_model_query h q columns ≡ reply mq
    → (filter_and_project h rows q columns ≡ reply (map (project h mq) (keep (is_kept h mq) rows)))
      × ((row : Row) → (is_kept h mq row ≡ true) ↔ Meets h mq row)
unfolding filter_and_project
filter_and_project-answers h rows q columns mq e =
    (rw e (ap reply (filter_rows-keep h mq rows)), is_kept_iff h mq)
