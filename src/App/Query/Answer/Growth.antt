-- ===== src/App/Query/Answer/Growth.antt =====
-- The filters of a question while its parameters are read.
use models_db.Prelude.{
  ◌≡◌, refl, subst, Bool, true, false, List, [], ◌∷◌, ◌++◌, All, Some, here, there, Option, none,
  some, if◌then◌else◌,
}
use models_db.Prelude.Table.{Table, lookup}
use models_db.Prelude.Text.{codes, codes_eqb, codes_eq}
use models_db.Prelude.Runes.{Runes}
use models_db.Store.Schema.{Column}
use models_db.App.Query.{Host, split_list}
use models_db.App.Query.Read.{
  QueryError, Reply, refused, reply, ◌>>=◌, CellTest, read_cell_test, read_link_test,
  read_hide_free,
}
use models_db.App.Query.Answer.{
  Params, ModelQuery, read_each, read_fields, read_include_hidden, read_free, read_links, read_name,
  read_tests, read_param, read_params, first_value,
}

pub reply-injective : {A : Type 0} {a b : A} → reply a ≡ reply b → a ≡ b
reply-injective e = cc

-- The value is one of the list.
abbrev pub IsIn : {A : Type 0} → A → List A → Type 0
IsIn a = Some (λ x. x ≡ a)

pub IsIn-append_left :
    {A : Type 0} {a : A} {xs : List A} (ys : List A) → IsIn a xs → IsIn a (xs ++ ys)
IsIn-append_left ys (here e) = here e
IsIn-append_left ys (there i) = there (IsIn-append_left ys i)

pub IsIn-append_right :
    {A : Type 0} {a : A} (xs : List A) {ys : List A} → IsIn a ys → IsIn a (xs ++ ys)
IsIn-append_right [] i = i
IsIn-append_right (x ∷ xs) i = there (IsIn-append_right xs i)

pub All-IsIn : {A : Type 0} (P : A → Type 0) {a : A} (xs : List A) → All P xs → IsIn a xs → P a
All-IsIn P [] ps i = elim i [ ]
All-IsIn P (x ∷ xs) (p, ps) (here e) = subst P e p
All-IsIn P (x ∷ xs) (p, ps) (there i) = All-IsIn P xs ps i

-- Every value of a list is read, and its reading is in the result.
pub read_each-IsIn :
    {A : Type 0} (read : Runes → Reply A) (values : List Runes) (results : List A) (v : Runes)
    → read_each read values ≡ reply results
    → IsIn v values
    → (a : A) × (read v ≡ reply a) × IsIn a results
unfolding read_each
read_each-IsIn read [] results v e i = elim i [ ]
read_each-IsIn {A = A} read (w ∷ ws) results v e i =
    by_first (read w) (read_each read ws) refl e i λ rs q m. read_each-IsIn read ws rs v q m
  where
    by_first :
        (first : Reply A) (rest : Reply (List A))
        → read w ≡ first
        → (first >>= λ a. rest >>= λ rs. reply (a ∷ rs)) ≡ reply results
        → IsIn v (w ∷ ws)
        → ((rs : List A) → rest ≡ reply rs → IsIn v ws → (a : A) × (read v ≡ reply a) × IsIn a rs)
        → (a : A) × (read v ≡ reply a) × IsIn a results
    by_first (refused x) rest f q m later = cc
    by_first (reply a) (refused x) f q m later = cc
    by_first (reply a) (reply rs) f q (here o) later =
        (a, subst (λ u. read u ≡ reply a) o f, subst (IsIn a) (reply-injective q) (here refl))
    by_first (reply a) (reply rs) f q (there m) later =
        let (b, r, n) = later rs refl m in (b, r, subst (IsIn b) (reply-injective q) (there n))

module _ (h : Host) where
  -- A refusal, or a question with all the filters of a list.
  pub data HasTests (ts : List (CellTest h)) : Reply (ModelQuery h) → Type 0 where
    stops : {e : QueryError} → HasTests ts (refused e)
    goes_on :
        {mq : ModelQuery h}
        → ((t : CellTest h) → IsIn t ts → IsIn t mq.tests)
        → HasTests ts (reply mq)

  HasTests-before :
      {ts us : List (CellTest h)} {r : Reply (ModelQuery h)}
      → ((t : CellTest h) → IsIn t ts → IsIn t us)
      → HasTests us r
      → HasTests ts r
  HasTests-before k stops = stops
  HasTests-before k (goes_on m) = goes_on λ t i. m t (k t i)

  HasTests-bind :
      {ts : List (CellTest h)} {r : Reply (ModelQuery h)}
      {next : ModelQuery h → Reply (ModelQuery h)}
      → HasTests ts r
      → ((mq : ModelQuery h) → HasTests mq.tests (next mq))
      → HasTests ts (r >>= next)
  HasTests-bind stops n = stops
  HasTests-bind (goes_on k) n = HasTests-before k (n _)

  HasTests-reply :
      {A : Type 0} (ts : List (CellTest h)) (r : Reply A) (k : A → ModelQuery h)
      → ((a : A) (t : CellTest h) → IsIn t ts → IsIn t (k a).tests)
      → HasTests ts (r >>= λ a. reply (k a))
  HasTests-reply ts (refused e) k n = stops
  HasTests-reply ts (reply a) k n = goes_on (n a)

  HasTests-if :
      (ts : List (CellTest h)) (b : Bool) {x y : Reply (ModelQuery h)}
      → HasTests ts x
      → HasTests ts y
      → HasTests ts (if b then x else y)
  HasTests-if ts true m n = m
  HasTests-if ts false m n = n

  HasTests-option :
      (ts : List (CellTest h)) (o : Option Column) (e : QueryError)
      (k : Column → Reply (ModelQuery h))
      → ((c : Column) → HasTests ts (k c))
      → HasTests ts (elim o [ none ↦ refused e | some c ↦ k c ])
  HasTests-option ts none e k n = stops
  HasTests-option ts (some c) e k n = n c

  read_fields-HasTests :
      (columns : Table Runes Column) (fields : List Runes) (mq : ModelQuery h)
      → HasTests mq.tests (read_fields h columns fields mq)
  unfolding read_fields
  read_fields-HasTests columns [] mq = goes_on λ t i. i
  read_fields-HasTests columns (f ∷ fs) mq =
      HasTests-if mq.tests _ (read_fields-HasTests columns fs _)
        (HasTests-option mq.tests (lookup f columns) _ _ λ c. read_fields-HasTests columns fs _)

  read_tests-HasTests :
      (columns : Table Runes Column) (param : Runes) (values : List Runes) (mq : ModelQuery h)
      → HasTests mq.tests (read_tests h columns param values mq)
  unfolding read_tests
  read_tests-HasTests columns param values mq =
      HasTests-option mq.tests (lookup param columns) _ _ λ c.
        HasTests-reply mq.tests (read_each (read_cell_test h c) values) _
          λ ts t i. IsIn-append_left ts i

  read_param-HasTests :
      (columns : Table Runes Column) (p : Runes × List Runes) (mq : ModelQuery h)
      → HasTests mq.tests (read_param h columns p mq)
  unfolding read_param read_include_hidden read_free read_links read_name codes
  read_param-HasTests columns (p, values) mq =
      HasTests-if mq.tests (codes_eqb p (codes "include_hidden")) (goes_on λ t i. i) (
        HasTests-if mq.tests (codes_eqb p (codes "hide_free"))
          (HasTests-reply mq.tests (read_hide_free h columns (first_value values)) _ λ r t i. i)
          (HasTests-if mq.tests (codes_eqb p (codes "links"))
            (HasTests-reply mq.tests (read_each (read_link_test h) values) _ λ r t i. i)
            (HasTests-if mq.tests (codes_eqb p (codes "name")) (goes_on λ t i. i) (
              HasTests-if mq.tests (codes_eqb p (codes "fields"))
                (read_fields-HasTests columns (split_list (first_value values))
                  (record mq { projecting = true }))
                (read_tests-HasTests columns p values mq)))))

  pub read_params-HasTests :
      (columns : Table Runes Column) (ps : Params) (mq : ModelQuery h)
      → HasTests mq.tests (read_params h columns ps mq)
  unfolding read_params
  read_params-HasTests columns [] mq = goes_on λ t i. i
  read_params-HasTests columns (p ∷ ps) mq =
      HasTests-bind (read_param-HasTests columns p mq) (read_params-HasTests columns ps)
