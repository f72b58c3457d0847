-- ===== src/Store/Reconcile/Texts.antt =====
-- The reader's answers in a column, while rows are merged.
use models_db.Prelude.{
  String, ◌≡◌, refl, ap, Bool, true, false, ◌||◌, not, none, some, List, [], ◌∷◌, arith,
  if◌then◌else◌, str_eq, eq_iff, string_eq, inl, inr, Option-cases, contains, any,
}
use models_db.Store.Source.{hand, source_eqb}
use models_db.Store.Schema.{Column, cell_key_eq, record_key_eq, Db, find_column}
use models_db.Store.Cells.{cell_key}
use models_db.Store.Reconcile.{text_at, hand_texts, differ, merge_row_into, merge_all}
use models_db.Store.Reconcile.Rekey.{cell_of_model, record_of_model}
use models_db.Store.Reconcile.Merge.{older_added_other, lookup-merged}

-- The reader's answers agree where the plan finds no conflict.
pub any_column :
    (p : Column → Bool) (cs : List Column) (k : String) (c : Column)
    → any p cs ≡ false
    → find_column k cs ≡ some c
    → p c ≡ false
unfolding find_column
any_column p [] k c a f = cc
any_column p (d ∷ cs) k c a f = ground (arith, ap p, any_column p cs k c)

differ_head :
    (t u : String) (ts : List String)
    → any (λ x. not (str_eq x t)) ts ≡ false
    → contains ts u ≡ true
    → u ≡ t
unfolding contains
differ_head t u [] d h = cc
differ_head t u (x ∷ ts) d h = ground (arith, eq_iff x t, eq_iff x u, differ_head t u ts)

pub differ_agree :
    (ts : List String) (t u : String)
    → differ ts ≡ false
    → contains ts t ≡ true
    → contains ts u ≡ true
    → t ≡ u
unfolding differ contains
differ_agree [] t u d ht hu = cc
differ_agree (x ∷ ts) t u d ht hu =
    ground (arith, eq_iff x t, eq_iff x u, differ_head x t ts d, differ_head x u ts d)

pub contains-hand_texts :
    (c : Column) (ns : List String) (db : Db) (n t : String)
    → contains ns n ≡ true
    → text_at c hand n db ≡ some t
    → contains (hand_texts c ns db) t ≡ true
unfolding hand_texts contains
contains-hand_texts c [] db n t m h = cc
contains-hand_texts c (x ∷ ns) db n t m h =
    ground (arith, eq_iff x n, eq_iff t t, contains-hand_texts c ns db n t)

module _ (c : Column) (stamp survivor : String) where
  -- The reader's answer on the survivor, and on the others.
  pub text-merged :
      (stale : String) (db : Db) (n : String)
      → str_eq stale survivor ≡ false
      → text_at c hand n (merge_row_into stamp survivor stale db) ≡ (
          if str_eq n stale
          then none
          else if str_eq n survivor
          then elim (text_at c hand n db) [ some t ↦ some t | none ↦ text_at c hand stale db ]
          else text_at c hand n db)
  unfolding source_eqb
  text-merged stale db n other =
      let here = cell_key c hand n in
      ground (
        arith,
        lookup-merged stamp survivor stale db other here,
        older_added_other stale survivor db here refl,
        older_added_other stale survivor db (cell_key c hand stale) refl,
      )

  -- Every answer among some models, and the survivor, is one text.
  abbrev pub Agree : String → List String → Db → Type 0
  Agree v ns db =
      (n t : String)
      → (str_eq n survivor || contains ns n) ≡ true
      → text_at c hand n db ≡ some t
      → t ≡ v

  abbrev pub AllOther : List String → Type 0
  AllOther ns = (n : String) → contains ns n ≡ true → str_eq n survivor ≡ false

  Agree-merged :
      (v stale : String) (ns : List String) (db : Db)
      → str_eq stale survivor ≡ false
      → Agree v (stale ∷ ns) db
      → Agree v ns (merge_row_into stamp survivor stale db)
  unfolding contains
  Agree-merged v stale ns db other agree n t m h =
      let law = text-merged stale db n other in
      let one : str_eq n survivor || contains (stale ∷ ns) n ≡ true
          → text_at c hand n db ≡ some t
          → t ≡ v =
        agree n t in
      let two : str_eq stale survivor || contains (stale ∷ ns) stale ≡ true
          → text_at c hand stale db ≡ some t
          → t ≡ v =
        agree stale t in
      ground (arith, law, eq_iff stale n, eq_iff stale stale, eq_iff n stale)

  pub text-merge_all :
      (v : String) (ns : List String) (db : Db) (n : String)
      → AllOther ns
      → Agree v ns db
      → text_at c hand n db ≡ some v
      → text_at c hand (if contains ns n then survivor else n) (merge_all stamp survivor ns db)
        ≡ some v
  unfolding merge_all contains
  text-merge_all v [] db n others agree h = h
  text-merge_all v (stale ∷ ns) db n others agree h =
      let other : str_eq stale survivor ≡ false =
        others stale (ground (arith, eq_iff stale stale)) in
      let others' : AllOther ns = λ k m. others k (ground arith) in
      let agree' = Agree-merged v stale ns db other agree in
      let db' = merge_row_into stamp survivor stale db in
      let at_n = text-merged stale db n other in
      let at_survivor = text-merged stale db survivor other in
      let rest_n : text_at c hand n db' ≡ some v
          → text_at c hand (if contains ns n then survivor else n) (merge_all stamp survivor ns db')
            ≡ some v =
        text-merge_all v ns db' n others' agree' in
      let rest_survivor : text_at c hand survivor db' ≡ some v
          → text_at c hand (if contains ns survivor then survivor else survivor)
              (merge_all stamp survivor ns db')
            ≡ some v =
        text-merge_all v ns db' survivor others' agree' in
      let kept : (t : String) → text_at c hand survivor db ≡ some t → t ≡ v =
        λ t. agree survivor t (ground (arith, eq_iff survivor survivor)) in
      elim (Option-cases (text_at c hand survivor db)) [
        | inl nothing ↦ ground (
          arith,
          eq_iff stale n,
          eq_iff n stale,
          eq_iff n survivor,
          eq_iff survivor stale,
          eq_iff stale survivor,
          eq_iff survivor survivor,
        )
        | inr (t, there) ↦
            let same = kept t there in
            ground (
              arith,
              eq_iff stale n,
              eq_iff n stale,
              eq_iff n survivor,
              eq_iff survivor stale,
              eq_iff stale survivor,
              eq_iff survivor survivor,
            )
      ]
