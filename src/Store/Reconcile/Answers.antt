-- ===== src/Store/Reconcile/Answers.antt =====
-- internal/store/reconcile.go, ReconcileRenamedModel: the reader's answers afterwards.
use models_db.Prelude.{
  String, ◌≡◌, refl, ap, sym, subst, ◌∙◌, Bool, true, false, ◌&&◌, not, none, some, List, [], ◌∷◌,
  arith, if◌then◌else◌, str_eq, eq_iff, string_eq, inl, inr, ◌⊎◌, Bool-cases, Option-cases,
  contains, keep,
}
use models_db.Prelude.Table.{lookup, remove_where, lookup-remove_where}
use models_db.Prelude.Text.{trim_space}
use models_db.Store.Source.{hand}
use models_db.Store.Schema.{
  Column, CellKey, cell_key_eq, record_key_eq, Db, find_column, Result, ok,
}
use models_db.Store.Cells.{cell_key}
use models_db.Store.Cells.Invariant.{IsWellFormed}
use models_db.Store.Reconcile.{
  Plan, no_plan, Reconciliation, text_at, holders_in, hand_texts, differ, hand_conflict,
  plan_reconcile, delete_row, rename_row, merge_row_into, merge_all, reconcile_renamed_model,
}
use models_db.Store.Reconcile.Rekey.{rekey, lookup-rekey, cell_of_model, record_of_model}
use models_db.Store.Reconcile.Texts.{
  any_column, differ_agree, contains-hand_texts, text-merged, text-merge_all,
}

-- A rename moves the reader's answers with the row.
rename_row_inv :
    (stamp old next : String) (db : Db) {db' : Db}
    → rename_row stamp old next db ≡ ok db'
    → db'.cells ≡ remove_where (λ j. str_eq j.model old) (rekey old next (λ _. true) db.cells)
unfolding rename_row delete_row
rename_row_inv stamp old next db h = ground arith

text-renamed :
    (c : Column) (stamp old next n t : String) (db : Db) {db' : Db}
    → rename_row stamp old next db ≡ ok db'
    → str_eq old next ≡ false
    → ((j : CellKey) → j.model ≡ next → lookup j db.cells ≡ none)
    → text_at c hand n db ≡ some t
    → text_at c hand (if str_eq n old then next else n) db' ≡ some t
text-renamed c stamp old next n t db h other free held =
    let e = rename_row_inv stamp old next db h in
    let cells = rekey old next (λ (_ : CellKey). true) db.cells in
    let law =
      lookup-rekey old next (λ (_ : CellKey). true) db.cells other
        (λ k q m. free (record k { model = next }) refl) in
    let here = cell_key c hand n in
    let there = cell_key c hand next in
    let free_there = free there refl in
    ground (
      arith,
      e,
      law here,
      law there,
      lookup-remove_where (λ (j : CellKey). str_eq j.model old) here cells,
      lookup-remove_where (λ (j : CellKey). str_eq j.model old) there cells,
      eq_iff n old,
      eq_iff n next,
      eq_iff old next,
      eq_iff next old,
      eq_iff next next,
      eq_iff old old,
    )

contains-keep :
    (p : String → Bool) (ns : List String) (n : String)
    → contains (keep p ns) n ≡ (contains ns n && p n)
unfolding contains keep
contains-keep p [] n = refl
contains-keep p (x ∷ ns) n = ground (arith, eq_iff x n, ap p, contains-keep p ns n)

-- What a plan says: nothing, or the one row to rename where the name is free, or the rows to merge
-- where no two answers of the reader's differ.
abbrev Planned : String → String → Db → Plan → Type 0
Planned id name db p =
    let ns = holders_in id db db.models in
    (p ≡ no_plan)
    ⊎ ((lookup name db.models ≡ none) × (str_eq p.rename name ≡ false) × (p.merge ≡ []))
    ⊎ ((p.rename ≡ "")
        × (p.merge ≡ keep (λ h. not (str_eq h name)) ns)
        × (contains ns name ≡ true)
        × (hand_conflict ns db ≡ false))

head_kept :
    (name x : String) (xs ns : List String)
    → keep (λ h. not (str_eq h name)) ns ≡ x ∷ xs
    → str_eq x name ≡ false
unfolding keep
head_kept name x xs [] e = cc
head_kept name x xs (n ∷ ns) e = ground (arith, head_kept name x xs ns)

List-cases : (xs : List String) → (xs ≡ []) ⊎ ((y : String) × (ys : List String) × (xs ≡ y ∷ ys))
List-cases [] = inl refl
List-cases (y ∷ ys) = inr (y, ys, refl)

plan_reconcile-Planned :
    (id name : String) (db : Db) → Planned id name db (plan_reconcile id name db)
unfolding plan_reconcile
plan_reconcile-Planned id name db =
    let ns = holders_in id db db.models in
    elim (List-cases (keep (λ h. not (str_eq h name)) ns)) [
      | inl nobody ↦ ground arith
      | inr (x, xs, e) ↦
          let other = head_kept name x xs ns e in
          elim (Option-cases (lookup name db.models)) [
            | inl free ↦ ground arith
            | inr (bearer, held) ↦ ground arith
          ]
    ]

-- Which model a row's answers are on afterwards.
unfoldable pub now_at : Reconciliation → String → String → String
now_at r name n =
    if contains r.merged n
    then name
    else if not (str_eq r.renamed "") && str_eq n r.renamed
    then name
    else n

now_at_kept :
    (r : Reconciliation) (name n : String) → r.renamed ≡ "" → r.merged ≡ [] → now_at r name n ≡ n
unfolding now_at contains
now_at_kept r name n a b = rw a (rw b refl)

now_at_renamed :
    (r : Reconciliation) (old name n : String)
    → r.renamed ≡ old
    → r.merged ≡ []
    → str_eq old "" ≡ false
    → now_at r name n ≡ (if str_eq n old then name else n)
unfolding now_at contains
now_at_renamed r old name n a b filled = rw a (rw b (rw filled refl))

now_at_merged :
    (r : Reconciliation) (ns : List String) (name n : String)
    → r.renamed ≡ ""
    → r.merged ≡ ns
    → now_at r name n ≡ (if contains ns n then name else n)
unfolding now_at
now_at_merged r ns name n a b = rw a (rw b refl)

-- What an accepted reconciliation did.
reconcile_inv :
    (stamp : String) (snapshot : Result (Unit {0})) (id name : String) (db : Db)
    {r : Reconciliation} {db' : Db}
    → reconcile_renamed_model stamp snapshot id name db ≡ ok (r, db')
    → ((r.renamed ≡ "") × (r.merged ≡ []) × (db' ≡ db))
      ⊎ (let p = plan_reconcile (trim_space id) name db in
          (r.renamed ≡ p.rename)
          × (r.merged ≡ p.merge)
          × ((mid : Db) × ((if str_eq p.rename "" then ok db else rename_row stamp p.rename name db)
                ≡ ok mid)
              × (db' ≡ merge_all stamp name p.merge mid)))
unfolding reconcile_renamed_model
reconcile_inv stamp snapshot id name db h = ground arith

free_of_cells :
    (name : String) (db : Db)
    → IsWellFormed db
    → lookup name db.models ≡ none
    → (j : CellKey) → j.model ≡ name
    → lookup j db.cells ≡ none
free_of_cells name db well free j e = elim (Option-cases (lookup j db.cells)) [
  | inl nothing ↦ nothing
  | inr (cell, held) ↦
      let (m, there) = (well.cells j cell held).model in
      absurd (ground (arith, there, ap (λ n. lookup n db.models) e))
]

text-untouched :
    (c : Column) (stamp survivor : String) (ns : List String) (db : Db) (n : String)
    → ((m : String) → contains ns m ≡ true → str_eq m survivor ≡ false)
    → str_eq n survivor ≡ false
    → contains ns n ≡ false
    → text_at c hand n (merge_all stamp survivor ns db) ≡ text_at c hand n db
unfolding merge_all contains
text-untouched c stamp survivor [] db n others other absent = refl
text-untouched c stamp survivor (stale ∷ ns) db n others other absent =
    let first : str_eq stale survivor ≡ false = others stale (ground (arith, eq_iff stale stale)) in
    text-untouched c stamp survivor ns (merge_row_into stamp survivor stale db) n
      (λ m h. others m (ground arith)) other (ground arith)
    ∙ ground (arith, text-merged c stamp survivor stale db n first, eq_iff stale n, eq_iff n stale)

-- After merging the other holders of an id into one, where no two answers of theirs differ.
text-plan_merged :
    (c : Column) (k stamp name : String) (ns : List String) (db : Db) (n t : String)
    → contains ns name ≡ true
    → hand_conflict ns db ≡ false
    → find_column k db.columns ≡ some c
    → text_at c hand n db ≡ some t
    → let others = keep (λ h. not (str_eq h name)) ns in
      text_at c hand (if contains others n then name else n) (merge_all stamp name others db)
      ≡ some t
unfolding hand_conflict
text-plan_merged c k stamp name ns db n t named clear found held =
    let others = keep (λ h. not (str_eq h name)) ns in
    let member = contains-keep (λ h. not (str_eq h name)) ns in
    let all_other : (m : String) → contains others m ≡ true → str_eq m name ≡ false =
      λ m h. ground (arith, member m) in
    let same = any_column (λ c. differ (hand_texts c ns db)) db.columns k c clear found in
    let in_texts = contains-hand_texts c ns db in
    elim (Bool-cases (contains ns n)) [
      | inl among ↦
          text-merge_all c stamp name t others db n all_other
            (λ m u h hu.
              differ_agree (hand_texts c ns db) u t same
                (in_texts m u (ground (arith, member m, eq_iff m name)) hu)
                (in_texts n t among held))
            held
      | inr absent ↦
          let not_name : str_eq n name ≡ false = ground (arith, eq_iff n name) in
          let not_other : contains others n ≡ false = ground (arith, member n) in
          rw not_other (text-untouched c stamp name others db n all_other not_name not_other ∙ held)
    ]

merge_all_none : (stamp name : String) (db : Db) → merge_all stamp name [] db ≡ db
unfolding merge_all
merge_all_none stamp name db = refl

-- An accepted reconciliation of a well-formed catalog loses no answer of the reader's: what they
-- stated in a column about a model is, with the same text, what they state there about the model now:
-- the one of the feed's name for a row that was renamed or merged, and the same one for every other.
pub reconcile_renamed_model-keeps_answers :
    (stamp : String) (snapshot : Result (Unit {0})) (id name : String) (db : Db)
    → IsWellFormed db
    → (r : Reconciliation) (db' : Db)
    → reconcile_renamed_model stamp snapshot id name db ≡ ok (r, db')
    → (k : String) (c : Column) → find_column k db.columns ≡ some c
    → (n t : String) → text_at c hand n db ≡ some t
    → text_at c hand (now_at r name n) db' ≡ some t
reconcile_renamed_model-keeps_answers stamp snapshot id name db well r db' h k c found n t held =
    let goal = λ (m : String) (d : Db). text_at c hand m d ≡ some t in
    elim (reconcile_inv stamp snapshot id name db h) [
      | inl (a, b, e) ↦
          subst (λ m. goal m db') (sym (now_at_kept r name n a b)) (subst (goal n) (sym e) held)
      | inr (a, b, (mid, renamed, merged)) ↦
          let p = plan_reconcile (trim_space id) name db in
          let ns = holders_in (trim_space id) db db.models in
          let unmerged : p.merge ≡ [] → db' ≡ mid = λ pm.
            merged ∙ ap (λ ms. merge_all stamp name ms mid) pm ∙ merge_all_none stamp name mid in
          let unchanged : p.rename ≡ "" → p.merge ≡ [] → goal (now_at r name n) db' = λ pr pm.
            let f : mid ≡ db = ground (arith, eq_iff p.rename "") in
            subst (λ m. goal m db') (sym (now_at_kept r name n (a ∙ pr) (b ∙ pm)))
              (subst (goal n) (sym (unmerged pm ∙ f)) held) in
          elim (plan_reconcile-Planned (trim_space id) name db) [
            | inl nothing ↦ unchanged (ap (λ q. q.rename) nothing) (ap (λ q. q.merge) nothing)
            | inr (inl (free, other, none_to_merge)) ↦ elim (Bool-cases (str_eq p.rename "")) [
              | inl same ↦ unchanged ((eq_iff p.rename "").0 same) none_to_merge
              | inr some_row ↦
                  let moved : rename_row stamp p.rename name db ≡ ok mid =
                    subst (λ b. (if b then ok db else rename_row stamp p.rename name db) ≡ ok mid)
                      some_row renamed in
                  let text =
                    text-renamed c stamp p.rename name n t db moved other
                      (free_of_cells name db well free) held in
                  subst (λ m. goal m db')
                    (sym (now_at_renamed r p.rename name n a (b ∙ none_to_merge) some_row))
                    (subst (goal (if str_eq n p.rename then name else n))
                      (sym (unmerged none_to_merge)) text)
            ]
            | inr (inr (no_rename, all, named, clear)) ↦
                let others = keep (λ h. not (str_eq h name)) ns in
                let f : mid ≡ db = ground (arith, eq_iff p.rename "") in
                let e : db' ≡ merge_all stamp name others db =
                  merged
                  ∙ ap (λ ms. merge_all stamp name ms mid) all
                  ∙ ap (merge_all stamp name others) f in
                subst (λ m. goal m db')
                  (sym (now_at_merged r others name n (a ∙ no_rename) (b ∙ all)))
                  (subst (goal (if contains others n then name else n)) (sym e)
                    (text-plan_merged c k stamp name ns db n t named clear found held))
          ]
    ]
