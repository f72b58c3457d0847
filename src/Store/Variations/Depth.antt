-- ===== src/Store/Variations/Depth.antt =====
-- internal/store/variations.go: the depth of the filings, and which filings are accepted.
use models_db.Prelude.{
  String, ◌≡◌, ◌≢◌, ◌↔◌, ◌⊎◌, refl, Bool, true, false, none, some, List, [], ◌∷◌, leb, length,
  arith, if◌then◌else◌, str_eq, eq_iff, string_eq, inl, inr, Bool-cases,
}
use models_db.Prelude.Table.{Table, lookup, remove, lookup-remove}
use models_db.Prelude.Text.{trim_space}
use models_db.Store.Schema.{Model, Db, ok, Result-cases}
use models_db.Store.Cells.{insert_key}
use models_db.Store.Variations.{
  set_row, variant_of, children, variations_of, file_as_variation, unfile_variation, set_hidden,
  delete_model_permanently,
}

-- A model that is filed under another has none filed under it.
abbrev pub IsOneLevel : Table String Model → Type 0
IsOneLevel t =
    (n k : String) (m x : Model)
    → lookup n t ≡ some m
    → lookup k t ≡ some x
    → str_eq (trim_space m.variant_of) "" ≡ false
    → str_eq (trim_space x.variant_of) "" ≡ false
    → x.variant_of ≢ n

pub lookup-set_row :
    (n name : String) (f : Model → Model) (t : Table String Model)
    → lookup n (set_row name f t)
      ≡ (elim (lookup n t) [ none ↦ none | some m ↦ some (if str_eq n name then f m else m) ])
unfolding set_row lookup
lookup-set_row n name f [] = refl
lookup-set_row n name f ((k, m) ∷ t) = ground (arith, eq_iff k n, lookup-set_row n name f t)

insert_key-filled : (k : String) (ks : List String) → leb (length (insert_key k ks)) 0 ≡ false
unfolding insert_key
insert_key-filled k [] = refl
insert_key-filled k (j ∷ js) = ground (arith, insert_key-filled k js)

-- A model with no children is no one's parent.
pub no_children :
    (parent : String) (t : Table String Model)
    → leb (length (children parent t)) 0 ≡ true
    → (n : String) (m : Model) → lookup n t ≡ some m
    → m.variant_of ≢ parent
unfolding children lookup
no_children parent [] h n m l e = cc
no_children parent ((k, x) ∷ t) h n m l e =
    let later : leb (length (children parent t)) 0 ≡ true → lookup n t ≡ some m → ⊥ =
      λ none_there held. no_children parent t none_there n m held e in
    ground (
      arith,
      eq_iff x.variant_of parent,
      eq_iff k n,
      insert_key-filled k (children parent t),
      later,
    )

-- One of the changes to which model is filed under which.
pub data Change : Db → Db → Type 0 where
  filed :
      (stamp name parent : String) {db db' : Db}
      → file_as_variation stamp name parent db ≡ ok db'
      → Change db db'
  unfiled :
      (stamp name : String) {db db' : Db} → unfile_variation stamp name db ≡ ok db' → Change db db'
  hid :
      (stamp name : String) (hidden : Bool) {db db' : Db}
      → set_hidden stamp name hidden db ≡ ok db'
      → Change db db'
  deleted :
      (name : String) {db db' : Db} → delete_model_permanently name db ≡ ok db' → Change db db'

-- What an accepted filing found.
record Filed (stamp name parent : String) (db db' : Db) : Type 0 where
  child : Model
  child_held : lookup name db.models ≡ some child
  above : Model
  above_held : lookup parent db.models ≡ some above
  top : str_eq (trim_space above.variant_of) "" ≡ true
  no_own : leb (length (children name db.models)) 0 ≡ true
  other : str_eq name parent ≡ false
  models :
      db'.models
      ≡ set_row name
          (λ m. record m { variant_of = parent; hidden = true; updated_at = stamp })
          db.models

file_as_variation_inv :
    (stamp name parent : String) (db : Db) {db' : Db}
    → file_as_variation stamp name parent db ≡ ok db'
    → Filed stamp name parent db db'
unfolding file_as_variation variant_of variations_of
file_as_variation_inv stamp name parent db h = ground arith

row_of :
    (n name : String) (f : Model → Model) (t t' : Table String Model) {m : Model}
    → t' ≡ set_row name f t
    → lookup n t' ≡ some m
    → (o : Model) × (lookup n t ≡ some o) × (m ≡ (if str_eq n name then f o else o))
row_of n name f t t' e h = ground (arith, lookup-set_row n name f t)

file-IsOneLevel :
    (stamp name parent : String) (db db' : Db)
    → Filed stamp name parent db db'
    → IsOneLevel db.models
    → IsOneLevel db'.models
file-IsOneLevel stamp name parent db db' w one n k m x hm hx below under e =
    let f = λ (m : Model). record m { variant_of = parent; hidden = true; updated_at = stamp } in
    let (o, ho, em) = row_of n name f db.models db'.models w.models hm in
    let (p, hp, ex) = row_of k name f db.models db'.models w.models hx in
    let nobody : p.variant_of ≢ name = no_children name db.models w.no_own k p hp in
    let before : str_eq (trim_space o.variant_of) "" ≡ false
        → str_eq (trim_space p.variant_of) "" ≡ false
        → p.variant_of ≢ n =
      one n k o p ho hp in
    ground (
      arith,
      eq_iff n name,
      eq_iff k name,
      eq_iff name parent,
      eq_iff n parent,
      w.above_held,
      w.top,
      w.other,
    )

-- A change that files no row.
keep-IsOneLevel :
    (t t' : Table String Model)
    → ((n : String) (m : Model)
        → lookup n t' ≡ some m
        → (o : Model) × (lookup n t ≡ some o)
          × ((m.variant_of ≡ o.variant_of) ⊎ (str_eq (trim_space m.variant_of) "" ≡ true)))
    → IsOneLevel t
    → IsOneLevel t'
keep-IsOneLevel t t' old one n k m x hm hx below under e =
    let (o, ho, mo) = old n m hm in
    let (p, hp, xp) = old k x hx in
    let before : str_eq (trim_space o.variant_of) "" ≡ false
        → str_eq (trim_space p.variant_of) "" ≡ false
        → p.variant_of ≢ n =
      one n k o p ho hp in
    ground arith

keep_row :
    (name : String) (f : Model → Model) (t t' : Table String Model)
    → t' ≡ set_row name f t
    → ((o : Model)
        → ((f o).variant_of ≡ o.variant_of) ⊎ (str_eq (trim_space (f o).variant_of) "" ≡ true))
    → (n : String) (m : Model) → lookup n t' ≡ some m
    → (o : Model) × (lookup n t ≡ some o)
      × ((m.variant_of ≡ o.variant_of) ⊎ (str_eq (trim_space m.variant_of) "" ≡ true))
keep_row name f t t' e step n m h =
    let (o, ho, em) = row_of n name f t t' e h in
    let s = step o in
    (
      o,
      ho,
      elim (Bool-cases (str_eq n name)) [ inl same ↦ ground arith | inr other ↦ ground arith ],
    )

unfile_variation_inv :
    (stamp name : String) (db : Db) {db' : Db}
    → unfile_variation stamp name db ≡ ok db'
    → db'.models ≡ set_row name (λ m. record m { variant_of = ""; updated_at = stamp }) db.models
unfolding unfile_variation variant_of
unfile_variation_inv stamp name db h = ground arith

set_hidden_inv :
    (stamp name : String) (hidden : Bool) (db : Db) {db' : Db}
    → set_hidden stamp name hidden db ≡ ok db'
    → db'.models ≡ set_row name (λ m. record m { hidden = hidden; updated_at = stamp }) db.models
unfolding set_hidden
set_hidden_inv stamp name hidden db h = ground arith

delete_inv :
    (name : String) (db : Db) {db' : Db}
    → delete_model_permanently name db ≡ ok db'
    → db'.models ≡ remove name db.models
unfolding delete_model_permanently
delete_inv name db h = ground arith

blank : str_eq (trim_space "") "" ≡ true
unfolding trim_space
blank = refl

-- A change of the filings that is accepted keeps them one level deep.
Change-IsOneLevel : {db db' : Db} → Change db db' → IsOneLevel db.models → IsOneLevel db'.models
Change-IsOneLevel (filed stamp name parent {db = db} {db' = db'} h) =
    file-IsOneLevel stamp name parent db db' (file_as_variation_inv stamp name parent db h)
Change-IsOneLevel (unfiled stamp name {db = db} {db' = db'} h) =
    keep-IsOneLevel db.models db'.models (
      keep_row name (λ m. record m { variant_of = ""; updated_at = stamp }) db.models db'.models
        (unfile_variation_inv stamp name db h) (λ o. inr blank))
Change-IsOneLevel (hid stamp name hidden {db = db} {db' = db'} h) =
    keep-IsOneLevel db.models db'.models (
      keep_row name (λ m. record m { hidden = hidden; updated_at = stamp }) db.models db'.models
        (set_hidden_inv stamp name hidden db h) (λ o. inl refl))
Change-IsOneLevel (deleted name {db = db} {db' = db'} h) =
    let e = delete_inv name db h in
    keep-IsOneLevel db.models db'.models
      (λ n m l. (m, ground (arith, e, lookup-remove name n db.models), inl refl))

-- What a sequence of changes reaches.
pub data Reached (first : Db) : Db → Type 0 where
  here : Reached first first
  step : {mid db : Db} → Reached first mid → Change mid db → Reached first db

-- Filing, unfiling, hiding and deleting, in any order, keep the filings one level deep: from a catalog
-- in which no filed model has a model filed under it, every sequence of accepted calls reaches one.
pub Reached-IsOneLevel :
    {first last : Db} → Reached first last → IsOneLevel first.models → IsOneLevel last.models
Reached-IsOneLevel here one = one
Reached-IsOneLevel (step r c) one = Change-IsOneLevel c (Reached-IsOneLevel r one)

-- A filing is accepted exactly when the names are not blank and differ, both models are there, the
-- parent is filed under none, and none is filed under the model.
pub file_as_variation-accepts_iff :
    (stamp name parent : String) (db : Db)
    → ((db' : Db) × (file_as_variation stamp name parent db ≡ ok db')) ↔ (
        (str_eq (trim_space name) "" ≡ false)
        × (str_eq (trim_space parent) "" ≡ false)
        × (name ≢ parent)
        × ((m : Model) × (lookup name db.models ≡ some m))
        × ((p : Model) × (lookup parent db.models ≡ some p) × (trim_space p.variant_of ≡ ""))
        × (variations_of name db ≡ []))
unfolding file_as_variation variant_of
file_as_variation-accepts_iff stamp name parent db = (
  λ (db', h).
      let w = file_as_variation_inv stamp name parent db h in
      (
        ground arith,
        ground arith,
        ground (arith, eq_iff name parent),
        (w.child, w.child_held),
        (w.above, w.above_held, ground (arith, eq_iff (trim_space w.above.variant_of) "", w.top)),
        ground arith,
      ),
  λ (named, above, other, (m, held), (p, there, top), none_own).
      let differs : str_eq name parent ≡ false = ground (arith, eq_iff name parent) in
      let not_it : str_eq "" name ≡ false = ground (arith, eq_iff "" name, blank) in
      elim (Result-cases (file_as_variation stamp name parent db)) [
        | inl (e, refused) ↦ absurd (ground (arith, eq_iff (trim_space p.variant_of) ""))
        | inr done ↦ done
      ],
)
