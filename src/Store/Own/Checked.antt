-- ===== src/Store/Own/Checked.antt =====
-- internal/store/savecells.go, everyValueItsColumnWillHold: the check before a row is made, and the save
-- after it.
use models_db.Prelude.{
  String, ◌≡◌, inl, inr, refl, true, some, List, [], ◌∷◌, arith, str_eq, eq_iff, string_eq,
  contains, Bool-cases, subst, ◌∙◌,
}
use models_db.Prelude.Table.{Table, lookup, put, lookup-put}
use models_db.Prelude.Text.{trim_space}
use models_db.Shared.Number.{Floats, two_decimals}
use models_db.Store.Source.{Source, source_eq}
use models_db.Store.Schema.{Column, Model, Db, ok, Result-cases, find_column, column_by_key}
use models_db.Store.Cells.{each_key, sorted_keys, value_at}
use models_db.Store.Cells.Effect.{contains-sorted_keys}
use models_db.Store.Cells.Writes.{Takes}
use models_db.Store.Own.{
  rounded_for_storage, automatic_from, source_for_own_write, check_own_key,
  every_value_its_column_will_hold, own_cells,
}
use models_db.Store.Own.Rule.{MayWrite, source_for_own_write_inv}
use models_db.Store.Own.Saves.{own_cells-accepts_iff, value_at-rounded_cells}

-- What the check of one key finds.
record IsCheckable (fl : Floats) (name : String) (cells : Table String String) (db : Db)
    (key : String) : Type 0 where
  column : Column
  found : find_column key db.columns ≡ some column
  may : MayWrite column name (value_at key cells) db
  takes : Takes column (rounded_for_storage fl key (value_at key cells))

module _ (fl : Floats) (name : String) (cells : Table String String) where
  check_own_key-same :
      (key : String) (db : Db) {db' : Db} → check_own_key fl name cells key db ≡ ok db' → db' ≡ db
  unfolding check_own_key column_by_key
  check_own_key-same key db h = ground arith

  check_own_key-IsCheckable :
      (key : String) (db : Db) {db' : Db}
      → check_own_key fl name cells key db ≡ ok db'
      → IsCheckable fl name cells db key
  unfolding check_own_key column_by_key
  check_own_key-IsCheckable key db h = elim (Result-cases (column_by_key key db)) [
    | inl (e, none_found) ↦ absurd (ground arith)
    | inr (c, found) ↦ elim (Result-cases (source_for_own_write c name (value_at key cells) db)) [
      | inl (e, refused) ↦ absurd (ground arith)
      | inr (src, ruled) ↦
          let (_, _, may) = source_for_own_write_inv c name (value_at key cells) db ruled in
          record { column = c; found = ground arith; may = may; takes = ground arith }
    ]
  ]

  checked_keys :
      (ks : List String) (db : Db) {db' : Db}
      → each_key (check_own_key fl name cells) ks db ≡ ok db'
      → (k : String) → contains ks k ≡ true
      → IsCheckable fl name cells db k
  unfolding each_key contains
  checked_keys [] db h k m = cc
  checked_keys (x ∷ ks) db {db'} h k m = elim (Result-cases (check_own_key fl name cells x db)) [
    | inl (e, refused) ↦ absurd (ground arith)
    | inr (mid, one) ↦
        let same = check_own_key-same x db one in
        elim (Bool-cases (str_eq x k)) [
          | inl this ↦
              subst (IsCheckable fl name cells db) ((eq_iff x k).0 this)
                (check_own_key-IsCheckable x db one)
          | inr other ↦
              let at_mid : each_key (check_own_key fl name cells) ks mid ≡ ok db' = ground arith in
              let rest : each_key (check_own_key fl name cells) ks db ≡ ok db' =
                subst (λ d. each_key (check_own_key fl name cells) ks d ≡ ok db') same at_mid in
              checked_keys ks db rest k (ground arith)
        ]
  ]

-- Rounding keeps a blank value blank.
rounded_blank :
    (fl : Floats) (key value : String)
    → str_eq (trim_space value) "" ≡ true
    → rounded_for_storage fl key value ≡ value
unfolding rounded_for_storage two_decimals
rounded_blank fl key value h = ground arith

MayWrite-rounded :
    (fl : Floats) (c : Column) (name key value : String) (db : Db)
    → MayWrite c name value db
    → MayWrite c name (rounded_for_storage fl key value) db
MayWrite-rounded fl c name key value db (inl own) = inl own
MayWrite-rounded fl c name key value db (inr (r, inl blank)) =
    inr (r, inl (rw (rounded_blank fl key value blank) blank))
MayWrite-rounded fl c name key value db (inr (r, inr nothing)) = inr (r, inr nothing)

automatic_from-cells :
    (ss : List Source) (c : Column) (name : String) (db db' : Db)
    → db'.cells ≡ db.cells
    → automatic_from ss c name db' ≡ automatic_from ss c name db
unfolding automatic_from
automatic_from-cells [] c name db db' e = refl
automatic_from-cells (src ∷ ss) c name db db' e =
    ground (arith, automatic_from-cells ss c name db db' e)

MayWrite-cells :
    (c : Column) (name value : String) (db db' : Db)
    → db'.cells ≡ db.cells
    → MayWrite c name value db
    → MayWrite c name value db'
MayWrite-cells c name value db db' e (inl own) = inl own
MayWrite-cells c name value db db' e (inr (r, inl blank)) = inr (r, inl blank)
MayWrite-cells c name value db db' e (inr (r, inr nothing)) =
    inr (r, inr (automatic_from-cells c.sources c name db db' e ∙ nothing))

-- The cells that pass the check, which is made before the row of a new model is, are all accepted by the
-- save that follows once the row is there.
pub own_cells-every_value_its_column_will_hold :
    (fl : Floats) (stamp name : String) (cells : Table String String) (row : Model) (db : Db)
    {db' : Db}
    → every_value_its_column_will_hold fl name cells db ≡ ok db'
    → (saved : Db) × (own_cells fl stamp name cells (record db { models = put name row db.models })
        ≡ ok saved)
unfolding every_value_its_column_will_hold
own_cells-every_value_its_column_will_hold fl stamp name cells row db h =
    let made = record db { models = put name row db.models } in
    let there : lookup name made.models ≡ some row =
      ground (arith, lookup-put name name row db.models, eq_iff name name) in
    (own_cells-accepts_iff fl stamp name cells made).1 (
      (row, there),
      λ k sent.
          let c =
            checked_keys fl name cells (sorted_keys cells) db h k
              (contains-sorted_keys k cells ∙ sent) in
          let e = value_at-rounded_cells fl k cells sent in
          record {
            column = c.column;
            found = c.found;
            may = rw e (
                MayWrite-cells c.column name (rounded_for_storage fl k (value_at k cells)) db made
                  refl (MayWrite-rounded fl c.column name k (value_at k cells) db c.may));
            takes = rw e c.takes;
          },
    )
