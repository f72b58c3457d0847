-- ===== src/Store/Shipped/Declared/Kept.antt =====
-- What DeclareShippedSources leaves of one column.
use models_db.Prelude.{
  ℕ, String, ◌≡◌, inl, inr, refl, ap, ◌∙◌, subst, Bool, true, false, Option, none, some, List, [],
  ◌∷◌, arith, Bool-cases, if◌then◌else◌, string_eq, contains,
}
use models_db.Prelude.Table.{lookup}
use models_db.Prelude.Table as Tables
use models_db.Store.Source.{Source, source_eq}
use models_db.Store.Schema.{
  ok-injective, Column, ValueType, CellKey, cell_key_eq, cell_key_eqb, cell_key_eqb_iff, Cell,
  Result, ok, err, ◌>>◌,
}
use models_db.Store.Columns.{check_source_list}
use models_db.Store.Cells.{sort_key_for, sort_key_of}
use models_db.Store.Shipped.{intended_sources, has_cell_outside, described, declare_column}

-- What a declaration leaves of a column: its id, key, kind and options, and every source with a cell.
pub record IsKept (cells : Tables.Table CellKey Cell) (c d : Column) : Type 0 where
  pub id : d.id ≡ c.id
  pub key : d.key ≡ c.key
  pub value_type : d.value_type ≡ c.value_type
  pub options : d.options ≡ c.options
  pub declared :
      (j : CellKey) (cell : Cell)
      → lookup j cells ≡ some cell
      → c.id ≡ j.column
      → contains c.sources j.source ≡ true
      → contains d.sources j.source ≡ true

-- No cell of the column is outside a list of sources: each cell's source is in it.
has_cell_outside-none :
    (id : ℕ) (wanted : List Source) (cells : Tables.Table CellKey Cell) (j : CellKey) (cell : Cell)
    → has_cell_outside id wanted cells ≡ false
    → lookup j cells ≡ some cell
    → id ≡ j.column
    → contains wanted j.source ≡ true
unfolding has_cell_outside lookup
has_cell_outside-none id wanted [] j cell h e i = cc
has_cell_outside-none id wanted ((k, other) ∷ cells) j cell h e i =
    elim (Bool-cases (cell_key_eqb k j)) [
      | inl same ↦
          let at_j : has_cell_outside id wanted ((j, other) ∷ cells) ≡ false =
            subst (λ x. has_cell_outside id wanted ((x, other) ∷ cells) ≡ false)
              ((cell_key_eqb_iff k j).0 same) h in
          ground (arith, at_j, i)
      | inr apart ↦
          has_cell_outside-none id wanted cells j cell (ground (arith, h)) (rw apart at e) i
    ]

described-IsKept :
    (tied : Tables.Table String String) (cells : Tables.Table CellKey Cell) (c : Column)
    → IsKept cells c (described tied c)
unfolding described
described-IsKept tied cells c = record {
  id = refl;
  key = refl;
  value_type = refl;
  options = refl;
  declared = λ j cell e i h. h;
}

pub declare_column-IsKept :
    (tied : Tables.Table String String) (cells : Tables.Table CellKey Cell) (c : Column)
    (declared : Column × Bool)
    → declare_column tied cells c ≡ ok declared
    → IsKept cells c declared.0
unfolding declare_column
declare_column-IsKept tied cells c declared e = by_intended (intended_sources c tied) e
  where
    IsGood : Result (Column × Bool) → Type 0
    IsGood r = r ≡ ok declared → IsKept cells c declared.0

    as_described : (b : Bool) → IsGood (ok (described tied c, b))
    as_described b e =
        subst (λ r. IsKept cells c r.0) (ok-injective e) (described-IsKept tied cells c)

    with_sources :
        (wanted : List Source)
        → has_cell_outside c.id wanted cells ≡ false
        → (check : Result (Unit {0}))
        → IsGood (check >> ok (record (described tied c) { sources = wanted }, true))
    with_sources wanted none_outside (err x) e = cc
    with_sources wanted none_outside (ok u) e =
        let k = described-IsKept tied cells c in
        subst (λ r. IsKept cells c r.0) (ok-injective e)
          (record {
            id = k.id;
            key = k.key;
            value_type = k.value_type;
            options = k.options;
            declared =
                λ j cell f i h. has_cell_outside-none c.id wanted cells j cell none_outside f i;
          })

    by_outside :
        (wanted : List Source) (b : Bool)
        → has_cell_outside c.id wanted cells ≡ b
        → IsGood (
            if b
            then ok (described tied c, false)
            else (check_source_list wanted
                >> ok (record (described tied c) { sources = wanted }, true)))
    by_outside wanted true f = as_described false
    by_outside wanted false f = with_sources wanted f (check_source_list wanted)

    by_intended :
        (intended : Option (List Source))
        → IsGood (elim intended [
          | none ↦ ok (described tied c, false)
          | some wanted ↦
              if has_cell_outside c.id wanted cells
              then ok (described tied c, false)
              else (check_source_list wanted
                  >> ok (record (described tied c) { sources = wanted }, true))
        ])
    by_intended none = as_described false
    by_intended (some wanted) = by_outside wanted (has_cell_outside c.id wanted cells) refl

same_sort_of :
    (t : ValueType) (c d : Column) (value : String)
    → d.key ≡ c.key
    → d.options ≡ c.options
    → sort_key_of t d value ≡ sort_key_of t c value
unfolding sort_key_of
same_sort_of ValueType.text c d value key options = refl
same_sort_of ValueType.list c d value key options = refl
same_sort_of ValueType.number c d value key options = rw key refl
same_sort_of ValueType.flag c d value key options = rw key refl
same_sort_of ValueType.choice c d value key options = rw (key, options) refl

pub same_sort :
    {cells : Tables.Table CellKey Cell} {c d : Column} (value : String)
    → IsKept cells c d
    → sort_key_for d value ≡ sort_key_for c value
same_sort {cells} {c} {d} value k =
    ap (λ t. sort_key_of t d value) k.value_type
    ∙ same_sort_of c.value_type c d value k.key k.options
