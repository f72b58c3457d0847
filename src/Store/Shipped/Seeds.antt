-- ===== src/Store/Shipped/Seeds.antt =====
-- What seeding the shipped columns leaves of a catalog.
use models_db.Prelude.{
  ℕ, suc, ◌+◌, String, Bool-cases, ◌≡◌, inl, inr, refl, ap, ◌∙◌, subst, Bool, true, false, not,
  Option, none, some, List, [], ◌∷◌, ◌++◌, Option-cases, str_eq, map,
}
use models_db.Store.Source.{stored_name}
use models_db.Store.Schema.{
  ok-injective, Column, Db, Result, ok, err, ◌>>=◌, ◌>>◌, find_column, Result-cases, Error, guard,
}
use models_db.Store.Columns.{
  ColumnSpec, check_spec, key_or_label_taken, check_source_list, create_column,
}
use models_db.Store.Shipped.{
  spec_of, seed_one_column, seed_from, seed_shipped_columns, ensure_shipped_columns,
}
use models_db.Store.Shipped.Table.{ShippedColumn, shipped_columns}

-- Columns may be added, and nothing else changes.
pub record Extends (db db' : Db) : Type 0 where
  pub columns :
      (key : String) (c : Column)
      → find_column key db.columns ≡ some c
      → find_column key db'.columns ≡ some c
  pub cells : db'.cells ≡ db.cells
  pub models : db'.models ≡ db.models
  pub records : db'.records ≡ db.records

Extends-refl : (db : Db) → Extends db db
Extends-refl db = record { columns = λ key c e. e; cells = refl; models = refl; records = refl }

Extends-trans : {a b c : Db} → Extends a b → Extends b c → Extends a c
Extends-trans p q = record {
  columns = λ key c e. q.columns key c (p.columns key c e);
  cells = q.cells ∙ p.cells;
  models = q.models ∙ p.models;
  records = q.records ∙ p.records;
}

find_column-append :
    (key : String) (c : Column) (cs ds : List Column)
    → find_column key cs ≡ some c
    → find_column key (cs ++ ds) ≡ some c
unfolding find_column
find_column-append key c [] ds e = cc
find_column-append key c (x ∷ cs) ds e = elim (Bool-cases (str_eq x.key key)) [
  | inl here ↦ rw here (rw here at e)
  | inr apart ↦ rw apart (find_column-append key c cs ds (rw apart at e))
]

create_column-Extends :
    (stamp : String) (spec : ColumnSpec) (sources : List String) (db : Db) (made : Column × Db)
    → create_column stamp spec sources db ≡ ok made
    → Extends db made.1
unfolding create_column
create_column-Extends stamp spec sources db made e =
    by_spec (check_spec spec sources stamp db.next_id) e
  where
    create : Column → Result (Column × Db)
    create column =
        ok (column, record db { columns = db.columns ++ column ∷ []; next_id = db.next_id + 1 })

    by_sources :
        (column : Column) (r : Result (Unit {0}))
        → (r >> create column) ≡ ok made
        → Extends db made.1
    by_sources column (err x) e = cc
    by_sources column (ok u) e = subst (Extends db) (ap (λ r. r.1) (ok-injective e)) (record {
      columns = λ key c f. find_column-append key c db.columns (column ∷ []) f;
      cells = refl;
      models = refl;
      records = refl;
    })

    by_guard :
        (column : Column) (r : Result (Unit {0}))
        → (r >> (check_source_list column.sources >> create column)) ≡ ok made
        → Extends db made.1
    by_guard column (err x) e = cc
    by_guard column (ok u) e = by_sources column (check_source_list column.sources) e

    by_spec :
        (r : Result Column)
        → (r >>= λ column.
            guard
              (not (key_or_label_taken column.key column.label db.columns))
              (Error.invalid_request "UNIQUE constraint failed")
            >> (check_source_list column.sources >> create column))
          ≡ ok made
        → Extends db made.1
    by_spec (err x) e = cc
    by_spec (ok column) e =
        by_guard column
          (guard (not (key_or_label_taken column.key column.label db.columns))
            (Error.invalid_request "UNIQUE constraint failed"))
          e

seed_one_column-Extends :
    (stamp : String) (shipped : ShippedColumn) (position : ℕ) (db : Db) (made : Bool × Db)
    → seed_one_column stamp shipped position db ≡ ok made
    → Extends db made.1
unfolding seed_one_column
seed_one_column-Extends stamp shipped position db made e =
    by_found (find_column shipped.key db.columns) e
  where
    create : Result (Column × Db)
    create = create_column stamp (spec_of shipped position) (map stored_name shipped.sources) db

    answer : Column × Db → Result (Bool × Db)
    answer made = ok (true, made.1)

    by_created :
        (r : Result (Column × Db)) → create ≡ r → (r >>= answer) ≡ ok made → Extends db made.1
    by_created (err x) f e = cc
    by_created (ok created) f e =
        subst (λ m. Extends db m.1) (ok-injective e)
          (create_column-Extends stamp (spec_of shipped position) (map stored_name shipped.sources)
            db created f)

    by_found :
        (o : Option Column)
        → (elim o as (λ _. Result (Bool × Db)) [
          | some c ↦ ok (false, db)
          | none ↦ create >>= answer
        ])
          ≡ ok made
        → Extends db made.1
    by_found (some c) e = subst (λ m. Extends db m.1) (ok-injective e) (Extends-refl db)
    by_found none e = by_created create refl e

seed_from-Extends :
    (stamp : String) (position : ℕ) (list : List ShippedColumn) (db : Db) (created : List String)
    → Extends db (seed_from stamp position list db created).db
unfolding seed_from
seed_from-Extends stamp position [] db created = Extends-refl db
seed_from-Extends stamp position (shipped ∷ rest) db created =
    elim (Result-cases (seed_one_column stamp shipped position db)) [
      | inl (x, e) ↦ rw (e, seed_from) (Extends-refl db)
      | inr (made, e) ↦
          rw (e, seed_from)
            (Extends-trans (seed_one_column-Extends stamp shipped position db made e)
              (seed_from-Extends stamp (suc position) rest made.1 _))
    ]

-- Seeding the shipped columns, at a start or before a write that finds the catalog unseeded, and
-- wherever an error stops it, leaves every column that is there exactly as it is, and every model,
-- cell and source record.
pub ensure_shipped_columns-Extends :
    (stamp : String) (db : Db)
    → Extends db (seed_shipped_columns stamp db).db
      × Extends db (ensure_shipped_columns stamp db).db
unfolding ensure_shipped_columns seed_shipped_columns
ensure_shipped_columns-Extends stamp db =
    let seeded = seed_from-Extends stamp 0 shipped_columns db [] in
    (
      seeded,
      elim (Option-cases (find_column "added" db.columns)) [
        | inl e ↦ rw (e, ensure_shipped_columns) seeded
        | inr (c, e) ↦ rw (e, ensure_shipped_columns) (Extends-refl db)
      ],
    )
