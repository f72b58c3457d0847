-- ===== src/Store/Schema.antt =====
-- The tables of the cell store (internal/dbcore/db.go and the later migrations), the refusals of
-- internal/store as values, and the lookups that every operation makes.
use models_db.Prelude.{
  ℕ, String, ◌≡◌, ◌↔◌, ◌⊎◌, inl, inr, refl, Bool, true, ◌&&◌, Option, none, some, List, [], ◌∷◌,
  arith, if◌then◌else◌, str_eq, eq_iff, nat_eqb, Eq, string_eq,
}
use models_db.Prelude.Table.{Table, lookup}
use models_db.Shared.Number.{Decimal}
use models_db.Store.Source.{Source, source_eqb, source_eqb_iff}

pub data ValueType : Type 0 where
  text number flag choice list : ValueType

pub data Resolve : Type 0 where
  first_stated union : Resolve

-- One band of a number column's colours: a value below the figure takes the colour.
pub record ColorThreshold : Type 0 where
  pub below : Decimal
  pub color : String

pub record ColorRules : Type 0 where
  pub thresholds : List ColorThreshold
  pub otherwise : String
  pub for_yes : String
  pub for_no : String
  pub for_options : Table String String

-- One column definition. `options` are the rows of column_options in their order, and `sources`
-- those of column_sources in the order of their ranks.
pub record Column : Type 0 where
  pub id : ℕ
  pub key : String
  pub label : String
  pub value_type : ValueType
  pub resolve : Resolve
  pub unit : String
  pub about : String
  pub position : ℕ
  pub visible : Bool
  pub sealed : Bool
  pub created_at : String
  pub options : List String
  pub sources : List Source
  pub colors : Option ColorRules

pub record Model : Type 0 where
  pub source : String
  pub variant_of : String
  pub updated_at : String
  pub hidden : Bool

-- The primary key of `cells`.
pub record CellKey : Type 0 where
  pub column : ℕ
  pub model : String
  pub source : Source

-- The sort key of a cell: SQL's NULL, or a figure.
pub data SortKey : Type 0 where
  null : SortKey
  figure : Decimal → SortKey

pub record Cell : Type 0 where
  pub value_text : String
  pub value_number : SortKey
  pub written_at : String

-- The primary key of `source_records`.
pub record RecordKey : Type 0 where
  pub model : String
  pub source : Source

pub record Db : Type 0 where
  pub models : Table String Model
  pub columns : List Column
  pub cells : Table CellKey Cell
  pub records : Table RecordKey String
  -- what AUTOINCREMENT gives the next column
  pub next_id : ℕ

unfoldable pub cell_key_eqb : CellKey → CellKey → Bool
unfolding source_eqb
cell_key_eqb a b =
    nat_eqb a.column b.column && str_eq a.model b.model && source_eqb a.source b.source

pub cell_key_eqb_iff : (a b : CellKey) → (cell_key_eqb a b ≡ true) ↔ (a ≡ b)
unfolding cell_key_eqb
cell_key_eqb_iff a b = ground (arith, eq_iff a.model b.model, source_eqb_iff a.source b.source)

instance abbrev pub cell_key_eq : Eq CellKey
cell_key_eq = record { equal = cell_key_eqb; equal_iff = cell_key_eqb_iff }

unfoldable pub record_key_eqb : RecordKey → RecordKey → Bool
unfolding source_eqb
record_key_eqb a b = str_eq a.model b.model && source_eqb a.source b.source

pub record_key_eqb_iff : (a b : RecordKey) → (record_key_eqb a b ≡ true) ↔ (a ≡ b)
unfolding record_key_eqb
record_key_eqb_iff a b = ground (arith, eq_iff a.model b.model, source_eqb_iff a.source b.source)

instance abbrev pub record_key_eq : Eq RecordKey
record_key_eq = record { equal = record_key_eqb; equal_iff = record_key_eqb_iff }

-- The refusals, each of which is its own reply over HTTP.
pub data Error : Type 0 where
  no_model_name : Error
  no_such_model : String → Error
  no_such_column : String → Error
  unusable_column_key : String → Error
  column_is_a_source : String → Error
  cell_value : String → String → Error
  -- the column, and the source and value that nothing typed replaces, if one is held
  not_writable : String → Option (Source × String) → Error
  model_exists : String → Error
  listed_by_open_router : String → Error
  unusable_colors : String → Error
  invalid_request : String → Error

pub data Result {ℓ} (A : Type ℓ) : Type ℓ where
  err : Error → Result A
  ok : A → Result A

-- Refuses with an error where a condition fails.
abbrev pub guard : Bool → Error → Result (Unit {0})
guard holds e = if holds then ok tt else err e

infixl 5 ◌>>◌ ◌>>=◌
abbrev pub ◌>>=◌ {ℓ κ} : {A : Type ℓ} {B : Type κ} (m : Result A) → (A → Result B) → Result B
err e >>= next = err e
ok a >>= next = next a

abbrev pub ◌>>◌ {κ} : {B : Type κ} (check : Result (Unit {0})) → Result B → Result B
check >> rest = check >>= λ _. rest

-- To split on a result and keep the equation.
pub Result-cases {ℓ} :
    {A : Type ℓ} (r : Result A) → ((e : Error) × (r ≡ err e)) ⊎ ((a : A) × (r ≡ ok a))
Result-cases (ok a) = inr (a, refl)
Result-cases (err e) = inl (e, refl)

pub ok-injective : {A : Type 0} {a b : A} → ok a ≡ ok b → a ≡ b
ok-injective e = cc

-- A transaction: what it did is kept only if it commits.
unfoldable pub after : Result Db → Db → Db
after (ok db') db = db'
after (err e) db = db

unfoldable pub find_column : String → List Column → Option Column
find_column key [] = none
find_column key (c ∷ cs) = if str_eq c.key key then some c else find_column key cs

-- columnByKey
unfoldable pub column_by_key : String → Db → Result Column
column_by_key key db = elim (find_column key db.columns) [
  | none ↦ err (no_such_column key)
  | some c ↦ ok c
]

-- modelMustExist
unfoldable pub model_must_exist : String → Db → Result (Unit {0})
model_must_exist name db = elim (lookup name db.models) [
  | none ↦ err (no_such_model name)
  | some m ↦ ok tt
]

-- stampModelWritten
unfoldable pub stamp_rows : String → String → Table String Model → Table String Model
stamp_rows name stamp [] = []
stamp_rows name stamp ((n, m) ∷ t) =
    (n, if str_eq n name then record m { updated_at = stamp } else m) ∷ stamp_rows name stamp t

unfoldable pub stamp_model_written : String → String → Db → Db
unfolding stamp_rows
stamp_model_written name stamp db = record db { models = stamp_rows name stamp db.models }
