-- ===== src/Store/Variations.antt =====
-- internal/store/variations.go and removal.go: filing a model under another, hiding it and deleting it.
pub mod Depth
pub mod Removal
use models_db.Prelude.{
  String, ◌≡◌, refl, Bool, true, false, ◌&&◌, ◌||◌, not, Option, none, some, List, [], ◌∷◌, leb,
  length, if◌then◌else◌, str_eq, string_eq,
}
use models_db.Prelude.Table.{Table, lookup, remove, remove_where}
use models_db.Prelude.Text.{trim_space}
use models_db.Store.Schema.{
  Model, cell_key_eq, record_key_eq, Db, Error, Result, ok, err, ◌>>=◌, ◌>>◌, guard, no_such_model,
  invalid_request, listed_by_open_router,
}
use models_db.Store.Cells.{insert_key}

-- UPDATE models ... WHERE name=?
unfoldable pub set_row : String → (Model → Model) → Table String Model → Table String Model
set_row name f [] = []
set_row name f ((n, m) ∷ t) = (n, if str_eq n name then f m else m) ∷ set_row name f t

-- variantOf
unfoldable pub variant_of : String → Db → Result String
variant_of name db = elim (lookup name db.models) [
  | none ↦ err (no_such_model name)
  | some m ↦ ok (trim_space m.variant_of)
]

unfoldable pub children : String → Table String Model → List String
unfolding insert_key
children parent [] = []
children parent ((n, m) ∷ t) =
    let rest = children parent t in if str_eq m.variant_of parent then insert_key n rest else rest

-- VariationsOf
unfoldable pub variations_of : String → Db → List String
unfolding children
variations_of parent db = children parent db.models

-- FileAsVariation
unfoldable pub file_as_variation : String → String → String → Db → Result Db
file_as_variation stamp name parent db = do
  guard (not (str_eq (trim_space name) "" || str_eq (trim_space parent) ""))
      (invalid_request "both the model to file and the model to file it under are required")
  guard (not (str_eq name parent)) (invalid_request "a variation of itself")
  _ ← variant_of name db
  above ← variant_of parent db
  guard (not (str_eq above name)) (invalid_request "already a variation of the model")
  guard (str_eq above "") (invalid_request "itself a variation")
  guard (leb (length (variations_of name db)) 0) (invalid_request "has variations of its own")
  ok (record db {
    models =
        set_row name (λ m. record m { variant_of = parent; hidden = true; updated_at = stamp })
          db.models;
  })

-- UnfileVariation
unfoldable pub unfile_variation : String → String → Db → Result Db
unfile_variation stamp name db = do
  guard (not (str_eq (trim_space name) "")) (invalid_request "the model to unfile is required")
  parent ← variant_of name db
  guard (not (str_eq parent "")) (invalid_request "not filed under any model")
  guard (leb (length (variations_of name db)) 0) (invalid_request "has variations filed under it")
  ok (record db {
    models = set_row name (λ m. record m { variant_of = ""; updated_at = stamp }) db.models;
  })

-- SetHidden: an UPDATE that finds no row is refused.
unfoldable pub set_hidden : String → String → Bool → Db → Result Db
set_hidden stamp name hidden db = do
  guard (not (str_eq name "")) (invalid_request "model name is required")
  elim (lookup name db.models) [
    | none ↦ err (no_such_model name)
    | some m ↦ ok (record db {
      models = set_row name (λ m. record m { hidden = hidden; updated_at = stamp }) db.models;
    })
  ]

-- DeleteModelPermanently: the row, and by ON DELETE CASCADE its cells and source records.
unfoldable pub delete_model_permanently : String → Db → Result Db
delete_model_permanently name db = do
  guard (not (str_eq name "")) (invalid_request "model name is required")
  elim (lookup name db.models) [
    | none ↦ err (no_such_model name)
    | some m ↦
        if str_eq m.source "openrouter"
        then err (listed_by_open_router name)
        else ok (record db {
          models = remove name db.models;
          cells = remove_where (λ j. str_eq j.model name) db.cells;
          records = remove_where (λ j. str_eq j.model name) db.records;
        })
  ]
