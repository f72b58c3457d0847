-- ===== src/Store/Source.antt =====
-- internal/store/source.go: who stated a cell. A `Source` of the program is a text; here it is one of
-- the five known ones, and a text becomes one by `valid_source`.
use models_db.Prelude.{
  ℕ, String, ◌≡◌, ◌↔◌, refl, Bool, true, false, Option, none, some, arith, nat_eqb, if◌then◌else◌,
  str_eq, Eq,
}

pub data Source : Type 0 where
  open_router hugging_face research hand app : Source

pub data SourceKind : Type 0 where
  fetched research hand static : SourceKind

-- The word a source is stored under.
unfoldable pub stored_name : Source → String
stored_name open_router = "openrouter"
stored_name hugging_face = "huggingface"
stored_name Source.research = "research"
stored_name Source.hand = "hand"
stored_name app = "app"

-- Source.Valid, with the source that a valid text is.
unfoldable pub parse_source : String → Option Source
parse_source s =
    if str_eq s "openrouter"
    then some open_router
    else if str_eq s "huggingface"
    then some hugging_face
    else if str_eq s "research"
    then some Source.research
    else if str_eq s "hand"
    then some Source.hand
    else if str_eq s "app"
    then some app
    else none

-- Source.Kind
unfoldable pub kind : Source → SourceKind
kind open_router = fetched
kind hugging_face = fetched
kind Source.research = SourceKind.research
kind Source.hand = SourceKind.hand
kind app = static

-- fetchedSources
unfoldable pub is_fetched : Source → Bool
is_fetched open_router = true
is_fetched hugging_face = true
is_fetched Source.research = false
is_fetched Source.hand = false
is_fetched app = false

-- `Kind() == "fetched"`
unfoldable pub kind_is_fetched : Source → Bool
unfolding kind
kind_is_fetched s = elim (kind s) [ fetched ↦ true | _ ↦ false ]

number_of : Source → ℕ
number_of open_router = 0
number_of hugging_face = 1
number_of Source.research = 2
number_of Source.hand = 3
number_of app = 4

unfoldable pub source_eqb : Source → Source → Bool
unfolding number_of
source_eqb a b = nat_eqb (number_of a) (number_of b)

pub source_eqb_iff : (a b : Source) → (source_eqb a b ≡ true) ↔ (a ≡ b)
unfolding source_eqb
source_eqb_iff open_router b = ground arith
source_eqb_iff hugging_face b = ground arith
source_eqb_iff Source.research b = ground arith
source_eqb_iff Source.hand b = ground arith
source_eqb_iff app b = ground arith

instance abbrev pub source_eq : Eq Source
source_eq = record { equal = source_eqb; equal_iff = source_eqb_iff }

pub kind_is_fetched-eq-is_fetched : (s : Source) → kind_is_fetched s ≡ is_fetched s
unfolding kind_is_fetched is_fetched
kind_is_fetched-eq-is_fetched open_router = refl
kind_is_fetched-eq-is_fetched _ = refl

parse_source-stored_name : (s : Source) → parse_source (stored_name s) ≡ some s
unfolding parse_source stored_name
parse_source-stored_name open_router = refl
parse_source-stored_name _ = refl
