-- ===== src/SelfUpdate/Sums.antt =====
-- internal/selfupdate/sums.go: SHA256SUMS, the signed version and the checksum of each asset. Text is
-- the list of its bytes.
pub mod Lines
pub mod Order
pub mod RoundTrip
pub mod Versions
use models_db.Prelude.{
  ℕ, zero, suc, ◌+◌, ◌-◌, ◌*◌, ◌^◌, ◌<◌, String, ◌≡◌, refl, Bool, true, false, ◌&&◌, ◌||◌, not,
  Option, none, some, List, [], ◌∷◌, ◌++◌, leb, ltb, nat_eqb, if◌then◌else◌,
}
use models_db.Prelude.Table.{Table, lookup}
use models_db.Prelude.Text.{codes, codes_eqb, codes_eq}
use models_db.Shared.Number.{is_digit, take_digits}

abbrev pub Bytes : Type 0
Bytes = List ℕ

abbrev pub newline : ℕ
newline = 10

abbrev pub space : ℕ
space = 32

-- The refusals of ParseSums, CheckAsset and CheckNewer.
pub data SumsError : Type 0 where
  no_final_newline no_version_header bad_version no_assets malformed_line listed_twice : SumsError
  no_entry hash_mismatch : SumsError
  bad_running_version older_version same_version : SumsError

pub data Outcome (A : Type 0) : Type 0 where
  ok : A → Outcome A
  err : SumsError → Outcome A

abbrev pub guard : Bool → SumsError → Outcome (Unit {0})
guard holds e = if holds then ok tt else err e

infixl 5 ◌>>=◌
abbrev pub ◌>>=◌ : {A B : Type 0} (m : Outcome A) → (A → Outcome B) → Outcome B
err e >>= next = err e
ok a >>= next = next a

-- A release version, and its order.
pub record Version : Type 0 where
  pub major : ℕ
  pub minor : ℕ
  pub patch : ℕ

-- One part of versionRe: 0, or digits that do not begin with one.
unfoldable pub version_part : Bytes → Option (ℕ × Bytes)
version_part [] = none
version_part (c ∷ cs) =
    if nat_eqb c b'0'
    then some (0, cs)
    else if is_digit c
    then (let (n, _, rest) = take_digits (c - b'0') 1 cs in some (n, rest))
    else none

unfoldable pub after_dot : Bytes → Option Bytes
after_dot [] = none
after_dot (c ∷ cs) = if nat_eqb c b'.' then some cs else none

abbrev pub then_option {ℓ κ} : {A : Type ℓ} {B : Type κ} → Option A → (A → Option B) → Option B
then_option none f = none
then_option (some a) f = f a

-- parseVersion: versionRe, and each part an int.
unfoldable pub parse_version : Bytes → Option Version
parse_version v = then_option (version_part v) λ (a, r). then_option (after_dot r) λ r.
    then_option (version_part r) λ (b, r). then_option (after_dot r) λ r.
      then_option (version_part r) λ (c, r).
        if codes_eqb r [] && ltb a (2 ^ 63) && ltb b (2 ^ 63) && ltb c (2 ^ 63)
        then some (record { major = a; minor = b; patch = c })
        else none

-- strings.HasSuffix(text, "\n"), and strings.TrimSuffix of it.
unfoldable pub ends_line : Bytes → Bool
ends_line [] = false
ends_line (c ∷ []) = nat_eqb c newline
ends_line (c ∷ d ∷ cs) = ends_line (d ∷ cs)

unfoldable pub drop_last : Bytes → Bytes
drop_last [] = []
drop_last (c ∷ []) = []
drop_last (c ∷ d ∷ cs) = c ∷ drop_last (d ∷ cs)

abbrev pub push : ℕ → List Bytes → List Bytes
push c [] = (c ∷ []) ∷ []
push c (l ∷ ls) = (c ∷ l) ∷ ls

-- strings.Split(text, "\n")
unfoldable pub split_lines : Bytes → List Bytes
split_lines [] = [] ∷ []
split_lines (c ∷ cs) =
    let rest = split_lines cs in if nat_eqb c newline then [] ∷ rest else push c rest

-- What follows a prefix, where the text has it.
unfoldable pub after_prefix : Bytes → Bytes → Option Bytes
after_prefix [] text = some text
after_prefix (p ∷ ps) [] = none
after_prefix (p ∷ ps) (c ∷ cs) = let rest = after_prefix ps cs in if nat_eqb p c then rest else none

abbrev pub version_header : Bytes
version_header = codes "# version: "

unfoldable pub is_lower_hex : ℕ → Bool
unfolding is_digit
is_lower_hex c = is_digit c || leb b'a' c && leb c b'f'

-- The n hex digits a text begins with, and what follows.
unfoldable pub take_hex : ℕ → Bytes → Option (Bytes × Bytes)
take_hex zero cs = some ([], cs)
take_hex (suc n) [] = none
take_hex (suc n) (c ∷ cs) =
    let rest = take_hex n cs in
    if is_lower_hex c then then_option rest (λ (h, r). some (c ∷ h, r)) else none

unfoldable pub is_name_start : ℕ → Bool
unfolding is_digit
is_name_start c = is_digit c || leb b'A' c && leb c b'Z' || leb b'a' c && leb c b'z'

unfoldable pub is_name_byte : ℕ → Bool
is_name_byte c = is_name_start c || nat_eqb c b'.' || nat_eqb c b'_' || nat_eqb c b'-'

unfoldable pub all_name_bytes : Bytes → Bool
all_name_bytes [] = true
all_name_bytes (c ∷ cs) = is_name_byte c && all_name_bytes cs

unfoldable pub is_asset_name : Bytes → Bool
is_asset_name [] = false
is_asset_name (c ∷ cs) = is_name_start c && all_name_bytes cs

abbrev pub two_spaces : Bytes
two_spaces = space ∷ space ∷ []

-- sumLineRe: 64 hex digits, two spaces, a name.
unfoldable pub parse_line : Bytes → Option (Bytes × Bytes)
parse_line line = then_option (take_hex 64 line) λ (hash, after).
    then_option (after_prefix two_spaces after)
      λ name. if is_asset_name name then some (name, hash) else none

-- Sums
pub record Sums : Type 0 where
  pub version : Bytes
  pub files : Table Bytes Bytes

-- The loop over the checksum lines: a name that is already there is refused.
unfoldable pub parse_lines : List Bytes → Table Bytes Bytes → Outcome (Table Bytes Bytes)
parse_lines [] files = ok files
parse_lines (line ∷ lines) files = elim (parse_line line) [
  | none ↦ err malformed_line
  | some (name, hash) ↦ elim (lookup name files) [
    | some _ ↦ err listed_twice
    | none ↦ parse_lines lines (files ++ (name, hash) ∷ [])
  ]
]

unfoldable pub parse_first : Bytes → Outcome Bytes
parse_first line = elim (after_prefix version_header line) [
  | none ↦ err no_version_header
  | some v ↦ elim (parse_version v) [ none ↦ err bad_version | some _ ↦ ok v ]
]

unfoldable pub parse_all : List Bytes → Outcome Sums
parse_all [] = err no_version_header
parse_all (first ∷ []) = do _ ← parse_first first; err no_assets
parse_all (first ∷ line ∷ lines) = do
  v ← parse_first first
  files ← parse_lines (line ∷ lines) []
  ok (record { version = v; files = files })

-- ParseSums
unfoldable pub parse_sums : Bytes → Outcome Sums
parse_sums text =
    if ends_line text then parse_all (split_lines (drop_last text)) else err no_final_newline

-- The lines of FormatSums, each ended by a newline.
unfoldable pub unlines : List Bytes → Bytes
unlines [] = []
unlines (l ∷ ls) = l ++ newline ∷ unlines ls

unfoldable pub bytes_ltb : Bytes → Bytes → Bool
bytes_ltb [] [] = false
bytes_ltb [] (b ∷ bs) = true
bytes_ltb (a ∷ as') [] = false
bytes_ltb (a ∷ as') (b ∷ bs) = ltb a b || nat_eqb a b && bytes_ltb as' bs

unfoldable pub insert_row : Bytes → Bytes → Table Bytes Bytes → Table Bytes Bytes
insert_row n h [] = (n, h) ∷ []
insert_row n h ((m, g) ∷ t) =
    if codes_eqb n m
    then (n, h) ∷ t
    else if bytes_ltb n m
    then (n, h) ∷ (m, g) ∷ t
    else (m, g) ∷ insert_row n h t

-- The map in the order of its names.
unfoldable pub sorted_rows : Table Bytes Bytes → Table Bytes Bytes
sorted_rows [] = []
sorted_rows ((n, h) ∷ t) = insert_row n h (sorted_rows t)

abbrev pub sum_line : Bytes → Bytes → Bytes
sum_line hash name = hash ++ (two_spaces ++ name)

unfoldable pub sum_lines : Table Bytes Bytes → List Bytes
sum_lines [] = []
sum_lines ((n, h) ∷ t) = sum_line h n ∷ sum_lines t

-- FormatSums
unfoldable pub format_sums : Bytes → Table Bytes Bytes → Bytes
format_sums version files = unlines ((version_header ++ version) ∷ sum_lines (sorted_rows files))

-- Sums.CheckAsset; `sha256_hex` is the lowercase hex of crypto/sha256.
unfoldable pub check_asset : (Bytes → Bytes) → Sums → Bytes → Bytes → Outcome (Unit {0})
check_asset sha256_hex s name asset = elim (lookup name s.files) [
  | none ↦ err no_entry
  | some want ↦ guard (codes_eqb (sha256_hex asset) want) hash_mismatch
]

-- The loop of CheckNewer over the three parts.
unfoldable pub newer_parts : List (ℕ × ℕ) → Outcome (Unit {0})
newer_parts [] = err same_version
newer_parts ((have, got) ∷ rest) =
    let later = newer_parts rest in
    if ltb have got then ok tt else if ltb got have then err older_version else later

-- CheckNewer
unfoldable pub check_newer : Bytes → Bytes → Outcome (Unit {0})
unfolding newer_parts
check_newer installed signed = elim (parse_version installed) [
  | none ↦ err bad_running_version
  | some have ↦ elim (parse_version signed) [
    | none ↦ err bad_version
    | some got ↦
        newer_parts
          ((have.major, got.major) ∷ (have.minor, got.minor) ∷ (have.patch, got.patch) ∷ [])
  ]
]
