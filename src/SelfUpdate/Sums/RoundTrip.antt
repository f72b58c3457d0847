-- ===== src/SelfUpdate/Sums/RoundTrip.antt =====
-- internal/selfupdate/sums.go: ParseSums and CheckAsset on what FormatSums wrote.
use mathlib.Core.List.{append-nil, append_assoc}
use models_db.Prelude.{
  ℕ, zero, suc, ◌≡◌, ◌↔◌, refl, ap, sym, subst, ◌∙◌, true, false, none, some, List, [], ◌∷◌, ◌++◌,
  arith, All, Option-cases, inl, inr,
}
use models_db.Prelude.Table.{Table, lookup}
use models_db.Prelude.Text.{codes, codes_eqb, codes_eqb_iff, codes_eq}
use models_db.SelfUpdate.Sums.Order.{
  IsAbove, IsSorted, IsAbove_ne, sorted_rows-IsSorted, sorted_rows-All, sorted_rows-cons,
  lookup-sorted_rows,
}
use models_db.SelfUpdate.Sums.{
  Bytes, Version, Sums, ok, parse_version, unlines, after_prefix, version_header, take_hex,
  is_lower_hex, all_name_bytes, is_asset_name, two_spaces, parse_line, parse_lines, parse_first,
  parse_all, parse_sums, sorted_rows, sum_line, sum_lines, format_sums, check_asset,
}
use models_db.SelfUpdate.Sums.Lines.{
  IsLine, IsLine-append, split_lines-unlines, ends_line-unlines, parse_version-IsLine, hex_in_line,
  name_in_line, start_in_line,
}

-- A hash in hex of n digits.
abbrev pub IsHex : ℕ → Bytes → Type 0
IsHex zero [] = Unit
IsHex zero (c ∷ cs) = ⊥
IsHex (suc n) [] = ⊥
IsHex (suc n) (c ∷ cs) = (is_lower_hex c ≡ true) × IsHex n cs

-- A row that a checksum line can carry: a name of the allowed form, and 64 hex digits.
abbrev pub IsRow : Bytes × Bytes → Type 0
IsRow (name, hash) = (is_asset_name name ≡ true) × IsHex 64 hash

take_hex-append : (n : ℕ) (h r : Bytes) → IsHex n h → take_hex n (h ++ r) ≡ some (h, r)
unfolding take_hex
take_hex-append zero [] r i = refl
take_hex-append zero (c ∷ h) r i = absurd i
take_hex-append (suc n) [] r i = absurd i
take_hex-append (suc n) (c ∷ h) r (x, i) = ground (arith, take_hex-append n h r i)

IsHex-IsLine : (n : ℕ) (h : Bytes) → IsHex n h → IsLine h
IsHex-IsLine n [] i = tt
IsHex-IsLine zero (c ∷ h) i = absurd i
IsHex-IsLine (suc n) (c ∷ h) (x, i) = (hex_in_line c x, IsHex-IsLine n h i)

all_name_bytes-IsLine : (cs : Bytes) → all_name_bytes cs ≡ true → IsLine cs
unfolding all_name_bytes
all_name_bytes-IsLine [] h = tt
all_name_bytes-IsLine (c ∷ cs) h =
    (name_in_line c (ground arith), all_name_bytes-IsLine cs (ground arith))

is_asset_name-IsLine : (cs : Bytes) → is_asset_name cs ≡ true → IsLine cs
unfolding is_asset_name
is_asset_name-IsLine [] h = tt
is_asset_name-IsLine (c ∷ cs) h =
    (start_in_line c (ground arith), all_name_bytes-IsLine cs (ground arith))

after_prefix-append : (p text : Bytes) → after_prefix p (p ++ text) ≡ some text
unfolding after_prefix
after_prefix-append [] text = refl
after_prefix-append (c ∷ p) text = ground (arith, after_prefix-append p text)

parse_line-sum_line :
    (name hash : Bytes) → IsRow (name, hash) → parse_line (sum_line hash name) ≡ some (name, hash)
unfolding parse_line
parse_line-sum_line name hash (n, h) =
    rw (take_hex-append 64 hash (two_spaces ++ name) h)
      (rw (after_prefix-append two_spaces name) (rw n))

sum_line-IsLine : (name hash : Bytes) → IsRow (name, hash) → IsLine (sum_line hash name)
sum_line-IsLine name hash (n, h) =
    IsLine-append hash (two_spaces ++ name) (IsHex-IsLine 64 hash h)
      (refl, (refl, is_asset_name-IsLine name n))

sum_lines-IsLine : (rows : Table Bytes Bytes) → All IsRow rows → All IsLine (sum_lines rows)
unfolding sum_lines
sum_lines-IsLine [] a = tt
sum_lines-IsLine ((n, h) ∷ rows) (r, a) = (sum_line-IsLine n h r, sum_lines-IsLine rows a)

lookup-append_row :
    (m n h : Bytes) (acc : Table Bytes Bytes)
    → codes_eqb n m ≡ false
    → lookup m acc ≡ none
    → lookup m (acc ++ (n, h) ∷ []) ≡ none
unfolding lookup
lookup-append_row m n h [] e l = ground arith
lookup-append_row m n h ((k, v) ∷ acc) e l = ground (arith, lookup-append_row m n h acc)

-- The rows that are not yet in a table stay out of it when a smaller row is added.
absent_append :
    (n h : Bytes) (acc rows : Table Bytes Bytes)
    → IsAbove n rows
    → All (λ r. lookup r.0 acc ≡ none) rows
    → All (λ r. lookup r.0 (acc ++ (n, h) ∷ []) ≡ none) rows
absent_append n h acc [] a l = tt
absent_append n h acc ((m, g) ∷ rows) (x, a) (y, l) =
    (lookup-append_row m n h acc (IsAbove_ne n m x) y, absent_append n h acc rows a l)

parse_lines_next :
    (line name hash : Bytes) (lines : List Bytes) (files : Table Bytes Bytes)
    → parse_line line ≡ some (name, hash)
    → lookup name files ≡ none
    → parse_lines (line ∷ lines) files ≡ parse_lines lines (files ++ (name, hash) ∷ [])
unfolding parse_lines
parse_lines_next line name hash lines files e l = ground arith

parse_lines-sum_lines :
    (rows acc : Table Bytes Bytes)
    → IsSorted rows
    → All IsRow rows
    → All (λ r. lookup r.0 acc ≡ none) rows
    → parse_lines (sum_lines rows) acc ≡ ok (acc ++ rows)
unfolding parse_lines sum_lines
parse_lines-sum_lines [] acc s r l = ap ok (sym (append-nil acc))
parse_lines-sum_lines ((n, h) ∷ rows) acc (a, s) (r, rs) (y, l) =
    let rest =
      parse_lines-sum_lines rows (acc ++ (n, h) ∷ []) s rs (absent_append n h acc rows a l) in
    parse_lines_next _ n h _ acc (parse_line-sum_line n h r) y
    ∙ rest
    ∙ ap ok (append_assoc acc ((n, h) ∷ []) rows)

parse_first_ok :
    (line v : Bytes) {x : Version}
    → after_prefix version_header line ≡ some v
    → parse_version v ≡ some x
    → parse_first line ≡ ok v
unfolding parse_first after_prefix codes
parse_first_ok line v p e = rw p (rw e refl)

header-IsLine : IsLine version_header
unfolding codes
header-IsLine =
    (refl, (refl, (refl, (refl, (refl, (refl, (refl, (refl, (refl, (refl, (refl, tt)))))))))))

parse_first-header :
    (v : Bytes) {x : Version} → parse_version v ≡ some x → parse_first (version_header ++ v) ≡ ok v
parse_first-header v e = parse_first_ok _ v (after_prefix-append version_header v) e

absent_rows : (rows : Table Bytes Bytes) → All (λ r. lookup {V = Bytes} r.0 [] ≡ none) rows
unfolding lookup
absent_rows [] = tt
absent_rows (r ∷ rows) = (refl, absent_rows rows)

parse_all_ok :
    (v first line : Bytes) (lines : List Bytes) (files : Table Bytes Bytes)
    → parse_first first ≡ ok v
    → parse_lines (line ∷ lines) [] ≡ ok files
    → parse_all (first ∷ line ∷ lines) ≡ ok (record { version = v; files = files })
unfolding parse_all
parse_all_ok v first line lines files e f = rw e (rw f refl)

parse_all-rows :
    (v : Bytes) {x : Version} (rows rest : Table Bytes Bytes) (r : Bytes × Bytes)
    → parse_version v ≡ some x
    → rows ≡ r ∷ rest
    → IsSorted rows
    → All IsRow rows
    → parse_all ((version_header ++ v) ∷ sum_lines rows) ≡ ok (record { version = v; files = rows })
parse_all-rows v rows rest (n, h) e c s a =
    let parsed = parse_lines-sum_lines rows [] s a (absent_rows rows) in
    let lines : sum_lines rows ≡ sum_line h n ∷ sum_lines rest = rw c (unfold sum_lines in refl) in
    rw lines (
      parse_all_ok v _ _ _ rows (parse_first-header v e)
        (subst (λ ls. parse_lines ls [] ≡ ok rows) lines parsed))

parse_sums-unlines :
    (l : Bytes) (ls : List Bytes)
    → IsLine l
    → All IsLine ls
    → parse_sums (unlines (l ∷ ls)) ≡ parse_all (l ∷ ls)
unfolding parse_sums
parse_sums-unlines l ls h hs = rw (ends_line-unlines l ls) (rw (split_lines-unlines l ls h hs) refl)

-- What FormatSums writes for a release version and a map that is not empty, of asset names to SHA-256
-- hashes in hex, ParseSums reads back: the same version, and a map that finds the same hash, or none,
-- under every name.
pub parse_sums-format_sums :
    (v : Bytes) (n h : Bytes) (t : Table Bytes Bytes) {x : Version}
    → parse_version v ≡ some x
    → All IsRow ((n, h) ∷ t)
    → (s : Sums) × (parse_sums (format_sums v ((n, h) ∷ t)) ≡ ok s)
      × (s.version ≡ v)
      × ((m : Bytes) → lookup m s.files ≡ lookup m ((n, h) ∷ t))
unfolding format_sums
parse_sums-format_sums v n h t e a =
    let files = (n, h) ∷ t in
    let (r, rest, c) = sorted_rows-cons n h t in
    let rows = sorted_rows-All IsRow files a in
    let header = IsLine-append version_header v header-IsLine (parse_version-IsLine v e) in
    (
      record { version = v; files = sorted_rows files },
      parse_sums-unlines _ (sum_lines (sorted_rows files)) header (sum_lines-IsLine _ rows)
          ∙ parse_all-rows v (sorted_rows files) rest r e c (sorted_rows-IsSorted files) rows,
      refl,
      λ m. lookup-sorted_rows m files,
    )

-- A release accepts an asset exactly when its list, written by FormatSums and read by ParseSums, was
-- given that name with the hash of those bytes.
pub check_asset-format_sums :
    (sha256_hex : Bytes → Bytes) (v n h : Bytes) (t : Table Bytes Bytes) {x : Version} {s : Sums}
    (name asset : Bytes)
    → parse_version v ≡ some x
    → All IsRow ((n, h) ∷ t)
    → parse_sums (format_sums v ((n, h) ∷ t)) ≡ ok s
    → (check_asset sha256_hex s name asset ≡ ok tt)
      ↔ (lookup name ((n, h) ∷ t) ≡ some (sha256_hex asset))
unfolding check_asset
check_asset-format_sums sha256_hex v n h t {s = s} name asset e a p =
    let (s', p', _, same) = parse_sums-format_sums v n h t e a in
    let found = same name in
    elim (Option-cases (lookup name s.files)) [
      | inl missing ↦ (λ k. absurd (ground arith), λ k. absurd (ground arith))
      | inr (want, have) ↦ (
        λ k. ground (arith, codes_eqb_iff (sha256_hex asset) want),
        λ k. ground (arith, codes_eqb_iff (sha256_hex asset) want),
      )
    ]
