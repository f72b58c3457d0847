-- ===== src/SelfUpdate/Tests.antt =====
-- Runs of internal/selfupdate/sums.go at concrete inputs.
use models_db.Prelude.{ℕ, zero, suc, ◌≡◌, ◌≢◌, ◌↔◌, refl, some, [], ◌∷◌, All}
use models_db.Prelude.Table.{Table, lookup}
use models_db.Prelude.Text.{codes, codes_eqb, codes_eq}
use models_db.Shared.Number.{is_digit, take_digits}
use models_db.SelfUpdate.Sums.{
  Bytes, Version, Sums, ok, version_part, after_dot, newer_parts, is_name_start, is_name_byte,
  all_name_bytes, is_asset_name, is_lower_hex, take_hex, after_prefix, parse_line, parse_lines,
  parse_first, parse_all, ends_line, drop_last, split_lines, unlines, bytes_ltb, insert_row,
  sorted_rows, sum_lines, parse_version, parse_sums, format_sums, check_asset, check_newer,
}
use models_db.SelfUpdate.Sums.RoundTrip.{
  IsHex, IsRow, parse_sums-format_sums, check_asset-format_sums,
}
use models_db.SelfUpdate.Sums.Versions.{
  IsBefore, first, next, check_newer_iff, Upgrades-never_return,
}

program : Unit {0}
unfolding codes codes_eqb lookup is_digit take_digits parse_version version_part after_dot
    check_newer newer_parts is_name_start is_name_byte all_name_bytes is_asset_name is_lower_hex
    take_hex after_prefix parse_line parse_lines parse_first parse_all ends_line drop_last
    split_lines parse_sums unlines bytes_ltb insert_row sorted_rows sum_lines format_sums
    check_asset
program = tt

abbrev v1_2_0 : Bytes
v1_2_0 = codes "1.2.0"

abbrev v1_10_0 : Bytes
v1_10_0 = codes "1.10.0"

abbrev v2_0_0 : Bytes
v2_0_0 = codes "2.0.0"

test_newer : check_newer v1_2_0 v1_10_0 ≡ ok tt
unfolding program
test_newer = refl

test_newest : check_newer v1_10_0 v2_0_0 ≡ ok tt
unfolding program
test_newest = refl

check_newer_iff_example : (check_newer v1_2_0 v1_10_0 ≡ ok tt) ↔ (
    (a : Version) × (b : Version) × (parse_version v1_2_0 ≡ some a)
    × (parse_version v1_10_0 ≡ some b)
    × IsBefore a b)
check_newer_iff_example = check_newer_iff v1_2_0 v1_10_0

Upgrades-never_return_example :
    (check_newer v2_0_0 v1_2_0 ≢ ok tt) × (check_newer v2_0_0 v2_0_0 ≢ ok tt) × (v1_2_0 ≢ v2_0_0)
Upgrades-never_return_example = Upgrades-never_return (next (first test_newer) test_newest)

-- A hash of n digits, all of them `a`.
abbrev digest : ℕ → Bytes
digest zero = []
digest (suc n) = b'a' ∷ digest n

digest-IsHex : (n : ℕ) → IsHex n (digest n)
digest-IsHex zero = tt
digest-IsHex (suc n) = (unfold is_lower_hex in refl, digest-IsHex n)

abbrev installer : Bytes
installer = codes "ModelsDB.exe"

abbrev archive : Bytes
archive = codes "modelsdb-linux.tar.gz"

abbrev assets : Table Bytes Bytes
assets = (archive, digest 64) ∷ (installer, digest 64) ∷ []

assets-AllRows : All IsRow assets
unfolding program
assets-AllRows = ((refl, digest-IsHex 64), ((refl, digest-IsHex 64), tt))

test_version : parse_version v1_10_0 ≡ some (record { major = 1; minor = 10; patch = 0 })
unfolding program
test_version = refl

parse_sums-format_sums_example :
    (s : Sums) × (parse_sums (format_sums v1_10_0 assets) ≡ ok s)
    × (s.version ≡ v1_10_0)
    × ((m : Bytes) → lookup m s.files ≡ lookup m assets)
parse_sums-format_sums_example =
    parse_sums-format_sums v1_10_0 archive (digest 64) ((installer, digest 64) ∷ []) test_version
      assets-AllRows

abbrev listed : Sums
listed = record { version = v1_10_0; files = (installer, digest 64) ∷ (archive, digest 64) ∷ [] }

test_round_trip : parse_sums (format_sums v1_10_0 assets) ≡ ok listed
unfolding program
test_round_trip = refl

check_asset-format_sums_example :
    (check_asset (λ _. digest 64) listed installer [] ≡ ok tt)
    ↔ (lookup installer assets ≡ some (digest 64))
check_asset-format_sums_example =
    check_asset-format_sums (λ _. digest 64) v1_10_0 archive (digest 64)
      ((installer, digest 64) ∷ []) installer [] test_version assets-AllRows test_round_trip
