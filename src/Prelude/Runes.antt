-- ===== src/Prelude/Runes.antt =====
-- Text as a list of code points, with what Go's `strings` and `unicode` do on it: trimming, prefixes
-- and suffixes, substrings, splitting, capitals.
use models_db.Prelude.Tests.{leb, nat_eqb, if◌then◌else◌}
use models_db.Prelude.Text.{codes_eqb}
use Prim.Native.Nat.{ℕ, ◌+◌, ◌-◌}
use mathlib.Core.Bool.{Bool, true, false, ◌&&◌, ◌||◌}
use mathlib.Core.Option.{Option, none, some}
use mathlib.Core.List.{List, [], ◌∷◌, map}

abbrev pub Runes : Type 0
Runes = List ℕ

-- `unicode.IsSpace`.
unfoldable pub is_space_rune : ℕ → Bool
is_space_rune c =
    leb 9 c && leb c 13
    || nat_eqb c 32
    || nat_eqb c 0x85
    || nat_eqb c 0xa0
    || nat_eqb c 0x1680
    || leb 0x2000 c && leb c 0x200a
    || nat_eqb c 0x2028
    || nat_eqb c 0x2029
    || nat_eqb c 0x202f
    || nat_eqb c 0x205f
    || nat_eqb c 0x3000

unfoldable pub trim_front : Runes → Runes
unfolding is_space_rune
trim_front [] = []
trim_front (c ∷ s) = let rest = trim_front s in if is_space_rune c then rest else c ∷ s

unfoldable pub trim_back : Runes → Runes
unfolding is_space_rune
trim_back [] = []
trim_back (c ∷ s) = elim (trim_back s) [
  | [] ↦ if is_space_rune c then [] else c ∷ []
  | (d ∷ t) ↦ c ∷ d ∷ t
]

-- `strings.TrimSpace`.
unfoldable pub trim : Runes → Runes
unfolding trim_front trim_back
trim s = trim_back (trim_front s)

-- What follows a prefix: `strings.HasPrefix` with `strings.TrimPrefix`.
unfoldable pub strip : Runes → Runes → Option Runes
strip [] s = some s
strip (p ∷ ps) [] = none
strip (p ∷ ps) (c ∷ s) = let rest = strip ps s in if nat_eqb p c then rest else none

unfoldable pub has_prefix : Runes → Runes → Bool
has_prefix [] s = true
has_prefix (p ∷ ps) [] = false
has_prefix (p ∷ ps) (c ∷ s) = nat_eqb p c && has_prefix ps s

-- `strings.HasSuffix`: the text, or what follows its first code point, ends so.
unfoldable pub has_suffix : Runes → Runes → Bool
has_suffix suffix [] = codes_eqb suffix []
has_suffix suffix (c ∷ s) = codes_eqb suffix (c ∷ s) || has_suffix suffix s

-- `strings.Contains`.
unfoldable pub has_part : Runes → Runes → Bool
unfolding has_prefix
has_part part [] = has_prefix part []
has_part part (c ∷ s) = has_prefix part (c ∷ s) || has_part part s

-- `strings.Split` by one separator.
unfoldable pub split_by : ℕ → Runes → List Runes
split_by sep [] = [] ∷ []
split_by sep (c ∷ s) = elim (split_by sep s) [
  | [] ↦ []
  | (line ∷ lines) ↦ if nat_eqb c sep then [] ∷ line ∷ lines else (c ∷ line) ∷ lines
]

-- The byte order of UTF-8, which is the order of the code points: whether the first is at most the
-- second.
unfoldable pub runes_leb : Runes → Runes → Bool
runes_leb [] t = true
runes_leb (c ∷ s) [] = false
runes_leb (c ∷ s) (d ∷ t) = let rest = runes_leb s t in if nat_eqb c d then rest else leb c d

-- The tables of package unicode beyond ASCII: the lower case of a code point, the smallest one that
-- folds to it, and the classes of letters and digits.
pub record Unicode : Type 0 where
  pub lower_beyond : ℕ → ℕ
  pub fold_beyond : ℕ → ℕ
  pub letter_beyond : ℕ → Bool
  pub digit_beyond : ℕ → Bool

module _ (u : Unicode) where
  unfoldable pub lower_rune : ℕ → ℕ
  lower_rune c =
      if leb c 127 then (if leb b'A' c && leb c b'Z' then c + 32 else c) else u.lower_beyond c

  -- `strings.ToLower`.
  unfoldable pub lower : Runes → Runes
  unfolding lower_rune
  lower = map lower_rune

  unfoldable pub fold_rune : ℕ → ℕ
  fold_rune c =
      if leb c 127 then (if leb b'a' c && leb c b'z' then c - 32 else c) else u.fold_beyond c

  -- `strings.EqualFold`.
  unfoldable pub equal_fold : Runes → Runes → Bool
  unfolding fold_rune
  equal_fold a b = codes_eqb (map fold_rune a) (map fold_rune b)

  -- `unicode.IsLetter` and `unicode.IsDigit`.
  unfoldable pub is_letter : ℕ → Bool
  is_letter c =
      if leb c 127 then leb b'A' c && leb c b'Z' || leb b'a' c && leb c b'z' else u.letter_beyond c

  unfoldable pub is_decimal_digit : ℕ → Bool
  is_decimal_digit c = if leb c 127 then leb b'0' c && leb c b'9' else u.digit_beyond c
