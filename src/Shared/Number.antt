-- ===== src/Shared/Number.antt =====
-- internal/shared/number.go and rounding.go: what text a number cell may hold, and two decimals.
use models_db.Prelude.{
  ℕ, ◌+◌, ◌-◌, ◌*◌, ◌^◌, String, ◌≡◌, refl, Bool, true, false, ◌&&◌, ◌||◌, Option, none, some, List,
  [], ◌∷◌, leb, ltb, nat_eqb, if◌then◌else◌, str_eq,
}
use models_db.Prelude.Text.{codes, trim_space}

-- The decimal that a text states: (-1)^negative * digits * 10^(±exponent) / 10^fraction. The
-- program keeps its nearest float64.
pub record Decimal : Type 0 where
  pub negative : Bool
  pub digits : ℕ
  pub fraction : ℕ
  pub exponent_negative : Bool
  pub exponent : ℕ

abbrev pub whole : ℕ → Decimal
whole n = record {
  negative = false;
  digits = n;
  fraction = 0;
  exponent_negative = false;
  exponent = 0;
}

unfoldable pub is_digit : ℕ → Bool
is_digit c = leb b'0' c && leb c b'9'

-- A run of digits: their value after `acc`, how many they are, and what follows.
unfoldable pub take_digits : ℕ → ℕ → List ℕ → ℕ × ℕ × List ℕ
unfolding is_digit
take_digits acc n [] = (acc, n, [])
take_digits acc n (c ∷ cs) = elim (is_digit c) [
  | true ↦ take_digits (acc * 10 + (c - b'0')) (n + 1) cs
  | false ↦ (acc, n, c ∷ cs)
]

-- An optional sign, and what follows.
unfoldable pub take_sign : List ℕ → Bool × List ℕ
take_sign [] = (false, [])
take_sign (c ∷ cs) =
    if nat_eqb c b'-' then (true, cs) else if nat_eqb c b'+' then (false, cs) else (false, c ∷ cs)

-- A point and its digits, which may be none after whole digits.
unfoldable pub take_fraction : ℕ → ℕ → List ℕ → Option (ℕ × ℕ × List ℕ)
unfolding take_digits
take_fraction acc n [] = if nat_eqb n 0 then none else some (acc, 0, [])
take_fraction acc n (c ∷ cs) =
    if nat_eqb c b'.'
    then (let (acc', m, rest) = take_digits acc 0 cs in
        if nat_eqb n 0 && nat_eqb m 0 then none else some (acc', m, rest))
    else if nat_eqb n 0
    then none
    else some (acc, 0, c ∷ cs)

unfoldable pub take_exponent : List ℕ → Option (Bool × ℕ)
unfolding take_sign take_digits
take_exponent [] = some (false, 0)
take_exponent (c ∷ cs) =
    if nat_eqb c b'e' || nat_eqb c b'E'
    then (let (negative, after) = take_sign cs in
        let (e, n, rest) = take_digits 0 0 after in
        elim rest [ [] ↦ if nat_eqb n 0 then none else some (negative, e) | _ ↦ none ])
    else none

-- `decimalNumberRe`, with what it matches read off.
unfoldable pub read_decimal : List ℕ → Option Decimal
unfolding take_sign take_digits take_fraction take_exponent
read_decimal text =
    let (negative, unsigned) = take_sign text in
    let (ip, n, after) = take_digits 0 0 unsigned in
    elim (take_fraction ip n after) [
      | none ↦ none
      | some (digits, fraction, tail) ↦ elim (take_exponent tail) [
        | none ↦ none
        | some (exponent_negative, exponent) ↦ some (record {
          negative = negative;
          digits = digits;
          fraction = fraction;
          exponent_negative = exponent_negative;
          exponent = exponent;
        })
      ]
    ]

-- Whether the nearest float64 is finite: `strconv.ParseFloat` fails from 2^1024 - 2^970 on, where
-- rounding to the nearest reaches 2^1024.
unfoldable pub is_finite : Decimal → Bool
is_finite d =
    let limit : ℕ = 2 ^ 1024 - 2 ^ 970 in
    if d.exponent_negative
    then ltb d.digits (limit * 10 ^ (d.fraction + d.exponent))
    else ltb (d.digits * 10 ^ d.exponent) (limit * 10 ^ d.fraction)

-- ParseNumber, of the code points of a text.
unfoldable pub parse_codes : List ℕ → Option Decimal
unfolding read_decimal is_finite
parse_codes text = elim (read_decimal text) [
  | none ↦ none
  | some d ↦ if is_finite d then some d else none
]

-- ParseNumber
unfoldable pub parse_number : String → Option Decimal
unfolding parse_codes codes
parse_number text = parse_codes (codes text)

-- The float64 operations that `TwoDecimals` is written with, which the model does not define.
pub record Floats : Type 1 where
  pub Float : Type 0
  -- the float64 nearest to a decimal
  pub nearest : Decimal → Float
  pub hundred : Float
  pub times : Float → Float → Float
  pub over : Float → Float → Float
  -- math.Round
  pub round : Float → Float
  pub is_zero : Float → Bool
  pub zero : Float
  -- strconv.FormatFloat with 'f', -1, 64
  pub format : Float → String

-- TwoDecimals
unfoldable pub two_decimals : Floats → String → String
unfolding parse_number trim_space
two_decimals fl value =
    let trimmed = trim_space value in
    if str_eq trimmed "" then value else elim (parse_number trimmed) [
      | none ↦ value
      | some d ↦
          let rounded = fl.over (fl.round (fl.times (fl.nearest d) fl.hundred)) fl.hundred in
          fl.format (if fl.is_zero rounded then fl.zero else rounded)
    ]

accepted : (Option Decimal) → Bool
accepted none = false
accepted (some d) = true

test_number_forms :
    (accepted (parse_number "-12.5e3") ≡ true)
    × (accepted (parse_number ".5") ≡ true)
    × (accepted (parse_number "5.") ≡ true)
    × (accepted (parse_number "1e308") ≡ true)
    × (accepted (parse_number "1e309") ≡ false)
    × (accepted (parse_number ".") ≡ false)
    × (accepted (parse_number "") ≡ false)
    × (accepted (parse_number "NaN") ≡ false)
    × (accepted (parse_number "0x10") ≡ false)
    × (accepted (parse_number "1e") ≡ false)
    × (accepted (parse_number "1 ") ≡ false)
unfolding accepted parse_number
test_number_forms = (refl, refl, refl, refl, refl, refl, refl, refl, refl, refl, refl)
