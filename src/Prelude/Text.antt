-- ===== src/Prelude/Text.antt =====
-- Text as Go reads it: `strings.TrimSpace`, `strings.ToLower` on ASCII, byte order and character tests.
use Prim.Native.Nat.{ℕ, ◌+◌, Ordering}
use Prim.Native.Char.{Char, code}
use Prim.Native.String.{String, compare}
use mathlib.Core.Path.{◌≡◌, refl}
use mathlib.Core.Bool.{Bool, true, false, ◌&&◌, ◌||◌}
use mathlib.Core.List.{List, [], ◌∷◌}
use native.Mathlib.Omega.{arith}
use text.Mathlib.Text.{◌==◌ as str_eq}
use mathlib.Core.Logic.{◌↔◌}
use models_db.Prelude.Equality.{Eq}
use models_db.Prelude.Tests.{leb, nat_eqb, if◌then◌else◌}

-- `unicode.IsSpace`.
unfoldable pub is_space : Char → Bool
is_space ch =
    let c = code ch in
    leb 9 c && leb c 13
    || nat_eqb c 32
    || nat_eqb c 0x85
    || nat_eqb c 0xa0
    || nat_eqb c 0x1680
    || leb 0x2000 c && leb c 0x200a
    || nat_eqb c 0x2028
    || nat_eqb c 0x2029
    || nat_eqb c 0x202f
    || nat_eqb c 0x205f
    || nat_eqb c 0x3000

unfoldable pub trim_left : String → String
unfolding is_space
trim_left String.[] = String.[]
trim_left (String.◌∷◌ c s) = let rest = trim_left s in if is_space c then rest else String.◌∷◌ c s

unfoldable pub trim_right : String → String
unfolding is_space
trim_right String.[] = String.[]
trim_right (String.◌∷◌ c s) =
    let rest = trim_right s in if is_space c && str_eq rest "" then String.[] else String.◌∷◌ c rest

-- `strings.TrimSpace`.
unfoldable pub trim_space : String → String
unfolding trim_left trim_right
trim_space s = trim_right (trim_left s)

-- The byte order of UTF-8, which is the order of the code points.
unfoldable pub str_ltb : String → String → Bool
str_ltb a b = elim (compare a b) [ Ordering.lt ↦ true | _ ↦ false ]

unfoldable pub codes : String → List ℕ
codes String.[] = []
codes (String.◌∷◌ c s) = code c ∷ codes s

-- `strings.ToLower` of the ASCII letters, which is all of it in a comparison with an ASCII word that has
-- neither an i nor a k.
unfoldable pub lower_codes : List ℕ → List ℕ
lower_codes [] = []
lower_codes (c ∷ cs) = (if leb b'A' c && leb c b'Z' then c + 32 else c) ∷ lower_codes cs

unfoldable pub codes_eqb : List ℕ → List ℕ → Bool
codes_eqb [] [] = true
codes_eqb (a ∷ as') (b ∷ bs) = nat_eqb a b && codes_eqb as' bs
codes_eqb _ _ = false

pub codes_eqb_iff : (a b : List ℕ) → (codes_eqb a b ≡ true) ↔ (a ≡ b)
unfolding codes_eqb
codes_eqb_iff [] [] = ground arith
codes_eqb_iff [] (b ∷ bs) = ground arith
codes_eqb_iff (a ∷ as') [] = ground arith
codes_eqb_iff (a ∷ as') (b ∷ bs) = ground (arith, codes_eqb_iff as' bs)

instance abbrev pub codes_eq : Eq (List ℕ)
codes_eq = record { equal = codes_eqb; equal_iff = codes_eqb_iff }

test_trim : trim_space " \ta b \n" ≡ "a b"
unfolding trim_space
test_trim = refl

test_ltb : str_ltb "ab" "b" ≡ true
unfolding str_ltb
test_ltb = refl
