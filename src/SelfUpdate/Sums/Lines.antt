-- ===== src/SelfUpdate/Sums/Lines.antt =====
-- Lines of a text, split and ended.
use models_db.Prelude.{
  ℕ, ◌+◌, ◌-◌, ◌*◌, ◌≡◌, subst, sym, refl, ap, true, false, ◌&&◌, Option, none, some, List, [], ◌∷◌,
  ◌++◌, arith, nat_eqb, if◌then◌else◌, All, Bool-cases, inl, inr, ltb, ◌^◌,
}
use mathlib.Core.List.{append-nil}
use models_db.Prelude.Text.{codes_eqb, codes_eqb_iff}
use models_db.Shared.Number.{is_digit, take_digits}
use models_db.SelfUpdate.Sums.{
  Bytes, newline, ends_line, drop_last, split_lines, unlines, Version, version_part, after_dot,
  parse_version, then_option, is_lower_hex, is_name_start, is_name_byte,
}

-- A line has no newline in it.
abbrev pub IsLine : Bytes → Type 0
IsLine = All (λ c. nat_eqb c newline ≡ false)

pub IsLine-append : (xs ys : Bytes) → IsLine xs → IsLine ys → IsLine (xs ++ ys)
IsLine-append [] ys hx hy = hy
IsLine-append (x ∷ xs) ys (h, hx) hy = (h, IsLine-append xs ys hx hy)

split_lines-line : (l : Bytes) → IsLine l → split_lines l ≡ l ∷ []
unfolding split_lines
split_lines-line [] h = refl
split_lines-line (c ∷ l) (h, hl) = ground (arith, split_lines-line l hl)

split_lines-append :
    (l rest : Bytes) → IsLine l → split_lines (l ++ newline ∷ rest) ≡ l ∷ split_lines rest
unfolding split_lines
split_lines-append [] rest h = refl
split_lines-append (c ∷ l) rest (h, hl) = ground (arith, split_lines-append l rest hl)

drop_last-append :
    (xs : Bytes) (y : ℕ) (ys : Bytes) → drop_last (xs ++ y ∷ ys) ≡ xs ++ drop_last (y ∷ ys)
unfolding drop_last
drop_last-append [] y ys = refl
drop_last-append (x ∷ []) y ys = refl
drop_last-append (x ∷ z ∷ xs) y ys = ap (◌∷◌ x) (drop_last-append (z ∷ xs) y ys)

ends_line-append : (xs : Bytes) (y : ℕ) (ys : Bytes) → ends_line (xs ++ y ∷ ys) ≡ ends_line (y ∷ ys)
unfolding ends_line
ends_line-append [] y ys = refl
ends_line-append (x ∷ []) y ys = refl
ends_line-append (x ∷ z ∷ xs) y ys = ends_line-append (z ∷ xs) y ys

-- The lines of a text are not empty text.
unlines_cons : (l : Bytes) (ls : List Bytes) → (c : ℕ) × (cs : Bytes) × (unlines (l ∷ ls) ≡ c ∷ cs)
unfolding unlines
unlines_cons [] ls = (newline, unlines ls, refl)
unlines_cons (c ∷ l) ls = (c, l ++ newline ∷ unlines ls, refl)

drop_last-cons :
    (x : ℕ) (us : Bytes) (c : ℕ) (cs : Bytes) → us ≡ c ∷ cs → drop_last (x ∷ us) ≡ x ∷ drop_last us
unfolding drop_last
drop_last-cons x us c cs e = rw e

ends_line-cons :
    (x : ℕ) (us : Bytes) (c : ℕ) (cs : Bytes) → us ≡ c ∷ cs → ends_line (x ∷ us) ≡ ends_line us
unfolding ends_line
ends_line-cons x us c cs e = rw e

unlines_line : (l : Bytes) (ls : List Bytes) → unlines (l ∷ ls) ≡ l ++ newline ∷ unlines ls
unfolding unlines
unlines_line l ls = refl

pub split_lines-unlines :
    (l : Bytes) (ls : List Bytes)
    → IsLine l
    → All IsLine ls
    → split_lines (drop_last (unlines (l ∷ ls))) ≡ l ∷ ls
split_lines-unlines l [] h hs =
    rw unlines_line
      (rw (drop_last-append l) (unfold drop_last unlines in rw append-nil (split_lines-line l h)))
split_lines-unlines l (m ∷ ms) h (hm, hs) =
    let (c, cs, e) = unlines_cons m ms in
    rw (unlines_line l) (
      rw (drop_last-append l) (
        rw (drop_last-cons newline (unlines (m ∷ ms)) c cs e)
          (rw (split_lines-append l _ h) (ap (◌∷◌ l) (split_lines-unlines m ms hm hs)))))

pub ends_line-unlines : (l : Bytes) (ls : List Bytes) → ends_line (unlines (l ∷ ls)) ≡ true
ends_line-unlines l [] =
    rw unlines_line (rw (ends_line-append l) (unfold ends_line unlines in refl))
ends_line-unlines l (m ∷ ms) =
    let (c, cs, e) = unlines_cons m ms in
    rw (unlines_line l) (
      rw (ends_line-append l)
        (rw (ends_line-cons newline (unlines (m ∷ ms)) c cs e) (ends_line-unlines m ms)))

-- Digits, names, hex and versions are within a line.
take_digits-digit :
    (acc n c : ℕ) (cs : Bytes)
    → is_digit c ≡ true
    → take_digits acc n (c ∷ cs) ≡ take_digits (acc * 10 + (c - b'0')) (n + 1) cs
unfolding take_digits
take_digits-digit acc n c cs h = ground arith

take_digits-other :
    (acc n c : ℕ) (cs : Bytes) → is_digit c ≡ false → take_digits acc n (c ∷ cs) ≡ (acc, n, c ∷ cs)
unfolding take_digits
take_digits-other acc n c cs h = ground arith

digit_in_line : (c : ℕ) → is_digit c ≡ true → nat_eqb c newline ≡ false
unfolding is_digit
digit_in_line c h = ground arith

take_digits-IsLine : (acc n : ℕ) (cs : Bytes) → IsLine (take_digits acc n cs).2 → IsLine cs
take_digits-IsLine acc n [] h = tt
take_digits-IsLine acc n (c ∷ cs) h = elim (Bool-cases (is_digit c)) [
  | inl digit ↦ (
    digit_in_line c digit,
    take_digits-IsLine (acc * 10 + (c - b'0')) (n + 1) cs
        (subst (λ r. IsLine r.2) (take_digits-digit acc n c cs digit) h),
  )
  | inr other ↦ subst (λ r. IsLine r.2) (take_digits-other acc n c cs other) h
]

part_rest :
    (c : ℕ) (cs : Bytes) (n : ℕ) (r : Bytes)
    → version_part (c ∷ cs) ≡ some (n, r)
    → nat_eqb c b'0' ≡ false
    → is_digit c ≡ true
    → (take_digits (c - b'0') 1 cs).2 ≡ r
unfolding version_part
part_rest c cs n r h other digit = ground arith

part_wrong :
    (c : ℕ) (cs : Bytes) (n : ℕ) (r : Bytes)
    → version_part (c ∷ cs) ≡ some (n, r)
    → nat_eqb c b'0' ≡ false
    → is_digit c ≡ false
    → ⊥
unfolding version_part
part_wrong c cs n r h other wrong = ground arith

version_part-IsLine :
    (cs : Bytes) (n : ℕ) (r : Bytes) → version_part cs ≡ some (n, r) → IsLine r → IsLine cs
version_part-IsLine [] n r h hr = tt
version_part-IsLine (c ∷ cs) n r h hr = elim (Bool-cases (nat_eqb c b'0')) [
  | inl zero_digit ↦
      let e : cs ≡ r = unfold version_part in ground arith in
      (ground arith, subst IsLine (sym e) hr)
  | inr other ↦ elim (Bool-cases (is_digit c)) [
    | inl digit ↦
        let e : (take_digits (c - b'0') 1 cs).2 ≡ r = part_rest c cs n r h other digit in
        (digit_in_line c digit, take_digits-IsLine (c - b'0') 1 cs (subst IsLine (sym e) hr))
    | inr wrong ↦ absurd (part_wrong c cs n r h other wrong)
  ]
]

after_dot-IsLine : (cs r : Bytes) → after_dot cs ≡ some r → IsLine r → IsLine cs
unfolding after_dot
after_dot-IsLine [] r h hr = tt
after_dot-IsLine (c ∷ cs) r h hr =
    let e : cs ≡ r = ground arith in (ground arith, subst IsLine (sym e) hr)

pub then_option-some {ℓ κ} :
    {A : Type ℓ} {B : Type κ} (o : Option A) (f : A → Option B) {b : B}
    → then_option o f ≡ some b
    → (a : A) × (o ≡ some a) × (f a ≡ some b)
then_option-some none f h = cc
then_option-some (some a) f h = (a, refl, h)

parse_version_end :
    (a b c : ℕ) (r : Bytes) {v : Version}
    → (if codes_eqb r [] && ltb a (2 ^ 63) && ltb b (2 ^ 63) && ltb c (2 ^ 63)
        then some (record { major = a; minor = b; patch = c })
        else none)
      ≡ some v
    → r ≡ []
parse_version_end a b c r h = ground (arith, codes_eqb_iff r [])

pub parse_version-IsLine : (v : Bytes) {x : Version} → parse_version v ≡ some x → IsLine v
unfolding parse_version
parse_version-IsLine v h =
    let ((a, r1), e1, h1) = then_option-some (version_part v) _ h in
    let (r2, e2, h2) = then_option-some (after_dot r1) _ h1 in
    let ((b, r3), e3, h3) = then_option-some (version_part r2) _ h2 in
    let (r4, e4, h4) = then_option-some (after_dot r3) _ h3 in
    let ((c, r5), e5, h5) = then_option-some (version_part r4) _ h4 in
    let e6 = parse_version_end a b c r5 h5 in
    version_part-IsLine v a r1 e1 (
      after_dot-IsLine r1 r2 e2 (
        version_part-IsLine r2 b r3 e3
          (after_dot-IsLine r3 r4 e4 (version_part-IsLine r4 c r5 e5 (subst IsLine (sym e6) tt)))))

pub hex_in_line : (c : ℕ) → is_lower_hex c ≡ true → nat_eqb c newline ≡ false
unfolding is_lower_hex is_digit
hex_in_line c h = ground arith

pub name_in_line : (c : ℕ) → is_name_byte c ≡ true → nat_eqb c newline ≡ false
unfolding is_name_byte is_name_start is_digit
name_in_line c h = ground arith

pub start_in_line : (c : ℕ) → is_name_start c ≡ true → nat_eqb c newline ≡ false
unfolding is_name_start is_digit
start_in_line c h = ground arith
