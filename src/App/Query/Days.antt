-- ===== src/App/Query/Days.antt =====
-- Days as texts and days as numbers.
use models_db.Prelude.{
  ℕ, ◌+◌, ◌-◌, ◌*◌, ◌≤◌, ◌<◌, ◌≡◌, ◌↔◌, refl, subst, ◌||◌, Bool, true, false, Option, none, some,
  [], ◌∷◌, arith, Bool-cases, inl, inr, if◌then◌else◌, leb, nat_eqb,
}
use mathlib.Core.Option.{some-injective, none-ne-some}
use models_db.Prelude.Runes.{Runes, runes_leb}
use models_db.Shared.Number.{is_digit}
use models_db.Store.Schema.{Column}
use models_db.App.Query.{
  Host, Row, cell_of, parses_as_day, date_layout, has_layout, digits_of, day_of, take_front,
}
use models_db.App.Query.Read.{from_day, to_day}
use models_db.App.Query.Match.{ask_matches, day_passes}

-- Two texts with digits at the same places, and the same characters elsewhere.
data SameShape : Runes → Runes → Type 0 where
  empty : SameShape [] []
  digits :
      {c d : ℕ} {s t : Runes}
      → is_digit c ≡ true
      → is_digit d ≡ true
      → SameShape s t
      → SameShape (c ∷ s) (d ∷ t)
  mark : {c : ℕ} {s t : Runes} → is_digit c ≡ false → SameShape s t → SameShape (c ∷ s) (c ∷ t)

digits_of-less : {s t : Runes} {m n : ℕ} → SameShape s t → m < n → digits_of s m < digits_of t n
unfolding digits_of is_digit
digits_of-less empty h = h
digits_of-less (digits hc hd k) h = rw (hc, hd) (digits_of-less k (ground (arith, hc, hd)))
digits_of-less (mark hc k) h = rw hc (digits_of-less k h)

SameShape-symmetric : {s t : Runes} → SameShape s t → SameShape t s
SameShape-symmetric empty = empty
SameShape-symmetric (digits hc hd k) = digits hd hc (SameShape-symmetric k)
SameShape-symmetric (mark hc k) = mark hc (SameShape-symmetric k)

runes_leb-digits_of :
    {s t : Runes} (n : ℕ) → SameShape s t → (runes_leb s t ≡ true) ↔ (digits_of s n ≤ digits_of t n)
unfolding runes_leb digits_of
runes_leb-digits_of n empty = (λ h. omega arith, λ h. refl)
runes_leb-digits_of n (digits {c = c} {d = d} {s = s} {t = t} hc hd k) =
    elim (Bool-cases (nat_eqb c d)) [
      | inl e ↦ ground (arith, hc, hd, runes_leb-digits_of (n * 10 + (c - 48)) k)
      | inr e ↦ elim (Bool-cases (leb c d)) [
        | inl f ↦
            let less : digits_of s (n * 10 + (c - 48)) < digits_of t (n * 10 + (d - 48)) =
              digits_of-less k (ground (arith, hc, hd)) in
            (λ h. rw (hc, hd) (omega (arith, less)), λ h. ground (arith, e, f))
        | inr f ↦
            let more : digits_of t (n * 10 + (d - 48)) < digits_of s (n * 10 + (c - 48)) =
              digits_of-less (SameShape-symmetric k) (ground (arith, hc, hd)) in
            (λ h. ground (arith, e, f), λ h. absurd (omega (arith, more, rw (hc, hd) at h)))
      ]
    ]
runes_leb-digits_of n (mark {c = c} hc k) = ground (arith, hc, runes_leb-digits_of n k)

layouts-SameShape :
    (layout s t : Runes) → has_layout layout s ≡ true → has_layout layout t ≡ true → SameShape s t
unfolding has_layout
layouts-SameShape [] [] [] hs ht = empty
layouts-SameShape [] [] (d ∷ t) hs ht = cc
layouts-SameShape [] (c ∷ s) t hs ht = cc
layouts-SameShape (l ∷ layout) [] t hs ht = cc
layouts-SameShape (l ∷ layout) (c ∷ s) [] hs ht = cc
layouts-SameShape (l ∷ layout) (c ∷ s) (d ∷ t) hs ht = elim (Bool-cases (is_digit l)) [
  | inl e ↦
      digits (ground (arith, e)) (ground (arith, e))
        (layouts-SameShape layout s t (ground (arith, e)) (ground (arith, e)))
  | inr e ↦
      let cl : c ≡ l = ground (arith, e) in
      let dl : d ≡ l = ground (arith, e) in
      rw (cl, dl) (mark e (layouts-SameShape layout s t (ground (arith, e)) (ground (arith, e))))
]

-- The order of two days as texts is their order in the calendar.
days_in_order :
    (a b : Runes)
    → parses_as_day a ≡ true
    → parses_as_day b ≡ true
    → (runes_leb a b ≡ true) ↔ (digits_of a 0 ≤ digits_of b 0)
unfolding parses_as_day
days_in_order a b ha hb =
    runes_leb-digits_of 0 (layouts-SameShape date_layout a b (ground arith) (ground arith))

if_parses :
    (text day : Runes)
    → (if parses_as_day text then some text else none) ≡ some day
    → parses_as_day day ≡ true
if_parses text day e = elim (Bool-cases (parses_as_day text)) [
  | inl p ↦ subst (λ d. parses_as_day d ≡ true) (some-injective _ _ (rw p at e)) p
  | inr p ↦ absurd (none-ne-some _ (rw p at e))
]

day_of-parses : (value day : Runes) → day_of value ≡ some day → parses_as_day day ≡ true
unfolding day_of
day_of-parses value day e = by_front (take_front 10 value) e
  where
    by_front :
        (front : Option (Runes × Runes))
        → (elim front as (λ _. Option Runes) [
          | none ↦ none
          | some p ↦
              let day = if parses_as_day p.0 then some p.0 else none in
              elim p.1 [
                | [] ↦ day
                | (c ∷ t) ↦ if nat_eqb c b'T' || nat_eqb c b' ' then day else none
              ]
        ])
          ≡ some day
        → parses_as_day day ≡ true
    by_front none q = absurd (none-ne-some _ q)
    by_front (some (text, [])) q = if_parses text day q
    by_front (some (text, c ∷ t)) q = elim (Bool-cases (nat_eqb c b'T' || nat_eqb c b' ')) [
      | inl m ↦ if_parses text day (rw m at q)
      | inr m ↦ absurd (none-ne-some _ (rw m at q))
    ]

-- from: and to: with a day keep exactly the models whose cell begins with a day, and whose number
-- YYYYMMDD is at least, or at most, that of the day asked for.
pub day_filters_iff :
    (h : Host) (column : Column) (row : Row) (want : Runes)
    → parses_as_day want ≡ true
    → ((ask_matches h column (from_day want) row ≡ true) ↔ (
        (day : Runes) × (day_of (cell_of column row) ≡ some day)
        × (digits_of want 0 ≤ digits_of day 0)))
      × ((ask_matches h column (to_day want) row ≡ true) ↔ (
          (day : Runes) × (day_of (cell_of column row) ≡ some day)
          × (digits_of day 0 ≤ digits_of want 0)))
unfolding ask_matches day_passes
day_filters_iff h column row want valid =
    by_day (day_of (cell_of column row)) (day_of-parses (cell_of column row))
  where
    by_day :
        (found : Option Runes)
        → ((day : Runes) → found ≡ some day → parses_as_day day ≡ true)
        → ((elim found as (λ _. Bool) [ none ↦ false | some day ↦ runes_leb want day ] ≡ true)
            ↔ ((day : Runes) × (found ≡ some day) × (digits_of want 0 ≤ digits_of day 0)))
          × ((elim found as (λ _. Bool) [ none ↦ false | some day ↦ runes_leb day want ] ≡ true)
              ↔ ((day : Runes) × (found ≡ some day) × (digits_of day 0 ≤ digits_of want 0)))
    by_day none p = (
      (λ e. cc, λ (day, e, o). absurd (none-ne-some _ e)),
      (λ e. cc, λ (day, e, o). absurd (none-ne-some _ e)),
    )
    by_day (some day) p =
        let from = days_in_order want day valid (p day refl) in
        let to = days_in_order day want (p day refl) valid in
        (
          (λ e. (day, refl, from.0 e), λ (other, e, o). from.1 (rw (some-injective _ _ e) o)),
          (λ e. (day, refl, to.0 e), λ (other, e, o). to.1 (rw (some-injective _ _ e) o)),
        )
