-- ===== src/Store/Columns/Sources.antt =====
-- Which lists of sources a column may declare.
use models_db.Prelude.{
  ℕ, ◌<◌, ◌≡◌, ◌≢◌, ◌↔◌, ◌⊎◌, inl, inr, refl, true, false, ◌&&◌, ◌||◌, not, List, [], ◌∷◌, arith,
  leb, contains, length, Bool-cases,
}
use models_db.Store.Source.{
  Source, open_router, hugging_face, research, hand, app, is_fetched, source_eq, source_eqb,
  source_eqb_iff,
}
use models_db.Store.Schema.{ok}
use models_db.Store.Columns.{check_sources_from, check_source_list}

-- Automatic sources, and research in the last place only.
abbrev pub IsRanked : List Source → Type 0
IsRanked [] = Unit
IsRanked (s ∷ ss) = ((is_fetched s ≡ true) ⊎ ((s ≡ research) × (ss ≡ []))) × IsRanked ss

abbrev pub AreDistinct : List Source → Type 0
AreDistinct [] = Unit
AreDistinct (s ∷ ss) = (contains ss s ≡ false) × AreDistinct ss

-- None of `ss` is among those seen.
abbrev Avoids : List Source → List Source → Type 0
Avoids seen ss = (s : Source) → contains ss s ≡ true → contains seen s ≡ false

ranked_head :
    (n : ℕ) (s : Source) (ss : List Source)
    → 1 < n
    → (source_eqb s hand || source_eqb s app) && not (leb n 1) ≡ false
    → source_eqb s research && not (leb (length ss) 0) ≡ false
    → (is_fetched s ≡ true) ⊎ ((s ≡ research) × (ss ≡ []))
unfolding is_fetched source_eqb
ranked_head n open_router ss big alone last = inl refl
ranked_head n hugging_face ss big alone last = inl refl
ranked_head n research [] big alone last = inr (refl, refl)
ranked_head n research (t ∷ ss) big alone last = ground arith
ranked_head n hand ss big alone last = ground arith
ranked_head n app ss big alone last = ground arith

check_step :
    (n : ℕ) (seen : List Source) (s : Source) (ss : List Source)
    → check_sources_from n seen (s ∷ ss) ≡ ok tt
    → (contains seen s ≡ false)
      × ((source_eqb s hand || source_eqb s app) && not (leb n 1) ≡ false)
      × (source_eqb s research && not (leb (length ss) 0) ≡ false)
      × (check_sources_from n (s ∷ seen) ss ≡ ok tt)
unfolding check_sources_from
check_step n seen s ss h = elim (Bool-cases (contains seen s)) [
  | inl twice ↦ absurd (ground arith)
  | inr new ↦ elim (Bool-cases ((source_eqb s hand || source_eqb s app) && not (leb n 1))) [
    | inl crowd ↦ absurd (ground arith)
    | inr alone ↦ elim (Bool-cases (source_eqb s research && not (leb (length ss) 0))) [
      | inl early ↦ absurd (ground arith)
      | inr last ↦ (new, alone, last, ground arith)
    ]
  ]
]

IsRanked-of_check :
    (n : ℕ) (seen ss : List Source)
    → 1 < n
    → check_sources_from n seen ss ≡ ok tt
    → IsRanked ss × AreDistinct ss × Avoids seen ss
unfolding contains
IsRanked-of_check n seen [] big h = (tt, tt, λ s c. cc)
IsRanked-of_check n seen (s ∷ ss) big h =
    let (new, alone, last, rest) = check_step n seen s ss h in
    let (r, d, a) = IsRanked-of_check n (s ∷ seen) ss big rest in
    (
      (ranked_head n s ss big alone last, r),
      (ground (arith, a s, source_eqb_iff s s), d),
      λ t c. ground (arith, new, a t, source_eqb_iff s t),
    )

check_of_ranked :
    (n : ℕ) (seen ss : List Source)
    → IsRanked ss
    → AreDistinct ss
    → Avoids seen ss
    → check_sources_from n seen ss ≡ ok tt
unfolding check_sources_from contains is_fetched source_eqb
check_of_ranked n seen [] r d a = refl
check_of_ranked n seen (s ∷ ss) (f, r) (new, d) a =
    let rest =
      check_of_ranked n (s ∷ seen) ss r d (λ t c. ground (arith, a t, source_eqb_iff s t)) in
    ground (arith, a s, rest, f)

-- What a column may declare.
abbrev pub IsDeclarable : List Source → Type 0
IsDeclarable ss = (ss ≡ hand ∷ []) ⊎ (ss ≡ app ∷ []) ⊎ ((ss ≢ []) × IsRanked ss × AreDistinct ss)

IsDeclarable-alone : (s : Source) → (check_source_list (s ∷ []) ≡ ok tt) × IsDeclarable (s ∷ [])
unfolding check_source_list check_sources_from contains source_eqb is_fetched
IsDeclarable-alone open_router = (refl, inr (inr (λ e. ground arith, (inl refl, tt), (refl, tt))))
IsDeclarable-alone hugging_face = (refl, inr (inr (λ e. ground arith, (inl refl, tt), (refl, tt))))
IsDeclarable-alone research =
    (refl, inr (inr (λ e. ground arith, (inr (refl, refl), tt), (refl, tt))))
IsDeclarable-alone hand = (refl, inl refl)
IsDeclarable-alone app = (refl, inr (inl refl))

check_source_list_many :
    (s t : Source) (ss : List Source)
    → check_source_list (s ∷ t ∷ ss) ≡ check_sources_from (length (s ∷ t ∷ ss)) [] (s ∷ t ∷ ss)
unfolding check_source_list
check_source_list_many s t ss = ground arith

Avoids-nothing : (ss : List Source) → Avoids [] ss
unfolding contains
Avoids-nothing ss s c = refl

-- A list of sources is accepted exactly when it is the reader alone, the app alone, or a list that is
-- not empty, names no source twice, and holds automatic sources and, in its last place only, research.
pub check_source_list_iff : (ss : List Source) → (check_source_list ss ≡ ok tt) ↔ IsDeclarable ss
check_source_list_iff [] =
    let refused : check_source_list [] ≢ ok tt = unfold check_source_list in λ h. ground arith in
    (
      λ h. absurd (refused h),
      λ d. elim d [
        | inl e ↦ absurd (ground arith)
        | inr (inl e) ↦ absurd (ground arith)
        | inr (inr (ne, _, _)) ↦ absurd (ne refl)
      ],
    )
check_source_list_iff (s ∷ []) = (λ _. (IsDeclarable-alone s).1, λ _. (IsDeclarable-alone s).0)
check_source_list_iff (s ∷ t ∷ ss) =
    let n = length (s ∷ t ∷ ss) in
    (
      λ h.
          let (r, d, _) =
            IsRanked-of_check n [] (s ∷ t ∷ ss) (omega arith) (rw check_source_list_many at h) in
          inr (inr (λ e. ground arith, r, d)),
      λ d. elim d [
        | inl e ↦ absurd (ground arith)
        | inr (inl e) ↦ absurd (ground arith)
        | inr (inr (_, r, u)) ↦
            rw check_source_list_many
              (check_of_ranked n [] (s ∷ t ∷ ss) r u (Avoids-nothing (s ∷ t ∷ ss)))
      ],
    )
