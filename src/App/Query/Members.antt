-- ===== src/App/Query/Members.antt =====
-- The lists after any: and not:, written and read.
use models_db.Prelude.{
  ℕ, ◌≡◌, ◌⊎◌, inl, inr, refl, sym, ap, ◌∙◌, false, Option, none, some, List, [], ◌∷◌, ◌++◌, map,
  All, arith, nat_eqb, nat_eqb_iff, Bool-cases, if◌then◌else◌,
}
use mathlib.Core.Path.{ap₂}
use mathlib.Core.List.{append-nil}
use models_db.Prelude.Runes.{Runes, trim}
use models_db.App.Query.{onto_first, comma, backslash, cut_members, split_members}

cons-injective : {a b : ℕ} {s t : Runes} → a ∷ s ≡ b ∷ t → a ≡ b
cons-injective e = cc

-- A value with its commas written \,.
unfoldable pub write_member : Runes → Runes
write_member [] = []
write_member (c ∷ m) =
    let rest = write_member m in if nat_eqb c comma then backslash ∷ comma ∷ rest else c ∷ rest

unfoldable pub write_members : List Runes → Runes
unfolding write_member
write_members [] = []
write_members (m ∷ []) = write_member m
write_members (m ∷ n ∷ ns) = write_member m ++ comma ∷ write_members (n ∷ ns)

abbrev pub IsUnended : Runes → Type 0
IsUnended [] = Unit {0}
IsUnended (c ∷ []) = nat_eqb c backslash ≡ false
IsUnended (c ∷ d ∷ m) = IsUnended (d ∷ m)

-- A value with no blanks around it and no backslash at its end.
abbrev pub IsListable : Runes → Type 0
IsListable m = (trim m ≡ m) × IsUnended m

-- What may follow a value: the end, or a comma and more.
abbrev ending : Option Runes → Runes
ending none = []
ending (some r) = comma ∷ r

-- The first of some texts behind another.
abbrev onto : Runes → List Runes → List Runes
onto [] ms = ms
onto (c ∷ s) ms = onto_first c (onto s ms)

cut_members-keeps :
    (c : ℕ) (s : Runes)
    → nat_eqb c comma ≡ false
    → (nat_eqb c backslash ≡ false) ⊎ ((d : ℕ) (t : Runes) → s ≡ d ∷ t → nat_eqb d comma ≡ false)
    → cut_members (c ∷ s) ≡ onto_first c (cut_members s)
unfolding cut_members onto_first
cut_members-keeps c [] h p = ground (arith, h)
cut_members-keeps c (d ∷ s) h (inl p) = ground (arith, h, p)
cut_members-keeps c (d ∷ s) h (inr p) = ground (arith, h, p d s refl)

escaped : (s : Runes) → cut_members (backslash ∷ comma ∷ s) ≡ onto_first comma (cut_members s)
unfolding cut_members
escaped s = refl

cut_members-write_one :
    (c : ℕ) (m tail : Runes)
    → (nat_eqb c backslash ≡ false)
      ⊎ ((d : ℕ) (t : Runes) → write_member m ++ tail ≡ d ∷ t → nat_eqb d comma ≡ false)
    → cut_members (write_member (c ∷ m) ++ tail)
      ≡ onto_first c (cut_members (write_member m ++ tail))
unfolding write_member
cut_members-write_one c m tail p = elim (Bool-cases (nat_eqb c comma)) [
  | inl e ↦ rw (e, (nat_eqb_iff c comma).0 e) (escaped (write_member m ++ tail))
  | inr e ↦ rw (e, write_member) (cut_members-keeps c (write_member m ++ tail) e p)
]

-- A written value does not begin with a comma.
write_member-first :
    (c : ℕ) (m tail : Runes) (d : ℕ) (t : Runes)
    → write_member (c ∷ m) ++ tail ≡ d ∷ t
    → nat_eqb d comma ≡ false
unfolding write_member
write_member-first c m tail d t q = elim (Bool-cases (nat_eqb c comma)) [
  | inl e ↦ rw (sym (cons-injective (rw (e, write_member) at q))) refl
  | inr e ↦ rw (sym (cons-injective (rw (e, write_member) at q))) e
]

cut_members-write_member :
    (m : Runes) (tail : Option Runes)
    → IsUnended m
    → cut_members (write_member m ++ ending tail) ≡ onto m (cut_members (ending tail))
unfolding write_member
cut_members-write_member [] tail u = refl
cut_members-write_member (c ∷ []) tail u = cut_members-write_one c [] (ending tail) (inl u)
cut_members-write_member (c ∷ d ∷ m) tail u =
    cut_members-write_one c (d ∷ m) (ending tail) (inr (write_member-first d m (ending tail)))
    ∙ ap (onto_first c) (cut_members-write_member (d ∷ m) tail u)

onto_alone : (m : Runes) (ms : List Runes) → onto m ([] ∷ ms) ≡ m ∷ ms
unfolding onto_first
onto_alone [] ms = refl
onto_alone (c ∷ m) ms = ap (onto_first c) (onto_alone m ms)

cut_members-comma : (s : Runes) → cut_members (comma ∷ s) ≡ [] ∷ cut_members s
unfolding cut_members
cut_members-comma [] = refl
cut_members-comma (d ∷ s) = refl

cut_members-write_members :
    (m : Runes) (ms : List Runes)
    → All IsUnended (m ∷ ms)
    → cut_members (write_members (m ∷ ms)) ≡ m ∷ ms
unfolding write_members cut_members
cut_members-write_members m [] (u, us) =
    ap cut_members (sym (append-nil (write_member m)))
    ∙ cut_members-write_member m none u
    ∙ onto_alone m []
cut_members-write_members m (n ∷ ns) (u, us) =
    cut_members-write_member m (some (write_members (n ∷ ns))) u
    ∙ ap (onto m) (
        cut_members-comma (write_members (n ∷ ns)) ∙ ap ([] ∷◌) (cut_members-write_members n ns us))
    ∙ onto_alone m (n ∷ ns)

trim-All : (ms : List Runes) → All IsListable ms → map trim ms ≡ ms
trim-All [] h = refl
trim-All (m ∷ ms) ((t, u), hs) = ap₂ ◌∷◌ t (trim-All ms hs)

IsUnended-All : (ms : List Runes) → All IsListable ms → All IsUnended ms
IsUnended-All [] h = tt
IsUnended-All (m ∷ ms) ((t, u), hs) = (u, IsUnended-All ms hs)

-- A list of values, the empty value too, written with commas between them and \, for a comma in a value,
-- is read back by splitMembers, if there is one and none has blanks around it or a backslash at its end.
pub split_members-write_members :
    (m : Runes) (ms : List Runes)
    → All IsListable (m ∷ ms)
    → split_members (write_members (m ∷ ms)) ≡ m ∷ ms
unfolding split_members
split_members-write_members m ms h =
    ap (map trim) (cut_members-write_members m ms (IsUnended-All (m ∷ ms) h)) ∙ trim-All (m ∷ ms) h
