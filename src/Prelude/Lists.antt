-- ===== src/Prelude/Lists.antt =====
-- Lists measured by native numbers, a Boolean search, and a predicate that holds of each member.
use Prim.Native.Nat.{ℕ, suc, ◌+◌}
use mathlib.Core.Path.{◌≡◌, refl}
use mathlib.Core.Bool.{Bool, true, false, ◌||◌}
use mathlib.Core.Logic.{◌↔◌, ◌⊎◌, inl, inr}
use models_db.Prelude.Tests.{Bool-cases}
use mathlib.Core.List.{List, [], ◌∷◌, ◌++◌}
use native.Mathlib.Omega.{arith}

module _ {ℓ} {A : Type ℓ} where
  abbrev pub length : List A → ℕ
  length [] = 0
  length (x ∷ xs) = suc (length xs)

  abbrev pub any : (A → Bool) → List A → Bool
  any p [] = false
  any p (x ∷ xs) = p x || any p xs

  -- The members that pass, in order.
  unfoldable pub keep : (A → Bool) → List A → List A
  keep p [] = []
  keep p (x ∷ xs) = let rest = keep p xs in elim (p x) [ true ↦ x ∷ rest | false ↦ rest ]

  pub length-append : (xs ys : List A) → length (xs ++ ys) ≡ length xs + length ys
  length-append [] ys = omega arith
  length-append (x ∷ xs) ys = omega (arith, length-append xs ys)

abbrev pub All {ℓ κ} : {A : Type ℓ} → (A → Type κ) → List A → Type κ
All P [] = Unit
All P (x ∷ xs) = P x × All P xs

-- A predicate that holds of some member.
pub data Some {ℓ κ} {A : Type ℓ} (P : A → Type κ) : List A → Type (ℓ ⊔ κ) where
  here : {x : A} {xs : List A} → P x → Some P (x ∷ xs)
  there : {x : A} {xs : List A} → Some P xs → Some P (x ∷ xs)

module _ {ℓ κ} {A : Type ℓ} {P : A → Type κ} where
  pub Some-cons_iff : (x : A) (xs : List A) → (P x ⊎ Some P xs) ↔ Some P (x ∷ xs)
  Some-cons_iff x xs = (λ s. elim s [ inl h ↦ here h | inr h ↦ there h ], back)
    where
      back : Some P (x ∷ xs) → P x ⊎ Some P xs
      back (here h) = inl h
      back (there h) = inr h

  any→Some :
      (p : A → Bool) → ((x : A) → (p x ≡ true) ↔ P x) → (xs : List A) → any p xs ≡ true → Some P xs
  any→Some p decides [] h = cc
  any→Some p decides (x ∷ xs) h = elim (Bool-cases (p x)) [
    | inl e ↦ here ((decides x).0 e)
    | inr e ↦ there (any→Some p decides xs (ground arith))
  ]

  Some→any :
      (p : A → Bool) → ((x : A) → (p x ≡ true) ↔ P x) → {xs : List A} → Some P xs → any p xs ≡ true
  Some→any p decides (here h) = rw ((decides _).1 h) refl
  Some→any p decides (there {x = x} h) = ground (arith, Some→any p decides h)

  -- A test that decides a predicate, run over a list.
  pub any_iff :
      (p : A → Bool)
      → ((x : A) → (p x ≡ true) ↔ P x)
      → (xs : List A) → (any p xs ≡ true) ↔ Some P xs
  any_iff p decides xs = (any→Some p decides xs, Some→any p decides)
