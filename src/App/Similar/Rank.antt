-- ===== src/App/Similar/Rank.antt =====
-- The order of the models that are offered, and which are left out.
use models_db.Prelude.{ℕ, ◌<◌, ◌≡◌, ◌⊎◌, true, List, [], ◌∷◌, All}
use mathlib.Core.List.{Perm}
use mathlib.Core.List.Perm
use models_db.Prelude.Runes.{Runes}
use models_db.App.Similar.{comes_first}

-- The order of texts by their code points, the first that differs deciding.
pub data Before : Runes → Runes → Type 0 where
  ended : (t : Runes) → Before [] t
  smaller : (c d : ℕ) (s t : Runes) → c < d → Before (c ∷ s) (d ∷ t)
  alike : (c : ℕ) (s t : Runes) → Before s t → Before (c ∷ s) (c ∷ t)

-- A lower score, or the same score and a name that is no later.
abbrev pub IsBetter : ℕ × Runes → ℕ × Runes → Type 0
IsBetter a b = (a.0 < b.0) ⊎ ((a.0 ≡ b.0) × Before a.1 b.1)

module _ {A : Type 0} (key : A → ℕ × Runes) where
  -- Each member is better than all that follow it.
  pub data Ranked : List A → Type 0 where
    none_left : Ranked []
    next :
        {a : A} {as' : List A}
        → All (λ b. IsBetter (key a) (key b)) as'
        → Ranked as'
        → Ranked (a ∷ as')

  -- The same by the comparison of the code, which is transitive.
  data Ordered : List A → Type 0 where
    none_left : Ordered []
    next :
        {a : A} {as' : List A}
        → All (λ b. comes_first (key a) (key b) ≡ true) as'
        → Ordered as'
        → Ordered (a ∷ as')

  abbrev Follow : A → A → Type 0
  Follow a b = comes_first (key a) (key b) ≡ true
