-- ===== src/Store/Cells/Accept.antt =====
-- Which keys a loop over keys accepts.
use models_db.Prelude.{
  String, ◌≡◌, ◌↔◌, refl, true, inl, inr, List, [], ◌∷◌, arith, str_eq, eq_iff, string_eq, contains,
  Bool-cases, subst,
}
use models_db.Store.Schema.{Db, Result, ok}
use models_db.Store.Cells.{each_key}
use models_db.Store.Cells.Effect.{each_key_cons}

module _ (step : String → Db → Result Db) (P : Db → String → Type 0)
    (iff : (key : String) (db : Db) → ((db' : Db) × (step key db ≡ ok db')) ↔ P db key)
    (stable : (key k : String) (db mid : Db) → step key db ≡ ok mid → P mid k ↔ P db k) where
  pub each_key-accepts_iff :
      (ks : List String) (db : Db)
      → ((db' : Db) × (each_key step ks db ≡ ok db'))
        ↔ ((k : String) → contains ks k ≡ true → P db k)
  unfolding each_key contains
  each_key-accepts_iff [] db = (λ _ k h. absurd (ground arith), λ _. (db, refl))
  each_key-accepts_iff (key ∷ ks) db = (
    λ (db', h) k c.
        let (mid, one, rest) = each_key_cons step key ks db h in
        elim (Bool-cases (str_eq key k)) [
          | inl same ↦ subst (P db) ((eq_iff key k).0 same) ((iff key db).0 (mid, one))
          | inr other ↦
              (stable key k db mid one).0
                ((each_key-accepts_iff ks mid).0 (db', rest) k (ground arith))
        ],
    λ all.
        let (mid, one) = (iff key db).1 (all key (ground (arith, eq_iff key key))) in
        let (db', rest) =
          (each_key-accepts_iff ks mid).1
            (λ k c. (stable key k db mid one).1 (all k (ground arith))) in
        (db', rw one rest),
  )
