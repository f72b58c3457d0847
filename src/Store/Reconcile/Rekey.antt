-- ===== src/Store/Reconcile/Rekey.antt =====
-- UPDATE ... SET model_name=?: moving the rows of one model to another.
use models_db.Prelude.{
  String, ◌≡◌, refl, Bool, true, false, ◌&&◌, none, some, [], ◌∷◌, arith, if◌then◌else◌, str_eq,
  eq_iff, Eq, ==_iff,
}
use models_db.Prelude.Table.{Table, lookup}
use models_db.Store.Schema.{CellKey, RecordKey, cell_key_eq, record_key_eq}

-- A primary key that names a model.
pub record OfModel {ℓ} (K : Type ℓ) : Type ℓ where
  pub model_of : K → String
  pub at_model : String → K → K
  pub model_of_at : (m : String) (k : K) → model_of (at_model m k) ≡ m
  pub at_at : (m n : String) (k : K) → at_model m (at_model n k) ≡ at_model m k
  pub at_own : (k : K) → at_model (model_of k) k ≡ k

instance abbrev pub cell_of_model : OfModel CellKey
cell_of_model = record {
  model_of = λ j. j.model;
  at_model = λ m j. record j { model = m };
  model_of_at = λ m j. refl;
  at_at = λ m n j. refl;
  at_own = λ j. refl;
}

instance abbrev pub record_of_model : OfModel RecordKey
record_of_model = record {
  model_of = λ j. j.model;
  at_model = λ m j. record j { model = m };
  model_of_at = λ m j. refl;
  at_at = λ m n j. refl;
  at_own = λ j. refl;
}

module _ {ℓ} {K V : Type ℓ} ⦃e : Eq K⦄ ⦃o : OfModel K⦄ where
  -- The rows of `old` that pass are moved to `next`.
  unfoldable pub rekey : String → String → (K → Bool) → Table K V → Table K V
  rekey old next q [] = []
  rekey old next q ((k, v) ∷ t) =
      (if str_eq (o.model_of k) old && q k then o.at_model next k else k, v) ∷ rekey old next q t

  -- What a key finds afterwards, where no row moves onto one that is there.
  pub lookup-rekey :
      (old next : String) (q : K → Bool) (t : Table K V)
      → str_eq old next ≡ false
      → ((k : K) → q k ≡ true → o.model_of k ≡ old → lookup (o.at_model next k) t ≡ none)
      → (j : K)
      → lookup j (rekey old next q t) ≡ (
          if str_eq (o.model_of j) next
          then elim (lookup j t) [
            | some v ↦ some v
            | none ↦ if q (o.at_model old j) then lookup (o.at_model old j) t else none
          ]
          else if str_eq (o.model_of j) old && q j
          then none
          else lookup j t)
  unfolding rekey lookup
  lookup-rekey old next q [] other free j = ground arith
  lookup-rekey old next q ((k, v) ∷ t) other free j =
      let free_k : q k ≡ true
          → o.model_of k ≡ old
          → lookup (o.at_model next k) ((k, v) ∷ t) ≡ none =
        free k in
      let free_t : (i : K) → q i ≡ true → o.model_of i ≡ old → lookup (o.at_model next i) t ≡ none =
        λ i qi mi. let f = free i qi mi in ground (arith, f) in
      ground (
        arith,
        lookup-rekey old next q t other free_t j,
        ==_iff k j,
        ==_iff (o.at_model next k) j,
        ==_iff k (o.at_model old j),
        ==_iff k (o.at_model next k),
        eq_iff (o.model_of k) old,
        eq_iff (o.model_of j) old,
        eq_iff (o.model_of j) next,
        eq_iff old next,
        o.model_of_at next k,
        o.model_of_at old j,
        o.at_at old next k,
        o.at_at next old j,
        o.at_own k,
        o.at_own j,
        free_k,
      )
