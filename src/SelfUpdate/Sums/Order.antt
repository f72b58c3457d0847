-- ===== src/SelfUpdate/Sums/Order.antt =====
-- The order of the names in a checksum list.
use models_db.Prelude.{
  ◌≡◌, refl, sym, subst, true, false, some, [], ◌∷◌, arith, if◌then◌else◌, All, Bool-cases, inl,
  inr,
}
use models_db.Prelude.Table.{Table, lookup}
use models_db.Prelude.Text.{codes_eqb, codes_eqb_iff, codes_eq}
use models_db.SelfUpdate.Sums.{Bytes, bytes_ltb, insert_row, sorted_rows}

bytes_ltb_trans :
    (a b c : Bytes) → bytes_ltb a b ≡ true → bytes_ltb b c ≡ true → bytes_ltb a c ≡ true
unfolding bytes_ltb
bytes_ltb_trans [] [] c h k = cc
bytes_ltb_trans [] (y ∷ b) [] h k = cc
bytes_ltb_trans [] (y ∷ b) (z ∷ c) h k = refl
bytes_ltb_trans (x ∷ a) [] c h k = cc
bytes_ltb_trans (x ∷ a) (y ∷ b) [] h k = cc
bytes_ltb_trans (x ∷ a) (y ∷ b) (z ∷ c) h k = ground (arith, bytes_ltb_trans a b c)

bytes_ltb_irrefl : (a : Bytes) → bytes_ltb a a ≡ false
unfolding bytes_ltb
bytes_ltb_irrefl [] = refl
bytes_ltb_irrefl (x ∷ a) = ground (arith, bytes_ltb_irrefl a)

bytes_ltb_total :
    (a b : Bytes) → codes_eqb a b ≡ false → bytes_ltb a b ≡ false → bytes_ltb b a ≡ true
unfolding bytes_ltb codes_eqb
bytes_ltb_total [] [] h k = cc
bytes_ltb_total [] (y ∷ b) h k = cc
bytes_ltb_total (x ∷ a) [] h k = refl
bytes_ltb_total (x ∷ a) (y ∷ b) h k = ground (arith, bytes_ltb_total a b)

abbrev pub IsAbove : Bytes → Table Bytes Bytes → Type 0
IsAbove n = All (λ r. bytes_ltb n r.0 ≡ true)

abbrev pub IsSorted : Table Bytes Bytes → Type 0
IsSorted [] = Unit
IsSorted ((n, h) ∷ t) = IsAbove n t × IsSorted t

IsAbove-lower :
    (m n : Bytes) (t : Table Bytes Bytes) → bytes_ltb m n ≡ true → IsAbove n t → IsAbove m t
IsAbove-lower m n [] h a = tt
IsAbove-lower m n ((k, v) ∷ t) h (x, a) = (bytes_ltb_trans m n k h x, IsAbove-lower m n t h a)

insert_row-IsAbove :
    (m n h : Bytes) (t : Table Bytes Bytes)
    → bytes_ltb m n ≡ true
    → IsAbove m t
    → IsAbove m (insert_row n h t)
unfolding insert_row
insert_row-IsAbove m n h [] l a = (l, tt)
insert_row-IsAbove m n h ((k, v) ∷ t) l (x, a) =
    let rest = insert_row-IsAbove m n h t l a in
    elim (Bool-cases (codes_eqb n k)) [
      | inl same ↦ rw same (l, a)
      | inr other ↦ elim (Bool-cases (bytes_ltb n k)) [
        | inl below ↦ rw other (rw below (l, (x, a)))
        | inr above ↦ rw other (rw above (x, rest))
      ]
    ]

insert_row-IsSorted :
    (n h : Bytes) (t : Table Bytes Bytes) → IsSorted t → IsSorted (insert_row n h t)
unfolding insert_row
insert_row-IsSorted n h [] s = (tt, tt)
insert_row-IsSorted n h ((k, v) ∷ t) (a, s) = elim (Bool-cases (codes_eqb n k)) [
  | inl same ↦ rw same (subst (λ b. IsAbove b t) (sym ((codes_eqb_iff n k).0 same)) a, s)
  | inr other ↦ elim (Bool-cases (bytes_ltb n k)) [
    | inl below ↦ rw other (rw below ((below, IsAbove-lower n k t below a), (a, s)))
    | inr above ↦ rw other (
        rw above (
          insert_row-IsAbove k n h t (bytes_ltb_total n k other above) a,
          insert_row-IsSorted n h t s,
        ))
  ]
]

lookup-insert_row :
    (m n h : Bytes) (t : Table Bytes Bytes)
    → lookup m (insert_row n h t) ≡ (if codes_eqb n m then some h else lookup m t)
unfolding insert_row lookup
lookup-insert_row m n h [] = refl
lookup-insert_row m n h ((k, v) ∷ t) =
    ground
      (arith, codes_eqb_iff n k, codes_eqb_iff k m, codes_eqb_iff n m, lookup-insert_row m n h t)

pub sorted_rows-IsSorted : (t : Table Bytes Bytes) → IsSorted (sorted_rows t)
unfolding sorted_rows
sorted_rows-IsSorted [] = tt
sorted_rows-IsSorted ((n, h) ∷ t) = insert_row-IsSorted n h (sorted_rows t) (sorted_rows-IsSorted t)

pub lookup-sorted_rows : (m : Bytes) (t : Table Bytes Bytes) → lookup m (sorted_rows t) ≡ lookup m t
unfolding sorted_rows lookup
lookup-sorted_rows m [] = refl
lookup-sorted_rows m ((n, h) ∷ t) =
    ground (arith, lookup-insert_row m n h (sorted_rows t), lookup-sorted_rows m t)

-- A name below every row is another name than each.
pub IsAbove_ne : (n m : Bytes) → bytes_ltb n m ≡ true → codes_eqb n m ≡ false
IsAbove_ne n m h = ground (arith, codes_eqb_iff n m, bytes_ltb_irrefl n)

module _ {κ} (P : Bytes × Bytes → Type κ) where
  insert_row-All :
      (n h : Bytes) (t : Table Bytes Bytes) → P (n, h) → All P t → All P (insert_row n h t)
  unfolding insert_row
  insert_row-All n h [] p a = (p, tt)
  insert_row-All n h ((k, v) ∷ t) p (x, a) =
      let rest = insert_row-All n h t p a in
      elim (Bool-cases (codes_eqb n k)) [
        | inl same ↦ rw same (p, a)
        | inr other ↦ elim (Bool-cases (bytes_ltb n k)) [
          | inl below ↦ rw other (rw below (p, (x, a)))
          | inr above ↦ rw other (rw above (x, rest))
        ]
      ]

  pub sorted_rows-All : (t : Table Bytes Bytes) → All P t → All P (sorted_rows t)
  unfolding sorted_rows
  sorted_rows-All [] a = tt
  sorted_rows-All ((n, h) ∷ t) (p, a) = insert_row-All n h (sorted_rows t) p (sorted_rows-All t a)

insert_row-cons :
    (n h : Bytes) (t : Table Bytes Bytes)
    → (r : Bytes × Bytes) × (rest : Table Bytes Bytes) × (insert_row n h t ≡ r ∷ rest)
unfolding insert_row
insert_row-cons n h [] = ((n, h), [], refl)
insert_row-cons n h ((k, v) ∷ t) = elim (Bool-cases (codes_eqb n k)) [
  | inl same ↦ ((n, h), t, rw same refl)
  | inr other ↦ elim (Bool-cases (bytes_ltb n k)) [
    | inl below ↦ ((n, h), (k, v) ∷ t, rw other (rw below refl))
    | inr above ↦ ((k, v), insert_row n h t, rw other (rw above refl))
  ]
]

pub sorted_rows-cons :
    (n h : Bytes) (t : Table Bytes Bytes)
    → (r : Bytes × Bytes) × (rest : Table Bytes Bytes) × (sorted_rows ((n, h) ∷ t) ≡ r ∷ rest)
unfolding sorted_rows
sorted_rows-cons n h t = insert_row-cons n h (sorted_rows t)
