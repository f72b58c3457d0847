-- ===== src/App/Closeness/Distance.antt =====
-- The distance of two words: the rows of editDistance hold the distances of prefixes, and these are
-- the least numbers of changes.
use models_db.Prelude.{
  ℕ, suc, ◌+◌, ◌≤◌, min, ◌≡◌, refl, sym, ap, ◌∙◌, subst, List, [], ◌∷◌, ◌++◌, arith, length, ◌↔◌,
  ◌⊎◌, inl, inr, Bool-cases, leb, nat_eqb, nat_eqb_iff,
}
use mathlib.Core.List.{append-nil}
use models_db.Prelude.Runes.{Runes}
use models_db.App.Closeness.{cost, fill_cells, count_from, fill_rows, last_cell, edit_distance}

-- `Changes a b n`: n insertions, deletions and replacements of one character turn a into b.
pub data Changes : Runes → Runes → ℕ → Type 0 where
  done : Changes [] [] 0
  same : {c : ℕ} {a b : Runes} {n : ℕ} → Changes a b n → Changes (c ∷ a) (c ∷ b) n
  replace : {c d : ℕ} {a b : Runes} {n : ℕ} → Changes a b n → Changes (c ∷ a) (d ∷ b) (suc n)
  delete : {c : ℕ} {a b : Runes} {n : ℕ} → Changes a b n → Changes (c ∷ a) b (suc n)
  insert : {d : ℕ} {a b : Runes} {n : ℕ} → Changes a b n → Changes a (d ∷ b) (suc n)

-- The distance by recursion on the first characters.
dist : Runes → Runes → ℕ
unfolding cost
dist [] b = length b
dist (x ∷ a) [] = length (x ∷ a)
dist (x ∷ a) (y ∷ b) = min (dist a (y ∷ b) + 1) (min (dist (x ∷ a) b + 1) (dist a b + cost x y))

dist-delete : (c : ℕ) (a b : Runes) → dist (c ∷ a) b ≤ dist a b + 1
unfolding dist cost
dist-delete c [] [] = omega arith
dist-delete c (x ∷ a) [] = omega arith
dist-delete c [] (y ∷ b) = omega arith
dist-delete c (x ∷ a) (y ∷ b) = omega arith

dist-insert : (d : ℕ) (a b : Runes) → dist a (d ∷ b) ≤ dist a b + 1
unfolding dist cost
dist-insert d [] b = omega arith
dist-insert d (c ∷ a) b = omega arith

dist-least : {a b : Runes} {n : ℕ} → Changes a b n → dist a b ≤ n
unfolding dist cost
dist-least done = omega arith
dist-least (same {c = c} {a = a} {b = b} h) = ground (arith, dist-least h)
dist-least (replace {c = c} {d = d} {a = a} {b = b} h) = ground (arith, dist-least h)
dist-least (delete {c = c} {a = a} {b = b} h) = omega (arith, dist-least h, dist-delete c a b)
dist-least (insert {d = d} {a = a} {b = b} h) = omega (arith, dist-least h, dist-insert d a b)

insert_all : (b : Runes) → Changes [] b (length b)
insert_all [] = done
insert_all (d ∷ b) = insert (insert_all b)

delete_all : (a : Runes) → Changes a [] (length a)
delete_all [] = done
delete_all (c ∷ a) = delete (delete_all a)

least_of_three :
    (p q r : ℕ) → (min p (min q r) ≡ p) ⊎ ((min p (min q r) ≡ q) ⊎ (min p (min q r) ≡ r))
least_of_three p q r = elim (Bool-cases (leb p (min q r))) [
  | inl e ↦ inl (ground arith)
  | inr e ↦ elim (Bool-cases (leb q r)) [
    | inl f ↦ inr (inl (ground arith))
    | inr f ↦ inr (inr (ground arith))
  ]
]

match_first :
    (x y : ℕ) (a b : Runes) {n : ℕ} → Changes a b n → Changes (x ∷ a) (y ∷ b) (n + cost x y)
unfolding cost
match_first x y a b {n = n} h = elim (Bool-cases (nat_eqb x y)) [
  | inl e ↦ rw ((nat_eqb_iff x y).0 e) (subst (Changes _ _) (ground arith) (same h))
  | inr e ↦ subst (Changes _ _) (ground arith) (replace h)
]

dist-Changes : (a b : Runes) → Changes a b (dist a b)
unfolding dist cost
dist-Changes [] b = insert_all b
dist-Changes (x ∷ a) [] = delete_all (x ∷ a)
dist-Changes (x ∷ a) (y ∷ b) =
    elim (least_of_three (dist a (y ∷ b) + 1) (dist (x ∷ a) b + 1) (dist a b + cost x y)) [
      | inl e ↦ subst (Changes _ _) (omega arith) (delete (dist-Changes a (y ∷ b)))
      | inr (inl e) ↦ subst (Changes _ _) (omega arith) (insert (dist-Changes (x ∷ a) b))
      | inr (inr e) ↦ subst (Changes _ _) (sym e) (match_first x y a b (dist-Changes a b))
    ]

-- The rest of the row of a prefix, both prefixes written backwards.
row_after : Runes → Runes → Runes → List ℕ
row_after ra rb [] = []
row_after ra rb (y ∷ ys) = dist ra (y ∷ rb) ∷ row_after ra (y ∷ rb) ys

fill_cells_lem :
    (x : ℕ) (ra rb ys : Runes)
    → fill_cells x ys (dist (x ∷ ra) rb) (dist ra rb ∷ row_after ra rb ys)
      ≡ row_after (x ∷ ra) rb ys
unfolding fill_cells row_after dist
fill_cells_lem x ra rb [] = refl
fill_cells_lem x ra rb (y ∷ ys) = ap (dist (x ∷ ra) (y ∷ rb) ∷◌) (fill_cells_lem x ra (y ∷ rb) ys)

count_from_lem : (rb ys : Runes) → count_from (length rb) ys ≡ dist [] rb ∷ row_after [] rb ys
unfolding count_from row_after dist
count_from_lem rb [] = refl
count_from_lem rb (y ∷ ys) = ap (length rb ∷◌) (count_from_lem (y ∷ rb) ys)

pub reverse_onto : Runes → Runes → Runes
reverse_onto [] to = to
reverse_onto (c ∷ s) to = reverse_onto s (c ∷ to)

fill_rows_lem :
    (a ra b : Runes)
    → fill_rows (suc (length ra)) a b (dist ra [] ∷ row_after ra [] b)
      ≡ dist (reverse_onto a ra) [] ∷ row_after (reverse_onto a ra) [] b
unfolding fill_rows reverse_onto dist
fill_rows_lem [] ra b = refl
fill_rows_lem (x ∷ a) ra b = rw (fill_cells_lem x ra [] b) (fill_rows_lem a (x ∷ ra) b)

last_cell_lem :
    (ra rb ys : Runes) → last_cell (dist ra rb ∷ row_after ra rb ys) ≡ dist ra (reverse_onto ys rb)
unfolding last_cell row_after reverse_onto
last_cell_lem ra rb [] = refl
last_cell_lem ra rb (y ∷ ys) = last_cell_lem ra (y ∷ rb) ys

reverse_onto-Changes :
    {a b a' b' : Runes} {n m : ℕ}
    → Changes a b n
    → Changes a' b' m
    → Changes (reverse_onto a a') (reverse_onto b b') (n + m)
unfolding reverse_onto
reverse_onto-Changes {m = m} done k = subst (Changes _ _) (omega arith) k
reverse_onto-Changes (same h) k = reverse_onto-Changes h (same k)
reverse_onto-Changes {m = m} (replace {n = n} h) k =
    subst (Changes _ _) (omega arith) (reverse_onto-Changes h (replace k))
reverse_onto-Changes {m = m} (delete {n = n} h) k =
    subst (Changes _ _) (omega arith) (reverse_onto-Changes h (delete k))
reverse_onto-Changes {m = m} (insert {n = n} h) k =
    subst (Changes _ _) (omega arith) (reverse_onto-Changes h (insert k))

reverse_onto-reverse_onto :
    (a b c : Runes) → reverse_onto (reverse_onto a b) c ≡ reverse_onto b (a ++ c)
unfolding reverse_onto
reverse_onto-reverse_onto [] b c = refl
reverse_onto-reverse_onto (x ∷ a) b c = reverse_onto-reverse_onto a (x ∷ b) c

edit_distance-eq-dist :
    (a b : Runes) → edit_distance a b ≡ dist (reverse_onto a []) (reverse_onto b [])
unfolding edit_distance
edit_distance-eq-dist a b =
    ap (λ row. last_cell (fill_rows 1 a b row)) (count_from_lem [] b)
    ∙ ap last_cell (fill_rows_lem a [] b)
    ∙ last_cell_lem (reverse_onto a []) [] b

reverse-Changes :
    {a b : Runes} {n : ℕ} → Changes a b n → Changes (reverse_onto a []) (reverse_onto b []) n
reverse-Changes {n = n} h = subst (Changes _ _) (omega arith) (reverse_onto-Changes h done)

reverse_twice : (a : Runes) → reverse_onto (reverse_onto a []) [] ≡ a
unfolding reverse_onto
reverse_twice a = reverse_onto-reverse_onto a [] [] ∙ append-nil a

-- editDistance is the least number of insertions, deletions and replacements of one character that
-- turn the first word into the second: so many do, and no fewer.
pub edit_distance-least :
    (a b : Runes)
    → Changes a b (edit_distance a b) × ((n : ℕ) → Changes a b n → edit_distance a b ≤ n)
edit_distance-least a b =
    let backwards = reverse-Changes (dist-Changes (reverse_onto a []) (reverse_onto b [])) in
    rw (edit_distance-eq-dist a b) (
      subst (λ s. Changes s b (dist (reverse_onto a []) (reverse_onto b []))) (reverse_twice a)
          (subst (λ s. Changes _ s (dist (reverse_onto a []) (reverse_onto b []))) (reverse_twice b)
            backwards),
      λ n h. dist-least (reverse-Changes h),
    )

Changes-symmetric : {a b : Runes} {n : ℕ} → Changes a b n → Changes b a n
Changes-symmetric done = done
Changes-symmetric (same h) = same (Changes-symmetric h)
Changes-symmetric (replace h) = replace (Changes-symmetric h)
Changes-symmetric (delete h) = insert (Changes-symmetric h)
Changes-symmetric (insert h) = delete (Changes-symmetric h)

Changes-then :
    {a b c : Runes} {n m : ℕ}
    → Changes a b n
    → Changes b c m
    → (k : ℕ) × (k ≤ n + m) × Changes a c k
Changes-then done k = (_, omega arith, k)
Changes-then (delete h) k = let (i, le, p) = Changes-then h k in (suc i, omega arith, delete p)
Changes-then (same h) (same k) = let (i, le, p) = Changes-then h k in (i, le, same p)
Changes-then (same h) (replace k) =
    let (i, le, p) = Changes-then h k in (suc i, omega arith, replace p)
Changes-then (same h) (delete k) =
    let (i, le, p) = Changes-then h k in (suc i, omega arith, delete p)
Changes-then (same h) (insert k) =
    let (i, le, p) = Changes-then (same h) k in (suc i, omega arith, insert p)
Changes-then (replace h) (same k) =
    let (i, le, p) = Changes-then h k in (suc i, omega arith, replace p)
Changes-then (replace h) (replace k) =
    let (i, le, p) = Changes-then h k in (suc i, omega arith, replace p)
Changes-then (replace h) (delete k) =
    let (i, le, p) = Changes-then h k in (suc i, omega arith, delete p)
Changes-then (replace {c = x} h) (insert k) =
    let (i, le, p) = Changes-then (replace {c = x} h) k in (suc i, omega arith, insert p)
Changes-then (insert h) (same k) =
    let (i, le, p) = Changes-then h k in (suc i, omega arith, insert p)
Changes-then (insert h) (replace k) =
    let (i, le, p) = Changes-then h k in (suc i, omega arith, insert p)
Changes-then (insert h) (delete k) = let (i, le, p) = Changes-then h k in (i, omega arith, p)
Changes-then (insert h) (insert k) =
    let (i, le, p) = Changes-then (insert h) k in (suc i, omega arith, insert p)

Changes-none : {a b : Runes} {n : ℕ} → Changes a b n → n ≡ 0 → a ≡ b
Changes-none done e = refl
Changes-none (same {c = c} h) e = ap (c ∷◌) (Changes-none h e)
Changes-none (replace h) e = absurd (omega arith)
Changes-none (delete h) e = absurd (omega arith)
Changes-none (insert h) e = absurd (omega arith)

unchanged : (a : Runes) → Changes a a 0
unchanged [] = done
unchanged (c ∷ a) = same (unchanged a)

-- editDistance is a metric: 0 exactly between equal words, the same both ways, and no longer than the
-- way over a third word.
pub edit_distance_metric :
    (a b c : Runes)
    → ((edit_distance a b ≡ 0) ↔ (a ≡ b))
      × (edit_distance a b ≡ edit_distance b a)
      × (edit_distance a c ≤ edit_distance a b + edit_distance b c)
edit_distance_metric a b c =
    let (ab, ab_least) = edit_distance-least a b in
    let (ba, ba_least) = edit_distance-least b a in
    let (bc, bc_least) = edit_distance-least b c in
    let (ac, ac_least) = edit_distance-least a c in
    let (n, below, way) = Changes-then ab bc in
    (
      (
        Changes-none ab,
        λ e. omega (arith, ab_least 0 (subst (λ s. Changes a s 0) e (unchanged a))),
      ),
      omega (arith, ab_least _ (Changes-symmetric ba), ba_least _ (Changes-symmetric ab)),
      omega (arith, ac_least n way),
    )
