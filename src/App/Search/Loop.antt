-- ===== src/App/Search/Loop.antt =====
-- The loop of parseSearch as steps with no fuel, and that it comes to an end.
use models_db.Prelude.{
  ℕ, zero, suc, ◌≤◌, ◌≡◌, refl, Bool, true, false, List, [], ◌∷◌, ◌++◌, arith, length, inl, inr,
  Bool-cases, ap,
}
use models_db.Prelude.Runes.{Runes, Unicode}
use models_db.App.Search.{
  SearchTerm, SearchExpr, search_blank, take_quoted, take_word, read_body, read_term, close_group,
  Role, passes, ends_group, adds, role_of, term_of, read_groups, parse_search,
}

module _ (u : Unicode) where
  -- `Reads text group expr`: with `group` open, the loop over `text` ends with `expr`.
  pub data Reads : Runes → List SearchTerm → SearchExpr → Type 0 where
    at_end : {group : List SearchTerm} → Reads [] group (close_group group)
    blank :
        {c : ℕ} {s : Runes} {group : List SearchTerm} {expr : SearchExpr}
        → search_blank c ≡ true
        → Reads s group expr
        → Reads (c ∷ s) group expr
    drop :
        {c : ℕ} {s : Runes} {group : List SearchTerm} {expr : SearchExpr}
        → search_blank c ≡ false
        → role_of (read_term (c ∷ s)) ≡ passes
        → Reads (read_term (c ∷ s)).rest group expr
        → Reads (c ∷ s) group expr
    next_group :
        {c : ℕ} {s : Runes} {group : List SearchTerm} {expr : SearchExpr}
        → search_blank c ≡ false
        → role_of (read_term (c ∷ s)) ≡ ends_group
        → Reads (read_term (c ∷ s)).rest [] expr
        → Reads (c ∷ s) group (close_group group ++ expr)
    add :
        {c : ℕ} {s : Runes} {group : List SearchTerm} {expr : SearchExpr}
        → search_blank c ≡ false
        → role_of (read_term (c ∷ s)) ≡ adds
        → Reads (read_term (c ∷ s)).rest (group ++ term_of u (read_term (c ∷ s)) ∷ []) expr
        → Reads (c ∷ s) group expr

take_quoted-rest : (s : Runes) → length (take_quoted s).1 ≤ length s
unfolding take_quoted
take_quoted-rest [] = omega arith
take_quoted-rest (c ∷ s) = ground (arith, take_quoted-rest s)

take_word-rest : (s : Runes) → length (take_word s).1 ≤ length s
unfolding take_word
take_word-rest [] = omega arith
take_word-rest (c ∷ s) = ground (arith, take_word-rest s)

read_body-rest : (b : Bool) (s : Runes) → length (read_body b s).rest ≤ length s
unfolding read_body
read_body-rest b [] = omega arith
read_body-rest b (c ∷ s) = ground (arith, take_quoted-rest s, take_word-rest (c ∷ s))

-- A term that does not begin with a blank takes at least one code point.
word_takes : (c : ℕ) (s : Runes) → search_blank c ≡ false → length (take_word (c ∷ s)).1 ≤ length s
unfolding take_word
word_takes c s h = ground (arith, take_word-rest s)

read_term_takes :
    (c : ℕ) (s : Runes) → search_blank c ≡ false → length (read_term (c ∷ s)).rest ≤ length s
unfolding read_term read_body
read_term_takes c s h = ground (arith, read_body-rest true s, take_quoted-rest s, word_takes c s h)

-- One turn, when what it leaves is read to its end.
read_groups-turn :
    (u : Unicode) (n c : ℕ) (s : Runes) (group : List SearchTerm)
    → length s ≤ n
    → ((s' : Runes) (g : List SearchTerm) → length s' ≤ n → Reads u s' g (read_groups u n s' g))
    → Reads u (c ∷ s) group (read_groups u (suc n) (c ∷ s) group)
unfolding read_groups
read_groups-turn u n c s group h later = elim (Bool-cases (search_blank c)) [
  | inl e ↦ rw (e, read_groups) (blank e (later s group h))
  | inr e ↦
      rw (e, read_groups)
        (by_role (role_of (read_term (c ∷ s))) e (omega (arith, read_term_takes c s e)) refl)
]
  where
    by_role :
        (role : Role)
        → search_blank c ≡ false
        → length (read_term (c ∷ s)).rest ≤ n
        → role_of (read_term (c ∷ s)) ≡ role
        → Reads u (c ∷ s) group (elim role [
          | passes ↦ read_groups u n (read_term (c ∷ s)).rest group
          | ends_group ↦ close_group group ++ read_groups u n (read_term (c ∷ s)).rest []
          | adds ↦
              read_groups u n (read_term (c ∷ s)).rest (group ++ term_of u (read_term (c ∷ s)) ∷ [])
        ])
    by_role passes e fewer r = drop e r (later _ _ fewer)
    by_role ends_group e fewer r = next_group e r (later _ _ fewer)
    by_role adds e fewer r = add e r (later _ _ fewer)

read_groups-Reads :
    (u : Unicode) (n : ℕ) (s : Runes) (group : List SearchTerm)
    → length s ≤ n
    → Reads u s group (read_groups u n s group)
unfolding read_groups
read_groups-Reads u zero [] group h = at_end
read_groups-Reads u zero (c ∷ s) group h = absurd (omega arith)
read_groups-Reads u (suc n) [] group h = at_end
read_groups-Reads u (suc n) (c ∷ s) group h =
    read_groups-turn u n c s group (omega arith) (read_groups-Reads u n)

-- The loop of parseSearch comes to its end on every text, within as many turns as the text has code
-- points, and the expression is what its steps build.
pub parse_search-Reads : (u : Unicode) (text : Runes) → Reads u text [] (parse_search u text)
unfolding parse_search
parse_search-Reads u text = read_groups-Reads u (length text) text [] (omega arith)

-- A text builds one expression only.
pub Reads-unique :
    {u : Unicode} {s : Runes} {group : List SearchTerm} {e e' : SearchExpr}
    → Reads u s group e
    → Reads u s group e'
    → e ≡ e'
Reads-unique at_end at_end = refl
Reads-unique (blank b r) (blank b' r') = Reads-unique r r'
Reads-unique (blank b r) (drop b' q r') = cc
Reads-unique (blank b r) (next_group b' q r') = cc
Reads-unique (blank b r) (add b' q r') = cc
Reads-unique (drop b q r) (blank b' r') = cc
Reads-unique (drop b q r) (drop b' q' r') = Reads-unique r r'
Reads-unique (drop b q r) (next_group b' q' r') = cc
Reads-unique (drop b q r) (add b' q' r') = cc
Reads-unique (next_group b q r) (blank b' r') = cc
Reads-unique (next_group b q r) (drop b' q' r') = cc
Reads-unique (next_group {group = g} b q r) (next_group b' q' r') =
    ap (close_group g ++◌) (Reads-unique r r')
Reads-unique (next_group b q r) (add b' q' r') = cc
Reads-unique (add b q r) (blank b' r') = cc
Reads-unique (add b q r) (drop b' q' r') = cc
Reads-unique (add b q r) (next_group b' q' r') = cc
Reads-unique (add b q r) (add b' q' r') = Reads-unique r r'
