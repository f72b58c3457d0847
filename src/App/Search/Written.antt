-- ===== src/App/Search/Written.antt =====
-- An expression written as the text of a box, and read back.
use models_db.Prelude.{
  ℕ, ◌≡◌, sym, ap, ◌∙◌, subst, refl, Bool, true, false, List, [], ◌∷◌, ◌++◌, All, if◌then◌else◌,
  nat_eqb,
}
use mathlib.Core.List.{append_assoc, append-nil}
use models_db.Prelude.Text.{codes, codes_eqb}
use models_db.Prelude.Runes.{Runes, Unicode, lower}
use models_db.App.Search.{
  SearchTerm, SearchExpr, search_blank, quote, Reading, take_quoted, take_word, read_body,
  read_term, close_group, role_of, term_of, adds, parse_search,
}
use models_db.App.Search.Loop.{
  Reads, at_end, blank, next_group, add, parse_search-Reads, Reads-unique,
}

-- A term in quotes, with its ! and a blank after it.
unfoldable pub write_term : SearchTerm → Runes → Runes
write_term t rest =
    let body = quote ∷ t.text ++ quote ∷ 32 ∷ rest in if t.negated then b'!' ∷ body else body

unfoldable pub write_group : List SearchTerm → Runes → Runes
unfolding write_term
write_group [] rest = rest
write_group (t ∷ ts) rest = write_term t (write_group ts rest)

-- The groups with OR between them.
unfoldable pub write_search : SearchExpr → Runes
unfolding write_group
write_search [] = []
write_search (g ∷ []) = write_group g []
write_search (g ∷ h ∷ hs) = write_group g (b'O' ∷ b'R' ∷ 32 ∷ write_search (h ∷ hs))

-- A term a box can hold: some text, no quote in it, no capitals.
pub record IsWritable (u : Unicode) (t : SearchTerm) : Type 0 where
  pub some_text : (c : ℕ) × (s : Runes) × (t.text ≡ c ∷ s)
  pub unquoted : All (λ c. nat_eqb c quote ≡ false) t.text
  pub in_lower_case : lower u t.text ≡ t.text

abbrev pub IsWritableGroup : Unicode → List SearchTerm → Type 0
IsWritableGroup u g =
    ((t : SearchTerm) × (ts : List SearchTerm) × (g ≡ t ∷ ts)) × All (IsWritable u) g

take_quoted-append :
    (text rest : Runes)
    → All (λ c. nat_eqb c quote ≡ false) text
    → take_quoted (text ++ quote ∷ rest) ≡ (text, rest)
unfolding take_quoted
take_quoted-append [] rest h = refl
take_quoted-append (c ∷ text) rest (h, hs) = rw (take_quoted-append text rest hs, h) refl

abbrev reading : Bool → Runes → Runes → Reading
reading b text rest = record { negated = b; quoted = true; term = text; rest = rest }

read_term-written :
    (b : Bool) (text rest : Runes)
    → All (λ c. nat_eqb c quote ≡ false) text
    → read_term (write_term (record { text = text; negated = b }) rest) ≡ reading b text (32 ∷ rest)
unfolding read_term read_body write_term
read_term-written true text rest h = rw (take_quoted-append text (32 ∷ rest) h) refl
read_term-written false text rest h = rw (take_quoted-append text (32 ∷ rest) h) refl

role_of-written : (b : Bool) (c : ℕ) (s rest : Runes) → role_of (reading b (c ∷ s) rest) ≡ adds
unfolding role_of
role_of-written true c s rest = refl
role_of-written false c s rest = refl

module _ (u : Unicode) where
  add_reading :
      (c : ℕ) (s : Runes) (b : Bool) (text rest : Runes) (group : List SearchTerm) (e : SearchExpr)
      → search_blank c ≡ false
      → read_term (c ∷ s) ≡ reading b text (32 ∷ rest)
      → IsWritable u (record { text = text; negated = b })
      → Reads u rest (group ++ record { text = text; negated = b } ∷ []) e
      → Reads u (c ∷ s) group e
  unfolding term_of search_blank
  add_reading c s b text rest group e h q w r =
      let (d, ds, filled) = w.some_text in
      add h (ap role_of q ∙ rw filled (role_of-written b d ds (32 ∷ rest)))
        (rw q (rw w.in_lower_case (blank refl r)))

  read_written :
      (t : SearchTerm) (rest : Runes) (group : List SearchTerm) (e : SearchExpr)
      → IsWritable u t
      → Reads u rest (group ++ t ∷ []) e
      → Reads u (write_term t rest) group e
  unfolding write_term search_blank
  read_written t rest group e w r = go t.negated t.text w r
    where
      go :
          (b : Bool) (text : Runes)
          → IsWritable u (record { text = text; negated = b })
          → Reads u rest (group ++ record { text = text; negated = b } ∷ []) e
          → Reads u (write_term (record { text = text; negated = b }) rest) group e
      go true text w r =
          add_reading _ _ true text rest group e refl (read_term-written true text rest w.unquoted)
            w r
      go false text w r =
          add_reading _ _ false text rest group e refl
            (read_term-written false text rest w.unquoted) w r

  read_group_written :
      (g : List SearchTerm) (rest : Runes) (group : List SearchTerm) (e : SearchExpr)
      → All (IsWritable u) g
      → Reads u rest (group ++ g) e
      → Reads u (write_group g rest) group e
  unfolding write_group
  read_group_written [] rest group e w r = subst (λ g. Reads u rest g e) (append-nil group) r
  read_group_written (t ∷ ts) rest group e (w, ws) r =
      read_written t (write_group ts rest) group e w (
        read_group_written ts rest (group ++ t ∷ []) e ws
          (subst (λ g. Reads u rest g e) (sym (append_assoc group (t ∷ []) ts)) r))

  read_or :
      (rest : Runes) (group : List SearchTerm) (e : SearchExpr)
      → Reads u rest [] e
      → Reads u (b'O' ∷ b'R' ∷ 32 ∷ rest) group (close_group group ++ e)
  unfolding read_term read_body take_word search_blank role_of codes_eqb codes
  read_or rest group e r = next_group refl refl (blank refl r)

  write_search-Reads :
      (gs : SearchExpr) → All (IsWritableGroup u) gs → Reads u (write_search gs) [] gs
  unfolding write_search close_group
  write_search-Reads [] w = at_end
  write_search-Reads (g ∷ []) (((t, ts, e), w), _) =
      read_group_written g [] [] (g ∷ []) w (rw e at_end)
  write_search-Reads (g ∷ h ∷ hs) (((t, ts, e), w), ws) =
      read_group_written g _ [] (g ∷ h ∷ hs) w
        (rw e (read_or _ (t ∷ ts) (h ∷ hs) (write_search-Reads (h ∷ hs) ws)))

-- An expression written with quotes, ! and OR is read back as it was, if every group has a term and
-- every term some text, in lower case and with no quote in it.
pub parse_search-write_search :
    (u : Unicode) (e : SearchExpr) → All (IsWritableGroup u) e → parse_search u (write_search e) ≡ e
parse_search-write_search u e w =
    Reads-unique (parse_search-Reads u (write_search e)) (write_search-Reads u e w)
