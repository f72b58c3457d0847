-- ===== src/App/Refresh/Flight.antt =====
-- internal/app/refresh.go: the steps of the server, and the invariant of the controller.
use models_db.Prelude.{
  ℕ, ◌+◌, ◌≤◌, String, ◌≡◌, ◌↔◌, refl, Bool, true, false, Option, none, some, List, [], ◌∷◌, ◌++◌,
  arith, ap, subst, sym, length, if◌then◌else◌,
}
use models_db.App.Refresh.{
  Run, RefreshState, Point, begun, fetching, reported, errored, warned_new, finishing, recorded,
  Server, start, Fetched, returned, panicked, record_model_update_run, advance,
}

abbrev with_point : Option Point → List Point → List Point
with_point none ps = ps
with_point (some p) ps = p ∷ ps

-- A step of the server: a request to start, or one locked section of one of the goroutines. The number
-- is that of the refreshes begun.
pub data Step : ℕ × Server → ℕ × Server → Type 0 where
  asked :
      (scheduled : Bool) (now n : ℕ) (s : Server)
      → Step (n, s) ((if (start scheduled now s).0 then n + 1 else n), (start scheduled now s).1)
  advanced :
      (fetched : Fetched) (stamp : String) (now n : ℕ) (r r' : RefreshState) (last last' : Run)
      (before after : List Point) (p : Point) (q : Option Point)
      → advance fetched stamp now p r last ≡ (r', last', q)
      → Step
          (n, record { refresh = r; last = last; runs = before ++ p ∷ after })
          (n, record { refresh = r'; last = last'; runs = before ++ with_point q after })

-- What a sequence of steps reaches.
pub data Reached (first : ℕ × Server) : ℕ × Server → Type 0 where
  here : Reached first first
  step : {mid last : ℕ × Server} → Reached first mid → Step mid last → Reached first last

-- No refresh runs, and `n` counts the runs recorded, or one runs, and counts from when it is recorded.
abbrev pub IsSingle : ℕ → RefreshState → Run → List Point → Type 0
IsSingle n r last [] = (r.running ≡ false) × (n ≡ last.seq)
IsSingle n r last (recorded ∷ []) = (r.running ≡ true) × (n ≡ last.seq)
IsSingle n r last (_ ∷ []) = (r.running ≡ true) × (n ≡ last.seq + 1)
IsSingle n r last (_ ∷ _ ∷ _) = ⊥

two :
    (n : ℕ) (r : RefreshState) (last : Run) (p q : Point) (ps : List Point)
    → IsSingle n r last (p ∷ q ∷ ps)
    → ⊥
two n r last recorded q ps h = h
two n r last begun q ps h = h
two n r last (fetching x) q ps h = h
two n r last (reported x e) q ps h = h
two n r last (errored x e) q ps h = h
two n r last (warned_new x e) q ps h = h
two n r last (finishing x e) q ps h = h

start-IsSingle :
    (scheduled : Bool) (now n : ℕ) (r : RefreshState) (last : Run) (ps : List Point)
    → IsSingle n r last ps
    → let s : Server = record { refresh = r; last = last; runs = ps } in
      let (begun_one, s') = start scheduled now s in
      IsSingle (if begun_one then n + 1 else n) s'.refresh s'.last s'.runs
unfolding start
start-IsSingle scheduled now n r last [] (idle, counted) = rw idle (refl, ap (λ m. m + 1) counted)
start-IsSingle scheduled now n r last (recorded ∷ []) (busy, counted) = rw busy (refl, counted)
start-IsSingle scheduled now n r last (begun ∷ []) (busy, counted) = rw busy (refl, counted)
start-IsSingle scheduled now n r last (fetching x ∷ []) (busy, counted) = rw busy (refl, counted)
start-IsSingle scheduled now n r last (reported x e ∷ []) (busy, counted) = rw busy (refl, counted)
start-IsSingle scheduled now n r last (errored x e ∷ []) (busy, counted) = rw busy (refl, counted)
start-IsSingle scheduled now n r last (warned_new x e ∷ []) (busy, counted) =
    rw busy (refl, counted)
start-IsSingle scheduled now n r last (finishing x e ∷ []) (busy, counted) = rw busy (refl, counted)
start-IsSingle scheduled now n r last (p ∷ q ∷ ps) h = absurd (two n r last p q ps h)

advance-IsSingle :
    (fetched : Fetched) (stamp : String) (now n : ℕ) (r : RefreshState) (last : Run) (p : Point)
    → IsSingle n r last (p ∷ [])
    → let (r', last', q) = advance fetched stamp now p r last in
      IsSingle n r' last' (with_point q [])
unfolding advance record_model_update_run
advance-IsSingle fetched stamp now n r last begun h = h
advance-IsSingle (returned x e) stamp now n r last (fetching paced) h = h
advance-IsSingle (panicked text) stamp now n r last (fetching paced) h = h
advance-IsSingle fetched stamp now n r last (reported x none) h = h
advance-IsSingle fetched stamp now n r last (reported x (some text)) h = h
advance-IsSingle fetched stamp now n r last (errored x e) h = ground arith
advance-IsSingle fetched stamp now n r last (warned_new x e) h = ground arith
advance-IsSingle fetched stamp now n r last (finishing x none) h = h
advance-IsSingle fetched stamp now n r last (finishing x (some text)) h = h
advance-IsSingle fetched stamp now n r last recorded (busy, counted) = (refl, counted)

-- A goroutine is the only one.
alone :
    (n : ℕ) (r : RefreshState) (last : Run) (before after : List Point) (p : Point)
    → IsSingle n r last (before ++ p ∷ after)
    → (before ≡ []) × (after ≡ [])
alone n r last [] [] p h = (refl, refl)
alone n r last [] (a ∷ after) p h = absurd (two n r last p a after h)
alone n r last (b ∷ []) after p h = absurd (two n r last b p after h)
alone n r last (b ∷ c ∷ before) after p h = absurd (two n r last b c (before ++ p ∷ after) h)

advanced-IsSingle :
    (fetched : Fetched) (stamp : String) (now n : ℕ) (r r' : RefreshState) (last last' : Run)
    (before after : List Point) (p : Point) (q : Option Point)
    → advance fetched stamp now p r last ≡ (r', last', q)
    → IsSingle n r last (before ++ p ∷ after)
    → IsSingle n r' last' (before ++ with_point q after)
advanced-IsSingle fetched stamp now n r r' last last' before after p q e h =
    let (nothing_before, nothing_after) = alone n r last before after p h in
    let one : IsSingle n r last (p ∷ []) =
      subst (λ b. IsSingle n r last (b ++ p ∷ [])) nothing_before
        (subst (λ a. IsSingle n r last (before ++ p ∷ a)) nothing_after h) in
    let next : IsSingle n r' last' (with_point q []) =
      subst (λ t. IsSingle n t.0 t.1 (with_point t.2 [])) e
        (advance-IsSingle fetched stamp now n r last p one) in
    subst (λ b. IsSingle n r' last' (b ++ with_point q after)) (sym nothing_before)
      (subst (λ a. IsSingle n r' last' (with_point q a)) (sym nothing_after) next)

abbrev IsSingleAt : ℕ × Server → Type 0
IsSingleAt (n, s) = IsSingle n s.refresh s.last s.runs

Step-IsSingleAt : {a b : ℕ × Server} → Step a b → IsSingleAt a → IsSingleAt b
Step-IsSingleAt (asked scheduled now n s) h =
    start-IsSingle scheduled now n s.refresh s.last s.runs h
Step-IsSingleAt (advanced fetched stamp now n r r' last last' before after p q e) h =
    advanced-IsSingle fetched stamp now n r r' last last' before after p q e h

Reached-IsSingleAt : {a b : ℕ × Server} → Reached a b → IsSingleAt a → IsSingleAt b
Reached-IsSingleAt here h = h
Reached-IsSingleAt (step r t) h = Step-IsSingleAt t (Reached-IsSingleAt r h)

single_facts :
    (n : ℕ) (r : RefreshState) (last : Run) (ps : List Point)
    → IsSingle n r last ps
    → (length ps ≤ 1) × ((r.running ≡ true) ↔ (length ps ≡ 1)) × (r.running ≡ false → last.seq ≡ n)
single_facts n r last [] (idle, counted) = (omega arith, ground arith, λ _. sym counted)
single_facts n r last (recorded ∷ []) (busy, counted) =
    (omega arith, ground arith, λ h. ground arith)
single_facts n r last (begun ∷ []) (busy, counted) = (omega arith, ground arith, λ h. ground arith)
single_facts n r last (fetching x ∷ []) (busy, counted) =
    (omega arith, ground arith, λ h. ground arith)
single_facts n r last (reported x e ∷ []) (busy, counted) =
    (omega arith, ground arith, λ h. ground arith)
single_facts n r last (errored x e ∷ []) (busy, counted) =
    (omega arith, ground arith, λ h. ground arith)
single_facts n r last (warned_new x e ∷ []) (busy, counted) =
    (omega arith, ground arith, λ h. ground arith)
single_facts n r last (finishing x e ∷ []) (busy, counted) =
    (omega arith, ground arith, λ h. ground arith)
single_facts n r last (p ∷ q ∷ ps) h = absurd (two n r last p q ps h)

-- From a server in which nothing runs, whatever requests to start come between whatever sections of
-- the runs, whatever the fetches do: at most one refresh runs at a time, the flag is set exactly while
-- one does, and when it is not set, every refresh that was begun has been recorded.
pub refreshes_run_one_at_a_time :
    (first s : Server) (n : ℕ)
    → first.refresh.running ≡ false
    → first.runs ≡ []
    → Reached (first.last.seq, first) (n, s)
    → (length s.runs ≤ 1)
      × ((s.refresh.running ≡ true) ↔ (length s.runs ≡ 1))
      × (s.refresh.running ≡ false → s.last.seq ≡ n)
refreshes_run_one_at_a_time first s n idle none_running reached =
    single_facts n s.refresh s.last s.runs (
      Reached-IsSingleAt reached (
        subst (λ ps. IsSingle first.last.seq first.refresh first.last ps) (sym none_running)
          (idle, refl)))
