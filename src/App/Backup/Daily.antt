-- ===== src/App/Backup/Daily.antt =====
-- How often the loop of startBackupScheduler attempts a backup.
use mathlib.Core.Option.{some-injective}
use models_db.Prelude.{
  ◌⊎◌, ◌↔◌, ltb, ℕ, ◌+◌, ◌≤◌, ◌<◌, String, ◌≡◌, ◌≢◌, inl, inr, refl, sym, ap, ◌∙◌, subst, Bool,
  true, false, not, ◌||◌, Option, none, some, arith, Bool-cases, if◌then◌else◌, str_eq, eq_iff,
}
use models_db.Prelude.Text.{trim_space}
use models_db.App.Backup.{
  World, Copy, State, Fingerprint, unchanged, invalid_destination, record_scheduled_attempt,
  record_copy, record_backup_outcome, note_fingerprint, validate_destination, perform_backup,
  backup_unchanged, digest_covered, written, naming_of, attempt_scheduled_backup,
  recently_attempted, scheduler_turn, handle_backup_run,
}
use models_db.App.Backup.Turns.{
  a_day, closed_turn, recently_attempted-opens, handle_backup_run-saved_folder,
}

-- Turns of the scheduler while the clock is before `until`, and requests to back up now at any time.
pub data Calls (parse_time : String → Option ℕ) (until : ℕ) : State → State → Type 0 where
  no_call : {s : State} → Calls parse_time until s s
  turn :
      {s r : State} (clock : ℕ) (w : World)
      → clock < until
      → Calls parse_time until s r
      → Calls parse_time until s (scheduler_turn parse_time clock w r).0
  run_now :
      {s r : State} (clean : String → String) (w : World) (dir : String) (overwrite : Bool)
      → Calls parse_time until s r
      → Calls parse_time until s (handle_backup_run clean w dir overwrite r).0

early_closed :
    (parse_time : String → Option ℕ) (clock t : ℕ) (s : State)
    → s.last_scheduled_at ≢ ""
    → parse_time s.last_scheduled_at ≡ some t
    → clock < t + a_day
    → recently_attempted parse_time clock s ≡ true
unfolding recently_attempted
early_closed parse_time clock t s stamped p early =
    elim (Bool-cases (str_eq s.last_scheduled_at "")) [
      | inl e ↦ absurd (stamped ((eq_iff s.last_scheduled_at "").0 e))
      | inr e ↦ rw (e, p) (ground (arith, early))
    ]

Calls-stamp :
    {parse_time : String → Option ℕ} {t : ℕ} {s r : State}
    → s.last_scheduled_at ≢ ""
    → parse_time s.last_scheduled_at ≡ some t
    → Calls parse_time (t + a_day) s r
    → r.last_scheduled_at ≡ s.last_scheduled_at
Calls-stamp stamped p no_call = refl
Calls-stamp {parse_time = parse_time} {t = t} stamped p (turn {r = r} clock w early calls) =
    let same = Calls-stamp stamped p calls in
    let shut =
      early_closed parse_time clock t r (λ e. stamped (sym same ∙ e)) (ap parse_time same ∙ p)
        early in
    ap {A = State × Option Copy} (λ x. x.0.last_scheduled_at)
      (closed_turn parse_time clock w r shut)
    ∙ same
Calls-stamp stamped p (run_now {r = r} clean w dir overwrite calls) =
    (handle_backup_run-saved_folder clean w dir overwrite r).0 ∙ Calls-stamp stamped p calls

in_each_case :
    {R : Type 0} (P : R → Type 0) (x y z r : R) (f : String → R) (off files digest : Bool)
    (problem : Option String)
    → off ≡ false
    → ((e : String) → P (f e))
    → P y
    → P z
    → P r
    → P (
        if off then x else (elim problem as (λ _. R) [
          | some e ↦ f e
          | none ↦ if files then y else if digest then z else r
        ]))
in_each_case P x y z r f true files digest problem e pf py pz pr = cc
in_each_case P x y z r f false files digest (some m) e pf py pz pr = pf m
in_each_case P x y z r f false true digest none e pf py pz pr = py
in_each_case P x y z r f false false true none e pf py pz pr = pz
in_each_case P x y z r f false false false none e pf py pz pr = pr

note_fingerprint-stamp :
    (fp : Fingerprint) (s : State) → (note_fingerprint fp s).last_scheduled_at ≡ s.last_scheduled_at
unfolding note_fingerprint
note_fingerprint-stamp fp s = elim (Bool-cases s.have_fingerprint) [
  | inl e ↦ rw (e, note_fingerprint) refl
  | inr e ↦ rw (e, note_fingerprint) refl
]

record_copy-stamp :
    (w : World) (digest : String) (fp : Fingerprint) (result : Copy ⊎ String) (s : State)
    → (record_copy w digest fp result s).last_scheduled_at ≡ s.last_scheduled_at
unfolding record_copy
record_copy-stamp w digest fp (inl c) s = refl
record_copy-stamp w digest fp (inr e) s = refl

-- An attempt with the daily backup on leaves its own stamp.
attempt-stamps :
    (w : World) (s : State)
    → w.config.enabled ≡ true
    → str_eq (trim_space w.config.dir) "" ≡ false
    → (attempt_scheduled_backup w s).0.last_scheduled_at ≡ w.stamp
unfolding attempt_scheduled_backup record_scheduled_attempt record_backup_outcome perform_backup
attempt-stamps w s enabled named =
    in_each_case {R = State × Option Copy} (λ r. r.0.last_scheduled_at ≡ w.stamp) (s, none)
      (record_backup_outcome unchanged "" attempted, none)
      (record_backup_outcome unchanged "" (note_fingerprint fp attempted), none)
      (done.0, written done.1) (λ e. (record_backup_outcome invalid_destination e attempted, none))
      (not w.config.enabled || str_eq (trim_space w.config.dir) "") (backup_unchanged fp attempted)
      (digest_covered (w.content_digest (w.begins + 1)) attempted)
      (validate_destination w w.config.dir) (rw (enabled, named) refl) (λ e. refl) refl
      (note_fingerprint-stamp fp attempted)
      (record_copy-stamp w _ _ (w.backup_to (w.begins + 2 + 2) w.config.dir _) attempted)
  where
    attempted : State
    attempted = record_scheduled_attempt w.stamp s

    fp : Fingerprint
    fp = w.files w.begins

    done : State × (Copy ⊎ String)
    done = perform_backup w (w.begins + 2) w.config.dir (naming_of w.config.overwrite) attempted

opened_turn :
    (parse_time : String → Option ℕ) (clock : ℕ) (w : World) (s : State)
    → recently_attempted parse_time clock s ≡ false
    → scheduler_turn parse_time clock w s ≡ attempt_scheduled_backup w s
unfolding scheduler_turn
opened_turn parse_time clock w s e = rw e refl

-- The scheduler attempts once a day. After an attempt stamped `t`, and any turns with the clock before
-- t + 24 hours and any requests to back up now, a turn with the daily backup on, a folder named and a
-- stamp of its own leaves that stamp exactly when the clock shows t + 24 hours or more, and does
-- nothing otherwise, where the clock shows a time before `t` too, however long before.
pub scheduler_turn-once_a_day :
    (parse_time : String → Option ℕ) (t clock : ℕ) (w : World) {s r : State}
    → s.last_scheduled_at ≢ ""
    → parse_time s.last_scheduled_at ≡ some t
    → Calls parse_time (t + a_day) s r
    → w.config.enabled ≡ true
    → str_eq (trim_space w.config.dir) "" ≡ false
    → w.stamp ≢ s.last_scheduled_at
    → (((scheduler_turn parse_time clock w r).0.last_scheduled_at ≡ w.stamp) ↔ (t + a_day ≤ clock))
      × ((scheduler_turn parse_time clock w r ≡ (r, none)) ⊎ (t + a_day ≤ clock))
scheduler_turn-once_a_day parse_time t clock w {s = s} {r = r} stamped p calls enabled named new =
    let same = Calls-stamp stamped p calls in
    elim (Bool-cases (ltb clock (t + a_day))) [
      | inl e ↦
          let shut = closed_turn parse_time clock w r (
            early_closed parse_time clock t r (λ f. stamped (sym same ∙ f)) (ap parse_time same ∙ p)
              (ground (arith, e))) in
          let kept : (scheduler_turn parse_time clock w r).0.last_scheduled_at
              ≡ s.last_scheduled_at =
            ap {A = State × Option Copy} (λ x. x.0.last_scheduled_at) shut ∙ same in
          ((λ f. absurd (new (sym f ∙ kept)), λ late. absurd (ground (arith, e, late))), inl shut)
      | inr e ↦
          let late : t + a_day ≤ clock = ground (arith, e) in
          let opens = recently_attempted-opens parse_time clock r (λ u q. by_stamp same late u q) in
          (
            (
              λ _. late,
              λ _.
                  ap {A = State × Option Copy} (λ x. x.0.last_scheduled_at)
                    (opened_turn parse_time clock w r opens)
                  ∙ attempt-stamps w r enabled named,
            ),
            inr late,
          )
    ]
  where
    by_stamp :
        r.last_scheduled_at ≡ s.last_scheduled_at
        → t + a_day ≤ clock
        → (u : ℕ) → parse_time r.last_scheduled_at ≡ some u
        → u + a_day ≤ clock
    by_stamp same late u q =
        let at : some t ≡ some u = sym p ∙ ap parse_time (sym same) ∙ q in
        subst (λ x. x + a_day ≤ clock) (some-injective t u at) late
