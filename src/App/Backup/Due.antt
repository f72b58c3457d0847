-- ===== src/App/Backup/Due.antt =====
-- When the scheduler writes a copy, and what a request to back up now does.
use models_db.Prelude.{
  ℕ, suc, ◌+◌, ◌≤◌, String, subst, ◌≡◌, ◌≢◌, ◌⊎◌, inl, inr, refl, sym, ap, ◌∙◌, Bool, true, false,
  not, ◌||◌, Option, none, some, arith, Bool-cases, if◌then◌else◌, str_eq,
}
use mathlib.Core.Bool.{false≢true}
use models_db.Prelude.Text.{trim_space}
use models_db.App.Backup.{
  World, Copy, State, record_scheduled_attempt, backup_unchanged, validate_destination,
  perform_backup, digest_covered, naming_of, written, attempt_scheduled_backup, recently_attempted,
  scheduler_turn, handle_backup_run, RunReply, other_folder, refused, wrote,
}
use models_db.App.Backup.History.{
  file_of, fingerprint_eqb_iff, Database, KeepsTime, Read, ends, later-Describes, IsHonest,
  copy_after, Reached, at_first, turn, run_now, Describes, no_copy, copy, perform_backup-Describes,
  digest_covered-content, attempt-Describes, IsGood, attempt_scheduled_backup-IsGood,
}

copies_at_last :
    {R : Type 0} (x y z r : R) (f : String → R) {off files digest : Bool} {problem : Option String}
    → off ≡ false
    → problem ≡ none
    → files ≡ false
    → digest ≡ false
    → (if off then x else (elim problem as (λ _. R) [
      | some e ↦ f e
      | none ↦ if files then y else if digest then z else r
    ]))
      ≡ r
copies_at_last x y z r f e v p q = rw (e, v, p, q) refl

-- The daily backup is on, with a folder that can be written, and BackupTo writes its copy.
pub record IsUsable (w : World) : Type 0 where
  pub enabled : w.config.enabled ≡ true
  pub named : str_eq (trim_space w.config.dir) "" ≡ false
  pub valid : validate_destination w w.config.dir ≡ none
  pub copies :
      (t : ℕ) → (c : Copy) × (w.backup_to t w.config.dir (naming_of w.config.overwrite) ≡ inl c)

module _ (db : Database) where
  handle_backup_run-IsGood :
      (clean : String → String) (w : World) (dir : String) (overwrite : Bool) (s : State)
      (last : Option (Copy × ℕ))
      → IsHonest db w
      → Describes db s last w.begins
      → Describes db
          (handle_backup_run clean w dir overwrite s).0
          (copy_after db w (file_of (handle_backup_run clean w dir overwrite s).1) last)
          (suc (ends db w.begins))
  unfolding handle_backup_run perform_backup copy_after written
  handle_backup_run-IsGood clean w dir overwrite s last honest d =
      by_guard (str_eq saved "" || not (str_eq (clean (trim_space dir)) (clean saved)))
        (validate_destination w saved) (perform_backup w w.begins saved (naming_of overwrite) s)
        (perform_backup-Describes db w w.begins saved (naming_of overwrite) s last honest
          (omega arith) (omega arith) d)
    where
      saved : String
      saved = trim_space w.config.dir

      IsRun : State × RunReply → Type 0
      IsRun r = Describes db r.0 (copy_after db w (file_of r.1) last) (suc (ends db w.begins))

      reply_to : Copy ⊎ String → RunReply
      reply_to result = elim result [ inl c ↦ wrote c | inr e ↦ refused e ]

      by_result :
          (done : State) (result : Copy ⊎ String)
          → Describes db done (copy_after db w (written result) last) (suc (ends db w.begins))
          → IsRun (done, reply_to result)
      by_result done (inl c) good = good
      by_result done (inr e) good = good

      by_guard :
          (b : Bool) (problem : Option String) (run : State × (Copy ⊎ String))
          → Describes db run.0 (copy_after db w (written run.1) last) (suc (ends db w.begins))
          → IsRun (
              if b
              then (s, other_folder)
              else (elim problem [ some e ↦ (s, refused e) | none ↦ (run.0, reply_to run.1) ]))
      by_guard true problem run good = later-Describes db (omega arith) d
      by_guard false (some e) run good = later-Describes db (omega arith) d
      by_guard false none run good = by_result run.0 run.1 good

  pub Reached-Describes :
      {s : State} {last : Option (Copy × ℕ)} {now : ℕ}
      → Reached db s last now
      → Describes db s last now
  unfolding scheduler_turn copy_after
  Reached-Describes (at_first none_yet) = no_copy none_yet
  Reached-Describes (turn {s = s} {last = last} parse_time clock w honest over r) =
      by_gate (recently_attempted parse_time clock s)
        (later-Describes db over (Reached-Describes r))
    where
      by_gate :
          (b : Bool)
          → Describes db s last w.begins
          → IsGood db w last (if b then (s, none) else attempt_scheduled_backup w s)
      by_gate true d = later-Describes db (omega arith) d
      by_gate false d = attempt_scheduled_backup-IsGood db w last s honest d
  Reached-Describes (run_now {s = s} {last = last} clean w dir overwrite honest over r) =
      handle_backup_run-IsGood clean w dir overwrite s last honest
        (later-Describes db over (Reached-Describes r))

  -- At one of the two moments at which the scheduler reads, from `now` on, the database holds what the
  -- call of the last copy had read no later than it made the copy.
  pub record IsCovered (last : Option (Copy × ℕ)) (now : ℕ) : Type 0 where
    pub copy : Copy
    pub begun : ℕ
    pub at : ℕ
    pub is_last : last ≡ some (copy, begun)
    pub from : now ≤ at
    pub before : at ≤ now + 1
    pub read : Read db copy begun (db.content at)

  -- A call wrote a file, which holds what the database held at a moment of the call.
  pub record Writes (wrote_file : Option Copy) (now : ℕ) : Type 0 where
    pub file : Copy
    pub at : ℕ
    pub is_file : wrote_file ≡ some file
    pub from : now ≤ at
    pub holds : file.content ≡ db.content at

  by_same_files :
      (w : World) (s : State) (last : Option (Copy × ℕ))
      → KeepsTime db
      → IsHonest db w
      → Describes db s last w.begins
      → backup_unchanged (w.files w.begins) s ≡ true
      → IsCovered last w.begins
  unfolding backup_unchanged
  by_same_files w s last keeps honest (no_copy n) h = absurd (false≢true (rw n at h))
  by_same_files w s last keeps honest (copy c b t v is_last o over at_files read known) h =
      let equal : s.last_fingerprint ≡ w.files w.begins =
        (fingerprint_eqb_iff s.last_fingerprint (w.files w.begins)).0 (ground (arith, h)) in
      record {
        copy = c;
        begun = b;
        at = w.begins;
        is_last = is_last;
        from = omega arith;
        before = omega arith;
        read =
            subst (Read db c b)
              (keeps t v w.begins o over (at_files ∙ equal ∙ honest.files w.begins)) read;
      }

  by_same_digest :
      (w : World) (s : State) (last : Option (Copy × ℕ))
      → IsHonest db w
      → Describes db s last w.begins
      → digest_covered (w.content_digest (w.begins + 1)) s ≡ true
      → IsCovered last w.begins
  by_same_digest w s last honest d h =
      let (flag, same, some_digest) = digest_covered-content db w (w.begins + 1) s honest h in
      by_state d flag same some_digest
    where
      by_state :
          Describes db s last w.begins
          → s.have_fingerprint ≡ true
          → s.last_digest ≡ db.content (w.begins + 1)
          → s.last_digest ≢ ""
          → IsCovered last w.begins
      by_state (no_copy n) flag same some_digest = absurd (false≢true (sym n ∙ flag))
      by_state (copy c b t v is_last o over at_files read (inl none_read)) flag same some_digest =
          absurd (some_digest none_read)
      by_state (copy c b t v is_last o over at_files read (inr known)) flag same some_digest =
          record {
            copy = c;
            begun = b;
            at = w.begins + 1;
            is_last = is_last;
            from = omega arith;
            before = omega arith;
            read = subst (Read db c b) same known;
          }

  pub attempt_covers :
      (w : World) (s : State) (last : Option (Copy × ℕ))
      → KeepsTime db
      → IsHonest db w
      → Describes db s last w.begins
      → IsUsable w
      → Writes (attempt_scheduled_backup w s).1 w.begins ⊎ IsCovered last w.begins
  unfolding attempt_scheduled_backup perform_backup written
  attempt_covers w s last keeps honest d usable =
      let attempted : State = record_scheduled_attempt w.stamp s in
      let after : Describes db attempted last w.begins = attempt-Describes db w.stamp d in
      elim (Bool-cases (backup_unchanged (w.files w.begins) attempted)) [
        | inl e ↦ inr (by_same_files w attempted last keeps honest after e)
        | inr e ↦ elim (Bool-cases (digest_covered (w.content_digest (w.begins + 1)) attempted)) [
          | inl f ↦ inr (by_same_digest w attempted last honest after f)
          | inr f ↦
              let off : (not w.config.enabled || str_eq (trim_space w.config.dir) "") ≡ false =
                rw (usable.enabled, usable.named) refl in
              let (c, copies) = usable.copies (w.begins + 2 + 2) in
              inl (record {
                file = c;
                at = w.begins + 2 + 2;
                is_file =
                    ap {A = State × Option Copy} (λ r. r.1)
                      (copies_at_last _ _ _ _ _ off usable.valid e f)
                    ∙ ap written copies;
                from = omega arith;
                holds =
                    honest.copies (w.begins + 2 + 2) w.config.dir (naming_of w.config.overwrite) c
                      copies;
              })
        ]
      ]
