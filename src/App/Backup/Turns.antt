-- ===== src/App/Backup/Turns.antt =====
-- The turns of the scheduler's loop one after another, and the request to back up now.
use models_db.Prelude.{
  ℕ, ◌+◌, ◌≤◌, String, ◌≡◌, ◌≢◌, ◌⊎◌, inl, inr, refl, sym, ap, ◌∙◌, subst, Bool, true, false, not,
  ◌||◌, Option, none, some, arith, Bool-cases, Option-cases, if◌then◌else◌, str_eq, eq_iff,
}
use mathlib.Core.Bool.{false≢true}
use models_db.Prelude.Text.{trim_space}
use models_db.App.Backup.{
  World, Copy, State, digest_or_empty, record_copy, validate_destination, perform_backup, naming_of,
  attempt_scheduled_backup, recently_attempted, scheduler_turn, handle_backup_run, RunReply,
  other_folder, refused, wrote,
}
use models_db.App.Backup.History.{Database, KeepsTime, ends, later-Describes, IsHonest, Reached}
use models_db.App.Backup.Due.{Reached-Describes, IsUsable, IsCovered, Writes, attempt_covers}

wrote-injective : {a b : Copy} → wrote a ≡ wrote b → a ≡ b
wrote-injective e = cc

-- 24 hours in nanoseconds.
abbrev pub a_day : ℕ
a_day = 86400000000000

-- A day after the last scheduled attempt the gate is open.
pub recently_attempted-opens :
    (parse_time : String → Option ℕ) (now : ℕ) (s : State)
    → ((t : ℕ) → parse_time s.last_scheduled_at ≡ some t → t + a_day ≤ now)
    → recently_attempted parse_time now s ≡ false
unfolding recently_attempted
recently_attempted-opens parse_time now s old = elim (Bool-cases (str_eq s.last_scheduled_at "")) [
  | inl e ↦ rw e refl
  | inr e ↦ elim (Option-cases (parse_time s.last_scheduled_at)) [
    | inl p ↦ rw (e, p) refl
    | inr (t, p) ↦ rw (e, p) (ground (arith, old t p))
  ]
]

pub closed_turn :
    (parse_time : String → Option ℕ) (clock : ℕ) (w : World) (s : State)
    → recently_attempted parse_time clock s ≡ true
    → scheduler_turn parse_time clock w s ≡ (s, none)
unfolding scheduler_turn
closed_turn parse_time clock w s e = rw e refl

module _ (db : Database) where
  -- Of calls one after another from a state with no backup recorded, on a database that is not written
  -- while its files keep their size and time, with ContentDigest, BackupTo and the fingerprint
  -- answering for the moment at which they are called: a scheduled attempt, with the daily backup on and
  -- a folder that takes the copy, writes one that holds what the database held at a moment of the
  -- attempt, or what the database holds at one of the two moments at which the attempt reads it was
  -- there at a moment of the call that wrote the last copy, no later than that copy.
  pub attempt_scheduled_backup-covers :
      {s : State} {last : Option (Copy × ℕ)} {now : ℕ} (w : World)
      → KeepsTime db
      → Reached db s last now
      → now ≤ w.begins
      → IsHonest db w
      → IsUsable w
      → Writes db (attempt_scheduled_backup w s).1 w.begins ⊎ IsCovered db last w.begins
  attempt_scheduled_backup-covers {s = s} {last = last} w keeps r over honest usable =
      attempt_covers db w s last keeps honest (later-Describes db over (Reached-Describes db r))
        usable

  -- What the database holds while a scheduled attempt reads it was there at no moment of the call that wrote
  -- the last copy.
  abbrev pub IsNew : Option (Copy × ℕ) → ℕ → Type 0
  IsNew last now =
      (c : Copy) (begun t at : ℕ)
      → last ≡ some (c, begun)
      → begun ≤ t
      → t ≤ ends db begun
      → now ≤ at
      → at ≤ now + 1
      → db.content t ≢ db.content at

  new_not_covered :
      (last : Option (Copy × ℕ)) (now : ℕ) → IsNew last now → IsCovered db last now → ⊥
  new_not_covered last now new k =
      new k.copy k.begun k.read.at k.at k.is_last k.read.first
        (omega (arith, k.read.order, k.read.over)) k.from k.before k.read.held

  open_turn :
      {s : State} {last : Option (Copy × ℕ)} {now : ℕ} (parse_time : String → Option ℕ) (clock : ℕ)
      (w : World)
      → KeepsTime db
      → Reached db s last now
      → now ≤ w.begins
      → IsHonest db w
      → IsUsable w
      → IsNew last w.begins
      → recently_attempted parse_time clock s ≡ false
      → Writes db (scheduler_turn parse_time clock w s).1 w.begins
  unfolding scheduler_turn
  open_turn {s = s} {last = last} parse_time clock w keeps r over honest usable changed opens =
      rw opens (settle (attempt_scheduled_backup-covers w keeps r over honest usable))
    where
      settle :
          Writes db (attempt_scheduled_backup w s).1 w.begins ⊎ IsCovered db last w.begins
          → Writes db (attempt_scheduled_backup w s).1 w.begins
      settle (inl e) = e
      settle (inr e) = absurd (new_not_covered last w.begins changed e)

  -- A changed database is backed up within two turns of the scheduler. Of calls one after another from
  -- a state with no backup recorded, on a database that is not written while its files keep their size
  -- and time, with ContentDigest, BackupTo and the fingerprint answering for the moment at which they
  -- are called: where what the database holds at either of two turns a day or more apart was there at no
  -- moment of the call that wrote the last copy, the daily backup is on with a folder that takes the
  -- copy at both, and the stamp of the last scheduled attempt does not lie after the first turn, one of
  -- the two writes a copy, which holds what the database held at a moment of the turn.
  pub two_turns_back_up :
      {s : State} {last : Option (Copy × ℕ)} {now : ℕ} (parse_time : String → Option ℕ)
      (first second : ℕ) (v w : World)
      → KeepsTime db
      → Reached db s last now
      → now ≤ v.begins
      → now ≤ w.begins
      → IsHonest db v
      → IsHonest db w
      → IsUsable v
      → IsUsable w
      → IsNew last v.begins
      → IsNew last w.begins
      → ((t : ℕ) → parse_time s.last_scheduled_at ≡ some t → t ≤ first)
      → first + a_day ≤ second
      → Writes db (scheduler_turn parse_time first v s).1 v.begins
        ⊎ Writes db
            (scheduler_turn parse_time second w (scheduler_turn parse_time first v s).0).1
            w.begins
  two_turns_back_up {s = s} parse_time first second v w keeps r over_v over_w hv hw uv uw new_v
        new_w past day =
      elim (Bool-cases (recently_attempted parse_time first s)) [
        | inl e ↦
            let opens : recently_attempted parse_time second s ≡ false =
              recently_attempted-opens parse_time second s λ t p. omega (arith, past t p) in
            inr (
              subst (λ x. Writes db (scheduler_turn parse_time second w x).1 w.begins)
                (sym (ap {A = State × Option Copy} (λ x. x.0) (closed_turn parse_time first v s e)))
                (open_turn parse_time second w keeps r over_w hw uw new_w opens))
        | inr e ↦ inl (open_turn parse_time first v keeps r over_v hv uv new_v e)
      ]

-- A request to back up now never moves the scheduler's own stamp, and it writes a file only into the
-- saved folder: where a folder is saved, the request names it, it can be written, and BackupTo wrote there.
pub handle_backup_run-saved_folder :
    (clean : String → String) (w : World) (dir : String) (overwrite : Bool) (s : State)
    → let saved = trim_space w.config.dir in
      let r = handle_backup_run clean w dir overwrite s in
      (r.0.last_scheduled_at ≡ s.last_scheduled_at)
      × ((c : Copy)
          → r.1 ≡ wrote c
          → (saved ≢ "")
            × (clean (trim_space dir) ≡ clean saved)
            × (validate_destination w saved ≡ none)
            × (w.backup_to (w.begins + 2) saved (naming_of overwrite) ≡ inl c))
unfolding handle_backup_run perform_backup record_copy
handle_backup_run-saved_folder clean w dir overwrite s =
    by_guard (str_eq saved "") (str_eq (clean (trim_space dir)) (clean saved))
      (validate_destination w saved) (w.backup_to (w.begins + 2) saved (naming_of overwrite)) refl
      refl refl refl
  where
    saved : String
    saved = trim_space w.config.dir

    digest : String
    digest = digest_or_empty (w.content_digest w.begins)

    by_guard :
        (unnamed same : Bool) (problem : Option String) (result : Copy ⊎ String)
        → str_eq saved "" ≡ unnamed
        → str_eq (clean (trim_space dir)) (clean saved) ≡ same
        → validate_destination w saved ≡ problem
        → w.backup_to (w.begins + 2) saved (naming_of overwrite) ≡ result
        → let r : State × RunReply =
            if unnamed || not same then (s, other_folder) else (elim problem [
              | some e ↦ (s, refused e)
              | none ↦ (
                record_copy w digest (w.files (w.begins + 1)) result s,
                elim result [ inl x ↦ wrote x | inr e ↦ refused e ],
              )
            ]) in
          (r.0.last_scheduled_at ≡ s.last_scheduled_at)
          × ((c : Copy)
              → r.1 ≡ wrote c
              → (saved ≢ "")
                × (clean (trim_space dir) ≡ clean saved)
                × (validate_destination w saved ≡ none)
                × (w.backup_to (w.begins + 2) saved (naming_of overwrite) ≡ inl c))
    by_guard true same problem result n m v k = (refl, λ c e. cc)
    by_guard false false problem result n m v k = (refl, λ c e. cc)
    by_guard false true (some x) result n m v k = (refl, λ c e. cc)
    by_guard false true none (inr x) n m v k = (refl, λ c e. cc)
    by_guard false true none (inl file) n m v k = (
      refl,
      λ c e. (
        λ blank. absurd (false≢true (sym n ∙ (eq_iff saved "").1 blank)),
        (eq_iff (clean (trim_space dir)) (clean saved)).0 m,
        v,
        k ∙ ap inl (wrote-injective e),
      ),
    )
