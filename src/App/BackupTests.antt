-- ===== src/App/BackupTests.antt =====
-- Runs of internal/app/backupschedule.go at concrete inputs.
use mathlib.Core.Bool.{false≢true}
use mathlib.Core.Option.{some-injective}
use models_db.Prelude.{
  ◌+◌, ◌≤◌, ◌↔◌, ◌∙◌, eq_iff, leb, nat_eqb, Bool-cases, ap, sym, ℕ, ◌*◌, arith, ◌≡◌, ◌≢◌, ◌⊎◌, inl,
  inr, refl, String, true, false, Option, none, some, [], ◌∷◌, str_eq, if◌then◌else◌,
}
use models_db.Prelude.Text.{trim_space, codes_eqb}
use models_db.App.Backup.{
  Fingerprint, Copy, no_outcome, unchanged, State, writable, World, naming_of, validate_destination,
  attempt_scheduled_backup, scheduler_turn, handle_backup_run, wrote, list_configured_backups,
  Entry, listed, empty, no_folder,
}
use models_db.App.Backup.History.{
  Database, KeepsTime, IsHonest, copy_after, Reached, at_first, turn,
}
use models_db.App.Backup.Due.{IsUsable, IsCovered, Writes}
use models_db.App.Backup.Turns.{
  attempt_scheduled_backup-covers, two_turns_back_up, a_day, IsNew, handle_backup_run-saved_folder,
}
use models_db.App.Backup.Daily.{scheduler_turn-once_a_day, no_call}

program : Unit {0}
unfolding attempt_scheduled_backup scheduler_turn handle_backup_run list_configured_backups
program = tt

different : (a b : String) → str_eq a b ≡ false → a ≢ b
different a b f e = false≢true (sym f ∙ (eq_iff a b).1 e)

inl-injective : {a b : Copy} → ◌≡◌ {A = Copy ⊎ String} (inl a) (inl b) → a ≡ b
inl-injective e = cc

abbrev files : ℕ → Fingerprint
files n = record { db_size = n; db_mtime = 7; wal_size = 0; wal_mtime = 0 }

abbrev a_copy : Copy
a_copy = record { path = "/backups/modelsdb-backup.db"; content = "digest" }

abbrev fresh : State
fresh = record {
  last_attempt_at = "";
  last_scheduled_at = "";
  last_backup_at = "";
  have_fingerprint = false;
  last_fingerprint = files 0;
  last_digest = "";
  last_outcome = no_outcome;
  last_error = "";
  last_path = "";
}

-- A call on a database that is not written while it runs.
abbrev world : String → ℕ → ℕ → World
world stamp size begins = record {
  config = record { enabled = true; dir = "/backups"; overwrite = false };
  stamp = stamp;
  folder = λ dir. writable;
  begins = begins;
  files = λ t. files size;
  content_digest = λ t. some "digest";
  backup_to = λ t dir naming. inl a_copy;
  finished = stamp;
}

usable : (stamp : String) (size begins : ℕ) → IsUsable (world stamp size begins)
unfolding program
usable stamp size begins = record {
  enabled = refl;
  named = refl;
  valid = refl;
  copies = λ t. (a_copy, refl);
}

-- A second attempt on the same files is unchanged, and so is one on moved files of the same content.
test_attempts :
    let s = (attempt_scheduled_backup (world "day 1" 10 0) fresh).0 in
    ((attempt_scheduled_backup (world "day 2" 10 5) s).1 ≡ none)
    × ((attempt_scheduled_backup (world "day 2" 11 5) s).0.last_outcome ≡ unchanged)
    × ((attempt_scheduled_backup (world "day 2" 11 5) s).0.last_fingerprint ≡ files 11)
    × ((attempt_scheduled_backup (world "day 2" 11 5) s).0.last_backup_at ≡ "day 1")
unfolding program
test_attempts = (refl, refl, refl, refl)

abbrev entry : String → ℕ → Entry
entry name modified = record { name = name; is_dir = false; info = some (100, modified) }

test_listing :
    (list_configured_backups
        (λ dir. some (entry "a.db" 1 ∷ entry "notes.txt" 2 ∷ entry "b.db" 3 ∷ []))
        "/backups"
      ≡ listed (
          record { name = "b.db"; size = 100; modified = 3 }
          ∷ record { name = "a.db"; size = 100; modified = 1 }
          ∷ []))
    × (list_configured_backups (λ dir. some (entry "notes.txt" 2 ∷ [])) "/backups" ≡ empty)
    × (list_configured_backups (λ dir. none) " " ≡ no_folder)
unfolding program codes_eqb
test_listing = (refl, refl, refl)

-- The database is written once, before the seventh moment.
abbrev db : Database
db = record {
  content = λ t. if leb t 6 then "digest" else "changed";
  files = λ t. if leb t 6 then files 10 else files 11;
}

db-KeepsTime : KeepsTime db
db-KeepsTime t v u h k e = elim (Bool-cases (leb u 6)) [
  | inl f ↦ let g : leb v 6 ≡ true = ground (arith, f, k) in rw (f, g) refl
  | inr f ↦ elim (Bool-cases (leb t 6)) [
    | inl g ↦ absurd (by_size (rw (f, g) at e))
    | inr g ↦ let l : leb v 6 ≡ false = ground (arith, g, h) in rw (f, l) refl
  ]
]
  where
    by_size : files 10 ≡ files 11 → ⊥
    by_size e = let sizes : 10 ≡ 11 = ap (λ x. x.db_size) e in omega (arith, sizes)

abbrev on_db : String → ℕ → World
on_db stamp begins = record (world stamp 10 begins) {
  files = λ t. db.files t;
  content_digest = λ t. some (db.content t);
  backup_to = λ t dir naming. inl (record a_copy { content = db.content t });
}

on_db-IsHonest : (stamp : String) (begins : ℕ) → IsHonest db (on_db stamp begins)
on_db-IsHonest stamp begins = record {
  files = λ t. refl;
  digest = λ t. inr refl;
  copies = λ t dir naming c e. ap (λ x. x.content) (sym (inl-injective e));
}

on_db-IsUsable : (stamp : String) (begins : ℕ) → IsUsable (on_db stamp begins)
unfolding program
on_db-IsUsable stamp begins = record {
  enabled = refl;
  named = refl;
  valid = refl;
  copies = λ t. (_, refl);
}

abbrev parsed : String → Option ℕ
parsed s = if str_eq s "day 1" then some 0 else none

-- The state that a first turn leaves, which copied.
abbrev covered : State
covered = (scheduler_turn parsed 0 (on_db "day 1" 0) fresh).0

abbrev first_copy : Option (Copy × ℕ)
first_copy =
    copy_after db (on_db "day 1" 0) (scheduler_turn parsed 0 (on_db "day 1" 0) fresh).1 none

covered-Reached : Reached db covered first_copy 5
covered-Reached =
    turn parsed 0 (on_db "day 1" 0) (on_db-IsHonest "day 1" 0) (omega arith)
      (at_first {s = fresh} {now = 0} refl)

attempt_scheduled_backup-covers_example :
    Writes db (attempt_scheduled_backup (on_db "day 2" 7) covered).1 7 ⊎ IsCovered db first_copy 7
attempt_scheduled_backup-covers_example =
    attempt_scheduled_backup-covers db (on_db "day 2" 7) db-KeepsTime covered-Reached (omega arith)
      (on_db-IsHonest "day 2" 7) (on_db-IsUsable "day 2" 7)

first_copy-IsNew : (now : ℕ) → 7 ≤ now → IsNew db first_copy now
unfolding program copy_after
first_copy-IsNew now h c begun t at e from before over near same =
    let begins : 0 ≡ begun = ap (λ x. x.1) (some-injective _ (c, begun) e) in
    let at_copy : leb t 6 ≡ true = ground (arith, begins, before) in
    let after : leb at 6 ≡ false = ground (arith, h, over) in
    different "digest" "changed" refl (rw (at_copy, after) at same)

covered_stamp : (t : ℕ) → parsed covered.last_scheduled_at ≡ some t → t ≤ 1
unfolding program
covered_stamp t e = let zero_t : 0 ≡ t = some-injective 0 t e in omega (arith, zero_t)

two_turns_back_up_example :
    Writes db (scheduler_turn parsed 1 (on_db "day 1" 7) covered).1 7
    ⊎ Writes db
        (scheduler_turn parsed
          (1 + a_day)
          (on_db "day 2" 12)
          (scheduler_turn parsed 1 (on_db "day 1" 7) covered).0).1
        12
two_turns_back_up_example =
    two_turns_back_up db parsed 1 (1 + a_day) (on_db "day 1" 7) (on_db "day 2" 12) db-KeepsTime
      covered-Reached (omega arith) (omega arith) (on_db-IsHonest "day 1" 7)
      (on_db-IsHonest "day 2" 12) (on_db-IsUsable "day 1" 7) (on_db-IsUsable "day 2" 12)
      (first_copy-IsNew 7 (omega arith)) (first_copy-IsNew 12 (omega arith)) covered_stamp
      (omega arith)

test_named : str_eq (trim_space "/backups") "" ≡ false
unfolding program
test_named = refl

abbrev attempted : State
attempted = record fresh { last_scheduled_at = "day 1" }

abbrev late : String → Option ℕ
late s = some (10 * a_day)

-- The clock was set back by ten days.
scheduler_turn-once_a_day_example :
    (((scheduler_turn late 0 (world "day 2" 11 5) attempted).0.last_scheduled_at ≡ "day 2")
      ↔ (10 * a_day + a_day ≤ 0))
    × ((scheduler_turn late 0 (world "day 2" 11 5) attempted ≡ (attempted, none))
        ⊎ (10 * a_day + a_day ≤ 0))
scheduler_turn-once_a_day_example =
    scheduler_turn-once_a_day late (10 * a_day) 0 (world "day 2" 11 5) {s = attempted}
      (different "day 1" "" refl) refl no_call refl test_named (different "day 2" "day 1" refl)

-- The database holds "A" but for a write that is undone, during which the copy is made: the next attempt
-- takes the copy to hold "A".
abbrev undone : ℕ → World
undone begins = record (world "now" begins begins) {
  content_digest = λ t. if nat_eqb t 4 then some "B" else some "A";
  backup_to = λ t dir naming. inl (record a_copy { content = (if nat_eqb t 4 then "B" else "A") });
}

test_undone :
    ((attempt_scheduled_backup (undone 0) fresh).1 ≡ some (record a_copy { content = "B" }))
    × ((attempt_scheduled_backup (undone 5) (attempt_scheduled_backup (undone 0) fresh).0).1 ≡ none)
unfolding program
test_undone = (refl, refl)

handle_backup_run-saved_folder_example :
    let w = world "day 1" 10 0 in
    let saved = trim_space w.config.dir in
    let r = handle_backup_run (λ p. p) w " /backups" false fresh in
    (r.0.last_scheduled_at ≡ fresh.last_scheduled_at)
    × ((c : Copy)
        → r.1 ≡ wrote c
        → (saved ≢ "")
          × (trim_space " /backups" ≡ saved)
          × (validate_destination w saved ≡ none)
          × (w.backup_to (w.begins + 2) saved (naming_of false) ≡ inl c))
handle_backup_run-saved_folder_example =
    handle_backup_run-saved_folder (λ p. p) (world "day 1" 10 0) " /backups" false fresh
