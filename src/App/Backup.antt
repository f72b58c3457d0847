-- ===== src/App/Backup.antt =====
-- internal/app/backupschedule.go: the daily backup, its state, its gate and the "Back up now" request.
-- The file system, the digest of the database, BackupTo of internal/dbcore/backup.go and the clock are
-- what one call sees of them.
pub mod History
pub mod Due
pub mod Turns
pub mod Daily
use models_db.Prelude.{
  ℕ, ◌+◌, ◌*◌, String, Bool, true, false, not, ◌&&◌, ◌||◌, Option, none, some, List, [], ◌∷◌,
  nat_eqb, ltb, if◌then◌else◌, str_eq, ◌⊎◌, inl, inr,
}
use models_db.Prelude.Text.{trim_space, codes}
use models_db.Prelude.Runes.{has_suffix}

-- backupScheduleConfig
pub record Config : Type 0 where
  pub enabled : Bool
  pub dir : String
  pub overwrite : Bool

-- dbFingerprint
pub record Fingerprint : Type 0 where
  pub db_size : ℕ
  pub db_mtime : ℕ
  pub wal_size : ℕ
  pub wal_mtime : ℕ

unfoldable pub fingerprint_eqb : Fingerprint → Fingerprint → Bool
fingerprint_eqb a b =
    nat_eqb a.db_size b.db_size
    && nat_eqb a.db_mtime b.db_mtime
    && nat_eqb a.wal_size b.wal_size
    && nat_eqb a.wal_mtime b.wal_mtime

pub data Outcome : Type 0 where
  no_outcome backed_up unchanged invalid_destination failed : Outcome

-- backupScheduleState
pub record State : Type 0 where
  pub last_attempt_at : String
  pub last_scheduled_at : String
  pub last_backup_at : String
  pub have_fingerprint : Bool
  pub last_fingerprint : Fingerprint
  pub last_digest : String
  pub last_outcome : Outcome
  pub last_error : String
  pub last_path : String

pub data Naming : Type 0 where
  timestamped overwriting : Naming

-- What os.Stat and the file written as a test answer of the destination.
pub data Folder : Type 0 where
  absent not_a_folder not_writable : String → Folder
  writable : Folder

-- The file that BackupTo wrote: its path, and what it holds, which the program never looks at.
pub record Copy : Type 0 where
  pub path : String
  pub content : String

-- What one call sees. Its readings of the database and its copy are made one after another, each at a
-- moment of its own, the first at `begins`, and the database may change between any two moments.
pub record World : Type 0 where
  pub config : Config
  pub stamp : String
  pub folder : String → Folder
  pub begins : ℕ
  -- currentDBFingerprint
  pub files : ℕ → Fingerprint
  -- ContentDigest, none for its error
  pub content_digest : ℕ → Option String
  -- BackupTo, or its error
  pub backup_to : ℕ → String → Naming → Copy ⊎ String
  pub finished : String

-- recordScheduledAttempt
unfoldable pub record_scheduled_attempt : String → State → State
record_scheduled_attempt now s = record s { last_scheduled_at = now; last_attempt_at = now }

-- recordBackupOutcome
unfoldable pub record_backup_outcome : Outcome → String → State → State
record_backup_outcome outcome message s = record s { last_outcome = outcome; last_error = message }

-- backupUnchangedSinceLast
unfoldable pub backup_unchanged : Fingerprint → State → Bool
unfolding fingerprint_eqb
backup_unchanged fp s = s.have_fingerprint && fingerprint_eqb s.last_fingerprint fp

-- backupContentUnchangedSinceLast
unfoldable pub content_unchanged : String → State → Bool
content_unchanged digest s =
    if str_eq digest "" then false else s.have_fingerprint && str_eq s.last_digest digest

-- noteFingerprintOfUnchangedContent
unfoldable pub note_fingerprint : Fingerprint → State → State
note_fingerprint fp s = if s.have_fingerprint then record s { last_fingerprint = fp } else s

-- validateBackupDestination
unfoldable pub validate_destination : World → String → Option String
unfolding trim_space
validate_destination w dir =
    if str_eq (trim_space dir) ""
    then some "no destination folder is configured"
    else elim (w.folder (trim_space dir)) [
      | absent e ↦ some e
      | not_a_folder e ↦ some e
      | not_writable e ↦ some e
      | writable ↦ none
    ]

-- The locked section of performBackup, with the digest and the fingerprint that it read before, and
-- what BackupTo answered.
unfoldable pub record_copy : World → String → Fingerprint → Copy ⊎ String → State → State
record_copy w digest fingerprint (inl c) s = record s {
  last_attempt_at = w.finished;
  last_outcome = backed_up;
  last_error = "";
  last_backup_at = w.finished;
  last_fingerprint = fingerprint;
  have_fingerprint = true;
  last_digest = digest;
  last_path = c.path;
}
record_copy w digest fingerprint (inr e) s = record s {
  last_attempt_at = w.finished;
  last_outcome = failed;
  last_error = e;
}

-- The digest that performBackup records: "" where there is none.
unfoldable pub digest_or_empty : Option String → String
digest_or_empty none = ""
digest_or_empty (some d) = d

-- performBackup from a moment on, in its order: the digest, the fingerprint, the copy. The new state,
-- and the copy or the error.
unfoldable pub perform_backup : World → ℕ → String → Naming → State → State × (Copy ⊎ String)
unfolding record_copy digest_or_empty
perform_backup w now dir naming s =
    let digest = digest_or_empty (w.content_digest now) in
    let fingerprint = w.files (now + 1) in
    let result = w.backup_to (now + 2) dir naming in
    (record_copy w digest fingerprint result s, result)

-- Whether the digest read, if one was, is that of the last copy.
unfoldable pub digest_covered : Option String → State → Bool
unfolding content_unchanged
digest_covered none s = false
digest_covered (some d) s = content_unchanged d s

unfoldable pub naming_of : Bool → Naming
naming_of overwrite = if overwrite then overwriting else timestamped

unfoldable pub written : Copy ⊎ String → Option Copy
written (inl c) = some c
written (inr e) = none

-- attemptScheduledBackup: the new state, and the file that it wrote. The fingerprint is read at the
-- first moment, the digest at the next, and performBackup begins after them.
unfoldable pub attempt_scheduled_backup : World → State → State × Option Copy
unfolding record_scheduled_attempt validate_destination record_backup_outcome backup_unchanged
    digest_covered note_fingerprint perform_backup naming_of written trim_space
attempt_scheduled_backup w s =
    let attempted = record_scheduled_attempt w.stamp s in
    let fp = w.files w.begins in
    let digest = w.content_digest (w.begins + 1) in
    let (done, result) =
      perform_backup w (w.begins + 2) w.config.dir (naming_of w.config.overwrite) attempted in
    if not w.config.enabled || str_eq (trim_space w.config.dir) ""
    then (s, none)
    else elim (validate_destination w w.config.dir) [
      | some e ↦ (record_backup_outcome invalid_destination e attempted, none)
      | none ↦
          if backup_unchanged fp attempted
          then (record_backup_outcome unchanged "" attempted, none)
          else if digest_covered digest attempted
          then (record_backup_outcome unchanged "" (note_fingerprint fp attempted), none)
          else (done, written result)
    ]

abbrev pub interval : ℕ
interval = 24 * 60 * 60 * 1000000000

-- recentlyAttemptedBackup. `parse_time` is time.Parse with RFC 3339, in nanoseconds, as `now` is.
unfoldable pub recently_attempted : (String → Option ℕ) → ℕ → State → Bool
recently_attempted parse_time now s =
    if str_eq s.last_scheduled_at ""
    then false
    else elim (parse_time s.last_scheduled_at) [ none ↦ false | some t ↦ ltb now (t + interval) ]

-- One turn of the loop of startBackupScheduler.
unfoldable pub scheduler_turn : (String → Option ℕ) → ℕ → World → State → State × Option Copy
unfolding recently_attempted attempt_scheduled_backup
scheduler_turn parse_time now w s =
    if recently_attempted parse_time now s then (s, none) else attempt_scheduled_backup w s

pub data RunReply : Type 0 where
  other_folder : RunReply
  refused : String → RunReply
  wrote : Copy → RunReply

-- handleBackupRun, of a request that could be decoded; `clean` is filepath.Clean.
unfoldable pub handle_backup_run :
    (String → String) → World → String → Bool → State → State × RunReply
unfolding trim_space validate_destination perform_backup naming_of
handle_backup_run clean w dir overwrite s =
    let saved = trim_space w.config.dir in
    let (done, result) = perform_backup w w.begins saved (naming_of overwrite) s in
    if str_eq saved "" || not (str_eq (clean (trim_space dir)) (clean saved))
    then (s, other_folder)
    else elim (validate_destination w saved) [
      | some e ↦ (s, refused e)
      | none ↦ (done, elim result [ inl c ↦ wrote c | inr e ↦ refused e ])
    ]

-- What os.ReadDir and DirEntry.Info answer of an entry of the folder.
pub record Entry : Type 0 where
  pub name : String
  pub is_dir : Bool
  pub info : Option (ℕ × ℕ)

pub record BackupFile : Type 0 where
  pub name : String
  pub size : ℕ
  pub modified : ℕ

pub data Listing : Type 0 where
  no_folder missing empty : Listing
  listed : List BackupFile → Listing

-- The .db files of the folder, of which os.Stat answers.
unfoldable pub db_files : List Entry → List BackupFile
unfolding has_suffix codes
db_files [] = []
db_files (e ∷ es) =
    let rest = db_files es in
    if e.is_dir || not (has_suffix (codes ".db") (codes e.name)) then rest else elim e.info [
      | none ↦ rest
      | some i ↦ record { name = e.name; size = i.0; modified = i.1 } ∷ rest
    ]

-- sort.Slice, the newest first.
unfoldable pub insert_newest : BackupFile → List BackupFile → List BackupFile
insert_newest f [] = f ∷ []
insert_newest f (g ∷ gs) =
    let rest = insert_newest f gs in if ltb g.modified f.modified then f ∷ g ∷ gs else g ∷ rest

unfoldable pub newest_first : List BackupFile → List BackupFile
unfolding insert_newest
newest_first [] = []
newest_first (f ∷ fs) = insert_newest f (newest_first fs)

-- listConfiguredBackups, with what os.ReadDir answers of a folder, if it is one and can be read.
unfoldable pub list_configured_backups : (String → Option (List Entry)) → String → Listing
unfolding trim_space db_files newest_first
list_configured_backups read_dir dir =
    if str_eq (trim_space dir) "" then no_folder else elim (read_dir (trim_space dir)) [
      | none ↦ missing
      | some entries ↦ elim (newest_first (db_files entries)) [
        | [] ↦ empty
        | (f ∷ fs) ↦ listed (f ∷ fs)
      ]
    ]
