-- ===== src/App/Backup/History.antt =====
-- Sequences of scheduled attempts and of "Back up now" requests, with the last copy and what the
-- database held while it was made.
use models_db.Prelude.{
  ℕ, suc, ◌+◌, ◌≤◌, String, ◌≡◌, ◌≢◌, ◌⊎◌, ◌↔◌, inl, inr, refl, sym, ◌∙◌, subst, Bool, true, false,
  ◌&&◌, Option, none, some, arith, if◌then◌else◌, str_eq, eq_iff,
}
use mathlib.Core.Bool.{false≢true}
use models_db.App.Backup.{
  Fingerprint, fingerprint_eqb, Outcome, unchanged, invalid_destination, World, Copy, Naming,
  digest_or_empty, State, record_scheduled_attempt, record_backup_outcome, content_unchanged,
  note_fingerprint, validate_destination, perform_backup, record_copy, digest_covered, written,
  attempt_scheduled_backup, scheduler_turn, handle_backup_run, RunReply, other_folder, refused,
  wrote,
}

pub fingerprint_eqb_iff : (a b : Fingerprint) → (fingerprint_eqb a b ≡ true) ↔ (a ≡ b)
unfolding fingerprint_eqb
fingerprint_eqb_iff a b = ground arith

-- The file that a request wrote.
abbrev pub file_of : RunReply → Option Copy
file_of other_folder = none
file_of (refused e) = none
file_of (wrote c) = some c

-- The database over time: what it holds at a moment, as ContentDigest tells it apart, which is all but
-- the reader's stored view, and the fingerprint of its files.
pub record Database : Type 0 where
  pub content : ℕ → String
  pub files : ℕ → Fingerprint

-- Between two moments at which the files have one size and one time the database was not written.
abbrev pub KeepsTime : Database → Type 0
KeepsTime db = (t v u : ℕ) → t ≤ v → v ≤ u → db.files t ≡ db.files u → db.content v ≡ db.content u

module _ (db : Database) where
  -- A call sees this database: its fingerprints, its digests where they have no error, and a copy
  -- holds what the database held at the moment of the copy.
  pub record IsHonest (w : World) : Type 0 where
    pub files : (t : ℕ) → w.files t ≡ db.files t
    pub digest : (t : ℕ) → (w.content_digest t ≡ none) ⊎ (w.content_digest t ≡ some (db.content t))
    pub copies :
        (t : ℕ) (dir : String) (naming : Naming) (c : Copy)
        → w.backup_to t dir naming ≡ inl c
        → c.content ≡ db.content t

  -- A call writes its copy before the fifth moment after its first.
  abbrev pub ends : ℕ → ℕ
  ends begun = begun + 4

  -- The last copy, with the first moment of the call that wrote it.
  unfoldable pub copy_after : World → Option Copy → Option (Copy × ℕ) → Option (Copy × ℕ)
  copy_after w (some c) last = some (c, w.begins)
  copy_after w none last = last

  -- `Reached s last now`: calls one after another, over before `now`, lead to the state, and `last` is
  -- the last copy that they wrote.
  pub data Reached : State → Option (Copy × ℕ) → ℕ → Type 0 where
    at_first : {s : State} {now : ℕ} → s.have_fingerprint ≡ false → Reached s none now
    turn :
        {s : State} {last : Option (Copy × ℕ)} {now : ℕ} (parse_time : String → Option ℕ)
        (clock : ℕ) (w : World)
        → IsHonest w
        → now ≤ w.begins
        → Reached s last now
        → Reached
            (scheduler_turn parse_time clock w s).0
            (copy_after w (scheduler_turn parse_time clock w s).1 last)
            (suc (ends w.begins))
    run_now :
        {s : State} {last : Option (Copy × ℕ)} {now : ℕ} (clean : String → String) (w : World)
        (dir : String) (overwrite : Bool)
        → IsHonest w
        → now ≤ w.begins
        → Reached s last now
        → Reached
            (handle_backup_run clean w dir overwrite s).0
            (copy_after w (file_of (handle_backup_run clean w dir overwrite s).1) last)
            (suc (ends w.begins))

  -- The call that wrote the copy began at `begun`, and at one of its moments, no later than the copy, the
  -- database held `x`.
  pub record Read (c : Copy) (begun : ℕ) (x : String) : Type 0 where
    pub at : ℕ
    pub copied : ℕ
    pub first : begun ≤ at
    pub order : at ≤ copied
    pub over : copied ≤ ends begun
    pub held : db.content at ≡ x
    pub copy : c.content ≡ db.content copied

  -- What the state says of the last copy: the fingerprint is that of a moment since which, until a later one,
  -- nothing but what the call of the copy had read before it was there, and so is the digest.
  pub data Describes : State → Option (Copy × ℕ) → ℕ → Type 0 where
    no_copy :
        {s : State} {last : Option (Copy × ℕ)} {now : ℕ}
        → s.have_fingerprint ≡ false
        → Describes s last now
    copy :
        {s : State} {last : Option (Copy × ℕ)} {now : ℕ} (c : Copy) (begun : ℕ) (t v : ℕ)
        → last ≡ some (c, begun)
        → t ≤ v
        → v ≤ now
        → db.files t ≡ s.last_fingerprint
        → Read c begun (db.content v)
        → (s.last_digest ≡ "") ⊎ Read c begun s.last_digest
        → Describes s last now

  pub later-Describes :
      {s : State} {last : Option (Copy × ℕ)} {now later : ℕ}
      → now ≤ later
      → Describes s last now
      → Describes s last later
  later-Describes h (no_copy n) = no_copy n
  later-Describes h (copy c begun t v is_last o over at_files read known) =
      copy c begun t v is_last o (omega (arith, h, over)) at_files read known

  -- performBackup from a moment of the call on.
  pub perform_backup-Describes :
      (w : World) (now : ℕ) (dir : String) (naming : Naming) (s : State) (last : Option (Copy × ℕ))
      → IsHonest w
      → w.begins ≤ now
      → now + 2 ≤ ends w.begins
      → Describes s last w.begins
      → Describes
          (perform_backup w now dir naming s).0
          (copy_after w (written (perform_backup w now dir naming s).1) last)
          (suc (ends w.begins))
  unfolding perform_backup digest_or_empty record_copy written copy_after
  perform_backup-Describes w now dir naming s last honest begun over d =
      by_result (w.backup_to (now + 2) dir naming) refl d
    where
      read_at :
          (c : Copy) (t : ℕ)
          → w.backup_to (now + 2) dir naming ≡ inl c
          → now ≤ t
          → t ≤ now + 2
          → Read c w.begins (db.content t)
      read_at c t e first order = record {
        at = t;
        copied = now + 2;
        first = omega (arith, begun, first);
        order = order;
        over = over;
        held = refl;
        copy = honest.copies (now + 2) dir naming c e;
      }

      digest_read :
          (c : Copy)
          → w.backup_to (now + 2) dir naming ≡ inl c
          → (digest_or_empty (w.content_digest now) ≡ "")
            ⊎ Read c w.begins (digest_or_empty (w.content_digest now))
      digest_read c e = elim (honest.digest now) [
        | inl f ↦ inl (rw f refl)
        | inr f ↦ inr (rw f (read_at c now e (omega arith) (omega arith)))
      ]

      by_result :
          (result : Copy ⊎ String)
          → w.backup_to (now + 2) dir naming ≡ result
          → Describes s last w.begins
          → Describes
              (record_copy w (digest_or_empty (w.content_digest now)) (w.files (now + 1)) result s)
              (copy_after w (written result) last)
              (suc (ends w.begins))
      by_result (inl c) e d =
          copy c w.begins (now + 1) (now + 1) refl (omega arith) (omega (arith, over))
            (sym (honest.files (now + 1))) (read_at c (now + 1) e (omega arith) (omega arith))
            (digest_read c e)
      by_result (inr x) e (no_copy n) = no_copy n
      by_result (inr x) e (copy c b t v is_last o past at_files read known) =
          copy c b t v is_last o (omega (arith, past)) at_files read known

  -- A digest that covers the content is that of the last copy, and is not empty.
  pub digest_covered-content :
      (w : World) (t : ℕ) (s : State)
      → IsHonest w
      → digest_covered (w.content_digest t) s ≡ true
      → (s.have_fingerprint ≡ true) × (s.last_digest ≡ db.content t) × (s.last_digest ≢ "")
  unfolding digest_covered content_unchanged
  digest_covered-content w t s honest covered = elim (honest.digest t) [
    | inl e ↦ absurd (false≢true (rw e at covered))
    | inr e ↦ by_digest (db.content t) (rw e at covered)
  ]
    where
      by_digest :
          (d : String)
          → (if str_eq d "" then false else s.have_fingerprint && str_eq s.last_digest d) ≡ true
          → (s.have_fingerprint ≡ true) × (s.last_digest ≡ d) × (s.last_digest ≢ "")
      by_digest d h =
          let held : s.have_fingerprint ≡ true = ground (arith, h) in
          let same : s.last_digest ≡ d = (eq_iff s.last_digest d).0 (ground (arith, h)) in
          (held, same, λ none_left. absurd (false≢true (by_empty d h (sym same ∙ none_left))))
        where
          by_empty :
              (d : String)
              → (if str_eq d "" then false else s.have_fingerprint && str_eq s.last_digest d) ≡ true
              → d ≡ ""
              → false ≡ true
          by_empty d h e = rw ((eq_iff d "").1 e) at h

  note_fingerprint-Describes :
      (w : World) (s : State) (last : Option (Copy × ℕ))
      → IsHonest w
      → digest_covered (w.content_digest (w.begins + 1)) s ≡ true
      → Describes s last w.begins
      → Describes (note_fingerprint (w.files w.begins) s) last (suc (ends w.begins))
  unfolding note_fingerprint
  note_fingerprint-Describes w s last honest covered d =
      let (held, same, some_digest) = digest_covered-content w (w.begins + 1) s honest covered in
      subst
        (λ b.
          Describes (if b then record s { last_fingerprint = w.files w.begins } else s) last
            (suc (ends w.begins)))
        (sym held) (noted same some_digest d held)
    where
      noted :
          s.last_digest ≡ db.content (w.begins + 1)
          → s.last_digest ≢ ""
          → Describes s last w.begins
          → s.have_fingerprint ≡ true
          → Describes (record s { last_fingerprint = w.files w.begins }) last (suc (ends w.begins))
      noted same some_digest (no_copy n) held = absurd (false≢true (sym n ∙ held))
      noted same some_digest (copy c b t v is_last o past at_files read (inl empty)) held =
          absurd (some_digest empty)
      noted same some_digest (copy c b t v is_last o past at_files read (inr known)) held =
          copy c b w.begins (w.begins + 1) is_last (omega arith) (omega arith)
            (sym (honest.files w.begins)) (subst (Read c b) same known) (inr known)

  outcome-Describes :
      (o : Outcome) (message : String) {s : State} {last : Option (Copy × ℕ)} {now : ℕ}
      → Describes s last now
      → Describes (record_backup_outcome o message s) last now
  unfolding record_backup_outcome
  outcome-Describes o message (no_copy n) = no_copy n
  outcome-Describes o message (copy c b t v is_last i past at_files read known) =
      copy c b t v is_last i past at_files read known

  pub attempt-Describes :
      (stamp : String) {s : State} {last : Option (Copy × ℕ)} {now : ℕ}
      → Describes s last now
      → Describes (record_scheduled_attempt stamp s) last now
  unfolding record_scheduled_attempt
  attempt-Describes stamp (no_copy n) = no_copy n
  attempt-Describes stamp (copy c b t v is_last i past at_files read known) =
      copy c b t v is_last i past at_files read known

  module _ (w : World) (last : Option (Copy × ℕ)) where
    -- A call ends with a state that describes the last copy.
    abbrev pub IsGood : State × Option Copy → Type 0
    IsGood r = Describes r.0 (copy_after w r.1 last) (suc (ends w.begins))

    if-IsGood :
        (b : Bool) (x y : State × Option Copy)
        → (b ≡ true → IsGood x)
        → IsGood y
        → IsGood (if b then x else y)
    if-IsGood true x y m n = m refl
    if-IsGood false x y m n = n

    pub attempt_scheduled_backup-IsGood :
        (s : State) → IsHonest w → Describes s last w.begins → IsGood (attempt_scheduled_backup w s)
    unfolding attempt_scheduled_backup copy_after
    attempt_scheduled_backup-IsGood s honest d =
        let attempted : Describes (record_scheduled_attempt w.stamp s) last w.begins =
          attempt-Describes w.stamp d in
        let after = later-Describes {later = suc (ends w.begins)} (omega arith) attempted in
        if-IsGood _ (s, none) _ (λ _. later-Describes (omega arith) d)
          (by_folder (validate_destination w w.config.dir) _ after (
            if-IsGood _
              (record_backup_outcome unchanged "" (record_scheduled_attempt w.stamp s), none) _
              (λ _. outcome-Describes unchanged "" after)
              (if-IsGood
                (digest_covered (w.content_digest (w.begins + 1))
                  (record_scheduled_attempt w.stamp s))
                (_, none) _
                (λ covered.
                  outcome-Describes unchanged ""
                    (note_fingerprint-Describes w _ last honest covered attempted))
                (perform_backup-Describes w (w.begins + 2) _ _ _ last honest (omega arith)
                  (omega arith) attempted))))
      where
        by_folder :
            (problem : Option String) (rest : State × Option Copy)
            → Describes (record_scheduled_attempt w.stamp s) last (suc (ends w.begins))
            → IsGood rest
            → IsGood (elim problem [
              | some e ↦ (
                record_backup_outcome invalid_destination e (record_scheduled_attempt w.stamp s),
                none,
              )
              | none ↦ rest
            ])
        by_folder none rest d good = good
        by_folder (some e) rest d good = outcome-Describes invalid_destination e d
