-- ===== src/App/Refresh.antt =====
-- internal/app/refresh.go and modelupdate.go: one refresh at a time, and the record of the last one.
pub mod Flight
pub mod Schedule
use models_db.Prelude.{
  ℕ, suc, ◌+◌, ◌-◌, ◌*◌, String, ◌≡◌, refl, Bool, true, false, ◌||◌, Option, none, some, List, [],
  ◌∷◌, ◌++◌, leb, ltb, length, if◌then◌else◌,
}

-- modelUpdateRun's outcomes; `never` is the empty one of a record that no run has written.
pub data Outcome : Type 0 where
  never ok partial failed : Outcome

-- modelUpdateRun
pub record Run : Type 0 where
  pub seq : ℕ
  pub finished_at : String
  pub outcome : Outcome
  pub error : String
  pub failed_parts : List String
  pub scheduled : Bool

-- What a refresh reads of catalog.Report.
pub record Report : Type 0 where
  pub created : ℕ
  pub failed_parts : List String
  pub new_fields : List String
  pub vanished_fields : List String

abbrev pub no_report : Report
no_report = record { created = 0; failed_parts = []; new_fields = []; vanished_fields = [] }

pub data Phase : Type 0 where
  idle catalog : Phase

-- refreshState
pub record RefreshState : Type 0 where
  pub running : Bool
  pub phase : Phase
  pub started_at : ℕ
  pub finished_at : Option ℕ
  pub errors : List String
  pub warnings : List String
  pub added : ℕ
  pub scheduled : Bool

-- Where a run's goroutine stands, between two of its locked sections: the report and the error that
-- it carries, if it has them.
pub data Point : Type 0 where
  begun : Point
  fetching : Bool → Point
  reported errored warned_new finishing : Report → Option String → Point
  recorded : Point

-- The controller, the record of the last finished run, and the goroutines.
pub record Server : Type 0 where
  pub refresh : RefreshState
  pub last : Run
  pub runs : List Point

-- refreshState.start: whether it began one.
unfoldable pub start : Bool → ℕ → Server → Bool × Server
start scheduled now s = if s.refresh.running then (false, s) else (
  true,
  record s {
    refresh = record {
      running = true;
      phase = catalog;
      started_at = now;
      finished_at = none;
      errors = [];
      warnings = [];
      added = 0;
      scheduled = scheduled;
    };
    runs = begun ∷ s.runs;
  },
)

-- refreshState.addError and addWarning
abbrev pub add_error : String → RefreshState → RefreshState
add_error text r = record r { errors = r.errors ++ text ∷ [] }

abbrev pub add_warning : String → RefreshState → RefreshState
add_warning text r = record r { warnings = r.warnings ++ text ∷ [] }

-- recordModelUpdateRun. `stamp` is dbcore.NowStamp.
unfoldable pub record_model_update_run : Report → Option String → Bool → String → Run → Run
record_model_update_run report none scheduled stamp last = record {
  seq = last.seq + 1;
  finished_at = stamp;
  outcome = if leb (length report.failed_parts) 0 then ok else partial;
  error = "";
  failed_parts = report.failed_parts;
  scheduled = scheduled;
}
record_model_update_run report (some text) scheduled stamp last = record {
  seq = last.seq + 1;
  finished_at = stamp;
  outcome = failed;
  error = text;
  failed_parts = [];
  scheduled = scheduled;
}

-- What catalog.FetchModelsWith does: it returns, or panics.
pub data Fetched : Type 0 where
  returned : Report → Option String → Fetched
  panicked : String → Fetched

-- One locked section of refreshState.run, and of its deferred finalizer: the controller, the last run
-- and the point after it, or none where the goroutine ends. `fetched` is what the fetch does, `stamp`
-- and `now` the time. The wording of a warning is left out.
unfoldable pub advance :
    Fetched → String → ℕ → Point → RefreshState → Run → RefreshState × Run × Option Point
unfolding record_model_update_run
advance fetched stamp now begun r last =
    (record r { phase = catalog }, last, some (fetching r.scheduled))
advance (returned report e) stamp now (fetching paced) r last =
    (record r { added = report.created }, last, some (reported report e))
advance (panicked text) stamp now (fetching paced) r last =
    (add_error text r, last, some (finishing no_report (some text)))
advance fetched stamp now (reported report none) r last = (r, last, some (errored report none))
advance fetched stamp now (reported report (some text)) r last =
    (add_error text r, last, some (errored report (some text)))
advance fetched stamp now (errored report e) r last = (
  if leb (length report.new_fields) 0 then r else add_warning "the feed added fields" r,
  last,
  some (warned_new report e),
)
advance fetched stamp now (warned_new report e) r last = (
  if leb (length report.vanished_fields) 0 then r else add_warning "the feed dropped fields" r,
  last,
  some (finishing report e),
)
advance fetched stamp now (finishing report e) r last =
    (r, record_model_update_run report e r.scheduled stamp last, some recorded)
advance fetched stamp now recorded r last =
    (record r { running = false; phase = idle; finished_at = some now }, last, none)

-- modelUpdateInterval, in nanoseconds.
abbrev pub model_update_interval : ℕ
model_update_interval = 24 * 3600 * 1000000000

abbrev is_failed_or_never : Outcome → Bool
is_failed_or_never never = true
is_failed_or_never failed = true
is_failed_or_never ok = false
is_failed_or_never partial = false

-- modelUpdateDue. `parse_time` is time.Parse with RFC 3339, in nanoseconds, as `now` is.
unfoldable pub model_update_due : (String → Option ℕ) → Run → ℕ → Bool
model_update_due parse_time last now =
    if is_failed_or_never last.outcome then true else elim (parse_time last.finished_at) [
      | none ↦ true
      | some finished ↦
          if ltb now finished then true else leb model_update_interval (now - finished)
    ]
