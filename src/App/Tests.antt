-- ===== src/App/Tests.antt =====
-- Runs of internal/app/refresh.go and modelupdate.go at concrete inputs.
use models_db.Prelude.{
  ℕ, ◌+◌, ◌≤◌, ◌<◌, String, ◌≡◌, ◌↔◌, ◌⊎◌, refl, true, false, Option, none, some, [], length,
  if◌then◌else◌, str_eq,
}
use models_db.App.Refresh.{
  never, Run, no_report, idle, Server, start, record_model_update_run, advance, model_update_due,
  model_update_interval,
}
use models_db.App.Refresh.Flight.{here, step, asked, refreshes_run_one_at_a_time}
use models_db.App.Refresh.Schedule.{model_update_due-record_model_update_run}

program : Unit {0}
unfolding start advance record_model_update_run
program = tt

abbrev no_run : Run
no_run = record {
  seq = 4;
  finished_at = "";
  outcome = never;
  error = "";
  failed_parts = [];
  scheduled = false;
}

abbrev quiet : Server
quiet = record {
  refresh = record {
    running = false;
    phase = idle;
    started_at = 0;
    finished_at = none;
    errors = [];
    warnings = [];
    added = 0;
    scheduled = false;
  };
  last = no_run;
  runs = [];
}

-- One request begins a refresh; the next, while it runs, does not.
abbrev busy : Server
busy = (start true 10 quiet).1

test_second_refused : start false 11 busy ≡ (false, busy)
unfolding program
test_second_refused = refl

refreshes_run_one_at_a_time_example :
    (length busy.runs ≤ 1)
    × ((busy.refresh.running ≡ true) ↔ (length busy.runs ≡ 1))
    × (busy.refresh.running ≡ false → busy.last.seq ≡ 5)
unfolding program
refreshes_run_one_at_a_time_example =
    refreshes_run_one_at_a_time quiet busy 5 refl refl
      (step (step here (asked true 10 4 quiet)) (asked false 11 5 busy))

abbrev noon : String → Option ℕ
noon stamp = if str_eq stamp "noon" then some 43200 else none

model_update_due-record_model_update_run_example :
    let run = record_model_update_run no_report none true "noon" no_run in
    (model_update_due noon run 50000 ≡ true) ↔ (
      ((text : String) × (none ≡ some text))
      ⊎ (43200 + model_update_interval ≤ 50000)
      ⊎ (50000 < 43200))
model_update_due-record_model_update_run_example =
    model_update_due-record_model_update_run noon no_report none true "noon" no_run 43200 50000 refl
