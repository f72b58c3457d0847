-- ===== src/App/Refresh/Schedule.antt =====
-- internal/app/modelupdate.go, modelUpdateDue: when the scheduler starts the next run.
use models_db.Prelude.{
  ℕ, ◌+◌, ◌≤◌, ◌<◌, String, ◌≡◌, ◌↔◌, ◌⊎◌, inl, refl, Bool, true, Option, none, some, arith,
}
use models_db.App.Refresh.{
  Run, Report, record_model_update_run, model_update_due, model_update_interval,
}

-- After a run that has just been recorded, another is due at once if the fetch failed, and otherwise,
-- with passes that failed or without, exactly from a day after its finish on, or where the clock shows
-- a time before it.
pub model_update_due-record_model_update_run :
    (parse_time : String → Option ℕ) (report : Report) (e : Option String) (scheduled : Bool)
    (stamp : String) (last : Run) (finished now : ℕ)
    → parse_time stamp ≡ some finished
    → let run = record_model_update_run report e scheduled stamp last in
      (model_update_due parse_time run now ≡ true) ↔ (
        ((text : String) × (e ≡ some text))
        ⊎ (finished + model_update_interval ≤ now)
        ⊎ (now < finished))
unfolding record_model_update_run model_update_due
model_update_due-record_model_update_run parse_time report none scheduled stamp last finished now
      h =
    (λ d. ground arith, λ d. ground arith)
model_update_due-record_model_update_run parse_time report (some text) scheduled stamp last finished
      now h =
    (λ d. inl (text, refl), λ d. ground arith)
