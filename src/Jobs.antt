-- ===== src/Jobs.antt =====
-- core/jobs.py, workers/jobs.py, and `_run_job` and `execute_task` of core/workflow_service.py: a
-- job is recorded once for its key, runs here or on a worker, and is claimed before it runs there.
-- What a job does, what hands it to a queue and the text of an exception are parameters.
pub mod Delivery
pub mod Replay
use film_compliance_agent.Base.{
  String, Bool, true, false, Option, none, some, List, [], ◌∷◌, ◌+++◌, ◌==◌, ◌&&◌, not, contains,
  if◌then◌else◌,
}
use film_compliance_agent.Schemas.Enums.Process.{
  TaskStatus, task_status_eq, task_status_value, TaskType, task_type_eq, task_type_value, Actor,
}
use film_compliance_agent.Schemas.Json.{Detail, end, entry, str, opt_str}
use film_compliance_agent.Schemas.Common.{Time}
use film_compliance_agent.Schemas.Workflow.{WorkflowTask}
use film_compliance_agent.Errors.{Error, Result, ok, err}
use film_compliance_agent.Store.{
  Stores, save_task, get_task, get_or_create_by_idempotency_key, claim_queued_task,
}
use film_compliance_agent.Effects.{
  Env, M, continue, ◌>>=◌, ◌>>◌, pure, raise_if, gets, modify, now, new_id,
}
use film_compliance_agent.Workflow.Core.{validation_failed, record_event}

unfoldable pub idempotency_key : String → TaskType → String → String
idempotency_key project_id task_type asset_version =
    project_id +++ (":" +++ (task_type_value task_type +++ (":" +++ asset_version)))

pub record JobOutcome : Type 0 where
  pub result : Option Detail
  pub error : Option String
  pub status : TaskStatus

pub record JobRunner : Type 0 where
  pub synchronous_results : Bool
  pub run : WorkflowTask → M JobOutcome → M (WorkflowTask × Option JobOutcome)

-- a task with an outcome recorded on it
abbrev pub with_outcome : WorkflowTask → JobOutcome → WorkflowTask
with_outcome task outcome = record task {
  status = outcome.status;
  result = outcome.result;
  error = outcome.error;
}

abbrev pub failed_with : WorkflowTask → String → WorkflowTask
failed_with task reason = record task { status = TaskStatus.failed; error = some reason }

abbrev pub unhandled : WorkflowTask → WorkflowTask
unhandled task = failed_with task ("no handler for " +++ task_type_value task.type)

-- `try: m()`: the result as a value
abbrev pub attempt {ℓ} : {A : Type ℓ} → M A → M (Result A)
attempt m env w = let (r, w') = m env w in (ok r, w')

-- `self._stores.tasks.get(task.task_id) or task`
unfoldable pub stored_or : WorkflowTask → M WorkflowTask
stored_or task =
    gets (λ w. elim (get_task task.task_id w.tasks) [ some stored ↦ stored | none ↦ task ])

abbrev pub store_task : WorkflowTask → M (Unit {0})
store_task task = modify (λ w. record w { tasks = save_task task w.tasks })

-- `InlineRunner`; `str_of` is the text of an exception
unfoldable pub inline_runner : (Error → String) → JobRunner
inline_runner str_of = record {
  synchronous_results = true;
  run = λ task work. do
    r ← attempt work
    pure (elim r [
      | ok outcome ↦
          (with_outcome (record task { status = TaskStatus.running }) outcome, some outcome)
      | err failure ↦
          (failed_with (record task { status = TaskStatus.running }) (str_of failure), none)
    ]);
}

-- `QueuedRunner`; `publish` hands the task to the queue
unfoldable pub queued_runner : (WorkflowTask → M (Unit {0})) → JobRunner
queued_runner publish = record {
  synchronous_results = false;
  run = λ task work. do
    publish task
    pure (record task { status = TaskStatus.queued }, none);
}

abbrev pub task_facts : WorkflowTask → Detail → Detail
task_facts task more = entry "task_id" (str task.task_id) (
    entry "type" (str (task_type_value task.type))
      (entry "status" (str (task_status_value task.status)) more))

abbrev pub task_error : WorkflowTask → Detail
task_error task = entry "error" (opt_str task.error) end

abbrev pub note_task : String → WorkflowTask → String → Detail → M (Unit {0})
note_task project_id task event more = do
  e ← record_event project_id Actor.system event (task_facts task more)
  pure tt

-- the job that is recorded if its key has none
abbrev pub candidate_task : String → TaskType → String → Detail → String → Time → WorkflowTask
candidate_task project_id task_type key payload task_id at = record {
  task_id = task_id;
  project_id = project_id;
  type = task_type;
  status = TaskStatus.queued;
  idempotency_key = key;
  payload = payload;
  result = none;
  error = none;
  retries = 0;
  created_at = some at;
  updated_at = some at;
}

abbrev pub get_or_create : WorkflowTask → M (WorkflowTask × Bool)
get_or_create candidate env w =
    let (tasks, task, created) = get_or_create_by_idempotency_key candidate w.tasks in
    (ok (task, created), record w { tasks = tasks })

abbrev pub JobRun : Type 0
JobRun = WorkflowTask × Option JobOutcome × Bool

module _ (runner : JobRunner) (project_id : String) (work : M JobOutcome) where
  -- a queued task goes to the queue
  abbrev pub dispatch : WorkflowTask → M WorkflowTask
  dispatch task = do
    note_task project_id task "job.dispatch_attempted" end
    sent ← runner.run task work
    stored_or task

  -- a key that had a task already
  unfoldable pub replay_job : WorkflowTask → M JobRun
  replay_job task =
      if not runner.synchronous_results && task.status == TaskStatus.queued
      then (do current ← dispatch task; pure (current, none, true))
      else pure (task, none, true)

  -- a task just recorded
  unfoldable pub first_job : WorkflowTask → M JobRun
  first_job task =
      if not runner.synchronous_results
      then (do
        note_task project_id task "job.recorded" (task_error task)
        current ← dispatch task
        pure (current, none, false))
      else (do
        (done, outcome) ← runner.run task work
        at ← now
        let stamped : WorkflowTask = record done { updated_at = some at }
        store_task stamped
        note_task project_id stamped "job.recorded" (task_error stamped)
        pure (stamped, outcome, false))

  -- `_run_job`: the task, the outcome if the job ran here, and whether the call was a replay
  unfoldable pub run_job : TaskType → String → Detail → M JobRun
  run_job task_type asset_version payload = do
    at ← now
    task_id ← new_id "task"
    (task, created) ← get_or_create (
        candidate_task project_id task_type (idempotency_key project_id task_type asset_version)
          payload task_id at)
    if created then first_job task else replay_job task

-- `TERMINAL` and `HANDLED`
abbrev pub terminal_statuses : List TaskStatus
terminal_statuses = TaskStatus.succeeded ∷ TaskStatus.failed ∷ TaskStatus.needs_human ∷ []

abbrev pub handled_types : List TaskType
handled_types = TaskType.fact_extract ∷ TaskType.review_full ∷ TaskType.review_incremental ∷ []

abbrev pub claim : String → Time → M (Option WorkflowTask)
claim task_id at env w =
    let (tasks, claimed) = claim_queued_task task_id at w.tasks in
    (ok claimed, record w { tasks = tasks })

pub record HandledJob : Type 0 where
  pub task : WorkflowTask
  pub ran : Bool
  pub reason : Option String

-- the outcome with what the work found and the flags it left to a person
abbrev pub flagged_outcome : Detail → List String → JobOutcome
flagged_outcome found [] = record {
  result = some found;
  error = none;
  status = TaskStatus.succeeded;
}
flagged_outcome found (flag ∷ _) = record {
  result = some found;
  error = some flag;
  status = TaskStatus.needs_human;
}

-- the record of an outcome on the claimed task
unfoldable pub record_outcome : WorkflowTask → WorkflowTask → JobOutcome → M (WorkflowTask × Bool)
record_outcome task running outcome = do
  at ← now
  let finished : WorkflowTask = record (with_outcome running outcome) { updated_at = some at }
  store_task finished
  note_task task.project_id finished "job.completed" (task_error finished)
  pure (finished, true)

-- `extract` and `review` are `_extract_now` and `_review_now`, with the fields of the result that a
-- task records and the pending flags.
module _ (extract review : WorkflowTask → M (Detail × List String)) (str_of : Error → String) where
  -- `_extract_outcome` and `_review_outcome`
  unfoldable pub extract_outcome : WorkflowTask → M JobOutcome
  extract_outcome task = do (found, flags) ← extract task; pure (flagged_outcome found flags)

  unfoldable pub review_outcome : WorkflowTask → M JobOutcome
  review_outcome task = do (found, flags) ← review task; pure (flagged_outcome found flags)

  abbrev pub work_for : WorkflowTask → M JobOutcome
  work_for task =
      if task.type == TaskType.fact_extract then extract_outcome task else review_outcome task

  -- a claimed task: its work, and the outcome recorded on it
  unfoldable pub execute_claimed : WorkflowTask → WorkflowTask → M (WorkflowTask × Bool)
  execute_claimed task running = do outcome ← work_for running; record_outcome task running outcome

  unfoldable pub execute_task : WorkflowTask → M (WorkflowTask × Bool)
  execute_task task = do
    raise_if (not (contains handled_types task.type)) (
        validation_failed ("no worker handles " +++ task_type_value task.type)
          (entry "type" (str (task_type_value task.type)) end))
    at ← now
    claimed ← claim task.task_id at
    elim claimed [
      | none ↦ do current ← stored_or task; pure (current, false)
      | some running ↦ execute_claimed task running
    ]

  -- what the worker makes of an execution
  abbrev pub handled : WorkflowTask → Result (WorkflowTask × Bool) → M HandledJob
  handled current (err failure) = do
    store_task (failed_with current (str_of failure))
    pure
        (record { task = failed_with current (str_of failure); ran = true; reason = some "failed" })
  handled current (ok (finished, true)) =
      pure (record { task = finished; ran = true; reason = none })
  handled current (ok (finished, false)) = pure (record {
    task = finished;
    ran = false;
    reason = some (
        if contains terminal_statuses finished.status
        then "already_finished"
        else "already_claimed");
  })

  -- `JobWorker.handle`, for the stored task
  unfoldable pub handle_current : WorkflowTask → M HandledJob
  handle_current current =
      if contains terminal_statuses current.status
      then pure (record { task = current; ran = false; reason = some "already_finished" })
      else if contains handled_types current.type
      then (do r ← attempt (execute_task current); handled current r)
      else (do
        store_task (unhandled current)
        pure (record { task = unhandled current; ran = false; reason = some "no_handler" }))

  unfoldable pub handle : WorkflowTask → M HandledJob
  handle task = do current ← stored_or task; handle_current current
