-- ===== src/Tests/Workers.antt =====
-- Concrete runs of the job worker.
use film_compliance_agent.Base.{
  ◌+◌, String, Bool, true, false, Option, none, some, List, [], ◌∷◌, ◌≡◌, ◌≢◌, refl, arith,
  string_iff, string_eq,
}
use film_compliance_agent.Base.Dict.{lookup}
use film_compliance_agent.Schemas.Enums.States.{ProjectState}
use film_compliance_agent.Schemas.Enums.Process.{TaskStatus, TaskType}
use film_compliance_agent.Schemas.Json.{Detail, end}
use film_compliance_agent.Schemas.Workflow.{WorkflowTask}
use film_compliance_agent.Errors.{Error, Result, ok}
use film_compliance_agent.Store.{TaskStore, Stores}
use film_compliance_agent.Store.Tasks.{IsIndexed}
use film_compliance_agent.Effects.{Env, M, pure}
use film_compliance_agent.Jobs.{JobOutcome, HandledJob, inline_runner, run_job, handle}
use film_compliance_agent.Jobs.Delivery.{IsKeyed, IsAnswered, handle-answers, handle_again}
use film_compliance_agent.Jobs.Replay.{run_job_again}
use film_compliance_agent.Tests.Samples.{env, stores_at, task_of, no_tasks}

abbrev work : WorkflowTask → M (Detail × List String)
work task = pure (end, [])

abbrev text_of : Error → String
text_of e = "error"

abbrev queued : Stores
queued = record (stores_at ProjectState.draft) {
  tasks = record { items = ("t1", task_of "t1") ∷ []; by_key = [] };
}

queued-IsKeyed : IsKeyed queued.tasks
unfolding lookup
queued-IsKeyed = record { own = λ id t e. ground (arith, string_iff "t1" id) }

abbrev done : HandledJob
done = record {
  task = record (task_of "t1") {
    status = TaskStatus.succeeded;
    result = some end;
    updated_at = some 1;
  };
  ran = true;
  reason = none;
}

abbrev handled_once : Stores
handled_once = (handle work work text_of (task_of "t1") env queued).1

handle-answers_example :
    (h : HandledJob) × (w : Stores) × (handle work work text_of (task_of "t1") env queued
      ≡ (ok h, w))
    × IsAnswered work work text_of env (task_of "t1") h queued w
handle-answers_example = handle-answers work work text_of env (task_of "t1") queued queued-IsKeyed

handle_again_example : handle work work text_of (task_of "t1") env handled_once ≡ (
  ok (record {
    task = record (task_of "t1") {
      status = TaskStatus.succeeded;
      result = some end;
      updated_at = some 1;
    };
    ran = false;
    reason = some "already_finished";
  }),
  handled_once,
)
unfolding handle film_compliance_agent.Jobs.stored_or film_compliance_agent.Jobs.handle_current
    film_compliance_agent.Schemas.Enums.Process.TaskStatus-discrete
    film_compliance_agent.Store.get_task lookup
    film_compliance_agent.Schemas.Enums.Process.TaskType-discrete
    film_compliance_agent.Jobs.execute_task film_compliance_agent.Effects.now
    film_compliance_agent.Store.claim_queued_task film_compliance_agent.Jobs.execute_claimed
    film_compliance_agent.Jobs.review_outcome film_compliance_agent.Jobs.record_outcome
    film_compliance_agent.Workflow.Core.record_event
handle_again_example =
    handle_again work work text_of env (task_of "t1") queued handled_once done queued-IsKeyed refl
      (λ h. cc)

abbrev outcome : JobOutcome
outcome = record { result = some end; error = none; status = TaskStatus.succeeded }

abbrev fresh : Stores
fresh = stores_at ProjectState.draft

abbrev ran_once : Result (WorkflowTask × Option JobOutcome × Bool) × Stores
ran_once =
    run_job (inline_runner text_of) "p1" (pure outcome) TaskType.review_full "v1" end env fresh

abbrev recorded : WorkflowTask
recorded = record (task_of "task") {
  idempotency_key = "p1:review_full:v1";
  status = TaskStatus.succeeded;
  result = some end;
  created_at = some 0;
  updated_at = some 1;
}

no_tasks-IsIndexed : IsIndexed no_tasks
unfolding lookup
no_tasks-IsIndexed = record { leads = λ key id e. absurd (cc) }

named : ◌≢◌ {A = String} "task" ""
named h = let clash : false ≡ true = (string_iff "task" "").1 h in cc

run_job_again_example :
    run_job (inline_runner text_of) "p1" (pure outcome) TaskType.review_full "v1" end env ran_once.1
    ≡ (
      ok (recorded, none, true),
      record ran_once.1 { readings = ran_once.1.readings + 1; drawn = ran_once.1.drawn + 1 },
    )
unfolding run_job film_compliance_agent.Effects.now film_compliance_agent.Effects.new_id
    film_compliance_agent.Store.get_or_create_by_idempotency_key
    film_compliance_agent.Store.find_by_idempotency_key lookup film_compliance_agent.Jobs.first_job
    inline_runner film_compliance_agent.Workflow.Core.record_event
    film_compliance_agent.Jobs.idempotency_key
    film_compliance_agent.Schemas.Enums.Process.task_type_value
run_job_again_example =
    run_job_again text_of "p1" TaskType.review_full "v1" env (pure outcome) (pure outcome) end end
      fresh ran_once.1 recorded (some outcome) false no_tasks-IsIndexed named (λ w₁ w₂ r h. cc) refl
