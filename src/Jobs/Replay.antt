-- ===== src/Jobs/Replay.antt =====
-- core/workflow_service.py: a second `_run_job` for one key gets the first task and runs nothing.
use film_compliance_agent.Base.{
  ◌+◌, String, Bool, true, Option, none, some, ◌≡◌, ◌≢◌, refl, sym, ap, ◌∙◌, inl, inr, arith,
  Option-cases, string_eq,
}
use film_compliance_agent.Schemas.Enums.Process.{TaskType}
use film_compliance_agent.Schemas.Json.{Detail}
use film_compliance_agent.Schemas.Workflow.{WorkflowTask}
use film_compliance_agent.Errors.{Error, Result, ok, err}
use film_compliance_agent.Store.{TaskStore, Stores, add_task, save_task, find_by_idempotency_key}
use film_compliance_agent.Store.Tasks.{
  IsIndexed, find-indexed, not_indexed, get_or_create-found, get_or_create-created,
}
use film_compliance_agent.Base.Dict.{lookup, insert, lookup-insert_self}
use film_compliance_agent.Workflow.Core.{record_event}
use film_compliance_agent.Effects.{Env, M, run-cases, now, new_id}
use film_compliance_agent.Jobs.{
  JobOutcome, JobRunner, JobRun, idempotency_key, candidate_task, inline_runner, run_job, first_job,
  replay_job,
}

module _ (str_of : Error → String) (project_id : String) (task_type : TaskType)
    (asset_version : String) (env : Env) where
  abbrev key : String
  key = idempotency_key project_id task_type asset_version

  abbrev inline : JobRunner
  inline = inline_runner str_of

  -- what a first run leaves among the tasks, if its work leaves them alone
  first_job-ok :
      (work : M JobOutcome) (t task : WorkflowTask) (outcome : Option JobOutcome) (again : Bool)
      (w w' : Stores)
      → ((w₁ w₂ : Stores) (r : Result JobOutcome) → work env w₁ ≡ (r, w₂) → w₂.tasks ≡ w₁.tasks)
      → first_job inline project_id work t env w ≡ (ok (task, outcome, again), w')
      → (task.task_id ≡ t.task_id)
        × (task.idempotency_key ≡ t.idempotency_key)
        × (w'.tasks ≡ save_task task w.tasks)
  unfolding first_job inline_runner record_event now new_id
  first_job-ok work t task outcome again w w' keeps h = elim (run-cases work env w) [
    | inl (o, w₁, ran) ↦ let kept = keeps w w₁ (ok o) ran in ground arith
    | inr (e, w₁, ran) ↦ let kept = keeps w w₁ (err e) ran in ground arith
  ]

  -- the task that a key leads to
  first_found :
      (t task : WorkflowTask) (s : TaskStore)
      → IsIndexed s
      → t.task_id ≢ ""
      → find_by_idempotency_key t.idempotency_key s ≡ none
      → task.task_id ≡ t.task_id
      → task.idempotency_key ≡ t.idempotency_key
      → find_by_idempotency_key t.idempotency_key (save_task task (add_task t s)) ≡ some task
  unfolding save_task add_task
  first_found t task s indexed named fresh same same_key =
      let gone = not_indexed t.idempotency_key s indexed fresh in
      find-indexed t.idempotency_key t.task_id task (save_task task (add_task t s))
        (rw (add_task, gone) (lookup-insert_self t.idempotency_key t.task_id s.by_key)) named
        (ap (λ id. lookup id (insert task.task_id task (insert t.task_id t s.items))) (sym same)
          ∙ lookup-insert_self task.task_id task (insert t.task_id t s.items))

  replayed :
      (work : M JobOutcome) (payload : Detail) (w : Stores) (t : WorkflowTask)
      → find_by_idempotency_key key w.tasks ≡ some t
      → run_job inline project_id work task_type asset_version payload env w
        ≡ (ok (t, none, true), record w { readings = w.readings + 1; drawn = w.drawn + 1 })
  unfolding run_job replay_job inline_runner now new_id
  replayed work payload w t e =
      rw
        (get_or_create-found
          (candidate_task project_id task_type key payload (env.fresh "task" w.drawn)
            (env.clock w.readings))
          t w.tasks e)
        refl

  -- the candidate of a run
  abbrev candidate : Detail → Stores → WorkflowTask
  candidate payload w =
      candidate_task project_id task_type key payload (env.fresh "task" w.drawn)
        (env.clock w.readings)

  recorded :
      (work : M JobOutcome) (payload : Detail) (w w' : Stores) (r : Result JobRun)
      → find_by_idempotency_key key w.tasks ≡ none
      → run_job inline project_id work task_type asset_version payload env w ≡ (r, w')
      → first_job inline project_id work (candidate payload w) env (record w {
        readings = w.readings + 1;
        drawn = w.drawn + 1;
        tasks = add_task (candidate payload w) w.tasks;
      })
        ≡ (r, w')
  unfolding run_job now new_id
  recorded work payload w w' r e h = rw (get_or_create-created (candidate payload w) w.tasks e) at h

  -- Where jobs run inside the request and their work leaves the tasks alone, a second call for the
  -- project, type and version of a call that returned runs nothing: it gets the task that the first
  -- one recorded, marked as a replay, and writes nothing.
  pub run_job_again :
      (work later : M JobOutcome) (payload payload' : Detail) (w w' : Stores) (task : WorkflowTask)
      (outcome : Option JobOutcome) (again : Bool)
      → IsIndexed w.tasks
      → env.fresh "task" w.drawn ≢ ""
      → ((w₁ w₂ : Stores) (r : Result JobOutcome) → work env w₁ ≡ (r, w₂) → w₂.tasks ≡ w₁.tasks)
      → run_job inline project_id work task_type asset_version payload env w
        ≡ (ok (task, outcome, again), w')
      → run_job inline project_id later task_type asset_version payload' env w'
        ≡ (ok (task, none, true), record w' { readings = w'.readings + 1; drawn = w'.drawn + 1 })
  run_job_again work later payload payload' w w' task outcome again indexed named keeps h =
      elim (Option-cases (find_by_idempotency_key key w.tasks)) [
        | inr (t, e) ↦
            let first = replayed work payload w t e in
            let same : t ≡ task = cc in
            let tasks : w'.tasks ≡ w.tasks = cc in
            replayed later payload' w' task (rw (tasks, ← same) e)
        | inl e ↦
            let h₁ = recorded work payload w w' (ok (task, outcome, again)) e h in
            let (same, same_key, tasks) =
              first_job-ok work (candidate payload w) task outcome again _ w' keeps h₁ in
            replayed later payload' w' task (
              rw tasks
                (first_found (candidate payload w) task w.tasks indexed named e same same_key))
      ]
