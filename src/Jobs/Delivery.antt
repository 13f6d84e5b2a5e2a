-- ===== src/Jobs/Delivery.antt =====
-- workers/jobs.py: what a delivery of a task comes to, and a second delivery of it.
use film_compliance_agent.Base.{
  ◌+◌, ◌==◌, ◌∙◌, String, Bool, true, false, none, some, List, [], ◌∷◌, ◌≡◌, ◌≢◌, refl, ◌⊎◌, inl,
  inr, arith, contains, Bool-cases, Option-cases, string_eq,
}
use film_compliance_agent.Base.Dict.{lookup, lookup-insert_self}
use film_compliance_agent.Schemas.Enums.Process.{TaskStatus, task_status_eq, TaskType, task_type_eq}
use film_compliance_agent.Schemas.Json.{Detail}
use film_compliance_agent.Schemas.Common.{Time}
use film_compliance_agent.Schemas.Workflow.{WorkflowTask}
use film_compliance_agent.Errors.{Error, Result, ok, err}
use film_compliance_agent.Store.{TaskStore, Stores, save_task, get_task, claimed, claim_queued_task}
use film_compliance_agent.Effects.{Env, M, ◌>>=◌, pure, bind-ok, map-ok, now, new_id}
use film_compliance_agent.Workflow.Core.{record_event}
use film_compliance_agent.Jobs.{
  terminal_statuses, handled_types, JobOutcome, flagged_outcome, with_outcome, failed_with,
  unhandled, HandledJob, stored_or, record_outcome, extract_outcome, review_outcome, work_for,
  execute_claimed, execute_task, handle_current, handle,
}

-- every task is stored under its own identifier
pub record IsKeyed (s : TaskStore) : Type 0 where
  pub own : (id : String) (t : WorkflowTask) → lookup id s.items ≡ some t → t.task_id ≡ id

-- the status of a task that is over
abbrev pub IsOver : WorkflowTask → Type 0
IsOver t = contains terminal_statuses t.status ≡ true

pub claim_queued_task-some :
    (id : String) (at : Time) (s s' : TaskStore) (r : WorkflowTask)
    → claim_queued_task id at s ≡ (s', some r)
    → (t : WorkflowTask) × (lookup id s.items ≡ some t) × (r ≡ claimed t at)
unfolding claim_queued_task
claim_queued_task-some id at s s' r h = elim (Option-cases (lookup id s.items)) [
  | inl e ↦ absurd (ground arith)
  | inr (t, e) ↦ (t, e, ground arith)
]

pub claim_queued_task-none :
    (id : String) (at : Time) (s s' : TaskStore) → claim_queued_task id at s ≡ (s', none) → s' ≡ s
unfolding claim_queued_task
claim_queued_task-none id at s s' h = ground arith

-- no queued task is stored under the identifier
abbrev pub IsUnclaimable : String → TaskStore → Type 0
IsUnclaimable id s =
    (lookup id s.items ≡ none)
    ⊎ ((t : WorkflowTask) × (lookup id s.items ≡ some t) × (t.status ≢ TaskStatus.queued))

IsUnclaimable-of_claim :
    (id : String) (at : Time) (s : TaskStore)
    → (claim_queued_task id at s).1 ≡ none
    → IsUnclaimable id s
unfolding claim_queued_task
IsUnclaimable-of_claim id at s h = elim (Option-cases (lookup id s.items)) [
  | inl e ↦ inl e
  | inr (t, e) ↦
      inr (t, e, λ queued. ground (arith, task_status_eq.same_iff t.status TaskStatus.queued))
]

pub flagged_outcome_ends :
    (found : Detail) (flags : List String)
    → contains terminal_statuses (flagged_outcome found flags).status ≡ true
unfolding film_compliance_agent.Schemas.Enums.Process.TaskStatus-discrete
flagged_outcome_ends found [] = refl
flagged_outcome_ends found (flag ∷ flags) = refl

failed_with_ends : (t : WorkflowTask) (reason : String) → IsOver (failed_with t reason)
unfolding film_compliance_agent.Schemas.Enums.Process.TaskStatus-discrete
failed_with_ends t reason = refl

IsOver-unhandled : (t : WorkflowTask) → IsOver (unhandled t)
unfolding film_compliance_agent.Schemas.Enums.Process.TaskStatus-discrete
IsOver-unhandled t = refl

-- the task that a later delivery of the same message reads
abbrev pub ReadsBack : WorkflowTask → WorkflowTask → Env → Stores → Type 0
ReadsBack task stored env w = stored_or task env w ≡ (ok stored, w)

reads_saved :
    (task stored : WorkflowTask) (env : Env) (w : Stores)
    → stored.task_id ≡ task.task_id
    → lookup stored.task_id w.tasks.items ≡ some stored
    → ReadsBack task stored env w
unfolding stored_or get_task
reads_saved task stored env w same e = ground arith

-- no task is stored under the identifier, or one that runs
abbrev pub IsElsewhere : String → TaskStore → Type 0
IsElsewhere id s =
    (lookup id s.items ≡ none)
    ⊎ ((t : WorkflowTask) × (lookup id s.items ≡ some t) × (t.status ≡ TaskStatus.running))

running_of_status :
    (s : TaskStatus)
    → contains terminal_statuses s ≡ false
    → s ≢ TaskStatus.queued
    → s ≡ TaskStatus.running
unfolding film_compliance_agent.Schemas.Enums.Process.TaskStatus-discrete
running_of_status TaskStatus.queued going other = absurd (other refl)
running_of_status TaskStatus.running going other = refl
running_of_status TaskStatus.succeeded going other = absurd (cc)
running_of_status TaskStatus.failed going other = absurd (cc)
running_of_status TaskStatus.needs_human going other = absurd (cc)

-- A stored task that is neither over nor queued runs.
IsElsewhere-of_unclaimable :
    (current : WorkflowTask) (env : Env) (w : Stores)
    → ReadsBack current current env w
    → contains terminal_statuses current.status ≡ false
    → IsUnclaimable current.task_id w.tasks
    → IsElsewhere current.task_id w.tasks
unfolding stored_or get_task
IsElsewhere-of_unclaimable current env w reads going (inl absent) = inl absent
IsElsewhere-of_unclaimable current env w reads going (inr (t, e, other)) =
    let k = rw e at reads in
    let same : t ≡ current = cc in inr (t, e, running_of_status t.status (rw same going) other)

abbrev done_at : WorkflowTask → JobOutcome → Time → WorkflowTask
done_at running o at = record (with_outcome running o) { updated_at = some at }

record_outcome-run :
    (task running : WorkflowTask) (o : JobOutcome) (env : Env) (w : Stores)
    → (w' : Stores) × (record_outcome task running o env w
        ≡ (ok (done_at running o (env.clock w.readings), true), w'))
      × (w'.tasks ≡ save_task (done_at running o (env.clock w.readings)) w.tasks)
unfolding record_outcome record_event now new_id
record_outcome-run task running o env w = (_, refl, refl)

save_task-stored :
    (t : WorkflowTask) (s : TaskStore) → lookup t.task_id (save_task t s).items ≡ some t
unfolding save_task
save_task-stored t s = lookup-insert_self t.task_id t s.items

module _ (extract review : WorkflowTask → M (Detail × List String)) (str_of : Error → String)
    (env : Env) where
  flagged_run :
      (job : M (Detail × List String)) (w w' : Stores) (o : JobOutcome)
      → (job >>= λ r. pure (flagged_outcome r.0 r.1)) env w ≡ (ok o, w')
      → contains terminal_statuses o.status ≡ true
  flagged_run job w w' o h =
      let (r, ran, same) = map-ok job (λ r. flagged_outcome r.0 r.1) env w w' o h in
      rw same (flagged_outcome_ends r.0 r.1)

  work_for-ends :
      (t : WorkflowTask) (w w' : Stores) (o : JobOutcome)
      → work_for extract review str_of t env w ≡ (ok o, w')
      → contains terminal_statuses o.status ≡ true
  unfolding extract_outcome review_outcome
  work_for-ends t w w' o h = elim (Bool-cases (t.type == TaskType.fact_extract)) [
    | inl e ↦ flagged_run (extract t) w w' o (rw e at h)
    | inr e ↦ flagged_run (review t) w w' o (rw e at h)
  ]

  -- a claimed task that was executed is over, stored, and the one claimed
  execute_claimed-ok :
      (task running finished : WorkflowTask) (ran : Bool) (w w' : Stores)
      → execute_claimed extract review str_of task running env w ≡ (ok (finished, ran), w')
      → (ran ≡ true)
        × IsOver finished
        × (finished.task_id ≡ running.task_id)
        × (lookup finished.task_id w'.tasks.items ≡ some finished)
  unfolding execute_claimed
  execute_claimed-ok task running finished ran w w' h =
      let (o, w₁, worked, h₁) =
        bind-ok (work_for extract review str_of running) (record_outcome task running) env w w'
          (finished, ran) h in
      let ends = work_for-ends running w w₁ o worked in
      let (w₂, recorded, saved) = record_outcome-run task running o env w₁ in
      let done = done_at running o (env.clock w₁.readings) in
      let same : finished ≡ done = cc in
      let last : w' ≡ w₂ = cc in
      (cc, rw same ends, rw same refl, rw (same, last, saved) (save_task-stored done w₁.tasks))

  -- An execution ran the claimed task to its end, or found no queued task and changed nothing.
  execute_task-ok :
      (task finished : WorkflowTask) (ran : Bool) (w w' : Stores)
      → IsKeyed w.tasks
      → ReadsBack task task env w
      → contains handled_types task.type ≡ true
      → execute_task extract review str_of task env w ≡ (ok (finished, ran), w')
      → ((ran ≡ true)
          × IsOver finished
          × (finished.task_id ≡ task.task_id)
          × (lookup finished.task_id w'.tasks.items ≡ some finished))
        ⊎ ((ran ≡ false) × (finished ≡ task) × IsUnclaimable task.task_id w.tasks)
  unfolding execute_task now stored_or get_task
  execute_task-ok task finished ran w w' keyed reads known h =
      elim (Option-cases (claim_queued_task task.task_id (env.clock w.readings) w.tasks).1) [
        | inl e ↦
            let kept =
              claim_queued_task-none task.task_id (env.clock w.readings) w.tasks
                (claim_queued_task task.task_id (env.clock w.readings) w.tasks).0 cc in
            let (ran_not, still) : (ran ≡ false) × (finished ≡ task) = ground arith in
            inr
              (ran_not, still, IsUnclaimable-of_claim task.task_id (env.clock w.readings) w.tasks e)
        | inr (r, e) ↦
            let (t, found, same) =
              claim_queued_task-some task.task_id (env.clock w.readings) w.tasks
                (claim_queued_task task.task_id (env.clock w.readings) w.tasks).0 r cc in
            let h₁ : execute_claimed extract review str_of task r env (record w {
              readings = w.readings + 1;
              tasks = (claim_queued_task task.task_id (env.clock w.readings) w.tasks).0;
            })
                ≡ (ok (finished, ran), w') =
              rw (known, e) at h in
            let (a, b, c, d) = execute_claimed-ok task r finished ran _ w' h₁ in
            let own = keyed.own task.task_id t found in inl (a, b, cc, d)
      ]

  -- what a delivery leaves: a task that is over, which a later delivery reads, or nothing, where
  -- the task was not stored or ran under a claim before
  abbrev pub IsAnswered : WorkflowTask → HandledJob → Stores → Stores → Type 0
  IsAnswered task h before w =
      (IsOver h.task × ReadsBack task h.task env w)
      ⊎ ((h.ran ≡ false)
          × (h.reason ≡ some "already_claimed")
          × IsElsewhere task.task_id before.tasks)

  abbrev pub Answer : WorkflowTask → WorkflowTask → Stores → Type 0
  Answer task current w =
      (h : HandledJob) × (w' : Stores) × (handle_current extract review str_of current env w
        ≡ (ok h, w'))
      × IsAnswered task h w w'

  saved_reads :
      (task failed : WorkflowTask) (w : Stores)
      → failed.task_id ≡ task.task_id
      → ReadsBack task failed env (record w { tasks = save_task failed w.tasks })
  saved_reads task failed w same =
      reads_saved task failed env (record w { tasks = save_task failed w.tasks }) same
        (save_task-stored failed w.tasks)

  answer_run :
      (task current : WorkflowTask) (w w₁ : Stores) (r : Result (WorkflowTask × Bool))
      → IsKeyed w.tasks
      → ReadsBack current current env w
      → current.task_id ≡ task.task_id
      → contains terminal_statuses current.status ≡ false
      → contains handled_types current.type ≡ true
      → execute_task extract review str_of current env w ≡ (r, w₁)
      → Answer task current w
  unfolding handle_current
  answer_run task current w w₁ (err e) keyed reads same going known run = (
    record { task = failed_with current (str_of e); ran = true; reason = some "failed" },
    record w₁ { tasks = save_task (failed_with current (str_of e)) w₁.tasks },
    rw (going, known, run) refl,
    inl (
      failed_with_ends current (str_of e),
      saved_reads task (failed_with current (str_of e)) w₁ same,
    ),
  )
  answer_run task current w w₁ (ok (finished, ran)) keyed reads same going known run =
      elim (execute_task-ok current finished ran w w₁ keyed reads known run) [
        | inl (ran_so, over, own, stored) ↦ (
          record { task = finished; ran = true; reason = none },
          w₁,
          rw (going, known, run, ran_so) refl,
          inl (over, reads_saved task finished env w₁ (own ∙ same) stored),
        )
        | inr (ran_not, still, unclaimable) ↦ (
          record { task = current; ran = false; reason = some "already_claimed" },
          w₁,
          rw (going, known, run, ran_not, still, going) refl,
          inr (
            refl,
            refl,
            rw (← same) (IsElsewhere-of_unclaimable current env w reads going unclaimable),
          ),
        )
      ]

  answer :
      (task current : WorkflowTask) (w : Stores)
      → IsKeyed w.tasks
      → ReadsBack task current env w
      → ReadsBack current current env w
      → current.task_id ≡ task.task_id
      → Answer task current w
  unfolding handle_current
  answer task current w keyed reads again same =
      elim (Bool-cases (contains terminal_statuses current.status)) [
        | inl over ↦ (
          record { task = current; ran = false; reason = some "already_finished" },
          w,
          rw over refl,
          inl (over, reads),
        )
        | inr going ↦ elim (Bool-cases (contains handled_types current.type)) [
          | inl known ↦
              let (r, w₁) = execute_task extract review str_of current env w in
              answer_run task current w w₁ r keyed again same going known refl
          | inr unknown ↦ (
            record { task = unhandled current; ran = false; reason = some "no_handler" },
            record w { tasks = save_task (unhandled current) w.tasks },
            rw (going, unknown) refl,
            inl (IsOver-unhandled current, saved_reads task (unhandled current) w same),
          )
        ]
      ]

  readable :
      (task : WorkflowTask) (w : Stores)
      → IsKeyed w.tasks
      → (current : WorkflowTask) × ReadsBack task current env w
        × ReadsBack current current env w
        × (current.task_id ≡ task.task_id)
  unfolding stored_or get_task
  readable task w keyed = elim (Option-cases (lookup task.task_id w.tasks.items)) [
    | inl e ↦ (task, rw e refl, rw e refl, refl)
    | inr (t, e) ↦ let own = keyed.own task.task_id t e in (t, rw e refl, cc, own)
  ]

  -- Whatever the work of a job does, where tasks are stored under their own identifiers the worker
  -- answers every delivery: the task is then over, as a later delivery reads it, or the worker did
  -- not run it, because before the delivery no task was stored under its identifier or the one
  -- stored was running under an earlier claim.
  pub handle-answers :
      (task : WorkflowTask) (w : Stores)
      → IsKeyed w.tasks
      → (h : HandledJob) × (w' : Stores) × (handle extract review str_of task env w ≡ (ok h, w'))
        × IsAnswered task h w w'
  unfolding handle
  handle-answers task w keyed =
      let (current, reads, again, same) = readable task w keyed in
      let (h, w', run, answered) = answer task current w keyed reads again same in
      (h, w', rw (reads, run) refl, answered)

  -- A second delivery of a task that the worker has answered, and that no other claim holds, runs
  -- nothing, leaves the stores as they are and gives the task as it was recorded.
  pub handle_again :
      (task : WorkflowTask) (w w' : Stores) (h : HandledJob)
      → IsKeyed w.tasks
      → handle extract review str_of task env w ≡ (ok h, w')
      → h.reason ≢ some "already_claimed"
      → handle extract review str_of task env w'
        ≡ (ok (record { task = h.task; ran = false; reason = some "already_finished" }), w')
  unfolding handle handle_current
  handle_again task w w' h keyed run mine =
      let (h₁, w₁, run₁, answered) = handle-answers task w keyed in
      let same : h ≡ h₁ = cc in
      let last : w' ≡ w₁ = cc in
      elim answered [
        | inl (over, reads) ↦ rw (same, last, reads, over) refl
        | inr (ran_not, held, elsewhere) ↦ absurd (mine cc)
      ]
