-- ===== src/Store/Tasks.antt =====
-- The task store: one task for each idempotency key, and at most one claim of a queued task.
use film_compliance_agent.Base.{
  ℕ, ◌+◌, ◌≤◌, true, false, String, Option, none, some, List, [], ◌∷◌, ◌==◌, ◌≡◌, ◌≢◌, ◌⊎◌, inl,
  inr, refl, ap, ◌∙◌, string_eq, string_iff, Option-cases, Bool-cases, arith,
}
use film_compliance_agent.Base.Dict.{Dict, lookup, insert, lookup-insert, lookup-insert_self}
use film_compliance_agent.Schemas.Enums.Process.{TaskStatus, task_status_eq}
use film_compliance_agent.Schemas.Common.{Time}
use film_compliance_agent.Schemas.Workflow.{WorkflowTask}
use film_compliance_agent.Store.{
  TaskStore, add_task, save_task, find_by_idempotency_key, get_or_create_by_idempotency_key,
  claimed, claim_queued_task,
}

-- every indexed key leads to a stored task, under an identifier that is not empty
pub record IsIndexed (s : TaskStore) : Type 0 where
  pub leads :
      (key id : String)
      → lookup key s.by_key ≡ some id
      → (id ≢ "") × ((t : WorkflowTask) × (lookup id s.items ≡ some t))

stored-insert :
    (id k : String) (t : WorkflowTask) (items : Dict String WorkflowTask)
    → ((u : WorkflowTask) × (lookup id items ≡ some u))
    → (u : WorkflowTask) × (lookup id (insert k t items) ≡ some u)
stored-insert id k t items (u, e) = elim (Bool-cases (k == id)) [
  | inl same ↦ (t, rw (lookup-insert k id t items, same))
  | inr other ↦ (u, rw (lookup-insert k id t items, other) e)
]

pub save_task-IsIndexed :
    (t : WorkflowTask) (s : TaskStore) → IsIndexed s → IsIndexed (save_task t s)
unfolding save_task
save_task-IsIndexed t s h = record {
  leads = λ key id e.
      let (named, found) = h.leads key id e in (named, stored-insert id t.task_id t s.items found);
}

indexed_by_add :
    (t : WorkflowTask) (s : TaskStore) (key id : String)
    → lookup key (add_task t s).by_key ≡ some id
    → (lookup key s.by_key ≡ some id) ⊎ (id ≡ t.task_id)
unfolding add_task
indexed_by_add t s key id e = elim (Option-cases (lookup t.idempotency_key s.by_key)) [
  | inl fresh ↦ ground (arith, lookup-insert t.idempotency_key key t.task_id s.by_key)
  | inr (old, known) ↦ inl (ground arith)
]

pub add_task-IsIndexed :
    (t : WorkflowTask) (s : TaskStore) → t.task_id ≢ "" → IsIndexed s → IsIndexed (add_task t s)
add_task-IsIndexed t s named h = record {
  leads = λ key id e. elim (indexed_by_add t s key id e) [
    | inl old ↦
        let (n, found) = h.leads key id old in
        (n, unfold add_task in stored-insert id t.task_id t s.items found)
    | inr new ↦
        (rw new named, unfold add_task in (t, rw new (lookup-insert_self t.task_id t s.items)))
  ];
}

-- what a claim comes to
claim_cases :
    (id : String) (now : Time) (s : TaskStore)
    → (claim_queued_task id now s ≡ (s, none))
      ⊎ ((t : WorkflowTask) × (claim_queued_task id now s
            ≡ (record s { items = insert id (claimed t now) s.items }, some (claimed t now))))
unfolding claim_queued_task
claim_cases id now s = elim (Option-cases (lookup id s.items)) [
  | inl e ↦ inl (ground arith)
  | inr (t, e) ↦ elim (Bool-cases (t.status == TaskStatus.queued)) [
    | inl free ↦ inr (t, ground arith)
    | inr busy ↦ inl (ground arith)
  ]
]

pub claim-IsIndexed :
    (id : String) (now : Time) (s : TaskStore)
    → IsIndexed s
    → IsIndexed (claim_queued_task id now s).0
claim-IsIndexed id now s h = elim (claim_cases id now s) [
  | inl e ↦ rw e h
  | inr (t, e) ↦ rw e (record {
    leads = λ key i p.
        let (n, found) = h.leads key i p in (n, stored-insert i id (claimed t now) s.items found);
  })
]

pub find-indexed :
    (key id : String) (t : WorkflowTask) (s : TaskStore)
    → lookup key s.by_key ≡ some id
    → id ≢ ""
    → lookup id s.items ≡ some t
    → find_by_idempotency_key key s ≡ some t
unfolding find_by_idempotency_key
find-indexed key id t s e named found = ground (arith, string_iff id "")

pub not_indexed :
    (key : String) (s : TaskStore)
    → IsIndexed s
    → find_by_idempotency_key key s ≡ none
    → lookup key s.by_key ≡ none
not_indexed key s h e = elim (Option-cases (lookup key s.by_key)) [
  | inl fresh ↦ fresh
  | inr (id, known) ↦
      let (named, (t, found)) = h.leads key id known in
      absurd (ground (arith, find-indexed key id t s known named found))
]

find-add :
    (t : WorkflowTask) (s : TaskStore)
    → t.task_id ≢ ""
    → lookup t.idempotency_key s.by_key ≡ none
    → find_by_idempotency_key t.idempotency_key (add_task t s) ≡ some t
unfolding add_task
find-add t s named fresh =
    find-indexed t.idempotency_key t.task_id t (add_task t s)
      (ground (arith, lookup-insert_self t.idempotency_key t.task_id s.by_key)) named
      (lookup-insert_self t.task_id t s.items)

pub get_or_create-found :
    (candidate t : WorkflowTask) (s : TaskStore)
    → find_by_idempotency_key candidate.idempotency_key s ≡ some t
    → get_or_create_by_idempotency_key candidate s ≡ (s, t, false)
unfolding get_or_create_by_idempotency_key
get_or_create-found candidate t s e = ground arith

pub get_or_create-created :
    (candidate : WorkflowTask) (s : TaskStore)
    → find_by_idempotency_key candidate.idempotency_key s ≡ none
    → get_or_create_by_idempotency_key candidate s ≡ (add_task candidate s, candidate, true)
unfolding get_or_create_by_idempotency_key
get_or_create-created candidate s e = ground arith

-- After a task was found or created for a key, every later candidate with that key gets the same
-- task, is not created, and changes nothing.
pub get_or_create_replay :
    (first again : WorkflowTask) (s : TaskStore)
    → IsIndexed s
    → first.task_id ≢ ""
    → again.idempotency_key ≡ first.idempotency_key
    → let (s', task, created) = get_or_create_by_idempotency_key first s in
      get_or_create_by_idempotency_key again s' ≡ (s', task, false)
get_or_create_replay first again s h named same =
    elim (Option-cases (find_by_idempotency_key first.idempotency_key s)) [
      | inr (t, e) ↦
          simp (get_or_create-found first t s e)
            (get_or_create-found again t s (ap (λ k. find_by_idempotency_key k s) same ∙ e))
      | inl e ↦ simp (get_or_create-created first s e) (
          get_or_create-found again first (add_task first s) (
            ap (λ k. find_by_idempotency_key k (add_task first s)) same
            ∙ find-add first s named (not_indexed first.idempotency_key s h e)))
    ]

abbrev pub successes : Option WorkflowTask → ℕ
successes none = 0
successes (some _) = 1

-- how many of a row of claims of one task succeed, one claim for each time given
unfoldable pub claims : String → List Time → TaskStore → ℕ
claims id [] s = 0
claims id (now ∷ later) s =
    let (s', claim) = claim_queued_task id now s in successes claim + claims id later s'

no_claim :
    (id : String) (t : WorkflowTask) (times : List Time) (s : TaskStore)
    → lookup id s.items ≡ some t
    → t.status ≢ TaskStatus.queued
    → claims id times s ≡ 0
unfolding claims claim_queued_task
no_claim id t [] s e busy = refl
no_claim id t (now ∷ later) s e busy = ground (arith, no_claim id t later s e busy)

-- However many workers claim one task, and in whatever order, at most one of them gets it.
pub claims-le-one : (id : String) (times : List Time) (s : TaskStore) → claims id times s ≤ 1
unfolding claims
claims-le-one id [] s = omega arith
claims-le-one id (now ∷ later) s = elim (claim_cases id now s) [
  | inl e ↦ ground (arith, claims-le-one id later s)
  | inr (t, e) ↦ ground (
    arith,
    no_claim id (claimed t now) later (record s { items = insert id (claimed t now) s.items })
        (lookup-insert_self id (claimed t now) s.items) (λ p. cc),
  )
]
