-- ===== src/Store.antt =====
-- store/memory.py: the in-memory stores behind the ports. A `defaultdict` keyed by project is a
-- function from the project's identifier; a dict is an association list in insertion order.
pub mod Tasks
pub mod Drafts
pub mod Reviews
use film_compliance_agent.Base.{
  ℕ, Bool, true, false, String, Option, none, some, List, [], ◌∷◌, ◌++◌, map, keep, last, ◌&&◌,
  ◌||◌, ◌==◌, not, string_eq, if◌then◌else◌, Option-cases,
}
use film_compliance_agent.Base.Dict.{Dict, lookup, insert, update, values}
use film_compliance_agent.Schemas.Enums.Process.{TaskStatus, task_status_eq}
use film_compliance_agent.Schemas.Common.{Time, Fact, AuditEntry, TimelineEvent}
use film_compliance_agent.Schemas.Project.{Project}
use film_compliance_agent.Schemas.Findings.{Finding}
use film_compliance_agent.Schemas.Assets.{AssetVersion, MaterialCard, UploadTicket}
use film_compliance_agent.Schemas.Forms.{FormDraft}
use film_compliance_agent.Schemas.Workflow.{
  WorkflowTask, Notification, InstitutionReview, MockInstitution,
}

abbrev pub Bytes : Type 0
Bytes = List ℕ

-- `InMemoryTaskStore`: the tasks, and the first task of each idempotency key
pub record TaskStore : Type 0 where
  pub items : Dict String WorkflowTask
  pub by_key : Dict String String

-- The stores, with the number of readings of the clock and of identifiers drawn so far.
pub record Stores : Type 0 where
  pub projects : Dict String Project
  pub facts : String → List Fact
  pub findings : String → Dict String Finding
  pub materials : String → Dict String MaterialCard
  pub assets : String → Dict String AssetVersion
  pub tasks : TaskStore
  pub timeline : String → List TimelineEvent
  pub audit : String → List AuditEntry
  pub forms : String → List FormDraft
  pub institution_reviews : String → List InstitutionReview
  pub notifications : Dict String Notification
  pub institutions : Dict String MockInstitution
  pub blobs : Dict String Bytes
  pub upload_tickets : Dict String UploadTicket
  pub readings : ℕ
  pub drawn : ℕ

-- `InMemoryFactStore.get_by_key`: the last fact with the key
unfoldable pub get_by_key : String → List Fact → Option Fact
get_by_key key facts = last (keep (λ f. f.key == key) facts)

-- `InMemoryTaskStore.add`, `save`, `get`, `find_by_idempotency_key`
unfoldable pub add_task : WorkflowTask → TaskStore → TaskStore
add_task task s = record {
  items = insert task.task_id task s.items;
  by_key = elim (lookup task.idempotency_key s.by_key) [
    | none ↦ insert task.idempotency_key task.task_id s.by_key
    | some _ ↦ s.by_key
  ];
}

unfoldable pub save_task : WorkflowTask → TaskStore → TaskStore
save_task task s = record s { items = insert task.task_id task s.items }

unfoldable pub get_task : String → TaskStore → Option WorkflowTask
get_task task_id s = lookup task_id s.items

-- An empty identifier counts as none.
unfoldable pub find_by_idempotency_key : String → TaskStore → Option WorkflowTask
find_by_idempotency_key key s = elim (lookup key s.by_key) [
  | none ↦ none
  | some task_id ↦ if task_id == "" then none else lookup task_id s.items
]

unfoldable pub get_or_create_by_idempotency_key :
    WorkflowTask → TaskStore → TaskStore × WorkflowTask × Bool
get_or_create_by_idempotency_key task s = elim (find_by_idempotency_key task.idempotency_key s) [
  | some existing ↦ (s, existing, false)
  | none ↦ (add_task task s, task, true)
]

abbrev pub claimed : WorkflowTask → Time → WorkflowTask
claimed task now = record task { status = TaskStatus.running; updated_at = some now }

unfoldable pub claim_queued_task : String → Time → TaskStore → TaskStore × Option WorkflowTask
claim_queued_task task_id now s = elim (lookup task_id s.items) [
  | none ↦ (s, none)
  | some task ↦
      if task.status == TaskStatus.queued
      then (record s { items = insert task_id (claimed task now) s.items }, some (claimed task now))
      else (s, none)
]

-- `InMemoryFormStore.put` and `latest`: a draft replaces the first one with its identifier, or
-- comes last
unfoldable pub put_draft : FormDraft → List FormDraft → List FormDraft
put_draft draft [] = draft ∷ []
put_draft draft (d ∷ ds) =
    if d.draft_id == draft.draft_id then draft ∷ ds else d ∷ put_draft draft ds

-- `InMemoryInstitutionReviewStore.put`
unfoldable pub put_review : InstitutionReview → List InstitutionReview → List InstitutionReview
put_review review [] = review ∷ []
put_review review (r ∷ rs) =
    if r.review_id == review.review_id then review ∷ rs else r ∷ put_review review rs

-- `InMemoryNotificationStore.mark_read`
unfoldable pub mark_read :
    String → Dict String Notification → Dict String Notification × Option Notification
mark_read notification_id items = elim (lookup notification_id items) [
  | none ↦ (items, none)
  | some n ↦
      (insert notification_id (record n { read = true }) items, some (record n { read = true }))
]

-- `InMemoryUploadTicketStore.consume`
unfoldable pub consume_ticket :
    String → Dict String UploadTicket → Dict String UploadTicket × Option UploadTicket
consume_ticket ticket_id items = elim (lookup ticket_id items) [
  | none ↦ (items, none)
  | some ticket ↦ if ticket.consumed then (items, none) else (
    insert ticket_id (record ticket { consumed = true }) items,
    some (record ticket { consumed = true }),
  )
]
