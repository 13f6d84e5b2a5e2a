-- ===== src/Workflow/Core.antt =====
-- core/workflow_service.py: reads, the recording of events and notices, `_upsert_fact` and
-- `_transition`, by which the service asks the state machine for a change of a project's state.
pub mod Moves
use film_compliance_agent.Base.{
  ℕ, String, Bool, true, false, Option, none, some, List, [], ◌∷◌, ◌++◌, ◌+++◌, ◌==◌, ◌&&◌, not,
  string_eq, if◌then◌else◌, opt_beq, is_none,
}
use film_compliance_agent.Base.Dict.{lookup, insert, update, values}
use film_compliance_agent.Schemas.Enums.States.{ProjectState, project_state_eq}
use film_compliance_agent.Schemas.Enums.Review.{FactStatus, SourceRefType, source_ref_type_eq}
use film_compliance_agent.Schemas.Enums.Process.{
  Actor, ErrorCode, NotificationKind, notification_kind_value,
}
use film_compliance_agent.Schemas.Common.{
  Time, Value, value_eq, SourceRef, source_ref_ok, Fact, fact_ok, AuditEntry, TimelineEvent,
}
use film_compliance_agent.Schemas.Project.{Project}
use film_compliance_agent.Schemas.Findings.{Finding}
use film_compliance_agent.Schemas.Assets.{MaterialCard, AssetVersion}
use film_compliance_agent.Schemas.Forms.{FormDraft}
use film_compliance_agent.Schemas.Workflow.{Notification, InstitutionReview}
use film_compliance_agent.Schemas.Policy.{FormPack}
use film_compliance_agent.Schemas.Json.{Json, Detail, end, entry, str}
use film_compliance_agent.Errors.{Error, app, invalid_document, Result, ok, err}
use film_compliance_agent.Store.{Stores, get_by_key, put_draft, put_review}
use film_compliance_agent.Effects.{
  Env, M, continue, ◌>>=◌, ◌>>◌, pure, raise, lift, gets, asks, from_snapshot, modify, raise_if,
  now, new_id,
}
use film_compliance_agent.StateMachine.{GateContext, TransitionResult, transition}

unfoldable pub not_found : String → Detail → Error
not_found message detail = app ErrorCode.not_found message detail

unfoldable pub validation_failed : String → Detail → Error
validation_failed message detail = app ErrorCode.validation_error message detail

unfoldable pub conflict_error : String → Detail → Error
conflict_error message detail = app ErrorCode.conflict message detail

abbrev pub or_raise {ℓ} : {A : Type ℓ} → Error → Option A → M A
or_raise e none = raise e
or_raise e (some a) = pure a

-- the stores' single writes
abbrev pub save_project : Project → M (Unit {0})
save_project p = modify (λ w. record w { projects = insert p.project_id p w.projects })

abbrev pub add_timeline : String → TimelineEvent → M (Unit {0})
add_timeline project_id e =
    modify
      (λ w. record w { timeline = update project_id (w.timeline project_id ++ e ∷ []) w.timeline })

abbrev pub add_audit : String → AuditEntry → M (Unit {0})
add_audit project_id a =
    modify (λ w. record w { audit = update project_id (w.audit project_id ++ a ∷ []) w.audit })

abbrev pub add_fact : String → Fact → M (Unit {0})
add_fact project_id f =
    modify (λ w. record w { facts = update project_id (w.facts project_id ++ f ∷ []) w.facts })

abbrev pub save_finding : String → Finding → M (Unit {0})
save_finding project_id f = modify (λ w. record w {
  findings = update project_id (insert f.finding_id f (w.findings project_id)) w.findings;
})

abbrev pub put_material : String → MaterialCard → M (Unit {0})
put_material project_id m = modify (λ w. record w {
  materials = update project_id (insert m.material_id m (w.materials project_id)) w.materials;
})

abbrev pub put_form : String → FormDraft → M (Unit {0})
put_form project_id d =
    modify (λ w. record w { forms = update project_id (put_draft d (w.forms project_id)) w.forms })

abbrev pub put_institution_review : String → InstitutionReview → M (Unit {0})
put_institution_review project_id r = modify (λ w. record w {
  institution_reviews =
      update project_id (put_review r (w.institution_reviews project_id)) w.institution_reviews;
})

unfoldable pub get_project : String → M Project
unfolding not_found
get_project project_id = do
  found ← gets (λ w. lookup project_id w.projects)
  or_raise
      (not_found ("project not found: " +++ project_id) (entry "project_id" (str project_id) end))
      found

-- `_record_event`
unfoldable pub record_event : String → Actor → String → Detail → M TimelineEvent
unfolding now new_id
record_event project_id actor event detail = do
  event_id ← new_id "event"
  at ← now
  let e : TimelineEvent = record {
    event_id = event_id;
    at = at;
    actor = actor;
    event = event;
    detail = detail;
  }
  add_timeline project_id e
  pure e

-- `_notify`
unfoldable pub notify : Project → NotificationKind → Detail → M Notification
unfolding now new_id
notify p kind params = do
  notification_id ← new_id "notification"
  at ← now
  let n : Notification = record {
    notification_id = notification_id;
    user_id = p.owner_uid;
    project_id = some p.project_id;
    kind = kind;
    title_key = "notification." +++ (notification_kind_value kind +++ ".title");
    body_key = "notification." +++ (notification_kind_value kind +++ ".body");
    params = params;
    link = some ("/dashboard?project=" +++ p.project_id);
    read = false;
    created_at = some at;
  }
  modify (λ w. record w { notifications = insert notification_id n w.notifications })
  pure n

-- `_pinned_version`
unfoldable pub pinned_version : Project → M String
pinned_version p = elim p.classification [
  | some c ↦ pure c.policy_snapshot_version
  | none ↦ do latest ← asks (λ env. env.latest); from_snapshot latest
]

-- the form pack of a version
unfoldable pub form_pack_of : String → M FormPack
form_pack_of version = do pack ← asks (λ env. env.form_pack version); from_snapshot pack

-- a fact whose document model accepts it
abbrev pub checked_fact : Fact → M Fact
checked_fact f = raise_if (not (source_ref_ok f.source_ref && fact_ok f)) invalid_document >> pure f

-- Is there a stored fact whose value came from an asset?
abbrev pub from_asset : Option Fact → Bool
from_asset none = false
from_asset (some f) = f.source_ref.type == SourceRefType.asset

abbrev pub has_value : Option Fact → Option Value → Bool
has_value none value = false
has_value (some f) value = opt_beq f.value value

abbrev pub conflicting_id : Option Fact → Option String
conflicting_id none = none
conflicting_id (some f) = if from_asset (some f) then some f.fact_id else none

-- the write of `_upsert_fact`, once no stored fact has the value
unfoldable pub insert_fact : String → String → Option Value → SourceRef → Option Fact → M Fact
unfolding now new_id
insert_fact project_id key value source_ref existing = do
  fact_id ← new_id "fact"
  at ← now
  f ← checked_fact (record {
    fact_id = fact_id;
    key = key;
    value = value;
    source_ref = source_ref;
    status = if from_asset existing then FactStatus.conflict else FactStatus.confirmed;
    conflicts_with = conflicting_id existing;
    created_at = some at;
  })
  add_fact project_id f
  pure f

abbrev reuse_or_insert : String → String → Option Value → SourceRef → Option Fact → M Fact
reuse_or_insert project_id key value source_ref none =
    insert_fact project_id key value source_ref none
reuse_or_insert project_id key value source_ref (some f) =
    if opt_beq f.value value then pure f else insert_fact project_id key value source_ref (some f)

-- `_upsert_fact`
unfoldable pub upsert_fact : String → String → Option Value → SourceRef → M Fact
unfolding insert_fact
upsert_fact project_id key value source_ref = do
  existing ← gets (λ w. get_by_key key (w.facts project_id))
  reuse_or_insert project_id key value source_ref existing

-- what the D3 guard reads from the stores
abbrev read_gate_context : Project → M (Option GateContext)
read_gate_context p = do
  version ← pinned_version p
  pack ← form_pack_of version
  findings ← gets (λ w. values (w.findings p.project_id))
  facts ← gets (λ w. w.facts p.project_id)
  materials ← gets (λ w. values (w.materials p.project_id))
  pure (
      some (record {
        findings = findings;
        facts = facts;
        materials = materials;
        form_pack = some pack;
      }))

abbrev pub gate_context_for : Project → ProjectState → M (Option GateContext)
gate_context_for p to_state =
    if to_state == ProjectState.gate_d3_passed then read_gate_context p else pure none

-- `transition` at the next reading of the clock and the next event identifier, which are drawn only
-- if it succeeds
unfoldable pub run_transition :
    Project → ProjectState → Actor → String → Detail → Option GateContext → M TransitionResult
unfolding now new_id
run_transition p to_state actor reason detail gate_context env w =
    elim (transition p to_state actor reason (env.clock w.readings) (env.fresh "event" w.drawn)
      detail gate_context) [
        | ok r ↦ (now >>= λ _. new_id "event" >>= λ _. pure r) env w
        | err e ↦ (err e, w)
      ]

-- `_transition`
unfoldable pub transition_to : Project → ProjectState → Actor → String → Detail → M Project
unfolding pinned_version form_pack_of run_transition
transition_to p to_state actor reason detail = do
  gate_context ← gate_context_for p to_state
  r ← run_transition p to_state actor reason detail gate_context
  save_project r.project
  add_audit p.project_id r.audit
  add_timeline p.project_id r.timeline
  pure r.project
