-- ===== src/Workflow/Drafts.antt =====
-- core/workflow_service.py: building, editing, deferring and freezing the form draft.
pub mod Freezing
use film_compliance_agent.Base.{
  ℕ, String, Bool, true, false, Option, none, some, List, [], ◌∷◌, ◌+++◌, last, is_empty, contains,
  ◌==◌, ◌||◌, ◌&&◌, not, string_eq, if◌then◌else◌, is_none,
}
use film_compliance_agent.Base.Dict.{keys}
use film_compliance_agent.Schemas.Enums.States.{ProjectState, project_state_eq, project_state_value}
use film_compliance_agent.Schemas.Enums.Review.{FactStatus, fact_status_eq, SourceRefType}
use film_compliance_agent.Schemas.Enums.Process.{Actor, ErrorCode}
use film_compliance_agent.Schemas.Common.{Time, SourceRef, Fact, Value}
use film_compliance_agent.Schemas.Project.{Project}
use film_compliance_agent.Schemas.Forms.{FormDraft, FormField, FormConflict, no_value}
use film_compliance_agent.Gate.{required_fact_keys}
use film_compliance_agent.StateMachine.{state_invalid}
use film_compliance_agent.Forms.{build_fields, pending_keys, deferred_keys, draft_hash}
use film_compliance_agent.Schemas.Json.{Json, Detail, end, entry, str, num, opt_str, strs}
use film_compliance_agent.Errors.{Error, app, Result, ok, err}
use film_compliance_agent.Store.{Stores, get_by_key}
use film_compliance_agent.Effects.{
  M, ◌>>=◌, ◌>>◌, pure, raise, lift, gets, asks, raise_if, now, new_id,
}
use film_compliance_agent.Workflow.Core.{
  not_found, validation_failed, conflict_error, or_raise, save_project, put_form,
  put_institution_review, save_finding, put_material, add_fact, checked_fact, get_project,
  record_event, pinned_version, form_pack_of, upsert_fact, transition_to,
}

-- `existing is not None and existing.frozen`
abbrev pub is_frozen : Option FormDraft → Bool
is_frozen none = false
is_frozen (some d) = d.frozen

abbrev pub inherited_id : Option FormDraft → M String
inherited_id none = new_id "draft"
inherited_id (some d) = pure d.draft_id

abbrev pub inherited_parent : Option FormDraft → Option String
inherited_parent none = none
inherited_parent (some d) = d.parent_draft

abbrev pub inherited_time : Option FormDraft → M (Option Time)
inherited_time none = now >>= λ at. pure (some at)
inherited_time (some d) = pure d.created_at

-- the second half of `form_draft`, for a draft that is not frozen
unfoldable pub rebuild_draft : String → Project → Option FormDraft → M FormDraft
unfolding pinned_version form_pack_of now new_id
rebuild_draft project_id project existing = do
  version ← pinned_version project
  pack ← form_pack_of version
  facts ← gets (λ w. w.facts project_id)
  built ← lift (build_fields (required_fact_keys (some pack)) facts)
  draft_id ← inherited_id existing
  created_at ← inherited_time existing
  let draft : FormDraft = record {
    draft_id = draft_id;
    form_type = "registration_publicity";
    frozen = false;
    fields = built.0;
    conflicts = built.1;
    hash = none;
    snapshot_version = version;
    confirmed_by_user_at = none;
    parent_draft = inherited_parent existing;
    created_at = created_at;
  }
  put_form project_id draft
  pure draft

abbrev pub frozen_or_rebuilt : String → Project → Option FormDraft → M FormDraft
frozen_or_rebuilt project_id project none = rebuild_draft project_id project none
frozen_or_rebuilt project_id project (some d) =
    if d.frozen then pure d else rebuild_draft project_id project (some d)

unfoldable pub form_draft : String → M FormDraft
unfolding get_project rebuild_draft
form_draft project_id = do
  project ← get_project project_id
  existing ← gets (λ w. last (w.forms project_id))
  frozen_or_rebuilt project_id project existing

-- the guards that `confirm_form_field` and `defer_form_field` share
unfoldable pub check_editable : FormDraft → String → M (Unit {0})
unfolding conflict_error not_found
check_editable draft key = do
  raise_if draft.frozen
      (conflict_error "a frozen form cannot be edited" (entry "draft_id" (str draft.draft_id) end))
  raise_if (not (contains (keys draft.fields) key))
      (not_found ("this form has no field named " +++ key) (entry "key" (str key) end))

abbrev pub user_answer : String → SourceRef
user_answer answer_id = record {
  type = SourceRefType.user_answer;
  asset_version = none;
  locator = none;
  answer_id = some answer_id;
  institution_id = none;
}

unfoldable pub confirm_form_field : String → String → Option Value → Option String → M FormDraft
unfolding form_draft check_editable validation_failed new_id upsert_fact record_event
confirm_form_field project_id key value reason = do
  draft ← form_draft project_id
  check_editable draft key
  raise_if (no_value value) (
      validation_failed "a confirmed field needs a value; leave it pending instead"
        (entry "key" (str key) end))
  answer_id ← new_id "fact"
  fact ← upsert_fact project_id key value (user_answer answer_id)
  event ←
      record_event project_id Actor.creator "form.field_confirmed"
        (entry "key" (str key) (entry "reason" (opt_str reason) end))
  form_draft project_id

abbrev pub is_confirmed : Option Fact → Bool
is_confirmed none = false
is_confirmed (some f) = f.status == FactStatus.confirmed

-- the fact that `defer_form_field` records: it has no value
unfoldable pub deferral : String → M Fact
unfolding now new_id
deferral key = do
  fact_id ← new_id "fact"
  answer_id ← new_id "fact"
  at ← now
  checked_fact (record {
    fact_id = fact_id;
    key = key;
    value = none;
    source_ref = user_answer answer_id;
    status = FactStatus.pending_institution;
    conflicts_with = none;
    created_at = some at;
  })

unfoldable pub defer_form_field : String → String → Option String → M FormDraft
unfolding form_draft check_editable validation_failed deferral record_event
defer_form_field project_id key reason = do
  draft ← form_draft project_id
  check_editable draft key
  existing ← gets (λ w. get_by_key key (w.facts project_id))
  raise_if (is_confirmed existing) (
      validation_failed "this field already has a confirmed value; deferring would discard it"
        (entry "key" (str key) end))
  fact ← deferral key
  add_fact project_id fact
  event ←
      record_event project_id Actor.creator "form.field_deferred"
        (entry "key" (str key) (entry "reason" (opt_str reason) end))
  form_draft project_id

abbrev pub frozen_copy : FormDraft → String → Time → FormDraft
frozen_copy d hash at = record d { frozen = true; hash = some hash; confirmed_by_user_at = some at }

-- the writes of `freeze_form`, once no key is outstanding
unfoldable pub seal : String → Project → FormDraft → M FormDraft
unfolding now record_event transition_to
seal project_id project draft = do
  hash ← asks (λ env. draft_hash env.digest draft)
  at ← now
  put_form project_id (frozen_copy draft hash at)
  event ← record_event project_id Actor.creator "form.frozen" (
      entry "draft_id" (str draft.draft_id) (
        entry "hash" (str hash)
          (entry "deferred" (strs (deferred_keys (frozen_copy draft hash at))) end)))
  after ← transition_to project ProjectState.form_frozen Actor.creator "form.frozen" end
  pure (frozen_copy draft hash at)

-- `freeze_form` where no frozen draft is stored
unfoldable pub freeze_open : String → Project → M FormDraft
unfolding form_draft seal state_invalid
freeze_open project_id project = do
  raise_if (not (project.state == ProjectState.gate_d3_passed)) (
      state_invalid "a form can only be frozen once the pre-shoot gate has passed"
        (entry "state" (str (project_state_value project.state)) end))
  draft ← form_draft project_id
  raise_if (not (is_empty (pending_keys draft))) (
      app ErrorCode.gate_blocked "every field must be filled or confirmed before freezing"
        (entry "pending" (strs (pending_keys draft)) end))
  seal project_id project draft

abbrev pub frozen_or_sealed : String → Project → Option FormDraft → M FormDraft
frozen_or_sealed project_id project none = freeze_open project_id project
frozen_or_sealed project_id project (some d) =
    if d.frozen then pure d else freeze_open project_id project

unfoldable pub freeze_form : String → M FormDraft
unfolding get_project freeze_open
freeze_form project_id = do
  project ← get_project project_id
  existing ← gets (λ w. last (w.forms project_id))
  frozen_or_sealed project_id project existing
