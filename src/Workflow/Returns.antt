-- ===== src/Workflow/Returns.antt =====
-- core/workflow_service.py: the way back after a return, with a successor of the frozen draft.
pub mod Resumption
use film_compliance_agent.Base.{
  ℕ, String, Bool, true, false, Option, none, some, List, [], ◌∷◌, ◌+++◌, last, contains, ◌==◌,
  ◌||◌, ◌&&◌, not, string_eq, if◌then◌else◌,
}
use film_compliance_agent.Base.Dict.{lookup}
use film_compliance_agent.Base.Strip.{strip, is_blank_text}
use film_compliance_agent.Schemas.Enums.States.{ProjectState, project_state_eq, project_state_value}
use film_compliance_agent.Schemas.Enums.Process.{
  Actor, InstitutionDecision, institution_decision_eq, institution_decision_value,
}
use film_compliance_agent.Schemas.Common.{Time}
use film_compliance_agent.Schemas.Project.{Project}
use film_compliance_agent.Schemas.Forms.{FormDraft}
use film_compliance_agent.Schemas.Workflow.{InstitutionReview, LicenseCheck, license_valid}
use film_compliance_agent.StateMachine.{state_invalid, at_state}
use film_compliance_agent.Institution.{check_licence}
use film_compliance_agent.Workflow.Drafts.{is_frozen}
use film_compliance_agent.Schemas.Json.{Json, Detail, end, entry, str, num, opt_str, strs}
use film_compliance_agent.Errors.{Error, app, Result, ok, err}
use film_compliance_agent.Store.{Stores, get_by_key}
use film_compliance_agent.Effects.{
  M, ◌>>=◌, ◌>>◌, pure, raise, lift, gets, asks, raise_if, now, new_id,
}
use film_compliance_agent.Workflow.Core.{
  not_found, validation_failed, conflict_error, or_raise, save_project, put_form,
  put_institution_review, save_finding, put_material, add_fact, checked_fact, get_project,
  record_event, pinned_version, form_pack_of, upsert_fact, transition_to,
}

abbrev pub comments_of : Option InstitutionReview → Option String
comments_of none = none
comments_of (some r) = r.return_comments

abbrev pub superseded : Option FormDraft → Option String
superseded none = none
superseded (some d) = if d.frozen then some d.draft_id else none

-- the successor of a frozen draft
abbrev pub successor : FormDraft → String → Time → FormDraft
successor d draft_id at = record {
  draft_id = draft_id;
  form_type = d.form_type;
  frozen = false;
  fields = [];
  conflicts = [];
  hash = none;
  snapshot_version = d.snapshot_version;
  confirmed_by_user_at = none;
  parent_draft = some d.draft_id;
  created_at = some at;
}

abbrev pub put_successor : String → FormDraft → M (Unit {0})
put_successor project_id d = do
  draft_id ← new_id "draft"
  at ← now
  put_form project_id (successor d draft_id at)

unfoldable pub supersede : String → Option FormDraft → M (Unit {0})
unfolding now new_id
supersede project_id none = pure tt
supersede project_id (some d) = if d.frozen then put_successor project_id d else pure tt

unfoldable pub resume_after_return : String → M Project
unfolding get_project state_invalid supersede record_event transition_to
resume_after_return project_id = do
  project ← get_project project_id
  raise_if (not (project.state == ProjectState.institution_returned))
      (state_invalid "only a returned project can resume the revision loop" (at_state project))
  review ← gets (λ w. last (w.institution_reviews project_id))
  frozen_draft ← gets (λ w. last (w.forms project_id))
  supersede project_id frozen_draft
  event ← record_event project_id Actor.creator "institution.return_acknowledged" (
      entry "comments" (opt_str (comments_of review))
        (entry "supersedes_draft" (opt_str (superseded frozen_draft)) end))
  transition_to project ProjectState.revision_loop Actor.creator "institution.returned_for_revision"
      end
