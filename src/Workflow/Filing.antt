-- ===== src/Workflow/Filing.antt =====
-- core/workflow_service.py: the institution's review and the filing.
pub mod Registration
pub mod Verdicts
use film_compliance_agent.Base.{
  ℕ, String, Bool, true, false, Option, none, some, List, [], ◌∷◌, ◌+++◌, last, contains, ◌==◌,
  ◌||◌, ◌&&◌, not, string_eq, if◌then◌else◌,
}
use film_compliance_agent.Base.Dict.{lookup}
use film_compliance_agent.Base.Strip.{strip, is_blank_text}
use film_compliance_agent.Schemas.Enums.States.{ProjectState, project_state_eq, project_state_value}
use film_compliance_agent.Schemas.Enums.Process.{
  Actor, InstitutionDecision, institution_decision_eq, institution_decision_value,
}
use film_compliance_agent.Schemas.Common.{Time}
use film_compliance_agent.Schemas.Project.{Project}
use film_compliance_agent.Schemas.Forms.{FormDraft}
use film_compliance_agent.Schemas.Workflow.{InstitutionReview, LicenseCheck, license_valid}
use film_compliance_agent.StateMachine.{state_invalid, at_state}
use film_compliance_agent.Institution.{check_licence}
use film_compliance_agent.Workflow.Drafts.{is_frozen}
use film_compliance_agent.Schemas.Json.{Json, Detail, end, entry, str, num, opt_str, strs}
use film_compliance_agent.Errors.{Error, app, Result, ok, err}
use film_compliance_agent.Store.{Stores, get_by_key}
use film_compliance_agent.Effects.{
  M, ◌>>=◌, ◌>>◌, pure, raise, lift, gets, asks, raise_if, now, new_id,
}
use film_compliance_agent.Workflow.Core.{
  not_found, validation_failed, conflict_error, or_raise, save_project, put_form,
  put_institution_review, save_finding, put_material, add_fact, checked_fact, get_project,
  record_event, pinned_version, form_pack_of, upsert_fact, transition_to,
}

abbrev pub reasons_of : Option LicenseCheck → List String
reasons_of none = "no_license_check" ∷ []
reasons_of (some c) = c.reasons

abbrev pub stored_reasons : Option LicenseCheck → List String
stored_reasons none = []
stored_reasons (some c) = c.reasons

unfoldable pub submit_to_institution : String → String → M (Project × InstitutionReview)
unfolding state_invalid get_project now new_id record_event transition_to
submit_to_institution project_id institution_id = do
  project ← get_project project_id
  raise_if
      (not
        (contains (ProjectState.form_frozen ∷ ProjectState.institution_review ∷ []) project.state))
      (state_invalid "the form must be frozen before it goes to an institution" (at_state project))
  review_id ← new_id "review"
  institution ← gets (λ w. lookup institution_id w.institutions)
  at ← now
  let check = check_licence institution_id institution
  let review : InstitutionReview = record {
    review_id = review_id;
    institution_id = some institution_id;
    agreement_draft_uri = none;
    license_check = some check;
    decision = InstitutionDecision.pending;
    return_comments = none;
    signed_agreement_uri = none;
    decided_at = none;
    created_at = some at;
  }
  put_institution_review project_id review
  event ← record_event project_id Actor.creator "institution.submitted" (
      entry "institution_id" (str institution_id)
        (entry "license_reasons" (strs check.reasons) end))
  after ←
      transition_to project ProjectState.institution_review Actor.creator "institution.submitted"
        end
  pure (after, review)

-- `InstitutionDecision(decision)`
unfoldable pub decision_named : String → Option InstitutionDecision
decision_named s =
    if s == "accept"
    then some InstitutionDecision.accept
    else if s == "return"
    then some InstitutionDecision.return
    else if s == "escalate"
    then some InstitutionDecision.escalate
    else if s == "pending"
    then some InstitutionDecision.pending
    else none

-- `review.license_check is None or not review.license_check.valid`
abbrev pub licence_passed : Option LicenseCheck → Bool
licence_passed none = false
licence_passed (some c) = license_valid c

-- the guards of a verdict
unfoldable pub check_verdict :
    InstitutionDecision → InstitutionReview → Option String → Option String → M (Unit {0})
unfolding validation_failed
check_verdict verdict review return_comments signed_agreement_uri = do
  raise_if (verdict == InstitutionDecision.accept && is_blank_text signed_agreement_uri) (
      validation_failed "accepting requires the signed agreement"
        (entry "field" (str "signed_agreement_uri") end))
  raise_if (verdict == InstitutionDecision.accept && not (licence_passed review.license_check)) (
      validation_failed "the mock license check did not pass for this institution"
        (entry "reasons" (strs (reasons_of review.license_check)) end))
  raise_if (verdict == InstitutionDecision.return && is_blank_text return_comments) (
      validation_failed "returning a project requires comments"
        (entry "field" (str "return_comments") end))

abbrev pub decided_review :
    InstitutionReview
    → InstitutionDecision
    → Option String
    → Option String
    → Time
    → InstitutionReview
decided_review review verdict return_comments signed_agreement_uri at = record review {
  decision = verdict;
  return_comments = return_comments;
  signed_agreement_uri = signed_agreement_uri;
  decided_at = some at;
}

unfoldable pub target_of : InstitutionDecision → Option ProjectState
target_of InstitutionDecision.accept = some ProjectState.ready_for_external_filing
target_of InstitutionDecision.return = some ProjectState.institution_returned
target_of InstitutionDecision.escalate = none
target_of InstitutionDecision.pending = none

-- the move to the state of a verdict
unfoldable pub follow : Project → InstitutionDecision → Option ProjectState → M Project
unfolding transition_to
follow project verdict none = pure project
follow project verdict (some target) =
    transition_to project target Actor.institution
      ("institution." +++ institution_decision_value verdict) end

-- the writes of a verdict that passed its guards
unfoldable pub enact :
    String
    → Project
    → InstitutionReview
    → InstitutionDecision
    → Option String
    → Option String
    → M (Project × InstitutionReview)
unfolding now record_event follow
enact project_id project review verdict return_comments signed_agreement_uri = do
  at ← now
  let updated = decided_review review verdict return_comments signed_agreement_uri at
  put_institution_review project_id updated
  event ← record_event project_id Actor.institution "institution.decided" (
      entry "decision" (str (institution_decision_value verdict))
        (entry "review_id" (str updated.review_id) end))
  after ← follow project verdict (target_of verdict)
  pure (after, updated)

unfoldable pub decide_institution_review :
    String → String → Option String → Option String → M (Project × InstitutionReview)
unfolding get_project not_found validation_failed check_verdict enact
decide_institution_review project_id decision return_comments signed_agreement_uri = do
  project ← get_project project_id
  latest ← gets (λ w. last (w.institution_reviews project_id))
  review ←
      or_raise
        (not_found "this project has not been submitted to an institution"
          (entry "project_id" (str project_id) end))
        latest
  verdict ←
      or_raise
        (validation_failed ("unknown decision: " +++ decision)
          (entry "decision" (str decision) end))
        (decision_named decision)
  check_verdict verdict review return_comments signed_agreement_uri
  enact project_id project review verdict return_comments signed_agreement_uri

abbrev pub registered : Project → String → Time → Project
registered p number at = record p { registration_number = some number; updated_at = at }

unfoldable pub record_filing : String → String → M Project
unfolding validation_failed get_project now record_event transition_to
record_filing project_id registration_number = do
  raise_if (is_blank_text (some registration_number)) (
      validation_failed "a filing needs the registration number a human received"
        (entry "field" (str "registration_number") end))
  project ← get_project project_id
  at ← now
  let updated = registered project (strip registration_number) at
  save_project updated
  event ←
      record_event project_id Actor.institution "filing.recorded"
        (entry "registration_number" (str (strip registration_number)) end)
  transition_to updated ProjectState.filed Actor.institution "filing.recorded" end
