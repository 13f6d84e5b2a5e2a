-- ===== src/Schemas/Workflow.antt =====
-- schemas/workflow.py: tasks, notifications, licence checks and institution reviews.
use film_compliance_agent.Base.{
  ℕ, String, Bool, false, Option, none, some, List, is_empty, is_blank, not, ◌&&◌, ◌==◌,
}
use film_compliance_agent.Schemas.Enums.Process.{
  TaskType, TaskStatus, NotificationKind, InstitutionDecision, institution_decision_eq,
}
use film_compliance_agent.Schemas.Common.{Time}
use film_compliance_agent.Schemas.Json.{Detail}

pub record WorkflowTask : Type 0 where
  pub task_id : String
  pub project_id : String
  pub type : TaskType
  pub status : TaskStatus
  pub idempotency_key : String
  pub payload : Detail
  pub result : Option Detail
  pub error : Option String
  pub retries : ℕ
  pub created_at : Option Time
  pub updated_at : Option Time

pub record Notification : Type 0 where
  pub notification_id : String
  pub user_id : String
  pub project_id : Option String
  pub kind : NotificationKind
  pub title_key : String
  pub body_key : String
  pub params : Detail
  pub link : Option String
  pub read : Bool
  pub created_at : Option Time

pub record LicenseCheck : Type 0 where
  pub institution_id : Option String
  pub valid_until : Option String
  pub capital_ok : Option Bool
  pub no_foreign_ok : Option Bool
  pub mock : Bool
  pub reasons : List String

-- `bool(x)` for a test that may be unknown
abbrev pub truthy : Option Bool → Bool
truthy none = false
truthy (some b) = b

-- the property `valid`
unfoldable pub license_valid : LicenseCheck → Bool
license_valid c = truthy c.capital_ok && truthy c.no_foreign_ok && is_empty c.reasons

pub record InstitutionReview : Type 0 where
  pub review_id : String
  pub institution_id : Option String
  pub agreement_draft_uri : Option String
  pub license_check : Option LicenseCheck
  pub decision : InstitutionDecision
  pub return_comments : Option String
  pub signed_agreement_uri : Option String
  pub decided_at : Option Time
  pub created_at : Option Time

-- `validate_decision`
unfoldable pub institution_review_ok : InstitutionReview → Bool
institution_review_ok r =
    not (r.decision == InstitutionDecision.accept && is_blank r.signed_agreement_uri)
    && not (r.decision == InstitutionDecision.return && is_blank r.return_comments)

pub record MockInstitution : Type 0 where
  pub institution_id : String
  pub name : String
  pub license_no : String
  pub valid_until : String
  pub registered_capital_rmb : ℕ
  pub has_foreign : Bool
