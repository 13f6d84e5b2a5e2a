-- ===== src/Schemas/Enums/Process.antt =====
-- schemas/enums.py: tasks, institutions, notices, actors and error codes. `VerificationStatus` is of schemas/policy_snapshot.py.
-- Every enumeration is compared by its members, and `_value` is the text of a member.
use film_compliance_agent.Base.{beq_of, beq_of_iff, Comparable, String}

pub data TaskStatus : Type 0 where
  queued running succeeded failed needs_human : TaskStatus

unfoldable pub TaskStatus-discrete : Discrete TaskStatus
TaskStatus-discrete = hlevel

instance abbrev pub task_status_eq : Comparable TaskStatus
task_status_eq = record {
  same_as = beq_of TaskStatus-discrete;
  same_iff = beq_of_iff TaskStatus-discrete;
}

unfoldable pub task_status_value : TaskStatus → String
task_status_value TaskStatus.queued = "queued"
task_status_value TaskStatus.running = "running"
task_status_value TaskStatus.succeeded = "succeeded"
task_status_value TaskStatus.failed = "failed"
task_status_value TaskStatus.needs_human = "needs_human"

pub data TaskType : Type 0 where
  fact_extract review_full review_incremental form_generate teaser policy_crawl : TaskType
  us_research : TaskType

unfoldable pub TaskType-discrete : Discrete TaskType
TaskType-discrete = hlevel

instance abbrev pub task_type_eq : Comparable TaskType
task_type_eq = record {
  same_as = beq_of TaskType-discrete;
  same_iff = beq_of_iff TaskType-discrete;
}

unfoldable pub task_type_value : TaskType → String
task_type_value TaskType.fact_extract = "fact_extract"
task_type_value TaskType.review_full = "review_full"
task_type_value TaskType.review_incremental = "review_incremental"
task_type_value TaskType.form_generate = "form_generate"
task_type_value TaskType.teaser = "teaser"
task_type_value TaskType.policy_crawl = "policy_crawl"
task_type_value TaskType.us_research = "us_research"

pub data InstitutionDecision : Type 0 where
  accept return escalate pending : InstitutionDecision

unfoldable pub InstitutionDecision-discrete : Discrete InstitutionDecision
InstitutionDecision-discrete = hlevel

instance abbrev pub institution_decision_eq : Comparable InstitutionDecision
institution_decision_eq = record {
  same_as = beq_of InstitutionDecision-discrete;
  same_iff = beq_of_iff InstitutionDecision-discrete;
}

unfoldable pub institution_decision_value : InstitutionDecision → String
institution_decision_value InstitutionDecision.accept = "accept"
institution_decision_value InstitutionDecision.return = "return"
institution_decision_value InstitutionDecision.escalate = "escalate"
institution_decision_value InstitutionDecision.pending = "pending"

pub data NotificationKind : Type 0 where
  review_done gate_ready policy_stale tier_recalculated institution_returned : NotificationKind
  task_failed : NotificationKind

unfoldable pub NotificationKind-discrete : Discrete NotificationKind
NotificationKind-discrete = hlevel

instance abbrev pub notification_kind_eq : Comparable NotificationKind
notification_kind_eq = record {
  same_as = beq_of NotificationKind-discrete;
  same_iff = beq_of_iff NotificationKind-discrete;
}

unfoldable pub notification_kind_value : NotificationKind → String
notification_kind_value NotificationKind.review_done = "review_done"
notification_kind_value NotificationKind.gate_ready = "gate_ready"
notification_kind_value NotificationKind.policy_stale = "policy_stale"
notification_kind_value NotificationKind.tier_recalculated = "tier_recalculated"
notification_kind_value NotificationKind.institution_returned = "institution_returned"
notification_kind_value NotificationKind.task_failed = "task_failed"

pub data Role : Type 0 where
  creator institution admin : Role

unfoldable pub Role-discrete : Discrete Role
Role-discrete = hlevel

instance abbrev pub role_eq : Comparable Role
role_eq = record { same_as = beq_of Role-discrete; same_iff = beq_of_iff Role-discrete }

pub data Actor : Type 0 where
  system creator institution admin user : Actor

unfoldable pub Actor-discrete : Discrete Actor
Actor-discrete = hlevel

instance abbrev pub actor_eq : Comparable Actor
actor_eq = record { same_as = beq_of Actor-discrete; same_iff = beq_of_iff Actor-discrete }

pub data ErrorCode : Type 0 where
  validation_error not_found forbidden conflict gate_blocked state_invalid : ErrorCode
  upstream_llm_error rate_limited unsupported_script_type unreadable_script : ErrorCode
  script_too_large artifact_unavailable artifact_generation_failed : ErrorCode

unfoldable pub ErrorCode-discrete : Discrete ErrorCode
ErrorCode-discrete = hlevel

instance abbrev pub error_code_eq : Comparable ErrorCode
error_code_eq = record {
  same_as = beq_of ErrorCode-discrete;
  same_iff = beq_of_iff ErrorCode-discrete;
}

unfoldable pub error_code_value : ErrorCode → String
error_code_value ErrorCode.validation_error = "VALIDATION_ERROR"
error_code_value ErrorCode.not_found = "NOT_FOUND"
error_code_value ErrorCode.forbidden = "FORBIDDEN"
error_code_value ErrorCode.conflict = "CONFLICT"
error_code_value ErrorCode.gate_blocked = "GATE_BLOCKED"
error_code_value ErrorCode.state_invalid = "STATE_INVALID"
error_code_value ErrorCode.upstream_llm_error = "UPSTREAM_LLM_ERROR"
error_code_value ErrorCode.rate_limited = "RATE_LIMITED"
error_code_value ErrorCode.unsupported_script_type = "UNSUPPORTED_SCRIPT_TYPE"
error_code_value ErrorCode.unreadable_script = "UNREADABLE_SCRIPT"
error_code_value ErrorCode.script_too_large = "SCRIPT_TOO_LARGE"
error_code_value ErrorCode.artifact_unavailable = "ARTIFACT_UNAVAILABLE"
error_code_value ErrorCode.artifact_generation_failed = "ARTIFACT_GENERATION_FAILED"

pub data VerificationStatus : Type 0 where
  mock_verified human_verified : VerificationStatus

unfoldable pub VerificationStatus-discrete : Discrete VerificationStatus
VerificationStatus-discrete = hlevel

instance abbrev pub verification_status_eq : Comparable VerificationStatus
verification_status_eq = record {
  same_as = beq_of VerificationStatus-discrete;
  same_iff = beq_of_iff VerificationStatus-discrete;
}
