-- ===== src/Schemas/Enums/Review.antt =====
-- schemas/enums.py: findings, materials, fields and facts.
-- Every enumeration is compared by its members, and `_value` is the text of a member.
use film_compliance_agent.Base.{beq_of, beq_of_iff, Comparable, String}

pub data FindingSeverity : Type 0 where
  block co_review_required caution pass needs_human : FindingSeverity

unfoldable pub FindingSeverity-discrete : Discrete FindingSeverity
FindingSeverity-discrete = hlevel

instance abbrev pub finding_severity_eq : Comparable FindingSeverity
finding_severity_eq = record {
  same_as = beq_of FindingSeverity-discrete;
  same_iff = beq_of_iff FindingSeverity-discrete;
}

pub data FindingStatus : Type 0 where
  «open» accepted rejected self_fixed resolved waived : FindingStatus

unfoldable pub FindingStatus-discrete : Discrete FindingStatus
FindingStatus-discrete = hlevel

instance abbrev pub finding_status_eq : Comparable FindingStatus
finding_status_eq = record {
  same_as = beq_of FindingStatus-discrete;
  same_iff = beq_of_iff FindingStatus-discrete;
}

unfoldable pub finding_status_value : FindingStatus → String
finding_status_value FindingStatus.«open» = "open"
finding_status_value FindingStatus.accepted = "accepted"
finding_status_value FindingStatus.rejected = "rejected"
finding_status_value FindingStatus.self_fixed = "self_fixed"
finding_status_value FindingStatus.resolved = "resolved"
finding_status_value FindingStatus.waived = "waived"

pub data AlertOption : Type 0 where
  a_keep_and_coreview b_modify c_escalate : AlertOption

unfoldable pub AlertOption-discrete : Discrete AlertOption
AlertOption-discrete = hlevel

instance abbrev pub alert_option_eq : Comparable AlertOption
alert_option_eq = record {
  same_as = beq_of AlertOption-discrete;
  same_iff = beq_of_iff AlertOption-discrete;
}

unfoldable pub alert_option_value : AlertOption → String
alert_option_value AlertOption.a_keep_and_coreview = "A_keep_and_coreview"
alert_option_value AlertOption.b_modify = "B_modify"
alert_option_value AlertOption.c_escalate = "C_escalate"

pub data MaterialStatus : Type 0 where
  pending uploaded validating valid invalid waived : MaterialStatus

unfoldable pub MaterialStatus-discrete : Discrete MaterialStatus
MaterialStatus-discrete = hlevel

instance abbrev pub material_status_eq : Comparable MaterialStatus
material_status_eq = record {
  same_as = beq_of MaterialStatus-discrete;
  same_iff = beq_of_iff MaterialStatus-discrete;
}

unfoldable pub material_status_value : MaterialStatus → String
material_status_value MaterialStatus.pending = "pending"
material_status_value MaterialStatus.uploaded = "uploaded"
material_status_value MaterialStatus.validating = "validating"
material_status_value MaterialStatus.valid = "valid"
material_status_value MaterialStatus.invalid = "invalid"
material_status_value MaterialStatus.waived = "waived"

pub data FieldStatus : Type 0 where
  filled pending conflict pending_institution : FieldStatus

unfoldable pub FieldStatus-discrete : Discrete FieldStatus
FieldStatus-discrete = hlevel

instance abbrev pub field_status_eq : Comparable FieldStatus
field_status_eq = record {
  same_as = beq_of FieldStatus-discrete;
  same_iff = beq_of_iff FieldStatus-discrete;
}

unfoldable pub field_status_value : FieldStatus → String
field_status_value FieldStatus.filled = "filled"
field_status_value FieldStatus.pending = "pending"
field_status_value FieldStatus.conflict = "conflict"
field_status_value FieldStatus.pending_institution = "pending_institution"

pub data FactStatus : Type 0 where
  confirmed conflict pending_institution : FactStatus

unfoldable pub FactStatus-discrete : Discrete FactStatus
FactStatus-discrete = hlevel

instance abbrev pub fact_status_eq : Comparable FactStatus
fact_status_eq = record {
  same_as = beq_of FactStatus-discrete;
  same_iff = beq_of_iff FactStatus-discrete;
}

pub data SourceRefType : Type 0 where
  asset user_answer institution : SourceRefType

unfoldable pub SourceRefType-discrete : Discrete SourceRefType
SourceRefType-discrete = hlevel

instance abbrev pub source_ref_type_eq : Comparable SourceRefType
source_ref_type_eq = record {
  same_as = beq_of SourceRefType-discrete;
  same_iff = beq_of_iff SourceRefType-discrete;
}

unfoldable pub source_ref_type_value : SourceRefType → String
source_ref_type_value SourceRefType.asset = "asset"
source_ref_type_value SourceRefType.user_answer = "user_answer"
source_ref_type_value SourceRefType.institution = "institution"

pub data AssetKind : Type 0 where
  synopsis script supporting_document prompts final_film subtitle_sheet : AssetKind

unfoldable pub AssetKind-discrete : Discrete AssetKind
AssetKind-discrete = hlevel

instance abbrev pub asset_kind_eq : Comparable AssetKind
asset_kind_eq = record {
  same_as = beq_of AssetKind-discrete;
  same_iff = beq_of_iff AssetKind-discrete;
}

unfoldable pub asset_kind_value : AssetKind → String
asset_kind_value AssetKind.synopsis = "synopsis"
asset_kind_value AssetKind.script = "script"
asset_kind_value AssetKind.supporting_document = "supporting_document"
asset_kind_value AssetKind.prompts = "prompts"
asset_kind_value AssetKind.final_film = "final_film"
asset_kind_value AssetKind.subtitle_sheet = "subtitle_sheet"
