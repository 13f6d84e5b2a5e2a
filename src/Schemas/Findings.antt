-- ===== src/Schemas/Findings.antt =====
-- schemas/findings.py: findings, their alerts, and which of them hold the gate shut.
use film_compliance_agent.Base.{
  ℕ, String, Bool, true, false, Option, none, some, List, is_none, is_empty, not, ◌&&◌, ◌||◌, ◌==◌,
  if◌then◌else◌,
}
use film_compliance_agent.Schemas.Enums.Review.{
  AlertOption, FindingSeverity, FindingStatus, finding_severity_eq, finding_status_eq,
}
use film_compliance_agent.Schemas.Common.{Time, EvidenceRef}

pub record Locator : Type 0 where
  pub episode : Option ℕ
  pub scene : Option ℕ
  pub quote : String
  pub line : Option ℕ
  pub match_lines : List ℕ

pub record AlertDept : Type 0 where
  pub name : String
  pub practical_contact : Option String
  pub region_note : Option String

pub record AlertChoice : Type 0 where
  pub id : AlertOption
  pub action : String
  pub impact : String

pub record Alert : Type 0 where
  pub risk_reason : String
  pub dept : AlertDept
  pub options : List AlertChoice
  pub chosen_option : Option AlertOption
  pub chosen_at : Option Time

pub record Finding : Type 0 where
  pub finding_id : String
  pub asset_version : String
  pub locator : Locator
  pub category : String
  pub severity : FindingSeverity
  pub evidence_refs : List EvidenceRef
  pub dual_regime_conflict : Bool
  pub suggestion : Option String
  pub alert : Option Alert
  pub status : FindingStatus
  pub prompt_version : Option String
  pub snapshot_version : Option String
  pub analysis_generation : Option ℕ
  pub active : Bool
  pub created_at : Option Time

-- `enforce_evidence_rule`
unfoldable pub finding_ok : Finding → Bool
finding_ok f = not (
    (f.severity == FindingSeverity.block
      || f.severity == FindingSeverity.co_review_required
      || f.severity == FindingSeverity.caution)
    && is_empty f.evidence_refs)

-- `finding.alert is not None and finding.alert.chosen_option is None`
abbrev pub undispatched : Option Alert → Bool
undispatched none = false
undispatched (some a) = is_none a.chosen_option

-- the property `blocks_gate_d3`, its early returns in order
unfoldable pub blocks_gate_d3 : Finding → Bool
blocks_gate_d3 f =
    if not f.active
    then false
    else if f.status == FindingStatus.resolved
        || f.status == FindingStatus.waived
        || f.status == FindingStatus.rejected
    then false
    else if f.severity == FindingSeverity.block || f.severity == FindingSeverity.needs_human
    then true
    else if undispatched f.alert
    then true
    else false
