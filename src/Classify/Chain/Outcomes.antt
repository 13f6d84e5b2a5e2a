-- ===== src/Classify/Chain/Outcomes.antt =====
-- core/classify/chain.py: what the chain reads of the snapshots, its tables and what it proposes.
use film_compliance_agent.Base.{String, Bool, Option, none, some, List, leb, string_eq}
use film_compliance_agent.Schemas.Enums.States.{
  ProjectState, Tier, tier_eq, production_stage_eq, ExitKind,
}
use film_compliance_agent.Schemas.Enums.Review.{FindingSeverity}
use film_compliance_agent.Schemas.Enums.Process.{VerificationStatus}
use film_compliance_agent.Schemas.Common.{Time, Value, SourceRef}
use film_compliance_agent.Schemas.Findings.{Alert}
use film_compliance_agent.Schemas.Json.{Detail}
use film_compliance_agent.Schemas.Policy.{FormDefinitionPack, TierPack}
use film_compliance_agent.Schemas.Project.{Classification}
use film_compliance_agent.Errors.{raised, Result, ok, err}

-- a clause of the legal pack
pub record Clause : Type 0 where
  pub clause_id : String
  pub effective_from : Option Time

-- `in_force`: unknown where the date is
unfoldable pub in_force : Clause → Time → Option Bool
in_force c as_of = elim c.effective_from [ none ↦ none | some at ↦ some (leb at as_of) ]

-- what the chain reads of the snapshots
pub record SnapshotService : Type 0 where
  pub latest_version : Result String
  pub verification_status : String → Result VerificationStatus
  pub form_definition : String → Result FormDefinitionPack
  pub subject_rules : String → Result Detail
  pub tier_thresholds : String → Result TierPack
  pub process_templates : String → Result Detail
  pub clause : String → String → Result Clause

-- `EXIT_CARD_KEYS[kind]`
unfoldable pub exit_card_key : ExitKind → Result String
exit_card_key ExitKind.exit_non_drama = ok "exit.non_drama"
exit_card_key ExitKind.exit_sister_path = ok "exit.sister_path"
exit_card_key _ = err (raised "KeyError")

-- `EXIT_STATE[kind]`
unfoldable pub exit_state : ExitKind → Result ProjectState
exit_state ExitKind.exit_non_drama = ok ProjectState.exit_non_drama
exit_state ExitKind.exit_sister_path = ok ProjectState.exit_sister_path
exit_state _ = err (raised "KeyError")

-- `ROADMAP_TEMPLATE_BY_TIER[tier]`
unfoldable pub roadmap_template : Tier → Result String
roadmap_template Tier.t1 = ok "T1_7steps"
roadmap_template Tier.t2 = ok "T2_5steps"
roadmap_template Tier.t3 = ok "T3_4steps"
roadmap_template Tier.undetermined = err (raised "KeyError")

abbrev pub form_clause_id : String
form_clause_id = "nrta-order-16-article-2"

abbrev pub tier_clause_id : String
tier_clause_id = "nrta-order-16-article-5"

pub record ExitOutcome : Type 0 where
  pub kind : ExitKind
  pub obligations : List String
  pub card_key : String

pub record ProposedFact : Type 0 where
  pub key : String
  pub value : Value
  pub source_ref : SourceRef

pub record RoadmapPreview : Type 0 where
  pub template : String
  pub comparison_card : Option (List (String × String))

pub record ClassificationOutcome : Type 0 where
  pub classification : Option Classification
  pub exit : Option ExitOutcome
  pub next_state : Option ProjectState
  pub ask_back : List String
  pub roadmap_preview : Option RoadmapPreview
  pub alert : Option Alert
  pub alert_category : Option String
  pub alert_severity : Option FindingSeverity
  pub facts : List ProposedFact
  pub reasons : List String
