-- ===== src/Schemas/Project.antt =====
-- schemas/project.py: the project document with its intent, channels, classification and roadmap.
-- Running times are counted in millionths of a minute, confidences in millionths.
use film_compliance_agent.Base.{ℕ, String, Bool, Option, List, not, ◌&&◌, ◌==◌, is_blank}
use film_compliance_agent.Schemas.Enums.States.{
  ProjectState, project_state_eq, Phase, FormType, ClaimedFormType, Tier, ProductionStage,
  AmountBracket,
}
use film_compliance_agent.Schemas.Enums.Process.{VerificationStatus}
use film_compliance_agent.Schemas.Common.{Time, EvidenceRef}
use film_compliance_agent.Schemas.Json.{Detail}

pub record IntentProfile : Type 0 where
  pub form_type_claimed : ClaimedFormType
  pub genre_keywords : List String
  pub synopsis : Option String
  pub episode_count : Option ℕ
  pub episode_minutes : Option ℕ
  pub amount_bracket : AmountBracket
  pub investment_amount_rmb : Option ℕ
  pub is_ai_generated : Option Bool
  pub production_stage : ProductionStage
  pub platform_promoted : Option Bool
  pub voluntary_key_declaration : Option Bool
  pub source : String

pub record ChannelProfile : Type 0 where
  pub domestic_platforms : List String
  pub overseas : List String
  pub theatrical_intent : Bool
  pub china : Bool
  pub us : Bool

pub record MatchedRule : Type 0 where
  pub rule_id : String
  pub quote : String
  pub confidence : ℕ
  pub stage : String

pub record Classification : Type 0 where
  pub form_type : FormType
  pub tier : Tier
  pub tier_provisional : Bool
  pub special_subject_hit : Bool
  pub co_review_required : Bool
  pub matched_rules : List MatchedRule
  pub confidence : ℕ
  pub policy_snapshot_version : String
  pub policy_verification_status : VerificationStatus
  pub pending_flags : List String
  pub evidence_refs : List EvidenceRef
  pub dept : Option Detail
  pub filing_route : Option Detail
  pub decided_at : Option Time

pub record RoadmapStep : Type 0 where
  pub idx : ℕ
  pub name : String
  pub owner : String
  pub material_refs : List String
  pub status : String
  pub est_weeks : Option ℕ

pub record Roadmap : Type 0 where
  pub template : String
  pub steps : List RoadmapStep
  pub current_step_idx : ℕ
  pub confirmed : Bool

pub record Project : Type 0 where
  pub project_id : String
  pub owner_uid : String
  pub title_working : Option String
  pub phase : Phase
  pub state : ProjectState
  pub intent_profile : IntentProfile
  pub channel_profile : ChannelProfile
  pub classification : Option Classification
  pub roadmap : Option Roadmap
  pub registration_number : Option String
  pub policy_stale : Bool
  pub created_at : Time
  pub updated_at : Time

-- `validate_filing`
unfoldable pub project_ok : Project → Bool
project_ok p = not (p.state == ProjectState.filed && is_blank p.registration_number)
