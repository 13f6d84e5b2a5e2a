-- ===== src/Schemas/Enums/States.antt =====
-- schemas/enums.py: the states, forms and tiers of a project.
-- Every enumeration is compared by its members, and `_value` is the text of a member.
use film_compliance_agent.Base.{beq_of, beq_of_iff, Comparable, String}

pub data ProjectState : Type 0 where
  draft intake_done form_judged classified roadmap_confirmed collecting_materials : ProjectState
  review_running revision_loop gate_d3_passed form_frozen institution_review : ProjectState
  institution_returned ready_for_external_filing filed production : ProjectState
  needs_human_formtype needs_human_subject exit_non_drama exit_t2 exit_t3 : ProjectState
  exit_sister_path : ProjectState

unfoldable pub ProjectState-discrete : Discrete ProjectState
ProjectState-discrete = hlevel

instance abbrev pub project_state_eq : Comparable ProjectState
project_state_eq = record {
  same_as = beq_of ProjectState-discrete;
  same_iff = beq_of_iff ProjectState-discrete;
}

unfoldable pub project_state_value : ProjectState → String
project_state_value ProjectState.draft = "DRAFT"
project_state_value ProjectState.intake_done = "INTAKE_DONE"
project_state_value ProjectState.form_judged = "FORM_JUDGED"
project_state_value ProjectState.classified = "CLASSIFIED"
project_state_value ProjectState.roadmap_confirmed = "ROADMAP_CONFIRMED"
project_state_value ProjectState.collecting_materials = "COLLECTING_MATERIALS"
project_state_value ProjectState.review_running = "REVIEW_RUNNING"
project_state_value ProjectState.revision_loop = "REVISION_LOOP"
project_state_value ProjectState.gate_d3_passed = "GATE_D3_PASSED"
project_state_value ProjectState.form_frozen = "FORM_FROZEN"
project_state_value ProjectState.institution_review = "INSTITUTION_REVIEW"
project_state_value ProjectState.institution_returned = "INSTITUTION_RETURNED"
project_state_value ProjectState.ready_for_external_filing = "READY_FOR_EXTERNAL_FILING"
project_state_value ProjectState.filed = "FILED"
project_state_value ProjectState.production = "PRODUCTION"
project_state_value ProjectState.needs_human_formtype = "NEEDS_HUMAN_FORMTYPE"
project_state_value ProjectState.needs_human_subject = "NEEDS_HUMAN_SUBJECT"
project_state_value ProjectState.exit_non_drama = "EXIT_NON_DRAMA"
project_state_value ProjectState.exit_t2 = "EXIT_T2"
project_state_value ProjectState.exit_t3 = "EXIT_T3"
project_state_value ProjectState.exit_sister_path = "EXIT_SISTER_PATH"

pub data Phase : Type 0 where
  pre_shoot production final_review : Phase

unfoldable pub Phase-discrete : Discrete Phase
Phase-discrete = hlevel

instance abbrev pub phase_eq : Comparable Phase
phase_eq = record { same_as = beq_of Phase-discrete; same_iff = beq_of_iff Phase-discrete }

pub data FormType : Type 0 where
  micro_drama web_film non_drama undetermined : FormType

unfoldable pub FormType-discrete : Discrete FormType
FormType-discrete = hlevel

instance abbrev pub form_type_eq : Comparable FormType
form_type_eq = record {
  same_as = beq_of FormType-discrete;
  same_iff = beq_of_iff FormType-discrete;
}

pub data ClaimedFormType : Type 0 where
  micro_drama web_film single_video anime unknown : ClaimedFormType

unfoldable pub ClaimedFormType-discrete : Discrete ClaimedFormType
ClaimedFormType-discrete = hlevel

instance abbrev pub claimed_form_type_eq : Comparable ClaimedFormType
claimed_form_type_eq = record {
  same_as = beq_of ClaimedFormType-discrete;
  same_iff = beq_of_iff ClaimedFormType-discrete;
}

pub data Tier : Type 0 where
  t1 t2 t3 undetermined : Tier

unfoldable pub Tier-discrete : Discrete Tier
Tier-discrete = hlevel

instance abbrev pub tier_eq : Comparable Tier
tier_eq = record { same_as = beq_of Tier-discrete; same_iff = beq_of_iff Tier-discrete }

unfoldable pub tier_value : Tier → String
tier_value Tier.t1 = "T1"
tier_value Tier.t2 = "T2"
tier_value Tier.t3 = "T3"
tier_value Tier.undetermined = "undetermined"

pub data ProductionStage : Type 0 where
  idea script_ready production_complete unknown : ProductionStage

unfoldable pub ProductionStage-discrete : Discrete ProductionStage
ProductionStage-discrete = hlevel

instance abbrev pub production_stage_eq : Comparable ProductionStage
production_stage_eq = record {
  same_as = beq_of ProductionStage-discrete;
  same_iff = beq_of_iff ProductionStage-discrete;
}

pub data AmountBracket : Type 0 where
  below_lower between at_or_above_upper unknown : AmountBracket

unfoldable pub AmountBracket-discrete : Discrete AmountBracket
AmountBracket-discrete = hlevel

instance abbrev pub amount_bracket_eq : Comparable AmountBracket
amount_bracket_eq = record {
  same_as = beq_of AmountBracket-discrete;
  same_iff = beq_of_iff AmountBracket-discrete;
}

unfoldable pub amount_bracket_value : AmountBracket → String
amount_bracket_value AmountBracket.below_lower = "below_lower"
amount_bracket_value AmountBracket.between = "between"
amount_bracket_value AmountBracket.at_or_above_upper = "at_or_above_upper"
amount_bracket_value AmountBracket.unknown = "unknown"

pub data ExitKind : Type 0 where
  exit_non_drama exit_sister_path exit_t2 exit_t3 : ExitKind

unfoldable pub ExitKind-discrete : Discrete ExitKind
ExitKind-discrete = hlevel

instance abbrev pub exit_kind_eq : Comparable ExitKind
exit_kind_eq = record {
  same_as = beq_of ExitKind-discrete;
  same_iff = beq_of_iff ExitKind-discrete;
}

pub data Regime : Type 0 where
  current from_2026_09_01 : Regime

unfoldable pub Regime-discrete : Discrete Regime
Regime-discrete = hlevel

instance abbrev pub regime_eq : Comparable Regime
regime_eq = record { same_as = beq_of Regime-discrete; same_iff = beq_of_iff Regime-discrete }
