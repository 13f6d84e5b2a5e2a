-- ===== src/Gate.antt =====
-- core/gate.py: the D3 gate, its gap report and the freeze guard.
pub mod Report
use film_compliance_agent.Base.{
  Bool, true, false, String, Option, none, some, List, [], ◌∷◌, ◌++◌, map, keep, contains, is_empty,
  any, all, not, ◌&&◌, ◌||◌, ◌==◌, string_eq, if◌then◌else◌,
}
use film_compliance_agent.Base.Sorting.{sorted_set}
use film_compliance_agent.Schemas.Enums.States.{ProjectState, project_state_eq}
use film_compliance_agent.Schemas.Enums.Review.{
  FindingSeverity, finding_severity_eq, FactStatus, fact_status_eq, MaterialStatus,
  material_status_eq,
}
use film_compliance_agent.Schemas.Common.{Fact}
use film_compliance_agent.Schemas.Findings.{Finding, blocks_gate_d3, undispatched}
use film_compliance_agent.Schemas.Assets.{MaterialCard}
use film_compliance_agent.Schemas.Project.{Project}
use film_compliance_agent.Schemas.Policy.{FormPack}

abbrev pub default_required_fact_keys : List String
default_required_fact_keys =
    "title" ∷ "episode_count" ∷ "episode_minutes" ∷ "applicant_entity" ∷ "investment_structure" ∷ []

pub record Gap : Type 0 where
  pub check : String
  pub items : List String

pub record GateResult : Type 0 where
  pub passed : Bool
  pub gaps : List Gap

unfoldable pub required_fact_keys : Option FormPack → List String
required_fact_keys none = default_required_fact_keys
required_fact_keys (some pack) =
    if is_empty pack.required_facts then default_required_fact_keys else pack.required_facts

-- the first three comprehensions of `evaluate_gate_d3`
abbrev pub is_open_block : Finding → Bool
is_open_block f = f.severity == FindingSeverity.block && blocks_gate_d3 f

abbrev pub is_undispatched_alert : Finding → Bool
is_undispatched_alert f = undispatched f.alert && blocks_gate_d3 f

abbrev pub is_unresolved_needs_human : Finding → Bool
is_unresolved_needs_human f = f.severity == FindingSeverity.needs_human && blocks_gate_d3 f

abbrev pub is_usable : Fact → Bool
is_usable f = f.status == FactStatus.confirmed || f.status == FactStatus.pending_institution

abbrev pub is_conflicting : Fact → Bool
is_conflicting f = f.status == FactStatus.conflict

-- the set `usable_fact_keys`, as a list that is only searched
abbrev pub usable_fact_keys : List Fact → List String
usable_fact_keys facts = map (λ f. f.key) (keep is_usable facts)

abbrev pub missing_facts : List String → List Fact → List String
missing_facts required facts = keep (λ k. not (contains (usable_fact_keys facts) k)) required

abbrev pub is_unvalidated : MaterialCard → Bool
is_unvalidated m =
    m.required && not (m.status == MaterialStatus.valid || m.status == MaterialStatus.waived)

-- `if items: gaps.append(Gap(check, items))`
abbrev pub gap : String → List String → List Gap
gap check [] = []
gap check (x ∷ xs) = record { check = check; items = x ∷ xs } ∷ []

unfoldable pub evaluate_gate_d3 :
    List Finding → List Fact → List MaterialCard → Option FormPack → GateResult
evaluate_gate_d3 findings facts materials form_pack =
    let gaps =
      gap "open_blocks" (map (λ f. f.finding_id) (keep is_open_block findings))
      ++ (gap "alerts_undispatched" (map (λ f. f.finding_id) (keep is_undispatched_alert findings))
          ++ (gap "findings_needs_human"
                (map (λ f. f.finding_id) (keep is_unresolved_needs_human findings))
              ++ (gap "facts_missing" (missing_facts (required_fact_keys form_pack) facts)
                  ++ (gap "facts_conflicting"
                        (sorted_set (map (λ f. f.key) (keep is_conflicting facts)))
                      ++ gap "materials_unvalidated"
                          (map (λ m. m.material_id) (keep is_unvalidated materials)))))) in
    record { passed = is_empty gaps; gaps = gaps }

unfoldable pub can_freeze_form : Project → Bool
can_freeze_form p = p.state == ProjectState.gate_d3_passed
