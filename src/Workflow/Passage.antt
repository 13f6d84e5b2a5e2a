-- ===== src/Workflow/Passage.antt =====
-- core/workflow_service.py: the material cards, the gate, the review loop and the roadmap.
pub mod Cards
pub mod Opening
pub mod Planning
use film_compliance_agent.Base.{
  ℕ, String, Bool, true, false, Option, none, some, List, [], ◌∷◌, ◌++◌, ◌+++◌, last, length, keep,
  is_empty, contains, ◌==◌, ◌||◌, ◌&&◌, not, string_eq, if◌then◌else◌, is_none,
}
use film_compliance_agent.Base.Dict.{Dict, lookup, values}
use film_compliance_agent.Schemas.Enums.States.{
  ProjectState, project_state_eq, project_state_value, Tier,
}
use film_compliance_agent.Schemas.Enums.Process.{Actor}
use film_compliance_agent.Schemas.Common.{Time}
use film_compliance_agent.Schemas.Project.{Project, Roadmap, RoadmapStep, Classification}
use film_compliance_agent.Schemas.Assets.{MaterialCard}
use film_compliance_agent.Schemas.Findings.{blocks_gate_d3}
use film_compliance_agent.Schemas.Policy.{FormPack}
use film_compliance_agent.Gate.{GateResult, evaluate_gate_d3}
use film_compliance_agent.StateMachine.{state_invalid, gate_blocked}
use film_compliance_agent.Materials.{build_material_cards}
use film_compliance_agent.Roadmap.{build_roadmap}
use film_compliance_agent.Schemas.Json.{Json, Detail, end, entry, str, num, opt_str, strs}
use film_compliance_agent.Errors.{Error, app, Result, ok, err}
use film_compliance_agent.Store.{Stores, get_by_key}
use film_compliance_agent.Effects.{
  M, ◌>>=◌, ◌>>◌, pure, raise, lift, gets, asks, raise_if, now, from_snapshot,
}
use film_compliance_agent.Workflow.Core.{
  not_found, validation_failed, conflict_error, or_raise, save_project, put_form,
  put_institution_review, save_finding, put_material, add_fact, checked_fact, get_project,
  record_event, pinned_version, form_pack_of, upsert_fact, transition_to,
}

-- `stored.pop(material_id, None)`: the entries but the first of the key
abbrev pub drop_card : String → Dict String MaterialCard → Dict String MaterialCard
drop_card id [] = []
drop_card id (e ∷ es) = if e.0 == id then es else e ∷ drop_card id es

abbrev pub kept_or_put : String → MaterialCard → Option MaterialCard → M MaterialCard
kept_or_put project_id card none = put_material project_id card >> pure card
kept_or_put project_id card (some existing) = pure existing

-- the loop of `material_cards`
unfoldable pub merge_cards :
    String → List MaterialCard → Dict String MaterialCard → M (List MaterialCard)
merge_cards project_id [] stored = pure (values stored)
merge_cards project_id (card ∷ defined) stored =
    kept_or_put project_id card (lookup card.material_id stored) >>= λ existing.
    merge_cards project_id defined (drop_card card.material_id stored) >>= λ rest.
    pure (existing ∷ rest)

unfoldable pub material_cards : String → M (List MaterialCard)
unfolding get_project pinned_version form_pack_of merge_cards
material_cards project_id = do
  project ← get_project project_id
  stored ← gets (λ w. w.materials project_id)
  version ← pinned_version project
  pack ← form_pack_of version
  has_clause ← asks (λ env. env.has_clause)
  merge_cards project_id (build_material_cards has_clause pack version) stored

-- the second half of `gate_report`
unfoldable pub report_with : String → FormPack → M GateResult
unfolding material_cards
report_with project_id pack = do
  findings ← gets (λ w. values (w.findings project_id))
  facts ← gets (λ w. w.facts project_id)
  materials ← material_cards project_id
  pure (evaluate_gate_d3 findings facts materials (some pack))

unfoldable pub gate_report : String → M GateResult
unfolding get_project pinned_version form_pack_of report_with
gate_report project_id = do
  project ← get_project project_id
  version ← pinned_version project
  pack ← form_pack_of version
  report_with project_id pack

-- `pass_gate` once the report has passed
unfoldable pub enter_gate : Project → M Project
unfolding state_invalid transition_to
enter_gate project =
    if project.state == ProjectState.gate_d3_passed
    then pure project
    else (raise_if
          (not (
            contains (ProjectState.review_running ∷ ProjectState.revision_loop ∷ []) project.state))
          (state_invalid "the script pre-check must run before the gate can be passed"
            (entry "state" (str (project_state_value project.state)) end))
        >> transition_to project ProjectState.gate_d3_passed Actor.system "gate.d3_passed" end)

unfoldable pub pass_gate : String → M Project
unfolding get_project gate_report gate_blocked enter_gate
pass_gate project_id = do
  project ← get_project project_id
  report ← gate_report project_id
  raise_if (not report.passed) (gate_blocked "the pre-shoot gate is still blocked" report)
  enter_gate project

-- the second half of `_advance_after_review`
unfoldable pub open_revision : String → Project → M Project
unfolding transition_to
open_revision project_id project = do
  blocking ← gets (λ w. keep blocks_gate_d3 (values (w.findings project_id)))
  if not (project.state == ProjectState.review_running) || is_empty blocking
      then pure project
      else transition_to project ProjectState.revision_loop Actor.system "review.findings_open"
          (entry "open" (num (length blocking)) end)

unfoldable pub start_review : Project → M Project
unfolding transition_to
start_review project =
    if project.state == ProjectState.collecting_materials
    then transition_to project ProjectState.review_running Actor.system "review.started" end
    else pure project

unfoldable pub advance_after_review : String → M Project
unfolding get_project start_review open_revision
advance_after_review project_id = do
  project ← get_project project_id
  started ← start_review project
  open_revision project_id started

-- `ROADMAP_TEMPLATE_BY_TIER.get(tier, f"{tier.value}_template")`
abbrev pub template_for : Tier → String
template_for Tier.t1 = "T1_7steps"
template_for Tier.t2 = "T2_5steps"
template_for Tier.t3 = "T3_4steps"
template_for Tier.undetermined = "undetermined_template"

-- `_build_roadmap_for`, whose callers have a classification
unfoldable pub build_roadmap_for : Project → Classification → M (Roadmap × List String)
unfolding pinned_version
build_roadmap_for project classification = do
  version ← pinned_version project
  pack ← asks (λ env. env.process_pack version)
  templates ← from_snapshot pack
  pure (build_roadmap (template_for classification.tier) templates)

abbrev pub has_confirmed : Option Roadmap → Bool
has_confirmed none = false
has_confirmed (some r) = r.confirmed

abbrev pub planned : Project → Roadmap → Time → Project
planned p r at = record p { roadmap = some (record r { confirmed = true }); updated_at = at }

-- the writes of `confirm_roadmap`, once no confirmed roadmap is stored
unfoldable pub adopt_roadmap : String → Project → Roadmap → List String → M Project
unfolding now record_event transition_to
adopt_roadmap project_id project roadmap flags = do
  at ← now
  save_project (planned project roadmap at)
  event ← record_event project_id Actor.creator "roadmap.confirmed" (
      entry "template" (str roadmap.template)
        (entry "step_count" (num (length roadmap.steps)) (entry "pending_flags" (strs flags) end)))
  confirmed ←
      transition_to (planned project roadmap at) ProjectState.roadmap_confirmed Actor.creator
        "roadmap.confirmed" end
  transition_to confirmed ProjectState.collecting_materials Actor.creator
      "materials.collection_started" end

abbrev pub adopt_unless_confirmed :
    String → Project → Roadmap × List String → M (Project × List String)
adopt_unless_confirmed project_id project built =
    if has_confirmed project.roadmap
    then pure (project, built.1)
    else (adopt_roadmap project_id project built.0 built.1 >>= λ after. pure (after, built.1))

unfoldable pub confirm_roadmap : String → M (Project × List String)
unfolding get_project state_invalid build_roadmap_for adopt_roadmap
confirm_roadmap project_id = do
  project ← get_project project_id
  classification ←
      or_raise
        (state_invalid "a project must be classified before its roadmap is confirmed"
          (entry "state" (str (project_state_value project.state)) end))
        project.classification
  built ← build_roadmap_for project classification
  adopt_unless_confirmed project_id project built
