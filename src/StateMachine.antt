-- ===== src/StateMachine.antt =====
-- core/state_machine.py: the transition table, the entry guards and `transition`.
pub mod Guards
pub mod Reach
use film_compliance_agent.Base.{
  Bool, true, false, String, Option, none, some, List, [], ◌∷◌, ◌++◌, contains, not, ◌&&◌, ◌||◌,
  ◌==◌, is_blank, is_none, if◌then◌else◌,
}
use film_compliance_agent.Base.{◌+++◌}
use film_compliance_agent.Schemas.Enums.States.{ProjectState, project_state_eq, project_state_value}
use film_compliance_agent.Schemas.Enums.Process.{Actor, ErrorCode}
use film_compliance_agent.Schemas.Common.{Time, Fact, AuditEntry, TimelineEvent}
use film_compliance_agent.Schemas.Findings.{Finding}
use film_compliance_agent.Schemas.Assets.{MaterialCard}
use film_compliance_agent.Schemas.Project.{Project}
use film_compliance_agent.Schemas.Policy.{FormPack}
use film_compliance_agent.Schemas.Json.{
  Json, Items, Detail, end, entry, str, strs, arr, obj, merge, nil, cons,
}
use film_compliance_agent.Errors.{Error, app, Result, ok, err, require, refuse, ◌>>=◌, ◌>>◌}
use film_compliance_agent.Gate.{Gap, GateResult, evaluate_gate_d3, can_freeze_form}

-- `TERMINAL_STATES`
abbrev pub terminal_states : List ProjectState
terminal_states =
    ProjectState.exit_non_drama ∷ ProjectState.exit_t2 ∷ ProjectState.exit_t3
    ∷ ProjectState.exit_sister_path ∷ []

-- `ALLOWED_TRANSITIONS`
unfoldable pub allowed_transitions : ProjectState → List ProjectState
allowed_transitions ProjectState.draft = ProjectState.intake_done ∷ []
allowed_transitions ProjectState.intake_done =
    ProjectState.intake_done ∷ ProjectState.form_judged ∷ ProjectState.needs_human_formtype
    ∷ ProjectState.exit_non_drama ∷ ProjectState.exit_sister_path ∷ []
allowed_transitions ProjectState.form_judged =
    ProjectState.classified ∷ ProjectState.needs_human_subject ∷ ProjectState.needs_human_formtype
    ∷ ProjectState.exit_t2 ∷ ProjectState.exit_t3 ∷ ProjectState.exit_non_drama
    ∷ ProjectState.exit_sister_path ∷ []
allowed_transitions ProjectState.classified =
    ProjectState.classified ∷ ProjectState.roadmap_confirmed ∷ ProjectState.intake_done
    ∷ ProjectState.needs_human_subject ∷ ProjectState.exit_t2 ∷ ProjectState.exit_t3 ∷ []
allowed_transitions ProjectState.roadmap_confirmed =
    ProjectState.collecting_materials ∷ ProjectState.classified ∷ []
allowed_transitions ProjectState.collecting_materials =
    ProjectState.collecting_materials ∷ ProjectState.review_running ∷ ProjectState.classified ∷ []
allowed_transitions ProjectState.review_running =
    ProjectState.revision_loop ∷ ProjectState.gate_d3_passed ∷ ProjectState.collecting_materials
    ∷ ProjectState.classified ∷ []
allowed_transitions ProjectState.revision_loop =
    ProjectState.review_running ∷ ProjectState.revision_loop ∷ ProjectState.gate_d3_passed
    ∷ ProjectState.classified ∷ []
allowed_transitions ProjectState.gate_d3_passed =
    ProjectState.form_frozen ∷ ProjectState.revision_loop ∷ []
allowed_transitions ProjectState.form_frozen =
    ProjectState.institution_review ∷ ProjectState.revision_loop ∷ []
allowed_transitions ProjectState.institution_review =
    ProjectState.ready_for_external_filing ∷ ProjectState.institution_returned
    ∷ ProjectState.institution_review ∷ []
allowed_transitions ProjectState.institution_returned =
    ProjectState.revision_loop ∷ ProjectState.collecting_materials ∷ []
allowed_transitions ProjectState.ready_for_external_filing = ProjectState.filed ∷ []
allowed_transitions ProjectState.filed = ProjectState.production ∷ []
allowed_transitions ProjectState.production = []
allowed_transitions ProjectState.needs_human_formtype =
    ProjectState.form_judged ∷ ProjectState.exit_non_drama ∷ ProjectState.exit_sister_path
    ∷ ProjectState.intake_done ∷ []
allowed_transitions ProjectState.needs_human_subject =
    ProjectState.classified ∷ ProjectState.exit_t2 ∷ ProjectState.exit_t3 ∷ []
allowed_transitions ProjectState.exit_non_drama = []
allowed_transitions ProjectState.exit_t2 = []
allowed_transitions ProjectState.exit_t3 = []
allowed_transitions ProjectState.exit_sister_path = []

unfoldable pub is_allowed : ProjectState → ProjectState → Bool
unfolding allowed_transitions
is_allowed from_state to_state = contains (allowed_transitions from_state) to_state

pub record GateContext : Type 0 where
  pub findings : List Finding
  pub facts : List Fact
  pub materials : List MaterialCard
  pub form_pack : Option FormPack

pub record TransitionResult : Type 0 where
  pub project : Project
  pub audit : AuditEntry
  pub timeline : TimelineEvent

-- `[gap.as_dict() for gap in result.gaps]`
abbrev pub gaps_json : List Gap → Items
gaps_json [] = nil
gaps_json (g ∷ gs) =
    cons (obj (entry "check" (str g.check) (entry "items" (strs g.items) end))) (gaps_json gs)

unfoldable pub gate_blocked : String → GateResult → Error
gate_blocked message r =
    app ErrorCode.gate_blocked message (entry "gaps" (arr (gaps_json r.gaps)) end)

unfoldable pub state_invalid : String → Detail → Error
state_invalid message detail = app ErrorCode.state_invalid message detail

abbrev pub at_state : Project → Detail
at_state p = entry "state" (str (project_state_value p.state)) end

-- the guard of `GATE_D3_PASSED`
unfoldable check_gate : Option GateContext → Result (Unit {0})
check_gate none = err (state_invalid "gate context is required to pass D3" end)
check_gate (some c) =
    let result = evaluate_gate_d3 c.findings c.facts c.materials c.form_pack in
    require result.passed (gate_blocked "D3 gate is blocked" result)

unfoldable pub check_entry_guards : Project → ProjectState → Option GateContext → Result (Unit {0})
unfolding check_gate
check_entry_guards p to_state gate_context = do
  if to_state == ProjectState.gate_d3_passed then check_gate gate_context else ok tt
  refuse (to_state == ProjectState.form_frozen && not (can_freeze_form p))
      (state_invalid "a form can only be frozen from GATE_D3_PASSED" (at_state p))
  refuse (to_state == ProjectState.filed && is_blank p.registration_number)
      (state_invalid "filing requires a registration_number" end)
  refuse
      ((to_state == ProjectState.roadmap_confirmed || to_state == ProjectState.collecting_materials)
        && is_none p.roadmap)
      (state_invalid "a confirmed roadmap is required at this step" end)

-- What `transition` builds once its guards have passed. The clock's reading and the fresh event
-- identifier are arguments.
unfoldable pub moved :
    Project → ProjectState → Actor → String → Time → String → Detail → TransitionResult
moved p to_state actor reason now event_id detail = record {
  project = record p { state = to_state; updated_at = now };
  audit = record {
    at = now;
    actor = actor;
    from_state = project_state_value p.state;
    to_state = project_state_value to_state;
    reason = reason;
    detail = detail;
  };
  timeline = record {
    event_id = event_id;
    at = now;
    actor = actor;
    event = "state." +++ project_state_value to_state;
    detail = entry "from" (str (project_state_value p.state)) (entry "reason" (str reason) detail);
  };
}

unfoldable pub transition :
    Project
    → ProjectState
    → Actor
    → String
    → Time
    → String
    → Detail
    → Option GateContext
    → Result TransitionResult
transition p to_state actor reason now event_id detail gate_context = do
  refuse (contains terminal_states p.state)
      (state_invalid ("project is in terminal state " +++ project_state_value p.state) (at_state p))
  require (is_allowed p.state to_state) (
      state_invalid
        ("transition "
          +++ (project_state_value p.state
              +++ (" -> " +++ (project_state_value to_state +++ " is not allowed"))))
        (entry "from" (str (project_state_value p.state))
          (entry "to" (str (project_state_value to_state)) end)))
  check_entry_guards p to_state gate_context
  ok (moved p to_state actor reason now event_id detail)
