-- ===== src/StateMachine/Guards.antt =====
-- When `transition` succeeds, and what it then returns.
use film_compliance_agent.Base.{
  true, false, String, Option, none, some, contains, ◌≡◌, ◌⊎◌, ◌↔◌, refl, is_blank, is_none, arith,
}
use film_compliance_agent.Schemas.Enums.States.{ProjectState, project_state_eq}
use film_compliance_agent.Schemas.Enums.Process.{Actor}
use film_compliance_agent.Schemas.Common.{Time}
use film_compliance_agent.Schemas.Project.{Project}
use film_compliance_agent.Schemas.Json.{Detail}
use film_compliance_agent.Errors.{ok}
use film_compliance_agent.Gate.{evaluate_gate_d3, can_freeze_form}
use film_compliance_agent.StateMachine.{
  terminal_states, is_allowed, GateContext, TransitionResult, check_gate, check_entry_guards, moved,
  transition,
}

-- what the state machine asks of a move, as conditions on the project and the gate's inputs
pub record IsPermitted (p : Project) (to_state : ProjectState) (gate_context : Option GateContext)
    : Type 0 where
  pub alive : contains terminal_states p.state ≡ false
  pub listed : is_allowed p.state to_state ≡ true
  pub gated :
      to_state ≡ ProjectState.gate_d3_passed
      → (c : GateContext) × (gate_context ≡ some c)
        × ((evaluate_gate_d3 c.findings c.facts c.materials c.form_pack).passed ≡ true)
  pub freezable : to_state ≡ ProjectState.form_frozen → p.state ≡ ProjectState.gate_d3_passed
  pub registered : to_state ≡ ProjectState.filed → is_blank p.registration_number ≡ false
  pub planned :
      (to_state ≡ ProjectState.roadmap_confirmed) ⊎ (to_state ≡ ProjectState.collecting_materials)
      → is_none p.roadmap ≡ false

-- the gate's inputs are there, and the gate is open
abbrev Opened : Option GateContext → Type 0
Opened gate_context =
    (c : GateContext) × (gate_context ≡ some c)
    × ((evaluate_gate_d3 c.findings c.facts c.materials c.form_pack).passed ≡ true)

Opened-of_check :
    (gate_context : Option GateContext) → check_gate gate_context ≡ ok tt → Opened gate_context
unfolding check_gate
Opened-of_check none h = cc
Opened-of_check (some c) h = (c, refl, ground arith)

check_of_Opened :
    (gate_context : Option GateContext) → Opened gate_context → check_gate gate_context ≡ ok tt
unfolding check_gate
check_of_Opened none (c, e, h) = cc
check_of_Opened (some c) (d, e, h) = ground arith

module _ (p : Project) (to_state : ProjectState) (gate_context : Option GateContext) where
  guards_of_IsPermitted :
      IsPermitted p to_state gate_context → check_entry_guards p to_state gate_context ≡ ok tt
  unfolding check_entry_guards can_freeze_form
  guards_of_IsPermitted h = ground (
    arith,
    λ (e : to_state ≡ ProjectState.gate_d3_passed). check_of_Opened gate_context (h.gated e),
  )

  IsPermitted-of_guards :
      contains terminal_states p.state ≡ false
      → is_allowed p.state to_state ≡ true
      → check_entry_guards p to_state gate_context ≡ ok tt
      → IsPermitted p to_state gate_context
  unfolding check_entry_guards can_freeze_form
  IsPermitted-of_guards alive listed h = record {
    alive = alive;
    listed = listed;
    gated = λ e. Opened-of_check gate_context (ground arith);
    freezable = λ e. ground arith;
    registered = λ e. ground arith;
    planned = λ e. ground arith;
  }

  module _ (actor : Actor) (reason : String) (now : Time) (event_id : String) (detail : Detail)
      (r : TransitionResult) where
    IsPermitted-of_ok :
        transition p to_state actor reason now event_id detail gate_context ≡ ok r
        → IsPermitted p to_state gate_context
          × (r ≡ moved p to_state actor reason now event_id detail)
    unfolding transition
    IsPermitted-of_ok h =
        (IsPermitted-of_guards (ground arith) (ground arith) (ground arith), ground arith)

    ok_of_IsPermitted :
        IsPermitted p to_state gate_context
        → r ≡ moved p to_state actor reason now event_id detail
        → transition p to_state actor reason now event_id detail gate_context ≡ ok r
    unfolding transition
    ok_of_IsPermitted h e = rw (h.alive, h.listed, guards_of_IsPermitted h, e)

    -- A transition succeeds exactly when the project is not in a terminal state, the table lists
    -- the move and every entry guard holds; the result is then the moved project with its audit
    -- entry and its timeline event, and nothing else.
    pub transition-ok_iff :
        (transition p to_state actor reason now event_id detail gate_context ≡ ok r) ↔ (
          IsPermitted p to_state gate_context
          × (r ≡ moved p to_state actor reason now event_id detail))
    transition-ok_iff = (IsPermitted-of_ok, λ h. ok_of_IsPermitted h.0 h.1)
