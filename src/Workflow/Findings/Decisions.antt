-- ===== src/Workflow/Findings/Decisions.antt =====
-- core/workflow_service.py: which decisions on a finding release the gate.
use film_compliance_agent.Base.{
  String, true, Option, some, ◌≡◌, ◌≢◌, ◌↔◌, arith, string_eq, string_iff,
}
use film_compliance_agent.Base.Dict.{lookup, insert, update_self}
use film_compliance_agent.Schemas.Enums.Review.{FindingStatus, finding_status_eq}
use film_compliance_agent.Schemas.Findings.{Finding, blocks_gate_d3}
use film_compliance_agent.Errors.{ok}
use film_compliance_agent.Store.{Stores}
use film_compliance_agent.Effects.{Env, now, new_id}
use film_compliance_agent.Workflow.Core.{not_found, get_project, record_event}
use film_compliance_agent.Workflow.Findings.{status_for, with_status, act_on_finding}

module _ (f : Finding) (action : String) (reason : Option String) where
  -- a status that a decision gives releases the gate unless the decision is an acceptance
  status_for_releases :
      (s : FindingStatus)
      → blocks_gate_d3 f ≡ true
      → status_for action reason ≡ ok s
      → (blocks_gate_d3 (with_status f s) ≡ true) ↔ (action ≡ "accept")
  unfolding blocks_gate_d3 status_for
  status_for_releases s b h = ground (arith, string_iff action "accept")

module _ (project_id finding_id action : String) (reason option_id : Option String) (env : Env)
    (w w' : Stores) (f g : Finding) where
  acted :
      lookup finding_id (w.findings project_id) ≡ some f
      → action ≢ "choose_option"
      → act_on_finding project_id finding_id action reason option_id env w ≡ (ok g, w')
      → (status_for action reason ≡ ok g.status)
        × (g ≡ with_status f g.status)
        × (w'.findings project_id ≡ insert f.finding_id g (w.findings project_id))
  unfolding act_on_finding get_project record_event now new_id not_found
  acted found other h = ground (
    arith,
    string_iff action "choose_option",
    update_self project_id (insert f.finding_id g (w.findings project_id)) w.findings,
  )

  -- Where a stored finding holds the gate shut and the decision is not the choice of an alert's
  -- option, an action that returns changes nothing but the finding's status, stores the changed
  -- finding, and leaves it holding the gate shut exactly when the decision is an acceptance.
  pub act_on_finding_releases :
      lookup finding_id (w.findings project_id) ≡ some f
      → blocks_gate_d3 f ≡ true
      → action ≢ "choose_option"
      → act_on_finding project_id finding_id action reason option_id env w ≡ (ok g, w')
      → (g ≡ with_status f g.status)
        × (w'.findings project_id ≡ insert f.finding_id g (w.findings project_id))
        × ((blocks_gate_d3 g ≡ true) ↔ (action ≡ "accept"))
  act_on_finding_releases found blocking other h =
      let (judged, same, stored) = acted found other h in
      let released = status_for_releases f action reason g.status blocking judged in
      (same, stored, rw same released)
