-- ===== src/Workflow/Passage/Planning.antt =====
-- core/workflow_service.py: what the confirmation of a roadmap does, and what it leaves behind.
use film_compliance_agent.Base.{String, true, false, some, List, ◌≡◌, refl, ap, arith, string_eq}
use film_compliance_agent.Base.Dict.{lookup}
use film_compliance_agent.Schemas.Enums.States.{ProjectState}
use film_compliance_agent.Schemas.Enums.Process.{Actor}
use film_compliance_agent.Schemas.Json.{end}
use film_compliance_agent.Schemas.Project.{Project, Roadmap}
use film_compliance_agent.Errors.{ok}
use film_compliance_agent.Store.{Stores}
use film_compliance_agent.Effects.{Env, bind-ok, map-ok, now, new_id}
use film_compliance_agent.StateMachine.{is_allowed, allowed_transitions}
use film_compliance_agent.Workflow.Core.{or_raise, get_project, record_event, transition_to}
use film_compliance_agent.Workflow.Core.Moves.{transition_to-moved}
use film_compliance_agent.Workflow.Passage.{
  build_roadmap_for, has_confirmed, planned, adopt_roadmap, adopt_unless_confirmed, confirm_roadmap,
}

classified_of_allowed :
    (s : ProjectState)
    → is_allowed s ProjectState.roadmap_confirmed ≡ true
    → s ≡ ProjectState.classified
unfolding is_allowed allowed_transitions
classified_of_allowed s h = ground arith

module _ (project_id : String) (env : Env) (p : Project) where
  adopt_roadmap-ok :
      (roadmap : Roadmap) (flags : List String) (q : Project) (w w' : Stores)
      → adopt_roadmap project_id p roadmap flags env w ≡ (ok q, w')
      → (p.state ≡ ProjectState.classified)
        × (q.state ≡ ProjectState.collecting_materials)
        × (q.roadmap ≡ some (record roadmap { confirmed = true }))
        × (lookup p.project_id w'.projects ≡ some q)
  unfolding adopt_roadmap record_event now new_id
  adopt_roadmap-ok roadmap flags q w w' h =
      let next = planned p roadmap (env.clock w.readings) in
      let (p₁, w₁, first, rest) =
        bind-ok
          (transition_to next ProjectState.roadmap_confirmed Actor.creator "roadmap.confirmed" end)
          _ env _ w' q h in
      let (allowed, same, stored, forms) =
        transition_to-moved next ProjectState.roadmap_confirmed Actor.creator "roadmap.confirmed"
          end env _ w₁ p₁ first in
      let (allowed₂, same₂, stored₂, forms₂) =
        transition_to-moved p₁ ProjectState.collecting_materials Actor.creator
          "materials.collection_started" end env w₁ w' q rest in
      (
        classified_of_allowed p.state allowed,
        rw same₂ refl,
        rw (same₂, same) refl,
        rw (← ap (λ x. x.project_id) same) stored₂,
      )

  adopt_unless_confirmed-ok :
      (built : Roadmap × List String) (r : Project × List String) (w w' : Stores)
      → has_confirmed p.roadmap ≡ false
      → adopt_unless_confirmed project_id p built env w ≡ (ok r, w')
      → adopt_roadmap project_id p built.0 built.1 env w ≡ (ok r.0, w')
  adopt_unless_confirmed-ok built r w w' open_plan h =
      let (q, adopted, made) =
        map-ok (adopt_roadmap project_id p built.0 built.1) (λ after. (after, built.1)) env w w' r
          (rw open_plan at h) in
      rw made adopted

  -- Where the stored roadmap is not confirmed, a confirmation that returns found the project
  -- classified; the project it returns is collecting materials, its roadmap is confirmed, and it
  -- is the one stored.
  pub confirm_roadmap-ok :
      (r : Project × List String) (w w' : Stores)
      → lookup project_id w.projects ≡ some p
      → has_confirmed p.roadmap ≡ false
      → confirm_roadmap project_id env w ≡ (ok r, w')
      → (p.state ≡ ProjectState.classified)
        × (r.0.state ≡ ProjectState.collecting_materials)
        × (has_confirmed r.0.roadmap ≡ true)
        × (lookup p.project_id w'.projects ≡ some r.0)
  unfolding confirm_roadmap get_project
  confirm_roadmap-ok r w w' found open_plan h =
      let (c, w₁, e₁, h₁) = bind-ok (or_raise _ p.classification) _ env w w' r (rw found at h) in
      let (built, w₂, e₂, h₂) = bind-ok (build_roadmap_for p c) _ env w₁ w' r h₁ in
      let (was, now_at, plan, stored) =
        adopt_roadmap-ok built.0 built.1 r.0 w₂ w'
          (adopt_unless_confirmed-ok built r w₂ w' open_plan h₂) in
      (was, now_at, rw plan refl, stored)
