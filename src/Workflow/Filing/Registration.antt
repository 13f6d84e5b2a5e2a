-- ===== src/Workflow/Filing/Registration.antt =====
-- core/workflow_service.py: what `record_filing` stores, and when it succeeds.
use film_compliance_agent.Base.{
  String, true, false, some, ◌≡◌, ◌≢◌, inl, inr, refl, arith, string_eq,
}
use film_compliance_agent.Base.Dict.{lookup, lookup-insert_self}
use film_compliance_agent.Base.Strip.{strip, is_blank_text}
use film_compliance_agent.Schemas.Enums.States.{ProjectState, project_state_eq}
use film_compliance_agent.Schemas.Enums.Process.{Actor}
use film_compliance_agent.Schemas.Project.{Project}
use film_compliance_agent.Schemas.Json.{end}
use film_compliance_agent.Errors.{Error, ok, err}
use film_compliance_agent.Store.{Stores}
use film_compliance_agent.Effects.{Env, run-cases, now, new_id}
use film_compliance_agent.StateMachine.{is_allowed, allowed_transitions}
use film_compliance_agent.Workflow.Core.{get_project, record_event, transition_to}
use film_compliance_agent.Workflow.Core.Moves.{transition_to-moved, transition_to-err}
use film_compliance_agent.Workflow.Filing.{record_filing, registered}

ready_of_allowed :
    (s : ProjectState)
    → is_allowed s ProjectState.filed ≡ true
    → s ≡ ProjectState.ready_for_external_filing
unfolding is_allowed allowed_transitions
ready_of_allowed s h = ground arith

module _ (project_id number : String) (env : Env) (w w' : Stores) (p q : Project) where
  inversion :
      lookup project_id w.projects ≡ some p
      → record_filing project_id number env w ≡ (ok q, w')
      → (is_blank_text (some number) ≡ false)
        × ((w₁ : Stores) × (transition_to
                (registered p (strip number) (env.clock w.readings))
                ProjectState.filed
                Actor.institution
                "filing.recorded"
                end
                env
                w₁
              ≡ (ok q, w')))
  unfolding record_filing get_project record_event now new_id
  inversion found h =
      let present : is_blank_text (some number) ≡ false = ground arith in
      let inner = rw (present, found) at h in (present, (_, inner))

  -- If the recording of a filing returns, the project was ready for it and the number is not
  -- blank; the project returned is filed under the stripped number, and it is the one stored.
  pub record_filing-ok :
      lookup project_id w.projects ≡ some p
      → record_filing project_id number env w ≡ (ok q, w')
      → (p.state ≡ ProjectState.ready_for_external_filing)
        × (is_blank_text (some number) ≡ false)
        × (q.state ≡ ProjectState.filed)
        × (q.registration_number ≡ some (strip number))
        × (lookup p.project_id w'.projects ≡ some q)
  record_filing-ok found h =
      let (present, (w₁, inner)) = inversion found h in
      let (listed, same, stored, rest) =
        transition_to-moved (registered p (strip number) (env.clock w.readings)) ProjectState.filed
          Actor.institution "filing.recorded" end env w₁ w' q inner in
      (ready_of_allowed p.state listed, present, rw same refl, rw same refl, stored)

module _ (project_id number : String) (env : Env) (w : Stores) (p : Project) where
  abbrev filing : Project
  filing = registered p (strip number) (env.clock w.readings)

  -- The recording of a filing for a project that is not ready for it raises, but the number is
  -- stored with the project by then and stays there.
  pub record_filing_refused :
      lookup project_id w.projects ≡ some p
      → is_blank_text (some number) ≡ false
      → p.state ≢ ProjectState.ready_for_external_filing
      → (e : Error) × (w' : Stores) × (record_filing project_id number env w ≡ (err e, w'))
        × (lookup p.project_id w'.projects
            ≡ some (registered p (strip number) (env.clock w.readings)))
  unfolding record_filing get_project record_event now new_id
  record_filing_refused found present other =
      elim (run-cases (record_filing project_id number) env w) [
        | inl (q, w', h) ↦
            absurd (other ((record_filing-ok project_id number env w w' p q found h).0))
        | inr (e, w', h) ↦
            let inner = rw (present, found) at h in
            let kept =
              transition_to-err filing ProjectState.filed Actor.institution "filing.recorded" end
                env _ w' e inner in
            (e, w', h, rw kept (lookup-insert_self p.project_id filing w.projects))
      ]
