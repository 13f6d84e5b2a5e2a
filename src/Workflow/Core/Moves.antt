-- ===== src/Workflow/Core/Moves.antt =====
-- core/workflow_service.py: what `_transition` leaves in the stores, and what a refusal leaves.
use film_compliance_agent.Base.{
  ◌+◌, String, true, Option, some, [], ◌∷◌, ◌++◌, ◌≡◌, refl, arith, string_eq,
}
use film_compliance_agent.Schemas.Enums.States.{ProjectState}
use film_compliance_agent.Schemas.Enums.Process.{Actor}
use film_compliance_agent.Schemas.Project.{Project}
use film_compliance_agent.Schemas.Json.{Detail}
use film_compliance_agent.Errors.{Error, Result, ok, err}
use film_compliance_agent.Store.{Stores}
use film_compliance_agent.Base.Dict.{lookup, insert, update, lookup-insert_self}
use film_compliance_agent.Effects.{Env, bind-ok, now, new_id}
use film_compliance_agent.StateMachine.{
  GateContext, TransitionResult, transition, moved, is_allowed,
}
use film_compliance_agent.StateMachine.Guards.{IsPermitted, transition-ok_iff}
use film_compliance_agent.Workflow.Core.{
  gate_context_for, pinned_version, form_pack_of, run_transition, transition_to,
}

-- the stores after a move: the project, one audit entry and one timeline event
abbrev pub after_move : Project → TransitionResult → Stores → Stores
after_move p r w = record w {
  projects = insert r.project.project_id r.project w.projects;
  audit = update p.project_id (w.audit p.project_id ++ r.audit ∷ []) w.audit;
  timeline = update p.project_id (w.timeline p.project_id ++ r.timeline ∷ []) w.timeline;
  readings = w.readings + 1;
  drawn = w.drawn + 1;
}

module _ (p : Project) (to_state : ProjectState) (actor : Actor) (reason : String) (detail : Detail)
    (env : Env) where
  abbrev pub result_at : Stores → TransitionResult
  result_at w =
      moved p to_state actor reason (env.clock w.readings) (env.fresh "event" w.drawn) detail

  -- the guard's reading leaves the stores alone
  pub gate_context_for_keeps :
      (w w' : Stores) (r : Result (Option GateContext))
      → gate_context_for p to_state env w ≡ (r, w')
      → w' ≡ w
  unfolding pinned_version form_pack_of
  gate_context_for_keeps w w' r h = ground arith

  pub run_transition-ok :
      (gate_context : Option GateContext) (w w' : Stores) (r : TransitionResult)
      → run_transition p to_state actor reason detail gate_context env w ≡ (ok r, w')
      → (transition p to_state actor reason
            (env.clock w.readings)
            (env.fresh "event" w.drawn)
            detail
            gate_context
          ≡ ok r)
        × (w' ≡ record w { readings = w.readings + 1; drawn = w.drawn + 1 })
  unfolding run_transition now new_id
  run_transition-ok gate_context w w' r h = ground arith

  pub run_transition-err :
      (gate_context : Option GateContext) (w w' : Stores) (e : Error)
      → run_transition p to_state actor reason detail gate_context env w ≡ (err e, w')
      → w' ≡ w
  unfolding run_transition now new_id
  run_transition-err gate_context w w' e h = ground arith

  -- A move through `_transition` is a permitted one. It writes the moved project, one audit entry
  -- and one timeline event, and leaves the rest of the stores as it was.
  pub transition_to-ok :
      (w w' : Stores) (q : Project)
      → transition_to p to_state actor reason detail env w ≡ (ok q, w')
      → ((c : Option GateContext) × (gate_context_for p to_state env w ≡ (ok c, w))
          × IsPermitted p to_state c)
        × (q ≡ (result_at w).project)
        × (w' ≡ after_move p (result_at w) w)
  unfolding transition_to
  transition_to-ok w w' q h =
      let (c, w₁, e₁, h₁) = bind-ok (gate_context_for p to_state) _ env w w' q h in
      let same = gate_context_for_keeps w w₁ (ok c) e₁ in
      let (r, w₂, e₂, h₂) =
        bind-ok (run_transition p to_state actor reason detail c) _ env w₁ w' q h₁ in
      let (t, d) = run_transition-ok c w₁ w₂ r e₂ in
      let (permitted, shape) = (transition-ok_iff p to_state c actor reason _ _ detail r).0 t in
      ((c, cc, permitted), ground arith, ground arith)

  -- A move leaves the reviews of institutions as they were.
  pub transition_to-reviews :
      (w w' : Stores) (q : Project)
      → transition_to p to_state actor reason detail env w ≡ (ok q, w')
      → w'.institution_reviews ≡ w.institution_reviews
  transition_to-reviews w w' q h =
      let (permitted, same, after) = transition_to-ok w w' q h in rw after refl

  pub transition_to-err :
      (w w' : Stores) (e : Error)
      → transition_to p to_state actor reason detail env w ≡ (err e, w')
      → w' ≡ w
  unfolding transition_to
  transition_to-err w w' e h = ground arith

  -- what most callers of `_transition` need of it
  pub transition_to-moved :
      (w w' : Stores) (q : Project)
      → transition_to p to_state actor reason detail env w ≡ (ok q, w')
      → (is_allowed p.state to_state ≡ true)
        × (q ≡ record p { state = to_state; updated_at = env.clock w.readings })
        × (lookup p.project_id w'.projects ≡ some q)
        × (w'.forms ≡ w.forms)
  unfolding moved
  transition_to-moved w w' q h =
      let ((c, read, permitted), same, after) = transition_to-ok w w' q h in
      (
        permitted.listed,
        same,
        rw (after, same) (lookup-insert_self p.project_id _ w.projects),
        rw after refl,
      )
