-- ===== src/StateMachine/Reach.antt =====
-- What every run of the state machine passes through.
use film_compliance_agent.Base.{
  true, false, String, Option, List, [], ◌∷◌, contains, ◌||◌, ◌==◌, ◌≡◌, refl, arith,
}
use film_compliance_agent.Schemas.Enums.States.{ProjectState, project_state_eq}
use film_compliance_agent.Schemas.Enums.Process.{Actor}
use film_compliance_agent.Schemas.Common.{Time}
use film_compliance_agent.Schemas.Project.{Project}
use film_compliance_agent.Schemas.Json.{Detail}
use film_compliance_agent.Errors.{ok}
use film_compliance_agent.StateMachine.{
  terminal_states, is_allowed, GateContext, TransitionResult, moved, transition,
}
use film_compliance_agent.StateMachine.Guards.{transition-ok_iff}

-- the states that every run from `DRAFT` to the given one passes through
abbrev pub waypoints : ProjectState → List ProjectState
waypoints ProjectState.draft = []
waypoints ProjectState.intake_done = ProjectState.draft ∷ []
waypoints ProjectState.form_judged = ProjectState.draft ∷ ProjectState.intake_done ∷ []
waypoints ProjectState.classified =
    ProjectState.draft ∷ ProjectState.intake_done ∷ ProjectState.form_judged ∷ []
waypoints ProjectState.roadmap_confirmed =
    ProjectState.draft ∷ ProjectState.intake_done ∷ ProjectState.form_judged
    ∷ ProjectState.classified ∷ []
waypoints ProjectState.collecting_materials =
    ProjectState.draft ∷ ProjectState.intake_done ∷ ProjectState.form_judged
    ∷ ProjectState.classified ∷ ProjectState.roadmap_confirmed ∷ []
waypoints ProjectState.review_running =
    ProjectState.draft ∷ ProjectState.intake_done ∷ ProjectState.form_judged
    ∷ ProjectState.classified ∷ ProjectState.roadmap_confirmed ∷ ProjectState.collecting_materials
    ∷ []
waypoints ProjectState.revision_loop =
    ProjectState.draft ∷ ProjectState.intake_done ∷ ProjectState.form_judged
    ∷ ProjectState.classified ∷ ProjectState.roadmap_confirmed ∷ ProjectState.collecting_materials
    ∷ ProjectState.review_running ∷ []
waypoints ProjectState.gate_d3_passed =
    ProjectState.draft ∷ ProjectState.intake_done ∷ ProjectState.form_judged
    ∷ ProjectState.classified ∷ ProjectState.roadmap_confirmed ∷ ProjectState.collecting_materials
    ∷ ProjectState.review_running ∷ []
waypoints ProjectState.form_frozen =
    ProjectState.draft ∷ ProjectState.intake_done ∷ ProjectState.form_judged
    ∷ ProjectState.classified ∷ ProjectState.roadmap_confirmed ∷ ProjectState.collecting_materials
    ∷ ProjectState.review_running ∷ ProjectState.gate_d3_passed ∷ []
waypoints ProjectState.institution_review =
    ProjectState.draft ∷ ProjectState.intake_done ∷ ProjectState.form_judged
    ∷ ProjectState.classified ∷ ProjectState.roadmap_confirmed ∷ ProjectState.collecting_materials
    ∷ ProjectState.review_running ∷ ProjectState.gate_d3_passed ∷ ProjectState.form_frozen ∷ []
waypoints ProjectState.institution_returned =
    ProjectState.draft ∷ ProjectState.intake_done ∷ ProjectState.form_judged
    ∷ ProjectState.classified ∷ ProjectState.roadmap_confirmed ∷ ProjectState.collecting_materials
    ∷ ProjectState.review_running ∷ ProjectState.gate_d3_passed ∷ ProjectState.form_frozen
    ∷ ProjectState.institution_review ∷ []
waypoints ProjectState.ready_for_external_filing =
    ProjectState.draft ∷ ProjectState.intake_done ∷ ProjectState.form_judged
    ∷ ProjectState.classified ∷ ProjectState.roadmap_confirmed ∷ ProjectState.collecting_materials
    ∷ ProjectState.review_running ∷ ProjectState.gate_d3_passed ∷ ProjectState.form_frozen
    ∷ ProjectState.institution_review ∷ []
waypoints ProjectState.filed =
    ProjectState.draft ∷ ProjectState.intake_done ∷ ProjectState.form_judged
    ∷ ProjectState.classified ∷ ProjectState.roadmap_confirmed ∷ ProjectState.collecting_materials
    ∷ ProjectState.review_running ∷ ProjectState.gate_d3_passed ∷ ProjectState.form_frozen
    ∷ ProjectState.institution_review ∷ ProjectState.ready_for_external_filing ∷ []
waypoints ProjectState.production =
    ProjectState.draft ∷ ProjectState.intake_done ∷ ProjectState.form_judged
    ∷ ProjectState.classified ∷ ProjectState.roadmap_confirmed ∷ ProjectState.collecting_materials
    ∷ ProjectState.review_running ∷ ProjectState.gate_d3_passed ∷ ProjectState.form_frozen
    ∷ ProjectState.institution_review ∷ ProjectState.ready_for_external_filing ∷ ProjectState.filed
    ∷ []
waypoints ProjectState.needs_human_formtype = ProjectState.draft ∷ ProjectState.intake_done ∷ []
waypoints ProjectState.needs_human_subject =
    ProjectState.draft ∷ ProjectState.intake_done ∷ ProjectState.form_judged ∷ []
waypoints ProjectState.exit_non_drama = ProjectState.draft ∷ ProjectState.intake_done ∷ []
waypoints ProjectState.exit_t2 =
    ProjectState.draft ∷ ProjectState.intake_done ∷ ProjectState.form_judged ∷ []
waypoints ProjectState.exit_t3 =
    ProjectState.draft ∷ ProjectState.intake_done ∷ ProjectState.form_judged ∷ []
waypoints ProjectState.exit_sister_path = ProjectState.draft ∷ ProjectState.intake_done ∷ []

-- A run: a new project, then transitions that succeeded, and between them edits of other fields.
-- It keeps the states that were left.
pub data Trace : List ProjectState → Project → Type 0 where
  created : (p : Project) → p.state ≡ ProjectState.draft → Trace [] p
  edited :
      {visited : List ProjectState} {p : Project}
      → Trace visited p
      → (q : Project) → q.state ≡ p.state
      → Trace visited q
  stepped :
      {visited : List ProjectState} {p : Project}
      → Trace visited p
      → (to_state : ProjectState) (actor : Actor) (reason : String) (now : Time) (event_id : String)
        (detail : Detail)
      → (gate_context : Option GateContext) (r : TransitionResult)
      → transition p to_state actor reason now event_id detail gate_context ≡ ok r
      → Trace (p.state ∷ visited) r.project

waypoints_step :
    (s t d : ProjectState)
    → is_allowed s t ≡ true
    → contains (waypoints t) d ≡ true
    → (s == d || contains (waypoints s) d) ≡ true
unfolding is_allowed
waypoints_step s t d h k = ground arith

state-moved :
    (p : Project) (to_state : ProjectState) (actor : Actor) (reason : String) (now : Time)
    (event_id : String) (detail : Detail)
    → (moved p to_state actor reason now event_id detail).project.state ≡ to_state
unfolding moved
state-moved p to_state actor reason now event_id detail = refl

-- A project that comes from a draft by transitions, and by edits that keep its state, has passed
-- through every waypoint of the state it is in. So a form is frozen, sent to an institution,
-- returned, accepted or filed only behind the D3 gate.
pub Trace-waypoints :
    {visited : List ProjectState} {p : Project} (d : ProjectState)
    → Trace visited p
    → contains (waypoints p.state) d ≡ true
    → contains visited d ≡ true
Trace-waypoints d (created p e) h = rw e at h
Trace-waypoints d (edited t q e) h = Trace-waypoints d t (rw e at h)
Trace-waypoints d
      (stepped {visited} {p = p} t to_state actor reason now event_id detail gate_context r e) h =
    let sound =
      (transition-ok_iff p to_state gate_context actor reason now event_id detail r).0 e in
    ground (
      arith,
      waypoints_step p.state to_state d sound.0.listed,
      state-moved p to_state actor reason now event_id detail,
      sound.1,
      λ (k : contains (waypoints p.state) d ≡ true). Trace-waypoints d t k,
    )

-- A terminal state of the table has no way out, whatever the target.
pub terminal_closed :
    (s t : ProjectState) → contains terminal_states s ≡ true → is_allowed s t ≡ false
unfolding is_allowed
terminal_closed s t h = ground arith
