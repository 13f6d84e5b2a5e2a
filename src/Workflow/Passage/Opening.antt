-- ===== src/Workflow/Passage/Opening.antt =====
-- core/workflow_service.py: what a passed gate says of the stores, and where the review leads.
use film_compliance_agent.Base.{
  String, true, some, List, ◌≡◌, inl, inr, refl, ◌∙◌, arith, string_eq, ◌==◌, not, Bool-cases,
}
use film_compliance_agent.Base.Dict.{lookup, values}
use film_compliance_agent.Schemas.Enums.States.{ProjectState, project_state_eq}
use film_compliance_agent.Schemas.Enums.Process.{Actor}
use film_compliance_agent.Schemas.Project.{Project}
use film_compliance_agent.Schemas.Assets.{MaterialCard}
use film_compliance_agent.Schemas.Policy.{FormPack}
use film_compliance_agent.Schemas.Json.{end}
use film_compliance_agent.Errors.{ok}
use film_compliance_agent.Store.{Stores}
use film_compliance_agent.Effects.{Env, bind-ok, raise_if-ok}
use film_compliance_agent.Gate.{GateResult, evaluate_gate_d3, required_fact_keys}
use film_compliance_agent.Gate.Report.{IsClear, passed_iff}
use film_compliance_agent.Workflow.Core.{get_project, pinned_version, form_pack_of, transition_to}
use film_compliance_agent.Workflow.Core.Moves.{transition_to-moved}
use film_compliance_agent.Workflow.Passage.Cards.{IsComplete, material_cards-IsComplete}
use film_compliance_agent.Workflow.Passage.{
  material_cards, report_with, gate_report, enter_gate, pass_gate,
}

module _ (project_id : String) (env : Env) (p : Project) where
  -- Nothing that the gate reads blocks it: the stored findings and facts, the cards that
  -- `material_cards` lists, and the form pack of the version that the project is pinned to.
  pub record IsOpen (w : Stores) : Type 0 where
    pub version : String
    pub pack : FormPack
    pub cards : List MaterialCard
    pub after : Stores
    pub pinned : pinned_version p env w ≡ (ok version, w)
    pub packed : env.form_pack version ≡ some pack
    pub listed : material_cards project_id env w ≡ (ok cards, after)
    pub complete : IsComplete project_id env version pack w cards
    pub clear :
        IsClear
          (values (w.findings project_id))
          (w.facts project_id)
          cards
          (required_fact_keys (some pack))

  report_with-ok :
      (version : String) (pack : FormPack) (r : GateResult) (w w' : Stores)
      → lookup project_id w.projects ≡ some p
      → pinned_version p env w ≡ (ok version, w)
      → env.form_pack version ≡ some pack
      → report_with project_id pack env w ≡ (ok r, w')
      → r.passed ≡ true
      → IsOpen w
  unfolding report_with
  report_with-ok version pack r w w' found pinned packed h passed =
      let (cards, w₃, e₃, h₃) = bind-ok (material_cards project_id) _ env w w' r h in
      let made : r
          ≡ evaluate_gate_d3 (values (w.findings project_id)) (w.facts project_id) cards
              (some pack) =
        cc in
      record {
        version = version;
        pack = pack;
        cards = cards;
        after = w₃;
        pinned = pinned;
        packed = packed;
        listed = e₃;
        complete =
            material_cards-IsComplete project_id env p version pack cards w w₃ found pinned packed
              e₃;
        clear =
            (passed_iff (values (w.findings project_id)) (w.facts project_id) cards (some pack)).0
              (rw made at passed);
      }

  pinned_version_keeps : (r : String) (w w' : Stores) → pinned_version p env w ≡ (ok r, w') → w' ≡ w
  unfolding pinned_version
  pinned_version_keeps r w w' h = ground arith

  form_pack_of_keeps :
      (version : String) (r : FormPack) (w w' : Stores)
      → form_pack_of version env w ≡ (ok r, w')
      → w' ≡ w
  unfolding form_pack_of
  form_pack_of_keeps version r w w' h = ground arith

  form_pack_of-ok :
      (version : String) (r : FormPack) (w w' : Stores)
      → form_pack_of version env w ≡ (ok r, w')
      → env.form_pack version ≡ some r
  unfolding form_pack_of
  form_pack_of-ok version r w w' h = ground arith

  gate_report-ok :
      (r : GateResult) (w w' : Stores)
      → lookup project_id w.projects ≡ some p
      → gate_report project_id env w ≡ (ok r, w')
      → r.passed ≡ true
      → IsOpen w
  unfolding gate_report get_project
  gate_report-ok r w w' found h passed =
      let (version, w₁, e₁, h₁) = bind-ok (pinned_version p) _ env w w' r (rw found at h) in
      let (pack, w₂, e₂, h₂) = bind-ok (form_pack_of version) _ env w₁ w' r h₁ in
      let unread : w₁ ≡ w = pinned_version_keeps version w w₁ e₁ in
      let packed : env.form_pack version ≡ some pack = form_pack_of-ok version pack w₁ w₂ e₂ in
      let same : w₂ ≡ w = form_pack_of_keeps version pack w₁ w₂ e₂ ∙ unread in
      report_with-ok version pack r w w' found (rw unread at e₁) packed (rw same at h₂) passed

  enter_gate-ok :
      (q : Project) (w w' : Stores)
      → enter_gate p env w ≡ (ok q, w')
      → q.state ≡ ProjectState.gate_d3_passed
  unfolding enter_gate
  enter_gate-ok q w w' h = elim (Bool-cases (p.state == ProjectState.gate_d3_passed)) [
    | inl there ↦ let h' = rw there at h in let same : p ≡ q = cc in rw (← same) (ground arith)
    | inr away ↦
        let (ready, h₁) =
          raise_if-ok _ _
            (transition_to p ProjectState.gate_d3_passed Actor.system "gate.d3_passed" end) env w w'
            q (rw away at h) in
        let (listed, same, stored, rest) =
          transition_to-moved p ProjectState.gate_d3_passed Actor.system "gate.d3_passed" end env w
            w' q h₁ in
        rw same refl
  ]

  -- A run of `pass_gate` that returns gives the project in the gate's state, and in the stores it
  -- started from nothing blocked the gate: no stored finding, no required fact left out, no
  -- conflict, and no required card of `material_cards`, under the form pack of the pinned version.
  -- The cards are those of that pack, or the stored ones under their identifiers, and every other
  -- card that is stored.
  pub pass_gate-ok :
      (q : Project) (w w' : Stores)
      → lookup project_id w.projects ≡ some p
      → pass_gate project_id env w ≡ (ok q, w')
      → (q.state ≡ ProjectState.gate_d3_passed) × IsOpen w
  unfolding pass_gate get_project
  pass_gate-ok q w w' found h =
      let (report, w₁, e₁, h₁) = bind-ok (gate_report project_id) _ env w w' q (rw found at h) in
      let (passed, h₂) = raise_if-ok (not report.passed) _ _ env w₁ w' q h₁ in
      (enter_gate-ok q w₁ w' h₂, gate_report-ok report w w₁ found e₁ (ground arith))
