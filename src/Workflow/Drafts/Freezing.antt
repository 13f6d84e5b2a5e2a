-- ===== src/Workflow/Drafts/Freezing.antt =====
-- core/workflow_service.py: what a frozen form is, and what freezing requires.
use mathlib.Core.List.{Memᴰ}
use film_compliance_agent.Base.{
  String, true, Option, none, some, ◌≡◌, ◌⊎◌, inl, inr, refl, sym, ap, arith, string_eq, ◌==◌, last,
  is_empty, not, Bool-cases,
}
use film_compliance_agent.Base.Dict.{lookup, update_self}
use film_compliance_agent.Schemas.Enums.States.{ProjectState, project_state_eq}
use film_compliance_agent.Schemas.Enums.Process.{Actor}
use film_compliance_agent.Schemas.Project.{Project}
use film_compliance_agent.Schemas.Forms.{FormDraft}
use film_compliance_agent.Schemas.Json.{end}
use film_compliance_agent.Errors.{ok}
use film_compliance_agent.Store.{Stores, put_draft}
use film_compliance_agent.Store.Drafts.{mem-put_draft}
use film_compliance_agent.Effects.{Env, bind-ok, raise_if-ok, now, new_id}
use film_compliance_agent.Forms.{pending_keys, draft_hash, draft_payload}
use film_compliance_agent.Workflow.Core.{get_project, record_event, transition_to}
use film_compliance_agent.Workflow.Core.Moves.{transition_to-moved}
use film_compliance_agent.Workflow.Drafts.{
  frozen_copy, form_draft, seal, freeze_open, frozen_or_sealed, freeze_form,
}

module _ (project_id : String) (env : Env) (p : Project) where
  -- what a run of `freeze_form` has done when it froze the draft itself
  pub record IsSealed (d : FormDraft) (w' : Stores) : Type 0 where
    pub opened : p.state ≡ ProjectState.gate_d3_passed
    pub closed : d.frozen ≡ true
    pub hashed : d.hash ≡ some (draft_hash env.digest d)
    pub complete : is_empty (pending_keys d) ≡ true
    pub kept : Memᴰ d (w'.forms project_id)
    pub moved :
        (q : Project) × (lookup p.project_id w'.projects ≡ some q)
        × (q.state ≡ ProjectState.form_frozen)

  seal-ok :
      (draft d : FormDraft) (w w' : Stores)
      → p.state ≡ ProjectState.gate_d3_passed
      → is_empty (pending_keys draft) ≡ true
      → seal project_id p draft env w ≡ (ok d, w')
      → IsSealed d w'
  unfolding seal draft_hash draft_payload pending_keys record_event now new_id
  seal-ok draft d w w' opened complete h =
      let (q, w₂, step, fin) =
        bind-ok (transition_to p ProjectState.form_frozen Actor.creator "form.frozen" end) _ env _
          w' d h in
      let (listed, same, stored, forms) =
        transition_to-moved p ProjectState.form_frozen Actor.creator "form.frozen" end env _ w₂ q
          step in
      let frozen = frozen_copy draft (draft_hash env.digest draft) (env.clock w.readings) in
      let is_frozen : d ≡ frozen = cc in
      let after : w' ≡ w₂ = cc in
      record {
        opened = opened;
        closed = rw is_frozen refl;
        hashed = rw is_frozen refl;
        complete = rw is_frozen complete;
        kept =
            rw
              (
                is_frozen,
                after,
                forms,
                update_self project_id (put_draft frozen (w.forms project_id)) w.forms,
              )
              (mem-put_draft frozen (w.forms project_id));
        moved = (q, rw after stored, rw same refl);
      }

  freeze_open-ok :
      (d : FormDraft) (w w' : Stores) → freeze_open project_id p env w ≡ (ok d, w') → IsSealed d w'
  unfolding freeze_open
  freeze_open-ok d w w' h =
      let (opened, h₀) =
        raise_if-ok (not (p.state == ProjectState.gate_d3_passed)) _ _ env w w' d h in
      let (draft, w₁, built, h₁) = bind-ok (form_draft project_id) _ env w w' d h₀ in
      let (complete, h₂) = raise_if-ok (not (is_empty (pending_keys draft))) _ _ env w₁ w' d h₁ in
      seal-ok draft d w₁ w' (ground arith) (ground arith) h₂

  frozen_or_sealed-ok :
      (existing : Option FormDraft) (d : FormDraft) (w w' : Stores)
      → frozen_or_sealed project_id p existing env w ≡ (ok d, w')
      → ((existing ≡ some d) × (d.frozen ≡ true) × (w' ≡ w)) ⊎ IsSealed d w'
  frozen_or_sealed-ok none d w w' h = inr (freeze_open-ok d w w' h)
  frozen_or_sealed-ok (some x) d w w' h = elim (Bool-cases x.frozen) [
    | inl frozen ↦
        let h' = rw frozen at h in
        let same : x ≡ d = cc in inl (ap some same, rw (sym same) frozen, cc)
    | inr thawed ↦ inr (freeze_open-ok d w w' (rw thawed at h))
  ]

  -- A run of `freeze_form` that returns either gives back the latest draft, frozen before, and
  -- writes nothing, or has frozen it: then the project had passed the gate, no field of the draft
  -- is outstanding, the hash is that of the draft, the store holds it, and the form is frozen.
  pub freeze_form-ok :
      (d : FormDraft) (w w' : Stores)
      → lookup project_id w.projects ≡ some p
      → freeze_form project_id env w ≡ (ok d, w')
      → ((last (w.forms project_id) ≡ some d) × (d.frozen ≡ true) × (w' ≡ w)) ⊎ IsSealed d w'
  unfolding freeze_form get_project
  freeze_form-ok d w w' found h =
      frozen_or_sealed-ok (last (w.forms project_id)) d w w' (rw found at h)
