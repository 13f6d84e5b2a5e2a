-- ===== src/Workflow/Returns/Resumption.antt =====
-- core/workflow_service.py: a returned project comes back with a draft that can be frozen again.
use mathlib.Core.List.{Memᴰ}
use film_compliance_agent.Base.{
  All, All-of_mem, String, true, false, none, some, [], ◌≡◌, refl, arith, string_eq, ◌==◌, last,
  not,
}
use film_compliance_agent.Base.Dict.{lookup, update_self}
use film_compliance_agent.Schemas.Enums.States.{ProjectState, project_state_eq}
use film_compliance_agent.Schemas.Enums.Process.{Actor}
use film_compliance_agent.Schemas.Project.{Project}
use film_compliance_agent.Schemas.Forms.{FormDraft}
use film_compliance_agent.Schemas.Json.{end}
use film_compliance_agent.Errors.{ok}
use film_compliance_agent.Store.{Stores, put_draft}
use film_compliance_agent.Store.Drafts.{mem-put_draft_ne, IsNew, ne_of_IsNew, last-put_draft_new}
use film_compliance_agent.Effects.{Env, raise_if-ok, now, new_id}
use film_compliance_agent.Workflow.Core.{get_project, record_event}
use film_compliance_agent.Workflow.Core.Moves.{transition_to-moved}
use film_compliance_agent.Workflow.Returns.{successor, supersede, resume_after_return}

module _ (project_id : String) (env : Env) (w w' : Stores) (p q : Project) (d : FormDraft) where
  -- Where the latest draft of a project is frozen and the identifier drawn is new, a resumption
  -- that returns found the project returned and gives it in the revision loop; the latest draft is
  -- then a new one, empty, not frozen, of the same form and policy snapshot, with the frozen one as
  -- its parent, and every draft stored before, the frozen one included, is stored still.
  pub resume_after_return-ok :
      lookup project_id w.projects ≡ some p
      → last (w.forms project_id) ≡ some d
      → d.frozen ≡ true
      → IsNew (env.fresh "draft" w.drawn) (w.forms project_id)
      → resume_after_return project_id env w ≡ (ok q, w')
      → (p.state ≡ ProjectState.institution_returned)
        × (q.state ≡ ProjectState.revision_loop)
        × (last (w'.forms project_id)
            ≡ some (record {
              draft_id = env.fresh "draft" w.drawn;
              form_type = d.form_type;
              frozen = false;
              fields = [];
              conflicts = [];
              hash = none;
              snapshot_version = d.snapshot_version;
              confirmed_by_user_at = none;
              parent_draft = some d.draft_id;
              created_at = some (env.clock w.readings);
            }))
        × All (λ x. Memᴰ x (w'.forms project_id)) (w.forms project_id)
  unfolding resume_after_return get_project supersede record_event now new_id
  resume_after_return-ok found latest frozen new h =
      let (state, h₁) =
        raise_if-ok (not (p.state == ProjectState.institution_returned)) _ _ env w w' q
          (rw found at h) in
      let h₂ = rw (latest, frozen) at h₁ in
      let (listed, same, stored, forms) =
        transition_to-moved p ProjectState.revision_loop Actor.creator
          "institution.returned_for_revision" end env _ w' q h₂ in
      let next = successor d (env.fresh "draft" w.drawn) (env.clock w.readings) in
      let drafts : w'.forms project_id ≡ put_draft next (w.forms project_id) =
        rw forms (update_self project_id (put_draft next (w.forms project_id)) w.forms) in
      (
        ground arith,
        rw same refl,
        rw drafts (last-put_draft_new next (w.forms project_id) new),
        All-of_mem (w.forms project_id) (λ x m. rw drafts (
            mem-put_draft_ne next (w.forms project_id) m
              (ne_of_IsNew next.draft_id (w.forms project_id) new m))),
      )
