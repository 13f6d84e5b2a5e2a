-- ===== src/Workflow/Recalculation/Results.antt =====
-- core/workflow_service.py: which projects `recalc_tier` moves, and what it makes of them.
use film_compliance_agent.Base.{
  ◌||◌, String, Bool, true, false, Option, none, some, ◌≡◌, ◌≢◌, refl, ◌⊎◌, ◌↔◌, inl, inr, arith,
  string_eq, string_iff, contains,
}
use film_compliance_agent.Base.Dict.{lookup}
use film_compliance_agent.Schemas.Enums.States.{ProjectState, project_state_eq, Tier, tier_eq}
use film_compliance_agent.Schemas.Policy.{TierPack}
use film_compliance_agent.Schemas.Project.{Classification, Project}
use film_compliance_agent.Errors.{ok}
use film_compliance_agent.Store.{Stores}
use film_compliance_agent.Effects.{Env}
use film_compliance_agent.Classify.D1c.{TierDecision, judge_tier}
use film_compliance_agent.Workflow.Recalculation.{
  RecalcResult, recalc_frozen_states, is_given, recalc_frozen, thresholds_published_in,
  recalc_decision, recalculated, differs, tier_changed, recalculated_project, recalc_tier,
}
use film_compliance_agent.Workflow.Recalculation.Repeats.{IsRecalculated, recalc_tier-cases}

-- neither frozen nor filed: the states before the form is frozen, and no registration number
pub record IsMovable (p : Project) : Type 0 where
  pub not_frozen : p.state ≢ ProjectState.form_frozen
  pub not_under_review : p.state ≢ ProjectState.institution_review
  pub not_returned : p.state ≢ ProjectState.institution_returned
  pub not_ready : p.state ≢ ProjectState.ready_for_external_filing
  pub not_filed : p.state ≢ ProjectState.filed
  pub not_produced : p.state ≢ ProjectState.production
  pub unregistered : (p.registration_number ≡ none) ⊎ (p.registration_number ≡ some "")

right_of_or : (a b : Bool) → (a || b) ≡ false → b ≡ false
right_of_or true b h = absurd (cc)
right_of_or false b h = h

not_given : (n : Option String) → is_given n ≡ false → (n ≡ none) ⊎ (n ≡ some "")
not_given none h = inl refl
not_given (some s) h = inr (ground (arith, string_iff s ""))

IsMovable-of_frozen : (p : Project) → recalc_frozen p ≡ false → IsMovable p
unfolding recalc_frozen film_compliance_agent.Schemas.Enums.States.ProjectState-discrete
IsMovable-of_frozen p h = record {
  not_frozen = λ e. let k = rw (recalc_frozen, e) at h in ground arith;
  not_under_review = λ e. let k = rw (recalc_frozen, e) at h in ground arith;
  not_returned = λ e. let k = rw (recalc_frozen, e) at h in ground arith;
  not_ready = λ e. let k = rw (recalc_frozen, e) at h in ground arith;
  not_filed = λ e. let k = rw (recalc_frozen, e) at h in ground arith;
  not_produced = λ e. let k = rw (recalc_frozen, e) at h in ground arith;
  unregistered =
      not_given p.registration_number
        (right_of_or (contains recalc_frozen_states p.state) (is_given p.registration_number) h);
}

module _ (version : String) (env : Env) (w w' : Stores) (p : Project) where
  -- what a run that moves a tier has read, stored and answered
  pub record IsRetiered (r : RecalcResult) : Type 0 where
    pub before : Classification
    pub pack : TierPack
    pub project : Project
    pub after : Classification
    pub classified : p.classification ≡ some before
    pub provisional : before.tier_provisional ≡ true
    pub movable : IsMovable p
    pub published : env.tier_pack version ≡ some pack
    pub decision : TierDecision
    pub decided :
        decision
        ≡ judge_tier p.intent_profile.amount_bracket pack
            (some (thresholds_published_in pack))
            p.intent_profile.investment_amount_rmb
            none
            none
    pub stored : lookup p.project_id w'.projects ≡ some project
    pub holds : project.classification ≡ some after
    pub tier : after.tier ≡ decision.tier
    pub settled : after.tier_provisional ≡ decision.tier_provisional
    pub pinned : after.policy_snapshot_version ≡ version
    pub same_route : after.filing_route ≡ before.filing_route
    pub fresh : project.policy_stale ≡ false
    pub same_state : project.state ≡ p.state
    pub same_number : project.registration_number ≡ p.registration_number
    pub answered :
        (r.changed ≡ false)
        ↔ ((after.tier ≡ before.tier) × (after.tier_provisional ≡ before.tier_provisional))
    pub same_forms : w'.forms ≡ w.forms
    pub same_materials : w'.materials ≡ w.materials

differs_iff : (a b : Bool) → (differs a b ≡ false) ↔ (a ≡ b)
differs_iff true true = (λ h. refl, λ h. refl)
differs_iff true false = (λ h. cc, λ h. cc)
differs_iff false true = (λ h. cc, λ h. cc)
differs_iff false false = (λ h. refl, λ h. refl)

tier_changed_iff :
    (d : TierDecision) (c : Classification)
    → (tier_changed d c ≡ false) ↔ ((d.tier ≡ c.tier) × (d.tier_provisional ≡ c.tier_provisional))
unfolding tier_changed
tier_changed_iff d c = (
  λ h.
      ground
        (arith, tier_eq.same_iff d.tier c.tier, differs_iff d.tier_provisional c.tier_provisional),
  λ h.
      ground
        (arith, tier_eq.same_iff d.tier c.tier, differs_iff d.tier_provisional c.tier_provisional),
)

module _ (version : String) (env : Env) (w w' : Stores) (p : Project) where
  retiered :
      (r : RecalcResult) → IsRecalculated version env w w' p r → IsRetiered version env w w' p r
  unfolding recalculated recalc_decision
  retiered r done =
      let d = recalc_decision p done.pack in
      let c = recalculated done.before d version (env.verification_status version) in
      record {
        before = done.before;
        pack = done.pack;
        project = recalculated_project p c (env.clock w.readings);
        after = c;
        classified = done.classified;
        provisional = done.provisional;
        movable = IsMovable-of_frozen p done.movable;
        published = done.published;
        decision = d;
        decided = refl;
        stored = done.stored;
        holds = refl;
        tier = refl;
        settled = refl;
        pinned = refl;
        same_route = refl;
        fresh = refl;
        same_state = refl;
        same_number = refl;
        answered = rw done.answered (tier_changed_iff d done.before);
        same_forms = done.same_forms;
        same_materials = done.same_materials;
      }

  -- A recalculation of a stored project's tier that returns either changed nothing and says so, or
  -- the project is classified with a provisional tier, its form is not frozen nor any later state
  -- reached, it has no registration number, and the version has its thresholds. Then the project is
  -- stored, no longer stale, with the tier that the thresholds give for its intent and with the
  -- filing route, the state and the number that it had; the answer says whether the tier or its
  -- being provisional changed; all forms and materials stay.
  pub recalc_tier-ok :
      (project_id : String) (r : RecalcResult)
      → lookup project_id w.projects ≡ some p
      → recalc_tier project_id version env w ≡ (ok r, w')
      → ((w' ≡ w) × (r.changed ≡ false)) ⊎ IsRetiered version env w w' p r
  recalc_tier-ok project_id r found h =
      elim (recalc_tier-cases version env w w' p project_id r found h) [
        | inl same ↦ inl same
        | inr done ↦ inr (retiered r done)
      ]
