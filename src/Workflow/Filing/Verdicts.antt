-- ===== src/Workflow/Filing/Verdicts.antt =====
-- core/workflow_service.py: what a verdict of the institution requires and does.
use mathlib.Core.List.{Memᴰ}
use film_compliance_agent.Base.{
  String, true, false, Option, some, ◌≡◌, refl, arith, string_eq, last,
}
use film_compliance_agent.Base.Dict.{lookup, update, update_self}
use film_compliance_agent.Base.Strip.{is_blank_text}
use film_compliance_agent.Schemas.Enums.States.{ProjectState, project_state_eq}
use film_compliance_agent.Schemas.Enums.Process.{
  Actor, institution_decision_value, InstitutionDecision,
}
use film_compliance_agent.Schemas.Project.{Project}
use film_compliance_agent.Schemas.Workflow.{InstitutionReview}
use film_compliance_agent.Schemas.Json.{end}
use film_compliance_agent.Errors.{ok}
use film_compliance_agent.Store.{Stores, put_review}
use film_compliance_agent.Store.Reviews.{mem-put_review}
use film_compliance_agent.Effects.{Env, bind-ok, now, new_id}
use film_compliance_agent.StateMachine.{is_allowed, allowed_transitions}
use film_compliance_agent.Workflow.Core.{get_project, record_event}
use film_compliance_agent.Workflow.Core.Moves.{transition_to-moved, transition_to-reviews}
use film_compliance_agent.Workflow.Filing.{
  decision_named, check_verdict, target_of, follow, enact, licence_passed, decided_review,
  decide_institution_review,
}

review_of_allowed :
    (s : ProjectState)
    → is_allowed s ProjectState.ready_for_external_filing ≡ true
    → s ≡ ProjectState.institution_review
unfolding is_allowed allowed_transitions
review_of_allowed s h = ground arith

returned_of_allowed :
    (s : ProjectState)
    → is_allowed s ProjectState.institution_returned ≡ true
    → s ≡ ProjectState.institution_review
unfolding is_allowed allowed_transitions
returned_of_allowed s h = ground arith

check_verdict_keeps :
    (verdict : InstitutionDecision) (review : InstitutionReview)
    (comments agreement : Option String) (env : Env) (w w' : Stores) (u : Unit {0})
    → check_verdict verdict review comments agreement env w ≡ (ok u, w')
    → w' ≡ w
unfolding check_verdict
check_verdict_keeps verdict review comments agreement env w w' u h = ground arith

module _ (project_id : String) (comments agreement : Option String) (env : Env) (w w' : Stores)
    (p q : Project) (review updated : InstitutionReview) where
  -- what `enact` has written when it follows a verdict
  inversion_enact :
      (verdict : InstitutionDecision)
      → enact project_id p review verdict comments agreement env w ≡ (ok (q, updated), w')
      → (updated ≡ decided_review review verdict comments agreement (env.clock w.readings))
        × ((w₁ : Stores) × (follow p verdict (target_of verdict) env w₁ ≡ (ok q, w'))
            × Memᴰ updated (w₁.institution_reviews project_id))
  unfolding enact record_event now new_id
  inversion_enact verdict h =
      let (q₁, w₂, followed, fin) =
        bind-ok (follow p verdict (target_of verdict)) _ env _ w' (q, updated) h in
      let same_project : q₁ ≡ q = cc in
      let same_stores : w₂ ≡ w' = cc in
      let made = decided_review review verdict comments agreement (env.clock w.readings) in
      let same : updated ≡ made = cc in
      let put : Memᴰ made (
          update project_id (put_review made (w.institution_reviews project_id))
            w.institution_reviews project_id) =
        rw
          (update_self project_id (put_review made (w.institution_reviews project_id))
            w.institution_reviews)
          (mem-put_review made (w.institution_reviews project_id)) in
      (same, (_, rw (same_project, same_stores) at followed, rw same put))

  inversion :
      (decision : String) (verdict : InstitutionDecision)
      → decision_named decision ≡ some verdict
      → lookup project_id w.projects ≡ some p
      → last (w.institution_reviews project_id) ≡ some review
      → decide_institution_review project_id decision comments agreement env w
        ≡ (ok (q, updated), w')
      → (check_verdict verdict review comments agreement env w ≡ (ok tt, w))
        × (enact project_id p review verdict comments agreement env w ≡ (ok (q, updated), w'))
  unfolding decide_institution_review get_project
  inversion decision verdict named found latest h =
      let h' = rw (found, latest, named) at h in
      let (u, w₀, checked, h₁) =
        bind-ok (check_verdict verdict review comments agreement) _ env w w' (q, updated) h' in
      let same = check_verdict_keeps verdict review comments agreement env w w₀ u checked in
      (rw same at checked, rw same at h₁)

  -- If an acceptance returns, the project was under review, the agreement is signed and the
  -- licence check of the latest review passed; the project returned is ready for the filing.
  pub decide_institution_review-accept :
      lookup project_id w.projects ≡ some p
      → last (w.institution_reviews project_id) ≡ some review
      → decide_institution_review project_id "accept" comments agreement env w
        ≡ (ok (q, updated), w')
      → (p.state ≡ ProjectState.institution_review)
        × (is_blank_text agreement ≡ false)
        × (licence_passed review.license_check ≡ true)
        × (q.state ≡ ProjectState.ready_for_external_filing)
        × (lookup p.project_id w'.projects ≡ some q)
  unfolding decision_named check_verdict target_of follow institution_decision_value
  decide_institution_review-accept found latest h =
      let (checked, enacted) = inversion "accept" InstitutionDecision.accept refl found latest h in
      let (updated_is, (w₁, followed, put)) = inversion_enact InstitutionDecision.accept enacted in
      let (listed, same, stored, rest) =
        transition_to-moved p ProjectState.ready_for_external_filing Actor.institution
          "institution.accept" end env w₁ w' q followed in
      (review_of_allowed p.state listed, ground arith, ground arith, rw same refl, stored)

  -- If a return of the project returns, the project was under review and there are comments; the
  -- project is then returned, and the decided review has the comments and is stored.
  pub decide_institution_review-return :
      lookup project_id w.projects ≡ some p
      → last (w.institution_reviews project_id) ≡ some review
      → decide_institution_review project_id "return" comments agreement env w
        ≡ (ok (q, updated), w')
      → (p.state ≡ ProjectState.institution_review)
        × (is_blank_text comments ≡ false)
        × (updated.return_comments ≡ comments)
        × Memᴰ updated (w'.institution_reviews project_id)
        × (q.state ≡ ProjectState.institution_returned)
        × (lookup p.project_id w'.projects ≡ some q)
  unfolding decision_named check_verdict target_of follow institution_decision_value
  decide_institution_review-return found latest h =
      let (checked, enacted) = inversion "return" InstitutionDecision.return refl found latest h in
      let (updated_is, (w₁, followed, put)) = inversion_enact InstitutionDecision.return enacted in
      let (listed, same, stored, rest) =
        transition_to-moved p ProjectState.institution_returned Actor.institution
          "institution.return" end env w₁ w' q followed in
      let kept =
        transition_to-reviews p ProjectState.institution_returned Actor.institution
          "institution.return" end env w₁ w' q followed in
      (
        returned_of_allowed p.state listed,
        ground arith,
        rw updated_is refl,
        rw kept put,
        rw same refl,
        stored,
      )
