-- ===== src/Classify/Chain/Coherence.antt =====
-- core/classify/chain.py: the state, the tier and the co-review that the chain proposes agree.
use film_compliance_agent.Base.{String, Bool, Option, none, some, map, ◌≡◌, refl, inl, inr}
use film_compliance_agent.Schemas.Enums.States.{amount_bracket_eq, ExitKind}
use film_compliance_agent.Schemas.Enums.Process.{VerificationStatus}
use film_compliance_agent.Schemas.Common.{Time}
use film_compliance_agent.Schemas.Json.{Json, Detail}
use film_compliance_agent.Schemas.Policy.{FormDefinitionPack, TierPack}
use film_compliance_agent.Schemas.Project.{IntentProfile, Classification}
use film_compliance_agent.Errors.{ok, >>=-eq-ok}
use film_compliance_agent.Classify.D1a.{EdgeModel, Outcome, FormTypeDecision, judge_form_type}
use film_compliance_agent.Classify.D1b.{SubjectModel, judge_subject}
use film_compliance_agent.Classify.Chain.Outcomes.{SnapshotService, ClassificationOutcome}
use film_compliance_agent.Classify.Chain.Routes.{filing_route, clauses_not_yet_in_force}
use film_compliance_agent.Classify.Chain.Branches.{asked_back, undetermined_form}
use film_compliance_agent.Classify.Chain.{
  tier_of, by_form, version_or_latest, classify_on, annotate, annotated, classify,
}
use film_compliance_agent.Classify.Chain.Proposals.{
  IsCoherent, Coherent, Coherent-value, IsCoherent-annotated, undetermined_form-Coherent,
  exited-Coherent, by_subject-Coherent,
}

module _ (show : Json → String) (snapshots : SnapshotService) (edge_model : EdgeModel)
    (subject_model : SubjectModel) where
  by_form-Coherent :
      (intent : IntentProfile) (version : String) (status : VerificationStatus)
      (pack1 : FormDefinitionPack) (pack2 : Detail) (pack3 : TierPack) (published : Option Bool)
      (form : FormTypeDecision) (o : ClassificationOutcome)
      → by_form show snapshots edge_model subject_model intent version status pack1 pack2 pack3
          published form
        ≡ ok o
      → Coherent o
  unfolding by_form asked_back
  by_form-Coherent intent version status pack1 pack2 pack3 published form o h = go form.outcome refl
    where
      go : (outcome : Outcome) → form.outcome ≡ outcome → Coherent o
      go Outcome.ask_back e =
          Coherent-value (asked_back intent version status form) o (rw (by_form, e) at h)
            (inl (refl, refl))
      go Outcome.needs_human e =
          Coherent-value (undetermined_form intent version status form) o (rw (by_form, e) at h)
            (undetermined_form-Coherent intent version status form)
      go Outcome.exit_non_drama e =
          exited-Coherent intent version status form _ ExitKind.exit_non_drama o
            (rw (by_form, e) at h)
      go Outcome.exit_sister_path e =
          exited-Coherent intent version status form _ ExitKind.exit_sister_path o
            (rw (by_form, e) at h)
      go Outcome.micro_drama e =
          let (subject, judged, h₁) =
            >>=-eq-ok (judge_subject show intent pack2 subject_model) _ (rw (by_form, e) at h) in
          by_subject-Coherent intent version status form subject (tier_of intent pack3 published) o
            h₁

  classify_on-Coherent :
      (intent : IntentProfile) (snapshot_version : Option String) (published : Option Bool)
      (o : ClassificationOutcome)
      → classify_on show snapshots edge_model subject_model intent snapshot_version published ≡ ok o
      → Coherent o
  unfolding classify_on
  classify_on-Coherent intent snapshot_version published o h =
      let (version, _, h₁) =
        >>=-eq-ok (version_or_latest show snapshots edge_model subject_model snapshot_version) _
          h in
      let (status, _, h₂) = >>=-eq-ok (snapshots.verification_status version) _ h₁ in
      let (pack1, _, h₃) = >>=-eq-ok (snapshots.form_definition version) _ h₂ in
      let (pack2, _, h₄) = >>=-eq-ok (snapshots.subject_rules version) _ h₃ in
      let (pack3, _, h₅) = >>=-eq-ok (snapshots.tier_thresholds version) _ h₄ in
      by_form-Coherent intent version status pack1 pack2 pack3 published
        (judge_form_type intent pack1 edge_model) o h₅

  -- what `annotate` leaves as it was
  annotate-IsCoherent :
      (intent : IntentProfile) (as_of : Time) (o : ClassificationOutcome) (c c' : Classification)
      → annotate show snapshots edge_model subject_model intent as_of c ≡ ok c'
      → IsCoherent o c
      → IsCoherent (record o { classification = some c' }) c'
  unfolding annotate
  annotate-IsCoherent intent as_of o c c' h k =
      let (route, _, h₁) =
        >>=-eq-ok (filing_route show snapshots c.tier c.policy_snapshot_version) _ h in
      let (future, _, h₂) =
        >>=-eq-ok
          (clauses_not_yet_in_force snapshots c.policy_snapshot_version
            (map (λ e. e.clause_id) c.evidence_refs) as_of)
          _ h₁ in
      IsCoherent-annotated o _ c' h₂ (record {
        settled = k.settled;
        unsettled = k.unsettled;
        special = k.special;
        reviewed = k.reviewed;
        sourced = k.sourced;
      })

  annotated-Coherent :
      (intent : IntentProfile) (as_of : Time) (outcome o : ClassificationOutcome)
      (given : Option Classification)
      → outcome.classification ≡ given
      → Coherent outcome
      → annotated show snapshots edge_model subject_model intent as_of outcome given ≡ ok o
      → Coherent o
  annotated-Coherent intent as_of outcome o none same k h = Coherent-value outcome o h k
  annotated-Coherent intent as_of outcome o (some c) same (inl (nothing, stays)) h = absurd (cc)
  annotated-Coherent intent as_of outcome o (some c) same (inr (c₀, given, k)) h =
      let (c', made, h₁) =
        >>=-eq-ok (annotate show snapshots edge_model subject_model intent as_of c) _ h in
      let chosen : c₀ ≡ c = cc in
      Coherent-value _ o h₁
        (inr (c', refl, annotate-IsCoherent intent as_of outcome c c' made (rw chosen at k)))

  -- When the chain ends without an error, it asks back and proposes nothing, or it proposes a classification
  -- that agrees with the proposed state: the state is `classified` exactly when the tier is determined, a
  -- classified project cites a clause, a special subject is tier 1, not provisional and co-reviewed, and
  -- nothing else is co-reviewed. This holds for every snapshot and for every answer of the language models.
  pub classify-Coherent :
      (intent : IntentProfile) (as_of : Time) (snapshot_version : Option String)
      (published : Option Bool) (o : ClassificationOutcome)
      → classify show snapshots edge_model subject_model intent as_of snapshot_version published
        ≡ ok o
      → Coherent o
  unfolding classify
  classify-Coherent intent as_of snapshot_version published o h =
      let (outcome, judged, h₁) =
        >>=-eq-ok
          (classify_on show snapshots edge_model subject_model intent snapshot_version published) _
          h in
      annotated-Coherent intent as_of outcome o outcome.classification refl
        (classify_on-Coherent intent snapshot_version published outcome judged) h₁
