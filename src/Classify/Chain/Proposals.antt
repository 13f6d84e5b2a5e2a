-- ===== src/Classify/Chain/Proposals.antt =====
-- core/classify/chain.py: the state, the tier and the co-review agree in what each branch proposes.
use film_compliance_agent.Base.{
  String, true, false, none, some, List, [], ◌∷◌, ◌≡◌, ◌≢◌, refl, ◌⊎◌, inl, inr, is_empty,
  Bool-cases,
}
use film_compliance_agent.Schemas.Enums.States.{ProjectState, Tier, amount_bracket_eq, ExitKind}
use film_compliance_agent.Schemas.Enums.Process.{VerificationStatus}
use film_compliance_agent.Schemas.Common.{EvidenceRef}
use film_compliance_agent.Schemas.Project.{IntentProfile, Classification}
use film_compliance_agent.Errors.{Result, ok, >>=-eq-ok}
use film_compliance_agent.Classify.D1a.{FormTypeDecision}
use film_compliance_agent.Classify.D1b.{SubjectDecision}
use film_compliance_agent.Classify.D1c.{TierDecision}
use film_compliance_agent.Classify.Chain.Outcomes.{
  ClassificationOutcome, roadmap_template, exit_card_key, exit_state,
}
use film_compliance_agent.Classify.Chain.Branches.{
  or_tier_clause, subject_evidence, edge_alert, undetermined_form, exited, special_classification,
  special_subject, edge_classification, edge_case, tiered_classification, tiered, by_subject,
}

-- a classification beside the state that it leads to
pub record IsCoherent (o : ClassificationOutcome) (c : Classification) : Type 0 where
  pub settled : o.next_state ≡ some ProjectState.classified → c.tier ≢ Tier.undetermined
  pub unsettled : c.tier ≢ Tier.undetermined → o.next_state ≡ some ProjectState.classified
  pub special :
      c.special_subject_hit ≡ true
      → (c.tier ≡ Tier.t1) × (c.tier_provisional ≡ false) × (c.co_review_required ≡ true)
  pub reviewed : c.co_review_required ≡ true → c.special_subject_hit ≡ true
  pub sourced : o.next_state ≡ some ProjectState.classified → is_empty c.evidence_refs ≡ false

-- An outcome asks back and proposes nothing, or its classification is coherent.
abbrev pub Coherent : ClassificationOutcome → Type 0
Coherent o =
    ((o.classification ≡ none) × (o.next_state ≡ none))
    ⊎ ((c : Classification) × (o.classification ≡ some c) × IsCoherent o c)

pub Coherent-value :
    (v o : ClassificationOutcome)
    → ◌≡◌ {A = Result ClassificationOutcome} (ok v) (ok o)
    → Coherent v
    → Coherent o
Coherent-value v o h k = let same : v ≡ o = cc in rw same at k

-- the judgment is one of the value that it is equal to
pub IsCoherent-annotated :
    (o : ClassificationOutcome) (v c : Classification)
    → ◌≡◌ {A = Result Classification} (ok v) (ok c)
    → IsCoherent (record o { classification = some v }) v
    → IsCoherent (record o { classification = some c }) c
IsCoherent-annotated o v c h k = let same : v ≡ c = cc in rw same at k

roadmap_template-ok :
    (tier : Tier) (t : String) → roadmap_template tier ≡ ok t → tier ≢ Tier.undetermined
unfolding roadmap_template
roadmap_template-ok Tier.undetermined t h = absurd (cc)
roadmap_template-ok Tier.t1 t h = λ e. cc
roadmap_template-ok Tier.t2 t h = λ e. cc
roadmap_template-ok Tier.t3 t h = λ e. cc

module _ (intent : IntentProfile) (version : String) (status : VerificationStatus)
    (form : FormTypeDecision) where
  pub undetermined_form-Coherent : Coherent (undetermined_form intent version status form)
  unfolding undetermined_form
  undetermined_form-Coherent = inr (
    _,
    refl,
    record {
      settled = λ e. cc;
      unsettled = λ e. absurd (e refl);
      special = λ e. cc;
      reviewed = λ e. cc;
      sourced = λ e. cc;
    },
  )

  pub exited-Coherent :
      (clause_id : String) (kind : ExitKind) (o : ClassificationOutcome)
      → exited intent version status form clause_id kind ≡ ok o
      → Coherent o
  unfolding exited exit_card_key exit_state
  exited-Coherent clause_id ExitKind.exit_non_drama o h = Coherent-value _ o h (
      inr (
        _,
        refl,
        record {
          settled = λ e. cc;
          unsettled = λ e. absurd (e refl);
          special = λ e. cc;
          reviewed = λ e. cc;
          sourced = λ e. cc;
        },
      ))
  exited-Coherent clause_id ExitKind.exit_sister_path o h = Coherent-value _ o h (
      inr (
        _,
        refl,
        record {
          settled = λ e. cc;
          unsettled = λ e. absurd (e refl);
          special = λ e. cc;
          reviewed = λ e. cc;
          sourced = λ e. cc;
        },
      ))
  exited-Coherent clause_id ExitKind.exit_t2 o h = absurd (cc)
  exited-Coherent clause_id ExitKind.exit_t3 o h = absurd (cc)

  or_tier_clause-some :
      (refs : List EvidenceRef) → is_empty (or_tier_clause intent version status form refs) ≡ false
  or_tier_clause-some [] = refl
  or_tier_clause-some (e ∷ es) = refl

  module _ (subject : SubjectDecision) where
    special_subject-Coherent :
        (o : ClassificationOutcome)
        → special_subject intent version status form subject ≡ ok o
        → Coherent o
    unfolding special_subject special_classification roadmap_template
    special_subject-Coherent o h = Coherent-value _ o h (
        inr (
          _,
          refl,
          record {
            settled = λ e k. cc;
            unsettled = λ e. refl;
            special = λ e. (refl, refl, refl);
            reviewed = λ e. refl;
            sourced =
                λ e. or_tier_clause-some (subject_evidence intent version status form subject);
          },
        ))

    edge_case-Coherent :
        (o : ClassificationOutcome)
        → edge_case intent version status form subject ≡ ok o
        → Coherent o
    unfolding edge_case edge_classification
    edge_case-Coherent o h =
        let (alert, made, h₁) = >>=-eq-ok (edge_alert subject.dept) _ h in
        Coherent-value _ o h₁ (
          inr (
            _,
            refl,
            record {
              settled = λ e. cc;
              unsettled = λ e. absurd (e refl);
              special = λ e. cc;
              reviewed = λ e. cc;
              sourced = λ e. cc;
            },
          ))

    tiered-Coherent :
        (d : TierDecision) (o : ClassificationOutcome)
        → tiered intent version status form subject d ≡ ok o
        → Coherent o
    unfolding tiered tiered_classification
    tiered-Coherent d o h =
        let (template, made, h₁) = >>=-eq-ok (roadmap_template d.tier) _ h in
        Coherent-value _ o h₁ (
          inr (
            _,
            refl,
            record {
              settled = λ e. roadmap_template-ok d.tier template made;
              unsettled = λ e. refl;
              special = λ e. cc;
              reviewed = λ e. cc;
              sourced = λ e. refl;
            },
          ))

    pub by_subject-Coherent :
        (d : TierDecision) (o : ClassificationOutcome)
        → by_subject intent version status form subject d ≡ ok o
        → Coherent o
    unfolding by_subject special_subject special_classification edge_case edge_classification tiered
        tiered_classification
    by_subject-Coherent d o h = elim (Bool-cases subject.special_subject_hit) [
      | inl special ↦ special_subject-Coherent o (rw (by_subject, special) at h)
      | inr plain ↦ elim (Bool-cases subject.edge_case_hit) [
        | inl edge ↦ edge_case-Coherent o (rw (by_subject, plain, edge) at h)
        | inr none_hit ↦ tiered-Coherent d o (rw (by_subject, plain, none_hit) at h)
      ]
    ]
