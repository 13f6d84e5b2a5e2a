-- ===== src/Classify/Chain.antt =====
-- core/classify/chain.py: the chain of the three judgments on one snapshot, and what it proposes.
pub mod Outcomes
pub mod Routes
pub mod Branches
pub mod Proposals
pub mod Coherence
use film_compliance_agent.Base.{
  ℕ, ◌*◌, ◌+++◌, String, Bool, true, false, Option, none, some, List, [], ◌∷◌, ◌++◌, ◌==◌, not,
  ◌&&◌, leb, map, all, contains, is_empty, is_blank, if◌then◌else◌, string_eq,
}
use film_compliance_agent.Base.Sorting.{sorted_set}
use film_compliance_agent.Schemas.Enums.States.{
  ProjectState, FormType, Tier, tier_eq, tier_value, ProductionStage, production_stage_eq, Regime,
  ExitKind,
}
use film_compliance_agent.Schemas.Enums.Review.{AlertOption, FindingSeverity, SourceRefType}
use film_compliance_agent.Schemas.Enums.Process.{VerificationStatus}
use film_compliance_agent.Schemas.Common.{Time, Value, number, SourceRef, EvidenceRef}
use film_compliance_agent.Schemas.Findings.{Alert, AlertDept, AlertChoice}
use film_compliance_agent.Schemas.Json.{
  Json, Items, Detail, end, entry, null, str, arr, obj, nil, strs, get, get_or, is_true,
}
use film_compliance_agent.Schemas.Json.Access.{list_of, text_of}
use film_compliance_agent.Schemas.Policy.{FormDefinitionPack, TierPack}
use film_compliance_agent.Schemas.Project.{IntentProfile, Classification}
use film_compliance_agent.Errors.{
  Error, raised, snapshot_not_found, invalid_document, Result, ok, err, ◌>>=◌, ◌>>◌,
}
use film_compliance_agent.Classify.D1a.{EdgeModel, Outcome, FormTypeDecision, judge_form_type}
use film_compliance_agent.Classify.D1b.{SubjectModel, SubjectDecision, judge_subject}
use film_compliance_agent.Classify.D1c.{TierDecision, judge_tier}
use film_compliance_agent.Classify.SubjectRules.{or_default}
use film_compliance_agent.Classify.Chain.Outcomes.{
  Clause, in_force, SnapshotService, exit_card_key, exit_state, roadmap_template, form_clause_id,
  tier_clause_id, ExitOutcome, ProposedFact, RoadmapPreview, ClassificationOutcome,
}
use film_compliance_agent.Classify.Chain.Routes.{
  or_none, is_future, clauses_where, clauses_not_yet_in_force, set_key, is_known, sourced_route,
  route_in, filing_route,
}
use film_compliance_agent.Classify.Chain.Branches.{
  intent_fact, millionths, intent_facts, text_field, name_field, choice, edge_alert, evidence,
  proposed, base_classification, asked_back, undetermined_form, exited, or_tier_clause,
  shared_flags, subject_evidence, special_classification, special_subject, edge_classification,
  edge_case, clause_or_default, tiered_classification, tiered, by_subject,
}

-- the tier of the intent, on the pack and the flag that the caller may give
abbrev pub tier_of : IntentProfile → TierPack → Option Bool → TierDecision
tier_of intent pack3 published =
    judge_tier intent.amount_bracket pack3 published intent.investment_amount_rmb
      intent.platform_promoted intent.voluntary_key_declaration

module _ (show : Json → String) (snapshots : SnapshotService) (edge_model : EdgeModel)
    (subject_model : SubjectModel) where
  -- after the form was judged
  unfoldable pub by_form :
      IntentProfile
      → String
      → VerificationStatus
      → FormDefinitionPack
      → Detail
      → TierPack
      → Option Bool
      → FormTypeDecision
      → Result ClassificationOutcome
  by_form intent version status pack1 pack2 pack3 published form = elim form.outcome [
    | Outcome.ask_back ↦ ok (asked_back intent version status form)
    | Outcome.needs_human ↦ ok (undetermined_form intent version status form)
    | Outcome.exit_non_drama ↦
        exited intent version status form (form_clause pack1.clause_ref) ExitKind.exit_non_drama
    | Outcome.exit_sister_path ↦
        exited intent version status form (form_clause pack1.clause_ref) ExitKind.exit_sister_path
    | Outcome.micro_drama ↦ judge_subject show intent pack2 subject_model >>= λ subject.
        by_subject intent version status form subject (tier_of intent pack3 published)
  ]
    where
      form_clause : Option String → String
      form_clause none = form_clause_id
      form_clause (some c) = if c == "" then form_clause_id else c

  -- `snapshot_version or snapshots.latest_version()`
  abbrev pub version_or_latest : Option String → Result String
  version_or_latest none = snapshots.latest_version
  version_or_latest (some v) = if v == "" then snapshots.latest_version else ok v

  -- `_classify`
  unfoldable pub classify_on :
      IntentProfile → Option String → Option Bool → Result ClassificationOutcome
  classify_on intent snapshot_version published = do
    version ← version_or_latest snapshot_version
    status ← snapshots.verification_status version
    pack1 ← snapshots.form_definition version
    pack2 ← snapshots.subject_rules version
    pack3 ← snapshots.tier_thresholds version
    by_form intent version status pack1 pack2 pack3 published
        (judge_form_type intent pack1 edge_model)

  -- what `classify` adds to the flags
  abbrev pub added_flags : IntentProfile → Classification → List String → List String
  added_flags intent c future =
      (if is_empty future then [] else "clause_not_yet_in_force" ∷ [])
      ++ (if c.tier == Tier.t1 && intent.production_stage == ProductionStage.production_complete
          then "filing_due_before_shooting" ∷ []
          else [])

  -- `sorted(flags)` where a flag is new
  abbrev pub with_flags : List String → List String → List String
  with_flags flags added = if all (contains flags) added then flags else sorted_set (flags ++ added)

  abbrev pub route_or : Option Detail → Option Detail → Option Detail
  route_or none old = old
  route_or (some route) old = some route

  -- the classification with its route and its flags
  unfoldable pub annotate : IntentProfile → Time → Classification → Result Classification
  annotate intent as_of c = do
    route ← filing_route show snapshots c.tier c.policy_snapshot_version
    future ←
        clauses_not_yet_in_force snapshots c.policy_snapshot_version
          (map (λ e. e.clause_id) c.evidence_refs) as_of
    ok (record c {
      filing_route = route_or route c.filing_route;
      pending_flags = with_flags c.pending_flags (added_flags intent c future);
    })

  abbrev pub annotated :
      IntentProfile
      → Time
      → ClassificationOutcome
      → Option Classification
      → Result ClassificationOutcome
  annotated intent as_of outcome none = ok outcome
  annotated intent as_of outcome (some c) = do
    c' ← annotate intent as_of c
    ok (record outcome { classification = some c' })

  unfoldable pub classify :
      IntentProfile → Time → Option String → Option Bool → Result ClassificationOutcome
  classify intent as_of snapshot_version published = do
    outcome ← classify_on intent snapshot_version published
    annotated intent as_of outcome outcome.classification
