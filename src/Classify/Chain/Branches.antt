-- ===== src/Classify/Chain/Branches.antt =====
-- core/classify/chain.py: what each branch of the chain proposes.
use film_compliance_agent.Base.{
  ℕ, ◌*◌, ◌+++◌, String, true, false, Option, none, some, List, [], ◌∷◌, ◌++◌, ◌==◌, map,
  if◌then◌else◌, string_eq,
}
use film_compliance_agent.Schemas.Enums.States.{
  ProjectState, FormType, Tier, tier_eq, production_stage_eq, Regime, ExitKind,
}
use film_compliance_agent.Schemas.Enums.Review.{AlertOption, FindingSeverity, SourceRefType}
use film_compliance_agent.Schemas.Enums.Process.{VerificationStatus}
use film_compliance_agent.Schemas.Common.{number, EvidenceRef}
use film_compliance_agent.Schemas.Findings.{Alert, AlertChoice}
use film_compliance_agent.Schemas.Json.{Json, Detail, end, null, str, get}
use film_compliance_agent.Schemas.Project.{IntentProfile, Classification}
use film_compliance_agent.Errors.{invalid_document, Result, ok, err, ◌>>=◌}
use film_compliance_agent.Classify.D1a.{FormTypeDecision}
use film_compliance_agent.Classify.D1b.{SubjectDecision}
use film_compliance_agent.Classify.D1c.{TierDecision}
use film_compliance_agent.Classify.SubjectRules.{or_default}
use film_compliance_agent.Classify.Chain.Outcomes.{
  exit_card_key, exit_state, roadmap_template, tier_clause_id, ProposedFact, ClassificationOutcome,
}

-- a fact of the intent, if it is given; numbers in facts are counted in millionths
abbrev pub intent_fact : String → Option ℕ → List ProposedFact
intent_fact key none = []
intent_fact key (some n) =
    record {
      key = key;
      value = number n;
      source_ref = record {
        type = SourceRefType.user_answer;
        asset_version = none;
        locator = none;
        answer_id = some ("intent." +++ key);
        institution_id = none;
      };
    }
    ∷ []

abbrev pub millionths : Option ℕ → Option ℕ
millionths none = none
millionths (some n) = some (n * 1_000_000)

unfoldable pub intent_facts : IntentProfile → List ProposedFact
intent_facts intent =
    intent_fact "episode_count" (millionths intent.episode_count)
    ++ intent_fact "episode_minutes" intent.episode_minutes
    ++ intent_fact "investment_amount_rmb" (millionths intent.investment_amount_rmb)

-- a text of a department, which the document model requires to be one
abbrev pub text_field : Option Json → Result (Option String)
text_field none = ok none
text_field (some null) = ok none
text_field (some (str s)) = ok (some s)
text_field _ = err invalid_document

abbrev pub name_field : Option Json → Result String
name_field none = ok "alert.dept.pending"
name_field (some (str s)) = ok s
name_field _ = err invalid_document

abbrev pub choice : AlertOption → String → String → AlertChoice
choice id action impact = record { id = id; action = action; impact = impact }

-- `_edge_alert`
unfoldable pub edge_alert : Option Detail → Result Alert
edge_alert dept = do
  let mapping = or_default dept end
  name ← name_field (get "name" mapping)
  contact ← text_field (get "practical_contact" mapping)
  note ← text_field (get "region_note" mapping)
  ok (record {
    risk_reason = "alert.subject_edge_case";
    dept = record { name = name; practical_contact = contact; region_note = note };
    options =
        choice AlertOption.a_keep_and_coreview "alert.option.keep_and_coreview"
          "alert.impact.longer_review"
        ∷ choice AlertOption.b_modify "alert.option.modify" "alert.impact.rewrite_scenes"
        ∷ choice AlertOption.c_escalate "alert.option.escalate" "alert.impact.consult_authority"
        ∷ [];
    chosen_option = none;
    chosen_at = none;
  })

abbrev pub evidence : String → String → EvidenceRef
evidence version clause_id = record {
  snapshot_version = version;
  clause_id = clause_id;
  regime = Regime.current;
}

-- an outcome with the defaults of its fields
abbrev pub proposed :
    Option Classification → Option ProjectState → List String → ClassificationOutcome
proposed classification next_state reasons = record {
  classification = classification;
  exit = none;
  next_state = next_state;
  ask_back = [];
  roadmap_preview = none;
  alert = none;
  alert_category = none;
  alert_severity = none;
  facts = [];
  reasons = reasons;
}

-- a classification with the defaults of its fields
abbrev pub base_classification :
    FormType → Tier → String → VerificationStatus → List String → Classification
base_classification form_type tier version status flags = record {
  form_type = form_type;
  tier = tier;
  tier_provisional = false;
  special_subject_hit = false;
  co_review_required = false;
  matched_rules = [];
  confidence = 0;
  policy_snapshot_version = version;
  policy_verification_status = status;
  pending_flags = flags;
  evidence_refs = [];
  dept = none;
  filing_route = none;
  decided_at = none;
}

-- the branches of `_classify`, on the pinned version and its verification status
module _ (intent : IntentProfile) (version : String) (status : VerificationStatus)
    (form : FormTypeDecision) where
  unfoldable pub asked_back : ClassificationOutcome
  asked_back = record (proposed none none form.reasons) { ask_back = form.missing }

  unfoldable pub undetermined_form : ClassificationOutcome
  undetermined_form =
      record (proposed
        (some (
          base_classification FormType.undetermined Tier.undetermined version status
            (form.pending_flags ++ "human_review" ∷ [])))
        (some ProjectState.needs_human_formtype) form.reasons) { facts = intent_facts intent }

  unfoldable pub exited : String → ExitKind → Result ClassificationOutcome
  exited clause_id kind = do
    card_key ← exit_card_key kind
    state ← exit_state kind
    ok
        (record (proposed
          (some
            (record (base_classification form.form_type Tier.undetermined version status
              form.pending_flags) { evidence_refs = evidence version clause_id ∷ [] }))
          (some state) form.reasons) {
            exit = some (record {
              kind = kind;
              obligations = "ai_labeling" ∷ "platform_rules" ∷ [];
              card_key = card_key;
            });
            facts = intent_facts intent;
          })

  abbrev pub or_tier_clause : List EvidenceRef → List EvidenceRef
  or_tier_clause [] = evidence version tier_clause_id ∷ []
  or_tier_clause (e ∷ es) = e ∷ es

  module _ (subject : SubjectDecision) where
    abbrev pub shared_flags : List String
    shared_flags = form.pending_flags ++ subject.pending_flags

    abbrev pub subject_evidence : List EvidenceRef
    subject_evidence = map (evidence version) subject.clause_refs

    unfoldable pub special_classification : Classification
    special_classification =
        record (base_classification FormType.micro_drama Tier.t1 version status (
          shared_flags
          ++ (if subject.expert_pending then "subject_match_unconfirmed" ∷ [] else []))) {
            special_subject_hit = true;
            co_review_required = true;
            matched_rules = subject.matched_rules;
            confidence = subject.confidence;
            dept = subject.dept;
            evidence_refs = or_tier_clause subject_evidence;
          }

    unfoldable pub special_subject : Result ClassificationOutcome
    special_subject = do
      template ← roadmap_template Tier.t1
      ok
          (record (proposed (some special_classification) (some ProjectState.classified)
            (form.reasons ++ "subject.special_subject_hit" ∷ [])) {
              roadmap_preview = some (record { template = template; comparison_card = none });
              facts = intent_facts intent;
            })

    unfoldable pub edge_classification : Classification
    edge_classification =
        record (base_classification FormType.micro_drama Tier.undetermined version status
          (shared_flags ++ "human_review" ∷ [])) {
            matched_rules = subject.edge_rules;
            confidence = subject.confidence;
            dept = subject.dept;
            evidence_refs = subject_evidence;
          }

    unfoldable pub edge_case : Result ClassificationOutcome
    edge_case = do
      alert ← edge_alert subject.dept
      ok
          (record (proposed (some edge_classification) (some ProjectState.needs_human_subject)
            (form.reasons ++ "subject.edge_case" ∷ [])) {
              alert = some alert;
              alert_category = some "subject_edge_case";
              alert_severity = some FindingSeverity.needs_human;
              facts = intent_facts intent;
            })

    abbrev pub clause_or_default : Option String → String
    clause_or_default none = tier_clause_id
    clause_or_default (some c) = if c == "" then tier_clause_id else c

    unfoldable pub tiered_classification : TierDecision → Classification
    tiered_classification d =
        record (base_classification FormType.micro_drama d.tier version status
          (shared_flags ++ d.pending_flags)) {
            tier_provisional = d.tier_provisional;
            confidence = if d.tier_provisional then 600_000 else 1_000_000;
            evidence_refs = evidence version (clause_or_default d.clause_ref) ∷ [];
          }

    unfoldable pub tiered : TierDecision → Result ClassificationOutcome
    tiered d = do
      template ← roadmap_template d.tier
      ok
          (record (proposed (some (tiered_classification d)) (some ProjectState.classified)
            (form.reasons ++ d.reasons)) {
              roadmap_preview =
                  some (record { template = template; comparison_card = some d.comparison_card });
              facts = intent_facts intent;
            })

    -- after the subject was judged
    unfoldable pub by_subject : TierDecision → Result ClassificationOutcome
    by_subject d =
        if subject.special_subject_hit
        then special_subject
        else if subject.edge_case_hit
        then edge_case
        else tiered d
