-- ===== src/Tests/Subjects.antt =====
-- Concrete runs of the subject judgment and of the classification chain.
use film_compliance_agent.Base.{
  ℕ, String, Bool, true, false, none, some, List, [], ◌∷◌, ◌≡◌, ◌+++◌, refl, string_eq, occurs,
}
use film_compliance_agent.Base.Dict.{lookup, insert}
use film_compliance_agent.Base.Strip.{lstrip, rstrip, strip}
use film_compliance_agent.Schemas.Enums.States.{ProjectState, FormType, Tier, Regime}
use film_compliance_agent.Schemas.Enums.Process.{VerificationStatus}
use film_compliance_agent.Schemas.Common.{number}
use film_compliance_agent.Schemas.Enums.Review.{SourceRefType}
use film_compliance_agent.Schemas.Json.{Json, Detail, end, entry, str, arr, obj, nil, cons}
use film_compliance_agent.Schemas.Policy.{TierPack, FormDefinitionPack}
use film_compliance_agent.Schemas.Project.{IntentProfile, MatchedRule, Classification}
use film_compliance_agent.Errors.{ok}
use film_compliance_agent.Classify.D1a.{EdgeModel}
use film_compliance_agent.Classify.SubjectRules.{SubjectRule, load_subject_rules}
use film_compliance_agent.Classify.D1b.Texts.{
  begins, count_chars, drop_chars, find_index, quote_around, take_chars, document, join_spaced,
}
use film_compliance_agent.Classify.D1b.{
  SubjectDecision, RawHit, answered, SubjectModel, haystacks_of, judge_by_rules, semantic_stage,
  read_reply, read_hits, semantic_hit, by_id, concluded, add_hits, highest, set_default,
  set_defaults, pattern_stage, first_hit, add_hit, source_hit,
}
use film_compliance_agent.Classify.D1b.Decisions.{IsSound, judge_by_rules-IsSound}
use film_compliance_agent.Classify.Chain.Outcomes.{
  SnapshotService, ProposedFact, ClassificationOutcome,
}
use film_compliance_agent.Classify.Chain.{classify}
use film_compliance_agent.Classify.Chain.Coherence.{classify-Coherent}
use film_compliance_agent.Classify.Chain.Proposals.{Coherent}
use film_compliance_agent.Tests.Samples.{intent}
use film_compliance_agent.Classify.D1a.{
  max_minutes, min_episodes, missing_fields, detect_edge_phrases, semantic_pass, judge_by_numbers,
  judge_by_hits, judge_form_type,
}
use film_compliance_agent.Classify.SubjectRules.{first_places, explicit_rule, explicit_rules}
use film_compliance_agent.Classify.D1b.{judge_subject}
use film_compliance_agent.Classify.Chain.{by_form, classify_on, annotate}
use film_compliance_agent.Classify.Chain.Outcomes.{in_force, roadmap_template}
use film_compliance_agent.Classify.Chain.Routes.{
  clauses_where, clauses_not_yet_in_force, set_key, sourced_route, filing_route,
}
use film_compliance_agent.Classify.Chain.Branches.{
  intent_facts, special_classification, special_subject, by_subject,
}
use film_compliance_agent.Schemas.Json.{get}
use film_compliance_agent.Schemas.Json.Access.{each}
use film_compliance_agent.Base.Sorting.{sorted_set}
use film_compliance_agent.Schemas.Enums.States.{
  ClaimedFormType-discrete, Tier-discrete, tier_value, ProductionStage-discrete,
}

abbrev police_story : IntentProfile
police_story = record intent { synopsis = some "the police of a border town" }

abbrev rule_of : String → String → Bool → SubjectRule
rule_of id word edge = record {
  rule_id = id;
  category = "public_security";
  trigger_patterns = word ∷ [];
  is_edge_case = edge;
  tier_effect = "T1_mandatory";
  dept_mapping = end;
  clause_ref = "c9";
  expert_pending = false;
}

abbrev two_rules : List SubjectRule
two_rules = rule_of "SR-001" "police" false ∷ rule_of "SR-002" "embassy" true ∷ []

abbrev raw_hit : String → String → RawHit
raw_hit id quote = record { rule_id = some id; quote = some quote; confidence = none }

-- a model that names an unknown rule, a quote that is not there, and a good hit
abbrev model : SubjectModel
model = some (λ text rules.
    answered
      (raw_hit "SR-999" "a border town"
        ∷ raw_hit "SR-002" "an embassy"
        ∷ raw_hit "SR-002" "a border town"
        ∷ [])
      [])

abbrev hit_of : String → String → ℕ → String → MatchedRule
hit_of id quote confidence stage = record {
  rule_id = id;
  quote = quote;
  confidence = confidence;
  stage = stage;
}

abbrev found : SubjectDecision
found = record {
  special_subject_hit = true;
  edge_case_hit = true;
  matched_rules = hit_of "SR-001" "the police of a border town" 1_000_000 "pattern:synopsis" ∷ [];
  edge_rules = hit_of "SR-002" "a border town" 500_000 "semantic" ∷ [];
  dept = none;
  clause_refs = "c9" ∷ [];
  pending_flags = [];
  expert_pending = false;
  confidence = 1_000_000;
}

judge_by_rules-run : judge_by_rules police_story two_rules model ≡ ok found
unfolding judge_by_rules semantic_stage read_reply read_hits semantic_hit lookup by_id insert occurs
    document join_spaced concluded add_hits highest set_default set_defaults pattern_stage first_hit
    lstrip rstrip strip begins count_chars drop_chars find_index quote_around take_chars add_hit
    source_hit
judge_by_rules-run = refl

judge_by_rules-IsSound_example : IsSound two_rules (haystacks_of police_story) found
judge_by_rules-IsSound_example =
    judge_by_rules-IsSound police_story two_rules model found judge_by_rules-run

abbrev definitions : FormDefinitionPack
definitions = record {
  episode_max_minutes_exclusive = none;
  episode_max_minutes = none;
  min_episodes = none;
  clause_ref = none;
}

abbrev tiers : TierPack
tiers = record {
  thresholds_published = some true;
  official_published = some true;
  threshold_sets = [];
  thresholds = some (record {
    t1_min_rmb = some 3_000_000;
    t2_min_rmb = some 1_000_000;
    disputed_boundaries = [];
    clause_ref = none;
    other_keys = false;
  });
}

abbrev police_rule : Json
police_rule = obj (
    entry "rule_id" (str "SR-001") (
      entry "trigger_patterns" (arr (cons (str "police") nil)) (entry "clause_ref" (str "c9") end)))

abbrev routes : Detail
routes =
    entry "filing_routes"
      (obj (entry "T1" (obj (entry "clause_refs" (arr (cons (str "c9") nil)) end)) end)) end

-- version v1, whose clause c9 takes effect at time 5
abbrev snapshots : SnapshotService
snapshots = record {
  latest_version = ok "v1";
  verification_status = λ version. ok VerificationStatus.human_verified;
  form_definition = λ version. ok definitions;
  subject_rules = λ version. ok (entry "subject_rules" (arr (cons police_rule nil)) end);
  tier_thresholds = λ version. ok tiers;
  process_templates = λ version. ok routes;
  clause = λ id version. ok (record { clause_id = id; effective_from = some 5 });
}

abbrev silent_edges : EdgeModel
silent_edges = none

abbrev show : Json → String
show (str s) = s
show _ = "value"

abbrev fact_number : String → ℕ → ProposedFact
fact_number key n = record {
  key = key;
  value = number n;
  source_ref = record {
    type = SourceRefType.user_answer;
    asset_version = none;
    locator = none;
    answer_id = some ("intent." +++ key);
    institution_id = none;
  };
}

abbrev police_tier : Classification
police_tier = record {
  form_type = FormType.micro_drama;
  tier = Tier.t1;
  tier_provisional = false;
  special_subject_hit = true;
  co_review_required = true;
  matched_rules = hit_of "SR-001" "the police of a border town" 1_000_000 "pattern:synopsis" ∷ [];
  confidence = 1_000_000;
  policy_snapshot_version = "v1";
  policy_verification_status = VerificationStatus.human_verified;
  pending_flags = "clause_not_yet_in_force" ∷ "edge_phrase_check_pending" ∷ "script_verify" ∷ [];
  evidence_refs =
      record { snapshot_version = "v1"; clause_id = "c9"; regime = Regime.current } ∷ [];
  dept = none;
  filing_route = some (entry "clause_refs" (arr (cons (str "c9") nil)) end);
  decided_at = none;
}

abbrev police_outcome : ClassificationOutcome
police_outcome = record {
  classification = some police_tier;
  exit = none;
  next_state = some ProjectState.classified;
  ask_back = [];
  roadmap_preview = some (record { template = "T1_7steps"; comparison_card = none });
  alert = none;
  alert_category = none;
  alert_severity = none;
  facts = fact_number "episode_count" 30_000_000 ∷ fact_number "episode_minutes" 3_000_000 ∷ [];
  reasons = "form_type.micro_drama" ∷ "subject.special_subject_hit" ∷ [];
}

classify-run :
    classify show snapshots silent_edges model police_story 3 none none ≡ ok police_outcome
unfolding occurs max_minutes min_episodes missing_fields detect_edge_phrases semantic_pass
    judge_by_numbers judge_by_hits judge_form_type first_places explicit_rule explicit_rules
    load_subject_rules source_hit first_hit pattern_stage by_id set_default set_defaults
    semantic_hit read_hits read_reply semantic_stage add_hit add_hits highest concluded
    judge_by_rules judge_subject begins find_index take_chars drop_chars count_chars quote_around
    by_form classify_on annotate classify in_force roadmap_template clauses_where
    clauses_not_yet_in_force set_key sourced_route filing_route intent_facts special_classification
    special_subject by_subject get each sorted_set lookup insert strip ClaimedFormType-discrete
    Tier-discrete tier_value ProductionStage-discrete
classify-run = refl

classify-Coherent_example : Coherent police_outcome
classify-Coherent_example =
    classify-Coherent show snapshots silent_edges model police_story 3 none none police_outcome
      classify-run
