-- ===== src/Tests/Samples.antt =====
-- A project with its facts, findings, cards and stores, for the concrete runs.
use film_compliance_agent.Base.{String, Bool, true, false, none, some, List, [], ◌∷◌}
use film_compliance_agent.Schemas.Enums.States.{
  ProjectState, Phase, ClaimedFormType, ProductionStage, AmountBracket, FormType, Tier,
}
use film_compliance_agent.Schemas.Enums.Review.{
  AssetKind, MaterialStatus, FactStatus, SourceRefType, FindingSeverity, FindingStatus, FieldStatus,
}
use film_compliance_agent.Schemas.Enums.Process.{
  VerificationStatus, TaskType, TaskStatus, InstitutionDecision,
}
use film_compliance_agent.Schemas.Json.{end}
use film_compliance_agent.Schemas.Common.{SourceRef, Fact, text}
use film_compliance_agent.Schemas.Project.{IntentProfile, Classification, Project}
use film_compliance_agent.Schemas.Findings.{Finding}
use film_compliance_agent.Schemas.Forms.{FormField, FormDraft}
use film_compliance_agent.Schemas.Workflow.{WorkflowTask, MockInstitution, InstitutionReview}
use film_compliance_agent.Schemas.Policy.{FormPack}
use film_compliance_agent.Schemas.Assets.{AssetVersion, MaterialCard}
use film_compliance_agent.Store.{TaskStore, Stores}
use film_compliance_agent.Effects.{Env}

abbrev pub intent : IntentProfile
intent = record {
  form_type_claimed = ClaimedFormType.micro_drama;
  genre_keywords = [];
  synopsis = some "a story";
  episode_count = some 30;
  episode_minutes = some 3_000_000;
  amount_bracket = AmountBracket.between;
  investment_amount_rmb = none;
  is_ai_generated = none;
  production_stage = ProductionStage.script_ready;
  platform_promoted = none;
  voluntary_key_declaration = none;
  source = "user";
}

abbrev pub project_at : ProjectState → Project
project_at state = record {
  project_id = "p1";
  owner_uid = "u1";
  title_working = none;
  phase = Phase.pre_shoot;
  state = state;
  intent_profile = intent;
  channel_profile = record {
    domestic_platforms = [];
    overseas = [];
    theatrical_intent = false;
    china = true;
    us = false;
  };
  classification = none;
  roadmap = none;
  registration_number = none;
  policy_stale = false;
  created_at = 1;
  updated_at = 1;
}

abbrev pub answer : SourceRef
answer = record {
  type = SourceRefType.user_answer;
  asset_version = none;
  locator = none;
  answer_id = some "a1";
  institution_id = none;
}

abbrev pub fact_of : String → String → Fact
fact_of key value = record {
  fact_id = "f1";
  key = key;
  value = some (text value);
  source_ref = answer;
  status = FactStatus.confirmed;
  conflicts_with = none;
  created_at = none;
}

abbrev pub title_pack : FormPack
title_pack = record { required_facts = "title" ∷ []; material_cards = [] }

abbrev pub block_finding : Finding
block_finding = record {
  finding_id = "x1";
  asset_version = "v1";
  locator = record { episode = none; scene = none; quote = ""; line = none; match_lines = [] };
  category = "violence";
  severity = FindingSeverity.block;
  evidence_refs = [];
  dual_regime_conflict = false;
  suggestion = none;
  alert = none;
  status = FindingStatus.«open»;
  prompt_version = none;
  snapshot_version = none;
  analysis_generation = none;
  active = true;
  created_at = none;
}

abbrev pub field_of : String → FormField
field_of value = record {
  value = some (text value);
  source_ref = some answer;
  status = FieldStatus.filled;
  confirmed_at = none;
  override_reason = none;
}

abbrev pub draft_of : List (String × FormField) → Bool → FormDraft
draft_of fields frozen = record {
  draft_id = "d1";
  form_type = "registration_publicity";
  frozen = frozen;
  fields = fields;
  conflicts = [];
  hash = some "h";
  snapshot_version = "2026.1";
  confirmed_by_user_at = none;
  parent_draft = none;
  created_at = none;
}

abbrev pub task_of : String → WorkflowTask
task_of task_id = record {
  task_id = task_id;
  project_id = "p1";
  type = TaskType.review_full;
  status = TaskStatus.queued;
  idempotency_key = "k1";
  payload = end;
  result = none;
  error = none;
  retries = 0;
  created_at = none;
  updated_at = none;
}

abbrev pub no_tasks : TaskStore
no_tasks = record { items = []; by_key = [] }

abbrev pub institution : MockInstitution
institution = record {
  institution_id = "i1";
  name = "n";
  license_no = "l";
  valid_until = "2030-01-01";
  registered_capital_rmb = 2_000_000;
  has_foreign = false;
}

abbrev pub review : InstitutionReview
review = record {
  review_id = "r1";
  institution_id = some "i1";
  agreement_draft_uri = none;
  license_check = some (record {
    institution_id = some "i1";
    valid_until = some "2030-01-01";
    capital_ok = some true;
    no_foreign_ok = some true;
    mock = true;
    reasons = [];
  });
  decision = InstitutionDecision.pending;
  return_comments = none;
  signed_agreement_uri = none;
  decided_at = none;
  created_at = none;
}

abbrev pub stores_at : ProjectState → Stores
stores_at state = record {
  projects = ("p1", project_at state) ∷ [];
  facts = λ _. fact_of "title" "T" ∷ [];
  findings = λ _. [];
  materials = λ _. [];
  assets = λ _. [];
  tasks = no_tasks;
  timeline = λ _. [];
  audit = λ _. [];
  forms = λ _. [];
  institution_reviews = λ _. review ∷ [];
  notifications = [];
  institutions = ("i1", institution) ∷ [];
  blobs = [];
  upload_tickets = [];
  readings = 0;
  drawn = 0;
}

abbrev pub env : Env
env = record {
  clock = λ n. n;
  fresh = λ kind n. kind;
  latest = some "2026.1";
  form_pack = λ _. some title_pack;
  tier_pack = λ _. none;
  process_pack = λ _. some (record { templates = [] });
  has_clause = λ _ _. false;
  verification_status = λ _. VerificationStatus.mock_verified;
  digest = λ _. "digest";
  sha256 = λ _. "sha";
}

abbrev pub classification : Classification
classification = record {
  form_type = FormType.micro_drama;
  tier = Tier.t3;
  tier_provisional = false;
  special_subject_hit = false;
  co_review_required = false;
  matched_rules = [];
  confidence = 1_000_000;
  policy_snapshot_version = "2026.1";
  policy_verification_status = VerificationStatus.mock_verified;
  pending_flags = [];
  evidence_refs = [];
  dept = none;
  filing_route = none;
  decided_at = none;
}

abbrev pub asset : AssetVersion
asset = record {
  version_id = "v1";
  kind = AssetKind.script;
  storage_uri = "uri";
  text_storage_uri = none;
  sha256 = "sha";
  parent_version = none;
  diff_summary = none;
  uploaded_by = "u1";
  created_at = 0;
}

abbrev pub card : MaterialCard
card = record {
  material_id = "m1";
  name_key = "n";
  asset_kind = AssetKind.script;
  required = true;
  why_clause = none;
  template_uri = none;
  common_rejects_key = none;
  status = MaterialStatus.uploaded;
  asset_version = some "v1";
  invalid_reasons = [];
  waive_reason = none;
}
