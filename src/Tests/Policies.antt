-- ===== src/Tests/Policies.antt =====
-- Concrete runs of the policy workers.
use mathlib.Core.List.{Memᴰ}
use film_compliance_agent.Base.{
  ℕ, suc, ◌+◌, ◌≤◌, String, Bool, true, false, Option, none, some, List, [], ◌∷◌, ◌≡◌, refl, All,
  arith, string_eq, string_iff, ap, sym, ◌∙◌,
}
use film_compliance_agent.Base.Dict.{lookup}
use film_compliance_agent.Schemas.Enums.States.{Tier}
use film_compliance_agent.Schemas.Enums.Process.{VerificationStatus}
use film_compliance_agent.Schemas.Common.{Time}
use film_compliance_agent.Schemas.Json.{Json, Detail, end, entry, bool, str, arr, obj, nil, cons}
use film_compliance_agent.Errors.{Error, Result, ok, err}
use film_compliance_agent.Policy.Documents.{
  PackName, ImpactNode, PolicyPacks, PolicySnapshot, PolicyProposal, ProposalStatus,
  PolicyUpdatedEvent, PolicyOutbox, OutboxStatus, PolicyRun, RunStatus, version_of, version_number,
}
use film_compliance_agent.Policy.Repository.{PolicyRepository, latest_snapshot}
use film_compliance_agent.Policy.Publish.{PublishResult, publish}
use film_compliance_agent.Policy.Publish.Versions.{version_number-version_of}
use film_compliance_agent.Policy.Publish.Atomic.{
  IsPublished, publish-ok, publish-err, publish-latest,
}
use film_compliance_agent.Policy.Consumer.{
  WorkflowStatus, ProjectPolicyState, ProjectRepository, ConsumeResult, Act, pure, handle,
}
use film_compliance_agent.Policy.Consumer.Records.{
  is_stale, IsKept, IsConfined, IsUntouched, handle-KeepsProjects,
}
use film_compliance_agent.Policy.Consumer.Client.{fake_recalc_tier, fake_recalc_tier-IsConfined}
use film_compliance_agent.Policy.Consumer.Receipts.{IsBehind, handle-marks}
use film_compliance_agent.Policy.Dispatch.{dispatch}
use film_compliance_agent.Policy.Dispatch.Deliveries.{Forwards, dispatch-bounds}
use film_compliance_agent.Policy.Refresh.{PolicySource, RefreshPorts, run}
use film_compliance_agent.Policy.Refresh.Endings.{IsEnded, run-ends}

version_number-version_of_example : version_number (version_of 12) ≡ some 12
version_number-version_of_example = version_number-version_of 12

abbrev show : Json → String
show j = "value"

abbrev steps : Json
steps = obj (entry "steps" (arr (cons (obj end) nil)) end)

abbrev packs : PolicyPacks
packs = record {
  p1_form_definition = end;
  p2_subject_rules = end;
  p3_tier_thresholds = entry "thresholds_published" (bool false) end;
  p4_process_templates =
      entry "templates"
        (obj (entry "T1_7steps" steps (entry "T2_5steps" steps (entry "T3_4steps" steps end)))) end;
  p5_form_templates = entry "required_facts" (arr (cons (str "title") nil)) (
      entry "material_cards"
        (arr (
          cons
            (obj (
              entry "material_id" (str "m1")
                (entry "asset_kind" (str "script") (entry "required" (bool true) end))))
            nil))
        end);
  p6_legal_clauses = end;
}

abbrev snapshot : PolicySnapshot
snapshot = record {
  version = "v1";
  published_at = 0;
  effective_from = 0;
  published_by = "seed";
  packs = packs;
  diff_from_prev = record { summary = "seed"; impact = [] };
  thresholds_published = false;
  verification_status = VerificationStatus.mock_verified;
}

abbrev proposal : PolicyProposal
proposal = record {
  created_at = 0;
  source_diff_uri = "gs://diff";
  summary = "new rules";
  impact = ImpactNode.d1b ∷ [];
  effective_from = 3;
  draft_pack_updates = (PackName.p2_subject_rules, end) ∷ [];
  status = ProposalStatus.pending;
  published_version = none;
}

abbrev repository : PolicyRepository
repository = record {
  runs = [];
  source_states = [];
  proposals = ("proposal_001", proposal) ∷ [];
  snapshots = ("v1", snapshot) ∷ [];
  outbox = [];
  proposal_counter = 1;
}

abbrev result : PublishResult
result = record { snapshot_version = "v2"; outbox_id = "policy.updated:v2" }

abbrev republished : PolicyRepository
republished = (publish show "proposal_001" "admin" 5 repository).1

published_once : publish show "proposal_001" "admin" 5 repository ≡ (ok result, republished)
unfolding film_compliance_agent.Policy.Publish.prepare
    film_compliance_agent.Policy.Publish.publishable
    film_compliance_agent.Policy.Publish.previous_snapshot
    film_compliance_agent.Policy.Publish.publication_of
    film_compliance_agent.Policy.Publish.apply_updates film_compliance_agent.Policy.Publish.set_pack
    film_compliance_agent.Policy.Publish.issue film_compliance_agent.Policy.Publish.publication
    publish lookup film_compliance_agent.Base.Dict.insert latest_snapshot version_number version_of
    film_compliance_agent.Policy.Repository.get_proposal
    film_compliance_agent.Policy.Repository.newest
    film_compliance_agent.Policy.Repository.Commits.commit_publication
    film_compliance_agent.Policy.Repository.open_proposal
    film_compliance_agent.Policy.Documents.ProposalStatus-discrete
    film_compliance_agent.Policy.Documents.ImpactNode-discrete
    film_compliance_agent.Policy.Documents.policy_packs_ok
    film_compliance_agent.Policy.Documents.validate_pack
    film_compliance_agent.Policy.Documents.deduplicate_impact
    film_compliance_agent.Policy.Documents.policy_proposal_ok
    film_compliance_agent.Policy.Documents.policy_updated_event_ok
    film_compliance_agent.Policy.Documents.publication_state_ok
    film_compliance_agent.Policy.Documents.starts_with film_compliance_agent.Base.Decimal.parse_nat
    film_compliance_agent.Base.Decimal.print_nat film_compliance_agent.Schemas.Json.get
    film_compliance_agent.Policy.Validation.check_cards
    film_compliance_agent.Policy.Validation.check_complete
    film_compliance_agent.Policy.Validation.check_packs
    film_compliance_agent.Policy.Validation.check_step
    film_compliance_agent.Policy.Validation.check_template
    film_compliance_agent.Policy.Validation.check_threshold_set
    film_compliance_agent.Policy.Validation.clause_ids
    film_compliance_agent.Schemas.Json.Access.each
    film_compliance_agent.Policy.Validation.has_duplicate
    film_compliance_agent.Policy.Validation.int_at film_compliance_agent.Policy.Validation.texts_at
    film_compliance_agent.Policy.Validation.validate_snapshot
published_once = refl

publish-ok_example : IsPublished show "proposal_001" "admin" 5 repository republished result
publish-ok_example =
    publish-ok show "proposal_001" "admin" 5 repository republished result published_once

publish-err_example : repository ≡ repository
unfolding publish film_compliance_agent.Policy.Publish.prepare
    film_compliance_agent.Policy.Publish.publishable
    film_compliance_agent.Policy.Repository.get_proposal lookup
    film_compliance_agent.Policy.Documents.ProposalStatus-discrete
publish-err_example =
    publish-err show "proposal_001" "admin" 1 repository repository
      (film_compliance_agent.Errors.coded "POLICY_NOT_EFFECTIVE" "proposal is not effective yet")
      refl

publish-latest_example :
    (s : PolicySnapshot) × (latest_snapshot republished ≡ ok (some s)) × (s.version ≡ "v2")
publish-latest_example =
    publish-latest show "proposal_001" "admin" 5 repository republished result (refl, tt)
      published_once

abbrev event : PolicyUpdatedEvent
event = record {
  snapshot_version = "v2";
  impact = ImpactNode.d1c ∷ [];
  thresholds_published = true;
  effective_from = 3;
  published_at = 5;
  idempotency_key = "policy.updated:v2";
}

abbrev project : ProjectPolicyState
project = record {
  project_id = "p1";
  policy_snapshot_version = "v1";
  impact_nodes = ImpactNode.d1c ∷ [];
  has_classification = true;
  has_review = false;
  tier = Tier.t3;
  tier_provisional = false;
  workflow_status = WorkflowStatus.draft;
  policy_stale = false;
  frozen_form_hash = none;
  submitted_materials = "m1" ∷ [];
  registration_number = none;
}

abbrev provisional_project : ProjectPolicyState
provisional_project = record project { project_id = "p2"; tier_provisional = true }

abbrev projects : ProjectRepository
projects = record {
  projects = ("p1", project) ∷ ("p2", provisional_project) ∷ [];
  notifications = [];
  timeline = [];
  receipts = [];
  recalc_operations = [];
}

abbrev recalc : String → String → Act Bool
recalc = fake_recalc_tier Tier.t1 []

recalc-IsConfined : IsConfined recalc
recalc-IsConfined = fake_recalc_tier-IsConfined Tier.t1 []

handle-KeepsProjects_example :
    IsKept (IsUntouched event projects) projects (handle recalc event projects).1
handle-KeepsProjects_example = handle-KeepsProjects recalc recalc-IsConfined event projects

untouched : IsUntouched event projects "p1"
unfolding film_compliance_agent.Policy.Consumer.list_projects
    film_compliance_agent.Base.Sorting.sorted lookup
    film_compliance_agent.Policy.Consumer.wants_recalc
    film_compliance_agent.Policy.Documents.ImpactNode-discrete
untouched q (Memᴰ.head same) wants named = absurd (let k = rw same at wants in cc)
untouched q (Memᴰ.tail (Memᴰ.head same)) wants named =
    let other : ◌≡◌ {A = String} "p2" "p1" = ap (λ x. x.project_id) (sym same) ∙ named in
    let clash : false ≡ true = (string_iff "p2" "p1").1 other in cc
untouched q (Memᴰ.tail (Memᴰ.tail m)) wants named = elim m [ ]

behind : IsBehind recalc recalc-IsConfined event 2 project
unfolding version_number film_compliance_agent.Base.Decimal.parse_nat
    film_compliance_agent.Policy.Consumer.is_affected
    film_compliance_agent.Policy.Documents.ImpactNode-discrete
behind = record { number = 1; numbered = refl; less = omega arith; told = refl; affected = refl }

handle-marks_example : is_stale (lookup "p1" (handle recalc event projects).1.projects) ≡ true
unfolding film_compliance_agent.Policy.Consumer.has_receipt
    film_compliance_agent.Policy.Consumer.list_projects
    film_compliance_agent.Policy.Consumer.consume
    film_compliance_agent.Policy.Consumer.consume_listed
    film_compliance_agent.Policy.Consumer.consume_each
    film_compliance_agent.Policy.Consumer.consume_one
    film_compliance_agent.Policy.Consumer.left_open
    film_compliance_agent.Policy.Consumer.recalc_status
    film_compliance_agent.Policy.Consumer.unless_ahead
    film_compliance_agent.Policy.Consumer.is_affected film_compliance_agent.Policy.Consumer.mark
    film_compliance_agent.Policy.Consumer.RecalcStatus-discrete
    film_compliance_agent.Policy.Consumer.asked
    film_compliance_agent.Policy.Consumer.complete_recalc
    film_compliance_agent.Policy.Consumer.effect_kind_value
    film_compliance_agent.Policy.Consumer.finish
    film_compliance_agent.Policy.Consumer.mark_policy_stale
    film_compliance_agent.Policy.Consumer.put_receipt
    film_compliance_agent.Policy.Consumer.recalc_key
    film_compliance_agent.Policy.Consumer.recalculate
    film_compliance_agent.Policy.Consumer.recalculated
    film_compliance_agent.Policy.Consumer.receipted
    film_compliance_agent.Policy.Consumer.record_effect
    film_compliance_agent.Policy.Consumer.start_recalc
    film_compliance_agent.Policy.Consumer.upsert_effect
    film_compliance_agent.Policy.Consumer.wants_recalc film_compliance_agent.Base.Sorting.sorted
    film_compliance_agent.Base.Dict.insert lookup handle fake_recalc_tier version_number
    film_compliance_agent.Base.Decimal.parse_nat
    film_compliance_agent.Policy.Documents.ImpactNode-discrete
handle-marks_example =
    handle-marks recalc recalc-IsConfined event 2 project projects (handle recalc event projects).1
      (record { stale_marked = 2; recalculated = 1; already_processed = false }) refl
      (Memᴰ.head refl) behind untouched refl

abbrev row : PolicyOutbox
row = record {
  topic = "policy.updated";
  payload = event;
  status = OutboxStatus.pending;
  created_at = 5;
  sent_at = none;
  pubsub_message_id = none;
}

abbrev with_row : PolicyRepository
with_row = record repository { outbox = ("policy.updated:v2", row) ∷ [] }

abbrev send : ℕ → PolicyUpdatedEvent → Result String
send n e = ok "message"

abbrev times : ℕ → Time
times n = n

dispatch-bounds_example :
    let (summary, after) = dispatch send times 5 with_row in
    (summary.selected ≤ 20)
    × (summary.selected ≤ 5)
    × (summary.sent + summary.failed ≡ summary.selected)
    × Forwards with_row after
dispatch-bounds_example = dispatch-bounds send times 5 with_row

abbrev ports : RefreshPorts
ports = record {
  fetch = λ source. ok (record { content = []; source_url = "https://rules" });
  put_raw = λ id content at. ok (record { uri = "raw"; sha256 = "raw" });
  put_normalized = λ id text at. ok (record { uri = "text"; sha256 = text });
  put_diff = λ id diff at. ok (record { uri = "gs://diff"; sha256 = "diff" });
  read_text = λ uri. ok "before";
  draft = λ request. ok (record {
    summary = "new rules";
    impact = ImpactNode.d1b ∷ [];
    effective_from = 3;
    draft_pack_updates = (PackName.p2_subject_rules, end) ∷ [];
  });
  normalize_html = λ content selector. ok "now";
  sha256_text = λ text. text;
  diff_lines = λ before after from to. "lines";
}

abbrev text_of : Error → String
text_of e = "error"

abbrev source : PolicySource
source = record {
  source_id = "rules";
  url = "https://rules";
  content_selector = "main";
  enabled = true;
}

abbrev created : PolicyRun
created = record {
  run_id = "run";
  source_id = "rules";
  status = RunStatus.running;
  started_at = 4;
  finished_at = none;
  previous_sha256 = none;
  current_sha256 = none;
  proposal_id = none;
  error = none;
}

abbrev started : PolicyRepository
started = record repository {
  runs = ("run", created) ∷ [];
  source_states =
      (
        "rules",
        record {
          last_success_at = 1;
          raw_uri = "raw";
          normalized_uri = "text";
          normalized_sha256 = "before";
        },
      )
      ∷ [];
}

run-ends_example :
    IsEnded "run" "rules" 4 started
      (run ports text_of (("rules", source) ∷ []) "run" "rules" 4 started)
unfolding lookup
run-ends_example =
    run-ends ports text_of "run" "rules" 4 (("rules", source) ∷ []) started created refl
