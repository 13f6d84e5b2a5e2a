-- ===== src/Policy/Publish.antt =====
-- workers/policy/publish.py: a pending proposal becomes the next snapshot, with its event to send.
pub mod Packs
pub mod Versions
pub mod Stages
pub mod Atomic
use film_compliance_agent.Base.{
  ℕ, suc, String, Bool, true, false, not, ◌&&◌, Option, none, some, List, [], ◌∷◌, ◌==◌, ◌+++◌, ltb,
  if◌then◌else◌, string_eq,
}
use film_compliance_agent.Base.Dict.{Dict}
use film_compliance_agent.Schemas.Enums.Process.{VerificationStatus}
use film_compliance_agent.Schemas.Common.{Time}
use film_compliance_agent.Schemas.Json.{Json, Detail, bool, get}
use film_compliance_agent.Errors.{
  Error, raised, coded, invalid_document, Result, ok, err, ◌>>=◌, ◌>>◌, require, refuse,
}
use film_compliance_agent.Policy.Documents.{
  PackName, PolicyPacks, PolicySnapshot, PolicyProposal, PolicyUpdatedEvent, PolicyOutbox,
  SnapshotDiff, ProposalStatus, OutboxStatus, proposal_status_eq, policy_packs_ok, summary_ok,
  policy_updated_event_ok, deduplicate_impact, version_of, version_number,
}
use film_compliance_agent.Policy.Documents.PackName.{
  p1_form_definition, p2_subject_rules, p3_tier_thresholds, p4_process_templates, p5_form_templates,
  p6_legal_clauses,
}
use film_compliance_agent.Policy.Repository.{PolicyRepository, Ran, get_proposal, latest_snapshot}
use film_compliance_agent.Policy.Repository.Commits.{commit_publication, discard_proposal}
use film_compliance_agent.Policy.Validation.{validate_snapshot}

abbrev pub conflict_error : String → Error
conflict_error = coded "POLICY_PROPOSAL_CONFLICT"

abbrev pub invalid_error : String → Error
invalid_error = coded "POLICY_PROPOSAL_INVALID"

pub record PublishResult : Type 0 where
  pub snapshot_version : String
  pub outbox_id : String

-- `packs_data[name.value] = update`
unfoldable pub set_pack : PackName → Detail → PolicyPacks → PolicyPacks
set_pack p1_form_definition update p = record p { p1_form_definition = update }
set_pack p2_subject_rules update p = record p { p2_subject_rules = update }
set_pack p3_tier_thresholds update p = record p { p3_tier_thresholds = update }
set_pack p4_process_templates update p = record p { p4_process_templates = update }
set_pack p5_form_templates update p = record p { p5_form_templates = update }
set_pack p6_legal_clauses update p = record p { p6_legal_clauses = update }

unfoldable pub apply_updates : Dict PackName Detail → PolicyPacks → PolicyPacks
apply_updates [] p = p
apply_updates ((name, update) ∷ updates) p = apply_updates updates (set_pack name update p)

-- `packs.p3_tier_thresholds.get("thresholds_published")`, which must be a Boolean
abbrev pub thresholds_value : PolicyPacks → Result Bool
thresholds_value p = elim (get "thresholds_published" p.p3_tier_thresholds) [
  | some (bool b) ↦ ok b
  | _ ↦ err (invalid_error "p3_tier_thresholds.thresholds_published must be boolean")
]

-- the proposal that can be published now
unfoldable pub publishable : String → Time → PolicyRepository → Result PolicyProposal
publishable proposal_id now repo = do
  proposal ← elim (get_proposal proposal_id repo) [
    | err _ ↦ err (conflict_error "proposal not found")
    | ok p ↦ ok p
  ]
  require (proposal.status == ProposalStatus.pending) (conflict_error "proposal is not pending")
  refuse (ltb now proposal.effective_from)
      (coded "POLICY_NOT_EFFECTIVE" "proposal is not effective yet")
  ok proposal

-- the seed or the last publication
unfoldable pub previous_snapshot : PolicyRepository → Result PolicySnapshot
previous_snapshot repo = do
  latest ← latest_snapshot repo
  elim latest [ none ↦ err (coded "SNAPSHOT_NOT_FOUND" "seed snapshot is missing") | some s ↦ ok s ]

abbrev pub snapshot_of :
    PolicyProposal → PolicyPacks → Bool → String → String → Time → PolicySnapshot
snapshot_of proposal packs thresholds version actor_uid now = record {
  version = version;
  published_at = now;
  effective_from = proposal.effective_from;
  published_by = actor_uid;
  packs = packs;
  diff_from_prev = record {
    summary = proposal.summary;
    impact = deduplicate_impact proposal.impact;
  };
  thresholds_published = thresholds;
  verification_status = VerificationStatus.mock_verified;
}

abbrev pub event_of : PolicyProposal → Bool → String → Time → PolicyUpdatedEvent
event_of proposal thresholds version now = record {
  snapshot_version = version;
  impact = deduplicate_impact proposal.impact;
  thresholds_published = thresholds;
  effective_from = proposal.effective_from;
  published_at = now;
  idempotency_key = "policy.updated:" +++ version;
}

abbrev pub row_of : PolicyUpdatedEvent → Time → PolicyOutbox
row_of event now = record {
  topic = "policy.updated";
  payload = event;
  status = OutboxStatus.pending;
  created_at = now;
  sent_at = none;
  pubsub_message_id = none;
}

-- `PolicySnapshot(...)`: its author and its difference from the one before
abbrev pub checked_snapshot : PolicySnapshot → Result PolicySnapshot
checked_snapshot s =
    if not (s.published_by == "") && summary_ok s.diff_from_prev.summary
    then ok s
    else err invalid_document

-- `except SnapshotSemanticError`
abbrev pub reported : Error → Error
reported (raised name) = if name == "SnapshotSemanticError" then invalid_error name else raised name
reported e = e

pub record Publication : Type 0 where
  pub snapshot : PolicySnapshot
  pub outbox_id : String
  pub row : PolicyOutbox

-- what is to be committed
unfoldable pub publication :
    PolicyProposal → Bool → String → Time → PolicySnapshot → Result Publication
publication proposal thresholds version now snapshot = do
  let event = event_of proposal thresholds version now
  require (policy_updated_event_ok event) invalid_document
  ok (record { snapshot = snapshot; outbox_id = event.idempotency_key; row = row_of event now })

-- `int(previous.version[1:])`
abbrev pub numbered_version : PolicySnapshot → Result ℕ
numbered_version previous = elim (version_number previous.version) [
  | none ↦ err (raised "ValueError")
  | some n ↦ ok n
]

module _ (show : Json → String) where
  abbrev pub validated : PolicySnapshot → Result PolicySnapshot
  validated s = elim (validate_snapshot show s) [ err e ↦ err (reported e) | ok t ↦ ok t ]

  -- the snapshot of a number, and its event
  unfoldable pub issue :
      PolicyProposal → PolicyPacks → Bool → String → Time → ℕ → Result Publication
  issue proposal packs thresholds actor_uid now number = do
    let version = version_of (suc number)
    snapshot ← checked_snapshot (snapshot_of proposal packs thresholds version actor_uid now)
    valid ← validated snapshot
    publication proposal thresholds version now snapshot

  -- the next snapshot and its event, for a proposal and the snapshot before
  unfoldable pub publication_of :
      PolicyProposal → PolicySnapshot → String → Time → Result Publication
  publication_of proposal previous actor_uid now = do
    let packs = apply_updates proposal.draft_pack_updates previous.packs
    require (policy_packs_ok packs) invalid_document
    thresholds ← thresholds_value packs
    number ← numbered_version previous
    issue proposal packs thresholds actor_uid now number

  unfoldable pub prepare : String → String → Time → PolicyRepository → Result Publication
  prepare proposal_id actor_uid now repo = do
    proposal ← publishable proposal_id now repo
    previous ← previous_snapshot repo
    publication_of proposal previous actor_uid now

  -- `except (KeyError, ValueError)`: all that the commit raises
  abbrev pub commit_result : Publication → Ran (Unit {0}) → Ran PublishResult
  commit_result p (err _, repo) = (err (conflict_error "publication conflict"), repo)
  commit_result p (ok _, repo) =
      (ok (record { snapshot_version = p.snapshot.version; outbox_id = p.outbox_id }), repo)

  -- `PolicyPublisher.publish`
  unfoldable pub publish : String → String → Time → PolicyRepository → Ran PublishResult
  publish proposal_id actor_uid now repo = elim (prepare proposal_id actor_uid now repo) [
    | err e ↦ (err e, repo)
    | ok p ↦ commit_result p (commit_publication proposal_id p.snapshot p.outbox_id p.row repo)
  ]

-- `PolicyPublisher.discard`
abbrev pub discarded : Ran (Unit {0}) → Ran (Unit {0})
discarded (err _, repo) = (err (conflict_error "proposal is not pending"), repo)
discarded (ok _, repo) = (ok tt, repo)

unfoldable pub discard : String → PolicyRepository → Ran (Unit {0})
discard proposal_id repo = discarded (discard_proposal proposal_id repo)
