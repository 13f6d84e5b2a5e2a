-- ===== src/Policy/Documents.antt =====
-- schemas/policy_snapshot.py: snapshots, proposals, events and outbox rows, with their validators.
-- workers/policy/models.py: the workers' own records.
use Prim.Native.String.{count}
use film_compliance_agent.Base.{
  ℕ, String, Bool, true, false, not, ◌&&◌, Option, none, some, List, [], ◌∷◌, ◌==◌, ◌+++◌, leb,
  is_none, is_empty, all, contains, if◌then◌else◌, string_eq, beq_of, beq_of_iff, Comparable,
  is_blank,
}
use film_compliance_agent.Base.Dict.{Dict}
use film_compliance_agent.Base.Decimal.{print_nat, parse_nat}
use film_compliance_agent.Schemas.Enums.Process.{VerificationStatus}
use film_compliance_agent.Schemas.Json.{Json, Detail, end, entry, null, bool, num, str, arr, obj}
use film_compliance_agent.Schemas.Json
use film_compliance_agent.Schemas.Common.{Time}

pub data PackName : Type 0 where
  p1_form_definition p2_subject_rules p3_tier_thresholds p4_process_templates : PackName
  p5_form_templates p6_legal_clauses : PackName

pub data ImpactNode : Type 0 where
  d1b d1c c1a : ImpactNode

unfoldable pub ImpactNode-discrete : Discrete ImpactNode
ImpactNode-discrete = hlevel

instance abbrev pub impact_node_eq : Comparable ImpactNode
impact_node_eq = record {
  same_as = beq_of ImpactNode-discrete;
  same_iff = beq_of_iff ImpactNode-discrete;
}

pub data ProposalStatus : Type 0 where
  pending published discarded : ProposalStatus

unfoldable pub ProposalStatus-discrete : Discrete ProposalStatus
ProposalStatus-discrete = hlevel

instance abbrev pub proposal_status_eq : Comparable ProposalStatus
proposal_status_eq = record {
  same_as = beq_of ProposalStatus-discrete;
  same_iff = beq_of_iff ProposalStatus-discrete;
}

pub data OutboxStatus : Type 0 where
  pending sent : OutboxStatus

unfoldable pub OutboxStatus-discrete : Discrete OutboxStatus
OutboxStatus-discrete = hlevel

instance abbrev pub outbox_status_eq : Comparable OutboxStatus
outbox_status_eq = record {
  same_as = beq_of OutboxStatus-discrete;
  same_iff = beq_of_iff OutboxStatus-discrete;
}

-- `version[1:]`
abbrev pub tail_of : String → String
tail_of String.[] = ""
tail_of (String.◌∷◌ _ s) = s

-- `int(version[1:])`; `none` is a `ValueError`
unfoldable pub version_number : String → Option ℕ
version_number version = parse_nat (tail_of version)

-- `f"v{n}"`
unfoldable pub version_of : ℕ → String
version_of n = String.◌∷◌ "v" (print_nat n)

-- `text.startswith(prefix)`
unfoldable pub starts_with : String → String → Bool
starts_with String.[] text = true
starts_with (String.◌∷◌ p prefix) String.[] = false
starts_with (String.◌∷◌ p prefix) (String.◌∷◌ c text) =
    String.◌∷◌ p "" == String.◌∷◌ c "" && starts_with prefix text

-- `_validate_pack`: a pack is inline data or one blob's address
unfoldable pub validate_pack : Detail → Bool
validate_pack value = elim (Json.get "blob_uri" value) [
  | none ↦ true
  | some uri ↦
      all (λ k. k == "blob_uri") (Json.keys_of value)
      && (elim uri [ str s ↦ starts_with "gs://" s | _ ↦ false ])
]

pub record PolicyPacks : Type 0 where
  pub p1_form_definition : Detail
  pub p2_subject_rules : Detail
  pub p3_tier_thresholds : Detail
  pub p4_process_templates : Detail
  pub p5_form_templates : Detail
  pub p6_legal_clauses : Detail

-- `validate_inline_or_blob`
unfoldable pub policy_packs_ok : PolicyPacks → Bool
policy_packs_ok p =
    validate_pack p.p1_form_definition
    && validate_pack p.p2_subject_rules
    && validate_pack p.p3_tier_thresholds
    && validate_pack p.p4_process_templates
    && validate_pack p.p5_form_templates
    && validate_pack p.p6_legal_clauses

-- `list(dict.fromkeys(value))`: each node at its first place
unfoldable pub deduplicate_impact : List ImpactNode → List ImpactNode
deduplicate_impact nodes = go [] nodes
  where
    go : List ImpactNode → List ImpactNode → List ImpactNode
    go seen [] = []
    go seen (x ∷ xs) =
        let rest = go (x ∷ seen) xs in
        let same = go seen xs in if contains seen x then same else x ∷ rest

pub record SnapshotDiff : Type 0 where
  pub summary : String
  pub impact : List ImpactNode

abbrev pub summary_ok : String → Bool
summary_ok summary = leb 1 (count summary) && leb (count summary) 1000

pub record PolicySnapshot : Type 0 where
  pub version : String
  pub published_at : Time
  pub effective_from : Time
  pub published_by : String
  pub packs : PolicyPacks
  pub diff_from_prev : SnapshotDiff
  pub thresholds_published : Bool
  pub verification_status : VerificationStatus

pub record PolicyProposal : Type 0 where
  pub created_at : Time
  pub source_diff_uri : String
  pub summary : String
  pub impact : List ImpactNode
  pub effective_from : Time
  pub draft_pack_updates : Dict PackName Detail
  pub status : ProposalStatus
  pub published_version : Option String

-- `validate_publication_state`
unfoldable pub publication_state_ok : PolicyProposal → Bool
publication_state_ok p =
    if p.status == ProposalStatus.published
    then not (is_none p.published_version)
    else is_none p.published_version

-- the proposal's document model
unfoldable pub policy_proposal_ok : PolicyProposal → Bool
policy_proposal_ok p =
    not (is_blank (some p.source_diff_uri))
    && summary_ok p.summary
    && not (is_empty p.impact)
    && not (is_empty p.draft_pack_updates)
    && all (λ e. validate_pack e.1) p.draft_pack_updates
    && publication_state_ok p

pub record PolicyUpdatedEvent : Type 0 where
  pub snapshot_version : String
  pub impact : List ImpactNode
  pub thresholds_published : Bool
  pub effective_from : Time
  pub published_at : Time
  pub idempotency_key : String

-- `validate_idempotency_key`, with the length of the impact
unfoldable pub policy_updated_event_ok : PolicyUpdatedEvent → Bool
policy_updated_event_ok e =
    not (is_empty e.impact) && e.idempotency_key == ("policy.updated:" +++ e.snapshot_version)

pub record PolicyOutbox : Type 0 where
  pub topic : String
  pub payload : PolicyUpdatedEvent
  pub status : OutboxStatus
  pub created_at : Time
  pub sent_at : Option Time
  pub pubsub_message_id : Option String

-- `validate_delivery_state`
unfoldable pub policy_outbox_ok : PolicyOutbox → Bool
policy_outbox_ok r =
    if r.status == OutboxStatus.pending
    then is_none r.sent_at && is_none r.pubsub_message_id
    else not (is_none r.sent_at) && not (is_blank r.pubsub_message_id)

pub data RunStatus : Type 0 where
  running no_change proposal_created failed : RunStatus

unfoldable pub RunStatus-discrete : Discrete RunStatus
RunStatus-discrete = hlevel

instance abbrev pub run_status_eq : Comparable RunStatus
run_status_eq = record {
  same_as = beq_of RunStatus-discrete;
  same_iff = beq_of_iff RunStatus-discrete;
}

pub record SourceState : Type 0 where
  pub last_success_at : Time
  pub raw_uri : String
  pub normalized_uri : String
  pub normalized_sha256 : String

pub record PolicyRun : Type 0 where
  pub run_id : String
  pub source_id : String
  pub status : RunStatus
  pub started_at : Time
  pub finished_at : Option Time
  pub previous_sha256 : Option String
  pub current_sha256 : Option String
  pub proposal_id : Option String
  pub error : Option String
