-- ===== src/Policy/Refresh.antt =====
-- workers/policy/refresh.py and normalize.py: a run fetches a source, compares it with what it last
-- was and opens a proposal where it differs. Fetching, the blobs, reading HTML, the digest, the lines
-- of a difference and the model that drafts are parameters.
pub mod Endings
use film_compliance_agent.Base.{
  String, Bool, true, false, not, Option, none, some, List, ◌==◌, ◌+++◌, if◌then◌else◌, string_eq,
}
use film_compliance_agent.Base.Dict.{Dict, lookup}
use film_compliance_agent.Schemas.Json.{Detail}
use film_compliance_agent.Schemas.Common.{Time}
use film_compliance_agent.Store.{Bytes}
use film_compliance_agent.Errors.{
  Error, coded, invalid_document, Result, ok, err, ◌>>=◌, ◌>>◌, require,
}
use film_compliance_agent.Policy.Documents.{
  PackName, ImpactNode, PolicyProposal, ProposalStatus, SourceState, RunStatus, policy_proposal_ok,
  deduplicate_impact,
}
use film_compliance_agent.Policy.Repository.{
  PolicyRepository, Ran, key_error, get_source_state, fail_run,
}
use film_compliance_agent.Policy.Repository.Commits.{
  commit_refresh_proposal, commit_refresh_no_change,
}

pub record PolicySource : Type 0 where
  pub source_id : String
  pub url : String
  pub content_selector : String
  pub enabled : Bool

pub record FetchedSource : Type 0 where
  pub content : Bytes
  pub source_url : String

pub record BlobRef : Type 0 where
  pub uri : String
  pub sha256 : String

pub record PolicyDiff : Type 0 where
  pub source_id : String
  pub previous_sha256 : String
  pub current_sha256 : String
  pub unified_diff : String

pub record ProposalRequest : Type 0 where
  pub source_url : String
  pub previous_sha256 : String
  pub current_sha256 : String
  pub unified_diff : String

pub record ProposalDraft : Type 0 where
  pub summary : String
  pub impact : List ImpactNode
  pub effective_from : Time
  pub draft_pack_updates : Dict PackName Detail

pub record RefreshResult : Type 0 where
  pub run_id : String
  pub status : RunStatus
  pub proposal_id : Option String
  pub previous_sha256 : Option String
  pub current_sha256 : String

-- what the refresh is given: its protocols, and the packages that `normalize.py` calls
pub record RefreshPorts : Type 0 where
  pub fetch : PolicySource → Result FetchedSource
  pub put_raw : String → Bytes → Time → Result BlobRef
  pub put_normalized : String → String → Time → Result BlobRef
  pub put_diff : String → PolicyDiff → Time → Result BlobRef
  pub read_text : String → Result String
  pub draft : ProposalRequest → Result ProposalDraft
  pub normalize_html : Bytes → String → Result String
  pub sha256_text : String → String
  pub diff_lines : String → String → String → String → String

-- `str(exc)`; an error with a code shows it before its message
abbrev pub code_of : Error → String
code_of (coded code message) = code
code_of _ = "POLICY_REFRESH_FAILED"

module _ (ports : RefreshPorts) (str_of : Error → String) where
  unfoldable pub create_policy_diff : String → String → String → PolicyDiff
  create_policy_diff source_id previous current =
      let before = ports.sha256_text previous in
      let after = ports.sha256_text current in
      record {
        source_id = source_id;
        previous_sha256 = before;
        current_sha256 = after;
        unified_diff = ports.diff_lines previous current before after;
      }

  abbrev pub state_at : Time → BlobRef → BlobRef → SourceState
  state_at now raw_ref normalized_ref = record {
    last_success_at = now;
    raw_uri = raw_ref.uri;
    normalized_uri = normalized_ref.uri;
    normalized_sha256 = normalized_ref.sha256;
  }

  -- `_complete_no_change`
  unfoldable pub complete_no_change :
      String
      → String
      → Time
      → BlobRef
      → BlobRef
      → Option String
      → PolicyRepository
      → Ran RefreshResult
  complete_no_change run_id source_id now raw_ref normalized_ref previous repo =
      let (done, repo') =
        commit_refresh_no_change run_id source_id (state_at now raw_ref normalized_ref) now previous
          normalized_ref.sha256 repo in
      (
        (done >>= λ _. ok (record {
          run_id = run_id;
          status = RunStatus.no_change;
          proposal_id = none;
          previous_sha256 = previous;
          current_sha256 = normalized_ref.sha256;
        })),
        repo',
      )

  unfoldable pub pending_proposal : Time → BlobRef → ProposalDraft → Result PolicyProposal
  pending_proposal now diff_ref draft = do
    let proposal : PolicyProposal = record {
      created_at = now;
      source_diff_uri = diff_ref.uri;
      summary = draft.summary;
      impact = deduplicate_impact draft.impact;
      effective_from = draft.effective_from;
      draft_pack_updates = draft.draft_pack_updates;
      status = ProposalStatus.pending;
      published_version = none;
    }
    require (policy_proposal_ok proposal) invalid_document
    ok proposal

  -- the proposal for a text that differs from the one before
  unfoldable pub proposal_for :
      String → Time → FetchedSource → String → SourceState → Result PolicyProposal
  proposal_for source_id now fetched normalized previous = do
    previous_text ← ports.read_text previous.normalized_uri
    let diff = create_policy_diff source_id previous_text normalized
    diff_ref ← ports.put_diff source_id diff now
    draft ← ports.draft (record {
      source_url = fetched.source_url;
      previous_sha256 = diff.previous_sha256;
      current_sha256 = diff.current_sha256;
      unified_diff = diff.unified_diff;
    })
    pending_proposal now diff_ref draft

  -- the fetched source, its raw blob, its text and the text's blob
  abbrev pub Reading : Type 0
  Reading = FetchedSource × BlobRef × String × BlobRef

  abbrev pub enabled_source : Option PolicySource → Result PolicySource
  enabled_source none = err key_error
  enabled_source (some source) = if source.enabled then ok source else err key_error

  unfoldable pub read_source : Dict String PolicySource → String → Time → Result Reading
  read_source sources source_id now = do
    source ← enabled_source (lookup source_id sources)
    fetched ← ports.fetch source
    raw_ref ← ports.put_raw source_id fetched.content now
    normalized ← ports.normalize_html fetched.content source.content_selector
    normalized_ref ← ports.put_normalized source_id normalized now
    ok (fetched, raw_ref, normalized, normalized_ref)

  -- the commit of a proposal, and the result
  unfoldable pub complete_proposal :
      String
      → String
      → Time
      → SourceState
      → SourceState
      → PolicyProposal
      → PolicyRepository
      → Ran RefreshResult
  complete_proposal run_id source_id now state previous proposal repo =
      let (done, repo') =
        commit_refresh_proposal run_id source_id proposal state now previous.normalized_sha256
          state.normalized_sha256 repo in
      (
        (done >>= λ proposal_id. ok (record {
          run_id = run_id;
          status = RunStatus.proposal_created;
          proposal_id = some proposal_id;
          previous_sha256 = some previous.normalized_sha256;
          current_sha256 = state.normalized_sha256;
        })),
        repo',
      )

  -- the comparison with what the source last was
  unfoldable pub compare :
      String → String → Time → Reading → Option SourceState → PolicyRepository → Ran RefreshResult
  compare run_id source_id now (fetched, raw_ref, normalized, normalized_ref) none repo =
      complete_no_change run_id source_id now raw_ref normalized_ref none repo
  compare run_id source_id now (fetched, raw_ref, normalized, normalized_ref) (some previous) repo =
      if previous.normalized_sha256 == normalized_ref.sha256
      then complete_no_change run_id source_id now raw_ref normalized_ref
          (some previous.normalized_sha256) repo
      else (elim (proposal_for source_id now fetched normalized previous) [
        | err e ↦ (err e, repo)
        | ok proposal ↦
            complete_proposal run_id source_id now (state_at now raw_ref normalized_ref) previous
              proposal repo
      ])

  -- the body of the `try`
  unfoldable pub attempt :
      Dict String PolicySource → String → String → Time → PolicyRepository → Ran RefreshResult
  attempt sources run_id source_id now repo = elim (read_source sources source_id now) [
    | err e ↦ (err e, repo)
    | ok reading ↦ compare run_id source_id now reading (get_source_state source_id repo) repo
  ]

  -- the `except`: the run fails, and the error is raised with its code
  unfoldable pub failed : String → Time → Error → PolicyRepository → Ran RefreshResult
  failed run_id now e repo =
      let (done, repo') = fail_run run_id (code_of e +++ (": " +++ str_of e)) now repo in
      ((done >>= λ _. err (coded (code_of e) (str_of e))), repo')

  abbrev pub or_failed : String → Time → Ran RefreshResult → Ran RefreshResult
  or_failed run_id now (ok r, repo) = (ok r, repo)
  or_failed run_id now (err e, repo) = failed run_id now e repo

  -- `PolicyRefreshModule.run`
  unfoldable pub run :
      Dict String PolicySource → String → String → Time → PolicyRepository → Ran RefreshResult
  run sources run_id source_id now repo =
      or_failed run_id now (attempt sources run_id source_id now repo)
