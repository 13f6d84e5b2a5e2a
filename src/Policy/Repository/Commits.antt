-- ===== src/Policy/Repository/Commits.antt =====
-- workers/policy/repository.py: the methods of `InMemoryPolicyRepository` that check and then write in
-- several steps. A step is done or raises, and what was written before a raise stays written.
use film_compliance_agent.Base.{◌+◌, String, Option, none, some, ◌==◌, if◌then◌else◌, string_eq}
use film_compliance_agent.Base.Dict.{lookup, insert}
use film_compliance_agent.Schemas.Common.{Time}
use film_compliance_agent.Errors.{invalid_document, Result, ok, err}
use film_compliance_agent.Policy.Documents.{
  PolicyRun, SourceState, PolicyProposal, PolicySnapshot, PolicyOutbox, RunStatus, ProposalStatus,
  OutboxStatus, outbox_status_eq, policy_outbox_ok,
}
use film_compliance_agent.Policy.Repository.{
  PolicyRepository, Ran, value_error, get_item, completed, running, proposal_name, sent_row,
  open_proposal, unless_stored, checked_proposal,
}

-- a run on the repository
abbrev pub Act {ℓ} : Type ℓ → Type ℓ
Act A = PolicyRepository → Ran A

module _ {ℓ κ} {A : Type ℓ} {B : Type κ} where
  abbrev pub carry_on : Result A → PolicyRepository → (A → Act B) → Ran B
  carry_on (ok a) repo f = f a repo
  carry_on (err e) repo f = (err e, repo)

  infixl 5 ◌>>=◌
  abbrev pub ◌>>=◌ : Act A → (A → Act B) → Act B
  ◌>>=◌ m f repo = let (r, repo') = m repo in carry_on r repo' f

infixl 5 ◌>>◌
abbrev pub ◌>>◌ {κ} : {Y : Type κ} → Act (Unit {0}) → Act Y → Act Y
first >> next = first >>= λ done. next

module _ {ℓ} {A : Type ℓ} where
  abbrev pub pure : A → Act A
  pure a repo = (ok a, repo)

  -- a read, or a check, that may raise
  abbrev pub reads : (PolicyRepository → Result A) → Act A
  reads f repo = (f repo, repo)

  abbrev pub gets : (PolicyRepository → A) → Act A
  gets f repo = (ok (f repo), repo)

abbrev pub modify : (PolicyRepository → PolicyRepository) → Act (Unit {0})
modify f repo = (ok tt, f repo)

-- the single assignments
abbrev pub put_run : String → PolicyRun → Act (Unit {0})
put_run run_id run = modify (λ repo. record repo { runs = insert run_id run repo.runs })

abbrev pub put_source_state : String → SourceState → Act (Unit {0})
put_source_state source_id state =
    modify (λ repo. record repo { source_states = insert source_id state repo.source_states })

abbrev pub store_proposal : String → PolicyProposal → Act (Unit {0})
store_proposal proposal_id proposal =
    modify (λ repo. record repo { proposals = insert proposal_id proposal repo.proposals })

abbrev pub store_snapshot : PolicySnapshot → Act (Unit {0})
store_snapshot s = modify (λ repo. record repo { snapshots = insert s.version s repo.snapshots })

abbrev pub store_row : String → PolicyOutbox → Act (Unit {0})
store_row outbox_id row = modify (λ repo. record repo { outbox = insert outbox_id row repo.outbox })

unfoldable pub complete_run :
    String → RunStatus → Time → Option String → String → Option String → Act (Unit {0})
complete_run run_id status finished_at previous current proposal_id = do
  run ← reads (λ repo. get_item (lookup run_id repo.runs))
  put_run run_id (completed run status finished_at previous current proposal_id)

unfoldable pub commit_refresh_proposal :
    String → String → PolicyProposal → SourceState → Time → String → String → Act String
commit_refresh_proposal run_id source_id proposal state finished_at previous current = do
  run ← reads (running run_id)
  counter ← gets (λ repo. repo.proposal_counter)
  let proposal_id = proposal_name (counter + 1)
  put_run run_id (
      completed run RunStatus.proposal_created finished_at (some previous) current
        (some proposal_id))
  put_source_state source_id state
  store_proposal proposal_id proposal
  modify (λ repo. record repo { proposal_counter = repo.proposal_counter + 1 })
  pure proposal_id

unfoldable pub commit_refresh_no_change :
    String → String → SourceState → Time → Option String → String → Act (Unit {0})
commit_refresh_no_change run_id source_id state finished_at previous current = do
  run ← reads (running run_id)
  put_run run_id (completed run RunStatus.no_change finished_at previous current none)
  put_source_state source_id state

abbrev pub pending_row : PolicyOutbox → Result PolicyOutbox
pending_row row = if row.status == OutboxStatus.pending then ok row else err value_error

abbrev pub checked_row : PolicyOutbox → Result PolicyOutbox
checked_row row = if policy_outbox_ok row then ok row else err invalid_document

unfoldable pub mark_outbox_sent : String → Time → String → Act (Unit {0})
mark_outbox_sent outbox_id sent_at message_id = do
  row ← reads (λ repo. get_item (lookup outbox_id repo.outbox))
  pending ← reads (λ repo. pending_row row)
  sent ← reads (λ repo. checked_row (sent_row pending sent_at message_id))
  store_row outbox_id sent

unfoldable pub commit_publication : String → PolicySnapshot → String → PolicyOutbox → Act (Unit {0})
commit_publication proposal_id snapshot outbox_id row = do
  proposal ← reads (open_proposal proposal_id)
  reads (λ repo. unless_stored (lookup snapshot.version repo.snapshots))
  reads (λ repo. unless_stored (lookup outbox_id repo.outbox))
  published ← reads (λ repo. checked_proposal (record proposal {
    status = ProposalStatus.published;
    published_version = some snapshot.version;
  }))
  store_proposal proposal_id published
  store_snapshot snapshot
  store_row outbox_id row

unfoldable pub discard_proposal : String → Act (Unit {0})
discard_proposal proposal_id = do
  proposal ← reads (open_proposal proposal_id)
  discarded ← reads (λ repo.
      checked_proposal
        (record proposal { status = ProposalStatus.discarded; published_version = none }))
  store_proposal proposal_id discarded
