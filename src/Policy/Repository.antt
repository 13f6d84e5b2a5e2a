-- ===== src/Policy/Repository.antt =====
-- workers/policy/repository.py: `InMemoryPolicyRepository`, its reads and its single writes. What it
-- holds comes back beside an error too.
pub mod Commits
use film_compliance_agent.Base.{
  ℕ, zero, suc, ◌+◌, String, Bool, true, false, Option, none, some, List, [], ◌∷◌, ◌==◌, ◌+++◌, ltb,
  keep, if◌then◌else◌, string_eq,
}
use film_compliance_agent.Base.Dict.{Dict, lookup, insert}
use film_compliance_agent.Base.Decimal.{print_padded}
use film_compliance_agent.Base.Sorting.{text_le}
use film_compliance_agent.Schemas.Common.{Time}
use film_compliance_agent.Errors.{Error, raised, invalid_document, Result, ok, err, ◌>>=◌}
use film_compliance_agent.Policy.Documents.{
  PolicyRun, SourceState, PolicyProposal, PolicySnapshot, PolicyOutbox, RunStatus, ProposalStatus,
  OutboxStatus, run_status_eq, proposal_status_eq, outbox_status_eq, version_number,
  policy_proposal_ok, policy_outbox_ok,
}

pub record PolicyRepository : Type 0 where
  pub runs : Dict String PolicyRun
  pub source_states : Dict String SourceState
  pub proposals : Dict String PolicyProposal
  pub snapshots : Dict String PolicySnapshot
  pub outbox : Dict String PolicyOutbox
  pub proposal_counter : ℕ

-- a value, or an exception, with the repository afterwards
abbrev pub Ran {ℓ} : Type ℓ → Type ℓ
Ran A = Result A × PolicyRepository

abbrev pub key_error : Error
key_error = raised "KeyError"

abbrev pub value_error : Error
value_error = raised "ValueError"

-- `d[key]`
abbrev pub get_item {ℓ} : {A : Type ℓ} → Option A → Result A
get_item none = err key_error
get_item (some a) = ok a

unfoldable pub create_run : String → String → Time → PolicyRepository → Ran (Unit {0})
create_run run_id source_id started_at repo = elim (lookup run_id repo.runs) [
  | some _ ↦ (err value_error, repo)
  | none ↦ (
    ok tt,
    record repo {
      runs =
          insert run_id
            (record {
              run_id = run_id;
              source_id = source_id;
              status = RunStatus.running;
              started_at = started_at;
              finished_at = none;
              previous_sha256 = none;
              current_sha256 = none;
              proposal_id = none;
              error = none;
            })
            repo.runs;
    },
  )
]

unfoldable pub fail_run : String → String → Time → PolicyRepository → Ran (Unit {0})
fail_run run_id error finished_at repo = elim (lookup run_id repo.runs) [
  | none ↦ (err key_error, repo)
  | some run ↦ (
    ok tt,
    record repo {
      runs =
          insert run_id
            (record run {
              status = RunStatus.failed;
              finished_at = some finished_at;
              error = some error;
            })
            repo.runs;
    },
  )
]

unfoldable pub get_source_state : String → PolicyRepository → Option SourceState
get_source_state source_id repo = lookup source_id repo.source_states

-- a run that ended without an exception
abbrev pub completed :
    PolicyRun → RunStatus → Time → Option String → String → Option String → PolicyRun
completed run status finished_at previous current proposal_id = record run {
  status = status;
  finished_at = some finished_at;
  previous_sha256 = previous;
  current_sha256 = some current;
  proposal_id = proposal_id;
  error = none;
}

-- the run that is to end
unfoldable pub running : String → PolicyRepository → Result PolicyRun
running run_id repo = do
  run ← get_item (lookup run_id repo.runs)
  if run.status == RunStatus.running then ok run else err value_error

-- `f"proposal_{n:03d}"`
unfoldable pub proposal_name : ℕ → String
proposal_name n = "proposal_" +++ print_padded n

unfoldable pub create_proposal : PolicyProposal → PolicyRepository → Ran String
create_proposal proposal repo =
    let proposal_id = proposal_name (repo.proposal_counter + 1) in
    (
      ok proposal_id,
      record repo {
        proposals = insert proposal_id proposal repo.proposals;
        proposal_counter = repo.proposal_counter + 1;
      },
    )

unfoldable pub get_proposal : String → PolicyRepository → Result PolicyProposal
get_proposal proposal_id repo = get_item (lookup proposal_id repo.proposals)

unfoldable pub put_snapshot : PolicySnapshot → PolicyRepository → Ran (Unit {0})
put_snapshot snapshot repo = elim (lookup snapshot.version repo.snapshots) [
  | some _ ↦ (err value_error, repo)
  | none ↦ (ok tt, record repo { snapshots = insert snapshot.version snapshot repo.snapshots })
]

-- the better of the first entry and the best of the rest, the first one where they tie
abbrev pub newer : ℕ → PolicySnapshot → Option (ℕ × PolicySnapshot) → ℕ × PolicySnapshot
newer n s none = (n, s)
newer n s (some (m, t)) = if ltb n m then (m, t) else (n, s)

-- `max(snapshots, key=lambda item: int(item[1:]))` with its number, if there is one
unfoldable pub newest : Dict String PolicySnapshot → Result (Option (ℕ × PolicySnapshot))
newest [] = ok none
newest ((version, s) ∷ d) =
    let rest = newest d in
    elim (version_number version) [
      | none ↦ err value_error
      | some n ↦ rest >>= λ best. ok (some (newer n s best))
    ]

unfoldable pub latest_snapshot : PolicyRepository → Result (Option PolicySnapshot)
latest_snapshot repo = do
  best ← newest repo.snapshots
  ok (elim best [ none ↦ none | some (n, s) ↦ some s ])

unfoldable pub put_outbox : String → PolicyOutbox → PolicyRepository → Ran (Unit {0})
put_outbox outbox_id row repo = elim (lookup outbox_id repo.outbox) [
  | some _ ↦ (err value_error, repo)
  | none ↦ (ok tt, record repo { outbox = insert outbox_id row repo.outbox })
]

-- `(created_at, outbox_id)` is at most another
abbrev pub row_le : String × PolicyOutbox → String × PolicyOutbox → Bool
row_le (i, r) (j, s) =
    if ltb r.created_at s.created_at
    then true
    else if ltb s.created_at r.created_at
    then false
    else text_le i j

unfoldable pub insert_row :
    String × PolicyOutbox → List (String × PolicyOutbox) → List (String × PolicyOutbox)
insert_row x [] = x ∷ []
insert_row x (y ∷ ys) = let rest = insert_row x ys in if row_le x y then x ∷ y ∷ ys else y ∷ rest

unfoldable pub sort_rows : List (String × PolicyOutbox) → List (String × PolicyOutbox)
sort_rows [] = []
sort_rows (x ∷ xs) = insert_row x (sort_rows xs)

-- `rows[:n]`
abbrev pub first_rows {ℓ} : {A : Type ℓ} → ℕ → List A → List A
first_rows zero xs = []
first_rows n [] = []
first_rows (suc n) (x ∷ xs) = x ∷ first_rows n xs

abbrev pub is_pending : String × PolicyOutbox → Bool
is_pending row = row.1.status == OutboxStatus.pending

unfoldable pub list_pending_outbox : ℕ → PolicyRepository → List (String × PolicyOutbox)
list_pending_outbox limit repo = first_rows limit (sort_rows (keep is_pending repo.outbox))

-- a row after its delivery
abbrev pub sent_row : PolicyOutbox → Time → String → PolicyOutbox
sent_row row sent_at message_id = record row {
  status = OutboxStatus.sent;
  sent_at = some sent_at;
  pubsub_message_id = some message_id;
}

-- a proposal that is still open
unfoldable pub open_proposal : String → PolicyRepository → Result PolicyProposal
open_proposal proposal_id repo = do
  proposal ← get_item (lookup proposal_id repo.proposals)
  if proposal.status == ProposalStatus.pending then ok proposal else err value_error

abbrev pub unless_stored {ℓ} : {A : Type ℓ} → Option A → Result (Unit {0})
unless_stored none = ok tt
unless_stored (some _) = err value_error

abbrev pub checked_proposal : PolicyProposal → Result PolicyProposal
checked_proposal p = if policy_proposal_ok p then ok p else err invalid_document
