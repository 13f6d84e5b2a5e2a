-- ===== src/Policy/Refresh/Endings.antt =====
-- workers/policy/refresh.py: every run that was created ends, and a failed one leaves what the next run
-- compares with.
use film_compliance_agent.Base.{
  ◌==◌, String, Option, none, some, ◌≡◌, refl, ◌≢◌, ◌⊎◌, inl, inr, Bool-cases, string_eq,
}
use film_compliance_agent.Base.Dict.{Dict, lookup, lookup-insert_self}
use film_compliance_agent.Schemas.Common.{Time}
use film_compliance_agent.Errors.{Error, Result, ok, err}
use film_compliance_agent.Policy.Documents.{
  PolicyRun, PolicyProposal, SourceState, RunStatus, run_status_eq,
}
use film_compliance_agent.Policy.Repository.{
  PolicyRepository, Ran, get_source_state, running, fail_run,
}
use film_compliance_agent.Policy.Repository.Commits.{
  commit_refresh_no_change, commit_refresh_proposal,
}
use film_compliance_agent.Policy.Refresh.{
  PolicySource, RefreshPorts, RefreshResult, BlobRef, Reading, complete_no_change,
  complete_proposal, state_at, proposal_for, read_source, compare, attempt, failed, run,
}

-- what the repository holds once a run has returned: the run is over, and the source is remembered
-- as it was read
pub record IsDone (run_id source_id : String) (now : Time) (r : RefreshResult)
    (repo : PolicyRepository) : Type 0 where
  pub finished : PolicyRun
  pub stored : lookup run_id repo.runs ≡ some finished
  pub over : finished.status ≡ r.status
  pub not_running : r.status ≢ RunStatus.running
  pub state : SourceState
  pub remembered : lookup source_id repo.source_states ≡ some state
  pub read : state.normalized_sha256 ≡ r.current_sha256
  pub dated : state.last_success_at ≡ now

-- what it holds once a run has raised: the run has failed, and nothing else has changed
pub record IsFailed (run_id : String) (before after : PolicyRepository) : Type 0 where
  pub finished : PolicyRun
  pub stored : lookup run_id after.runs ≡ some finished
  pub over : finished.status ≡ RunStatus.failed
  pub sources : after.source_states ≡ before.source_states
  pub proposals : after.proposals ≡ before.proposals

-- before the `except`: an error has written nothing
abbrev Tried : String → String → Time → PolicyRepository → Ran RefreshResult → Type 0
Tried run_id source_id now before (ok r, repo) = IsDone run_id source_id now r repo
Tried run_id source_id now before (err e, repo) = repo ≡ before

abbrev pub IsEnded : String → String → Time → PolicyRepository → Ran RefreshResult → Type 0
IsEnded run_id source_id now before (ok r, repo) = IsDone run_id source_id now r repo
IsEnded run_id source_id now before (err e, repo) = IsFailed run_id before repo

running-cases :
    (run_id : String) (repo : PolicyRepository)
    → ((r : PolicyRun) × (running run_id repo ≡ ok r))
      ⊎ ((e : Error) × (running run_id repo ≡ err e))
running-cases run_id repo = go (running run_id repo) refl
  where
    go :
        (x : Result PolicyRun)
        → running run_id repo ≡ x
        → ((r : PolicyRun) × (running run_id repo ≡ ok r))
          ⊎ ((e : Error) × (running run_id repo ≡ err e))
    go (ok r) h = inl (r, h)
    go (err e) h = inr (e, h)

module _ (ports : RefreshPorts) (str_of : Error → String) (run_id source_id : String)
    (now : Time) where
  no_change-Tried :
      (raw_ref normalized_ref : BlobRef) (previous : Option String) (repo : PolicyRepository)
      → Tried run_id source_id now repo (
          complete_no_change ports str_of run_id source_id now raw_ref normalized_ref previous repo)
  unfolding complete_no_change commit_refresh_no_change
  no_change-Tried raw_ref normalized_ref previous repo = elim (running-cases run_id repo) [
    | inl (r, e) ↦
        rw (complete_no_change, commit_refresh_no_change, e)
          (record {
            finished = _;
            stored = lookup-insert_self run_id _ repo.runs;
            over = refl;
            not_running = λ h. cc;
            state = _;
            remembered = lookup-insert_self source_id _ repo.source_states;
            read = refl;
            dated = refl;
          })
    | inr (x, e) ↦ rw (complete_no_change, commit_refresh_no_change, e) refl
  ]

  proposal-Tried :
      (state previous : SourceState) (proposal : PolicyProposal) (repo : PolicyRepository)
      → state.last_success_at ≡ now
      → Tried run_id source_id now repo
          (complete_proposal ports str_of run_id source_id now state previous proposal repo)
  unfolding complete_proposal commit_refresh_proposal
  proposal-Tried state previous proposal repo at_now = elim (running-cases run_id repo) [
    | inl (r, e) ↦
        rw (complete_proposal, commit_refresh_proposal, e)
          (record {
            finished = _;
            stored = lookup-insert_self run_id _ repo.runs;
            over = refl;
            not_running = λ h. cc;
            state = state;
            remembered = lookup-insert_self source_id state repo.source_states;
            read = refl;
            dated = at_now;
          })
    | inr (x, e) ↦ rw (complete_proposal, commit_refresh_proposal, e) refl
  ]

  compare-Tried :
      (reading : Reading ports str_of) (previous : Option SourceState) (repo : PolicyRepository)
      → Tried run_id source_id now repo
          (compare ports str_of run_id source_id now reading previous repo)
  unfolding compare
  compare-Tried (fetched, raw_ref, normalized, normalized_ref) none repo =
      no_change-Tried raw_ref normalized_ref none repo
  compare-Tried (fetched, raw_ref, normalized, normalized_ref) (some previous) repo =
      elim (Bool-cases (previous.normalized_sha256 == normalized_ref.sha256)) [
        | inl same ↦
            rw (compare, same)
              (no_change-Tried raw_ref normalized_ref (some previous.normalized_sha256) repo)
        | inr other ↦
            rw (compare, other)
              (drafted (proposal_for ports str_of source_id now fetched normalized previous) refl)
      ]
    where
      drafted :
          (x : Result PolicyProposal)
          → proposal_for ports str_of source_id now fetched normalized previous ≡ x
          → Tried run_id source_id now repo (elim x [
            | err e ↦ (err e, repo)
            | ok proposal ↦
                complete_proposal ports str_of run_id source_id now
                  (state_at ports str_of now raw_ref normalized_ref)
                  previous
                  proposal
                  repo
          ])
      drafted (err e) h = refl
      drafted (ok proposal) h =
          proposal-Tried (state_at ports str_of now raw_ref normalized_ref) previous proposal repo
            refl

  attempt-Tried :
      (sources : Dict String PolicySource) (repo : PolicyRepository)
      → Tried run_id source_id now repo (attempt ports str_of sources run_id source_id now repo)
  unfolding attempt
  attempt-Tried sources repo = go (read_source ports str_of sources source_id now) refl
    where
      go :
          (x : Result (Reading ports str_of))
          → read_source ports str_of sources source_id now ≡ x
          → Tried run_id source_id now repo (attempt ports str_of sources run_id source_id now repo)
      go (err e) h = rw (attempt, h) refl
      go (ok reading) h =
          rw (attempt, h) (compare-Tried reading (get_source_state source_id repo) repo)

  failed-ends :
      (e : Error) (repo : PolicyRepository) (r : PolicyRun)
      → lookup run_id repo.runs ≡ some r
      → IsEnded run_id source_id now repo (failed ports str_of run_id now e repo)
  unfolding failed fail_run
  failed-ends e repo r h =
      rw (failed, fail_run, h)
        (record {
          finished = _;
          stored = lookup-insert_self run_id _ repo.runs;
          over = refl;
          sources = refl;
          proposals = refl;
        })

  -- Whatever its source, its blobs and the model answer, a run that was created ends: it returns with
  -- the run over as the answer says and the source remembered as it was read, or it raises with the
  -- run failed and neither the sources nor the proposals changed.
  pub run-ends :
      (sources : Dict String PolicySource) (repo : PolicyRepository) (r : PolicyRun)
      → lookup run_id repo.runs ≡ some r
      → IsEnded run_id source_id now repo (run ports str_of sources run_id source_id now repo)
  unfolding run
  run-ends sources repo r h =
      go (attempt ports str_of sources run_id source_id now repo) refl (attempt-Tried sources repo)
    where
      go :
          (x : Ran RefreshResult)
          → attempt ports str_of sources run_id source_id now repo ≡ x
          → Tried run_id source_id now repo x
          → IsEnded run_id source_id now repo (run ports str_of sources run_id source_id now repo)
      go (ok answer, after) e tried = rw (run, e) tried
      go (err x, after) e tried =
          let same : after ≡ repo = tried in rw (run, e, same) (failed-ends x repo r h)
