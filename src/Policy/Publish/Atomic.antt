-- ===== src/Policy/Publish/Atomic.antt =====
-- workers/policy/publish.py: a publication is written whole or not at all.
use film_compliance_agent.Base.{
  ℕ, suc, ◌≤◌, String, none, some, ◌≡◌, refl, sym, ap, ◌∙◌, All, arith, string_eq,
}
use film_compliance_agent.Base.Dict.{lookup, insert}
use film_compliance_agent.Schemas.Common.{Time}
use film_compliance_agent.Schemas.Json.{Json}
use film_compliance_agent.Errors.{Error, Result, ok, err, >>=-eq-ok}
use film_compliance_agent.Policy.Documents.{
  PolicySnapshot, PolicyProposal, ProposalStatus, proposal_status_eq, version_of, version_number,
}
use film_compliance_agent.Policy.Repository.{PolicyRepository, newest, latest_snapshot}
use film_compliance_agent.Policy.Repository.Commits.{commit_publication}
use film_compliance_agent.Policy.Publish.{
  PublishResult, Publication, publishable, previous_snapshot, publication_of, prepare, publish,
  commit_result,
}
use film_compliance_agent.Policy.Publish.Versions.{
  IsOwn, version_number-version_of, newest-number, latest_snapshot-insert,
}
use film_compliance_agent.Policy.Publish.Stages.{
  after_publication, publishable-ok, previous_snapshot-ok, commit_publication-ok,
  commit_publication-err, IsNext, publication_of-ok,
}

after_latest :
    (proposal_id : String) (p : PolicyProposal) (c : Publication) (repo repo' : PolicyRepository)
    → latest_snapshot
        (record repo { snapshots = insert c.snapshot.version c.snapshot repo.snapshots })
      ≡ ok (some c.snapshot)
    → repo' ≡ after_publication proposal_id p c repo
    → latest_snapshot repo' ≡ ok (some c.snapshot)
unfolding latest_snapshot
after_latest proposal_id p c repo repo' h written = rw written h

module _ (show : Json → String) where
  -- what a publication that returned was made of, and what it wrote
  pub record IsPublished (proposal_id actor : String) (now : Time) (repo repo' : PolicyRepository)
      (r : PublishResult) : Type 0 where
    pub proposal : PolicyProposal
    pub stored : lookup proposal_id repo.proposals ≡ some proposal
    pub pending : proposal.status ≡ ProposalStatus.pending
    pub effective : proposal.effective_from ≤ now
    pub latest_number : ℕ
    pub previous : PolicySnapshot
    pub latest : newest repo.snapshots ≡ ok (some (latest_number, previous))
    pub made : Publication
    pub next : IsNext show proposal previous actor now made
    pub fresh : lookup made.snapshot.version repo.snapshots ≡ none
    pub free : lookup made.outbox_id repo.outbox ≡ none
    pub told : r ≡ record { snapshot_version = made.snapshot.version; outbox_id = made.outbox_id }
    pub written : repo' ≡ after_publication proposal_id proposal made repo

  prepare-ok :
      (proposal_id actor : String) (now : Time) (repo : PolicyRepository) (c : Publication)
      → prepare show proposal_id actor now repo ≡ ok c
      → (p : PolicyProposal) × (q : PolicySnapshot) × (publishable proposal_id now repo ≡ ok p)
        × (previous_snapshot repo ≡ ok q)
        × (publication_of show p q actor now ≡ ok c)
  unfolding prepare
  prepare-ok proposal_id actor now repo c h =
      let (p, found, h₁) = >>=-eq-ok (publishable proposal_id now repo) _ h in
      let (q, last, h₂) = >>=-eq-ok (previous_snapshot repo) _ h₁ in (p, q, found, last, h₂)

  publish-cases :
      (proposal_id actor : String) (now : Time) (repo repo' : PolicyRepository) (r : PublishResult)
      → publish show proposal_id actor now repo ≡ (ok r, repo')
      → (c : Publication) × (prepare show proposal_id actor now repo ≡ ok c)
        × (commit_publication proposal_id c.snapshot c.outbox_id c.row repo ≡ (ok tt, repo'))
        × (r ≡ record { snapshot_version = c.snapshot.version; outbox_id = c.outbox_id })
  unfolding publish
  publish-cases proposal_id actor now repo repo' r h =
      go (prepare show proposal_id actor now repo) refl
    where
      committed :
          (c : Publication) (x : Result (Unit {0}) × PolicyRepository)
          → commit_publication proposal_id c.snapshot c.outbox_id c.row repo ≡ x
          → commit_result show c x ≡ (ok r, repo')
          → (x ≡ (ok tt, repo'))
            × (r ≡ record { snapshot_version = c.snapshot.version; outbox_id = c.outbox_id })
      committed c (err e, w) k l = absurd (cc)
      committed c (ok _, w) k l = (cc, cc)

      go :
          (x : Result Publication)
          → prepare show proposal_id actor now repo ≡ x
          → (c : Publication) × (prepare show proposal_id actor now repo ≡ ok c)
            × (commit_publication proposal_id c.snapshot c.outbox_id c.row repo ≡ (ok tt, repo'))
            × (r ≡ record { snapshot_version = c.snapshot.version; outbox_id = c.outbox_id })
      go (err e) k = absurd (ground arith)
      go (ok c) k =
          let ran = commit_publication proposal_id c.snapshot c.outbox_id c.row repo in
          let (done, told) = committed c ran refl (rw (publish, k) at h) in (c, k, done, told)

  -- A publication returns only for a stored proposal that is pending and in effect, beside a latest
  -- snapshot. It makes the snapshot with the next version from the latest one's packs and the
  -- proposal's, which passes the validation, and writes the snapshot under a version not yet taken,
  -- the proposal as published in it, and its event as a pending row; nothing else.
  pub publish-ok :
      (proposal_id actor : String) (now : Time) (repo repo' : PolicyRepository) (r : PublishResult)
      → publish show proposal_id actor now repo ≡ (ok r, repo')
      → IsPublished proposal_id actor now repo repo' r
  publish-ok proposal_id actor now repo repo' r h =
      let (c, prepared, done, told) = publish-cases proposal_id actor now repo repo' r h in
      let (p, q, found, last, made) = prepare-ok proposal_id actor now repo c prepared in
      let (stored, pending, effective) = publishable-ok proposal_id now repo p found in
      let (n, latest) = previous_snapshot-ok repo q last in
      let (fresh, free, written) = commit_publication-ok proposal_id c repo repo' p stored done in
      record {
        proposal = p;
        stored = stored;
        pending = pending;
        effective = effective;
        latest_number = n;
        previous = q;
        latest = latest;
        made = c;
        next = publication_of-ok show p q actor now c made;
        fresh = fresh;
        free = free;
        told = told;
        written = written;
      }

  -- A publication that raises leaves the repository as it was.
  pub publish-err :
      (proposal_id actor : String) (now : Time) (repo repo' : PolicyRepository) (e : Error)
      → publish show proposal_id actor now repo ≡ (err e, repo')
      → repo' ≡ repo
  unfolding publish
  publish-err proposal_id actor now repo repo' e h =
      go (prepare show proposal_id actor now repo) refl
    where
      committed :
          (c : Publication) (x : Result (Unit {0}) × PolicyRepository)
          → commit_publication proposal_id c.snapshot c.outbox_id c.row repo ≡ x
          → commit_result show c x ≡ (err e, repo')
          → repo' ≡ repo
      committed c (err d, w) k l = sym (cc) ∙ commit_publication-err proposal_id c repo w d k
      committed c (ok _, w) k l = absurd (cc)

      go : (x : Result Publication) → prepare show proposal_id actor now repo ≡ x → repo' ≡ repo
      go (err d) k = ground arith
      go (ok c) k =
          committed c (commit_publication proposal_id c.snapshot c.outbox_id c.row repo) refl
            (rw (publish, k) at h)

  -- Where every snapshot is stored under its own version, the snapshot that a publication returned
  -- is the latest afterwards.
  pub publish-latest :
      (proposal_id actor : String) (now : Time) (repo repo' : PolicyRepository) (r : PublishResult)
      → All IsOwn repo.snapshots
      → publish show proposal_id actor now repo ≡ (ok r, repo')
      → (s : PolicySnapshot) × (latest_snapshot repo' ≡ ok (some s))
        × (s.version ≡ r.snapshot_version)
  publish-latest proposal_id actor now repo repo' r own h =
      let done = publish-ok proposal_id actor now repo repo' r h in
      let c = done.made in
      let number = newest-number repo.snapshots done.latest_number done.previous own done.latest in
      let same : done.next.number ≡ done.latest_number = ground (arith, done.next.numbered) in
      let version : c.snapshot.version ≡ version_of (suc done.next.number) =
        ap (λ s. s.version) done.next.made in
      let numbered : version_number c.snapshot.version ≡ some (suc done.next.number) =
        ap version_number version ∙ version_number-version_of (suc done.next.number) in
      let latest =
        latest_snapshot-insert c.snapshot.version (suc done.next.number) done.latest_number
          c.snapshot done.previous repo numbered done.fresh done.latest (omega (arith, same)) in
      (
        c.snapshot,
        after_latest proposal_id done.proposal c repo repo' latest done.written,
        ap (λ x. x.snapshot_version) (sym done.told),
      )
