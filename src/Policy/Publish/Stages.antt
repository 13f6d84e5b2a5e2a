-- ===== src/Policy/Publish/Stages.antt =====
-- workers/policy/publish.py: what each step of a publication comes to.
use film_compliance_agent.Base.{
  ℕ, suc, ◌≤◌, ◌+++◌, String, Bool, Option, none, some, ◌≡◌, refl, ◌∙◌, inl, inr, arith,
  Option-cases, string_eq,
}
use film_compliance_agent.Base.Dict.{lookup, insert}
use film_compliance_agent.Schemas.Common.{Time}
use film_compliance_agent.Schemas.Json.{Json, null, bool, num, str, arr, obj, get}
use film_compliance_agent.Errors.{Error, Result, ok, err, invalid_document, require, >>=-eq-ok}
use film_compliance_agent.Policy.Documents.{
  PolicyPacks, PolicySnapshot, PolicyProposal, ProposalStatus, proposal_status_eq, version_of,
  version_number, policy_packs_ok, PackName, OutboxStatus, deduplicate_impact,
}
use film_compliance_agent.Policy.Repository.{
  PolicyRepository, get_proposal, newest, latest_snapshot, open_proposal,
}
use film_compliance_agent.Policy.Repository.Commits.{commit_publication}
use film_compliance_agent.Schemas.Enums.Process.{VerificationStatus}
use film_compliance_agent.Policy.Publish.Packs.{IsUpdated, apply_updates-IsUpdated}
use film_compliance_agent.Policy.Validation.{validate_snapshot}
use film_compliance_agent.Policy.Publish.{
  Publication, apply_updates, thresholds_value, snapshot_of, event_of, row_of, publishable,
  previous_snapshot, numbered_version, issue, publication, checked_snapshot, validated,
  publication_of,
}

-- the proposal as the publication of a version leaves it
abbrev pub published_as : PolicyProposal → String → PolicyProposal
published_as p version = record p {
  status = ProposalStatus.published;
  published_version = some version;
}

-- the repository after a publication
abbrev pub after_publication :
    String → PolicyProposal → Publication → PolicyRepository → PolicyRepository
after_publication proposal_id p publication repo = record repo {
  proposals = insert proposal_id (published_as p publication.snapshot.version) repo.proposals;
  snapshots = insert publication.snapshot.version publication.snapshot repo.snapshots;
  outbox = insert publication.outbox_id publication.row repo.outbox;
}

pub publishable-ok :
    (proposal_id : String) (now : Time) (repo : PolicyRepository) (p : PolicyProposal)
    → publishable proposal_id now repo ≡ ok p
    → (lookup proposal_id repo.proposals ≡ some p)
      × (p.status ≡ ProposalStatus.pending)
      × (p.effective_from ≤ now)
unfolding publishable get_proposal
publishable-ok proposal_id now repo p h =
    ground (arith, proposal_status_eq.same_iff p.status ProposalStatus.pending)

pub previous_snapshot-ok :
    (repo : PolicyRepository) (q : PolicySnapshot)
    → previous_snapshot repo ≡ ok q
    → (n : ℕ) × (newest repo.snapshots ≡ ok (some (n, q)))
unfolding previous_snapshot latest_snapshot
previous_snapshot-ok repo q h = go (newest repo.snapshots) refl
  where
    go :
        (r : Result (Option (ℕ × PolicySnapshot)))
        → newest repo.snapshots ≡ r
        → (n : ℕ) × (newest repo.snapshots ≡ ok (some (n, q)))
    go (err e) k = absurd (ground arith)
    go (ok none) k = absurd (ground arith)
    go (ok (some (n, s))) k = (n, ground arith)

pub commit_publication-ok :
    (proposal_id : String) (c : Publication) (repo repo' : PolicyRepository) (p : PolicyProposal)
    → lookup proposal_id repo.proposals ≡ some p
    → commit_publication proposal_id c.snapshot c.outbox_id c.row repo ≡ (ok tt, repo')
    → (lookup c.snapshot.version repo.snapshots ≡ none)
      × (lookup c.outbox_id repo.outbox ≡ none)
      × (repo' ≡ after_publication proposal_id p c repo)
unfolding commit_publication open_proposal
commit_publication-ok proposal_id c repo repo' p e h = ground arith

pub commit_publication-err :
    (proposal_id : String) (c : Publication) (repo repo' : PolicyRepository) (x : Error)
    → commit_publication proposal_id c.snapshot c.outbox_id c.row repo ≡ (err x, repo')
    → repo' ≡ repo
unfolding commit_publication open_proposal
commit_publication-err proposal_id c repo repo' x h = ground arith

module _ (show : Json → String) where
  -- what a publication is made of
  pub record IsNext (p : PolicyProposal) (q : PolicySnapshot) (actor : String) (now : Time)
      (c : Publication) : Type 0 where
    pub number : ℕ
    pub numbered : version_number q.version ≡ some number
    pub thresholds : Bool
    pub packs : PolicyPacks
    pub updated : (name : PackName) → IsUpdated p.draft_pack_updates q.packs packs name
    pub flagged : get "thresholds_published" packs.p3_tier_thresholds ≡ some (bool thresholds)
    pub made : c.snapshot ≡ record {
      version = version_of (suc number);
      published_at = now;
      effective_from = p.effective_from;
      published_by = actor;
      packs = packs;
      diff_from_prev = record { summary = p.summary; impact = deduplicate_impact p.impact };
      thresholds_published = thresholds;
      verification_status = VerificationStatus.mock_verified;
    }
    pub valid : (s : PolicySnapshot) × (validate_snapshot show c.snapshot ≡ ok s)
    pub told : c.row ≡ record {
      topic = "policy.updated";
      payload = record {
        snapshot_version = version_of (suc number);
        impact = deduplicate_impact p.impact;
        thresholds_published = thresholds;
        effective_from = p.effective_from;
        published_at = now;
        idempotency_key = "policy.updated:" +++ version_of (suc number);
      };
      status = OutboxStatus.pending;
      created_at = now;
      sent_at = none;
      pubsub_message_id = none;
    }
    pub keyed : c.outbox_id ≡ "policy.updated:" +++ version_of (suc number)

  validated-ok : (s t : PolicySnapshot) → validated show s ≡ ok t → validate_snapshot show s ≡ ok t
  validated-ok s t h = go (validate_snapshot show s) refl
    where
      go :
          (r : Result PolicySnapshot)
          → validate_snapshot show s ≡ r
          → validate_snapshot show s ≡ ok t
      go (err e) k = absurd (ground arith)
      go (ok u) k = ground arith

  publication-ok :
      (p : PolicyProposal) (thresholds : Bool) (version : String) (now : Time) (s : PolicySnapshot)
      (c : Publication)
      → publication p thresholds version now s ≡ ok c
      → (c.snapshot ≡ s)
        × (c.row ≡ row_of (event_of p thresholds version now) now)
        × (c.outbox_id ≡ "policy.updated:" +++ version)
  unfolding publication
  publication-ok p thresholds version now s c h = ground arith

  checked_snapshot-ok : (s t : PolicySnapshot) → checked_snapshot s ≡ ok t → t ≡ s
  checked_snapshot-ok s t h = ground arith

  issue-ok :
      (p : PolicyProposal) (packs : PolicyPacks) (thresholds : Bool) (actor : String) (now : Time)
      (n : ℕ) (c : Publication)
      → issue show p packs thresholds actor now n ≡ ok c
      → (c.snapshot ≡ snapshot_of p packs thresholds (version_of (suc n)) actor now)
        × ((t : PolicySnapshot) × (validate_snapshot show c.snapshot ≡ ok t))
        × (c.row ≡ row_of (event_of p thresholds (version_of (suc n)) now) now)
        × (c.outbox_id ≡ "policy.updated:" +++ version_of (suc n))
  unfolding issue
  issue-ok p packs thresholds actor now n c h =
      let draft = snapshot_of p packs thresholds (version_of (suc n)) actor now in
      let (s, checked, h₁) = >>=-eq-ok (checked_snapshot draft) _ h in
      let (t, accepted, h₂) = >>=-eq-ok (validated show s) _ h₁ in
      let (snap, row, key) = publication-ok p thresholds (version_of (suc n)) now s c h₂ in
      let same = checked_snapshot-ok draft s checked in
      (snap ∙ same, (t, rw snap (validated-ok s t accepted)), row, key)

  numbered_version-ok :
      (q : PolicySnapshot) (n : ℕ) → numbered_version q ≡ ok n → version_number q.version ≡ some n
  numbered_version-ok q n h = elim (Option-cases (version_number q.version)) [
    | inl e ↦ absurd (ground arith)
    | inr (m, e) ↦ ground arith
  ]

  thresholds_value-ok :
      (packs : PolicyPacks) (b : Bool)
      → thresholds_value packs ≡ ok b
      → get "thresholds_published" packs.p3_tier_thresholds ≡ some (bool b)
  thresholds_value-ok packs b h = go (get "thresholds_published" packs.p3_tier_thresholds) refl
    where
      go :
          (found : Option Json)
          → get "thresholds_published" packs.p3_tier_thresholds ≡ found
          → get "thresholds_published" packs.p3_tier_thresholds ≡ some (bool b)
      go none k = absurd (let l = rw (thresholds_value, k) at h in cc)
      go (some (bool c)) k =
          let l = rw (thresholds_value, k) at h in let same : c ≡ b = cc in rw k (rw same refl)
      go (some null) k = absurd (let l = rw (thresholds_value, k) at h in cc)
      go (some (num n)) k = absurd (let l = rw (thresholds_value, k) at h in cc)
      go (some (str t)) k = absurd (let l = rw (thresholds_value, k) at h in cc)
      go (some (arr a)) k = absurd (let l = rw (thresholds_value, k) at h in cc)
      go (some (obj d)) k = absurd (let l = rw (thresholds_value, k) at h in cc)

  pub publication_of-ok :
      (p : PolicyProposal) (q : PolicySnapshot) (actor : String) (now : Time) (c : Publication)
      → publication_of show p q actor now ≡ ok c
      → IsNext p q actor now c
  unfolding publication_of
  publication_of-ok p q actor now c h =
      let packs = apply_updates p.draft_pack_updates q.packs in
      let (u, packs_ok, h₁) = >>=-eq-ok (require (policy_packs_ok packs) invalid_document) _ h in
      let (thresholds, flag, h₂) = >>=-eq-ok (thresholds_value packs) _ h₁ in
      let (n, number, h₃) = >>=-eq-ok (numbered_version q) _ h₂ in
      let (made, valid, row, key) = issue-ok p packs thresholds actor now n c h₃ in
      record {
        number = n;
        numbered = numbered_version-ok q n number;
        thresholds = thresholds;
        packs = packs;
        updated = apply_updates-IsUpdated p.draft_pack_updates q.packs;
        flagged = thresholds_value-ok packs thresholds flag;
        made = made;
        valid = valid;
        told = row;
        keyed = key;
      }
