-- ===== src/Workflow/Recalculation.antt =====
-- core/workflow_service.py: what the policy workers ask of the service, to mark a project as stale and to
-- recalculate its tier under a new snapshot.
pub mod Repeats
pub mod Results
use film_compliance_agent.Base.{
  ℕ, String, Bool, true, false, Option, none, some, List, [], ◌∷◌, ◌++◌, ◌==◌, ◌||◌, not, contains,
  string_eq, if◌then◌else◌,
}
use film_compliance_agent.Base.Sorting.{sorted_set}
use film_compliance_agent.Schemas.Enums.States.{
  ProjectState, project_state_eq, Tier, tier_eq, tier_value, Regime,
}
use film_compliance_agent.Schemas.Enums.Process.{Actor, NotificationKind, VerificationStatus}
use film_compliance_agent.Schemas.Common.{Time, EvidenceRef}
use film_compliance_agent.Schemas.Json.{Json, Detail, end, entry, str, bool}
use film_compliance_agent.Schemas.Policy.{TierPack, Thresholds}
use film_compliance_agent.Schemas.Project.{Classification, Project}
use film_compliance_agent.Errors.{Error, Result, ok, err}
use film_compliance_agent.Effects.{
  M, continue, ◌>>=◌, ◌>>◌, pure, asks, gets, from_snapshot, now, new_id,
}
use film_compliance_agent.Classify.D1c.{TierDecision, is_usable, judge_tier}
use film_compliance_agent.Workflow.Core.{save_project, get_project, record_event, notify}

abbrev pub recalc_frozen_states : List ProjectState
recalc_frozen_states =
    ProjectState.form_frozen ∷ ProjectState.institution_review ∷ ProjectState.institution_returned
    ∷ ProjectState.ready_for_external_filing ∷ ProjectState.filed ∷ ProjectState.production ∷ []

pub record RecalcResult : Type 0 where
  pub tier : Tier
  pub tier_provisional : Bool
  pub changed : Bool
  pub reason : Option String

abbrev pub is_given : Option String → Bool
is_given none = false
is_given (some s) = not (s == "")

-- `project.state in RECALC_FROZEN_STATES or project.registration_number`
unfoldable pub recalc_frozen : Project → Bool
recalc_frozen p = contains recalc_frozen_states p.state || is_given p.registration_number

-- a mapping is true if it has a key
abbrev pub has_thresholds : Option Thresholds → Bool
has_thresholds none = false
has_thresholds (some t) = is_usable t

-- `_thresholds_published`
unfoldable pub thresholds_published_in : TierPack → Bool
thresholds_published_in pack3 = elim pack3.thresholds_published [
  | some b ↦ b
  | none ↦ elim pack3.official_published [ some b ↦ b | none ↦ has_thresholds pack3.thresholds ]
]

unfoldable pub recalc_decision : Project → TierPack → TierDecision
recalc_decision p pack3 =
    judge_tier p.intent_profile.amount_bracket pack3 (some (thresholds_published_in pack3))
      p.intent_profile.investment_amount_rmb none none

abbrev pub without : String → List String → List String
without x [] = []
without x (y ∷ ys) = let rest = without x ys in if y == x then rest else y ∷ rest

abbrev pub recalc_evidence : String → Option String → List EvidenceRef → List EvidenceRef
recalc_evidence version none refs = refs
recalc_evidence version (some id) refs =
    if id == ""
    then refs
    else record { snapshot_version = version; clause_id = id; regime = Regime.current } ∷ []

unfoldable pub recalculated :
    Classification → TierDecision → String → VerificationStatus → Classification
recalculated c d version status = record c {
  tier = d.tier;
  tier_provisional = d.tier_provisional;
  policy_snapshot_version = version;
  policy_verification_status = status;
  pending_flags = sorted_set (without "amount_official" c.pending_flags ++ d.pending_flags);
  evidence_refs = recalc_evidence version d.clause_ref c.evidence_refs;
}

-- `!=` on flags
abbrev pub differs : Bool → Bool → Bool
differs true b = not b
differs false b = b

unfoldable pub tier_changed : TierDecision → Classification → Bool
tier_changed d c = not (d.tier == c.tier) || differs d.tier_provisional c.tier_provisional

abbrev pub recalculated_project : Project → Classification → Time → Project
recalculated_project p c at = record p {
  classification = some c;
  policy_stale = false;
  updated_at = at;
}

abbrev pub recalc_detail : String → TierDecision → Bool → Detail
recalc_detail version d changed = entry "snapshot_version" (str version) (
    entry "tier" (str (tier_value d.tier))
      (entry "tier_provisional" (bool d.tier_provisional) (entry "changed" (bool changed) end)))

abbrev pub recalc_news : Project → String → TierDecision → Classification → M (Unit {0})
recalc_news q version d c = do
  n ← notify q NotificationKind.tier_recalculated (
      entry "snapshot_version" (str version) (
        entry "tier" (str (tier_value d.tier)) (
          entry "tier_provisional" (bool d.tier_provisional)
            (entry "previous_tier" (str (tier_value c.tier)) end))))
  pure tt

-- the recalculation of a tier that is still provisional
unfoldable pub recalc_open : Project → Classification → String → M RecalcResult
unfolding now
recalc_open p c version = do
  found ← asks (λ env. env.tier_pack version)
  pack3 ← from_snapshot found
  status ← asks (λ env. env.verification_status version)
  at ← now
  let d = recalc_decision p pack3
  let changed = tier_changed d c
  let q = recalculated_project p (recalculated c d version status) at
  save_project q
  event ←
      record_event p.project_id Actor.system "classification.recalculated"
        (recalc_detail version d changed)
  if changed then recalc_news q version d c else pure tt
  pure (record {
    tier = d.tier;
    tier_provisional = d.tier_provisional;
    changed = changed;
    reason = none;
  })

abbrev pub recalc_kept : Classification → String → RecalcResult
recalc_kept c reason = record {
  tier = c.tier;
  tier_provisional = c.tier_provisional;
  changed = false;
  reason = some reason;
}

-- `if not classification.tier_provisional`
abbrev pub recalc_provisional : Bool → Project → Classification → String → M RecalcResult
recalc_provisional false p c version = pure (recalc_kept c "not_provisional")
recalc_provisional true p c version = recalc_open p c version

unfoldable pub recalc_classified : Project → Classification → String → M RecalcResult
recalc_classified p c version =
    if recalc_frozen p
    then pure (recalc_kept c "frozen")
    else recalc_provisional c.tier_provisional p c version

abbrev pub recalc_given : Project → Option Classification → String → M RecalcResult
recalc_given p none version = pure (record {
  tier = Tier.undetermined;
  tier_provisional = false;
  changed = false;
  reason = some "not_classified";
})
recalc_given p (some c) version = recalc_classified p c version

unfoldable pub recalc_tier : String → String → M RecalcResult
recalc_tier project_id version = do
  p ← get_project project_id
  recalc_given p p.classification version

unfoldable pub mark_policy_stale : String → String → M Project
unfolding now
mark_policy_stale project_id version = do
  p ← get_project project_id
  at ← now
  let q = record p { policy_stale = true; updated_at = at }
  save_project q
  event ←
      record_event project_id Actor.system "policy.stale"
        (entry "snapshot_version" (str version) end)
  if p.policy_stale then pure tt else (do
    n ← notify q NotificationKind.policy_stale (entry "snapshot_version" (str version) end)
    pure tt)
  pure q
