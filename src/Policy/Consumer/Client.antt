-- ===== src/Policy/Consumer/Client.antt =====
-- workers/policy/adapters/fake_recalc.py: the client that recalculates tiers in the in-memory
-- repository. Its list of calls, which only tests read, is left out.
use film_compliance_agent.Base.{
  String, Bool, true, false, none, some, List, ◌||◌, not, contains, if◌then◌else◌, refl, arith,
  Option-cases, Bool-cases, inl, inr, string_eq, string_iff,
}
use film_compliance_agent.Base.Dict.{lookup, insert, lookup-insert}
use film_compliance_agent.Schemas.Enums.States.{Tier}
use film_compliance_agent.Errors.{raised, ok, err}
use film_compliance_agent.Policy.Consumer.{WorkflowStatus, ProjectPolicyState, Act}
use film_compliance_agent.Policy.Consumer.Records.{IsConfined}

-- a project that `apply_recalc` has moved
abbrev pub moved : ProjectPolicyState → String → Tier → ProjectPolicyState
moved p version tier = record p {
  policy_snapshot_version = version;
  tier = tier;
  tier_provisional = false;
}

-- `apply_recalc`, for a version that an event names
unfoldable pub apply_recalc : ProjectPolicyState → String → String → Tier → Act (Unit {0})
apply_recalc p project_id version tier w =
    (ok tt, record w { projects = insert project_id (moved p version tier) w.projects })

abbrev pub is_closed : WorkflowStatus → Bool
is_closed WorkflowStatus.draft = false
is_closed WorkflowStatus.form_frozen = true
is_closed WorkflowStatus.filed = true

-- `FakeRecalcClient.recalc_tier`, by the tier that it gives and the projects it fails on
unfoldable pub fake_recalc_tier : Tier → List String → String → String → Act Bool
unfolding apply_recalc
fake_recalc_tier new_tier fail_on project_id version w =
    if contains fail_on project_id
    then (err (raised "FakeRecalcError"), w)
    else (elim (lookup project_id w.projects) [
      | none ↦ (err (raised "KeyError"), w)
      | some p ↦
          if not p.tier_provisional || is_closed p.workflow_status
          then (ok false, w)
          else (ok true, (apply_recalc p project_id version new_tier w).1)
    ])

module _ (new_tier : Tier) (fail_on : List String) where
  -- The client touches only the project it is asked about, and not what that one has filed.
  pub fake_recalc_tier-IsConfined : IsConfined (fake_recalc_tier new_tier fail_on)
  unfolding fake_recalc_tier apply_recalc
  fake_recalc_tier-IsConfined = record {
    filed = λ id version w j. elim (Bool-cases (contains fail_on id)) [
      | inl fails ↦ rw fails refl
      | inr goes ↦ elim (Option-cases (lookup id w.projects)) [
        | inl absent ↦ rw (goes, absent) refl
        | inr (p, e) ↦ elim (Bool-cases (not p.tier_provisional || is_closed p.workflow_status)) [
          | inl stays ↦ rw (goes, e, stays) refl
          | inr moves ↦
              rw (goes, e, moves)
                (ground (
                  arith,
                  lookup-insert id j (moved p version new_tier) w.projects,
                  string_iff id j,
                ))
        ]
      ]
    ];
    others = λ id version w j other. elim (Bool-cases (contains fail_on id)) [
      | inl fails ↦ rw fails refl
      | inr goes ↦ elim (Option-cases (lookup id w.projects)) [
        | inl absent ↦ rw (goes, absent) refl
        | inr (p, e) ↦ elim (Bool-cases (not p.tier_provisional || is_closed p.workflow_status)) [
          | inl stays ↦ rw (goes, e, stays) refl
          | inr moves ↦
              rw (goes, e, moves)
                (ground (
                  arith,
                  lookup-insert id j (moved p version new_tier) w.projects,
                  string_iff id j,
                ))
        ]
      ]
    ];
  }
