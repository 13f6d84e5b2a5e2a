-- ===== src/Tests/Recalculation.antt =====
-- Concrete runs of the recalculation of a tier.
use film_compliance_agent.Base.{true, false, none, some, [], ◌∷◌, ◌≡◌, ◌⊎◌, refl, string_eq}
use film_compliance_agent.Base.Dict.{lookup, insert}
use film_compliance_agent.Schemas.Enums.States.{ProjectState, FormType, Tier}
use film_compliance_agent.Schemas.Enums.Process.{VerificationStatus}
use film_compliance_agent.Schemas.Policy.{TierPack}
use film_compliance_agent.Schemas.Project.{Classification, Project}
use film_compliance_agent.Errors.{ok}
use film_compliance_agent.Store.{Stores}
use film_compliance_agent.Effects.{Env}
use film_compliance_agent.Workflow.Core.{get_project, record_event, notify}
use film_compliance_agent.Workflow.Recalculation.{
  RecalcResult, recalc_frozen, recalc_open, recalc_classified, recalc_tier, recalc_decision,
  recalculated, tier_changed,
}
use film_compliance_agent.Workflow.Recalculation.Repeats.{recalc_tier_again}
use film_compliance_agent.Workflow.Recalculation.Results.{IsRetiered, recalc_tier-ok}
use film_compliance_agent.Tests.Samples.{project_at, stores_at, env}

abbrev tiers : TierPack
tiers = record {
  thresholds_published = some true;
  official_published = some true;
  threshold_sets = [];
  thresholds = some (record {
    t1_min_rmb = some 3_000_000;
    t2_min_rmb = some 1_000_000;
    disputed_boundaries = [];
    clause_ref = none;
    other_keys = false;
  });
}

abbrev published : Env
published = record env { tier_pack = λ version. some tiers }

abbrev provisional : Classification
provisional = record {
  form_type = FormType.micro_drama;
  tier = Tier.t3;
  tier_provisional = true;
  special_subject_hit = false;
  co_review_required = false;
  matched_rules = [];
  confidence = 600_000;
  policy_snapshot_version = "v1";
  policy_verification_status = VerificationStatus.human_verified;
  pending_flags = "amount_official" ∷ [];
  evidence_refs = [];
  dept = none;
  filing_route = none;
  decided_at = none;
}

abbrev collecting : Project
collecting = record (project_at ProjectState.collecting_materials) {
  classification = some provisional;
}

abbrev start : Stores
start = record (stores_at ProjectState.draft) { projects = ("p1", collecting) ∷ [] }

-- the amount lies between the lines, so the tier becomes the second and is settled
abbrev second_tier : RecalcResult
second_tier = record { tier = Tier.t2; tier_provisional = false; changed = true; reason = none }

abbrev after : Stores
after = (recalc_tier "p1" "v2" published start).1

abbrev settled : RecalcResult
settled = record {
  tier = Tier.t2;
  tier_provisional = false;
  changed = false;
  reason = some "not_provisional";
}

first_run : recalc_tier "p1" "v2" published start ≡ (ok second_tier, after)
unfolding recalc_tier get_project lookup recalc_classified recalc_frozen
    film_compliance_agent.Schemas.Enums.States.ProjectState-discrete recalc_open record_event
    tier_changed film_compliance_agent.Schemas.Enums.States.Tier-discrete recalc_decision
    film_compliance_agent.Classify.D1c.judge_tier
    film_compliance_agent.Classify.D1c.key_drama_by_promotion
    film_compliance_agent.Classify.D1c.judge_by_amount
    film_compliance_agent.Classify.D1c.thresholds_published
    film_compliance_agent.Classify.D1c.ai_thresholds film_compliance_agent.Classify.D1c.is_usable
    film_compliance_agent.Classify.D1c.judge_by_bracket
    film_compliance_agent.Classify.D1c.from_bracket
    film_compliance_agent.Schemas.Enums.States.AmountBracket-discrete notify
first_run = refl

second_run : recalc_tier "p1" "v2" published after ≡ (ok settled, after)
unfolding recalc_tier get_project lookup recalc_classified recalc_frozen
    film_compliance_agent.Schemas.Enums.States.ProjectState-discrete recalc_open record_event
    tier_changed film_compliance_agent.Schemas.Enums.States.Tier-discrete recalc_decision
    film_compliance_agent.Classify.D1c.judge_tier
    film_compliance_agent.Classify.D1c.key_drama_by_promotion
    film_compliance_agent.Classify.D1c.judge_by_amount
    film_compliance_agent.Classify.D1c.thresholds_published
    film_compliance_agent.Classify.D1c.ai_thresholds film_compliance_agent.Classify.D1c.is_usable
    film_compliance_agent.Classify.D1c.judge_by_bracket
    film_compliance_agent.Classify.D1c.from_bracket
    film_compliance_agent.Schemas.Enums.States.AmountBracket-discrete insert notify recalculated
second_run = refl

found : lookup "p1" start.projects ≡ some collecting
unfolding lookup
found = refl

recalc_tier-ok_example :
    ((after ≡ start) × (second_tier.changed ≡ false))
    ⊎ IsRetiered "v2" published start after collecting second_tier
recalc_tier-ok_example =
    recalc_tier-ok "v2" published start after collecting "p1" second_tier found first_run

recalc_tier_again_example : settled.changed ≡ false
recalc_tier_again_example =
    recalc_tier_again "v2" published start after after collecting second_tier settled found
      first_run second_run
