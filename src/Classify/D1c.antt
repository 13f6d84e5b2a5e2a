-- ===== src/Classify/D1c.antt =====
-- core/classify/d1c.py: the tier of a project, from its amount or its amount bracket.
pub mod Settled
pub mod Amounts
use film_compliance_agent.Base.{
  ℕ, Bool, true, false, String, Option, none, some, List, [], ◌∷◌, ◌++◌, map, contains, is_none,
  is_empty, not, ◌&&◌, ◌||◌, ◌==◌, leb, nat_eq, string_eq, if◌then◌else◌,
}
use film_compliance_agent.Base.Dict.{Dict, lookup}
use film_compliance_agent.Schemas.Enums.States.{
  Tier, tier_value, AmountBracket, amount_bracket_eq, amount_bracket_value,
}
use film_compliance_agent.Schemas.Workflow.{truthy}
use film_compliance_agent.Schemas.Policy.{Thresholds, TierPack}

-- `BRACKET_TIER`, which has no entry for `UNKNOWN` and is never read there: the value that the
-- function gives at `unknown` is not used
abbrev pub bracket_tier : AmountBracket → Tier
bracket_tier AmountBracket.at_or_above_upper = Tier.t1
bracket_tier AmountBracket.between = Tier.t2
bracket_tier AmountBracket.below_lower = Tier.t3
bracket_tier AmountBracket.unknown = Tier.undetermined

abbrev pub stricter_assumption : Tier
stricter_assumption = Tier.t2

pub record TierDecision : Type 0 where
  pub tier : Tier
  pub tier_provisional : Bool
  pub pending_flags : List String
  pub reasons : List String
  pub comparison_card : List (String × String)
  pub clause_ref : Option String

-- `_thresholds_published`: the first key of `PUBLISHED_KEYS` that the pack has, else what the
-- snapshot says
unfoldable pub thresholds_published : TierPack → Option Bool → Bool
thresholds_published pack3 snapshot = elim pack3.thresholds_published [
  | some b ↦ b
  | none ↦ elim pack3.official_published [ some b ↦ b | none ↦ truthy snapshot ]
]

-- an amount that equals a threshold which the pack has and calls disputed
abbrev pub hits : ℕ → Option ℕ → Bool → Bool
hits amount none disputed = false
hits amount (some t) disputed = disputed && nat_eq amount t

unfoldable pub on_threshold_boundary : ℕ → Thresholds → Bool
on_threshold_boundary amount t =
    hits amount t.t1_min_rmb (contains t.disputed_boundaries "T1_min_rmb")
    || hits amount t.t2_min_rmb (contains t.disputed_boundaries "T2_min_rmb")

-- `min is not None and amount >= min`
abbrev pub reaches : ℕ → Option ℕ → Bool
reaches amount none = false
reaches amount (some t) = leb t amount

unfoldable pub tier_from_amount : ℕ → Thresholds → Option Tier
tier_from_amount amount t =
    if reaches amount t.t1_min_rmb
    then some Tier.t1
    else if reaches amount t.t2_min_rmb
    then some Tier.t2
    else if not (is_none t.t1_min_rmb) || not (is_none t.t2_min_rmb)
    then some Tier.t3
    else none

-- the truth value of a threshold mapping: an empty one is false
unfoldable pub is_usable : Thresholds → Bool
is_usable t =
    not (is_none t.t1_min_rmb)
    || not (is_none t.t2_min_rmb)
    || not (is_empty t.disputed_boundaries)
    || not (is_none t.clause_ref)
    || t.other_keys

abbrev pub comparison_rows : List (String × String)
comparison_rows =
    (tier_value Tier.t1, amount_bracket_value AmountBracket.at_or_above_upper)
    ∷ (tier_value Tier.t2, amount_bracket_value AmountBracket.between)
    ∷ (tier_value Tier.t3, amount_bracket_value AmountBracket.below_lower)
    ∷ []

unfoldable pub from_bracket : AmountBracket → Thresholds → Bool → List String → TierDecision
from_bracket bracket thresholds settled pending_flags =
    if bracket == AmountBracket.unknown
    then record {
      tier = stricter_assumption;
      tier_provisional = true;
      pending_flags = "budget_unknown" ∷ pending_flags;
      reasons = "tier.assumed_stricter_pending_budget" ∷ [];
      comparison_card = comparison_rows;
      clause_ref = none;
    }
    else record {
      tier = bracket_tier bracket;
      tier_provisional = not settled;
      pending_flags = pending_flags;
      reasons =
          (if settled then "tier.from_bracket" else "tier.provisional_missing_exact_inputs") ∷ [];
      comparison_card = [];
      clause_ref = if settled then thresholds.clause_ref else none;
    }

abbrev pub no_thresholds : Thresholds
no_thresholds = record {
  t1_min_rmb = none;
  t2_min_rmb = none;
  disputed_boundaries = [];
  clause_ref = none;
  other_keys = false;
}

abbrev pub or_no_thresholds : Option Thresholds → Thresholds
or_no_thresholds none = no_thresholds
or_no_thresholds (some t) = t

-- `_ai_thresholds`
unfoldable pub ai_thresholds : TierPack → Thresholds
ai_thresholds pack3 =
    if is_empty pack3.threshold_sets
    then or_no_thresholds pack3.thresholds
    else or_no_thresholds (lookup "ai_generated" pack3.threshold_sets)

unfoldable pub key_drama_by_promotion : Option Bool → Option Bool → Option String
key_drama_by_promotion platform_promoted voluntary_key_declaration =
    if truthy voluntary_key_declaration
    then some "tier.voluntary_key_declaration"
    else if truthy platform_promoted
    then some "tier.platform_promoted"
    else none

-- the decision from an amount and the tier that the thresholds give it
unfoldable pub from_amount : ℕ → Thresholds → Tier → TierDecision
from_amount amount thresholds tier =
    let boundary = on_threshold_boundary amount thresholds in
    record {
      tier = tier;
      tier_provisional = boundary;
      pending_flags = if boundary then "threshold_boundary_disputed" ∷ [] else [];
      reasons =
          "tier.from_official_thresholds"
          ∷ (if boundary then "tier.on_threshold_boundary" ∷ [] else []);
      comparison_card = [];
      clause_ref = thresholds.clause_ref;
    }

-- what is left of `judge_tier` where no amount decided
unfoldable pub judge_by_bracket : AmountBracket → Thresholds → Bool → Option ℕ → TierDecision
judge_by_bracket bracket thresholds published amount =
    if published && is_none amount
    then from_bracket bracket thresholds (is_usable thresholds) ("amount_required" ∷ [])
    else if published
    then from_bracket bracket thresholds false ("thresholds_unavailable" ∷ [])
    else from_bracket bracket thresholds false ("amount_official" ∷ [])

unfoldable pub judge_by_amount : AmountBracket → Thresholds → Bool → Option ℕ → TierDecision
judge_by_amount bracket thresholds published none =
    judge_by_bracket bracket thresholds published none
judge_by_amount bracket thresholds published (some amount) =
    if published && is_usable thresholds
    then elim (tier_from_amount amount thresholds) [
      | some tier ↦ from_amount amount thresholds tier
      | none ↦ judge_by_bracket bracket thresholds published (some amount)
    ]
    else judge_by_bracket bracket thresholds published (some amount)

unfoldable pub judge_tier :
    AmountBracket → TierPack → Option Bool → Option ℕ → Option Bool → Option Bool → TierDecision
judge_tier bracket pack3 snapshot amount platform_promoted voluntary_key_declaration =
    elim (key_drama_by_promotion platform_promoted voluntary_key_declaration) [
      | some promotion ↦ record {
        tier = Tier.t1;
        tier_provisional = false;
        pending_flags = [];
        reasons = "tier.key_drama_by_condition" ∷ promotion ∷ [];
        comparison_card = [];
        clause_ref = (ai_thresholds pack3).clause_ref;
      }
      | none ↦
          judge_by_amount bracket (ai_thresholds pack3) (thresholds_published pack3 snapshot) amount
    ]
