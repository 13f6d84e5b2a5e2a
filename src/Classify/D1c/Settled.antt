-- ===== src/Classify/D1c/Settled.antt =====
-- When a tier is settled rather than provisional.
use film_compliance_agent.Base.{ℕ, Bool, true, false, Option, none, some, ◌≡◌, ◌≢◌, ◌⊎◌, ◌↔◌, arith}
use film_compliance_agent.Schemas.Enums.States.{AmountBracket}
use film_compliance_agent.Schemas.Workflow.{truthy}
use film_compliance_agent.Schemas.Policy.{Thresholds, TierPack}
use film_compliance_agent.Classify.D1c.{
  thresholds_published, on_threshold_boundary, tier_from_amount, is_usable, from_bracket,
  ai_thresholds, key_drama_by_promotion, from_amount, judge_by_bracket, judge_by_amount, judge_tier,
}

-- the amount settles the tier: the thresholds place it, off every disputed boundary
abbrev pub ByAmount : Thresholds → ℕ → Type 0
ByAmount t amount = (tier_from_amount amount t ≢ none) × (on_threshold_boundary amount t ≡ false)

-- the amount, or where there is none the bracket, settles the tier
abbrev pub ByBudget : Thresholds → AmountBracket → Option ℕ → Type 0
ByBudget t bracket none = bracket ≢ AmountBracket.unknown
ByBudget t bracket (some amount) = ByAmount t amount

ByBudget-iff :
    (bracket : AmountBracket) (t : Thresholds) (published : Bool) (amount : Option ℕ)
    → ((judge_by_amount bracket t published amount).tier_provisional ≡ false)
      ↔ ((published ≡ true) × (is_usable t ≡ true) × ByBudget t bracket amount)
unfolding judge_by_amount judge_by_bracket from_bracket from_amount
ByBudget-iff bracket t published none = ground arith
ByBudget-iff bracket t published (some amount) = ground arith

-- A tier is settled exactly when the project is promoted or declared a key drama, or the official
-- thresholds are published and usable and either the amount lies off every disputed boundary or,
-- with no amount, the bracket is known.
pub settled_iff :
    (bracket : AmountBracket) (pack3 : TierPack) (snapshot : Option Bool) (amount : Option ℕ)
    (promoted declared : Option Bool)
    → ((judge_tier bracket pack3 snapshot amount promoted declared).tier_provisional ≡ false) ↔ (
        (truthy declared ≡ true)
        ⊎ ((truthy promoted ≡ true)
            ⊎ ((thresholds_published pack3 snapshot ≡ true)
                × (is_usable (ai_thresholds pack3) ≡ true)
                × ByBudget (ai_thresholds pack3) bracket amount)))
unfolding judge_tier key_drama_by_promotion
settled_iff bracket pack3 snapshot amount promoted declared =
    ground (
      arith,
      ByBudget-iff bracket (ai_thresholds pack3) (thresholds_published pack3 snapshot) amount,
    )
