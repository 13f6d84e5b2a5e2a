-- ===== src/Classify/D1c/Amounts.antt =====
-- Amounts and brackets: they give one tier, and a larger amount never gives a lighter class.
use film_compliance_agent.Base.{
  ℕ, ◌≤◌, Bool, true, Option, none, some, ◌≡◌, arith, leb, if◌then◌else◌,
}
use film_compliance_agent.Schemas.Enums.States.{Tier, AmountBracket}
use film_compliance_agent.Schemas.Policy.{Thresholds, TierPack}
use film_compliance_agent.Classify.D1c.{
  thresholds_published, tier_from_amount, is_usable, from_bracket, ai_thresholds,
  key_drama_by_promotion, from_amount, judge_by_bracket, judge_by_amount, judge_tier,
}

-- the bracket in which an amount lies, as the interface states it
abbrev pub bracket_of : ℕ → ℕ → ℕ → AmountBracket
bracket_of lower upper amount =
    if leb upper amount
    then AmountBracket.at_or_above_upper
    else if leb lower amount
    then AmountBracket.between
    else AmountBracket.below_lower

-- With official thresholds that have a lower and an upper line, the exact amount and the bracket in
-- which it lies give one tier.
pub judge_tier-bracket_of :
    (pack3 : TierPack) (snapshot : Option Bool) (lower upper amount : ℕ) (claimed : AmountBracket)
    → thresholds_published pack3 snapshot ≡ true
    → (ai_thresholds pack3).t2_min_rmb ≡ some lower
    → (ai_thresholds pack3).t1_min_rmb ≡ some upper
    → (judge_tier claimed pack3 snapshot (some amount) none none).tier
      ≡ (judge_tier (bracket_of lower upper amount) pack3 snapshot none none none).tier
unfolding judge_tier key_drama_by_promotion judge_by_amount judge_by_bracket from_bracket
    from_amount tier_from_amount is_usable
judge_tier-bracket_of pack3 snapshot lower upper amount claimed p l u = ground arith

-- the weight of a class: one-class is the heaviest
abbrev pub weight : Option Tier → ℕ
weight none = 0
weight (some Tier.undetermined) = 0
weight (some Tier.t3) = 1
weight (some Tier.t2) = 2
weight (some Tier.t1) = 3

-- A larger amount never gets a lighter class, whichever thresholds are set.
pub tier_from_amount_mono :
    (t : Thresholds) (a b : ℕ)
    → a ≤ b
    → weight (tier_from_amount a t) ≤ weight (tier_from_amount b t)
unfolding tier_from_amount
tier_from_amount_mono t a b h = ground arith
