-- ===== src/Schemas/Policy.antt =====
-- The policy packs that the workflow reads, each YAML mapping as a record whose keys may be absent.
-- A list that is absent reads as the empty one, as the code's `or []` has it.
use film_compliance_agent.Base.{ℕ, String, Bool, Option, List}
use film_compliance_agent.Base.Dict.{Dict}

-- one raw entry of `material_cards` of the pack `p5_form_templates` (core/materials.py)
pub record RawCard : Type 0 where
  pub material_id : Option String
  pub name_key : Option String
  pub asset_kind : Option String
  pub required : Option Bool
  pub why_clause_id : Option String
  pub template_uri : Option String
  pub common_rejects_key : Option String

pub record FormPack : Type 0 where
  pub required_facts : List String
  pub material_cards : List RawCard

-- one threshold set of the pack `p3_tier_thresholds`; `other_keys` tells whether the mapping has
-- keys that the code does not read, which make it truthy
pub record Thresholds : Type 0 where
  pub t1_min_rmb : Option ℕ
  pub t2_min_rmb : Option ℕ
  pub disputed_boundaries : List String
  pub clause_ref : Option String
  pub other_keys : Bool

pub record TierPack : Type 0 where
  pub thresholds_published : Option Bool
  pub official_published : Option Bool
  pub threshold_sets : Dict String Thresholds
  pub thresholds : Option Thresholds

-- the pack `p1_form_definition`
pub record FormDefinitionPack : Type 0 where
  pub episode_max_minutes_exclusive : Option ℕ
  pub episode_max_minutes : Option ℕ
  pub min_episodes : Option ℕ
  pub clause_ref : Option String

-- the pack `p4_process_templates`, as core/roadmap.py reads it
pub record RawStep : Type 0 where
  pub name : Option String
  pub owner : Option String
  pub material_refs : List String
  pub est_weeks : Option ℕ

pub record ProcessPack : Type 0 where
  pub templates : Dict String (List RawStep)
