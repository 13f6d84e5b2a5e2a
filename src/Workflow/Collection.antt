-- ===== src/Workflow/Collection.antt =====
-- core/workflow_service.py: the collection of materials.
pub mod Backing
use film_compliance_agent.Base.{
  ℕ, String, Bool, true, false, Option, none, some, List, [], ◌∷◌, ◌+++◌, is_empty, ◌==◌, not,
  string_eq, if◌then◌else◌,
}
use film_compliance_agent.Base.Dict.{lookup}
use film_compliance_agent.Base.Strip.{strip, is_blank_text}
use film_compliance_agent.Schemas.Enums.Review.{
  AssetKind, asset_kind_eq, asset_kind_value, MaterialStatus, material_status_value,
}
use film_compliance_agent.Schemas.Enums.Process.{Actor}
use film_compliance_agent.Schemas.Assets.{AssetVersion, MaterialCard}
use film_compliance_agent.Schemas.Json.{end, entry, str, strs}
use film_compliance_agent.Store.{Bytes, Stores}
use film_compliance_agent.Effects.{M, ◌>>=◌, ◌>>◌, pure, gets, raise_if}
use film_compliance_agent.Workflow.Core.{
  not_found, validation_failed, or_raise, put_material, record_event,
}
use film_compliance_agent.Workflow.Passage.{material_cards}

-- the first card with the identifier
abbrev pub card_named : String → List MaterialCard → Option MaterialCard
card_named material_id [] = none
card_named material_id (card ∷ cards) =
    if card.material_id == material_id then some card else card_named material_id cards

unfoldable pub get_material : String → String → M MaterialCard
unfolding not_found material_cards
get_material project_id material_id = do
  cards ← material_cards project_id
  or_raise
      (not_found ("material card not found: " +++ material_id)
        (entry "material_id" (str material_id) end))
      (card_named material_id cards)

abbrev pub attached : MaterialCard → String → MaterialCard
attached card asset_version = record card {
  asset_version = some asset_version;
  status = MaterialStatus.uploaded;
  invalid_reasons = [];
}

unfoldable pub attach_material : String → String → String → M MaterialCard
unfolding get_material not_found validation_failed record_event
attach_material project_id material_id asset_version = do
  card ← get_material project_id material_id
  found ← gets (λ w. lookup asset_version (w.assets project_id))
  asset ←
      or_raise
        (not_found ("asset version not found: " +++ asset_version)
          (entry "asset_version" (str asset_version) end))
        found
  raise_if (not (asset.kind == card.asset_kind)) (
      validation_failed "asset kind does not match material card" (
        entry "expected_kind" (str (asset_kind_value card.asset_kind))
          (entry "actual_kind" (str (asset_kind_value asset.kind)) end)))
  put_material project_id (attached card asset_version)
  event ←
      record_event project_id Actor.creator "material.attached"
        (entry "material_id" (str material_id) (entry "asset_version" (str asset_version) end))
  pure (attached card asset_version)

-- `not self._stores.blobs.get(uri)`
abbrev pub no_bytes : Option Bytes → Bool
no_bytes none = true
no_bytes (some bytes) = is_empty bytes

abbrev pub asset_defects : Option AssetVersion → Stores → List String
asset_defects none w = "asset_version_missing" ∷ []
asset_defects (some asset) w =
    if no_bytes (lookup asset.storage_uri w.blobs) then "stored_bytes_missing" ∷ [] else []

abbrev pub version_defects : String → Option String → Stores → List String
version_defects project_id none w = "no_asset_attached" ∷ []
version_defects project_id (some version) w = asset_defects (lookup version (w.assets project_id)) w

-- `_material_defects`
unfoldable pub material_defects : String → MaterialCard → Stores → List String
material_defects project_id card w = version_defects project_id card.asset_version w

abbrev pub validated : MaterialCard → List String → MaterialCard
validated card reasons = record card {
  status = if is_empty reasons then MaterialStatus.valid else MaterialStatus.invalid;
  invalid_reasons = reasons;
}

-- the writes of `validate_material`
unfoldable pub judge_material : String → String → MaterialCard → M MaterialCard
unfolding material_defects record_event
judge_material project_id material_id card = do
  reasons ← gets (material_defects project_id card)
  put_material project_id (validated card reasons)
  event ← record_event project_id Actor.system "material.validated" (
      entry "material_id" (str material_id) (
        entry "status" (str (material_status_value (validated card reasons).status))
          (entry "invalid_reasons" (strs reasons) end)))
  pure (validated card reasons)

unfoldable pub validate_material : String → String → M MaterialCard
unfolding get_material judge_material
validate_material project_id material_id = do
  card ← get_material project_id material_id
  judge_material project_id material_id card

abbrev pub waived : MaterialCard → String → MaterialCard
waived card reason = record card {
  status = MaterialStatus.waived;
  waive_reason = some (strip reason);
  invalid_reasons = [];
}

unfoldable pub waive_material : String → String → String → M MaterialCard
unfolding get_material validation_failed record_event
waive_material project_id material_id reason = do
  raise_if (is_blank_text (some reason)) (validation_failed "a waiver must carry a reason" end)
  card ← get_material project_id material_id
  put_material project_id (waived card reason)
  event ←
      record_event project_id Actor.creator "material.waived"
        (entry "material_id" (str material_id) (entry "reason" (str (strip reason)) end))
  pure (waived card reason)
