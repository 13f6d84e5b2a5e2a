-- ===== src/Workflow/Collection/Backing.antt =====
-- core/workflow_service.py: what stands behind a card that was validated.
use film_compliance_agent.Base.{
  String, true, false, Option, none, some, List, ◌≡◌, ◌↔◌, refl, is_empty, arith, string_eq,
}
use film_compliance_agent.Base.Dict.{lookup}
use film_compliance_agent.Schemas.Enums.Review.{MaterialStatus}
use film_compliance_agent.Schemas.Assets.{AssetVersion, MaterialCard}
use film_compliance_agent.Errors.{ok}
use film_compliance_agent.Store.{Stores}
use film_compliance_agent.Effects.{Env, bind-ok, now, new_id}
use film_compliance_agent.Workflow.Core.{record_event}
use film_compliance_agent.Workflow.Collection.{
  validated, no_bytes, asset_defects, version_defects, material_defects, get_material,
  judge_material, validate_material,
}

validated_iff :
    (card : MaterialCard) (reasons : List String)
    → ((validated card reasons).status ≡ MaterialStatus.valid) ↔ (is_empty reasons ≡ true)
validated_iff card reasons = ground arith

module _ (project_id : String) where
  -- an asset of the project, with bytes in the store
  abbrev pub HasBytes : Option String → Stores → Type 0
  HasBytes attached w =
      (version : String) × (asset : AssetVersion) × (attached ≡ some version)
      × (lookup version (w.assets project_id) ≡ some asset)
      × (no_bytes (lookup asset.storage_uri w.blobs) ≡ false)

  abbrev pub IsBacked : MaterialCard → Stores → Type 0
  IsBacked card = HasBytes card.asset_version

  asset_defects_iff :
      (version : String) (found : Option AssetVersion) (w : Stores)
      → lookup version (w.assets project_id) ≡ found
      → (is_empty (asset_defects found w) ≡ true) ↔ HasBytes (some version) w
  asset_defects_iff version none w e = (λ h. cc, λ b. let (v, asset, same, found, bytes) = b in cc)
  asset_defects_iff version (some asset) w e = (
    λ h. (version, asset, refl, e, ground arith),
    λ b. let (v, other, same, found, bytes) = b in ground arith,
  )

  version_defects_iff :
      (attached : Option String) (w : Stores)
      → (is_empty (version_defects project_id attached w) ≡ true) ↔ HasBytes attached w
  version_defects_iff none w = (λ h. cc, λ b. let (v, asset, same, found, bytes) = b in cc)
  version_defects_iff (some version) w =
      asset_defects_iff version (lookup version (w.assets project_id)) w refl

  module _ (material_id : String) (env : Env) where
    judge_material-valid_iff :
        (given card : MaterialCard) (w w' : Stores)
        → judge_material project_id material_id given env w ≡ (ok card, w')
        → (card.status ≡ MaterialStatus.valid) ↔ IsBacked card w'
    unfolding judge_material material_defects record_event now new_id
    judge_material-valid_iff given card w w' h =
        let made : card ≡ validated given (version_defects project_id given.asset_version w) = cc in
        let assets : w'.assets ≡ w.assets = cc in
        let blobs : w'.blobs ≡ w.blobs = cc in
        let judged = validated_iff given (version_defects project_id given.asset_version w) in
        let backed = version_defects_iff given.asset_version w in
        (
          λ v. rw (made, assets, blobs) (backed.0 (judged.0 (rw made at v))),
          λ b. rw made (judged.1 (backed.1 (rw (made, assets, blobs) at b))),
        )

    -- A card that a validation returns is valid exactly when an asset of the project is attached to
    -- it whose bytes are in the store and are not empty.
    pub validate_material-valid_iff :
        (card : MaterialCard) (w w' : Stores)
        → validate_material project_id material_id env w ≡ (ok card, w')
        → (card.status ≡ MaterialStatus.valid) ↔ IsBacked card w'
    unfolding validate_material
    validate_material-valid_iff card w w' h =
        let (given, w₁, read, judged) =
          bind-ok (get_material project_id material_id) _ env w w' card h in
        judge_material-valid_iff given card w₁ w' judged
