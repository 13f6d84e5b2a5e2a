-- ===== src/Schemas/Assets.antt =====
-- schemas/assets.py: uploaded asset versions, material cards and upload tickets.
use film_compliance_agent.Base.{String, Bool, Option, List}
use film_compliance_agent.Schemas.Enums.Review.{AssetKind, MaterialStatus}
use film_compliance_agent.Schemas.Common.{Time, EvidenceRef}

pub record AssetVersion : Type 0 where
  pub version_id : String
  pub kind : AssetKind
  pub storage_uri : String
  pub text_storage_uri : Option String
  pub sha256 : String
  pub parent_version : Option String
  pub diff_summary : Option String
  pub uploaded_by : String
  pub created_at : Time

pub record MaterialCard : Type 0 where
  pub material_id : String
  pub name_key : String
  pub asset_kind : AssetKind
  pub required : Bool
  pub why_clause : Option EvidenceRef
  pub template_uri : Option String
  pub common_rejects_key : Option String
  pub status : MaterialStatus
  pub asset_version : Option String
  pub invalid_reasons : List String
  pub waive_reason : Option String

pub record UploadTicket : Type 0 where
  pub ticket_id : String
  pub project_id : String
  pub kind : AssetKind
  pub storage_uri : String
  pub issued_to : String
  pub filename : Option String
  pub consumed : Bool
  pub created_at : Time
