-- ===== src/Schemas/Forms.antt =====
-- schemas/forms.py: form fields, conflicts and drafts.
use film_compliance_agent.Base.{
  String, Bool, Option, none, some, List, not, ◌&&◌, ◌||◌, ◌==◌, is_none, is_blank, true, false,
  string_eq,
}
use film_compliance_agent.Base.Dict.{Dict}
use film_compliance_agent.Schemas.Enums.Review.{FieldStatus, field_status_eq}
use film_compliance_agent.Schemas.Common.{Time, SourceRef, Value, text, number}

pub record FormField : Type 0 where
  pub value : Option Value
  pub source_ref : Option SourceRef
  pub status : FieldStatus
  pub confirmed_at : Option Time
  pub override_reason : Option String

-- `value in (None, "")`
abbrev pub no_value : Option Value → Bool
no_value none = true
no_value (some (text s)) = s == ""
no_value (some (number _)) = false

-- `enforce_source_rule`
unfoldable pub form_field_ok : FormField → Bool
form_field_ok f = not (f.status == FieldStatus.filled && (no_value f.value || is_none f.source_ref))

pub record FormConflict : Type 0 where
  pub check : String
  pub message_key : String
  pub items : List String

pub record FormDraft : Type 0 where
  pub draft_id : String
  pub form_type : String
  pub frozen : Bool
  pub fields : Dict String FormField
  pub conflicts : List FormConflict
  pub hash : Option String
  pub snapshot_version : String
  pub confirmed_by_user_at : Option Time
  pub parent_draft : Option String
  pub created_at : Option Time

-- `validate_freeze`
unfoldable pub form_draft_ok : FormDraft → Bool
form_draft_ok d = not (d.frozen && is_blank d.hash)
