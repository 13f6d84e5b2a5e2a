-- ===== src/Forms.antt =====
-- core/forms.py: the fields of a form draft, its hash, and the keys that hold it shut.
pub mod Grouping
pub mod Fields
pub mod Agreement
pub mod Digest
use film_compliance_agent.Base.{
  Bool, true, false, String, Option, none, some, List, [], ◌∷◌, ◌++◌, map, keep, any, is_empty,
  last, not, ◌&&◌, ◌||◌, ◌==◌, string_eq, if◌then◌else◌,
}
use film_compliance_agent.Base.Dict.{Dict, lookup, insert, keys}
use film_compliance_agent.Base.Sorting.{sorted, sort_items}
use film_compliance_agent.Schemas.Enums.Review.{
  FactStatus, fact_status_eq, FieldStatus, field_status_eq, field_status_value,
  source_ref_type_value,
}
use film_compliance_agent.Schemas.Common.{Fact, SourceRef, Value}
use film_compliance_agent.Schemas.Forms.{FormField, FormConflict, FormDraft, form_field_ok}
use film_compliance_agent.Errors.{Error, invalid_document, Result, ok, err, require, ◌>>=◌, ◌>>◌}

abbrev pub or_empty {ℓ} : {A : Type ℓ} → Option (List A) → List A
or_empty none = []
or_empty (some xs) = xs

-- `for fact in facts: by_key.setdefault(fact.key, []).append(fact)`
unfoldable pub group_by_key : Dict String (List Fact) → List Fact → Dict String (List Fact)
group_by_key by_key [] = by_key
group_by_key by_key (f ∷ fs) =
    group_by_key (insert f.key (or_empty (lookup f.key by_key) ++ f ∷ []) by_key) fs

-- the three lists of candidates of one status
abbrev pub of_status : FactStatus → List Fact → List Fact
of_status s = keep (λ f. f.status == s)

abbrev pub bare_field : FieldStatus → Option SourceRef → FormField
bare_field s source = record {
  value = none;
  source_ref = source;
  status = s;
  confirmed_at = none;
  override_reason = none;
}

-- a field whose document model accepts it
abbrev pub checked_field : FormField → Result FormField
checked_field f = require (form_field_ok f) invalid_document >> ok f

abbrev pub filled_field : Fact → FormField
filled_field latest = record (bare_field FieldStatus.filled (some latest.source_ref)) {
  value = latest.value;
}

abbrev pub deferred_field : Fact → FormField
deferred_field latest = bare_field FieldStatus.pending_institution (some latest.source_ref)

-- the field of one key, from the candidates for it
unfoldable pub render_field : List Fact → Result FormField
render_field candidates =
    if not (is_empty (of_status FactStatus.conflict candidates))
    then ok (bare_field FieldStatus.conflict none)
    else elim (last (of_status FactStatus.confirmed candidates)) [
      | some latest ↦ checked_field (filled_field latest)
      | none ↦ elim (last (of_status FactStatus.pending_institution candidates)) [
        | some latest ↦ ok (deferred_field latest)
        | none ↦ ok (bare_field FieldStatus.pending none)
      ]
    ]

abbrev pub conflicts_of : String → List Fact → List FormConflict
conflicts_of key candidates =
    if not (is_empty (of_status FactStatus.conflict candidates))
    then record {
      check = "facts_conflicting";
      message_key = "form.conflict.facts";
      items = key ∷ [];
    }
      ∷ []
    else []

-- the loop over the keys of the form
unfoldable pub fill_fields :
    Dict String (List Fact)
    → List String
    → Dict String FormField
    → List FormConflict
    → Result (Dict String FormField × List FormConflict)
fill_fields by_key [] fields conflicts = ok (fields, conflicts)
fill_fields by_key (key ∷ rest) fields conflicts = do
  field ← render_field (or_empty (lookup key by_key))
  fill_fields by_key rest (insert key field fields)
      (conflicts ++ conflicts_of key (or_empty (lookup key by_key)))

unfoldable pub build_fields :
    List String → List Fact → Result (Dict String FormField × List FormConflict)
build_fields fact_keys facts = fill_fields (group_by_key [] facts) fact_keys [] []

-- `_source_key`: every component of a source but the order of its keys
pub record SourceKey : Type 0 where
  pub type : String
  pub asset_version : Option String
  pub locator : Option String
  pub answer_id : Option String
  pub institution_id : Option String

unfoldable pub source_key : Option SourceRef → Option SourceKey
source_key none = none
source_key (some r) = some (record {
  type = source_ref_type_value r.type;
  asset_version = r.asset_version;
  locator = r.locator;
  answer_id = r.answer_id;
  institution_id = r.institution_id;
})

pub record FieldPayload : Type 0 where
  pub value : Option Value
  pub status : String
  pub source : Option SourceKey

-- the payload that `draft_hash` serialises
pub record Payload : Type 0 where
  pub form_type : String
  pub snapshot_version : String
  pub fields : Dict String FieldPayload

abbrev pub field_payload : FormField → FieldPayload
field_payload f = record {
  value = f.value;
  status = field_status_value f.status;
  source = source_key f.source_ref;
}

unfoldable pub draft_payload : FormDraft → Payload
draft_payload d = record {
  form_type = d.form_type;
  snapshot_version = d.snapshot_version;
  fields = map (λ e. (e.0, field_payload e.1)) (sort_items d.fields);
}

-- `digest` stands for the SHA-256 of the canonical JSON text of a payload.
unfoldable pub draft_hash : (Payload → String) → FormDraft → String
draft_hash digest d = digest (draft_payload d)

unfoldable pub holds_shut : FormField → Bool
holds_shut f = not (f.status == FieldStatus.filled || f.status == FieldStatus.pending_institution)

unfoldable pub pending_keys : FormDraft → List String
pending_keys d = sorted (keys (keep (λ e. holds_shut e.1) d.fields))

unfoldable pub deferred_keys : FormDraft → List String
deferred_keys d = sorted (keys (keep (λ e. e.1.status == FieldStatus.pending_institution) d.fields))
