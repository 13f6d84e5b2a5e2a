-- ===== src/Forms/Digest.antt =====
-- What the hash of a draft vouches for.
use film_compliance_agent.Base.{
  String, ◌==◌, if◌then◌else◌, Option, none, some, [], ◌∷◌, map, ◌≡◌, refl, string_eq, arith, ap,
  ◌∙◌, sym,
}
use film_compliance_agent.Base.Dict.{Dict, lookup}
use film_compliance_agent.Base.Sorting.{sort_items, lookup-sort_items}
use film_compliance_agent.Schemas.Forms.{FormField, FormDraft}
use film_compliance_agent.Schemas.Common.{SourceRef}
use film_compliance_agent.Schemas.Enums.Review.{
  FieldStatus, field_status_value, SourceRefType, source_ref_type_value,
}
use film_compliance_agent.Forms.{
  FieldPayload, Payload, source_key, field_payload, draft_payload, draft_hash,
}

-- the payload that a draft shows for a key
abbrev shown_field : Option FormField → Option FieldPayload
shown_field none = none
shown_field (some f) = some (field_payload f)

abbrev shown : FormDraft → String → Option FieldPayload
shown d key = shown_field (lookup key d.fields)

lookup-payload :
    (key : String) (l : Dict String FormField)
    → lookup key (map (λ e. (e.0, field_payload e.1)) l) ≡ shown_field (lookup key l)
unfolding lookup
lookup-payload key [] = refl
lookup-payload key ((k, f) ∷ l) = ground (arith, lookup-payload key l)

shown-payload : (d : FormDraft) (key : String) → shown d key ≡ lookup key (draft_payload d).fields
unfolding draft_payload
shown-payload d key = rw (lookup-payload key (sort_items d.fields), lookup-sort_items key d.fields)

-- two fields, or their absence, agree in their value, status and source
abbrev pub SameField : Option FormField → Option FormField → Type 0
SameField none none = Unit {0}
SameField none (some g) = ⊥
SameField (some f) none = ⊥
SameField (some f) (some g) =
    (f.value ≡ g.value) × (f.status ≡ g.status) × (f.source_ref ≡ g.source_ref)

-- the member that a text names
abbrev status_named : String → FieldStatus
status_named text =
    if text == "filled"
    then FieldStatus.filled
    else if text == "pending"
    then FieldStatus.pending
    else if text == "conflict"
    then FieldStatus.conflict
    else FieldStatus.pending_institution

status_named-field_status_value : (s : FieldStatus) → status_named (field_status_value s) ≡ s
unfolding field_status_value
status_named-field_status_value FieldStatus.filled = refl
status_named-field_status_value FieldStatus.pending = refl
status_named-field_status_value FieldStatus.conflict = refl
status_named-field_status_value FieldStatus.pending_institution = refl

abbrev type_named : String → SourceRefType
type_named text =
    if text == "asset"
    then SourceRefType.asset
    else if text == "user_answer"
    then SourceRefType.user_answer
    else SourceRefType.institution

type_named-source_ref_type_value : (s : SourceRefType) → type_named (source_ref_type_value s) ≡ s
unfolding source_ref_type_value
type_named-source_ref_type_value SourceRefType.asset = refl
type_named-source_ref_type_value SourceRefType.user_answer = refl
type_named-source_ref_type_value SourceRefType.institution = refl

field_status_of_value : (s t : FieldStatus) → field_status_value s ≡ field_status_value t → s ≡ t
field_status_of_value s t h =
    sym (status_named-field_status_value s) ∙ ap status_named h ∙ status_named-field_status_value t

source_type_of_value :
    (s t : SourceRefType) → source_ref_type_value s ≡ source_ref_type_value t → s ≡ t
source_type_of_value s t h =
    sym (type_named-source_ref_type_value s) ∙ ap type_named h ∙ type_named-source_ref_type_value t

source_of_key : (r s : Option SourceRef) → source_key r ≡ source_key s → r ≡ s
unfolding source_key
source_of_key none none h = refl
source_of_key none (some s) h = absurd (cc)
source_of_key (some r) none h = absurd (cc)
source_of_key (some r) (some s) h =
    let a : source_ref_type_value r.type ≡ source_ref_type_value s.type = cc in
    let type : r.type ≡ s.type = source_type_of_value r.type s.type a in
    let b : r.asset_version ≡ s.asset_version = cc in
    let c : r.locator ≡ s.locator = cc in
    let d : r.answer_id ≡ s.answer_id = cc in let e : r.institution_id ≡ s.institution_id = cc in cc

same_field :
    (f g : Option FormField)
    → ◌≡◌ {A = Option FieldPayload} (shown_field f) (shown_field g)
    → SameField f g
same_field none none h = tt
same_field none (some g) h = absurd (cc)
same_field (some f) none h = absurd (cc)
same_field (some f) (some g) h =
    let same : field_payload f ≡ field_payload g = cc in
    (
      ap (λ x. x.value) same,
      field_status_of_value f.status g.status (ap (λ x. x.status) same),
      source_of_key f.source_ref g.source_ref (ap (λ x. x.source) same),
    )

-- If the digest does not collide on the payloads of two drafts and they have one hash, they show,
-- for every key, the same value, status and source, under the same form type and the same policy
-- snapshot.
pub draft_hash_injective :
    (digest : Payload → String)
    → (c d : FormDraft)
    → (digest (draft_payload c) ≡ digest (draft_payload d) → draft_payload c ≡ draft_payload d)
    → draft_hash digest c ≡ draft_hash digest d
    → (c.form_type ≡ d.form_type)
      × (c.snapshot_version ≡ d.snapshot_version)
      × ((key : String) → SameField (lookup key c.fields) (lookup key d.fields))
unfolding draft_hash
draft_hash_injective digest c d no_collision h =
    let same = no_collision h in
    (
      unfold draft_payload in ap (λ x. x.form_type) same,
      unfold draft_payload in ap (λ x. x.snapshot_version) same,
      λ key.
          same_field (lookup key c.fields) (lookup key d.fields)
            (shown-payload c key ∙ ap (λ x. lookup key x.fields) same ∙ sym (shown-payload d key)),
    )
