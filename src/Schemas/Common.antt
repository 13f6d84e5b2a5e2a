-- ===== src/Schemas/Common.antt =====
-- schemas/common.py: provenance, evidence, audit entries, timeline events and facts.
-- A point in time is a number. A number in a fact is counted in millionths, so that Python's
-- `1 == 1.0` is equality here; fact values that are negative are left out.
use film_compliance_agent.Base.{
  ℕ, String, Bool, true, false, ◌&&◌, not, Option, ◌≡◌, ◌↔◌, arith, Comparable, ◌==◌, nat_eq,
  nat_eq_iff, is_blank, is_none, string_iff, string_eq,
}
use film_compliance_agent.Schemas.Enums.Review.{
  SourceRefType, FactStatus, source_ref_type_eq, fact_status_eq,
}
use film_compliance_agent.Schemas.Enums.States.{Regime}
use film_compliance_agent.Schemas.Enums.Process.{Actor}
use film_compliance_agent.Schemas.Json.{Detail}

abbrev pub Time : Type 0
Time = ℕ

pub record SourceRef : Type 0 where
  pub type : SourceRefType
  pub asset_version : Option String
  pub locator : Option String
  pub answer_id : Option String
  pub institution_id : Option String

-- `validate_reference_target`
unfoldable pub source_ref_ok : SourceRef → Bool
source_ref_ok r =
    not (r.type == SourceRefType.asset && is_blank r.asset_version)
    && not (r.type == SourceRefType.user_answer && is_blank r.answer_id)

pub record EvidenceRef : Type 0 where
  pub snapshot_version : String
  pub clause_id : String
  pub regime : Regime

pub record AuditEntry : Type 0 where
  pub at : Time
  pub actor : Actor
  pub from_state : String
  pub to_state : String
  pub reason : String
  pub detail : Detail

pub record TimelineEvent : Type 0 where
  pub event_id : String
  pub at : Time
  pub actor : Actor
  pub event : String
  pub detail : Detail

-- `str | int | float`
pub data Value : Type 0 where
  text : String → Value
  number : ℕ → Value

abbrev pub value_beq : Value → Value → Bool
value_beq (text s) (text t) = s == t
value_beq (number a) (number b) = nat_eq a b
value_beq _ _ = false

pub value_beq_iff : (a b : Value) → (value_beq a b ≡ true) ↔ (a ≡ b)
value_beq_iff (text s) (text t) = ground (arith, string_iff s t)
value_beq_iff (number a) (number b) = ground (arith, nat_eq_iff a b)
value_beq_iff (text s) (number b) = (λ h. cc, λ p. cc)
value_beq_iff (number a) (text t) = (λ h. cc, λ p. cc)

instance abbrev pub value_eq : Comparable Value
value_eq = record { same_as = value_beq; same_iff = value_beq_iff }

pub record Fact : Type 0 where
  pub fact_id : String
  pub key : String
  pub value : Option Value
  pub source_ref : SourceRef
  pub status : FactStatus
  pub conflicts_with : Option String
  pub created_at : Option Time

-- `validate_unknown_value`
unfoldable pub fact_ok : Fact → Bool
fact_ok f = not (is_none f.value && f.status == FactStatus.confirmed)
