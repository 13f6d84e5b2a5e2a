-- ===== src/Institution/Licences.antt =====
-- core/institution.py: when the mock licence check passes.
use film_compliance_agent.Base.{String, true, false, Option, none, some, ◌≡◌, ◌↔◌, refl, leb, arith}
use film_compliance_agent.Schemas.Workflow.{MockInstitution, license_valid}
use film_compliance_agent.Institution.{min_capital_rmb, check_licence}

-- known to the registry, with enough capital and no foreign investment
pub record IsEligible (institution : Option MockInstitution) : Type 0 where
  pub known :
      (i : MockInstitution) × (institution ≡ some i)
      × (leb min_capital_rmb i.registered_capital_rmb ≡ true)
      × (i.has_foreign ≡ false)

-- The check passes exactly when the registry knows the institution, its capital reaches the
-- threshold and it has no foreign investment.
pub check_licence-valid_iff :
    (institution_id : String) (institution : Option MockInstitution)
    → (license_valid (check_licence institution_id institution) ≡ true) ↔ IsEligible institution
unfolding license_valid check_licence
check_licence-valid_iff id none = (λ h. cc, λ e. let (i, same, rest, domestic) = e.known in cc)
check_licence-valid_iff id (some i) = (
  λ h. record { known = (i, refl, ground arith, ground arith) },
  λ e. let (j, same, enough, domestic) = e.known in ground arith,
)
