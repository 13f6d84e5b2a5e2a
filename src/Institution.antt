-- ===== src/Institution.antt =====
-- core/institution.py: the mock licence check.
pub mod Licences
use film_compliance_agent.Base.{
  ℕ, String, Bool, true, false, Option, none, some, List, [], ◌∷◌, ◌++◌, not, leb, if◌then◌else◌,
}
use film_compliance_agent.Schemas.Workflow.{LicenseCheck, MockInstitution}

abbrev pub min_capital_rmb : ℕ
min_capital_rmb = 1_000_000

unfoldable pub check_licence : String → Option MockInstitution → LicenseCheck
check_licence institution_id none = record {
  institution_id = some institution_id;
  valid_until = none;
  capital_ok = none;
  no_foreign_ok = none;
  mock = true;
  reasons = "institution_not_in_registry" ∷ [];
}
check_licence institution_id (some institution) =
    let capital_ok = leb min_capital_rmb institution.registered_capital_rmb in
    let no_foreign_ok = not institution.has_foreign in
    record {
      institution_id = some institution.institution_id;
      valid_until = some institution.valid_until;
      capital_ok = some capital_ok;
      no_foreign_ok = some no_foreign_ok;
      mock = true;
      reasons =
          (if capital_ok then [] else "registered_capital_below_threshold" ∷ [])
          ++ (if no_foreign_ok then [] else "foreign_investment" ∷ []);
    }
