-- ===== src/Classify/Chain/Routes.antt =====
-- core/classify/chain.py: the clauses not yet in force, and the filing route of a tier.
use film_compliance_agent.Base.{
  String, Bool, true, false, Option, none, some, List, [], ◌∷◌, ◌==◌, not, ◌&&◌, map, is_empty,
  if◌then◌else◌, string_eq,
}
use film_compliance_agent.Base.Sorting.{sorted_set}
use film_compliance_agent.Schemas.Enums.States.{Tier, tier_eq, tier_value, production_stage_eq}
use film_compliance_agent.Schemas.Common.{Time}
use film_compliance_agent.Schemas.Json.{
  Json, Detail, end, entry, null, obj, strs, get, get_or, is_true,
}
use film_compliance_agent.Schemas.Json.Access.{list_of, text_of}
use film_compliance_agent.Errors.{raised, snapshot_not_found, Result, ok, err, ◌>>=◌}
use film_compliance_agent.Classify.Chain.Outcomes.{Clause, in_force, SnapshotService}

-- `except (SnapshotNotFoundError, KeyError)`
abbrev pub or_none {ℓ} : {A : Type ℓ} → Result A → Result (Option A)
or_none (ok a) = ok (some a)
or_none (err snapshot_not_found) = ok none
or_none (err (raised name)) = if name == "KeyError" then ok none else err (raised name)
or_none (err e) = err e

abbrev pub is_future : Option Clause → Time → Bool
is_future none as_of = false
is_future (some c) as_of = elim (in_force c as_of) [ some b ↦ not b | none ↦ false ]

module _ (snapshots : SnapshotService) (version : String) where
  -- the cited clauses of which a test on what the snapshot has is true, in order
  unfoldable pub clauses_where : (Option Clause → Bool) → List String → Result (List String)
  clauses_where test [] = ok []
  clauses_where test (id ∷ ids) =
      let rest = clauses_where test ids in
      (do
        found ← or_none (snapshots.clause id version)
        more ← rest
        ok (if test found then id ∷ more else more))

  unfoldable pub clauses_not_yet_in_force : List String → Time → Result (List String)
  clauses_not_yet_in_force ids as_of = do
    future ← clauses_where (λ c. is_future c as_of) ids
    ok (sorted_set future)

-- `d[key] = value`
unfoldable pub set_key : String → Json → Detail → Detail
set_key key value end = entry key value end
set_key key value (entry k v rest) =
    let more = set_key key value rest in if k == key then entry k value rest else entry k v more

abbrev pub is_known : Option Clause → Bool
is_known none = false
is_known (some c) = true

module _ (show : Json → String) (snapshots : SnapshotService) where
  -- the route of a tier, if the snapshot has a clause for it or it cites none
  unfoldable pub sourced_route : Detail → String → Result (Option Detail)
  sourced_route route version = do
    let refs = get_or "clause_refs" null route
    items ← if is_true refs then list_of refs else ok []
    let cited = map (text_of show) items
    known ← clauses_where snapshots version is_known cited
    ok (
        if not (is_empty cited) && is_empty known
        then none
        else some (set_key "clause_refs" (strs known) route))

  -- `(pack4 or {}).get("filing_routes") or {}`, then the route of the tier
  abbrev pub route_in : Tier → Detail → String → Result (Option Detail)
  route_in tier pack4 version = elim (get_or "filing_routes" (obj end) pack4) [
    | obj routes ↦ elim (get (tier_value tier) routes) [
      | some (obj route) ↦ sourced_route route version
      | _ ↦ ok none
    ]
    | other ↦ if is_true other then err (raised "AttributeError") else ok none
  ]

  unfoldable pub filing_route : Tier → String → Result (Option Detail)
  filing_route tier version = do
    pack4 ← or_none (snapshots.process_templates version)
    elim pack4 [ none ↦ ok none | some d ↦ route_in tier d version ]
