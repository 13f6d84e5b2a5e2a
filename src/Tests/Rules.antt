-- ===== src/Tests/Rules.antt =====
-- Concrete runs of the gate, the state machine, the forms, the classification and the stores.
use film_compliance_agent.Base.{
  ℕ, ◌≤◌, String, Bool, true, false, Option, none, some, List, [], ◌∷◌, ◌≡◌, ◌≢◌, ◌↔◌, ◌⊎◌, inl,
  inr, refl, contains, All, arith, string_iff, string_eq,
}
use film_compliance_agent.Base.Dict.{Dict, lookup, insert, keys}
use film_compliance_agent.Base.Sorting.{sort_items}
use film_compliance_agent.Schemas.Enums.States.{ProjectState, project_state_eq, AmountBracket, Tier}
use film_compliance_agent.Schemas.Enums.Review.{FactStatus}
use film_compliance_agent.Schemas.Enums.Process.{Actor}
use film_compliance_agent.Schemas.Common.{Fact}
use film_compliance_agent.Schemas.Json.{end}
use film_compliance_agent.Schemas.Forms.{FormField, FormConflict, form_field_ok}
use film_compliance_agent.Schemas.Policy.{Thresholds, TierPack, FormDefinitionPack}
use film_compliance_agent.Schemas.Workflow.{truthy, license_valid}
use film_compliance_agent.Errors.{ok}
use film_compliance_agent.Gate.{required_fact_keys, evaluate_gate_d3}
use film_compliance_agent.Gate.Report.{IsClear, passed_iff}
use film_compliance_agent.StateMachine.{
  is_allowed, allowed_transitions, check_entry_guards, moved, transition,
}
use film_compliance_agent.StateMachine.Guards.{IsPermitted, transition-ok_iff}
use film_compliance_agent.StateMachine.Reach.{Trace, Trace-waypoints}
use film_compliance_agent.Forms.{
  group_by_key, filled_field, render_field, fill_fields, build_fields, draft_payload, draft_hash,
  pending_keys,
}
use film_compliance_agent.Forms.Agreement.{pending_keys_of_passed}
use film_compliance_agent.Forms.Fields.{IsHonest, build_fields-IsHonest}
use film_compliance_agent.Forms.Digest.{SameField, draft_hash_injective}
use film_compliance_agent.Classify.D1c.{thresholds_published, is_usable, ai_thresholds, judge_tier}
use film_compliance_agent.Classify.D1c.Settled.{ByBudget, settled_iff}
use film_compliance_agent.Classify.D1c.Amounts.{bracket_of, judge_tier-bracket_of}
use film_compliance_agent.Classify.D1a.{EdgeModel, Outcome, judge_form_type, answered, or_else}
use film_compliance_agent.Classify.D1a.Outcomes.{
  Verbatim, edge_quotes_Verbatim, IsMicroDrama, micro_drama_iff,
}
use film_compliance_agent.Store.{get_or_create_by_idempotency_key}
use film_compliance_agent.Store.Tasks.{IsIndexed, get_or_create_replay, claims, claims-le-one}
use film_compliance_agent.Institution.{check_licence}
use film_compliance_agent.Institution.Licences.{IsEligible, check_licence-valid_iff}
use film_compliance_agent.Tests.Samples.{
  intent, project_at, fact_of, title_pack, block_finding, field_of, draft_of, task_of, no_tasks,
  institution,
}

abbrev facts : List Fact
facts = fact_of "title" "T" ∷ []

passed_iff_example :
    ((evaluate_gate_d3 (block_finding ∷ []) facts [] (some title_pack)).passed ≡ true)
    ↔ IsClear (block_finding ∷ []) facts [] (required_fact_keys (some title_pack))
passed_iff_example = passed_iff (block_finding ∷ []) facts [] (some title_pack)

transition-ok_iff_example :
    (transition
        (project_at ProjectState.draft)
        ProjectState.intake_done
        Actor.creator
        "intake"
        2
        "e1"
        end
        none
      ≡ ok (
          moved
            (project_at ProjectState.draft)
            ProjectState.intake_done
            Actor.creator
            "intake"
            2
            "e1"
            end))
    ↔ (IsPermitted (project_at ProjectState.draft) ProjectState.intake_done none
        × (moved
              (project_at ProjectState.draft)
              ProjectState.intake_done
              Actor.creator
              "intake"
              2
              "e1"
              end
            ≡ moved
                (project_at ProjectState.draft)
                ProjectState.intake_done
                Actor.creator
                "intake"
                2
                "e1"
                end))
transition-ok_iff_example =
    transition-ok_iff (project_at ProjectState.draft) ProjectState.intake_done none Actor.creator
      "intake" 2 "e1" end
      (moved (project_at ProjectState.draft) ProjectState.intake_done Actor.creator "intake" 2 "e1"
        end)

first_step :
    Trace
      (ProjectState.draft ∷ [])
      (moved
        (project_at ProjectState.draft)
        ProjectState.intake_done
        Actor.creator
        "intake"
        2
        "e1"
        end).project
unfolding transition is_allowed allowed_transitions check_entry_guards
    film_compliance_agent.Schemas.Enums.States.ProjectState-discrete
first_step =
    Trace.stepped (Trace.created (project_at ProjectState.draft) refl) ProjectState.intake_done
      Actor.creator "intake" 2 "e1" end none _ refl

Trace-waypoints_example : contains (ProjectState.draft ∷ []) ProjectState.draft ≡ true
unfolding moved film_compliance_agent.Schemas.Enums.States.ProjectState-discrete
Trace-waypoints_example = Trace-waypoints ProjectState.draft first_step refl

pending_keys_of_passed_example :
    (r : Dict String FormField × List FormConflict) × (build_fields
        (required_fact_keys (some title_pack))
        facts
      ≡ ok r)
    × (pending_keys (record (draft_of [] false) { fields = r.0 }) ≡ [])
unfolding evaluate_gate_d3 required_fact_keys
    film_compliance_agent.Schemas.Enums.Review.FactStatus-discrete
    film_compliance_agent.Base.Sorting.sorted_set
pending_keys_of_passed_example =
    pending_keys_of_passed [] facts [] (some title_pack) (draft_of [] false) refl ((λ _. refl), tt)

build_fields-IsHonest_example :
    All {A = String × FormField}
      (λ e. IsHonest facts e.0 e.1)
      (("title", filled_field (fact_of "title" "T")) ∷ [])
    × ((j : String)
        → contains (keys (("title", filled_field (fact_of "title" "T")) ∷ [])) j
          ≡ contains ("title" ∷ []) j)
unfolding build_fields fill_fields group_by_key render_field lookup insert form_field_ok
    film_compliance_agent.Schemas.Enums.Review.FactStatus-discrete
    film_compliance_agent.Schemas.Enums.Review.FieldStatus-discrete
build_fields-IsHonest_example =
    build_fields-IsHonest ("title" ∷ []) facts (("title", filled_field (fact_of "title" "T")) ∷ [])
      [] refl

abbrev fields : List (String × FormField)
fields = ("a", field_of "x") ∷ ("b", field_of "y") ∷ []

abbrev swapped : List (String × FormField)
swapped = ("b", field_of "y") ∷ ("a", field_of "x") ∷ []

draft_hash_injective_example :
    ((draft_of fields false).form_type ≡ (draft_of swapped true).form_type)
    × ((draft_of fields false).snapshot_version ≡ (draft_of swapped true).snapshot_version)
    × ((key : String)
        → SameField
            (lookup key (draft_of fields false).fields)
            (lookup key (draft_of swapped true).fields))
unfolding draft_hash draft_payload sort_items
draft_hash_injective_example =
    draft_hash_injective (λ payload. payload.form_type) (draft_of fields false)
      (draft_of swapped true) (λ _. refl) refl

abbrev thresholds : Thresholds
thresholds = record {
  t1_min_rmb = some 3_000_000;
  t2_min_rmb = some 1_000_000;
  disputed_boundaries = [];
  clause_ref = none;
  other_keys = false;
}

abbrev tiers : TierPack
tiers = record {
  thresholds_published = some true;
  official_published = some true;
  threshold_sets = [];
  thresholds = some thresholds;
}

settled_iff_example :
    ((judge_tier AmountBracket.between tiers none (some 2_000_000) none none).tier_provisional
      ≡ false)
    ↔ ((truthy none ≡ true)
        ⊎ ((truthy none ≡ true)
            ⊎ ((thresholds_published tiers none ≡ true)
                × (is_usable (ai_thresholds tiers) ≡ true)
                × ByBudget (ai_thresholds tiers) AmountBracket.between (some 2_000_000))))
settled_iff_example = settled_iff AmountBracket.between tiers none (some 2_000_000) none none

judge_tier-bracket_of_example :
    (judge_tier AmountBracket.unknown tiers none (some 2_000_000) none none).tier
    ≡ (judge_tier (bracket_of 1_000_000 3_000_000 2_000_000) tiers none none none none).tier
unfolding thresholds_published ai_thresholds
judge_tier-bracket_of_example =
    judge_tier-bracket_of tiers none 1_000_000 3_000_000 2_000_000 AmountBracket.unknown refl refl
      refl

abbrev definitions : FormDefinitionPack
definitions = record {
  episode_max_minutes_exclusive = none;
  episode_max_minutes = none;
  min_episodes = none;
  clause_ref = none;
}

micro_drama_iff_example :
    ((judge_form_type intent definitions none).outcome ≡ Outcome.micro_drama)
    ↔ IsMicroDrama intent definitions none
micro_drama_iff_example = micro_drama_iff intent definitions none

abbrev silent : EdgeModel
silent = some (λ _. answered [])

edge_quotes_Verbatim_example :
    All
      (Verbatim (or_else intent.synopsis ""))
      (judge_form_type intent definitions silent).edge_quotes
edge_quotes_Verbatim_example = edge_quotes_Verbatim intent definitions silent

no_tasks-IsIndexed : IsIndexed no_tasks
unfolding lookup
no_tasks-IsIndexed = record { leads = λ key id h. absurd (cc) }

t1-nonempty : ◌≢◌ {A = String} "t1" ""
t1-nonempty h = let clash : false ≡ true = (string_iff "t1" "").1 h in cc

get_or_create_replay_example :
    let (s', task, created) = get_or_create_by_idempotency_key (task_of "t1") no_tasks in
    get_or_create_by_idempotency_key (task_of "t2") s' ≡ (s', task, false)
get_or_create_replay_example =
    get_or_create_replay (task_of "t1") (task_of "t2") no_tasks no_tasks-IsIndexed t1-nonempty refl

claims-le-one_example :
    claims "t1" (5 ∷ 6 ∷ []) (record { items = ("t1", task_of "t1") ∷ []; by_key = [] }) ≤ 1
claims-le-one_example =
    claims-le-one "t1" (5 ∷ 6 ∷ []) (record { items = ("t1", task_of "t1") ∷ []; by_key = [] })

check_licence-valid_iff_example :
    (license_valid (check_licence "i1" (some institution)) ≡ true) ↔ IsEligible (some institution)
check_licence-valid_iff_example = check_licence-valid_iff "i1" (some institution)
