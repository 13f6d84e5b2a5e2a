-- ===== src/Tests/Service.antt =====
-- Concrete runs of the service's methods.
use mathlib.Core.List.{Memᴰ}
use film_compliance_agent.Base.{
  ℕ, String, Bool, true, false, Option, none, some, List, [], ◌∷◌, ◌≡◌, ◌≢◌, ◌↔◌, ◌⊎◌, inl, inr,
  refl, All, arith, string_iff, string_eq, last,
}
use film_compliance_agent.Base.Dict.{lookup, insert}
use film_compliance_agent.Base.Strip.{strip, is_blank_text}
use film_compliance_agent.Schemas.Enums.States.{ProjectState}
use film_compliance_agent.Schemas.Enums.Process.{Actor, InstitutionDecision}
use film_compliance_agent.Schemas.Enums.Review.{MaterialStatus, FindingStatus}
use film_compliance_agent.Schemas.Json.{end}
use film_compliance_agent.Schemas.Findings.{blocks_gate_d3}
use film_compliance_agent.Schemas.Project.{Project}
use film_compliance_agent.Schemas.Forms.{FormDraft}
use film_compliance_agent.Schemas.Workflow.{InstitutionReview}
use film_compliance_agent.Errors.{Error, Result, ok, err}
use film_compliance_agent.Store.{Stores}
use film_compliance_agent.StateMachine.{GateContext, moved}
use film_compliance_agent.StateMachine.Guards.{IsPermitted}
use film_compliance_agent.Workflow.Core.{gate_context_for, transition_to}
use film_compliance_agent.Workflow.Core.Moves.{result_at, after_move, transition_to-ok}
use film_compliance_agent.Workflow.Collection.{validated, validate_material}
use film_compliance_agent.Workflow.Collection.Backing.{IsBacked, validate_material-valid_iff}
use film_compliance_agent.Workflow.Findings.{with_status, act_on_finding}
use film_compliance_agent.Workflow.Findings.Decisions.{act_on_finding_releases}
use film_compliance_agent.Workflow.Drafts.{freeze_form}
use film_compliance_agent.Workflow.Drafts.Freezing.{IsSealed, freeze_form-ok}
use film_compliance_agent.Workflow.Filing.{
  registered, licence_passed, decided_review, record_filing, decide_institution_review,
}
use film_compliance_agent.Workflow.Returns.{successor, resume_after_return}
use film_compliance_agent.Workflow.Filing.Registration.{record_filing-ok, record_filing_refused}
use film_compliance_agent.Workflow.Filing.Verdicts.{
  decide_institution_review-accept, decide_institution_review-return,
}
use film_compliance_agent.Workflow.Returns.Resumption.{resume_after_return-ok}
use film_compliance_agent.Workflow.Passage.{has_confirmed, pass_gate, confirm_roadmap}
use film_compliance_agent.Workflow.Passage.Planning.{confirm_roadmap-ok}
use film_compliance_agent.Workflow.Passage.Opening.{IsOpen, pass_gate-ok}
use film_compliance_agent.Tests.Samples.{
  card, asset, classification, project_at, stores_at, env, block_finding, draft_of, field_of,
  review,
}

abbrev at_state : ProjectState → Project
at_state s = record (project_at s) { updated_at = 0 }

abbrev transition_to-ok_example_run : Stores
transition_to-ok_example_run =
    (transition_to (project_at ProjectState.draft) ProjectState.intake_done Actor.creator "intake"
      end env (stores_at ProjectState.draft)).1

transition_to-ok_example :
    ((c : Option GateContext) × (gate_context_for
          (project_at ProjectState.draft)
          ProjectState.intake_done
          env
          (stores_at ProjectState.draft)
        ≡ (ok c, stores_at ProjectState.draft))
      × IsPermitted (project_at ProjectState.draft) ProjectState.intake_done c)
    × (at_state ProjectState.intake_done
        ≡ (result_at
            (project_at ProjectState.draft)
            ProjectState.intake_done
            Actor.creator
            "intake"
            end
            env
            (stores_at ProjectState.draft)).project)
    × (transition_to-ok_example_run
        ≡ after_move
            (project_at ProjectState.draft)
            (result_at
              (project_at ProjectState.draft)
              ProjectState.intake_done
              Actor.creator
              "intake"
              end
              env
              (stores_at ProjectState.draft))
            (stores_at ProjectState.draft))
unfolding transition_to film_compliance_agent.Schemas.Enums.States.ProjectState-discrete
    film_compliance_agent.StateMachine.transition film_compliance_agent.StateMachine.is_allowed
    film_compliance_agent.StateMachine.check_entry_guards moved
transition_to-ok_example =
    transition_to-ok (project_at ProjectState.draft) ProjectState.intake_done Actor.creator "intake"
      end env (stores_at ProjectState.draft) transition_to-ok_example_run
      (at_state ProjectState.intake_done) refl

abbrev blocked : Stores
blocked = record (stores_at ProjectState.revision_loop) {
  findings = λ _. ("x1", block_finding) ∷ [];
}

abbrev waived : Stores
waived = (act_on_finding "p1" "x1" "waive" (some "agreed") none env blocked).1

waive_is_no_choice : ◌≢◌ {A = String} "waive" "choose_option"
waive_is_no_choice h = let clash : false ≡ true = (string_iff "waive" "choose_option").1 h in cc

act_on_finding_releases_example :
    (with_status block_finding FindingStatus.waived
      ≡ with_status block_finding FindingStatus.waived)
    × (waived.findings "p1"
        ≡ insert "x1" (with_status block_finding FindingStatus.waived) (blocked.findings "p1"))
    × ((blocks_gate_d3 (with_status block_finding FindingStatus.waived) ≡ true)
        ↔ (◌≡◌ {A = String} "waive" "accept"))
unfolding lookup blocks_gate_d3 film_compliance_agent.Schemas.Enums.Review.FindingStatus-discrete
    film_compliance_agent.Schemas.Enums.Review.FindingSeverity-discrete act_on_finding strip
act_on_finding_releases_example =
    act_on_finding_releases "p1" "x1" "waive" (some "agreed") none env blocked waived block_finding
      (with_status block_finding FindingStatus.waived) refl refl waive_is_no_choice refl

abbrev frozen_once : Stores
frozen_once = record (stores_at ProjectState.form_frozen) { forms = λ _. draft_of [] true ∷ [] }

abbrev ready : Stores
ready = stores_at ProjectState.gate_d3_passed

abbrev sealed : FormDraft
sealed = record {
  draft_id = "draft";
  form_type = "registration_publicity";
  frozen = true;
  fields = ("title", field_of "T") ∷ [];
  conflicts = [];
  hash = some "digest";
  snapshot_version = "2026.1";
  confirmed_by_user_at = some 1;
  parent_draft = none;
  created_at = some 0;
}

freeze_form-ok_example :
    ((last (ready.forms "p1") ≡ some sealed)
      × (sealed.frozen ≡ true)
      × ((freeze_form "p1" env ready).1 ≡ ready))
    ⊎ IsSealed "p1" env
        (project_at ProjectState.gate_d3_passed)
        sealed
        (freeze_form "p1" env ready).1
unfolding lookup freeze_form insert moved transition_to
    film_compliance_agent.Schemas.Enums.States.ProjectState-discrete
    film_compliance_agent.Forms.build_fields film_compliance_agent.Forms.fill_fields
    film_compliance_agent.Gate.required_fact_keys film_compliance_agent.Forms.render_field
    film_compliance_agent.Forms.group_by_key
    film_compliance_agent.Schemas.Enums.Review.FactStatus-discrete
    film_compliance_agent.Schemas.Forms.form_field_ok
    film_compliance_agent.Schemas.Enums.Review.FieldStatus-discrete
    film_compliance_agent.Forms.pending_keys film_compliance_agent.Base.Sorting.sorted
    film_compliance_agent.Forms.holds_shut film_compliance_agent.StateMachine.transition
    film_compliance_agent.StateMachine.is_allowed
    film_compliance_agent.StateMachine.allowed_transitions
    film_compliance_agent.StateMachine.check_entry_guards film_compliance_agent.Gate.can_freeze_form
    film_compliance_agent.Forms.draft_hash film_compliance_agent.Base.Sorting.sort_items
freeze_form-ok_example =
    freeze_form-ok "p1" env (project_at ProjectState.gate_d3_passed) sealed ready
      (freeze_form "p1" env ready).1 refl refl

abbrev fileable : Stores
fileable = stores_at ProjectState.ready_for_external_filing

abbrev filed_project : Project
filed_project = record (registered (project_at ProjectState.ready_for_external_filing) "N-7" 0) {
  state = ProjectState.filed;
  updated_at = 2;
}

record_filing-ok_example :
    ((project_at ProjectState.ready_for_external_filing).state
      ≡ ProjectState.ready_for_external_filing)
    × (is_blank_text (some " N-7 ") ≡ false)
    × (filed_project.state ≡ ProjectState.filed)
    × (filed_project.registration_number ≡ some (strip " N-7 "))
    × (lookup "p1" (record_filing "p1" " N-7 " env fileable).1.projects ≡ some filed_project)
unfolding lookup record_filing strip
    film_compliance_agent.Schemas.Enums.States.ProjectState-discrete
    film_compliance_agent.StateMachine.transition film_compliance_agent.StateMachine.is_allowed
    film_compliance_agent.StateMachine.check_entry_guards moved
record_filing-ok_example =
    record_filing-ok "p1" " N-7 " env fileable (record_filing "p1" " N-7 " env fileable).1
      (project_at ProjectState.ready_for_external_filing) filed_project refl refl

draft_is_not_ready : ProjectState.draft ≢ ProjectState.ready_for_external_filing
draft_is_not_ready h = cc

record_filing_refused_example :
    (e : Error) × (w' : Stores) × (record_filing "p1" "N-7" env (stores_at ProjectState.draft)
      ≡ (err e, w'))
    × (lookup "p1" w'.projects ≡ some (registered (project_at ProjectState.draft) (strip "N-7") 0))
unfolding lookup strip
record_filing_refused_example =
    record_filing_refused "p1" "N-7" env (stores_at ProjectState.draft)
      (project_at ProjectState.draft) refl refl draft_is_not_ready

abbrev reviewed : Stores
reviewed = stores_at ProjectState.institution_review

abbrev accept_run : Result (Project × InstitutionReview) × Stores
accept_run = decide_institution_review "p1" "accept" none (some "uri") env reviewed

abbrev accepted_project : Project
accepted_project = record (project_at ProjectState.ready_for_external_filing) { updated_at = 2 }

decide_institution_review-accept_example :
    ((project_at ProjectState.institution_review).state ≡ ProjectState.institution_review)
    × (is_blank_text (some "uri") ≡ false)
    × (licence_passed review.license_check ≡ true)
    × (accepted_project.state ≡ ProjectState.ready_for_external_filing)
    × (lookup "p1" accept_run.1.projects ≡ some accepted_project)
unfolding lookup decide_institution_review film_compliance_agent.Workflow.Filing.decision_named
    film_compliance_agent.Schemas.Enums.Process.InstitutionDecision-discrete strip
    film_compliance_agent.Schemas.Workflow.license_valid
    film_compliance_agent.Workflow.Filing.target_of
    film_compliance_agent.Schemas.Enums.States.ProjectState-discrete
    film_compliance_agent.StateMachine.transition film_compliance_agent.StateMachine.is_allowed
    film_compliance_agent.StateMachine.check_entry_guards moved
decide_institution_review-accept_example =
    decide_institution_review-accept "p1" none (some "uri") env reviewed accept_run.1
      (project_at ProjectState.institution_review) accepted_project review
      (decided_review review InstitutionDecision.accept none (some "uri") 0) refl refl refl

abbrev return_run : Result (Project × InstitutionReview) × Stores
return_run = decide_institution_review "p1" "return" (some "redo") none env reviewed

abbrev returned_project : Project
returned_project = record (project_at ProjectState.institution_returned) { updated_at = 2 }

decide_institution_review-return_example :
    ((project_at ProjectState.institution_review).state ≡ ProjectState.institution_review)
    × (is_blank_text (some "redo") ≡ false)
    × ((decided_review review InstitutionDecision.return (some "redo") none 0).return_comments
        ≡ some "redo")
    × Memᴰ
        (decided_review review InstitutionDecision.return (some "redo") none 0)
        (return_run.1.institution_reviews "p1")
    × (returned_project.state ≡ ProjectState.institution_returned)
    × (lookup "p1" return_run.1.projects ≡ some returned_project)
unfolding lookup decide_institution_review film_compliance_agent.Workflow.Filing.decision_named
    film_compliance_agent.Schemas.Enums.Process.InstitutionDecision-discrete strip
    film_compliance_agent.Workflow.Filing.target_of
    film_compliance_agent.Schemas.Enums.States.ProjectState-discrete
    film_compliance_agent.StateMachine.transition film_compliance_agent.StateMachine.is_allowed
    film_compliance_agent.StateMachine.check_entry_guards moved
decide_institution_review-return_example =
    decide_institution_review-return "p1" (some "redo") none env reviewed return_run.1
      (project_at ProjectState.institution_review) returned_project review
      (decided_review review InstitutionDecision.return (some "redo") none 0) refl refl refl

abbrev sent_back : Stores
sent_back = record (stores_at ProjectState.institution_returned) {
  forms = λ _. draft_of [] true ∷ [];
}

abbrev resumed : Stores
resumed = (resume_after_return "p1" env sent_back).1

abbrev resumed_project : Project
resumed_project = record (project_at ProjectState.revision_loop) { updated_at = 2 }

draft_is_new : ◌≢◌ {A = String} "d1" "draft"
draft_is_new h = let clash : false ≡ true = (string_iff "d1" "draft").1 h in cc

resume_after_return-ok_example :
    ((project_at ProjectState.institution_returned).state ≡ ProjectState.institution_returned)
    × (resumed_project.state ≡ ProjectState.revision_loop)
    × (last (resumed.forms "p1") ≡ some (successor (draft_of [] true) "draft" 0))
    × All (λ x. Memᴰ x (resumed.forms "p1")) (sent_back.forms "p1")
unfolding lookup resume_after_return
    film_compliance_agent.Schemas.Enums.States.ProjectState-discrete
    film_compliance_agent.StateMachine.transition film_compliance_agent.StateMachine.is_allowed
    film_compliance_agent.StateMachine.check_entry_guards moved
resume_after_return-ok_example =
    resume_after_return-ok "p1" env sent_back resumed (project_at ProjectState.institution_returned)
      resumed_project (draft_of [] true) refl refl refl (draft_is_new, tt) refl

abbrev passable : Stores
passable = stores_at ProjectState.revision_loop

abbrev passed_project : Project
passed_project = record (project_at ProjectState.gate_d3_passed) { updated_at = 0 }

pass_gate-ok_example :
    (passed_project.state ≡ ProjectState.gate_d3_passed)
    × IsOpen "p1" env (project_at ProjectState.revision_loop) passable
unfolding lookup pass_gate film_compliance_agent.Materials.build_material_cards
    film_compliance_agent.Materials.read_cards film_compliance_agent.Gate.evaluate_gate_d3
    film_compliance_agent.Gate.required_fact_keys
    film_compliance_agent.Schemas.Enums.Review.FactStatus-discrete
    film_compliance_agent.Base.Sorting.sorted_set
    film_compliance_agent.Schemas.Enums.States.ProjectState-discrete
    film_compliance_agent.StateMachine.transition film_compliance_agent.StateMachine.is_allowed
    film_compliance_agent.StateMachine.check_entry_guards moved
pass_gate-ok_example =
    pass_gate-ok "p1" env (project_at ProjectState.revision_loop) passed_project passable
      (pass_gate "p1" env passable).1 refl refl

abbrev plannable_project : Project
plannable_project = record (project_at ProjectState.classified) {
  classification = some classification;
}

abbrev plannable : Stores
plannable = record (stores_at ProjectState.classified) { projects = ("p1", plannable_project) ∷ [] }

abbrev collecting_project : Project
collecting_project = record plannable_project {
  state = ProjectState.collecting_materials;
  roadmap =
      some (record { template = "T3_4steps"; steps = []; current_step_idx = 1; confirmed = true });
  updated_at = 3;
}

abbrev planned_result : Project × List String
planned_result = (collecting_project, "roadmap_template_pending" ∷ [])

confirm_roadmap-ok_example :
    (plannable_project.state ≡ ProjectState.classified)
    × (planned_result.0.state ≡ ProjectState.collecting_materials)
    × (has_confirmed planned_result.0.roadmap ≡ true)
    × (lookup "p1" (confirm_roadmap "p1" env plannable).1.projects ≡ some planned_result.0)
unfolding lookup confirm_roadmap film_compliance_agent.Schemas.Enums.States.ProjectState-discrete
    film_compliance_agent.StateMachine.transition film_compliance_agent.StateMachine.is_allowed
    film_compliance_agent.StateMachine.check_entry_guards moved
    film_compliance_agent.Roadmap.build_roadmap film_compliance_agent.Roadmap.steps_for
    film_compliance_agent.Roadmap.read_steps
confirm_roadmap-ok_example =
    confirm_roadmap-ok "p1" env plannable_project planned_result plannable
      (confirm_roadmap "p1" env plannable).1 refl refl refl

abbrev collected : Stores
collected = record (stores_at ProjectState.collecting_materials) {
  materials = λ _. ("m1", card) ∷ [];
  assets = λ _. ("v1", asset) ∷ [];
  blobs = ("uri", 7 ∷ []) ∷ [];
}

validate_material-valid_iff_example :
    ((validated card []).status ≡ MaterialStatus.valid)
    ↔ IsBacked "p1" (validated card []) (validate_material "p1" "m1" env collected).1
unfolding validate_material lookup film_compliance_agent.Materials.build_material_cards
    film_compliance_agent.Materials.read_cards
validate_material-valid_iff_example =
    validate_material-valid_iff "p1" "m1" env (validated card []) collected
      (validate_material "p1" "m1" env collected).1 refl
