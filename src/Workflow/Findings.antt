-- ===== src/Workflow/Findings.antt =====
-- core/workflow_service.py: the actions on a finding.
pub mod Decisions
use film_compliance_agent.Base.{
  ℕ, String, Bool, true, false, Option, none, some, List, [], ◌∷◌, ◌+++◌, map, contains, ◌==◌, ◌||◌,
  not, string_eq, if◌then◌else◌,
}
use film_compliance_agent.Base.Strip.{is_blank_text}
use film_compliance_agent.Base.Dict.{lookup}
use film_compliance_agent.Base.Sorting.{sorted_set}
use film_compliance_agent.Schemas.Enums.Review.{
  AlertOption, alert_option_value, FindingStatus, finding_status_value,
}
use film_compliance_agent.Schemas.Enums.Process.{Actor, ErrorCode}
use film_compliance_agent.Schemas.Findings.{Finding, Alert, AlertChoice}
use film_compliance_agent.Schemas.Json.{Json, Detail, end, entry, str, num, opt_str, strs}
use film_compliance_agent.Errors.{Error, app, Result, ok, err}
use film_compliance_agent.Store.{Stores, get_by_key}
use film_compliance_agent.Effects.{
  M, ◌>>=◌, ◌>>◌, pure, raise, lift, gets, asks, raise_if, now, new_id,
}
use film_compliance_agent.Workflow.Core.{
  not_found, validation_failed, conflict_error, or_raise, save_project, put_form,
  put_institution_review, save_finding, put_material, add_fact, checked_fact, get_project,
  record_event, pinned_version, form_pack_of, upsert_fact, transition_to,
}

-- `_status_for`
unfoldable pub status_for : String → Option String → Result FindingStatus
unfolding validation_failed
status_for action reason =
    if action == "accept"
    then ok FindingStatus.accepted
    else if action == "resolve"
    then ok FindingStatus.resolved
    else if action == "waive" || action == "reject"
    then (if is_blank_text reason
        then err
            (validation_failed (action +++ " requires a reason") (entry "action" (str action) end))
        else ok (if action == "waive" then FindingStatus.waived else FindingStatus.rejected))
    else err (
        validation_failed ("unknown finding action: " +++ action) (entry "action" (str action) end))

-- `AlertOption(option_id)`
abbrev pub option_named : String → List AlertChoice → Option AlertOption
option_named option_id [] = none
option_named option_id (c ∷ cs) =
    if alert_option_value c.id == option_id then some c.id else option_named option_id cs

-- the member with the identifier, if the alert offers it
abbrev pub offered_option : Option String → List AlertChoice → Option AlertOption
offered_option none options = none
offered_option (some option_id) options = option_named option_id options

abbrev pub choose : Finding → Alert → AlertOption → M Finding
choose finding alert chosen = do
  at ← now
  pure (record finding {
    alert = some (record alert { chosen_option = some chosen; chosen_at = some at });
  })

-- `_dispatch_alert`
unfoldable pub dispatch_alert : Finding → Option String → M Finding
unfolding validation_failed now
dispatch_alert finding option_id = elim finding.alert [
  | none ↦ raise (
      validation_failed "this finding carries no alert to dispatch"
        (entry "finding_id" (str finding.finding_id) end))
  | some alert ↦ elim (offered_option option_id alert.options) [
    | none ↦ raise (
        validation_failed "that option was not offered for this alert" (
          entry "offered" (strs (sorted_set (map (λ c. alert_option_value c.id) alert.options)))
            end))
    | some chosen ↦ choose finding alert chosen
  ]
]

abbrev pub with_status : Finding → FindingStatus → Finding
with_status finding status = record finding { status = status }

abbrev pub decided : Finding → String → Option String → Option String → M Finding
decided finding action reason option_id =
    if action == "choose_option"
    then dispatch_alert finding option_id
    else (lift (status_for action reason) >>= λ status. pure (with_status finding status))

unfoldable pub act_on_finding : String → String → String → Option String → Option String → M Finding
unfolding not_found get_project record_event status_for dispatch_alert
act_on_finding project_id finding_id action reason option_id = do
  project ← get_project project_id
  found ← gets (λ w. lookup finding_id (w.findings project_id))
  finding ←
      or_raise
        (not_found ("finding not found: " +++ finding_id) (entry "finding_id" (str finding_id) end))
        found
  updated ← decided finding action reason option_id
  save_finding project_id updated
  event ← record_event project_id Actor.creator "finding.action" (
      entry "finding_id" (str finding_id) (
        entry "action" (str action) (
          entry "status" (str (finding_status_value updated.status))
            (entry "reason" (opt_str reason) (entry "option_id" (opt_str option_id) end)))))
  pure updated
