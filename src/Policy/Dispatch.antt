-- ===== src/Policy/Dispatch.antt =====
-- workers/policy/outbox.py: `OutboxDispatcher.dispatch` sends the pending rows, oldest first, at most
-- twenty in a run. What sends an event, and may fail, is a parameter, with the times of the sends.
pub mod Deliveries
use film_compliance_agent.Base.{
  ℕ, suc, ◌+◌, String, Bool, true, false, Option, none, some, List, [], ◌∷◌, ltb, length,
  if◌then◌else◌,
}
use film_compliance_agent.Schemas.Common.{Time}
use film_compliance_agent.Errors.{Error, Result, ok, err}
use film_compliance_agent.Policy.Documents.{PolicyUpdatedEvent, PolicyOutbox}
use film_compliance_agent.Policy.Repository.{PolicyRepository, Ran, list_pending_outbox}
use film_compliance_agent.Policy.Repository.Commits.{mark_outbox_sent}

pub record DispatchSummary : Type 0 where
  pub selected : ℕ
  pub sent : ℕ
  pub failed : ℕ

-- `max(0, min(limit, 20))`, for a limit that is not negative
abbrev pub bounded_limit : ℕ → ℕ
bounded_limit limit = if ltb limit 20 then limit else 20

-- whether the row's delivery was recorded, and the repository
abbrev pub recorded : Ran (Unit {0}) → Bool × PolicyRepository
recorded (ok _, repo) = (true, repo)
recorded (err _, repo) = (false, repo)

-- the sender's answer to the `n`th event of the run, and the time then
module _ (publish : ℕ → PolicyUpdatedEvent → Result String) (clock : ℕ → Time) where
  unfoldable pub send_row : ℕ → String × PolicyOutbox → PolicyRepository → Bool × PolicyRepository
  send_row n (outbox_id, row) repo = elim (publish n row.payload) [
    | err _ ↦ (false, repo)
    | ok message_id ↦ recorded (mark_outbox_sent outbox_id (clock n) message_id repo)
  ]

  -- the rows sent, and those that failed
  unfoldable pub send_rows :
      ℕ → List (String × PolicyOutbox) → PolicyRepository → ℕ × ℕ × PolicyRepository
  send_rows n [] repo = (0, 0, repo)
  send_rows n (row ∷ rows) repo =
      let (done, repo') = send_row n row repo in
      let (sent, failed, last) = send_rows (suc n) rows repo' in
      if done then (sent + 1, failed, last) else (sent, failed + 1, last)

  unfoldable pub dispatch : ℕ → PolicyRepository → DispatchSummary × PolicyRepository
  dispatch limit repo =
      let pending = list_pending_outbox (bounded_limit limit) repo in
      let (sent, failed, repo') = send_rows 0 pending repo in
      (record { selected = length pending; sent = sent; failed = failed }, repo')
