-- ===== src/Policy/Dispatch/Deliveries.antt =====
-- workers/policy/outbox.py: every selected row is sent or has failed, and a row changes only from
-- pending to sent.
use film_compliance_agent.Base.{
  ℕ, zero, suc, ◌+◌, ◌≤◌, ◌==◌, String, Option, some, List, [], ◌∷◌, ◌≡◌, refl, sym, ◌∙◌, ◌⊎◌, inl,
  inr, arith, length, Bool-cases, Option-cases, string_eq, string_iff,
}
use film_compliance_agent.Base.Dict.{lookup, insert, lookup-insert}
use film_compliance_agent.Schemas.Common.{Time}
use film_compliance_agent.Errors.{Result, ok, err}
use film_compliance_agent.Policy.Documents.{
  PolicyUpdatedEvent, PolicyOutbox, OutboxStatus, outbox_status_eq, policy_outbox_ok,
}
use film_compliance_agent.Policy.Repository.{
  PolicyRepository, first_rows, sent_row, list_pending_outbox,
}
use film_compliance_agent.Policy.Repository.Commits.{mark_outbox_sent}
use film_compliance_agent.Policy.Dispatch.{bounded_limit, recorded, send_row, send_rows, dispatch}

-- a row of the outbox before and after: the same, or sent in between
abbrev pub IsForwarded : Option PolicyOutbox → Option PolicyOutbox → Type 0
IsForwarded before after =
    (after ≡ before)
    ⊎ ((row : PolicyOutbox) × (at : Time) × (message_id : String) × (before ≡ some row)
        × (row.status ≡ OutboxStatus.pending)
        × (after ≡ some (sent_row row at message_id)))

abbrev pub Forwards : PolicyRepository → PolicyRepository → Type 0
Forwards repo repo' = (id : String) → IsForwarded (lookup id repo.outbox) (lookup id repo'.outbox)

sent_is_over :
    (row : PolicyOutbox) (at : Time) (message_id : String) (other : PolicyOutbox)
    → some (sent_row row at message_id) ≡ some other
    → other.status ≡ OutboxStatus.pending
    → ⊥
sent_is_over row at message_id other h p = cc

Forwards-trans : (a b c : Option PolicyOutbox) → IsForwarded a b → IsForwarded b c → IsForwarded a c
Forwards-trans a b c (inl same) k = rw same at k
Forwards-trans a b c (inr sent) (inl same) = inr (
    let (row, at, id, before, pending, after) = sent in
    (row, at, id, before, pending, same ∙ after))
Forwards-trans a b c (inr sent) (inr again) =
    let (row, at, id, before, pending, after) = sent in
    let (row', at', id', before', pending', after') = again in
    absurd (sent_is_over row at id row' (sym after ∙ before') pending')

-- what a mark comes to: nothing, or the row sent
marked :
    (id : String) (at : Time) (message_id : String) (repo : PolicyRepository)
    → ((recorded (mark_outbox_sent id at message_id repo)).1 ≡ repo)
      ⊎ ((row : PolicyOutbox) × (lookup id repo.outbox ≡ some row)
          × (row.status ≡ OutboxStatus.pending)
          × ((recorded (mark_outbox_sent id at message_id repo)).1
              ≡ record repo { outbox = insert id (sent_row row at message_id) repo.outbox }))
unfolding mark_outbox_sent
marked id at message_id repo = elim (Option-cases (lookup id repo.outbox)) [
  | inl e ↦ inl (ground arith)
  | inr (row, e) ↦ elim (Bool-cases (row.status == OutboxStatus.pending)) [
    | inr over ↦ inl (ground arith)
    | inl free ↦ elim (Bool-cases (policy_outbox_ok (sent_row row at message_id))) [
      | inr bad ↦ inl (ground arith)
      | inl good ↦
          inr (
            row,
            e,
            (outbox_status_eq.same_iff row.status OutboxStatus.pending).0 free,
            ground arith,
          )
    ]
  ]
]

mark_outbox_sent-Forwards :
    (id : String) (at : Time) (message_id : String) (repo : PolicyRepository)
    → Forwards repo (recorded (mark_outbox_sent id at message_id repo)).1
mark_outbox_sent-Forwards id at message_id repo j = elim (marked id at message_id repo) [
  | inl same ↦ inl (rw same refl)
  | inr (row, e, pending, after) ↦ elim (Bool-cases (id == j)) [
    | inl here ↦
        let place = (string_iff id j).0 here in
        inr (
          row,
          at,
          message_id,
          rw (← place) e,
          pending,
          rw (after, lookup-insert id j (sent_row row at message_id) repo.outbox, here) refl,
        )
    | inr there ↦
        inl (rw (after, lookup-insert id j (sent_row row at message_id) repo.outbox, there) refl)
  ]
]

first_rows-le {ℓ} : {A : Type ℓ} (n : ℕ) (xs : List A) → length (first_rows n xs) ≤ n
first_rows-le zero xs = omega arith
first_rows-le (suc n) [] = omega arith
first_rows-le (suc n) (x ∷ xs) = omega (arith, first_rows-le n xs)

module _ (publish : ℕ → PolicyUpdatedEvent → Result String) (clock : ℕ → Time) where
  send_row-Forwards :
      (n : ℕ) (row : String × PolicyOutbox) (repo : PolicyRepository)
      → Forwards repo (send_row publish clock n row repo).1
  unfolding send_row
  send_row-Forwards n row repo j = go (publish n row.1.payload) refl
    where
      go :
          (r : Result String)
          → publish n row.1.payload ≡ r
          → IsForwarded
              (lookup j repo.outbox)
              (lookup j (send_row publish clock n row repo).1.outbox)
      go (err e) k = inl (rw (send_row, k) refl)
      go (ok id) k = rw (send_row, k) (mark_outbox_sent-Forwards row.0 (clock n) id repo j)

  send_rows-counts :
      (n : ℕ) (rows : List (String × PolicyOutbox)) (repo : PolicyRepository)
      → let (sent, failed, last) = send_rows publish clock n rows repo in
        (sent + failed ≡ length rows) × Forwards repo last
  unfolding send_rows
  send_rows-counts n [] repo = (refl, λ j. inl refl)
  send_rows-counts n (row ∷ rows) repo =
      let (done, repo') = send_row publish clock n row repo in
      let (counts, forwards) = send_rows-counts (suc n) rows repo' in
      let first = send_row-Forwards n row repo in
      elim (Bool-cases done) [
        | inl sent ↦
            rw sent (omega (arith, counts), λ j. Forwards-trans _ _ _ (first j) (forwards j))
        | inr kept ↦
            rw kept (omega (arith, counts), λ j. Forwards-trans _ _ _ (first j) (forwards j))
      ]

  -- A run selects at most twenty rows, each selected row is counted as sent or as failed, and a row
  -- of the outbox is afterwards as it was, or was pending and is now sent with the same event.
  pub dispatch-bounds :
      (limit : ℕ) (repo : PolicyRepository)
      → let (summary, repo') = dispatch publish clock limit repo in
        (summary.selected ≤ 20)
        × (summary.selected ≤ limit)
        × (summary.sent + summary.failed ≡ summary.selected)
        × Forwards repo repo'
  unfolding dispatch list_pending_outbox
  dispatch-bounds limit repo =
      let rows = list_pending_outbox (bounded_limit limit) repo in
      let (counts, forwards) = send_rows-counts 0 rows repo in
      let few : length rows ≤ bounded_limit limit = first_rows-le (bounded_limit limit) _ in
      (ground (arith, few), ground (arith, few), counts, forwards)
