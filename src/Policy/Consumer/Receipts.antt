-- ===== src/Policy/Consumer/Receipts.antt =====
-- workers/policy/consumer.py: an event that was handled has a receipt, and every listed project behind
-- it that it affects is marked.
use mathlib.Core.List.{Memᴰ}
use film_compliance_agent.Base.{
  ℕ, ◌≢◌, All-of_mem, ◌<◌, ◌==◌, leb, String, Bool, true, false, some, List, [], ◌∷◌, ◌≡◌, refl, ap,
  inl, inr, arith, Bool-cases, Option-cases, string_eq, string_iff,
}
use film_compliance_agent.Base.Dict.{lookup, lookup-insert_self}
use film_compliance_agent.Errors.{ok}
use film_compliance_agent.Policy.Documents.{PolicyUpdatedEvent, version_number}
use film_compliance_agent.Policy.Consumer.{
  ProjectPolicyState, ProjectRepository, ConsumeResult, EffectKind, Act, number_of, left_open,
  is_affected, wants_recalc, list_projects, has_receipt, put_receipt, receipted, mark_policy_stale,
  record_effect, mark, unless_ahead, consume_one, consume_each, consume_listed, consume, handle,
}
use film_compliance_agent.Policy.Consumer.Records.{
  is_stale, IsConfined, IsUntouched, act-ok, keeps-record_effect, keeps-asked, keeps-consume_each,
}

receipted-ok :
    (e : PolicyUpdatedEvent) (counts : ℕ × ℕ) (w : ProjectRepository)
    → (has_receipt e.idempotency_key (receipted e counts w).1 ≡ true)
      × ((receipted e counts w).1.projects ≡ w.projects)
unfolding receipted put_receipt has_receipt
receipted-ok e counts w = (ground (arith, string_iff e.idempotency_key e.idempotency_key), refl)

abbrev none_counted : ConsumeResult
none_counted = record { stale_marked = 0; recalculated = 0; already_processed = true }

marked_now :
    (id : String) (w w' : ProjectRepository) (u : Unit {0})
    → mark_policy_stale id w ≡ (ok u, w')
    → is_stale (lookup id w'.projects) ≡ true
unfolding mark_policy_stale
marked_now id w w' u h = elim (Option-cases (lookup id w.projects)) [
  | inl e ↦ absurd (ground arith)
  | inr (p, e) ↦ ground (arith, lookup-insert_self id (record p { policy_stale = true }) w.projects)
]

-- the event has no tier of the project recalculated, among some projects
abbrev AreApart : PolicyUpdatedEvent → String → List ProjectPolicyState → Type 0
AreApart e id ps =
    (q : ProjectPolicyState) → Memᴰ q ps → wants_recalc q e ≡ true → q.project_id ≢ id

settled_of_apart :
    (e : PolicyUpdatedEvent) (p : ProjectPolicyState) (ps : List ProjectPolicyState)
    → AreApart e p.project_id ps
    → Memᴰ p ps
    → wants_recalc p e ≡ false
settled_of_apart e p ps apart m = elim (Bool-cases (wants_recalc p e)) [
  | inl wants ↦ absurd (apart p m wants refl)
  | inr settled ↦ settled
]

module _ (recalc_tier : String → String → Act Bool) (confined : IsConfined recalc_tier) where
  mark-ok :
      (e : PolicyUpdatedEvent) (p : ProjectPolicyState) (w w' : ProjectRepository) (r : ℕ × ℕ)
      → wants_recalc p e ≡ false
      → mark recalc_tier e p w ≡ (ok r, w')
      → is_stale (lookup p.project_id w'.projects) ≡ true
  unfolding mark
  mark-ok e p w w' r settled h =
      let (u, w₁, marked, h₁) = act-ok (mark_policy_stale p.project_id) _ w w' r h in
      let (v, w₂, noted, h₂) =
        act-ok (record_effect e p.project_id EffectKind.policy_stale) _ w₁ w' r h₁ in
      let first = keeps-record_effect (λ j. Unit {0}) e p.project_id EffectKind.policy_stale w₁ in
      let second =
        keeps-asked recalc_tier confined (λ j. Unit {0}) e p (wants_recalc p e)
          (λ wants j mine. absurd (cc)) w₂ in
      (rw h₂ at second).marked p.project_id tt
        ((rw noted at first).marked p.project_id tt (marked_now p.project_id w w₁ u marked))

  -- a project behind the event's version
  pub record IsBehind (e : PolicyUpdatedEvent) (v : ℕ) (p : ProjectPolicyState) : Type 0 where
    pub number : ℕ
    pub numbered : version_number p.policy_snapshot_version ≡ some number
    pub less : number < v
    pub told : version_number e.snapshot_version ≡ some v
    pub affected : is_affected p e ≡ true

  not_left_open :
      (e : PolicyUpdatedEvent) (v : ℕ) (p : ProjectPolicyState) (w : ProjectRepository)
      → IsBehind e v p
      → left_open e p w ≡ false
  unfolding left_open
  not_left_open e v p w h = elim (Bool-cases (p.policy_snapshot_version == e.snapshot_version)) [
    | inl same ↦
        let one = (string_iff p.policy_snapshot_version e.snapshot_version).0 same in
        absurd (ground (arith, h.numbered, h.told, h.less, ap version_number one))
    | inr other ↦ ground arith
  ]

  consume_one-marks :
      (e : PolicyUpdatedEvent) (v : ℕ) (p : ProjectPolicyState) (w w' : ProjectRepository)
      (r : ℕ × ℕ)
      → IsBehind e v p
      → wants_recalc p e ≡ false
      → consume_one recalc_tier e v p w ≡ (ok r, w')
      → is_stale (lookup p.project_id w'.projects) ≡ true
  unfolding consume_one unless_ahead
  consume_one-marks e v p w w' r behind settled h =
      let shut = not_left_open e v p w behind in
      let ahead : leb v behind.number ≡ false = ground (arith, behind.less) in
      mark-ok e p w w' r settled
        (rw (consume_one, shut, behind.numbered, unless_ahead, ahead, behind.affected) at h)

  consume_each-marks :
      (e : PolicyUpdatedEvent) (v : ℕ) (p : ProjectPolicyState) (ps : List ProjectPolicyState)
      (w w' : ProjectRepository) (r : ℕ × ℕ)
      → IsBehind e v p
      → AreApart e p.project_id ps
      → Memᴰ p ps
      → consume_each recalc_tier e v ps w ≡ (ok r, w')
      → is_stale (lookup p.project_id w'.projects) ≡ true
  unfolding consume_each
  consume_each-marks e v p [] w w' r behind apart m h = elim m [ ]
  consume_each-marks e v p (q ∷ qs) w w' r behind apart (Memᴰ.head same) h =
      let (a, w₁, one, h₁) = act-ok (consume_one recalc_tier e v q) _ w w' r h in
      let (b, w₂, rest, h₂) = act-ok (consume_each recalc_tier e v qs) _ w₁ w' r h₁ in
      let marked =
        consume_one-marks e v p w w₁ a behind (settled_of_apart e p (q ∷ qs) apart (Memᴰ.head same))
          (rw (← same) at one) in
      let later =
        keeps-consume_each recalc_tier confined (λ j. ◌≡◌ {A = String} p.project_id j) e qs
          (λ x m wants j mine. rw mine at (apart x (Memᴰ.tail m) wants)) v qs
          (All-of_mem qs (λ x m. m)) w₁ in
      let last : w₂ ≡ w' = cc in
      let still = (rw rest at later).marked p.project_id refl marked in rw last at still
  consume_each-marks e v p (q ∷ qs) w w' r behind apart (Memᴰ.tail m) h =
      let (a, w₁, one, h₁) = act-ok (consume_one recalc_tier e v q) _ w w' r h in
      let (b, w₂, rest, h₂) = act-ok (consume_each recalc_tier e v qs) _ w₁ w' r h₁ in
      let last : w₂ ≡ w' = cc in
      let found =
        consume_each-marks e v p qs w₁ w₂ b behind (λ x k. apart x (Memᴰ.tail k)) m rest in
      rw last at found

  consume_listed-ok :
      (e : PolicyUpdatedEvent) (v : ℕ) (w w' : ProjectRepository) (r : ConsumeResult)
      → consume_listed recalc_tier e v w ≡ (ok r, w')
      → (counts : ℕ × ℕ) × (w₁ : ProjectRepository) × (consume_each recalc_tier e v
            (list_projects 100 w)
            w
          ≡ (ok counts, w₁))
        × (has_receipt e.idempotency_key w' ≡ true)
        × (w'.projects ≡ w₁.projects)
  unfolding consume_listed
  consume_listed-ok e v w w' r h =
      let (counts, w₁, ran, h₁) =
        act-ok (consume_each recalc_tier e v (list_projects 100 w)) (receipted e) w w' r h in
      let (seen, kept) = receipted-ok e counts w₁ in (counts, w₁, ran, rw h₁ at seen, rw h₁ at kept)

  -- A handled event has a receipt. Handling it again changes nothing and counts nothing.
  pub handle_again :
      (e : PolicyUpdatedEvent) (w w' : ProjectRepository) (r : ConsumeResult)
      → handle recalc_tier e w ≡ (ok r, w')
      → (has_receipt e.idempotency_key w' ≡ true)
        × (handle recalc_tier e w'
            ≡ (ok (record { stale_marked = 0; recalculated = 0; already_processed = true }), w'))
  unfolding handle consume
  handle_again e w w' r h = elim (Bool-cases (has_receipt e.idempotency_key w)) [
    | inl seen ↦
        let same : w ≡ w' = ground arith in (rw same at seen, rw (handle, rw same at seen) refl)
    | inr fresh ↦
        let (v, w₁, told, h₁) =
          act-ok (number_of e.snapshot_version) (consume_listed recalc_tier e) w w' r
            (rw (handle, fresh, consume) at h) in
        let (counts, w₂, ran, seen, kept) = consume_listed-ok e v w₁ w' r h₁ in
        (seen, rw (handle, seen) refl)
  ]

  -- When an event that had no receipt was handled, each of the first hundred projects that is behind
  -- its version and affected by it, and whose tier it has not recalculated, is marked, if the client
  -- that recalculates a tier touches only the project it is asked about.
  pub handle-marks :
      (e : PolicyUpdatedEvent) (v : ℕ) (p : ProjectPolicyState) (w w' : ProjectRepository)
      (r : ConsumeResult)
      → has_receipt e.idempotency_key w ≡ false
      → Memᴰ p (list_projects 100 w)
      → IsBehind e v p
      → IsUntouched e w p.project_id
      → handle recalc_tier e w ≡ (ok r, w')
      → is_stale (lookup p.project_id w'.projects) ≡ true
  unfolding handle consume
  handle-marks e v p w w' r fresh listed behind apart h =
      let ran = rw (handle, fresh, consume, behind.told) at h in
      let (counts, w₁, each, seen, kept) = consume_listed-ok e v w w' r ran in
      rw kept (consume_each-marks e v p (list_projects 100 w) w w₁ counts behind apart listed each)
