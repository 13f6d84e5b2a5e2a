-- ===== src/Policy/Consumer.antt =====
-- workers/policy/consumer.py and adapters/memory_projects.py: an event marks the projects it affects,
-- asks for a new tier where one is provisional, and leaves a receipt. The client that recalculates a
-- tier is a parameter.
pub mod Receipts
pub mod Client
pub mod Records
use film_compliance_agent.Base.{
  ℕ, zero, suc, ◌+◌, String, Bool, true, false, not, ◌&&◌, ◌||◌, Option, none, some, List, [], ◌∷◌,
  ◌++◌, ◌==◌, ◌+++◌, leb, contains, if◌then◌else◌, string_eq, opt_beq, beq_of, beq_of_iff,
  Comparable,
}
use film_compliance_agent.Base.Dict.{Dict, lookup, insert, keys}
use film_compliance_agent.Base.Sorting.{sorted}
use film_compliance_agent.Schemas.Enums.States.{Tier}
use film_compliance_agent.Errors.{Error, raised, Result, ok, err}
use film_compliance_agent.Policy.Documents.{
  ImpactNode, impact_node_eq, PolicyUpdatedEvent, version_number,
}
use film_compliance_agent.Policy.Repository.{first_rows}

pub data WorkflowStatus : Type 0 where
  draft form_frozen filed : WorkflowStatus

pub record ProjectPolicyState : Type 0 where
  pub project_id : String
  pub policy_snapshot_version : String
  pub impact_nodes : List ImpactNode
  pub has_classification : Bool
  pub has_review : Bool
  pub tier : Tier
  pub tier_provisional : Bool
  pub workflow_status : WorkflowStatus
  pub policy_stale : Bool
  pub frozen_form_hash : Option String
  pub submitted_materials : List String
  pub registration_number : Option String

pub data EffectKind : Type 0 where
  policy_stale tier_recalculated : EffectKind

unfoldable pub effect_kind_value : EffectKind → String
effect_kind_value EffectKind.policy_stale = "policy_stale"
effect_kind_value EffectKind.tier_recalculated = "tier_recalculated"

pub record ProjectEffect : Type 0 where
  pub effect_id : String
  pub event_key : String
  pub project_id : String
  pub kind : EffectKind

pub data RecalcStatus : Type 0 where
  started completed : RecalcStatus

unfoldable pub RecalcStatus-discrete : Discrete RecalcStatus
RecalcStatus-discrete = hlevel

instance abbrev pub recalc_status_eq : Comparable RecalcStatus
recalc_status_eq = record {
  same_as = beq_of RecalcStatus-discrete;
  same_iff = beq_of_iff RecalcStatus-discrete;
}

-- `InMemoryProjectRepository`
pub record ProjectRepository : Type 0 where
  pub projects : Dict String ProjectPolicyState
  pub notifications : Dict String ProjectEffect
  pub timeline : Dict String ProjectEffect
  pub receipts : List String
  pub recalc_operations : Dict String RecalcStatus

-- a run on the repository; what was written before a raise stays written
abbrev pub Act {ℓ} : Type ℓ → Type ℓ
Act A = ProjectRepository → Result A × ProjectRepository

module _ {ℓ κ} {A : Type ℓ} {B : Type κ} where
  abbrev pub carry_on : Result A → ProjectRepository → (A → Act B) → Result B × ProjectRepository
  carry_on (ok a) w f = f a w
  carry_on (err e) w f = (err e, w)

  infixl 5 ◌>>=◌
  abbrev pub ◌>>=◌ : Act A → (A → Act B) → Act B
  ◌>>=◌ m f w = let (r, w') = m w in carry_on r w' f

infixl 5 ◌>>◌
abbrev pub ◌>>◌ {κ} : {Y : Type κ} → Act (Unit {0}) → Act Y → Act Y
first >> next = first >>= λ done. next

module _ {ℓ} {A : Type ℓ} where
  abbrev pub pure : A → Act A
  pure a w = (ok a, w)

  abbrev pub of_option : Option A → Error → Act A
  of_option none e w = (err e, w)
  of_option (some a) e w = (ok a, w)

abbrev pub modify : (ProjectRepository → ProjectRepository) → Act (Unit {0})
modify f w = (ok tt, f w)

unfoldable pub list_projects : ℕ → ProjectRepository → List ProjectPolicyState
list_projects limit w = go (first_rows limit (sorted (keys w.projects)))
  where
    go : List String → List ProjectPolicyState
    go [] = []
    go (id ∷ ids) =
        let rest = go ids in elim (lookup id w.projects) [ some p ↦ p ∷ rest | none ↦ rest ]

unfoldable pub mark_policy_stale : String → Act (Unit {0})
mark_policy_stale project_id w = elim (lookup project_id w.projects) [
  | none ↦ (err (raised "KeyError"), w)
  | some p ↦ (
    ok tt,
    record w { projects = insert project_id (record p { policy_stale = true }) w.projects },
  )
]

unfoldable pub upsert_effect : ProjectEffect → Act (Unit {0})
upsert_effect e = modify (λ w. record w {
  notifications = insert e.effect_id e w.notifications;
  timeline = insert e.effect_id e w.timeline;
})

unfoldable pub has_receipt : String → ProjectRepository → Bool
has_receipt key w = contains w.receipts key

unfoldable pub put_receipt : String → Act (Unit {0})
put_receipt key =
    modify (λ w. record w {
      receipts = if contains w.receipts key then w.receipts else key ∷ w.receipts;
    })

-- `setdefault(key, "started")`
unfoldable pub start_recalc : String → Act (Unit {0})
start_recalc key w = elim (lookup key w.recalc_operations) [
  | some _ ↦ (ok tt, w)
  | none ↦
      (ok tt, record w { recalc_operations = insert key RecalcStatus.started w.recalc_operations })
]

unfoldable pub complete_recalc : String → Act (Unit {0})
complete_recalc key =
    modify
      (λ w. record w { recalc_operations = insert key RecalcStatus.completed w.recalc_operations })

unfoldable pub recalc_status : String → ProjectRepository → Option RecalcStatus
recalc_status key w = lookup key w.recalc_operations

pub record ConsumeResult : Type 0 where
  pub stale_marked : ℕ
  pub recalculated : ℕ
  pub already_processed : Bool

-- the node is among those of the event and of the project
abbrev pub shares : ImpactNode → ProjectPolicyState → PolicyUpdatedEvent → Bool
shares node p e = contains e.impact node && contains p.impact_nodes node

-- `_is_affected`
unfoldable pub is_affected : ProjectPolicyState → PolicyUpdatedEvent → Bool
is_affected p e =
    (shares ImpactNode.d1b p e && p.has_classification)
    || (shares ImpactNode.d1c p e && p.has_classification)
    || (shares ImpactNode.c1a p e && p.has_review)

-- does the event ask for a new tier of the project?
unfoldable pub wants_recalc : ProjectPolicyState → PolicyUpdatedEvent → Bool
wants_recalc p e =
    e.thresholds_published
    && shares ImpactNode.d1c p e
    && p.has_classification
    && p.tier_provisional

-- `_upsert_effect`
unfoldable pub record_effect : PolicyUpdatedEvent → String → EffectKind → Act (Unit {0})
record_effect e project_id kind = upsert_effect (record {
  effect_id = e.idempotency_key +++ (":" +++ (project_id +++ (":" +++ effect_kind_value kind)));
  event_key = e.idempotency_key;
  project_id = project_id;
  kind = kind;
})

unfoldable pub recalc_key : PolicyUpdatedEvent → String → String
recalc_key e project_id = e.idempotency_key +++ (":" +++ (project_id +++ ":recalc"))

abbrev pub number_of : String → Act ℕ
number_of version = of_option (version_number version) (raised "ValueError")

-- whether a recalculation of this event was left open that did move the project
unfoldable pub left_open : PolicyUpdatedEvent → ProjectPolicyState → ProjectRepository → Bool
left_open e p w =
    opt_beq (recalc_status (recalc_key e p.project_id) w) (some RecalcStatus.started)
    && p.policy_snapshot_version == e.snapshot_version

-- the end of the loop, with what it counted
unfoldable pub receipted : PolicyUpdatedEvent → ℕ × ℕ → Act ConsumeResult
receipted e counts = do
  put_receipt e.idempotency_key
  pure (record { stale_marked = counts.0; recalculated = counts.1; already_processed = false })

-- the record of a recalculation, if the tier changed
unfoldable pub recalculated : PolicyUpdatedEvent → ProjectPolicyState → Bool → Act ℕ
recalculated e p true = do
  record_effect e p.project_id EffectKind.tier_recalculated
  complete_recalc (recalc_key e p.project_id)
  pure 1
recalculated e p false = do complete_recalc (recalc_key e p.project_id); pure 0

-- the end of a recalculation that was left open
unfoldable pub finish : PolicyUpdatedEvent → ProjectPolicyState → Act (ℕ × ℕ)
finish e p = do
  record_effect e p.project_id EffectKind.tier_recalculated
  complete_recalc (recalc_key e p.project_id)
  pure (0, 1)

-- `recalc_tier` of the client: whether the tier changed
module _ (recalc_tier : String → String → Act Bool) where
  unfoldable pub recalculate : PolicyUpdatedEvent → ProjectPolicyState → Act ℕ
  recalculate e p = do
    start_recalc (recalc_key e p.project_id)
    changed ← recalc_tier p.project_id e.snapshot_version
    recalculated e p changed

  unfoldable pub asked : PolicyUpdatedEvent → ProjectPolicyState → Bool → Act (ℕ × ℕ)
  asked e p true = do n ← recalculate e p; pure (1, n)
  asked e p false = pure (1, 0)

  -- a project that the event affects
  unfoldable pub mark : PolicyUpdatedEvent → ProjectPolicyState → Act (ℕ × ℕ)
  mark e p = do
    mark_policy_stale p.project_id
    record_effect e p.project_id EffectKind.policy_stale
    asked e p (wants_recalc p e)

  -- a project at the version `n`
  unfoldable pub unless_ahead : PolicyUpdatedEvent → ℕ → ProjectPolicyState → ℕ → Act (ℕ × ℕ)
  unless_ahead e event_version p n =
      if leb event_version n || not (is_affected p e) then pure (0, 0) else mark e p

  -- one round of the loop: how many marks and recalculations it adds
  unfoldable pub consume_one : PolicyUpdatedEvent → ℕ → ProjectPolicyState → Act (ℕ × ℕ)
  consume_one e event_version p w =
      if left_open e p w
      then finish e p w
      else (number_of p.policy_snapshot_version >>= λ n. unless_ahead e event_version p n) w

  unfoldable pub consume_each : PolicyUpdatedEvent → ℕ → List ProjectPolicyState → Act (ℕ × ℕ)
  consume_each e event_version [] = pure (0, 0)
  consume_each e event_version (p ∷ ps) =
      let rest = consume_each e event_version ps in
      (do
        (stale, moved) ← consume_one e event_version p
        (more, again) ← rest
        pure (stale + more, moved + again))

  -- the loop on the first hundred projects
  unfoldable pub consume_listed : PolicyUpdatedEvent → ℕ → Act ConsumeResult
  consume_listed e event_version w =
      (consume_each e event_version (list_projects 100 w) >>= receipted e) w

  -- an event that has no receipt
  unfoldable pub consume : PolicyUpdatedEvent → Act ConsumeResult
  consume e = number_of e.snapshot_version >>= consume_listed e

  -- `PolicyUpdatedConsumer.handle`
  unfoldable pub handle : PolicyUpdatedEvent → Act ConsumeResult
  handle e w =
      if has_receipt e.idempotency_key w
      then (ok (record { stale_marked = 0; recalculated = 0; already_processed = true }), w)
      else consume e w
