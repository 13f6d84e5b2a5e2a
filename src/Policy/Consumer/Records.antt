-- ===== src/Policy/Consumer/Records.antt =====
-- workers/policy/consumer.py: what an event leaves of the projects' filings and marks.
use mathlib.Core.List.{Memᴰ}
use film_compliance_agent.Base.{
  ◌≢◌, All, All-of_mem, ℕ, ◌||◌, not, leb, String, Bool, true, false, Option, none, some, List, [],
  ◌∷◌, ◌≡◌, refl, ◌∙◌, inl, inr, arith, Bool-cases, Option-cases, string_eq, string_iff,
}
use film_compliance_agent.Base.Dict.{lookup, lookup-insert}
use film_compliance_agent.Errors.{Result, ok, err}
use film_compliance_agent.Policy.Documents.{PolicyUpdatedEvent, version_number}
use film_compliance_agent.Policy.Consumer.{
  WorkflowStatus, ProjectPolicyState, ProjectRepository, EffectKind, Act, carry_on, ◌>>=◌,
  mark_policy_stale, upsert_effect, put_receipt, start_recalc, complete_recalc, record_effect,
  recalculated, number_of, recalc_key, left_open, wants_recalc, is_affected, list_projects,
  has_receipt, recalculate, asked, mark, finish, unless_ahead, consume_one, consume_each, receipted,
  consume_listed, consume, handle,
}

pub record Filing : Type 0 where
  pub workflow_status : WorkflowStatus
  pub frozen_form_hash : Option String
  pub submitted_materials : List String
  pub registration_number : Option String

-- the part of a project that its creator has filed or frozen
abbrev pub filing : Option ProjectPolicyState → Option Filing
filing none = none
filing (some p) = some (record {
  workflow_status = p.workflow_status;
  frozen_form_hash = p.frozen_form_hash;
  submitted_materials = p.submitted_materials;
  registration_number = p.registration_number;
})

-- the project is marked
abbrev pub is_stale : Option ProjectPolicyState → Bool
is_stale none = false
is_stale (some p) = p.policy_stale

-- no filing has changed, and none of the projects of a kind has lost its mark
pub record IsKept (P : String → Type 0) (w w' : ProjectRepository) : Type 0 where
  pub filed : (id : String) → filing (lookup id w'.projects) ≡ filing (lookup id w.projects)
  pub marked :
      (id : String)
      → P id
      → is_stale (lookup id w.projects) ≡ true
      → is_stale (lookup id w'.projects) ≡ true

-- What the code relies on of the client that recalculates a tier: it changes no project but the one
-- it is asked about, and not what that one has filed or frozen.
pub record IsConfined (recalc_tier : String → String → Act Bool) : Type 0 where
  pub filed :
      (id version : String) (w : ProjectRepository) (j : String)
      → filing (lookup j (recalc_tier id version w).1.projects) ≡ filing (lookup j w.projects)
  pub others :
      (id version : String) (w : ProjectRepository) (j : String)
      → id ≢ j
      → lookup j (recalc_tier id version w).1.projects ≡ lookup j w.projects

-- the event has no tier of the project recalculated
abbrev pub IsUntouched : PolicyUpdatedEvent → ProjectRepository → String → Type 0
IsUntouched e w j =
    (q : ProjectPolicyState)
    → Memᴰ q (list_projects 100 w)
    → wants_recalc q e ≡ true
    → q.project_id ≢ j

IsKept-refl :
    (P : String → Type 0) (w w' : ProjectRepository) → w'.projects ≡ w.projects → IsKept P w w'
IsKept-refl P w w' same = record {
  filed = λ id. rw same refl;
  marked = λ id _ stale. rw same stale;
}

IsKept-trans :
    (P : String → Type 0) (w w₁ w' : ProjectRepository)
    → IsKept P w w₁
    → IsKept P w₁ w'
    → IsKept P w w'
IsKept-trans P w w₁ w' h k = record {
  filed = λ id. k.filed id ∙ h.filed id;
  marked = λ id mine stale. k.marked id mine (h.marked id mine stale);
}

-- a run that keeps them, whether it returns or raises
abbrev pub KeepsProjects {ℓ} : {A : Type ℓ} → (String → Type 0) → Act A → Type 0
KeepsProjects P m = (w : ProjectRepository) → IsKept P w (m w).1

module _ {ℓ κ} {A : Type ℓ} {B : Type κ} where
  keeps-bind :
      (P : String → Type 0) (m : Act A) (f : A → Act B)
      → KeepsProjects P m
      → ((a : A) → KeepsProjects P (f a))
      → KeepsProjects P (m >>= f)
  keeps-bind P m f h k w = go (m w) refl
    where
      go : (r : Result A × ProjectRepository) → m w ≡ r → IsKept P w (carry_on r.0 r.1 f).1
      go (ok a, w₁) e = let kept = h w in IsKept-trans P w w₁ (f a w₁).1 (rw e at kept) (k a w₁)
      go (err x, w₁) e = let kept = h w in rw e at kept

  pub act-ok :
      (m : Act A) (f : A → Act B) (w w' : ProjectRepository) (b : B)
      → (m >>= f) w ≡ (ok b, w')
      → (a : A) × (w₁ : ProjectRepository) × (m w ≡ (ok a, w₁)) × (f a w₁ ≡ (ok b, w'))
  act-ok m f w w' b h = go (m w) refl h
    where
      go :
          (r : Result A × ProjectRepository)
          → m w ≡ r
          → carry_on r.0 r.1 f ≡ (ok b, w')
          → (a : A) × (w₁ : ProjectRepository) × (m w ≡ (ok a, w₁)) × (f a w₁ ≡ (ok b, w'))
      go (ok a, w₁) e k = (a, w₁, e, k)
      go (err x, w₁) e k = absurd (cc)

module _ (P : String → Type 0) where
  keeps-mark_policy_stale : (id : String) → KeepsProjects P (mark_policy_stale id)
  unfolding mark_policy_stale
  keeps-mark_policy_stale id w = elim (Option-cases (lookup id w.projects)) [
    | inl e ↦ IsKept-refl P w (mark_policy_stale id w).1 (ground arith)
    | inr (p, e) ↦
        rw (mark_policy_stale, e)
          (record {
            filed = λ j. ground (
              arith,
              lookup-insert id j (record p { policy_stale = true }) w.projects,
              string_iff id j,
            );
            marked = λ j mine stale. ground (
              arith,
              lookup-insert id j (record p { policy_stale = true }) w.projects,
              string_iff id j,
            );
          })
  ]

  keeps-start_recalc : (key : String) → KeepsProjects P (start_recalc key)
  unfolding start_recalc
  keeps-start_recalc key w = IsKept-refl P w (start_recalc key w).1 (ground arith)

  keeps-complete_recalc : (key : String) → KeepsProjects P (complete_recalc key)
  unfolding complete_recalc
  keeps-complete_recalc key w = IsKept-refl P w (complete_recalc key w).1 refl

  pub keeps-record_effect :
      (e : PolicyUpdatedEvent) (id : String) (kind : EffectKind)
      → KeepsProjects P (record_effect e id kind)
  unfolding record_effect upsert_effect
  keeps-record_effect e id kind w = IsKept-refl P w (record_effect e id kind w).1 refl

  keeps-recalculated :
      (e : PolicyUpdatedEvent) (p : ProjectPolicyState) (changed : Bool)
      → KeepsProjects P (recalculated e p changed)
  unfolding recalculated
  keeps-recalculated e p true =
      keeps-bind P (record_effect e p.project_id EffectKind.tier_recalculated) _
        (keeps-record_effect e p.project_id EffectKind.tier_recalculated)
        λ _.
          keeps-bind P (complete_recalc (recalc_key e p.project_id)) _ (keeps-complete_recalc _)
            λ _. λ w. IsKept-refl P w w refl
  keeps-recalculated e p false =
      keeps-bind P (complete_recalc (recalc_key e p.project_id)) _ (keeps-complete_recalc _)
        λ _. λ w. IsKept-refl P w w refl

  keeps-receipted : (e : PolicyUpdatedEvent) (r : ℕ × ℕ) → KeepsProjects P (receipted e r)
  unfolding receipted put_receipt
  keeps-receipted e r w = IsKept-refl P w (receipted e r w).1 refl

  keeps-number_of : (version : String) → KeepsProjects P (number_of version)
  keeps-number_of version w = elim (Option-cases (version_number version)) [
    | inl e ↦ IsKept-refl P w (number_of version w).1 (ground arith)
    | inr (n, e) ↦ IsKept-refl P w (number_of version w).1 (ground arith)
  ]

  keeps-finish : (e : PolicyUpdatedEvent) (p : ProjectPolicyState) → KeepsProjects P (finish e p)
  unfolding finish
  keeps-finish e p =
      keeps-bind P (record_effect e p.project_id EffectKind.tier_recalculated) _
        (keeps-record_effect e p.project_id EffectKind.tier_recalculated)
        λ _.
          keeps-bind P (complete_recalc (recalc_key e p.project_id)) _ (keeps-complete_recalc _)
            λ _. λ w. IsKept-refl P w w refl

module _ (recalc_tier : String → String → Act Bool) (confined : IsConfined recalc_tier)
    (P : String → Type 0) where
  keeps-client :
      (id version : String)
      → ((j : String) → P j → id ≢ j)
      → KeepsProjects P (recalc_tier id version)
  keeps-client id version apart w = record {
    filed = confined.filed id version w;
    marked = λ j mine stale. rw (confined.others id version w j (apart j mine)) stale;
  }

  keeps-recalculate :
      (e : PolicyUpdatedEvent) (p : ProjectPolicyState)
      → ((j : String) → P j → p.project_id ≢ j)
      → KeepsProjects P (recalculate recalc_tier e p)
  unfolding recalculate
  keeps-recalculate e p apart =
      keeps-bind P (start_recalc (recalc_key e p.project_id)) _ (keeps-start_recalc P _) λ _.
        keeps-bind P (recalc_tier p.project_id e.snapshot_version) _
          (keeps-client p.project_id e.snapshot_version apart) (keeps-recalculated P e p)

  -- what follows the mark of a project
  pub keeps-asked :
      (e : PolicyUpdatedEvent) (p : ProjectPolicyState) (wanted : Bool)
      → (wanted ≡ true → (j : String) → P j → p.project_id ≢ j)
      → KeepsProjects P (asked recalc_tier e p wanted)
  unfolding asked
  keeps-asked e p true apart =
      keeps-bind P (recalculate recalc_tier e p) _ (keeps-recalculate e p (apart refl))
        λ n. λ w. IsKept-refl P w w refl
  keeps-asked e p false apart = λ w. IsKept-refl P w w refl

  module _ (e : PolicyUpdatedEvent) (ps : List ProjectPolicyState)
      (apart : (q : ProjectPolicyState)
        → Memᴰ q ps
        → wants_recalc q e ≡ true
        → (j : String) → P j
        → q.project_id ≢ j) where
    keeps-mark : (p : ProjectPolicyState) → Memᴰ p ps → KeepsProjects P (mark recalc_tier e p)
    unfolding mark
    keeps-mark p m =
        keeps-bind P (mark_policy_stale p.project_id) _ (keeps-mark_policy_stale P p.project_id)
          λ _.
            keeps-bind P (record_effect e p.project_id EffectKind.policy_stale) _
              (keeps-record_effect P e p.project_id EffectKind.policy_stale)
              λ _. keeps-asked e p (wants_recalc p e) (apart p m)

    keeps-unless_ahead :
        (v : ℕ) (p : ProjectPolicyState) (n : ℕ)
        → Memᴰ p ps
        → KeepsProjects P (unless_ahead recalc_tier e v p n)
    unfolding unless_ahead
    keeps-unless_ahead v p n m = elim (Bool-cases (leb v n || not (is_affected p e))) [
      | inl skip ↦ rw (unless_ahead, skip) (λ v. IsKept-refl P v v refl)
      | inr on ↦ rw (unless_ahead, on) (keeps-mark p m)
    ]

    keeps-consume_one :
        (v : ℕ) (p : ProjectPolicyState)
        → Memᴰ p ps
        → KeepsProjects P (consume_one recalc_tier e v p)
    unfolding consume_one
    keeps-consume_one v p m w = elim (Bool-cases (left_open e p w)) [
      | inl begun ↦ rw (consume_one, begun) (keeps-finish P e p w)
      | inr shut ↦
          rw (consume_one, shut)
            (keeps-bind P (number_of p.policy_snapshot_version) _ (keeps-number_of P _)
              (λ n. keeps-unless_ahead v p n m) w)
    ]

    pub keeps-consume_each :
        (v : ℕ) (qs : List ProjectPolicyState)
        → All (λ q. Memᴰ q ps) qs
        → KeepsProjects P (consume_each recalc_tier e v qs)
    unfolding consume_each
    keeps-consume_each v [] ms = λ w. IsKept-refl P w w refl
    keeps-consume_each v (p ∷ qs) ms =
        keeps-bind P (consume_one recalc_tier e v p) _ (keeps-consume_one v p ms.0) λ r.
          keeps-bind P (consume_each recalc_tier e v qs) _ (keeps-consume_each v qs ms.1)
            λ s. λ w. IsKept-refl P w w refl

module _ (recalc_tier : String → String → Act Bool) (confined : IsConfined recalc_tier)
    (e : PolicyUpdatedEvent) (w : ProjectRepository) where
  keeps-consume_listed : (v : ℕ) → IsKept (IsUntouched e w) w (consume_listed recalc_tier e v w).1
  unfolding consume_listed
  keeps-consume_listed v =
      keeps-bind (IsUntouched e w) (consume_each recalc_tier e v (list_projects 100 w))
        (receipted e)
        (keeps-consume_each recalc_tier confined (IsUntouched e w) e (list_projects 100 w)
          (λ q m wants j mine. mine q m wants) v (list_projects 100 w)
          (All-of_mem (list_projects 100 w) (λ q m. m)))
        (keeps-receipted (IsUntouched e w) e) w

  keeps-consume : IsKept (IsUntouched e w) w (consume recalc_tier e w).1
  unfolding consume
  keeps-consume = elim (Option-cases (version_number e.snapshot_version)) [
    | inl unread ↦ rw (consume, unread) (IsKept-refl (IsUntouched e w) w w refl)
    | inr (n, read) ↦ rw (consume, read) (keeps-consume_listed n)
  ]

  -- However an event is handled, and where it raises too, no project's status, frozen form,
  -- submitted materials or registration number changes, and no mark is taken from a project whose
  -- tier the event has not recalculated, if the client that recalculates a tier touches only the
  -- project it is asked about and not what that one has filed or frozen.
  pub handle-KeepsProjects : IsKept (IsUntouched e w) w (handle recalc_tier e w).1
  unfolding handle
  handle-KeepsProjects = elim (Bool-cases (has_receipt e.idempotency_key w)) [
    | inl seen ↦ rw (handle, seen) (IsKept-refl (IsUntouched e w) w w refl)
    | inr fresh ↦ rw (handle, fresh) keeps-consume
  ]
