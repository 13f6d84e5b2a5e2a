-- ===== src/Effects.antt =====
-- The methods of `WorkflowService` read an environment, change the stores and may raise. What was
-- written before a raise stays written, so the stores come back beside an error too.
use film_compliance_agent.Base.{
  ℕ, ◌+◌, String, Bool, true, false, Option, none, some, ◌≡◌, refl, sym, ◌⊎◌, inl, inr,
}
use film_compliance_agent.Schemas.Enums.Process.{VerificationStatus}
use film_compliance_agent.Schemas.Common.{Time}
use film_compliance_agent.Schemas.Policy.{FormPack, TierPack, ProcessPack}
use film_compliance_agent.Errors.{Error, snapshot_not_found, Result, ok, err}
use film_compliance_agent.Forms.{Payload}
use film_compliance_agent.Store.{Stores, Bytes}

-- What the service is given: the clock's readings in turn, the identifiers drawn in turn (for the
-- prefix of a kind), the policy snapshots, and the two digests.
pub record Env : Type 0 where
  pub clock : ℕ → Time
  pub fresh : String → ℕ → String
  pub latest : Option String
  pub form_pack : String → Option FormPack
  pub tier_pack : String → Option TierPack
  pub process_pack : String → Option ProcessPack
  pub has_clause : String → String → Bool
  pub verification_status : String → VerificationStatus
  pub digest : Payload → String
  pub sha256 : Bytes → String

abbrev pub M {ℓ} : Type ℓ → Type ℓ
M A = Env → Stores → Result A × Stores

module _ {ℓ κ} {A : Type ℓ} {B : Type κ} where
  abbrev pub continue : Env → Result A → Stores → (A → M B) → Result B × Stores
  continue env (ok a) w f = f a env w
  continue env (err e) w f = (err e, w)

  infixl 5 ◌>>=◌
  abbrev pub ◌>>=◌ : M A → (A → M B) → M B
  ◌>>=◌ m f env w = let (r, w') = m env w in continue env r w' f

infixl 5 ◌>>◌
abbrev pub ◌>>◌ {κ} : {Y : Type κ} → M (Unit {0}) → M Y → M Y
first >> next = first >>= λ done. next

module _ {ℓ} {A : Type ℓ} where
  abbrev pub pure : A → M A
  pure a env w = (ok a, w)

  abbrev pub raise : Error → M A
  raise e env w = (err e, w)

  abbrev pub lift : Result A → M A
  lift r env w = (r, w)

  abbrev pub gets : (Stores → A) → M A
  gets f env w = (ok (f w), w)

  abbrev pub asks : (Env → A) → M A
  asks f env w = (ok (f env), w)

  -- a value that the snapshots may lack
  abbrev pub from_snapshot : Option A → M A
  from_snapshot none = raise snapshot_not_found
  from_snapshot (some a) = pure a

abbrev pub modify : (Stores → Stores) → M (Unit {0})
modify f env w = (ok tt, f w)

-- `if test: raise e`
abbrev pub raise_if : Bool → Error → M (Unit {0})
raise_if true e = raise e
raise_if false e = pure tt

-- `self._clock.now()`
unfoldable pub now : M Time
now env w = (ok (env.clock w.readings), record w { readings = w.readings + 1 })

-- `new_id(kind)`
unfoldable pub new_id : String → M String
new_id kind env w = (ok (env.fresh kind w.drawn), record w { drawn = w.drawn + 1 })

module _ {ℓ κ} {A : Type ℓ} {B : Type κ} where
  -- Inversion of a bind that returned.
  pub bind-ok :
      (m : M A) (f : A → M B) (env : Env) (w w' : Stores) (b : B)
      → (m >>= f) env w ≡ (ok b, w')
      → (a : A) × (w₁ : Stores) × (m env w ≡ (ok a, w₁)) × (f a env w₁ ≡ (ok b, w'))
  bind-ok m f env w w' b h = go (m env w) refl h
    where
      go :
          (r : Result A × Stores)
          → m env w ≡ r
          → continue env r.0 r.1 f ≡ (ok b, w')
          → (a : A) × (w₁ : Stores) × (m env w ≡ (ok a, w₁)) × (f a env w₁ ≡ (ok b, w'))
      go (ok a, w₁) e k = (a, w₁, e, k)
      go (err x, w₁) e k = absurd (cc)

-- A run returns or raises.
pub run-cases {ℓ} :
    {A : Type ℓ} (m : M A) (env : Env) (w : Stores)
    → ((a : A) × (w' : Stores) × (m env w ≡ (ok a, w')))
      ⊎ ((e : Error) × (w' : Stores) × (m env w ≡ (err e, w')))
run-cases {A} m env w = go (m env w) refl
  where
    go :
        (r : Result A × Stores)
        → m env w ≡ r
        → ((a : A) × (w' : Stores) × (m env w ≡ (ok a, w')))
          ⊎ ((e : Error) × (w' : Stores) × (m env w ≡ (err e, w')))
    go (ok a, w') h = inl (a, w', h)
    go (err e, w') h = inr (e, w', h)

-- Inversion of a guard that let the run go on.
pub raise_if-ok {ℓ} :
    {B : Type ℓ} (test : Bool) (e : Error) (k : M B) (env : Env) (w w' : Stores) (b : B)
    → (raise_if test e >> k) env w ≡ (ok b, w')
    → (test ≡ false) × (k env w ≡ (ok b, w'))
raise_if-ok true e k env w w' b h = cc
raise_if-ok false e k env w w' b h = (refl, h)

module _ {ℓ κ} {A : Type ℓ} {B : Type κ} where
  -- Inversion of a run whose value was mapped.
  pub map-ok :
      (m : M A) (f : A → B) (env : Env) (w w' : Stores) (b : B)
      → (m >>= λ a. pure (f a)) env w ≡ (ok b, w')
      → (a : A) × (m env w ≡ (ok a, w')) × (b ≡ f a)
  map-ok m f env w w' b h =
      let (a, w₁, ran, fin) = bind-ok m (λ x. pure (f x)) env w w' b h in
      (a, ends a w₁ ran fin, sym (value a w₁ fin))
    where
      value : (a : A) (w₁ : Stores) → pure (f a) env w₁ ≡ (ok b, w') → f a ≡ b
      value a w₁ fin = cc

      ends :
          (a : A) (w₁ : Stores)
          → m env w ≡ (ok a, w₁)
          → pure (f a) env w₁ ≡ (ok b, w')
          → m env w ≡ (ok a, w')
      ends a w₁ ran fin = let same : w₁ ≡ w' = cc in rw same at ran
