-- ===== src/Base/Dict.antt =====
-- Python's dicts, in insertion order, and `defaultdict`s as total functions.
use film_compliance_agent.Base.Tests.{Comparable, ◌==◌, if◌then◌else◌, ==-self, Bool-cases}
use film_compliance_agent.Base.Lists.{All, contains}
use mathlib.Core.Path.{◌≡◌, refl, ap}
use mathlib.Core.Logic.{inl, inr, ◌↔◌}
use mathlib.Core.Bool.{false, ◌||◌}
use mathlib.Core.Option.{Option, none, some}
use mathlib.Core.List.{List, [], ◌∷◌, map, Memᴰ}
use native.Mathlib.Omega.{arith}

abbrev pub Dict {ℓ κ} : Type ℓ → Type κ → Type (ℓ ⊔ κ)
Dict K V = List (K × V)

abbrev pub keys {ℓ κ} : {K : Type ℓ} {V : Type κ} → Dict K V → List K
keys = map (λ e. e.0)

abbrev pub values {ℓ κ} : {K : Type ℓ} {V : Type κ} → Dict K V → List V
values = map (λ e. e.1)

module _ {ℓ κ} {K : Type ℓ} {V : Type κ} ⦃e : Comparable K⦄ where
  -- `d.get(k)`
  unfoldable pub lookup : K → Dict K V → Option V
  lookup k [] = none
  lookup k ((j, v) ∷ d) = if j == k then some v else lookup k d

  -- `d[k] = v`
  unfoldable pub insert : K → V → Dict K V → Dict K V
  insert k v [] = (k, v) ∷ []
  insert k v ((j, w) ∷ d) = if j == k then (j, v) ∷ d else (j, w) ∷ insert k v d

  pub lookup-insert :
      (k j : K) (v : V) (d : Dict K V)
      → lookup j (insert k v d) ≡ (if k == j then some v else lookup j d)
  unfolding lookup insert
  lookup-insert k j v [] = refl
  lookup-insert k j v ((i, w) ∷ d) =
      ground (arith, e.same_iff k j, e.same_iff i k, e.same_iff i j, lookup-insert k j v d)

  pub lookup-insert_self : (k : K) (v : V) (d : Dict K V) → lookup k (insert k v d) ≡ some v
  lookup-insert_self k v d = rw (lookup-insert k k v d, ==-self k)

  -- `d[k] = v` on a `defaultdict`, whose missing keys read as the default.
  unfoldable pub update : K → V → (K → V) → K → V
  update k v f j = if k == j then v else f j

  pub update_self : (k : K) (v : V) (f : K → V) → update k v f k ≡ v
  unfolding update
  update_self k v f = rw (==-self k)

module _ {ℓ κ} {K : Type ℓ} {V : Type κ} ⦃e : Comparable K⦄ where
  -- A write adds its key and no other.
  pub contains-keys-insert :
      (k j : K) (v : V) (d : Dict K V)
      → contains (keys (insert k v d)) j ≡ (k == j || contains (keys d) j)
  unfolding insert
  contains-keys-insert k j v [] = refl
  contains-keys-insert k j v ((i, w) ∷ d) =
      ground (arith, e.same_iff k j, e.same_iff i k, e.same_iff i j, contains-keys-insert k j v d)

  pub lookup-eq-none_iff :
      (k : K) (d : Dict K V) → (lookup k d ≡ none) ↔ (contains (keys d) k ≡ false)
  unfolding lookup
  lookup-eq-none_iff k [] = (λ _. refl, λ _. refl)
  lookup-eq-none_iff k ((j, w) ∷ d) = ground (arith, lookup-eq-none_iff k d)

  -- What holds of every entry holds after a write of an entry of which it holds.
  pub All-insert :
      (P : K × V → Type κ) (k : K) (v : V) (d : Dict K V)
      → P (k, v)
      → All P d
      → All P (insert k v d)
  unfolding insert
  All-insert P k v [] p h = (p, tt)
  All-insert P k v ((j, w) ∷ d) p h = elim (Bool-cases (j == k)) [
    | inl same ↦ rw (same, (e.same_iff j k).0 same) (p, h.1)
    | inr other ↦ rw other (h.0, All-insert P k v d p h.1)
  ]

  pub mem_of_lookup : (k : K) (v : V) (d : Dict K V) → lookup k d ≡ some v → Memᴰ (k, v) d
  unfolding lookup
  mem_of_lookup k v [] h = cc
  mem_of_lookup k v ((j, w) ∷ d) h = elim (Bool-cases (j == k)) [
    | inl same ↦ Memᴰ.head (ground (arith, e.same_iff j k))
    | inr other ↦ Memᴰ.tail (mem_of_lookup k v d (ground arith))
  ]

pub mem-keys {ℓ κ} :
    {K : Type ℓ} {V : Type κ} (d : Dict K V) {x : K × V} → Memᴰ x d → Memᴰ x.0 (keys d)
mem-keys [] m = elim m [ ]
mem-keys (y ∷ d) (Memᴰ.head p) = Memᴰ.head (ap (λ z. z.0) p)
mem-keys (y ∷ d) (Memᴰ.tail m) = Memᴰ.tail (mem-keys d m)
