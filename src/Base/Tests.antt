-- ===== src/Base/Tests.antt =====
-- Boolean tests, the conditional, and equality of the types that the program compares by `==`.
use Prim.Native.Nat.{ℕ, compare, Ordering}
use Prim.Native.String
use Prim.Native.String.{String}
use mathlib.Core.Path.{◌≡◌, refl}
use mathlib.Core.Logic.{◌↔◌, ◌⊎◌, inl, inr, ◌≢◌}
use mathlib.Core.Bool.{Bool, true, false}
use mathlib.Core.Option.{Option, none, some}
use native.Mathlib.Omega.{arith}
use text.Mathlib.Text.{◌==◌ as str_eq, find?}
use text.Mathlib.TextFind.{find_cases}
use text.Mathlib.TextEquality.{eq_iff}

-- These compute to `compare`, which `ground` and `grind` read with no lemma listed.
abbrev pub leb : ℕ → ℕ → Bool
leb a b = elim (compare a b) [ Ordering.gt ↦ false | _ ↦ true ]

abbrev pub ltb : ℕ → ℕ → Bool
ltb a b = elim (compare a b) [ Ordering.lt ↦ true | _ ↦ false ]

abbrev pub nat_eq : ℕ → ℕ → Bool
nat_eq a b = elim (compare a b) [ Ordering.eq ↦ true | _ ↦ false ]

pub nat_eq_iff : (a b : ℕ) → (nat_eq a b ≡ true) ↔ (a ≡ b)
nat_eq_iff a b = ground arith

infix 1 if◌then◌else◌
abbrev pub if◌then◌else◌ {ℓ} : {A : Type ℓ} → Bool → A → A → A
if true then x else y = x
if false then x else y = y

-- To split on a computed value and keep the equation.
pub Bool-cases : (b : Bool) → (b ≡ true) ⊎ (b ≡ false)
Bool-cases true = inl refl
Bool-cases false = inr refl

pub Option-cases {ℓ} : {A : Type ℓ} (o : Option A) → (o ≡ none) ⊎ ((a : A) × (o ≡ some a))
Option-cases none = inl refl
Option-cases (some a) = inr (a, refl)

-- A type with a test that decides its equality.
pub record Comparable {κ} (T : Type κ) : Type κ where
  pub same_as : T → T → Bool
  pub same_iff : (x y : T) → (same_as x y ≡ true) ↔ (x ≡ y)

-- Python's `==` (and `is` on enumeration members).
infix 50 ◌==◌
abbrev pub ◌==◌ {κ} : {T : Type κ} ⦃c : Comparable T⦄ → T → T → Bool
◌==◌ ⦃c⦄ x y = c.same_as x y

instance abbrev pub string_eq : Comparable String
string_eq = record { same_as = str_eq; same_iff = eq_iff }

module _ {ℓ} {A : Type ℓ} ⦃e : Comparable A⦄ where
  pub ==-self : (a : A) → (a == a) ≡ true
  ==-self a = (e.same_iff a a).1 refl

  pub eq_of_== : (a b : A) → (a == b) ≡ true → a ≡ b
  eq_of_== a b h = (e.same_iff a b).0 h

  pub ==-ne : (a b : A) → a ≢ b → (a == b) ≡ false
  ==-ne a b h = elim (Bool-cases (a == b)) [ inl p ↦ absurd (h (eq_of_== a b p)) | inr q ↦ q ]

-- The equality test of an enumeration or a dataclass, from the decision that `hlevel` finds.
abbrev pub beq_of {ℓ} : {A : Type ℓ} → Discrete A → A → A → Bool
beq_of d a b = elim (d a b) [ yes _ ↦ true | no _ ↦ false ]

pub beq_of_iff {ℓ} : {A : Type ℓ} (d : Discrete A) (a b : A) → (beq_of d a b ≡ true) ↔ (a ≡ b)
beq_of_iff d a b =
    elim (d a b)
      as (λ r. ((elim r as (λ _. Bool) [ yes _ ↦ true | no _ ↦ false ]) ≡ true) ↔ (a ≡ b)) [
        | yes p ↦ (λ _. p, λ _. refl)
        | no n ↦ (λ h. cc, λ p. absurd (n p))
      ]

-- `not s` for a text that may be absent.
abbrev pub is_blank : Option String → Bool
is_blank none = true
is_blank (some s) = s == ""

pub string_iff : (s t : String) → ((s == t) ≡ true) ↔ (s ≡ t)
string_iff = eq_iff

abbrev pub is_none {ℓ} : {A : Type ℓ} → Option A → Bool
is_none none = true
is_none (some _) = false

-- `x == y` where either may be `None`
abbrev pub opt_beq {ℓ} : {A : Type ℓ} ⦃e : Comparable A⦄ → Option A → Option A → Bool
opt_beq none none = true
opt_beq (some a) (some b) = a == b
opt_beq _ _ = false

-- concatenation of texts, and so Python's f-strings
infixr 65 ◌+++◌
abbrev pub ◌+++◌ : String → String → String
s +++ t = String.◌++◌ s t

-- `needle in text`
unfoldable pub occurs : String → String → Bool
occurs needle text = elim (find? text needle) [ some _ ↦ true | none ↦ false ]

-- A text that occurs in another is a part of it.
pub parts_of_occurs :
    (needle text : String)
    → occurs needle text ≡ true
    → (before : String) × (after : String) × (text ≡ before +++ (needle +++ after))
unfolding occurs
parts_of_occurs needle text h = elim (find_cases text needle) [
  | inl (u, v, parts, place) ↦ (u, v, parts)
  | inr miss ↦ absurd (ground arith)
]
