-- ===== src/Base/Lists.antt =====
-- Lists measured by native numbers, Python's comprehensions, `any`, `all` and `in`.
use Prim.Native.Nat.{ℕ, suc}
use mathlib.Core.Path.{◌≡◌, refl, sym}
use mathlib.Core.Bool.{Bool, true, false, not, ◌&&◌, ◌||◌}
use mathlib.Core.Option.{Option, none, some}
use mathlib.Core.List.{List, [], ◌∷◌, ◌++◌, map, Memᴰ}
use native.Mathlib.Omega.{arith}
use mathlib.Core.Logic.{inl, inr}
use film_compliance_agent.Base.Tests.{Comparable, ◌==◌, if◌then◌else◌, Bool-cases, Option-cases}

module _ {ℓ} {A : Type ℓ} where
  abbrev pub length : List A → ℕ
  length [] = 0
  length (_ ∷ xs) = suc (length xs)

  -- `[x for x in xs if p(x)]`
  abbrev pub keep : (A → Bool) → List A → List A
  keep p [] = []
  keep p (x ∷ xs) = let rest = keep p xs in if p x then x ∷ rest else rest

  abbrev pub any : (A → Bool) → List A → Bool
  any p [] = false
  any p (x ∷ xs) = p x || any p xs

  abbrev pub all : (A → Bool) → List A → Bool
  all p [] = true
  all p (x ∷ xs) = p x && all p xs

  abbrev pub is_empty : List A → Bool
  is_empty [] = true
  is_empty (_ ∷ _) = false

  -- `xs[-1] if xs else None`
  abbrev pub last : List A → Option A
  last [] = none
  last (x ∷ xs) = elim (last xs) [ none ↦ some x | some y ↦ some y ]

module _ {ℓ} {A : Type ℓ} ⦃e : Comparable A⦄ where
  abbrev pub contains : List A → A → Bool
  contains [] a = false
  contains (x ∷ xs) a = x == a || contains xs a

module _ {ℓ κ} {A : Type ℓ} (P : A → Type κ) where
  abbrev pub All : List A → Type κ
  All [] = Unit
  All (x ∷ xs) = P x × All xs

module _ {ℓ} {A : Type ℓ} where
  pub is_empty-append : (xs ys : List A) → is_empty (xs ++ ys) ≡ (is_empty xs && is_empty ys)
  is_empty-append [] ys = refl
  is_empty-append (x ∷ xs) ys = refl

  pub is_empty-map {κ} : {B : Type κ} (f : A → B) (xs : List A) → is_empty (map f xs) ≡ is_empty xs
  is_empty-map f [] = refl
  is_empty-map f (x ∷ xs) = refl

  pub is_empty-keep : (p : A → Bool) (xs : List A) → is_empty (keep p xs) ≡ all (λ x. not (p x)) xs
  is_empty-keep p [] = refl
  is_empty-keep p (x ∷ xs) = ground (arith, is_empty-keep p xs)

  pub all-All : (p : A → Bool) (xs : List A) → all p xs ≡ true → All (λ x. p x ≡ true) xs
  all-All p [] h = tt
  all-All p (x ∷ xs) h = ground (arith, all-All p xs)

  pub All-all : (p : A → Bool) (xs : List A) → All (λ x. p x ≡ true) xs → all p xs ≡ true
  All-all p [] h = refl
  All-all p (x ∷ xs) h = ground (arith, All-all p xs)

module _ {ℓ κ} {A : Type ℓ} {P Q : A → Type κ} where
  pub All-map : ((x : A) → P x → Q x) → (xs : List A) → All P xs → All Q xs
  All-map f [] h = tt
  All-map f (x ∷ xs) h = (f x h.0, All-map f xs h.1)

module _ {ℓ κ} {A : Type ℓ} {P : A → Type κ} where
  pub All-of_mem : (xs : List A) → ((x : A) → Memᴰ x xs → P x) → All P xs
  All-of_mem [] f = tt
  All-of_mem (x ∷ xs) f = (f x (Memᴰ.head refl), All-of_mem xs (λ y m. f y (Memᴰ.tail m)))

pub All-mem {ℓ κ} : {A : Type ℓ} (P : A → Type κ) (xs : List A) {x : A} → All P xs → Memᴰ x xs → P x
All-mem P [] h m = elim m [ ]
All-mem P (y ∷ ys) h (Memᴰ.head e) = rw e h.0
All-mem P (y ∷ ys) h (Memᴰ.tail m) = All-mem P ys h.1 m

module _ {ℓ} {A : Type ℓ} where
  mem-keep-cons :
      (p : A → Bool) {x : A} (y : A) (kept ys : List A)
      → p y ≡ true
      → (Memᴰ x kept → Memᴰ x ys × (p x ≡ true))
      → Memᴰ x (y ∷ kept)
      → Memᴰ x (y ∷ ys) × (p x ≡ true)
  mem-keep-cons p y kept ys h ih (Memᴰ.head e) = (Memᴰ.head e, rw e h)
  mem-keep-cons p y kept ys h ih (Memᴰ.tail m) = (Memᴰ.tail (ih m).0, (ih m).1)

  pub mem-keep :
      (p : A → Bool) {x : A} (xs : List A) → Memᴰ x (keep p xs) → Memᴰ x xs × (p x ≡ true)
  mem-keep p [] m = elim m [ ]
  mem-keep p (y ∷ ys) m = elim (Bool-cases (p y)) [
    | inl h ↦ mem-keep-cons p y (keep p ys) ys h (mem-keep p ys) (rw h at m)
    | inr h ↦ let r = mem-keep p ys (rw h at m) in (Memᴰ.tail r.0, r.1)
  ]

  pub mem_of_last : {x : A} (xs : List A) → last xs ≡ some x → Memᴰ x xs
  mem_of_last [] h = cc
  mem_of_last (y ∷ ys) h = elim (Option-cases (last ys)) [
    | inl e ↦ Memᴰ.head (ground arith)
    | inr (z, e) ↦ Memᴰ.tail (mem_of_last ys (ground arith))
  ]

  pub last-eq-none : (xs : List A) → last xs ≡ none → is_empty xs ≡ true
  last-eq-none [] h = refl
  last-eq-none (y ∷ ys) h = elim (Option-cases (last ys)) [
    | inl e ↦ absurd (ground arith)
    | inr (z, e) ↦ absurd (ground arith)
  ]

module _ {ℓ} {A : Type ℓ} ⦃e : Comparable A⦄ where
  pub mem_of_contains : (a : A) (xs : List A) → contains xs a ≡ true → Memᴰ a xs
  mem_of_contains a [] h = cc
  mem_of_contains a (x ∷ xs) h = elim (Bool-cases (x == a)) [
    | inl same ↦ Memᴰ.head (sym ((e.same_iff x a).0 same))
    | inr other ↦ Memᴰ.tail (mem_of_contains a xs (ground arith))
  ]

  pub contains_of_mem : (a : A) (xs : List A) → Memᴰ a xs → contains xs a ≡ true
  contains_of_mem a [] m = elim m [ ]
  contains_of_mem a (x ∷ xs) (Memᴰ.head p) = ground (arith, e.same_iff x a)
  contains_of_mem a (x ∷ xs) (Memᴰ.tail m) = ground (arith, contains_of_mem a xs m)

pub keep_none {ℓ} :
    {A : Type ℓ} (p : A → Bool) (xs : List A) → All (λ x. p x ≡ false) xs → keep p xs ≡ []
keep_none p [] h = refl
keep_none p (x ∷ xs) h = rw h.0 (keep_none p xs h.1)

pub All-append {ℓ κ} :
    {A : Type ℓ} (P : A → Type κ) (xs ys : List A) → All P xs → All P ys → All P (xs ++ ys)
All-append P [] ys h k = k
All-append P (x ∷ xs) ys h k = (h.0, All-append P xs ys h.1 k)
