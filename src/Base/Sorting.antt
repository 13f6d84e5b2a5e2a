-- ===== src/Base/Sorting.antt =====
-- Python's `sorted` on texts, by code points, and `sorted(set(xs))`.
use Prim.Native.Nat.{Ordering}
use Prim.Native.String.{compare}
use film_compliance_agent.Base.Tests.{if◌then◌else◌, ◌==◌, string_eq, string_iff}
use film_compliance_agent.Base.Dict.{lookup}
use mathlib.Core.Option.{some}
use film_compliance_agent.Base.Lists.{contains, is_empty}
use Prim.Native.String.{String}
use mathlib.Core.Path.{◌≡◌, refl}
use mathlib.Core.Bool.{Bool, true, false, ◌||◌}
use mathlib.Core.List.{List, [], ◌∷◌}
use native.Mathlib.Omega.{arith}

abbrev pub text_le : String → String → Bool
text_le s t = elim (compare s t) [ Ordering.gt ↦ false | _ ↦ true ]

text_le_self : (s : String) → text_le s s ≡ true
text_le_self s = ground (arith, string_iff s s)

insert_sorted : String → List String → List String
insert_sorted x [] = x ∷ []
insert_sorted x (y ∷ ys) = if text_le x y then x ∷ y ∷ ys else y ∷ insert_sorted x ys

unfoldable pub sorted : List String → List String
unfolding insert_sorted
sorted [] = []
sorted (x ∷ xs) = insert_sorted x (sorted xs)

-- `set(xs)`, of which `sorted` alone reads the order
unfoldable pub distinct : List String → List String
distinct [] = []
distinct (x ∷ xs) = let rest = distinct xs in if contains rest x then rest else x ∷ rest

unfoldable pub sorted_set : List String → List String
unfolding sorted distinct
sorted_set xs = sorted (distinct xs)

contains-insert_sorted :
    (a x : String) (xs : List String) → contains (insert_sorted x xs) a ≡ (x == a || contains xs a)
unfolding insert_sorted
contains-insert_sorted a x [] = refl
contains-insert_sorted a x (y ∷ ys) = ground (arith, contains-insert_sorted a x ys)

pub contains-sorted : (a : String) (xs : List String) → contains (sorted xs) a ≡ contains xs a
unfolding sorted
contains-sorted a [] = refl
contains-sorted a (x ∷ xs) = rw (contains-insert_sorted a x (sorted xs), contains-sorted a xs)

contains-distinct : (a : String) (xs : List String) → contains (distinct xs) a ≡ contains xs a
unfolding distinct
contains-distinct a [] = refl
contains-distinct a (x ∷ xs) = ground (arith, contains-distinct a xs, string_iff x a)

pub contains-sorted_set :
    (a : String) (xs : List String) → contains (sorted_set xs) a ≡ contains xs a
unfolding sorted_set
contains-sorted_set a xs = rw (contains-sorted a (distinct xs)) (contains-distinct a xs)

-- A list is empty exactly when it contains nothing.
pub is_empty_of_contains :
    (xs ys : List String)
    → ((a : String) → contains xs a ≡ contains ys a)
    → is_empty xs ≡ is_empty ys
is_empty_of_contains [] [] h = refl
is_empty_of_contains (x ∷ xs) (y ∷ ys) h = refl
is_empty_of_contains [] (y ∷ ys) h = ground (arith, h y, string_iff y y)
is_empty_of_contains (x ∷ xs) [] h = ground (arith, h x, string_iff x x)

pub is_empty-sorted_set : (xs : List String) → is_empty (sorted_set xs) ≡ is_empty xs
is_empty-sorted_set xs = is_empty_of_contains (sorted_set xs) xs (λ a. contains-sorted_set a xs)

pub is_empty-sorted : (xs : List String) → is_empty (sorted xs) ≡ is_empty xs
is_empty-sorted xs = is_empty_of_contains (sorted xs) xs (λ a. contains-sorted a xs)

-- `sorted(d.items())` for a dict, whose keys differ
module _ {ℓ} {V : Type ℓ} where
  insert_item : String → V → List (String × V) → List (String × V)
  insert_item k v [] = (k, v) ∷ []
  insert_item k v ((j, w) ∷ d) =
      if text_le k j then (k, v) ∷ (j, w) ∷ d else (j, w) ∷ insert_item k v d

  unfoldable pub sort_items : List (String × V) → List (String × V)
  unfolding insert_item
  sort_items [] = []
  sort_items ((k, v) ∷ d) = insert_item k v (sort_items d)

  lookup-insert_item :
      (k j : String) (v : V) (d : List (String × V))
      → lookup j (insert_item k v d) ≡ (if k == j then some v else lookup j d)
  unfolding insert_item lookup
  lookup-insert_item k j v [] = refl
  lookup-insert_item k j v ((i, w) ∷ d) = ground (
    arith,
    lookup-insert_item k j v d,
    string_iff k j,
    string_iff i j,
    string_iff i k,
    text_le_self k,
  )

  -- Sorting the items keeps what every key is bound to.
  pub lookup-sort_items :
      (j : String) (d : List (String × V)) → lookup j (sort_items d) ≡ lookup j d
  unfolding sort_items lookup
  lookup-sort_items j [] = refl
  lookup-sort_items j ((k, v) ∷ d) =
      rw (lookup-insert_item k j v (sort_items d), lookup-sort_items j d)
