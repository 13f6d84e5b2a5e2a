-- ===== src/Schemas/Json.antt =====
-- The `dict` payloads of audit entries, timeline events, errors and task results.
pub mod Access
use film_compliance_agent.Base.{
  ℕ, String, Bool, true, false, not, List, [], ◌∷◌, Option, none, some, ◌==◌, string_eq, nat_eq,
  if◌then◌else◌,
}

mutual
  pub data Json : Type 0 where
    null : Json
    bool : Bool → Json
    num : ℕ → Json
    str : String → Json
    arr : Items → Json
    obj : Detail → Json

  pub data Items : Type 0 where
    nil : Items
    cons : Json → Items → Items

  pub data Detail : Type 0 where
    end : Detail
    entry : String → Json → Detail → Detail

abbrev pub strs : List String → Json
strs l = arr (go l)
  where
    go : List String → Items
    go [] = nil
    go (x ∷ xs) = cons (str x) (go xs)

abbrev pub opt_str : Option String → Json
opt_str none = null
opt_str (some s) = str s

-- `{**left, **right}` for dicts whose keys differ.
abbrev pub merge : Detail → Detail → Detail
merge end d = d
merge (entry k v rest) d = entry k v (merge rest d)

-- `d.get(key)`
unfoldable pub get : String → Detail → Option Json
get key end = none
get key (entry k v rest) = if k == key then some v else get key rest

-- `d.get(key, default)`
abbrev pub get_or : String → Json → Detail → Json
get_or key default d = elim (get key d) [ some v ↦ v | none ↦ default ]

-- `bool(x)`
abbrev pub is_true : Json → Bool
is_true null = false
is_true (bool b) = b
is_true (num n) = not (nat_eq n 0)
is_true (str s) = not (s == "")
is_true (arr nil) = false
is_true (arr (cons _ _)) = true
is_true (obj end) = false
is_true (obj (entry _ _ _)) = true

abbrev pub items_of : Items → List Json
items_of nil = []
items_of (cons x xs) = x ∷ items_of xs

abbrev pub keys_of : Detail → List String
keys_of end = []
keys_of (entry k v rest) = k ∷ keys_of rest

abbrev pub entries_of : Detail → List (String × Json)
entries_of end = []
entries_of (entry k v rest) = (k, v) ∷ entries_of rest
