-- ===== src/Schemas/Json/Access.antt =====
-- Reads of JSON values, as Python reads a dict that was loaded from a file.
use film_compliance_agent.Base.{String, List, [], ◌∷◌, if◌then◌else◌}
use film_compliance_agent.Schemas.Json.{
  Json, Detail, end, arr, obj, str, nil, get_or, is_true, items_of,
}
use film_compliance_agent.Errors.{Error, raised, Result, ok, err, ◌>>=◌}

-- what a value of the wrong type raises
abbrev pub type_error : Error
type_error = raised "TypeError"

abbrev pub dict_of : Json → Result Detail
dict_of (obj d) = ok d
dict_of _ = err type_error

abbrev pub list_of : Json → Result (List Json)
list_of (arr xs) = ok (items_of xs)
list_of _ = err type_error

-- `pack.get(key, []) or []`
abbrev pub list_at : String → Detail → Result (List Json)
list_at key d = let found = get_or key (arr nil) d in if is_true found then list_of found else ok []

-- `pack.get(key, {}) or {}`
abbrev pub dict_at : String → Detail → Result Detail
dict_at key d =
    let found = get_or key (obj end) d in if is_true found then dict_of found else ok end

-- the results of a loop, in order
unfoldable pub each {ℓ κ} : {A : Type ℓ} {B : Type κ} → (A → Result B) → List A → Result (List B)
each f [] = ok []
each f (x ∷ xs) = let rest = each f xs in f x >>= λ y. rest >>= λ ys. ok (y ∷ ys)

-- `str(value)`, where `show` is Python's `str` on what is not a text
abbrev pub text_of : (Json → String) → Json → String
text_of show (str s) = s
text_of show j = show j
