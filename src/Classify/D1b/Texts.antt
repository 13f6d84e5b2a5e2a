-- ===== src/Classify/D1b/Texts.antt =====
-- core/classify/d1b.py: the quote around a word, and the document that the language model reads.
use Prim.Native.Nat.{zero}
use film_compliance_agent.Base.{
  ℕ, suc, ◌+◌, ◌-◌, String, Bool, true, false, Option, none, some, List, [], ◌∷◌, ◌==◌, ◌+++◌, ◌&&◌,
  if◌then◌else◌, string_eq,
}
use film_compliance_agent.Base.Strip.{strip}

abbrev pub quote_window : ℕ
quote_window = 24

-- positions count characters
unfoldable pub begins : String → String → Bool
begins String.[] text = true
begins (String.◌∷◌ p pattern) String.[] = false
begins (String.◌∷◌ p pattern) (String.◌∷◌ c text) =
    String.◌∷◌ p "" == String.◌∷◌ c "" && begins pattern text

-- `text.find(pattern)`
unfoldable pub find_index : String → String → Option ℕ
find_index pattern String.[] = if begins pattern "" then some 0 else none
find_index pattern (String.◌∷◌ c text) =
    let rest = find_index pattern text in
    if begins pattern (String.◌∷◌ c text)
    then some 0
    else (elim rest [ some n ↦ some (suc n) | none ↦ none ])

unfoldable pub take_chars : ℕ → String → String
take_chars zero s = ""
take_chars (suc n) String.[] = ""
take_chars (suc n) (String.◌∷◌ c s) = String.◌∷◌ c (take_chars n s)

unfoldable pub drop_chars : ℕ → String → String
drop_chars zero s = s
drop_chars (suc n) String.[] = ""
drop_chars (suc n) (String.◌∷◌ c s) = drop_chars n s

unfoldable pub count_chars : String → ℕ
count_chars String.[] = 0
count_chars (String.◌∷◌ c s) = suc (count_chars s)

-- `_quote_around`: the slice ends with the text where the window does not fit
unfoldable pub quote_around : String → String → String
quote_around text pattern = elim (find_index pattern text) [
  | none ↦ pattern
  | some index ↦
      let start = index - quote_window in
      strip
        (take_chars (index + count_chars pattern + quote_window - start) (drop_chars start text))
]

-- `_document`
unfoldable pub document : String → String → String
document synopsis keywords =
    if synopsis == ""
    then keywords
    else if keywords == ""
    then synopsis
    else synopsis +++ ("\n" +++ keywords)

-- `" ".join(...)`
unfoldable pub join_spaced : List String → String
join_spaced [] = ""
join_spaced (x ∷ []) = x
join_spaced (x ∷ y ∷ ys) = x +++ (" " +++ join_spaced (y ∷ ys))
