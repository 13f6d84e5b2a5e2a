-- ===== src/Forms/Grouping.antt =====
-- The grouping of facts by key is a filter by key, in the order of the facts.
use mathlib.Core.List.{append_assoc, append-nil}
use film_compliance_agent.Base.{
  String, List, [], ◌∷◌, ◌++◌, keep, ◌==◌, ◌≡◌, string_eq, string_iff, arith, Bool-cases, inl, inr,
  ap, ◌∙◌,
}
use film_compliance_agent.Base.Dict.{Dict, lookup, insert, lookup-insert}
use film_compliance_agent.Schemas.Common.{Fact}
use film_compliance_agent.Forms.{or_empty, group_by_key}

-- the facts for one key
abbrev pub facts_for : String → List Fact → List Fact
facts_for key = keep (λ f. f.key == key)

module _ (key : String) where
  group-step :
      (by_key : Dict String (List Fact)) (f : Fact)
      → or_empty (lookup key (insert f.key (or_empty (lookup f.key by_key) ++ f ∷ []) by_key))
        ≡ or_empty (lookup key by_key) ++ facts_for key (f ∷ [])
  group-step by_key f = elim (Bool-cases (f.key == key)) [
    | inl same ↦ rw (
      lookup-insert f.key key (or_empty (lookup f.key by_key) ++ f ∷ []) by_key,
      same,
      (string_iff f.key key).0 same,
    )
    | inr other ↦ rw (
      lookup-insert f.key key (or_empty (lookup f.key by_key) ++ f ∷ []) by_key,
      other,
      append-nil,
    )
  ]

  facts_for-cons :
      (f : Fact) (fs : List Fact)
      → facts_for key (f ∷ []) ++ facts_for key fs ≡ facts_for key (f ∷ fs)
  facts_for-cons f fs = ground arith

  lookup-group :
      (by_key : Dict String (List Fact)) (facts : List Fact)
      → or_empty (lookup key (group_by_key by_key facts))
        ≡ or_empty (lookup key by_key) ++ facts_for key facts
  unfolding group_by_key
  lookup-group by_key [] = rw append-nil
  lookup-group by_key (f ∷ fs) =
      lookup-group (insert f.key (or_empty (lookup f.key by_key) ++ f ∷ []) by_key) fs
      ∙ ap (λ l. l ++ facts_for key fs) (group-step by_key f)
      ∙ append_assoc (or_empty (lookup key by_key)) (facts_for key (f ∷ [])) (facts_for key fs)
      ∙ ap (λ l. or_empty (lookup key by_key) ++ l) (facts_for-cons f fs)

  -- The candidates that the form reads for a key are the facts with that key, oldest first.
  pub lookup-group_by_key :
      (facts : List Fact) → or_empty (lookup key (group_by_key [] facts)) ≡ facts_for key facts
  unfolding lookup
  lookup-group_by_key facts = lookup-group [] facts
