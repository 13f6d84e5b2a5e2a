-- ===== src/Forms/Fields.antt =====
-- What `build_fields` puts into a form: one field for each key, and where its content comes from.
use mathlib.Core.List.{Memᴰ}
use film_compliance_agent.Base.{
  true, false, String, none, some, List, [], ◌∷◌, ◌++◌, All, is_empty, last, contains, ◌||◌, ◌==◌,
  ◌≡◌, ◌≢◌, ◌↔◌, inl, inr, refl, string_eq, string_iff, arith, Bool-cases, Option-cases, mem-keep,
  mem_of_last, last-eq-none, All-map,
}
use film_compliance_agent.Base.Dict.{Dict, lookup, insert, keys, contains-keys-insert, All-insert}
use film_compliance_agent.Schemas.Enums.Review.{
  FactStatus, fact_status_eq, FieldStatus, field_status_eq,
}
use film_compliance_agent.Schemas.Common.{Fact}
use film_compliance_agent.Schemas.Forms.{FormField, FormConflict}
use film_compliance_agent.Errors.{ok, >>=-eq-ok}
use film_compliance_agent.Forms.{
  or_empty, group_by_key, of_status, bare_field, filled_field, deferred_field, render_field,
  conflicts_of, fill_fields, build_fields,
}
use film_compliance_agent.Forms.Grouping.{facts_for, lookup-group_by_key}

-- a stored fact of one status for a key
pub record Source (facts : List Fact) (key : String) (status : FactStatus) (fact : Fact)
    : Type 0 where
  pub stored : Memᴰ fact facts
  pub for_key : fact.key ≡ key
  pub has_status : fact.status ≡ status

-- what a field of the form says about the facts
pub record IsHonest (facts : List Fact) (key : String) (field : FormField) : Type 0 where
  pub filled :
      field.status ≡ FieldStatus.filled
      → (f : Fact) × Source facts key FactStatus.confirmed f
        × (field.value ≡ f.value)
        × (field.source_ref ≡ some f.source_ref)
  pub unfilled : field.status ≢ FieldStatus.filled → field.value ≡ none
  pub deferred :
      field.status ≡ FieldStatus.pending_institution
      → (f : Fact) × Source facts key FactStatus.pending_institution f
        × (field.source_ref ≡ some f.source_ref)
  pub conflict :
      (field.status ≡ FieldStatus.conflict)
      ↔ (is_empty (of_status FactStatus.conflict (facts_for key facts)) ≡ false)
  pub pending : (field.status ≡ FieldStatus.pending) ↔ (facts_for key facts ≡ [])

-- the four ways in which a field is rendered
pub data Rendered (candidates : List Fact) (field : FormField) : Type 0 where
  in_conflict :
      is_empty (of_status FactStatus.conflict candidates) ≡ false
      → field ≡ bare_field FieldStatus.conflict none
      → Rendered candidates field
  from_fact :
      is_empty (of_status FactStatus.conflict candidates) ≡ true
      → (latest : Fact) → last (of_status FactStatus.confirmed candidates) ≡ some latest
      → field ≡ filled_field latest
      → Rendered candidates field
  left_open :
      is_empty (of_status FactStatus.conflict candidates) ≡ true
      → (latest : Fact) → last (of_status FactStatus.pending_institution candidates) ≡ some latest
      → field ≡ deferred_field latest
      → Rendered candidates field
  unanswered :
      candidates ≡ [] → field ≡ bare_field FieldStatus.pending none → Rendered candidates field

-- every fact has one of the three statuses
no_candidates :
    (l : List Fact)
    → is_empty (of_status FactStatus.conflict l) ≡ true
    → is_empty (of_status FactStatus.confirmed l) ≡ true
    → is_empty (of_status FactStatus.pending_institution l) ≡ true
    → l ≡ []
no_candidates [] p q r = refl
no_candidates (f ∷ fs) p q r = absurd (ground arith)

Rendered-of_ok : (l : List Fact) (field : FormField) → render_field l ≡ ok field → Rendered l field
unfolding render_field
Rendered-of_ok l field h = elim (Bool-cases (is_empty (of_status FactStatus.conflict l))) [
  | inr clash ↦ in_conflict clash (ground arith)
  | inl calm ↦ elim (Option-cases (last (of_status FactStatus.confirmed l))) [
    | inr (latest, e) ↦ from_fact calm latest e (ground arith)
    | inl none_confirmed ↦ elim (Option-cases (last (of_status FactStatus.pending_institution l))) [
      | inr (latest, e) ↦ left_open calm latest e (ground arith)
      | inl none_deferred ↦
          unanswered
            (no_candidates l calm (last-eq-none _ none_confirmed) (last-eq-none _ none_deferred))
            (ground arith)
    ]
  ]
]

Source-of_last :
    (facts : List Fact) (key : String) (s : FactStatus) (f : Fact)
    → last (of_status s (facts_for key facts)) ≡ some f
    → Source facts key s f
Source-of_last facts key s f h =
    let picked = mem-keep (λ g. g.status == s) (facts_for key facts) (mem_of_last _ h) in
    let stored = mem-keep (λ g. g.key == key) facts picked.0 in
    record {
      stored = stored.0;
      for_key = (string_iff f.key key).0 stored.1;
      has_status = (fact_status_eq.same_iff f.status s).0 picked.1;
    }

empty_statuses : (s : FactStatus) (l : List Fact) → l ≡ [] → is_empty (of_status s l) ≡ true
empty_statuses s l e = rw e

last_of_nil : (s : FactStatus) (l : List Fact) (f : Fact) → last (of_status s l) ≡ some f → l ≢ []
last_of_nil s [] f h = cc
last_of_nil s (g ∷ gs) f h = λ e. cc

IsHonest-of_Rendered :
    (facts : List Fact) (key : String) (field : FormField)
    → Rendered (facts_for key facts) field
    → IsHonest facts key field
IsHonest-of_Rendered facts key field (in_conflict clash e) = record {
  filled = λ h. absurd (ground arith);
  unfilled = λ h. ground arith;
  deferred = λ h. absurd (ground arith);
  conflict = (λ h. clash, λ h. ground arith);
  pending = (
    λ h. absurd (ground arith),
    λ h. absurd (ground (arith, empty_statuses FactStatus.conflict (facts_for key facts) h)),
  );
}
IsHonest-of_Rendered facts key field (from_fact calm f l e) = record {
  filled = λ h. (f, Source-of_last facts key FactStatus.confirmed f l, ground arith, ground arith);
  unfilled = λ h. absurd (ground arith);
  deferred = λ h. absurd (ground arith);
  conflict = (λ h. absurd (ground arith), λ h. absurd (ground arith));
  pending = (λ h. absurd (ground arith), λ h. absurd (last_of_nil FactStatus.confirmed _ f l h));
}
IsHonest-of_Rendered facts key field (left_open calm f l e) = record {
  filled = λ h. absurd (ground arith);
  unfilled = λ h. ground arith;
  deferred = λ h. (f, Source-of_last facts key FactStatus.pending_institution f l, ground arith);
  conflict = (λ h. absurd (ground arith), λ h. absurd (ground arith));
  pending = (
    λ h. absurd (ground arith),
    λ h. absurd (last_of_nil FactStatus.pending_institution _ f l h),
  );
}
IsHonest-of_Rendered facts key field (unanswered n e) = record {
  filled = λ h. absurd (ground arith);
  unfilled = λ h. ground arith;
  deferred = λ h. absurd (ground arith);
  conflict = (
    λ h. absurd (ground arith),
    λ h. absurd (ground (arith, empty_statuses FactStatus.conflict (facts_for key facts) n)),
  );
  pending = (λ h. n, λ h. ground arith);
}

-- the field that an entry holds is the one rendered from the facts for its key
abbrev IsEntry : Dict String (List Fact) → String × FormField → Type 0
IsEntry by_key e = render_field (or_empty (lookup e.0 by_key)) ≡ ok e.1

module _ (by_key : Dict String (List Fact)) where
  fill_fields-entries :
      (ks : List String) (fields : Dict String FormField) (conflicts : List FormConflict)
      (r : Dict String FormField × List FormConflict)
      → fill_fields by_key ks fields conflicts ≡ ok r
      → All (IsEntry by_key) fields
      → All (IsEntry by_key) r.0
  unfolding fill_fields
  fill_fields-entries [] fields conflicts r h a = let e : fields ≡ r.0 = ground arith in rw e at a
  fill_fields-entries (k ∷ ks) fields conflicts r h a =
      let (field, rendered, rest) = >>=-eq-ok (render_field (or_empty (lookup k by_key))) _ h in
      fill_fields-entries ks (insert k field fields) _ r rest
        (All-insert (IsEntry by_key) k field fields rendered a)

  fill_fields-keys :
      (ks : List String) (fields : Dict String FormField) (conflicts : List FormConflict)
      (r : Dict String FormField × List FormConflict) (j : String)
      → fill_fields by_key ks fields conflicts ≡ ok r
      → contains (keys r.0) j ≡ (contains ks j || contains (keys fields) j)
  unfolding fill_fields
  fill_fields-keys [] fields conflicts r j h = ground arith
  fill_fields-keys (k ∷ ks) fields conflicts r j h =
      let (field, rendered, rest) = >>=-eq-ok (render_field (or_empty (lookup k by_key))) _ h in
      ground (
        arith,
        fill_fields-keys ks (insert k field fields) _ r j rest,
        contains-keys-insert k j field fields,
      )

  pub fill_fields-total :
      (ks : List String) (fields : Dict String FormField) (conflicts : List FormConflict)
      → ((k : String) → (f : FormField) × (render_field (or_empty (lookup k by_key)) ≡ ok f))
      → (r : Dict String FormField × List FormConflict) × (fill_fields by_key ks fields conflicts
          ≡ ok r)
  unfolding fill_fields
  fill_fields-total [] fields conflicts all_ok = ((fields, conflicts), refl)
  fill_fields-total (k ∷ ks) fields conflicts all_ok =
      let (f, rendered) = all_ok k in
      rw rendered (
        fill_fields-total ks (insert k f fields)
          (conflicts ++ conflicts_of k (or_empty (lookup k by_key))) all_ok)

module _ (fact_keys : List String) (facts : List Fact) where
  -- Every entry of the fields that `build_fields` returns says what the facts for its key say: it
  -- is filled only with the value and the source of a confirmed fact for that key, in conflict
  -- exactly when a fact for the key is, pending exactly when there is no fact for the key, and the
  -- keys of the fields are the keys asked for.
  pub build_fields-IsHonest :
      (fields : Dict String FormField) (conflicts : List FormConflict)
      → build_fields fact_keys facts ≡ ok (fields, conflicts)
      → All (λ e. IsHonest facts e.0 e.1) fields
        × ((j : String) → contains (keys fields) j ≡ contains fact_keys j)
  unfolding build_fields
  build_fields-IsHonest fields conflicts h = (
    All-map
        (λ e rendered. IsHonest-of_Rendered facts e.0 e.1 (
          Rendered-of_ok (facts_for e.0 facts) e.1
            (rw (lookup-group_by_key e.0 facts) at rendered)))
        fields
        (fill_fields-entries (group_by_key [] facts) fact_keys [] [] (fields, conflicts) h tt),
    λ j.
        ground
          (arith, fill_fields-keys (group_by_key [] facts) fact_keys [] [] (fields, conflicts) j h),
  )
