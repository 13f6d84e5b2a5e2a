-- ===== src/Forms/Agreement.antt =====
-- The gate and the form agree on what is needed: behind an open gate no field of the form is
-- pending or in conflict.
use mathlib.Core.List.{Memᴰ}
use film_compliance_agent.Base.{
  true, false, String, Option, none, List, [], ◌∷◌, All, is_empty, last, ◌==◌, ◌≡◌, ◌≢◌, inl, inr,
  refl, ap, string_eq, string_iff, arith, Bool-cases, Option-cases, mem-keep, mem_of_last,
  All-of_mem, All-mem, mem_of_contains, contains_of_mem, keep_none,
}
use film_compliance_agent.Base.Dict.{Dict, keys, mem-keys}
use film_compliance_agent.Base.Sorting.{sorted}
use film_compliance_agent.Schemas.Enums.Review.{
  FactStatus, fact_status_eq, FieldStatus, field_status_eq,
}
use film_compliance_agent.Schemas.Common.{Fact}
use film_compliance_agent.Schemas.Findings.{Finding}
use film_compliance_agent.Schemas.Assets.{MaterialCard}
use film_compliance_agent.Schemas.Policy.{FormPack}
use film_compliance_agent.Schemas.Forms.{
  FormField, FormConflict, FormDraft, form_field_ok, no_value,
}
use film_compliance_agent.Errors.{ok}
use film_compliance_agent.Gate.{evaluate_gate_d3, required_fact_keys}
use film_compliance_agent.Gate.Report.{Supplied, passed_iff}
use film_compliance_agent.Forms.{
  of_status, bare_field, deferred_field, filled_field, checked_field, render_field, build_fields,
  holds_shut, pending_keys, group_by_key,
}
use film_compliance_agent.Forms.Grouping.{facts_for, lookup-group_by_key}
use film_compliance_agent.Forms.Fields.{IsHonest, build_fields-IsHonest, fill_fields-total}

-- no confirmed fact has a blank value
abbrev pub AllWritten : List Fact → Type 0
AllWritten = All (λ f. f.status ≡ FactStatus.confirmed → no_value f.value ≡ false)

filled_ok :
    (f : Fact) → no_value f.value ≡ false → checked_field (filled_field f) ≡ ok (filled_field f)
unfolding form_field_ok
filled_ok f h = ground arith

render_total :
    (facts : List Fact) (key : String)
    → AllWritten facts
    → (field : FormField) × (render_field (facts_for key facts) ≡ ok field)
unfolding render_field
render_total facts key w =
    elim (Bool-cases (is_empty (of_status FactStatus.conflict (facts_for key facts)))) [
      | inr clash ↦ (bare_field FieldStatus.conflict none, rw clash)
      | inl calm ↦
          elim (Option-cases (last (of_status FactStatus.confirmed (facts_for key facts)))) [
            | inr (latest, e) ↦
                let picked =
                  mem-keep (λ g. g.status == FactStatus.confirmed) (facts_for key facts)
                    (mem_of_last _ e) in
                let stored = mem-keep (λ g. g.key == key) facts picked.0 in
                (
                  filled_field latest,
                  rw (calm, e)
                      (filled_ok latest (
                        All-mem _ facts w stored.0 (
                          (fact_status_eq.same_iff latest.status FactStatus.confirmed).0
                            picked.1))),
                )
            | inl none_confirmed ↦
                elim (Option-cases
                  (last (of_status FactStatus.pending_institution (facts_for key facts)))) [
                    | inr (latest, e) ↦ (deferred_field latest, rw (calm, none_confirmed, e))
                    | inl none_deferred ↦ (
                      bare_field FieldStatus.pending none,
                      rw (calm, none_confirmed, none_deferred),
                    )
                  ]
          ]
    ]

calm_of_agreed :
    (key : String) (facts : List Fact)
    → All (λ f. f.status ≢ FactStatus.conflict) facts
    → is_empty (of_status FactStatus.conflict (facts_for key facts)) ≡ true
calm_of_agreed key [] h = refl
calm_of_agreed key (f ∷ fs) h = ground (arith, calm_of_agreed key fs h.1, h.0)

not_nil_of_Supplied :
    (key : String) (facts : List Fact) → Supplied facts key → facts_for key facts ≢ []
not_nil_of_Supplied key facts s = go facts s.stored
  where
    go : (l : List Fact) → Memᴰ s.fact l → facts_for key l ≢ []
    go [] m = elim m [ ]
    go (f ∷ fs) (Memᴰ.head e) =
        λ p. absurd (ground (arith, s.for_key, string_iff f.key key, ap (λ x. x.key) e))
    go (f ∷ fs) (Memᴰ.tail m) = λ p. absurd (ground (arith, go fs m))

settled :
    (facts : List Fact) (key : String) (field : FormField)
    → IsHonest facts key field
    → Supplied facts key
    → All (λ f. f.status ≢ FactStatus.conflict) facts
    → holds_shut field ≡ false
unfolding holds_shut
settled facts key field h s a = ground (
  arith,
  calm_of_agreed key facts a,
  h.conflict.0,
  λ (e : field.status ≡ FieldStatus.pending). not_nil_of_Supplied key facts s (h.pending.0 e),
)

module _ (findings : List Finding) (facts : List Fact) (materials : List MaterialCard)
    (form_pack : Option FormPack) where
  -- Behind an open gate, if no confirmed fact is blank, the form over the same facts is built and
  -- none of its keys holds it shut.
  pub pending_keys_of_passed :
      (d : FormDraft)
      → (evaluate_gate_d3 findings facts materials form_pack).passed ≡ true
      → AllWritten facts
      → (r : Dict String FormField × List FormConflict) × (build_fields
            (required_fact_keys form_pack)
            facts
          ≡ ok r)
        × (pending_keys (record d { fields = r.0 }) ≡ [])
  unfolding build_fields pending_keys sorted
  pending_keys_of_passed d passed written =
      let clear = (passed_iff findings facts materials form_pack).0 passed in
      let (r, built) =
        fill_fields-total (group_by_key [] facts) (required_fact_keys form_pack) [] []
          (λ k. rw (lookup-group_by_key k facts) (render_total facts k written)) in
      let (honest, exact) =
        build_fields-IsHonest (required_fact_keys form_pack) facts r.0 r.1 built in
      (
        r,
        built,
        rw (
            keep_none (λ x. holds_shut x.1) r.0
              (All-of_mem r.0 (λ x m.
                settled facts x.0 x.1 (All-mem _ r.0 honest m)
                  (All-mem _ (required_fact_keys form_pack) clear.supplied (
                    mem_of_contains x.0 _
                      (rw (← exact x.0) (contains_of_mem x.0 (keys r.0) (mem-keys r.0 m)))))
                  clear.agreed))),
      )
