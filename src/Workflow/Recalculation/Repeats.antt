-- ===== src/Workflow/Recalculation/Repeats.antt =====
-- core/workflow_service.py: what `recalc_tier` writes, and what it answers when it is repeated.
use film_compliance_agent.Base.{
  String, Bool, true, false, Option, none, some, ◌≡◌, ◌⊎◌, inl, inr, refl, sym, ap, ◌∙◌, arith,
  Bool-cases, Option-cases, string_eq,
}
use film_compliance_agent.Base.Dict.{lookup, insert, lookup-insert_self}
use film_compliance_agent.Schemas.Enums.States.{tier_eq}
use film_compliance_agent.Schemas.Policy.{TierPack}
use film_compliance_agent.Schemas.Project.{Classification, Project}
use film_compliance_agent.Errors.{Result, ok, err}
use film_compliance_agent.Store.{Stores}
use film_compliance_agent.Effects.{Env, now, new_id}
use film_compliance_agent.Classify.D1c.{TierDecision}
use film_compliance_agent.Workflow.Core.{get_project, record_event, notify}
use film_compliance_agent.Workflow.Recalculation.{
  RecalcResult, recalc_frozen, recalc_decision, recalculated, tier_changed, differs,
  recalculated_project, recalc_open, recalc_provisional, recalc_classified, recalc_given,
  recalc_tier,
}

differs_self : (b : Bool) → differs b b ≡ false
differs_self true = refl
differs_self false = refl

tier_changed_self :
    (d : TierDecision) (c : Classification)
    → c.tier ≡ d.tier
    → c.tier_provisional ≡ d.tier_provisional
    → tier_changed d c ≡ false
unfolding tier_changed
tier_changed_self d c e f = ground (arith, differs_self d.tier_provisional, sym f)

changed_of : Result RecalcResult → Bool
changed_of (ok r) = r.changed
changed_of (err e) = false

module _ (version : String) (env : Env) (w w' : Stores) (p : Project) where
  -- what a run that recalculates has read and written
  pub record IsRecalculated (r : RecalcResult) : Type 0 where
    pub before : Classification
    pub pack : TierPack
    pub classified : p.classification ≡ some before
    pub movable : recalc_frozen p ≡ false
    pub provisional : before.tier_provisional ≡ true
    pub published : env.tier_pack version ≡ some pack
    pub answered : r.changed ≡ tier_changed (recalc_decision p pack) before
    pub stored :
        lookup p.project_id w'.projects
        ≡ some (
            recalculated_project p
              (recalculated before
                (recalc_decision p pack)
                version
                (env.verification_status version))
              (env.clock w.readings))
    pub same_forms : w'.forms ≡ w.forms
    pub same_materials : w'.materials ≡ w.materials

  -- A run changes nothing, or recalculates.
  abbrev pub Recalculates : RecalcResult → Type 0
  Recalculates r = ((w' ≡ w) × (r.changed ≡ false)) ⊎ IsRecalculated r

  IsRecalculated-of_run :
      (r v : RecalcResult) (s : Stores) (c : Classification) (pack : TierPack)
      → p.classification ≡ some c
      → recalc_frozen p ≡ false
      → c.tier_provisional ≡ true
      → env.tier_pack version ≡ some pack
      → ◌≡◌ {A = Result RecalcResult × Stores} (ok v, s) (ok r, w')
      → v.changed ≡ tier_changed (recalc_decision p pack) c
      → s.projects
        ≡ insert p.project_id
            (recalculated_project p
              (recalculated c (recalc_decision p pack) version (env.verification_status version))
              (env.clock w.readings))
            w.projects
      → s.forms ≡ w.forms
      → s.materials ≡ w.materials
      → IsRecalculated r
  unfolding changed_of
  IsRecalculated-of_run r v s c pack classified movable provisional published run answer put forms
        materials =
      let done : w' ≡ s = sym (ap (λ x. x.1) run) in
      record {
        before = c;
        pack = pack;
        classified = classified;
        movable = movable;
        provisional = provisional;
        published = published;
        answered = ap (λ x. changed_of x.0) (sym run) ∙ answer;
        stored =
            ap (λ x. lookup p.project_id x.projects) done
            ∙ ap (λ x. lookup p.project_id x) put
            ∙ lookup-insert_self p.project_id _ w.projects;
        same_forms = ap (λ x. x.forms) done ∙ forms;
        same_materials = ap (λ x. x.materials) done ∙ materials;
      }

  recalc_open-ok :
      (r : RecalcResult) (c : Classification)
      → p.classification ≡ some c
      → recalc_frozen p ≡ false
      → c.tier_provisional ≡ true
      → recalc_open p c version env w ≡ (ok r, w')
      → IsRecalculated r
  unfolding recalc_open record_event notify now new_id
  recalc_open-ok r c classified movable provisional h =
      elim (Option-cases (env.tier_pack version)) [
        | inl missing ↦ absurd (let k = rw (recalc_open, missing) at h in cc)
        | inr (pack, published) ↦ elim (Bool-cases (tier_changed (recalc_decision p pack) c)) [
          | inl news ↦
              IsRecalculated-of_run r _ _ c pack classified movable provisional published
                (rw (recalc_open, published, news) at h) (sym news) refl refl refl
          | inr old ↦
              IsRecalculated-of_run r _ _ c pack classified movable provisional published
                (rw (recalc_open, published, old) at h) (sym old) refl refl refl
        ]
      ]

  recalc_provisional-ok :
      (r : RecalcResult) (c : Classification) (provisional : Bool)
      → p.classification ≡ some c
      → recalc_frozen p ≡ false
      → c.tier_provisional ≡ provisional
      → recalc_provisional provisional p c version env w ≡ (ok r, w')
      → Recalculates r
  unfolding changed_of
  recalc_provisional-ok r c false classified movable settled h =
      inl (sym (ap (λ x. x.1) h), ap (λ x. changed_of x.0) (sym h))
  recalc_provisional-ok r c true classified movable provisional h =
      inr (recalc_open-ok r c classified movable provisional h)

  recalc_given-ok :
      (r : RecalcResult) (given : Option Classification)
      → p.classification ≡ given
      → recalc_given p given version env w ≡ (ok r, w')
      → Recalculates r
  unfolding recalc_classified changed_of
  recalc_given-ok r none classified h =
      inl (sym (ap (λ x. x.1) h), ap (λ x. changed_of x.0) (sym h))
  recalc_given-ok r (some c) classified h = elim (Bool-cases (recalc_frozen p)) [
    | inl frozen ↦
        let k = rw (recalc_classified, frozen) at h in
        inl (sym (ap (λ x. x.1) k), ap (λ x. changed_of x.0) (sym k))
    | inr movable ↦
        recalc_provisional-ok r c c.tier_provisional classified movable refl
          (rw (recalc_classified, movable) at h)
  ]

  pub recalc_tier-cases :
      (project_id : String) (r : RecalcResult)
      → lookup project_id w.projects ≡ some p
      → recalc_tier project_id version env w ≡ (ok r, w')
      → Recalculates r
  unfolding recalc_tier get_project
  recalc_tier-cases project_id r found h =
      recalc_given-ok r p.classification refl (rw (recalc_tier, get_project, found) at h)

-- A second recalculation of a project's tier under the same version, right after one that returned,
-- never reports a change.
pub recalc_tier_again :
    (version : String) (env : Env) (w w' w'' : Stores) (p : Project) (r r' : RecalcResult)
    → lookup p.project_id w.projects ≡ some p
    → recalc_tier p.project_id version env w ≡ (ok r, w')
    → recalc_tier p.project_id version env w' ≡ (ok r', w'')
    → r'.changed ≡ false
unfolding changed_of recalc_decision recalculated
recalc_tier_again version env w w' w'' p r r' found h h' =
    elim (recalc_tier-cases version env w w' p p.project_id r found h) [
      | inl (same, silent) ↦ let k = rw same at h' in ap (λ x. changed_of x.0) (sym k ∙ h) ∙ silent
      | inr first ↦
          let d = recalc_decision p first.pack in
          let c = recalculated first.before d version (env.verification_status version) in
          let q = recalculated_project p c (env.clock w.readings) in
          elim (recalc_tier-cases version env w' w'' q p.project_id r' first.stored h') [
            | inl (same, silent) ↦ silent
            | inr second ↦
                let same_c : c ≡ second.before = cc in
                let same_pack : second.pack ≡ first.pack = cc in
                second.answered
                ∙ tier_changed_self (recalc_decision q second.pack) second.before
                    (ap (λ x. x.tier) (sym same_c)
                      ∙ ap (λ x. (recalc_decision p x).tier) (sym same_pack))
                    (ap (λ x. x.tier_provisional) (sym same_c)
                      ∙ ap (λ x. (recalc_decision p x).tier_provisional) (sym same_pack))
          ]
    ]
