-- ===== src/Policy/Publish/Packs.antt =====
-- workers/policy/publish.py: the packs of the next snapshot.
use mathlib.Core.List.{Memᴰ}
use film_compliance_agent.Base.{[], ◌∷◌, ◌≡◌, ◌≢◌, refl, ap, ◌∙◌, ◌⊎◌, inl, inr}
use film_compliance_agent.Base.Dict.{Dict}
use film_compliance_agent.Schemas.Json.{Detail}
use film_compliance_agent.Policy.Documents.{PackName, PolicyPacks}
use film_compliance_agent.Policy.Documents.PackName.{
  p1_form_definition, p2_subject_rules, p3_tier_thresholds, p4_process_templates, p5_form_templates,
  p6_legal_clauses,
}
use film_compliance_agent.Policy.Publish.{set_pack, apply_updates}

-- the pack of a name
abbrev pub pack_of : PackName → PolicyPacks → Detail
pack_of p1_form_definition p = p.p1_form_definition
pack_of p2_subject_rules p = p.p2_subject_rules
pack_of p3_tier_thresholds p = p.p3_tier_thresholds
pack_of p4_process_templates p = p.p4_process_templates
pack_of p5_form_templates p = p.p5_form_templates
pack_of p6_legal_clauses p = p.p6_legal_clauses

-- the pack of a name is one of its updates, or as before where it has none
abbrev pub IsUpdated : Dict PackName Detail → PolicyPacks → PolicyPacks → PackName → Type 0
IsUpdated updates old new name =
    ((pack_of name new ≡ pack_of name old) × ((u : Detail) → ¬ Memᴰ (name, u) updates))
    ⊎ ((u : Detail) × Memᴰ (name, u) updates × (pack_of name new ≡ u))

PackName-discrete : Discrete PackName
PackName-discrete = hlevel

pack_of-set_pack_self :
    (name : PackName) (u : Detail) (p : PolicyPacks) → pack_of name (set_pack name u p) ≡ u
unfolding set_pack
pack_of-set_pack_self p1_form_definition u p = refl
pack_of-set_pack_self p2_subject_rules u p = refl
pack_of-set_pack_self p3_tier_thresholds u p = refl
pack_of-set_pack_self p4_process_templates u p = refl
pack_of-set_pack_self p5_form_templates u p = refl
pack_of-set_pack_self p6_legal_clauses u p = refl

pack_of-set_pack_ne :
    (name other : PackName) (u : Detail) (p : PolicyPacks)
    → name ≢ other
    → pack_of name (set_pack other u p) ≡ pack_of name p
unfolding set_pack
pack_of-set_pack_ne p1_form_definition p1_form_definition u p ne = absurd (ne refl)
pack_of-set_pack_ne p1_form_definition p2_subject_rules u p ne = refl
pack_of-set_pack_ne p1_form_definition p3_tier_thresholds u p ne = refl
pack_of-set_pack_ne p1_form_definition p4_process_templates u p ne = refl
pack_of-set_pack_ne p1_form_definition p5_form_templates u p ne = refl
pack_of-set_pack_ne p1_form_definition p6_legal_clauses u p ne = refl
pack_of-set_pack_ne p2_subject_rules p1_form_definition u p ne = refl
pack_of-set_pack_ne p2_subject_rules p2_subject_rules u p ne = absurd (ne refl)
pack_of-set_pack_ne p2_subject_rules p3_tier_thresholds u p ne = refl
pack_of-set_pack_ne p2_subject_rules p4_process_templates u p ne = refl
pack_of-set_pack_ne p2_subject_rules p5_form_templates u p ne = refl
pack_of-set_pack_ne p2_subject_rules p6_legal_clauses u p ne = refl
pack_of-set_pack_ne p3_tier_thresholds p1_form_definition u p ne = refl
pack_of-set_pack_ne p3_tier_thresholds p2_subject_rules u p ne = refl
pack_of-set_pack_ne p3_tier_thresholds p3_tier_thresholds u p ne = absurd (ne refl)
pack_of-set_pack_ne p3_tier_thresholds p4_process_templates u p ne = refl
pack_of-set_pack_ne p3_tier_thresholds p5_form_templates u p ne = refl
pack_of-set_pack_ne p3_tier_thresholds p6_legal_clauses u p ne = refl
pack_of-set_pack_ne p4_process_templates p1_form_definition u p ne = refl
pack_of-set_pack_ne p4_process_templates p2_subject_rules u p ne = refl
pack_of-set_pack_ne p4_process_templates p3_tier_thresholds u p ne = refl
pack_of-set_pack_ne p4_process_templates p4_process_templates u p ne = absurd (ne refl)
pack_of-set_pack_ne p4_process_templates p5_form_templates u p ne = refl
pack_of-set_pack_ne p4_process_templates p6_legal_clauses u p ne = refl
pack_of-set_pack_ne p5_form_templates p1_form_definition u p ne = refl
pack_of-set_pack_ne p5_form_templates p2_subject_rules u p ne = refl
pack_of-set_pack_ne p5_form_templates p3_tier_thresholds u p ne = refl
pack_of-set_pack_ne p5_form_templates p4_process_templates u p ne = refl
pack_of-set_pack_ne p5_form_templates p5_form_templates u p ne = absurd (ne refl)
pack_of-set_pack_ne p5_form_templates p6_legal_clauses u p ne = refl
pack_of-set_pack_ne p6_legal_clauses p1_form_definition u p ne = refl
pack_of-set_pack_ne p6_legal_clauses p2_subject_rules u p ne = refl
pack_of-set_pack_ne p6_legal_clauses p3_tier_thresholds u p ne = refl
pack_of-set_pack_ne p6_legal_clauses p4_process_templates u p ne = refl
pack_of-set_pack_ne p6_legal_clauses p5_form_templates u p ne = refl
pack_of-set_pack_ne p6_legal_clauses p6_legal_clauses u p ne = absurd (ne refl)

pub apply_updates-IsUpdated :
    (updates : Dict PackName Detail) (old : PolicyPacks) (name : PackName)
    → IsUpdated updates old (apply_updates updates old) name
unfolding apply_updates
apply_updates-IsUpdated [] old name = inl (refl, λ u m. elim m [ ])
apply_updates-IsUpdated ((other, v) ∷ updates) old name =
    elim (apply_updates-IsUpdated updates (set_pack other v old) name) [
      | inr (u, m, set) ↦ inr (u, Memᴰ.tail m, set)
      | inl (same, none_left) ↦ elim (PackName-discrete name other) [
        | yes e ↦ inr (
          v,
          Memᴰ.head (ap (λ n. (n, v)) e),
          same ∙ ap (λ n. pack_of n (set_pack other v old)) e ∙ pack_of-set_pack_self other v old,
        )
        | no ne ↦ inl (
          same ∙ pack_of-set_pack_ne name other v old ne,
          λ u m. elim m [ Memᴰ.head q ↦ ne (ap (λ x. x.0) q) | Memᴰ.tail k ↦ none_left u k ],
        )
      ]
    ]
