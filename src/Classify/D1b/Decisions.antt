-- ===== src/Classify/D1b/Decisions.antt =====
-- core/classify/d1b.py: what a decision on the special subjects rests on.
use mathlib.Core.List.{Memᴰ}
use film_compliance_agent.Base.{
  String, Bool, true, false, List, [], ◌∷◌, not, ◌≡◌, refl, All, All-append, is_empty,
  is_empty-append, arith, Bool-cases, inl, inr,
}
use film_compliance_agent.Base.Dict.{Dict, values}
use film_compliance_agent.Schemas.Project.{IntentProfile, MatchedRule}
use film_compliance_agent.Errors.{ok, >>=-eq-ok}
use film_compliance_agent.Classify.SubjectRules.{SubjectRule}
use film_compliance_agent.Classify.D1b.{
  SubjectDecision, Haystacks, Hit, SubjectModel, pattern_stage, set_defaults, semantic_stage,
  undecided, add_hit, add_hits, concluded, haystacks_of, judge_by_rules,
}
use film_compliance_agent.Classify.D1b.Sources.{
  IsGrounded, IsSourced, pattern_stage-IsSourced, set_defaults-IsSourced, semantic_stage-IsSourced,
}

All-values : (P : Hit → Type 0) (d : Dict String Hit) → All (λ e. P e.1) d → All P (values d)
All-values P [] h = tt
All-values P ((k, v) ∷ d) h = (h.0, All-values P d h.1)

-- a reported hit: a published rule of the kind, grounded in the project's texts
abbrev pub IsReported : List SubjectRule → Haystacks → Bool → MatchedRule → Type 0
IsReported rules h edge m =
    (rule : SubjectRule) × Memᴰ rule rules
    × (m.rule_id ≡ rule.rule_id)
    × (rule.is_edge_case ≡ edge)
    × IsGrounded h rule m

-- the two lists of a decision hold reported hits, and its two flags say whether they hold any
pub record IsSound (rules : List SubjectRule) (h : Haystacks) (d : SubjectDecision) : Type 0 where
  pub special : All (IsReported rules h false) d.matched_rules
  pub edge : All (IsReported rules h true) d.edge_rules
  pub special_flag : d.special_subject_hit ≡ not (is_empty d.matched_rules)
  pub edge_flag : d.edge_case_hit ≡ not (is_empty d.edge_rules)

module _ (rules : List SubjectRule) (h : Haystacks) where
  add_hit-IsSound :
      (hit : Hit) (d : SubjectDecision)
      → IsSourced rules h hit
      → IsSound rules h d
      → IsSound rules h (add_hit hit d)
  unfolding add_hit
  add_hit-IsSound (rule, m) d (mem, id, grounded) sound = elim (Bool-cases rule.is_edge_case) [
    | inl edge ↦ record {
      special = rw (add_hit, edge) sound.special;
      edge =
          rw (add_hit, edge)
            (All-append (IsReported rules h true) d.edge_rules (m ∷ []) sound.edge
              ((rule, mem, id, edge, grounded), tt));
      special_flag = ground (arith, sound.special_flag);
      edge_flag = ground (arith, is_empty-append d.edge_rules (m ∷ []));
    }
    | inr special ↦ record {
      special =
          rw (add_hit, special)
            (All-append (IsReported rules h false) d.matched_rules (m ∷ []) sound.special
              ((rule, mem, id, special, grounded), tt));
      edge = rw (add_hit, special) sound.edge;
      special_flag = ground (arith, is_empty-append d.matched_rules (m ∷ []));
      edge_flag = ground (arith, sound.edge_flag);
    }
  ]

  add_hits-IsSound :
      (hits : List Hit) (d : SubjectDecision)
      → All (IsSourced rules h) hits
      → IsSound rules h d
      → IsSound rules h (add_hits hits d)
  unfolding add_hits
  add_hits-IsSound [] d sourced sound = sound
  add_hits-IsSound (hit ∷ hits) d sourced sound =
      add_hits-IsSound hits (add_hit hit d) sourced.1 (add_hit-IsSound hit d sourced.0 sound)

  undecided-IsSound : (flags : List String) → IsSound rules h (undecided flags)
  undecided-IsSound flags = record {
    special = tt;
    edge = tt;
    special_flag = refl;
    edge_flag = refl;
  }

  -- the last step touches neither the lists nor the flags
  concluded-IsSound : (d : SubjectDecision) → IsSound rules h d → IsSound rules h (concluded d)
  unfolding concluded
  concluded-IsSound d sound = record {
    special = sound.special;
    edge = sound.edge;
    special_flag = sound.special_flag;
    edge_flag = sound.edge_flag;
  }

-- Whatever the language model answers, every rule that a decision reports is a published one of its
-- kind, and a word of it stands in the synopsis or the keywords, or the quote stands in the document
-- that the model read. The decision flags a special subject or an edge case exactly when it reports
-- one.
pub judge_by_rules-IsSound :
    (intent : IntentProfile) (rules : List SubjectRule) (llm : SubjectModel) (d : SubjectDecision)
    → judge_by_rules intent rules llm ≡ ok d
    → IsSound rules (haystacks_of intent) d
unfolding judge_by_rules concluded
judge_by_rules-IsSound intent rules llm d e =
    let h = haystacks_of intent in
    let start = set_defaults (pattern_stage rules h) [] in
    let (m, staged, last) = >>=-eq-ok (semantic_stage llm rules h start) _ e in
    let words = pattern_stage-IsSourced rules rules h (λ r k. k) in
    let first = set_defaults-IsSourced rules h (pattern_stage rules h) [] words tt in
    let all_hits = semantic_stage-IsSourced rules h llm start m first staged in
    let sound =
      add_hits-IsSound rules h (values m.1) (undecided m.0)
        (All-values (IsSourced rules h) m.1 all_hits) (undecided-IsSound rules h m.0) in
    let same : concluded (add_hits (values m.1) (undecided m.0)) ≡ d = ground arith in
    rw same at (concluded-IsSound rules h (add_hits (values m.1) (undecided m.0)) sound)
