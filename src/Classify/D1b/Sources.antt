-- ===== src/Classify/D1b/Sources.antt =====
-- core/classify/d1b.py: where the hits of a decision come from.
use mathlib.Core.List.{Memᴰ}
use film_compliance_agent.Base.{
  String, true, Option, none, some, List, [], ◌∷◌, ◌++◌, ◌==◌, ◌&&◌, ◌≡◌, ◌⊎◌, inl, inr, refl, All,
  occurs, arith, Bool-cases, Option-cases, string_eq,
}
use film_compliance_agent.Base.Dict.{Dict, lookup, insert, lookup-insert, All-insert}
use film_compliance_agent.Schemas.Project.{MatchedRule}
use film_compliance_agent.Errors.{ok, >>=-eq-ok}
use film_compliance_agent.Classify.SubjectRules.{SubjectRule, or_default}
use film_compliance_agent.Classify.D1b.Texts.{document}
use film_compliance_agent.Classify.D1b.{
  Haystacks, Hit, RawHit, Reply, answered, upstream_failed, SubjectModel, Matched, source_hit,
  first_hit, pattern_stage, by_id, set_default, set_defaults, semantic_hit, add_found, read_hits,
  read_reply, asked, semantic_stage,
}

-- a word of the rule stands in one of the texts, or the quote stands in the document
abbrev pub IsGrounded : Haystacks → SubjectRule → MatchedRule → Type 0
IsGrounded h rule m =
    ((p : String) × Memᴰ p rule.trigger_patterns
      × ((occurs p h.synopsis ≡ true) ⊎ (occurs p h.genre_keywords ≡ true)))
    ⊎ ((m.stage ≡ "semantic") × (occurs m.quote (document h.synopsis h.genre_keywords) ≡ true))

-- a hit of a published rule
abbrev pub IsSourced : List SubjectRule → Haystacks → Hit → Type 0
IsSourced rules h (rule, m) = Memᴰ rule rules × (m.rule_id ≡ rule.rule_id) × IsGrounded h rule m

abbrev pub AllSourced : List SubjectRule → Haystacks → Dict String Hit → Type 0
AllSourced rules h d = All (λ e. IsSourced rules h e.1) d

source_hit-some :
    (rule : SubjectRule) (h : Haystacks) (p : String) (m : MatchedRule)
    → source_hit rule h p ≡ some m
    → (m.rule_id ≡ rule.rule_id)
      × ((occurs p h.synopsis ≡ true) ⊎ (occurs p h.genre_keywords ≡ true))
unfolding source_hit
source_hit-some rule h p m e = elim (Bool-cases (occurs p h.synopsis)) [
  | inl here ↦ (ground arith, inl here)
  | inr not_here ↦ elim (Bool-cases (occurs p h.genre_keywords)) [
    | inl there ↦ (ground arith, inr there)
    | inr nowhere ↦ absurd (ground arith)
  ]
]

abbrev HitBy : SubjectRule → Haystacks → MatchedRule → List String → Type 0
HitBy rule h m ps =
    (m.rule_id ≡ rule.rule_id)
    × ((p : String) × Memᴰ p ps
        × ((occurs p h.synopsis ≡ true) ⊎ (occurs p h.genre_keywords ≡ true)))

HitBy-later :
    (rule : SubjectRule) (h : Haystacks) (m : MatchedRule) (p : String) (ps : List String)
    → HitBy rule h m ps
    → HitBy rule h m (p ∷ ps)
HitBy-later rule h m p ps (id, (q, mem, place)) = (id, (q, Memᴰ.tail mem, place))

first_hit-some :
    (rule : SubjectRule) (h : Haystacks) (ps : List String) (m : MatchedRule)
    → first_hit rule h ps ≡ some m
    → HitBy rule h m ps
unfolding first_hit
first_hit-some rule h [] m e = absurd (cc)
first_hit-some rule h (p ∷ ps) m e = elim (Option-cases (source_hit rule h p)) [
  | inl none_found ↦ HitBy-later rule h m p ps (first_hit-some rule h ps m (ground arith))
  | inr (n, found) ↦ elim (Bool-cases (p == "")) [
    | inl blank ↦ HitBy-later rule h m p ps (first_hit-some rule h ps m (ground arith))
    | inr word ↦
        let same : n ≡ m = ground arith in
        let (id, place) = source_hit-some rule h p n found in
        (rw same at id, (p, Memᴰ.head refl, place))
  ]
]

-- every hit of the words is sourced among any rules that hold the rules looked at
pub pattern_stage-IsSourced :
    (all_rules rules : List SubjectRule) (h : Haystacks)
    → ((r : SubjectRule) → Memᴰ r rules → Memᴰ r all_rules)
    → All (IsSourced all_rules h) (pattern_stage rules h)
unfolding pattern_stage
pattern_stage-IsSourced all_rules [] h within = tt
pattern_stage-IsSourced all_rules (rule ∷ rules) h within =
    let rest = pattern_stage-IsSourced all_rules rules h (λ r m. within r (Memᴰ.tail m)) in
    elim (Option-cases (first_hit rule h rule.trigger_patterns)) [
      | inl none_found ↦ rw (pattern_stage, none_found) rest
      | inr (m, found) ↦
          let (id, (p, mem, place)) = first_hit-some rule h rule.trigger_patterns m found in
          rw (pattern_stage, found) ((within rule (Memᴰ.head refl), id, inl (p, mem, place)), rest)
    ]

module _ (rules : List SubjectRule) (h : Haystacks) where
  set_default-IsSourced :
      (hit : Hit) (d : Dict String Hit)
      → IsSourced rules h hit
      → AllSourced rules h d
      → AllSourced rules h (set_default hit d)
  unfolding set_default
  set_default-IsSourced hit d sourced all_d = elim (Option-cases (lookup hit.0.rule_id d)) [
    | inl new ↦
        rw (set_default, new)
          (All-insert (λ e. IsSourced rules h e.1) hit.0.rule_id hit d sourced all_d)
    | inr (old, known) ↦ rw (set_default, known) all_d
  ]

  pub set_defaults-IsSourced :
      (hits : List Hit) (d : Dict String Hit)
      → All (IsSourced rules h) hits
      → AllSourced rules h d
      → AllSourced rules h (set_defaults hits d)
  unfolding set_defaults
  set_defaults-IsSourced [] d sourced all_d = all_d
  set_defaults-IsSourced (hit ∷ hits) d sourced all_d =
      set_defaults-IsSourced hits (set_default hit d) sourced.1
        (set_default-IsSourced hit d sourced.0 all_d)

  -- the rules by their identifiers are rules of the list
  by_id-mem :
      (more : List SubjectRule) (d : Dict String SubjectRule)
      → ((r : SubjectRule) → Memᴰ r more → Memᴰ r rules)
      → ((id : String) (r : SubjectRule) → lookup id d ≡ some r → Memᴰ r rules)
      → (id : String) (r : SubjectRule) → lookup id (by_id more d) ≡ some r
      → Memᴰ r rules
  unfolding by_id
  by_id-mem [] d within stored id r e = stored id r e
  by_id-mem (rule ∷ more) d within stored id r e =
      by_id-mem more (insert rule.rule_id rule d) (λ s m. within s (Memᴰ.tail m)) next id r e
    where
      next :
          (j : String) (s : SubjectRule)
          → lookup j (insert rule.rule_id rule d) ≡ some s
          → Memᴰ s rules
      next j s k = elim (Bool-cases (rule.rule_id == j)) [
        | inl here ↦
            let same : rule ≡ s = ground (arith, lookup-insert rule.rule_id j rule d) in
            rw same at (within rule (Memᴰ.head refl))
        | inr there ↦ stored j s (ground (arith, lookup-insert rule.rule_id j rule d))
      ]

  semantic_hit-IsSourced :
      (raw : RawHit) (hit : Hit)
      → semantic_hit (by_id rules []) (document h.synopsis h.genre_keywords) raw ≡ ok (some hit)
      → IsSourced rules h hit
  unfolding semantic_hit
  semantic_hit-IsSourced raw hit e =
      elim (Option-cases (lookup (or_default raw.rule_id "") (by_id rules []))) [
        | inl unknown ↦ absurd (ground arith)
        | inr (rule, known) ↦
            let mem =
              by_id-mem rules [] (λ r m. m) (λ j r k. absurd (unfold lookup in cc))
                (or_default raw.rule_id "") rule known in
            quoted rule mem known (ground arith)
      ]
    where
      quoted :
          (rule : SubjectRule)
          → Memᴰ rule rules
          → lookup (or_default raw.rule_id "") (by_id rules []) ≡ some rule
          → (hit.0 ≡ rule)
            × (hit.1.rule_id ≡ rule.rule_id)
            × (hit.1.stage ≡ "semantic")
            × (occurs hit.1.quote (document h.synopsis h.genre_keywords) ≡ true)
          → IsSourced rules h hit
      quoted rule mem known (same, id, stage, stands) =
          (rw same mem, rw same id, inr (stage, stands))

  add_found-IsSourced :
      (found : Option Hit) (d : Dict String Hit)
      → ((hit : Hit) → found ≡ some hit → IsSourced rules h hit)
      → AllSourced rules h d
      → AllSourced rules h (add_found found d)
  add_found-IsSourced none d sourced all_d = all_d
  add_found-IsSourced (some hit) d sourced all_d =
      set_default-IsSourced hit d (sourced hit refl) all_d

  read_hits-IsSourced :
      (raws : List RawHit) (d d' : Dict String Hit)
      → AllSourced rules h d
      → read_hits (by_id rules []) (document h.synopsis h.genre_keywords) raws d ≡ ok d'
      → AllSourced rules h d'
  unfolding read_hits
  read_hits-IsSourced [] d d' all_d e = let same : d ≡ d' = cc in rw same at all_d
  read_hits-IsSourced (raw ∷ raws) d d' all_d e =
      let (found, one, rest) =
        >>=-eq-ok (semantic_hit (by_id rules []) (document h.synopsis h.genre_keywords) raw) _ e in
      read_hits-IsSourced raws (add_found found d) d'
        (add_found-IsSourced found d (λ hit k. semantic_hit-IsSourced raw hit (rw k at one)) all_d)
        rest

  read_reply-IsSourced :
      (r : Reply) (d : Dict String Hit) (m : Matched)
      → AllSourced rules h d
      → read_reply rules (document h.synopsis h.genre_keywords) r d ≡ ok m
      → AllSourced rules h m.1
  unfolding read_reply
  read_reply-IsSourced upstream_failed d m all_d e =
      let same : d ≡ m.1 = ground arith in rw same at all_d
  read_reply-IsSourced (answered hits edge_hits) d m all_d e =
      let (d', read, last) =
        >>=-eq-ok
          (read_hits (by_id rules []) (document h.synopsis h.genre_keywords) (hits ++ edge_hits) d)
          _ e in
      let same : d' ≡ m.1 = ground arith in
      rw same at (read_hits-IsSourced (hits ++ edge_hits) d d' all_d read)

  ask-IsSourced :
      (llm : SubjectModel) (d : Dict String Hit) (m : Matched)
      → AllSourced rules h d
      → asked llm rules (document h.synopsis h.genre_keywords) d ≡ ok m
      → AllSourced rules h m.1
  ask-IsSourced none d m all_d e = let same : d ≡ m.1 = ground arith in rw same at all_d
  ask-IsSourced (some ask) d m all_d e =
      read_reply-IsSourced (ask (document h.synopsis h.genre_keywords) rules) d m all_d e

  -- what the semantic stage leaves is sourced, if what it was given is
  pub semantic_stage-IsSourced :
      (llm : SubjectModel) (d : Dict String Hit) (m : Matched)
      → AllSourced rules h d
      → semantic_stage llm rules h d ≡ ok m
      → AllSourced rules h m.1
  unfolding semantic_stage
  semantic_stage-IsSourced llm d m all_d e =
      elim (Bool-cases (h.synopsis == "" && h.genre_keywords == "")) [
        | inl blank ↦ let same : d ≡ m.1 = ground arith in rw same at all_d
        | inr there ↦ ask-IsSourced llm d m all_d (rw (semantic_stage, there) at e)
      ]
