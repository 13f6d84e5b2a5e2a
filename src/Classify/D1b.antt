-- ===== src/Classify/D1b.antt =====
-- core/classify/d1b.py: the special subjects that a project hits, by the rules' words and by the
-- language model, whose hits count only for a published rule and a quote that stands in the document.
pub mod Texts
pub mod Sources
pub mod Decisions
use Prim.Native.Nat.{zero}
use film_compliance_agent.Base.{
  ℕ, suc, ◌+◌, ◌-◌, ◌≤◌, String, Bool, true, false, Option, none, some, List, [], ◌∷◌, ◌++◌, ◌==◌,
  ◌+++◌, not, ◌&&◌, ◌||◌, leb, ltb, contains, is_blank, map, occurs, if◌then◌else◌, string_eq,
}
use film_compliance_agent.Base.Dict.{Dict, lookup, insert, values}
use film_compliance_agent.Base.Strip.{strip}
use film_compliance_agent.Schemas.Json.{Json, Detail, end, entry}
use film_compliance_agent.Schemas.Project.{IntentProfile, MatchedRule}
use film_compliance_agent.Errors.{Error, invalid_document, Result, ok, err, ◌>>=◌, ◌>>◌, require}
use film_compliance_agent.Classify.SubjectRules.{SubjectRule, load_subject_rules, or_default}
use film_compliance_agent.Classify.D1b.Texts.{
  quote_window, begins, find_index, take_chars, drop_chars, count_chars, quote_around, document,
  join_spaced,
}

pub record SubjectDecision : Type 0 where
  pub special_subject_hit : Bool
  pub edge_case_hit : Bool
  pub matched_rules : List MatchedRule
  pub edge_rules : List MatchedRule
  pub dept : Option Detail
  pub clause_refs : List String
  pub pending_flags : List String
  pub expert_pending : Bool
  pub confidence : ℕ

-- the two texts in which a rule's words are looked for
pub record Haystacks : Type 0 where
  pub synopsis : String
  pub genre_keywords : String

abbrev pub pattern_hit : SubjectRule → String → String → MatchedRule
pattern_hit rule quote stage = record {
  rule_id = rule.rule_id;
  quote = quote;
  confidence = 1_000_000;
  stage = stage;
}

-- the first text in which a word of the rule stands
unfoldable pub source_hit : SubjectRule → Haystacks → String → Option MatchedRule
source_hit rule h pattern =
    if occurs pattern h.synopsis
    then some (pattern_hit rule (quote_around h.synopsis pattern) "pattern:synopsis")
    else if occurs pattern h.genre_keywords
    then some (pattern_hit rule pattern "pattern:genre_keywords")
    else none

-- the first word of the rule that stands in one
unfoldable pub first_hit : SubjectRule → Haystacks → List String → Option MatchedRule
first_hit rule h [] = none
first_hit rule h (p ∷ ps) =
    let rest = first_hit rule h ps in
    if p == "" then rest else (elim (source_hit rule h p) [ some m ↦ some m | none ↦ rest ])

abbrev pub Hit : Type 0
Hit = SubjectRule × MatchedRule

-- `_pattern_stage`
unfoldable pub pattern_stage : List SubjectRule → Haystacks → List Hit
pattern_stage [] h = []
pattern_stage (rule ∷ rules) h =
    let rest = pattern_stage rules h in
    elim (first_hit rule h rule.trigger_patterns) [ some m ↦ (rule, m) ∷ rest | none ↦ rest ]

pub record RawHit : Type 0 where
  pub rule_id : Option String
  pub quote : Option String
  pub confidence : Option ℕ

-- what a call of the model comes to
pub data Reply : Type 0 where
  answered : List RawHit → List RawHit → Reply
  upstream_failed : Reply

-- the model, which reads the document and the rules: none where it is not available
abbrev pub SubjectModel : Type 0
SubjectModel = Option (String → List SubjectRule → Reply)

-- `{rule.rule_id: rule for rule in rules}`
unfoldable pub by_id : List SubjectRule → Dict String SubjectRule → Dict String SubjectRule
by_id [] d = d
by_id (rule ∷ rules) d = by_id rules (insert rule.rule_id rule d)

-- `matched.setdefault(rule.rule_id, hit)`
unfoldable pub set_default : Hit → Dict String Hit → Dict String Hit
set_default hit d = elim (lookup hit.0.rule_id d) [ some _ ↦ d | none ↦ insert hit.0.rule_id hit d ]

unfoldable pub set_defaults : List Hit → Dict String Hit → Dict String Hit
set_defaults [] d = d
set_defaults (hit ∷ hits) d = set_defaults hits (set_default hit d)

-- one hit of the model, if it counts; a confidence above one is refused
unfoldable pub semantic_hit : Dict String SubjectRule → String → RawHit → Result (Option Hit)
semantic_hit rules text raw =
    let quote = or_default raw.quote "" in
    elim (lookup (or_default raw.rule_id "") rules) [
      | none ↦ ok none
      | some rule ↦
          if quote == "" || not (occurs quote text)
          then ok none
          else if leb (or_default raw.confidence 500_000) 1_000_000
          then ok (
              some (
                rule,
                record {
                  rule_id = rule.rule_id;
                  quote = quote;
                  confidence = or_default raw.confidence 500_000;
                  stage = "semantic";
                },
              ))
          else err invalid_document
    ]

abbrev pub add_found : Option Hit → Dict String Hit → Dict String Hit
add_found (some hit) d = set_default hit d
add_found none d = d

-- the loop over the reply
unfoldable pub read_hits :
    Dict String SubjectRule → String → List RawHit → Dict String Hit → Result (Dict String Hit)
read_hits rules text [] d = ok d
read_hits rules text (raw ∷ raws) d = do
  found ← semantic_hit rules text raw
  read_hits rules text raws (add_found found d)

abbrev pub Matched : Type 0
Matched = List String × Dict String Hit

abbrev pub semantic_pending : Dict String Hit → Matched
semantic_pending d = ("subject_semantic_check_pending" ∷ [], d)

unfoldable pub read_reply : List SubjectRule → String → Reply → Dict String Hit → Result Matched
read_reply rules text upstream_failed d = ok (semantic_pending d)
read_reply rules text (answered hits edge_hits) d = do
  matched ← read_hits (by_id rules []) text (hits ++ edge_hits) d
  ok ([], matched)

abbrev pub asked : SubjectModel → List SubjectRule → String → Dict String Hit → Result Matched
asked none rules text d = ok (semantic_pending d)
asked (some ask) rules text d = read_reply rules text (ask text rules) d

-- the semantic stage: the flags it leaves, and the hits with its own
unfoldable pub semantic_stage :
    SubjectModel → List SubjectRule → Haystacks → Dict String Hit → Result Matched
semantic_stage llm rules h d =
    if h.synopsis == "" && h.genre_keywords == ""
    then ok ([], d)
    else asked llm rules (document h.synopsis h.genre_keywords) d

abbrev pub undecided : List String → SubjectDecision
undecided flags = record {
  special_subject_hit = false;
  edge_case_hit = false;
  matched_rules = [];
  edge_rules = [];
  dept = none;
  clause_refs = [];
  pending_flags = flags;
  expert_pending = false;
  confidence = 0;
}

abbrev pub first_dept : Option Detail → Detail → Option Detail
first_dept (some d) mapping = some d
first_dept none end = none
first_dept none (entry k v rest) = some (entry k v rest)

-- one round of the last loop
unfoldable pub add_hit : Hit → SubjectDecision → SubjectDecision
add_hit (rule, hit) d = record d {
  edge_case_hit = d.edge_case_hit || rule.is_edge_case;
  edge_rules = if rule.is_edge_case then d.edge_rules ++ hit ∷ [] else d.edge_rules;
  special_subject_hit = d.special_subject_hit || not rule.is_edge_case;
  matched_rules = if rule.is_edge_case then d.matched_rules else d.matched_rules ++ hit ∷ [];
  expert_pending = d.expert_pending || rule.expert_pending;
  clause_refs =
      if not (rule.clause_ref == "") && not (contains d.clause_refs rule.clause_ref)
      then d.clause_refs ++ rule.clause_ref ∷ []
      else d.clause_refs;
  dept = first_dept d.dept rule.dept_mapping;
}

unfoldable pub add_hits : List Hit → SubjectDecision → SubjectDecision
add_hits [] d = d
add_hits (hit ∷ hits) d = add_hits hits (add_hit hit d)

-- `max((hit.confidence for hit in hits), default=0.0)`
unfoldable pub highest : List MatchedRule → ℕ
highest [] = 0
highest (m ∷ ms) = let rest = highest ms in if ltb m.confidence rest then rest else m.confidence

unfoldable pub concluded : SubjectDecision → SubjectDecision
concluded d = record d {
  confidence = highest (d.matched_rules ++ d.edge_rules);
  pending_flags =
      if d.expert_pending then d.pending_flags ++ "rules_expert_pending" ∷ [] else d.pending_flags;
}

abbrev pub haystacks_of : IntentProfile → Haystacks
haystacks_of intent = record {
  synopsis = or_default intent.synopsis "";
  genre_keywords = join_spaced intent.genre_keywords;
}

-- the decision once the rules are read
unfoldable pub judge_by_rules :
    IntentProfile → List SubjectRule → SubjectModel → Result SubjectDecision
judge_by_rules intent rules llm = do
  let h = haystacks_of intent
  (flags, matched) ← semantic_stage llm rules h (set_defaults (pattern_stage rules h) [])
  ok (concluded (add_hits (values matched) (undecided flags)))

unfoldable pub judge_subject :
    (Json → String) → IntentProfile → Detail → SubjectModel → Result SubjectDecision
judge_subject show intent pack2 llm = do
  rules ← load_subject_rules show pack2
  judge_by_rules intent rules llm
