-- ===== src/Classify/D1a/Outcomes.antt =====
-- The outcomes of the form-type stage, and what its quotes are worth.
use film_compliance_agent.Base.{
  ℕ, ◌≤◌, ◌<◌, Bool, false, String, none, some, List, [], ◌∷◌, ◌+++◌, map, keep, All, contains,
  is_none, not, ◌&&◌, ◌||◌, ◌==◌, ◌≡◌, ◌≢◌, ◌⊎◌, ◌↔◌, inl, inr, arith, string_eq, occurs,
  parts_of_occurs, Bool-cases, Option-cases, All-append,
}
use film_compliance_agent.Schemas.Enums.States.{ClaimedFormType}
use film_compliance_agent.Schemas.Project.{IntentProfile}
use film_compliance_agent.Schemas.Policy.{FormDefinitionPack}
use film_compliance_agent.Classify.D1a.{
  edge_phrases, EdgeHit, RawHit, Reply, answered, upstream_failed, EdgeModel, Outcome, or_else,
  max_minutes, min_episodes, missing_fields, detect_edge_phrases, semantic_hits, read_reply,
  ask_model, semantic_pass, at_least, below, judge_by_numbers, judge_by_hits, edge_hits,
  judge_form_type,
}

-- the quote is a part of the text, word for word
abbrev pub Verbatim : String → EdgeHit → Type 0
Verbatim text hit = (before : String) × (after : String) × (text ≡ before +++ (hit.quote +++ after))

detected_Verbatim :
    (text : String) (phrases : List String)
    → All (Verbatim text) (
        map
          (λ p. record { phrase = p; quote = p; stage = "pattern" })
          (keep (λ p. occurs p text) phrases))
detected_Verbatim text [] = tt
detected_Verbatim text (p ∷ ps) = elim (Bool-cases (occurs p text)) [
  | inl h ↦ rw h (parts_of_occurs p text h, detected_Verbatim text ps)
  | inr h ↦ rw h (detected_Verbatim text ps)
]

semantic_Verbatim :
    (text : String) (hits : List RawHit) → All (Verbatim text) (semantic_hits text hits)
unfolding semantic_hits
semantic_Verbatim text [] = tt
semantic_Verbatim text (h ∷ hs) =
    elim (Bool-cases (not (or_else h.quote "" == "") && occurs (or_else h.quote "") text)) [
      | inl k ↦
          rw k (parts_of_occurs (or_else h.quote "") text (ground arith), semantic_Verbatim text hs)
      | inr k ↦ rw k (semantic_Verbatim text hs)
    ]

ask_Verbatim : (llm : EdgeModel) (text : String) → All (Verbatim text) (ask_model llm text).1
ask_Verbatim none text = tt
ask_Verbatim (some ask) text = read_Verbatim (ask text)
  where
    read_Verbatim : (r : Reply) → All (Verbatim text) (read_reply text r).1
    read_Verbatim (answered hits) = semantic_Verbatim text hits
    read_Verbatim upstream_failed = tt

pass_Verbatim : (llm : EdgeModel) (text : String) → All (Verbatim text) (semantic_pass llm text).1
unfolding semantic_pass
pass_Verbatim llm text = elim (Bool-cases (text == "")) [
  | inl h ↦ rw h tt
  | inr h ↦ rw h (ask_Verbatim llm text)
]

edge_hits-Verbatim :
    (intent : IntentProfile) (llm : EdgeModel)
    → All (Verbatim (or_else intent.synopsis "")) (edge_hits intent llm)
unfolding detect_edge_phrases
edge_hits-Verbatim intent llm =
    let text = or_else intent.synopsis "" in
    All-append (Verbatim text) (detect_edge_phrases text) (semantic_pass llm text).1
      (detected_Verbatim text edge_phrases) (pass_Verbatim llm text)

numbers_no_quotes :
    (intent : IntentProfile) (pack : FormDefinitionPack) (flags : List String)
    → (judge_by_numbers intent pack flags).edge_quotes ≡ []
unfolding judge_by_numbers
numbers_no_quotes intent pack flags = ground arith

by_hits_Verbatim :
    (intent : IntentProfile) (pack : FormDefinitionPack) (flags : List String) (text : String)
    (hits : List EdgeHit)
    → All (Verbatim text) hits
    → All (Verbatim text) (judge_by_hits intent pack flags hits).edge_quotes
unfolding judge_by_hits
by_hits_Verbatim intent pack flags text [] h = rw (numbers_no_quotes intent pack flags) tt
by_hits_Verbatim intent pack flags text (x ∷ xs) h = h

-- the two numbers that the stage cannot do without are both there
abbrev pub asks_back : IntentProfile → Bool
asks_back intent =
    contains (missing_fields intent) "episode_count"
    || contains (missing_fields intent) "episode_minutes"

asks_back-missing :
    (intent : IntentProfile)
    → asks_back intent ≡ (is_none intent.episode_count || is_none intent.episode_minutes)
unfolding missing_fields
asks_back-missing intent = ground arith

-- Whatever the model answers, every quote that the stage reports stands in the synopsis.
pub edge_quotes_Verbatim :
    (intent : IntentProfile) (pack : FormDefinitionPack) (llm : EdgeModel)
    → All (Verbatim (or_else intent.synopsis "")) (judge_form_type intent pack llm).edge_quotes
unfolding judge_form_type
edge_quotes_Verbatim intent pack llm = elim (Bool-cases (asks_back intent)) [
  | inl h ↦ rw h tt
  | inr h ↦
      rw h (by_hits_Verbatim intent pack _ _ (edge_hits intent llm) (edge_hits-Verbatim intent llm))
]

-- what makes a project a micro-drama: both numbers are known and within the limits of the pack, it
-- does not claim to be a web film, and no edge phrase was found
pub record IsMicroDrama (intent : IntentProfile) (pack : FormDefinitionPack) (llm : EdgeModel)
    : Type 0 where
  pub episodes : ℕ
  pub minutes : ℕ
  pub counted : intent.episode_count ≡ some episodes
  pub timed : intent.episode_minutes ≡ some minutes
  pub long_enough : min_episodes pack ≤ episodes
  pub short_enough : minutes < max_minutes pack
  pub not_film : intent.form_type_claimed ≢ ClaimedFormType.web_film
  pub no_edge : edge_hits intent llm ≡ []

by_hits_iff :
    (intent : IntentProfile) (pack : FormDefinitionPack) (flags : List String) (hits : List EdgeHit)
    → ((judge_by_hits intent pack flags hits).outcome ≡ Outcome.micro_drama) ↔ (
        (hits ≡ [])
        × (at_least intent.episode_minutes (max_minutes pack) ≡ false)
        × (intent.form_type_claimed ≢ ClaimedFormType.web_film)
        × (below intent.episode_count (min_episodes pack) ≡ false))
unfolding judge_by_hits judge_by_numbers
by_hits_iff intent pack flags [] = ground arith
by_hits_iff intent pack flags (x ∷ xs) = ground arith

IsMicroDrama-of_outcome :
    (intent : IntentProfile) (pack : FormDefinitionPack) (llm : EdgeModel)
    → (judge_form_type intent pack llm).outcome ≡ Outcome.micro_drama
    → IsMicroDrama intent pack llm
unfolding judge_form_type
IsMicroDrama-of_outcome intent pack llm h = elim (Bool-cases (asks_back intent)) [
  | inl k ↦ absurd (ground arith)
  | inr k ↦
      let parts =
        (by_hits_iff intent pack (semantic_pass llm (or_else intent.synopsis "")).0
            (edge_hits intent llm)).0
          (rw k at h) in
      from_parts (Option-cases intent.episode_count) (Option-cases intent.episode_minutes)
        (asks_back-missing intent) k parts
]
  where
    from_parts :
        (intent.episode_count ≡ none) ⊎ ((n : ℕ) × (intent.episode_count ≡ some n))
        → (intent.episode_minutes ≡ none) ⊎ ((m : ℕ) × (intent.episode_minutes ≡ some m))
        → asks_back intent ≡ (is_none intent.episode_count || is_none intent.episode_minutes)
        → asks_back intent ≡ false
        → (edge_hits intent llm ≡ [])
          × (at_least intent.episode_minutes (max_minutes pack) ≡ false)
          × (intent.form_type_claimed ≢ ClaimedFormType.web_film)
          × (below intent.episode_count (min_episodes pack) ≡ false)
        → IsMicroDrama intent pack llm
    from_parts (inl e) c a k p = absurd (ground arith)
    from_parts (inr n) (inl e) a k p = absurd (ground arith)
    from_parts (inr (n, e)) (inr (m, d)) a k p = record {
      episodes = n;
      minutes = m;
      counted = e;
      timed = d;
      long_enough = ground arith;
      short_enough = ground arith;
      not_film = p.2;
      no_edge = p.0;
    }

outcome_of_IsMicroDrama :
    (intent : IntentProfile) (pack : FormDefinitionPack) (llm : EdgeModel)
    → IsMicroDrama intent pack llm
    → (judge_form_type intent pack llm).outcome ≡ Outcome.micro_drama
unfolding judge_form_type
outcome_of_IsMicroDrama intent pack llm m =
    let present : asks_back intent ≡ false = rw (asks_back-missing intent, m.counted, m.timed) in
    rw present (
      (by_hits_iff intent pack (semantic_pass llm (or_else intent.synopsis "")).0
          (edge_hits intent llm)).1
        (
          m.no_edge,
          ground (arith, m.timed, m.short_enough),
          m.not_film,
          ground (arith, m.counted, m.long_enough),
        ))

-- A project is judged a micro-drama exactly when both numbers are known and within the limits, it
-- does not claim to be a web film, and neither the phrase list nor the model's quotes hit.
pub micro_drama_iff :
    (intent : IntentProfile) (pack : FormDefinitionPack) (llm : EdgeModel)
    → ((judge_form_type intent pack llm).outcome ≡ Outcome.micro_drama)
      ↔ IsMicroDrama intent pack llm
micro_drama_iff intent pack llm =
    (IsMicroDrama-of_outcome intent pack llm, outcome_of_IsMicroDrama intent pack llm)
