-- ===== src/Classify/D1a.antt =====
-- core/classify/d1a.py: the form type of a project. The language model reads the synopsis only; it
-- is an argument, and its hits count only if their quotes stand in the synopsis.
pub mod Outcomes
use film_compliance_agent.Base.{
  ℕ, Bool, true, false, String, Option, none, some, List, [], ◌∷◌, ◌++◌, map, keep, contains,
  is_none, is_blank, is_empty, not, ◌&&◌, ◌||◌, ◌==◌, leb, ltb, nat_eq, string_eq, if◌then◌else◌,
  occurs,
}
use film_compliance_agent.Schemas.Enums.States.{FormType, ClaimedFormType, claimed_form_type_eq}
use film_compliance_agent.Schemas.Project.{IntentProfile}
use film_compliance_agent.Schemas.Policy.{FormDefinitionPack}

abbrev pub edge_phrases : List String
edge_phrases = "切片" ∷ "付费合集" ∷ "互动剧" ∷ "竖屏电影" ∷ "微综艺" ∷ []

pub record EdgeHit : Type 0 where
  pub phrase : String
  pub quote : String
  pub stage : String

-- one entry of the model's reply, either key of which may be missing
pub record RawHit : Type 0 where
  pub phrase : Option String
  pub quote : Option String

-- what a call of the model comes to
pub data Reply : Type 0 where
  answered : List RawHit → Reply
  upstream_failed : Reply

-- the model: none where no backend is configured or available
abbrev pub EdgeModel : Type 0
EdgeModel = Option (String → Reply)

pub data Outcome : Type 0 where
  micro_drama exit_non_drama exit_sister_path needs_human ask_back : Outcome

pub record FormTypeDecision : Type 0 where
  pub form_type : FormType
  pub outcome : Outcome
  pub missing : List String
  pub reasons : List String
  pub pending_flags : List String
  pub edge_quotes : List EdgeHit

abbrev pub or_else {ℓ} : {A : Type ℓ} → Option A → A → A
or_else none d = d
or_else (some a) d = a

-- `_pack_limits`, in millionths of a minute and in episodes
unfoldable pub max_minutes : FormDefinitionPack → ℕ
max_minutes pack =
    or_else pack.episode_max_minutes_exclusive (or_else pack.episode_max_minutes 20_000_000)

unfoldable pub min_episodes : FormDefinitionPack → ℕ
min_episodes pack = or_else pack.min_episodes 3

-- `missing_fields` of the intent profile
unfoldable pub missing_fields : IntentProfile → List String
missing_fields intent =
    (if is_none intent.episode_count then "episode_count" ∷ [] else [])
    ++ ((if is_none intent.episode_minutes then "episode_minutes" ∷ [] else [])
        ++ (if is_blank intent.synopsis then "synopsis" ∷ [] else []))

unfoldable pub detect_edge_phrases : String → List EdgeHit
detect_edge_phrases text =
    map (λ p. record { phrase = p; quote = p; stage = "pattern" })
      (keep (λ p. occurs p text) edge_phrases)

-- the loop over the model's reply
unfoldable pub semantic_hits : String → List RawHit → List EdgeHit
semantic_hits synopsis [] = []
semantic_hits synopsis (h ∷ hs) =
    let quote = or_else h.quote "" in
    let rest = semantic_hits synopsis hs in
    if not (quote == "") && occurs quote synopsis
    then record { phrase = or_else h.phrase quote; quote = quote; stage = "semantic" } ∷ rest
    else rest

abbrev pub read_reply : String → Reply → List String × List EdgeHit
read_reply synopsis (answered hits) = ([], semantic_hits synopsis hits)
read_reply synopsis upstream_failed = ("edge_phrase_check_pending" ∷ [], [])

abbrev pub ask_model : EdgeModel → String → List String × List EdgeHit
ask_model none synopsis = ("edge_phrase_check_pending" ∷ [], [])
ask_model (some ask) synopsis = read_reply synopsis (ask synopsis)

-- the pending flags and the hits of the model's pass
unfoldable pub semantic_pass : EdgeModel → String → List String × List EdgeHit
semantic_pass llm synopsis = if synopsis == "" then ([], []) else ask_model llm synopsis

-- `x is not None and x >= limit`, `x is not None and x < limit`
abbrev pub at_least : Option ℕ → ℕ → Bool
at_least none limit = false
at_least (some n) limit = leb limit n

abbrev pub below : Option ℕ → ℕ → Bool
below none limit = false
below (some n) limit = ltb n limit

-- the decision once no edge phrase was found
unfoldable pub judge_by_numbers :
    IntentProfile → FormDefinitionPack → List String → FormTypeDecision
judge_by_numbers intent pack flags =
    if at_least intent.episode_minutes (max_minutes pack)
      || intent.form_type_claimed == ClaimedFormType.web_film
    then record {
      form_type = FormType.web_film;
      outcome = Outcome.exit_sister_path;
      missing = [];
      reasons = "form_type.episode_minutes_over_limit" ∷ [];
      pending_flags = flags;
      edge_quotes = [];
    }
    else if below intent.episode_count (min_episodes pack)
    then record {
      form_type = FormType.non_drama;
      outcome = Outcome.exit_non_drama;
      missing = [];
      reasons = "form_type.episode_count_below_minimum" ∷ [];
      pending_flags = flags;
      edge_quotes = [];
    }
    else record {
      form_type = FormType.micro_drama;
      outcome = Outcome.micro_drama;
      missing = [];
      reasons = "form_type.micro_drama" ∷ [];
      pending_flags = flags ++ "script_verify" ∷ [];
      edge_quotes = [];
    }

-- the decision from the hits: an edge phrase goes to a human
unfoldable pub judge_by_hits :
    IntentProfile → FormDefinitionPack → List String → List EdgeHit → FormTypeDecision
judge_by_hits intent pack flags [] = judge_by_numbers intent pack flags
judge_by_hits intent pack flags (h ∷ hs) = record {
  form_type = FormType.undetermined;
  outcome = Outcome.needs_human;
  missing = [];
  reasons = "form_type.edge_phrase" ∷ [];
  pending_flags = flags;
  edge_quotes = h ∷ hs;
}

abbrev pub edge_hits : IntentProfile → EdgeModel → List EdgeHit
edge_hits intent llm =
    let synopsis = or_else intent.synopsis "" in
    detect_edge_phrases synopsis ++ (semantic_pass llm synopsis).1

unfoldable pub judge_form_type : IntentProfile → FormDefinitionPack → EdgeModel → FormTypeDecision
judge_form_type intent pack llm =
    let missing = missing_fields intent in
    if contains missing "episode_count" || contains missing "episode_minutes"
    then record {
      form_type = FormType.undetermined;
      outcome = Outcome.ask_back;
      missing = keep (λ k. not (k == "synopsis")) missing;
      reasons = "intent.missing_required_fields" ∷ [];
      pending_flags = [];
      edge_quotes = [];
    }
    else judge_by_hits intent pack (semantic_pass llm (or_else intent.synopsis "")).0
        (edge_hits intent llm)
