-- ===== src/Policy/Validation.antt =====
-- policy/validation.py: what must hold between the packs of a snapshot. `show` is Python's `str` on
-- what is not a text.
use film_compliance_agent.Base.{
  ℕ, suc, String, Bool, false, not, ◌&&◌, ◌||◌, none, some, List, [], ◌∷◌, ◌++◌, ltb, leb, all, any,
  contains, map, if◌then◌else◌, string_eq,
}
use film_compliance_agent.Base.Decimal.{parse_nat}
use film_compliance_agent.Schemas.Json.{
  Json, Detail, null, bool, num, str, arr, obj, nil, get, get_or, is_true, keys_of, entries_of,
}
use film_compliance_agent.Errors.{Error, raised, Result, ok, err, ◌>>=◌, ◌>>◌, require, refuse}
use film_compliance_agent.Schemas.Json.Access.{
  type_error, dict_of, list_of, list_at, dict_at, each, text_of,
}
use film_compliance_agent.Policy.Documents.{PolicySnapshot, PolicyPacks, version_number}

abbrev pub semantic_error : Error
semantic_error = raised "SnapshotSemanticError"

abbrev pub supported_material_asset_kinds : List String
supported_material_asset_kinds =
    "synopsis" ∷ "script" ∷ "supporting_document" ∷ "prompts" ∷ "final_film" ∷ "subtitle_sheet" ∷ []

unfoldable pub has_duplicate : List String → Bool
has_duplicate [] = false
has_duplicate (x ∷ xs) = contains xs x || has_duplicate xs

module _ (show : Json → String) where
  -- `str(d[key])` where `d.get(key)` is true
  abbrev pub text_at : String → Detail → List String
  text_at key d =
      let found = get_or key null d in if is_true found then text_of show found ∷ [] else []

  -- the texts under a key, of those dicts where it is set
  unfoldable pub texts_at : String → List Detail → List String
  texts_at key [] = []
  texts_at key (d ∷ ds) = text_at key d ++ texts_at key ds

  -- `clauses`
  unfoldable pub clause_ids : Detail → Result (List String)
  clause_ids p6 = do
    items ← list_of (get_or "clauses" (arr nil) p6)
    dicts ← each dict_of items
    ok (texts_at "clause_id" dicts)

  abbrev pub card_id : Detail → String
  card_id card = text_of show (get_or "material_id" (str "") card)

  -- the dicts of a list under a key
  abbrev pub dicts_at : String → Detail → Result (List Detail)
  dicts_at key d = list_at key d >>= λ items. each dict_of items

  abbrev pub kind_supported : Detail → Result (Unit {0})
  kind_supported card = elim (get_or "asset_kind" null card) [
    | str kind ↦ require (contains supported_material_asset_kinds kind) semantic_error
    | arr _ ↦ err type_error
    | obj _ ↦ err type_error
    | _ ↦ err semantic_error
  ]

  unfoldable pub check_cards : List Detail → Result (Unit {0})
  check_cards cards = do
    refuse (has_duplicate (map card_id cards)) semantic_error
    kinds ← each kind_supported cards
    ok tt

  -- `int(d.get(key, -1))`, one higher, so that the default is 0; a text is read as its digits
  unfoldable pub int_at : String → Detail → Result ℕ
  int_at key d = elim (get key d) [
    | none ↦ ok 0
    | some (num n) ↦ ok (suc n)
    | some (bool b) ↦ ok (if b then 2 else 1)
    | some (str s) ↦ elim (parse_nat s) [ some n ↦ ok (suc n) | none ↦ err (raised "ValueError") ]
    | some _ ↦ err type_error
  ]

  abbrev pub has_key : Detail → String → Bool
  has_key d key = contains (keys_of d) key

  -- one round of the loop on threshold sets
  unfoldable pub check_threshold_set : Bool → Detail → Result (Unit {0})
  check_threshold_set published d = do
    refuse (published && not (all (has_key d) ("T1_min_rmb" ∷ "T2_min_rmb" ∷ "clause_ref" ∷ [])))
        semantic_error
    high ← int_at "T1_min_rmb" d
    low ← int_at "T2_min_rmb" d
    refuse (ltb high low) semantic_error

  -- the material references of a step that no card has
  abbrev pub is_card : List String → Json → Bool
  is_card ids (str s) = contains ids s
  is_card ids _ = false

  unfoldable pub check_step : List String → Detail → Result (Unit {0})
  check_step ids step = do
    refs ← list_at "material_refs" step
    require (all (is_card ids) refs) semantic_error

  unfoldable pub check_template : List String → Json → Result (List (Unit {0}))
  check_template ids definition = do
    d ← dict_of definition
    steps ← dicts_at "steps" d
    each (check_step ids) steps

  -- `(templates.get(name) or {}).get("steps")` is true
  abbrev pub has_steps : Detail → String → Result (Unit {0})
  has_steps templates name = do
    d ← dict_at name templates
    require (is_true (get_or "steps" null d)) semantic_error

  -- what a version after the first must have
  unfoldable pub check_complete : PolicyPacks → Detail → List Detail → Result (Unit {0})
  check_complete packs templates cards = do
    has_steps templates "T1_7steps"
    has_steps templates "T2_5steps"
    has_steps templates "T3_4steps"
    require (is_true (get_or "required_facts" null packs.p5_form_templates)) semantic_error
    require (any (λ card. is_true (get_or "required" null card)) cards) semantic_error
    refuse
        (is_true (get_or "thresholds_published" null packs.p3_tier_thresholds)
          && not (is_true (get_or "threshold_sets" null packs.p3_tier_thresholds)))
        semantic_error

  -- the clauses that the packs refer to
  abbrev pub referenced : PolicyPacks → List Detail → List Detail → List Detail → List String
  referenced packs rules sets cards =
      text_at "clause_ref" packs.p1_form_definition
      ++ texts_at "clause_ref" rules
      ++ texts_at "clause_ref" sets
      ++ texts_at "why_clause_id" cards

  -- the checks, on what was read from the packs
  unfoldable pub check_packs :
      PolicySnapshot
      → List String
      → List Detail
      → List Detail
      → List Detail
      → Detail
      → Result PolicySnapshot
  check_packs s clauses cards rules sets templates = do
    check_cards cards
    thresholds ←
        each
          (check_threshold_set
            (is_true (get_or "thresholds_published" null s.packs.p3_tier_thresholds)))
          sets
    require (all (contains clauses) (referenced s.packs rules sets cards)) semantic_error
    steps ← each (check_template (map card_id cards)) (map (λ e. e.1) (entries_of templates))
    elim (version_number s.version) [
      | none ↦ err (raised "ValueError")
      | some n ↦ if leb 2 n then check_complete s.packs templates cards >> ok s else ok s
    ]

  unfoldable pub validate_snapshot : PolicySnapshot → Result PolicySnapshot
  validate_snapshot s = do
    clauses ← clause_ids s.packs.p6_legal_clauses
    cards ← dicts_at "material_cards" s.packs.p5_form_templates
    rules ← dicts_at "subject_rules" s.packs.p2_subject_rules
    sets ← dict_at "threshold_sets" s.packs.p3_tier_thresholds
    set_dicts ← each dict_of (map (λ e. e.1) (entries_of sets))
    templates ← dict_at "templates" s.packs.p4_process_templates
    check_packs s clauses cards rules set_dicts templates
