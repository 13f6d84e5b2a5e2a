-- ===== src/Classify/SubjectRules.antt =====
-- core/classify/subject_rules.py: the subject pack, in either of its shapes, as one list of rules.
use film_compliance_agent.Base.{
  ℕ, suc, String, Bool, true, false, Option, none, some, List, [], ◌∷◌, ◌++◌, contains,
  if◌then◌else◌, string_eq,
}
use film_compliance_agent.Base.Dict.{Dict, lookup}
use film_compliance_agent.Base.Decimal.{print_padded}
use film_compliance_agent.Base.{◌+++◌}
use film_compliance_agent.Schemas.Json.{
  Json, Detail, end, entry, null, bool, str, arr, nil, get_or, is_true,
}
use film_compliance_agent.Schemas.Json.Access.{type_error, dict_of, list_of, each, text_of}
use film_compliance_agent.Errors.{Result, ok, err, ◌>>=◌}

abbrev pub category_keywords : Dict String (List String)
category_keywords =
    ("political", "国家领导人" ∷ "党代会" ∷ "阅兵" ∷ "党委" ∷ "政府机关" ∷ "换届" ∷ "政治运动" ∷ [])
    ∷ ("military", "军队" ∷ "部队" ∷ "解放军" ∷ "军人" ∷ "军演" ∷ "军衔" ∷ "战役" ∷ "武警" ∷ [])
    ∷ ("diplomatic", "外交" ∷ "大使馆" ∷ "领事馆" ∷ "建交" ∷ "国际谈判" ∷ "外事" ∷ [])
    ∷ ("national_security", "国家安全" ∷ "间谍" ∷ "反间谍" ∷ "情报机关" ∷ "国家机密" ∷ "特工" ∷ [])
    ∷ ("united_front", "统战" ∷ "港澳台" ∷ "侨务" ∷ "民主党派" ∷ "政协" ∷ [])
    ∷ ("ethnic", "民族" ∷ "少数民族" ∷ "民族习俗" ∷ "民族地区" ∷ [])
    ∷ ("religious", "宗教" ∷ "寺庙" ∷ "教堂" ∷ "佛教" ∷ "道教" ∷ "伊斯兰" ∷ "基督教" ∷ "僧人" ∷ [])
    ∷ ("judicial", "法院" ∷ "检察院" ∷ "法官" ∷ "检察官" ∷ "审判" ∷ "监狱" ∷ "看守所" ∷ "庭审" ∷ [])
    ∷ ("public_security", "公安" ∷ "警察" ∷ "民警" ∷ "刑警" ∷ "缉毒" ∷ "卧底" ∷ "派出所" ∷ "抓捕" ∷ "禁毒" ∷ [])
    ∷ []

abbrev pub category_dept : Dict String Detail
category_dept =
    ("political", entry "name" (str "宣传主管部门") (entry "practical_contact" (str "属地党委宣传部") end))
    ∷ ("military", entry "name" (str "军队政治工作部门") (entry "practical_contact" (str "属地军事主管机关") end))
    ∷ ("diplomatic", entry "name" (str "外事主管部门") (entry "practical_contact" (str "属地外办") end))
    ∷ (
      "national_security",
      entry "name" (str "国家安全主管部门") (entry "practical_contact" (str "属地国安机关") end),
    )
    ∷ ("united_front", entry "name" (str "统战主管部门") (entry "practical_contact" (str "属地统战部") end))
    ∷ ("ethnic", entry "name" (str "民族事务主管部门") (entry "practical_contact" (str "属地民宗委") end))
    ∷ ("religious", entry "name" (str "宗教事务主管部门") (entry "practical_contact" (str "属地民宗委") end))
    ∷ ("judicial", entry "name" (str "司法主管部门") (entry "practical_contact" (str "属地司法行政机关") end))
    ∷ (
      "public_security",
      entry "name" (str "公安主管部门") (entry "practical_contact" (str "属地公安局宣传部门") end),
    )
    ∷ []

abbrev pub default_clause_ref : String
default_clause_ref = "nrta-order-16-article-5"

pub record SubjectRule : Type 0 where
  pub rule_id : String
  pub category : String
  pub trigger_patterns : List String
  pub is_edge_case : Bool
  pub tier_effect : String
  pub dept_mapping : Detail
  pub clause_ref : String
  pub expert_pending : Bool

unfoldable pub rule_id_for : ℕ → String
rule_id_for index = "SR-" +++ print_padded index

-- `d.get(category, default)`
abbrev pub or_default {ℓ} : {A : Type ℓ} → Option A → A → A
or_default (some a) d = a
or_default none d = d

-- `dict.fromkeys`: each text at its first place
unfoldable pub first_places : List String → List String → List String
first_places seen [] = []
first_places seen (x ∷ xs) =
    let new = first_places (x ∷ seen) xs in
    let same = first_places seen xs in if contains seen x then same else x ∷ new

-- a text of a list; the code refuses another value only later, where it looks for it
abbrev pub plain_text : Json → Result String
plain_text (str s) = ok s
plain_text _ = err type_error

module _ (show : Json → String) where
  -- `str(d.get(key) or default)`
  abbrev pub text_or : String → String → Detail → String
  text_or key default d =
      let found = get_or key null d in if is_true found then text_of show found else default

  abbrev pub flag_at : String → Detail → Bool
  flag_at key d = is_true (get_or key (bool false) d)

  -- `raw.get("dept_mapping") or CATEGORY_DEPT.get(category, {})`
  abbrev pub dept_of : String → Detail → Result Detail
  dept_of category raw =
      let found = get_or "dept_mapping" null raw in
      if is_true found then dict_of found else ok (or_default (lookup category category_dept) end)

  -- one entry of an explicit list
  unfoldable pub explicit_rule : ℕ → Detail → Result SubjectRule
  explicit_rule index raw = do
    let category = text_of show (get_or "category" (str "unknown") raw)
    let expert_pending = flag_at "expert_pending" raw
    items ← list_of (get_or "trigger_patterns" (arr nil) raw)
    patterns ← each plain_text items
    let vocabulary = or_default (lookup category category_keywords) []
    let all_patterns = if expert_pending then patterns ++ vocabulary else patterns
    dept ← dept_of category raw
    ok (record {
      rule_id = text_or "rule_id" (rule_id_for index) raw;
      category = category;
      trigger_patterns = first_places [] all_patterns;
      is_edge_case = flag_at "is_edge_case" raw;
      tier_effect = text_of show (get_or "tier_effect" (str "T1_mandatory") raw);
      dept_mapping = dept;
      clause_ref = text_or "clause_ref" default_clause_ref raw;
      expert_pending = expert_pending;
    })

  unfoldable pub explicit_rules : ℕ → List Json → Result (List SubjectRule)
  explicit_rules index [] = ok []
  explicit_rules index (j ∷ js) =
      let rest = explicit_rules (suc index) js in
      (do raw ← dict_of j; rule ← explicit_rule index raw; rules ← rest; ok (rule ∷ rules))

  -- one category of the seed
  unfoldable pub seed_rule : ℕ → String → String → SubjectRule
  seed_rule index clause_ref category = record {
    rule_id = rule_id_for index;
    category = category;
    trigger_patterns = or_default (lookup category category_keywords) [];
    is_edge_case = false;
    tier_effect = "T1_mandatory";
    dept_mapping = or_default (lookup category category_dept) end;
    clause_ref = clause_ref;
    expert_pending = true;
  }

  unfoldable pub seed_rules : ℕ → String → List Json → List SubjectRule
  seed_rules index clause_ref [] = []
  seed_rules index clause_ref (j ∷ js) =
      seed_rule index clause_ref (text_of show j) ∷ seed_rules (suc index) clause_ref js

  -- `d.get(key) or {}`, `d.get(key) or []`
  abbrev pub dict_or_empty : String → Detail → Result Detail
  dict_or_empty key d =
      let found = get_or key null d in if is_true found then dict_of found else ok end

  abbrev pub list_or_empty : String → Detail → Result (List Json)
  list_or_empty key d =
      let found = get_or key null d in if is_true found then list_of found else ok []

  unfoldable pub load_subject_rules : Detail → Result (List SubjectRule)
  load_subject_rules pack =
      if is_true (get_or "subject_rules" null pack)
      then list_of (get_or "subject_rules" null pack) >>= explicit_rules 1
      else (do
        special ← dict_or_empty "special_subject" pack
        subjects ← list_or_empty "subjects" special
        ok (seed_rules 1 (text_or "clause_ref" default_clause_ref special) subjects))
