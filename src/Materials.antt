-- ===== src/Materials.antt =====
-- core/materials.py: the material cards that a form pack defines.
use film_compliance_agent.Base.{
  String, Bool, true, Option, none, some, List, [], ◌∷◌, ◌==◌, string_eq, ◌||◌, if◌then◌else◌,
}
use film_compliance_agent.Schemas.Enums.Review.{AssetKind, asset_kind_value, MaterialStatus}
use film_compliance_agent.Schemas.Enums.States.{Regime}
use film_compliance_agent.Schemas.Common.{EvidenceRef}
use film_compliance_agent.Schemas.Assets.{MaterialCard}
use film_compliance_agent.Schemas.Policy.{RawCard, FormPack}

abbrev pub asset_kinds : List AssetKind
asset_kinds =
    AssetKind.synopsis ∷ AssetKind.script ∷ AssetKind.supporting_document ∷ AssetKind.prompts
    ∷ AssetKind.final_film ∷ AssetKind.subtitle_sheet ∷ []

-- `AssetKind(text)` among some members
abbrev pub kind_named : String → List AssetKind → Option AssetKind
kind_named s [] = none
kind_named s (k ∷ ks) = if asset_kind_value k == s then some k else kind_named s ks

-- `_asset_kind`: none for a kind that is absent or unknown
unfoldable pub asset_kind_of : Option String → Option AssetKind
asset_kind_of none = none
asset_kind_of (some s) = kind_named s asset_kinds

-- `_evidence_for`, with the clauses of the snapshots as a test
unfoldable pub evidence_for : (String → String → Bool) → Option String → String → Option EvidenceRef
evidence_for has_clause none version = none
evidence_for has_clause (some clause_id) version =
    if clause_id == ""
    then none
    else if has_clause clause_id version
    then some
        (record { snapshot_version = version; clause_id = clause_id; regime = Regime.current })
    else none

abbrev pub or_true : Option Bool → Bool
or_true none = true
or_true (some b) = b

abbrev pub card_of :
    (String → String → Bool) → String → RawCard → String → String → AssetKind → MaterialCard
card_of has_clause version raw material_id name_key kind = record {
  material_id = material_id;
  name_key = name_key;
  asset_kind = kind;
  required = or_true raw.required;
  why_clause = evidence_for has_clause raw.why_clause_id version;
  template_uri = raw.template_uri;
  common_rejects_key = raw.common_rejects_key;
  status = MaterialStatus.pending;
  asset_version = none;
  invalid_reasons = [];
  waive_reason = none;
}

-- one entry of the pack: none where it is malformed
unfoldable pub read_card : (String → String → Bool) → String → RawCard → Option MaterialCard
read_card has_clause version raw = elim raw.material_id [
  | none ↦ none
  | some material_id ↦ elim raw.name_key [
    | none ↦ none
    | some name_key ↦ elim (asset_kind_of raw.asset_kind) [
      | none ↦ none
      | some kind ↦
          if material_id == "" || name_key == ""
          then none
          else some (card_of has_clause version raw material_id name_key kind)
    ]
  ]
]

abbrev pub add_card : Option MaterialCard → List MaterialCard → List MaterialCard
add_card none cards = cards
add_card (some c) cards = c ∷ cards

-- the loop over `material_cards`
unfoldable pub read_cards : (String → String → Bool) → String → List RawCard → List MaterialCard
read_cards has_clause version [] = []
read_cards has_clause version (raw ∷ rest) =
    add_card (read_card has_clause version raw) (read_cards has_clause version rest)

unfoldable pub build_material_cards :
    (String → String → Bool) → FormPack → String → List MaterialCard
build_material_cards has_clause pack version = read_cards has_clause version pack.material_cards
