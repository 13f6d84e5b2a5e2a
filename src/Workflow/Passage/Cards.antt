-- ===== src/Workflow/Passage/Cards.antt =====
-- core/workflow_service.py: which cards `material_cards` lists.
use mathlib.Core.List.{Memᴰ}
use film_compliance_agent.Base.{
  ◌==◌, String, some, List, [], ◌∷◌, ◌≡◌, refl, sym, ap, ◌∙◌, ◌⊎◌, inl, inr, All, All-map,
  string_eq, Bool-cases, Option-cases,
}
use film_compliance_agent.Base.Dict.{Dict, lookup, values, mem_of_lookup}
use film_compliance_agent.Schemas.Assets.{MaterialCard}
use film_compliance_agent.Schemas.Project.{Project}
use film_compliance_agent.Schemas.Policy.{FormPack}
use film_compliance_agent.Materials.{build_material_cards}
use film_compliance_agent.Errors.{ok}
use film_compliance_agent.Store.{Stores}
use film_compliance_agent.Effects.{Env, bind-ok}
use film_compliance_agent.Workflow.Core.{get_project, pinned_version, form_pack_of}
use film_compliance_agent.Workflow.Passage.{drop_card, kept_or_put, merge_cards, material_cards}

-- a card of the pack is listed, or the one stored under its identifier is in its place
abbrev pub IsListed : Dict String MaterialCard → List MaterialCard → MaterialCard → Type 0
IsListed stored cards card =
    (c : MaterialCard) × Memᴰ c cards × ((c ≡ card) ⊎ Memᴰ (card.material_id, c) stored)

mem_of_drop_card :
    (id : String) (stored : Dict String MaterialCard) (e : String × MaterialCard)
    → Memᴰ e (drop_card id stored)
    → Memᴰ e stored
mem_of_drop_card id [] e m = m
mem_of_drop_card id (x ∷ xs) e m = elim (Bool-cases (x.0 == id)) [
  | inl same ↦ Memᴰ.tail (rw same at m)
  | inr other ↦ elim (rw other at m) [
    | Memᴰ.head p ↦ Memᴰ.head p
    | Memᴰ.tail k ↦ Memᴰ.tail (mem_of_drop_card id xs e k)
  ]
]

-- An entry is the first of its identifier, or is left when that one is dropped.
mem_or_dropped :
    (id : String) (stored : Dict String MaterialCard) (e : String × MaterialCard)
    → Memᴰ e stored
    → (lookup id stored ≡ some e.1) ⊎ Memᴰ e (drop_card id stored)
unfolding lookup
mem_or_dropped id [] e m = elim m [ ]
mem_or_dropped id (x ∷ xs) e (Memᴰ.head p) = elim (Bool-cases (x.0 == id)) [
  | inl same ↦ inl (rw same (ap some (ap (λ y. y.1) (sym p))))
  | inr other ↦ inr (rw other (Memᴰ.head p))
]
mem_or_dropped id (x ∷ xs) e (Memᴰ.tail k) = elim (Bool-cases (x.0 == id)) [
  | inl same ↦ inr (rw same k)
  | inr other ↦ elim (mem_or_dropped id xs e k) [
    | inl found ↦ inl (rw other found)
    | inr left ↦ inr (rw other (Memᴰ.tail left))
  ]
]

mem-values :
    (d : Dict String MaterialCard) {e : String × MaterialCard} → Memᴰ e d → Memᴰ e.1 (values d)
mem-values [] m = elim m [ ]
mem-values (x ∷ d) (Memᴰ.head p) = Memᴰ.head (ap (λ y. y.1) p)
mem-values (x ∷ d) (Memᴰ.tail m) = Memᴰ.tail (mem-values d m)

IsListed-later :
    (x card : MaterialCard) (id : String) (stored : Dict String MaterialCard)
    (cards : List MaterialCard)
    → IsListed (drop_card id stored) cards card
    → IsListed stored (x ∷ cards) card
IsListed-later x card id stored cards (c, m, inl same) = (c, Memᴰ.tail m, inl same)
IsListed-later x card id stored cards (c, m, inr k) =
    (c, Memᴰ.tail m, inr (mem_of_drop_card id stored (card.material_id, c) k))

All-same :
    (stored : Dict String MaterialCard) (cards cards' defined : List MaterialCard)
    → cards ≡ cards'
    → All (IsListed stored cards) defined
    → All (IsListed stored cards') defined
All-same stored cards cards' defined same h = rw same at h

module _ (project_id : String) (env : Env) where
  kept_or_put-listed :
      (card x : MaterialCard) (stored : Dict String MaterialCard) (w w' : Stores)
      → kept_or_put project_id card (lookup card.material_id stored) env w ≡ (ok x, w')
      → (x ≡ card) ⊎ Memᴰ (card.material_id, x) stored
  kept_or_put-listed card x stored w w' h = elim (Option-cases (lookup card.material_id stored)) [
    | inl absent ↦ let k = rw absent at h in inl (cc)
    | inr (y, present) ↦
        let k = rw present at h in
        let same : y ≡ x = cc in
        inr (mem_of_lookup card.material_id x stored (present ∙ ap some same))
  ]

  -- Every card that the pack defines is listed, or the stored one in its place.
  pub merge_cards-IsListed :
      (defined : List MaterialCard) (stored : Dict String MaterialCard) (cards : List MaterialCard)
      (w w' : Stores)
      → merge_cards project_id defined stored env w ≡ (ok cards, w')
      → All (IsListed stored cards) defined
  unfolding merge_cards
  merge_cards-IsListed [] stored cards w w' h = tt
  merge_cards-IsListed (card ∷ defined) stored cards w w' h =
      let (x, w₁, kept, h₁) =
        bind-ok (kept_or_put project_id card (lookup card.material_id stored)) _ env w w' cards h in
      let (rest, w₂, merged, h₂) =
        bind-ok (merge_cards project_id defined (drop_card card.material_id stored)) _ env w₁ w'
          cards h₁ in
      let same : x ∷ rest ≡ cards = cc in
      let later =
        merge_cards-IsListed defined (drop_card card.material_id stored) rest w₁ w₂ merged in
      let all : All (IsListed stored (x ∷ rest)) (card ∷ defined) = (
        (x, Memᴰ.head refl, kept_or_put-listed card x stored w w₁ kept),
        All-map (λ c l. IsListed-later x c card.material_id stored rest l) defined later,
      ) in
      All-same stored (x ∷ rest) cards (card ∷ defined) same all

  kept_or_put-stored :
      (card x y : MaterialCard) (stored : Dict String MaterialCard) (w w' : Stores)
      → lookup card.material_id stored ≡ some y
      → kept_or_put project_id card (lookup card.material_id stored) env w ≡ (ok x, w')
      → y ≡ x
  kept_or_put-stored card x y stored w w' present h = let k = rw present at h in cc

  -- Every stored card is listed.
  pub merge_cards-keeps :
      (defined : List MaterialCard) (stored : Dict String MaterialCard) (cards : List MaterialCard)
      (w w' : Stores) (e : String × MaterialCard)
      → merge_cards project_id defined stored env w ≡ (ok cards, w')
      → Memᴰ e stored
      → Memᴰ e.1 cards
  unfolding merge_cards
  merge_cards-keeps [] stored cards w w' e h m =
      let same : values stored ≡ cards = cc in rw same at (let k = mem-values stored m in k)
  merge_cards-keeps (card ∷ defined) stored cards w w' e h m =
      let (x, w₁, kept, h₁) =
        bind-ok (kept_or_put project_id card (lookup card.material_id stored)) _ env w w' cards h in
      let (rest, w₂, merged, h₂) =
        bind-ok (merge_cards project_id defined (drop_card card.material_id stored)) _ env w₁ w'
          cards h₁ in
      let same : x ∷ rest ≡ cards = cc in
      elim (mem_or_dropped card.material_id stored e m) [
        | inl first ↦
            let k : Memᴰ e.1 (x ∷ rest) =
              Memᴰ.head (kept_or_put-stored card x e.1 stored w w₁ first kept) in
            rw same at k
        | inr left ↦
            let k : Memᴰ e.1 (x ∷ rest) = Memᴰ.tail (
              merge_cards-keeps defined (drop_card card.material_id stored) rest w₁ w₂ e merged
                left) in
            rw same at k
      ]

  -- What `material_cards` lists: the cards of the pack, or the stored ones in their place, and
  -- every stored card.
  pub record IsComplete (version : String) (pack : FormPack) (w : Stores)
      (cards : List MaterialCard) : Type 0 where
    pub defined :
        All
          (IsListed (w.materials project_id) cards)
          (build_material_cards env.has_clause pack version)
    pub stored : (e : String × MaterialCard) → Memᴰ e (w.materials project_id) → Memᴰ e.1 cards

  pub material_cards-IsComplete :
      (p : Project) (version : String) (pack : FormPack) (cards : List MaterialCard) (w w' : Stores)
      → lookup project_id w.projects ≡ some p
      → pinned_version p env w ≡ (ok version, w)
      → env.form_pack version ≡ some pack
      → material_cards project_id env w ≡ (ok cards, w')
      → IsComplete version pack w cards
  unfolding material_cards get_project form_pack_of
  material_cards-IsComplete p version pack cards w w' found pinned packed h =
      let h₁ = rw (found, pinned, packed) at h in
      record {
        defined =
            merge_cards-IsListed (build_material_cards env.has_clause pack version)
              (w.materials project_id) cards w w' h₁;
        stored = λ e m.
            merge_cards-keeps (build_material_cards env.has_clause pack version)
              (w.materials project_id) cards w w' e h₁ m;
      }
