-- ===== src/Gate/Report.antt =====
-- What an empty gap report means: the gate opens exactly when nothing is outstanding.
use mathlib.Core.List.{Memᴰ}
use film_compliance_agent.Base.{
  Bool, true, false, String, Option, List, [], ◌∷◌, contains, is_empty, all, All, not, ◌&&◌, ◌||◌,
  ◌==◌, ◌≡◌, ◌≢◌, ◌⊎◌, ◌↔◌, inl, inr, refl, string_eq, arith, Bool-cases, is_empty-append,
  is_empty-map, is_empty-keep, all-All, All-all, All-map, string_iff,
}
use film_compliance_agent.Base.Sorting.{is_empty-sorted_set}
use film_compliance_agent.Schemas.Enums.Review.{FactStatus, MaterialStatus}
use film_compliance_agent.Schemas.Common.{Fact}
use film_compliance_agent.Schemas.Findings.{Finding, blocks_gate_d3}
use film_compliance_agent.Schemas.Assets.{MaterialCard}
use film_compliance_agent.Schemas.Policy.{FormPack}
use film_compliance_agent.Gate.{
  required_fact_keys, is_open_block, is_undispatched_alert, is_unresolved_needs_human, is_usable,
  is_conflicting, usable_fact_keys, is_unvalidated, gap, evaluate_gate_d3,
}

-- a fact for the key whose value somebody confirmed or left to the institution
pub record Supplied (facts : List Fact) (key : String) : Type 0 where
  pub fact : Fact
  pub stored : Memᴰ fact facts
  pub for_key : fact.key ≡ key
  pub usable : (fact.status ≡ FactStatus.confirmed) ⊎ (fact.status ≡ FactStatus.pending_institution)

-- nothing that the gate looks for is outstanding
pub record IsClear (findings : List Finding) (facts : List Fact) (materials : List MaterialCard)
    (required : List String) : Type 0 where
  pub unblocked : All (λ f. blocks_gate_d3 f ≡ false) findings
  pub supplied : All (Supplied facts) required
  pub agreed : All (λ f. f.status ≢ FactStatus.conflict) facts
  pub validated :
      All
        (λ m.
          m.required ≡ true
          → (m.status ≡ MaterialStatus.valid) ⊎ (m.status ≡ MaterialStatus.waived))
        materials

is_empty-gap : (check : String) (items : List String) → is_empty (gap check items) ≡ is_empty items
is_empty-gap check [] = refl
is_empty-gap check (x ∷ xs) = refl

ruleset report_laws =
    (is_empty-append, is_empty-gap, is_empty-map, is_empty-keep, is_empty-sorted_set)

module _ (findings : List Finding) (facts : List Fact) (materials : List MaterialCard)
    (form_pack : Option FormPack) where
  passed-all : (evaluate_gate_d3 findings facts materials form_pack).passed ≡ (
      all (λ f. not (is_open_block f)) findings
      && (all (λ f. not (is_undispatched_alert f)) findings
          && (all (λ f. not (is_unresolved_needs_human f)) findings
              && (all
                    (λ k. not (not (contains (usable_fact_keys facts) k)))
                    (required_fact_keys form_pack)
                  && (all (λ f. not (is_conflicting f)) facts
                      && all (λ m. not (is_unvalidated m)) materials)))))
  unfolding evaluate_gate_d3
  passed-all = simp report_laws

-- A finding that blocks falls under one of the three checks on findings.
blocks-checks :
    (f : Finding)
    → blocks_gate_d3 f
      ≡ (is_open_block f || (is_undispatched_alert f || is_unresolved_needs_human f))
unfolding blocks_gate_d3
blocks-checks f = ground arith

all-blocks :
    (findings : List Finding)
    → (all (λ f. not (is_open_block f)) findings
        && (all (λ f. not (is_undispatched_alert f)) findings
            && all (λ f. not (is_unresolved_needs_human f)) findings))
      ≡ all (λ f. not (blocks_gate_d3 f)) findings
all-blocks [] = refl
all-blocks (f ∷ fs) = ground (arith, all-blocks fs, blocks-checks f)

usable_step :
    (key : String) (f : Fact) (fs : List Fact)
    → contains (usable_fact_keys (f ∷ fs)) key
      ≡ ((is_usable f && f.key == key) || contains (usable_fact_keys fs) key)
usable_step key f fs = ground arith

is_usable_iff :
    (f : Fact)
    → (is_usable f ≡ true)
      ↔ ((f.status ≡ FactStatus.confirmed) ⊎ (f.status ≡ FactStatus.pending_institution))
is_usable_iff f = ground arith

Supplied-cons : {key : String} {f : Fact} {fs : List Fact} → Supplied fs key → Supplied (f ∷ fs) key
Supplied-cons s = record {
  fact = s.fact;
  stored = Memᴰ.tail s.stored;
  for_key = s.for_key;
  usable = s.usable;
}

pub Supplied-of_contains :
    (key : String) (facts : List Fact)
    → contains (usable_fact_keys facts) key ≡ true
    → Supplied facts key
Supplied-of_contains key [] h = cc
Supplied-of_contains key (f ∷ fs) h = elim (Bool-cases (is_usable f && f.key == key)) [
  | inl here ↦ record {
    fact = f;
    stored = Memᴰ.head refl;
    for_key = (string_iff f.key key).0 (ground arith);
    usable = (is_usable_iff f).0 (ground arith);
  }
  | inr no_match ↦
      Supplied-cons (Supplied-of_contains key fs (ground (arith, usable_step key f fs)))
]

contains_of_mem :
    (key : String) {f : Fact} (facts : List Fact)
    → Memᴰ f facts
    → f.key ≡ key
    → is_usable f ≡ true
    → contains (usable_fact_keys facts) key ≡ true
contains_of_mem key [] m e u = elim m [ ]
contains_of_mem key {f} (g ∷ gs) (Memᴰ.head p) e u =
    rw (usable_step key g gs, ← p, u, (string_iff f.key key).1 e)
contains_of_mem key (g ∷ gs) (Memᴰ.tail m) e u =
    ground (arith, usable_step key g gs, contains_of_mem key gs m e u)

pub contains_of_Supplied :
    (key : String) (facts : List Fact)
    → Supplied facts key
    → contains (usable_fact_keys facts) key ≡ true
contains_of_Supplied key facts s =
    contains_of_mem key facts s.stored s.for_key ((is_usable_iff s.fact).1 s.usable)

not-not : (b : Bool) → not (not b) ≡ b
not-not true = refl
not-not false = refl

not_conflicting : (f : Fact) → (not (is_conflicting f) ≡ true) ↔ (f.status ≢ FactStatus.conflict)
not_conflicting f = ground arith

not_unvalidated :
    (m : MaterialCard)
    → (not (is_unvalidated m) ≡ true)
      ↔ (m.required ≡ true → (m.status ≡ MaterialStatus.valid) ⊎ (m.status ≡ MaterialStatus.waived))
not_unvalidated m = ground arith

not_blocking : (f : Finding) → (not (blocks_gate_d3 f) ≡ true) ↔ (blocks_gate_d3 f ≡ false)
not_blocking f = ground arith

module _ (findings : List Finding) (facts : List Fact) (materials : List MaterialCard)
    (form_pack : Option FormPack) where
  passed-parts : (evaluate_gate_d3 findings facts materials form_pack).passed ≡ (
      all (λ f. not (blocks_gate_d3 f)) findings
      && (all (λ k. contains (usable_fact_keys facts) k) (required_fact_keys form_pack)
          && (all (λ f. not (is_conflicting f)) facts
              && all (λ m. not (is_unvalidated m)) materials)))
  passed-parts = rw (passed-all, ← all-blocks findings) (simp (not-not) (ground arith))

  IsClear-of_passed :
      (evaluate_gate_d3 findings facts materials form_pack).passed ≡ true
      → IsClear findings facts materials (required_fact_keys form_pack)
  IsClear-of_passed h =
      let parts = rw passed-parts at h in
      record {
        unblocked = All-map (λ f. (not_blocking f).0) findings (all-All _ findings (ground arith));
        supplied =
            All-map (λ k. Supplied-of_contains k facts) (required_fact_keys form_pack)
              (all-All _ (required_fact_keys form_pack) (ground arith));
        agreed = All-map (λ f. (not_conflicting f).0) facts (all-All _ facts (ground arith));
        validated =
            All-map (λ m. (not_unvalidated m).0) materials (all-All _ materials (ground arith));
      }

  passed_of_IsClear :
      IsClear findings facts materials (required_fact_keys form_pack)
      → (evaluate_gate_d3 findings facts materials form_pack).passed ≡ true
  passed_of_IsClear c = rw (
    passed-parts,
    All-all (λ f. not (blocks_gate_d3 f)) findings
        (All-map (λ f. (not_blocking f).1) findings c.unblocked),
    All-all (λ k. contains (usable_fact_keys facts) k) (required_fact_keys form_pack)
        (All-map (λ k. contains_of_Supplied k facts) (required_fact_keys form_pack) c.supplied),
    All-all (λ f. not (is_conflicting f)) facts
        (All-map (λ f. (not_conflicting f).1) facts c.agreed),
    All-all (λ m. not (is_unvalidated m)) materials
        (All-map (λ m. (not_unvalidated m).1) materials c.validated),
  )

  -- The D3 gate opens exactly when no finding blocks it, every required key has a fact that is
  -- confirmed or left to the institution, no fact is in conflict, and every required material is
  -- valid or waived.
  pub passed_iff :
      ((evaluate_gate_d3 findings facts materials form_pack).passed ≡ true)
      ↔ IsClear findings facts materials (required_fact_keys form_pack)
  passed_iff = (IsClear-of_passed, passed_of_IsClear)
