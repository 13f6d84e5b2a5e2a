-- ===== src/Store/Drafts.antt =====
-- The store of form drafts: a write touches the draft with its identifier and no other.
use mathlib.Core.List.{Memᴰ}
use film_compliance_agent.Base.{
  false, String, some, List, [], ◌∷◌, ◌==◌, ◌≡◌, ◌≢◌, inl, inr, refl, string_eq, string_iff,
  Bool-cases, last, arith,
}
use film_compliance_agent.Schemas.Forms.{FormDraft}
use film_compliance_agent.Store.{put_draft}

pub mem-put_draft : (draft : FormDraft) (l : List FormDraft) → Memᴰ draft (put_draft draft l)
unfolding put_draft
mem-put_draft draft [] = Memᴰ.head refl
mem-put_draft draft (d ∷ ds) = elim (Bool-cases (d.draft_id == draft.draft_id)) [
  | inl same ↦ rw same (Memᴰ.head refl)
  | inr other ↦ rw other (Memᴰ.tail (mem-put_draft draft ds))
]

pub mem-put_draft_ne :
    (draft : FormDraft) {d : FormDraft} (l : List FormDraft)
    → Memᴰ d l
    → d.draft_id ≢ draft.draft_id
    → Memᴰ d (put_draft draft l)
unfolding put_draft
mem-put_draft_ne draft [] m ne = elim m [ ]
mem-put_draft_ne draft {d} (x ∷ xs) (Memᴰ.head p) ne =
    let other : (x.draft_id == draft.draft_id) ≡ false =
      ground (arith, string_iff x.draft_id draft.draft_id) in
    rw other (Memᴰ.head p)
mem-put_draft_ne draft (x ∷ xs) (Memᴰ.tail m) ne =
    elim (Bool-cases (x.draft_id == draft.draft_id)) [
      | inl same ↦ rw same (Memᴰ.tail m)
      | inr other ↦ rw other (Memᴰ.tail (mem-put_draft_ne draft xs m ne))
    ]

-- no draft of the list has the identifier
abbrev pub IsNew : String → List FormDraft → Type 0
IsNew id [] = Unit {0}
IsNew id (d ∷ ds) = (d.draft_id ≢ id) × IsNew id ds

-- the identifiers of the drafts differ
abbrev pub AreDistinct : List FormDraft → Type 0
AreDistinct [] = Unit {0}
AreDistinct (d ∷ ds) = IsNew d.draft_id ds × AreDistinct ds

-- A new draft comes last.
pub last-put_draft_new :
    (draft : FormDraft) (l : List FormDraft)
    → IsNew draft.draft_id l
    → last (put_draft draft l) ≡ some draft
unfolding put_draft
last-put_draft_new draft [] n = refl
last-put_draft_new draft (d ∷ ds) n =
    let other : (d.draft_id == draft.draft_id) ≡ false =
      ground (arith, string_iff d.draft_id draft.draft_id) in
    rw (other, last-put_draft_new draft ds n.1)

pub ne_of_IsNew :
    (id : String) {d : FormDraft} (l : List FormDraft) → IsNew id l → Memᴰ d l → d.draft_id ≢ id
ne_of_IsNew id [] n m = elim m [ ]
ne_of_IsNew id (x ∷ xs) n (Memᴰ.head p) = rw p n.0
ne_of_IsNew id (x ∷ xs) n (Memᴰ.tail m) = ne_of_IsNew id xs n.1 m
