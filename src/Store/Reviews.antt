-- ===== src/Store/Reviews.antt =====
-- The store of institution reviews.
use mathlib.Core.List.{Memᴰ}
use film_compliance_agent.Base.{List, [], ◌∷◌, ◌==◌, refl, inl, inr, string_eq, Bool-cases}
use film_compliance_agent.Schemas.Workflow.{InstitutionReview}
use film_compliance_agent.Store.{put_review}

-- A review that was put is stored.
pub mem-put_review :
    (review : InstitutionReview) (l : List InstitutionReview) → Memᴰ review (put_review review l)
unfolding put_review
mem-put_review review [] = Memᴰ.head refl
mem-put_review review (r ∷ rs) = elim (Bool-cases (r.review_id == review.review_id)) [
  | inl same ↦ rw same (Memᴰ.head refl)
  | inr other ↦ rw other (Memᴰ.tail (mem-put_review review rs))
]
