-- ===== src/Contents/Domain/Editorial.antt =====
-- The editorial life cycle as a relation, decided by `can_transition_editorial_status`.
use ai_content_operating_sys.Base.{◌↔◌, ◌≡◌, refl, true, arith, ◌≢◌}
use ai_content_operating_sys.Contents.Domain.Status.{
  EditorialStatus, idea, researching, outlined, draft, in_review, changes_requested, approved,
  ready_to_publish, published, archived, can_transition_editorial_status,
}

-- The documented flow, its shortcuts into a draft, the way back from review, and archiving.
infix 40 ◌⟶◌
pub data ◌⟶◌ : EditorialStatus → EditorialStatus → Type 0 where
  research : idea ⟶ researching
  outline : researching ⟶ outlined
  write_idea : idea ⟶ draft
  write_research : researching ⟶ draft
  write_outline : outlined ⟶ draft
  submit : draft ⟶ in_review
  approve : in_review ⟶ approved
  request_changes : in_review ⟶ changes_requested
  rework : changes_requested ⟶ draft
  ready : approved ⟶ ready_to_publish
  publish : ready_to_publish ⟶ published
  retire : {s : EditorialStatus} → s ≢ archived → s ⟶ archived

pub step_sound : (s t : EditorialStatus) → can_transition_editorial_status s t ≡ true → s ⟶ t
unfolding can_transition_editorial_status
step_sound s t h = grind (
  arith, research, outline, write_idea, write_research, write_outline, submit, approve,
  request_changes, rework, ready, publish, retire,
)

pub step_complete : {s t : EditorialStatus} → s ⟶ t → can_transition_editorial_status s t ≡ true
unfolding can_transition_editorial_status
step_complete research = refl
step_complete outline = refl
step_complete write_idea = refl
step_complete write_research = refl
step_complete write_outline = refl
step_complete submit = refl
step_complete approve = refl
step_complete request_changes = refl
step_complete rework = refl
step_complete ready = refl
step_complete publish = refl
step_complete (retire ne) = ground arith

-- The test of the source holds exactly along the edges of the life cycle.
pub can_transition_editorial_status_iff :
    (s t : EditorialStatus) → (can_transition_editorial_status s t ≡ true) ↔ (s ⟶ t)
can_transition_editorial_status_iff s t = (step_sound s t, step_complete)
