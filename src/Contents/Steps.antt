-- ===== src/Contents/Steps.antt =====
-- An abstract view of a change to the contents, and what it keeps.
use ai_content_operating_sys.Base.{◌+◌, ◌≤◌, ◌≡◌, Bool, true, false, ◌||◌, List, ◌∷◌, any, Memᴰ}
use ai_content_operating_sys.Database.ContentRows.{
  ContentItem, ContentRevision, ContentReview, ReviewDecision, item_clash,
}
use ai_content_operating_sys.Database.Store.{Store}
use ai_content_operating_sys.Contents.Domain.Status.{
  EditorialStatus, in_review, approved, ready_to_publish, published, draft, same,
}
use ai_content_operating_sys.Contents.Domain.Editorial.{◌⟶◌}
use ai_content_operating_sys.Contents.Transition.{is_review_decision}
use ai_content_operating_sys.Contents.Reviewing.{status_after}
use ai_content_operating_sys.Contents.Versioning.{UniqueIds, Versioned}

-- A status that takes an approval.
abbrev pub needs_approval : EditorialStatus → Bool
needs_approval status =
    same status approved || same status ready_to_publish || same status published

-- A revision that holds an item as it is.
pub record Captures (revision : ContentRevision) (item : ContentItem) : Type 0 where
  pub of : revision.content_item_id ≡ item.id
  pub number : revision.revision_number ≡ item.version
  pub title : revision.title ≡ item.title
  pub html : revision.html_content ≡ item.html_content
  pub status : revision.editorial_status ≡ item.editorial_status

-- How the editorial status of one item may change.
pub data EditorialStep (s t : Store) (before after : ContentItem) : Type 0 where
  edited :
      after.editorial_status ≡ before.editorial_status
      → t.reviews ≡ s.reviews
      → EditorialStep s t before after
  moved :
      before.editorial_status ⟶ after.editorial_status
      → is_review_decision before.editorial_status after.editorial_status ≡ false
      → t.reviews ≡ s.reviews
      → EditorialStep s t before after
  decided :
      (review : ContentReview)
      → before.editorial_status ≡ in_review
      → after.editorial_status ≡ status_after review.decision
      → review.content_item_id ≡ before.id
      → t.reviews ≡ review ∷ s.reviews
      → EditorialStep s t before after
  redrafted :
      after.editorial_status ≡ draft → t.reviews ≡ s.reviews → EditorialStep s t before after

pub data ContentStep (s t : Store) : Type 0 where
  unchanged :
      t.items ≡ s.items → t.revisions ≡ s.revisions → t.reviews ≡ s.reviews → ContentStep s t
  created :
      (item : ContentItem) (revision : ContentRevision)
      → t.items ≡ item ∷ s.items
      → any (item_clash item) s.items ≡ false
      → t.revisions ≡ revision ∷ s.revisions
      → Captures revision item
      → needs_approval item.editorial_status ≡ false
      → t.reviews ≡ s.reviews
      → ContentStep s t
  changed :
      (claim : ContentItem → Bool) (change : ContentItem → ContentItem) (revision : ContentRevision)
      (before after : ContentItem)
      → Versioned claim change revision s t before after
      → Captures revision after
      → after.id ≡ before.id
      → after.version ≡ before.version + 1
      → EditorialStep s t before after
      → ContentStep s t

-- An approving review of an item.
abbrev pub Approval : ContentItem → List ContentReview → Type 0
Approval item reviews =
    (review : ContentReview) × Memᴰ review reviews
    × (review.content_item_id ≡ item.id)
    × (review.decision ≡ ReviewDecision.approved)

-- One row for an id; every item is captured by a revision at its version, and has none beyond it;
-- every revision is one of an item; and what needs an approval has one.
pub record IsConsistent (s : Store) : Type 0 where
  pub unique : UniqueIds s.items
  pub captured :
      (item : ContentItem)
      → Memᴰ item s.items
      → (revision : ContentRevision) × Memᴰ revision s.revisions × Captures revision item
  pub owned :
      (revision : ContentRevision)
      → Memᴰ revision s.revisions
      → (item : ContentItem) × Memᴰ item s.items × (item.id ≡ revision.content_item_id)
  pub bounded :
      (revision : ContentRevision) (item : ContentItem)
      → Memᴰ revision s.revisions
      → Memᴰ item s.items
      → item.id ≡ revision.content_item_id
      → revision.revision_number ≤ item.version
  pub approved :
      (item : ContentItem)
      → Memᴰ item s.items
      → needs_approval item.editorial_status ≡ true
      → Approval item s.reviews
