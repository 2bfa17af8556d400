-- ===== src/Contents/Reviewing.antt =====
-- contents.service.ts `decideReview`, and content-review.service.ts `decide` above it.
use Prim.Native.String.{String}
use ai_content_operating_sys.Base.{
  ℕ, Bool, true, false, not, ◌&&◌, ◌==◌, Option, none, some, is_some,
}
use ai_content_operating_sys.Errors.{
  Action, pure, throw_if, or_throw, transaction, ◌>>=◌, ◌>>◌, coded, bad_request, conflict_status,
  content_review_stale, content_review_note_required,
}
use ai_content_operating_sys.Text.{Text, optional_text}
use ai_content_operating_sys.Audit.{record_audit}
use ai_content_operating_sys.Auth.Permissions.{
  Permission, contents_reviews_approve, contents_reviews_request_changes,
}
use ai_content_operating_sys.Auth.Types.{AuthContext, WorkspaceContext}
use ai_content_operating_sys.Database.Client.{Client}
use ai_content_operating_sys.Database.ContentRows.{
  ContentItem, ContentRevision, ContentReview, ReviewDecision, review_clash,
}
use ai_content_operating_sys.Database.Store.{
  Store, content_item, content_revision, content_review, user, find_first, find_first_or_throw,
  update_many, create,
}
use ai_content_operating_sys.Contents.Domain.Status.{
  EditorialStatus, in_review, approved, changes_requested, same, can_transition_editorial_status,
}
use ai_content_operating_sys.Contents.Rules.{
  invalid_transition, stale_review, require_permission, assert_role_transition,
}
use ai_content_operating_sys.Contents.Revisions.{
  Draws, scoped, find_content, create_revision, audit_content,
}
use ai_content_operating_sys.Contents.Transition.{move_to}

pub record CreateContentReview : Type 0 where
  pub decision : ReviewDecision
  pub reviewed_revision_number : ℕ
  pub note : Option Text

-- the status that a decision leads to, and the permission that it takes
abbrev pub status_after : ReviewDecision → EditorialStatus
status_after ReviewDecision.approved = approved
status_after ReviewDecision.changes_requested = changes_requested

abbrev pub permission_for : ReviewDecision → Permission
permission_for ReviewDecision.approved = contents_reviews_approve
permission_for ReviewDecision.changes_requested = contents_reviews_request_changes

abbrev pub needs_note : ReviewDecision → Bool
needs_note ReviewDecision.approved = false
needs_note ReviewDecision.changes_requested = true

-- `{ workspaceId, websiteId, contentItemId, revisionNumber }`
abbrev pub revision_at : ℕ → ℕ → ℕ → ℕ → ContentRevision → Bool
revision_at workspace_id website_id content_id number r =
    r.workspace_id == workspace_id
    && r.website_id == website_id
    && r.content_item_id == content_id
    && r.revision_number == number

-- The review that a decision leaves.
abbrev pub review_of : ℕ → ℕ → ℕ → ℕ → ℕ → CreateContentReview → ContentRevision → ContentReview
review_of review_id actor workspace_id website_id content_id input reviewed = record {
  id = review_id;
  workspace_id = workspace_id;
  website_id = website_id;
  content_item_id = content_id;
  content_revision_id = reviewed.id;
  reviewer_user_id = actor;
  decision = input.decision;
  note = optional_text input.note;
  reviewed_revision_number = input.reviewed_revision_number;
}

abbrev pub review_action : ReviewDecision → String
review_action ReviewDecision.approved = "content.review.approved"
review_action ReviewDecision.changes_requested = "content.review.changes_requested"

-- The checks of `decideReview` on the item that was read.
unfoldable pub check_decision :
    WorkspaceContext → CreateContentReview → ContentItem → Action Store (Unit {0})
unfolding assert_role_transition
check_decision workspace input current = do
  assert_role_transition workspace current.editorial_status (status_after input.decision)
  throw_if
      (not (can_transition_editorial_status current.editorial_status (status_after input.decision)))
      invalid_transition
  throw_if (not (current.version == input.reviewed_revision_number))
      (coded conflict_status content_review_stale)
  throw_if (needs_note input.decision && not (is_some (optional_text input.note)))
      (coded bad_request content_review_note_required)

module _ (db : Client) (draws : Draws) where
  -- The end of the transaction of `decideReview`: the item is read back, reviewed and recorded.
  unfoldable pub record_decision :
      AuthContext
      → ℕ
      → ℕ
      → ℕ
      → CreateContentReview
      → ContentRevision
      → Action Store (ContentItem × ContentReview)
  unfolding create_revision
  record_decision actor workspace_id website_id content_id input reviewed = do
    item ← find_first_or_throw db content_item (scoped workspace_id website_id content_id)
    review ←
        create db content_review review_clash (
          review_of draws.review_id actor.user_id workspace_id website_id content_id input reviewed)
    _ ← create_revision db draws item actor.user_id (optional_text input.note) none
    pure (item, review)

  -- The transaction of `decideReview`.
  unfoldable pub write_decision :
      AuthContext
      → WorkspaceContext
      → ℕ
      → ℕ
      → CreateContentReview
      → Action Store (ContentItem × ContentReview)
  unfolding record_decision
  write_decision actor workspace website_id content_id input =
      let number = input.reviewed_revision_number in
      transaction do
        found ←
            find_first db content_revision (revision_at workspace.id website_id content_id number)
        reviewed ← or_throw found stale_review
        changed ←
            update_many db content_item
              (λ r.
                scoped workspace.id website_id content_id r
                && r.version == number
                && same r.editorial_status in_review)
              (move_to (status_after input.decision))
        throw_if (not (changed == 1)) stale_review
        record_decision actor workspace.id website_id content_id input reviewed

  unfoldable pub decide_review :
      AuthContext
      → WorkspaceContext
      → ℕ
      → ℕ
      → CreateContentReview
      → Action Store (ContentItem × ContentReview)
  decide_review actor workspace website_id content_id input = do
    current ← find_content db workspace.id website_id content_id
    check_decision workspace input current
    write_decision actor workspace website_id content_id input

  -- `ContentReviewService.decide`
  unfoldable pub decide :
      AuthContext → WorkspaceContext → ℕ → ℕ → CreateContentReview → Action Store ContentReview
  unfolding require_permission
  decide actor workspace website_id content_id input = do
    require_permission workspace (permission_for input.decision)
    (item, review) ← decide_review actor workspace website_id content_id input
    record_audit db (record {
      action = review_action input.decision;
      actor_user_id = some actor.user_id;
      workspace_id = some workspace.id;
      website_id = some website_id;
      target_type = "ContentReview";
      target_id = some review.id;
    })
    audit_content db "content.revision_created" actor.user_id workspace.id website_id content_id
    _ ← find_first_or_throw db user (λ u. u.id == actor.user_id)
    pure review
